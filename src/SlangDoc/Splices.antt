-- ===== src/SlangDoc/Splices.antt =====
-- What the edits of a buffer that ends in a NUL make of the text in front of the NUL.
use slang_server_extended.Base.{
  ℕ, ◌+◌, ◌≤◌, zero, suc, Bytes, [], ◌∷◌, ◌++◌, true, false, ltb, length, take, drop, ◌≡◌, refl,
  sym, ap, arith, take-append, drop-append, length-append, append_assoc, take-length-append,
  drop-length-append, Bool-cases, inl, inr,
}
use slang_server_extended.SlangDoc.Defs.{
  edited, ◌>=>◌, ends_in_nul, ensure_null_terminated, copy_around, erase, insert,
}

-- The text as the source manager holds it.
abbrev pub with_nul : Bytes → Bytes
with_nul t = t ++ (0 ∷ [])

-- A text with a range of it replaced.
abbrev pub splice : Bytes → ℕ → ℕ → Bytes → Bytes
splice t s e x = take s t ++ x ++ drop e t

length-with_nul : (t : Bytes) → length (with_nul t) ≡ length t + 1
length-with_nul t = omega (arith, length-append t (0 ∷ []))

ends_in_nul-with_nul : (t : Bytes) → ends_in_nul (with_nul t) ≡ true
ends_in_nul-with_nul [] = refl
ends_in_nul-with_nul (c ∷ []) = refl
ends_in_nul-with_nul (c ∷ d ∷ t) = ends_in_nul-with_nul (d ∷ t)

pub ensure_null_terminated-done : (t : Bytes) → ensure_null_terminated (with_nul t) ≡ with_nul t
unfolding ensure_null_terminated
ensure_null_terminated-done t = rw (ends_in_nul-with_nul t) refl

pub ensure_null_terminated-adds :
    (t : Bytes) → ends_in_nul t ≡ false → ensure_null_terminated t ≡ with_nul t
unfolding ensure_null_terminated
ensure_null_terminated-adds t h = rw h refl

length-take : (n : ℕ) (t : Bytes) → n ≤ length t → length (take n t) ≡ n
length-take zero t h = refl
length-take (suc n) [] h = elim h [ ]
length-take (suc n) (c ∷ t) h = ap suc (length-take n t (omega arith))

-- A cut between a part of known length and the rest.
take-cut : (n : ℕ) (a b : Bytes) → length a ≡ n → take n (a ++ b) ≡ a
take-cut n a b h = rw (sym h) (take-length-append a b)

drop-cut : (n : ℕ) (a b : Bytes) → length a ≡ n → drop n (a ++ b) ≡ b
drop-cut n a b h = rw (sym h) (drop-length-append a b)

splice-with_nul :
    (t x : Bytes) (s e : ℕ)
    → s ≤ length t
    → e ≤ length t
    → splice (with_nul t) s e x ≡ with_nul (splice t s e x)
splice-with_nul t x s e hs he =
    rw (take-append s t (0 ∷ []) hs, drop-append e t (0 ∷ []) he)
      (sym (append_assoc (take s t ++ x) (drop e t) (0 ∷ [])))

pub copy_around-splice :
    (t x : Bytes) (s e : ℕ)
    → s ≤ length t
    → e ≤ length t
    → copy_around (with_nul t) x (s, e) ≡ edited (with_nul (splice t s e x))
unfolding copy_around
copy_around-splice t x s e hs he = ground (arith, length-with_nul t, splice-with_nul t x s e hs he)

insert-cut : (s : ℕ) (a b x : Bytes) → length a ≡ s → insert s x (a ++ b) ≡ edited (a ++ x ++ b)
unfolding insert
insert-cut s a b x h = ground (arith, length-append a b, take-cut s a b h, drop-cut s a b h)

insert-splice :
    (t x : Bytes) (s : ℕ)
    → s ≤ length t
    → insert s x (with_nul t) ≡ edited (with_nul (splice t s s x))
unfolding insert
insert-splice t x s hs = ground (arith, length-with_nul t, splice-with_nul t x s s hs hs)

-- The deletion and the insertion of a later change put the text in place of the range.
pub erase-insert-splice :
    (t x : Bytes) (s e : ℕ)
    → s ≤ e
    → e ≤ length t
    → (erase (with_nul t) (s, e) >=> insert s x) ≡ edited (with_nul (splice t s e x))
unfolding erase
erase-insert-splice t x s e hs he = elim (Bool-cases (ltb s e)) [
  | inl less ↦ ground (
    arith,
    length-with_nul t,
    take-append s t (0 ∷ []) (omega arith),
    insert-cut s (take s t) (drop e (with_nul t)) x (length-take s t (omega arith)),
    splice-with_nul t x s e (omega arith) he,
  )
  | inr same ↦
      let eq : s ≡ e = ground arith in ground (arith, same, eq, insert-splice t x s (omega arith))
]
