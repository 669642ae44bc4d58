-- ===== src/Formatting/Spaces.antt =====
-- What a line with its runs of spaces made one is, said without the loop of `squashSpaces`.
use slang_server_extended.Base.{
  ℕ, suc, List, [], ◌∷◌, ◌++◌, Bool, true, false, ◌||◌, ◌==◌, ◌≡◌, refl, ap, subst, sym, arith,
  Bytes, replicate, map, Bool-cases, inl, inr,
}
use slang_server_extended.Formatting.Defs.{squash_content, squash_line}

abbrev pub starts_in_space : Bytes → Bool
starts_in_space [] = false
starts_in_space (c ∷ s) = c == 32

abbrev pub starts_in_blank : Bytes → Bool
starts_in_blank [] = false
starts_in_blank (c ∷ s) = c == 32 || c == 9

-- The second text is the first with each whole run of spaces, one or more, made one space.
pub data Squashed : Bytes → Bytes → Type 0 where
  done : Squashed [] []
  byte : {c : ℕ} {s t : Bytes} → (c == 32) ≡ false → Squashed s t → Squashed (c ∷ s) (c ∷ t)
  run :
      {s t : Bytes} (n : ℕ)
      → starts_in_space s ≡ false
      → Squashed s t
      → Squashed (replicate (suc n) 32 ++ s) (32 ∷ t)

-- The indentation is the leading spaces and tabs; it stays, and the content behind it is squashed.
pub data SquashedLine : Bytes → Bytes → Type 0 where
  content : {s t : Bytes} → starts_in_blank s ≡ false → Squashed s t → SquashedLine s t
  blank :
      {c : ℕ} {s t : Bytes}
      → (c == 32 || c == 9) ≡ true
      → SquashedLine s t
      → SquashedLine (c ∷ s) (c ∷ t)

abbrev pub AreSquashed : List Bytes → List Bytes → Type 0
AreSquashed [] [] = Unit
AreSquashed [] (m ∷ ms) = ⊥
AreSquashed (l ∷ ls) [] = ⊥
AreSquashed (l ∷ ls) (m ∷ ms) = SquashedLine l m × AreSquashed ls ms

-- Behind a space: the spaces that follow are passed over.
record Behind (s t : Bytes) : Type 0 where
  count : ℕ
  rest : Bytes
  is : s ≡ replicate count 32 ++ rest
  ends : starts_in_space rest ≡ false
  squashed : Squashed rest t

squash_content-Squashed :
    (s : Bytes) → Squashed s (squash_content false s) × Behind s (squash_content true s)
unfolding squash_content
squash_content-Squashed [] =
    (done, record { count = 0; rest = []; is = refl; ends = refl; squashed = done })
squash_content-Squashed (c ∷ s) =
    let (whole, behind) = squash_content-Squashed s in
    elim (Bool-cases (c == 32)) [
      | inl space ↦
          let is_space : c ≡ 32 = ground (arith, space) in
          rw (space, squash_content)
            (
              subst (λ x. Squashed x (c ∷ squash_content true s)) (ap (λ x. c ∷ x) (sym behind.is))
                  (rw is_space (run behind.count behind.ends behind.squashed)),
              record {
                count = suc behind.count;
                rest = behind.rest;
                is = rw (is_space, behind.is) refl;
                ends = behind.ends;
                squashed = behind.squashed;
              },
            )
      | inr plain ↦
          rw (plain, squash_content)
            (
              byte plain whole,
              record {
                count = 0;
                rest = c ∷ s;
                is = refl;
                ends = plain;
                squashed = byte plain whole;
              },
            )
    ]

squash_line-SquashedLine : (l : Bytes) → SquashedLine l (squash_line l)
unfolding squash_line
squash_line-SquashedLine [] = content refl done
squash_line-SquashedLine (c ∷ s) = elim (Bool-cases (c == 32 || c == 9)) [
  | inl is ↦ rw (is, squash_line) (blank is (squash_line-SquashedLine s))
  | inr other ↦ rw (other, squash_line) (content other (squash_content-Squashed (c ∷ s)).0)
]

pub map-AreSquashed : (ls : List Bytes) → AreSquashed ls (map squash_line ls)
map-AreSquashed [] = tt
map-AreSquashed (l ∷ ls) = (squash_line-SquashedLine l, map-AreSquashed ls)
