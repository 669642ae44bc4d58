-- ===== src/Uri/Layout/Views.antt =====
-- The accessors of a URI against the components that the object was built from.
use slang_server_extended.Base.{
  zero, suc, ℕ, ◌+◌, ◌≤◌, Bytes, [], ◌∷◌, ◌++◌, append_assoc, append-nil, codes, bytes_eq,
  Bool-cases, inl, inr, ◌≡◌, refl, sym, ◌∙◌, arith, length, drop, length-append, drop-length-append,
  take_all, take-append, drop-append, length-drop,
}
use slang_server_extended.Uri.Layout.{
  Uri, Span, Cursor, view, scheme, authority, path, query, fragment, str, rooted, marked,
  write_scheme, write_authority, init, from_file, get_path,
}

view-append : (x y : Bytes) (p : Span) → p.0 + p.1 ≤ length x → view (x ++ y) p ≡ view x p
view-append x y (o, n) h =
    rw
      (drop-append o x y (omega arith), take-append n (drop o x) y (omega (arith, length-drop o x)))

-- `part` stands at `p` in the text of a cursor.
record Holds (c : Cursor) (p : Span) (part : Bytes) : Type 0 where
  shows : view c.0 p ≡ part
  within : p.0 + p.1 ≤ length c.0

-- A step writes behind the cursor, moves it to the new end, and places its part.
record Writes (c : Cursor) (part : Bytes) (w : Span × Cursor) : Type 0 where
  more : Bytes
  behind : w.1.0 ≡ c.0 ++ more
  at_end : w.1.1 ≡ length w.1.0
  placed : Holds w.1 w.0 part

-- What a step finds written stays where it is.
stays :
    {c : Cursor} {part : Bytes} {w : Span × Cursor} {p : Span} {earlier : Bytes}
    → Writes c part w
    → Holds c p earlier
    → Holds w.1 p earlier
stays {c} {w = w} {p} wr h = record {
  shows = rw wr.behind (view-append c.0 wr.more p h.within ∙ h.shows);
  within = rw wr.behind (omega (arith, length-append c.0 wr.more, h.within));
}

nothing : (c : Cursor) → Holds c (0, 0) []
nothing c = record { shows = refl; within = omega arith }

new_part : (x part : Bytes) (n m : ℕ) → n ≡ length x → Holds (x ++ part, m) (n, length part) part
new_part x part n m e = record {
  shows = rw (e, drop-length-append x part) (take_all (length part) part (omega arith));
  within = omega (arith, length-append x part);
}

marked-Writes :
    (mark : ℕ) (part : Bytes) (c : Cursor) → c.1 ≡ length c.0 → Writes c part (marked mark part c)
unfolding marked
marked-Writes mark [] c e = record {
  more = [];
  behind = sym (append-nil c.0);
  at_end = e;
  placed = nothing c;
}
marked-Writes mark (b ∷ part) c e = record {
  more = mark ∷ b ∷ part;
  behind = append_assoc c.0 (mark ∷ []) (b ∷ part);
  at_end =
      omega (arith, e, length-append (c.0 ++ mark ∷ []) (b ∷ part), length-append c.0 (mark ∷ []));
  placed =
      new_part (c.0 ++ mark ∷ []) (b ∷ part) _ _ (omega (arith, e, length-append c.0 (mark ∷ [])));
}

write_scheme-Writes : (s : Bytes) → Writes ([], 0) s (write_scheme s)
unfolding write_scheme
write_scheme-Writes [] = record {
  more = [];
  behind = refl;
  at_end = refl;
  placed = nothing ([], 0);
}
write_scheme-Writes (b ∷ s) = record {
  more = b ∷ s ++ b':' ∷ [];
  behind = refl;
  at_end = omega (arith, length-append (b ∷ s) (b':' ∷ []));
  placed = record {
    shows =
        take-append (length (b ∷ s)) (b ∷ s) (b':' ∷ []) (omega arith)
        ∙ take_all (length (b ∷ s)) (b ∷ s) (omega arith);
    within = omega (arith, length-append (b ∷ s) (b':' ∷ []));
  };
}

write_authority-Writes :
    (s a : Bytes) (c : Cursor) → c.1 ≡ length c.0 → Writes c a (write_authority s a c)
unfolding write_authority
write_authority-Writes s [] c e = elim (Bool-cases (bytes_eq s (codes "file"))) [
  | inl file ↦ rw file (record {
    more = codes "//";
    behind = refl;
    at_end = omega (arith, e, length-append c.0 (codes "//"));
    placed = nothing (c.0 ++ codes "//", c.1 + 2);
  })
  | inr other ↦
      rw other (record { more = []; behind = sym (append-nil c.0); at_end = e; placed = nothing c })
]
write_authority-Writes s (b ∷ a) c e =
    let grown : c.1 + 2 ≡ length (c.0 ++ codes "//") =
      omega (arith, e, length-append c.0 (codes "//")) in
    record {
      more = codes "//" ++ b ∷ a;
      behind = append_assoc c.0 (codes "//") (b ∷ a);
      at_end = omega (arith, grown, length-append (c.0 ++ codes "//") (b ∷ a));
      placed = new_part (c.0 ++ codes "//") (b ∷ a) _ _ grown;
    }

path-Writes :
    (r : Bytes) (c : Cursor)
    → c.1 ≡ length c.0
    → Writes c r ((c.1, length r), (c.0 ++ r, c.1 + length r))
path-Writes r c e = record {
  more = r;
  behind = refl;
  at_end = omega (arith, e, length-append c.0 r);
  placed = new_part c.0 r _ _ e;
}

pub init-views :
    (s a p q f : Bytes)
    → (scheme (init s a p q f) ≡ s)
      × (authority (init s a p q f) ≡ a)
      × (path (init s a p q f) ≡ rooted p)
      × (query (init s a p q f) ≡ q)
      × (fragment (init s a p q f) ≡ f)
unfolding init scheme authority path query fragment
init-views s a p q f =
    let h1 = write_scheme-Writes s in
    let h2 = write_authority-Writes s a (write_scheme s).1 h1.at_end in
    let h3 = path-Writes (rooted p) (write_authority s a (write_scheme s).1).1 h2.at_end in
    let h4 = marked-Writes b'?' q _ h3.at_end in
    let h5 = marked-Writes b'#' f _ h4.at_end in
    (
      (stays h5 (stays h4 (stays h3 (stays h2 h1.placed)))).shows,
      (stays h5 (stays h4 (stays h3 h2.placed))).shows,
      (stays h5 (stays h4 h3.placed)).shows,
      (stays h5 h4.placed).shows,
      h5.placed.shows,
    )

from_file_path : (s : Bytes) → path (from_file (b'/' ∷ s)) ≡ b'/' ∷ s
unfolding from_file
from_file_path s = (init-views (codes "file") [] (b'/' ∷ s) [] []).2 ∙ unfold rooted in refl

from_file_fresh : (s : Bytes) → (from_file (b'/' ∷ s)).fs_path ≡ []
unfolding from_file init
from_file_fresh s = refl

-- The object after some calls of `get_path`.
abbrev pub after_calls : ℕ → Uri → Uri
after_calls zero u = u
after_calls (suc n) u = after_calls n (get_path u).1

get_path_kept :
    (n : ℕ) (u : Uri) (c : ℕ) (s : Bytes)
    → u.fs_path ≡ c ∷ s
    → (get_path (after_calls n u)).0 ≡ c ∷ s
unfolding get_path
get_path_kept zero u c s e = rw e refl
get_path_kept (suc n) u c s e = get_path_kept n (get_path u).1 c s (rw e refl)

get_path_fresh :
    (n : ℕ) (u : Uri) (c : ℕ) (s : Bytes)
    → u.fs_path ≡ []
    → path u ≡ c ∷ s
    → (get_path (after_calls n u)).0 ≡ c ∷ s
unfolding get_path
get_path_fresh zero u c s e h = rw (e, h)
get_path_fresh (suc n) u c s e h = get_path_kept n (get_path u).1 c s (rw (e, h))

-- The path of a file URI is the absolute path that it was made from, at the first call of `get_path`
-- and after any number of calls of it, and its text is the path behind `file://`.
pub get_path-from_file :
    (n : ℕ) (s : Bytes)
    → ((get_path (after_calls n (from_file (b'/' ∷ s)))).0 ≡ b'/' ∷ s)
      × (str (from_file (b'/' ∷ s)) ≡ codes "file:///" ++ s)
get_path-from_file n s = (
  get_path_fresh n (from_file (b'/' ∷ s)) b'/' s (from_file_fresh s) (from_file_path s),
  unfold from_file str init write_scheme write_authority marked rooted in refl,
)
