-- ===== src/Indexer/Collect/Chosen.antt =====
-- Which files a directory yields.
use mathlib.Core.Bool.{true≢false}
use mathlib.Core.List.{Memᴰ}
use mathlib.Core.List.Memᴰ.{head, tail, append_left, append_right, append_cases}
use slang_server_extended.Base.{
  ◌∙◌, bytes_eq, codes, Bool, ◌||◌, Bytes, List, [], ◌∷◌, ◌++◌, true, false, if◌then◌else◌, ◌≡◌,
  ◌↔◌, refl, sym, ap, subst, arith, Bool-cases, inl, inr, starts_with,
}
use slang_server_extended.Indexer.Collect.{
  Entry, directory, regular_file, other, Entries, nil, cons, has_part, is_excluded,
  is_system_verilog_file, collect_entry, collect_entries,
}

-- `p` is a file below some entries, and no directory on the way down to it is excluded, by the test
-- of the source.
data Reached (exclude : List Bytes) (p : Bytes) : Entries → Type 0 where
  file : {q : Bytes} {es : Entries} → p ≡ q → Reached exclude p (cons (regular_file q) es)
  inside :
      {d : Bytes} {ds es : Entries}
      → is_excluded d exclude ≡ false
      → Reached exclude p ds
      → Reached exclude p (cons (directory d ds) es)
  later : {e : Entry} {es : Entries} → Reached exclude p es → Reached exclude p (cons e es)

module _ (extension : Bytes → Bytes) where
  collect_entries-Reached :
      (exclude : List Bytes) (p : Bytes) (es : Entries)
      → Memᴰ p (collect_entries extension exclude es)
      → Reached exclude p es × (is_system_verilog_file extension p ≡ true)
  unfolding collect_entries
  collect_entries-Reached exclude p nil m = elim m [ ]
  collect_entries-Reached exclude p (cons (directory d ds) es) m =
      elim (append_cases
        (if is_excluded d exclude then [] else collect_entries extension exclude ds) m) [
          | inr rest ↦ let (r, v) = collect_entries-Reached exclude p es rest in (later r, v)
          | inl below ↦ elim (Bool-cases (is_excluded d exclude)) [
            | inl skipped ↦
                elim (subst (λ b. Memᴰ p (if b then [] else collect_entries extension exclude ds))
                  skipped below) [ ]
            | inr entered ↦
                let (r, v) = collect_entries-Reached exclude p ds (
                  subst (λ b. Memᴰ p (if b then [] else collect_entries extension exclude ds))
                    entered below) in
                (inside entered r, v)
          ]
        ]
  collect_entries-Reached exclude p (cons (regular_file q) es) m =
      elim (append_cases (if is_system_verilog_file extension q then q ∷ [] else []) m) [
        | inr rest ↦ let (r, v) = collect_entries-Reached exclude p es rest in (later r, v)
        | inl here ↦ elim (Bool-cases (is_system_verilog_file extension q)) [
          | inr text ↦ elim (subst (λ b. Memᴰ p (if b then q ∷ [] else [])) text here) [ ]
          | inl verilog ↦ elim (subst (λ b. Memᴰ p (if b then q ∷ [] else [])) verilog here) [
            | head is ↦
                (file is, subst (λ x. is_system_verilog_file extension x ≡ true) (sym is) verilog)
            | tail empty ↦ elim empty [ ]
          ]
        ]
      ]
  collect_entries-Reached exclude p (cons (other q) es) m =
      let (r, v) = collect_entries-Reached exclude p es m in (later r, v)

  Reached-collect_entries :
      (exclude : List Bytes) (p : Bytes) (es : Entries)
      → Reached exclude p es
      → is_system_verilog_file extension p ≡ true
      → Memᴰ p (collect_entries extension exclude es)
  unfolding collect_entries
  Reached-collect_entries exclude p nil r v = elim r [ ]
  Reached-collect_entries exclude p (cons (regular_file q) es) (file is) v =
      let verilog = subst (λ x. is_system_verilog_file extension x ≡ true) is v in
      rw verilog (head is)
  Reached-collect_entries exclude p (cons (directory d ds) es) (inside entered r) v = rw entered (
      append_left (collect_entries extension exclude es) (Reached-collect_entries exclude p ds r v))
  Reached-collect_entries exclude p (cons e es) (later r) v =
      append_right (collect_entry extension exclude e) (Reached-collect_entries exclude p es r v)

starts_with-append : (d x : Bytes) → starts_with (d ++ x) d ≡ true
starts_with-append [] x = refl
starts_with-append (c ∷ d) x = ground (arith, starts_with-append d x)

starts_with-rest : (s d : Bytes) → starts_with s d ≡ true → (x : Bytes) × (s ≡ d ++ x)
starts_with-rest s [] h = (s, refl)
starts_with-rest [] (c ∷ d) h = ground (arith, h)
starts_with-rest (b ∷ s) (c ∷ d) h =
    let (x, e) = starts_with-rest s d (ground (arith, h)) in (x, ground (arith, h, e))

has_part-around : (a d b : Bytes) → has_part d (a ++ (d ++ b)) ≡ true
unfolding has_part
has_part-around [] [] [] = refl
has_part-around [] [] (c ∷ b) = refl
has_part-around [] (c ∷ d) b = ground (arith, starts_with-append d b)
has_part-around (c ∷ a) d b = ground (arith, has_part-around a d b)

has_part-found :
    (d s : Bytes) → has_part d s ≡ true → (a : Bytes) × (b : Bytes) × (s ≡ a ++ (d ++ b))
unfolding has_part
has_part-found d [] h = let (x, e) = starts_with-rest [] d h in ([], x, e)
has_part-found d (c ∷ s) h = elim (Bool-cases (starts_with (c ∷ s) d)) [
  | inl starts ↦ let (x, e) = starts_with-rest (c ∷ s) d starts in ([], x, e)
  | inr differs ↦
      let (a, b, e) = has_part-found d s (ground (arith, h, differs)) in (c ∷ a, b, ap (◌∷◌ c) e)
]

-- A directory is excluded by a name exactly where the name is a part of its path, wherever it starts
-- and ends.
pub has_part_iff :
    (d s : Bytes) → (has_part d s ≡ true) ↔ ((a : Bytes) × (b : Bytes) × (s ≡ a ++ (d ++ b)))
has_part_iff d s = (
  has_part-found d s,
  λ r. subst (λ x. has_part d x ≡ true) (sym r.2) (has_part-around r.0 d r.1),
)

-- No excluded name is a part of the path of the directory, wherever it starts and ends.
abbrev pub Clear : List Bytes → Bytes → Type 0
Clear exclude d = (x a b : Bytes) → Memᴰ x exclude → ¬ (d ≡ a ++ (x ++ b))

is_excluded-Clear : (ex : List Bytes) (d : Bytes) → is_excluded d ex ≡ false → Clear ex d
unfolding is_excluded
is_excluded-Clear [] d h x a b m e = elim m [ ]
is_excluded-Clear (y ∷ ex) d h x a b (head is) e =
    true≢false
      (sym ((has_part_iff y d).1 (a, b, subst (λ z. d ≡ a ++ (z ++ b)) is e)) ∙ ground (arith, h))
is_excluded-Clear (y ∷ ex) d h x a b (tail m) e =
    is_excluded-Clear ex d (ground (arith, h)) x a b m e

Clear-is_excluded : (ex : List Bytes) (d : Bytes) → Clear ex d → is_excluded d ex ≡ false
unfolding is_excluded
Clear-is_excluded [] d c = refl
Clear-is_excluded (y ∷ ex) d c = elim (Bool-cases (has_part y d)) [
  | inl part ↦ let (a, b, e) = (has_part_iff y d).0 part in absurd (c y a b (head refl) e)
  | inr free ↦ ground (arith, free, Clear-is_excluded ex d (λ x a b m. c x a b (tail m)))
]

-- `p` is a file below some entries, and no directory on the way down to it has an excluded name in
-- its path.
pub data IsBelow (exclude : List Bytes) (p : Bytes) : Entries → Type 0 where
  here : {q : Bytes} {es : Entries} → p ≡ q → IsBelow exclude p (cons (regular_file q) es)
  within :
      {d : Bytes} {ds es : Entries}
      → Clear exclude d
      → IsBelow exclude p ds
      → IsBelow exclude p (cons (directory d ds) es)
  beside : {e : Entry} {es : Entries} → IsBelow exclude p es → IsBelow exclude p (cons e es)

Reached-IsBelow : (ex : List Bytes) (p : Bytes) (es : Entries) → Reached ex p es → IsBelow ex p es
Reached-IsBelow ex p nil r = elim r [ ]
Reached-IsBelow ex p (cons (regular_file q) es) (file is) = here is
Reached-IsBelow ex p (cons (directory d ds) es) (inside h r) =
    within (is_excluded-Clear ex d h) (Reached-IsBelow ex p ds r)
Reached-IsBelow ex p (cons e es) (later r) = beside (Reached-IsBelow ex p es r)

IsBelow-Reached : (ex : List Bytes) (p : Bytes) (es : Entries) → IsBelow ex p es → Reached ex p es
IsBelow-Reached ex p nil r = elim r [ ]
IsBelow-Reached ex p (cons (regular_file q) es) (here is) = file is
IsBelow-Reached ex p (cons (directory d ds) es) (within h r) =
    inside (Clear-is_excluded ex d h) (IsBelow-Reached ex p ds r)
IsBelow-Reached ex p (cons e es) (beside r) = later (IsBelow-Reached ex p es r)

bytes_eq-eq : (s t : Bytes) → bytes_eq s t ≡ true → s ≡ t
bytes_eq-eq [] [] h = refl
bytes_eq-eq [] (d ∷ t) h = ground (arith, h)
bytes_eq-eq (c ∷ s) [] h = ground (arith, h)
bytes_eq-eq (c ∷ s) (d ∷ t) h = ground (arith, h, bytes_eq-eq s t)

bytes_eq_refl : (s : Bytes) → bytes_eq s s ≡ true
bytes_eq_refl [] = refl
bytes_eq_refl (c ∷ s) = ground (arith, bytes_eq_refl s)

rest_is :
    (a b c d : Bool) → a ≡ false → b ≡ false → c ≡ false → (a || b || c || d) ≡ true → d ≡ true
rest_is a b c d p q r h = ground (arith, p, q, r, h)

-- The extensions of SystemVerilog's files.
abbrev pub extensions : List Bytes
extensions = codes ".v" ∷ codes ".sv" ∷ codes ".svh" ∷ codes ".vh" ∷ []

module _ (extension : Bytes → Bytes) where
  verilog-extensions :
      (p : Bytes) → is_system_verilog_file extension p ≡ true → Memᴰ (extension p) extensions
  unfolding is_system_verilog_file
  verilog-extensions p h = elim (Bool-cases (bytes_eq (extension p) (codes ".sv"))) [
    | inl sv ↦ tail (head (bytes_eq-eq (extension p) (codes ".sv") sv))
    | inr not_sv ↦ elim (Bool-cases (bytes_eq (extension p) (codes ".svh"))) [
      | inl svh ↦ tail (tail (head (bytes_eq-eq (extension p) (codes ".svh") svh)))
      | inr neither ↦ elim (Bool-cases (bytes_eq (extension p) (codes ".v"))) [
        | inl v ↦ head (bytes_eq-eq (extension p) (codes ".v") v)
        | inr none_yet ↦ tail (
            tail (
              tail (
                head (
                  bytes_eq-eq (extension p) (codes ".vh")
                    (rest_is _ _ _ _ not_sv neither none_yet h)))))
      ]
    ]
  ]

  extensions-verilog :
      (p : Bytes) → Memᴰ (extension p) extensions → is_system_verilog_file extension p ≡ true
  unfolding is_system_verilog_file
  extensions-verilog p (head v) = rw v refl
  extensions-verilog p (tail (head sv)) = rw sv refl
  extensions-verilog p (tail (tail (head svh))) = rw svh refl
  extensions-verilog p (tail (tail (tail (head vh)))) = rw vh refl
  extensions-verilog p (tail (tail (tail (tail empty)))) = elim empty [ ]

  -- A path is collected from a directory exactly where it is a file below it whose extension is .v,
  -- .sv, .svh or .vh, and no directory on the way down to it has an excluded name in its path, be it
  -- the whole name of a directory or a part of one.
  pub collect_entries_iff :
      (exclude : List Bytes) (p : Bytes) (es : Entries)
      → Memᴰ p (collect_entries extension exclude es)
        ↔ (IsBelow exclude p es × Memᴰ (extension p) extensions)
  collect_entries_iff exclude p es = (
    (λ m.
        let (r, v) = collect_entries-Reached extension exclude p es m in
        (Reached-IsBelow exclude p es r, verilog-extensions p v)),
    λ r.
        Reached-collect_entries extension exclude p es (IsBelow-Reached exclude p es r.0)
          (extensions-verilog p r.1),
  )
