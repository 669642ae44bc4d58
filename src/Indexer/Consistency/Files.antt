-- ===== src/Indexer/Consistency/Files.antt =====
-- The agreement between the index and the record of each file, and what the three loops of removal
-- and of insertion do to the counts of one file and of the others.
use Prim.Native.String.{String}
use text.Mathlib.Text.{◌==◌ as str_eq}
use text.Mathlib.TextEquality.{eq_iff}
use slang_server_extended.Base.{
  ℕ, ◌+◌, ◌<◌, List, Bool, true, false, not, ◌&&◌, ◌==◌, ◌≡◌, sym, ap, ◌∙◌, arith, ◌⊎◌, none, some,
}
use slang_server_extended.MultiMap.{entries, count, IsClean}
use slang_server_extended.Indexer.Defs.{
  Index, IndexedPath, GlobalSymbol, GlobalSymbolLoc, no_entries, lookup_file, remove_entries,
  add_entries, same_loc, loc_at, itself,
}
use slang_server_extended.Indexer.Consistency.Loops.{
  count-push_each, count-remove_each_spared, count-remove_each_covered, push_each-IsClean,
  remove_each-IsClean, count-same, count-none,
}

-- What a file has contributed.
unfoldable pub entry_of : String → List (String × IndexedPath) → IndexedPath
unfolding lookup_file
entry_of p fs = elim (lookup_file p fs) [ none ↦ no_entries | some e ↦ e ]

abbrev pub is_loc : String → ℕ → GlobalSymbolLoc → Bool
is_loc p k loc = str_eq loc.uri p && loc.kind == k

abbrev pub is_symbol : String → ℕ → GlobalSymbol → Bool
is_symbol n k item = str_eq item.name n && item.kind == k

abbrev pub is_text : String → String → Bool
is_text p q = str_eq q p

-- How often the index lists a file under a name.
abbrev pub symbol_count : Index → String → String → ℕ → ℕ
symbol_count ix n p k = count (is_loc p k) (entries n ix.symbol_to_files)

abbrev pub macro_count : Index → String → String → ℕ
macro_count ix n p = count (is_text p) (entries n ix.macro_to_files)

abbrev pub reference_count : Index → String → String → ℕ
reference_count ix n p = count (is_text p) (entries n ix.symbol_references)

abbrev pub AreMapsClean : Index → Type 0
AreMapsClean ix =
    IsClean ix.symbol_to_files × IsClean ix.macro_to_files × IsClean ix.symbol_references

-- The index lists a file under a name as often as the file's record has the name.
abbrev pub Agrees : Index → String → IndexedPath → Type 0
Agrees ix p e =
    ((n : String) (k : ℕ) → symbol_count ix n p k ≡ count (is_symbol n k) e.symbols)
    × ((n : String) → macro_count ix n p ≡ count (is_text n) e.macros)
    × ((n : String) → reference_count ix n p ≡ count (is_text n) e.referenced_symbols)

pub record IsConsistent (ix : Index) : Type 0 where
  pub clean : AreMapsClean ix
  pub agrees : (p : String) → Agrees ix p (entry_of p ix.indexed_files)

loc_covered :
    (p : String) (k : ℕ) (i : GlobalSymbol)
    → is_loc p k (loc_at p i) ≡ true
    → (v : GlobalSymbolLoc) → (is_loc p k v && not (same_loc p i v)) ≡ false
loc_covered p k i h v = ground (arith, eq_iff v.uri p, eq_iff p p)

loc_spared :
    (p q : String) (k : ℕ)
    → str_eq q p ≡ false
    → (i : GlobalSymbol) (v : GlobalSymbolLoc)
    → (is_loc p k v && not (same_loc q i v)) ≡ is_loc p k v
loc_spared p q k h i v = ground (arith, eq_iff v.uri p, eq_iff v.uri q, eq_iff q p)

text_covered : (p : String) (v : String) → (is_text p v && not (is_text p v)) ≡ false
text_covered p v = ground (arith, eq_iff v p)

text_spared :
    (p q : String)
    → str_eq q p ≡ false
    → (v : String) → (is_text p v && not (is_text q v)) ≡ is_text p v
text_spared p q h v = ground (arith, eq_iff v p, eq_iff v q, eq_iff q p)

-- The items that the insertion loop adds for a file, read back for the same file.
symbol_hits :
    (n p : String) (k : ℕ) (xs : List GlobalSymbol)
    → count (λ i. str_eq i.name n && is_loc p k (loc_at p i)) xs ≡ count (is_symbol n k) xs
symbol_hits n p k xs = count-same _ _ xs (λ i. ground (arith, eq_iff p p, eq_iff i.name n))

text_hits :
    (n p : String) (xs : List String)
    → count (λ i. str_eq i n && is_text p p) xs ≡ count (is_text n) xs
text_hits n p xs = count-same _ _ xs (λ i. ground (arith, eq_iff p p, eq_iff i n))

-- The insertion loops add what the entry has to its file.
pub added_here :
    (p : String) (e : IndexedPath) (ix : Index)
    → ((n : String) (k : ℕ)
        → symbol_count (add_entries p e ix) n p k
          ≡ symbol_count ix n p k + count (is_symbol n k) e.symbols)
      × ((n : String)
          → macro_count (add_entries p e ix) n p ≡ macro_count ix n p + count (is_text n) e.macros)
      × ((n : String)
          → reference_count (add_entries p e ix) n p
            ≡ reference_count ix n p + count (is_text n) e.referenced_symbols)
unfolding add_entries
added_here p e ix = (
  (λ n k.
      count-push_each (λ i. i.name) (is_loc p k) (loc_at p) n e.symbols ix.symbol_to_files
      ∙ ap (λ (t : ℕ). symbol_count ix n p k + t) (symbol_hits n p k e.symbols)),
  (λ n.
      count-push_each itself (is_text p) (λ _. p) n e.macros ix.macro_to_files
      ∙ ap (λ (t : ℕ). macro_count ix n p + t) (text_hits n p e.macros)),
  (λ n.
      count-push_each itself (is_text p) (λ _. p) n e.referenced_symbols ix.symbol_references
      ∙ ap (λ (t : ℕ). reference_count ix n p + t) (text_hits n p e.referenced_symbols)),
)

-- No counts change for another file.
abbrev pub SameCounts : Index → Index → String → Type 0
SameCounts ix jx p =
    ((n : String) (k : ℕ) → symbol_count jx n p k ≡ symbol_count ix n p k)
    × ((n : String) → macro_count jx n p ≡ macro_count ix n p)
    × ((n : String) → reference_count jx n p ≡ reference_count ix n p)

no_hits :
    (n q p : String) (xs : List String)
    → str_eq q p ≡ false
    → count (λ i. str_eq i n && is_text p q) xs ≡ 0
no_hits n q p xs h = count-none _ xs (λ i. ground (arith, eq_iff i n, eq_iff q p))

pub added_elsewhere :
    (q p : String) (e : IndexedPath) (ix : Index)
    → str_eq q p ≡ false
    → SameCounts ix (add_entries q e ix) p
unfolding add_entries
added_elsewhere q p e ix h = (
  (λ n k. omega (
    arith,
    count-push_each (λ i. i.name) (is_loc p k) (loc_at q) n e.symbols ix.symbol_to_files,
    count-none (λ i. str_eq i.name n && is_loc p k (loc_at q i)) e.symbols
        (λ i. ground (arith, eq_iff i.name n, eq_iff q p)),
  )),
  (λ n. omega (
    arith,
    count-push_each itself (is_text p) (λ _. q) n e.macros ix.macro_to_files,
    no_hits n q p e.macros h,
  )),
  (λ n. omega (
    arith,
    count-push_each itself (is_text p) (λ _. q) n e.referenced_symbols ix.symbol_references,
    no_hits n q p e.referenced_symbols h,
  )),
)

pub removed_elsewhere :
    (q p : String) (e : IndexedPath) (ix : Index)
    → AreMapsClean ix
    → str_eq q p ≡ false
    → SameCounts ix (remove_entries q e ix) p
unfolding remove_entries
removed_elsewhere q p e ix c h = (
  (λ n k.
      count-remove_each_spared (λ i. i.name) (is_loc p k) (same_loc q) n e.symbols
        ix.symbol_to_files c.0 (loc_spared p q k h)),
  (λ n.
      count-remove_each_spared itself (is_text p) (λ _ v. is_text q v) n e.macros ix.macro_to_files
        c.1 (λ _. text_spared p q h)),
  (λ n.
      count-remove_each_spared itself (is_text p) (λ _ v. is_text q v) n e.referenced_symbols
        ix.symbol_references c.2 (λ _. text_spared p q h)),
)

zero_or_pos : (a b : ℕ) → a ≡ b → (a ≡ 0) ⊎ (0 < b)
zero_or_pos a b e = ground arith

-- The removal loops leave nothing of a file whose entry the index agrees with.
pub removed_here :
    (p : String) (e : IndexedPath) (ix : Index)
    → AreMapsClean ix
    → Agrees ix p e
    → Agrees (remove_entries p e ix) p no_entries
unfolding remove_entries count
removed_here p e ix c a = (
  (λ n k.
      count-remove_each_covered (λ i. i.name) (is_loc p k) (same_loc p) (loc_at p) n e.symbols
        ix.symbol_to_files c.0 (loc_covered p k)
        (zero_or_pos _ _ (a.0 n k ∙ sym (symbol_hits n p k e.symbols)))),
  (λ n.
      count-remove_each_covered itself (is_text p) (λ _ v. is_text p v) (λ _. p) n e.macros
        ix.macro_to_files c.1 (λ _ _. text_covered p)
        (zero_or_pos _ _ (a.1 n ∙ sym (text_hits n p e.macros)))),
  (λ n.
      count-remove_each_covered itself (is_text p) (λ _ v. is_text p v) (λ _. p) n
        e.referenced_symbols ix.symbol_references c.2 (λ _ _. text_covered p)
        (zero_or_pos _ _ (a.2 n ∙ sym (text_hits n p e.referenced_symbols)))),
)

pub add_entries-clean :
    (p : String) (e : IndexedPath) (ix : Index)
    → AreMapsClean ix
    → AreMapsClean (add_entries p e ix)
unfolding add_entries
add_entries-clean p e ix (c, d, f) = (
  push_each-IsClean _ _ e.symbols _ c,
  push_each-IsClean _ _ e.macros _ d,
  push_each-IsClean _ _ e.referenced_symbols _ f,
)

pub remove_entries-clean :
    (p : String) (e : IndexedPath) (ix : Index)
    → AreMapsClean ix
    → AreMapsClean (remove_entries p e ix)
unfolding remove_entries
remove_entries-clean p e ix (c, d, f) = (
  remove_each-IsClean _ _ e.symbols _ c,
  remove_each-IsClean _ _ e.macros _ d,
  remove_each-IsClean _ _ e.referenced_symbols _ f,
)
