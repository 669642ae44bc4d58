-- ===== src/Indexer/History.antt =====
-- The index against an abstract one: for each file, what its last text has to offer.
mod Kinds
use Prim.Native.String.{String}
use text.Mathlib.Text.{◌==◌ as str_eq}
use text.Mathlib.TextEquality.{eq_iff}
use slang_server_extended.Base.{
  ℕ, ◌+◌, ◌<◌, ◌⊎◌, List, [], ◌∷◌, Bool, true, false, ◌&&◌, ◌==◌, if◌then◌else◌, ◌≡◌, refl, sym, ap,
  ◌∙◌, arith, map, Bool-cases, Option-cases, inl, inr, Option, none, some, subst,
}
use slang_server_extended.MultiMap.{Map, find, entries, count}
use slang_server_extended.Indexer.Defs.{
  Index, IndexedPath, GlobalSymbol, GlobalSymbolLoc, FileSyntax, no_entries, lookup_file,
  store_file, erase_file, remove_entries, add_entries, intern_uri, new_entries, update_document,
  clear_old, remove_path_from_index, store_entries, get_files_for_symbol, get_files_for_macro,
  get_files_referencing_symbol, get_first_symbol_loc,
}
use slang_server_extended.Indexer.Consistency.Files.{
  IsConsistent, Agrees, entry_of, is_loc, is_symbol, is_text,
}
use slang_server_extended.Indexer.Consistency.Steps.{
  entry-store_same, entry-store_other, entry-erase_same, entry-erase_other,
}
use slang_server_extended.Indexer.Consistency.Operations.{
  intern-files, missing_entry, update_document-IsConsistent, remove_path-IsConsistent,
}
use slang_server_extended.Indexer.History.Kinds.{count-kinds}

pub data FileEvent : Type 0 where
  updated : String → FileSyntax → FileEvent
  removed : String → FileEvent

-- The events on the index, in order.
unfoldable pub run : List FileEvent → Index → Index
unfolding update_document remove_path_from_index
run [] ix = ix
run (updated p f ∷ es) ix = run es (update_document p f ix)
run (removed p ∷ es) ix = run es (remove_path_from_index p ix)

-- What a file has to offer after the events, from what it had before: the last event of the file
-- says it.
unfoldable pub recorded : List FileEvent → String → IndexedPath → IndexedPath
unfolding new_entries
recorded [] p e = e
recorded (updated q f ∷ es) p e = recorded es p (if str_eq q p then new_entries q f else e)
recorded (removed q ∷ es) p e = recorded es p (if str_eq q p then no_entries else e)

add_entries-files :
    (p : String) (e : IndexedPath) (ix : Index)
    → (add_entries p e ix).indexed_files ≡ ix.indexed_files
unfolding add_entries
add_entries-files p e ix = refl

remove_entries-files :
    (p : String) (e : IndexedPath) (ix : Index)
    → (remove_entries p e ix).indexed_files ≡ ix.indexed_files
unfolding remove_entries
remove_entries-files p e ix = refl

clear_old-files : (p : String) (ix : Index) → (clear_old p ix).indexed_files ≡ ix.indexed_files
unfolding clear_old
clear_old-files p ix = elim (Option-cases (lookup_file p ix.indexed_files)) [
  | inl missing ↦ rw (missing, clear_old) refl
  | inr (old, found) ↦ rw (found, clear_old) (remove_entries-files p old ix)
]

entry-store :
    (p q : String) (e : IndexedPath) (fs : List (String × IndexedPath))
    → entry_of p (store_file q e fs) ≡ (if str_eq q p then e else entry_of p fs)
entry-store p q e fs = elim (Bool-cases (str_eq q p)) [
  | inr other ↦ entry-store_other p q e fs other ∙ rw other refl
  | inl same ↦
      subst (λ x. entry_of x (store_file q e fs) ≡ e) ((eq_iff q p).0 same)
        (entry-store_same q e fs)
      ∙ rw same refl
]

entry-erase :
    (p q : String) (fs : List (String × IndexedPath))
    → entry_of p (erase_file q fs) ≡ (if str_eq q p then no_entries else entry_of p fs)
entry-erase p q fs = elim (Bool-cases (str_eq q p)) [
  | inr other ↦ entry-erase_other p q fs other ∙ rw other refl
  | inl same ↦
      subst (λ x. entry_of x (erase_file q fs) ≡ no_entries) ((eq_iff q p).0 same)
        (entry-erase_same q fs)
      ∙ rw same refl
]

pub update_document-entry :
    (p q : String) (f : FileSyntax) (ix : Index)
    → entry_of p (update_document q f ix).indexed_files
      ≡ (if str_eq q p then new_entries q f else entry_of p ix.indexed_files)
unfolding update_document store_entries
update_document-entry p q f ix =
    let old = clear_old q (intern_uri q ix) in
    ap (λ fs. entry_of p (store_file q (new_entries q f) fs))
      (add_entries-files q (new_entries q f) old
        ∙ clear_old-files q (intern_uri q ix)
        ∙ intern-files q ix)
    ∙ entry-store p q (new_entries q f) ix.indexed_files

remove_path-entry :
    (p q : String) (ix : Index)
    → entry_of p (remove_path_from_index q ix).indexed_files
      ≡ (if str_eq q p then no_entries else entry_of p ix.indexed_files)
unfolding remove_path_from_index
remove_path-entry p q ix = elim (Option-cases (lookup_file q ix.indexed_files)) [
  | inr (old, found) ↦
      rw (found, remove_path_from_index)
        (ap (λ fs. entry_of p (erase_file q fs)) (remove_entries-files q old ix)
          ∙ entry-erase p q ix.indexed_files)
  | inl missing ↦
      rw (missing, remove_path_from_index)
        (elim (Bool-cases (str_eq q p)) [
          | inr other ↦ rw other refl
          | inl same ↦ rw same (
              subst (λ x. entry_of x ix.indexed_files ≡ no_entries) ((eq_iff q p).0 same)
                (missing_entry q ix.indexed_files missing))
        ])
]

pub run-recorded :
    (es : List FileEvent) (ix : Index)
    → IsConsistent ix
    → IsConsistent (run es ix)
      × ((p : String)
          → entry_of p (run es ix).indexed_files ≡ recorded es p (entry_of p ix.indexed_files))
unfolding run recorded
run-recorded [] ix c = (c, λ p. refl)
run-recorded (updated q f ∷ es) ix c =
    let (d, h) = run-recorded es (update_document q f ix) (update_document-IsConsistent q f ix c) in
    (d, λ p. h p ∙ ap (recorded es p) (update_document-entry p q f ix))
run-recorded (removed q ∷ es) ix c =
    let (d, h) =
      run-recorded es (remove_path_from_index q ix) (remove_path-IsConsistent q ix c).0 in
    (d, λ p. h p ∙ ap (recorded es p) (remove_path-entry p q ix))

count-map :
    (f : GlobalSymbolLoc → String) (p : String → Bool) (ls : List GlobalSymbolLoc)
    → count p (map f ls) ≡ count (λ l. p (f l)) ls
unfolding count
count-map f p [] = refl
count-map f p (l ∷ ls) = ap (λ k. (if p (f l) then 1 else 0) + k) (count-map f p ls)

get_files_for_symbol-entries :
    (n : String) (ix : Index)
    → get_files_for_symbol n ix
      ≡ map (λ (l : GlobalSymbolLoc). l.uri) (entries n ix.symbol_to_files)
unfolding get_files_for_symbol entries
get_files_for_symbol-entries n ix = elim (Option-cases (find n ix.symbol_to_files)) [
  | inl missing ↦ rw (missing, get_files_for_symbol, entries) refl
  | inr (ls, found) ↦ rw (found, get_files_for_symbol, entries) refl
]

pub get_files_for_macro-entries :
    (n : String) (ix : Index) → get_files_for_macro n ix ≡ entries n ix.macro_to_files
unfolding get_files_for_macro entries
get_files_for_macro-entries n ix = refl

pub get_files_referencing_symbol-entries :
    (n : String) (ix : Index) → get_files_referencing_symbol n ix ≡ entries n ix.symbol_references
unfolding get_files_referencing_symbol entries
get_files_referencing_symbol-entries n ix = refl

abbrev pub names : String → GlobalSymbol → Bool
names n s = str_eq s.name n

pub get_files_for_symbol-names :
    (n p : String) (ix : Index)
    → IsConsistent ix
    → count (is_text p) (get_files_for_symbol n ix)
      ≡ count (names n) (entry_of p ix.indexed_files).symbols
get_files_for_symbol-names n p ix c =
    let ls = entries n ix.symbol_to_files in
    ap (count (is_text p)) (get_files_for_symbol-entries n ix)
    ∙ count-map (λ l. l.uri) (is_text p) ls
    ∙ count-kinds (λ (l : GlobalSymbolLoc). str_eq l.uri p) (λ l. l.kind) (names n) (λ s. s.kind) ls
        (entry_of p ix.indexed_files).symbols ((c.agrees p).0 n)

entries-get_first_symbol_loc :
    (n : String) (ix : Index)
    → ((get_first_symbol_loc n ix ≡ none) × (entries n ix.symbol_to_files ≡ []))
      ⊎ ((l : GlobalSymbolLoc) × (ls : List GlobalSymbolLoc) × (get_first_symbol_loc n ix ≡ some l)
          × (entries n ix.symbol_to_files ≡ l ∷ ls))
unfolding get_first_symbol_loc entries
entries-get_first_symbol_loc n ix = elim (Option-cases (find n ix.symbol_to_files)) [
  | inl missing ↦ rw (missing, get_first_symbol_loc, entries) (inl (refl, refl))
  | inr ([], found) ↦ rw (found, get_first_symbol_loc, entries) (inl (refl, refl))
  | inr (l ∷ ls, found) ↦ rw (found, get_first_symbol_loc, entries) (inr (l, ls, refl, refl))
]

declares_of :
    (n p : String) (ix : Index)
    → IsConsistent ix
    → count (λ (l : GlobalSymbolLoc). str_eq l.uri p) (entries n ix.symbol_to_files)
      ≡ count (names n) (entry_of p ix.indexed_files).symbols
declares_of n p ix c =
    count-kinds (λ (l : GlobalSymbolLoc). str_eq l.uri p) (λ l. l.kind) (names n) (λ s. s.kind)
      (entries n ix.symbol_to_files) (entry_of p ix.indexed_files).symbols ((c.agrees p).0 n)

count-head :
    (l : GlobalSymbolLoc) (ls : List GlobalSymbolLoc)
    → 0 < count (λ (k : GlobalSymbolLoc). str_eq k.uri l.uri) (l ∷ ls)
unfolding count
count-head l ls = ground (arith, (eq_iff l.uri l.uri).1 refl)

count-nil : (p : GlobalSymbolLoc → Bool) → count p [] ≡ 0
unfolding count
count-nil p = refl

-- In a consistent index `getFirstSymbolLoc` finds a file for a name exactly where some file is
-- recorded with a declaration of the name, and the file that it finds is recorded with one.
pub get_first_symbol_loc-names :
    (n : String) (ix : Index)
    → IsConsistent ix
    → ((l : GlobalSymbolLoc)
        → get_first_symbol_loc n ix ≡ some l
        → 0 < count (names n) (entry_of l.uri ix.indexed_files).symbols)
      × (get_first_symbol_loc n ix ≡ none
          → (p : String) → count (names n) (entry_of p ix.indexed_files).symbols ≡ 0)
get_first_symbol_loc-names n ix c = elim (entries-get_first_symbol_loc n ix) [
  | inl (first, empty) ↦ (
    λ l e. ground (arith, first, e),
    λ e p.
        sym (declares_of n p ix c)
        ∙ ap (count (λ (l : GlobalSymbolLoc). str_eq l.uri p)) empty
        ∙ count-nil (λ (l : GlobalSymbolLoc). str_eq l.uri p),
  )
  | inr (k, ks, first, full) ↦ (
    λ l e.
        let is : k ≡ l = ground (arith, first, e) in
        subst (λ x. 0 < count (names n) (entry_of x.uri ix.indexed_files).symbols) is
          (subst (λ m. 0 < m)
            (ap (count (λ (j : GlobalSymbolLoc). str_eq j.uri k.uri)) (sym full)
              ∙ declares_of n k.uri ix c)
            (count-head k ks)),
    λ e p. ground (arith, first, e),
  )
]
