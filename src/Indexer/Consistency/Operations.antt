-- ===== src/Indexer/Consistency/Operations.antt =====
-- `updateDocument`, `removePathFromIndex` and `indexPath` against the consistency of the index.
use Prim.Native.String.{String}
use text.Mathlib.TextEquality.{eq_iff}
use slang_server_extended.Base.{
  ℕ, ◌+◌, ◌<◌, List, ◌≡◌, ap, ◌∙◌, arith, Bool-cases, Option-cases, inl, inr, none, some,
}
use slang_server_extended.MultiMap.{count}
use slang_server_extended.Indexer.Defs.{
  Index, IndexedPath, FileSyntax, no_entries, lookup_file, add_entries, contains, intern_uri,
  new_entries, update_document, clear_old, remove_path_from_index, store_entries, index_path,
}
use slang_server_extended.Indexer.Consistency.Files.{
  IsConsistent, entry_of, is_symbol, symbol_count, added_here,
}
use slang_server_extended.Indexer.Consistency.Steps.{
  IsCleared, lookup-erase, stored-IsConsistent, erased-IsConsistent, remove_entries-IsCleared,
  unlisted-IsCleared, entry-store_same,
}

intern-IsConsistent : (p : String) (ix : Index) → IsConsistent ix → IsConsistent (intern_uri p ix)
unfolding intern_uri
intern-IsConsistent p ix c = elim (Bool-cases (contains p ix.unique_uris)) [
  | inl known ↦ rw known c
  | inr new ↦ rw new (record { clean = c.clean; agrees = c.agrees })
]

pub intern-files : (p : String) (ix : Index) → (intern_uri p ix).indexed_files ≡ ix.indexed_files
unfolding intern_uri
intern-files p ix = ground arith

found_entry :
    (p : String) (fs : List (String × IndexedPath)) (e : IndexedPath)
    → lookup_file p fs ≡ some e
    → entry_of p fs ≡ e
unfolding entry_of
found_entry p fs e h = ground (arith, h)

pub missing_entry :
    (p : String) (fs : List (String × IndexedPath))
    → lookup_file p fs ≡ none
    → entry_of p fs ≡ no_entries
unfolding entry_of
missing_entry p fs h = ground (arith, h)

clear_old-IsCleared : (p : String) (ix : Index) → IsConsistent ix → IsCleared p (clear_old p ix)
unfolding clear_old
clear_old-IsCleared p ix c = elim (Option-cases (lookup_file p ix.indexed_files)) [
  | inl missing ↦
      rw (missing, clear_old) (unlisted-IsCleared p ix c (missing_entry p ix.indexed_files missing))
  | inr (old, found) ↦
      rw (found, clear_old)
        (remove_entries-IsCleared p old ix c (found_entry p ix.indexed_files old found))
]

-- Re-indexing an open document keeps the index consistent, whether the file was indexed before or
-- not.
pub update_document-IsConsistent :
    (p : String) (f : FileSyntax) (ix : Index)
    → IsConsistent ix
    → IsConsistent (update_document p f ix)
unfolding update_document
update_document-IsConsistent p f ix c =
    stored-IsConsistent p (new_entries p f) _
      (clear_old-IsCleared p (intern_uri p ix) (intern-IsConsistent p ix c))

-- Removing a file keeps the index consistent, and nothing is recorded of the file any more.
pub remove_path-IsConsistent :
    (p : String) (ix : Index)
    → IsConsistent ix
    → IsConsistent (remove_path_from_index p ix)
      × (lookup_file p (remove_path_from_index p ix).indexed_files ≡ none)
unfolding remove_path_from_index
remove_path-IsConsistent p ix c = elim (Option-cases (lookup_file p ix.indexed_files)) [
  | inl missing ↦ rw (missing, remove_path_from_index) (c, missing)
  | inr (old, found) ↦
      rw (found, remove_path_from_index)
        (
          erased-IsConsistent p _
              (remove_entries-IsCleared p old ix c (found_entry p ix.indexed_files old found)),
          ground (arith, lookup-erase p p ix.indexed_files, eq_iff p p),
        )
]

-- Indexing a file of which nothing is recorded keeps the index consistent.
pub index_path-IsConsistent :
    (p : String) (e : IndexedPath) (ix : Index)
    → IsConsistent ix
    → lookup_file p ix.indexed_files ≡ none
    → IsConsistent (index_path p e ix)
unfolding index_path
index_path-IsConsistent p e ix c h = stored-IsConsistent p _ _ (
    unlisted-IsCleared p (intern_uri p ix) (intern-IsConsistent p ix c)
      (missing_entry p _ (rw (intern-files p ix) h)))

intern_counts :
    (p : String) (ix : Index) (n : String) (k : ℕ)
    → symbol_count (intern_uri p ix) n p k ≡ symbol_count ix n p k
unfolding intern_uri
intern_counts p ix n k = ground arith

index_path_entry :
    (p : String) (e : IndexedPath) (ix : Index)
    → entry_of p (index_path p e ix).indexed_files ≡ record e { path = some p }
unfolding index_path store_entries add_entries
index_path_entry p e ix = entry-store_same p (record e { path = some p }) _

index_path_counts :
    (p : String) (e : IndexedPath) (ix : Index) (n : String) (k : ℕ)
    → symbol_count (index_path p e ix) n p k
      ≡ symbol_count ix n p k + count (is_symbol n k) e.symbols
unfolding index_path store_entries
index_path_counts p e ix n k =
    (added_here p (record e { path = some p }) (intern_uri p ix)).0 n k
    ∙ ap (λ (t : ℕ). t + count (is_symbol n k) e.symbols) (intern_counts p ix n k)

-- Indexing a file that is recorded, with no removal before, leaves its old entries behind: the index
-- is inconsistent afterwards wherever the old record had a symbol.
pub index_path_again :
    (p : String) (e : IndexedPath) (ix : Index) (n : String) (k : ℕ)
    → IsConsistent ix
    → 0 < count (is_symbol n k) (entry_of p ix.indexed_files).symbols
    → ¬ IsConsistent (index_path p e ix)
index_path_again p e ix n k c pos d = omega (
  arith,
  index_path_counts p e ix n k,
  (c.agrees p).0 n k,
  (d.agrees p).0 n k,
  ap (λ (x : IndexedPath). count (is_symbol n k) x.symbols) (index_path_entry p e ix),
)
