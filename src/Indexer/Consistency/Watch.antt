-- ===== src/Indexer/Consistency/Watch.antt =====
-- The documents that a batch of watched-file events adds.
use Prim.Native.String.{String}
use text.Mathlib.Text.{◌==◌ as str_eq}
use text.Mathlib.TextEquality.{eq_iff}
use slang_server_extended.Base.{
  List, [], ◌∷◌, Bool, true, false, if◌then◌else◌, ◌≡◌, arith, Option, none, some,
}
use slang_server_extended.Indexer.Defs.{
  Index, IndexedPath, FileSyntax, FileChangeType, lookup_file, contains, intern_uri, index_path,
  index_all, index_one, index_paths, add_documents, store_entries, add_entries,
}
use slang_server_extended.Indexer.Consistency.Files.{IsConsistent}
use slang_server_extended.Indexer.Consistency.Steps.{lookup-store}
use slang_server_extended.Indexer.Consistency.Operations.{index_path-IsConsistent, intern-files}

-- None of the paths is recorded, and none stands twice.
abbrev pub AreNew : List (String × IndexedPath) → List String → Type 0
AreNew fs [] = Unit
AreNew fs (p ∷ ps) = (lookup_file p fs ≡ none) × (contains p ps ≡ false) × AreNew fs ps

-- Every recorded path is interned.
abbrev pub IsInterned : Index → Type 0
IsInterned ix =
    (p : String) → contains p ix.unique_uris ≡ false → lookup_file p ix.indexed_files ≡ none

-- No path has two events in the batch, and a created file is not recorded yet.
abbrev pub named : String → List (String × FileChangeType) → Bool
named p [] = false
named p ((q, t) ∷ cs) = if str_eq q p then true else named p cs

abbrev pub IsSound : List (String × IndexedPath) → List (String × FileChangeType) → Type 0
IsSound fs [] = Unit
IsSound fs ((p, FileChangeType.created) ∷ cs) =
    (lookup_file p fs ≡ none) × (named p cs ≡ false) × IsSound fs cs
IsSound fs ((p, FileChangeType.changed) ∷ cs) = (named p cs ≡ false) × IsSound fs cs
IsSound fs ((p, FileChangeType.deleted) ∷ cs) = (named p cs ≡ false) × IsSound fs cs

lookup-index_path :
    (p q : String) (e : IndexedPath) (ix : Index)
    → str_eq q p ≡ false
    → lookup_file p ix.indexed_files ≡ none
    → lookup_file p (index_path q e ix).indexed_files ≡ none
unfolding index_path store_entries add_entries
lookup-index_path p q e ix h miss = ground (
  arith,
  lookup-store p q (record e { path = some q }) (intern_uri q ix).indexed_files,
  intern-files q ix,
)

AreNew-index_path :
    (q : String) (e : IndexedPath) (ix : Index) (ps : List String)
    → contains q ps ≡ false
    → AreNew ix.indexed_files ps
    → AreNew (index_path q e ix).indexed_files ps
AreNew-index_path q e ix [] h n = tt
AreNew-index_path q e ix (p ∷ ps) h (miss, once, rest) = (
  lookup-index_path p q e ix (ground (arith, eq_iff p q, eq_iff q p)) miss,
  once,
  AreNew-index_path q e ix ps (ground arith) rest,
)

module _ (read : String → Option FileSyntax) (exists : String → Bool) where
  pub add_documents-IsConsistent :
      (ps : List String) (ix : Index)
      → IsConsistent ix
      → AreNew ix.indexed_files ps
      → IsConsistent (add_documents read exists ps ix)
  unfolding add_documents index_paths index_all
  add_documents-IsConsistent [] ix c n = c
  add_documents-IsConsistent (p ∷ ps) ix c (miss, once, rest) =
      add_documents-IsConsistent ps _ (index_path-IsConsistent p (index_one (read p)) ix c miss)
        (AreNew-index_path p (index_one (read p)) ix ps once rest)
