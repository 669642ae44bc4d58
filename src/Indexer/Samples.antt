-- ===== src/Indexer/Samples.antt =====
-- Runs of the indexer on a small workspace, and the theorems at them.
use mathlib.Core.List.{Memᴰ}
use Prim.Native.String.{String}
use slang_server_extended.Base.{
  Bytes, codes, ◌==◌, if◌then◌else◌, ◌↔◌, ℕ, ◌<◌, List, [], ◌∷◌, Bool, true, false, Option, none,
  some, ◌≡◌, refl, arith,
}
use slang_server_extended.MultiMap.{entries, count, push}
use slang_server_extended.Indexer.Defs.{
  Index, GlobalSymbolLoc, FileSyntax, FileChangeType, lookup_file, update_document, index_path,
  index_one, on_watched_files, get_files_for_symbol, get_files_for_macro,
  get_files_referencing_symbol, get_first_symbol_loc, get_all_macro_names, get_symbol_count,
}
use slang_server_extended.Indexer.Consistency.Files.{IsConsistent, entry_of}
use slang_server_extended.Indexer.Consistency.Operations.{
  update_document-IsConsistent, index_path_again,
}
use slang_server_extended.Indexer.Consistency.Batch.{on_watched_files-IsConsistent}
use slang_server_extended.Indexer.Collect.{
  Entries, nil, cons, directory, regular_file, collect_entries,
}
use slang_server_extended.Indexer.Collect.Chosen.{IsBelow, extensions, collect_entries_iff}
use slang_server_extended.Indexer.History.{
  FileEvent, updated, removed, names, get_first_symbol_loc-names,
}

abbrev empty_index : Index
empty_index = record {
  symbol_to_files = [];
  macro_to_files = [];
  symbol_references = [];
  unique_uris = [];
  indexed_files = [];
}

abbrev module_kind : ℕ
module_kind = 7

abbrev top_file : FileSyntax
top_file = record {
  members =
      record { declares = true; kind = module_kind; name = "top" }
      ∷ record { declares = false; kind = 3; name = "x" }
      ∷ [];
  referenced = "sub" ∷ "pkg" ∷ "sub" ∷ [];
  macros = some (record { name = "W"; has_location = true }) ∷ [];
  node_meta_empty = false;
  class_decls_empty = true;
}

abbrev macro_file : FileSyntax
macro_file = record {
  members = [];
  referenced = "pkg" ∷ [];
  macros =
      none
      ∷ some (record { name = "W"; has_location = true })
      ∷ some (record { name = "I"; has_location = false })
      ∷ [];
  node_meta_empty = true;
  class_decls_empty = true;
}

read_file : String → Option FileSyntax
read_file p = some top_file

all_exist : String → Bool
all_exist p = true

abbrev workspace : Index
workspace = update_document "m.svh" macro_file (update_document "top.sv" top_file empty_index)

queries :
    (get_files_for_symbol "top" workspace ≡ "top.sv" ∷ [])
    × (get_files_for_macro "W" workspace ≡ "m.svh" ∷ [])
    × (get_files_referencing_symbol "pkg" workspace ≡ "top.sv" ∷ "m.svh" ∷ [])
    × (get_first_symbol_loc "top" workspace ≡ some (record { uri = "top.sv"; kind = 7 }))
    × (get_all_macro_names workspace ≡ "W" ∷ [])
    × (get_symbol_count workspace ≡ 1)
unfolding get_files_for_symbol get_files_for_macro get_files_referencing_symbol get_first_symbol_loc
    get_all_macro_names get_symbol_count update_document push
queries = (refl, refl, refl, refl, refl, refl)

-- A macro header read from disk gives no references, the same header saved in the editor does.
header_references : (index_one (some macro_file)).referenced_symbols ≡ []
unfolding index_one
header_references = refl

empty-IsConsistent : IsConsistent empty_index
unfolding entry_of entries count
empty-IsConsistent = record {
  clean = (tt, tt, tt);
  agrees = λ p. ((λ n k. refl), (λ n. refl), (λ n. refl));
}

workspace-IsConsistent : IsConsistent workspace
workspace-IsConsistent =
    update_document-IsConsistent "m.svh" macro_file _
      (update_document-IsConsistent "top.sv" top_file empty_index empty-IsConsistent)

index_path_again_example :
    ¬ IsConsistent (index_path "top.sv" (index_one (some top_file)) workspace)
unfolding update_document entry_of count
index_path_again_example =
    index_path_again "top.sv" (index_one (some top_file)) workspace "top" module_kind
      workspace-IsConsistent (omega arith)

on_watched_files-IsConsistent_example : IsConsistent (
    on_watched_files read_file all_exist
      (("a.sv", FileChangeType.created) ∷ ("b.sv", FileChangeType.deleted) ∷ [])
      empty_index)
unfolding lookup_file
on_watched_files-IsConsistent_example =
    on_watched_files-IsConsistent read_file all_exist
      (("a.sv", FileChangeType.created) ∷ ("b.sv", FileChangeType.deleted) ∷ []) empty_index
      empty-IsConsistent (λ p h. refl) (refl, refl, (refl, tt))

-- A file updated twice, and one that is removed again.
abbrev events : List FileEvent
events =
    updated "top.sv" macro_file
    ∷ updated "m.svh" macro_file
    ∷ updated "top.sv" top_file
    ∷ removed "m.svh"
    ∷ []

get_first_symbol_loc-names_example :
    ((l : GlobalSymbolLoc)
      → get_first_symbol_loc "top" (update_document "top.sv" top_file empty_index) ≡ some l
      → 0
        < count
            (names "top")
            (entry_of l.uri (update_document "top.sv" top_file empty_index).indexed_files).symbols)
    × (get_first_symbol_loc "top" (update_document "top.sv" top_file empty_index) ≡ none
        → (p : String)
        → count
            (names "top")
            (entry_of p (update_document "top.sv" top_file empty_index).indexed_files).symbols
          ≡ 0)
get_first_symbol_loc-names_example =
    get_first_symbol_loc-names "top" (update_document "top.sv" top_file empty_index)
      (update_document-IsConsistent "top.sv" top_file empty_index empty-IsConsistent)

-- The extension, for paths whose last part has one dot at most and no dot in front.
abbrev extension : Bytes → Bytes
extension [] = []
extension (c ∷ s) = if c == b'.' then c ∷ s else extension s

-- /w/a.sv, /w/build/b.sv, /w/rebuild/c.sv and /w/notes.txt
abbrev tree : Entries
tree = cons (regular_file (codes "/w/a.sv")) (
    cons (directory (codes "/w/build") (cons (regular_file (codes "/w/build/b.sv")) nil)) (
      cons (directory (codes "/w/rebuild") (cons (regular_file (codes "/w/rebuild/c.sv")) nil))
        (cons (regular_file (codes "/w/notes.txt")) nil)))

-- "build" keeps out a directory whose name only contains it.
rebuild_left_out : collect_entries extension (codes "build" ∷ []) tree ≡ codes "/w/a.sv" ∷ []
unfolding collect_entries
rebuild_left_out = refl

collect_entries_iff_example :
    Memᴰ (codes "/w/a.sv") (collect_entries extension (codes "build" ∷ []) tree) ↔ (
      IsBelow (codes "build" ∷ []) (codes "/w/a.sv") tree
      × Memᴰ (extension (codes "/w/a.sv")) extensions)
collect_entries_iff_example =
    collect_entries_iff extension (codes "build" ∷ []) (codes "/w/a.sv") tree
