-- ===== src/Indexer/Collect.antt =====
-- The choice of the files to index: `startIndexing`, `collectFilesFromDirectory` and the two tests. A
-- file system is a tree, in the order of `recursive_directory_iterator`; a path is its bytes. What
-- `fs::path` makes of a path (its extension, whether it is absolute, the joining of two) and the
-- files of a pattern are parameters.
pub mod Chosen
use slang_server_extended.Base.{
  ℕ, Bytes, List, [], ◌∷◌, ◌++◌, Bool, true, false, not, ◌&&◌, ◌||◌, if◌then◌else◌, Option, none,
  some, bytes_eq, starts_with, codes,
}

-- What stands in a directory: a path with its kind.
mutual
  pub data Entry : Type 0 where
    directory : Bytes → Entries → Entry
    regular_file : Bytes → Entry
    other : Bytes → Entry

  pub data Entries : Type 0 where
    nil : Entries
    cons : Entry → Entries → Entries

-- `path.find(dir) != npos`
unfoldable pub has_part : Bytes → Bytes → Bool
has_part dir [] = starts_with [] dir
has_part dir (c ∷ s) = let rest = has_part dir s in if starts_with (c ∷ s) dir then true else rest

unfoldable pub is_excluded : Bytes → List Bytes → Bool
unfolding has_part
is_excluded path [] = false
is_excluded path (d ∷ ds) = let rest = is_excluded path ds in if has_part d path then true else rest

-- `IndexConfig`
pub record IndexConfig : Type 0 where
  pub dirs : List Bytes
  pub exclude_dirs : Option (List Bytes)

abbrev pub value_or : Option (List Bytes) → List Bytes
value_or none = []
value_or (some ds) = ds

module _ (extension : Bytes → Bytes) where
  unfoldable pub is_system_verilog_file : Bytes → Bool
  is_system_verilog_file path =
      let ext = extension path in
      bytes_eq ext (codes ".sv")
      || bytes_eq ext (codes ".svh")
      || bytes_eq ext (codes ".v")
      || bytes_eq ext (codes ".vh")

  -- The loop of the iterator, which does not go down into an excluded directory.
  unfoldable mutual
    unfolding is_excluded is_system_verilog_file

    pub collect_entry : List Bytes → Entry → List Bytes
    collect_entry exclude (directory path es) =
        let inside = collect_entries exclude es in if is_excluded path exclude then [] else inside
    collect_entry exclude (regular_file path) =
        if is_system_verilog_file path then path ∷ [] else []
    collect_entry exclude (other path) = []

    pub collect_entries : List Bytes → Entries → List Bytes
    collect_entries exclude nil = []
    collect_entries exclude (cons e es) = collect_entry exclude e ++ collect_entries exclude es

  -- Of the directory itself the name is not tested; a path that is no directory yields nothing.
  unfoldable pub collect_files_from_directory : Option Entries → List Bytes → List Bytes
  unfolding collect_entries
  collect_files_from_directory none exclude = []
  collect_files_from_directory (some es) exclude = collect_entries exclude es

  module _ (entries_at : Bytes → Option Entries) (is_absolute : Bytes → Bool)
      (join : Bytes → Bytes → Bytes) where
    -- `fullDirPath`, where there is one.
    unfoldable pub full_dir_path : Option Bytes → Bytes → Option Bytes
    full_dir_path workspace dir =
        if is_absolute dir
        then some dir
        else elim workspace [ none ↦ none | some w ↦ some (join w dir) ]

    abbrev collect_at : List Bytes → Option Bytes → List Bytes
    collect_at exclude none = []
    collect_at exclude (some dir) = collect_files_from_directory (entries_at dir) exclude

    unfoldable pub collect_dirs : Option Bytes → List Bytes → List Bytes → List Bytes
    unfolding full_dir_path collect_files_from_directory
    collect_dirs workspace exclude [] = []
    collect_dirs workspace exclude (d ∷ ds) =
        collect_at exclude (full_dir_path workspace d) ++ collect_dirs workspace exclude ds

    unfoldable pub collect_configs : Option Bytes → List IndexConfig → List Bytes
    unfolding collect_dirs
    collect_configs workspace [] = []
    collect_configs workspace (c ∷ cs) =
        collect_dirs workspace (value_or c.exclude_dirs) c.dirs ++ collect_configs workspace cs

    -- The paths that `startIndexing` hands to `addDocuments`.
    unfoldable pub paths_to_index : List IndexConfig → Option Bytes → List Bytes
    unfolding collect_configs collect_files_from_directory
    paths_to_index [] workspace = collect_at [] workspace
    paths_to_index (c ∷ cs) workspace = collect_configs workspace (c ∷ cs)

-- The files of a pattern that are not excluded, and the second `startIndexing`: a pattern that fails
-- is passed over.
unfoldable pub not_excluded : List Bytes → List Bytes → List Bytes
unfolding is_excluded
not_excluded exclude [] = []
not_excluded exclude (p ∷ ps) =
    let rest = not_excluded exclude ps in if is_excluded p exclude then rest else p ∷ rest

unfoldable pub globs_to_index : (Bytes → Option (List Bytes)) → List Bytes → List Bytes → List Bytes
unfolding not_excluded
globs_to_index glob [] exclude = []
globs_to_index glob (g ∷ gs) exclude =
    elim (glob g) [ none ↦ [] | some ps ↦ not_excluded exclude ps ]
    ++ globs_to_index glob gs exclude
