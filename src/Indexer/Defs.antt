-- ===== src/Indexer/Defs.antt =====
-- The state of `Indexer` and its operations. A path is a text: the code's interned pointers are
-- equal where the paths are. A SyntaxKind of slang is its number. What the slang parser yields of a
-- file is a record; reading a file and asking whether it exists are parameters. Every operation
-- holds the index lock from its first line to its last, so that it is one step.
use Prim.Native.String.{String}
use text.Mathlib.Text.{◌==◌ as str_eq}
use slang_server_extended.Base.{
  ℕ, List, [], ◌∷◌, ◌++◌, Bool, false, not, ◌&&◌, ◌||◌, ◌==◌, if◌then◌else◌, is_nil, Option, none,
  some, map, length,
}
use slang_server_extended.MultiMap.{Map, find, push, remove}

pub record GlobalSymbol : Type 0 where
  pub name : String
  pub kind : ℕ

pub record GlobalSymbolLoc : Type 0 where
  pub uri : String
  pub kind : ℕ

pub record IndexedPath : Type 0 where
  pub path : Option String
  pub symbols : List GlobalSymbol
  pub macros : List String
  pub referenced_symbols : List String

abbrev pub no_entries : IndexedPath
no_entries = record { path = none; symbols = []; macros = []; referenced_symbols = [] }

pub record Index : Type 0 where
  pub symbol_to_files : Map GlobalSymbolLoc
  pub macro_to_files : Map String
  pub symbol_references : Map String
  pub unique_uris : List String
  pub indexed_files : List (String × IndexedPath)

-- A member of a parsed compilation unit: `declares` is ModuleDeclarationSyntax::isKind of its kind.
pub record Member : Type 0 where
  pub declares : Bool
  pub kind : ℕ
  pub name : String

pub record MacroDefinition : Type 0 where
  pub name : String
  pub has_location : Bool

-- A parsed file: the tree's members and the parser's metadata. A macro pointer may be null.
pub record FileSyntax : Type 0 where
  pub members : List Member
  pub referenced : List String
  pub macros : List (Option MacroDefinition)
  pub node_meta_empty : Bool
  pub class_decls_empty : Bool

abbrev pub contains : String → List String → Bool
contains k [] = false
contains k (j ∷ js) = str_eq j k || contains k js

unfoldable pub extract_symbols : List Member → List GlobalSymbol
extract_symbols [] = []
extract_symbols (m ∷ ms) =
    let rest = extract_symbols ms in
    if m.declares && not (str_eq m.name "")
    then record { name = m.name; kind = m.kind } ∷ rest
    else rest

-- `seenDeps.insert(name).second`
unfoldable pub extract_references : List String → List String → List String
extract_references seen [] = []
extract_references seen (n ∷ ns) =
    let known = extract_references seen ns in
    let fresh = n ∷ extract_references (n ∷ seen) ns in if contains n seen then known else fresh

unfoldable pub extract_from_root : FileSyntax → IndexedPath → IndexedPath
unfolding extract_symbols extract_references
extract_from_root f dest = record dest {
  symbols = dest.symbols ++ extract_symbols f.members;
  referenced_symbols = dest.referenced_symbols ++ extract_references [] f.referenced;
}

unfoldable pub macro_names : List (Option MacroDefinition) → List String
macro_names [] = []
macro_names (none ∷ ms) = macro_names ms
macro_names (some m ∷ ms) =
    let rest = macro_names ms in if m.has_location then m.name ∷ rest else rest

unfoldable pub extract_macros : List (Option MacroDefinition) → IndexedPath → IndexedPath
unfolding macro_names
extract_macros ms dest = record dest { macros = dest.macros ++ macro_names ms }

-- What `indexPaths` puts into the slot of one file; a file that cannot be read keeps an empty slot.
unfoldable pub index_one : Option FileSyntax → IndexedPath
unfolding extract_from_root extract_macros
index_one none = no_entries
index_one (some f) =
    if not f.node_meta_empty
    then extract_from_root f no_entries
    else if f.class_decls_empty
    then extract_macros f.macros no_entries
    else no_entries

module _ {ℓ} {V I : Type ℓ} (key : I → String) where
  unfoldable pub remove_each : (I → V → Bool) → List I → Map V → Map V
  remove_each same [] m = m
  remove_each same (i ∷ is) m = remove_each same is (remove (same i) (key i) m)

  unfoldable pub push_each : (I → V) → List I → Map V → Map V
  push_each value [] m = m
  push_each value (i ∷ is) m = push_each value is (push (key i) (value i) m)

abbrev pub same_loc : String → GlobalSymbol → GlobalSymbolLoc → Bool
same_loc p item loc = str_eq loc.uri p && loc.kind == item.kind

abbrev pub loc_at : String → GlobalSymbol → GlobalSymbolLoc
loc_at p item = record { uri = p; kind = item.kind }

abbrev pub itself : String → String
itself s = s

unfoldable pub lookup_file : String → List (String × IndexedPath) → Option IndexedPath
lookup_file p [] = none
lookup_file p ((q, e) ∷ fs) = if str_eq q p then some e else lookup_file p fs

-- `indexedFiles[uri] = entry`
unfoldable pub store_file :
    String → IndexedPath → List (String × IndexedPath) → List (String × IndexedPath)
store_file p e [] = (p, e) ∷ []
store_file p e ((q, d) ∷ fs) = if str_eq q p then (q, e) ∷ fs else (q, d) ∷ store_file p e fs

unfoldable pub erase_file : String → List (String × IndexedPath) → List (String × IndexedPath)
erase_file p [] = []
erase_file p ((q, d) ∷ fs) =
    let rest = erase_file p fs in if str_eq q p then rest else (q, d) ∷ rest

unfoldable pub intern_uri : String → Index → Index
intern_uri p ix =
    if contains p ix.unique_uris then ix else record ix { unique_uris = p ∷ ix.unique_uris }

-- The three removal loops of `updateDocument` and `removePathFromIndex`.
unfoldable pub remove_entries : String → IndexedPath → Index → Index
unfolding remove_each
remove_entries p e ix = record ix {
  symbol_to_files = remove_each (λ i. i.name) (same_loc p) e.symbols ix.symbol_to_files;
  macro_to_files = remove_each itself (λ _ q. str_eq q p) e.macros ix.macro_to_files;
  symbol_references =
      remove_each itself (λ _ q. str_eq q p) e.referenced_symbols ix.symbol_references;
}

-- The three insertion loops of `updateDocument` and `indexPath`.
unfoldable pub add_entries : String → IndexedPath → Index → Index
unfolding push_each
add_entries p e ix = record ix {
  symbol_to_files = push_each (λ i. i.name) (loc_at p) e.symbols ix.symbol_to_files;
  macro_to_files = push_each itself (λ _. p) e.macros ix.macro_to_files;
  symbol_references = push_each itself (λ _. p) e.referenced_symbols ix.symbol_references;
}

-- The entries go into the maps and into the record of the file.
unfoldable pub store_entries : String → IndexedPath → Index → Index
unfolding add_entries store_file
store_entries p e ix =
    let added = add_entries p e ix in
    record added { indexed_files = store_file p e added.indexed_files }

unfoldable pub index_path : String → IndexedPath → Index → Index
unfolding intern_uri store_entries
index_path p e ix = store_entries p (record e { path = some p }) (intern_uri p ix)

unfoldable pub new_entries : String → FileSyntax → IndexedPath
unfolding extract_from_root extract_macros
new_entries p f =
    let e = extract_from_root f (record no_entries { path = some p }) in
    if is_nil e.symbols then extract_macros f.macros e else e

-- "Remove old entries if this file was previously indexed".
unfoldable pub clear_old : String → Index → Index
unfolding remove_entries lookup_file
clear_old p ix = elim (lookup_file p ix.indexed_files) [
  | none ↦ ix
  | some old ↦ remove_entries p old ix
]

unfoldable pub update_document : String → FileSyntax → Index → Index
unfolding intern_uri clear_old store_entries new_entries
update_document p f ix = store_entries p (new_entries p f) (clear_old p (intern_uri p ix))

unfoldable pub remove_path_from_index : String → Index → Index
unfolding remove_entries lookup_file erase_file
remove_path_from_index p ix = elim (lookup_file p ix.indexed_files) [
  | none ↦ ix
  | some entry ↦
      let removed = remove_entries p entry ix in
      record removed { indexed_files = erase_file p removed.indexed_files }
]

pub data FileChangeType : Type 0 where
  created changed deleted : FileChangeType

-- The queries.
unfoldable pub get_files_for_symbol : String → Index → List String
unfolding find
get_files_for_symbol n ix = elim (find n ix.symbol_to_files) [
  | none ↦ []
  | some locs ↦ map (λ l. l.uri) locs
]

unfoldable pub get_files_for_macro : String → Index → List String
unfolding find
get_files_for_macro n ix = elim (find n ix.macro_to_files) [ none ↦ [] | some ps ↦ ps ]

unfoldable pub get_files_referencing_symbol : String → Index → List String
unfolding find
get_files_referencing_symbol n ix = elim (find n ix.symbol_references) [ none ↦ [] | some ps ↦ ps ]

unfoldable pub get_first_symbol_loc : String → Index → Option GlobalSymbolLoc
unfolding find
get_first_symbol_loc n ix = elim (find n ix.symbol_to_files) [
  | none ↦ none
  | some [] ↦ none
  | some (l ∷ ls) ↦ some l
]

unfoldable pub get_all_macro_names : Index → List String
get_all_macro_names ix = map (λ e. e.0) ix.macro_to_files

unfoldable pub get_symbol_count : Index → ℕ
get_symbol_count ix = length ix.symbol_to_files

-- What the file system and the parser answer.
module _ (read : String → Option FileSyntax) (exists : String → Bool) where
  -- `indexPaths`: the slot of each path depends on that file alone, however the range is cut up.
  unfoldable pub index_paths : List String → List IndexedPath
  unfolding index_one
  index_paths = map (λ p. index_one (read p))

  unfoldable pub index_all : List String → List IndexedPath → Index → Index
  unfolding index_path
  index_all (p ∷ ps) (e ∷ es) ix = index_all ps es (index_path p e ix)
  index_all _ _ ix = ix

  unfoldable pub add_documents : List String → Index → Index
  unfolding index_paths index_all
  add_documents ps ix = index_all ps (index_paths ps) ix

  -- One round of the loop over the changes: the index, and the paths to add so far.
  unfoldable pub apply_change : String × FileChangeType → Index × List String → Index × List String
  unfolding remove_path_from_index
  apply_change (p, FileChangeType.created) (ix, add) = (ix, add ++ p ∷ [])
  apply_change (p, FileChangeType.changed) (ix, add) = (
    if contains p ix.unique_uris then remove_path_from_index p ix else ix,
    if exists p then add ++ p ∷ [] else add,
  )
  apply_change (p, FileChangeType.deleted) (ix, add) =
      (if contains p ix.unique_uris then remove_path_from_index p ix else ix, add)

  unfoldable pub apply_changes :
      List (String × FileChangeType) → Index × List String → Index × List String
  unfolding apply_change
  apply_changes [] st = st
  apply_changes (c ∷ cs) st = apply_changes cs (apply_change c st)

  unfoldable pub on_watched_files : List (String × FileChangeType) → Index → Index
  unfolding apply_changes add_documents
  on_watched_files cs ix =
      let done = apply_changes cs (ix, []) in
      if is_nil done.1 then done.0 else add_documents done.1 done.0
