-- ===== src/Driver/Samples.antt =====
-- Runs on small workspaces: packages that refer to each other, and fragments that include fragments.
use mathlib.Core.List.{Memᴰ}
use mathlib.Core.List.Memᴰ.{head}
use Prim.Native.String.{String}
use text.Mathlib.Text.{◌==◌ as str_eq}
use slang_server_extended.Base.{
  map, ℕ, ◌<◌, zero, suc, List, [], ◌∷◌, Bool, true, false, if◌then◌else◌, Option, none, some,
  ◌>>=◌, ◌≡◌, refl, ◌⊎◌, inr, codes, arith, length,
}
use slang_server_extended.Indexer.Defs.{
  Index, GlobalSymbolLoc, contains, get_first_symbol_loc, changed,
}
use slang_server_extended.SlangDoc.Defs.{whole_document}
use slang_server_extended.Driver.Trees.{
  DeclKind, module_declaration, package_declaration, SourceBuffer, SyntaxTree,
  classify_standalone_parse, find_buffer_for_path,
}
use slang_server_extended.Driver.Dependencies.{get_dependent_trees, recurses}
use slang_server_extended.Driver.Dependencies.Termination.{files_of}
use slang_server_extended.Driver.Dependencies.Loading.{no_repeats, Followed}
use slang_server_extended.Driver.Dependencies.Result.{
  get_dependent_trees-loaded, get_dependent_trees-closed,
}
use slang_server_extended.Driver.Documents.{
  ServerDriver, World, include_owners, uri_of, analyze_document, has_position, resolve_document,
  add_include_owner, includes,
}
use slang_server_extended.Driver.Opening.{open_document, adopt_orphan_fragments, is_orphan}
use slang_server_extended.Driver.Handlers.{
  Notification, did_open, did_change, did_save, did_close, did_change_watched_files, notify_all,
}
use slang_server_extended.Driver.Owners.{IsWell, Owns}
use slang_server_extended.Driver.Adopted.{adopt_orphan_fragments-Owns}
use slang_server_extended.Driver.Fuel.{EndsIn}
use slang_server_extended.Driver.Saving.{IsWellOutcome}
use slang_server_extended.Driver.Serving.{notify_all-EndsIn}

abbrev tree_of : List (DeclKind × String) → List String → List String → SyntaxTree
tree_of kinds declares refers = record {
  node_meta = kinds;
  class_decls = [];
  diagnostics_is_error = [];
  declared_symbols = declares;
  referenced_symbols = refers;
  buffers = [];
}

-- A module that needs package p; p and q need each other.
abbrev top_tree : SyntaxTree
top_tree = tree_of ((module_declaration, "top") ∷ []) ("top" ∷ []) ("p" ∷ "missing" ∷ [])

abbrev p_tree : SyntaxTree
p_tree = tree_of ((package_declaration, "p") ∷ []) ("p" ∷ []) ("q" ∷ [])

abbrev q_tree : SyntaxTree
q_tree = tree_of ((package_declaration, "q") ∷ []) ("q" ∷ []) ("p" ∷ [])

abbrev at : String → GlobalSymbolLoc
at f = record { uri = f; kind = 0 }

abbrev index : Index
index = record {
  symbol_to_files = ("p", at "p.sv" ∷ []) ∷ ("q", at "q.sv" ∷ []) ∷ [];
  macro_to_files = [];
  symbol_references = [];
  unique_uris = "p.sv" ∷ "q.sv" ∷ [];
  indexed_files = [];
}

abbrev tree_at : String → Option SyntaxTree
tree_at f = if str_eq f "p.sv" then some p_tree else if str_eq f "q.sv" then some q_tree else none

circular : get_dependent_trees index tree_at 3 top_tree ≡ some (p_tree ∷ q_tree ∷ [])
unfolding get_dependent_trees
circular = refl

-- The tree's own file is not among the processed ones: an index that still has a name for it, which
-- the text declares no more, leads back to the tree itself.
abbrev renamed_tree : SyntaxTree
renamed_tree = tree_of ((module_declaration, "new") ∷ []) ("new" ∷ []) ("old" ∷ [])

abbrev stale_index : Index
stale_index = record index { symbol_to_files = ("old", at "top.sv" ∷ []) ∷ [] }

own_tree_again :
    get_dependent_trees stale_index
      (λ f. if str_eq f "top.sv" then some renamed_tree else none)
      2
      renamed_tree
    ≡ some (renamed_tree ∷ [])
unfolding get_dependent_trees
own_tree_again = refl

-- Every file can be loaded.
abbrev loaded_at : String → Option SyntaxTree
loaded_at f = some (if str_eq f "p.sv" then p_tree else q_tree)

get_dependent_trees-loaded_example :
    (ts : List SyntaxTree) × (files : List String) × (get_dependent_trees index loaded_at
        (suc (length (files_of index)))
        top_tree
      ≡ some ts)
    × (no_repeats files ≡ true)
    × (map some ts ≡ map loaded_at files)
get_dependent_trees-loaded_example =
    get_dependent_trees-loaded index loaded_at top_tree (λ f e. ground (arith, e))

get_dependent_trees-closed_example :
    ((u : SyntaxTree) × Followed index tree_at top_tree u (p_tree ∷ q_tree ∷ [])
      × (contains "q" u.declared_symbols ≡ true))
    ⊎ ((l : GlobalSymbolLoc) (d : SyntaxTree)
        → get_first_symbol_loc "q" index ≡ some l
        → tree_at l.uri ≡ some d
        → Memᴰ d (p_tree ∷ q_tree ∷ []))
unfolding recurses
get_dependent_trees-closed_example =
    get_dependent_trees-closed index tree_at top_tree 3 (p_tree ∷ q_tree ∷ []) p_tree "q" circular
      (inr (head refl, refl)) refl

abbrev buffer : String → Bool → SourceBuffer
buffer path included = record {
  id = 0;
  valid = true;
  path = path;
  included = included;
  latest = true;
}

-- top.sv includes a.vh and b.vh, and a.vh includes b.vh. The fragments do not parse alone.
abbrev fragment_tree : List SourceBuffer → SyntaxTree
fragment_tree bs = record (tree_of [] [] []) { diagnostics_is_error = true ∷ []; buffers = bs }

abbrev parse : String → SyntaxTree
parse f =
    if str_eq f "a.vh"
    then fragment_tree (buffer "a.vh" false ∷ buffer "b.vh" true ∷ [])
    else if str_eq f "b.vh"
    then fragment_tree (buffer "b.vh" false ∷ [])
    else record top_tree {
      buffers = buffer "top.sv" false ∷ buffer "a.vh" true ∷ buffer "b.vh" true ∷ [];
    }

abbrev world : World
world = record {
  source_text = λ st u. codes u;
  reloads = λ st h. some (codes "again");
  line_offsets = λ t. 0 ∷ [];
  parse = λ st h. some (parse (uri_of st h));
  loads = λ st h. [];
  has_analysis = λ st h. false;
  lexically_normal = λ f. f;
  weakly_canonical = λ f. some f;
}

abbrev empty : ServerDriver
empty = record {
  docs = [];
  store = [];
  open_docs = [];
  build_source_uris = [];
  comp = false;
  resolve_include_fragments = true;
  log = [];
}

empty-IsWell : IsWell empty
unfolding has_position
empty-IsWell = record {
  rank = λ h. 0;
  bound = 0;
  bounded = λ h. omega arith;
  drops = λ h o k. ground (arith, k);
  named = tt;
  opened = λ u k. ground (arith, k);
}

abbrev open_three : Option ServerDriver
open_three = open_document world 3 "a.vh" (codes "x") empty >>= λ one.
    open_document world 3 "b.vh" (codes "y") one >>= λ two.
    open_document world 3 "top.sv" (codes "z") two

abbrev owner_lists : Option ServerDriver → Option (List ℕ × List ℕ × List ℕ)
owner_lists none = none
owner_lists (some st) = some (include_owners st 0, include_owners st 2, include_owners st 3)

-- a.vh (document 0) owns b.vh (document 2), and is owned by top.sv (document 3).
owner_is_fragment : owner_lists open_three ≡ some (3 ∷ [], 0 ∷ 3 ∷ [], [])
unfolding open_document resolve_document analyze_document find_buffer_for_path
    classify_standalone_parse add_include_owner
owner_is_fragment = refl

abbrev notifications : List Notification
notifications =
    did_open "a.vh" (codes "x")
    ∷ did_open "b.vh" (codes "y")
    ∷ did_open "top.sv" (codes "z")
    ∷ did_change "b.vh" (whole_document (codes "w") ∷ []) false
    ∷ did_save "b.vh" none
    ∷ did_change_watched_files (("a.vh", changed) ∷ [])
    ∷ did_close "a.vh"
    ∷ []

notify_all-EndsIn_example : EndsIn IsWellOutcome (λ n. notify_all world n notifications empty)
notify_all-EndsIn_example = notify_all-EndsIn world notifications empty empty-IsWell

-- a.vh is known and has no owner; top.sv is made and includes it.
abbrev orphaned : ServerDriver
orphaned = record empty {
  docs = ("a.vh", 0) ∷ ("top.sv", 1) ∷ [];
  store =
      record { uri = "a.vh"; buffer = codes "x"; include_owners = [] }
      ∷ record { uri = "top.sv"; buffer = codes "z"; include_owners = [] }
      ∷ [];
}

orphaned-IsWell : IsWell orphaned
unfolding has_position
orphaned-IsWell = record {
  rank = λ h. 0;
  bound = 0;
  bounded = λ h. omega arith;
  drops = no_owners_yet;
  named = ((omega arith, refl), ((omega arith, refl), tt));
  opened = λ u k. ground (arith, k);
}
  where
    no_owners_yet :
        (h o : ℕ) → has_position o (include_owners orphaned h) ≡ true → (o < 2) × (0 < 0)
    no_owners_yet zero o k = ground (arith, k)
    no_owners_yet (suc zero) o k = ground (arith, k)
    no_owners_yet (suc (suc h)) o k = ground (arith, k)

adopt_orphan_fragments-Owns_example :
    EndsIn (λ st. IsWell st × Owns st 0 1) (λ n. adopt_orphan_fragments world n 1 orphaned)
unfolding is_orphan includes find_buffer_for_path classify_standalone_parse
adopt_orphan_fragments-Owns_example =
    adopt_orphan_fragments-Owns world 1 orphaned (parse "top.sv") ("a.vh", 0) orphaned-IsWell
      (omega arith) refl refl refl (head refl) (ground arith) refl (inr refl)
