-- ===== src/Driver/Dependencies.antt =====
-- `ServerDriver::getDependentTrees`: the trees that a tree needs, found through the index. What
-- `getDocument` and `getSyntaxTree` yield for a file is a parameter: the driver keeps a document once
-- it is loaded, so that the answer for a file stays the same.
pub mod Termination
pub mod Loading
pub mod Closure
pub mod Result
use Prim.Native.String.{String}
use slang_server_extended.Base.{
  ℕ, zero, suc, List, [], ◌∷◌, ◌++◌, Bool, true, false, if◌then◌else◌, Option, none, some,
}
use slang_server_extended.Indexer.Defs.{Index, GlobalSymbolLoc, contains, get_first_symbol_loc}
use slang_server_extended.Driver.Trees.{
  DeclKind, interface_declaration, package_declaration, SyntaxTree,
}

pub record Walk : Type 0 where
  pub result : List SyntaxTree
  pub trees_to_process : List SyntaxTree
  pub known_names : List String
  pub processed_files : List String

is_shared : DeclKind → Bool
is_shared package_declaration = true
is_shared interface_declaration = true
is_shared _ = false

-- A package or an interface may hold types of other packages.
unfoldable pub recurses : List (DeclKind × String) → Bool
unfolding is_shared
recurses [] = false
recurses ((k, n) ∷ ms) = if is_shared k then true else recurses ms

-- `visitDeclaredSymbols` with the insertion into the known names.
unfoldable pub learn_all : List String → List String → List String
learn_all [] known = known
learn_all (n ∷ ns) known = learn_all ns (n ∷ known)

-- `tree_at` gives the tree of the document of a file. `none` stands for no document, which the code
-- tests for; for a file that cannot be read, `getDocument` throws, which is not modelled.
module _ (ix : Index) (tree_at : String → Option SyntaxTree) where
  unfoldable pub add_tree : Option SyntaxTree → Walk → Walk
  unfolding recurses
  add_tree none w = w
  add_tree (some tree) w = record w {
    result = w.result ++ (tree ∷ []);
    trees_to_process =
        if recurses tree.node_meta then w.trees_to_process ++ (tree ∷ []) else w.trees_to_process;
  }

  unfoldable pub load_file : Option GlobalSymbolLoc → Walk → Walk
  unfolding add_tree
  load_file none w = w
  load_file (some loc) w =
      if contains loc.uri w.processed_files
      then w
      else add_tree (tree_at loc.uri)
          (record w { processed_files = w.processed_files ++ (loc.uri ∷ []) })

  unfoldable pub load_dependency : String → Walk → Walk
  unfolding load_file get_first_symbol_loc
  load_dependency name w =
      if contains name w.known_names
      then w
      else load_file (get_first_symbol_loc name ix)
          (record w { known_names = name ∷ w.known_names })

  unfoldable pub load_dependencies : List String → Walk → Walk
  unfolding load_dependency
  load_dependencies [] w = w
  load_dependencies (n ∷ ns) w = load_dependencies ns (load_dependency n w)

  -- The body of the loop, for the tree at the front of the queue.
  unfoldable pub process_tree : SyntaxTree → Walk → Walk
  unfolding load_dependencies learn_all
  process_tree tree w =
      load_dependencies tree.referenced_symbols
        (record w { known_names = learn_all tree.declared_symbols w.known_names })

  abbrev pub popped : List SyntaxTree → Walk → Walk
  popped q w = record w { trees_to_process = q }

  -- The loop on the queue of the state, for as many rounds as the fuel says.
  unfoldable pub process_trees : ℕ → List SyntaxTree → Walk → Option Walk
  unfolding process_tree
  process_trees n [] w = some w
  process_trees zero (tree ∷ q) w = none
  process_trees (suc n) (tree ∷ q) w =
      let next = process_tree tree (popped q w) in process_trees n next.trees_to_process next

  abbrev pub start : SyntaxTree → Walk
  start tree = record {
    result = [];
    trees_to_process = tree ∷ [];
    known_names = [];
    processed_files = [];
  }

  abbrev pub result_of : Option Walk → Option (List SyntaxTree)
  result_of none = none
  result_of (some w) = some w.result

  unfoldable pub get_dependent_trees : ℕ → SyntaxTree → Option (List SyntaxTree)
  unfolding process_trees
  get_dependent_trees fuel tree = result_of (process_trees fuel (tree ∷ []) (start tree))
