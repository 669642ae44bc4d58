-- ===== src/Driver/Dependencies/Termination.antt =====
-- How many rounds the loop over the queued trees takes.
use Prim.Native.String.{String}
use text.Mathlib.Text.{◌==◌ as str_eq}
use text.Mathlib.TextEquality.{eq_iff}
use slang_server_extended.Base.{
  ℕ, ◌+◌, ◌≤◌, zero, suc, List, [], ◌∷◌, ◌++◌, map, true, false, not, ◌||◌, length, keep, Option,
  none, some, ◌≡◌, refl, ap, subst, arith, Bool-cases, Option-cases, inl, inr, if_both,
  length-append,
}
use slang_server_extended.MultiMap.{Map, find}
use slang_server_extended.Indexer.Defs.{Index, GlobalSymbolLoc, contains, get_first_symbol_loc}
use slang_server_extended.Driver.Trees.{SyntaxTree}
use slang_server_extended.Driver.Dependencies.{
  Walk, learn_all, add_tree, load_file, load_dependency, load_dependencies, process_tree,
  process_trees, popped, start, result_of, get_dependent_trees,
}

abbrev pub uris_of : List GlobalSymbolLoc → List String
uris_of ls = map (λ l. l.uri) ls

-- The files that a symbol of the index stands in.
abbrev pub files_in : Map GlobalSymbolLoc → List String
files_in [] = []
files_in ((n, ls) ∷ m) = uris_of ls ++ files_in m

abbrev pub files_of : Index → List String
files_of ix = files_in ix.symbol_to_files

pub contains-append :
    (k : String) (xs ys : List String) → contains k (xs ++ ys) ≡ (contains k xs || contains k ys)
contains-append k [] ys = refl
contains-append k (x ∷ xs) ys = ground (arith, contains-append k xs ys)

find-files_in :
    (n : String) (m : Map GlobalSymbolLoc) (l : GlobalSymbolLoc) (ls : List GlobalSymbolLoc)
    → find n m ≡ some (l ∷ ls)
    → contains l.uri (files_in m) ≡ true
unfolding find
find-files_in n [] l ls h = cc
find-files_in n ((j, vs) ∷ m) l ls h = elim (Bool-cases (str_eq j n)) [
  | inl here ↦
      let is : vs ≡ l ∷ ls = ground (arith, h, here) in
      rw is (ground (arith, (eq_iff l.uri l.uri).1 refl))
  | inr there ↦ ground (
    arith,
    find-files_in n m l ls (ground (arith, h, there)),
    contains-append l.uri (uris_of vs) (files_in m),
  )
]

pub get_first_symbol_loc-files_of :
    (n : String) (ix : Index) (l : GlobalSymbolLoc)
    → get_first_symbol_loc n ix ≡ some l
    → contains l.uri (files_of ix) ≡ true
unfolding get_first_symbol_loc
get_first_symbol_loc-files_of n ix l h = elim (Option-cases (find n ix.symbol_to_files)) [
  | inl missing ↦ ground (arith, h, missing)
  | inr ([], found) ↦ ground (arith, h, found)
  | inr (k ∷ ks, found) ↦
      let is : k ≡ l = ground (arith, h, found) in
      subst (λ x. contains x.uri (files_of ix) ≡ true) is
        (find-files_in n ix.symbol_to_files k ks found)
]

-- The files of a list that are not among others.
abbrev pub left : List String → List String → List String
left done fs = keep (λ f. not (contains f done)) fs

pub length-left_all : (done fs : List String) → length (left done fs) ≤ length fs
length-left_all done [] = omega arith
length-left_all done (f ∷ fs) = ground (arith, length-left_all done fs)

length-left_more :
    (done fs : List String) (u : String)
    → length (left (done ++ (u ∷ [])) fs) ≤ length (left done fs)
length-left_more done [] u = omega arith
length-left_more done (f ∷ fs) u =
    ground (arith, length-left_more done fs u, contains-append f done (u ∷ []))

length-left_new :
    (done fs : List String) (u : String)
    → contains u fs ≡ true
    → contains u done ≡ false
    → suc (length (left (done ++ (u ∷ [])) fs)) ≤ length (left done fs)
length-left_new done [] u h n = ground (arith, h)
length-left_new done (f ∷ fs) u h n = elim (Bool-cases (str_eq f u)) [
  | inl is ↦ ground (
    arith,
    is,
    n,
    (eq_iff f u).0 is,
    (eq_iff u u).1 refl,
    length-left_more done fs u,
    contains-append f done (u ∷ []),
  )
  | inr other ↦ ground (
    arith,
    h,
    other,
    n,
    length-left_new done fs u,
    contains-append f done (u ∷ []),
    eq_iff f u,
    eq_iff u f,
  )
]

module _ (ix : Index) (tree_at : String → Option SyntaxTree) where
  -- The queued trees, and the files that can still be processed.
  abbrev rounds : Walk → ℕ
  rounds w = length w.trees_to_process + length (left w.processed_files (files_of ix))

  add_tree-rounds :
      (t : Option SyntaxTree) (w : Walk) → rounds (add_tree ix tree_at t w) ≤ suc (rounds w)
  unfolding add_tree
  add_tree-rounds none w = omega arith
  add_tree-rounds (some tree) w = ground (arith, length-append w.trees_to_process (tree ∷ []))

  load_file-rounds :
      (o : Option GlobalSymbolLoc) (w : Walk)
      → ((l : GlobalSymbolLoc) → o ≡ some l → contains l.uri (files_of ix) ≡ true)
      → rounds (load_file ix tree_at o w) ≤ rounds w
  unfolding load_file
  load_file-rounds none w h = omega arith
  load_file-rounds (some l) w h = elim (Bool-cases (contains l.uri w.processed_files)) [
    | inl old ↦ rw old (omega arith)
    | inr new ↦
        let w' = record w { processed_files = w.processed_files ++ (l.uri ∷ []) } in
        rw new (
          omega (
            arith,
            add_tree-rounds (tree_at l.uri) w',
            length-left_new w.processed_files (files_of ix) l.uri (h l refl) new,
          ))
  ]

  load_dependency-rounds :
      (n : String) (w : Walk) → rounds (load_dependency ix tree_at n w) ≤ rounds w
  unfolding load_dependency
  load_dependency-rounds n w =
      if_both (λ v. rounds v ≤ rounds w) (contains n w.known_names) (λ known. omega arith)
        (λ unknown.
          load_file-rounds (get_first_symbol_loc n ix)
            (record w { known_names = n ∷ w.known_names }) (get_first_symbol_loc-files_of n ix))

  load_dependencies-rounds :
      (ns : List String) (w : Walk) → rounds (load_dependencies ix tree_at ns w) ≤ rounds w
  unfolding load_dependencies
  load_dependencies-rounds [] w = omega arith
  load_dependencies-rounds (n ∷ ns) w = omega (
    arith,
    load_dependencies-rounds ns (load_dependency ix tree_at n w),
    load_dependency-rounds n w,
  )

  process_tree-rounds :
      (tree : SyntaxTree) (w : Walk) → rounds (process_tree ix tree_at tree w) ≤ rounds w
  unfolding process_tree
  process_tree-rounds tree w =
      load_dependencies-rounds tree.referenced_symbols
        (record w { known_names = learn_all tree.declared_symbols w.known_names })

  pub process_trees_ends :
      (n : ℕ) (q : List SyntaxTree) (w : Walk)
      → w.trees_to_process ≡ q
      → rounds w ≤ n
      → (v : Walk) × (process_trees ix tree_at n q w ≡ some v)
  unfolding process_trees
  process_trees_ends n [] w e h = (w, refl)
  process_trees_ends zero (tree ∷ q) w e h = ground (arith, e, h)
  process_trees_ends (suc n) (tree ∷ q) w e h =
      let next = process_tree ix tree_at tree (popped ix tree_at q w) in
      process_trees_ends n next.trees_to_process next refl
        (ground (arith, e, h, process_tree-rounds tree (popped ix tree_at q w)))

  -- `getDependentTrees` ends: one round for the tree and one for each location in the index are enough,
  -- also where packages and interfaces refer to each other in a circle.
  pub get_dependent_trees_ends :
      (tree : SyntaxTree)
      → (ts : List SyntaxTree) × (get_dependent_trees ix tree_at (suc (length (files_of ix))) tree
          ≡ some ts)
  unfolding get_dependent_trees
  get_dependent_trees_ends tree =
      let w = start ix tree_at tree in
      let (v, ends) =
        process_trees_ends (suc (length (files_of ix))) (tree ∷ []) w refl
          (omega (arith, length-left_all [] (files_of ix))) in
      (v.result, ap (result_of ix tree_at) ends)
