-- ===== src/Driver/Dependencies/Result.antt =====
-- The trees that `getDependentTrees` returns.
use mathlib.Core.List.{Memᴰ}
use mathlib.Core.List.Memᴰ.{head, tail}
use Prim.Native.String.{String}
use slang_server_extended.Base.{
  ◌≢◌, none, map, ℕ, suc, List, [], ◌∷◌, true, length, Option, some, ◌≡◌, refl, sym, ap, ◌∙◌, subst,
  ◌⊎◌, arith, Option-cases, inl, inr,
}
use slang_server_extended.Indexer.Defs.{Index, GlobalSymbolLoc, contains, get_first_symbol_loc}
use slang_server_extended.Driver.Trees.{SyntaxTree}
use slang_server_extended.Driver.Dependencies.{
  Walk, process_trees, start, result_of, get_dependent_trees,
}
use slang_server_extended.Driver.Dependencies.Loading.{no_repeats, loaded, loaded-Memᴰ, Followed}
use slang_server_extended.Driver.Dependencies.Termination.{files_of, get_dependent_trees_ends}
use slang_server_extended.Driver.Dependencies.Closure.{IsWalk, process_trees-IsWalk}

-- Where every file can be loaded, none is passed over.
loaded-all :
    (tree_at : String → Option SyntaxTree)
    → ((f : String) → tree_at f ≢ none)
    → (fs : List String) → map some (loaded tree_at fs) ≡ map tree_at fs
loaded-all tree_at loads [] = refl
loaded-all tree_at loads (f ∷ fs) = elim (Option-cases (tree_at f)) [
  | inl missing ↦ elim (loads f missing) [ ]
  | inr (t, found) ↦ rw found (ap (λ r. some t ∷ r) (loaded-all tree_at loads fs))
]

module _ (ix : Index) (tree_at : String → Option SyntaxTree) (root : SyntaxTree) where
  start-IsWalk : IsWalk ix tree_at root [] (start ix tree_at root)
  start-IsWalk = record {
    files = record {
      result = refl;
      unique = refl;
      seen = λ t m. elim m [
        | inl empty ↦ elim empty [ ]
        | inr (head is) ↦ inl is
        | inr (tail empty) ↦ elim empty [ ]
      ];
      covered = λ t f. elim f [ inl is ↦ inr (head is) | inr (empty, r) ↦ elim empty [ ] ];
    };
    names = λ n k. ground (arith, k);
    followed = λ t m. elim m [ ];
  }

  -- The last state of a run: every followed tree has been taken up.
  record IsFinal (ts : List SyntaxTree) : Type 0 where
    walk : Walk
    done : List SyntaxTree
    is : walk.result ≡ ts
    holds : IsWalk ix tree_at root done walk
    empty : walk.trees_to_process ≡ []

  get_dependent_trees-IsFinal :
      (fuel : ℕ) (ts : List SyntaxTree)
      → get_dependent_trees ix tree_at fuel root ≡ some ts
      → IsFinal ts
  unfolding get_dependent_trees
  get_dependent_trees-IsFinal fuel ts h =
      elim (Option-cases (process_trees ix tree_at fuel (root ∷ []) (start ix tree_at root))) [
        | inl fails ↦ ground (arith, h, ap (result_of ix tree_at) fails)
        | inr (v, runs) ↦
            let (all, holds, empty) =
              process_trees-IsWalk ix tree_at root fuel [] (root ∷ []) (start ix tree_at root) v
                refl start-IsWalk runs in
            record {
              walk = v;
              done = all;
              is = ground (arith, h, ap (result_of ix tree_at) runs);
              holds = holds;
              empty = empty;
            }
      ]

  -- Where every file can be loaded, `getDependentTrees` ends, one round for the tree and one for each
  -- location of a symbol in the index being enough, also where packages and interfaces refer to each
  -- other in a circle. Its result is the trees of some files, one for each, in order, and no file is
  -- among them twice.
  pub get_dependent_trees-loaded :
      ((f : String) → tree_at f ≢ none)
      → (ts : List SyntaxTree) × (files : List String) × (get_dependent_trees ix tree_at
            (suc (length (files_of ix)))
            root
          ≡ some ts)
        × (no_repeats files ≡ true)
        × (map some ts ≡ map tree_at files)
  get_dependent_trees-loaded loads =
      let (ts, ends) = get_dependent_trees_ends ix tree_at root in
      let f = get_dependent_trees-IsFinal (suc (length (files_of ix))) ts ends in
      (
        ts,
        f.walk.processed_files,
        ends,
        f.holds.files.unique,
        ap (map some) (sym f.is ∙ f.holds.files.result)
            ∙ loaded-all tree_at loads f.walk.processed_files,
      )

  -- The result is closed: where the tree, or a package or interface tree of the result, refers to a
  -- name, then the tree or such a tree declares the name, or the tree of the file that the index has
  -- first for the name is in the result, if that file can be loaded.
  pub get_dependent_trees-closed :
      (fuel : ℕ) (ts : List SyntaxTree) (t : SyntaxTree) (n : String)
      → get_dependent_trees ix tree_at fuel root ≡ some ts
      → Followed ix tree_at root t ts
      → contains n t.referenced_symbols ≡ true
      → ((u : SyntaxTree) × Followed ix tree_at root u ts × (contains n u.declared_symbols ≡ true))
        ⊎ ((l : GlobalSymbolLoc) (d : SyntaxTree)
            → get_first_symbol_loc n ix ≡ some l
            → tree_at l.uri ≡ some d
            → Memᴰ d ts)
  get_dependent_trees-closed fuel ts t n h follows refers =
      let f = get_dependent_trees-IsFinal fuel ts h in
      let w = f.walk in
      let taken_up : Memᴰ t f.done =
        elim (f.holds.files.covered t (subst (Followed ix tree_at root t) (sym f.is) follows)) [
          | inl m ↦ m
          | inr waits ↦ elim (subst (Memᴰ t) f.empty waits) [ ]
        ] in
      elim (f.holds.names n (f.holds.followed t taken_up n refers)) [
        | inl (u, m, declares) ↦
            inl
              (u, subst (Followed ix tree_at root u) f.is (f.holds.files.seen u (inl m)), declares)
        | inr resolved ↦ inr (λ l d at is_tree.
            subst (Memᴰ d) (sym f.holds.files.result ∙ f.is)
              (loaded-Memᴰ tree_at w.processed_files l.uri d (resolved l at) is_tree))
      ]
