-- ===== src/Driver/Dependencies/Closure.antt =====
-- That the trees found are closed under the references that the index can resolve.
use mathlib.Core.List.{Memᴰ}
use mathlib.Core.List.Memᴰ.{head, tail}
use Prim.Native.String.{String}
use text.Mathlib.Text.{◌==◌ as str_eq}
use text.Mathlib.TextEquality.{eq_iff}
use slang_server_extended.Base.{
  ℕ, zero, suc, List, [], ◌∷◌, true, ◌||◌, Option, some, ◌≡◌, refl, sym, ap, ◌∙◌, subst, ◌⊎◌, arith,
  Bool-cases, inl, inr, if_both,
}
use slang_server_extended.Indexer.Defs.{Index, GlobalSymbolLoc, contains, get_first_symbol_loc}
use slang_server_extended.Driver.Trees.{SyntaxTree}
use slang_server_extended.Driver.Dependencies.{
  Walk, learn_all, load_file, load_dependency, load_dependencies, process_tree, process_trees,
  popped,
}
use slang_server_extended.Driver.Dependencies.Loading.{
  IsLoaded, load_file-IsLoaded, load_file-known, load_file-grows, load_file-processes,
}

contains-learn_all :
    (k : String) (ns known : List String)
    → contains k (learn_all ns known) ≡ (contains k ns || contains k known)
unfolding learn_all
contains-learn_all k [] known = refl
contains-learn_all k (n ∷ ns) known = ground (arith, contains-learn_all k ns (n ∷ known))

module _ (ix : Index) (tree_at : String → Option SyntaxTree) (root : SyntaxTree) where
  -- The file that the index has for a name is among some files.
  abbrev pub Resolved : String → List String → Type 0
  Resolved n files =
      (l : GlobalSymbolLoc) → get_first_symbol_loc n ix ≡ some l → contains l.uri files ≡ true

  abbrev pub Declared : String → List SyntaxTree → Type 0
  Declared n ts = (t : SyntaxTree) × Memᴰ t ts × (contains n t.declared_symbols ≡ true)

  -- A name is known because a tree that was taken up declares it, or because it was looked up.
  abbrev pub IsKnown : List SyntaxTree → Walk → Type 0
  IsKnown done w =
      (n : String)
      → contains n w.known_names ≡ true
      → Declared n done ⊎ Resolved n w.processed_files

  load_dependency-IsLoaded :
      (done : List SyntaxTree) (n : String) (w : Walk)
      → IsLoaded ix tree_at root done w
      → IsLoaded ix tree_at root done (load_dependency ix tree_at n w)
  unfolding load_dependency
  load_dependency-IsLoaded done n w h =
      if_both (IsLoaded ix tree_at root done) (contains n w.known_names) (λ known. h)
        (λ unknown.
          load_file-IsLoaded ix tree_at root done (record w { known_names = n ∷ w.known_names })
            (get_first_symbol_loc n ix)
            (record { result = h.result; unique = h.unique; seen = h.seen; covered = h.covered }))

  load_dependency-grows :
      (n k : String) (w : Walk)
      → contains k w.known_names ≡ true
      → contains k (load_dependency ix tree_at n w).known_names ≡ true
  unfolding load_dependency
  load_dependency-grows n k w h =
      if_both (λ (v : Walk). contains k v.known_names ≡ true) (contains n w.known_names)
        (λ known. h)
        (λ unknown.
          rw
            (load_file-known ix tree_at root (record w { known_names = n ∷ w.known_names })
              (get_first_symbol_loc n ix))
            (ground (arith, h)))

  load_dependency-knows :
      (n : String) (w : Walk) → contains n (load_dependency ix tree_at n w).known_names ≡ true
  unfolding load_dependency
  load_dependency-knows n w =
      if_both (λ (v : Walk). contains n v.known_names ≡ true) (contains n w.known_names)
        (λ known. known)
        (λ unknown.
          rw
            (load_file-known ix tree_at root (record w { known_names = n ∷ w.known_names })
              (get_first_symbol_loc n ix))
            (ground (arith, (eq_iff n n).1 refl)))

  load_file-Resolved :
      (n : String) (w : Walk)
      → Resolved n (load_file ix tree_at (get_first_symbol_loc n ix) w).processed_files
  load_file-Resolved n w l at =
      subst (λ o. contains l.uri (load_file ix tree_at o w).processed_files ≡ true) (sym at)
        (load_file-processes ix tree_at root w l)

  load_dependency-IsKnown :
      (done : List SyntaxTree) (n : String) (w : Walk)
      → IsKnown done w
      → IsKnown done (load_dependency ix tree_at n w)
  unfolding load_dependency
  load_dependency-IsKnown done n w h =
      if_both (IsKnown done) (contains n w.known_names) (λ known. h)
        (λ unknown k in_names.
          let w' = record w { known_names = n ∷ w.known_names } in
          elim (Bool-cases (str_eq n k)) [
            | inl same ↦ inr (
                subst
                  (λ x.
                    Resolved x
                      (load_file ix tree_at (get_first_symbol_loc n ix) w').processed_files)
                  ((eq_iff n k).0 same) (load_file-Resolved n w'))
            | inr other ↦
                let old : contains k (n ∷ w.known_names) ≡ true =
                  subst (λ ks. contains k ks ≡ true)
                    (load_file-known ix tree_at root w' (get_first_symbol_loc n ix)) in_names in
                elim (h k (ground (arith, old, other))) [
                  | inl declared ↦ inl declared
                  | inr resolved ↦ inr (λ l at.
                      load_file-grows ix tree_at root w' (get_first_symbol_loc n ix) l.uri
                        (resolved l at))
                ]
          ])

  -- A property of the state that one lookup keeps.
  load_dependencies-keeps {κ} :
      (P : Walk → Type κ)
      → ((n : String) (w : Walk) → P w → P (load_dependency ix tree_at n w))
      → (ns : List String) (w : Walk) → P w
      → P (load_dependencies ix tree_at ns w)
  unfolding load_dependencies
  load_dependencies-keeps P f [] w p = p
  load_dependencies-keeps P f (n ∷ ns) w p =
      load_dependencies-keeps P f ns (load_dependency ix tree_at n w) (f n w p)

  load_dependencies-knows :
      (ns : List String) (w : Walk) (k : String)
      → contains k ns ≡ true
      → contains k (load_dependencies ix tree_at ns w).known_names ≡ true
  unfolding load_dependencies
  load_dependencies-knows [] w k h = ground (arith, h)
  load_dependencies-knows (n ∷ ns) w k h = elim (Bool-cases (str_eq n k)) [
    | inl same ↦
        load_dependencies-keeps (λ v. contains k v.known_names ≡ true)
          (λ j v. load_dependency-grows j k v) ns (load_dependency ix tree_at n w)
          (subst (λ x. contains x (load_dependency ix tree_at n w).known_names ≡ true)
            ((eq_iff n k).0 same) (load_dependency-knows n w))
    | inr other ↦
        load_dependencies-knows ns (load_dependency ix tree_at n w) k (ground (arith, h, other))
  ]

  -- The state between two rounds: the names that the trees taken up refer to are known.
  pub record IsWalk (done : List SyntaxTree) (w : Walk) : Type 0 where
    pub files : IsLoaded ix tree_at root done w
    pub names : IsKnown done w
    pub followed :
        (t : SyntaxTree)
        → Memᴰ t done
        → (n : String) → contains n t.referenced_symbols ≡ true
        → contains n w.known_names ≡ true

  IsLoaded-popped :
      (done q : List SyntaxTree) (tree : SyntaxTree) (w : Walk) (known : List String)
      → w.trees_to_process ≡ tree ∷ q
      → IsLoaded ix tree_at root done w
      → IsLoaded ix tree_at root
          (tree ∷ done)
          (record w { trees_to_process = q; known_names = known })
  IsLoaded-popped done q tree w known e h = record {
    result = h.result;
    unique = h.unique;
    seen = λ t m. elim m [
      | inl (head is) ↦ h.seen t (inr (subst (Memᴰ t) (sym e) (head is)))
      | inl (tail old) ↦ h.seen t (inl old)
      | inr waits ↦ h.seen t (inr (subst (Memᴰ t) (sym e) (tail waits)))
    ];
    covered = λ t f. elim (h.covered t f) [
      | inl old ↦ inl (tail old)
      | inr waits ↦ elim (subst (Memᴰ t) e waits) [
        | head is ↦ inl (head is)
        | tail later ↦ inr later
      ]
    ];
  }

  IsKnown-learn_all :
      (done : List SyntaxTree) (tree : SyntaxTree) (w : Walk) (q : List SyntaxTree)
      → IsKnown done w
      → IsKnown (tree ∷ done) (record w {
        trees_to_process = q;
        known_names = learn_all tree.declared_symbols w.known_names;
      })
  IsKnown-learn_all done tree w q h n k = elim (Bool-cases (contains n tree.declared_symbols)) [
    | inl own ↦ inl (tree, head refl, own)
    | inr other ↦
        elim (h n
          (ground (arith, k, other, contains-learn_all n tree.declared_symbols w.known_names))) [
            | inl (t, m, d) ↦ inl (t, tail m, d)
            | inr resolved ↦ inr resolved
          ]
  ]

  process_tree-IsWalk :
      (done q : List SyntaxTree) (tree : SyntaxTree) (w : Walk)
      → w.trees_to_process ≡ tree ∷ q
      → IsWalk done w
      → IsWalk (tree ∷ done) (process_tree ix tree_at tree (popped ix tree_at q w))
  unfolding process_tree
  process_tree-IsWalk done q tree w e h =
      let known = learn_all tree.declared_symbols w.known_names in
      let w' : Walk = record w { trees_to_process = q; known_names = known } in
      let ns = tree.referenced_symbols in
      record {
        files =
            load_dependencies-keeps (IsLoaded ix tree_at root (tree ∷ done))
              (load_dependency-IsLoaded (tree ∷ done)) ns w'
              (IsLoaded-popped done q tree w known e h.files);
        names =
            load_dependencies-keeps (IsKnown (tree ∷ done)) (load_dependency-IsKnown (tree ∷ done))
              ns w' (IsKnown-learn_all done tree w q h.names);
        followed = λ t m n k. elim m [
          | head is ↦
              load_dependencies-knows ns w' n
                (subst (λ x. contains n x.referenced_symbols ≡ true) is k)
          | tail old ↦
              load_dependencies-keeps (λ v. contains n v.known_names ≡ true)
                (λ j v. load_dependency-grows j n v) ns w'
                (ground (
                  arith,
                  h.followed t old n k,
                  contains-learn_all n tree.declared_symbols w.known_names,
                ))
        ];
      }

  pub process_trees-IsWalk :
      (fuel : ℕ) (done q : List SyntaxTree) (w v : Walk)
      → w.trees_to_process ≡ q
      → IsWalk done w
      → process_trees ix tree_at fuel q w ≡ some v
      → (all : List SyntaxTree) × IsWalk all v × (v.trees_to_process ≡ [])
  unfolding process_trees
  process_trees-IsWalk fuel done [] w v e h r =
      let is : w ≡ v = ground (arith, r) in
      (done, subst (IsWalk done) is h, ap (λ (x : Walk). x.trees_to_process) (sym is) ∙ e)
  process_trees-IsWalk zero done (tree ∷ q) w v e h r = ground (arith, r)
  process_trees-IsWalk (suc n) done (tree ∷ q) w v e h r =
      let next = process_tree ix tree_at tree (popped ix tree_at q w) in
      process_trees-IsWalk n (tree ∷ done) next.trees_to_process next v refl
        (process_tree-IsWalk done q tree w e h) r
