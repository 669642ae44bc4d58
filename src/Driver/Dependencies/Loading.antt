-- ===== src/Driver/Dependencies/Loading.antt =====
-- What loading one file does to the state of the walk.
use mathlib.Core.List.{Memᴰ}
use mathlib.Core.List.Memᴰ.{head, tail, append_left, append_right, append_cases}
use Prim.Native.String.{String}
use text.Mathlib.Text.{◌==◌ as str_eq}
use text.Mathlib.TextEquality.{eq_iff}
use slang_server_extended.Base.{
  List, [], ◌∷◌, ◌++◌, Bool, true, false, not, ◌&&◌, if◌then◌else◌, Option, none, some, ◌≡◌, refl,
  sym, ap, ◌∙◌, subst, ◌⊎◌, arith, Bool-cases, Option-cases, inl, inr, if_both, append-nil,
}
use slang_server_extended.Indexer.Defs.{Index, GlobalSymbolLoc, contains}
use slang_server_extended.Driver.Trees.{SyntaxTree}
use slang_server_extended.Driver.Dependencies.{Walk, recurses, add_tree, load_file}
use slang_server_extended.Driver.Dependencies.Termination.{contains-append}

abbrev pub no_repeats : List String → Bool
no_repeats [] = true
no_repeats (x ∷ xs) = not (contains x xs) && no_repeats xs

no_repeats-last :
    (xs : List String) (u : String)
    → no_repeats xs ≡ true
    → contains u xs ≡ false
    → no_repeats (xs ++ (u ∷ [])) ≡ true
no_repeats-last [] u h n = refl
no_repeats-last (x ∷ xs) u h n =
    ground
      (arith, h, n, no_repeats-last xs u, contains-append x xs (u ∷ []), eq_iff u x, eq_iff x u)

abbrev pub with_tree : Option SyntaxTree → List SyntaxTree → List SyntaxTree
with_tree none ts = ts
with_tree (some t) ts = t ∷ ts

module _ (tree_at : String → Option SyntaxTree) where
  -- The trees of some files, in order.
  abbrev pub loaded : List String → List SyntaxTree
  loaded [] = []
  loaded (f ∷ fs) = with_tree (tree_at f) (loaded fs)

  loaded-last :
      (fs : List String) (u : String)
      → loaded (fs ++ (u ∷ [])) ≡ loaded fs ++ with_tree (tree_at u) []
  loaded-last [] u = refl
  loaded-last (f ∷ fs) u = elim (Option-cases (tree_at f)) [
    | inl missing ↦ rw missing (loaded-last fs u)
    | inr (t, found) ↦ rw found (ap (◌∷◌ t) (loaded-last fs u))
  ]

  pub loaded-Memᴰ :
      (fs : List String) (f : String) (t : SyntaxTree)
      → contains f fs ≡ true
      → tree_at f ≡ some t
      → Memᴰ t (loaded fs)
  loaded-Memᴰ [] f t h e = ground (arith, h)
  loaded-Memᴰ (g ∷ fs) f t h e = elim (Bool-cases (str_eq g f)) [
    | inl same ↦
        let is : g ≡ f = (eq_iff g f).0 same in
        let at : tree_at g ≡ some t = ap tree_at is ∙ e in rw at (head refl)
    | inr other ↦
        let rest : Memᴰ t (loaded fs) = loaded-Memᴰ fs f t (ground (arith, h, other)) e in
        elim (Option-cases (tree_at g)) [
          | inl missing ↦ rw missing rest
          | inr (u, found) ↦ rw found (tail rest)
        ]
  ]

module _ (ix : Index) (tree_at : String → Option SyntaxTree) (root : SyntaxTree) where
  -- A tree whose references are followed: the root, and the packages and interfaces of the result.
  abbrev pub Followed : SyntaxTree → List SyntaxTree → Type 0
  Followed t result = (t ≡ root) ⊎ (Memᴰ t result × (recurses t.node_meta ≡ true))

  -- The result is the trees of the processed files, none of them twice, and the followed trees are
  -- those that are done and those that wait.
  pub record IsLoaded (done : List SyntaxTree) (w : Walk) : Type 0 where
    pub result : w.result ≡ loaded tree_at w.processed_files
    pub unique : no_repeats w.processed_files ≡ true
    pub seen : (t : SyntaxTree) → Memᴰ t done ⊎ Memᴰ t w.trees_to_process → Followed t w.result
    pub covered : (t : SyntaxTree) → Followed t w.result → Memᴰ t done ⊎ Memᴰ t w.trees_to_process

  Followed-grow :
      (t u : SyntaxTree) (ts : List SyntaxTree) → Followed t ts → Followed t (ts ++ (u ∷ []))
  Followed-grow t u ts (inl is) = inl is
  Followed-grow t u ts (inr (m, r)) = inr (append_left (u ∷ []) m, r)

  queued-grow :
      (done q : List SyntaxTree) (t u : SyntaxTree) (b : Bool)
      → Memᴰ t done ⊎ Memᴰ t q
      → Memᴰ t done ⊎ Memᴰ t (if b then q ++ (u ∷ []) else q)
  queued-grow done q t u b (inl m) = inl m
  queued-grow done q t u true (inr m) = inr (append_left (u ∷ []) m)
  queued-grow done q t u false (inr m) = inr m

  queued-cases :
      (q : List SyntaxTree) (t u : SyntaxTree) (b : Bool)
      → Memᴰ t (if b then q ++ (u ∷ []) else q)
      → Memᴰ t q ⊎ ((t ≡ u) × (b ≡ true))
  queued-cases q t u false m = inl m
  queued-cases q t u true m = elim (append_cases q m) [
    | inl old ↦ inl old
    | inr (head is) ↦ inr (is, refl)
    | inr (tail empty) ↦ elim empty [ ]
  ]

  add_tree-IsLoaded :
      (done : List SyntaxTree) (w : Walk) (u : String) (o : Option SyntaxTree)
      → tree_at u ≡ o
      → contains u w.processed_files ≡ false
      → IsLoaded done w
      → IsLoaded done
          (add_tree ix tree_at o (record w { processed_files = w.processed_files ++ (u ∷ []) }))
  unfolding add_tree
  add_tree-IsLoaded done w u none e new h = record {
    result =
        h.result
        ∙ sym (
            loaded-last tree_at w.processed_files u
            ∙ ap (λ x. loaded tree_at w.processed_files ++ with_tree x []) e
            ∙ append-nil (loaded tree_at w.processed_files));
    unique = no_repeats-last w.processed_files u h.unique new;
    seen = h.seen;
    covered = h.covered;
  }
  add_tree-IsLoaded done w u (some t) e new h = record {
    result =
        ap (λ x. x ++ (t ∷ [])) h.result
        ∙ sym (
            loaded-last tree_at w.processed_files u
            ∙ ap (λ x. loaded tree_at w.processed_files ++ with_tree x []) e);
    unique = no_repeats-last w.processed_files u h.unique new;
    seen = λ x m. elim m [
      | inl finished ↦ Followed-grow x t w.result (h.seen x (inl finished))
      | inr waits ↦ elim (queued-cases w.trees_to_process x t (recurses t.node_meta) waits) [
        | inl old ↦ Followed-grow x t w.result (h.seen x (inr old))
        | inr (is, r) ↦
            inr
              (append_right w.result (head is), subst (λ y. recurses y.node_meta ≡ true) (sym is) r)
      ]
    ];
    covered = λ x f. elim f [
      | inl is ↦
          queued-grow done w.trees_to_process x t (recurses t.node_meta) (h.covered x (inl is))
      | inr (m, r) ↦ elim (append_cases w.result m) [
        | inl old ↦
            queued-grow done w.trees_to_process x t (recurses t.node_meta)
              (h.covered x (inr (old, r)))
        | inr (head is) ↦
            let go : recurses t.node_meta ≡ true = subst (λ y. recurses y.node_meta ≡ true) is r in
            inr (rw go (append_right w.trees_to_process (head is)))
        | inr (tail empty) ↦ elim empty [ ]
      ]
    ];
  }

  pub load_file-IsLoaded :
      (done : List SyntaxTree) (w : Walk) (o : Option GlobalSymbolLoc)
      → IsLoaded done w
      → IsLoaded done (load_file ix tree_at o w)
  unfolding load_file
  load_file-IsLoaded done w none h = h
  load_file-IsLoaded done w (some l) h =
      if_both (IsLoaded done) (contains l.uri w.processed_files) (λ old. h)
        (λ new. add_tree-IsLoaded done w l.uri (tree_at l.uri) refl new h)

  add_tree-keeps :
      (o : Option SyntaxTree) (w : Walk)
      → ((add_tree ix tree_at o w).known_names ≡ w.known_names)
        × ((add_tree ix tree_at o w).processed_files ≡ w.processed_files)
  unfolding add_tree
  add_tree-keeps none w = (refl, refl)
  add_tree-keeps (some t) w = (refl, refl)

  pub load_file-known :
      (w : Walk) (o : Option GlobalSymbolLoc)
      → (load_file ix tree_at o w).known_names ≡ w.known_names
  unfolding load_file
  load_file-known w none = refl
  load_file-known w (some l) =
      if_both (λ (v : Walk). v.known_names ≡ w.known_names) (contains l.uri w.processed_files)
        (λ old. refl)
        (λ new.
          (add_tree-keeps (tree_at l.uri)
            (record w { processed_files = w.processed_files ++ (l.uri ∷ []) })).0)

  pub load_file-grows :
      (w : Walk) (o : Option GlobalSymbolLoc) (f : String)
      → contains f w.processed_files ≡ true
      → contains f (load_file ix tree_at o w).processed_files ≡ true
  unfolding load_file
  load_file-grows w none f h = h
  load_file-grows w (some l) f h =
      let w' = record w { processed_files = w.processed_files ++ (l.uri ∷ []) } in
      if_both (λ (v : Walk). contains f v.processed_files ≡ true) (contains l.uri w.processed_files)
        (λ old. h)
        (λ new.
          rw (add_tree-keeps (tree_at l.uri) w').1
            (ground (arith, h, contains-append f w.processed_files (l.uri ∷ []))))

  pub load_file-processes :
      (w : Walk) (l : GlobalSymbolLoc)
      → contains l.uri (load_file ix tree_at (some l) w).processed_files ≡ true
  unfolding load_file
  load_file-processes w l =
      let w' = record w { processed_files = w.processed_files ++ (l.uri ∷ []) } in
      if_both (λ (v : Walk). contains l.uri v.processed_files ≡ true)
        (contains l.uri w.processed_files) (λ old. old)
        (λ new. rw (add_tree-keeps (tree_at l.uri) w').1 (
          ground (
            arith,
            contains-append l.uri w.processed_files (l.uri ∷ []),
            (eq_iff l.uri l.uri).1 refl,
          )))
