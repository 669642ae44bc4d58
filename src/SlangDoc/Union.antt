-- ===== src/SlangDoc/Union.antt =====
-- Which diagnostics an include fragment gets from its owners.
use mathlib.Core.List.{Memᴰ}
use mathlib.Core.List.Memᴰ.{head, tail, append_left, append_right}
use slang_server_extended.Base.{
  ℕ, List, [], ◌∷◌, ◌++◌, map, Bool, true, false, not, ◌&&◌, ◌==◌, some, ◌≡◌, refl, ap, subst,
  arith, Bool-cases, Option-cases, inl, inr,
}
use slang_server_extended.SlangDoc.Fragments.{
  DedupeKey, is_same_problem, has_key, Issuing, Owner, issue_fragment_diagnostic, issue_each,
  issue_owner, issue_owners, order_owners, issue_include_fragment_diagnostics,
}

-- No two of the keys are the same problem.
abbrev pub are_distinct : List DedupeKey → Bool
are_distinct [] = true
are_distinct (k ∷ ks) = not (has_key ks k) && are_distinct ks

is_same_problem_sym : (a b : DedupeKey) → is_same_problem a b ≡ is_same_problem b a
unfolding is_same_problem
is_same_problem_sym a b = ground arith

pub is_same_problem_refl : (a : DedupeKey) → is_same_problem a a ≡ true
unfolding is_same_problem
is_same_problem_refl a = ground arith

pub has_key-grow :
    (ks : List DedupeKey) (k j : DedupeKey)
    → has_key ks j ≡ true
    → has_key (ks ++ (k ∷ [])) j ≡ true
unfolding has_key
has_key-grow [] k j h = ground (arith, h)
has_key-grow (i ∷ ks) k j h = ground (arith, h, has_key-grow ks k j)

pub has_key-last : (ks : List DedupeKey) (k : DedupeKey) → has_key (ks ++ (k ∷ [])) k ≡ true
unfolding has_key
has_key-last [] k = ground (arith, is_same_problem_refl k)
has_key-last (i ∷ ks) k = ground (arith, has_key-last ks k)

has_key-add :
    (ks : List DedupeKey) (k j : DedupeKey)
    → has_key ks j ≡ false
    → is_same_problem k j ≡ false
    → has_key (ks ++ (k ∷ [])) j ≡ false
unfolding has_key
has_key-add [] k j h n = ground (arith, n)
has_key-add (i ∷ ks) k j h n = ground (arith, h, n, has_key-add ks k j)

are_distinct-add :
    (ks : List DedupeKey) (k : DedupeKey)
    → are_distinct ks ≡ true
    → has_key ks k ≡ false
    → are_distinct (ks ++ (k ∷ [])) ≡ true
unfolding has_key
are_distinct-add [] k h n = refl
are_distinct-add (i ∷ ks) k h n =
    ground (arith, h, n, are_distinct-add ks k, has_key-add ks k i, is_same_problem_sym i k)

module _ {ℓ} {Diag : Type ℓ} (buffer_of : Diag → ℕ) (key_of : Diag → DedupeKey) where
  -- A diagnostic of the owner that lies in the text of the fragment.
  pub record Points (o : Owner Diag) (d : Diag) : Type ℓ where
    pub parse : List Diag
    pub tree : o.tree ≡ some parse
    pub found : o.buffer_for_path ≡ some (buffer_of d)
    pub member : Memᴰ d (parse ++ (o.semantic_diagnostics ++ o.analysis_diags))

  -- The keys kept are those of the diagnostics issued, and no two are one problem.
  pub record IsUnion (st : Issuing Diag) : Type ℓ where
    pub keys : st.already_issued ≡ map key_of st.issued
    pub distinct : are_distinct st.already_issued ≡ true

  pub map-last :
      (ds : List Diag) (d : Diag) → map key_of (ds ++ (d ∷ [])) ≡ map key_of ds ++ (key_of d ∷ [])
  map-last [] d = refl
  map-last (e ∷ ds) d = ap (◌∷◌ (key_of e)) (map-last ds d)

  pub issue_fragment_diagnostic-IsUnion :
      (b : ℕ) (st : Issuing Diag) (d : Diag)
      → IsUnion st
      → IsUnion (issue_fragment_diagnostic buffer_of key_of b st d)
  unfolding issue_fragment_diagnostic
  issue_fragment_diagnostic-IsUnion b st d u = elim (Bool-cases (buffer_of d == b)) [
    | inr outside ↦ rw outside u
    | inl inside ↦ rw inside (elim (Bool-cases (has_key st.already_issued (key_of d))) [
      | inl seen ↦ rw seen u
      | inr new ↦ rw new (record {
        keys = rw (u.keys, map-last st.issued d) refl;
        distinct = are_distinct-add st.already_issued (key_of d) u.distinct new;
      })
    ])
  ]

  pub issue_each-keeps {κ} :
      (P : Issuing Diag → Type κ) (b : ℕ) (ds : List Diag)
      → ((st : Issuing Diag) (d : Diag)
          → Memᴰ d ds
          → P st
          → P (issue_fragment_diagnostic buffer_of key_of b st d))
      → (st : Issuing Diag) → P st
      → P (issue_each buffer_of key_of b st ds)
  unfolding issue_each
  issue_each-keeps P b [] f st p = p
  issue_each-keeps P b (d ∷ ds) f st p =
      issue_each-keeps P b ds (λ s e m q. f s e (tail m) q)
        (issue_fragment_diagnostic buffer_of key_of b st d) (f st d (head refl) p)

  pub issue_owner-keeps {κ} :
      (P : Issuing Diag → Type κ) (o : Owner Diag)
      → ((st : Issuing Diag) (b : ℕ) (parse : List Diag) (d : Diag)
          → o.tree ≡ some parse
          → o.buffer_for_path ≡ some b
          → Memᴰ d (parse ++ (o.semantic_diagnostics ++ o.analysis_diags))
          → P st
          → P (issue_fragment_diagnostic buffer_of key_of b st d))
      → (st : Issuing Diag) → P st
      → P (issue_owner buffer_of key_of o st)
  unfolding issue_owner
  issue_owner-keeps P o f st p = elim (Option-cases o.tree) [
    | inl missing ↦ rw missing p
    | inr (parse, tree) ↦ elim (Option-cases o.buffer_for_path) [
      | inl missing ↦ rw (tree, missing) p
      | inr (b, found) ↦
          rw (tree, found)
            (issue_each-keeps P b o.analysis_diags
              (λ s d m q.
                f s b parse d tree found
                  (append_right parse (append_right o.semantic_diagnostics m)) q)
              (issue_each buffer_of key_of b (issue_each buffer_of key_of b st parse)
                o.semantic_diagnostics)
              (issue_each-keeps P b o.semantic_diagnostics
                (λ s d m q.
                  f s b parse d tree found (append_right parse (append_left o.analysis_diags m)) q)
                (issue_each buffer_of key_of b st parse)
                (issue_each-keeps P b parse
                  (λ s d m q.
                    f s b parse d tree found
                      (append_left (o.semantic_diagnostics ++ o.analysis_diags) m) q)
                  st p)))
    ]
  ]

  pub issue_owners-keeps {κ} :
      (P : Issuing Diag → Type κ) (os : List (Owner Diag))
      → ((st : Issuing Diag) (o : Owner Diag) (b : ℕ) (parse : List Diag) (d : Diag)
          → Memᴰ o os
          → o.tree ≡ some parse
          → o.buffer_for_path ≡ some b
          → Memᴰ d (parse ++ (o.semantic_diagnostics ++ o.analysis_diags))
          → P st
          → P (issue_fragment_diagnostic buffer_of key_of b st d))
      → (st : Issuing Diag) → P st
      → P (issue_owners buffer_of key_of os st)
  unfolding issue_owners
  issue_owners-keeps P [] f st p = p
  issue_owners-keeps P (o ∷ os) f st p =
      issue_owners-keeps P os (λ s q b parse d m. f s q b parse d (tail m))
        (issue_owner buffer_of key_of o st)
        (issue_owner-keeps P o (λ s b parse d. f s o b parse d (head refl)) st p)

  abbrev pub nothing : Issuing Diag
  nothing = record { already_issued = []; issued = [] }

  pub issue_owners-IsUnion :
      (os : List (Owner Diag)) → IsUnion (issue_owners buffer_of key_of os nothing)
  issue_owners-IsUnion os =
      issue_owners-keeps IsUnion os
        (λ st o b parse d m t f n. issue_fragment_diagnostic-IsUnion b st d) nothing
        (record { keys = refl; distinct = refl })

  -- No two of the diagnostics issued for a fragment have one code, line and column.
  pub issue_include_fragment_diagnostics-are_distinct :
      (is_open : Owner Diag → Bool) (owners : List (Owner Diag))
      → are_distinct
          (map key_of (issue_include_fragment_diagnostics buffer_of key_of is_open owners))
        ≡ true
  unfolding issue_include_fragment_diagnostics
  issue_include_fragment_diagnostics-are_distinct is_open owners =
      let u = issue_owners-IsUnion (order_owners is_open owners) in
      subst (λ ks. are_distinct ks ≡ true) u.keys u.distinct
