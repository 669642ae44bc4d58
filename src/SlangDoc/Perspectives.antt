-- ===== src/SlangDoc/Perspectives.antt =====
-- That the diagnostics of an include fragment are those that its owners have for its text.
use mathlib.Core.List.{Memᴰ}
use mathlib.Core.List.Memᴰ.{head, tail, append_left, append_cases}
use slang_server_extended.Base.{
  ℕ, ◌≤◌, zero, suc, List, [], ◌∷◌, ◌++◌, map, Bool, true, not, ◌==◌, ltb, length, take, keep, some,
  ◌≡◌, refl, sym, subst, arith, Bool-cases, if_both, inl, inr,
}
use slang_server_extended.SlangDoc.Fragments.{
  DedupeKey, has_key, Issuing, Owner, max_fragment_owners_analyzed, issue_fragment_diagnostic,
  issue_each, issue_owner, issue_owners, order_owners, issue_include_fragment_diagnostics,
}
use slang_server_extended.SlangDoc.Union.{
  Points, IsUnion, has_key-grow, has_key-last, issue_each-keeps, issue_owners-keeps,
  issue_owners-IsUnion, nothing,
}

module _ {ℓ} {Diag : Type ℓ} (buffer_of : Diag → ℕ) (key_of : Diag → DedupeKey) where
  abbrev Issued : DedupeKey → Issuing Diag → Type 0
  Issued k st = has_key st.already_issued k ≡ true

  issue_fragment_diagnostic-Issued :
      (k : DedupeKey) (b : ℕ) (st : Issuing Diag) (d : Diag)
      → Issued k st
      → Issued k (issue_fragment_diagnostic buffer_of key_of b st d)
  unfolding issue_fragment_diagnostic
  issue_fragment_diagnostic-Issued k b st d h =
      ground (arith, h, has_key-grow st.already_issued (key_of d) k)

  issue_fragment_diagnostic-adds :
      (b : ℕ) (st : Issuing Diag) (d : Diag)
      → buffer_of d ≡ b
      → Issued (key_of d) (issue_fragment_diagnostic buffer_of key_of b st d)
  unfolding issue_fragment_diagnostic
  issue_fragment_diagnostic-adds b st d h =
      ground (arith, h, has_key-last st.already_issued (key_of d))

  issue_each-Issued :
      (k : DedupeKey) (b : ℕ) (ds : List Diag) (st : Issuing Diag)
      → Issued k st
      → Issued k (issue_each buffer_of key_of b st ds)
  issue_each-Issued k b ds =
      issue_each-keeps buffer_of key_of (Issued k) b ds
        (λ st d m. issue_fragment_diagnostic-Issued k b st d)

  issue_each-adds :
      (b : ℕ) (ds : List Diag) (st : Issuing Diag) (d : Diag)
      → Memᴰ d ds
      → buffer_of d ≡ b
      → Issued (key_of d) (issue_each buffer_of key_of b st ds)
  unfolding issue_each
  issue_each-adds b [] st d m h = elim m [ ]
  issue_each-adds b (e ∷ ds) st d (head is) h =
      issue_each-Issued (key_of d) b ds (issue_fragment_diagnostic buffer_of key_of b st e) (
        subst (λ x. Issued (key_of d) (issue_fragment_diagnostic buffer_of key_of b st x)) is
          (issue_fragment_diagnostic-adds b st d h))
  issue_each-adds b (e ∷ ds) st d (tail m) h =
      issue_each-adds b ds (issue_fragment_diagnostic buffer_of key_of b st e) d m h

  issue_owner-adds :
      (o : Owner Diag) (st : Issuing Diag) (d : Diag)
      → Points buffer_of key_of o d
      → Issued (key_of d) (issue_owner buffer_of key_of o st)
  unfolding issue_owner
  issue_owner-adds o st d p =
      let b = buffer_of d in
      let one = issue_each buffer_of key_of b st p.parse in
      let two = issue_each buffer_of key_of b one o.semantic_diagnostics in
      rw (p.tree, p.found)
        (elim (append_cases p.parse p.member) [
          | inl m ↦ issue_each-Issued (key_of d) b o.analysis_diags two (
              issue_each-Issued (key_of d) b o.semantic_diagnostics one
                (issue_each-adds b p.parse st d m refl))
          | inr rest ↦ elim (append_cases o.semantic_diagnostics rest) [
            | inl m ↦
                issue_each-Issued (key_of d) b o.analysis_diags two
                  (issue_each-adds b o.semantic_diagnostics one d m refl)
            | inr m ↦ issue_each-adds b o.analysis_diags two d m refl
          ]
        ])

  issue_owners-adds :
      (os : List (Owner Diag)) (o : Owner Diag) (st : Issuing Diag) (d : Diag)
      → Memᴰ o os
      → Points buffer_of key_of o d
      → Issued (key_of d) (issue_owners buffer_of key_of os st)
  unfolding issue_owners
  issue_owners-adds [] o st d m p = elim m [ ]
  issue_owners-adds (x ∷ os) o st d (head is) p =
      issue_owners-keeps buffer_of key_of (Issued (key_of d)) os
        (λ s q b parse e m t f n. issue_fragment_diagnostic-Issued (key_of d) b s e)
        (issue_owner buffer_of key_of x st)
        (issue_owner-adds x st d (subst (λ y. Points buffer_of key_of y d) is p))
  issue_owners-adds (x ∷ os) o st d (tail m) p =
      issue_owners-adds os o (issue_owner buffer_of key_of x st) d m p

  abbrev IsSeen : List (Owner Diag) → Issuing Diag → Type ℓ
  IsSeen os st =
      (d : Diag) → Memᴰ d st.issued → (o : Owner Diag) × Memᴰ o os × Points buffer_of key_of o d

  issue_fragment_diagnostic-IsSeen :
      (os : List (Owner Diag)) (st : Issuing Diag) (o : Owner Diag) (b : ℕ) (parse : List Diag)
      (d : Diag)
      → Memᴰ o os
      → o.tree ≡ some parse
      → o.buffer_for_path ≡ some b
      → Memᴰ d (parse ++ (o.semantic_diagnostics ++ o.analysis_diags))
      → IsSeen os st
      → IsSeen os (issue_fragment_diagnostic buffer_of key_of b st d)
  unfolding issue_fragment_diagnostic
  issue_fragment_diagnostic-IsSeen os st o b parse d m t f n seen =
      elim (Bool-cases (buffer_of d == b)) [
        | inr outside ↦ rw outside seen
        | inl inside ↦ rw inside (elim (Bool-cases (has_key st.already_issued (key_of d))) [
          | inl old ↦ rw old seen
          | inr new ↦ rw new (λ e k. elim (append_cases st.issued k) [
            | inl before ↦ seen e before
            | inr (head is) ↦ (
              o,
              m,
              subst (Points buffer_of key_of o) (sym is)
                  (record { parse = parse; tree = t; found = ground arith; member = n }),
            )
            | inr (tail none_left) ↦ elim none_left [ ]
          ])
        ])
      ]

  -- Every diagnostic issued for a fragment is one that an owner among those chosen has in its tree or
  -- analysis, and lies in the buffer that the owner's tree has for the fragment.
  pub issue_include_fragment_diagnostics-Points :
      (is_open : Owner Diag → Bool) (owners : List (Owner Diag)) (d : Diag)
      → Memᴰ d (issue_include_fragment_diagnostics buffer_of key_of is_open owners)
      → (o : Owner Diag) × Memᴰ o (order_owners is_open owners) × Points buffer_of key_of o d
  unfolding issue_include_fragment_diagnostics
  issue_include_fragment_diagnostics-Points is_open owners =
      issue_owners-keeps buffer_of key_of (IsSeen (order_owners is_open owners))
        (order_owners is_open owners)
        (issue_fragment_diagnostic-IsSeen (order_owners is_open owners)) (nothing buffer_of key_of)
        (λ d m. elim m [ ])

  pub issue_include_fragment_diagnostics-has_key :
      (is_open : Owner Diag → Bool) (owners : List (Owner Diag)) (o : Owner Diag) (d : Diag)
      → Memᴰ o (order_owners is_open owners)
      → Points buffer_of key_of o d
      → has_key
          (map key_of (issue_include_fragment_diagnostics buffer_of key_of is_open owners))
          (key_of d)
        ≡ true
  unfolding issue_include_fragment_diagnostics
  issue_include_fragment_diagnostics-has_key is_open owners o d m p =
      let os = order_owners is_open owners in
      let start = nothing buffer_of key_of in
      let u : IsUnion buffer_of key_of (issue_owners buffer_of key_of os start) =
        issue_owners-IsUnion buffer_of key_of os in
      subst (λ ks. has_key ks (key_of d) ≡ true) u.keys (issue_owners-adds os o start d m p)

Memᴰ-keep {ℓ} :
    {A : Type ℓ} (p : A → Bool) (xs : List A) (x : A) → Memᴰ x xs → p x ≡ true → Memᴰ x (keep p xs)
Memᴰ-keep p [] x m h = elim m [ ]
Memᴰ-keep p (y ∷ xs) x (head is) h = rw (subst (λ z. p z ≡ true) is h) (head is)
Memᴰ-keep p (y ∷ xs) x (tail m) h =
    if_both (Memᴰ x) (p y) (λ yes_kept. tail (Memᴰ-keep p xs x m h))
      (λ dropped. Memᴰ-keep p xs x m h)

Memᴰ-take-append {ℓ} :
    {A : Type ℓ} (n : ℕ) (xs ys : List A) (x : A)
    → Memᴰ x xs
    → length xs ≤ n
    → Memᴰ x (take n (xs ++ ys))
Memᴰ-take-append zero [] ys x m h = elim m [ ]
Memᴰ-take-append (suc n) [] ys x m h = elim m [ ]
Memᴰ-take-append zero (y ∷ xs) ys x m h = elim h [ ]
Memᴰ-take-append (suc n) (y ∷ xs) ys x (head is) h = head is
Memᴰ-take-append (suc n) (y ∷ xs) ys x (tail m) h =
    tail (Memᴰ-take-append n xs ys x m (omega arith))

order_owners-open {ℓ} :
    {Diag : Type ℓ} (is_open : Owner Diag → Bool) (owners : List (Owner Diag)) (o : Owner Diag)
    → Memᴰ o owners
    → is_open o ≡ true
    → length (keep is_open owners) ≤ max_fragment_owners_analyzed
    → Memᴰ o (order_owners is_open owners)
unfolding order_owners
order_owners-open is_open owners o m h few =
    let kept = Memᴰ-keep is_open owners o m h in
    let rest = keep (λ x. not (is_open x)) owners in
    if_both (Memᴰ o) (ltb 8 (length (keep is_open owners ++ rest)))
      (λ many. Memᴰ-take-append 8 (keep is_open owners) rest o kept few)
      (λ fits. append_left rest kept)

-- A diagnostic that an open owner has for the fragment's text is issued, or another one of its code,
-- line and column is, where no more than eight of the owners are open.
pub issue_include_fragment_diagnostics-open {ℓ} :
    {Diag : Type ℓ} (buffer_of : Diag → ℕ) (key_of : Diag → DedupeKey) (is_open : Owner Diag → Bool)
    (owners : List (Owner Diag)) (o : Owner Diag) (d : Diag)
    → Memᴰ o owners
    → is_open o ≡ true
    → length (keep is_open owners) ≤ max_fragment_owners_analyzed
    → Points buffer_of key_of o d
    → has_key
        (map key_of (issue_include_fragment_diagnostics buffer_of key_of is_open owners))
        (key_of d)
      ≡ true
issue_include_fragment_diagnostics-open buffer_of key_of is_open owners o d m h few =
    issue_include_fragment_diagnostics-has_key buffer_of key_of is_open owners o d
      (order_owners-open is_open owners o m h few)
