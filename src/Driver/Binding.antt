-- ===== src/Driver/Binding.antt =====
-- That binding a document to one without owners keeps the ranks, and so leaves no circle.
use slang_server_extended.Base.{
  ℕ, ◌<◌, zero, suc, List, [], ◌∷◌, ◌++◌, true, false, ◌==◌, if◌then◌else◌, none, some, ◌≡◌, refl,
  sym, ap, ◌∙◌, subst, ◌⊎◌, arith, Bool-cases, Option-cases, inl, inr, if_both, length, get_elem?,
  update_at, ==_refl,
}
use slang_server_extended.Indexer.Defs.{contains}
use slang_server_extended.Driver.Documents.{
  Document, ServerDriver, include_owners, uri_of, has_position, owners_in, uri_in, with_owner,
  add_include_owner, World,
}
use slang_server_extended.Driver.Owners.{
  get_elem?-update_at, get_elem?-update_at_other, get_elem?-within, length-update_at, Owns, Named,
  IsWell, All-map, IsBelow,
}
use slang_server_extended.Driver.Making.{not_owned}

pub has_position-last :
    (os : List ℕ) (o p : ℕ)
    → has_position p (os ++ (o ∷ [])) ≡ true
    → (has_position p os ≡ true) ⊎ (o ≡ p)
unfolding has_position
has_position-last [] o p h = ground (arith, h)
has_position-last (q ∷ os) o p h = ground (arith, h, has_position-last os o p)

with_owner-cases :
    (o p : ℕ) (d : Document)
    → has_position p (with_owner o d).include_owners ≡ true
    → (has_position p d.include_owners ≡ true) ⊎ (o ≡ p)
unfolding with_owner
with_owner-cases o p d =
    if_both
      (λ (x : Document).
        has_position p x.include_owners ≡ true → (has_position p d.include_owners ≡ true) ⊎ (o ≡ p))
      (has_position o d.include_owners) (λ there h. inl h)
      (λ new. has_position-last d.include_owners o p)

with_owner-uri : (o : ℕ) (d : Document) → (with_owner o d).uri ≡ d.uri
unfolding with_owner
with_owner-uri o d =
    if_both (λ (x : Document). x.uri ≡ d.uri) (has_position o d.include_owners) (λ there. refl)
      (λ new. refl)

-- The places of the store after the binding.
bound_place :
    (world : World) (h o x : ℕ) (st : ServerDriver)
    → (get_elem? (add_include_owner world h o st).store x ≡ get_elem? st.store x)
      ⊎ ((d : Document) × (h ≡ x)
          × (get_elem? st.store x ≡ some d)
          × (get_elem? (add_include_owner world h o st).store x ≡ some (with_owner o d)))
unfolding add_include_owner
bound_place world h o x st = elim (Bool-cases (h == x)) [
  | inr other ↦ inl (get_elem?-update_at_other h x (with_owner o) st.store other)
  | inl same ↦
      let is : h ≡ x = ground arith in
      elim (Option-cases (get_elem? st.store x)) [
        | inr (d, at) ↦ inr (
          d,
          is,
          at,
          ap (λ y. get_elem? (update_at y (with_owner o) st.store) x) is
              ∙ get_elem?-update_at x (with_owner o) st.store d at,
        )
        | inl missing ↦ inl (past h x st.store is missing ∙ sym missing)
      ]
]
  where
    past :
        (h x : ℕ) (ds : List Document)
        → h ≡ x
        → get_elem? ds x ≡ none
        → get_elem? (update_at h (with_owner o) ds) x ≡ none
    past h x [] e m = refl
    past zero zero (d ∷ ds) e m = cc
    past (suc h) zero (d ∷ ds) e m = cc
    past zero (suc x) (d ∷ ds) e m = m
    past (suc h) (suc x) (d ∷ ds) e m = past h x ds (omega arith) m

pub add_include_owner-Owns :
    (world : World) (h o x y : ℕ) (st : ServerDriver)
    → Owns (add_include_owner world h o st) x y
    → Owns st x y ⊎ ((h ≡ x) × (o ≡ y))
add_include_owner-Owns world h o x y st k = elim (bound_place world h o x st) [
  | inl same ↦ inl (subst (λ e. has_position y (owners_in e) ≡ true) same k)
  | inr (d, is, at, now) ↦
      elim (with_owner-cases o y d (subst (λ e. has_position y (owners_in e) ≡ true) now k)) [
        | inl old ↦ inl (subst (λ e. has_position y (owners_in e) ≡ true) (sym at) old)
        | inr new ↦ inr (is, new)
      ]
]

has_position-grow :
    (os : List ℕ) (o p : ℕ) → has_position p os ≡ true → has_position p (os ++ (o ∷ [])) ≡ true
unfolding has_position
has_position-grow [] o p h = ground (arith, h)
has_position-grow (q ∷ os) o p h = ground (arith, h, has_position-grow os o p)

has_position-end : (os : List ℕ) (o : ℕ) → has_position o (os ++ (o ∷ [])) ≡ true
unfolding has_position
has_position-end [] o = ground arith
has_position-end (q ∷ os) o = ground (arith, has_position-end os o)

with_owner-keeps :
    (o p : ℕ) (d : Document)
    → has_position p d.include_owners ≡ true
    → has_position p (with_owner o d).include_owners ≡ true
unfolding with_owner
with_owner-keeps o p d h =
    if_both (λ (x : Document). has_position p x.include_owners ≡ true)
      (has_position o d.include_owners) (λ there. h)
      (λ new. has_position-grow d.include_owners o p h)

with_owner-adds : (o : ℕ) (d : Document) → has_position o (with_owner o d).include_owners ≡ true
unfolding with_owner
with_owner-adds o d =
    if_both (λ (x : Document). has_position o x.include_owners ≡ true)
      (has_position o d.include_owners) (λ there. there)
      (λ new. has_position-end d.include_owners o)

pub add_include_owner-keeps :
    (world : World) (h o x y : ℕ) (st : ServerDriver)
    → Owns st x y
    → Owns (add_include_owner world h o st) x y
add_include_owner-keeps world h o x y st k = elim (bound_place world h o x st) [
  | inl same ↦ subst (λ e. has_position y (owners_in e) ≡ true) (sym same) k
  | inr (d, is, at, now) ↦
      subst (λ e. has_position y (owners_in e) ≡ true) (sym now)
        (with_owner-keeps o y d (subst (λ e. has_position y (owners_in e) ≡ true) at k))
]

pub add_include_owner-adds :
    (world : World) (h o : ℕ) (st : ServerDriver)
    → h < length st.store
    → Owns (add_include_owner world h o st) h o
unfolding add_include_owner
add_include_owner-adds world h o st lt =
    let (d, at) = get_elem?-within st.store h lt in
    subst (λ e. has_position o (owners_in e) ≡ true)
      (sym (get_elem?-update_at h (with_owner o) st.store d at)) (with_owner-adds o d)

pub add_include_owner-uri :
    (world : World) (h o x : ℕ) (st : ServerDriver)
    → uri_of (add_include_owner world h o st) x ≡ uri_of st x
add_include_owner-uri world h o x st = elim (bound_place world h o x st) [
  | inl same ↦ ap uri_in same
  | inr (d, is, at, now) ↦ ap uri_in now ∙ with_owner-uri o d ∙ sym (ap uri_in at)
]

pub add_include_owner-length :
    (world : World) (h o : ℕ) (st : ServerDriver)
    → length (add_include_owner world h o st).store ≡ length st.store
unfolding add_include_owner
add_include_owner-length world h o st = length-update_at h (with_owner o) st.store

pub add_include_owner-rest :
    (world : World) (h o : ℕ) (st : ServerDriver)
    → ((add_include_owner world h o st).docs ≡ st.docs)
      × ((add_include_owner world h o st).open_docs ≡ st.open_docs)
unfolding add_include_owner
add_include_owner-rest world h o st = (refl, refl)

pub add_include_owner-IsBelow :
    (world : World) (rank : ℕ → ℕ) (l h o : ℕ) (st : ServerDriver)
    → o < l
    → rank o < rank h
    → IsBelow rank l st
    → IsBelow rank l (add_include_owner world h o st)
add_include_owner-IsBelow world rank l h o st lo falls b = record {
  within = omega (arith, b.within, add_include_owner-length world h o st);
  falls = λ x y lt k. elim (add_include_owner-Owns world h o x y st k) [
    | inl old ↦ b.falls x y lt old
    | inr (is_h, is_o) ↦
        (omega arith, subst (λ v. rank v < rank x) is_o (subst (λ v. rank o < rank v) is_h falls))
  ];
}

-- The rank in which a document without owners comes last.
abbrev pub last_rank : ℕ → (ℕ → ℕ) → ℕ → ℕ
last_rank o rank x = if x == o then 0 else suc (rank x)

pub last_rank-falls :
    (o x : ℕ) (rank : ℕ → ℕ) → (x == o) ≡ false → last_rank o rank o < last_rank o rank x
last_rank-falls o x rank other = ground (arith, other, ==_refl o)

pub last_rank-keeps :
    (o x y : ℕ) (rank : ℕ → ℕ)
    → (x == o) ≡ false
    → rank y < rank x
    → last_rank o rank y < last_rank o rank x
last_rank-keeps o x y rank other falls = ground (arith, other, falls)

pub add_include_owner-IsWell :
    (world : World) (h o : ℕ) (st : ServerDriver)
    → o < length st.store
    → (h == o) ≡ false
    → include_owners st o ≡ []
    → IsWell st
    → IsWell (add_include_owner world h o st)
add_include_owner-IsWell world h o st lo other sink w =
    let st' = add_include_owner world h o st in
    let size = add_include_owner-length world h o st in
    record {
      rank = last_rank o w.rank;
      bound = suc w.bound;
      bounded = λ x. ground (arith, w.bounded x);
      drops = λ x y k. elim (add_include_owner-Owns world h o x y st k) [
        | inr (is_h, is_o) ↦ (
          ground (arith, is_o, lo, size),
          subst (λ v. last_rank o w.rank v < last_rank o w.rank x) is_o
              (subst (λ v. last_rank o w.rank o < last_rank o w.rank v) is_h
                (last_rank-falls o h w.rank other)),
        )
        | inl old ↦ elim (Bool-cases (x == o)) [
          | inr apart ↦ (
            omega (arith, (w.drops x y old).0, size),
            last_rank-keeps o x y w.rank apart (w.drops x y old).1,
          )
          | inl same ↦
              let is : x ≡ o = ground arith in
              elim (not_owned y (
                subst (λ os. has_position y os ≡ true) sink
                  (subst (λ v. has_position y (include_owners st v) ≡ true) is old))) [ ]
        ]
      ];
      named = rw (add_include_owner-rest world h o st).0 (
          All-map (Named st) (Named st')
            (λ d n. (omega (arith, n.0, size), add_include_owner-uri world h o d.1 st ∙ n.1))
            st.docs w.named);
      opened = λ u k. rw (add_include_owner-rest world h o st).0 (
          w.opened u
            (subst (λ us. contains u us ≡ true) (add_include_owner-rest world h o st).1 k));
    }
