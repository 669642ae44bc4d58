-- ===== src/Driver/Making.antt =====
-- That making a document, and finding one or making it, keeps the state well-formed.
use Prim.Native.String.{String}
use text.Mathlib.Text.{◌==◌ as str_eq}
use slang_server_extended.Base.{
  ℕ, ◌<◌, suc, List, [], ◌∷◌, ◌++◌, true, false, not, ◌||◌, ◌==◌, if◌then◌else◌, none, some, ◌≡◌,
  refl, sym, ap, ◌∙◌, subst, ◌⊎◌, arith, Bool-cases, inl, inr, if_both, is_nil, length, get_elem?,
  length-append, All, ltb,
}
use slang_server_extended.Driver.Documents.{
  Document, ServerDriver, World, include_owners, is_include_fragment, uri_of, make_document,
  set_doc, has_position, owners_among, find_include_owners, is_owner_of, owners_in, uri_in,
}
use slang_server_extended.Driver.Owners.{
  get_elem?-append, get_elem?-last, get_elem?-past, Named, IsFound, IsWell, Extends, Extends-trans,
  All-map, assign_doc-All, find_doc-assign_doc,
}

pub make_document-Extends : (d : Document) (st : ServerDriver) → Extends st (make_document d st).0
make_document-Extends d st = record {
  longer = omega (arith, length-append st.store (d ∷ []));
  same = λ h lt. get_elem?-append st.store (d ∷ []) h lt;
  open_docs = refl;
  found = λ u f. f;
}

pub Named-Extends :
    (st st' : ServerDriver) (d : String × ℕ) → Extends st st' → Named st d → Named st' d
Named-Extends st st' d e n = (omega (arith, n.0, e.longer), ap uri_in (e.same d.1 n.0) ∙ n.1)

-- Every position of some list is in the store.
abbrev pub AreStored : ServerDriver → List ℕ → Type 0
AreStored st os = (o : ℕ) → has_position o os ≡ true → o < length st.store

pub not_owned : (o : ℕ) → has_position o [] ≡ true → ⊥
unfolding has_position
not_owned o h = ground (arith, h)

pub no_owners : (st : ServerDriver) → AreStored st []
unfolding has_position
no_owners st o h = ground (arith, h)

-- Where a position of the new store is an old one, the new one, or none.
placed :
    (st : ServerDriver) (d : Document) (h : ℕ)
    → ((h < length st.store) × (get_elem? (make_document d st).0.store h ≡ get_elem? st.store h))
      ⊎ ((h ≡ length st.store) × (get_elem? (make_document d st).0.store h ≡ some d))
      ⊎ (get_elem? (make_document d st).0.store h ≡ none)
placed st d h = elim (Bool-cases (ltb h (length st.store))) [
  | inl less ↦
      let lt : h < length st.store = ground arith in
      inl (lt, get_elem?-append st.store (d ∷ []) h lt)
  | inr not_less ↦ elim (Bool-cases (h == length st.store)) [
    | inl same ↦
        let is : h ≡ length st.store = ground arith in
        inr (inl (is, ap (get_elem? (st.store ++ (d ∷ []))) is ∙ get_elem?-last st.store d))
    | inr other ↦ inr (
        inr (
          get_elem?-past (st.store ++ (d ∷ [])) h
            (ground (arith, not_less, other, length-append st.store (d ∷ [])))))
  ]
]

pub make_document-IsWell :
    (d : Document) (st : ServerDriver)
    → AreStored st d.include_owners
    → IsWell st
    → IsWell (make_document d st).0
make_document-IsWell d st owned w =
    let st' = (make_document d st).0 in
    let n = length st.store in
    let rank' : ℕ → ℕ = λ h. if h == n then suc w.bound else w.rank h in
    let grows : length st'.store ≡ suc n = omega (arith, length-append st.store (d ∷ [])) in
    let old_rank : (o : ℕ) → o < n → rank' o ≡ w.rank o = λ o lt. ground (arith, lt) in
    record {
      rank = rank';
      bound = suc w.bound;
      bounded = λ h. ground (arith, w.bounded h);
      drops = λ h o k. elim (placed st d h) [
        | inl (lt, is) ↦
            let (below, falls) =
              w.drops h o (subst (λ x. has_position o (owners_in x) ≡ true) is k) in
            (omega (arith, below, grows), rw (old_rank o below, old_rank h lt) falls)
        | inr (inl (is, at)) ↦
            let below = owned o (subst (λ x. has_position o (owners_in x) ≡ true) at k) in
            (omega (arith, below, grows), ground (arith, is, below, w.bounded o))
        | inr (inr missing) ↦
            elim (not_owned o (subst (λ x. has_position o (owners_in x) ≡ true) missing k)) [ ]
      ];
      named =
          All-map (Named st) (Named st') (λ x. Named-Extends st st' x (make_document-Extends d st))
            st.docs w.named;
      opened = w.opened;
    }

pub has_position-cases :
    (o p : ℕ) (ps : List ℕ) → has_position o (p ∷ ps) ≡ true → (p ≡ o) ⊎ (has_position o ps ≡ true)
unfolding has_position
has_position-cases o p ps h = ground (arith, h)

pub has_position-first : (o : ℕ) (os : List ℕ) → has_position o (o ∷ os) ≡ true
unfolding has_position
has_position-first o os = ground arith

pub has_position-later :
    (p o : ℕ) (os : List ℕ) → has_position p os ≡ true → has_position p (o ∷ os) ≡ true
unfolding has_position
has_position-later p o os h = ground (arith, h)

pub is_nil-eq {ℓ} : {A : Type ℓ} (xs : List A) → is_nil xs ≡ true → xs ≡ []
is_nil-eq [] h = refl
is_nil-eq (x ∷ xs) h = cc

-- The documents of the loop are in the store, have no owners themselves, and have other URIs.
pub owners_among-Named :
    (world : World) (st : ServerDriver) (uri : String) (ds : List (String × ℕ)) (o : ℕ)
    → All (Named st) ds
    → has_position o (owners_among world st uri ds) ≡ true
    → (o < length st.store) × (include_owners st o ≡ []) × (str_eq (uri_of st o) uri ≡ false)
unfolding owners_among
owners_among-Named world st uri [] o a h = elim (not_owned o h) [ ]
owners_among-Named world st uri ((u, g) ∷ ds) o (n, a) h =
    let Listed : List ℕ → Type 0 = λ os.
      has_position o os ≡ true
      → (o < length st.store) × (include_owners st o ≡ []) × (str_eq (uri_of st o) uri ≡ false) in
    let rest : Listed (owners_among world st uri ds) = owners_among-Named world st uri ds o a in
    if_both Listed (str_eq u uri || is_include_fragment st g) (λ skipped. rest)
      (λ kept.
        if_both Listed (is_owner_of world (world.parse st g) uri)
          (λ includes k. elim (has_position-cases o g (owners_among world st uri ds) k) [
            | inr later ↦ rest later
            | inl is ↦
                let other : str_eq u uri ≡ false = ground (arith, kept) in
                let sink : include_owners st g ≡ [] =
                  is_nil-eq (include_owners st g) (ground (arith, kept)) in
                subst
                  (λ x.
                    (x < length st.store)
                    × (include_owners st x ≡ [])
                    × (str_eq (uri_of st x) uri ≡ false))
                  is (n.0, sink, subst (λ x. str_eq x uri ≡ false) (sym n.1) other)
          ])
          (λ excluded. rest))
      h

pub find_include_owners-Named :
    (world : World) (st : ServerDriver) (uri : String) (o : ℕ)
    → IsWell st
    → has_position o (find_include_owners world st uri) ≡ true
    → (o < length st.store) × (include_owners st o ≡ []) × (str_eq (uri_of st o) uri ≡ false)
unfolding find_include_owners
find_include_owners-Named world st uri o w h = elim (Bool-cases st.resolve_include_fragments) [
  | inl on ↦ owners_among-Named world st uri st.docs o w.named (
      subst (λ b. has_position o (if not b then [] else owners_among world st uri st.docs) ≡ true)
        on h)
  | inr off ↦
      elim (not_owned o (
        subst (λ b. has_position o (if not b then [] else owners_among world st uri st.docs) ≡ true)
          off h)) [ ]
]

pub set_doc-IsFound :
    (uri u : String) (st : ServerDriver) (h : ℕ) → IsFound u st → IsFound u (set_doc uri (st, h)).0
set_doc-IsFound uri u st h (g, found) = elim (Bool-cases (str_eq uri u)) [
  | inl same ↦ (h, find_doc-assign_doc uri u h st.docs ∙ rw same refl)
  | inr other ↦ (g, find_doc-assign_doc uri u h st.docs ∙ rw other found)
]

set_doc-IsWell :
    (uri : String) (st : ServerDriver) (h : ℕ)
    → h < length st.store
    → uri_of st h ≡ uri
    → IsWell st
    → IsWell (set_doc uri (st, h)).0
set_doc-IsWell uri st h lt is w = record {
  rank = w.rank;
  bound = w.bound;
  bounded = w.bounded;
  drops = w.drops;
  named = assign_doc-All (Named st) uri h st.docs (lt, is) w.named;
  opened = λ u k. set_doc-IsFound uri u st h (w.opened u k);
}

-- What an operation yields that makes or finds the document of a URI.
pub record Makes (uri : String) (st : ServerDriver) (r : ServerDriver × ℕ) : Type 0 where
  pub well : IsWell r.0
  pub extends : Extends st r.0
  pub stored : r.1 < length r.0.store
  pub is : uri_of r.0 r.1 ≡ uri

pub make_document-Makes :
    (d : Document) (st : ServerDriver)
    → AreStored st d.include_owners
    → IsWell st
    → Makes d.uri st (make_document d st)
make_document-Makes d st owned w = record {
  well = make_document-IsWell d st owned w;
  extends = make_document-Extends d st;
  stored = omega (arith, length-append st.store (d ∷ []));
  is = ap uri_in (get_elem?-last st.store d);
}

pub Makes-after :
    (uri : String) (a b : ServerDriver) (r : ServerDriver × ℕ)
    → Extends a b
    → Makes uri b r
    → Makes uri a r
Makes-after uri a b r e m = record {
  well = m.well;
  extends = Extends-trans a b r.0 e m.extends;
  stored = m.stored;
  is = m.is;
}

pub set_doc-Makes :
    (uri : String) (st : ServerDriver) (r : ServerDriver × ℕ)
    → Makes uri st r
    → Makes uri st (set_doc uri r)
set_doc-Makes uri st r m = record {
  well = set_doc-IsWell uri r.0 r.1 m.stored m.is m.well;
  extends = record {
    longer = m.extends.longer;
    same = m.extends.same;
    open_docs = m.extends.open_docs;
    found = λ u f. set_doc-IsFound uri u r.0 r.1 (m.extends.found u f);
  };
  stored = m.stored;
  is = m.is;
}
