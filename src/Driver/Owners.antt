-- ===== src/Driver/Owners.antt =====
-- The owners of the documents, as the operations build them up: a document is bound only to
-- documents that have no owners at that time.
use Prim.Native.String.{String}
use text.Mathlib.Text.{◌==◌ as str_eq}
use text.Mathlib.TextEquality.{eq_iff}
use slang_server_extended.Base.{
  ℕ, ◌≤◌, ◌<◌, zero, suc, List, [], ◌∷◌, ◌++◌, true, false, ◌==◌, if◌then◌else◌, Option, none, some,
  ◌≡◌, refl, sym, ap, ◌∙◌, subst, arith, Bool-cases, inl, inr, if_both, length, get_elem?,
  update_at, All,
}
use slang_server_extended.Indexer.Defs.{contains}
use slang_server_extended.Driver.Documents.{
  Event, ServerDriver, find_doc, assign_doc, include_owners, uri_of, has_position, owners_in,
}

module _ {ℓ} {A : Type ℓ} where
  pub get_elem?-append :
      (xs ys : List A) (n : ℕ) → n < length xs → get_elem? (xs ++ ys) n ≡ get_elem? xs n
  get_elem?-append [] ys n h = ground (arith, h)
  get_elem?-append (x ∷ xs) ys zero h = refl
  get_elem?-append (x ∷ xs) ys (suc n) h = get_elem?-append xs ys n (omega arith)

  pub get_elem?-last : (xs : List A) (x : A) → get_elem? (xs ++ (x ∷ [])) (length xs) ≡ some x
  get_elem?-last [] x = refl
  get_elem?-last (y ∷ xs) x = get_elem?-last xs x

  pub get_elem?-past : (xs : List A) (n : ℕ) → length xs ≤ n → get_elem? xs n ≡ none
  get_elem?-past [] n h = refl
  get_elem?-past (x ∷ xs) zero h = ground (arith, h)
  get_elem?-past (x ∷ xs) (suc n) h = get_elem?-past xs n (omega arith)

  pub get_elem?-within : (xs : List A) (n : ℕ) → n < length xs → (x : A) × (get_elem? xs n ≡ some x)
  get_elem?-within [] n h = ground (arith, h)
  get_elem?-within (x ∷ xs) zero h = (x, refl)
  get_elem?-within (x ∷ xs) (suc n) h = get_elem?-within xs n (omega arith)

  pub length-update_at : (n : ℕ) (f : A → A) (xs : List A) → length (update_at n f xs) ≡ length xs
  length-update_at n f [] = refl
  length-update_at zero f (x ∷ xs) = refl
  length-update_at (suc n) f (x ∷ xs) = ap suc (length-update_at n f xs)

  pub get_elem?-update_at :
      (n : ℕ) (f : A → A) (xs : List A) (x : A)
      → get_elem? xs n ≡ some x
      → get_elem? (update_at n f xs) n ≡ some (f x)
  get_elem?-update_at n f [] x h = cc
  get_elem?-update_at zero f (y ∷ xs) x h = ground (arith, h)
  get_elem?-update_at (suc n) f (y ∷ xs) x h = get_elem?-update_at n f xs x h

  pub get_elem?-update_at_other :
      (n m : ℕ) (f : A → A) (xs : List A)
      → (n == m) ≡ false
      → get_elem? (update_at n f xs) m ≡ get_elem? xs m
  get_elem?-update_at_other n m f [] h = refl
  get_elem?-update_at_other zero zero f (y ∷ xs) h = ground (arith, h)
  get_elem?-update_at_other zero (suc m) f (y ∷ xs) h = refl
  get_elem?-update_at_other (suc n) zero f (y ∷ xs) h = refl
  get_elem?-update_at_other (suc n) (suc m) f (y ∷ xs) h =
      get_elem?-update_at_other n m f xs (ground (arith, h))

abbrev pub Owns : ServerDriver → ℕ → ℕ → Type 0
Owns st h o = has_position o (include_owners st h) ≡ true

abbrev pub Named : ServerDriver → String × ℕ → Type 0
Named st d = (d.1 < length st.store) × (uri_of st d.1 ≡ d.0)

abbrev pub IsFound : String → ServerDriver → Type 0
IsFound u st = (h : ℕ) × (find_doc u st.docs ≡ some h)

-- Ranks that fall from a document to its owners, the documents in their places under their own
-- URIs, and a document for every URI that is open.
pub record IsWell (st : ServerDriver) : Type 0 where
  pub rank : ℕ → ℕ
  pub bound : ℕ
  pub bounded : (h : ℕ) → rank h ≤ bound
  pub drops : (h o : ℕ) → Owns st h o → (o < length st.store) × (rank o < rank h)
  pub named : All (Named st) st.docs
  pub opened : (u : String) → contains u st.open_docs ≡ true → IsFound u st

-- The later state has the documents of the earlier one, as they were, the same open URIs, and a
-- document for each URI that had one.
pub record Extends (st st' : ServerDriver) : Type 0 where
  pub longer : length st.store ≤ length st'.store
  pub same : (h : ℕ) → h < length st.store → get_elem? st'.store h ≡ get_elem? st.store h
  pub open_docs : st'.open_docs ≡ st.open_docs
  pub found : (u : String) → IsFound u st → IsFound u st'

pub Extends-refl : (st : ServerDriver) → Extends st st
Extends-refl st = record {
  longer = omega arith;
  same = λ h lt. refl;
  open_docs = refl;
  found = λ u f. f;
}

pub Extends-trans : (a b c : ServerDriver) → Extends a b → Extends b c → Extends a c
Extends-trans a b c p q = record {
  longer = omega (arith, p.longer, q.longer);
  same = λ h lt. q.same h (omega (arith, lt, p.longer)) ∙ p.same h lt;
  open_docs = q.open_docs ∙ p.open_docs;
  found = λ u f. q.found u (p.found u f);
}

-- A well-formed state that extends an earlier one.
pub record Follows (st st' : ServerDriver) : Type 0 where
  pub well : IsWell st'
  pub extends : Extends st st'

-- The log has no part in this.
pub logged-Follows :
    (st : ServerDriver) (l : List Event) → IsWell st → Follows st (record st { log = l })
logged-Follows st l w = record {
  well = record {
    rank = w.rank;
    bound = w.bound;
    bounded = w.bounded;
    drops = w.drops;
    named = w.named;
    opened = w.opened;
  };
  extends = record {
    longer = omega arith;
    same = λ g lt. refl;
    open_docs = refl;
    found = λ u f. f;
  };
}

pub Follows-trans : (a b c : ServerDriver) → Follows a b → Follows b c → Follows a c
Follows-trans a b c p q = record {
  well = q.well;
  extends = Extends-trans a b c p.extends q.extends;
}

-- Below a length of the store, the owners lie below it too, and the ranks fall to them.
pub record IsBelow (rank : ℕ → ℕ) (l : ℕ) (st : ServerDriver) : Type 0 where
  pub within : l ≤ length st.store
  pub falls : (h o : ℕ) → h < l → Owns st h o → (o < l) × (rank o < rank h)

pub IsBelow-Extends :
    (rank : ℕ → ℕ) (l : ℕ) (st st' : ServerDriver)
    → Extends st st'
    → IsBelow rank l st
    → IsBelow rank l st'
IsBelow-Extends rank l st st' e b = record {
  within = omega (arith, b.within, e.longer);
  falls = λ h o lt k.
      b.falls h o lt (
        subst (λ x. has_position o (owners_in x) ≡ true) (e.same h (omega (arith, lt, b.within)))
          k);
}

-- An analysis that ends in a state that follows.
abbrev pub Ends : Option ServerDriver → ServerDriver → Type 0
Ends r st = (st' : ServerDriver) × (r ≡ some st') × Follows st st'

pub All-map {ℓ κ} :
    {A : Type ℓ} (P Q : A → Type κ) → ((a : A) → P a → Q a) → (xs : List A) → All P xs → All Q xs
All-map P Q f [] h = h
All-map P Q f (x ∷ xs) (p, h) = (f x p, All-map P Q f xs h)

pub find_doc-All {κ} :
    (P : String × ℕ → Type κ) (u : String) (ds : List (String × ℕ)) (h : ℕ)
    → All P ds
    → find_doc u ds ≡ some h
    → P (u, h)
find_doc-All P u [] h a e = cc
find_doc-All P u ((v, g) ∷ ds) h (p, a) e = elim (Bool-cases (str_eq v u)) [
  | inl same ↦
      let is : g ≡ h = ground (arith, e, same) in
      subst (λ x. P (x, h)) ((eq_iff v u).0 same) (subst (λ y. P (v, y)) is p)
  | inr other ↦ find_doc-All P u ds h a (ground (arith, e, other))
]

pub assign_doc-All {κ} :
    (P : String × ℕ → Type κ) (u : String) (h : ℕ) (ds : List (String × ℕ))
    → P (u, h)
    → All P ds
    → All P (assign_doc u h ds)
assign_doc-All P u h [] p a = (p, a)
assign_doc-All P u h ((v, g) ∷ ds) p (q, a) =
    if_both (All P) (str_eq v u) (λ same. (subst (λ x. P (x, h)) (sym ((eq_iff v u).0 same)) p, a))
      (λ other. (q, assign_doc-All P u h ds p a))

pub find_doc-assign_doc :
    (u v : String) (h : ℕ) (ds : List (String × ℕ))
    → find_doc v (assign_doc u h ds) ≡ (if str_eq u v then some h else find_doc v ds)
find_doc-assign_doc u v h [] = refl
find_doc-assign_doc u v h ((w, g) ∷ ds) =
    ground (arith, eq_iff w u, eq_iff u v, eq_iff w v, find_doc-assign_doc u v h ds)
