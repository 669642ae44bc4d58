-- ===== src/Driver/Fuel.antt =====
-- That more fuel makes no difference where the recursion along the owners ends.
use slang_server_extended.Base.{
  ℕ, ◌≤◌, max, zero, suc, List, [], ◌∷◌, Bool, true, false, not, if◌then◌else◌, Option, none, some,
  ◌>>=◌, ◌≡◌, refl, arith,
}
use slang_server_extended.Driver.Trees.{SyntaxTree}
use slang_server_extended.Driver.Documents.{
  ServerDriver, World, include_owners, is_document_open, uri_of, analyze_alone, refresh_owners,
  analyze_document, add_include_owner,
}
use slang_server_extended.Driver.Opening.{adopt_each, adopt_orphan_fragments, orphans, adopt_into}

-- The second computation yields what the first one does, where that yields something.
abbrev pub IsAfter {ℓ} : {A : Type ℓ} → Option A → Option A → Type ℓ
IsAfter {A = A} a b = (x : A) → a ≡ some x → b ≡ some x

pub IsAfter-refl {ℓ} : {A : Type ℓ} (a : Option A) → IsAfter a a
IsAfter-refl a x h = h

pub IsAfter-if {ℓ} :
    {A : Type ℓ} (c : Bool) (a b d e : Option A)
    → IsAfter a b
    → IsAfter d e
    → IsAfter (if c then a else d) (if c then b else e)
IsAfter-if true a b d e p q = p
IsAfter-if false a b d e p q = q

pub IsAfter-bind {ℓ κ} :
    {A : Type ℓ} {B : Type κ} (a b : Option A) (f g : A → Option B)
    → IsAfter a b
    → ((x : A) → IsAfter (f x) (g x))
    → IsAfter (a >>= f) (b >>= g)
IsAfter-bind none b f g p q x h = cc
IsAfter-bind (some y) b f g p q x h = rw (p y refl) (q y x h)

-- With enough fuel, and any more, the computation yields one value, and the value satisfies `P`.
abbrev pub EndsIn {ℓ κ} : {A : Type ℓ} → (A → Type κ) → (ℕ → Option A) → Type (ℓ ⊔ κ)
EndsIn {A = A} P f = (n : ℕ) × (a : A) × ((m : ℕ) → n ≤ m → f m ≡ some a) × P a

pub EndsIn-done {ℓ κ} : {A : Type ℓ} (P : A → Type κ) (a : A) → P a → EndsIn P (λ n. some a)
EndsIn-done P a p = (0, a, λ m le. refl, p)

pub EndsIn-grow {ℓ κ} :
    {A : Type ℓ} (P : A → Type κ) (f : ℕ → Option A) (n : ℕ) (a : A)
    → ((m : ℕ) → n ≤ m → IsAfter (f n) (f m))
    → f n ≡ some a
    → P a
    → EndsIn P f
EndsIn-grow P f n a more e p = (n, a, λ m le. more m le a e, p)

pub EndsIn-bind {ℓ κ μ ν} :
    {A : Type ℓ} {B : Type μ} (P : A → Type κ) (Q : B → Type ν) (f : ℕ → Option A)
    (g : ℕ → A → Option B)
    → EndsIn P f
    → ((a : A) → P a → EndsIn Q (λ n. g n a))
    → EndsIn Q (λ n. f n >>= g n)
EndsIn-bind P Q f g (n, a, runs, p) next =
    let (k, b, rest, q) = next a p in
    (max n k, b, λ m le. rw (runs m (omega (arith, le))) (rest m (omega (arith, le))), q)

pub EndsIn-if {ℓ κ} :
    {A : Type ℓ} (P : A → Type κ) (c : Bool) (f g : ℕ → Option A)
    → (c ≡ true → EndsIn P f)
    → (c ≡ false → EndsIn P g)
    → EndsIn P (λ n. if c then f n else g n)
EndsIn-if P true f g p q = p refl
EndsIn-if P false f g p q = q refl

module _ (world : World) where
  refresh_owners-IsAfter :
      (f g : ℕ → ServerDriver → Option ServerDriver) (os : List ℕ) (st : ServerDriver)
      → ((h : ℕ) (s : ServerDriver) → IsAfter (f h s) (g h s))
      → IsAfter (refresh_owners world f os st) (refresh_owners world g os st)
  unfolding refresh_owners
  refresh_owners-IsAfter f g [] st p = IsAfter-refl (some st)
  refresh_owners-IsAfter f g (o ∷ os) st p =
      IsAfter-bind (if is_document_open (uri_of st o) st then f o st else some st)
        (if is_document_open (uri_of st o) st then g o st else some st) (refresh_owners world f os)
        (refresh_owners world g os)
        (IsAfter-if (is_document_open (uri_of st o) st) (f o st) (g o st) (some st) (some st)
          (p o st) (IsAfter-refl (some st)))
        (λ s. refresh_owners-IsAfter f g os s p)

  pub analyze_document-IsAfter :
      (n m h : ℕ) (st : ServerDriver)
      → n ≤ m
      → IsAfter (analyze_document world n h st) (analyze_document world m h st)
  unfolding analyze_document
  analyze_document-IsAfter zero m h st le = λ x e. cc
  analyze_document-IsAfter (suc n) zero h st le = elim le [ ]
  analyze_document-IsAfter (suc n) (suc m) h st le =
      let next = analyze_alone world h st in
      refresh_owners-IsAfter (analyze_document world n) (analyze_document world m)
        (include_owners next h) next (λ g s. analyze_document-IsAfter n m g s (omega arith))

  adopt_each-IsAfter :
      (n m owner : ℕ) (hs : List ℕ) (st : ServerDriver)
      → n ≤ m
      → IsAfter (adopt_each world n owner hs st) (adopt_each world m owner hs st)
  unfolding adopt_each
  adopt_each-IsAfter n m owner [] st le = IsAfter-refl (some st)
  adopt_each-IsAfter n m owner (h ∷ hs) st le =
      let bound = add_include_owner world h owner st in
      IsAfter-bind
        (if is_document_open (uri_of bound h) bound
          then analyze_document world n h bound
          else some bound)
        (if is_document_open (uri_of bound h) bound
          then analyze_document world m h bound
          else some bound)
        (adopt_each world n owner hs) (adopt_each world m owner hs)
        (IsAfter-if (is_document_open (uri_of bound h) bound) (analyze_document world n h bound)
          (analyze_document world m h bound) (some bound) (some bound)
          (analyze_document-IsAfter n m h bound le) (IsAfter-refl (some bound)))
        (λ s. adopt_each-IsAfter n m owner hs s le)

  pub adopt_orphan_fragments-IsAfter :
      (n m owner : ℕ) (st : ServerDriver)
      → n ≤ m
      → IsAfter (adopt_orphan_fragments world n owner st) (adopt_orphan_fragments world m owner st)
  unfolding adopt_orphan_fragments
  adopt_orphan_fragments-IsAfter n m owner st le =
      IsAfter-if (not st.resolve_include_fragments) (some st) (some st)
        (adopt_into world n owner st (world.parse st owner))
        (adopt_into world m owner st (world.parse st owner)) (IsAfter-refl (some st))
        (into (world.parse st owner))
    where
      into :
          (t : Option SyntaxTree)
          → IsAfter (adopt_into world n owner st t) (adopt_into world m owner st t)
      into none = IsAfter-refl (some st)
      into (some t) = adopt_each-IsAfter n m owner (orphans world st owner t st.docs) st le
