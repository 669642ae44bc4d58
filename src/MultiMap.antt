-- ===== src/MultiMap.antt =====
-- std::unordered_map<std::string, vector<V>> as an association list from texts to lists, with the three
-- operations of the server: push_back under a key, erase of a key, and erase-remove under a key,
-- which drops the key where nothing is left.
use Prim.Native.String.{String}
use text.Mathlib.Text.{◌==◌ as str_eq}
use text.Mathlib.TextEquality.{eq_iff}
use slang_server_extended.Base.{
  ℕ, ◌+◌, List, [], ◌∷◌, ◌++◌, Bool, false, not, ◌&&◌, if◌then◌else◌, is_nil, keep, ◌≡◌, refl,
  arith, Bool-cases, inl, inr, Option, none, some,
}

abbrev pub Map {ℓ} : Type ℓ → Type ℓ
Map V = List (String × List V)

differ : (k i : String) → str_eq i k ≡ false → str_eq k i ≡ false
differ k i h = ground (arith, eq_iff i k, eq_iff k i)

module _ {ℓ} {V : Type ℓ} where
  unfoldable pub find : String → Map V → Option (List V)
  find k [] = none
  find k ((j, vs) ∷ m) = if str_eq j k then some vs else find k m

  -- `map[k].push_back(v)`
  unfoldable pub push : String → V → Map V → Map V
  push k v [] = (k, v ∷ []) ∷ []
  push k v ((j, vs) ∷ m) = if str_eq j k then (j, vs ++ v ∷ []) ∷ m else (j, vs) ∷ push k v m

  -- `find`, erase-remove of what the test marks, and `erase` of the key where the vector is empty.
  unfoldable pub remove : (V → Bool) → String → Map V → Map V
  remove q k [] = []
  remove q k ((j, vs) ∷ m) =
      if str_eq j k
      then (let left = keep (λ v. not (q v)) vs in if is_nil left then m else (j, left) ∷ m)
      else (j, vs) ∷ remove q k m

  -- `erase` of a key.
  unfoldable pub erase : String → Map V → Map V
  erase k [] = []
  erase k ((j, vs) ∷ m) = let rest = erase k m in if str_eq j k then rest else (j, vs) ∷ rest

  -- What a reader sees under a key: nothing where the key is missing.
  unfoldable pub entries : String → Map V → List V
  unfolding find
  entries k m = elim (find k m) [ none ↦ [] | some vs ↦ vs ]

  pub entries-erase :
      (k j : String) (m : Map V) → entries j (erase k m) ≡ (if str_eq k j then [] else entries j m)
  unfolding entries erase
  entries-erase k j [] = ground arith
  entries-erase k j ((i, vs) ∷ m) =
      ground (arith, eq_iff i k, eq_iff i j, eq_iff k j, entries-erase k j m)

  pub entries-push :
      (k j : String) (v : V) (m : Map V)
      → entries j (push k v m) ≡ (if str_eq k j then entries j m ++ v ∷ [] else entries j m)
  unfolding entries push
  entries-push k j v [] = ground arith
  entries-push k j v ((i, vs) ∷ m) =
      ground (arith, eq_iff i k, eq_iff i j, eq_iff k j, entries-push k j v m)

  -- How many values pass a test.
  unfoldable pub count : (V → Bool) → List V → ℕ
  count q [] = 0
  count q (v ∷ vs) = (if q v then 1 else 0) + count q vs

  -- Keys are distinct, and no key has an empty vector.
  abbrev pub Absent : String → Map V → Type 0
  Absent k [] = Unit
  Absent k ((j, vs) ∷ m) = (str_eq j k ≡ false) × Absent k m

  abbrev pub IsClean : Map V → Type 0
  IsClean [] = Unit
  IsClean ((k, vs) ∷ m) = (is_nil vs ≡ false) × Absent k m × IsClean m

  count-append : (q : V → Bool) (xs ys : List V) → count q (xs ++ ys) ≡ count q xs + count q ys
  unfolding count
  count-append q [] ys = omega arith
  count-append q (x ∷ xs) ys = omega (arith, count-append q xs ys)

  pub count-push :
      (q : V → Bool) (k j : String) (v : V) (m : Map V)
      → count q (entries j (push k v m))
        ≡ count q (entries j m) + (if str_eq k j && q v then 1 else 0)
  unfolding count entries push
  count-push q k j v [] = ground arith
  count-push q k j v ((i, vs) ∷ m) =
      ground (
        arith,
        eq_iff i k,
        eq_iff i j,
        eq_iff k j,
        count-push q k j v m,
        count-append q vs (v ∷ []),
      )

  Absent-entries : (k : String) (m : Map V) → Absent k m → entries k m ≡ []
  unfolding entries
  Absent-entries k [] h = refl
  Absent-entries k ((j, vs) ∷ m) (h, hs) = ground (arith, Absent-entries k m hs)

  pub entries-remove :
      (r : V → Bool) (k j : String) (m : Map V)
      → IsClean m
      → entries j (remove r k m)
        ≡ (if str_eq k j then keep (λ v. not (r v)) (entries j m) else entries j m)
  unfolding entries remove
  entries-remove r k j [] c = ground arith
  entries-remove r k j ((i, vs) ∷ m) (h, a, c) = ground (
    arith,
    eq_iff i k,
    eq_iff i j,
    eq_iff k j,
    entries-remove r k j m c,
    Absent-entries j m,
    Absent-entries i m a,
  )

  Absent-push :
      (k j : String) (v : V) (m : Map V) → Absent j m → str_eq k j ≡ false → Absent j (push k v m)
  unfolding push
  Absent-push k j v [] a h = (h, tt)
  Absent-push k j v ((i, vs) ∷ m) (h, a) e = ground (arith, Absent-push k j v m a e)

  is_nil-snoc : (vs : List V) (v : V) → is_nil (vs ++ v ∷ []) ≡ false
  is_nil-snoc [] v = refl
  is_nil-snoc (x ∷ vs) v = refl

  pub push-IsClean : (k : String) (v : V) (m : Map V) → IsClean m → IsClean (push k v m)
  unfolding push
  push-IsClean k v [] c = (refl, tt, tt)
  push-IsClean k v ((i, vs) ∷ m) (h, a, c) = elim (Bool-cases (str_eq i k)) [
    | inl same ↦ rw same (is_nil-snoc vs v, a, c)
    | inr other ↦ rw other (h, Absent-push k i v m a (differ k i other), push-IsClean k v m c)
  ]

  Absent-remove : (r : V → Bool) (k j : String) (m : Map V) → Absent j m → Absent j (remove r k m)
  unfolding remove
  Absent-remove r k j [] a = tt
  Absent-remove r k j ((i, vs) ∷ m) (h, a) = ground (arith, Absent-remove r k j m a)

  pub remove-IsClean : (r : V → Bool) (k : String) (m : Map V) → IsClean m → IsClean (remove r k m)
  unfolding remove
  remove-IsClean r k [] c = tt
  remove-IsClean r k ((i, vs) ∷ m) (h, a, c) =
      let left = keep (λ v. not (r v)) vs in
      elim (Bool-cases (str_eq i k)) [
        | inl same ↦ elim (Bool-cases (is_nil left)) [
          | inl gone ↦ rw (same, gone) c
          | inr some_left ↦ rw (same, some_left) (some_left, a, c)
        ]
        | inr other ↦ rw other (h, Absent-remove r k i m a, remove-IsClean r k m c)
      ]
