-- ===== src/Indexer/History/Kinds.antt =====
-- Lists that agree on each kind agree on the whole.
use slang_server_extended.Base.{
  ℕ, ◌+◌, suc, List, [], ◌∷◌, Bool, false, ◌&&◌, ◌==◌, if◌then◌else◌, ◌≡◌, subst, refl, sym, ◌∙◌,
  arith, length, ==_refl, ==_iff, Bool-cases, inl, inr,
}
use slang_server_extended.MultiMap.{count}

-- How often a number is in a list.
times : ℕ → List ℕ → ℕ
times k [] = 0
times k (x ∷ xs) = (if x == k then 1 else 0) + times k xs

-- The list without the first place of a number.
without : ℕ → List ℕ → List ℕ
without k [] = []
without k (x ∷ xs) = let rest = x ∷ without k xs in if x == k then xs else rest

times-without_same : (k : ℕ) (xs : List ℕ) (n : ℕ) → times k xs ≡ suc n → times k (without k xs) ≡ n
unfolding times without
times-without_same k [] n h = ground (arith, h)
times-without_same k (x ∷ xs) n h = elim (Bool-cases (x == k)) [
  | inl same ↦ ground (arith, same, h)
  | inr other ↦ ground (arith, other, h, times-without_same k xs n)
]

times-without_other :
    (k j : ℕ) (xs : List ℕ) → (k == j) ≡ false → times j (without k xs) ≡ times j xs
unfolding times without
times-without_other k j [] h = refl
times-without_other k j (x ∷ xs) h = elim (Bool-cases (x == k)) [
  | inl same ↦ ground (arith, same, h)
  | inr other ↦ ground (arith, other, h, times-without_other k j xs h)
]

length-without :
    (k : ℕ) (xs : List ℕ) (n : ℕ) → times k xs ≡ suc n → length xs ≡ suc (length (without k xs))
unfolding times without
length-without k [] n h = ground (arith, h)
length-without k (x ∷ xs) n h = elim (Bool-cases (x == k)) [
  | inl same ↦ ground (arith, same)
  | inr other ↦ ground (arith, other, h, length-without k xs n)
]

times-head : (x : ℕ) (xs : List ℕ) → times x (x ∷ xs) ≡ suc (times x xs)
unfolding times
times-head x xs = ground (arith, ==_refl x)

times-tail : (x k : ℕ) (xs : List ℕ) → (x == k) ≡ false → times k (x ∷ xs) ≡ times k xs
unfolding times
times-tail x k xs h = ground (arith, h)

times-nil : (k : ℕ) → times k [] ≡ 0
unfolding times
times-nil k = refl

-- Lists with the same numbers, each as often, are equally long.
length-times : (xs ys : List ℕ) → ((k : ℕ) → times k xs ≡ times k ys) → length xs ≡ length ys
length-times [] [] h = refl
length-times [] (y ∷ ys) h = omega (arith, h y, times-nil y, times-head y ys)
length-times (x ∷ xs) ys h =
    let more : times x ys ≡ suc (times x xs) = sym (h x) ∙ times-head x xs in
    let rest : length xs ≡ length (without x ys) = length-times xs (without x ys) (λ k.
      elim (Bool-cases (x == k)) [
        | inl same ↦
            subst (λ j. times j xs ≡ times j (without x ys)) ((==_iff x k).0 same)
              (sym (times-without_same x ys (times x xs) more))
        | inr other ↦ sym (times-tail x k xs other) ∙ h k ∙ sym (times-without_other x k ys other)
      ]) in
    omega (arith, rest, length-without x ys (times x xs) more)

module _ {ℓ} {A : Type ℓ} (p : A → Bool) (kind : A → ℕ) where
  -- The kinds of the items that pass a test.
  kinds : List A → List ℕ
  kinds [] = []
  kinds (x ∷ xs) = let rest = kinds xs in if p x then kind x ∷ rest else rest

  times-kinds : (k : ℕ) (xs : List A) → times k (kinds xs) ≡ count (λ x. p x && kind x == k) xs
  unfolding times kinds count
  times-kinds k [] = refl
  times-kinds k (x ∷ xs) = elim (Bool-cases (p x)) [
    | inl passes ↦ ground (arith, passes, times-kinds k xs)
    | inr fails ↦ ground (arith, fails, times-kinds k xs)
  ]

  length-kinds : (xs : List A) → length (kinds xs) ≡ count p xs
  unfolding kinds count
  length-kinds [] = refl
  length-kinds (x ∷ xs) = ground (arith, length-kinds xs)

-- Two lists whose counts agree for every kind have the same count.
pub count-kinds {ℓ κ} :
    {A : Type ℓ} {B : Type κ} (p : A → Bool) (kind : A → ℕ) (q : B → Bool) (sort : B → ℕ)
    (xs : List A) (ys : List B)
    → ((k : ℕ) → count (λ x. p x && kind x == k) xs ≡ count (λ y. q y && sort y == k) ys)
    → count p xs ≡ count q ys
count-kinds p kind q sort xs ys h =
    sym (length-kinds p kind xs)
    ∙ length-times (kinds p kind xs) (kinds q sort ys)
        (λ k. times-kinds p kind k xs ∙ h k ∙ sym (times-kinds q sort k ys))
    ∙ length-kinds q sort ys
