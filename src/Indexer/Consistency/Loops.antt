-- ===== src/Indexer/Consistency/Loops.antt =====
-- What the removal loop and the insertion loop of the indexer do to the number of entries.
use Prim.Native.String.{String}
use text.Mathlib.Text.{◌==◌ as str_eq}
use slang_server_extended.Base.{
  ◌+◌, ◌≤◌, ◌<◌, List, [], ◌∷◌, Bool, true, false, not, ◌&&◌, if◌then◌else◌, keep, ◌≡◌, refl, arith,
  Bool-cases, ◌⊎◌, inl, inr,
}
use slang_server_extended.MultiMap.{
  Map, entries, count, push, remove, IsClean, count-push, entries-remove, push-IsClean,
  remove-IsClean,
}
use slang_server_extended.Indexer.Defs.{remove_each, push_each}

module _ {ℓ} {V : Type ℓ} where
  pub count-keep :
      (q r : V → Bool) (vs : List V)
      → count q (keep (λ v. not (r v)) vs) ≡ count (λ v. q v && not (r v)) vs
  unfolding count
  count-keep q r [] = refl
  count-keep q r (v ∷ vs) = ground (arith, count-keep q r vs)

  pub count-same : (q r : V → Bool) (vs : List V) → ((v : V) → q v ≡ r v) → count q vs ≡ count r vs
  unfolding count
  count-same q r [] h = refl
  count-same q r (v ∷ vs) h = ground (arith, h v, count-same q r vs h)

  pub count-none : (q : V → Bool) (vs : List V) → ((v : V) → q v ≡ false) → count q vs ≡ 0
  unfolding count
  count-none q [] h = refl
  count-none q (v ∷ vs) h = ground (arith, h v, count-none q vs h)

  count-shrinks : (q r : V → Bool) (vs : List V) → count (λ v. q v && not (r v)) vs ≤ count q vs
  unfolding count
  count-shrinks q r [] = omega arith
  count-shrinks q r (v ∷ vs) = ground (arith, count-shrinks q r vs)

  -- Removal under a key: what a test that the removal spares counts stays, what it covers goes.
  count-remove :
      (q r : V → Bool) (k j : String) (m : Map V)
      → IsClean m
      → count q (entries j (remove r k m)) ≡ (
          if str_eq k j then count (λ v. q v && not (r v)) (entries j m) else count q (entries j m))
  count-remove q r k j m c = elim (Bool-cases (str_eq k j)) [
    | inl same ↦ rw (entries-remove r k j m c, same) (count-keep q r (entries j m))
    | inr other ↦ rw (entries-remove r k j m c, other) refl
  ]

module _ {ℓ} {V I : Type ℓ} (key : I → String) where
  pub push_each-IsClean :
      (value : I → V) (is : List I) (m : Map V) → IsClean m → IsClean (push_each key value is m)
  unfolding push_each
  push_each-IsClean value [] m c = c
  push_each-IsClean value (i ∷ is) m c =
      push_each-IsClean value is _ (push-IsClean (key i) (value i) m c)

  pub remove_each-IsClean :
      (same : I → V → Bool) (is : List I) (m : Map V)
      → IsClean m
      → IsClean (remove_each key same is m)
  unfolding remove_each
  remove_each-IsClean same [] m c = c
  remove_each-IsClean same (i ∷ is) m c =
      remove_each-IsClean same is _ (remove-IsClean (same i) (key i) m c)

  -- The insertion loop adds one entry for each item of that key.
  pub count-push_each :
      (q : V → Bool) (value : I → V) (j : String) (is : List I) (m : Map V)
      → count q (entries j (push_each key value is m))
        ≡ count q (entries j m) + count (λ i. str_eq (key i) j && q (value i)) is
  unfolding push_each count
  count-push_each q value j [] m = omega arith
  count-push_each q value j (i ∷ is) m = omega (
    arith,
    count-push_each q value j is (push (key i) (value i) m),
    count-push q (key i) j (value i) m,
  )

  -- A removal loop none of whose tests covers a counted value changes no count.
  pub count-remove_each_spared :
      (q : V → Bool) (same : I → V → Bool) (j : String) (is : List I) (m : Map V)
      → IsClean m
      → ((i : I) (v : V) → (q v && not (same i v)) ≡ q v)
      → count q (entries j (remove_each key same is m)) ≡ count q (entries j m)
  unfolding remove_each
  count-remove_each_spared q same j [] m c h = refl
  count-remove_each_spared q same j (i ∷ is) m c h = ground (
    arith,
    count-remove_each_spared q same j is _ (remove-IsClean (same i) (key i) m c) h,
    count-remove q (same i) (key i) j m c,
    count-same (λ v. q v && not (same i v)) q (entries j m) (h i),
  )

  shrinks_to_zero :
      (q r : V → Bool) (k j : String) (m : Map V)
      → IsClean m
      → count q (entries j m) ≡ 0
      → count q (entries j (remove r k m)) ≡ 0
  shrinks_to_zero q r k j m c e =
      ground (arith, count-remove q r k j m c, count-shrinks q r (entries j m))

  covered_step :
      (q : V → Bool) (same : I → V → Bool) (value : I → V) (j : String) (i : I) (is : List I)
      (m : Map V)
      → IsClean m
      → (q (value i) ≡ true → (v : V) → (q v && not (same i v)) ≡ false)
      → (count q (entries j m) ≡ 0) ⊎ (0 < count (λ i. str_eq (key i) j && q (value i)) (i ∷ is))
      → (count q (entries j (remove (same i) (key i) m)) ≡ 0)
        ⊎ (0 < count (λ i. str_eq (key i) j && q (value i)) is)
  covered_step q same value j i is m c h (inl e) = inl (shrinks_to_zero q (same i) (key i) j m c e)
  covered_step q same value j i is m c h (inr e) = elim (Bool-cases (str_eq (key i) j)) [
    | inl hit ↦ elim (Bool-cases (q (value i))) [
      | inl counted ↦ inl (
          rw (count-remove q (same i) (key i) j m c, hit)
            (count-none (λ v. q v && not (same i v)) (entries j m) (h counted)))
      | inr uncounted ↦ inr (unfold count in ground arith)
    ]
    | inr miss ↦ inr (unfold count in ground arith)
  ]

  -- Where an item of the key covers every counted value, none is left.
  pub count-remove_each_covered :
      (q : V → Bool) (same : I → V → Bool) (value : I → V) (j : String) (is : List I) (m : Map V)
      → IsClean m
      → ((i : I) → q (value i) ≡ true → (v : V) → (q v && not (same i v)) ≡ false)
      → (count q (entries j m) ≡ 0) ⊎ (0 < count (λ i. str_eq (key i) j && q (value i)) is)
      → count q (entries j (remove_each key same is m)) ≡ 0
  unfolding remove_each count
  count-remove_each_covered q same value j [] m c h (inl e) = e
  count-remove_each_covered q same value j [] m c h (inr e) = elim e [ ]
  count-remove_each_covered q same value j (i ∷ is) m c h e =
      count-remove_each_covered q same value j is _ (remove-IsClean (same i) (key i) m c) h
        (covered_step q same value j i is m c (h i) e)
