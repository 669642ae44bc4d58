-- ===== src/Driver/Adopted.antt =====
-- That `adoptOrphanFragments` binds every fragment that the new owner includes.
use mathlib.Core.List.{Memᴰ}
use mathlib.Core.List.Memᴰ.{head, tail}
use Prim.Native.String.{String}
use slang_server_extended.Base.{
  Bool-cases, inl, is_nil, refl, false, ◌≢◌, ◌⊎◌, ℕ, ◌<◌, suc, List, [], ◌∷◌, true, not,
  if◌then◌else◌, some, ◌≡◌, sym, ap, ◌∙◌, subst, arith, inr, if_both, length, All,
}
use slang_server_extended.Driver.Trees.{classify_standalone_parse, is_standalone, SyntaxTree}
use slang_server_extended.Driver.Documents.{
  includes, is_include_fragment, ServerDriver, World, include_owners, has_position,
}
use slang_server_extended.Driver.Opening.{is_orphan, orphans, adopt_into, adopt_orphan_fragments}
use slang_server_extended.Driver.Owners.{Owns, Named, IsWell}
use slang_server_extended.Driver.Making.{has_position-first, has_position-later}
use slang_server_extended.Driver.Fuel.{EndsIn, EndsIn-grow, adopt_orphan_fragments-IsAfter}
use slang_server_extended.Driver.Adoption.{adopt_orphans_ends}

Memᴰ-All {ℓ κ} : {A : Type ℓ} (P : A → Type κ) (xs : List A) (x : A) → Memᴰ x xs → All P xs → P x
Memᴰ-All P [] x m a = elim m [ ]
Memᴰ-All P (y ∷ xs) x (head is) (p, a) = subst P (sym is) p
Memᴰ-All P (y ∷ xs) x (tail m) (p, a) = Memᴰ-All P xs x m a

some_owner : (os : List ℕ) → os ≢ [] → not (is_nil os) ≡ true
some_owner [] n = elim (n refl) [ ]
some_owner (o ∷ os) n = refl

module _ (world : World) where
  has_position-orphans :
      (st : ServerDriver) (owner : ℕ) (tree : SyntaxTree) (ds : List (String × ℕ)) (d : String × ℕ)
      → Memᴰ d ds
      → is_orphan world st owner tree d ≡ true
      → has_position d.1 (orphans world st owner tree ds) ≡ true
  unfolding orphans
  has_position-orphans st owner tree [] d m h = elim m [ ]
  has_position-orphans st owner tree (e ∷ ds) d (head is) h =
      let here : is_orphan world st owner tree e ≡ true =
        subst (λ x. is_orphan world st owner tree x ≡ true) is h in
      rw here (
        subst (λ x. has_position x.1 (e.1 ∷ orphans world st owner tree ds) ≡ true) (sym is)
          (has_position-first e.1 (orphans world st owner tree ds)))
  has_position-orphans st owner tree (e ∷ ds) d (tail m) h =
      let rest = has_position-orphans st owner tree ds d m h in
      if_both (λ os. has_position d.1 os ≡ true) (is_orphan world st owner tree e)
        (λ adopted. has_position-later d.1 e.1 (orphans world st owner tree ds) rest) (λ left. rest)

  owners_is_fragment :
      (st : ServerDriver) (h : ℕ) → include_owners st h ≢ [] → is_include_fragment st h ≡ true
  owners_is_fragment st h n = some_owner (include_owners st h) n

  -- A document that the tree includes and that is bound or broken has the owner already, or is taken.
  owned_or_orphan :
      (st : ServerDriver) (owner : ℕ) (tree : SyntaxTree) (d : String × ℕ)
      → Memᴰ d st.docs
      → d.1 ≢ owner
      → includes world tree d.0 ≡ true
      → (include_owners st d.1 ≢ [])
        ⊎ (is_standalone (classify_standalone_parse (world.parse st d.1)) ≡ false)
      → Owns st d.1 owner ⊎ (has_position d.1 (orphans world st owner tree st.docs) ≡ true)
  unfolding is_orphan
  owned_or_orphan st owner tree d m differs included c =
      elim (Bool-cases (has_position owner (include_owners st d.1))) [
        | inl owned ↦ inl owned
        | inr new ↦ inr (
            has_position-orphans st owner tree st.docs d m (elim c [
              | inl bound ↦ ground (arith, differs, included, new, owners_is_fragment st d.1 bound)
              | inr broken ↦ ground (arith, differs, included, new, broken)
            ]))
      ]

  -- In a well-formed state `adoptOrphanFragments` ends in a well-formed state in which each known
  -- document but the owner that the tree of the new owner includes, and that has owners or does not
  -- parse alone,
  -- has the new owner among its owners, where the new owner has no owners itself and the binding of
  -- fragments is switched on.
  pub adopt_orphan_fragments-Owns :
      (owner : ℕ) (st : ServerDriver) (tree : SyntaxTree) (d : String × ℕ)
      → IsWell st
      → owner < length st.store
      → include_owners st owner ≡ []
      → st.resolve_include_fragments ≡ true
      → world.parse st owner ≡ some tree
      → Memᴰ d st.docs
      → d.1 ≢ owner
      → includes world tree d.0 ≡ true
      → (include_owners st d.1 ≢ [])
        ⊎ (is_standalone (classify_standalone_parse (world.parse st d.1)) ≡ false)
      → EndsIn
          (λ st'. IsWell st' × Owns st' d.1 owner)
          (λ n. adopt_orphan_fragments world n owner st)
  unfolding adopt_orphan_fragments
  adopt_orphan_fragments-Owns owner st tree d w lo sink on parses m differs included
        bound_or_broken =
      let n = suc (suc w.bound) in
      let (last, runs, well, adopts) =
        adopt_orphans_ends world n owner st tree w lo sink (omega arith) in
      EndsIn-grow (λ st'. IsWell st' × Owns st' d.1 owner)
        (λ n. adopt_orphan_fragments world n owner st) n last
        (λ k. adopt_orphan_fragments-IsAfter world n k owner st)
        (ap (λ b. if not b then some st else adopt_into world n owner st (world.parse st owner)) on
          ∙ ap (adopt_into world n owner st) parses
          ∙ runs)
        (
          well,
          adopts d.1 (Memᴰ-All (Named st) st.docs d m w.named).0
              (owned_or_orphan st owner tree d m differs included bound_or_broken),
        )
