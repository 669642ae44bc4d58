-- ===== src/Driver/Adoption.antt =====
-- `adoptOrphanFragments` and `openDocument`: that they end, and keep the state well-formed.
use Prim.Native.String.{String}
use slang_server_extended.Base.{
  ℕ, ◌≤◌, ◌<◌, suc, List, [], ◌∷◌, true, false, not, ◌==◌, if◌then◌else◌, Option, none, some, ◌≡◌,
  refl, ap, ◌∙◌, subst, ◌⊎◌, arith, Bool-cases, inl, inr, if_both, length, All, sym,
}
use slang_server_extended.Driver.Trees.{SyntaxTree}
use slang_server_extended.Driver.Documents.{
  ServerDriver, World, include_owners, is_document_open, uri_of, has_position, owners_in,
  add_include_owner, analyze_document,
}
use slang_server_extended.Driver.Opening.{
  is_orphan, orphans, adopt_each, adopt_into, adopt_orphan_fragments,
}
use slang_server_extended.Driver.Owners.{
  Owns, Named, IsWell, Extends-refl, IsBelow, IsBelow-Extends, Ends,
}
use slang_server_extended.Driver.Making.{
  not_owned, has_position-first, has_position-later, has_position-cases,
}
use slang_server_extended.Driver.Refresh.{analyze_document_below}
use slang_server_extended.Driver.Binding.{
  add_include_owner-Owns, add_include_owner-IsBelow, add_include_owner-IsWell,
  add_include_owner-keeps, add_include_owner-adds, last_rank, last_rank-falls, last_rank-keeps,
}

-- A document without owners stays so when others are bound.
pub add_include_owner-sink :
    (world : World) (h o x : ℕ) (st : ServerDriver)
    → (h == x) ≡ false
    → include_owners st x ≡ []
    → include_owners (add_include_owner world h o st) x ≡ []
add_include_owner-sink world h o x st other sink =
    none_left (include_owners (add_include_owner world h o st) x) (λ y k.
      elim (add_include_owner-Owns world h o x y st k) [
        | inl old ↦ not_owned y (subst (λ os. has_position y os ≡ true) sink old)
        | inr (is, new) ↦ ground (arith, other, is)
      ])
  where
    none_left : (os : List ℕ) → ((y : ℕ) → has_position y os ≡ true → ⊥) → os ≡ []
    none_left [] f = refl
    none_left (y ∷ os) f = elim (f y (has_position-first y os)) [ ]

IsWell-IsBelow : (st : ServerDriver) (w : IsWell st) → IsBelow w.rank (length st.store) st
IsWell-IsBelow st w = record { within = omega arith; falls = λ h o lt k. w.drops h o k }

IsBelow-last_rank :
    (rank : ℕ → ℕ) (l o : ℕ) (st : ServerDriver)
    → include_owners st o ≡ []
    → IsBelow rank l st
    → IsBelow (last_rank o rank) l st
IsBelow-last_rank rank l o st sink b = record {
  within = b.within;
  falls = λ x y lt k. elim (Bool-cases (x == o)) [
    | inr apart ↦ ((b.falls x y lt k).0, last_rank-keeps o x y rank apart (b.falls x y lt k).1)
    | inl same ↦
        let is : x ≡ o = ground arith in
        elim (not_owned y (
          subst (λ os. has_position y os ≡ true) sink
            (subst (λ v. has_position y (include_owners st v) ≡ true) is k))) [ ]
  ];
}

pub analyze_document-Ends :
    (world : World) (n h : ℕ) (st : ServerDriver) (w : IsWell st)
    → h < length st.store
    → w.bound < n
    → Ends (analyze_document world n h st) st
analyze_document-Ends world n h st w lt le =
    analyze_document_below world w.rank (length st.store) n h st lt (omega (arith, w.bounded h, le))
      (IsWell-IsBelow st w) w

module _ (world : World) where
  is_orphan-apart :
      (st : ServerDriver) (owner : ℕ) (tree : SyntaxTree) (u : String) (g : ℕ)
      → is_orphan world st owner tree (u, g) ≡ true
      → (g == owner) ≡ false
  unfolding is_orphan
  is_orphan-apart st owner tree u g h = ground (arith, h)

  orphans-cases :
      (st : ServerDriver) (owner : ℕ) (tree : SyntaxTree) (ds : List (String × ℕ)) (h : ℕ)
      → All (Named st) ds
      → has_position h (orphans world st owner tree ds) ≡ true
      → (h < length st.store) × ((h == owner) ≡ false)
  unfolding orphans
  orphans-cases st owner tree [] h a k = elim (not_owned h k) [ ]
  orphans-cases st owner tree ((u, g) ∷ ds) h (n, a) k =
      let Listed : List ℕ → Type 0 =
        λ os. has_position h os ≡ true → (h < length st.store) × ((h == owner) ≡ false) in
      let rest : Listed (orphans world st owner tree ds) = orphans-cases st owner tree ds h a in
      if_both Listed (is_orphan world st owner tree (u, g))
        (λ adopted j. elim (has_position-cases h g (orphans world st owner tree ds) j) [
          | inr later ↦ rest later
          | inl is ↦
              subst (λ x. (x < length st.store) × ((x == owner) ≡ false)) is
                (n.0, is_orphan-apart st owner tree u g adopted)
        ])
        (λ left. rest) k

  adopt_each_ends :
      (rank : ℕ → ℕ) (l n owner : ℕ) (hs : List ℕ) (st : ServerDriver)
      → owner < l
      → ((h : ℕ) → has_position h hs ≡ true → (h < l) × ((h == owner) ≡ false))
      → ((h : ℕ) → last_rank owner rank h < n)
      → include_owners st owner ≡ []
      → IsBelow (last_rank owner rank) l st
      → IsWell st
      → (st' : ServerDriver) × (adopt_each world n owner hs st ≡ some st')
        × IsWell st'
        × ((g : ℕ) → g < l → Owns st g owner ⊎ (has_position g hs ≡ true) → Owns st' g owner)
  unfolding adopt_each
  adopt_each_ends rank l n owner [] st lo f le sink b w = (
    st,
    refl,
    w,
    λ g lt k. elim k [ inl owned ↦ owned | inr empty ↦ elim (not_owned g empty) [ ] ],
  )
  adopt_each_ends rank l n owner (h ∷ hs) st lo f le sink b w =
      let bound = add_include_owner world h owner st in
      let (lt, apart) = f h (has_position-first h hs) in
      let b' =
        add_include_owner-IsBelow world (last_rank owner rank) l h owner st lo
          (last_rank-falls owner h rank apart) b in
      let w' =
        add_include_owner-IsWell world h owner st (omega (arith, lo, b.within)) apart sink w in
      let sink' = add_include_owner-sink world h owner owner st apart sink in
      let one : Ends
          (if is_document_open (uri_of bound h) bound
            then analyze_document world n h bound
            else some bound)
          bound =
        if_both (λ r. Ends r bound) (is_document_open (uri_of bound h) bound)
          (λ opened.
            analyze_document_below world (last_rank owner rank) l n h bound lt (le h) b' w')
          (λ closed. (bound, refl, record { well = w'; extends = Extends-refl bound })) in
      let (next, runs, follows) = one in
      let (last, rest, well, adopts) =
        adopt_each_ends rank l n owner hs next lo (λ g k. f g (has_position-later g h hs k)) le
          (ap owners_in (follows.extends.same owner (omega (arith, lo, b'.within))) ∙ sink')
          (IsBelow-Extends (last_rank owner rank) l bound next follows.extends b') follows.well in
      (
        last,
        rw runs rest,
        well,
        λ g g_lt k.
            let same = follows.extends.same g (omega (arith, g_lt, b'.within)) in
            let owned : Owns bound g owner → Owns last g owner = λ now.
              adopts g g_lt
                (inl (subst (λ e. has_position owner (owners_in e) ≡ true) (sym same) now)) in
            elim k [
              | inl before ↦ owned (add_include_owner-keeps world h owner g owner st before)
              | inr listed ↦ elim (has_position-cases g h hs listed) [
                | inr later ↦ adopts g g_lt (inr later)
                | inl is ↦ owned (
                    subst (λ x. Owns bound x owner) is
                      (add_include_owner-adds world h owner st (omega (arith, lt, b.within))))
              ]
            ],
      )

  pub adopt_orphans_ends :
      (n owner : ℕ) (st : ServerDriver) (tree : SyntaxTree) (w : IsWell st)
      → owner < length st.store
      → include_owners st owner ≡ []
      → suc (suc w.bound) ≤ n
      → (st' : ServerDriver) × (adopt_each world n owner (orphans world st owner tree st.docs) st
          ≡ some st')
        × IsWell st'
        × ((g : ℕ)
            → g < length st.store
            → Owns st g owner ⊎ (has_position g (orphans world st owner tree st.docs) ≡ true)
            → Owns st' g owner)
  adopt_orphans_ends n owner st tree w lo sink le =
      adopt_each_ends w.rank (length st.store) n owner (orphans world st owner tree st.docs) st lo
        (λ h. orphans-cases st owner tree st.docs h w.named) (λ h. ground (arith, w.bounded h, le))
        sink (IsBelow-last_rank w.rank (length st.store) owner st sink (IsWell-IsBelow st w)) w

  adopt_into_ends :
      (n owner : ℕ) (st : ServerDriver) (t : Option SyntaxTree) (w : IsWell st)
      → owner < length st.store
      → include_owners st owner ≡ []
      → suc (suc w.bound) ≤ n
      → (st' : ServerDriver) × (adopt_into world n owner st t ≡ some st') × IsWell st'
  adopt_into_ends n owner st none w lo sink le = (st, refl, w)
  adopt_into_ends n owner st (some tree) w lo sink le =
      let (last, runs, well, adopts) = adopt_orphans_ends n owner st tree w lo sink le in
      (last, runs, well)

  pub adopt_orphan_fragments_ends :
      (n owner : ℕ) (st : ServerDriver) (w : IsWell st)
      → owner < length st.store
      → include_owners st owner ≡ []
      → suc (suc w.bound) ≤ n
      → (st' : ServerDriver) × (adopt_orphan_fragments world n owner st ≡ some st') × IsWell st'
  unfolding adopt_orphan_fragments
  adopt_orphan_fragments_ends n owner st w lo sink le =
      if_both (λ r. (st' : ServerDriver) × (r ≡ some st') × IsWell st')
        (not st.resolve_include_fragments) (λ off. (st, refl, w))
        (λ on. adopt_into_ends n owner st (world.parse st owner) w lo sink le)
