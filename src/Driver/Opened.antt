-- ===== src/Driver/Opened.antt =====
-- `openDocument`: that it ends, with the document open and every document in its place.
use Prim.Native.String.{String}
use text.Mathlib.Text.{◌==◌ as str_eq}
use text.Mathlib.TextEquality.{eq_iff}
use slang_server_extended.Base.{
  ℕ, ◌≤◌, ◌<◌, suc, Bytes, Bool, true, not, ◌&&◌, if◌then◌else◌, Option, some, ◌≡◌, refl, subst,
  arith, Bool-cases, inl, inr, if_both, length,
}
use slang_server_extended.Indexer.Defs.{contains}
use slang_server_extended.Driver.Documents.{
  ServerDriver, World, find_doc, include_owners, is_include_fragment, analyze_document,
}
use slang_server_extended.Driver.Opening.{
  Opening, find_known, made, adopt_orphan_fragments, insert_open, publish_regions, publish_opened,
  finish_open, open_document,
}
use slang_server_extended.Driver.Owners.{IsFound, IsWell, Follows, Ends}
use slang_server_extended.Driver.Making.{is_nil-eq}
use slang_server_extended.Driver.Fuel.{
  IsAfter, IsAfter-refl, IsAfter-if, EndsIn, EndsIn-grow, EndsIn-bind, analyze_document-IsAfter,
  adopt_orphan_fragments-IsAfter,
}
use slang_server_extended.Driver.Adoption.{analyze_document-Ends, adopt_orphan_fragments_ends}
use slang_server_extended.Driver.Known.{IsMade, find_known-IsOpening, made-IsMade}

module _ (world : World) where
  insert_open-IsWell :
      (uri : String) (st : ServerDriver)
      → IsFound uri st
      → IsWell st
      → IsWell (insert_open world uri st)
  insert_open-IsWell uri st f w =
      if_both IsWell (contains uri st.open_docs) (λ there. w)
        (λ new. record {
          rank = w.rank;
          bound = w.bound;
          bounded = w.bounded;
          drops = w.drops;
          named = w.named;
          opened = λ u k. elim (Bool-cases (str_eq uri u)) [
            | inl same ↦ subst (λ x. IsFound x st) ((eq_iff uri u).0 same) f
            | inr other ↦ w.opened u (ground (arith, k, other))
          ];
        })

  insert_open-keeps :
      (uri : String) (st : ServerDriver)
      → ((insert_open world uri st).store ≡ st.store)
        × (contains uri (insert_open world uri st).open_docs ≡ true)
  insert_open-keeps uri st =
      if_both (λ (s : ServerDriver). (s.store ≡ st.store) × (contains uri s.open_docs ≡ true))
        (contains uri st.open_docs) (λ there. (refl, there))
        (λ new. (refl, ground (arith, (eq_iff uri uri).1 refl)))

  publish_opened-Ends :
      (n : ℕ) (matches : Bool) (h : ℕ) (st : ServerDriver) (w : IsWell st)
      → h < length st.store
      → w.bound < n
      → Ends (publish_opened world n matches h st) st
  publish_opened-Ends n matches h st w lt le =
      if_both (λ r. Ends r st) (st.comp && matches)
        (λ built. (
          publish_regions world h st,
          refl,
          record {
            well = record {
              rank = w.rank;
              bound = w.bound;
              bounded = w.bounded;
              drops = w.drops;
              named = w.named;
              opened = w.opened;
            };
            extends = record {
              longer = omega arith;
              same = λ g k. refl;
              open_docs = refl;
              found = λ u f. f;
            };
          },
        ))
        (λ shallow. analyze_document-Ends world n h st w lt le)

  publish_opened-IsAfter :
      (n m : ℕ) (matches : Bool) (h : ℕ) (st : ServerDriver)
      → n ≤ m
      → IsAfter (publish_opened world n matches h st) (publish_opened world m matches h st)
  publish_opened-IsAfter n m matches h st le =
      IsAfter-if (st.comp && matches) (some (publish_regions world h st))
        (some (publish_regions world h st)) (analyze_document world n h st)
        (analyze_document world m h st) (IsAfter-refl (some (publish_regions world h st)))
        (analyze_document-IsAfter world n m h st le)

  -- The part behind the published diagnostics.
  abbrev adopted : ℕ → ℕ → Bool → ServerDriver → Option ServerDriver
  adopted n h already st =
      if not (is_include_fragment st h) && not already
      then adopt_orphan_fragments world n h st
      else some st

  adopted_ends :
      (h : ℕ) (already : Bool) (st : ServerDriver) (w : IsWell st)
      → h < length st.store
      → (st' : ServerDriver) × (adopted (suc (suc w.bound)) h already st ≡ some st') × IsWell st'
  adopted_ends h already st w lt =
      if_both (λ r. (st' : ServerDriver) × (r ≡ some st') × IsWell st')
        (not (is_include_fragment st h) && not already)
        (λ owner.
          adopt_orphan_fragments_ends world (suc (suc w.bound)) h st w lt
            (is_nil-eq (include_owners st h) (ground (arith, owner))) (omega arith))
        (λ other. (st, refl, w))

  adopted-IsAfter :
      (n m h : ℕ) (already : Bool) (st : ServerDriver)
      → n ≤ m
      → IsAfter (adopted n h already st) (adopted m h already st)
  adopted-IsAfter n m h already st le =
      IsAfter-if (not (is_include_fragment st h) && not already)
        (adopt_orphan_fragments world n h st) (adopt_orphan_fragments world m h st) (some st)
        (some st) (adopt_orphan_fragments-IsAfter world n m h st le) (IsAfter-refl (some st))

  finish_open-EndsIn :
      (uri : String) (o : Opening) (r : ServerDriver × ℕ)
      → IsMade uri r
      → EndsIn IsWell (λ n. finish_open world n uri o r)
  unfolding finish_open
  finish_open-EndsIn uri o (st, h) m =
      EndsIn-bind (Follows st) IsWell (λ n. publish_opened world n o.matches_build_source h st)
        (λ n s. adopted n h o.already_in_build (insert_open world uri s))
        (let n = suc m.well.bound in
          let (published, runs, follows) =
            publish_opened-Ends n o.matches_build_source h st m.well m.stored (omega arith) in
          EndsIn-grow (Follows st) (λ n. publish_opened world n o.matches_build_source h st) n
            published (λ k. publish_opened-IsAfter n k o.matches_build_source h st) runs follows)
        (λ published follows.
          let found = follows.extends.found uri (h, m.found) in
          let opened = insert_open world uri published in
          let w = insert_open-IsWell uri published found follows.well in
          let n = suc (suc w.bound) in
          let (last, runs, well) = adopted_ends h o.already_in_build opened w (
            ground
              (arith, (insert_open-keeps uri published).0, m.stored, follows.extends.longer)) in
          EndsIn-grow IsWell (λ k. adopted k h o.already_in_build opened) n last
            (λ k. adopted-IsAfter n k h o.already_in_build opened) runs well)

  -- In a well-formed state `openDocument` ends, and leaves a well-formed state: the owners of a
  -- document form no circle, each document is in the store under its own URI, and each open URI has
  -- a document.
  pub open_document-EndsIn :
      (uri : String) (text : Bytes) (st : ServerDriver)
      → IsWell st
      → EndsIn IsWell (λ n. open_document world n uri text st)
  unfolding open_document
  open_document-EndsIn uri text st w =
      let o = find_known world uri text st (find_doc uri st.docs) in
      let p = find_known-IsOpening world uri text st (find_doc uri st.docs) refl w in
      finish_open-EndsIn uri o (made world uri text o o.doc)
        (made-IsMade world uri text o o.doc refl p)
