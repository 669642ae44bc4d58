-- ===== src/Driver/Known.antt =====
-- The first part of `openDocument`: that it leaves the document of the URI in its place.
use Prim.Native.String.{String}
use text.Mathlib.Text.{◌==◌ as str_eq}
use text.Mathlib.TextEquality.{eq_iff}
use slang_server_extended.Base.{
  ℕ, ◌<◌, Bytes, List, [], ◌∷◌, true, false, not, ◌==◌, Option, none, some, ◌≡◌, refl, sym, ap, ◌∙◌,
  subst, arith, Bool-cases, inl, inr, if_both, length,
}
use slang_server_extended.Indexer.Defs.{contains}
use slang_server_extended.SlangDoc.Defs.{text_matches}
use slang_server_extended.Driver.Trees.{classify_standalone_parse, is_standalone}
use slang_server_extended.Driver.Documents.{
  Document, ServerDriver, World, find_doc, include_owners, is_include_fragment, uri_of, buffer_of,
  make_document, set_doc, has_position, add_include_owner, add_include_owners, find_include_owners,
  resolve_document,
}
use slang_server_extended.Driver.Opening.{
  Opening, bind_owners, reopen, nothing, open_build_source, find_known, made,
}
use slang_server_extended.Driver.Owners.{Named, IsWell, find_doc-All, find_doc-assign_doc}
use slang_server_extended.Driver.Making.{
  not_owned, no_owners, has_position-first, has_position-later, find_include_owners-Named, Makes,
  make_document-Makes, set_doc-Makes,
}
use slang_server_extended.Driver.Refresh.{resolve_document-Makes}
use slang_server_extended.Driver.Binding.{
  add_include_owner-length, add_include_owner-uri, add_include_owner-rest, add_include_owner-IsWell,
}
use slang_server_extended.Driver.Adoption.{add_include_owner-sink}

-- The document of a URI, in its place in a well-formed state.
pub record IsMade (uri : String) (r : ServerDriver × ℕ) : Type 0 where
  pub well : IsWell r.0
  pub stored : r.1 < length r.0.store
  pub is : uri_of r.0 r.1 ≡ uri
  pub found : find_doc uri r.0.docs ≡ some r.1

set_doc-IsMade :
    (uri : String) (st : ServerDriver) (r : ServerDriver × ℕ)
    → Makes uri st r
    → IsMade uri (set_doc uri r)
set_doc-IsMade uri st r m =
    let m' = set_doc-Makes uri st r m in
    record {
      well = m'.well;
      stored = m'.stored;
      is = m'.is;
      found = find_doc-assign_doc uri uri r.1 r.0.docs ∙ ground (arith, (eq_iff uri uri).1 refl);
    }

-- Where a first part names a document, the document is in its place.
pub record IsOpening (uri : String) (o : Opening) : Type 0 where
  pub well : IsWell o.driver
  pub doc : (h : ℕ) → o.doc ≡ some h → IsMade uri (o.driver, h)

add_include_owners-IsMade :
    (world : World) (uri : String) (h : ℕ) (os : List ℕ) (st : ServerDriver)
    → ((o : ℕ)
        → has_position o os ≡ true
        → (o < length st.store) × ((h == o) ≡ false) × (include_owners st o ≡ []))
    → IsMade uri (st, h)
    → IsMade uri (add_include_owners world h os st, h)
unfolding add_include_owners
add_include_owners-IsMade world uri h [] st f m = m
add_include_owners-IsMade world uri h (o ∷ os) st f m =
    let (lo, apart, sink) = f o (has_position-first o os) in
    let size = add_include_owner-length world h o st in
    add_include_owners-IsMade world uri h os (add_include_owner world h o st)
      (λ p k.
        let (lp, other, none_left) = f p (has_position-later p o os k) in
        (omega (arith, lp, size), other, add_include_owner-sink world h o p st other none_left))
      (record {
        well = add_include_owner-IsWell world h o st lo apart sink m.well;
        stored = omega (arith, m.stored, size);
        is = add_include_owner-uri world h o h st ∙ m.is;
        found = ap (find_doc uri) (add_include_owner-rest world h o st).0 ∙ m.found;
      })

module _ (world : World) where
  bind_owners-IsOpening :
      (uri : String) (h : ℕ) (os : List ℕ) (o : Opening)
      → o.doc ≡ some h
      → ((p : ℕ)
          → has_position p os ≡ true
          → (p < length o.driver.store) × ((h == p) ≡ false) × (include_owners o.driver p ≡ []))
      → IsMade uri (o.driver, h)
      → IsOpening uri (bind_owners world h os o)
  unfolding bind_owners
  bind_owners-IsOpening uri h [] o e f m = record {
    well = m.well;
    doc = λ g at. subst (λ x. IsMade uri (o.driver, x)) (ground (arith, e, at)) m;
  }
  bind_owners-IsOpening uri h (p ∷ ps) o e f m =
      let m' = add_include_owners-IsMade world uri h (p ∷ ps) o.driver f m in
      record {
        well = m'.well;
        doc = λ g at.
            subst (λ x. IsMade uri (add_include_owners world h (p ∷ ps) o.driver, x))
              (ground (arith, e, at)) m';
      }

  reopen-IsOpening :
      (uri : String) (h : ℕ) (st : ServerDriver)
      → IsMade uri (st, h)
      → IsOpening uri (reopen world uri h st)
  unfolding reopen
  reopen-IsOpening uri h st m =
      let o : Opening = record {
        driver = st;
        doc = some h;
        matches_build_source = contains uri st.build_source_uris;
        already_in_build = true;
      } in
      let same : IsOpening uri o =
        bind_owners-IsOpening uri h [] o refl (λ p k. elim (not_owned p k) [ ]) m in
      if_both (IsOpening uri) (is_include_fragment st h) (λ bound. same)
        (λ unbound.
          if_both (IsOpening uri) (is_standalone (classify_standalone_parse (world.parse st h)))
            (λ stands. same)
            (λ broken.
              bind_owners-IsOpening uri h (find_include_owners world st uri) o refl
                (λ p k.
                  let (lp, sink, other) = find_include_owners-Named world st uri p m.well k in
                  (lp, apart h p st m.is other, sink))
                m))
    where
      apart :
          (h p : ℕ) (st : ServerDriver)
          → uri_of st h ≡ uri
          → str_eq (uri_of st p) uri ≡ false
          → (h == p) ≡ false
      apart h p st is other = elim (Bool-cases (h == p)) [
        | inr differ ↦ differ
        | inl same ↦
            let eq : h ≡ p = ground arith in
            let there : uri_of st p ≡ uri = sym (ap (uri_of st) eq) ∙ is in
            ground (arith, other, (eq_iff (uri_of st p) uri).1 there)
      ]

  nothing-IsOpening :
      (uri : String) (st : ServerDriver) → IsWell st → IsOpening uri (nothing world st)
  nothing-IsOpening uri st w = record { well = w; doc = λ h e. cc }

  open_build_source-IsOpening :
      (uri : String) (text : Bytes) (st : ServerDriver)
      → IsWell st
      → IsOpening uri (open_build_source world uri text st)
  unfolding open_build_source
  open_build_source-IsOpening uri text st w =
      let d : Document = record {
        uri = uri;
        buffer = world.source_text st uri;
        include_owners = [];
      } in
      let r = make_document d st in
      let m = make_document-Makes d st (no_owners st) w in
      let placed = set_doc-IsMade uri st r m in
      if_both (IsOpening uri)
        (not (is_standalone (classify_standalone_parse (world.parse r.0 r.1))))
        (λ broken. nothing-IsOpening uri r.0 m.well)
        (λ stands.
          if_both (IsOpening uri) (text_matches (buffer_of r.0 r.1) text)
            (λ same. record {
              well = placed.well;
              doc =
                  λ h e. subst (λ x. IsMade uri ((set_doc uri r).0, x)) (ground (arith, e)) placed;
            })
            (λ differs. nothing-IsOpening uri r.0 m.well))

  pub find_known-IsOpening :
      (uri : String) (text : Bytes) (st : ServerDriver) (o : Option ℕ)
      → find_doc uri st.docs ≡ o
      → IsWell st
      → IsOpening uri (find_known world uri text st o)
  unfolding find_known
  find_known-IsOpening uri text st none e w =
      if_both (IsOpening uri) (contains uri st.build_source_uris)
        (λ member. open_build_source-IsOpening uri text st w) (λ other. nothing-IsOpening uri st w)
  find_known-IsOpening uri text st (some h) e w =
      let (lt, is) = find_doc-All (Named st) uri st.docs h w.named e in
      if_both (IsOpening uri) (text_matches (buffer_of st h) text)
        (λ same. reopen-IsOpening uri h st (record { well = w; stored = lt; is = is; found = e }))
        (λ differs. nothing-IsOpening uri st w)

  pub made-IsMade :
      (uri : String) (text : Bytes) (o : Opening) (d : Option ℕ)
      → o.doc ≡ d
      → IsOpening uri o
      → IsMade uri (made world uri text o d)
  made-IsMade uri text o none e p =
      set_doc-IsMade uri o.driver (resolve_document world uri (some text) o.driver)
        (resolve_document-Makes world uri (some text) o.driver p.well)
  made-IsMade uri text o (some h) e p = p.doc h e
