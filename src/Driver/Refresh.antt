-- ===== src/Driver/Refresh.antt =====
-- `resolveDocument`, `getDocument` and `analyzeDocument`: that the recursion along the owners ends, and
-- what it leaves as it was.
use Prim.Native.String.{String}
use slang_server_extended.Base.{
  ℕ, ◌<◌, zero, suc, Bytes, List, [], ◌∷◌, ◌++◌, true, if◌then◌else◌, Option, none, some, ◌≡◌, refl,
  arith, if_both, is_nil,
}
use slang_server_extended.Driver.Trees.{classify_standalone_parse, is_standalone}
use slang_server_extended.Driver.Documents.{
  analyzed, ServerDriver, World, find_doc, include_owners, is_document_open, uri_of, has_position,
  find_include_owners, resolve_document, found_or_made, get_document, get_documents, new_document,
  standalone_document, text_or_source, from_include_owner, owner_sync, analyze_alone,
  refresh_owners, analyze_document,
}
use slang_server_extended.Driver.Owners.{
  Named, IsWell, Extends-refl, Extends-trans, find_doc-All, Follows, Follows-trans, IsBelow,
  IsBelow-Extends, Ends, logged-Follows,
}
use slang_server_extended.Driver.Making.{
  AreStored, no_owners, has_position-first, has_position-later, find_include_owners-Named, Makes,
  make_document-Makes, Makes-after, set_doc-Makes,
}

module _ (world : World) where
  new_document-Makes :
      (uri : String) (text : Option Bytes) (os : List ℕ) (st : ServerDriver)
      → AreStored st os
      → IsWell st
      → Makes uri st (new_document world uri text os st)
  new_document-Makes uri text os st owned w =
      make_document-Makes
        (record { uri = uri; buffer = text_or_source world st uri text; include_owners = os }) st
        owned w

  standalone_document-Makes :
      (uri : String) (text : Option Bytes) (st : ServerDriver) (r : ServerDriver × ℕ)
      → Makes uri st r
      → Makes uri st (standalone_document world uri text r)
  standalone_document-Makes uri none st r m = m
  standalone_document-Makes uri (some text) st r m =
      Makes-after uri st r.0 (new_document world uri (some text) [] r.0) m.extends
        (new_document-Makes uri (some text) [] r.0 (no_owners r.0) m.well)

  from_include_owner-Makes :
      (uri : String) (text : Option Bytes) (os : List ℕ) (st : ServerDriver)
      → AreStored st os
      → IsWell st
      → Makes uri st (from_include_owner world uri text os st)
  unfolding from_include_owner
  from_include_owner-Makes uri text os st owned w =
      let l = st.log ++ owner_sync world st uri text os in
      let synced_st : ServerDriver = record st { log = l } in
      let f = logged-Follows st l w in
      Makes-after uri st synced_st (new_document world uri text os synced_st) f.extends
        (new_document-Makes uri text os synced_st owned f.well)

  pub resolve_document-Makes :
      (uri : String) (text : Option Bytes) (st : ServerDriver)
      → IsWell st
      → Makes uri st (resolve_document world uri text st)
  unfolding resolve_document
  resolve_document-Makes uri text st w =
      let os = find_include_owners world st uri in
      let probe = new_document world uri none [] st in
      let probed : Makes uri st probe = new_document-Makes uri none [] st (no_owners st) w in
      if_both (Makes uri st) (is_nil os)
        (λ alone. new_document-Makes uri text [] st (no_owners st) w)
        (λ included.
          if_both (Makes uri st)
            (is_standalone (classify_standalone_parse (world.parse probe.0 probe.1)))
            (λ stands. standalone_document-Makes uri text st probe probed)
            (λ broken.
              Makes-after uri st probe.0 (from_include_owner world uri text os probe.0)
                probed.extends
                (from_include_owner-Makes uri text os probe.0
                  (λ o k. omega (
                    arith,
                    (find_include_owners-Named world st uri o w k).0,
                    probed.extends.longer,
                  ))
                  probed.well)))

  found_or_made-Makes :
      (uri : String) (st : ServerDriver) (o : Option ℕ)
      → find_doc uri st.docs ≡ o
      → IsWell st
      → Makes uri st (found_or_made world uri st o)
  unfolding found_or_made
  found_or_made-Makes uri st none e w =
      set_doc-Makes uri st (resolve_document world uri none st)
        (resolve_document-Makes uri none st w)
  found_or_made-Makes uri st (some h) e w =
      let (lt, is) = find_doc-All (Named st) uri st.docs h w.named e in
      record { well = w; extends = Extends-refl st; stored = lt; is = is }

  pub get_document-Makes :
      (uri : String) (st : ServerDriver) → IsWell st → Makes uri st (get_document world uri st)
  unfolding get_document
  get_document-Makes uri st w = found_or_made-Makes uri st (find_doc uri st.docs) refl w

  get_documents-Follows :
      (us : List String) (st st' : ServerDriver)
      → Follows st st'
      → Follows st (get_documents world us st')
  unfolding get_documents
  get_documents-Follows [] st st' f = f
  get_documents-Follows (u ∷ us) st st' f =
      let m = get_document-Makes u st' f.well in
      get_documents-Follows us st (get_document world u st').0 (record {
        well = m.well;
        extends = Extends-trans st st' (get_document world u st').0 f.extends m.extends;
      })

  analyze_alone-Follows :
      (h : ℕ) (st : ServerDriver) → IsWell st → Follows st (analyze_alone world h st)
  unfolding analyze_alone
  analyze_alone-Follows h st w =
      get_documents-Follows (world.loads st h) st (record st { log = st.log ++ (analyzed h ∷ []) })
        (record {
          well = record {
            rank = w.rank;
            bound = w.bound;
            bounded = w.bounded;
            drops = w.drops;
            named = w.named;
            opened = w.opened;
          };
          extends = record {
            longer = omega arith;
            same = λ g lt. refl;
            open_docs = refl;
            found = λ u f. f;
          };
        })

  refresh_owners_below :
      (rank : ℕ → ℕ) (l n : ℕ) (os : List ℕ) (st : ServerDriver)
      → ((h : ℕ) (s : ServerDriver)
          → h < l
          → rank h < n
          → IsBelow rank l s
          → IsWell s
          → Ends (analyze_document world n h s) s)
      → ((o : ℕ) → has_position o os ≡ true → (o < l) × (rank o < n))
      → IsBelow rank l st
      → IsWell st
      → Ends (refresh_owners world (analyze_document world n) os st) st
  unfolding refresh_owners
  refresh_owners_below rank l n [] st f g b w =
      (st, refl, record { well = w; extends = Extends-refl st })
  refresh_owners_below rank l n (o ∷ os) st f g b w =
      let owner : Ends
          (if is_document_open (uri_of st o) st then analyze_document world n o st else some st)
          st =
        if_both (λ r. Ends r st) (is_document_open (uri_of st o) st)
          (λ opened. f o st (g o (has_position-first o os)).0 (g o (has_position-first o os)).1 b w)
          (λ closed. (st, refl, record { well = w; extends = Extends-refl st })) in
      let (next, runs, follows) = owner in
      let (last, rest, after) =
        refresh_owners_below rank l n os next f (λ p k. g p (has_position-later p o os k))
          (IsBelow-Extends rank l st next follows.extends b) follows.well in
      (last, rw runs rest, Follows-trans st next last follows after)

  -- The recursion ends where the fuel is above the rank of the document.
  pub analyze_document_below :
      (rank : ℕ → ℕ) (l n h : ℕ) (st : ServerDriver)
      → h < l
      → rank h < n
      → IsBelow rank l st
      → IsWell st
      → Ends (analyze_document world n h st) st
  unfolding analyze_document
  analyze_document_below rank l zero h st lt below b w = elim below [ ]
  analyze_document_below rank l (suc n) h st lt below b w =
      let next = analyze_alone world h st in
      let alone = analyze_alone-Follows h st w in
      let b' = IsBelow-Extends rank l st next alone.extends b in
      let (last, runs, after) =
        refresh_owners_below rank l n (include_owners next h) next
          (λ g s. analyze_document_below rank l n g s)
          (λ o k. let (lo, falls) = b'.falls h o lt k in (lo, omega (arith, falls, below))) b'
          alone.well in
      (last, runs, Follows-trans st next last alone after)
