-- ===== src/Driver/Saving.antt =====
-- That an edit and a save end in a well-formed state.
use Prim.Native.String.{String}
use text.Mathlib.Text.{◌==◌ as str_eq}
use slang_server_extended.Base.{
  ℕ, ◌<◌, suc, Bytes, List, [], ◌∷◌, ◌++◌, Bool, not, if◌then◌else◌, Option, none, some, ◌>>=◌, ◌≡◌,
  refl, arith, length,
}
use slang_server_extended.SlangDoc.Defs.{Edited, edited, throws, undefined, SlangDoc, text_matches}
use slang_server_extended.Driver.Documents.{
  ServerDriver, World, compiled, regions, find_doc, uri_of, buffer_of, is_document_open,
  get_document, analyze_document,
}
use slang_server_extended.Driver.Opening.{open_document}
use slang_server_extended.Driver.Handlers.{
  Outcome, finished, raised, undefined_edit, set_buffer, finishes, analyze_edited, reanalyze,
  reanalyze_open, save_document, overwrite, on_doc_did_save,
}
use slang_server_extended.Driver.Owners.{Named, IsWell, Follows, find_doc-All}
use slang_server_extended.Driver.Refresh.{get_document-Makes}
use slang_server_extended.Driver.Fuel.{
  EndsIn, EndsIn-done, EndsIn-grow, EndsIn-bind, EndsIn-if, analyze_document-IsAfter,
}
use slang_server_extended.Driver.Adoption.{analyze_document-Ends}
use slang_server_extended.Driver.Buffers.{set_buffer-length, set_buffer-IsWell}
use slang_server_extended.Driver.Opened.{open_document-EndsIn}

-- The outcome leaves a well-formed state, where the language defines one.
abbrev pub IsWellOutcome : Outcome → Type 0
IsWellOutcome (finished st) = IsWell st
IsWellOutcome (raised st) = IsWell st
IsWellOutcome undefined_edit = Unit

module _ (world : World) where
  pub analyze_document-EndsIn :
      (h : ℕ) (st : ServerDriver)
      → IsWell st
      → h < length st.store
      → EndsIn (Follows st) (λ n. analyze_document world n h st)
  analyze_document-EndsIn h st w lt =
      let (last, runs, follows) =
        analyze_document-Ends world (suc w.bound) h st w lt (omega arith) in
      EndsIn-grow (Follows st) (λ n. analyze_document world n h st) (suc w.bound) last
        (λ m. analyze_document-IsAfter world (suc w.bound) m h st) runs follows

  -- The same, where only the state matters.
  pub analyze_document-IsWell :
      (h : ℕ) (st : ServerDriver)
      → IsWell st
      → h < length st.store
      → EndsIn IsWell (λ n. analyze_document world n h st)
  analyze_document-IsWell h st w lt =
      let (n, last, runs, follows) = analyze_document-EndsIn h st w lt in
      (n, last, runs, follows.well)

  pub finishes-EndsIn :
      (f : ℕ → Option ServerDriver) → EndsIn IsWell f → EndsIn IsWellOutcome (λ n. f n >>= finishes)
  finishes-EndsIn f e =
      EndsIn-bind IsWell IsWellOutcome f (λ n. finishes) e
        (λ st w. EndsIn-done IsWellOutcome (finished st) w)

  pub analyze_edited-EndsIn :
      (h : ℕ) (cancelled : Bool) (st : ServerDriver) (d : Edited (SlangDoc ℕ ℕ))
      → IsWell st
      → h < length st.store
      → EndsIn IsWellOutcome (λ n. analyze_edited world n h cancelled st d)
  analyze_edited-EndsIn h cancelled st throws w lt = EndsIn-done IsWellOutcome (raised st) w
  analyze_edited-EndsIn h cancelled st undefined w lt = EndsIn-done IsWellOutcome undefined_edit tt
  analyze_edited-EndsIn h cancelled st (edited d) w lt =
      let next = set_buffer h d.buffer st in
      let w' = set_buffer-IsWell h d.buffer st w in
      EndsIn-if IsWellOutcome cancelled (λ n. some (raised next))
        (λ n. analyze_document world n h next >>= finishes)
        (λ stops. EndsIn-done IsWellOutcome (raised next) w')
        (λ goes_on.
          finishes-EndsIn (λ n. analyze_document world n h next)
            (analyze_document-IsWell h next w'
              (omega (arith, lt, set_buffer-length h d.buffer st))))

  pub reanalyze-EndsIn :
      (u : String) (st : ServerDriver) (o : Option ℕ)
      → find_doc u st.docs ≡ o
      → IsWell st
      → EndsIn IsWell (λ n. reanalyze world n st o)
  reanalyze-EndsIn u st none e w = EndsIn-done IsWell st w
  reanalyze-EndsIn u st (some h) e w =
      EndsIn-if IsWell (world.has_analysis st h) (λ n. some st) (λ n. analyze_document world n h st)
        (λ there. EndsIn-done IsWell st w)
        (λ stale. analyze_document-IsWell h st w (find_doc-All (Named st) u st.docs h w.named e).0)

  pub reanalyze_open-EndsIn :
      (saved : String) (us : List String) (st : ServerDriver)
      → IsWell st
      → EndsIn IsWell (λ n. reanalyze_open world n saved us st)
  unfolding reanalyze_open
  reanalyze_open-EndsIn saved [] st w = EndsIn-done IsWell st w
  reanalyze_open-EndsIn saved (u ∷ us) st w =
      EndsIn-bind IsWell IsWell
        (λ n. if str_eq u saved then some st else reanalyze world n st (find_doc u st.docs))
        (λ n. reanalyze_open world n saved us)
        (EndsIn-if IsWell (str_eq u saved) (λ n. some st)
          (λ n. reanalyze world n st (find_doc u st.docs)) (λ same. EndsIn-done IsWell st w)
          (λ other. reanalyze-EndsIn u st (find_doc u st.docs) refl w))
        (reanalyze_open-EndsIn saved us)

  pub save_document-EndsIn :
      (h : ℕ) (st : ServerDriver)
      → IsWell st
      → h < length st.store
      → EndsIn IsWell (λ n. save_document world n h st)
  unfolding save_document
  save_document-EndsIn h st w lt =
      EndsIn-if IsWell (not st.comp)
        (λ n. analyze_document world n h st >>= λ next.
          reanalyze_open world n (uri_of next h) next.open_docs next)
        (λ n. some (record st { log = st.log ++ (compiled h ∷ regions h ∷ []) }))
        (λ shallow.
          EndsIn-bind IsWell IsWell (λ n. analyze_document world n h st)
            (λ n next. reanalyze_open world n (uri_of next h) next.open_docs next)
            (analyze_document-IsWell h st w lt)
            (λ next. reanalyze_open-EndsIn (uri_of next h) next.open_docs next))
        (λ built.
          EndsIn-done IsWell (record st { log = st.log ++ (compiled h ∷ regions h ∷ []) })
            (record {
              rank = w.rank;
              bound = w.bound;
              bounded = w.bounded;
              drops = w.drops;
              named = w.named;
              opened = w.opened;
            }))

  -- A well-formed state with one of its documents.
  pub record IsReady (r : ServerDriver × ℕ) : Type 0 where
    pub well : IsWell r.0
    pub stored : r.1 < length r.0.store

  pub get_document-IsReady :
      (uri : String) (st : ServerDriver) → IsWell st → IsReady (get_document world uri st)
  get_document-IsReady uri st w =
      let m = get_document-Makes world uri st w in record { well = m.well; stored = m.stored }

  pub overwrite-EndsIn :
      (uri : String) (text : Option Bytes) (r : ServerDriver × ℕ)
      → IsReady r
      → EndsIn IsReady (λ n. overwrite world n uri text r)
  overwrite-EndsIn uri none (st, h) i = EndsIn-done IsReady (st, h) i
  overwrite-EndsIn uri (some text) (st, h) i =
      EndsIn-if IsReady (not (text_matches (buffer_of st h) text))
        (λ n. open_document world n uri text st >>= λ next. some (get_document world uri next))
        (λ n. some (st, h))
        (λ differs.
          EndsIn-bind IsWell IsReady (λ n. open_document world n uri text st)
            (λ n next. some (get_document world uri next))
            (open_document-EndsIn world uri text st i.well)
            (λ next w.
              EndsIn-done IsReady (get_document world uri next) (get_document-IsReady uri next w)))
        (λ same. EndsIn-done IsReady (st, h) i)

  pub on_doc_did_save-EndsIn :
      (uri : String) (text : Option Bytes) (st : ServerDriver)
      → IsWell st
      → EndsIn IsWell (λ n. on_doc_did_save world n uri text st)
  unfolding on_doc_did_save
  on_doc_did_save-EndsIn uri text st w =
      EndsIn-if IsWell (not (is_document_open uri st)) (λ n. some st)
        (λ n. overwrite world n uri text (get_document world uri st) >>= λ r.
          save_document world n r.1 r.0)
        (λ closed. EndsIn-done IsWell st w)
        (λ is_open.
          EndsIn-bind IsReady IsWell (λ n. overwrite world n uri text (get_document world uri st))
            (λ n r. save_document world n r.1 r.0)
            (overwrite-EndsIn uri text (get_document world uri st) (get_document-IsReady uri st w))
            (λ r i. save_document-EndsIn r.1 r.0 i.well i.stored))
