-- ===== src/Driver/Serving.antt =====
-- That each notification about documents ends in a well-formed state.
use Prim.Native.String.{String}
use slang_server_extended.Base.{ℕ, List, [], ◌∷◌, Bool, Option}
use slang_server_extended.SlangDoc.Defs.{ContentChange, on_change}
use slang_server_extended.Driver.Documents.{ServerDriver, World, buffer_of, get_document}
use slang_server_extended.Driver.Opening.{open_document}
use slang_server_extended.Driver.Handlers.{
  Outcome, finished, raised, undefined_edit, close_document, as_slang_doc, on_doc_did_change,
  on_doc_did_save, on_workspace_did_change_watched_files, Notification, did_open, did_change,
  did_save, did_close, did_change_watched_files, document_wanted, notify, and_then, notify_all,
}
use slang_server_extended.Driver.Owners.{IsWell}
use slang_server_extended.Driver.Fuel.{EndsIn, EndsIn-done, EndsIn-bind}
use slang_server_extended.Driver.Buffers.{close_document-IsWell}
use slang_server_extended.Driver.Opened.{open_document-EndsIn}
use slang_server_extended.Driver.Saving.{
  IsWellOutcome, finishes-EndsIn, analyze_edited-EndsIn, get_document-IsReady,
  on_doc_did_save-EndsIn,
}
use slang_server_extended.Driver.Watching.{on_workspace_did_change_watched_files-EndsIn}

module _ (world : World) where
  on_doc_did_change-EndsIn :
      (uri : String) (cs : List ContentChange) (cancelled : Bool) (st : ServerDriver)
      → IsWell st
      → EndsIn IsWellOutcome (λ n. on_doc_did_change world n uri cs cancelled st)
  unfolding on_doc_did_change
  on_doc_did_change-EndsIn uri cs cancelled st w =
      let r = get_document world uri st in
      let i = get_document-IsReady world uri st w in
      analyze_edited-EndsIn world r.1 cancelled r.0
        (on_change world.line_offsets (as_slang_doc (buffer_of r.0 r.1)) cs) i.well i.stored

  notify-EndsIn :
      (m : Notification) (st : ServerDriver)
      → IsWell st
      → EndsIn IsWellOutcome (λ n. notify world n m st)
  unfolding notify
  notify-EndsIn (did_open uri text) st w =
      finishes-EndsIn world (λ n. open_document world n uri text st)
        (open_document-EndsIn world uri text st w)
  notify-EndsIn (did_change uri cs cancelled) st w = on_doc_did_change-EndsIn uri cs cancelled st w
  notify-EndsIn (did_save uri text) st w =
      finishes-EndsIn world (λ n. on_doc_did_save world n uri text st)
        (on_doc_did_save-EndsIn world uri text st w)
  notify-EndsIn (did_close uri) st w =
      EndsIn-done IsWellOutcome (finished (close_document uri st)) (close_document-IsWell uri st w)
  notify-EndsIn (did_change_watched_files cs) st w =
      finishes-EndsIn world (λ n. on_workspace_did_change_watched_files world n cs st)
        (on_workspace_did_change_watched_files-EndsIn world cs st w)
  notify-EndsIn (document_wanted uri) st w =
      EndsIn-done IsWellOutcome (finished (get_document world uri st).0)
        (get_document-IsReady world uri st w).well

  and_then-EndsIn :
      (f : ℕ → ServerDriver → Option Outcome)
      → ((st : ServerDriver) → IsWell st → EndsIn IsWellOutcome (λ n. f n st))
      → (o : Outcome) → IsWellOutcome o
      → EndsIn IsWellOutcome (λ n. and_then world (f n) o)
  and_then-EndsIn f e (finished st) i = e st i
  and_then-EndsIn f e (raised st) i = e st i
  and_then-EndsIn f e undefined_edit i = EndsIn-done IsWellOutcome undefined_edit tt

  -- From a well-formed state every sequence of notifications ends, with one outcome for all fuel that
  -- is enough: a well-formed state, in which the owners of a document form no circle, each document
  -- is in the store under its own URI and each open URI has a document, unless an edit passes the end
  -- of its buffer.
  pub notify_all-EndsIn :
      (ms : List Notification) (st : ServerDriver)
      → IsWell st
      → EndsIn IsWellOutcome (λ n. notify_all world n ms st)
  unfolding notify_all
  notify_all-EndsIn [] st w = EndsIn-done IsWellOutcome (finished st) w
  notify_all-EndsIn (m ∷ ms) st w =
      EndsIn-bind IsWellOutcome IsWellOutcome (λ n. notify world n m st)
        (λ n. and_then world (notify_all world n ms)) (notify-EndsIn m st w)
        (and_then-EndsIn (λ n. notify_all world n ms) (notify_all-EndsIn ms))
