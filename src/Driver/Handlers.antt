-- ===== src/Driver/Handlers.antt =====
-- The notifications of the client about documents, as `SlangServer` passes them to the driver.
use Prim.Native.String.{String}
use text.Mathlib.Text.{◌==◌ as str_eq}
use slang_server_extended.Base.{
  ℕ, Bytes, List, [], ◌∷◌, ◌++◌, Bool, not, if◌then◌else◌, Option, none, some, ◌>>=◌, update_at,
}
use slang_server_extended.Indexer.Defs.{FileChangeType, created, changed, deleted}
use slang_server_extended.SlangDoc.Defs.{
  ContentChange, Edited, edited, throws, undefined, SlangDoc, on_change, text_matches,
}
use slang_server_extended.Driver.Documents.{
  cleared, compiled, regions, ServerDriver, World, find_doc, buffer_of, is_document_open,
  get_document, analyze_document, uri_of,
}
use slang_server_extended.Driver.Opening.{open_document}

-- What a notification comes to: it returns, an exception leaves it, or an edit passes the end of its
-- buffer.
pub data Outcome : Type 0 where
  finished : ServerDriver → Outcome
  raised : ServerDriver → Outcome
  undefined_edit : Outcome

unfoldable pub set_buffer : ℕ → Bytes → ServerDriver → ServerDriver
set_buffer h b st = record st { store = update_at h (λ d. record d { buffer = b }) st.store }

-- `m_openDocs.erase(uri)`
unfoldable pub erase_open : String → List String → List String
erase_open uri [] = []
erase_open uri (u ∷ us) = let rest = erase_open uri us in if str_eq u uri then rest else u ∷ rest

unfoldable pub close_document : String → ServerDriver → ServerDriver
unfolding erase_open
close_document uri st = record st {
  open_docs = erase_open uri st.open_docs;
  log = if st.comp then st.log else st.log ++ (cleared uri ∷ []);
}

-- The text of a document goes through the edits of `SlangDoc::onChange`.
abbrev pub as_slang_doc : Bytes → SlangDoc ℕ ℕ
as_slang_doc b = record { buffer = b; tree = none; analysis = none }

abbrev pub finishes : ServerDriver → Option Outcome
finishes st = some (finished st)

module _ (world : World) where
  abbrev pub analyze_edited : ℕ → ℕ → Bool → ServerDriver → Edited (SlangDoc ℕ ℕ) → Option Outcome
  analyze_edited n h cancelled st throws = some (raised st)
  analyze_edited n h cancelled st undefined = some undefined_edit
  analyze_edited n h cancelled st (edited d) =
      let changed_st = set_buffer h d.buffer st in
      if cancelled
      then some (raised changed_st)
      else analyze_document world n h changed_st >>= finishes

  unfoldable pub on_doc_did_change :
      ℕ → String → List ContentChange → Bool → ServerDriver → Option Outcome
  unfolding on_change get_document set_buffer
  on_doc_did_change n uri changes cancelled st =
      let (found, h) = get_document world uri st in
      analyze_edited n h cancelled found
        (on_change world.line_offsets (as_slang_doc (buffer_of found h)) changes)

  abbrev pub reanalyze : ℕ → ServerDriver → Option ℕ → Option ServerDriver
  reanalyze n st none = some st
  reanalyze n st (some h) =
      if world.has_analysis st h then some st else analyze_document world n h st

  -- The loop over the open documents.
  unfoldable pub reanalyze_open : ℕ → String → List String → ServerDriver → Option ServerDriver
  reanalyze_open n saved [] st = some st
  reanalyze_open n saved (u ∷ us) st =
      (if str_eq u saved then some st else reanalyze n st (find_doc u st.docs))
      >>= reanalyze_open n saved us

  -- `ServerDriver::onDocDidSave` behind the update of the index.
  unfoldable pub save_document : ℕ → ℕ → ServerDriver → Option ServerDriver
  unfolding reanalyze_open
  save_document n h st =
      if not st.comp
      then (analyze_document world n h st >>= λ next.
          reanalyze_open n (uri_of next h) next.open_docs next)
      else some (record st { log = st.log ++ (compiled h ∷ regions h ∷ []) })

  -- The text of the notification, where it has one, overwrites a buffer that differs from it.
  abbrev pub overwrite : ℕ → String → Option Bytes → ServerDriver × ℕ → Option (ServerDriver × ℕ)
  overwrite n uri none (st, h) = some (st, h)
  overwrite n uri (some text) (st, h) =
      if not (text_matches (buffer_of st h) text)
      then (open_document world n uri text st >>= λ next. some (get_document world uri next))
      else some (st, h)

  unfoldable pub on_doc_did_save : ℕ → String → Option Bytes → ServerDriver → Option ServerDriver
  unfolding save_document open_document get_document text_matches
  on_doc_did_save n uri text st =
      if not (is_document_open uri st)
      then some st
      else (overwrite n uri text (get_document world uri st) >>= λ r. save_document n r.1 r.0)

  abbrev pub reloaded : ServerDriver → ℕ → Option Bytes → List ℕ → ServerDriver × List ℕ
  reloaded st h none updated = (st, updated)
  reloaded st h (some text) updated = (set_buffer h text st, updated ++ (h ∷ []))

  abbrev pub reload_changed : String → ServerDriver → List ℕ → ServerDriver × List ℕ
  reload_changed uri st updated =
      if not (is_document_open uri st)
      then (st, updated)
      else (let (found, h) = get_document world uri st in
          reloaded found h (world.reloads found h) updated)

  -- One change of a watched file, with the documents to analyze so far.
  unfoldable pub watched_change :
      String → FileChangeType → ServerDriver → List ℕ → ServerDriver × List ℕ
  unfolding get_document set_buffer close_document
  watched_change uri changed st updated = reload_changed uri st updated
  watched_change uri deleted st updated = (close_document uri st, updated)
  watched_change uri created st updated = (st, updated)

  unfoldable pub watched_changes :
      List (String × FileChangeType) → ServerDriver → List ℕ → ServerDriver × List ℕ
  unfolding watched_change
  watched_changes [] st updated = (st, updated)
  watched_changes ((u, t) ∷ cs) st updated =
      let next = watched_change u t st updated in watched_changes cs next.0 next.1

  unfoldable pub analyze_each : ℕ → List ℕ → ServerDriver → Option ServerDriver
  analyze_each n [] st = some st
  analyze_each n (h ∷ hs) st = analyze_document world n h st >>= analyze_each n hs

  unfoldable pub on_workspace_did_change_watched_files :
      ℕ → List (String × FileChangeType) → ServerDriver → Option ServerDriver
  unfolding watched_changes analyze_each
  on_workspace_did_change_watched_files n changes st =
      let all = watched_changes changes st [] in analyze_each n all.1 all.0

-- A list of watched files stands for one that names no configuration file and no build file in use:
-- for those the server loads its configuration again and makes a new driver.
pub data Notification : Type 0 where
  did_open : String → Bytes → Notification
  did_change : String → List ContentChange → Bool → Notification
  did_save : String → Option Bytes → Notification
  did_close : String → Notification
  did_change_watched_files : List (String × FileChangeType) → Notification
  -- A route that asks for the document of a path.
  document_wanted : String → Notification

module _ (world : World) where
  unfoldable pub notify : ℕ → Notification → ServerDriver → Option Outcome
  unfolding open_document on_doc_did_change on_doc_did_save close_document
      on_workspace_did_change_watched_files get_document
  notify n (did_open uri text) st = open_document world n uri text st >>= finishes
  notify n (did_change uri changes cancelled) st =
      on_doc_did_change world n uri changes cancelled st
  notify n (did_save uri text) st = on_doc_did_save world n uri text st >>= finishes
  notify n (did_close uri) st = finishes (close_document uri st)
  notify n (did_change_watched_files changes) st =
      on_workspace_did_change_watched_files world n changes st >>= finishes
  notify n (document_wanted uri) st = finishes (get_document world uri st).0

  abbrev pub and_then : (ServerDriver → Option Outcome) → Outcome → Option Outcome
  and_then next (finished st) = next st
  and_then next (raised st) = next st
  and_then next undefined_edit = some undefined_edit

  -- The notifications in their order. An exception ends one of them only.
  unfoldable pub notify_all : ℕ → List Notification → ServerDriver → Option Outcome
  unfolding notify
  notify_all n [] st = finishes st
  notify_all n (m ∷ ms) st = notify n m st >>= and_then (notify_all n ms)
