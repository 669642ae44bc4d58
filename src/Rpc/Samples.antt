-- ===== src/Rpc/Samples.antt =====
-- Runs of the server on small inputs.
use Prim.Native.String.{String}
use text.Mathlib.Text.{◌==◌ as str_eq}
use slang_server_extended.Base.{
  ◌&&◌, ℕ, ◌≤◌, List, [], ◌∷◌, true, false, none, some, ◌≡◌, ◌≢◌, refl, arith, map, keep, ◌++◌, not,
  ◌||◌,
}
use slang_server_extended.Rpc.Defs.{
  is_some, number, RpcRequest, RequestContext, Server, find, id_eq, register_context,
  cancel_request, is_cancelled, has_started, get_did_change_key, mark_started,
}
use slang_server_extended.Rpc.Replies.{
  Outcome, returned, error, request_cancelled, Handlers, handle_message, process_message,
  handle_message-replies, process_message-response,
}
use slang_server_extended.Rpc.Cancellation.{
  register_context-supersedes, cancel_request-marks, process_message-cancel_request,
}
use slang_server_extended.Rpc.Loop.Defs.{Loop, Routes, reader_step, worker_step, idle}
use slang_server_extended.Rpc.Loop.Runs.{
  Reach, here, then_step, reads, works, begin, in_hand, answerable, replied, id_of, IsOrdered,
}
use slang_server_extended.Rpc.Loop.Order.{Reach-order}
use slang_server_extended.Rpc.Loop.Drain.{work_off, work_off-all, pending}
use slang_server_extended.Rpc.Loop.Phases.{Reach-is_closing, is_closing}

abbrev request : ℕ → String → RpcRequest
request i m = record { id = some (number i); method = m; has_params = true; change_uri = none }

abbrev notification : String → RpcRequest
notification m = record { id = none; method = m; has_params = true; change_uri = none }

abbrev change : RpcRequest
change = record {
  id = none;
  method = "textDocument/didChange";
  has_params = true;
  change_uri = some "file:///a.sv";
}

abbrev change_context : ℕ → RequestContext
change_context i = record {
  id = i;
  method = "textDocument/didChange";
  rpc_id = none;
  supports_cancellation = true;
}

abbrev hover_context : ℕ → RequestContext
hover_context i = record {
  id = i;
  method = "textDocument/hover";
  rpc_id = some (number 7);
  supports_cancellation = false;
}

abbrev hover : RpcRequest
hover = request 7 "textDocument/hover"

abbrev fresh : Server
fresh = record {
  next_id = 4;
  flags = (λ i. record { cancelled = false; started = false });
  active_requests = [];
  pending_document_changes = [];
}

abbrev changing : Server
changing = record fresh { pending_document_changes = ("file:///a.sv", change_context 1) ∷ [] }

abbrev hovering : Server
hovering = record fresh { active_requests = (number 7, hover_context 2) ∷ [] }

abbrev handlers : Handlers ℕ
handlers = record {
  requests = (λ m. true);
  notifications = (λ m. false);
  run = (λ r c s. (returned 5, s));
}

abbrev routes : Routes
routes = record {
  requests = (λ m. true);
  notifications = (λ m. true);
  cancellable = "textDocument/didChange" ∷ [];
  parse_cancel = (λ r. none);
}

abbrev script : List RpcRequest
script =
    request 1 "initialize"
    ∷ change
    ∷ hover
    ∷ request 9 "shutdown"
    ∷ request 10 "textDocument/hover"
    ∷ notification "exit"
    ∷ []

abbrev answer : Outcome ℕ
answer = returned 5

abbrev opened : Loop ℕ
opened = begin script fresh

abbrev accepted_one : Loop ℕ
accepted_one = reader_step routes opened

abbrev initialized : Loop ℕ
initialized =
    worker_step routes answer (worker_step routes answer (worker_step routes answer accepted_one))

abbrev serving : Loop ℕ
serving = reader_step routes (reader_step routes (reader_step routes initialized))

abbrev closing : Loop ℕ
closing = reader_step routes serving

to_serving : Reach routes opened serving
to_serving =
    then_step
      (then_step
        (then_step
          (then_step
            (then_step
              (then_step (then_step (here opened) (reads opened)) (works answer accepted_one))
              (works answer (worker_step routes answer accepted_one)))
            (works answer (worker_step routes answer (worker_step routes answer accepted_one))))
          (reads initialized))
        (reads (reader_step routes initialized)))
      (reads (reader_step routes (reader_step routes initialized)))

register_context-supersedes_example :
    (is_cancelled (change_context 1) (register_context change (change_context 3) changing) ≡ true)
    × (find str_eq "file:///a.sv"
          (register_context change (change_context 3) changing).pending_document_changes
        ≡ some (change_context 3))
    × ((j : ℕ)
        → j ≢ 1
        → (register_context change (change_context 3) changing).flags j ≡ changing.flags j)
unfolding get_did_change_key find
register_context-supersedes_example =
    register_context-supersedes change (change_context 3) (change_context 1) "file:///a.sv" changing
      refl refl refl refl (ground arith)

cancel_request-marks_example :
    (is_cancelled (hover_context 2) (cancel_request (number 7) hovering) ≡ (
      is_cancelled (hover_context 2) hovering
      || not (has_started (hover_context 2) hovering)
      || false))
    × ((j : ℕ) → j ≢ 2 → (cancel_request (number 7) hovering).flags j ≡ hovering.flags j)
    × (has_started (hover_context 2) (cancel_request (number 7) hovering)
        ≡ has_started (hover_context 2) hovering)
unfolding find id_eq
cancel_request-marks_example = cancel_request-marks (number 7) (hover_context 2) hovering refl refl

handle_message-replies_example :
    is_some (handle_message handlers hover (hover_context 2) hovering).0
    ≡ (is_some hover.id && handlers.requests hover.method)
handle_message-replies_example = handle_message-replies handlers hover (hover_context 2) hovering

process_message-cancel_request_example :
    process_message handlers hover (hover_context 2) (cancel_request (number 7) hovering)
    ≡ (error request_cancelled "Request cancelled", cancel_request (number 7) hovering)
unfolding find id_eq has_started
process_message-cancel_request_example =
    process_message-cancel_request handlers hover (hover_context 2) (number 7) hovering refl refl
      refl refl refl

process_message-response_example :
    ((handlers.run hover (hover_context 2) (mark_started (hover_context 2) hovering)).0
      ≡ returned 5)
    × (is_cancelled (hover_context 2) hovering ≡ false)
    × (is_cancelled (hover_context 2) (mark_started (hover_context 2) hovering) ≡ false)
unfolding process_message is_cancelled mark_started
process_message-response_example =
    process_message-response handlers hover (hover_context 2) hovering 5 refl

Reach-order_example :
    (serving.accepted ≡ serving.handled ++ in_hand serving.worker ++ serving.queue)
    × (map replied serving.replies ≡ map id_of (keep (answerable routes) serving.handled))
Reach-order_example = Reach-order routes script fresh serving to_serving

serving-IsOrdered : IsOrdered routes serving
unfolding reader_step worker_step
serving-IsOrdered =
    let order = Reach-order routes script fresh serving to_serving in
    (order.0, order.1, λ m e. ground (arith, e))

serving-pending : pending serving ≤ 9
unfolding pending reader_step worker_step
serving-pending = ground arith

work_off-all_example :
    ((work_off routes 9 (λ n. answer) serving).queue ≡ [])
    × ((work_off routes 9 (λ n. answer) serving).worker ≡ idle)
    × ((work_off routes 9 (λ n. answer) serving).handled ≡ serving.accepted)
    × (map replied (work_off routes 9 (λ n. answer) serving).replies
        ≡ map id_of (keep (answerable routes) serving.accepted))
work_off-all_example = work_off-all routes 9 (λ n. answer) serving serving-IsOrdered serving-pending

Reach-is_closing_example :
    (is_closing (reader_step routes closing).phase ≡ true)
    × ((reader_step routes closing).accepted ≡ closing.accepted)
unfolding reader_step worker_step
Reach-is_closing_example =
    Reach-is_closing routes closing (reader_step routes closing)
      (then_step (here closing) (reads closing)) refl
