-- ===== src/Rpc/Loop/Defs.antt =====
-- The state of `run` and the steps of its two threads. Each step is what one thread does between two
-- points at which the other can run. The worker's handler gives an arbitrary outcome, at a later step
-- than its start, so that cancellations fall between. `parse_cancel` is what rfl decodes the
-- parameters of a `$/cancelRequest` to. `replies` is what `handleMessage` sends and `refusals` what
-- the two outer loops send, each in order.
use Prim.Native.String.{String}
use text.Mathlib.Text.{◌==◌ as str_eq}
use slang_server_extended.Base.{List, [], ◌∷◌, ◌++◌, Bool, if◌then◌else◌, Option, none, some}
use slang_server_extended.Rpc.Defs.{
  RpcId, RpcRequest, RequestContext, Server, is_cancelled, mark_started, create_context, is_some,
  register_context, unregister_context, cancel_request,
}
use slang_server_extended.Rpc.Replies.{
  Outcome, ErrorCode, server_not_initialized, invalid_request, request_cancelled, Reply, error,
  no_reply, conclude, reply_entry,
}

pub data Phase : Type 0 where
  starting initializing running shut_down finished : Phase

abbrev pub QueuedMessage : Type 0
QueuedMessage = RpcRequest × RequestContext

pub data Worker : Type 0 where
  idle : Worker
  taken handling : QueuedMessage → Worker

abbrev pub Sent {ℓ} : (Value : Type ℓ) → Type ℓ
Sent Value = List (Option RpcId × Reply Value)

-- `accepted` and `handled` record what entered the queue and what was worked off, oldest first.
pub record Loop {ℓ} (Value : Type ℓ) : Type ℓ where
  pub phase : Phase
  pub input : List RpcRequest
  pub server : Server
  pub queue : List QueuedMessage
  pub worker : Worker
  pub accepted : List QueuedMessage
  pub handled : List QueuedMessage
  pub replies : Sent Value
  pub refusals : Sent Value

pub record Routes : Type 0 where
  pub requests : String → Bool
  pub notifications : String → Bool
  pub cancellable : List String
  pub parse_cancel : RpcRequest → Option RpcId

unfoldable pub sent_by {ℓ} : {Value : Type ℓ} → Option (Option RpcId × Reply Value) → Sent Value
sent_by none = []
sent_by (some m) = m ∷ []

unfoldable pub cancel_parsed : Option RpcId → Server → Server
unfolding cancel_request
cancel_parsed none s = s
cancel_parsed (some i) s = cancel_request i s

module _ {ℓ} {Value : Type ℓ} (h : Routes) where
  -- The rest of `handleMessage`, once the reply is known.
  unfoldable pub settle : QueuedMessage → Reply Value → Loop Value → Loop Value
  unfolding reply_entry sent_by
  settle (r, c) q l = record l {
    server = unregister_context r c l.server;
    worker = idle;
    handled = l.handled ++ ((r, c) ∷ []);
    replies = l.replies ++ sent_by (reply_entry r.id q);
  }

  -- `processMessage` up to the call of the handler.
  unfoldable pub start_request : QueuedMessage → Loop Value → Loop Value
  unfolding settle mark_started is_cancelled
  start_request (r, c) l =
      if h.requests r.method
      then (if is_cancelled c l.server
          then settle (r, c) (error request_cancelled "Request cancelled") l
          else record l { server = mark_started c l.server; worker = handling (r, c) })
      else settle (r, c) no_reply l

  unfoldable pub start_notification : QueuedMessage → Loop Value → Loop Value
  unfolding settle
  start_notification (r, c) l =
      if h.notifications r.method
      then record l { worker = handling (r, c) }
      else settle (r, c) no_reply l

  unfoldable pub start : Option RpcId → QueuedMessage → Loop Value → Loop Value
  unfolding start_request start_notification
  start none m l = start_notification m l
  start (some i) m l = start_request m l

  -- From the return of the handler on.
  unfoldable pub finish : Outcome Value → Option RpcId → QueuedMessage → Loop Value → Loop Value
  unfolding settle conclude
  finish o none (r, c) l = settle (r, c) no_reply l
  finish o (some i) (r, c) l = settle (r, c) (conclude c (o, l.server)).0 l

  unfoldable pub take_message : List QueuedMessage → Loop Value → Loop Value
  take_message [] l = l
  take_message (m ∷ ms) l = record l { queue = ms; worker = taken m }

  unfoldable pub work : Worker → Outcome Value → Loop Value → Loop Value
  unfolding take_message start finish
  work idle o l = take_message l.queue l
  work (taken (r, c)) o l = start r.id (r, c) l
  work (handling (r, c)) o l = finish o r.id (r, c) l

  unfoldable pub worker_step : Outcome Value → Loop Value → Loop Value
  unfolding work
  worker_step o l = work l.worker o l

  unfoldable pub refuse : RpcRequest → ErrorCode → String → Loop Value → Loop Value
  refuse r k m l = record l { refusals = l.refusals ++ ((r.id, error k m) ∷ []) }

  unfoldable pub enqueue : RpcRequest → Loop Value → Loop Value
  unfolding create_context register_context
  enqueue r l =
      let made = create_context h.cancellable r l.server in
      record l {
        server = register_context r made.0 made.1;
        queue = l.queue ++ ((r, made.0) ∷ []);
        accepted = l.accepted ++ ((r, made.0) ∷ []);
      }

  -- `processMessage` of a `$/cancelRequest`, which is a notification and not a request.
  unfoldable pub handle_cancel_request : RpcRequest → Loop Value → Loop Value
  unfolding cancel_parsed create_context
  handle_cancel_request r l =
      let made = create_context h.cancellable r l.server in
      record l { server = cancel_parsed (if is_some r.id then none else h.parse_cancel r) made.1 }

  unfoldable pub read_starting : RpcRequest → Loop Value → Loop Value
  unfolding refuse enqueue
  read_starting r l =
      if str_eq r.method "initialize"
      then record (enqueue r l) { phase = initializing }
      else refuse r server_not_initialized "Server not initialized" l

  unfoldable pub read_running : RpcRequest → Loop Value → Loop Value
  unfolding enqueue handle_cancel_request
  read_running r l =
      if str_eq r.method "$/cancelRequest"
      then handle_cancel_request r l
      else (if str_eq r.method "shutdown"
          then record (enqueue r l) { phase = shut_down }
          else enqueue r l)

  unfoldable pub read_shut_down : RpcRequest → Loop Value → Loop Value
  unfolding refuse handle_cancel_request
  read_shut_down r l =
      if str_eq r.method "exit"
      then record l { phase = finished }
      else (if str_eq r.method "$/cancelRequest"
          then handle_cancel_request r l
          else refuse r invalid_request "Invalid Request" l)

  unfoldable pub read_in : Phase → RpcRequest → Loop Value → Loop Value
  unfolding read_starting read_running read_shut_down
  read_in starting r l = read_starting r l
  read_in initializing r l = l
  read_in running r l = read_running r l
  read_in shut_down r l = read_shut_down r l
  read_in finished r l = l

  -- `initialize` is handled before the loop of the reader and the worker begins.
  unfoldable pub leave_initializing : Worker → List QueuedMessage → Loop Value → Loop Value
  leave_initializing idle [] l = record l { phase = running }
  leave_initializing _ _ l = l

  -- The end of the input ends the reader's loops.
  unfoldable pub read_next : List RpcRequest → Loop Value → Loop Value
  unfolding read_in
  read_next [] l = record l { phase = finished }
  read_next (r ∷ rest) l = read_in l.phase r (record l { input = rest })

  unfoldable pub read_at : Phase → Loop Value → Loop Value
  unfolding read_next leave_initializing
  read_at initializing l = leave_initializing l.worker l.queue l
  read_at finished l = l
  read_at _ l = read_next l.input l

  unfoldable pub reader_step : Loop Value → Loop Value
  unfolding read_at
  reader_step l = read_at l.phase l
