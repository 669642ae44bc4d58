-- ===== src/Rpc/Replies.antt =====
-- `processMessage` and `handleMessage`, and their replies. The registered handlers are parameters: which names are known, and
-- what a handler's run gives and does to the server, cancellations by the reader thread included.
use Prim.Native.String.{String}
use slang_server_extended.Base.{
  Option-cases, Bool-cases, inl, inr, ◌&&◌, Bool, true, false, if◌then◌else◌, Option, none, some,
  ◌≡◌, ◌≢◌, refl, arith,
}
use slang_server_extended.Rpc.Defs.{
  is_some, RpcId, RpcRequest, RequestContext, Server, is_cancelled, mark_started,
  unregister_context,
}

-- How a handler's call ends: with a value, by RequestCancelled, or by another exception.
pub data Outcome {ℓ} (Value : Type ℓ) : Type ℓ where
  returned : Value → Outcome Value
  cancelled : Outcome Value
  failed : String → Outcome Value

pub data ErrorCode : Type 0 where
  request_cancelled internal_error server_not_initialized invalid_request : ErrorCode

-- The three alternatives of `processMessage`.
pub data Reply {ℓ} (Value : Type ℓ) : Type ℓ where
  response : Value → Reply Value
  error : ErrorCode → String → Reply Value
  no_reply : Reply Value

pub record Handlers {ℓ} (Value : Type ℓ) : Type ℓ where
  pub requests : String → Bool
  pub notifications : String → Bool
  pub run : RpcRequest → RequestContext → Server → Outcome Value × Server

module _ {ℓ} {Value : Type ℓ} where
  -- The end of the try block and the two catch blocks.
  unfoldable pub conclude : RequestContext → Outcome Value × Server → Reply Value × Server
  unfolding is_cancelled
  conclude c (returned v, s) =
      if is_cancelled c s then (error request_cancelled "Request cancelled", s) else (response v, s)
  conclude c (cancelled, s) = (error request_cancelled "Request cancelled", s)
  conclude c (failed what, s) = (error internal_error what, s)

  unfoldable pub process_request :
      Handlers Value → RpcRequest → RequestContext → Server → Reply Value × Server
  unfolding conclude is_cancelled mark_started
  process_request h r c s =
      if h.requests r.method
      then (if is_cancelled c s
          then (error request_cancelled "Request cancelled", s)
          else conclude c (h.run r c (mark_started c s)))
      else (no_reply, s)

  unfoldable pub process_notification :
      Handlers Value → RpcRequest → RequestContext → Server → Reply Value × Server
  process_notification h r c s =
      if h.notifications r.method then (no_reply, (h.run r c s).1) else (no_reply, s)

  unfoldable pub process_message :
      Handlers Value → RpcRequest → RequestContext → Server → Reply Value × Server
  unfolding process_request process_notification
  process_message h r c s = elim r.id [
    | none ↦ process_notification h r c s
    | some i ↦ process_request h r c s
  ]

  unfoldable pub reply_entry :
      (i : Option RpcId) (q : Reply Value) → Option (Option RpcId × Reply Value)
  reply_entry i q = elim q [
    | response v ↦ some (i, response v)
    | error k m ↦ some (i, error k m)
    | no_reply ↦ none
  ]

  -- The reply goes out under the request's id, after the context is removed.
  unfoldable pub handle_message :
      Handlers Value
      → RpcRequest
      → RequestContext
      → Server
      → Option (Option RpcId × Reply Value) × Server
  unfolding process_message reply_entry
  handle_message h r c s =
      let done = process_message h r c s in (reply_entry r.id done.0, unregister_context r c done.1)

  pub conclude-answers :
      (c : RequestContext) (o : Outcome Value) (s : Server) → (conclude c (o, s)).0 ≢ no_reply
  unfolding conclude
  conclude-answers c (returned v) s e = ground arith
  conclude-answers c cancelled s e = ground arith
  conclude-answers c (failed m) s e = ground arith

  conclude-response :
      (c : RequestContext) (o : Outcome Value) (s : Server) (v : Value)
      → (conclude c (o, s)).0 ≡ response v
      → (o ≡ returned v) × (is_cancelled c s ≡ false)
  unfolding conclude
  conclude-response c (returned w) s v e = ground arith
  conclude-response c cancelled s v e = ground arith
  conclude-response c (failed m) s v e = ground arith

  process_request-answers :
      (h : Handlers Value) (r : RpcRequest) (c : RequestContext) (s : Server)
      → h.requests r.method ≡ true
      → (process_request h r c s).0 ≢ no_reply
  unfolding process_request
  process_request-answers h r c s hm e =
      let ran = h.run r c (mark_started c s) in ground (arith, hm, conclude-answers c ran.0 ran.1)

  pub reply_entry-some :
      (i : Option RpcId) (q : Reply Value) → q ≢ no_reply → reply_entry i q ≡ some (i, q)
  unfolding reply_entry
  reply_entry-some i (response v) n = refl
  reply_entry-some i (error k m) n = refl
  reply_entry-some i no_reply n = ground arith

  -- A request for a known method is always answered: under its own id, with a response or an error.
  pub handle_message-answers :
      (h : Handlers Value) (r : RpcRequest) (c : RequestContext) (s : Server) (i : RpcId)
      → r.id ≡ some i
      → h.requests r.method ≡ true
      → (q : Reply Value) × ((handle_message h r c s).0 ≡ some (some i, q)) × (q ≢ no_reply)
  unfolding handle_message process_message
  handle_message-answers h r c s i hi hm = (
    (process_request h r c s).0,
    ground (
      arith,
      hi,
      reply_entry-some (some i) (process_request h r c s).0 (process_request-answers h r c s hm),
    ),
    process_request-answers h r c s hm,
  )

  -- A notification is never answered.
  pub handle_message-notification :
      (h : Handlers Value) (r : RpcRequest) (c : RequestContext) (s : Server)
      → r.id ≡ none
      → (handle_message h r c s).0 ≡ none
  unfolding handle_message process_message process_notification reply_entry
  handle_message-notification h r c s e = ground (arith, e)

  -- A message is answered exactly where it is a request for a known method.
  pub handle_message-replies :
      (h : Handlers Value) (r : RpcRequest) (c : RequestContext) (s : Server)
      → is_some (handle_message h r c s).0 ≡ (is_some r.id && h.requests r.method)
  unfolding handle_message process_message process_request reply_entry
  handle_message-replies h r c s = elim (Option-cases r.id) [
    | inl n ↦ ground (arith, n, handle_message-notification h r c s n)
    | inr i ↦ elim (Bool-cases (h.requests r.method)) [
      | inl known ↦
          (let answer = handle_message-answers h r c s i.0 i.1 known in
            ground (arith, i.1, known, answer.1))
      | inr unknown ↦ ground (arith, i.1, unknown)
    ]
  ]

  -- A request that was cancelled before it started is answered with RequestCancelled, and its handler
  -- is not run: the answer and the server are the same whatever the handler would do.
  pub process_message-cancelled :
      (h : Handlers Value) (r : RpcRequest) (c : RequestContext) (s : Server) (i : RpcId)
      → r.id ≡ some i
      → h.requests r.method ≡ true
      → is_cancelled c s ≡ true
      → process_message h r c s ≡ (error request_cancelled "Request cancelled", s)
  unfolding process_message process_request
  process_message-cancelled h r c s i hi hm hc = ground (arith, hi, hm, hc)

  -- A response carries a value that the handler returned, and the request was cancelled neither
  -- before its start nor at its end.
  pub process_message-response :
      (h : Handlers Value) (r : RpcRequest) (c : RequestContext) (s : Server) (v : Value)
      → (process_message h r c s).0 ≡ response v
      → ((h.run r c (mark_started c s)).0 ≡ returned v)
        × (is_cancelled c s ≡ false)
        × (is_cancelled c (h.run r c (mark_started c s)).1 ≡ false)
  unfolding process_message process_request process_notification
  process_message-response h r c s v e =
      let ran = h.run r c (mark_started c s) in ground (arith, conclude-response c ran.0 ran.1 v)
