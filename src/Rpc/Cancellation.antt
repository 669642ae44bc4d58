-- ===== src/Rpc/Cancellation.antt =====
-- What registration, cancellation and removal do to the contexts.
use Prim.Native.String.{String}
use text.Mathlib.Text.{◌==◌ as str_eq}
use text.Mathlib.TextPositions.{eq_refl}
use slang_server_extended.Base.{
  false, ℕ, List, [], ◌∷◌, Bool, true, not, ◌||◌, none, some, ◌≡◌, ◌≢◌, refl, arith, Bool-cases,
  inl, inr,
}
use slang_server_extended.Rpc.Defs.{
  RpcId, id_eq, id_eq_refl, RpcRequest, RequestContext, Server, has_state, cancel, is_cancelled,
  has_started, get_did_change_key, find, insert_or_assign, erase, register_context, register_active,
  register_change, unregister_context, unregister_active, unregister_change, cancel_request,
}
use slang_server_extended.Rpc.Replies.{
  Handlers, error, request_cancelled, process_message, process_message-cancelled,
}

module _ {ℓ κ} {K : Type ℓ} {V : Type κ} (same : K → K → Bool) where
  find-insert :
      (k : K) (v : V) (m : List (K × V))
      → same k k ≡ true
      → find same k (insert_or_assign same k v m) ≡ some v
  unfolding find insert_or_assign
  find-insert k v [] h = rw h
  find-insert k v ((j, w) ∷ m) h = ground (arith, find-insert k v m h)

  find-erase : (k : K) (m : List (K × V)) → find same k (erase same k m) ≡ none
  unfolding find erase
  find-erase k [] = refl
  find-erase k ((j, w) ∷ m) = ground (arith, find-erase k m)

-- A didChange of a document that is registered while an earlier one, another context with a state, is
-- pending cancels that one and takes its place; the flags of no other context are touched.
pub register_context-supersedes :
    (r : RpcRequest) (c old : RequestContext) (key : String) (s : Server)
    → get_did_change_key r ≡ some key
    → c.supports_cancellation ≡ true
    → find str_eq key s.pending_document_changes ≡ some old
    → has_state old ≡ true
    → old.id ≢ c.id
    → (is_cancelled old (register_context r c s) ≡ true)
      × (find str_eq key (register_context r c s).pending_document_changes ≡ some c)
      × ((j : ℕ) → j ≢ old.id → (register_context r c s).flags j ≡ s.flags j)
unfolding register_context register_change register_active cancel is_cancelled
register_context-supersedes r c old key s hk hc ho hs hn = (
  ground (arith, hk, ho),
  ground (arith, find-insert str_eq key c s.pending_document_changes (eq_refl key)),
  (λ j hj. ground arith),
)

-- A cancellation marks the request with that id where it has not started or can be cancelled, and
-- never another one; a request that has started and cannot be cancelled is left alone.
pub cancel_request-marks :
    (i : RpcId) (target : RequestContext) (s : Server)
    → find id_eq i s.active_requests ≡ some target
    → has_state target ≡ true
    → (is_cancelled target (cancel_request i s)
        ≡ (is_cancelled target s || not (has_started target s) || target.supports_cancellation))
      × ((j : ℕ) → j ≢ target.id → (cancel_request i s).flags j ≡ s.flags j)
      × (has_started target (cancel_request i s) ≡ has_started target s)
unfolding cancel_request cancel is_cancelled has_started
cancel_request-marks i target s h hs = (ground arith, (λ j hj. ground arith), ground arith)

active-register_change :
    (r : RpcRequest) (c : RequestContext) (s : Server)
    → (register_change r c s).active_requests ≡ s.active_requests
unfolding register_change cancel
active-register_change r c s = ground arith

active-unregister_change :
    (r : RpcRequest) (c : RequestContext) (s : Server)
    → (unregister_change r c s).active_requests ≡ s.active_requests
unfolding unregister_change
active-unregister_change r c s = ground arith

find-register_active :
    (r : RpcRequest) (c : RequestContext) (i : RpcId) (s : Server)
    → r.id ≡ some i
    → find id_eq i (register_active r c s).active_requests ≡ some c
unfolding register_active
find-register_active r c i s h =
    ground (arith, h, find-insert id_eq i c s.active_requests (id_eq_refl i))

find-unregister_active :
    (r : RpcRequest) (c : RequestContext) (i : RpcId) (s : Server)
    → r.id ≡ some i
    → find id_eq i s.active_requests ≡ some c
    → find id_eq i (unregister_active r c s).active_requests ≡ none
unfolding unregister_active
find-unregister_active r c i s h e = ground (arith, h, find-erase id_eq i s.active_requests)

-- A request that is registered and then removed leaves no entry under its id: a later `cancelRequest`
-- finds nothing.
pub unregister-register :
    (r : RpcRequest) (c : RequestContext) (i : RpcId) (s : Server)
    → r.id ≡ some i
    → find id_eq i (unregister_context r c (register_context r c s)).active_requests ≡ none
unfolding register_context unregister_context
unregister-register r c i s h = elim (Bool-cases c.supports_cancellation) [
  | inl can ↦
      let t = register_active r c s in
      let u = register_change r c t in
      ground (
        arith,
        h,
        can,
        active-unregister_change r c (unregister_active r c u),
        active-register_change r c t,
        find-register_active r c i s h,
        find-unregister_active r c i u h,
      )
  | inr cannot ↦
      let t = register_active r c s in
      ground (arith, h, cannot, find-unregister_active r c i t h, find-register_active r c i s h)
]

-- Removing a context leaves the entry of another context under the same id alone.
pub unregister_context-keeps :
    (r : RpcRequest) (c other : RequestContext) (i : RpcId) (s : Server)
    → r.id ≡ some i
    → find id_eq i s.active_requests ≡ some other
    → other.id ≢ c.id
    → find id_eq i (unregister_context r c s).active_requests ≡ some other
unfolding unregister_context unregister_active
unregister_context-keeps r c other i s h e ne = ground (arith, h, e, active-unregister_change r c s)

-- A request that is registered and has not started, and that the editor cancels, is answered with
-- RequestCancelled when its turn comes, and its handler is not run: the server is left as the
-- cancellation left it.
pub process_message-cancel_request {ℓ} :
    {Value : Type ℓ} (h : Handlers Value) (r : RpcRequest) (c : RequestContext) (i : RpcId)
    (s : Server)
    → r.id ≡ some i
    → h.requests r.method ≡ true
    → find id_eq i s.active_requests ≡ some c
    → has_state c ≡ true
    → has_started c s ≡ false
    → process_message h r c (cancel_request i s)
      ≡ (error request_cancelled "Request cancelled", cancel_request i s)
process_message-cancel_request h r c i s e k f t n =
    process_message-cancelled h r c (cancel_request i s) i e k
      (ground (arith, n, (cancel_request-marks i c s f t).0))
