-- ===== src/Rpc/Defs.antt =====
-- Contexts, the two maps under `cancellationMutex`, and the handling of a message. The flags that the
-- copies of a context share are a function from context ids; `atomic` reads and writes are single
-- steps. Logging is left out.
use Prim.Native.String.{String}
use text.Mathlib.Text.{◌==◌ as str_eq}
use text.Mathlib.TextEquality.{eq_iff}
use slang_server_extended.Base.{
  ℕ, suc, List, [], ◌∷◌, Bool, true, false, not, ◌&&◌, ◌||◌, ◌==◌, if◌then◌else◌, Option, none,
  some, ◌≡◌, arith,
}

-- `std::variant<int, std::string>`; `negative n` is -(n + 1).
pub data RpcId : Type 0 where
  number negative : ℕ → RpcId
  name : String → RpcId

unfoldable pub id_eq : RpcId → RpcId → Bool
id_eq (number a) (number b) = a == b
id_eq (negative a) (negative b) = a == b
id_eq (name a) (name b) = str_eq a b
id_eq _ _ = false

pub id_eq_refl : (a : RpcId) → id_eq a a ≡ true
unfolding id_eq
id_eq_refl (number a) = ground arith
id_eq_refl (negative a) = ground arith
id_eq_refl (name a) = ground (arith, eq_iff a a)

-- `change_uri` is what rfl decodes the parameters of a didChange to.
pub record RpcRequest : Type 0 where
  pub id : Option RpcId
  pub method : String
  pub has_params : Bool
  pub change_uri : Option String

pub record RequestContext : Type 0 where
  pub id : ℕ
  pub method : String
  pub rpc_id : Option RpcId
  pub supports_cancellation : Bool

pub record Flags : Type 0 where
  pub cancelled : Bool
  pub started : Bool

abbrev pub is_some {ℓ} : {A : Type ℓ} → Option A → Bool
is_some none = false
is_some (some a) = true

-- Whether the context has a shared state.
abbrev pub has_state : RequestContext → Bool
has_state c = is_some c.rpc_id || c.supports_cancellation

pub record Server : Type 0 where
  pub next_id : ℕ
  pub flags : ℕ → Flags
  pub active_requests : List (RpcId × RequestContext)
  pub pending_document_changes : List (String × RequestContext)

abbrev pub update : (ℕ → Flags) → ℕ → Flags → ℕ → Flags
update f k v j = if j == k then v else f j

abbrev pub contains : String → List String → Bool
contains k [] = false
contains k (j ∷ js) = str_eq j k || contains k js

-- `cancel`, `isCancelled`, `markStarted`, `hasStarted`
unfoldable pub cancel : RequestContext → Server → Server
cancel c s =
    if has_state c
    then record s {
      flags = update s.flags c.id (record { cancelled = true; started = (s.flags c.id).started });
    }
    else s

unfoldable pub is_cancelled : RequestContext → Server → Bool
is_cancelled c s = has_state c && (s.flags c.id).cancelled

unfoldable pub mark_started : RequestContext → Server → Server
mark_started c s =
    if has_state c
    then record s {
      flags = update s.flags c.id (record { cancelled = (s.flags c.id).cancelled; started = true });
    }
    else s

unfoldable pub has_started : RequestContext → Server → Bool
has_started c s = has_state c && (s.flags c.id).started

-- The constructor of RequestContext takes the next id, and its flags start out false.
unfoldable pub create_context : List String → RpcRequest → Server → RequestContext × Server
create_context cancellable r s = (
  record {
    id = s.next_id;
    method = r.method;
    rpc_id = r.id;
    supports_cancellation = contains r.method cancellable;
  },
  record s {
    next_id = suc s.next_id;
    flags = update s.flags s.next_id (record { cancelled = false; started = false });
  },
)

unfoldable pub get_did_change_key : RpcRequest → Option String
get_did_change_key r =
    if not (str_eq r.method "textDocument/didChange") || not r.has_params
    then none
    else r.change_uri

module _ {ℓ κ} {K : Type ℓ} {V : Type κ} (same : K → K → Bool) where
  unfoldable pub find : K → List (K × V) → Option V
  find k [] = none
  find k ((j, v) ∷ m) = if same j k then some v else find k m

  unfoldable pub insert_or_assign : K → V → List (K × V) → List (K × V)
  insert_or_assign k v [] = (k, v) ∷ []
  insert_or_assign k v ((j, w) ∷ m) =
      if same j k then (j, v) ∷ m else (j, w) ∷ insert_or_assign k v m

  unfoldable pub erase : K → List (K × V) → List (K × V)
  erase k [] = []
  erase k ((j, w) ∷ m) = let rest = erase k m in if same j k then rest else (j, w) ∷ rest

unfoldable pub register_change : RpcRequest → RequestContext → Server → Server
unfolding cancel get_did_change_key find insert_or_assign
register_change r c s = elim (get_did_change_key r) [
  | none ↦ s
  | some key ↦
      (let told : Server = elim (find str_eq key s.pending_document_changes) [
        | none ↦ s
        | some old ↦ if not (old.id == c.id) then cancel old s else s
      ] in
        record told {
          pending_document_changes = insert_or_assign str_eq key c told.pending_document_changes;
        })
]

unfoldable pub register_active : RpcRequest → RequestContext → Server → Server
unfolding insert_or_assign
register_active r c s = elim r.id [
  | none ↦ s
  | some i ↦ record s { active_requests = insert_or_assign id_eq i c s.active_requests }
]

unfoldable pub register_context : RpcRequest → RequestContext → Server → Server
unfolding register_active register_change
register_context r c s =
    if not (is_some r.id) && not c.supports_cancellation
    then s
    else (let t = register_active r c s in
        if c.supports_cancellation then register_change r c t else t)

unfoldable pub unregister_active : RpcRequest → RequestContext → Server → Server
unfolding find erase
unregister_active r c s = elim r.id [
  | none ↦ s
  | some i ↦ elim (find id_eq i s.active_requests) [
    | none ↦ s
    | some d ↦
        if d.id == c.id then record s { active_requests = erase id_eq i s.active_requests } else s
  ]
]

unfoldable pub unregister_change : RpcRequest → RequestContext → Server → Server
unfolding find erase get_did_change_key
unregister_change r c s = elim (get_did_change_key r) [
  | none ↦ s
  | some key ↦ elim (find str_eq key s.pending_document_changes) [
    | none ↦ s
    | some d ↦
        if d.id == c.id
        then record s { pending_document_changes = erase str_eq key s.pending_document_changes }
        else s
  ]
]

unfoldable pub unregister_context : RpcRequest → RequestContext → Server → Server
unfolding unregister_active unregister_change
unregister_context r c s =
    if not (is_some r.id) && not c.supports_cancellation
    then s
    else (let t = unregister_active r c s in
        if c.supports_cancellation then unregister_change r c t else t)

-- Where no request of the id is active, the context that is made for a log line takes an id.
unfoldable pub cancel_request : RpcId → Server → Server
unfolding find has_started cancel
cancel_request i s = elim (find id_eq i s.active_requests) [
  | none ↦ record s { next_id = suc s.next_id }
  | some target ↦
      if not (has_started target s) || target.supports_cancellation then cancel target s else s
]
