-- ===== src/Rpc/Loop/Runs.antt =====
-- The runs of the two threads: sequences of their steps in any order, and the order of the messages.
use slang_server_extended.Base.{List, [], ◌∷◌, ◌++◌, Bool, true, ◌&&◌, Option, ◌≡◌, map, keep}
use slang_server_extended.Rpc.Defs.{RpcId, RpcRequest, Server, is_some}
use slang_server_extended.Rpc.Replies.{Outcome, Reply}
use slang_server_extended.Rpc.Loop.Defs.{
  starting, QueuedMessage, Worker, idle, taken, handling, Loop, Routes, worker_step, reader_step,
}

module _ {ℓ} {Value : Type ℓ} (h : Routes) where
  pub data Step : Loop Value → Loop Value → Type ℓ where
    reads : (l : Loop Value) → Step l (reader_step h l)
    works : (o : Outcome Value) (l : Loop Value) → Step l (worker_step h o l)

  pub data Reach : Loop Value → Loop Value → Type ℓ where
    here : (l : Loop Value) → Reach l l
    then_step : {a b c : Loop Value} → Reach a b → Step b c → Reach a c

abbrev pub begin {ℓ} : {Value : Type ℓ} → List RpcRequest → Server → Loop Value
begin input s = record {
  phase = starting;
  input = input;
  server = s;
  queue = [];
  worker = idle;
  accepted = [];
  handled = [];
  replies = [];
  refusals = [];
}

abbrev pub in_hand : Worker → List QueuedMessage
in_hand idle = []
in_hand (taken m) = m ∷ []
in_hand (handling m) = m ∷ []

-- The ids of the replies, and the ids of the requests for known methods.
abbrev pub answerable : Routes → QueuedMessage → Bool
answerable h (r, c) = is_some r.id && h.requests r.method

abbrev pub id_of : QueuedMessage → Option RpcId
id_of (r, c) = r.id

abbrev pub replied {ℓ} : {Value : Type ℓ} → Option RpcId × Reply Value → Option RpcId
replied (i, q) = i

-- The messages handled, in hand and queued, in this order, are those accepted; a request that is
-- being handled is one for a known method.
abbrev pub IsOrdered {ℓ} : {Value : Type ℓ} → Routes → Loop Value → Type 0
IsOrdered h l =
    (l.accepted ≡ l.handled ++ in_hand l.worker ++ l.queue)
    × (map replied l.replies ≡ map id_of (keep (answerable h) l.handled))
    × ((m : QueuedMessage)
        → l.worker ≡ handling m
        → is_some (id_of m) ≡ true
        → answerable h m ≡ true)
