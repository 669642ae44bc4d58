-- ===== src/Rpc/Loop/Drain.antt =====
-- The steps of the worker thread, counted against the queue.
use slang_server_extended.Base.{
  ℕ, zero, suc, ◌+◌, ◌*◌, ◌≤◌, ◌-◌, ap, ◌∙◌, List, [], ◌∷◌, Option, none, some, ◌≡◌, refl, arith,
  map, keep, append-nil, length,
}
use slang_server_extended.Rpc.Defs.{is_cancelled}
use slang_server_extended.Rpc.Replies.{Outcome, Reply, no_reply, error, request_cancelled, conclude}
use slang_server_extended.Rpc.Loop.Defs.{
  QueuedMessage, Worker, idle, taken, handling, Loop, Routes, settle, start_request,
  start_notification, start, finish, take_message, work, worker_step,
}
use slang_server_extended.Rpc.Loop.Runs.{works, IsOrdered, answerable, replied, id_of}
use slang_server_extended.Rpc.Loop.Order.{Step-IsOrdered}
use slang_server_extended.Base.{if_both}

abbrev pub weight : Worker → ℕ
weight idle = 0
weight (taken m) = 2
weight (handling m) = 1

-- The steps that the worker still needs.
unfoldable pub pending {ℓ} : {Value : Type ℓ} → Loop Value → ℕ
pending l = 3 * length l.queue + weight l.worker

module _ {ℓ} {Value : Type ℓ} (h : Routes) where
  -- The worker alone, with the outcome `o n` at its step with n left.
  unfoldable pub work_off : ℕ → (ℕ → Outcome Value) → Loop Value → Loop Value
  work_off zero o l = l
  work_off (suc n) o l = work_off n o (worker_step h (o n) l)

  abbrev Lighter : Loop Value → Loop Value → Type 0
  Lighter l k =
      (k.phase ≡ l.phase)
      × (k.accepted ≡ l.accepted)
      × (k.queue ≡ l.queue)
      × (weight k.worker + 1 ≤ weight l.worker)

  settle-Lighter :
      (m : QueuedMessage) (q : Reply Value) (l : Loop Value)
      → 1 ≤ weight l.worker
      → Lighter l (settle h m q l)
  unfolding settle
  settle-Lighter (r, c) q l w = (refl, refl, refl, w)

  start-Lighter :
      (i : Option _) (m : QueuedMessage) (l : Loop Value)
      → weight l.worker ≡ 2
      → Lighter l (start h i m l)
  unfolding start start_request start_notification
  start-Lighter none (r, c) l w =
      if_both (Lighter l) (h.notifications r.method) (λ k. (refl, refl, refl, ground (arith, w)))
        (λ k. settle-Lighter (r, c) no_reply l (ground (arith, w)))
  start-Lighter (some i) (r, c) l w =
      if_both (Lighter l) (h.requests r.method)
        (λ k.
          if_both (Lighter l) (is_cancelled c l.server)
            (λ z.
              settle-Lighter (r, c) (error request_cancelled "Request cancelled") l
                (ground (arith, w)))
            (λ z. (refl, refl, refl, ground (arith, w))))
        (λ k. settle-Lighter (r, c) no_reply l (ground (arith, w)))

  finish-Lighter :
      (o : Outcome Value) (i : Option _) (m : QueuedMessage) (l : Loop Value)
      → weight l.worker ≡ 1
      → Lighter l (finish h o i m l)
  unfolding finish
  finish-Lighter o none (r, c) l w = settle-Lighter (r, c) no_reply l (ground (arith, w))
  finish-Lighter o (some i) (r, c) l w =
      settle-Lighter (r, c) (conclude c (o, l.server)).0 l (ground (arith, w))

  -- A step of a worker that has something to do.
  abbrev Onward : Loop Value → Loop Value → Type 0
  Onward l k = (k.phase ≡ l.phase) × (k.accepted ≡ l.accepted) × (pending k ≤ pending l - 1)

  Lighter-Onward : (l k : Loop Value) → Lighter l k → Onward l k
  unfolding pending
  Lighter-Onward l k (f, a, q, w) = (f, a, ground (arith, q, w))

  take_message-Onward :
      (ms : List QueuedMessage) (l : Loop Value)
      → l.queue ≡ ms
      → l.worker ≡ idle
      → Onward l (take_message h ms l)
  unfolding take_message pending
  take_message-Onward [] l e w = (refl, refl, ground (arith, e, w))
  take_message-Onward (m ∷ ms) l e w = (refl, refl, ground (arith, e, w))

  work-Onward :
      (w : Worker) (o : Outcome Value) (l : Loop Value) → l.worker ≡ w → Onward l (work h w o l)
  unfolding work
  work-Onward idle o l e = take_message-Onward l.queue l refl e
  work-Onward (taken (r, c)) o l e =
      Lighter-Onward l _ (start-Lighter r.id (r, c) l (ground (arith, e)))
  work-Onward (handling (r, c)) o l e =
      Lighter-Onward l _ (finish-Lighter o r.id (r, c) l (ground (arith, e)))

  pub worker_step-Onward : (o : Outcome Value) (l : Loop Value) → Onward l (worker_step h o l)
  unfolding worker_step
  worker_step-Onward o l = work-Onward l.worker o l refl

  idle_when_done : (l : Loop Value) → pending l ≤ 0 → (l.queue ≡ []) × (l.worker ≡ idle)
  unfolding pending
  idle_when_done l p = ground (arith, p)

  handled_when_done :
      (l : Loop Value) → IsOrdered h l → l.queue ≡ [] → l.worker ≡ idle → l.handled ≡ l.accepted
  handled_when_done l (a, b, d) q w = ground (arith, a, q, w, append-nil l.handled)

  work_off-Onward :
      (n : ℕ) (o : ℕ → Outcome Value) (l : Loop Value)
      → ((work_off n o l).accepted ≡ l.accepted) × (pending (work_off n o l) ≤ pending l - n)
  unfolding work_off
  work_off-Onward zero o l = (refl, ground arith)
  work_off-Onward (suc n) o l =
      let k = worker_step h (o n) l in
      let step = worker_step-Onward (o n) l in
      let rest = work_off-Onward n o k in
      (ground (arith, step.1, rest.0), ground (arith, step.2, rest.1))

  work_off-IsOrdered :
      (n : ℕ) (o : ℕ → Outcome Value) (l : Loop Value)
      → IsOrdered h l
      → IsOrdered h (work_off n o l)
  unfolding work_off
  work_off-IsOrdered zero o l i = i
  work_off-IsOrdered (suc n) o l i =
      work_off-IsOrdered n o (worker_step h (o n) l) (Step-IsOrdered h (works (o n) l) i)

  -- From any state that is in order, the worker's next `pending l` steps, and any more, empty the queue
  -- and leave it idle, whatever the handlers' outcomes: every message accepted is handled, and each
  -- request for a known method among them has its reply, in the order in which they were accepted.
  pub work_off-all :
      (n : ℕ) (o : ℕ → Outcome Value) (l : Loop Value)
      → IsOrdered h l
      → pending l ≤ n
      → ((work_off n o l).queue ≡ [])
        × ((work_off n o l).worker ≡ idle)
        × ((work_off n o l).handled ≡ l.accepted)
        × (map replied (work_off n o l).replies ≡ map id_of (keep (answerable h) l.accepted))
  work_off-all n o l i p =
      let k = work_off n o l in
      let on = work_off-Onward n o l in
      let done = idle_when_done k (ground (arith, on.1, p)) in
      let ordered = work_off-IsOrdered n o l i in
      let all = handled_when_done k ordered done.0 done.1 in
      (
        done.0,
        done.1,
        all ∙ on.0,
        ordered.1 ∙ ap (λ m. map id_of (keep (answerable h) m)) (all ∙ on.0),
      )
