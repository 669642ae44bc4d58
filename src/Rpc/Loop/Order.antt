-- ===== src/Rpc/Loop/Order.antt =====
-- The order of the messages and of the replies in a run.
use slang_server_extended.Base.{
  List, [], ◌∷◌, ◌++◌, Bool, true, false, Option, none, some, ◌≡◌, ◌≢◌, refl, arith, map, keep,
  append_assoc, append-nil, Bool-cases, subst, inl, inr,
}
use slang_server_extended.Rpc.Defs.{
  RpcId, RpcRequest, Server, is_some, is_cancelled, mark_started, create_context,
}
use slang_server_extended.Rpc.Replies.{
  Outcome, Reply, error, request_cancelled, no_reply, conclude, conclude-answers, reply_entry,
  reply_entry-some,
}
use text.Mathlib.Text.{◌==◌ as str_eq}
use mathlib.Core.List.{map-append}
use slang_server_extended.Rpc.Loop.Defs.{
  Phase, starting, initializing, running, shut_down, finished, QueuedMessage, Worker, idle, taken,
  handling, Loop, Routes, sent_by, settle, start_request, start_notification, start, finish,
  take_message, work, worker_step, refuse, enqueue, handle_cancel_request, read_starting,
  read_running, read_shut_down, read_in, leave_initializing, read_next, read_at, reader_step,
}
use slang_server_extended.Rpc.Loop.Runs.{
  Step, reads, works, Reach, here, then_step, begin, in_hand, answerable, id_of, replied, IsOrdered,
}
use slang_server_extended.Base.{if_both}

keep-append {ℓ} :
    {A : Type ℓ} (p : A → Bool) (xs ys : List A) → keep p (xs ++ ys) ≡ keep p xs ++ keep p ys
keep-append p [] ys = refl
keep-append p (x ∷ xs) ys = ground (arith, keep-append p xs ys)

module _ (h : Routes) (m : QueuedMessage) where
  keep_one : answerable h m ≡ true → keep (answerable h) (m ∷ []) ≡ m ∷ []
  keep_one e = rw e refl

  drop_one : answerable h m ≡ false → keep (answerable h) (m ∷ []) ≡ []
  drop_one e = rw e refl

module _ {ℓ} {Value : Type ℓ} (h : Routes) where
  -- The reply that `settle` sends is the one for the message it adds to those handled.
  replies-settle :
      (m : QueuedMessage) (q : Reply Value) (l : Loop Value)
      → map replied l.replies ≡ map id_of (keep (answerable h) l.handled)
      → (answerable h m ≡ true → q ≢ no_reply)
      → (answerable h m ≡ false → q ≡ no_reply)
      → map replied (settle h m q l).replies
        ≡ map id_of (keep (answerable h) (settle h m q l).handled)
  unfolding settle sent_by reply_entry
  replies-settle (r, c) q l b y n = elim (Bool-cases (answerable h (r, c))) [
    | inl is ↦
        rw
          (
            map-append replied l.replies (sent_by (reply_entry r.id q)),
            b,
            reply_entry-some r.id q (y is),
            keep-append (answerable h) l.handled ((r, c) ∷ []),
            keep_one h (r, c) is,
            map-append id_of (keep (answerable h) l.handled) ((r, c) ∷ []),
          )
          refl
    | inr not_is ↦
        rw
          (
            n not_is,
            keep-append (answerable h) l.handled ((r, c) ∷ []),
            drop_one h (r, c) not_is,
            append-nil (keep (answerable h) l.handled),
            append-nil l.replies,
          )
          b
  ]

  settle-IsOrdered :
      (m : QueuedMessage) (q : Reply Value) (l : Loop Value)
      → l.accepted ≡ l.handled ++ (m ∷ []) ++ l.queue
      → map replied l.replies ≡ map id_of (keep (answerable h) l.handled)
      → (answerable h m ≡ true → q ≢ no_reply)
      → (answerable h m ≡ false → q ≡ no_reply)
      → IsOrdered h (settle h m q l)
  unfolding settle
  settle-IsOrdered (r, c) q l a b y n = (
    rw (append-nil (l.handled ++ ((r, c) ∷ []))) a,
    replies-settle (r, c) q l b y n,
    (λ m e. ground (arith, e)),
  )

  not_handling :
      (m : QueuedMessage) (l : Loop Value)
      → l.worker ≡ taken m
      → (n : QueuedMessage) → l.worker ≡ handling n
      → is_some (id_of n) ≡ true
      → answerable h n ≡ true
  not_handling m l w n e = ground (arith, w, e)

  handling-IsOrdered :
      (m : QueuedMessage) (s : Server) (l : Loop Value)
      → l.accepted ≡ l.handled ++ (m ∷ []) ++ l.queue
      → map replied l.replies ≡ map id_of (keep (answerable h) l.handled)
      → (is_some (id_of m) ≡ true → answerable h m ≡ true)
      → IsOrdered h (record l { server = s; worker = handling m })
  handling-IsOrdered (r, c) s l a b d = (a, b, (λ n e. ground (arith, e, d)))

  start-IsOrdered :
      (i : Option RpcId) (m : QueuedMessage) (l : Loop Value)
      → id_of m ≡ i
      → l.accepted ≡ l.handled ++ (m ∷ []) ++ l.queue
      → map replied l.replies ≡ map id_of (keep (answerable h) l.handled)
      → IsOrdered h (start h i m l)
  unfolding start start_request start_notification
  start-IsOrdered none (r, c) l e a b =
      if_both (IsOrdered h) (h.notifications r.method)
        (λ k. handling-IsOrdered (r, c) l.server l a b (ground (arith, e)))
        (λ k. settle-IsOrdered (r, c) no_reply l a b (ground (arith, e)) (λ z. refl))
  start-IsOrdered (some i) (r, c) l e a b =
      if_both (IsOrdered h) (h.requests r.method)
        (λ k.
          if_both (IsOrdered h) (is_cancelled c l.server)
            (λ z.
              settle-IsOrdered (r, c) (error request_cancelled "Request cancelled") l a b
                (λ y q. ground (arith, q)) (ground (arith, e, k)))
            (λ z. handling-IsOrdered (r, c) (mark_started c l.server) l a b (ground (arith, e, k))))
        (λ k. settle-IsOrdered (r, c) no_reply l a b (ground (arith, k)) (λ z. refl))

  finish-IsOrdered :
      (o : Outcome Value) (i : Option RpcId) (m : QueuedMessage) (l : Loop Value)
      → id_of m ≡ i
      → l.accepted ≡ l.handled ++ (m ∷ []) ++ l.queue
      → map replied l.replies ≡ map id_of (keep (answerable h) l.handled)
      → (is_some (id_of m) ≡ true → answerable h m ≡ true)
      → IsOrdered h (finish h o i m l)
  unfolding finish
  finish-IsOrdered o none (r, c) l e a b d =
      settle-IsOrdered (r, c) no_reply l a b (ground (arith, e)) (λ z. refl)
  finish-IsOrdered o (some i) (r, c) l e a b d =
      settle-IsOrdered (r, c) (conclude c (o, l.server)).0 l a b
        (λ y. conclude-answers c o l.server) (ground (arith, e, d))

  accepted_with :
      (v : Worker) (l : Loop Value)
      → l.worker ≡ v
      → l.accepted ≡ l.handled ++ in_hand l.worker ++ l.queue
      → l.accepted ≡ l.handled ++ in_hand v ++ l.queue
  accepted_with v l w a = subst (λ x. l.accepted ≡ l.handled ++ in_hand x ++ l.queue) w a

  take_message-IsOrdered :
      (ms : List QueuedMessage) (l : Loop Value)
      → l.worker ≡ idle
      → l.queue ≡ ms
      → IsOrdered h l
      → IsOrdered h (take_message h ms l)
  unfolding take_message
  take_message-IsOrdered [] l w e i = i
  take_message-IsOrdered (m ∷ ms) l w e (a, b, d) = (
    ground (
      arith,
      append-nil l.handled,
      append_assoc l.handled (m ∷ []) ms,
      e,
      accepted_with idle l w a,
    ),
    b,
    (λ n z. ground (arith, z)),
  )

  work-IsOrdered :
      (w : Worker) (o : Outcome Value) (l : Loop Value)
      → l.worker ≡ w
      → IsOrdered h l
      → IsOrdered h (work h w o l)
  unfolding work
  work-IsOrdered idle o l w i = take_message-IsOrdered l.queue l w refl i
  work-IsOrdered (taken (r, c)) o l w (a, b, d) =
      start-IsOrdered r.id (r, c) l refl (accepted_with (taken (r, c)) l w a) b
  work-IsOrdered (handling (r, c)) o l w (a, b, d) =
      finish-IsOrdered o r.id (r, c) l refl (accepted_with (handling (r, c)) l w a) b (d (r, c) w)

  enqueue-IsOrdered :
      (r : RpcRequest) (l : Loop Value) → IsOrdered h l → IsOrdered h (enqueue h r l)
  unfolding enqueue
  enqueue-IsOrdered r l (a, b, d) =
      let made = create_context h.cancellable r l.server in
      (
        ground (arith, a, append_assoc (l.handled ++ in_hand l.worker) l.queue ((r, made.0) ∷ [])),
        b,
        d,
      )

  handle_cancel-IsOrdered :
      (r : RpcRequest) (l : Loop Value) → IsOrdered h l → IsOrdered h (handle_cancel_request h r l)
  unfolding handle_cancel_request
  handle_cancel-IsOrdered r l i = i

  read_in-IsOrdered :
      (p : Phase) (r : RpcRequest) (l : Loop Value) → IsOrdered h l → IsOrdered h (read_in h p r l)
  unfolding read_in read_starting read_running read_shut_down refuse
  read_in-IsOrdered starting r l i =
      if_both (IsOrdered h) (str_eq r.method "initialize") (λ k. enqueue-IsOrdered r l i) (λ k. i)
  read_in-IsOrdered initializing r l i = i
  read_in-IsOrdered running r l i =
      if_both (IsOrdered h) (str_eq r.method "$/cancelRequest") (λ k. handle_cancel-IsOrdered r l i)
        (λ k.
          if_both (IsOrdered h) (str_eq r.method "shutdown") (λ z. enqueue-IsOrdered r l i)
            (λ z. enqueue-IsOrdered r l i))
  read_in-IsOrdered shut_down r l i =
      if_both (IsOrdered h) (str_eq r.method "exit") (λ k. i)
        (λ k.
          if_both (IsOrdered h) (str_eq r.method "$/cancelRequest")
            (λ z. handle_cancel-IsOrdered r l i) (λ z. i))
  read_in-IsOrdered finished r l i = i

  read_next-IsOrdered :
      (rs : List RpcRequest) (l : Loop Value) → IsOrdered h l → IsOrdered h (read_next h rs l)
  unfolding read_next
  read_next-IsOrdered [] l i = i
  read_next-IsOrdered (r ∷ rs) l i = read_in-IsOrdered l.phase r (record l { input = rs }) i

  leave-IsOrdered :
      (w : Worker) (q : List QueuedMessage) (l : Loop Value)
      → IsOrdered h l
      → IsOrdered h (leave_initializing h w q l)
  unfolding leave_initializing
  leave-IsOrdered idle [] l i = i
  leave-IsOrdered idle (m ∷ ms) l i = i
  leave-IsOrdered (taken m) q l i = i
  leave-IsOrdered (handling m) q l i = i

  read_at-IsOrdered : (p : Phase) (l : Loop Value) → IsOrdered h l → IsOrdered h (read_at h p l)
  unfolding read_at
  read_at-IsOrdered starting l i = read_next-IsOrdered l.input l i
  read_at-IsOrdered initializing l i = leave-IsOrdered l.worker l.queue l i
  read_at-IsOrdered running l i = read_next-IsOrdered l.input l i
  read_at-IsOrdered shut_down l i = read_next-IsOrdered l.input l i
  read_at-IsOrdered finished l i = i

  reader_step-IsOrdered : (l : Loop Value) → IsOrdered h l → IsOrdered h (reader_step h l)
  unfolding reader_step
  reader_step-IsOrdered l i = read_at-IsOrdered l.phase l i

  pub Step-IsOrdered : {a b : Loop Value} → Step h a b → IsOrdered h a → IsOrdered h b
  unfolding worker_step
  Step-IsOrdered (reads l) i = reader_step-IsOrdered l i
  Step-IsOrdered (works o l) i = work-IsOrdered l.worker o l refl i

  Reach-IsOrdered : {a b : Loop Value} → Reach h a b → IsOrdered h a → IsOrdered h b
  Reach-IsOrdered (here l) i = i
  Reach-IsOrdered (then_step r s) i = Step-IsOrdered s (Reach-IsOrdered r i)

  -- In every state that is reached from the start, in any interleaving of the two threads and with any
  -- outcomes of the handlers, the messages handled, the one in hand and the ones queued are the
  -- messages accepted, in this order; and the replies sent are, in order, one for each request for a
  -- known method among the messages handled, under its id.
  pub Reach-order :
      (input : List RpcRequest) (s : Server) (l : Loop Value)
      → Reach h (begin input s) l
      → (l.accepted ≡ l.handled ++ in_hand l.worker ++ l.queue)
        × (map replied l.replies ≡ map id_of (keep (answerable h) l.handled))
  Reach-order input s l r =
      let i = Reach-IsOrdered r (refl, refl, (λ m e. ground (arith, e))) in (i.0, i.1)
