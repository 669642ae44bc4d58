-- ===== src/Rpc/Loop/Phases.antt =====
-- The phases of the reader, and what it accepts in them.
use text.Mathlib.Text.{◌==◌ as str_eq}
use slang_server_extended.Base.{List, [], ◌∷◌, Bool, true, false, ◌≡◌, refl, arith, ◌∙◌}
use slang_server_extended.Rpc.Defs.{RpcRequest}
use slang_server_extended.Rpc.Loop.Defs.{
  Phase, starting, initializing, running, shut_down, finished, Loop, Routes, refuse,
  handle_cancel_request, read_shut_down, read_in, read_next, read_at, reader_step,
}
use slang_server_extended.Rpc.Loop.Runs.{Step, reads, works, Reach, here, then_step}
use slang_server_extended.Base.{if_both}
use slang_server_extended.Rpc.Loop.Drain.{worker_step-Onward}

abbrev pub is_closing : Phase → Bool
is_closing shut_down = true
is_closing finished = true
is_closing _ = false

module _ {ℓ} {Value : Type ℓ} (h : Routes) where
  abbrev StaysClosed : Loop Value → Loop Value → Type 0
  StaysClosed l k = (is_closing k.phase ≡ true) × (k.accepted ≡ l.accepted)

  read_in-StaysClosed :
      (p : Phase) (r : RpcRequest) (l : Loop Value)
      → l.phase ≡ p
      → is_closing p ≡ true
      → StaysClosed l (read_in h p r l)
  unfolding read_in read_shut_down refuse handle_cancel_request
  read_in-StaysClosed starting r l e c = ground (arith, c)
  read_in-StaysClosed initializing r l e c = ground (arith, c)
  read_in-StaysClosed running r l e c = ground (arith, c)
  read_in-StaysClosed shut_down r l e c =
      if_both (StaysClosed l) (str_eq r.method "exit") (λ k. (refl, refl))
        (λ k.
          if_both (StaysClosed l) (str_eq r.method "$/cancelRequest")
            (λ z. (ground (arith, e), refl)) (λ z. (ground (arith, e), refl)))
  read_in-StaysClosed finished r l e c = (ground (arith, e), refl)

  read_next-StaysClosed :
      (rs : List RpcRequest) (l : Loop Value)
      → is_closing l.phase ≡ true
      → StaysClosed l (read_next h rs l)
  unfolding read_next
  read_next-StaysClosed [] l c = (refl, refl)
  read_next-StaysClosed (r ∷ rs) l c =
      read_in-StaysClosed l.phase r (record l { input = rs }) refl c

  read_at-StaysClosed :
      (p : Phase) (l : Loop Value)
      → l.phase ≡ p
      → is_closing p ≡ true
      → StaysClosed l (read_at h p l)
  unfolding read_at
  read_at-StaysClosed starting l e c = ground (arith, c)
  read_at-StaysClosed initializing l e c = ground (arith, c)
  read_at-StaysClosed running l e c = ground (arith, c)
  read_at-StaysClosed shut_down l e c = read_next-StaysClosed l.input l (ground (arith, e))
  read_at-StaysClosed finished l e c = (ground (arith, e), refl)

  Step-StaysClosed : {a b : Loop Value} → Step h a b → is_closing a.phase ≡ true → StaysClosed a b
  unfolding reader_step
  Step-StaysClosed (reads l) c = read_at-StaysClosed l.phase l refl c
  Step-StaysClosed (works o l) c =
      (ground (arith, c, (worker_step-Onward h o l).0), (worker_step-Onward h o l).1)

  -- Once `shutdown` has been read, no message is accepted any more, in any interleaving of the two
  -- threads, and the reader never leaves the shutdown loop but for its end.
  pub Reach-is_closing :
      (a b : Loop Value)
      → Reach h a b
      → is_closing a.phase ≡ true
      → (is_closing b.phase ≡ true) × (b.accepted ≡ a.accepted)
  Reach-is_closing a _ (here _) c = (c, refl)
  Reach-is_closing a b (then_step r s) c =
      let before = Reach-is_closing a _ r c in
      let last = Step-StaysClosed s before.0 in (last.0, last.1 ∙ before.1)
