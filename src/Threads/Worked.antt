-- ===== src/Threads/Worked.antt =====
-- `ThreadWithMsgQueue::ThreadFunction` on a queue that has messages up to one that stops it.
use wkc.Common.{
  ℕ, suc, ◌+◌, ◌%◌, ◌^◌, ◌<◌, ℤ, pos, is_neg, is_pos, length, ◌≡◌, refl, ap, ap₂, ◌∙◌, inl, inr,
  Bool, true, false, Option, some, List, [], ◌∷◌, ◌++◌, arith, ◌==◌, Option-cases,
}
use wkc.Message.{Mesg, blank}
use wkc.Queue.{Mq, MsgQueue, World, head, tail, update}
use wkc.Queue.Transfer.{receive, take_message, accept}
use wkc.Queue.Life.{clear}
use wkc.Queue.Conserved.{Reliable, dump-drains}
use wkc.Threads.WithQueue.{Reader, stop_id, turn, loop_read_msg, thread_function}

-- a queue that has messages gives one, and `select` says that it has some
abbrev pub Ready : Mq → Type 0
Ready mq =
    (fd : ℤ) (k : mq.Kernel) (x : Mesg)
    → head (mq.contents k fd) ≡ some x
    → (is_neg (mq.select fd k).0 ≡ false) × ((mq.select fd k).1 ≡ true)

-- what waits in the queue
abbrev pub waiting : (mq : Mq) → ℕ → World mq → List (ℕ × Mesg)
waiting mq self w = mq.contents w.kernel (w.queues self).fd

-- `ProcessMsg` neither reads from the queue nor gives it another descriptor.
abbrev pub LeavesAlone : (mq : Mq) → ℕ → (Mesg → World mq → Mesg × World mq) → Type 0
LeavesAlone mq self process =
    (m : Mesg) (w : World mq)
    → (waiting mq self (process m w).1 ≡ waiting mq self w)
      × (((process m w).1.queues self).fd ≡ (w.queues self).fd)

abbrev pub NoStop : List (ℕ × Mesg) → Type 0
NoStop [] = Unit
NoStop ((_, m) ∷ ms) = ((m.msg_id == stop_id) ≡ false) × NoStop ms

-- the messages, the latest first, on what was there
abbrev pub onto : List (ℕ × Mesg) → List Mesg → List Mesg
onto [] xs = xs
onto ((_, m) ∷ ms) xs = onto ms (m ∷ xs)

-- a turn for each message, and two more
abbrev pub turns : List (ℕ × Mesg) → ℕ → ℕ
turns [] more = suc (suc more)
turns (_ ∷ ms) more = suc (turns ms more)

module _ (mq : Mq) (self : ℕ) (sure : (fd : ℤ) → Reliable mq fd) (ready : Ready mq) where
  accept-queue :
      (x : Mesg) (w : World mq)
      → ((accept mq self x w).kernel ≡ w.kernel)
        × (((accept mq self x w).queues self).fd ≡ (w.queues self).fd)
  unfolding accept
  accept-queue x w = (ground arith, ground arith)

  -- the message at the head of the queue has come
  abbrev Got : Mesg → World mq → ℤ × Mesg × World mq → Type 0
  Got x w (rc, m, w') =
      (rc ≡ pos 0)
      × (m ≡ x)
      × (waiting mq self w' ≡ tail (waiting mq self w))
      × ((w'.queues self).fd ≡ (w.queues self).fd)

  take_message-Got :
      (m x : Mesg) (w : World mq)
      → head (waiting mq self w) ≡ some x
      → Got x w (take_message mq self m w)
  unfolding take_message
  take_message-Got m x w first = elim (Option-cases (mq.receive (w.queues self).fd w.kernel).0) [
    | inl nothing ↦ cc (first, ap head ((sure (w.queues self).fd).gives w.kernel nothing))
    | inr (y, got) ↦
        let (at_head, rest) = mq.received (w.queues self).fd w.kernel y got in
        let after = record w { kernel = (mq.receive (w.queues self).fd w.kernel).1 } in
        let (same, still) = accept-queue y after in
        rw (got, take_message) (refl, cc (first, at_head), ap₂ mq.contents same still ∙ rest, still)
  ]

  receive-Got :
      (m x : Mesg) (w : World mq)
      → is_pos (w.queues self).fd ≡ true
      → head (waiting mq self w) ≡ some x
      → Got x w (receive mq self false m true w)
  unfolding receive
  receive-Got m x w above first =
      let asked = update mq self (λ q. record q { not_in_use = false }) w in
      let still : (asked.queues self).fd ≡ (w.queues self).fd = ground arith in
      let same = ap (mq.contents w.kernel) still in
      let (no_error, is_set) = ready (w.queues self).fd w.kernel x first in
      let (ok, comes, rest, kept) = take_message-Got m x asked (ap head same ∙ first) in
      rw (above, no_error, is_set) (ok, comes, rest ∙ ap tail same, kept ∙ still)

  module _ (process : Mesg → World mq → Mesg × World mq) (quiet : LeavesAlone mq self process)
      (asked : ℕ → Bool) where
    turn-handles :
        (r : Reader mq) (x : Mesg)
        → is_pos (r.world.queues self).fd ≡ true
        → head (waiting mq self r.world) ≡ some x
        → (x.msg_id == stop_id) ≡ false
        → let r' = turn mq self process asked true r in
          (r'.stop_requested ≡ r.stop_requested)
          × (r'.handled ≡ x ∷ r.handled)
          × (r'.processed ≡ (r.processed + 1) % 2 ^ 32)
          × (waiting mq self r'.world ≡ tail (waiting mq self r.world))
          × ((r'.world.queues self).fd ≡ (r.world.queues self).fd)
    unfolding turn
    turn-handles r x above first other =
        let (ok, comes, rest, kept) = receive-Got r.msg x r.world above first in
        let after = (receive mq self false r.msg true r.world).2 in
        let (same, still) = quiet x after in
        rw (ok, comes, other) (refl, refl, refl, same ∙ rest, still ∙ kept)

    turn-stops :
        (r : Reader mq) (x : Mesg)
        → is_pos (r.world.queues self).fd ≡ true
        → head (waiting mq self r.world) ≡ some x
        → (x.msg_id == stop_id) ≡ true
        → let r' = turn mq self process asked true r in
          (r'.stop_requested ≡ true)
          × (r'.handled ≡ r.handled)
          × (r'.processed ≡ r.processed)
          × (waiting mq self r'.world ≡ tail (waiting mq self r.world))
          × ((r'.world.queues self).fd ≡ (r.world.queues self).fd)
    unfolding turn
    turn-stops r x above first stops =
        let (ok, comes, rest, kept) = receive-Got r.msg x r.world above first in
        rw (ok, comes, stops) (refl, refl, refl, rest, kept)

    -- The loop has ended: what it has handled, and what it has left.
    abbrev pub LoopDone :
        List (ℕ × Mesg) → List (ℕ × Mesg) → Reader mq → Option (Reader mq) → Type 0
    LoopDone ms rest r result =
        (r' : Reader mq) × (result ≡ some r')
        × (r'.handled ≡ onto ms r.handled)
        × (r'.processed ≡ (r.processed + length ms) % 2 ^ 32)
        × (waiting mq self r'.world ≡ rest)
        × ((r'.world.queues self).fd ≡ (r.world.queues self).fd)

    loop-turns :
        (fuel : ℕ) (r : Reader mq)
        → r.stop_requested ≡ false
        → asked fuel ≡ false
        → loop_read_msg mq self process asked (suc fuel) true r
          ≡ loop_read_msg mq self process asked fuel true (turn mq self process asked true r)
    unfolding loop_read_msg
    loop-turns fuel r runs unasked = ground arith

    loop-stops :
        (fuel : ℕ) (r : Reader mq)
        → r.stop_requested ≡ true
        → loop_read_msg mq self process asked (suc fuel) true r ≡ some r
    unfolding loop_read_msg
    loop-stops fuel r stopped = ground arith

    loop_read_msg-LoopDone :
        (unasked : (n : ℕ) → asked n ≡ false) (ms : List (ℕ × Mesg)) (q : ℕ) (s : Mesg)
        (rest : List (ℕ × Mesg)) (fuel : ℕ) (r : Reader mq)
        → r.stop_requested ≡ false
        → is_pos (r.world.queues self).fd ≡ true
        → r.processed < 2 ^ 32
        → (s.msg_id == stop_id) ≡ true
        → NoStop ms
        → waiting mq self r.world ≡ ms ++ ((q, s) ∷ rest)
        → LoopDone ms rest r (loop_read_msg mq self process asked (turns ms fuel) true r)
    loop_read_msg-LoopDone unasked [] q s rest fuel r runs above small stops none_stops holds =
        let next = turn mq self process asked true r in
        let (stopped, done, counted, left, kept) = turn-stops r s above (ap head holds) stops in
        (
          next,
          loop-turns (suc fuel) r runs (unasked (suc fuel)) ∙ loop-stops fuel next stopped,
          done,
          omega (arith, counted),
          left ∙ ap tail holds,
          kept,
        )
    loop_read_msg-LoopDone unasked ((p, x) ∷ ms) q s rest fuel r runs above small stops
          (other, others) holds =
        let next = turn mq self process asked true r in
        let (still, done, counted, left, kept) = turn-handles r x above (ap head holds) other in
        let (r', ends, handled, processed, remains, kept') =
          loop_read_msg-LoopDone unasked ms q s rest fuel next (still ∙ runs)
            (ap is_pos kept ∙ above) (omega (arith, counted)) stops others (left ∙ ap tail holds) in
        (
          r',
          loop-turns (turns ms fuel) r runs (unasked (turns ms fuel)) ∙ ends,
          handled ∙ ap (onto ms) done,
          omega (arith, counted, processed),
          remains,
          kept' ∙ kept,
        )

    -- If the queue has messages up to one that stops the thread, no other thread asks for the stop,
    -- a queue is opened with O_NONBLOCK and, if it has messages, is seen to have them and gives them,
    -- and `ProcessMsg` leaves the queue alone, then `ThreadFunction` ends: it has given `ProcessMsg` exactly the messages before
    -- the one that stops, in their order, it has counted them modulo 2 ^ 32, and the queue is empty.
    -- The fuel is two turns more than these messages, and one read more than what is behind.
    pub thread_function-LoopDone :
        (unasked : (n : ℕ) → asked n ≡ false) (ms : List (ℕ × Mesg)) (q : ℕ) (s : Mesg)
        (rest : List (ℕ × Mesg)) (fuel more : ℕ) (r : Reader mq)
        → r.stop_requested ≡ false
        → is_pos (r.world.queues self).fd ≡ true
        → r.processed < 2 ^ 32
        → (s.msg_id == stop_id) ≡ true
        → NoStop ms
        → waiting mq self r.world ≡ ms ++ ((q, s) ∷ rest)
        → length rest < more
        → LoopDone ms [] r (thread_function mq self process asked (turns ms fuel) more r)
    unfolding thread_function clear
    thread_function-LoopDone unasked ms q s rest fuel more r runs above small stops others holds
          enough =
        let (r', ends, handled, processed, remains, kept) =
          loop_read_msg-LoopDone unasked ms q s rest fuel (record r { msg = blank }) runs above
            small stops others holds in
        let (w, cleared, gone, _, same) =
          dump-drains mq 1 (omega arith) more (r'.world.queues self).fd r'.world
            (sure (r'.world.queues self).fd) (omega (arith, ap length remains)) in
        let still = ap (λ (f : ℕ → MsgQueue). (f self).fd) same in
        rw (ends, cleared, thread_function)
          (
            record r' { world = w },
            refl,
            handled,
            processed,
            ap (mq.contents w.kernel) still ∙ gone,
            still ∙ kept,
          )
