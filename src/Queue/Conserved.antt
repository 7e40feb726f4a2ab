-- ===== src/Queue/Conserved.antt =====
-- What messages own, through `Send`, `Receive`, `DumpMsgQueue` and `Unlink` of
-- project/basic/MsgQueue.cpp.
use wkc.Common.{
  bit_and, true, ℕ, zero, suc, ◌+◌, ◌<◌, ℤ, length, ◌≡◌, refl, sym, ap, ◌∙◌, inl, inr, Bool, false,
  none, some, List, [], ◌∷◌, arith, ◌==◌, Option-cases,
}
use mathlib.Core.Path.{subst}
use wkc.Message.{Mesg, Heap}
use wkc.Message.Owned.{holds, Balanced, free_msg-Balanced}
use wkc.Queue.{Mq, World, insert_prio, head, tail, update}
use wkc.Queue.Transfer.{send, receive, take_message, accept, free_in}
use wkc.Queue.Life.{dump_msg_queue, clear, close, unlink, unlink_cleared}

-- how often the messages of a queue hold the address
abbrev pub stored : ℕ → List (ℕ × Mesg) → ℕ
stored p [] = 0
stored p ((_, m) ∷ ms) = holds p m + stored p ms

stored-insert_prio :
    (p q : ℕ) (m : Mesg) (ms : List (ℕ × Mesg))
    → stored p (insert_prio q m ms) ≡ holds p m + stored p ms
stored-insert_prio p q m [] = refl
stored-insert_prio p q m ((r, x) ∷ ms) = ground (arith, stored-insert_prio p q m ms)

stored-tail :
    (p : ℕ) (m : Mesg) (ms : List (ℕ × Mesg))
    → head ms ≡ some m
    → stored p ms ≡ holds p m + stored p (tail ms)
stored-tail p m [] e = cc e
stored-tail p m ((r, x) ∷ ms) e = ground arith

module _ (mq : Mq) (p : ℕ) (live : 0 < p) where
  open mq use {contents}

  -- The caller and the queue of `fd` hold as much less as is given back.
  abbrev pub Conserved : ℤ → Mesg → World mq → Mesg × World mq → Type 0
  Conserved fd m w (m', w') =
      Balanced p w.heap (holds p m + stored p (contents w.kernel fd)) w'.heap
        (holds p m' + stored p (contents w'.kernel fd))

  -- After `Send` of a message, whatever it returns, the message owns nothing; what it owned is in
  -- the queue, or given back.
  pub send-Conserved :
      (fd : ℤ) (m : Mesg) (prio : ℕ) (w : World mq)
      → let (x, m', w') = send mq fd false m prio w in Conserved fd m w (m', w') × (holds p m' ≡ 0)
  unfolding send
  send-Conserved fd m prio w = ground (
    arith,
    mq.sent fd m prio w.kernel,
    mq.not_sent fd m prio w.kernel,
    free_msg-Balanced p live m w.heap,
    stored-insert_prio p prio m (contents w.kernel fd),
  )

  accept-Conserved :
      (self : ℕ) (fd : ℤ) (x : Mesg) (h : Heap) (before : ℕ) (w : World mq)
      → Balanced p h before w.heap (holds p x + stored p (contents w.kernel fd))
      → Balanced p h before
          (accept mq self x w).heap
          (holds p x + stored p (contents (accept mq self x w).kernel fd))
  unfolding accept
  accept-Conserved self fd x h before w even = ground arith

  take_message-Conserved :
      (self : ℕ) (m : Mesg) (w : World mq)
      → holds p m ≡ 0
      → let (x, m', w') = take_message mq self m w in Conserved (w.queues self).fd m w (m', w')
  unfolding take_message
  take_message-Conserved self m w empty =
      elim (Option-cases (mq.receive (w.queues self).fd w.kernel).0) [
        | inl nothing ↦
            rw (nothing, take_message)
              (record { same = omega (arith, ap (stored p) (mq.not_received _ w.kernel nothing)) })
        | inr (x, got) ↦
            let (first, rest) = mq.received _ w.kernel x got in
            rw (got, take_message)
              (accept-Conserved self (w.queues self).fd x w.heap
                (holds p m + stored p (contents w.kernel (w.queues self).fd))
                (record w { kernel = (mq.receive (w.queues self).fd w.kernel).1 })
                (record {
                  same = omega (arith, empty, ap (stored p) rest, stored-tail p x _ first);
                }))
      ]

  -- `Receive` into a message that owns nothing, whatever it returns and whatever is asked for,
  -- moves what it takes from the queue to the message, and gives nothing back.
  pub receive-Conserved :
      (self : ℕ) (null : Bool) (m : Mesg) (is_polling : Bool) (w : World mq)
      → holds p m ≡ 0
      → let (x, m', w') = receive mq self null m is_polling w in
        let fd = (w.queues self).fd in
        Balanced p w.heap
          (holds p m + stored p (contents w.kernel fd))
          w'.heap
          (holds p m' + stored p (contents w'.kernel fd))
  unfolding receive
  receive-Conserved self null m is_polling w empty = ground (
    arith,
    take_message-Conserved self m (update mq self (λ q. record q { not_in_use = false }) w) empty,
  )

-- A queue that is opened with O_NONBLOCK and, if it has messages, gives one.
pub record Reliable (mq : Mq) (fd : ℤ) : Type 0 where
  pub non_blocking : (k : mq.Kernel) → (bit_and (mq.flags fd k) 2048 == 0) ≡ false
  pub gives : (k : mq.Kernel) → (mq.receive fd k).0 ≡ none → mq.contents k fd ≡ []

length-tail :
    (m : Mesg) (ms : List (ℕ × Mesg)) → head ms ≡ some m → length ms ≡ suc (length (tail ms))
length-tail m [] e = cc e
length-tail m (x ∷ ms) e = refl

module _ (mq : Mq) (p : ℕ) (live : 0 < p) where
  open mq use {contents}

  -- With more fuel than the queue has messages, and if the queue has O_NONBLOCK and always gives a
  -- message where it has one,
  -- `DumpMsgQueue` ends with an empty queue and has given back all that its messages owned.
  pub dump-drains :
      (fuel : ℕ) (fd : ℤ) (w : World mq)
      → Reliable mq fd
      → length (contents w.kernel fd) < fuel
      → (w' : World mq) × (dump_msg_queue mq fuel fd w ≡ some w')
        × (contents w'.kernel fd ≡ [])
        × Balanced p w.heap (stored p (contents w.kernel fd)) w'.heap 0
        × (w'.queues ≡ w.queues)
  unfolding dump_msg_queue
  dump-drains zero fd w sure h = absurd (omega arith)
  dump-drains (suc fuel) fd w sure h = elim (Option-cases (mq.receive fd w.kernel).0) [
    | inl nothing ↦
        let gone = sure.gives w.kernel nothing in
        rw (mq.non_blocking fd w.kernel (sure.non_blocking w.kernel), nothing, dump_msg_queue)
          (
            record w { kernel = (mq.receive fd w.kernel).1 },
            refl,
            mq.not_received fd w.kernel nothing ∙ gone,
            record { same = omega (arith, ap (stored p) gone) },
            refl,
          )
    | inr (m, got) ↦
        let (first, rest) = mq.received fd w.kernel m got in
        let after = (free_in mq m (record w { kernel = (mq.receive fd w.kernel).1 })).1 in
        let (w', ends, gone, even, same) =
          dump-drains fuel fd after sure
            (omega (arith, ap length rest, length-tail m (contents w.kernel fd) first)) in
        rw (mq.non_blocking fd w.kernel (sure.non_blocking w.kernel), got, dump_msg_queue)
          (
            w',
            ends,
            gone,
            record {
              same = omega (
                arith,
                even,
                (free_msg-Balanced p live m w.heap).0,
                ap (stored p) rest,
                stored-tail p m (contents w.kernel fd) first,
              );
            },
            same,
          )
  ]

  unlink_cleared-heap : (self : ℕ) (w : World mq) → (unlink_cleared mq self w).1.heap ≡ w.heap
  unfolding unlink_cleared close
  unlink_cleared-heap self w = ground arith

  -- `Unlink` of a queue with a name, which is opened with O_NONBLOCK and gives a message if it has one,
  -- returns with more fuel than the queue has messages: all that they owned has been given back.
  pub unlink-Released :
      (fuel self : ℕ) (w : World mq)
      → ((w.queues self).name == 0) ≡ false
      → Reliable mq (w.queues self).fd
      → length (contents w.kernel (w.queues self).fd) < fuel
      → (result : ℤ × World mq) × (unlink mq fuel self w ≡ some result)
        × Balanced p w.heap (stored p (contents w.kernel (w.queues self).fd)) result.1.heap 0
  unfolding unlink clear
  unlink-Released fuel self w named sure enough =
      let (w', ends, gone, even, same) = dump-drains fuel (w.queues self).fd w sure enough in
      rw (named, ends, unlink)
        (
          unlink_cleared mq self w',
          refl,
          subst (λ h. Balanced p w.heap (stored p (contents w.kernel (w.queues self).fd)) h 0)
              (sym (unlink_cleared-heap self w')) even,
        )

pub unlink-waits :
    (mq : Mq) (fuel self : ℕ) (w : World mq)
    → ((w.queues self).name == 0) ≡ false
    → (bit_and (mq.flags (w.queues self).fd w.kernel) 2048 == 0) ≡ true
    → mq.contents w.kernel (w.queues self).fd ≡ []
    → unlink mq fuel self w ≡ none
unfolding unlink clear dump_msg_queue
unlink-waits mq zero self w named plain empty = rw (named, unlink) refl
unlink-waits mq (suc fuel) self w named plain empty =
    rw (named, mq.blocking (w.queues self).fd w.kernel plain empty, unlink) refl
