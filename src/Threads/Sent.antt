-- ===== src/Threads/Sent.antt =====
-- `ThreadWithMsgQueue::SendMsg` and `StopThread`: what becomes of the message, and of the thread.
use wkc.Common.{
  ℕ, ◌<◌, ℤ, pos, is_pos, eqb_ℤ, minus_one, ◌≡◌, refl, ◌⊎◌, inl, inr, Bool, true, false, arith,
  ◌==◌, if◌then◌else◌, Bool-cases,
}
use wkc.Message.{Mesg, blank}
use wkc.Message.Owned.{holds, free_msg-Balanced}
use wkc.Queue.{Mq, World, insert_prio}
use wkc.Queue.Conserved.{Conserved, send-Conserved}
use wkc.Queue.Transfer.{send, send_msg, send_msg_to}
use wkc.Threads
use wkc.Threads.{stop_thread}
use wkc.Threads.WithQueue
use wkc.Threads.WithQueue.{Worker, System, err_not_initialized, stop_id}

module _ (mq : Mq) where
  -- the descriptor of the queue
  abbrev pub fd_of : Worker mq → System mq → ℤ
  fd_of t s = (s.queues.queues t.queue).fd

  -- `SendMsg`, whatever it returns, leaves the message with nothing: what it owned is in the queue,
  -- or given back. On a thread without its queue nothing is sent, and the answer is
  -- ERR_THREAD_QUEUE_NOT_INITIALIZED unless the message is the one that stops a thread.
  pub send_msg-Conserved :
      (p : ℕ) (live : 0 < p) (t : Worker mq) (m : Mesg) (s : System mq)
      → let (x, m', s') = WithQueue.send_msg mq t m s in
        Conserved mq p live (fd_of t s) m s.queues (m', s'.queues)
        × (holds p m' ≡ 0)
        × ((t.initialized ≡ true)
            ⊎ ((x ≡ (if m.msg_id == stop_id then pos 0 else err_not_initialized))
                × (s'.queues.kernel ≡ s.queues.kernel)))
  unfolding WithQueue.send_msg
  send_msg-Conserved p live t m s = elim (Bool-cases t.initialized) [
    | inl yes_queue ↦
        let (kept, empty) = send-Conserved mq p live (fd_of t s) m 0 s.queues in
        rw yes_queue (kept, empty, inl refl)
    | inr no_queue ↦
        let (even, empty) = free_msg-Balanced p live m s.queues.heap in
        rw no_queue (record { same = omega (arith, even, empty) }, empty, inr (refl, refl))
  ]

  send_msg_to-contents :
      (self : ℕ) (m : Mesg) (prio : ℕ) (w : World mq)
      → is_pos (w.queues self).fd ≡ true
      → let fd = (w.queues self).fd in
        mq.contents (send_msg_to mq self m prio w).2.kernel fd ≡ (
          if eqb_ℤ (mq.send fd m prio w.kernel).0 minus_one
          then mq.contents w.kernel fd
          else insert_prio prio m (mq.contents w.kernel fd))
  unfolding send_msg_to send_msg send
  send_msg_to-contents self m prio w above =
      let fd = (w.queues self).fd in
      ground (arith, above, mq.sent fd m prio w.kernel, mq.not_sent fd m prio w.kernel)

  stop_thread-stopped :
      (self : ℕ) (is_waiting : Bool) (w : Threads.World)
      → (w.threads self).joinable ≡ true
      → let w' = stop_thread self is_waiting w in
        ((w'.threads self).joinable ≡ false) × ((w'.threads self).stop_requested ≡ true)
  unfolding stop_thread
  stop_thread-stopped self is_waiting w runs = (ground arith, ground arith)

  -- `StopThread` of a thread with its queue that could be joined puts the message that stops a
  -- thread into the queue, behind those of its priority, unless the system refuses it; the
  -- thread cannot be joined any more, and has been told to stop.
  pub stop-Outcome :
      (t : Worker mq) (is_waiting : Bool) (s : System mq)
      → t.initialized ≡ true
      → is_pos (fd_of t s) ≡ true
      → (s.threads.threads t.self).joinable ≡ true
      → let s' = WithQueue.stop mq t is_waiting s in
        let stopper : Mesg = record blank { msg_id = stop_id } in
        (mq.contents s'.queues.kernel (fd_of t s) ≡ (
          if eqb_ℤ (mq.send (fd_of t s) stopper 0 s.queues.kernel).0 minus_one
          then mq.contents s.queues.kernel (fd_of t s)
          else insert_prio 0 stopper (mq.contents s.queues.kernel (fd_of t s))))
        × ((s'.threads.threads t.self).joinable ≡ false)
        × ((s'.threads.threads t.self).stop_requested ≡ true)
  unfolding WithQueue.stop
  stop-Outcome t is_waiting s ready above runs =
      let (over, told) = stop_thread-stopped t.self is_waiting s.threads runs in
      rw ready (
        send_msg_to-contents t.queue (record blank { msg_id = stop_id }) 0 s.queues above,
        over,
        told,
      )
