-- ===== src/Threads/WithQueue.antt =====
-- project/basic/ThreadWithMsgQueue.cpp: a thread that reads messages from its queue until it is
-- told to stop. The mutex is held in each turn.
use wkc.Common.{
  ℕ, zero, suc, ◌+◌, ◌%◌, ◌^◌, ℤ, pos, negsuc, is_neg, Bool, true, false, ◌||◌, Option, none, some,
  List, ◌∷◌, ◌==◌, if◌then◌else◌,
}
use wkc.Message.{Mesg, blank}
use wkc.Queue
use wkc.Queue.{Mq}
use wkc.Queue.Transfer.{send, send_msg_to, receive, free_in}
use wkc.Queue.Life.{open_size, clear}
use wkc.Threads
use wkc.Threads.{start_thread, stop_thread}

-- MSG_ID_STOP_THREAD of project/basic/EnumDef.h
abbrev pub stop_id : ℕ
stop_id = 1

-- ERR_THREAD_QUEUE_NOT_INITIALIZED
abbrev pub err_not_initialized : ℤ
err_not_initialized = negsuc 1109

module _ (mq : Mq) where
  -- `ThreadWithMsgQueue` at the address `self`, with its queue at `queue`
  pub record Worker : Type 0 where
    pub self : ℕ
    pub queue : ℕ
    pub initialized : Bool
    pub processed : ℕ

  -- the queues and the threads
  pub record System : Type 0 where
    pub queues : Queue.World mq
    pub threads : Threads.World

module _ (mq : Mq) where
  -- Init(ps8MsgQueueName, lMsgQueueSize): `name` is the given name with the address behind it, and
  -- `flag` is O_CREAT | O_RDWR | O_NONBLOCK
  unfoldable pub init : Worker mq → ℕ → ℤ → System mq → ℤ × Worker mq × System mq
  unfolding open_size
  init t name size s =
      let (rc, q) = open_size mq t.queue false name (pos 2114) (pos 0) size s.queues in
      (rc, (if is_neg rc then t else record t { initialized = true }), record s { queues = q })

  -- SendMsg(pMsg)
  unfoldable pub send_msg : Worker mq → Mesg → System mq → ℤ × Mesg × System mq
  unfolding send
  send_msg t m s =
      if t.initialized
      then (let (rc, m', q) = send mq (s.queues.queues t.queue).fd false m 0 s.queues in
          (rc, m', record s { queues = q }))
      else (let (m', q) = free_in mq m s.queues in
          (
            (if m.msg_id == stop_id then pos 0 else err_not_initialized),
            m',
            record s { queues = q },
          ))

  -- StartThread(name)
  unfoldable pub start : Worker mq → Option ℕ → System mq → ℤ × System mq
  unfolding start_thread
  start t name s =
      if t.initialized
      then (pos 0, record s { threads = (start_thread t.self name s.threads).1 })
      else (err_not_initialized, s)

  -- StopThread(isWaiting): a message of stop_id first
  unfoldable pub stop : Worker mq → Bool → System mq → System mq
  unfolding stop_thread send_msg_to
  stop t is_waiting s =
      let s1 =
        if t.initialized
        then record s {
          queues = (send_msg_to mq t.queue (record blank { msg_id = stop_id }) 0 s.queues).2;
        }
        else s in
      record s1 { threads = stop_thread t.self is_waiting s1.threads }

  -- The variables of `LoopReadMsg`; `handled` has the messages given to `ProcessMsg`, the latest
  -- first.
  pub record Reader : Type 0 where
    pub msg : Mesg
    pub stop_requested : Bool
    pub processed : ℕ
    pub handled : List Mesg
    pub world : Queue.World mq

-- `process` is the `ProcessMsg` of a derived class; `asked` says whether another thread has asked
-- for the stop by the turn with so much fuel.
module _ (mq : Mq) (queue : ℕ) (process : Mesg → Queue.World mq → Mesg × Queue.World mq)
    (asked : ℕ → Bool) where
  -- one turn of the loop
  unfoldable pub turn : Bool → Reader mq → Reader mq
  unfolding receive
  turn is_polling r =
      let (rc, m, w) = receive mq queue false r.msg is_polling r.world in
      if is_neg rc
      then record r { msg = m; world = w }
      else (if m.msg_id == stop_id
          then record r { msg = m; world = w; stop_requested = true }
          else (let (m', w') = process m w in
              record r {
                msg = m';
                world = w';
                processed = (r.processed + 1) % 2 ^ 32;
                handled = m ∷ r.handled;
              }))

  -- LoopReadMsg(isPolling)
  unfoldable pub loop_read_msg : ℕ → Bool → Reader mq → Option (Reader mq)
  unfolding turn
  loop_read_msg zero is_polling r = none
  loop_read_msg (suc fuel) is_polling r =
      let rest = loop_read_msg fuel is_polling (turn is_polling r) in
      if r.stop_requested || asked fuel then some r else rest

  -- ThreadFunction(), with the fuel of its loop and that of `Clear`
  unfoldable pub thread_function : ℕ → ℕ → Reader mq → Option (Reader mq)
  unfolding loop_read_msg clear
  thread_function fuel more r = elim (loop_read_msg fuel true (record r { msg = blank })) [
    | none ↦ none
    | some r' ↦ elim (clear mq more queue r'.world) [
      | none ↦ none
      | some w ↦ some (record r' { world = w })
    ]
  ]
