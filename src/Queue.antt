-- ===== src/Queue.antt =====
-- project/basic/MsgQueue.h and MsgQueue.cpp: a queue of messages over a POSIX message queue, and the
-- map from descriptors to queues that all of them share. The POSIX queues are a parameter.
pub mod Transfer
pub mod Life
pub mod Conserved
pub mod Registered
pub mod Tests
use wkc.Common.{
  ℕ, zero, suc, ◌+◌, ◌%◌, ◌^◌, ℤ, pos, negsuc, ◌+ℤ◌, minus_one, is_zero, is_neg, is_pos, eqb_ℤ, ltb,
  ◌≡◌, Bool, true, false, not, ◌&&◌, ◌||◌, Option, none, some, List, [], ◌∷◌, leb, ◌==◌,
  if◌then◌else◌, bit_and,
}
use wkc.Message.{Mesg, Heap, Env, blank, msg_data, msg_obj_ptr, free_msg}

-- A new message goes behind those of its priority and before those of lower ones.
abbrev pub insert_prio : ℕ → Mesg → List (ℕ × Mesg) → List (ℕ × Mesg)
insert_prio p m [] = (p, m) ∷ []
insert_prio p m ((q, x) ∷ ms) =
    if ltb q p then (p, m) ∷ (q, x) ∷ ms else (q, x) ∷ insert_prio p m ms

abbrev pub tail : List (ℕ × Mesg) → List (ℕ × Mesg)
tail [] = []
tail (_ ∷ ms) = ms

abbrev pub head : List (ℕ × Mesg) → Option Mesg
head [] = none
head ((_, m) ∷ ms) = some m

-- What the code relies on of mq_overview(7): `contents` is what a descriptor's queue holds, the
-- next message first, and `flags` what stands in `mq_flags` after `mq_getattr`, which may have
-- failed. A failed `send` or `receive` changes no queue. Where `waits` holds, `mq_receive` does not
-- return as long as no other thread sends: with O_NONBLOCK it never does, and without it does on an
-- empty queue.
pub record Mq : Type 1 where
  pub Kernel : Type 0
  pub contents : Kernel → ℤ → List (ℕ × Mesg)
  pub getrlimit : Kernel → ℤ
  pub setrlimit : Kernel → Kernel
  pub open_queue : ℕ → ℤ → ℤ → ℤ → Kernel → ℤ × Kernel
  pub close : ℤ → Kernel → ℤ × Kernel
  pub unlink : ℕ → Kernel → ℤ × Kernel
  pub send : ℤ → Mesg → ℕ → Kernel → ℤ × Kernel
  pub receive : ℤ → Kernel → Option Mesg × Kernel
  pub select : ℤ → Kernel → ℤ × Bool
  pub curmsgs : ℤ → Kernel → Option ℤ
  pub flags : ℤ → Kernel → ℕ
  pub waits : ℤ → Kernel → Bool
  pub sent :
      (fd : ℤ) (m : Mesg) (p : ℕ) (k : Kernel)
      → eqb_ℤ (send fd m p k).0 minus_one ≡ false
      → contents (send fd m p k).1 fd ≡ insert_prio p m (contents k fd)
  pub sent_other :
      (fd j : ℤ) (m : Mesg) (p : ℕ) (k : Kernel)
      → eqb_ℤ fd j ≡ false
      → contents (send fd m p k).1 j ≡ contents k j
  pub not_sent :
      (fd : ℤ) (m : Mesg) (p : ℕ) (k : Kernel)
      → eqb_ℤ (send fd m p k).0 minus_one ≡ true
      → contents (send fd m p k).1 fd ≡ contents k fd
  pub received :
      (fd : ℤ) (k : Kernel) (m : Mesg)
      → (receive fd k).0 ≡ some m
      → (head (contents k fd) ≡ some m) × (contents (receive fd k).1 fd ≡ tail (contents k fd))
  pub not_received :
      (fd : ℤ) (k : Kernel) → (receive fd k).0 ≡ none → contents (receive fd k).1 fd ≡ contents k fd
  pub non_blocking :
      (fd : ℤ) (k : Kernel) → (bit_and (flags fd k) 2048 == 0) ≡ false → waits fd k ≡ false
  pub blocking :
      (fd : ℤ) (k : Kernel)
      → (bit_and (flags fd k) 2048 == 0) ≡ true
      → contents k fd ≡ []
      → waits fd k ≡ true

-- `MsgQueue`, whose name is a number, 0 for the empty one; the set for `select` holds its own
-- descriptor only
pub record MsgQueue : Type 0 where
  pub fd : ℤ
  pub name : ℕ
  pub not_in_use : Bool
  pub queue_size : ℤ
  pub max_in_queue : ℤ
  pub last_msg_id : ℕ
  pub receive_cnt : ℕ
  pub send_cnt : ℕ

-- `x++` on `unsigned long`
abbrev pub inc_ul : ℕ → ℕ
inc_ul n = (n + 1) % 2 ^ 64

-- error codes of project/include/wm_error.h
abbrev pub err_close_failed : ℤ
err_close_failed = negsuc 1409

abbrev pub err_close_no_handle : ℤ
err_close_no_handle = negsuc 1410

abbrev pub err_getnr_failed : ℤ
err_getnr_failed = negsuc 1413

abbrev pub err_getnr_no_handle : ℤ
err_getnr_no_handle = negsuc 1414

abbrev pub err_name_unknown : ℤ
err_name_unknown = negsuc 1416

abbrev pub err_open_failed : ℤ
err_open_failed = negsuc 1417

abbrev pub err_receive_failed : ℤ
err_receive_failed = negsuc 1418

abbrev pub err_send_failed : ℤ
err_send_failed = negsuc 1420

abbrev pub err_unlink_failed : ℤ
err_unlink_failed = negsuc 1423

abbrev pub err_select_failed : ℤ
err_select_failed = negsuc 1424

abbrev pub err_ptr_is_null : ℤ
err_ptr_is_null = negsuc 1425

abbrev pub err_send_handle_is_null : ℤ
err_send_handle_is_null = negsuc 1426

abbrev pub err_not_our_queue : ℤ
err_not_our_queue = negsuc 1427

-- `gMap` as an association list: a later entry for a descriptor takes the place of an earlier one.
abbrev pub Map : Type 0
Map = List (ℤ × ℕ)

abbrev pub find : ℤ → Map → Option ℕ
find fd [] = none
find fd ((k, q) ∷ m) = if eqb_ℤ k fd then some q else find fd m

abbrev pub erase : ℤ → Map → Map
erase fd [] = []
erase fd ((k, q) ∷ m) = let rest = erase fd m in if eqb_ℤ k fd then rest else (k, q) ∷ rest

module _ (mq : Mq) where
  open mq use {Kernel}

  -- The queues stand at addresses; `map`, `received`, `sent` and
  -- `unlimited` are the static members.
  pub record World : Type 0 where
    pub kernel : Kernel
    pub heap : Heap
    pub queues : ℕ → MsgQueue
    pub map : Map
    pub received : ℕ
    pub sent : ℕ
    pub unlimited : Bool

module _ (mq : Mq) where
  open mq use {Kernel}

  abbrev pub update : ℕ → (MsgQueue → MsgQueue) → World mq → World mq
  update self f w = record w { queues = λ q. if q == self then f (w.queues q) else w.queues q }

  -- AddMsgQueue(fd, pclsMsgQueue)
  unfoldable pub add_msg_queue : ℤ → ℕ → World mq → World mq
  add_msg_queue fd self w = if self == 0 then w else record w { map = (fd, self) ∷ erase fd w.map }

  -- DelMsgQueue(fd, pclsMsgQueue)
  unfoldable pub del_msg_queue : ℤ → ℕ → World mq → World mq
  del_msg_queue fd self w = if self == 0 then w else record w { map = erase fd w.map }

  -- MsgQueuePtr(fd): NULL is 0
  unfoldable pub msg_queue_ptr : ℤ → World mq → ℕ
  msg_queue_ptr fd w = elim (find fd w.map) [ none ↦ 0 | some q ↦ q ]

  -- IsBlocking(fd), with O_NONBLOCK of Linux
  unfoldable pub is_blocking : ℤ → World mq → Bool
  is_blocking fd w = bit_and (mq.flags fd w.kernel) 2048 == 0

  -- MsgQueueName(fd): `none` for "Unknown"
  unfoldable pub msg_queue_name : ℤ → World mq → Option ℕ
  msg_queue_name fd w = elim (find fd w.map) [ none ↦ none | some q ↦ some (w.queues q).name ]
