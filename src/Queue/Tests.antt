-- ===== src/Queue/Tests.antt =====
-- Message queues that never fill up, and the theorems at concrete queues.
use wkc.Common.{
  ap, bit_and, ◌==◌, ◌+◌, ℕ, ℤ, pos, minus_one, eqb_ℤ, length, ◌≡◌, refl, Bool, true, false, Option,
  none, some, List, [], ◌∷◌, arith, if◌then◌else◌,
}
use wkc.Message.{Mesg, Heap, blank}
use wkc.Message.Owned.{holds, Balanced}
use wkc.Queue.{Mq, World, insert_prio, head, tail}
use wkc.Queue.Transfer.{send, receive}
use wkc.Queue.Life.{unlink}
use wkc.Queue.Conserved.{
  stored, Conserved, Reliable, send-Conserved, receive-Conserved, unlink-Released, unlink-waits,
}
use wkc.Queue.Registered.{SendOutcome, send-Outcome}

abbrev pub Queues : Type 0
Queues = ℤ → List (ℕ × Mesg)

abbrev pub put : ℤ → List (ℕ × Mesg) → Queues → Queues
put fd ms k = λ j. if eqb_ℤ fd j then ms else k j

pub put_same : (fd : ℤ) (ms : List (ℕ × Mesg)) (k : Queues) → put fd ms k fd ≡ ms
put_same fd ms k = ground arith

abbrev pub take_first : ℤ → Queues → List (ℕ × Mesg) → Option Mesg × Queues
take_first fd k [] = (none, k)
take_first fd k ((p, m) ∷ ms) = (some m, put fd ms k)

pub take_first-received :
    (fd : ℤ) (k : Queues) (ms : List (ℕ × Mesg)) (m : Mesg)
    → (take_first fd k ms).0 ≡ some m
    → (head ms ≡ some m) × ((take_first fd k ms).1 fd ≡ tail ms)
take_first-received fd k [] m h = cc h
take_first-received fd k ((p, x) ∷ ms) m h = (h, put_same fd ms k)

pub take_first-not_received :
    (fd : ℤ) (k : Queues) (ms : List (ℕ × Mesg))
    → (take_first fd k ms).0 ≡ none
    → (take_first fd k ms).1 fd ≡ k fd
take_first-not_received fd k [] h = refl
take_first-not_received fd k ((p, x) ∷ ms) h = cc h

pub put-sent_other :
    (fd j : ℤ) (ms : List (ℕ × Mesg)) (k : Queues) → eqb_ℤ fd j ≡ false → put fd ms k j ≡ k j
put-sent_other fd j ms k h = ground arith

pub never_failed : (xs ys : List (ℕ × Mesg)) → eqb_ℤ (pos 0) minus_one ≡ true → xs ≡ ys
never_failed xs ys h = cc h

abbrev pub is_ready : List (ℕ × Mesg) → ℤ × Bool
is_ready [] = (pos 0, false)
is_ready (_ ∷ _) = (pos 1, true)

pub non_blocking_flags : (bit_and 2048 2048 == 0) ≡ true → false ≡ true
non_blocking_flags h = cc h

no_flags : {b c : Bool} → (bit_and 0 2048 == 0) ≡ false → b ≡ c
no_flags h = cc h

abbrev is_empty : List (ℕ × Mesg) → Bool
is_empty [] = true
is_empty (x ∷ ms) = false

abbrev pub system : Mq
system = record {
  Kernel = Queues;
  contents = λ k. k;
  getrlimit = λ k. pos 0;
  setrlimit = λ k. k;
  open_queue = λ name flag mode maxmsg k. (pos 5, put (pos 5) [] k);
  close = λ fd k. (pos 0, k);
  unlink = λ name k. (pos 0, k);
  send = λ fd m p k. (pos 0, put fd (insert_prio p m (k fd)) k);
  receive = λ fd k. take_first fd k (k fd);
  select = λ fd k. is_ready (k fd);
  curmsgs = λ fd k. some (pos (length (k fd)));
  flags = λ fd k. 2048;
  waits = λ fd k. false;
  sent = λ fd m p k h. put_same fd (insert_prio p m (k fd)) k;
  sent_other = λ fd j m p k h. put-sent_other fd j (insert_prio p m (k fd)) k h;
  not_sent = λ fd m p k h. never_failed (put fd (insert_prio p m (k fd)) k fd) (k fd) h;
  received = λ fd k m h. take_first-received fd k (k fd) m h;
  not_received = λ fd k h. take_first-not_received fd k (k fd) h;
  non_blocking = λ fd k h. refl;
  blocking = λ fd k h e. non_blocking_flags h;
}

abbrev pub letter : Mesg
letter = record blank { msg_id = 7; ptr = 100; size = pos 4 }

abbrev pub parcel : Mesg
parcel = record blank { msg_id = 8; obj = 200 }

abbrev pub no_bytes : Heap
no_bytes = record { bytes = λ q. []; log = [] }

-- a queue at the address 300 with the descriptor 5
abbrev pub with_queue : List (ℕ × Mesg) → World system
with_queue ms = record {
  kernel = put (pos 5) ms (λ fd. []);
  heap = no_bytes;
  queues = λ q. record {
    fd = pos 5;
    name = 9;
    not_in_use = true;
    queue_size = pos 10;
    max_in_queue = pos 0;
    last_msg_id = 0;
    receive_cnt = 0;
    send_cnt = 0;
  };
  map = (pos 5, 300) ∷ [];
  received = 0;
  sent = 0;
  unlimited = true;
}

gives_first : (fd : ℤ) (k : Queues) (ms : List (ℕ × Mesg)) → (take_first fd k ms).0 ≡ none → ms ≡ []
gives_first fd k [] h = refl
gives_first fd k ((p, m) ∷ ms) h = cc h

pub system-Reliable : (fd : ℤ) → Reliable system fd
system-Reliable fd = record { non_blocking = λ k. refl; gives = λ k h. gives_first fd k (k fd) h }

send-Conserved_example :
    let w = with_queue [] in
    let (x, m', w') = send system (pos 5) false letter 2 w in
    Conserved system 100 (omega arith) (pos 5) letter w (m', w') × (holds 100 m' ≡ 0)
send-Conserved_example = send-Conserved system 100 (omega arith) (pos 5) letter 2 (with_queue [])

receive-Conserved_example :
    let w = with_queue ((1, letter) ∷ (0, parcel) ∷ []) in
    let (x, m', w') = receive system 300 false blank true w in
    Balanced 100 w.heap
      (holds 100 blank + stored 100 (w.kernel (pos 5)))
      w'.heap
      (holds 100 m' + stored 100 (w'.kernel (pos 5)))
receive-Conserved_example =
    receive-Conserved system 100 (omega arith) 300 false blank true
      (with_queue ((1, letter) ∷ (0, parcel) ∷ [])) refl

unlink-Released_example :
    let w = with_queue ((1, letter) ∷ (0, parcel) ∷ []) in
    (result : ℤ × World system) × (unlink system 3 300 w ≡ some result)
    × Balanced 100 w.heap (stored 100 ((1, letter) ∷ (0, parcel) ∷ [])) result.1.heap 0
unlink-Released_example =
    unlink-Released system 100 (omega arith) 3 300 (with_queue ((1, letter) ∷ (0, parcel) ∷ []))
      refl (system-Reliable (pos 5)) (omega arith)

send-Outcome_example :
    let w = with_queue ((1, letter) ∷ (0, parcel) ∷ []) in
    SendOutcome system (pos 5) parcel 1 w (send system (pos 5) false parcel 1 w)
send-Outcome_example =
    send-Outcome system (pos 5) parcel 1 (with_queue ((1, letter) ∷ (0, parcel) ∷ [])) refl

-- The same queues, opened without O_NONBLOCK.
abbrev blocking_system : Mq
blocking_system = record {
  Kernel = Queues;
  contents = λ k. k;
  getrlimit = λ k. pos 0;
  setrlimit = λ k. k;
  open_queue = λ name flag mode maxmsg k. (pos 5, put (pos 5) [] k);
  close = λ fd k. (pos 0, k);
  unlink = λ name k. (pos 0, k);
  send = λ fd m p k. (pos 0, put fd (insert_prio p m (k fd)) k);
  receive = λ fd k. take_first fd k (k fd);
  select = λ fd k. is_ready (k fd);
  curmsgs = λ fd k. some (pos (length (k fd)));
  flags = λ fd k. 0;
  waits = λ fd k. is_empty (k fd);
  sent = λ fd m p k h. put_same fd (insert_prio p m (k fd)) k;
  sent_other = λ fd j m p k h. put-sent_other fd j (insert_prio p m (k fd)) k h;
  not_sent = λ fd m p k h. never_failed (put fd (insert_prio p m (k fd)) k fd) (k fd) h;
  received = λ fd k m h. take_first-received fd k (k fd) m h;
  not_received = λ fd k h. take_first-not_received fd k (k fd) h;
  non_blocking = λ fd k h. no_flags h;
  blocking = λ fd k h e. ap is_empty e;
}

-- an empty queue at the address 300 with the descriptor 5
abbrev empty_queue : World blocking_system
empty_queue = record {
  heap = no_bytes;
  queues = (with_queue []).queues;
  map = (with_queue []).map;
  kernel = λ j. [];
  sent = (with_queue []).sent;
  received = (with_queue []).received;
  unlimited = true;
}

unlink-waits_example : unlink blocking_system 9 300 empty_queue ≡ none
unlink-waits_example = unlink-waits blocking_system 9 300 empty_queue refl refl refl
