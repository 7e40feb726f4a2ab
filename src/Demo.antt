-- ===== src/Demo.antt =====
-- project/demo/demoipc.c: the commands of `main`, which start and stop samples of the event, the event
-- of readers and the semaphore, each with three threads, and use the event loop. What the calls
-- return is a parameter; the threads' own work is not followed.
pub mod Samples
pub mod Commands
mod Tests
use wkc.Common.{
  ℕ, zero, suc, ◌+◌, ◌%◌, ◌^◌, ℤ, pos, minus_one, is_neg, Bool, true, false, not, Option, none,
  some, List, [], ◌∷◌, ◌==◌, if◌then◌else◌,
}

pub data Kind : Type 0 where
  evt evt_rw sem : Kind

-- the calls out of the file: a handle or a thread is created with what stands there afterwards
pub data Call : Type 0 where
  create destroy spawn join : Kind → ℕ → Call
  epoll_start epoll_stop usage : Call
  timer_open timer_set timer_add timer_remove queue_open queue_add queue_remove : ℤ → Call
  mq_send : ℤ → ℕ → Call

abbrev pub Log : Type 0
Log = List Call

-- The handle after a `create`, given the one before, an id for a new thread, and the descriptors.
pub record Env : Type 0 where
  pub created : Kind → ℕ → Log → ℕ
  pub thread : Log → ℕ
  pub timer_fd : Log → ℤ
  pub queue_fd : Log → ℤ

-- the static variables of a sample: its handle, the flags of its threads, and their ids
pub record Sample : Type 0 where
  pub handle : ℕ
  pub run1 : Bool
  pub run2 : Bool
  pub run3 : Bool
  pub id1 : ℕ
  pub id2 : ℕ
  pub id3 : ℕ

abbrev pub no_sample : Sample
no_sample = record {
  handle = 0;
  run1 = false;
  run2 = false;
  run3 = false;
  id1 = 0;
  id2 = 0;
  id3 = 0;
}

pub record World : Type 0 where
  pub evt_sample : Sample
  pub rw_sample : Sample
  pub sem_sample : Sample
  pub fd1 : ℤ
  pub fd2 : ℤ
  pub cnt : ℕ
  pub log : Log

abbrev pub initial : World
initial = record {
  evt_sample = no_sample;
  rw_sample = no_sample;
  sem_sample = no_sample;
  fd1 = minus_one;
  fd2 = minus_one;
  cnt = 0;
  log = [];
}

module _ (env : Env) where
  -- `pthread_create` of the three threads, each after its flag
  unfoldable pub spawn_all : Kind → Sample × Log → Sample × Log
  spawn_all k (s, log) =
      let i1 = env.thread log in
      let log1 = spawn k i1 ∷ log in
      let i2 = env.thread log1 in
      let log2 = spawn k i2 ∷ log1 in
      let i3 = env.thread log2 in
      (
        record s { run1 = true; run2 = true; run3 = true; id1 = i1; id2 = i2; id3 = i3 },
        spawn k i3 ∷ log2,
      )

  -- what the three functions that start a sample share
  unfoldable pub start : Kind → Sample × Log → Sample × Log
  unfolding spawn_all
  start k (s, log) =
      let h = env.created k s.handle log in spawn_all k (record s { handle = h }, create k h ∷ log)

  -- sample_evt_start()
  unfoldable pub sample_evt_start : World → World
  unfolding start
  sample_evt_start w =
      let (s, log) = start evt (w.evt_sample, w.log) in record w { evt_sample = s; log = log }

  -- what `sample_evt_rw_start` and `sample_sem_start` share
  unfoldable pub start_once : Kind → Sample × Log → Sample × Log
  unfolding start
  start_once k (s, log) =
      let started = start k (s, log) in if not (s.handle == 0) then (s, log) else started

  -- sample_evt_rw_start()
  unfoldable pub sample_evt_rw_start : World → World
  unfolding start_once
  sample_evt_rw_start w =
      let (s, log) = start_once evt_rw (w.rw_sample, w.log) in record w { rw_sample = s; log = log }

  -- sample_sem_start()
  unfoldable pub sample_sem_start : World → World
  unfolding start_once
  sample_sem_start w =
      let (s, log) = start_once sem (w.sem_sample, w.log) in record w { sem_sample = s; log = log }

-- `pthread_join` of the three threads, after their flags, and the end of the handle
unfoldable pub join_all : Kind → Sample × Log → Sample × Log
join_all k (s, log) = (
  record s { run1 = false; run2 = false; run3 = false },
  destroy k s.handle ∷ join k s.id3 ∷ join k s.id2 ∷ join k s.id1 ∷ log,
)

-- sample_evt_stop()
unfoldable pub sample_evt_stop : World → World
unfolding join_all
sample_evt_stop w =
    let (s, log) = join_all evt (w.evt_sample, w.log) in record w { evt_sample = s; log = log }

-- what `sample_evt_rw_stop` and `sample_sem_stop` share
unfoldable pub stop_once : Kind → Sample × Log → Sample × Log
unfolding join_all
stop_once k (s, log) =
    let (s', log') = join_all k (s, log) in
    if s.handle == 0 then (s, log) else (record s' { handle = 0; id1 = 0; id2 = 0; id3 = 0 }, log')

-- sample_evt_rw_stop()
unfoldable pub sample_evt_rw_stop : World → World
unfolding stop_once
sample_evt_rw_stop w =
    let (s, log) = stop_once evt_rw (w.rw_sample, w.log) in record w { rw_sample = s; log = log }

-- sample_sem_stop()
unfoldable pub sample_sem_stop : World → World
unfolding stop_once
sample_sem_stop w =
    let (s, log) = stop_once sem (w.sem_sample, w.log) in record w { sem_sample = s; log = log }

-- printUsage()
unfoldable pub print_usage : World → World
print_usage w = record w { log = usage ∷ w.log }

module _ (env : Env) where
  -- sample_epoll_timer_start()
  unfoldable pub timer_start : World → World
  timer_start w =
      let fd = env.timer_fd w.log in
      let w1 =
        if is_neg w.fd1
        then record w { fd1 = fd; log = timer_open fd ∷ w.log }
        else record w { log = timer_set w.fd1 ∷ w.log } in
      record w1 { log = timer_add w1.fd1 ∷ w1.log }

  -- sample_epoll_timer_stop()
  unfoldable pub timer_stop : World → World
  timer_stop w = if is_neg w.fd1 then w else record w { log = timer_remove w.fd1 ∷ w.log }

  -- sample_epoll_queue_open()
  unfoldable pub open_queue : World → World
  open_queue w =
      let fd = env.queue_fd w.log in
      let w1 = record w { fd2 = fd; log = queue_open fd ∷ w.log } in
      if is_neg fd then w1 else record w1 { log = queue_add fd ∷ w1.log }

  -- sample_epoll_queue_close()
  unfoldable pub close_queue : World → World
  close_queue w = if is_neg w.fd2 then w else record w { log = queue_remove w.fd2 ∷ w.log }

  -- sample_epoll_queue_send()
  unfoldable pub send_queue : World → World
  send_queue w =
      if is_neg w.fd2
      then w
      else record w { cnt = (w.cnt + 1) % 2 ^ 32; log = mq_send w.fd2 w.cnt ∷ w.log }

  -- The `switch` of `main` at the first character of a line; none does anything for another one.
  unfoldable pub command : ℕ → World → World
  unfolding print_usage sample_evt_start sample_evt_stop sample_evt_rw_start sample_evt_rw_stop
      sample_sem_start sample_sem_stop timer_start timer_stop open_queue close_queue send_queue
  command c w =
      if c == b'?'
      then print_usage w
      else if c == b'1'
      then sample_evt_start env w
      else if c == b'2'
      then sample_evt_stop w
      else if c == b'3'
      then sample_sem_start env w
      else if c == b'4'
      then sample_sem_stop w
      else if c == b'5'
      then sample_evt_rw_start env w
      else if c == b'6'
      then sample_evt_rw_stop w
      else if c == b'7'
      then timer_start w
      else if c == b'8'
      then timer_stop w
      else if c == b'9'
      then open_queue w
      else if c == b'a'
      then close_queue w
      else if c == b'b'
      then send_queue w
      else w

  -- the loop of `main`, over the first characters of the lines: `none` when they run out
  unfoldable pub commands : List ℕ → World → Option World
  unfolding command
  commands [] w = none
  commands (c ∷ cs) w = let rest = commands cs (command c w) in if c == b'q' then some w else rest

  -- main()
  unfoldable pub main : List ℕ → Option World
  unfolding commands
  main lines = elim (commands lines (record initial { log = epoll_start ∷ usage ∷ [] })) [
    | none ↦ none
    | some w ↦ some (record w { log = epoll_stop ∷ w.log })
  ]
