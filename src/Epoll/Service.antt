-- ===== src/Epoll/Service.antt =====
-- `wm_epoll_start`, `wm_epoll_stop`, `wm_epoll_handle` and `ep_thread` of project/ipc/wm_epoll.c: the
-- one event loop of the program, with the thread that runs it. A step goes from one call that
-- waits to the next. `epoll_wait` ends when a descriptor is ready: the timer of the loop, once it is
-- set, or another one that the caller watches. The functions are called by one thread at a time, and the calls on the event, whose
-- codes the functions do not look at, succeed: what the event does is in Event.
use wkc.Common.{
  ℕ, ℤ, pos, minus_one, is_neg, Bool, true, false, not, ◌||◌, Option, none, some, List, [], ◌∷◌,
  if◌then◌else◌,
}

-- where the caller is: outside, in `evt_mtx_wait` of `wm_epoll_start`, or in `pthread_join` of `wm_epoll_stop`
pub data Caller : Type 0 where
  ready starting stopping : Caller

-- where `ep_thread` is: not made, before its signal, in its loop, or at its end
pub data Looper : Type 0 where
  absent setting_up looping ended : Looper

-- `wm_ins_t`, with the state of the event that the thread signals, and the two threads
pub record Service : Type 0 where
  pub loop : Bool
  pub thr_id : ℕ
  pub handle : ℕ
  pub idle_fd : ℤ
  pub evt_handle : ℕ
  pub signalled : Bool
  pub caller : Caller
  pub looper : Looper
  -- what the timer `idle_fd` is set to in milliseconds, the delay and the interval
  pub timer : Option (ℕ × ℕ)

-- gstIns at the start of the program, and after `memset`
abbrev pub zeroed : Service
zeroed = record {
  loop = false;
  thr_id = 0;
  handle = 0;
  idle_fd = pos 0;
  evt_handle = 0;
  signalled = false;
  caller = ready;
  looper = absent;
  timer = none;
}

-- What may happen next, with what the calls write: the handle of the event and the id of the
-- thread, the handle of the loop and the descriptor of its timer, and whether a descriptor other
-- than the timer is ready.
pub data Move : Type 0 where
  call_start : ℕ → ℕ → Move
  call_stop : Move
  caller_resumes : Move
  looper_goes : ℕ → ℤ → Bool → Move

-- wm_epoll_timer_set(idle_fd, delay, interval), and of a timer not opened
abbrev pub set_idle : ℕ → ℕ → ℤ → Option (ℕ × ℕ) → Option (ℕ × ℕ)
set_idle delay interval idle_fd before = if is_neg idle_fd then before else some (delay, interval)

-- the timer ends `epoll_wait` in some time
abbrev pub is_armed : Option (ℕ × ℕ) → Bool
is_armed none = false
is_armed (some (delay, interval)) = true

-- wm_epoll_start(), up to its wait
unfoldable pub begin_start : ℕ → ℕ → Service → Service
begin_start event thread s = if s.loop then s else record s {
  loop = true;
  evt_handle = event;
  signalled = false;
  thr_id = thread;
  looper = setting_up;
  caller = starting;
}

-- wm_epoll_stop(), up to its join
unfoldable pub begin_stop : Service → Service
begin_stop s =
    if not s.loop
    then s
    else record s { loop = false; timer = set_idle 10 10 s.idle_fd s.timer; caller = stopping }

-- the wait of the caller ends: `none` while it cannot
unfoldable pub resume : Service → Option Service
resume s = elim s.caller [
  | ready ↦ none
  | starting ↦ if s.signalled then some (record s { signalled = false; caller = ready }) else none
  | stopping ↦ elim s.looper [
    | absent ↦ none
    | setting_up ↦ none
    | looping ↦ none
    | ended ↦ some zeroed
  ]
]

-- ep_thread: to its signal, once around its loop, or out of it; `none` while it is in `epoll_wait`
unfoldable pub ep_thread : ℕ → ℤ → Bool → Service → Option Service
ep_thread handle idle_fd is_ready s = elim s.looper [
  | absent ↦ none
  | setting_up ↦ some (record s {
    handle = handle;
    idle_fd = idle_fd;
    timer = set_idle 100 3000 idle_fd none;
    signalled = true;
    looper = looping;
  })
  | looping ↦
      if is_armed s.timer || is_ready
      then some (if s.loop then s else record s { looper = ended })
      else none
  | ended ↦ none
]

unfoldable pub step : Move → Service → Option Service
unfolding begin_start begin_stop resume ep_thread
step (call_start event thread) s = elim s.caller [
  | ready ↦ some (begin_start event thread s)
  | starting ↦ none
  | stopping ↦ none
]
step call_stop s = elim s.caller [ ready ↦ some (begin_stop s) | starting ↦ none | stopping ↦ none ]
step caller_resumes s = resume s
step (looper_goes handle idle_fd is_ready) s = ep_thread handle idle_fd is_ready s

unfoldable pub run : List Move → Service → Option Service
unfolding step
run [] s = some s
run (mv ∷ moves) s = elim (step mv s) [ none ↦ none | some s' ↦ run moves s' ]

-- wm_epoll_handle(phandle): the code, and what is written
unfoldable pub epoll_handle : Bool → Service → ℤ × Option ℕ
epoll_handle has_pointer s =
    if not has_pointer || not s.loop then (minus_one, none) else (pos 0, some s.handle)
