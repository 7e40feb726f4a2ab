-- ===== src/Epoll.antt =====
-- project/ipc/wm_epoll.c: a set of file descriptors to watch, each with its callbacks. The list is
-- the one of project/utils/list.h, which is a parameter; an event's address is a number, and 0 is
-- NULL, for a callback too. The exit callbacks leave the list alone; the event callbacks may
-- change it.
pub mod Registry
pub mod Added
pub mod Handles
mod Tests
pub mod Dispatch
pub mod Timer
pub mod Service
pub mod Served
pub mod Queue
use wkc.Common.{
  ℕ, zero, suc, ◌+◌, ℤ, pos, minus_one, is_zero, is_neg, eqb_ℤ, ◌≡◌, Bool, true, false, not, ◌||◌,
  Option, none, some, List, [], ◌∷◌, ◌==◌, if◌then◌else◌,
}

-- `wm_event_t` at the address `self`
pub record Event : Type 0 where
  pub self : ℕ
  pub fd : ℤ
  pub pfn_event : ℕ
  pub parg1 : ℕ
  pub pfn_exit : ℕ
  pub parg2 : ℕ

-- the list without its first node at an address
abbrev pub drop_node : ℕ → List Event → List Event
drop_node p [] = []
drop_node p (e ∷ es) = if e.self == p then es else e ∷ drop_node p es

-- the event at an address, if it is still on the list
abbrev pub node_at : ℕ → List Event → Option Event
node_at p [] = none
node_at p (e ∷ es) = if e.self == p then some e else node_at p es

-- `count` as the bound of the loop `for (i = 0; i < count; i++)`
abbrev pub count_of : ℤ → ℕ
count_of (pos n) = n
count_of _ = 0

-- What the code relies on of list.h: `entries` is the order in which `list_for_each_entry` visits.
pub record EventList : Type 1 where
  pub Head : Type 0
  pub init_list_head : Head
  pub list_add : Event → Head → Head
  pub list_del : ℕ → Head → Head
  pub entries : Head → List Event
  pub entries-init : entries init_list_head ≡ []
  pub entries-add : (e : Event) (h : Head) → entries (list_add e h) ≡ e ∷ entries h
  pub entries-del : (p : ℕ) (h : Head) → entries (list_del p h) ≡ drop_node p (entries h)

-- `struct itimerspec`, in seconds and nanoseconds
pub record Itimerspec : Type 0 where
  pub interval_sec : ℤ
  pub interval_nsec : ℤ
  pub value_sec : ℤ
  pub value_nsec : ℤ

-- The calls out of the file, those of the callbacks among them.
pub data Call : Type 0 where
  calloc epoll_create epoll_wait : Call
  free : ℕ → Call
  ctl_add ctl_mod : ℤ → ℕ → ℕ → Call
  ctl_del close : ℤ → Call
  callback : ℕ → ℤ → ℕ → Call
  timerfd_create : Call
  timerfd_settime : ℤ → Itimerspec → Call
  signalfd sigprocmask : ℤ → Call
  getrlimit setrlimit : Call
  mq_unlink : ℕ → Call
  mq_open : ℕ → ℤ → ℤ → ℤ → ℤ → Call

-- The latest call first, each with its code; `calloc` returns its address.
abbrev pub Log : Type 0
Log = List (Call × ℤ)

-- EEXIST of Linux
abbrev pub eexist : ℤ
eexist = pos 17

module _ (l : EventList) where
  open l use {Head}

  -- What the calls return, the address that `calloc` gives, `errno`, the pointers that
  -- `epoll_wait` stores, and the list that an event callback leaves.
  pub record Env : Type 0 where
    pub answer : Log → Call → ℤ
    pub address : Log → ℕ
    pub errno : Log → ℤ
    pub ready : Log → ℕ → ℕ
    pub ran : Log → Head → Head

  -- `wm_epoll_t`, and the calls made so far
  pub record World : Type 0 where
    pub epfd : ℤ
    pub head : Head
    pub log : Log

module _ (l : EventList) (env : Env l) where
  open l use {Head, init_list_head, list_add, list_del, entries}

  abbrev pub say : Call → World l → World l
  say c w = record w { log = (c, env.answer w.log c) ∷ w.log }

  -- what `epoll_ctl` answers is only logged, by CHK_FUN
  abbrev pub run_exit : Event → World l → World l
  run_exit e w = if e.pfn_exit == 0 then w else say (callback e.pfn_exit e.fd e.parg2) w

  -- wm_epoll_create(pHandle, size)
  pub create : Bool → World l → ℤ × World l
  create has_handle w =
      if not has_handle
      then (minus_one, w)
      else (let p = env.address w.log in
          let w1 = record w { log = (calloc, pos p) ∷ w.log } in
          if p == 0
          then (minus_one, w1)
          else (let fd = env.answer w1.log epoll_create in
              if is_neg fd
              then (minus_one, say (free p) (say epoll_create w1))
              else (pos 0, record (say epoll_create w1) { epfd = fd; head = init_list_head })))

  -- one turn of the loop of `wm_epoll_destroy`
  pub drop_event : Event → World l → World l
  drop_event e w =
      let w1 = say (ctl_del e.fd) (record w { head = list_del e.self w.head }) in
      say (free e.self) (say (close e.fd) (run_exit e w1))

  pub drop_all : List Event → World l → World l
  drop_all [] w = w
  drop_all (e ∷ n) w = drop_all n (drop_event e w)

  -- wm_epoll_destroy(handle), for a handle at the address `p`
  pub destroy : ℕ → World l → ℤ × World l
  destroy p w =
      if p == 0
      then (minus_one, w)
      else (let w1 = drop_all (entries w.head) w in (pos 0, say (free p) (say (close w1.epfd) w1)))

  -- wm_epoll_add(handle, fd, events, pevent, pArg1, pexit, pArg2)
  pub add : Bool → ℤ → ℕ → ℕ → ℕ → ℕ → ℕ → World l → ℤ × World l
  add has_handle fd events pevent arg1 pexit arg2 w =
      if not has_handle || pevent == 0
      then (minus_one, w)
      else (let p = env.address w.log in
          let w1 = record w { log = (calloc, pos p) ∷ w.log } in
          if p == 0
          then (minus_one, w1)
          else (let e : Event = record {
            self = p;
            fd = fd;
            pfn_event = pevent;
            parg1 = arg1;
            pfn_exit = pexit;
            parg2 = arg2;
          } in
              let w2 = say (ctl_add fd events p) w1 in
              if not (is_zero (env.answer w1.log (ctl_add fd events p)))
              then (let w3 = say (free p) w2 in
                  ((if eqb_ℤ (env.errno w3.log) eexist then pos 0 else minus_one), w3))
              else (pos 0, record w2 { head = list_add e w2.head })))

  -- the loop of `wm_epoll_modify`
  pub modify_in : ℤ → ℕ → List Event → World l → ℤ × World l
  modify_in fd events [] w = (minus_one, w)
  modify_in fd events (e ∷ n) w =
      if eqb_ℤ e.fd fd then (pos 0, say (ctl_mod e.fd events e.self) w) else modify_in fd events n w

  -- wm_epoll_modify(handle, fd, events)
  pub modify : Bool → ℤ → ℕ → World l → ℤ × World l
  modify has_handle fd events w =
      if not has_handle then (minus_one, w) else modify_in fd events (entries w.head) w

  -- the loop of `wm_epoll_remove`
  pub remove_in : ℤ → List Event → World l → World l
  remove_in fd [] w = w
  remove_in fd (e ∷ n) w =
      if eqb_ℤ e.fd fd
      then (let w1 = say (ctl_del e.fd) (record w { head = list_del e.self w.head }) in
          say (free e.self) (run_exit e w1))
      else remove_in fd n w

  -- wm_epoll_remove(handle, fd)
  pub remove : Bool → ℤ → World l → ℤ × World l
  remove has_handle fd w =
      if not has_handle then (minus_one, w) else (pos 0, remove_in fd (entries w.head) w)

  -- The loop of `wm_epoll_wait`, from `i` on, over `count` pointers that `epoll_wait` stored:
  -- `none` when a pointer is to an event that is no longer there.
  pub dispatch : (ℕ → ℕ) → ℕ → ℕ → World l → Option (World l)
  dispatch ready i zero w = some w
  dispatch ready i (suc count) w = elim (node_at (ready i) (entries w.head)) [
    | none ↦ none
    | some pe ↦
        let w1 = say (callback pe.pfn_event pe.fd pe.parg1) w in
        dispatch ready (i + 1) count (record w1 { head = env.ran w1.log w1.head })
  ]

  -- wm_epoll_wait(handle, ulMilsecond), where the time limit goes to `epoll_wait` alone
  pub wait : Bool → World l → Option (ℤ × World l)
  wait has_handle w =
      if not has_handle
      then some (minus_one, w)
      else (let count = env.answer w.log epoll_wait in
          let w1 = say epoll_wait w in
          if is_zero count || eqb_ℤ count minus_one
          then some (minus_one, w1)
          else elim (dispatch (env.ready w1.log) 0 (count_of count) w1) [
            | none ↦ none
            | some w2 ↦ some (pos 0, w2)
          ])
