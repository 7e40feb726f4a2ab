-- ===== src/Demo/Samples.antt =====
-- The threads and the handles that the samples of project/demo/demoipc.c make and give back.
use wkc.Common.{ℕ, ◌+◌, ◌≡◌, Bool, true, false, [], ◌∷◌, ◌==◌, if◌then◌else◌, arith}
use wkc.Demo.{
  Kind, evt, evt_rw, sem, create, destroy, spawn, join, Log, Env, Sample, spawn_all, start,
  start_once, join_all, stop_once,
}

abbrev pub code : Kind → ℕ
code evt = 0
code evt_rw = 1
code sem = 2

abbrev pub same : Kind → Kind → Bool
same j k = code j == code k

abbrev pub spawns : Kind → Log → ℕ
spawns k [] = 0
spawns k (spawn j i ∷ log) = (if same j k then 1 else 0) + spawns k log
spawns k (_ ∷ log) = spawns k log

abbrev pub joins : Kind → Log → ℕ
joins k [] = 0
joins k (join j i ∷ log) = (if same j k then 1 else 0) + joins k log
joins k (_ ∷ log) = joins k log

abbrev pub creates : Kind → Log → ℕ
creates k [] = 0
creates k (create j h ∷ log) = (if same j k then 1 else 0) + creates k log
creates k (_ ∷ log) = creates k log

abbrev pub destroys : Kind → Log → ℕ
destroys k [] = 0
destroys k (destroy j h ∷ log) = (if same j k then 1 else 0) + destroys k log
destroys k (_ ∷ log) = destroys k log

-- With a handle there are three threads to join and one handle to destroy, and with none there is
-- nothing.
pub record Settled (k : Kind) (s : Sample) (log : Log) : Type 0 where
  pub threads : spawns k log ≡ joins k log + (if s.handle == 0 then 0 else 3)
  pub handles : creates k log ≡ destroys k log + (if s.handle == 0 then 0 else 1)

-- Calls that are not of this sample.
pub record Untouched (k : Kind) (log log' : Log) : Type 0 where
  pub same_spawns : spawns k log' ≡ spawns k log
  pub same_joins : joins k log' ≡ joins k log
  pub same_creates : creates k log' ≡ creates k log
  pub same_destroys : destroys k log' ≡ destroys k log

pub Settled-Untouched :
    (k : Kind) (s : Sample) (log log' : Log)
    → Settled k s log
    → Untouched k log log'
    → Settled k s log'
Settled-Untouched k s log log' h u = record {
  threads = omega (arith, u.same_spawns, u.same_joins, h.threads);
  handles = omega (arith, u.same_creates, u.same_destroys, h.handles);
}

code_same : (k : Kind) → same k k ≡ true
code_same k = ground arith

module _ (env : Env)
    (gives : (k : Kind) (h : ℕ) (log : Log) → (env.created k h log == 0) ≡ false) where
  pub start_once-Settled :
      (k : Kind) (s : Sample) (log : Log)
      → Settled k s log
      → let (s', log') = start_once env k (s, log) in Settled k s' log'
  unfolding start_once start spawn_all
  start_once-Settled k s log h =
      ground (arith, h.threads, h.handles, gives k s.handle log, code_same k)

pub stop_once-Settled :
    (k : Kind) (s : Sample) (log : Log)
    → Settled k s log
    → let (s', log') = stop_once k (s, log) in Settled k s' log'
unfolding stop_once join_all
stop_once-Settled k s log h = ground (arith, h.threads, h.handles, code_same k)

module _ (j k : Kind) (other : same j k ≡ false) where
  pub start-Untouched :
      (env : Env) (s : Sample) (log : Log) → Untouched k log (start env j (s, log)).1
  unfolding start spawn_all
  start-Untouched env s log = ground (arith, other)

  pub start_once-Untouched :
      (env : Env) (s : Sample) (log : Log) → Untouched k log (start_once env j (s, log)).1
  unfolding start_once
  start_once-Untouched env s log = ground (arith, start-Untouched env s log)

  pub join_all-Untouched : (s : Sample) (log : Log) → Untouched k log (join_all j (s, log)).1
  unfolding join_all
  join_all-Untouched s log = ground (arith, other)

  pub stop_once-Untouched : (s : Sample) (log : Log) → Untouched k log (stop_once j (s, log)).1
  unfolding stop_once
  stop_once-Untouched s log = ground (arith, join_all-Untouched s log)
