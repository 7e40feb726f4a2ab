-- ===== src/Threads.antt =====
-- project/basic/ThreadObj.cpp: threads at addresses, and the list of those that were started. What
-- a thread does is its function; `join` returns when that has ended.
pub mod Listed
pub mod Stopping
pub mod Stopped
mod StopTests
pub mod WithQueue
pub mod Worked
pub mod Sent
mod Tests
use wkc.Common.{
  ℕ, suc, ◌+◌, ℤ, pos, Bool, true, false, not, Option, none, some, List, [], ◌∷◌, ◌==◌,
  if◌then◌else◌,
}

-- `ThreadObj`: `name` is `none` for "(Unknown)"
pub record Thread : Type 0 where
  pub name : Option ℕ
  pub stop_requested : Bool
  pub joinable : Bool

pub data Event : Type 0 where
  spawn join detach : ℕ → Event

-- the threads, the static list, and the calls of `std::thread`, the latest first
pub record World : Type 0 where
  pub threads : ℕ → Thread
  pub started : List ℕ
  pub log : List Event

abbrev pub update : ℕ → (Thread → Thread) → World → World
update self f w = record w { threads = λ q. if q == self then f (w.threads q) else w.threads q }

abbrev pub note : Event → World → World
note e w = record w { log = e ∷ w.log }

-- ThreadObj()
unfoldable pub construct : ℕ → World → World
construct self w =
    update self (λ t. record { name = none; stop_requested = true; joinable = false }) w

-- AddThreadObj(pThreadObj)
unfoldable pub add_thread : ℕ → World → World
add_thread self w = if self == 0 then w else record w { started = self ∷ w.started }

abbrev pub without : ℕ → List ℕ → List ℕ
without self [] = []
without self (q ∷ qs) = let rest = without self qs in if q == self then rest else q ∷ rest

-- DelThreadObj(pThreadObj)
unfoldable pub del_thread : ℕ → World → World
del_thread self w = if self == 0 then w else record w { started = without self w.started }

-- StartThread(name)
unfoldable pub start_thread : ℕ → Option ℕ → World → ℤ × World
unfolding add_thread
start_thread self name w =
    if (w.threads self).joinable
    then (pos 0, w)
    else (let w1 = update self (λ t. record t { name = name; stop_requested = false }) w in
        let w2 = add_thread self w1 in
        (pos 0, note (spawn self) (update self (λ t. record t { joinable = true }) w2)))

-- StopThread(isWaiting), and so the destructor
unfoldable pub stop_thread : ℕ → Bool → World → World
unfolding del_thread
stop_thread self is_waiting w =
    if not (w.threads self).joinable
    then w
    else (let w1 = update self (λ t. record t { stop_requested = true; joinable = false }) w in
        let w2 = note (if is_waiting then join self else detach self) w1 in del_thread self w2)

-- the function that `StopAllThreads` calls for each thread of the list
unfoldable pub stop_joinable : ℕ → World → World
stop_joinable q w =
    if not (w.threads q).joinable
    then w
    else note (join q) (update q (λ t. record t { stop_requested = true; joinable = false }) w)

unfoldable pub stop_each : List ℕ → World → World
unfolding stop_joinable
stop_each [] w = w
stop_each (q ∷ qs) w = stop_each qs (stop_joinable q w)

-- StopAllThreads()
unfoldable pub stop_all_threads : World → World
unfolding stop_each
stop_all_threads w = record (stop_each w.started w) { started = [] }
