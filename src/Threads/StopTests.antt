-- ===== src/Threads/StopTests.antt =====
-- `StopAllThreads` with two threads.
use wkc.Common.{ℕ, ◌≤◌, ◌≡◌, refl, true, some, ◌==◌, if◌then◌else◌, arith}
use wkc.Threads.Stopping.{
  working, asking, over, testing, joining, State, set, position, start, later, begins, works,
}
use wkc.Threads.Stopped.{Run-stuck}

-- the first thread waits for the mutex while the second works
abbrev at_first : State
at_first = record {
  stopper = testing 0;
  tasks = λ i. if i == 0 then asking else working;
  joinable = λ i. true;
}

-- then the first is joined, and the second ends
abbrev still_at_first : State
still_at_first = record at_first { stopper = joining 0; tasks = set at_first.tasks 1 over }

Run-stuck_example :
    ((k' : ℕ) × (position still_at_first.stopper ≡ some k') × (k' ≤ 0))
    × (still_at_first.tasks 0 ≡ asking)
Run-stuck_example =
    Run-stuck {kept = λ i. true} {n = 2} {s = at_first} refl (omega arith) (omega arith) refl refl
      refl (later (later start (begins 0 refl (omega arith) refl)) (works 1 over refl))
