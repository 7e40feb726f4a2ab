-- ===== src/Threads/Stopping.antt =====
-- `StopAllThreads` of project/basic/ThreadObj.cpp while the threads run, which it joins with the mutex
-- of the list locked. A thread needs that mutex where it starts or stops another one.
use wkc.Common.{ℕ, suc, ◌<◌, ◌≡◌, ◌≢◌, Bool, true, false, Option, none, some, ◌==◌, if◌then◌else◌}

-- Where a thread is: in its function, before the lock of `AddThreadObj` or `DelThreadObj`, at its end.
pub data Task : Type 0 where
  working asking over : Task

-- The thread that calls `StopAllThreads`: before the call, at the test of the thread with the number
-- and at its join, both with the mutex, and after the call.
pub data Stopper : Type 0 where
  before after : Stopper
  testing joining : ℕ → Stopper

pub record State : Type 0 where
  pub stopper : Stopper
  pub tasks : ℕ → Task
  -- m_thread.joinable() of each thread object
  pub joinable : ℕ → Bool

abbrev pub set : {A : Type 0} → (ℕ → A) → ℕ → A → ℕ → A
set f i x j = if j == i then x else f j

-- the thread that the loop of `StopAllThreads` is at
abbrev pub position : Stopper → Option ℕ
position before = none
position after = none
position (testing k) = some k
position (joining k) = some k

abbrev pub has_mutex : Stopper → Bool
has_mutex before = false
has_mutex after = false
has_mutex (testing k) = true
has_mutex (joining k) = true

-- What one thread does, with `n` threads in the list, of which those that are `kept` are detached by
-- no other thread.
pub data Step (kept : ℕ → Bool) (n : ℕ) (s : State) : State → Type 0 where
  -- the lock of `StopAllThreads`; for each thread its test, and a join that returns; the unlock
  -- behind the last
  locks : s.stopper ≡ before → Step kept n s (record s { stopper = testing 0 })
  skips :
      (k : ℕ)
      → s.stopper ≡ testing k
      → k < n
      → s.joinable k ≡ false
      → Step kept n s (record s { stopper = testing (suc k) })
  begins :
      (k : ℕ)
      → s.stopper ≡ testing k
      → k < n
      → s.joinable k ≡ true
      → Step kept n s (record s { stopper = joining k })
  joins :
      (k : ℕ)
      → s.stopper ≡ joining k
      → s.tasks k ≡ over
      → Step kept n s (record s { stopper = testing (suc k); joinable = set s.joinable k false })
  unlocks : s.stopper ≡ testing n → Step kept n s (record s { stopper = after })
  -- a thread works on: it comes to a lock or to its end
  works :
      (i : ℕ) (t : Task)
      → s.tasks i ≡ working
      → Step kept n s (record s { tasks = set s.tasks i t })
  -- and has the mutex for as long as it changes the list
  passes :
      (i : ℕ)
      → s.tasks i ≡ asking
      → has_mutex s.stopper ≡ false
      → Step kept n s (record s { tasks = set s.tasks i working })
  -- `StopThread(false)` of another thread, and `StartThread` of an object without a thread
  detaches :
      (i : ℕ)
      → kept i ≡ false
      → s.stopper ≢ joining i
      → Step kept n s (record s { joinable = set s.joinable i false })
  starts :
      (i : ℕ)
      → s.joinable i ≡ false
      → s.tasks i ≡ over
      → Step kept n s (record s { tasks = set s.tasks i working; joinable = set s.joinable i true })

pub data Run (kept : ℕ → Bool) (n : ℕ) (s : State) : State → Type 0 where
  start : Run kept n s s
  later : {t u : State} → Run kept n s t → Step kept n t u → Run kept n s u
