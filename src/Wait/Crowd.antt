-- ===== src/Wait/Crowd.antt =====
-- Any number of threads in a wait on a condition variable, as in evt.c, wm_sem.c and queue_r.hpp, and
-- threads in the calls that change what is waited for. All of it is under the mutex but for what a
-- thread does before it has the mutex and in the wait for the condition, so a move is what one
-- thread does from one gap to the next. The waiting threads are alike: the model counts them.
use wkc.Common.{
  ℕ, suc, ◌+◌, ◌-◌, ◌≡◌, Bool, true, ◌&&◌, arith, Option, none, some, List, [], ◌∷◌, ltb, ◌==◌,
  if◌then◌else◌, min,
}

pub record Crowd (S K : Type 0) : Type 0 where
  pub object : S
  -- in the wait for the condition
  pub sleepers : ℕ
  -- about to leave it, without the mutex yet
  pub woken : ℕ
  -- how many waits have been let through
  pub taken : ℕ
  -- the other calls so far, the latest first
  pub made : List K

pub data Move (K : Type 0) : Type 0 where
  -- A thread calls the wait; a thread that was woken has the mutex again; a thread leaves the wait for
  -- the condition on its own; it gives up at its deadline, not woken or woken already; a thread makes
  -- another call.
  enter resume stir time_out expire : Move K
  raise : K → Move K

-- What a call makes of the object, how often it signals the condition, and how often it wakes all who
-- wait for it.
pub record Effect (S : Type 0) : Type 0 where
  pub after : S
  pub signals : ℕ
  pub broadcasts : ℕ

-- The condition that is waited for, what a wait takes then, and the other calls.
module _ {S K : Type 0} (ready : S → Bool) (consume : S → S) (call : K → S → Effect S) where
  -- the loop's test, by a thread with the mutex
  abbrev pub test : Crowd S K → Crowd S K
  test c =
      if ready c.object
      then record c { object = consume c.object; taken = suc c.taken }
      else record c { sleepers = suc c.sleepers }

  -- a call: each signal wakes one of the threads that sleep, if any does
  abbrev pub shout : K → Crowd S K → Crowd S K
  shout k c =
      let e = call k c.object in
      let up = if e.broadcasts == 0 then min e.signals c.sleepers else c.sleepers in
      record c {
        object = e.after;
        sleepers = c.sleepers - up;
        woken = c.woken + up;
        made = k ∷ c.made;
      }

  -- One move, among `threads` threads that wait; `none` where no thread can make it. POSIX lets a timed
  -- wait that ends at its deadline have consumed a signal: `consumes` says whether the system does.
  unfoldable pub move : Bool → ℕ → Move K → Crowd S K → Option (Crowd S K)
  move consumes threads enter c = if ltb (c.sleepers + c.woken) threads then some (test c) else none
  move consumes threads resume c =
      if ltb 0 c.woken then some (test (record c { woken = c.woken - 1 })) else none
  move consumes threads stir c =
      if ltb 0 c.sleepers
      then some (record c { sleepers = c.sleepers - 1; woken = suc c.woken })
      else none
  move consumes threads time_out c =
      if ltb 0 c.sleepers then some (record c { sleepers = c.sleepers - 1 }) else none
  move consumes threads expire c =
      if consumes && ltb 0 c.woken then some (record c { woken = c.woken - 1 }) else none
  move consumes threads (raise k) c = some (shout k c)

  -- nobody waits, and no call was made yet
  abbrev pub nobody : S → Crowd S K
  nobody s = record { object = s; sleepers = 0; woken = 0; taken = 0; made = [] }

  pub data Reach (consumes : Bool) (threads : ℕ) (s : S) : Crowd S K → Type 0 where
    begin : Reach consumes threads s (nobody s)
    then_ :
        (m : Move K) (c d : Crowd S K)
        → Reach consumes threads s c
        → move consumes threads m c ≡ some d
        → Reach consumes threads s d

pub if_some :
    {S : Type 0} (b : Bool) (c d : S) → (if b then some c else none) ≡ some d → (b ≡ true) × (c ≡ d)
if_some b c d h = ground arith
