-- ===== src/ListR/Walkers.antt =====
-- Any number of threads in `for_each` or `find_first_if` of one `list_r`, which change no node. Lock 0
-- is that of the head, and lock `i` that of the node `i`; a step is one call on a mutex.
use wkc.Common.{
  ℕ, zero, suc, ◌+◌, Bool, true, false, not, ◌&&◌, ◌||◌, Option, none, some, List, [], ◌∷◌, ◌++◌,
  ◌≡◌, ◌==◌, if◌then◌else◌,
}
use wkc.ListR.{Event, lock, unlock}

-- Where a thread is: with no lock yet, with the lock of `current`, with that of `current` and of the
-- next node, or with none any more.
pub data Phase : Type 0 where
  outside finished : Phase
  on crossing : ℕ → Phase

abbrev pub holds : ℕ → Phase → Bool
holds q outside = false
holds q finished = false
holds q (on i) = i == q
holds q (crossing i) = i == q || suc i == q

-- whether nobody holds the lock
abbrev pub is_free : ℕ → List Phase → Bool
is_free q [] = true
is_free q (w ∷ ws) = not (holds q w) && is_free q ws

-- the next call of a thread among the threads `ws`, on a list of `n` nodes: `none` where it waits for
-- a lock, or has ended
unfoldable pub next : ℕ → List Phase → Phase → Option Phase
next n ws outside = if is_free 0 ws then some (on 0) else none
next n ws finished = none
next n ws (on i) =
    if i == n then some finished else (if is_free (suc i) ws then some (crossing i) else none)
next n ws (crossing i) = some (on (suc i))

-- The call that the thread makes when it moves on; `address` gives the address of each lock.
abbrev pub call : (ℕ → ℕ) → ℕ → Phase → Event
call address n outside = lock (address 0)
call address n finished = unlock 0
call address n (on i) = if i == n then unlock (address i) else lock (address (suc i))
call address n (crossing i) = unlock (address i)

-- the calls of a thread that is alone, on top of those so far, with fuel for each
unfoldable pub alone : ℕ → (ℕ → ℕ) → ℕ → Phase → List Event → List Event
unfolding next
alone zero address n w log = log
alone (suc fuel) address n w log = elim (next n (w ∷ []) w) [
  | none ↦ log
  | some w' ↦ alone fuel address n w' (call address n w ∷ log)
]

abbrev pub is_finished : Phase → Bool
is_finished finished = true
is_finished outside = false
is_finished (on i) = false
is_finished (crossing i) = false

abbrev pub all_finished : List Phase → Bool
all_finished [] = true
all_finished (w ∷ ws) = is_finished w && all_finished ws

abbrev pub is_outside : Phase → Bool
is_outside outside = true
is_outside finished = false
is_outside (on i) = false
is_outside (crossing i) = false

abbrev pub all_outside : List Phase → Bool
all_outside [] = true
all_outside (w ∷ ws) = is_outside w && all_outside ws

-- What the threads may come to, from outside, one call of one of them at a time.
pub data Reach (n : ℕ) : List Phase → Type 0 where
  start : (ws : List Phase) → all_outside ws ≡ true → Reach n ws
  move :
      (before : List Phase) (w w' : Phase) (after ws ws' : List Phase)
      → Reach n ws
      → ws ≡ before ++ (w ∷ after)
      → next n ws w ≡ some w'
      → ws' ≡ before ++ (w' ∷ after)
      → Reach n ws'

-- how many threads hold a lock
abbrev pub holders : ℕ → List Phase → ℕ
holders q [] = 0
holders q (w ∷ ws) = (if holds q w then 1 else 0) + holders q ws

-- Some thread can make its next call.
abbrev pub Progress : ℕ → List Phase → Type 0
Progress n ws =
    (before : List Phase) × (w : Phase) × (after : List Phase) × (w' : Phase) × (ws
      ≡ before ++ (w ∷ after))
    × (next n ws w ≡ some w')
