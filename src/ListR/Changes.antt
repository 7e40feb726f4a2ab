-- ===== src/ListR/Changes.antt =====
-- Any number of threads in all the functions of one `list_r` of project/utils/list_r.hpp, those that
-- change it too. Node 0 is the head, and the nodes behind it are numbered as they stand: when a node
-- is added or removed, those behind it get other numbers. A walk of `for_each`, `find_first_if` or
-- `remove_if` takes its locks as in ListR/Walkers.
use wkc.Common.{
  ℕ, suc, ◌-◌, ◌+◌, Bool, true, false, ◌||◌, some, List, [], ◌∷◌, ◌++◌, ◌≡◌, ◌==◌, ltb,
  if◌then◌else◌,
}
use wkc.ListR.Walkers.{Phase, outside, finished, on, crossing, is_free, next, all_outside}

-- the place of a thread once the node `suc i` is gone
abbrev pub lower : ℕ → Phase → Phase
lower i outside = outside
lower i finished = finished
lower i (on j) = if ltb (suc i) j then on (j - 1) else on j
lower i (crossing j) = if ltb (suc i) j then crossing (j - 1) else crossing j

-- the place of a thread once there is a new node behind the head
abbrev pub lift : Phase → Phase
lift outside = outside
lift finished = finished
lift (on j) = if ltb 0 j then on (suc j) else on j
lift (crossing j) = if ltb 0 j then crossing (suc j) else crossing j

abbrev pub each : (Phase → Phase) → List Phase → List Phase
each f [] = []
each f (w ∷ ws) = f w ∷ each f ws

-- What one thread does, with how many nodes there are before and after it.
pub data Step : ℕ → List Phase → ℕ → List Phase → Type 0 where
  -- a call on a mutex, as of a walk
  walk :
      (n : ℕ) (before : List Phase) (w w' : Phase) (after : List Phase)
      → next n (before ++ (w ∷ after)) w ≡ some w'
      → Step n (before ++ (w ∷ after)) n (before ++ (w' ∷ after))
  -- `find_first_if` has found its node and returns
  found :
      (n i : ℕ) (before after : List Phase)
      → Step n (before ++ (on (suc i) ∷ after)) n (before ++ (finished ∷ after))
  -- `remove_if` takes the node out, unlocks it and deletes it
  removed :
      (n i : ℕ) (before after : List Phase)
      → Step
          (suc n)
          (before ++ (crossing i ∷ after))
          n
          (each (lower i) before ++ (on i ∷ each (lower i) after))
  -- `push_front`, under the lock of the head
  pushed :
      (n : ℕ) (before after : List Phase)
      → is_free 0 (before ++ (outside ∷ after)) ≡ true
      → Step n
          (before ++ (outside ∷ after))
          (suc n)
          (each lift before ++ (finished ∷ each lift after))

-- What the threads `ws` may come to in so many steps on a list of `n` nodes, from outside.
pub data Run (n : ℕ) (ws : List Phase) : ℕ → ℕ → List Phase → Type 0 where
  start : all_outside ws ≡ true → Run n ws 0 n ws
  later :
      {k n' n'' : ℕ} {ws' ws'' : List Phase}
      → Run n ws k n' ws'
      → Step n' ws' n'' ws''
      → Run n ws (suc k) n'' ws''

-- The thread has the lock `q` or waits for it.
abbrev pub touches : ℕ → Phase → Bool
touches q outside = 0 == q
touches q finished = false
touches q (on i) = i == q || suc i == q
touches q (crossing i) = i == q || suc i == q

-- how many threads do
abbrev pub touching : ℕ → List Phase → ℕ
touching q [] = 0
touching q (w ∷ ws) = (if touches q w then 1 else 0) + touching q ws

-- The thread is at nodes that the list has.
abbrev pub is_inside : ℕ → Phase → Bool
is_inside n outside = true
is_inside n finished = true
is_inside n (on i) = ltb i (suc n)
is_inside n (crossing i) = ltb i n

abbrev pub all_inside : ℕ → List Phase → Bool
all_inside n [] = true
all_inside n (w ∷ ws) = if is_inside n w then all_inside n ws else false
