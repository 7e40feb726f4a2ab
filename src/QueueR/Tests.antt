-- ===== src/QueueR/Tests.antt =====
-- The theorems on `queue_r` at concrete queues.
use wkc.Common.{ℕ, length, ◌≤◌, ◌⊎◌, ◌≡◌, refl, List, [], ◌∷◌, ◌++◌, ◌==◌, if◌then◌else◌}
use wkc.Wait.Crowd.{Crowd, enter, raise, move, begin, then_}
use wkc.QueueR.{QueueR, push}
use wkc.QueueR.Crowd.{Served, Brief, pushing, call_once, came_in, QueueTurns, QueueTurns-fifo}
use wkc.QueueR.Fifo.{Op, put, take_ref, take_ptr, ask}

abbrev two : QueueR ℕ
two = record { items = 4 ∷ 5 ∷ []; log = [] }

abbrev calls : List (Op ℕ)
calls = put 6 ∷ take_ref 0 ∷ take_ptr ∷ ask ∷ take_ptr ∷ take_ref 1 ∷ put 8 ∷ []

-- the second wait ends with two values
abbrev late : ℕ → List ℕ → List ℕ
late i items = if i == 3 then 4 ∷ 5 ∷ [] else items

-- a thread waits and a value comes
abbrev one_waits : Crowd (Served ℕ) (Brief ℕ)
one_waits = record {
  object = record { items = []; gone = [] };
  sleepers = 1;
  woken = 0;
  taken = 0;
  made = [];
}

abbrev one_comes : Crowd (Served ℕ) (Brief ℕ)
one_comes = record {
  object = record { items = 9 ∷ []; gone = [] };
  sleepers = 0;
  woken = 1;
  taken = 0;
  made = pushing 9 ∷ [];
}

one_comes-reached : QueueTurns 3 [] one_comes
unfolding move call_once push
one_comes-reached =
    then_ (raise (pushing 9)) one_waits one_comes (then_ enter _ one_waits begin refl) refl

QueueTurns-fifo_example :
    ([] ++ (9 ∷ []) ≡ [] ++ came_in one_comes.made)
    × ((one_comes.sleepers ≡ 0) ⊎ (length one_comes.object.items ≤ one_comes.woken))
QueueTurns-fifo_example = QueueTurns-fifo one_comes-reached
