-- ===== src/QueueR.antt =====
-- project/utils/queue_r.hpp: a queue behind a mutex and a condition variable. A wait for values
-- takes fuel, one unit for each test of its condition.
pub mod Crowd
pub mod Fifo
mod Tests
use wkc.Common.{ℕ, zero, suc, ◌+◌, Bool, true, false, Option, none, some, List, [], ◌∷◌, ◌++◌}

pub data Event : Type 0 where
  lock unlock notify wait : Event

-- `queue_r`, the front first, with the calls on its mutex and its condition, the latest first
pub record QueueR (A : Type 0) : Type 0 where
  pub items : List A
  pub log : List Event

module _ {A : Type 0} where
  abbrev pub note : Event → QueueR A → QueueR A
  note e q = record q { log = e ∷ q.log }

  -- queue_r(other): the copy, and the other queue
  unfoldable pub copy_construct : QueueR A → QueueR A × QueueR A
  copy_construct other = (record { items = other.items; log = [] }, note unlock (note lock other))

  -- push(new_value)
  unfoldable pub push : A → QueueR A → QueueR A
  push x q =
      let q1 = note lock q in
      let q2 = record q1 { items = q1.items ++ (x ∷ []) } in note unlock (note notify q2)

  -- try_pop(value), where `value` is what the variable of the caller holds
  unfoldable pub try_pop : A → QueueR A → Bool × A × QueueR A
  try_pop value q = elim q.items [
    | [] ↦ (false, value, note unlock (note lock q))
    | x ∷ xs ↦ (true, x, note unlock (record (note lock q) { items = xs }))
  ]

  -- try_pop(), `none` for the empty pointer
  unfoldable pub try_pop_ptr : QueueR A → Option A × QueueR A
  try_pop_ptr q = elim q.items [
    | [] ↦ (none, note unlock (note lock q))
    | x ∷ xs ↦ (some x, note unlock (record (note lock q) { items = xs }))
  ]

  -- empty()
  unfoldable pub is_empty : QueueR A → Bool × QueueR A
  is_empty q = (elim q.items [ [] ↦ true | x ∷ xs ↦ false ], note unlock (note lock q))

  -- `resume` gives the items that stand there after a wait that began with the given ones and has so
  -- much fuel behind it: what other threads have made of them.
  module _ (resume : ℕ → List A → List A) where
    -- `data_cond.wait`, with what follows it in both functions
    unfoldable pub wait_items : ℕ → QueueR A → Option (A × QueueR A)
    wait_items zero q = none
    wait_items (suc fuel) q = elim q.items [
      | [] ↦ wait_items fuel (record (note wait q) { items = resume fuel [] })
      | x ∷ xs ↦ some (x, record q { items = xs })
    ]

    -- wait_pop(value), and wait_pop(), whose pointer is never empty
    unfoldable pub wait_pop : ℕ → QueueR A → Option (A × QueueR A)
    unfolding wait_items
    wait_pop fuel q = elim (wait_items fuel (note lock q)) [
      | none ↦ none
      | some (x, q') ↦ some (x, note unlock q')
    ]
