-- ===== src/ListR.antt =====
-- project/utils/list_r.hpp: a singly linked list with a mutex in each node, and in the head. A walk
-- locks the next node before it lets the current one go.
pub mod Walked
pub mod Walkers
pub mod Progress
pub mod Alone
pub mod Changes
mod Moved
pub mod Removed
mod Cost
pub mod Ends
mod Tests
mod Turns
use wkc.Common.{ℕ, Bool, true, false, Option, none, some, List, [], ◌∷◌, if◌then◌else◌}

-- the calls on the mutex of a node
pub data Event : Type 0 where
  lock unlock : ℕ → Event

-- `node`: an address, which its mutex shares, and what the node holds
pub record Node (A : Type 0) : Type 0 where
  pub address : ℕ
  pub value : A

-- `list_r`: the nodes behind the head, and the calls so far, the latest first
pub record ListR (A : Type 0) : Type 0 where
  pub head : ℕ
  pub nodes : List (Node A)
  pub log : List Event

-- push_front(value): `fresh` is the address of the new node
unfoldable pub push_front : {A : Type 0} → ℕ → A → ListR A → ListR A
push_front fresh x l = record l {
  nodes = (record { address = fresh; value = x }) ∷ l.nodes;
  log = unlock l.head ∷ lock l.head ∷ l.log;
}

module _ {A S : Type 0} (f : A → S → S) where
  -- the loop of `for_each`, at the node `current`, whose lock is held
  unfoldable pub each_from : ℕ → List (Node A) → S × List Event → S × List Event
  each_from current [] (s, log) = (s, unlock current ∷ log)
  each_from current (next ∷ nodes) (s, log) =
      each_from next.address nodes (f next.value s, unlock current ∷ lock next.address ∷ log)

  -- for_each(f)
  unfoldable pub for_each : ListR A → S → S × ListR A
  unfolding each_from
  for_each l s =
      let (s', log') = each_from l.head l.nodes (s, lock l.head ∷ l.log) in
      (s', record l { log = log' })

module _ {A : Type 0} (p : A → Bool) where
  -- the loop of `find_first_if`
  unfoldable pub find_from : ℕ → List (Node A) → List Event → Option A × List Event
  find_from current [] log = (none, unlock current ∷ log)
  find_from current (next ∷ nodes) log =
      let passed = unlock current ∷ lock next.address ∷ log in
      let rest = find_from next.address nodes passed in
      if p next.value then (some next.value, unlock next.address ∷ passed) else rest

  -- find_first_if(p)
  unfoldable pub find_first_if : ListR A → Option A × ListR A
  unfolding find_from
  find_first_if l =
      let (found, log') = find_from l.head l.nodes (lock l.head ∷ l.log) in
      (found, record l { log = log' })

  -- the loop of `remove_if`: the nodes that are left behind `current`
  unfoldable pub remove_from : ℕ → List (Node A) → List Event → List (Node A) × List Event
  remove_from current [] log = ([], unlock current ∷ log)
  remove_from current (next ∷ nodes) log = elim (p next.value) [
    | true ↦ remove_from current nodes (unlock next.address ∷ lock next.address ∷ log)
    | false ↦
        let (kept, log') =
          remove_from next.address nodes (unlock current ∷ lock next.address ∷ log) in
        (next ∷ kept, log')
  ]

  -- remove_if(p)
  unfoldable pub remove_if : ListR A → ListR A
  unfolding remove_from
  remove_if l =
      let (left, log') = remove_from l.head l.nodes (lock l.head ∷ l.log) in
      record l { nodes = left; log = log' }

-- ~list_r()
unfoldable pub destroy : {A : Type 0} → ListR A → ListR A
unfolding remove_if
destroy l = remove_if (λ _. true) l
