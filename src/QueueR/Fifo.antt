-- ===== src/QueueR/Fifo.antt =====
-- Runs of the functions of project/utils/queue_r.hpp: what goes in and what comes out.
use wkc.Common.{
  ℕ, zero, suc, ◌<◌, ◌≡◌, refl, sym, ap, ◌∙◌, Bool, true, false, Option, none, some, List, [], ◌∷◌,
  ◌++◌, arith, append_assoc, append-nil, dec_lt,
}
use wkc.QueueR.{
  QueueR, Event, lock, unlock, wait, push, try_pop, try_pop_ptr, is_empty, wait_items, wait_pop,
}

-- the calls of a client
pub data Op (A : Type 0) : Type 0 where
  put : A → Op A
  take_ref : A → Op A
  take_ptr : Op A
  ask : Op A

module _ {A : Type 0} where
  -- what goes in
  abbrev pub pushed : List (Op A) → List A
  pushed [] = []
  pushed (put x ∷ ops) = x ∷ pushed ops
  pushed (take_ref _ ∷ ops) = pushed ops
  pushed (take_ptr ∷ ops) = pushed ops
  pushed (ask ∷ ops) = pushed ops

  -- what comes out of a call that found a value
  abbrev pub came_out : Bool → A → List A → List A
  came_out true x xs = x ∷ xs
  came_out false _ xs = xs

  abbrev pub came_out_ptr : Option A → List A → List A
  came_out_ptr none xs = xs
  came_out_ptr (some x) xs = x ∷ xs

  -- what comes out of the calls, and the queue after them
  unfoldable pub run : List (Op A) → QueueR A → List A × QueueR A
  unfolding push try_pop try_pop_ptr is_empty
  run [] q = ([], q)
  run (put x ∷ ops) q = run ops (push x q)
  run (take_ref v ∷ ops) q =
      let (found, x, q1) = try_pop v q in let (xs, q2) = run ops q1 in (came_out found x xs, q2)
  run (take_ptr ∷ ops) q =
      let (found, q1) = try_pop_ptr q in let (xs, q2) = run ops q1 in (came_out_ptr found xs, q2)
  run (ask ∷ ops) q = run ops (is_empty q).1

  run-fifo_at :
      (ops : List (Op A)) (items : List A) (log : List Event)
      → let (out, q') = run ops (record { items = items; log = log }) in
        out ++ q'.items ≡ items ++ pushed ops
  unfolding run push try_pop try_pop_ptr is_empty
  run-fifo_at [] items log = sym (append-nil items)
  run-fifo_at (put x ∷ ops) items log =
      run-fifo_at ops (items ++ (x ∷ [])) _ ∙ append_assoc items (x ∷ []) (pushed ops)
  run-fifo_at (take_ref v ∷ ops) [] log = run-fifo_at ops [] _
  run-fifo_at (take_ref v ∷ ops) (x ∷ xs) log = ap (λ (l : List A). x ∷ l) (run-fifo_at ops xs _)
  run-fifo_at (take_ptr ∷ ops) [] log = run-fifo_at ops [] _
  run-fifo_at (take_ptr ∷ ops) (x ∷ xs) log = ap (λ (l : List A). x ∷ l) (run-fifo_at ops xs _)
  run-fifo_at (ask ∷ ops) items log = run-fifo_at ops items _

  -- In any run of `push`, both `try_pop` and `empty`, what came out and what is left are together
  -- what the queue held, and behind it what was pushed, in their order.
  pub run-fifo :
      (ops : List (Op A)) (q : QueueR A)
      → let (out, q') = run ops q in out ++ q'.items ≡ q.items ++ pushed ops
  run-fifo ops q = run-fifo_at ops q.items q.log

  module _ (resume : ℕ → List A → List A) where
    -- what a wait for values gives
    abbrev pub Takes : A → List A → Option (A × QueueR A) → Type 0
    Takes x xs result = (q' : QueueR A) × (result ≡ some (x, q')) × (q'.items ≡ xs)

    wait_items-Takes :
        (left fuel : ℕ) (x : A) (xs : List A) (log : List Event)
        → left < fuel
        → ((i : ℕ) → suc left < i → resume i [] ≡ [])
        → resume (suc left) [] ≡ x ∷ xs
        → Takes x xs (wait_items resume (suc fuel) (record { items = []; log = log }))
    unfolding wait_items
    wait_items-Takes left zero x xs log h idle arrives = absurd (omega arith)
    wait_items-Takes left (suc fuel) x xs log h idle arrives = elim (dec_lt left fuel) [
      | yes later ↦
          let rest = wait_items-Takes left fuel x xs (wait ∷ log) later idle arrives in
          rw (idle (suc fuel) (omega arith), wait_items) rest
      | no now ↦
          let here : fuel ≡ left = omega (arith, now) in
          rw (here, arrives, wait_items) (record { items = xs; log = wait ∷ log }, refl, refl)
    ]

    -- `wait_pop` on an empty queue, where the waits end with nothing until one, with fuel left,
    -- ends with values that another thread has pushed: it returns the first of them, and leaves the
    -- others.
    pub wait_pop-Takes :
        (left fuel : ℕ) (x : A) (xs : List A) (q : QueueR A)
        → left < fuel
        → ((i : ℕ) → suc left < i → resume i [] ≡ [])
        → resume (suc left) [] ≡ x ∷ xs
        → q.items ≡ []
        → Takes x xs (wait_pop resume (suc fuel) q)
    unfolding wait_pop
    wait_pop-Takes left fuel x xs q h idle arrives empty =
        let (q', ends, rest) = wait_items-Takes left fuel x xs (lock ∷ q.log) h idle arrives in
        rw (empty, ends, wait_pop) (record q' { log = unlock ∷ q'.log }, refl, rest)
