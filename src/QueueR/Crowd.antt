-- ===== src/QueueR/Crowd.antt =====
-- Any number of threads in `wait_pop`, `push` and `try_pop` of one `queue_r` of
-- project/utils/queue_r.hpp. A thread may also give up its wait here, which `wait_pop` never does.
use wkc.Common.{
  ℕ, suc, ◌-◌, ◌≤◌, ◌≡◌, refl, sym, ap, ◌∙◌, ◌⊎◌, inl, inr, Bool, true, false, none, some, List, [],
  ◌∷◌, ◌++◌, length, length-append, append_assoc, append-nil, ltb, arith,
}
use mathlib.Core.Path.{subst}
use wkc.Wait.Crowd.{
  Crowd, Effect, Move, enter, resume, stir, time_out, expire, raise, test, shout, move, Reach,
  begin, then_, if_some,
}
use wkc.QueueR.{QueueR, Event, lock, unlock, notify, wait, push, try_pop_ptr, wait_items, wait_pop}

-- what the queue holds, and what it has given to callers
pub record Served (A : Type 0) : Type 0 where
  pub items : List A
  pub gone : List A

-- the calls that do not wait: `push` of a value, and `try_pop`
pub data Brief (A : Type 0) : Type 0 where
  pushing : A → Brief A
  trying : Brief A

abbrev pub notified : List Event → ℕ
notified [] = 0
notified (notify ∷ log) = suc (notified log)
notified (lock ∷ log) = notified log
notified (unlock ∷ log) = notified log
notified (wait ∷ log) = notified log

module _ {A : Type 0} where
  abbrev pub queue_of : Served A → QueueR A
  queue_of s = record { items = s.items; log = [] }

  -- the condition of the wait
  abbrev pub has_items : Served A → Bool
  has_items s = elim s.items [ [] ↦ false | x ∷ xs ↦ true ]

  -- what `wait_pop` takes once the condition holds
  pub pop_first : Served A → Served A
  pop_first s = elim (wait_pop (λ fuel items. items) 1 (queue_of s)) [
    | none ↦ s
    | some (x, q) ↦ record { items = q.items; gone = s.gone ++ (x ∷ []) }
  ]

  unfoldable pub call_once : Brief A → Served A → Effect (Served A)
  call_once (pushing x) s =
      let q = push x (queue_of s) in
      record {
        after = record { items = q.items; gone = s.gone };
        signals = notified q.log;
        broadcasts = 0;
      }
  call_once trying s =
      let (found, q) = try_pop_ptr (queue_of s) in
      record {
        after = record {
          items = q.items;
          gone = elim found [ none ↦ s.gone | some x ↦ s.gone ++ (x ∷ []) ];
        };
        signals = notified q.log;
        broadcasts = 0;
      }

  -- what was pushed, in order
  abbrev pub came_in : List (Brief A) → List A
  came_in [] = []
  came_in (pushing x ∷ ks) = came_in ks ++ (x ∷ [])
  came_in (trying ∷ ks) = came_in ks

  abbrev pub QueueTurns : ℕ → List A → Crowd (Served A) (Brief A) → Type 0
  QueueTurns threads first =
      Reach has_items pop_first call_once false threads (record { items = first; gone = [] })

  -- What went out and what is left is what came in; where a thread sleeps, one is woken for each item.
  record Inv (first : List A) (c : Crowd (Served A) (Brief A)) : Type 0 where
    fifo : c.object.gone ++ c.object.items ≡ first ++ came_in c.made
    awake : (c.sleepers ≡ 0) ⊎ (length c.object.items ≤ c.woken)

  -- the loop's test, with as many items woken for as there are, the thread itself counted
  test-Inv :
      (first : List A) (c : Crowd (Served A) (Brief A))
      → c.object.gone ++ c.object.items ≡ first ++ came_in c.made
      → (c.sleepers ≡ 0) ⊎ (length c.object.items ≤ suc c.woken)
      → Inv first (test has_items pop_first call_once c)
  unfolding pop_first wait_pop wait_items
  test-Inv first c fifo awake = of_items c.object.items c.object.gone fifo awake
    where
      of_items :
          (items gone : List A)
          → gone ++ items ≡ first ++ came_in c.made
          → (c.sleepers ≡ 0) ⊎ (length items ≤ suc c.woken)
          → Inv first (
              test has_items pop_first call_once
                (record c { object = record { items = items; gone = gone } }))
      of_items [] gone fifo awake = record { fifo = fifo; awake = inr (omega arith) }
      of_items (x ∷ xs) gone fifo awake = record {
        fifo = append_assoc gone (x ∷ []) xs ∙ fifo;
        awake = ground (arith, awake);
      }

  shout-Inv :
      (first : List A) (k : Brief A) (c : Crowd (Served A) (Brief A))
      → Inv first c
      → Inv first (shout has_items pop_first call_once k c)
  unfolding call_once push try_pop_ptr
  shout-Inv first (pushing x) c inv = record {
    fifo =
        sym (append_assoc c.object.gone c.object.items (x ∷ []))
        ∙ ap (λ (l : List A). l ++ (x ∷ [])) inv.fifo
        ∙ append_assoc first (came_in c.made) (x ∷ []);
    awake = ground (arith, inv.awake, length-append c.object.items (x ∷ []));
  }
  shout-Inv first trying c inv = of_items c.object.items c.object.gone inv.fifo inv.awake
    where
      of_items :
          (items gone : List A)
          → gone ++ items ≡ first ++ came_in c.made
          → (c.sleepers ≡ 0) ⊎ (length items ≤ c.woken)
          → Inv first (
              shout has_items pop_first call_once trying
                (record c { object = record { items = items; gone = gone } }))
      of_items [] gone fifo awake = record { fifo = fifo; awake = ground (arith, awake) }
      of_items (x ∷ xs) gone fifo awake = record {
        fifo = append_assoc gone (x ∷ []) xs ∙ fifo;
        awake = ground (arith, awake);
      }

  move-Inv :
      (first : List A) (threads : ℕ) (m : Move (Brief A)) (c d : Crowd (Served A) (Brief A))
      → move has_items pop_first call_once false threads m c ≡ some d
      → Inv first c
      → Inv first d
  unfolding move
  move-Inv first threads enter c d e inv =
      subst (Inv first) (if_some _ (test has_items pop_first call_once c) d e).1
        (test-Inv first c inv.fifo (ground (arith, inv.awake)))
  move-Inv first threads resume c d e inv =
      let (some_, same) = if_some (ltb 0 c.woken) _ d e in
      subst (Inv first) same (
        test-Inv first (record c { woken = c.woken - 1 }) inv.fifo
          (ground (arith, inv.awake, some_)))
  move-Inv first threads stir c d e inv =
      let (some_, same) = if_some (ltb 0 c.sleepers) _ d e in
      subst (Inv first) same (record { fifo = inv.fifo; awake = ground (arith, inv.awake, some_) })
  move-Inv first threads time_out c d e inv =
      let (some_, same) = if_some (ltb 0 c.sleepers) _ d e in
      subst (Inv first) same (record { fifo = inv.fifo; awake = ground (arith, inv.awake, some_) })
  move-Inv first threads expire c d e inv = cc e
  move-Inv first threads (raise k) c d e inv =
      subst (Inv first) (if_some true _ d e).1 (shout-Inv first k c inv)

  QueueTurns-Inv :
      {threads : ℕ} {first : List A} {c : Crowd (Served A) (Brief A)}
      → QueueTurns threads first c
      → Inv first c
  QueueTurns-Inv {first = first} begin = record { fifo = sym (append-nil first); awake = inl refl }
  QueueTurns-Inv {threads} {first} (then_ m c d r e) =
      move-Inv first threads m c d e (QueueTurns-Inv r)

  -- However many threads push, try to pop and wait to pop, and in whatever order they come and are
  -- woken: what has come out and what is left are together what the queue held at first, and
  -- behind it what was pushed, in the order of the calls; and where a thread sleeps, at least as
  -- many are about to wake up as there are values in the queue.
  pub QueueTurns-fifo :
      {threads : ℕ} {first : List A} {c : Crowd (Served A) (Brief A)}
      → QueueTurns threads first c
      → (c.object.gone ++ c.object.items ≡ first ++ came_in c.made)
        × ((c.sleepers ≡ 0) ⊎ (length c.object.items ≤ c.woken))
  QueueTurns-fifo r = let inv = QueueTurns-Inv r in (inv.fifo, inv.awake)
