-- ===== src/Epoll/Dispatch.antt =====
-- `wm_epoll_wait`: the callbacks that it runs, and an event that goes while others are ready.
use wkc.Common.{
  ℕ, zero, suc, ◌+◌, ◌<◌, ℤ, pos, minus_one, is_zero, eqb_ℤ, ◌≡◌, refl, sym, ap, ◌∙◌, true, ◌||◌,
  if◌then◌else◌, Option, none, some, List, [], ◌∷◌, ◌++◌, append_assoc, map, arith,
}
use wkc.Epoll.{
  Event, EventList, Call, callback, epoll_wait, Log, Env, World, say, node_at, count_of, dispatch,
  wait,
}

abbrev pub calls : Log → List Call
calls log = map (λ (p : Call × ℤ). p.0) log

abbrev pub call_of : Event → Call
call_of e = callback e.pfn_event e.fd e.parg1

-- The callbacks of the events from `i` on, the latest first.
abbrev pub due : (ℕ → Event) → ℕ → ℕ → List Call
due ev i zero = []
due ev i (suc n) = due ev (i + 1) n ++ (call_of (ev i) ∷ [])

module _ (l : EventList) (env : Env l) where
  open l use {Head, entries}

  -- what a dispatch may end with where no event goes away
  abbrev pub Served : (ℕ → Event) → ℕ → ℕ → World l → Option (World l) → Type 0
  Served ev i n w o =
      (w' : World l) × (o ≡ some w')
      × (w'.head ≡ w.head)
      × (calls w'.log ≡ due ev i n ++ calls w.log)

  -- the world after an event's callback
  abbrev after : Event → World l → World l
  after e w =
      let called = say l env (call_of e) w in record called { head = env.ran called.log w.head }

  abbrev turn : (ℕ → ℕ) → ℕ → ℕ → World l → Option Event → Option (World l)
  turn ready i n w found = elim found [
    | none ↦ none
    | some pe ↦ dispatch l env ready (i + 1) n (after pe w)
  ]

  dispatch-turn :
      (ready : ℕ → ℕ) (i n : ℕ) (w : World l) (found : Option Event)
      → node_at (ready i) (entries w.head) ≡ found
      → dispatch l env ready i (suc n) w ≡ turn ready i n w found
  unfolding dispatch
  dispatch-turn ready i n w found e = ap (turn ready i n w) e

  dispatch_lem :
      (ready : ℕ → ℕ) (ev : ℕ → Event) (i n : ℕ) (w : World l)
      → ((log : Log) (h : Head) → env.ran log h ≡ h)
      → ((k : ℕ) → k < i + n → node_at (ready k) (entries w.head) ≡ some (ev k))
      → Served ev i n w (dispatch l env ready i n w)
  unfolding dispatch
  dispatch_lem ready ev i zero w still listed = (w, refl, refl, refl)
  dispatch_lem ready ev i (suc n) w still listed =
      let (w', ends, same, made) =
        dispatch_lem ready ev (i + 1) n (after (ev i) w) still listed_after in
      (
        w',
        dispatch-turn ready i n w (some (ev i)) (listed i (omega arith)) ∙ ends,
        same ∙ still _ w.head,
        made ∙ sym (append_assoc (due ev (i + 1) n) (call_of (ev i) ∷ []) (calls w.log)),
      )
    where
      listed_after :
          (k : ℕ) → k < i + 1 + n → node_at (ready k) (entries (after (ev i) w).head) ≡ some (ev k)
      listed_after k h =
          ap (λ h. node_at (ready k) (entries h)) (still _ w.head) ∙ listed k (omega arith)

  -- `wm_epoll_wait` after `epoll_wait` returned `count`
  abbrev answered : World l → ℤ → Option (ℤ × World l)
  answered w count =
      let w1 : World l = record w { log = (epoll_wait, count) ∷ w.log } in
      if is_zero count || eqb_ℤ count minus_one
      then some (minus_one, w1)
      else elim (dispatch l env (env.ready w1.log) 0 (count_of count) w1) [
        | none ↦ none
        | some w2 ↦ some (pos 0, w2)
      ]

  -- If no event callback changes the list, and every pointer that `epoll_wait` stores is to an
  -- event of the list, then `wm_epoll_wait` returns 0, runs the callbacks of these events with
  -- their descriptors and arguments, once for each pointer and in their order, and leaves the list
  -- as it was.
  pub wait-callbacks :
      (ev : ℕ → Event) (n : ℕ) (w : World l)
      → env.answer w.log epoll_wait ≡ pos (suc n)
      → ((log : Log) (h : Head) → env.ran log h ≡ h)
      → ((k : ℕ)
          → k < suc n
          → node_at (env.ready ((epoll_wait, pos (suc n)) ∷ w.log) k) (entries w.head)
            ≡ some (ev k))
      → (w' : World l) × (wait l env true w ≡ some (pos 0, w'))
        × (w'.head ≡ w.head)
        × (calls w'.log ≡ due ev 0 (suc n) ++ (epoll_wait ∷ calls w.log))
  unfolding wait
  wait-callbacks ev n w found still listed =
      let (w', ends, same, made) =
        dispatch_lem (env.ready ((epoll_wait, pos (suc n)) ∷ w.log)) ev 0 (suc n)
          (record w { log = (epoll_wait, pos (suc n)) ∷ w.log }) still
          (λ k h. listed k (omega arith)) in
      (w', ap (answered w) found ∙ rw ends refl, same, made)
