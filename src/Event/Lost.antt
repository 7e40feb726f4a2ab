-- ===== src/Event/Lost.antt =====
-- Threads that sleep in `evt_mtx_wait` of project/ipc/evt.c while the event is set: a wait that ends at
-- its deadline returns without a look at the state.
use wkc.Common.{ℕ, zero, suc, ◌≤◌, ◌<◌, ◌≡◌, refl, ap, true, some, [], ◌∷◌, arith}
use wkc.Wait.Crowd.{Crowd, enter, expire, raise, move, begin, then_}
use wkc.Event.{Evt, is_set, reset}
use wkc.Event.Crowd.{signal_once, signal_once_lem, EvtTurns}

-- `n` threads sleep
abbrev asleep : ℕ → Crowd Evt (Unit {0})
asleep n = record { object = record { state = 0 }; sleepers = n; woken = 0; taken = 0; made = [] }

-- one is woken by a signal
abbrev signalled : ℕ → ℕ → Crowd Evt (Unit {0})
signalled n woken = record {
  object = record { state = 1 };
  sleepers = n;
  woken = woken;
  taken = 0;
  made = tt ∷ [];
}

module _ (threads : ℕ) where
  falls_asleep :
      (n : ℕ)
      → n < threads
      → move is_set reset signal_once true threads enter (asleep n) ≡ some (asleep (suc n))
  unfolding move
  falls_asleep n h = ground (arith, h)

  all_asleep : (n : ℕ) → n ≤ threads → EvtTurns true threads (asleep n)
  all_asleep zero h = begin
  all_asleep (suc n) h = then_ enter _ _ (all_asleep n (omega (arith, h))) (falls_asleep n h)

  one_signal :
      (n : ℕ)
      → move is_set reset signal_once true threads (raise tt) (asleep (suc n))
        ≡ some (signalled n 1)
  unfolding move
  one_signal n = rw (signal_once_lem (record { state = 0 }) (omega arith)) (ap some (ground arith))

  one_expires :
      (n : ℕ)
      → move is_set reset signal_once true threads expire (signalled n 1) ≡ some (signalled n 0)
  unfolding move
  one_expires n = refl

-- Where a wait that ends at its deadline may consume a signal, as POSIX allows, `n + 2` threads can come
-- to sleep but for one, none about to wake up and none let through, while the event is set by the
-- one signal.
pub EvtTurns-lost :
    (n : ℕ)
    → EvtTurns true (suc (suc n)) (record {
      object = record { state = 1 };
      sleepers = suc n;
      woken = 0;
      taken = 0;
      made = tt ∷ [];
    })
EvtTurns-lost n =
    let threads = suc (suc n) in
    then_ expire _ _
      (then_ (raise tt) _ _ (all_asleep threads threads (omega arith)) (one_signal threads (suc n)))
      (one_expires threads (suc n))
