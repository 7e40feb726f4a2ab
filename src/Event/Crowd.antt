-- ===== src/Event/Crowd.antt =====
-- Any number of threads in `evt_mtx_wait` and `evt_mtx_signal` of project/ipc/evt.c, on one event.
use wkc.Common.{
  Bool, true, ◌&&◌, ℕ, length, zero, suc, ◌+◌, ◌-◌, ◌≤◌, ◌<◌, ◌≡◌, refl, ◌⊎◌, inl, inr, true, false,
  some, ltb, ◌==◌, if◌then◌else◌, arith,
}
use mathlib.Core.Path.{subst}
use wkc.Posix.Ledger.{count, signalled, broadcasted}
use wkc.Posix.Quiet.{quiet, start}
use wkc.Wait.Crowd.{
  Crowd, Effect, Move, enter, resume, stir, time_out, expire, raise, test, shout, move, Reach,
  begin, then_, if_some,
}
use wkc.Event.{Evt, zeroed, signal, is_set, reset}

-- a signal where every call succeeds
pub signal_once : Unit {0} → Evt → Effect Evt
signal_once _ e =
    let w = (signal true quiet (start e)).1 in
    record {
      after = w.object;
      signals = count signalled w.log;
      broadcasts = count broadcasted w.log;
    }

pub signal_once_lem :
    (e : Evt)
    → e.state ≤ 1
    → signal_once tt e ≡ record {
      after = record { state = 1 };
      signals = if e.state == 0 then 1 else 0;
      broadcasts = 0;
    }
unfolding signal_once signal
signal_once_lem e h = of_state e.state h
  where
    of_state :
        (n : ℕ)
        → n ≤ 1
        → signal_once tt (record { state = n }) ≡ record {
          after = record { state = 1 };
          signals = if n == 0 then 1 else 0;
          broadcasts = 0;
        }
    of_state zero h = refl
    of_state (suc zero) h = refl
    of_state (suc (suc n)) h = absurd (omega arith)

abbrev pub EvtTurns : Bool → ℕ → Crowd Evt (Unit {0}) → Type 0
EvtTurns consumes threads = Reach is_set reset signal_once consumes threads zeroed

-- The state is 0 or 1; where it is 1 and a thread sleeps, a thread is woken, if no signal is consumed; and what is taken was
-- signalled.
record Inv (consumes : Bool) (c : Crowd Evt (Unit {0})) : Type 0 where
  bit : c.object.state ≤ 1
  awake : (consumes ≡ true) ⊎ ((c.object.state ≡ 0) ⊎ ((c.sleepers ≡ 0) ⊎ (0 < c.woken)))
  paid : c.taken + c.object.state ≤ length c.made

test-Inv :
    (consumes : Bool) (c : Crowd Evt (Unit {0}))
    → c.object.state ≤ 1
    → c.taken + c.object.state ≤ length c.made
    → Inv consumes (test is_set reset signal_once c)
test-Inv consumes c bit paid = record {
  bit = ground arith;
  awake = ground arith;
  paid = ground arith;
}

shout-Inv :
    (consumes : Bool) (c : Crowd Evt (Unit {0}))
    → Inv consumes c
    → Inv consumes (shout is_set reset signal_once tt c)
shout-Inv consumes c inv = rw (signal_once_lem c.object inv.bit) (record {
  bit = omega arith;
  awake = ground (arith, inv.bit, inv.awake);
  paid = omega (arith, inv.bit, inv.paid);
})

move-Inv :
    (consumes : Bool) (threads : ℕ) (m : Move (Unit {0})) (c d : Crowd Evt (Unit {0}))
    → move is_set reset signal_once consumes threads m c ≡ some d
    → Inv consumes c
    → Inv consumes d
unfolding move
move-Inv consumes threads enter c d e inv =
    subst (Inv consumes) (if_some _ (test is_set reset signal_once c) d e).1
      (test-Inv consumes c inv.bit inv.paid)
move-Inv consumes threads resume c d e inv =
    subst (Inv consumes) (if_some (ltb 0 c.woken) _ d e).1
      (test-Inv consumes (record c { woken = c.woken - 1 }) inv.bit inv.paid)
move-Inv consumes threads stir c d e inv =
    subst (Inv consumes) (if_some (ltb 0 c.sleepers) _ d e).1
      (record { bit = inv.bit; awake = inr (inr (inr (omega arith))); paid = inv.paid })
move-Inv consumes threads time_out c d e inv =
    subst (Inv consumes) (if_some (ltb 0 c.sleepers) _ d e).1
      (record { bit = inv.bit; awake = ground (arith, inv.awake); paid = inv.paid })
move-Inv consumes threads expire c d e inv =
    let (some_, same) = if_some (consumes && ltb 0 c.woken) _ d e in
    subst (Inv consumes) same
      (record { bit = inv.bit; awake = inl (ground (arith, some_)); paid = inv.paid })
move-Inv consumes threads (raise tt) c d e inv =
    subst (Inv consumes) (if_some true _ d e).1 (shout-Inv consumes c inv)

EvtTurns-Inv :
    {consumes : Bool} {threads : ℕ} {c : Crowd Evt (Unit {0})}
    → EvtTurns consumes threads c
    → Inv consumes c
EvtTurns-Inv begin = record { bit = omega arith; awake = inr (inl refl); paid = omega arith }
EvtTurns-Inv {consumes} {threads} (then_ m c d r e) =
    move-Inv consumes threads m c d e (EvtTurns-Inv r)

-- However many threads wait on an event and signal it, and in whatever order they come, are woken
-- and run into their deadlines: unless a wait that ends at its deadline may consume a signal, some
-- thread is about to wake up when the event is set and a thread sleeps; and in any case the waits
-- that have returned 0, with the signal that is kept, are no more than the signals made.
pub EvtTurns-awake :
    {consumes : Bool} {threads : ℕ} {c : Crowd Evt (Unit {0})}
    → EvtTurns consumes threads c
    → ((consumes ≡ true) ⊎ ((is_set c.object ≡ false) ⊎ ((c.sleepers ≡ 0) ⊎ (0 < c.woken))))
      × (c.taken + c.object.state ≤ length c.made)
EvtTurns-awake r = let inv = EvtTurns-Inv r in (ground (arith, inv.awake), inv.paid)
