-- ===== src/Scenarios/Crowds.antt =====
-- Runs of several threads on one event and on one semaphore.
use wkc.Common.{
  true, [], ◌∷◌, length, ℕ, ◌+◌, ◌+ℤ◌, ◌≤◌, ◌<◌, pos, ◌≡◌, refl, ◌⊎◌, false, some, arith,
}
use wkc.Wait.Crowd.{Crowd, enter, raise, move, nobody, begin, then_}
use wkc.Event.{Evt, is_set, reset}
use wkc.Event.Crowd.{signal_once, signal_once_lem, EvtTurns, EvtTurns-awake}
use wkc.RwEvent.Crowd as RwCrowd
use wkc.RwEvent.Crowd.{Readers, no_reader, shouted, RdTurns-heard}
use wkc.Event.Lost.{EvtTurns-lost}
use wkc.Sem.{Sem, is_free, take_one}
use wkc.Sem.Crowd.{Giving, given, give_once, holding, SemTurns, take_one_lem, SemTurns-balanced}
use wkc.Sem.Stranded.{ones, SemTurns-stranded}

-- a thread waits and the event is signalled
abbrev one_waits : Crowd Evt (Unit {0})
one_waits = record { object = record { state = 0 }; sleepers = 1; woken = 0; taken = 0; made = [] }

abbrev one_woken : Crowd Evt (Unit {0})
one_woken = record {
  object = record { state = 1 };
  sleepers = 0;
  woken = 1;
  taken = 0;
  made = tt ∷ [];
}

one_waits_moves :
    move is_set reset signal_once false 2 enter
      (nobody is_set reset signal_once (record { state = 0 }))
    ≡ some one_waits
unfolding move
one_waits_moves = refl

one_woken_moves : move is_set reset signal_once false 2 (raise tt) one_waits ≡ some one_woken
unfolding move
one_woken_moves = rw (signal_once_lem (record { state = 0 }) (omega arith)) refl

woken_turns : EvtTurns false 2 one_woken
woken_turns = then_ (raise tt) _ _ (then_ enter _ _ begin one_waits_moves) one_woken_moves

EvtTurns-awake_example :
    ((false ≡ true)
      ⊎ ((is_set one_woken.object ≡ false) ⊎ ((one_woken.sleepers ≡ 0) ⊎ (0 < one_woken.woken))))
    × (one_woken.taken + one_woken.object.state ≤ length one_woken.made)
EvtTurns-awake_example = EvtTurns-awake woken_turns

-- a semaphore with three is taken once
abbrev one_took : Crowd Sem Giving
one_took = record { object = holding 2; sleepers = 0; woken = 0; taken = 1; made = [] }

one_took_moves :
    move is_free take_one give_once true 1 enter (nobody is_free take_one give_once (holding 3))
    ≡ some one_took
unfolding move
one_took_moves = rw (take_one_lem 2) refl

took_turns : SemTurns true 1 3 one_took
took_turns = then_ enter _ _ begin one_took_moves

SemTurns-balanced_example :
    (left : ℕ) × (one_took.object.cnt ≡ pos left)
    × (left + one_took.taken ≡ 3 + given one_took.made)
    × ((left ≡ 0) ⊎ ((one_took.sleepers ≡ 0) ⊎ (1 < 1)))
SemTurns-balanced_example = SemTurns-balanced true 1 3 took_turns (omega arith)

SemTurns-stranded_example :
    SemTurns true 3 0 (record {
      object = record { cnt = pos 2 };
      sleepers = 2;
      woken = 0;
      taken = 1;
      made = ones 3;
    })
SemTurns-stranded_example = SemTurns-stranded true 1 (omega arith)

-- a reader waits
abbrev one_reads : Readers
one_reads = record { object = record { rd = pos 1; wr = 0 }; sleepers = 1; woken = 0 }

one_reads_moves : RwCrowd.move RwCrowd.enter no_reader ≡ some one_reads
unfolding RwCrowd.move ◌+ℤ◌
one_reads_moves = refl

RdTurns-heard_example :
    (one_reads.object.rd ≡ pos (one_reads.sleepers + one_reads.woken))
    × ((shouted one_reads).sleepers ≡ 0)
    × ((shouted one_reads).woken ≡ one_reads.sleepers + one_reads.woken)
    × ((shouted one_reads).object.wr ≡ 1)
RdTurns-heard_example =
    RdTurns-heard (RwCrowd.then_ RwCrowd.enter no_reader one_reads RwCrowd.begin one_reads_moves)

EvtTurns-lost_example :
    EvtTurns true 3
      (record { object = record { state = 1 }; sleepers = 2; woken = 0; taken = 0; made = tt ∷ [] })
EvtTurns-lost_example = EvtTurns-lost 1
