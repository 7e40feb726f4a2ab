-- ===== src/Scenarios/Events.antt =====
-- The two events.
use wkc.Common.{ℕ, pos, ◌≢◌, refl, true, arith}
use wkc.Posix.{World}
use wkc.Posix.Quiet.{quiet, timed, start}
use wkc.Wait.{wait_ready, forever, etimedout}
use wkc.Event.{Evt, is_set, wait}
use wkc.Event.Taken
use wkc.Event.Taken.{TakeOutcome, event_wait-TakeOutcome, wait-signal}
use wkc.RwEvent.{EvtRw, broadcast}
use wkc.RwEvent.Read
use wkc.RwEvent.Read.{
  IsSmooth, poll_lem, poll-broadcast, poll-reset, wait_any_wakeup, wait_times_out, wait-rd,
}

abbrev unset : World Evt
unset = start (record { state = 0 })

abbrev set_once : World Evt
set_once = start (record { state = 1 })

quiet_evt-IsSmooth : Taken.IsSmooth quiet
quiet_evt-IsSmooth = record { lock = λ log. refl; unlock = λ log. refl; wake = λ log. refl }

abbrev two_readers : World EvtRw
two_readers = start (record { rd = pos 2; wr = 0 })

abbrev flagged : World EvtRw
flagged = start (record { rd = pos 2; wr = 1 })

quiet_rw-IsSmooth : Read.IsSmooth quiet
quiet_rw-IsSmooth = record {
  lock = λ log. refl;
  unlock = λ log. refl;
  wake = λ log. refl;
  has_clock = λ log. refl;
  has_time = λ log. refl;
}

late-IsSmooth : Read.IsSmooth (timed etimedout)
late-IsSmooth = record {
  lock = λ log. refl;
  unlock = λ log. refl;
  wake = λ log. refl;
  has_clock = λ log. refl;
  has_time = λ log. refl;
}

abbrev shown : World EvtRw
shown = (broadcast true quiet two_readers).1

some_time : ◌≢◌ {A = ℕ} 20 0
some_time h = omega arith

limited_time : ◌≢◌ {A = ℕ} 20 forever
limited_time h = omega arith

event_wait-TakeOutcome_example :
    TakeOutcome
      (wait_ready is_set 2 20 (timed etimedout) unset).1
      (wait 2 true 20 (timed etimedout) unset)
event_wait-TakeOutcome_example = event_wait-TakeOutcome 2 20 (timed etimedout) unset refl
