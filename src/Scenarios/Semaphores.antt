-- ===== src/Scenarios/Semaphores.antt =====
-- The semaphore.
use wkc.Common.{pos, negsuc, minus_one, ◌+ℤ◌, is_neg, ◌≡◌, refl, true, arith}
use wkc.Posix.{World, done}
use wkc.Posix.Ledger.{held}
use wkc.Posix.Quiet.{quiet, start}
use wkc.Wait.{wait_ready}
use wkc.Sem.{Sem, broadcast, wait, is_free}
use wkc.Sem.Post.{InRange, broadcast-keeps_mutex}
use wkc.Sem.Taken.{TakeOutcome, wait-TakeOutcome, IsSmooth}

abbrev two_free : World Sem
two_free = start (record { cnt = pos 2 })

below_range : InRange (pos 2 +ℤ negsuc 4)
unfolding ◌+ℤ◌
below_range = (omega arith, omega arith)

below_zero : is_neg (pos 2 +ℤ negsuc 4) ≡ true
unfolding ◌+ℤ◌
below_zero = refl

broadcast-keeps_mutex_example :
    ((broadcast (negsuc 4) true quiet two_free).0 ≡ done minus_one)
    × ((broadcast (negsuc 4) true quiet two_free).1.object.cnt ≡ pos 2 +ℤ negsuc 4)
    × (held (broadcast (negsuc 4) true quiet two_free).1.log ≡ true)
broadcast-keeps_mutex_example =
    broadcast-keeps_mutex (negsuc 4) quiet two_free (λ log. refl) (λ log. refl) below_range
      below_zero

wait-TakeOutcome_example :
    TakeOutcome (wait_ready is_free 2 20 quiet two_free).1 (wait 2 true 20 quiet two_free)
wait-TakeOutcome_example = wait-TakeOutcome 2 20 quiet two_free refl

smooth : IsSmooth quiet
smooth = record { lock = λ log. refl; unlock = λ log. refl; wake = λ log. refl }
