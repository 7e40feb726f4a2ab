-- ===== src/Posix/Ledger.antt =====
-- What a log says: whether the caller has the mutex, and which resources are still there.
use wkc.Common.{ℕ, suc, ℤ, is_zero, Bool, true, false, not, [], ◌∷◌, if◌then◌else◌}
use wkc.Posix.{Call, Log}

-- The caller has the mutex.
abbrev pub held : Log → Bool
held [] = false
held ((Call.mutex_lock, r) ∷ log) = if is_zero r then true else held log
held ((Call.mutex_unlock, r) ∷ log) = if is_zero r then false else held log
held (_ ∷ log) = held log

-- How many times a kind of call succeeded.
abbrev pub count : (Call → ℤ → Bool) → Log → ℕ
count p [] = 0
count p ((c, r) ∷ log) = if p c r then suc (count p log) else count p log

-- `calloc` that gave an address
abbrev pub allocated : Call → ℤ → Bool
allocated Call.calloc r = not (is_zero r)
allocated _ _ = false

abbrev pub freed : Call → ℤ → Bool
freed Call.free r = true
freed _ _ = false

abbrev pub mutex_made : Call → ℤ → Bool
mutex_made Call.mutex_init r = is_zero r
mutex_made _ _ = false

-- a call of `pthread_mutex_destroy`, whatever it returns
abbrev pub mutex_gone : Call → ℤ → Bool
mutex_gone Call.mutex_destroy r = true
mutex_gone _ _ = false

abbrev pub signalled : Call → ℤ → Bool
signalled Call.cond_signal r = true
signalled _ _ = false

abbrev pub broadcasted : Call → ℤ → Bool
broadcasted Call.cond_broadcast r = true
broadcasted _ _ = false
