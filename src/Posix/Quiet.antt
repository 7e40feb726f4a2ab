-- ===== src/Posix/Quiet.antt =====
-- A system where every call succeeds, on one object that no other thread touches.
use wkc.Common.{ℤ, pos, [], none}
use wkc.Posix.{Call, Log, Env, World}

abbrev pub quiet_answer : Log → Call → ℤ
quiet_answer log Call.calloc = pos 4096
quiet_answer log _ = pos 0

abbrev pub quiet : {S : Type 0} → Env S
quiet = record {
  answer = quiet_answer;
  resume = λ log s. s;
  now = λ log. record { sec = 5; nsec = 999_000_000 };
}

-- The same system where timed waits return `r`.
abbrev pub timed_answer : ℤ → Log → Call → ℤ
timed_answer r log (Call.cond_timedwait tp) = r
timed_answer r log _ = pos 0

abbrev pub timed : {S : Type 0} → ℤ → Env S
timed r = record {
  answer = timed_answer r;
  resume = λ log s. s;
  now = λ log. record { sec = 5; nsec = 999_000_000 };
}

-- The same system where another thread makes `f` of the object in every wait.
abbrev pub changing : {S : Type 0} → (S → S) → Env S
changing f = record {
  answer = quiet_answer;
  resume = λ log s. f s;
  now = λ log. record { sec = 5; nsec = 999_000_000 };
}

abbrev pub start : {S : Type 0} → S → World S
start s = record { object = s; log = []; out = none }
