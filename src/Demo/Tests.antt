-- ===== src/Demo/Tests.antt =====
-- The theorem on the demo at a few lines.
use wkc.Common.{ℕ, suc, pos, List, [], ◌∷◌}
use wkc.Demo.{Env, Log}

-- a new number for each call
abbrev count_calls : Log → ℕ
count_calls [] = 0
count_calls (_ ∷ log) = suc (count_calls log)

abbrev fresh : Env
fresh = record {
  created = λ k h log. suc (count_calls log);
  thread = λ log. suc (count_calls log);
  timer_fd = λ log. pos 7;
  queue_fd = λ log. pos 8;
}

abbrev lines : List ℕ
lines = b'3' ∷ b'5' ∷ b'3' ∷ b'1' ∷ b'7' ∷ b'6' ∷ b'9' ∷ b'b' ∷ b'x' ∷ b'q' ∷ []
