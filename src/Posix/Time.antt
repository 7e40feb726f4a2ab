-- ===== src/Posix/Time.antt =====
-- The deadline of a timed wait, as evt.c and wm_sem.c compute it from the clock.
use wkc.Common.{ℕ, ◌+◌, ◌-◌, ◌*◌, ◌/◌, ◌%◌, ◌≤◌, ◌<◌, ◌≡◌, ◌↔◌, ltb, if◌then◌else◌, arith}
use wkc.Posix.{Timespec}

abbrev pub billion : ℕ
billion = 1_000_000_000

unfoldable pub deadline : Timespec → ℕ → Timespec
deadline now ms =
    let sec = now.sec + ms / 1000 in
    let nsec = now.nsec + ms % 1000 * 1000000 in
    if ltb billion nsec
    then record { sec = sec + 1; nsec = nsec - billion }
    else record { sec = sec; nsec = nsec }

-- For a clock whose nanoseconds are below a second, the deadline is the clock's time and the
-- milliseconds together, to the nanosecond, and its nanoseconds are at most a second.
pub deadline_exact :
    (now : Timespec) (ms : ℕ)
    → now.nsec < billion
    → ((deadline now ms).sec * billion + (deadline now ms).nsec
        ≡ now.sec * billion + now.nsec + ms * 1000000)
      × ((deadline now ms).nsec ≤ billion)
unfolding deadline
deadline_exact now ms h = ground arith

-- The deadline is one that the system refuses, with a whole second or more of nanoseconds,
-- exactly when the two fractions of a second add up to one second.
pub deadline_refused :
    (now : Timespec) (ms : ℕ)
    → now.nsec < billion
    → (billion ≤ (deadline now ms).nsec) ↔ (now.nsec + ms % 1000 * 1000000 ≡ billion)
unfolding deadline
deadline_refused now ms h = ground arith
