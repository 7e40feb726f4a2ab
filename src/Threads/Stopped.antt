-- ===== src/Threads/Stopped.antt =====
-- Runs of the threads of Threads/Stopping.
use wkc.Common.{
  ℕ, suc, ◌≤◌, ◌<◌, ◌≡◌, ◌≢◌, refl, sym, ap, ◌∙◌, Bool, true, false, some, Bool-cases, inl, inr,
  ◌==◌, arith,
}
use wkc.Threads.Stopping.{
  working, asking, Stopper, before, after, testing, joining, State, set, position, has_mutex, Step,
  locks, skips, begins, joins, unlocks, works, passes, detaches, starts, Run, start, later,
}

-- The thread `i` waits for the mutex that `StopAllThreads` has, which has not joined it yet and will.
record Waiting (i : ℕ) (s : State) : Type 0 where
  at : ℕ
  stands_at : position s.stopper ≡ some at
  not_yet : at ≤ i
  listed : s.joinable i ≡ true
  asks : s.tasks i ≡ asking

set-other : {A : Type 0} (f : ℕ → A) (i j : ℕ) (x y : A) → f i ≢ y → f j ≡ y → set f i x j ≡ y
set-other f i j x y differs e = elim (Bool-cases (j == i)) [
  | inl here ↦ absurd (differs (sym (ap f (ground (arith, here))) ∙ e))
  | inr other ↦ rw other e
]

same_place : (p : Stopper) (a b : ℕ) → position p ≡ some a → position p ≡ some b → a ≡ b
same_place p a b e f = cc (e, f)

Step-Waiting :
    {kept : ℕ → Bool} {n i : ℕ} {s t : State}
    → i < n
    → kept i ≡ true
    → Step kept n s t
    → Waiting i s
    → Waiting i t
Step-Waiting inside keeps (locks e) w = absurd (cc (ap position e, w.stands_at))
Step-Waiting {i = i} {s = s} inside keeps (skips k e less gone) w =
    let here = same_place s.stopper k w.at (ap position e) w.stands_at in
    elim (Bool-cases (k == i)) [
      | inl mine ↦
          let own : k ≡ i = ground (arith, mine) in
          absurd (cc (sym (ap s.joinable own) ∙ gone, w.listed))
      | inr other ↦ record {
        at = suc k;
        stands_at = refl;
        not_yet = ground (arith, other, here, w.not_yet);
        listed = w.listed;
        asks = w.asks;
      }
    ]
Step-Waiting {s = s} inside keeps (begins k e less can) w = record {
  at = w.at;
  stands_at = sym (ap position e) ∙ w.stands_at;
  not_yet = w.not_yet;
  listed = w.listed;
  asks = w.asks;
}
Step-Waiting {i = i} {s = s} inside keeps (joins k e ended) w =
    let here = same_place s.stopper k w.at (ap position e) w.stands_at in
    elim (Bool-cases (k == i)) [
      | inl mine ↦
          let own : k ≡ i = ground (arith, mine) in
          absurd (cc (sym (ap s.tasks own) ∙ ended, w.asks))
      | inr other ↦ record {
        at = suc k;
        stands_at = refl;
        not_yet = ground (arith, other, here, w.not_yet);
        listed = rw (Bool-sym k i other) w.listed;
        asks = w.asks;
      }
    ]
  where
    Bool-sym : (k i : ℕ) → (k == i) ≡ false → (i == k) ≡ false
    Bool-sym k i h = ground arith
Step-Waiting {n = n} {s = s} inside keeps (unlocks e) w =
    absurd
      (omega (arith, same_place s.stopper n w.at (ap position e) w.stands_at, w.not_yet, inside))
Step-Waiting {i = i} {s = s} inside keeps (works j t e) w = record {
  at = w.at;
  stands_at = w.stands_at;
  not_yet = w.not_yet;
  listed = w.listed;
  asks = set-other s.tasks j i t asking (λ asks. cc (e, asks)) w.asks;
}
Step-Waiting {s = s} inside keeps (passes j e free) w =
    absurd (mutexed s.stopper w.at w.stands_at free)
  where
    mutexed : (p : Stopper) (k : ℕ) → position p ≡ some k → has_mutex p ≢ false
    mutexed before k e h = cc e
    mutexed after k e h = cc e
    mutexed (testing j) k e h = cc h
    mutexed (joining j) k e h = cc h
Step-Waiting {kept} {i = i} {s = s} inside keeps (detaches j free other) w = record {
  at = w.at;
  stands_at = w.stands_at;
  not_yet = w.not_yet;
  asks = w.asks;
  listed = elim (Bool-cases (i == j)) [
    | inl here ↦ let own : i ≡ j = ground (arith, here) in absurd (cc (ap kept own, keeps, free))
    | inr apart ↦ rw apart w.listed
  ];
}
Step-Waiting {i = i} {s = s} inside keeps (starts j gone ended) w = record {
  at = w.at;
  stands_at = w.stands_at;
  not_yet = w.not_yet;
  asks = set-other s.tasks j i working asking (λ asks. cc (ended, asks)) w.asks;
  listed = set-other s.joinable j i true true (λ can. cc (gone, can)) w.listed;
}

Run-Waiting :
    {kept : ℕ → Bool} {n i : ℕ} {s t : State}
    → i < n
    → kept i ≡ true
    → Run kept n s t
    → Waiting i s
    → Waiting i t
Run-Waiting inside keeps start w = w
Run-Waiting inside keeps (later r step) w =
    Step-Waiting inside keeps step (Run-Waiting inside keeps r w)

-- Where `StopAllThreads` is at the thread `k` and a thread `i` of the list from there on waits for the
-- mutex, to start or to stop another one, and `i` is joinable and no other thread detaches it, then
-- neither goes on whatever all the threads do: `StopAllThreads` is still at the test or the join of
-- `i` or of a thread before it, and `i` still waits.
pub Run-stuck :
    {kept : ℕ → Bool} {n k i : ℕ} {s t : State}
    → position s.stopper ≡ some k
    → k ≤ i
    → i < n
    → kept i ≡ true
    → s.joinable i ≡ true
    → s.tasks i ≡ asking
    → Run kept n s t
    → ((k' : ℕ) × (position t.stopper ≡ some k') × (k' ≤ i)) × (t.tasks i ≡ asking)
Run-stuck {k = k} stands_at not_yet inside keeps listed asks r =
    let w =
      Run-Waiting inside keeps r (record {
        at = k;
        stands_at = stands_at;
        not_yet = not_yet;
        listed = listed;
        asks = asks;
      }) in
    ((w.at, w.stands_at, w.not_yet), w.asks)
