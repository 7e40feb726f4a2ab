-- ===== src/ListR/Progress.antt =====
-- The threads of ListR/Walkers: which locks they hold, and whether one of them can go on.
use wkc.Common.{
  ℕ, suc, ◌+◌, ◌≤◌, ◌<◌, leb, true, false, Option, none, some, List, [], ◌∷◌, ◌++◌, ◌≡◌, refl, sym,
  ap, ◌⊎◌, inl, inr, ◌==◌, if◌then◌else◌, arith, Bool-cases,
}
use mathlib.Core.Path.{subst}
use wkc.ListR.Walkers.{
  Phase, outside, finished, on, crossing, holds, is_free, next, all_finished, all_outside, Reach,
  start, move, holders, Progress,
}

-- one more than the last lock that a thread holds, and that any thread holds
abbrev pub height : Phase → ℕ
height outside = 0
height finished = 0
height (on i) = suc i
height (crossing i) = suc (suc i)

abbrev top : List Phase → ℕ
top [] = 0
top (w ∷ ws) = let rest = top ws in if leb rest (height w) then height w else rest

holds-height : (q : ℕ) (w : Phase) → height w ≤ q → holds q w ≡ false
holds-height q outside h = refl
holds-height q finished h = refl
holds-height q (on i) h = ground arith
holds-height q (crossing i) h = ground arith

is_free-top : (q : ℕ) (ws : List Phase) → top ws ≤ q → is_free q ws ≡ true
is_free-top q [] h = refl
is_free-top q (w ∷ ws) h = ground (arith, is_free-top q ws, holds-height q w)

-- a thread that holds the last lock
abbrev Highest : List Phase → Type 0
Highest ws =
    (before : List Phase) × (w : Phase) × (after : List Phase) × (ws ≡ before ++ (w ∷ after))
    × (height w ≡ top ws)

highest : (w : Phase) (ws : List Phase) → Highest (w ∷ ws)
highest w [] = ([], w, [], refl, ground arith)
highest w (x ∷ ws) = elim (Bool-cases (leb (top (x ∷ ws)) (height w))) [
  | inl first ↦ ([], w, x ∷ ws, refl, ground arith)
  | inr later ↦
      let (before, v, after, split, high) = highest x ws in
      (w ∷ before, v, after, ap (λ (l : List Phase). w ∷ l) split, ground arith)
]

-- a thread that is still outside, where none holds a lock
abbrev Waits : List Phase → Type 0
Waits ws = (before : List Phase) × (after : List Phase) × (ws ≡ before ++ (outside ∷ after))

waits : (ws : List Phase) → top ws ≡ 0 → all_finished ws ≡ false → Waits ws
waits [] h some_left = cc some_left
waits (outside ∷ ws) h some_left = ([], ws, refl)
waits (finished ∷ ws) h some_left =
    let (before, after, split) = waits ws (ground arith) some_left in
    (finished ∷ before, after, ap (λ (l : List Phase). finished ∷ l) split)
waits (on i ∷ ws) h some_left = absurd (ground arith)
waits (crossing i ∷ ws) h some_left = absurd (ground arith)

moves :
    (n : ℕ) (ws : List Phase) (w : Phase)
    → height w ≡ top ws
    → 0 < top ws
    → (w' : Phase) × (next n ws w ≡ some w')
unfolding next
moves n ws outside h live = absurd (omega arith)
moves n ws finished h live = absurd (omega arith)
moves n ws (on i) h live = elim (Bool-cases (i == n)) [
  | inl last ↦ (finished, rw last refl)
  | inr more ↦ (crossing i, rw (more, is_free-top (suc i) ws (omega arith)) refl)
]
moves n ws (crossing i) h live = (on (suc i), refl)

Progress-outside : (n : ℕ) (ws : List Phase) → top ws ≡ 0 → all_finished ws ≡ false → Progress n ws
unfolding next
Progress-outside n ws none_held some_left =
    let (before, after, split) = waits ws none_held some_left in
    (before, outside, after, on 0, split, rw (is_free-top 0 ws (omega arith)) refl)

Progress-highest : (n : ℕ) (ws : List Phase) → 0 < top ws → Progress n ws
Progress-highest n [] h = absurd (omega arith)
Progress-highest n (w ∷ ws) h =
    let (before, v, after, split, high) = highest w ws in
    let (v', step) = moves n (w ∷ ws) v high h in (before, v, after, v', split, step)

pub progress : (n : ℕ) (ws : List Phase) → all_finished ws ≡ false → Progress n ws
progress n ws some_left = elim (Bool-cases (top ws == 0)) [
  | inl none_held ↦ Progress-outside n ws (ground arith) some_left
  | inr some_held ↦ Progress-highest n ws (ground arith)
]

pub holders-append :
    (q : ℕ) (before : List Phase) (w : Phase) (after : List Phase)
    → holders q (before ++ (w ∷ after))
      ≡ (if holds q w then 1 else 0) + (holders q before + holders q after)
holders-append q [] w after = omega arith
holders-append q (x ∷ before) w after = ground (arith, holders-append q before w after)

pub holders-is_free : (q : ℕ) (ws : List Phase) → is_free q ws ≡ true → holders q ws ≡ 0
holders-is_free q [] h = refl
holders-is_free q (w ∷ ws) h = ground (arith, holders-is_free q ws)

pub holders-outside : (q : ℕ) (ws : List Phase) → all_outside ws ≡ true → holders q ws ≡ 0
holders-outside q [] h = refl
holders-outside q (outside ∷ ws) h = omega (arith, holders-outside q ws h)
holders-outside q (finished ∷ ws) h = cc h
holders-outside q (on i ∷ ws) h = cc h
holders-outside q (crossing i ∷ ws) h = cc h

abbrev pub weight : ℕ → Phase → ℕ
weight q w = if holds q w then 1 else 0

-- a call takes only a lock that is free
abbrev Fits : ℕ → List Phase → Phase → Option Phase → Type 0
Fits q ws w none = Unit
Fits q ws w (some w') = weight q w' ≤ weight q w + (if is_free q ws then 1 else 0)

next-Fits : (n q : ℕ) (ws : List Phase) (w : Phase) → Fits q ws w (next n ws w)
unfolding next
next-Fits n q ws outside = elim (Bool-cases (is_free 0 ws)) [
  | inl free ↦ rw free (ground arith)
  | inr taken ↦ rw taken tt
]
next-Fits n q ws finished = tt
next-Fits n q ws (on i) = elim (Bool-cases (i == n)) [
  | inl last ↦ rw last (ground arith)
  | inr more ↦ elim (Bool-cases (is_free (suc i) ws)) [
    | inl free ↦ rw (more, free) (ground arith)
    | inr taken ↦ rw (more, taken) tt
  ]
]
next-Fits n q ws (crossing i) = ground arith

-- no lock is held twice
abbrev pub Exclusive : List Phase → Type 0
Exclusive ws = (q : ℕ) → holders q ws < 2

pub move-Exclusive :
    (n : ℕ) (before : List Phase) (w w' : Phase) (after : List Phase)
    → let ws = before ++ (w ∷ after) in
      Exclusive ws → next n ws w ≡ some w' → Exclusive (before ++ (w' ∷ after))
move-Exclusive n before w w' after safe step q =
    let ws = before ++ (w ∷ after) in
    let fits : weight q w' ≤ weight q w + (if is_free q ws then 1 else 0) =
      subst (Fits q ws w) step (next-Fits n q ws w) in
    ground (
      arith,
      fits,
      safe q,
      holders-append q before w after,
      holders-append q before w' after,
      holders-is_free q ws,
    )

reach-Exclusive : (n : ℕ) (ws : List Phase) → Reach n ws → Exclusive ws
reach-Exclusive n ws (start _ none_in) = λ q. omega (arith, holders-outside q ws none_in)
reach-Exclusive n ws' (move before w w' after ws _ reached split step split') =
    subst Exclusive (sym split') (
      move-Exclusive n before w w' after (subst Exclusive split (reach-Exclusive n ws reached))
        (subst (λ ws. next n ws w ≡ some w') split step))

-- Whatever the order in which the threads make their calls, no lock of the list is held by two of
-- them, and unless all have ended one of them can make its next call: they never block each other
-- for ever.
pub reach-Progress :
    (n : ℕ) (ws : List Phase)
    → Reach n ws
    → Exclusive ws × ((all_finished ws ≡ true) ⊎ Progress n ws)
reach-Progress n ws reached = (
  reach-Exclusive n ws reached,
  elim (Bool-cases (all_finished ws)) [
    | inl over ↦ inl over
    | inr some_left ↦ inr (progress n ws some_left)
  ],
)
