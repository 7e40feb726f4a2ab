-- ===== src/ListR/Cost.antt =====
-- How much each thread of ListR/Changes can do yet.
use wkc.Common.{
  ℕ, suc, ◌+◌, ◌-◌, ◌*◌, ◌≤◌, Bool, true, false, List, [], ◌∷◌, ◌++◌, ◌≡◌, refl, if◌then◌else◌,
  arith,
}
use wkc.ListR.Walkers.{Phase, outside, finished, on, crossing, holds, holders}
use wkc.ListR.Changes.{lower, lift, each}

abbrev pub outsiders : List Phase → ℕ
outsiders [] = 0
outsiders (w ∷ ws) = (if holds_none w then 1 else 0) + outsiders ws
  where
    holds_none : Phase → Bool
    holds_none outside = true
    holds_none finished = false
    holds_none (on i) = false
    holds_none (crossing i) = false

-- the most that a thread can do yet, on a list of `n` nodes that may come to have `most`
abbrev pub cost : ℕ → ℕ → Phase → ℕ
cost most n outside = 2 * most + 2
cost most n finished = 0
cost most n (on j) = 2 * (n - j) + 1
cost most n (crossing j) = 2 * (n - j)

abbrev pub total : ℕ → ℕ → List Phase → ℕ
total most n [] = 0
total most n (w ∷ ws) = cost most n w + total most n ws

pub outsiders-append :
    (before : List Phase) (w : Phase) (after : List Phase)
    → outsiders (before ++ (w ∷ after)) ≡ outsiders (w ∷ []) + (outsiders before + outsiders after)
outsiders-append [] w after = omega arith
outsiders-append (x ∷ before) w after = omega (arith, outsiders-append before w after)

pub total-append :
    (most n : ℕ) (before : List Phase) (w : Phase) (after : List Phase)
    → total most n (before ++ (w ∷ after))
      ≡ cost most n w + (total most n before + total most n after)
total-append most n [] w after = omega arith
total-append most n (x ∷ before) w after = omega (arith, total-append most n before w after)

pub total-fewer :
    (most most' n : ℕ) (ws : List Phase) → most' ≤ most → total most' n ws ≤ total most n ws
total-fewer most most' n [] h = omega arith
total-fewer most most' n (outside ∷ ws) h = omega (arith, total-fewer most most' n ws h)
total-fewer most most' n (finished ∷ ws) h = omega (arith, total-fewer most most' n ws h)
total-fewer most most' n (on j ∷ ws) h = omega (arith, total-fewer most most' n ws h)
total-fewer most most' n (crossing j ∷ ws) h = omega (arith, total-fewer most most' n ws h)

cost-lower : (most n i : ℕ) (w : Phase) → cost most n (lower i w) ≤ cost (suc most) (suc n) w
cost-lower most n i outside = omega arith
cost-lower most n i finished = omega arith
cost-lower most n i (on j) = ground arith
cost-lower most n i (crossing j) = ground arith

pub total-lower :
    (most n i : ℕ) (ws : List Phase)
    → total most n (each (lower i) ws) ≤ total (suc most) (suc n) ws
total-lower most n i [] = omega arith
total-lower most n i (w ∷ ws) = omega (arith, cost-lower most n i w, total-lower most n i ws)

cost-lift :
    (most n : ℕ) (w : Phase) → holds 0 w ≡ false → cost most (suc n) (lift w) ≤ cost most n w
cost-lift most n outside h = omega arith
cost-lift most n finished h = omega arith
cost-lift most n (on j) h = ground arith
cost-lift most n (crossing j) h = ground arith

pub total-lift :
    (most n : ℕ) (ws : List Phase)
    → holders 0 ws ≡ 0
    → total most (suc n) (each lift ws) ≤ total most n ws
total-lift most n [] h = omega arith
total-lift most n (w ∷ ws) h = ground (arith, cost-lift most n w, total-lift most n ws)

pub outsiders-lower : (i : ℕ) (ws : List Phase) → outsiders (each (lower i) ws) ≡ outsiders ws
outsiders-lower i [] = refl
outsiders-lower i (outside ∷ ws) = omega (arith, outsiders-lower i ws)
outsiders-lower i (finished ∷ ws) = omega (arith, outsiders-lower i ws)
outsiders-lower i (on j ∷ ws) = ground (arith, outsiders-lower i ws)
outsiders-lower i (crossing j ∷ ws) = ground (arith, outsiders-lower i ws)

pub outsiders-lift : (ws : List Phase) → outsiders (each lift ws) ≡ outsiders ws
outsiders-lift [] = refl
outsiders-lift (outside ∷ ws) = omega (arith, outsiders-lift ws)
outsiders-lift (finished ∷ ws) = omega (arith, outsiders-lift ws)
outsiders-lift (on j ∷ ws) = ground (arith, outsiders-lift ws)
outsiders-lift (crossing j ∷ ws) = ground (arith, outsiders-lift ws)

abbrev pub remaining : ℕ → List Phase → ℕ
remaining n ws = total (n + outsiders ws) n ws
