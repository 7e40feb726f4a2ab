-- ===== src/ListR/Removed.antt =====
-- The threads of ListR/Changes: a node that `remove_if` deletes, and whether they can go on.
use wkc.Common.{
  ℕ, suc, ◌-◌, ◌≤◌, ◌<◌, true, false, some, List, [], ◌∷◌, ◌++◌, ◌≡◌, refl, ◌⊎◌, inl, inr, arith,
  Bool-cases,
}
use mathlib.Core.Path.{subst}
use wkc.ListR.Walkers.{
  Phase, outside, finished, on, crossing, holds, is_free, next, all_finished, holders, Progress,
}
use wkc.ListR.Progress.{
  Exclusive, holders-append, holders-outside, holders-is_free, move-Exclusive, progress,
}
use wkc.ListR.Changes.{
  lower, lift, each, Step, Run, start, later, walk, found, removed, pushed, touches, touching,
  is_inside, all_inside,
}
use wkc.ListR.Moved.{
  holders-lower, holders-lift, all_inside-append, all_inside-lower, all_inside-lift,
  all_inside-outside, Stays, next-Stays,
}

-- No lock is held twice, and all threads are at nodes that the list has.
pub record Inv (n : ℕ) (ws : List Phase) : Type 0 where
  pub safe : Exclusive ws
  pub inside : all_inside n ws ≡ true

-- what the others do not hold, where a thread is in the middle of a step
pub others_free :
    (q : ℕ) (before : List Phase) (w : Phase) (after : List Phase)
    → Exclusive (before ++ (w ∷ after))
    → holds q w ≡ true
    → (holders q before ≡ 0) × (holders q after ≡ 0)
others_free q before w after safe h = ground (arith, safe q, holders-append q before w after)

removed-Inv :
    (n i : ℕ) (before after : List Phase)
    → Inv (suc n) (before ++ (crossing i ∷ after))
    → Inv n (each (lower i) before ++ (on i ∷ each (lower i) after))
removed-Inv n i before after inv = record {
  safe = λ q. ground (
    arith,
    inv.safe q,
    inv.safe (suc q),
    holders-append q (each (lower i) before) (on i) (each (lower i) after),
    holders-append q before (crossing i) after,
    holders-append (suc q) before (crossing i) after,
    holders-lower i q before b0 b1,
    holders-lower i q after a0 a1,
  );
  inside = ground (
    arith,
    all_inside-append n (each (lower i) before) (on i) (each (lower i) after),
    all_inside-append (suc n) before (crossing i) after,
    inv.inside,
    low,
    all_inside-lower n i before low b0 b1,
    all_inside-lower n i after low a0 a1,
  );
}
  where
    mine : holds i (crossing i) ≡ true
    mine = ground arith

    mine_too : holds (suc i) (crossing i) ≡ true
    mine_too = ground arith

    b0 : holders i before ≡ 0
    b0 = (others_free i before (crossing i) after inv.safe mine).0

    a0 : holders i after ≡ 0
    a0 = (others_free i before (crossing i) after inv.safe mine).1

    b1 : holders (suc i) before ≡ 0
    b1 = (others_free (suc i) before (crossing i) after inv.safe mine_too).0

    a1 : holders (suc i) after ≡ 0
    a1 = (others_free (suc i) before (crossing i) after inv.safe mine_too).1

    low : i ≤ n
    low = ground (arith, inv.inside, all_inside-append (suc n) before (crossing i) after)

pushed-Inv :
    (n : ℕ) (before after : List Phase)
    → Inv n (before ++ (outside ∷ after))
    → is_free 0 (before ++ (outside ∷ after)) ≡ true
    → Inv (suc n) (each lift before ++ (finished ∷ each lift after))
pushed-Inv n before after inv free = record {
  safe = λ q. ground (
    arith,
    inv.safe (q - 1),
    holders-append q (each lift before) finished (each lift after),
    holders-append (q - 1) before outside after,
    holders-lift q before b0,
    holders-lift q after a0,
  );
  inside = ground (
    arith,
    all_inside-append (suc n) (each lift before) finished (each lift after),
    all_inside-append n before outside after,
    inv.inside,
    all_inside-lift n before,
    all_inside-lift n after,
  );
}
  where
    nobody : holders 0 (before ++ (outside ∷ after)) ≡ 0
    nobody = holders-is_free 0 (before ++ (outside ∷ after)) free

    b0 : holders 0 before ≡ 0
    b0 = ground (arith, nobody, holders-append 0 before outside after)

    a0 : holders 0 after ≡ 0
    a0 = ground (arith, nobody, holders-append 0 before outside after)

found-Inv :
    (n i : ℕ) (before after : List Phase)
    → Inv n (before ++ (on (suc i) ∷ after))
    → Inv n (before ++ (finished ∷ after))
found-Inv n i before after inv = record {
  safe = λ q. ground (
    arith,
    inv.safe q,
    holders-append q before finished after,
    holders-append q before (on (suc i)) after,
  );
  inside = ground (
    arith,
    inv.inside,
    all_inside-append n before finished after,
    all_inside-append n before (on (suc i)) after,
  );
}

walk-Inv :
    (n : ℕ) (before : List Phase) (w w' : Phase) (after : List Phase)
    → Inv n (before ++ (w ∷ after))
    → next n (before ++ (w ∷ after)) w ≡ some w'
    → Inv n (before ++ (w' ∷ after))
walk-Inv n before w w' after inv step = record {
  safe = move-Exclusive n before w w' after inv.safe step;
  inside = ground (
    arith,
    inv.inside,
    stays,
    all_inside-append n before w after,
    all_inside-append n before w' after,
  );
}
  where
    here : is_inside n w ≡ true
    here = ground (arith, inv.inside, all_inside-append n before w after)

    stays : is_inside n w' ≡ true
    stays = subst (Stays n) step (next-Stays n (before ++ (w ∷ after)) w here)

Step-Inv : {n n' : ℕ} {ws ws' : List Phase} → Step n ws n' ws' → Inv n ws → Inv n' ws'
Step-Inv (walk n before w w' after step) inv = walk-Inv n before w w' after inv step
Step-Inv (found n i before after) inv = found-Inv n i before after inv
Step-Inv (removed n i before after) inv = removed-Inv n i before after inv
Step-Inv (pushed n before after free) inv = pushed-Inv n before after inv free

pub Run-Inv :
    {n : ℕ} {ws : List Phase} {k n' : ℕ} {ws' : List Phase} → Run n ws k n' ws' → Inv n' ws'
Run-Inv {n} {ws = ws} (start none_in) = record {
  safe = λ q. omega (arith, holders-outside q ws none_in);
  inside = all_inside-outside n ws none_in;
}
Run-Inv (later r step) = Step-Inv step (Run-Inv r)

-- Whatever the order in which threads add nodes, walk the list, find and remove nodes: no lock is held
-- by two of them; each is at nodes that the list has; and unless all have ended one of them can make
-- its next call.
pub Run-Safe :
    {n : ℕ} {ws : List Phase} {k n' : ℕ} {ws' : List Phase}
    → Run n ws k n' ws'
    → Exclusive ws' × (all_inside n' ws' ≡ true) × ((all_finished ws' ≡ true) ⊎ Progress n' ws')
Run-Safe {n' = n'} {ws' = ws'} r =
    let inv = Run-Inv r in
    (
      inv.safe,
      inv.inside,
      elim (Bool-cases (all_finished ws')) [
        | inl over ↦ inl over
        | inr some_left ↦ inr (progress n' ws' some_left)
      ],
    )

touches-free :
    (i : ℕ) (w : Phase) → holds i w ≡ false → holds (suc i) w ≡ false → touches (suc i) w ≡ false
touches-free i outside h k = ground arith
touches-free i finished h k = refl
touches-free i (on j) h k = ground arith
touches-free i (crossing j) h k = ground arith

touching-free :
    (i : ℕ) (ws : List Phase) → holders i ws ≡ 0 → holders (suc i) ws ≡ 0 → touching (suc i) ws ≡ 0
touching-free i [] h k = refl
touching-free i (w ∷ ws) h k = ground (arith, touches-free i w, touching-free i ws)

-- When a thread in `remove_if` has the locks of a node and of the one behind it, which it may now
-- delete, no other thread has the lock of the one behind or waits for it, and the list has both
-- nodes.
pub Run-untouched :
    {n : ℕ} {ws : List Phase} {k n' : ℕ} (i : ℕ) (before after : List Phase)
    → Run n ws k n' (before ++ (crossing i ∷ after))
    → (touching (suc i) before ≡ 0) × (touching (suc i) after ≡ 0) × (i < n')
Run-untouched {n' = n'} i before after r =
    let inv = Run-Inv r in
    let (b0, a0) = others_free i before (crossing i) after inv.safe (ground arith) in
    let (b1, a1) = others_free (suc i) before (crossing i) after inv.safe (ground arith) in
    (
      touching-free i before b0 b1,
      touching-free i after a0 a1,
      ground (arith, inv.inside, all_inside-append n' before (crossing i) after),
    )
