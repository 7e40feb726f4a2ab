-- ===== src/ListR/Ends.antt =====
-- How many steps the threads of ListR/Changes can make.
use wkc.Common.{
  ℕ, suc, ◌+◌, ◌*◌, ◌≤◌, ◌<◌, true, Option, none, some, List, [], ◌∷◌, ◌++◌, length, ◌≡◌, refl, sym,
  ap, ◌∙◌, ◌==◌, arith, Bool-cases, ◌⊎◌, inl, inr,
}
use mathlib.Core.Path.{subst}
use native.Mathlib.Nat.{suc-mul}
use wkc.ListR.Walkers.{
  Phase, outside, finished, on, crossing, is_free, next, all_outside, all_finished, holders,
  Progress,
}
use wkc.ListR.Progress.{holders-append, holders-is_free}
use wkc.ListR.Changes.{
  lower, lift, each, Step, Run, start, later, walk, found, removed, pushed, is_inside,
}
use wkc.ListR.Removed.{Inv, Run-Inv, Run-Safe}
use wkc.ListR.Moved.{all_inside-append}
use wkc.ListR.Cost.{
  outsiders, cost, total, outsiders-append, total-append, total-fewer, total-lower, total-lift,
  outsiders-lower, outsiders-lift, remaining,
}

-- a call on a mutex is one less to come
abbrev Cheaper : ℕ → Phase → Option Phase → Type 0
Cheaper n w none = Unit
Cheaper n w (some w') =
    (outsiders (w' ∷ []) ≤ outsiders (w ∷ []))
    × ((most : ℕ) → n ≤ most → cost most n w' < cost most n w)

next-Cheaper :
    (n : ℕ) (ws : List Phase) (w : Phase) → is_inside n w ≡ true → Cheaper n w (next n ws w)
unfolding next
next-Cheaper n ws outside p = elim (Bool-cases (is_free 0 ws)) [
  | inl free ↦ rw free (omega arith, λ most le. omega arith)
  | inr taken ↦ rw taken tt
]
next-Cheaper n ws finished p = tt
next-Cheaper n ws (on i) p = elim (Bool-cases (i == n)) [
  | inl last ↦ rw last (omega arith, λ most le. omega arith)
  | inr more ↦ elim (Bool-cases (is_free (suc i) ws)) [
    | inl free ↦ rw (more, free) (omega arith, λ most le. omega arith)
    | inr taken ↦ rw (more, taken) tt
  ]
]
next-Cheaper n ws (crossing i) p = (omega arith, λ most le. ground arith)

-- A thread is replaced by one that has less to do.
replaced-less :
    (n : ℕ) (before : List Phase) (w w' : Phase) (after : List Phase)
    → outsiders (w' ∷ []) ≤ outsiders (w ∷ [])
    → ((most : ℕ) → n ≤ most → cost most n w' < cost most n w)
    → remaining n (before ++ (w' ∷ after)) < remaining n (before ++ (w ∷ after))
replaced-less n before w w' after fewer less = omega (
  arith,
  total-fewer most most' n (before ++ (w' ∷ after)) no_more,
  total-append most n before w' after,
  total-append most n before w after,
  less most (omega arith),
)
  where
    most : ℕ
    most = n + outsiders (before ++ (w ∷ after))

    most' : ℕ
    most' = n + outsiders (before ++ (w' ∷ after))

    no_more : most' ≤ most
    no_more =
        omega (arith, fewer, outsiders-append before w after, outsiders-append before w' after)

removed-less :
    (n i : ℕ) (before after : List Phase)
    → i ≤ n
    → remaining n (each (lower i) before ++ (on i ∷ each (lower i) after))
      < remaining (suc n) (before ++ (crossing i ∷ after))
removed-less n i before after low = rw same (
    omega (
      arith,
      low,
      total-append most n (each (lower i) before) (on i) (each (lower i) after),
      total-append (suc most) (suc n) before (crossing i) after,
      total-lower most n i before,
      total-lower most n i after,
      ap (λ (t : ℕ). total t (suc n) (before ++ (crossing i ∷ after))) shifted,
    ))
  where
    most : ℕ
    most = n + outsiders (before ++ (crossing i ∷ after))

    shifted : suc n + outsiders (before ++ (crossing i ∷ after)) ≡ suc most
    shifted = omega arith

    same :
        outsiders (each (lower i) before ++ (on i ∷ each (lower i) after))
        ≡ outsiders (before ++ (crossing i ∷ after))
    same = omega (
      arith,
      outsiders-append (each (lower i) before) (on i) (each (lower i) after),
      outsiders-append before (crossing i) after,
      outsiders-lower i before,
      outsiders-lower i after,
    )

pushed-less :
    (n : ℕ) (before after : List Phase)
    → is_free 0 (before ++ (outside ∷ after)) ≡ true
    → remaining (suc n) (each lift before ++ (finished ∷ each lift after))
      < remaining n (before ++ (outside ∷ after))
pushed-less n before after free = omega (
  arith,
  total-append most (suc n) (each lift before) finished (each lift after),
  total-append most n before outside after,
  total-lift most n before (omega (arith, nobody, split)),
  total-lift most n after (omega (arith, nobody, split)),
  ap (λ (t : ℕ). total t (suc n) (each lift before ++ (finished ∷ each lift after))) same,
)
  where
    most : ℕ
    most = n + outsiders (before ++ (outside ∷ after))

    nobody : holders 0 (before ++ (outside ∷ after)) ≡ 0
    nobody = holders-is_free 0 (before ++ (outside ∷ after)) free

    split : holders 0 (before ++ (outside ∷ after)) ≡ holders 0 before + holders 0 after
    split = holders-append 0 before outside after ∙ omega arith

    same : suc n + outsiders (each lift before ++ (finished ∷ each lift after)) ≡ most
    same = omega (
      arith,
      outsiders-append (each lift before) finished (each lift after),
      outsiders-append before outside after,
      outsiders-lift before,
      outsiders-lift after,
    )

Step-less :
    {n n' : ℕ} {ws ws' : List Phase}
    → Step n ws n' ws'
    → Inv n ws
    → remaining n' ws' < remaining n ws
Step-less (walk n before w w' after step) inv =
    let here : is_inside n w ≡ true =
      ground (arith, inv.inside, all_inside-append n before w after) in
    let (fewer, less) = subst (Cheaper n w) step (next-Cheaper n (before ++ (w ∷ after)) w here) in
    replaced-less n before w w' after fewer less
Step-less (found n i before after) inv =
    replaced-less n before (on (suc i)) finished after (omega arith) (λ most le. omega arith)
Step-less (removed n i before after) inv =
    removed-less n i before after
      (ground (arith, inv.inside, all_inside-append (suc n) before (crossing i) after))
Step-less (pushed n before after free) inv = pushed-less n before after free

Run-remaining :
    {n : ℕ} {ws : List Phase} {k n' : ℕ} {ws' : List Phase}
    → Run n ws k n' ws'
    → k + remaining n' ws' ≤ remaining n ws
Run-remaining (start _) = omega arith
Run-remaining (later r step) = omega (arith, Run-remaining r, Step-less step (Run-Inv r))

outsiders-outside : (ws : List Phase) → all_outside ws ≡ true → outsiders ws ≡ length ws
outsiders-outside [] h = refl
outsiders-outside (outside ∷ ws) h = omega (arith, outsiders-outside ws h)
outsiders-outside (finished ∷ ws) h = cc h
outsiders-outside (on i ∷ ws) h = cc h
outsiders-outside (crossing i ∷ ws) h = cc h

total-outside :
    (most n : ℕ) (ws : List Phase)
    → all_outside ws ≡ true
    → total most n ws ≡ length ws * (2 * most + 2)
total-outside most n [] h = omega arith
total-outside most n (outside ∷ ws) h =
    omega (arith, total-outside most n ws h, suc-mul (length ws) (2 * most + 2))
total-outside most n (finished ∷ ws) h = cc h
total-outside most n (on i ∷ ws) h = cc h
total-outside most n (crossing i ∷ ws) h = cc h

all_outside_at_first :
    {n : ℕ} {ws : List Phase} {k n' : ℕ} {ws' : List Phase}
    → Run n ws k n' ws'
    → all_outside ws ≡ true
all_outside_at_first (start none_in) = none_in
all_outside_at_first (later r step) = all_outside_at_first r

go_on : (n : ℕ) (ws : List Phase) → Progress n ws → (n' : ℕ) × (ws' : List Phase) × Step n ws n' ws'
go_on n ws (before, w, after, w', split, step) =
    subst (λ (l : List Phase). (n' : ℕ) × (ws' : List Phase) × Step n l n' ws') (sym split)
      (
        n,
        before ++ (w' ∷ after),
        walk n before w w' after (subst (λ (l : List Phase). next n l w ≡ some w') split step),
      )

-- Threads that each call one function of a list of `n` nodes make no more than so many steps in all,
-- whatever their order: for each thread, twice the nodes and the threads and two more. As long as
-- one of them has not ended there is a next step.
pub Run-ends :
    {n : ℕ} {ws : List Phase} {k n' : ℕ} {ws' : List Phase}
    → Run n ws k n' ws'
    → (k ≤ length ws * (2 * (n + length ws) + 2))
      × ((all_finished ws' ≡ true) ⊎ ((n'' : ℕ) × (ws'' : List Phase) × Step n' ws' n'' ws''))
Run-ends {n} {ws} {n' = n'} {ws' = ws'} r = (
  omega (arith, Run-remaining r, first),
  elim (Run-Safe r).2 [ inl over ↦ inl over | inr some_left ↦ inr (go_on n' ws' some_left) ],
)
  where
    outside_ : all_outside ws ≡ true
    outside_ = all_outside_at_first r

    first : remaining n ws ≡ length ws * (2 * (n + length ws) + 2)
    first =
        total-outside (n + outsiders ws) n ws outside_
        ∙ ap (λ (t : ℕ). length ws * (2 * (n + t) + 2)) (outsiders-outside ws outside_)
