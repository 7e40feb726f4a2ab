-- ===== src/ListR/Moved.antt =====
-- The places of the threads of ListR/Changes when a node comes or goes, and the locks they hold.
use wkc.Common.{
  ℕ, suc, ◌-◌, ◌≤◌, leb, true, false, Option, none, some, List, [], ◌∷◌, ◌++◌, ◌≡◌, refl, inl, inr,
  ◌==◌, if◌then◌else◌, arith, Bool-cases,
}
use wkc.ListR.Walkers.{
  Phase, outside, finished, on, crossing, holds, is_free, next, all_outside, holders,
}
use wkc.ListR.Changes.{lower, lift, each, is_inside, all_inside}

holds-lower :
    (i q : ℕ) (w : Phase)
    → holds i w ≡ false
    → holds (suc i) w ≡ false
    → holds q (lower i w) ≡ (if leb q i then holds q w else holds (suc q) w)
holds-lower i q outside h k = ground arith
holds-lower i q finished h k = ground arith
holds-lower i q (on j) h k = ground arith
holds-lower i q (crossing j) h k = ground arith

holds-lift :
    (q : ℕ) (w : Phase)
    → holds 0 w ≡ false
    → holds q (lift w) ≡ (if leb q 1 then false else holds (q - 1) w)
holds-lift q outside h = ground arith
holds-lift q finished h = ground arith
holds-lift q (on j) h = ground arith
holds-lift q (crossing j) h = ground arith

pub holders-lower :
    (i q : ℕ) (ws : List Phase)
    → holders i ws ≡ 0
    → holders (suc i) ws ≡ 0
    → holders q (each (lower i) ws) ≡ (if leb q i then holders q ws else holders (suc q) ws)
holders-lower i q [] h k = ground arith
holders-lower i q (w ∷ ws) h k = ground (arith, holds-lower i q w, holders-lower i q ws)

pub holders-lift :
    (q : ℕ) (ws : List Phase)
    → holders 0 ws ≡ 0
    → holders q (each lift ws) ≡ (if leb q 1 then 0 else holders (q - 1) ws)
holders-lift q [] h = ground arith
holders-lift q (w ∷ ws) h = ground (arith, holds-lift q w, holders-lift q ws)

pub all_inside-append :
    (n : ℕ) (before : List Phase) (w : Phase) (after : List Phase)
    → all_inside n (before ++ (w ∷ after)) ≡ (
        if is_inside n w
        then (if all_inside n before then all_inside n after else false)
        else false)
all_inside-append n [] w after = ground arith
all_inside-append n (x ∷ before) w after = ground (arith, all_inside-append n before w after)

is_inside-lower :
    (n i : ℕ) (w : Phase)
    → i ≤ n
    → holds i w ≡ false
    → holds (suc i) w ≡ false
    → is_inside (suc n) w ≡ true
    → is_inside n (lower i w) ≡ true
is_inside-lower n i outside le h k p = refl
is_inside-lower n i finished le h k p = refl
is_inside-lower n i (on j) le h k p = ground arith
is_inside-lower n i (crossing j) le h k p = ground arith

pub all_inside-lower :
    (n i : ℕ) (ws : List Phase)
    → i ≤ n
    → holders i ws ≡ 0
    → holders (suc i) ws ≡ 0
    → all_inside (suc n) ws ≡ true
    → all_inside n (each (lower i) ws) ≡ true
all_inside-lower n i [] le h k p = refl
all_inside-lower n i (w ∷ ws) le h k p =
    ground (arith, is_inside-lower n i w, all_inside-lower n i ws)

is_inside-lift : (n : ℕ) (w : Phase) → is_inside n w ≡ true → is_inside (suc n) (lift w) ≡ true
is_inside-lift n outside p = refl
is_inside-lift n finished p = refl
is_inside-lift n (on j) p = ground arith
is_inside-lift n (crossing j) p = ground arith

pub all_inside-lift :
    (n : ℕ) (ws : List Phase) → all_inside n ws ≡ true → all_inside (suc n) (each lift ws) ≡ true
all_inside-lift n [] p = refl
all_inside-lift n (w ∷ ws) p = ground (arith, is_inside-lift n w, all_inside-lift n ws)

pub all_inside-outside : (n : ℕ) (ws : List Phase) → all_outside ws ≡ true → all_inside n ws ≡ true
all_inside-outside n [] p = refl
all_inside-outside n (outside ∷ ws) p = all_inside-outside n ws p
all_inside-outside n (finished ∷ ws) p = cc p
all_inside-outside n (on i ∷ ws) p = cc p
all_inside-outside n (crossing i ∷ ws) p = cc p

-- a walk goes on to a node that the list has
abbrev pub Stays : ℕ → Option Phase → Type 0
Stays n none = Unit
Stays n (some w) = is_inside n w ≡ true

pub next-Stays :
    (n : ℕ) (ws : List Phase) (w : Phase) → is_inside n w ≡ true → Stays n (next n ws w)
unfolding next
next-Stays n ws outside p = elim (Bool-cases (is_free 0 ws)) [
  | inl free ↦ rw free (ground arith)
  | inr taken ↦ rw taken tt
]
next-Stays n ws finished p = tt
next-Stays n ws (on i) p = elim (Bool-cases (i == n)) [
  | inl last ↦ rw last refl
  | inr more ↦ elim (Bool-cases (is_free (suc i) ws)) [
    | inl free ↦ rw (more, free) (ground arith)
    | inr taken ↦ rw (more, taken) tt
  ]
]
next-Stays n ws (crossing i) p = ground arith
