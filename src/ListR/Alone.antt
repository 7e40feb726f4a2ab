-- ===== src/ListR/Alone.antt =====
-- A thread of ListR/Walkers that is alone, against `for_each` of project/utils/list_r.hpp.
use wkc.Common.{
  ℕ, zero, suc, ◌+◌, length, true, false, List, [], ◌∷◌, ◌≡◌, refl, sym, ap, ap₂, ◌∙◌, ◌==◌, arith,
}
use wkc.ListR.{Event, lock, unlock, Node, ListR, each_from, for_each}
use wkc.ListR.Walkers.{outside, finished, on, is_free, next, alone}

-- From the lock `i` on, the locks have the addresses of `c` and of the nodes behind it.
abbrev pub Placed : {A : Type 0} → (ℕ → ℕ) → ℕ → ℕ → List (Node A) → Type 0
Placed address i c [] = address i ≡ c
Placed address i c (x ∷ ns) = (address i ≡ c) × Placed address (suc i) x.address ns

Placed-first :
    {A : Type 0} (address : ℕ → ℕ) (i c : ℕ) (ns : List (Node A))
    → Placed address i c ns
    → address i ≡ c
Placed-first address i c [] here = here
Placed-first address i c (x ∷ ns) (here, there) = here

-- two calls for each node, and one to end
abbrev pub calls_for : {A : Type 0} → List (Node A) → ℕ → ℕ
calls_for [] more = suc more
calls_for (_ ∷ ns) more = suc (suc (calls_for ns more))

module _ (address : ℕ → ℕ) (n : ℕ) where
  alone-finished : (fuel : ℕ) (log : List Event) → alone fuel address n finished log ≡ log
  unfolding alone next
  alone-finished zero log = refl
  alone-finished (suc fuel) log = refl

  alone-last :
      (fuel i : ℕ) (log : List Event)
      → (i == n) ≡ true
      → alone (suc fuel) address n (on i) log ≡ unlock (address i) ∷ log
  unfolding alone next
  alone-last fuel i log last =
      rw (last, alone, last) (alone-finished fuel (unlock (address i) ∷ log))

  alone-passes :
      (fuel i : ℕ) (log : List Event)
      → (i == n) ≡ false
      → alone (suc (suc fuel)) address n (on i) log
        ≡ alone fuel address n (on (suc i)) (unlock (address i) ∷ lock (address (suc i)) ∷ log)
  unfolding alone next
  alone-passes fuel i log more =
      let free : is_free (suc i) (on i ∷ []) ≡ true = ground arith in
      rw (more, free, alone, more) refl

  module _ {A S : Type 0} (f : A → S → S) where
    each_from-alone :
        (ns : List (Node A)) (i c fuel : ℕ) (s : S) (log : List Event)
        → Placed address i c ns
        → n ≡ i + length ns
        → (each_from f c ns (s, log)).1 ≡ alone (calls_for ns fuel) address n (on i) log
    unfolding each_from
    each_from-alone [] i c fuel s log here whole =
        ap (λ (a : ℕ). unlock a ∷ log) (sym here) ∙ sym (alone-last fuel i log (ground arith))
    each_from-alone (x ∷ ns) i c fuel s log (here, there) whole =
        each_from-alone ns (suc i) x.address fuel (f x.value s) (unlock c ∷ lock x.address ∷ log)
          there (omega (arith, whole))
        ∙ ap₂
            (λ (a b : ℕ).
              alone (calls_for ns fuel) address n (on (suc i)) (unlock a ∷ lock b ∷ log))
            (sym here) (sym (Placed-first address (suc i) x.address ns there))
        ∙ sym (alone-passes (calls_for ns fuel) i log (ground (arith, whole)))

    -- `for_each` makes exactly the calls of a thread that walks alone, in their order, where `address`
    -- gives the addresses of the head and of the nodes behind it; two calls for each node and two more
    -- are enough.
    pub for_each-alone :
        (fuel : ℕ) (l : ListR A) (s : S)
        → Placed address 0 l.head l.nodes
        → n ≡ length l.nodes
        → (for_each f l s).1.log ≡ alone (suc (calls_for l.nodes fuel)) address n outside l.log
    unfolding for_each alone next
    for_each-alone fuel l s placed whole =
        each_from-alone l.nodes 0 l.head fuel s (lock l.head ∷ l.log) placed (omega (arith, whole))
        ∙ ap (λ (a : ℕ). alone (calls_for l.nodes fuel) address n (on 0) (lock a ∷ l.log))
            (sym (Placed-first address 0 l.head l.nodes placed))
