-- ===== src/Sem/Crowd.antt =====
-- Any number of threads in `wm_sem_wait`, `wm_sem_post` and `wm_sem_broadcast` of
-- project/ipc/wm_sem.c, on one semaphore. A broadcast is of a number that is not negative.
use wkc.Common.{
  ℕ, zero, suc, ◌+◌, ◌-◌, ◌^◌, ◌≤◌, ◌<◌, pos, ◌+ℤ◌, List, [], ◌∷◌, ◌≡◌, refl, ap, ◌⊎◌, inl, inr,
  Bool, ◌&&◌, Bool-cases, true, some, ltb, ◌==◌, if◌then◌else◌, arith,
}
use mathlib.Core.Path.{subst}
use wkc.Posix.Ledger.{count, signalled, broadcasted}
use wkc.Posix.Quiet.{quiet, start}
use wkc.Wait.Crowd.{
  Crowd, Effect, Move, enter, resume, stir, time_out, expire, raise, test, shout, move, Reach,
  begin, then_, if_some,
}
use wkc.Posix.{M}
use wkc.Sem.{Sem, s32, post, broadcast, is_free, take_one}
use wkc.Sem.Taken.{pos_sub_one}

-- the calls that add to the semaphore: `wm_sem_post`, and `wm_sem_broadcast` of a number
pub data Giving : Type 0 where
  one : Giving
  several : ℕ → Giving

abbrev pub amount : Giving → ℕ
amount one = 1
amount (several num) = num

abbrev pub given : List Giving → ℕ
given [] = 0
given (k ∷ ks) = given ks + amount k

abbrev pub give : Giving → M Sem (Unit {0})
give one = post true
give (several num) = broadcast (pos num) true

-- a call where every call of pthread succeeds
pub give_once : Giving → Sem → Effect Sem
give_once k s =
    let w = (give k quiet (start s)).1 in
    record {
      after = w.object;
      signals = count signalled w.log;
      broadcasts = count broadcasted w.log;
    }

abbrev pub holding : ℕ → Sem
holding n = record { cnt = pos n }

-- a semaphore that is created with `first`
abbrev pub SemTurns : Bool → ℕ → ℕ → Crowd Sem Giving → Type 0
SemTurns consumes threads first = Reach is_free take_one give_once consumes threads (holding first)

pos_add : (n a : ℕ) → n + a < 2 ^ 31 → s32 (pos n +ℤ pos a) ≡ pos (n + a)
unfolding ◌+ℤ◌ s32
pos_add n a h = ground arith

abbrev pub effect : ℕ → Giving → Effect Sem
effect n one = record { after = holding (n + 1); signals = if n == 0 then 1 else 0; broadcasts = 0 }
effect n (several num) = record {
  after = holding (n + num);
  signals = 0;
  broadcasts = if n == 0 then 1 else 0;
}

pub give_once_lem :
    (n : ℕ) (k : Giving) → n + amount k < 2 ^ 31 → give_once k (holding n) ≡ effect n k
unfolding give_once post broadcast
give_once_lem zero one h = rw (pos_add zero 1 h) refl
give_once_lem (suc n) one h = rw (pos_add (suc n) 1 h) (
    ap (λ (x : ℕ). record { after = holding (suc n + 1); signals = x; broadcasts = 0 })
      (ground arith))
give_once_lem zero (several num) h = rw (pos_add zero num h) refl
give_once_lem (suc n) (several num) h = rw (pos_add (suc n) num h) (
    ap (λ (x : ℕ). record { after = holding (suc n + num); signals = 0; broadcasts = x })
      (ground arith))

pub take_one_lem : (n : ℕ) → take_one (holding (suc n)) ≡ holding n
take_one_lem n = ap (λ z. record { cnt = z }) (pos_sub_one n)

-- What is left was there or given and not taken; where something is left and a thread sleeps, two
-- threads may wait.
pub record Inv (threads first : ℕ) (c : Crowd Sem Giving) : Type 0 where
  pub left : ℕ
  pub counter : c.object ≡ holding left
  pub balanced : left + c.taken ≡ first + given c.made
  pub few : c.sleepers + c.woken ≤ threads
  pub awake : (left ≡ 0) ⊎ ((c.sleepers ≡ 0) ⊎ (1 < threads))

test-made : (c : Crowd Sem Giving) → (test is_free take_one give_once c).made ≡ c.made
test-made c = elim (Bool-cases (is_free c.object)) [
  | inl free ↦ rw free refl
  | inr empty ↦ rw empty refl
]

module _ (consumes : Bool) (threads first : ℕ) where
  test-Inv :
      (c : Crowd Sem Giving) (left : ℕ)
      → c.object ≡ holding left
      → left + c.taken ≡ first + given c.made
      → c.sleepers + c.woken < threads
      → Inv threads first (test is_free take_one give_once c)
  test-Inv c zero counter balanced few = rw counter (record {
    left = 0;
    counter = refl;
    balanced = balanced;
    few = omega (arith, few);
    awake = inl refl;
  })
  test-Inv c (suc n) counter balanced few = rw counter (record {
    left = n;
    counter = take_one_lem n;
    balanced = omega (arith, balanced);
    few = omega (arith, few);
    awake = ground (arith, few);
  })

  shout-Inv :
      (c : Crowd Sem Giving) (k : Giving)
      → first + (given c.made + amount k) < 2 ^ 31
      → Inv threads first c
      → Inv threads first (shout is_free take_one give_once k c)
  shout-Inv c one small inv =
      rw (inv.counter, give_once_lem inv.left one (omega (arith, small, inv.balanced)))
        (record {
          left = inv.left + 1;
          counter = refl;
          balanced = omega (arith, inv.balanced);
          few = ground (arith, inv.few);
          awake = ground (arith, inv.few, inv.awake);
        })
  shout-Inv c (several num) small inv =
      rw (inv.counter, give_once_lem inv.left (several num) (omega (arith, small, inv.balanced)))
        (record {
          left = inv.left + num;
          counter = refl;
          balanced = omega (arith, inv.balanced);
          few = ground (arith, inv.few);
          awake = ground (arith, inv.few, inv.awake);
        })

  kept-Inv :
      (c : Crowd Sem Giving) (sleepers woken : ℕ)
      → Inv threads first c
      → sleepers < c.sleepers
      → sleepers + woken ≤ c.sleepers + c.woken
      → Inv threads first (record c { sleepers = sleepers; woken = woken })
  kept-Inv c sleepers woken inv fewer sum = record {
    left = inv.left;
    counter = inv.counter;
    balanced = inv.balanced;
    few = omega (arith, inv.few, sum);
    awake = ground (arith, inv.few, inv.awake, fewer);
  }

  move-Inv :
      (m : Move Giving) (c d : Crowd Sem Giving)
      → move is_free take_one give_once consumes threads m c ≡ some d
      → first + given d.made < 2 ^ 31
      → (first + given c.made < 2 ^ 31 → Inv threads first c)
      → Inv threads first d
  unfolding move
  move-Inv enter c d e small before =
      let (few, same) = if_some _ (test is_free take_one give_once c) d e in
      let inv = before (
        omega (
          arith,
          small,
          ap given (test-made c),
          ap (λ (x : Crowd Sem Giving). given x.made) same,
        )) in
      subst (Inv threads first) same
        (test-Inv c inv.left inv.counter inv.balanced (ground (arith, few)))
  move-Inv resume c d e small before =
      let back = record c { woken = c.woken - 1 } in
      let (some_, same) = if_some (ltb 0 c.woken) (test is_free take_one give_once back) d e in
      let inv = before (
        omega (
          arith,
          small,
          ap given (test-made back),
          ap (λ (x : Crowd Sem Giving). given x.made) same,
        )) in
      subst (Inv threads first) same
        (test-Inv back inv.left inv.counter inv.balanced (ground (arith, some_, inv.few)))
  move-Inv stir c d e small before =
      let (some_, same) = if_some (ltb 0 c.sleepers) _ d e in
      let inv = before (omega (arith, small, ap (λ (x : Crowd Sem Giving). given x.made) same)) in
      subst (Inv threads first) same (
        kept-Inv c (c.sleepers - 1) (suc c.woken) inv (ground (arith, some_))
          (ground (arith, some_)))
  move-Inv time_out c d e small before =
      let (some_, same) = if_some (ltb 0 c.sleepers) _ d e in
      let inv = before (omega (arith, small, ap (λ (x : Crowd Sem Giving). given x.made) same)) in
      subst (Inv threads first) same
        (kept-Inv c (c.sleepers - 1) c.woken inv (ground (arith, some_)) (omega arith))
  move-Inv expire c d e small before =
      let (some_, same) = if_some (consumes && ltb 0 c.woken) _ d e in
      let inv = before (omega (arith, small, ap (λ (x : Crowd Sem Giving). given x.made) same)) in
      subst (Inv threads first) same (record {
        left = inv.left;
        counter = inv.counter;
        balanced = inv.balanced;
        few = omega (arith, inv.few);
        awake = inv.awake;
      })
  move-Inv (raise k) c d e small before =
      let (_, same) = if_some true _ d e in
      let all = ap (λ (x : Crowd Sem Giving). given x.made) same in
      subst (Inv threads first) same
        (shout-Inv c k (omega (arith, small, all)) (before (omega (arith, small, all))))

  SemTurns-Inv :
      {c : Crowd Sem Giving}
      → SemTurns consumes threads first c
      → first + given c.made < 2 ^ 31
      → Inv threads first c
  SemTurns-Inv begin small = record {
    left = first;
    counter = refl;
    balanced = omega arith;
    few = omega arith;
    awake = inr (inl refl);
  }
  SemTurns-Inv (then_ m c d r e) small = move-Inv m c d e small (SemTurns-Inv r)

-- However many threads wait on a semaphore, post to it and broadcast numbers to it, and in whatever
-- order they come, are woken and run into their deadlines, and whether or not a wait that ends at its
-- deadline may have consumed a signal: while what is given does not overflow
-- the counter, it is not negative, and what it was at first and what was given are together what
-- it is and the waits that returned 0. With no more than one thread that waits, none sleeps while
-- the counter is above zero.
pub SemTurns-balanced :
    (consumes : Bool) (threads first : ℕ) {c : Crowd Sem Giving}
    → SemTurns consumes threads first c
    → first + given c.made < 2 ^ 31
    → (left : ℕ) × (c.object.cnt ≡ pos left)
      × (left + c.taken ≡ first + given c.made)
      × ((left ≡ 0) ⊎ ((c.sleepers ≡ 0) ⊎ (1 < threads)))
SemTurns-balanced consumes threads first r small =
    let inv = SemTurns-Inv consumes threads first r small in
    (inv.left, ap (λ (s : Sem). s.cnt) inv.counter, inv.balanced, inv.awake)
