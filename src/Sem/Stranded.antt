-- ===== src/Sem/Stranded.antt =====
-- Threads that sleep in `wm_sem_wait` of project/ipc/wm_sem.c while there is something to take:
-- `wm_sem_post` signals only at 0.
use wkc.Common.{
  Bool, List, [], ◌∷◌, ℕ, pos, zero, suc, ◌+◌, ◌^◌, ◌≤◌, ◌<◌, ◌≡◌, refl, ap, some, arith,
}
use wkc.Wait.Crowd.{Crowd, enter, resume, raise, move, begin, then_}
use wkc.Sem.{Sem, is_free, take_one}
use wkc.Sem.Crowd.{Giving, one, give_once, holding, SemTurns, give_once_lem, take_one_lem}

-- so many posts
abbrev pub ones : ℕ → List Giving
ones zero = []
ones (suc n) = one ∷ ones n

-- `n` threads sleep
abbrev asleep : ℕ → Crowd Sem Giving
asleep n = record { object = holding 0; sleepers = n; woken = 0; taken = 0; made = [] }

-- `suc n` posts later
abbrev posted : ℕ → ℕ → Crowd Sem Giving
posted n sleepers = record {
  object = holding (suc n);
  sleepers = sleepers;
  woken = 1;
  taken = 0;
  made = ones (suc n);
}

module _ (consumes : Bool) (threads : ℕ) where
  falls_asleep :
      (n : ℕ)
      → n < threads
      → move is_free take_one give_once consumes threads enter (asleep n) ≡ some (asleep (suc n))
  unfolding move
  falls_asleep n h = ground (arith, h)

  all_asleep : (n : ℕ) → n ≤ threads → SemTurns consumes threads 0 (asleep n)
  all_asleep zero h = begin
  all_asleep (suc n) h = then_ enter _ _ (all_asleep n (omega (arith, h))) (falls_asleep n h)

  first_post :
      (n : ℕ)
      → move is_free take_one give_once consumes threads (raise one) (asleep (suc n))
        ≡ some (posted 0 n)
  unfolding move
  first_post n = rw (give_once_lem 0 one (omega arith)) (ap some (ground arith))

  next_post :
      (n sleepers : ℕ)
      → n + 2 < 2 ^ 31
      → move is_free take_one give_once consumes threads (raise one) (posted n sleepers)
        ≡ some (posted (suc n) sleepers)
  unfolding move
  next_post n sleepers small =
      rw (give_once_lem (suc n) one (omega (arith, small))) (ap some (ground arith))

  posts :
      (n sleepers : ℕ)
      → n + 1 < 2 ^ 31
      → SemTurns consumes threads 0 (posted 0 sleepers)
      → SemTurns consumes threads 0 (posted n sleepers)
  posts zero sleepers small r = r
  posts (suc n) sleepers small r =
      then_ (raise one) _ _ (posts n sleepers (omega (arith, small)) r)
        (next_post n sleepers (omega (arith, small)))

  one_goes :
      (n sleepers : ℕ)
      → move is_free take_one give_once consumes threads resume (posted n sleepers)
        ≡ some (record {
          object = holding n;
          sleepers = sleepers;
          woken = 0;
          taken = 1;
          made = ones (suc n);
        })
  unfolding move
  one_goes n sleepers = rw (take_one_lem n) refl

-- With `n + 2` threads that wait on an empty semaphore and as many posts before one of them has the
-- mutex again, while the counter is an `int`: one thread is woken. Once it has taken its one,
-- `n + 1` threads sleep and none is about to wake up, with `n + 1` on the counter.
pub SemTurns-stranded :
    (consumes : Bool) (n : ℕ)
    → suc (suc n) < 2 ^ 31
    → SemTurns consumes (suc (suc n)) 0 (record {
      object = record { cnt = pos (suc n) };
      sleepers = suc n;
      woken = 0;
      taken = 1;
      made = ones (suc (suc n));
    })
SemTurns-stranded consumes n small =
    let threads = suc (suc n) in
    let sleeping = all_asleep consumes threads threads (omega arith) in
    let woken = then_ (raise one) _ _ sleeping (first_post consumes threads (suc n)) in
    then_ resume _ _ (posts consumes threads (suc n) (suc n) (omega (arith, small)) woken)
      (one_goes consumes threads (suc n) (suc n))
