-- ===== src/Threads/Listed.antt =====
-- The list of threads of project/basic/ThreadObj.cpp against the threads that can be joined.
use wkc.Common.{ℕ, suc, ◌≡◌, refl, Bool, false, Option, List, [], ◌∷◌, arith, ◌==◌, if◌then◌else◌}
use wkc.Threads.{
  World, without, start_thread, stop_thread, stop_joinable, stop_each, stop_all_threads,
}

-- how often an address is on a list
abbrev pub times : ℕ → List ℕ → ℕ
times q [] = 0
times q (x ∷ xs) = let rest = times q xs in if x == q then suc rest else rest

abbrev pub IsListed : World → Type 0
IsListed w =
    (q : ℕ) → times q w.started ≡ (if q == 0 then 0 else (if (w.threads q).joinable then 1 else 0))

times-without :
    (self q : ℕ) (xs : List ℕ) → times q (without self xs) ≡ (if self == q then 0 else times q xs)
times-without self q [] = ground arith
times-without self q (x ∷ xs) = ground (arith, times-without self q xs)

start_thread-IsListed :
    (self : ℕ) (name : Option ℕ) (w : World) → IsListed w → IsListed (start_thread self name w).1
unfolding start_thread
start_thread-IsListed self name w h q = ground (arith, h q, h self)

stop_thread-IsListed :
    (self : ℕ) (is_waiting : Bool) (w : World)
    → IsListed w
    → IsListed (stop_thread self is_waiting w)
unfolding stop_thread
stop_thread-IsListed self is_waiting w h q =
    ground (arith, h q, h self, times-without self q w.started)

stop_joinable-joinable :
    (x q : ℕ) (w : World)
    → ((stop_joinable x w).threads q).joinable ≡ (if x == q then false else (w.threads q).joinable)
unfolding stop_joinable
stop_joinable-joinable x q w = ground arith

stop_each-joinable :
    (qs : List ℕ) (w : World) (q : ℕ)
    → ((stop_each qs w).threads q).joinable
      ≡ (if 0 == times q qs then (w.threads q).joinable else false)
unfolding stop_each
stop_each-joinable [] w q = refl
stop_each-joinable (x ∷ qs) w q =
    ground (arith, stop_each-joinable qs (stop_joinable x w) q, stop_joinable-joinable x q w)

stop_all_threads-joinable :
    (w : World) (q : ℕ)
    → IsListed w
    → (if q == 0 then false else ((stop_all_threads w).threads q).joinable) ≡ false
unfolding stop_all_threads
stop_all_threads-joinable w q h = ground (arith, h q, stop_each-joinable w.started w q)

stop_all_threads-IsListed : (w : World) → IsListed w → IsListed (stop_all_threads w)
unfolding stop_all_threads
stop_all_threads-IsListed w h q = ground (arith, h q, stop_each-joinable w.started w q)

-- What the program may do with threads.
pub data Op : Type 0 where
  start : ℕ → Option ℕ → Op
  stop : ℕ → Bool → Op
  stop_all : Op

unfoldable pub run : World → List Op → World
unfolding start_thread stop_thread stop_all_threads
run w [] = w
run w (start self name ∷ ops) = run (start_thread self name w).1 ops
run w (stop self is_waiting ∷ ops) = run (stop_thread self is_waiting w) ops
run w (stop_all ∷ ops) = run (stop_all_threads w) ops

along : (ops : List Op) (w : World) → IsListed w → IsListed (run w ops)
unfolding run
along [] w h = h
along (start self name ∷ ops) w h =
    along ops (start_thread self name w).1 (start_thread-IsListed self name w h)
along (stop self is_waiting ∷ ops) w h =
    along ops (stop_thread self is_waiting w) (stop_thread-IsListed self is_waiting w h)
along (stop_all ∷ ops) w h = along ops (stop_all_threads w) (stop_all_threads-IsListed w h)

-- In any sequence of `StartThread`, `StopThread` and `StopAllThreads` from a state where the list
-- has each thread that can be joined once, and no other, it is so at the end too; and after
-- `StopAllThreads` no thread can be joined. A thread at NULL, which there is not, is left out.
pub run-IsListed :
    (ops : List Op) (w : World)
    → IsListed w
    → IsListed (run w ops)
      × ((q : ℕ)
          → (if q == 0 then false else ((stop_all_threads (run w ops)).threads q).joinable) ≡ false)
run-IsListed ops w h =
    let kept = along ops w h in (kept, λ q. stop_all_threads-joinable (run w ops) q kept)
