-- ===== src/Threads/Tests.antt =====
-- The theorems on threads at concrete threads and queues.
use wkc.Common.{
  is_neg, ℕ, ◌≡◌, refl, true, false, none, some, List, [], ◌∷◌, arith, ◌==◌, if◌then◌else◌,
}
use wkc.Message.{Mesg, blank}
use wkc.Queue.{head}
use wkc.Queue.Tests.{system, with_queue, letter, parcel, system-Reliable, is_ready}
use wkc.Threads.{World, stop_all_threads}
use wkc.Threads.Listed.{Op, start, stop, IsListed, run, run-IsListed}
use wkc.Threads.WithQueue.{Worker, System, Reader, thread_function}
use wkc.Threads.Worked.{Ready, LoopDone, thread_function-LoopDone}

abbrev no_threads : World
no_threads = record {
  threads = λ q. record { name = none; stop_requested = true; joinable = false };
  started = [];
  log = [];
}

abbrev calls : List Op
calls = start 70 none ∷ start 71 (some 2) ∷ stop 70 true ∷ start 70 none ∷ []

run-IsListed_example :
    IsListed (run no_threads calls)
    × ((q : ℕ)
        → (if q == 0 then false else ((stop_all_threads (run no_threads calls)).threads q).joinable)
          ≡ false)
run-IsListed_example = run-IsListed calls no_threads (λ q. ground arith)

abbrev worker : Worker system
worker = record { self = 70; queue = 300; initialized = false; processed = 0 }

abbrev machine : System system
machine = record { queues = with_queue []; threads = no_threads }

system-Ready : Ready system
system-Ready fd k x h = from_some (k fd) h
  where
    from_some :
        (ms : List (ℕ × Mesg))
        → head ms ≡ some x
        → (is_neg (is_ready ms).0 ≡ false) × ((is_ready ms).1 ≡ true)
    from_some [] h = cc h
    from_some ((p, m) ∷ ms) h = (refl, refl)

-- two messages, then the one that stops, then one more
abbrev reader : Reader system
reader = record {
  msg = blank;
  stop_requested = false;
  processed = 0;
  handled = [];
  world =
      with_queue
        ((2, letter) ∷ (1, parcel) ∷ (0, (record blank { msg_id = 1 })) ∷ (0, letter) ∷ []);
}

thread_function-LoopDone_example :
    LoopDone system 300 system-Reliable system-Ready
      (λ m w. (m, w))
      (λ m w. (refl, refl))
      (λ n. false)
      ((2, letter) ∷ (1, parcel) ∷ [])
      []
      reader
      (thread_function system 300 (λ m w. (m, w)) (λ n. false) 4 2 reader)
thread_function-LoopDone_example =
    thread_function-LoopDone system 300 system-Reliable system-Ready (λ m w. (m, w))
      (λ m w. (refl, refl)) (λ n. false) (λ n. refl) ((2, letter) ∷ (1, parcel) ∷ []) 0
      (record blank { msg_id = 1 }) ((0, letter) ∷ []) 0 2 reader refl refl (omega arith) refl
      (refl, (refl, tt)) refl (omega arith)
