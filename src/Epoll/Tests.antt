-- ===== src/Epoll/Tests.antt =====
-- The event loop over a plain list, with two descriptors watched.
use wkc.Common.{ℕ, zero, suc, ◌+◌, ◌<◌, ℤ, pos, ◌≡◌, refl, ◌⊎◌, true, false, some, List, [], ◌∷◌}
use wkc.Epoll.Service.{
  ready, stopping, looping, Service, zeroed, Move, call_start, call_stop, caller_resumes,
  looper_goes, run,
}
use wkc.Epoll.Served.{Seen, Returns, run-Seen}
use wkc.Epoll.{Event, EventList, Call, Log, Env, World, drop_node, node_at, add, remove, wait}
use wkc.Epoll.Registry.{count, freed, freed_at, one_at, self_of, remove-entries}
use wkc.Epoll.Added.{made, IsAdded, AddOutcome, add-Outcome}
use wkc.Epoll.Dispatch.{calls, wait-callbacks}

abbrev plain : EventList
plain = record {
  Head = List Event;
  init_list_head = [];
  list_add = λ e es. e ∷ es;
  list_del = drop_node;
  entries = λ es. es;
  entries-init = refl;
  entries-add = λ e es. refl;
  entries-del = λ p es. refl;
}

abbrev event_at : ℕ → ℤ → Event
event_at p fd = record { self = p; fd = fd; pfn_event = 7; parg1 = p; pfn_exit = 8; parg2 = p }

abbrev two_listed : List Event
two_listed = event_at 200 (pos 6) ∷ event_at 100 (pos 5) ∷ []

abbrev two_found : Log → Call → ℤ
two_found log Call.epoll_wait = pos 2
two_found log Call.timerfd_create = pos 9
two_found log _ = pos 0

abbrev nth_ready : ℕ → ℕ
nth_ready zero = 100
nth_ready (suc i) = 200

-- Everything succeeds, and both events are ready.
abbrev quiet : Env plain
quiet = record {
  answer = two_found;
  address = λ log. 300;
  errno = λ log. pos 0;
  ready = λ log. nth_ready;
  ran = λ log h. h;
}

abbrev w : World plain
w = record { epfd = pos 3; head = two_listed; log = [] }

remove-entries_example :
    ((remove plain quiet true (pos 5) w).0 ≡ pos 0)
    × ((remove plain quiet true (pos 5) w).1.head ≡ event_at 200 (pos 6) ∷ [])
    × (count freed (remove plain quiet true (pos 5) w).1.log + 1 ≡ 2)
    × ((q : ℕ)
        → count (freed_at q) (remove plain quiet true (pos 5) w).1.log
          ≡ one_at (self_of (pos 5) two_listed) q + 0)
remove-entries_example = remove-entries plain quiet (pos 5) w refl

add-Outcome_example :
    AddOutcome plain quiet true
      (made plain quiet (pos 4) 7 1 0 0 w)
      1
      w
      (add plain quiet true (pos 4) 1 7 1 0 0 w)
add-Outcome_example = add-Outcome plain quiet true (pos 4) 1 7 1 0 0 w

added :
    IsAdded plain quiet
      (made plain quiet (pos 4) 7 1 0 0 w)
      w
      (add plain quiet true (pos 4) 1 7 1 0 0 w).1
unfolding add
added = record { listed = refl; block = refl; none_freed = refl }

abbrev nth_event : ℕ → Event
nth_event zero = event_at 100 (pos 5)
nth_event (suc i) = event_at 200 (pos 6)

nth_listed : (k : ℕ) → k < 2 → node_at (nth_ready k) two_listed ≡ some (nth_event k)
nth_listed zero h = refl
nth_listed (suc k) h = refl

wait-callbacks_example :
    (w' : World plain) × (wait plain quiet true w ≡ some (pos 0, w'))
    × (w'.head ≡ two_listed)
    × (calls w'.log
        ≡ Call.callback 7 (pos 6) 200 ∷ Call.callback 7 (pos 5) 100 ∷ Call.epoll_wait ∷ [])
wait-callbacks_example = wait-callbacks plain quiet nth_event 1 w refl (λ log h. refl) nth_listed

-- started, used and asked to stop
abbrev one_life : List Move
one_life =
    call_start 40 50
    ∷ looper_goes 60 (pos 4) false
    ∷ caller_resumes
    ∷ looper_goes 60 (pos 4) false
    ∷ call_stop
    ∷ []

abbrev asked : Service
asked = record zeroed {
  thr_id = 50;
  handle = 60;
  idle_fd = pos 4;
  evt_handle = 40;
  caller = stopping;
  looper = looping;
  timer = some (10, 10);
}

run-Seen_example :
    ((asked.caller ≡ ready) × Seen asked)
    ⊎ (Returns asked
        × (asked.caller ≡ stopping → asked.looper ≡ looping → asked.timer ≡ some (10, 10)))
run-Seen_example = run-Seen one_life asked refl (unfold run in refl)
