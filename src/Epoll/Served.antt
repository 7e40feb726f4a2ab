-- ===== src/Epoll/Served.antt =====
-- The event loop of the program between `wm_epoll_start` and `wm_epoll_stop`.
use wkc.Common.{
  pos, minus_one, is_neg, Bool, true, false, not, ◌&&◌, Option, none, some, List, [], ◌∷◌, ◌≡◌,
  refl, sym, ap, ◌∙◌, ◌⊎◌, inl, inr, ◌==◌, arith, Option-cases,
}
use mathlib.Core.Path.{subst}
use wkc.Epoll.Service.{
  ready, starting, stopping, absent, setting_up, looping, ended, Service, zeroed, Move, call_start,
  call_stop, caller_resumes, looper_goes, begin_start, begin_stop, resume, ep_thread, step, run,
  epoll_handle,
}

-- `wm_epoll_create` of the thread gives a handle that is not NULL, and the timer is opened.
abbrev pub creates : Move → Bool
creates (call_start event thread) = true
creates call_stop = true
creates caller_resumes = true
creates (looper_goes handle idle_fd is_ready) = not (handle == 0) && not (is_neg idle_fd)

abbrev pub all_create : List Move → Bool
all_create [] = true
all_create (mv ∷ moves) = creates mv && all_create moves

-- How the two threads stand to each other: nothing runs and all is zero; the loop runs; the caller waits
-- for the thread before and after its signal; it waits for the end of the loop before and after it.
abbrev pub IsPaired : Service → Type 0
IsPaired s =
    ((s.caller ≡ ready) × (s.looper ≡ absent) × (s ≡ zeroed))
    ⊎ (((s.caller ≡ ready)
          × (s.looper ≡ looping)
          × (s.loop ≡ true)
          × ((s.handle == 0) ≡ false)
          × (is_neg s.idle_fd ≡ false))
        ⊎ (((s.caller ≡ starting)
              × (s.looper ≡ setting_up)
              × (s.loop ≡ true)
              × (s.signalled ≡ false))
            ⊎ (((s.caller ≡ starting)
                  × (s.looper ≡ looping)
                  × (s.loop ≡ true)
                  × (s.signalled ≡ true)
                  × ((s.handle == 0) ≡ false)
                  × (is_neg s.idle_fd ≡ false))
                ⊎ (((s.caller ≡ stopping)
                      × (s.looper ≡ looping)
                      × (s.loop ≡ false)
                      × (s.timer ≡ some (10, 10)))
                    ⊎ ((s.caller ≡ stopping) × (s.looper ≡ ended) × (s.loop ≡ false))))))

step-IsPaired :
    (mv : Move) (s s' : Service)
    → IsPaired s
    → creates mv ≡ true
    → step mv s ≡ some s'
    → IsPaired s'
unfolding step begin_start begin_stop resume ep_thread
step-IsPaired (call_start event thread) s s' h good went = ground (arith)
step-IsPaired call_stop s s' h good went = ground (arith)
step-IsPaired caller_resumes s s' h good went = ground (arith)
step-IsPaired (looper_goes handle idle_fd is_ready) s s' h good went = ground (arith)

some_same : (a b : Service) → some a ≡ some b → a ≡ b
some_same a b h = cc h

abbrev run_from : List Move → Option Service → Option Service
run_from moves none = none
run_from moves (some s) = run moves s

run-step :
    (mv : Move) (moves : List Move) (s : Service) → run (mv ∷ moves) s ≡ run_from moves (step mv s)
unfolding run
run-step mv moves s = ground arith

run-IsPaired :
    (moves : List Move) (s s' : Service)
    → IsPaired s
    → all_create moves ≡ true
    → run moves s ≡ some s'
    → IsPaired s'
unfolding run
run-IsPaired [] s s' h good went = subst IsPaired (some_same s s' went) h
run-IsPaired (mv ∷ moves) s s' h good went = elim (Option-cases (step mv s)) [
  | inl stuck ↦ cc (went, run-step mv moves s, ap (run_from moves) stuck)
  | inr (s1, goes) ↦
      run-IsPaired moves s1 s' (step-IsPaired mv s s1 h (ground (arith)) goes) (ground (arith))
        (sym (run-step mv moves s ∙ ap (run_from moves) goes) ∙ went)
]

-- What a client sees of a service whose caller is back: it has stopped, and all is zero, or it runs,
-- and gives the handle of its loop.
abbrev pub Seen : Service → Type 0
Seen s =
    ((s ≡ zeroed) × (epoll_handle true s ≡ (minus_one, none)))
    ⊎ ((s.looper ≡ looping)
        × (epoll_handle true s ≡ (pos 0, some s.handle))
        × ((s.handle == 0) ≡ false))

-- No descriptor but the timer is ready.
abbrev pub idle : Move → Bool
idle (call_start event thread) = true
idle call_stop = true
idle caller_resumes = true
idle (looper_goes handle idle_fd is_ready) = not is_ready

abbrev pub all_idle : List Move → Bool
all_idle [] = true
all_idle (mv ∷ moves) = idle mv && all_idle moves

-- Some moves of the two threads bring the caller back, with the timer alone.
abbrev pub Returns : Service → Type 0
Returns s =
    (moves : List Move) × (s' : Service) × (all_idle moves ≡ true)
    × (run moves s ≡ some s')
    × (s'.caller ≡ ready)

IsPaired-Returns : (s : Service) → IsPaired s → (s.caller ≡ ready) ⊎ Returns s
unfolding run step resume ep_thread
IsPaired-Returns s (inl (here, _, _)) = inl here
IsPaired-Returns s (inr (inl (here, _, _, _, _))) = inl here
IsPaired-Returns s (inr (inr (inl (caller, looper, runs, _)))) = inr (
  looper_goes 1 (pos 3) false ∷ caller_resumes ∷ [],
  record s {
    handle = 1;
    idle_fd = pos 3;
    timer = some (100, 3000);
    signalled = false;
    looper = looping;
    caller = ready;
  },
  refl,
  ground arith,
  refl,
)
IsPaired-Returns s (inr (inr (inr (inl (caller, looper, runs, signal, _, _))))) =
    inr (
      caller_resumes ∷ [],
      record s { signalled = false; caller = ready },
      refl,
      ground arith,
      refl,
    )
IsPaired-Returns s (inr (inr (inr (inr (inl (caller, looper, stops, timer)))))) =
    inr (looper_goes 1 (pos 3) false ∷ caller_resumes ∷ [], zeroed, refl, ground arith, refl)
IsPaired-Returns s (inr (inr (inr (inr (inr (caller, looper, stops)))))) =
    inr (caller_resumes ∷ [], zeroed, refl, ground arith, refl)

in_stop :
    (s : Service) → IsPaired s → s.caller ≡ stopping → s.looper ≡ looping → s.timer ≡ some (10, 10)
in_stop s h caller looper = ground (arith)

pub run-Seen :
    (moves : List Move) (s : Service)
    → all_create moves ≡ true
    → run moves zeroed ≡ some s
    → ((s.caller ≡ ready) × Seen s)
      ⊎ (Returns s × (s.caller ≡ stopping → s.looper ≡ looping → s.timer ≡ some (10, 10)))
unfolding epoll_handle
run-Seen moves s good went = elim (run-IsPaired moves zeroed s (inl (refl, refl, refl)) good went) [
  | inl (here, _, zero_) ↦ inl (here, inl (zero_, ap (λ s. epoll_handle true s) zero_))
  | inr (inl (here, looper, runs, live, _)) ↦ inl (here, inr (looper, rw runs refl, live))
  | inr (inr waits) ↦ elim (IsPaired-Returns s (inr (inr waits))) [
    | inl here ↦ absurd (ground arith)
    | inr back ↦ inr (back, in_stop s (inr (inr waits)))
  ]
]
