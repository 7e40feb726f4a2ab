-- ===== src/Demo/Commands.antt =====
-- The commands of project/demo/demoipc.c as a whole.
use wkc.Common.{
  ℕ, ◌≡◌, refl, sym, Bool, true, false, some, List, [], ◌∷◌, ◌==◌, if◌then◌else◌, arith, Bool-cases,
  inl, inr,
}
use mathlib.Core.Path.{subst}
use wkc.Demo.{
  Kind, evt, evt_rw, sem, Log, Env, Sample, World, initial, print_usage, sample_evt_rw_start,
  sample_evt_rw_stop, sample_sem_start, sample_sem_stop, sample_evt_start, sample_evt_stop,
  timer_start, timer_stop, open_queue, close_queue, send_queue, command, commands, main,
  epoll_start, epoll_stop, usage,
}
use wkc.Demo.Samples.{
  Settled, Untouched, Settled-Untouched, start_once-Settled, stop_once-Settled, start-Untouched,
  start_once-Untouched, join_all-Untouched, stop_once-Untouched,
}

-- both samples that have a guard
abbrev pub IsTidy : World → Type 0
IsTidy w = Settled evt_rw w.rw_sample w.log × Settled sem w.sem_sample w.log

if-IsTidy : (b : Bool) (x y : World) → IsTidy x → IsTidy y → IsTidy (if b then x else y)
if-IsTidy true x y p q = p
if-IsTidy false x y p q = q

IsTidy-Untouched :
    (w w' : World)
    → IsTidy w
    → w'.rw_sample ≡ w.rw_sample
    → w'.sem_sample ≡ w.sem_sample
    → Untouched evt_rw w.log w'.log
    → Untouched sem w.log w'.log
    → IsTidy w'
IsTidy-Untouched w w' (r, s) same_rw same_sem u v = (
  subst (λ (t : Sample). Settled evt_rw t w'.log) (sym same_rw)
      (Settled-Untouched evt_rw w.rw_sample w.log w'.log r u),
  subst (λ (t : Sample). Settled sem t w'.log) (sym same_sem)
      (Settled-Untouched sem w.sem_sample w.log w'.log s v),
)

module _ (env : Env)
    (gives : (k : Kind) (h : ℕ) (log : Log) → (env.created k h log == 0) ≡ false) where
  epoll-Untouched :
      (k : Kind) (w : World)
      → Untouched k w.log (timer_start env w).log
        × Untouched k w.log (timer_stop env w).log
        × Untouched k w.log (open_queue env w).log
        × Untouched k w.log (close_queue env w).log
        × Untouched k w.log (send_queue env w).log
  unfolding timer_start timer_stop open_queue close_queue send_queue
  epoll-Untouched k w = (ground arith, ground arith, ground arith, ground arith, ground arith)

  epoll-same :
      (w : World)
      → (((timer_start env w).rw_sample ≡ w.rw_sample)
          × ((timer_start env w).sem_sample ≡ w.sem_sample))
        × (((timer_stop env w).rw_sample ≡ w.rw_sample)
            × ((timer_stop env w).sem_sample ≡ w.sem_sample))
        × (((open_queue env w).rw_sample ≡ w.rw_sample)
            × ((open_queue env w).sem_sample ≡ w.sem_sample))
        × (((close_queue env w).rw_sample ≡ w.rw_sample)
            × ((close_queue env w).sem_sample ≡ w.sem_sample))
        × (((send_queue env w).rw_sample ≡ w.rw_sample)
            × ((send_queue env w).sem_sample ≡ w.sem_sample))
  unfolding timer_start timer_stop open_queue close_queue send_queue
  epoll-same w = (
    (ground arith, ground arith),
    (ground arith, ground arith),
    (ground arith, ground arith),
    (ground arith, ground arith),
    (ground arith, ground arith),
  )

  epoll-IsTidy :
      (w : World)
      → IsTidy w
      → IsTidy (timer_start env w)
        × IsTidy (timer_stop env w)
        × IsTidy (open_queue env w)
        × IsTidy (close_queue env w)
        × IsTidy (send_queue env w)
  epoll-IsTidy w h =
      let (u1, u2, u3, u4, u5) = epoll-Untouched evt_rw w in
      let (v1, v2, v3, v4, v5) = epoll-Untouched sem w in
      let ((a1, b1), (a2, b2), (a3, b3), (a4, b4), (a5, b5)) = epoll-same w in
      (
        IsTidy-Untouched w (timer_start env w) h a1 b1 u1 v1,
        IsTidy-Untouched w (timer_stop env w) h a2 b2 u2 v2,
        IsTidy-Untouched w (open_queue env w) h a3 b3 u3 v3,
        IsTidy-Untouched w (close_queue env w) h a4 b4 u4 v4,
        IsTidy-Untouched w (send_queue env w) h a5 b5 u5 v5,
      )

  samples-IsTidy :
      (w : World)
      → IsTidy w
      → IsTidy (sample_evt_start env w)
        × IsTidy (sample_evt_stop w)
        × IsTidy (sample_sem_start env w)
        × IsTidy (sample_sem_stop w)
        × IsTidy (sample_evt_rw_start env w)
        × IsTidy (sample_evt_rw_stop w)
        × IsTidy (print_usage w)
  unfolding sample_evt_start sample_evt_stop sample_sem_start sample_sem_stop sample_evt_rw_start
      sample_evt_rw_stop print_usage
  samples-IsTidy w (r, s) = (
    (
      Settled-Untouched evt_rw w.rw_sample w.log _ r
          (start-Untouched evt evt_rw refl env w.evt_sample w.log),
      Settled-Untouched sem w.sem_sample w.log _ s
          (start-Untouched evt sem refl env w.evt_sample w.log),
    ),
    (
      Settled-Untouched evt_rw w.rw_sample w.log _ r
          (join_all-Untouched evt evt_rw refl w.evt_sample w.log),
      Settled-Untouched sem w.sem_sample w.log _ s
          (join_all-Untouched evt sem refl w.evt_sample w.log),
    ),
    (
      Settled-Untouched evt_rw w.rw_sample w.log _ r
          (start_once-Untouched sem evt_rw refl env w.sem_sample w.log),
      start_once-Settled env gives sem w.sem_sample w.log s,
    ),
    (
      Settled-Untouched evt_rw w.rw_sample w.log _ r
          (stop_once-Untouched sem evt_rw refl w.sem_sample w.log),
      stop_once-Settled sem w.sem_sample w.log s,
    ),
    (
      start_once-Settled env gives evt_rw w.rw_sample w.log r,
      Settled-Untouched sem w.sem_sample w.log _ s
          (start_once-Untouched evt_rw sem refl env w.rw_sample w.log),
    ),
    (
      stop_once-Settled evt_rw w.rw_sample w.log r,
      Settled-Untouched sem w.sem_sample w.log _ s
          (stop_once-Untouched evt_rw sem refl w.rw_sample w.log),
    ),
    (
      record { threads = r.threads; handles = r.handles },
      record { threads = s.threads; handles = s.handles },
    ),
  )

  command-IsTidy : (c : ℕ) (w : World) → IsTidy w → IsTidy (command env c w)
  unfolding command
  command-IsTidy c w h =
      let (t1, t2, t3, t4, t5, t6, t0) = samples-IsTidy w h in
      let (t7, t8, t9, ta, tb) = epoll-IsTidy w h in
      if-IsTidy (c == b'?') _ _ t0 (
        if-IsTidy (c == b'1') _ _ t1 (
          if-IsTidy (c == b'2') _ _ t2 (
            if-IsTidy (c == b'3') _ _ t3 (
              if-IsTidy (c == b'4') _ _ t4 (
                if-IsTidy (c == b'5') _ _ t5 (
                  if-IsTidy (c == b'6') _ _ t6 (
                    if-IsTidy (c == b'7') _ _ t7 (
                      if-IsTidy (c == b'8') _ _ t8 (
                        if-IsTidy (c == b'9') _ _ t9
                          (if-IsTidy (c == b'a') _ _ ta (if-IsTidy (c == b'b') _ _ tb h)))))))))))

  -- whether a line starts with `q`
  abbrev pub has_quit : List ℕ → Bool
  has_quit [] = false
  has_quit (c ∷ cs) = let rest = has_quit cs in if c == b'q' then true else rest

  commands-IsTidy :
      (lines : List ℕ) (w : World)
      → IsTidy w
      → has_quit lines ≡ true
      → (w' : World) × (commands env lines w ≡ some w') × IsTidy w'
  unfolding commands
  commands-IsTidy [] w tidy quits = cc quits
  commands-IsTidy (c ∷ cs) w tidy quits = elim (Bool-cases (c == b'q')) [
    | inl last ↦ rw last (w, refl, tidy)
    | inr more ↦
        let (w', ends, kept) =
          commands-IsTidy cs (command env c w) (command-IsTidy c w tidy) (ground arith) in
        rw more (w', ends, kept)
  ]

  -- `main` over lines one of which starts with `q` returns, where each handle is created and not NULL:
  -- however the commands came, the sample of the readers and that of the semaphore each
  -- have three threads that were made and not joined, and one handle that was created and not
  -- destroyed, if their handle is set, and none if it is not.
  pub main-IsTidy :
      (lines : List ℕ) → has_quit lines ≡ true → (w : World) × (main env lines ≡ some w) × IsTidy w
  unfolding main
  main-IsTidy lines quits =
      let begun = record initial { log = epoll_start ∷ usage ∷ [] } in
      let none_yet : IsTidy begun =
        (record { threads = refl; handles = refl }, record { threads = refl; handles = refl }) in
      let (w, ends, (r, s)) = commands-IsTidy lines begun none_yet quits in
      rw (ends, main)
        (
          record w { log = epoll_stop ∷ w.log },
          refl,
          IsTidy-Untouched w (record w { log = epoll_stop ∷ w.log }) (r, s) refl refl (ground arith)
              (ground arith),
        )
