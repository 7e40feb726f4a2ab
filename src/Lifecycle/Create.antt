-- ===== src/Lifecycle/Create.antt =====
-- What the create functions leave behind, on every path.
use wkc.Common.{
  suc, ◌+◌, ℤ, pos, minus_one, is_zero, ◌≡◌, refl, ap, ◌⊎◌, inl, inr, Bool, true, false, some, ◌∷◌,
  arith,
}
use wkc.Posix.{
  calloc, mutex_init, mutex_lock, mutex_unlock, Env, World, Exit, next, goto, done, err_exit1,
  err_exit2, err_exit3, err_exit4, M, ◌>>◌, return, modify, set_out, proceed,
}
use wkc.Posix.Macros.{chk_fun_gt}
use wkc.Posix.Ledger.{held, count, allocated, freed, mutex_made, mutex_gone}
use wkc.Posix.Rules.{after_gt, after_arg}
use wkc.Lifecycle.{create, clean_up, landed, make_cond}
use wkc.Lifecycle.Cond.{Apart, make_cond_ends, make_cond-Keeps}

module _ {S : Type 0} where
  -- The handle written, one block and one mutex more, the mutex given up, and the object set up.
  pub record IsMade (object : S) (w w' : World S) : Type 0 where
    pub written : (p : ℤ) × (w'.out ≡ some p) × (is_zero p ≡ false)
    pub block : count allocated w'.log ≡ suc (count allocated w.log)
    pub none_freed : count freed w'.log ≡ count freed w.log
    pub mutex : count mutex_made w'.log ≡ suc (count mutex_made w.log)
    pub none_gone : count mutex_gone w'.log ≡ count mutex_gone w.log
    pub given_up : held w'.log ≡ false
    pub set_up : w'.object ≡ object

  -- A `free` for each block that was allocated, and a call of `pthread_mutex_destroy` for each mutex
  -- that was made.
  pub record IsUndone (w w' : World S) : Type 0 where
    pub blocks :
        count allocated w'.log + count freed w.log ≡ count freed w'.log + count allocated w.log
    pub mutexes :
        count mutex_made w'.log + count mutex_gone w.log
        ≡ count mutex_gone w'.log + count mutex_made w.log

  abbrev pub Outcome : S → World S → Exit (Unit {0}) × World S → Type 0
  Outcome object w (x, w') =
      ((x ≡ done (pos 0)) × IsMade object w w') ⊎ ((x ≡ done minus_one) × IsUndone w w')

  module _ (zeroed : S) (store : S → S) (shared relative : Bool) (env : Env S) (w : World S) where
    -- a piece of the body ends well, by itself or at its label
    abbrev Q : Exit (Unit {0}) × World S → Type 0
    Q x = Outcome (store zeroed) w (landed x clean_up env)

    -- With the mutex made and taken.
    record IsHeld (w' : World S) : Type 0 where
      block : count allocated w'.log ≡ suc (count allocated w.log)
      none_freed : count freed w'.log ≡ count freed w.log
      mutex : count mutex_made w'.log ≡ suc (count mutex_made w.log)
      none_gone : count mutex_gone w'.log ≡ count mutex_gone w.log
      blank : w'.object ≡ zeroed

    abbrev finish : ℤ → M S (Unit {0})
    finish p = do modify store; set_out (some p); chk_fun_gt mutex_unlock err_exit4; return (pos 0)

    undone2 : (w' : World S) → IsHeld w' → Q (goto err_exit2, w')
    unfolding clean_up
    undone2 w' h = inr (refl, omega (arith, h))

    undone3 : (w' : World S) → IsHeld w' → Q (goto err_exit3, w')
    unfolding clean_up
    undone3 w' h = inr (refl, omega (arith, h))

    undone4 :
        (w' : World S) (p : ℤ) (r : ℤ)
        → IsHeld w'
        → Q (
          goto err_exit4,
          record w' { object = store w'.object; log = (mutex_unlock, r) ∷ w'.log; out = some p },
        )
    unfolding clean_up
    undone4 w' p r h = inr (refl, omega (arith, h))

    finished :
        (w' : World S) (p : ℤ) (r : ℤ)
        → is_zero p ≡ false
        → is_zero r ≡ true
        → IsHeld w'
        → Q (
          done (pos 0),
          record w' { object = store w'.object; log = (mutex_unlock, r) ∷ w'.log; out = some p },
        )
    finished w' p r given z h = inl (
      refl,
      record {
        written = (p, refl, given);
        block = omega (arith, h);
        none_freed = omega (arith, h);
        mutex = omega (arith, h);
        none_gone = omega (arith, h);
        given_up = rw z refl;
        set_up = ap store h.blank;
      },
    )

    finish-Outcome : (p : ℤ) (w' : World S) → is_zero p ≡ false → IsHeld w' → Q (finish p env w')
    finish-Outcome p w' given h =
        after_gt Q _ env _ _ _ (λ r z. finished w' p r given z h) (λ r z. undone4 w' p r h)

    after_cond :
        (p : ℤ) (x : Exit (Unit {0})) (w' : World S)
        → ((x ≡ next tt) ⊎ ((x ≡ goto err_exit2) ⊎ (x ≡ goto err_exit3)))
        → is_zero p ≡ false
        → IsHeld w'
        → Q (proceed (x, w') (λ (_ : Unit {0}). finish p) env)
    after_cond p (next tt) w' e given h = finish-Outcome p w' given h
    after_cond p (goto err_exit2) w' e given h = undone2 w' h
    after_cond p (goto err_exit3) w' e given h = undone3 w' h
    after_cond p x w' e given h = ground arith

    after_lock :
        (p : ℤ) (w' : World S)
        → is_zero p ≡ false
        → IsHeld w'
        → Q ((make_cond shared relative >> finish p) env w')
    after_lock p w' given h =
        after_cond p (make_cond shared relative env w').0 (make_cond shared relative env w').1
          (make_cond_ends shared relative env w') given
          (held_on w' (make_cond shared relative env w').1 h
            ((make_cond-Keeps shared relative).apart env w'))
      where
        held_on : (u v : World S) → IsHeld u → Apart u v → IsHeld v
        held_on u v h a = ground arith

    after_calloc :
        (p : ℤ)
        → is_zero p ≡ false
        → Q (
            (chk_fun_gt mutex_init err_exit1
                >> (chk_fun_gt mutex_lock err_exit2 >> (make_cond shared relative >> finish p)))
              env
              (record w { object = zeroed; log = (calloc, p) ∷ w.log }))
    after_calloc p z =
        after_gt Q _ env _ _ _
          (λ r y.
            after_gt Q _ env _ _ _ (λ q x. after_lock p _ z (ground arith))
              (λ q x. undone2 _ (ground arith)))
          (λ r y. no_mutex r y)
      where
        no_mutex :
            (r : ℤ)
            → is_zero r ≡ false
            → Q (
              goto err_exit1,
              record w { object = zeroed; log = (mutex_init, r) ∷ (calloc, p) ∷ w.log },
            )
        no_mutex r y = unfold clean_up in inr (refl, ground arith)

    no_block :
        (p : ℤ) → is_zero p ≡ true → Q (done minus_one, record w { log = (calloc, p) ∷ w.log })
    no_block p z = inr (refl, ground arith)

  pub create-Outcome :
      (zeroed : S) (store : S → S) (has_handle shared relative : Bool) (env : Env S) (w : World S)
      → Outcome (store zeroed) w (create zeroed store has_handle shared relative env w)
  unfolding create
  create-Outcome zeroed store false shared relative env w = inr (refl, omega arith)
  create-Outcome zeroed store true shared relative env w =
      after_arg (Q zeroed store shared relative env w) _ env _ _ _
        (after_calloc zeroed store shared relative env w (env.answer w.log calloc))
        (no_block zeroed store shared relative env w (env.answer w.log calloc))
