-- ===== src/Lifecycle/Cond.antt =====
-- The part of the create functions that makes the condition variable: which labels it may go to,
-- and what it leaves alone.
use wkc.Common.{◌≡◌, ◌⊎◌, Bool, true, false, arith}
use wkc.Posix.{
  Env, World, Exit, next, goto, stuck, done, Label, err_exit2, err_exit3, M, ◌>>◌, proceed, Clock,
  condattr_init, setpshared_shared, setpshared_private, setclock, cond_init,
}
use wkc.Posix.Ledger.{held, count, allocated, freed, mutex_made, mutex_gone}
use wkc.Posix.Macros.{chk_fun_gt}
use wkc.Lifecycle.{make_cond}

module _ {S : Type 0} where
  -- The calls between two worlds touch neither the blocks nor the mutexes nor the object.
  pub record Apart (w w' : World S) : Type 0 where
    pub same_allocated : count allocated w'.log ≡ count allocated w.log
    pub same_freed : count freed w'.log ≡ count freed w.log
    pub same_made : count mutex_made w'.log ≡ count mutex_made w.log
    pub same_gone : count mutex_gone w'.log ≡ count mutex_gone w.log
    pub same_held : held w'.log ≡ held w.log
    pub same_object : w'.object ≡ w.object
    pub same_out : w'.out ≡ w.out

  pub make_cond_ends :
      (shared relative : Bool) (env : Env S) (w : World S)
      → let (x, w') = make_cond shared relative env w in
        ((x ≡ next tt) ⊎ ((x ≡ goto err_exit2) ⊎ (x ≡ goto err_exit3)))
  unfolding make_cond
  make_cond_ends shared relative env w = ground arith

  pub record Keeps (m : M S (Unit {0})) : Type 0 where
    pub apart : (env : Env S) (w : World S) → Apart w (m env w).1

  Apart-trans : (u v w : World S) → Apart u v → Apart v w → Apart u w
  Apart-trans u v w a b = ground arith

  proceed-Apart :
      (w : World S) (k : M S (Unit {0})) (env : Env S) (x : Exit (Unit {0})) (w' : World S)
      → Keeps k
      → Apart w w'
      → Apart w (proceed (x, w') (λ (_ : Unit {0}). k) env).1
  proceed-Apart w k env (next tt) w' h a = Apart-trans _ _ _ a (h.apart env w')
  proceed-Apart w k env (done r) w' h a = a
  proceed-Apart w k env (goto l) w' h a = a
  proceed-Apart w k env stuck w' h a = a

  Keeps-then : {m k : M S (Unit {0})} → Keeps m → Keeps k → Keeps (m >> k)
  Keeps-then {m} {k} h g = record {
    apart = λ env w. proceed-Apart w k env (m env w).0 (m env w).1 g (h.apart env w);
  }

  Keeps-attr : {l : Label} → Keeps (chk_fun_gt condattr_init l)
  Keeps-attr = record { apart = λ env w. ground arith }

  Keeps-shared : {l : Label} → Keeps (chk_fun_gt setpshared_shared l)
  Keeps-shared = record { apart = λ env w. ground arith }

  Keeps-private : {l : Label} → Keeps (chk_fun_gt setpshared_private l)
  Keeps-private = record { apart = λ env w. ground arith }

  Keeps-clock : {c : Clock} {l : Label} → Keeps (chk_fun_gt (setclock c) l)
  Keeps-clock = record { apart = λ env w. ground arith }

  Keeps-cond : {l : Label} → Keeps (chk_fun_gt cond_init l)
  Keeps-cond = record { apart = λ env w. ground arith }

  ruleset keeps = (Keeps-then, Keeps-attr, Keeps-shared, Keeps-private, Keeps-clock, Keeps-cond)

  pub make_cond-Keeps : (shared relative : Bool) → Keeps (make_cond shared relative)
  unfolding make_cond
  make_cond-Keeps true true = search keeps
  make_cond-Keeps true false = search keeps
  make_cond-Keeps false true = search keeps
  make_cond-Keeps false false = record { apart = λ env w. ground arith }
