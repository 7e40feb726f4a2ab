-- ===== src/Posix/Rules.antt =====
-- Rules for reasoning forwards through a function: each call's code becomes a variable, and the
-- proof goes on once for a code that the check lets pass and once for one that it does not.
use wkc.Common.{ℤ, is_zero, Bool, true, false, ◌≡◌, refl, ◌∷◌, if◌then◌else◌}
use wkc.Posix.{Call, Env, World, Label, Exit, done, goto, M, ◌>>◌, proceed, pure, return, jump}
use wkc.Posix.Macros.{chk_arg_re, chk_fun_re, chk_fun_gt}

module _ {S B : Type 0} (Q : Exit B × World S → Type 0) (k : M S B) (env : Env S)
    (w : World S) where
  -- The world after a call that returned `r`.
  abbrev pub logged : Call → ℤ → World S
  logged c r = record w { log = (c, r) ∷ w.log }

  gt_branch :
      (b : Bool) (l : Label) (w' : World S)
      → (b ≡ true → Q (k env w'))
      → (b ≡ false → Q (goto l, w'))
      → Q (proceed ((if b then pure tt else jump l) env w') (λ (_ : Unit {0}). k) env)
  gt_branch true l w' f g = f refl
  gt_branch false l w' f g = g refl

  re_branch :
      (b : Bool) (e : ℤ) (w' : World S)
      → (b ≡ true → Q (k env w'))
      → (b ≡ false → Q (done e, w'))
      → Q (proceed ((if b then pure tt else return e) env w') (λ (_ : Unit {0}). k) env)
  re_branch true e w' f g = f refl
  re_branch false e w' f g = g refl

  pub after_gt :
      (c : Call) (l : Label)
      → ((r : ℤ) → is_zero r ≡ true → Q (k env (logged c r)))
      → ((r : ℤ) → is_zero r ≡ false → Q (goto l, logged c r))
      → Q ((chk_fun_gt c l >> k) env w)
  after_gt c l f g =
      gt_branch (is_zero (env.answer w.log c)) l (logged c (env.answer w.log c)) (f _) (g _)

  pub after_re :
      (c : Call) (e : ℤ)
      → ((r : ℤ) → is_zero r ≡ true → Q (k env (logged c r)))
      → ((r : ℤ) → is_zero r ≡ false → Q (done e, logged c r))
      → Q ((chk_fun_re c e >> k) env w)
  after_re c e f g =
      re_branch (is_zero (env.answer w.log c)) e (logged c (env.answer w.log c)) (f _) (g _)

  pub after_arg :
      (b : Bool) (e : ℤ)
      → (b ≡ false → Q (k env w))
      → (b ≡ true → Q (done e, w))
      → Q ((chk_arg_re b e >> k) env w)
  after_arg true e f g = g refl
  after_arg false e f g = f refl
