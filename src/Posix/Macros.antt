-- ===== src/Posix/Macros.antt =====
-- The checking macros of project/include/wm_log.h. What they log is left out.
use wkc.Common.{ℤ, is_zero, Bool, if◌then◌else◌}
use wkc.Posix.{Call, Label, M, ◌>>=◌, pure, return, jump, call}

module _ {S : Type 0} where
  -- CHK_ARG_RE(val, err)
  abbrev pub chk_arg_re : Bool → ℤ → M S (Unit {0})
  chk_arg_re val err = if val then return err else pure tt

  -- CHK_ARG_GT(val, here)
  abbrev pub chk_arg_gt : Bool → Label → M S (Unit {0})
  chk_arg_gt val here = if val then jump here else pure tt

  -- CHK_FUN_RE(func, err)
  abbrev pub chk_fun_re : Call → ℤ → M S (Unit {0})
  chk_fun_re func err = do ret ← call func; if is_zero ret then pure tt else return err

  -- CHK_FUN_GT(func, here)
  abbrev pub chk_fun_gt : Call → Label → M S (Unit {0})
  chk_fun_gt func here = do ret ← call func; if is_zero ret then pure tt else jump here

  -- CHK_FUN(func, ret)
  abbrev pub chk_fun : Call → M S ℤ
  chk_fun func = call func
