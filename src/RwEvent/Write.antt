-- ===== src/RwEvent/Write.antt =====
-- `evt_wr_broadcast` and `evt_rd_reset` on every path.
use wkc.Common.{is_pos, ◌+◌, pos, minus_one, ◌≡◌, ◌⊎◌, true, false, arith, if◌then◌else◌}
use wkc.Posix.{Env, World, done}
use wkc.Posix.Ledger.{held, count, broadcasted}
use wkc.RwEvent.{EvtRw, broadcast}

-- The flag is set, the readers are as they were, the mutex is given up, and the readers are woken
-- exactly when there are some.
pub record IsBroadcast (w w' : World EvtRw) : Type 0 where
  pub set : w'.object.wr ≡ 1
  pub readers : w'.object.rd ≡ w.object.rd
  pub given_up : held w'.log ≡ false
  pub woken :
      count broadcasted w'.log ≡ count broadcasted w.log + (if is_pos w.object.rd then 1 else 0)

-- Whatever the system answers, the broadcast returns 0 or -1. With 0 the flag is 1, the count of
-- readers is as it was, the mutex is given up, and the readers were woken once if there were some
-- and not at all if there were none. With -1 nothing is changed, or the flag is 1 and the function
-- left with the mutex.
pub wr_broadcast-Outcome :
    (env : Env EvtRw) (w : World EvtRw)
    → let (x, w') = broadcast true env w in
      ((x ≡ done (pos 0)) × IsBroadcast w w')
      ⊎ ((x ≡ done minus_one)
          × (((w'.object ≡ w.object) × (held w'.log ≡ held w.log))
              ⊎ ((w'.object.wr ≡ 1) × (held w'.log ≡ true))))
unfolding broadcast
wr_broadcast-Outcome env w = ground arith
