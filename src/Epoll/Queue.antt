-- ===== src/Epoll/Queue.antt =====
-- `wm_epoll_queue_open`: the limit on message queues, which is raised by the first call that can,
-- and the queue. The function's static variable `limit` is passed in and out.
use wkc.Common.{
  ℕ, ◌+◌, ◌≤◌, ℤ, minus_one, is_zero, eqb_ℤ, ◌≡◌, refl, ◌∙◌, Bool, true, false, List, [], ◌∷◌,
  arith, ◌==◌, if◌then◌else◌,
}
use wkc.Epoll.{EventList, Call, getrlimit, setrlimit, mq_unlink, mq_open, Env, World, say}
use wkc.Epoll.Registry.{count}

-- the arguments of a call; a name is a number, and 0 is NULL
pub record Request : Type 0 where
  pub name : ℕ
  pub flag : ℤ
  pub mode : ℤ
  pub maxmsg : ℤ
  pub msgsize : ℤ

abbrev pub raised : Call → ℤ → Bool
raised Call.setrlimit r = true
raised _ _ = false

-- how often the limit may still be raised
abbrev pub left : Bool → ℕ
left limit = if limit then 1 else 0

module _ (l : EventList) (env : Env l) where
  -- the part under `if (limit)`: whether to go on, `limit`, and the world
  pub raise_limit : Bool → World l → Bool × Bool × World l
  raise_limit limit w =
      if limit
      then (if is_zero (env.answer w.log getrlimit)
          then (true, false, say l env setrlimit (say l env getrlimit w))
          else (false, true, say l env getrlimit w))
      else (true, false, w)

  -- wm_epoll_queue_open(ps8Name, flag, mode, maxmsg, msgsize)
  pub queue_open : Bool → Request → World l → ℤ × Bool × World l
  queue_open limit q w =
      let (on, limit', w1) = raise_limit limit w in
      if on
      then (if q.name == 0
          then (minus_one, limit', w1)
          else (let w2 = say l env (mq_unlink q.name) w1 in
              let c = mq_open q.name q.flag q.mode q.maxmsg q.msgsize in
              let fd = env.answer w2.log c in
              ((if eqb_ℤ fd minus_one then minus_one else fd), limit', say l env c w2)))
      else (minus_one, limit', w1)

  -- A sequence of calls: `limit` and the world at its end.
  pub queue_opens : Bool → List Request → World l → Bool × World l
  queue_opens limit [] w = (limit, w)
  queue_opens limit (q ∷ qs) w =
      let (fd, limit', w') = queue_open limit q w in queue_opens limit' qs w'

  queue_open-limit :
      (limit : Bool) (q : Request) (w : World l)
      → let (fd, limit', w') = queue_open limit q w in
        count raised w'.log + left limit' ≡ count raised w.log + left limit
  unfolding queue_open raise_limit
  queue_open-limit limit q w = ground arith

  queue_opens_lem :
      (limit : Bool) (qs : List Request) (w : World l)
      → let (limit', w') = queue_opens limit qs w in
        count raised w'.log + left limit' ≡ count raised w.log + left limit
  unfolding queue_opens
  queue_opens_lem limit [] w = refl
  queue_opens_lem limit (q ∷ qs) w =
      let (fd, limit', w') = queue_open limit q w in
      queue_opens_lem limit' qs w' ∙ queue_open-limit limit q w

  -- In any sequence of calls the limit is raised at most once, and not at all after it was raised;
  -- it was raised exactly if `limit`, true at first, is false at the end.
  pub queue_opens-limit :
      (limit : Bool) (qs : List Request) (w : World l)
      → let (limit', w') = queue_opens limit qs w in
        (count raised w'.log ≤ count raised w.log + left limit)
        × (count raised w'.log + left limit' ≡ count raised w.log + left limit)
  queue_opens-limit limit qs w =
      (omega (arith, queue_opens_lem limit qs w), queue_opens_lem limit qs w)
