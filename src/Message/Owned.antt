-- ===== src/Message/Owned.antt =====
-- What a message owns, counted in the calls that allocate and give back.
use wkc.Common.{ℕ, suc, ◌+◌, ◌<◌, ◌≡◌, [], ◌∷◌, arith, ◌==◌, if◌then◌else◌}
use wkc.Message.{Mesg, Event, Log, Env, Heap, free_msg, copy_data, clone_obj, copy_msg}

-- how often the address `p` was handed out, and how often it was given back
abbrev pub taken : ℕ → Log → ℕ
taken p [] = 0
taken p (Event.malloc q ∷ log) = if q == p then suc (taken p log) else taken p log
taken p (Event.clone q ∷ log) = if q == p then suc (taken p log) else taken p log
taken p (_ ∷ log) = taken p log

abbrev pub given : ℕ → Log → ℕ
given p [] = 0
given p (Event.free q ∷ log) = if q == p then suc (given p log) else given p log
given p (Event.delete q ∷ log) = if q == p then suc (given p log) else given p log
given p (_ ∷ log) = given p log

-- how often a message holds the address
abbrev pub holds : ℕ → Mesg → ℕ
holds p m = (if m.ptr == p then 1 else 0) + (if m.obj == p then 1 else 0)

-- From a heap and what is held to another heap and what is then held.
pub record Balanced (p : ℕ) (h : Heap) (before : ℕ) (h' : Heap) (after : ℕ) : Type 0 where
  pub same : taken p h'.log + given p h.log + before ≡ given p h'.log + taken p h.log + after

pub Balanced-trans :
    (p : ℕ) (h h1 h2 : Heap) (a b c : ℕ)
    → Balanced p h a h1 b
    → Balanced p h1 b h2 c
    → Balanced p h a h2 c
Balanced-trans p h h1 h2 a b c x y = omega (arith, x, y)

module _ (p : ℕ) (live : 0 < p) where
  pub free_msg-Balanced :
      (m : Mesg) (h : Heap)
      → let (m', h') = free_msg m h in Balanced p h (holds p m) h' 0 × (holds p m' ≡ 0)
  unfolding free_msg
  free_msg-Balanced m h = ground arith

  module _ (env : Env) where
    copy_data-Balanced :
        (src : Mesg) (h : Heap)
        → let (_, (q, n), h') = copy_data env src h in Balanced p h 0 h' (if q == p then 1 else 0)
    unfolding copy_data
    copy_data-Balanced src h = ground arith

    clone_obj-Balanced :
        (o : ℕ) (h : Heap)
        → let (q, h') = clone_obj env o h in Balanced p h 0 h' (if q == p then 1 else 0)
    unfolding clone_obj
    clone_obj-Balanced o h = ground arith

    -- `CopyMsg` gives back what the message held and allocates what it then holds, and nothing
    -- else, at every address that is not NULL.
    pub copy_msg-Balanced :
        (m src : Mesg) (h : Heap)
        → let (_, m', h') = copy_msg env m src h in Balanced p h (holds p m) h' (holds p m')
    unfolding copy_msg
    copy_msg-Balanced m src h = omega (
      arith,
      (free_msg-Balanced m h).0,
      copy_data-Balanced src (free_msg m h).1,
      clone_obj-Balanced src.obj (copy_data env src (free_msg m h).1).2,
    )
