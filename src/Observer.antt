-- ===== src/Observer.antt =====
-- project/basic/ObservableFunction.cpp and ObservableQueue.cpp: who wants to be told of which
-- messages. The two classes are one text but for what an observer is, the address of a function or
-- the descriptor of a queue, and for how it is told. The mutex is held through each function.
pub mod Members
pub mod Notified
pub mod Function
pub mod Posted
mod Tests
use wkc.Common.{
  ℕ, zero, suc, ◌+◌, ℤ, pos, negsuc, minus_one, is_zero, Bool, false, not, ◌&&◌, ◌||◌, List, [],
  ◌∷◌, ◌==◌, if◌then◌else◌,
}
use wkc.Message.{Mesg, Env, Heap, blank, set_cb_id, assign}

-- `Element_T`
pub record Element (K : Type 0) : Type 0 where
  pub who : K
  pub msg_id : ℕ
  pub cb_id : ℕ

-- ERR_OBS_MSG_SIZE_NOT_SET
abbrev pub err_size_not_set : ℤ
err_size_not_set = negsuc 1520

module _ {K : Type 0} where
  -- an element of message 0 wants every message
  abbrev pub wants : ℕ → Element K → Bool
  wants id e = e.msg_id == 0 || e.msg_id == id

  -- Count(ulMsgId)
  unfoldable pub count : ℕ → List (Element K) → ℕ
  count id [] = 0
  count id (e ∷ es) = if wants id e then suc (count id es) else count id es

  -- Clear()
  abbrev pub clear : List (Element K) → List (Element K)
  clear es = []

module _ {K : Type 0} (same : K → K → Bool) where
  -- IsHas(who, ulMsgId)
  unfoldable pub is_has : K → ℕ → List (Element K) → Bool
  is_has who id [] = false
  is_has who id (e ∷ es) =
      same e.who who && e.msg_id == 0 || (same e.who who && e.msg_id == id || is_has who id es)

  -- Add(who, ulMsgId, ulCbId) after its check of the argument: the loop is that of `IsHas`
  unfoldable pub add_element : K → ℕ → ℕ → List (Element K) → List (Element K)
  unfolding is_has
  add_element who id cb es =
      if is_has who id es then es else record { who = who; msg_id = id; cb_id = cb } ∷ es

  -- Del(who, ulMsgId)
  unfoldable pub del_element : K → ℕ → List (Element K) → List (Element K)
  del_element who id [] = []
  del_element who id (e ∷ es) =
      let rest = del_element who id es in
      if same e.who who && e.msg_id == id then rest else e ∷ rest

-- `deliver` tells an observer: it gives the code, the message as it is left, and the world.
module _ {K W : Type 0} (env : Env) (heap : W → Heap) (with_heap : Heap → W → W)
    (deliver : K → Mesg → W → ℤ × Mesg × W) where
  -- The copy for an observer, in a new message.
  abbrev pub copy_for : Mesg → W → Mesg × W
  copy_for m w = let (tmp, h) = assign env false blank m (heap w) in (tmp, with_heap h w)

  -- The loop of `Notify`: its code so far goes in, and the code, the message, the world and what
  -- was delivered to whom come out. The copy is left to itself after the call.
  unfoldable pub notify_each : List (Element K) → ℤ → Mesg → W → ℤ × Mesg × W × List (K × Mesg)
  unfolding assign
  notify_each [] rc m w = (rc, m, w, [])
  notify_each (e ∷ es) rc m w =
      let told : ℤ × Mesg × W × List (K × Mesg) =
        (let m1 = set_cb_id e.cb_id m in
          let (tmp, w1) = copy_for m1 w in
          let (rc1, _, w2) = deliver e.who tmp w1 in
          let (rc2, m2, w3, ds) = notify_each es rc1 m1 w2 in (rc2, m2, w3, (e.who, tmp) ∷ ds)) in
      let passed = notify_each es rc m w in if wants m.msg_id e then told else passed

  -- Notify(pMsg)
  unfoldable pub notify : Bool → List (Element K) → Mesg → W → ℤ × Mesg × W × List (K × Mesg)
  unfolding notify_each
  notify null es m w =
      if null
      then (minus_one, m, w, [])
      else (if not (m.ptr == 0) && is_zero m.size
          then (err_size_not_set, m, w, [])
          else notify_each es (pos 0) m w)
