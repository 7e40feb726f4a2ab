-- ===== src/Observer/Function.antt =====
-- `ObservableFunction`, whose observers are functions. A function stands at an address, and does as
-- it likes with the message that it is handed and with the heap.
use wkc.Common.{
  ℕ, ◌+◌, ◌<◌, ℤ, pos, ◌≡◌, Bool, false, List, [], ◌∷◌, arith, ◌==◌, if◌then◌else◌, Bool-cases, inl,
  inr, not, ◌&&◌, is_zero,
}
use wkc.Message.{Mesg, Env, Heap, blank, set_cb_id, assign}
use wkc.Message.Owned.{holds, Balanced, copy_msg-Balanced}
use wkc.Observer
use wkc.Observer.{Element, wants, copy_for, notify_each, is_has, add_element, del_element}

-- Add(fun, ulMsgId, ulCbId): `null` says that there is no function in `fun`
unfoldable pub add : Bool → ℕ → ℕ → ℕ → List (Element ℕ) → List (Element ℕ)
add null fun id cb es = if null then es else add_element ◌==◌ fun id cb es

-- Del(fun, ulMsgId)
unfoldable pub del : ℕ → ℕ → List (Element ℕ) → List (Element ℕ)
del fun id es = del_element ◌==◌ fun id es

-- IsHas(fun, ulMsgId)
unfoldable pub has : ℕ → ℕ → List (Element ℕ) → Bool
has fun id es = is_has ◌==◌ fun id es

module _ (env : Env) (run : ℕ → Mesg → Heap → ℤ × Mesg × Heap) where
  -- Notify(pMsg)
  unfoldable pub notify : Bool → List (Element ℕ) → Mesg → Heap → ℤ × Mesg × Heap × List (ℕ × Mesg)
  notify null es m h = Observer.notify env (λ h. h) (λ h _. h) run null es m h

  module _ (p : ℕ) (live : 0 < p) (left : ℕ → Mesg → ℕ) where
    -- what the functions leave of the messages that they were handed
    abbrev pub all_left : List (ℕ × Mesg) → ℕ
    all_left [] = 0
    all_left ((k, m) ∷ ms) = left k m + all_left ms

    blank-holds : holds p blank ≡ 0
    blank-holds = ground arith

    module _
        (leaves : (k : ℕ) (m : Mesg) (h : Heap)
          → Balanced p h (holds p m) (run k m h).2 (left k m)) where
      notify_each-Balanced :
          (es : List (Element ℕ)) (rc : ℤ) (m : Mesg) (h : Heap)
          → let (_, m', h', told) = notify_each env (λ h. h) (λ h _. h) run es rc m h in
            Balanced p h 0 h' (all_left told)
      unfolding notify_each assign
      notify_each-Balanced [] rc m h = record { same = omega arith }
      notify_each-Balanced (e ∷ es) rc m h = elim (Bool-cases (wants m.msg_id e)) [
        | inl told ↦
            let m1 = set_cb_id e.cb_id m in
            let (tmp, h1) = copy_for env (λ h. h) (λ (h _ : Heap). h) run m1 h in
            let (rc1, _, h2) = run e.who tmp h1 in
            let copied = copy_msg-Balanced p live env blank m1 h in
            let rest = notify_each-Balanced es rc1 m1 h2 in
            rw (told, notify_each)
              (record { same = omega (arith, copied, blank-holds, leaves e.who tmp h1, rest) })
        | inr passed ↦ rw (passed, notify_each) (notify_each-Balanced es rc m h)
      ]

      -- `Notify` gives back none of the copies that it makes: if each function leaves a known part
      -- of what its message owns, then `Notify` leaks the sum of these parts, and nothing else.
      pub notify-Balanced :
          (es : List (Element ℕ)) (m : Mesg) (h : Heap)
          → let (x, m', h', told) = notify false es m h in Balanced p h 0 h' (all_left told)
      unfolding notify Observer.notify
      notify-Balanced es m h = elim (Bool-cases (not (m.ptr == 0) && is_zero m.size)) [
        | inl no_size ↦ rw no_size (record { same = omega arith })
        | inr fit ↦ rw fit (notify_each-Balanced es (pos 0) m h)
      ]
