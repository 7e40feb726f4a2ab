-- ===== src/Observer/Posted.antt =====
-- `ObservableQueue`, whose observers are message queues: each is told by `MsgQueue::Send`.
use wkc.Common.{
  ℕ, suc, ◌+◌, ℤ, pos, is_pos, is_zero, eqb_ℤ, minus_one, length, ◌≡◌, refl, ap, Bool, true, false,
  not, ◌&&◌, ◌||◌, List, [], ◌∷◌, arith, ◌==◌, if◌then◌else◌, Bool-cases, inl, inr,
}
use mathlib.Core.Path.{subst}
use wkc.Message.{Mesg, Env, Heap, set_cb_id}
use wkc.Queue.{Mq, World, is_blocking, insert_prio}
use wkc.Queue.Transfer.{send}
use wkc.Observer
use wkc.Observer.{Element, wants, copy_for, notify_each, is_has, add_element, del_element}

-- Del(fd, ulMsgId)
unfoldable pub del : ℤ → ℕ → List (Element ℤ) → List (Element ℤ)
del fd id es = del_element eqb_ℤ fd id es

-- IsHas(fd, ulMsgId)
unfoldable pub has : ℤ → ℕ → List (Element ℤ) → Bool
has fd id es = is_has eqb_ℤ fd id es

-- how many of the elements of a queue want the message
abbrev pub wanted_by : ℤ → ℕ → List (Element ℤ) → ℕ
wanted_by fd id [] = 0
wanted_by fd id (e ∷ es) =
    let rest = wanted_by fd id es in if wants id e && eqb_ℤ e.who fd then suc rest else rest

-- every element has a descriptor above 0
abbrev pub all_pos : List (Element ℤ) → Bool
all_pos [] = true
all_pos (e ∷ es) = is_pos e.who && all_pos es

length-insert_prio :
    (p : ℕ) (m : Mesg) (ms : List (ℕ × Mesg)) → length (insert_prio p m ms) ≡ suc (length ms)
length-insert_prio p m [] = refl
length-insert_prio p m ((q, x) ∷ ms) = ground (arith, length-insert_prio p m ms)

eqb_ℤ→eq : (a b : ℤ) → eqb_ℤ a b ≡ true → a ≡ b
eqb_ℤ→eq a b h = ground arith

module _ (mq : Mq) where
  -- Add(fd, ulMsgId, ulCbId)
  unfoldable pub add : ℤ → ℕ → ℕ → List (Element ℤ) → World mq → List (Element ℤ)
  unfolding is_blocking
  add fd id cb es w =
      if is_zero fd || is_blocking mq fd w then es else add_element eqb_ℤ fd id cb es

  module _ (env : Env) where
    abbrev pub post : ℤ → Mesg → World mq → ℤ × Mesg × World mq
    post fd m w = send mq fd false m 0 w

    abbrev pub in_heap : Heap → World mq → World mq
    in_heap h w = record w { heap = h }

    -- Notify(pMsg)
    unfoldable pub notify :
        Bool → List (Element ℤ) → Mesg → World mq → ℤ × Mesg × World mq × List (ℤ × Mesg)
    notify null es m w = Observer.notify env (λ (w : World mq). w.heap) in_heap post null es m w

    module _ (j : ℤ)
        (sure : (fd : ℤ) (m : Mesg) (p : ℕ) (k : mq.Kernel)
          → eqb_ℤ (mq.send fd m p k).0 minus_one ≡ false) where
      abbrev waiting : World mq → ℕ
      waiting w = length (mq.contents w.kernel j)

      sent-waiting :
          (fd : ℤ) (m : Mesg) (k : mq.Kernel)
          → length (mq.contents (mq.send fd m 0 k).1 j)
            ≡ (if eqb_ℤ fd j then 1 else 0) + length (mq.contents k j)
      sent-waiting fd m k = elim (Bool-cases (eqb_ℤ fd j)) [
        | inl same ↦ rw same (
            subst
              (λ (j : ℤ).
                length (mq.contents (mq.send fd m 0 k).1 j) ≡ 1 + length (mq.contents k j))
              (eqb_ℤ→eq fd j same)
              (omega (
                arith,
                ap length (mq.sent fd m 0 k (sure fd m 0 k)),
                length-insert_prio 0 m (mq.contents k fd),
              )))
        | inr other ↦ rw other (omega (arith, ap length (mq.sent_other fd j m 0 k other)))
      ]

      post-waiting :
          (fd : ℤ) (m : Mesg) (w : World mq)
          → is_pos fd ≡ true
          → (waiting (post fd m w).2 ≡ (if eqb_ℤ fd j then 1 else 0) + waiting w)
            × ((post fd m w).0 ≡ pos 0)
      unfolding send
      post-waiting fd m w good =
          rw (good, sure fd m 0 w.kernel) (ground (arith, sent-waiting fd m w.kernel), refl)

      notify_each-waiting :
          (es : List (Element ℤ)) (m : Mesg) (w : World mq)
          → all_pos es ≡ true
          → let (x, _, w', _) =
              notify_each env (λ (w : World mq). w.heap) in_heap post es (pos 0) m w in
            (waiting w' ≡ wanted_by j m.msg_id es + waiting w) × (x ≡ pos 0)
      unfolding notify_each
      notify_each-waiting [] m w good = (omega arith, refl)
      notify_each-waiting (e ∷ es) m w good = elim (Bool-cases (wants m.msg_id e)) [
        | inl told ↦
            let m1 = set_cb_id e.cb_id m in
            let (tmp, w1) = copy_for env (λ (w : World mq). w.heap) in_heap post m1 w in
            let (one, zero_) = post-waiting e.who tmp w1 (ground (arith, good)) in
            let (more, end) =
              notify_each-waiting es m1 (post e.who tmp w1).2 (ground (arith, good)) in
            rw (told, notify_each, zero_) (ground (arith, one, more), end)
        | inr passed ↦ rw (passed, notify_each) (notify_each-waiting es m w (ground (arith, good)))
      ]

      -- If every `mq_send` succeeds and every element has a descriptor above 0, then `Notify` of a
      -- message that is not refused for its size returns 0, and each queue has a message more for
      -- each of its elements that wants the message.
      pub notify-waiting :
          (es : List (Element ℤ)) (m : Mesg) (w : World mq)
          → all_pos es ≡ true
          → (not (m.ptr == 0) && is_zero m.size) ≡ false
          → let (x, _, w', _) = notify false es m w in
            (length (mq.contents w'.kernel j)
              ≡ wanted_by j m.msg_id es + length (mq.contents w.kernel j))
            × (x ≡ pos 0)
      unfolding notify Observer.notify
      notify-waiting es m w good fit = rw fit (notify_each-waiting es m w good)
