-- ===== src/Queue/Transfer.antt =====
-- `MsgQueue::Send`, `Receive` and what they use, and the functions of a message that call them.
use wkc.Common.{
  ℕ, ℤ, pos, minus_one, ◌+ℤ◌, ◌-ℤ◌, is_zero, is_neg, is_pos, eqb_ℤ, Bool, false, not, none, some,
  ◌==◌, if◌then◌else◌,
}
use wkc.Message.{Mesg, msg_data, msg_obj_ptr, free_msg}
use wkc.Queue.{
  Mq, World, update, msg_queue_ptr, inc_ul, err_getnr_failed, err_getnr_no_handle,
  err_receive_failed, err_send_failed, err_select_failed, err_ptr_is_null, err_send_handle_is_null,
  err_not_our_queue,
}

module _ (mq : Mq) where
  abbrev pub free_in : Mesg → World mq → Mesg × World mq
  free_in m w = let (m', h) = free_msg m w.heap in (m', record w { heap = h })

  -- Send(fd, pclsMsg, s32Prio): `null` says that the pointer is NULL
  unfoldable pub send : ℤ → Bool → Mesg → ℕ → World mq → ℤ × Mesg × World mq
  unfolding msg_queue_ptr
  send fd null m prio w =
      if null
      then (err_ptr_is_null, m, w)
      else (if not (is_pos fd)
          then (let (m', w') = free_in m w in (err_send_handle_is_null, m', w'))
          else (let p = msg_queue_ptr mq fd w in
              let (rc, k) = mq.send fd m prio w.kernel in
              let w1 = record w { kernel = k } in
              if eqb_ℤ rc minus_one
              then (let (m', w') = free_in m w1 in (err_send_failed, m', w'))
              else (let m' = msg_obj_ptr 0 (msg_data 0 (pos 0) m) in
                  let w2 = record w1 { sent = inc_ul w1.sent } in
                  (
                    pos 0,
                    m',
                    (if p == 0
                        then w2
                        else update mq p (λ q. record q { send_cnt = inc_ul q.send_cnt }) w2),
                  ))))

  -- CurMsgsInQueue()
  unfoldable pub cur_msgs_in_queue : ℕ → World mq → ℤ
  cur_msgs_in_queue self w =
      let q = w.queues self in
      if is_neg q.fd
      then err_getnr_no_handle
      else elim (mq.curmsgs q.fd w.kernel) [ none ↦ err_getnr_failed | some n ↦ n ]

  -- the end of `Receive`, after a message `m` came
  unfoldable pub accept : ℕ → Mesg → World mq → World mq
  unfolding cur_msgs_in_queue
  accept self m w =
      let w1 =
        update mq self
          (λ q. record q { last_msg_id = m.msg_id; receive_cnt = inc_ul q.receive_cnt })
          (record w { received = inc_ul w.received }) in
      let curmsgs = cur_msgs_in_queue self w1 +ℤ pos 1 in
      if is_neg ((w1.queues self).max_in_queue -ℤ curmsgs)
      then update mq self (λ q. record q { max_in_queue = curmsgs }) w1
      else w1

  -- Receive(pclsMsg, s32Prio, isPolling), with `mq_receive` and what follows
  unfoldable pub take_message : ℕ → Mesg → World mq → ℤ × Mesg × World mq
  unfolding accept
  take_message self m w =
      let (found, k) = mq.receive (w.queues self).fd w.kernel in
      let w1 = record w { kernel = k } in
      elim found [ none ↦ (err_receive_failed, m, w1) | some x ↦ (pos 0, x, accept self x w1) ]

  unfoldable pub receive : ℕ → Bool → Mesg → Bool → World mq → ℤ × Mesg × World mq
  unfolding take_message
  receive self null m is_polling w =
      if null
      then (err_ptr_is_null, m, w)
      else (let fd = (w.queues self).fd in
          if not (is_pos fd)
          then (err_send_handle_is_null, m, w)
          else (let w1 = update mq self (λ q. record q { not_in_use = false }) w in
              let (rc, is_set) = mq.select fd w1.kernel in
              if is_polling
              then (if is_neg rc
                  then (err_select_failed, m, w1)
                  else (if not is_set then (err_not_our_queue, m, w1) else take_message self m w1))
              else take_message self m w1))

  -- Mesg::SendMsg(fd, s32Prio), which frees again what a failed `Send` has freed
  unfoldable pub send_msg : ℤ → Mesg → ℕ → World mq → ℤ × Mesg × World mq
  unfolding send
  send_msg fd m prio w =
      let (rc, m', w') = send fd false m prio w in
      if is_zero rc then (rc, m', w') else (let (m2, w2) = free_in m' w' in (rc, m2, w2))

  -- Mesg::SendMsg(pclsMsgQueue, s32Prio)
  unfoldable pub send_msg_to : ℕ → Mesg → ℕ → World mq → ℤ × Mesg × World mq
  unfolding send_msg
  send_msg_to self m prio w = send_msg (w.queues self).fd m prio w

  -- Mesg::ReceiveMsg(pclsMsgQueue, s32Prio, isPolling)
  unfoldable pub receive_msg : ℕ → Mesg → Bool → World mq → ℤ × Mesg × World mq
  unfolding receive
  receive_msg self m is_polling w = receive self false m is_polling w
