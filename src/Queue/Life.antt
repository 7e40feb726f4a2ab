-- ===== src/Queue/Life.antt =====
-- `MsgQueue` from its constructor to its destructor. `DumpMsgQueue` takes fuel, one unit for each
-- `mq_receive`.
use wkc.Common.{
  ℕ, zero, suc, ℤ, pos, minus_one, is_zero, is_neg, Bool, true, false, ◌||◌, Option, none, some,
  ◌==◌, if◌then◌else◌,
}
use wkc.Queue.{
  Mq, World, update, add_msg_queue, del_msg_queue, err_close_failed, err_close_no_handle,
  err_name_unknown, err_open_failed, err_unlink_failed, err_ptr_is_null,
}
use wkc.Queue.Transfer.{free_in}

module _ (mq : Mq) where
  -- MsgQueue()
  unfoldable pub construct : ℕ → World mq → World mq
  construct self w =
      let w1 =
        update mq self
          (λ q. record q {
            fd = minus_one;
            name = 0;
            not_in_use = false;
            queue_size = pos 0;
            max_in_queue = pos 0;
          })
          w in
      if w.unlimited
      then w1
      else (if is_zero (mq.getrlimit w1.kernel)
          then record w1 { kernel = mq.setrlimit w1.kernel; unlimited = true }
          else w1)

  -- the end of both `Open`, from `mq_open` on
  unfoldable pub open_fd : ℕ → ℕ → ℤ → ℤ → ℤ → World mq → ℤ × World mq
  unfolding add_msg_queue
  open_fd self name flag mode maxmsg w =
      let (fd, k) = mq.open_queue name flag mode maxmsg w.kernel in
      let w1 = update mq self (λ q. record q { fd = fd }) (record w { kernel = k }) in
      if is_neg fd then (err_open_failed, w1) else (pos 0, add_msg_queue mq fd self w1)

  -- Open(name, flag, mode, maxmsg)
  unfoldable pub open_size : ℕ → Bool → ℕ → ℤ → ℤ → ℤ → World mq → ℤ × World mq
  unfolding open_fd
  open_size self null name flag mode maxmsg w =
      if null
      then (err_ptr_is_null, w)
      else (let w1 =
            update mq self
              (λ q. record q {
                name = name;
                queue_size = maxmsg;
                max_in_queue = pos 0;
                last_msg_id = 0;
                receive_cnt = 0;
                send_cnt = 0;
              })
              (record w { kernel = (mq.unlink name w.kernel).1 }) in
          open_fd self name flag mode maxmsg w1)

  -- Open(name, flag, mode, pattr), which keeps the last message id
  unfoldable pub open_attr : ℕ → Bool → Bool → ℕ → ℤ → ℤ → ℤ → World mq → ℤ × World mq
  unfolding open_fd
  open_attr self null null_attr name flag mode maxmsg w =
      if null || null_attr
      then (err_ptr_is_null, w)
      else (let w1 =
            update mq self
              (λ q. record q {
                name = name;
                queue_size = maxmsg;
                max_in_queue = pos 0;
                receive_cnt = 0;
                send_cnt = 0;
              })
              (record w { kernel = (mq.unlink name w.kernel).1 }) in
          open_fd self name flag mode maxmsg w1)

  -- Close()
  unfoldable pub close : ℕ → World mq → ℤ × World mq
  unfolding del_msg_queue
  close self w =
      let fd = (w.queues self).fd in
      if is_neg fd
      then (err_close_no_handle, w)
      else (let (rc, k) = mq.close fd w.kernel in
          let w1 = record w { kernel = k } in
          if is_zero rc then (pos 0, del_msg_queue mq fd self w1) else (err_close_failed, w1))

  -- DumpMsgQueue(fd): `none` where the fuel is not enough, or a call of `mq_receive` does not return
  unfoldable pub dump_msg_queue : ℕ → ℤ → World mq → Option (World mq)
  dump_msg_queue zero fd w = none
  dump_msg_queue (suc fuel) fd w = elim (mq.waits fd w.kernel) [
    | true ↦ none
    | false ↦ elim (mq.receive fd w.kernel).0 [
      | none ↦ some (record w { kernel = (mq.receive fd w.kernel).1 })
      | some m ↦
          dump_msg_queue fuel fd (free_in mq m (record w { kernel = (mq.receive fd w.kernel).1 })).1
    ]
  ]

  -- Clear()
  unfoldable pub clear : ℕ → ℕ → World mq → Option (World mq)
  unfolding dump_msg_queue
  clear fuel self w = dump_msg_queue fuel (w.queues self).fd w

  -- the end of `Unlink`, after `Clear`
  unfoldable pub unlink_cleared : ℕ → World mq → ℤ × World mq
  unfolding close
  unlink_cleared self w =
      let (_, w1) = close self w in
      let (rc, k) = mq.unlink (w1.queues self).name w1.kernel in
      ((if is_zero rc then pos 0 else err_unlink_failed), record w1 { kernel = k })

  -- Unlink(), and so the destructor
  unfoldable pub unlink : ℕ → ℕ → World mq → Option (ℤ × World mq)
  unfolding clear unlink_cleared
  unlink fuel self w =
      if (w.queues self).name == 0
      then some (err_name_unknown, w)
      else elim (clear fuel self w) [ none ↦ none | some w1 ↦ some (unlink_cleared self w1) ]
