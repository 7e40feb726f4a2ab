-- ===== src/Queue/Registered.antt =====
-- The map from descriptors to queues under `Open`, `Close` and `Send`.
use wkc.Common.{
  ℕ, ℤ, pos, minus_one, is_zero, is_neg, is_pos, eqb_ℤ, ◌≡◌, refl, ◌⊎◌, inl, inr, true, false, none,
  some, [], ◌∷◌, arith, ◌==◌, if◌then◌else◌, Bool-cases,
}
use wkc.Message.{Mesg}
use wkc.Queue.{
  Mq, Map, World, find, erase, update, msg_queue_ptr, inc_ul, insert_prio, err_close_failed,
  err_close_no_handle, err_open_failed, err_send_failed,
}
use wkc.Queue.Life.{open_fd, open_size, open_attr, close}
use wkc.Queue.Transfer.{send}

find-erase_self : (fd : ℤ) (m : Map) → find fd (erase fd m) ≡ none
find-erase_self fd [] = refl
find-erase_self fd ((k, q) ∷ m) = ground (arith, find-erase_self fd m)

==_refl : (a : ℕ) → (a == a) ≡ true
==_refl a = ground arith

eqb_ℤ_refl : (a : ℤ) → eqb_ℤ a a ≡ true
eqb_ℤ_refl a = ground arith

eqb_ℤ-trans_ne : (a b c : ℤ) → eqb_ℤ a b ≡ true → eqb_ℤ b c ≡ false → eqb_ℤ a c ≡ false
eqb_ℤ-trans_ne a b c e h = ground arith

find-erase_other : (fd k : ℤ) (m : Map) → eqb_ℤ fd k ≡ false → find k (erase fd m) ≡ find k m
find-erase_other fd k [] h = refl
find-erase_other fd k ((j, q) ∷ m) h =
    ground (arith, find-erase_other fd k m, eqb_ℤ-trans_ne j fd k)

-- the map after `gMap[fd] = self`, and after the entry is erased
abbrev ptr_in : ℤ → Map → ℕ
ptr_in fd m = elim (find fd m) [ none ↦ 0 | some q ↦ q ]

ptr-put : (fd : ℤ) (self : ℕ) (m : Map) → ptr_in fd ((fd, self) ∷ erase fd m) ≡ self
ptr-put fd self m = ground (arith, eqb_ℤ_refl fd)

ptr-erase : (fd : ℤ) (m : Map) → ptr_in fd (erase fd m) ≡ 0
ptr-erase fd m = ground (arith, find-erase_self fd m)

find-put_other :
    (fd k : ℤ) (self : ℕ) (m : Map)
    → eqb_ℤ fd k ≡ false
    → find k ((fd, self) ∷ erase fd m) ≡ find k m
find-put_other fd k self m h = ground (arith, find-erase_other fd k m)

put-others :
    (fd k : ℤ) (self : ℕ) (m : Map)
    → let m' = (fd, self) ∷ erase fd m in find k m' ≡ (if eqb_ℤ fd k then find k m' else find k m)
put-others fd k self m = ground (arith, find-put_other fd k self m)

erase-others :
    (fd k : ℤ) (m : Map)
    → find k (erase fd m) ≡ (if eqb_ℤ fd k then find k (erase fd m) else find k m)
erase-others fd k m = elim (Bool-cases (eqb_ℤ fd k)) [
  | inl same ↦ rw same refl
  | inr other ↦ rw other (find-erase_other fd k m other)
]

module _ (mq : Mq) where
  -- the entries of the map but that of `fd`
  abbrev pub OthersSame : ℤ → Map → Map → Type 0
  OthersSame fd m m' = (k : ℤ) → find k m' ≡ (if eqb_ℤ fd k then find k m' else find k m)

  abbrev pub OpenOutcome : ℕ → Map → ℤ × World mq → Type 0
  OpenOutcome self m (x, w') =
      ((x ≡ err_open_failed) × (is_neg (w'.queues self).fd ≡ true) × (w'.map ≡ m))
      ⊎ ((x ≡ pos 0)
          × (is_neg (w'.queues self).fd ≡ false)
          × (msg_queue_ptr mq (w'.queues self).fd w' ≡ self)
          × OthersSame (w'.queues self).fd m w'.map)

  fd_set :
      (self : ℕ) (fd : ℤ) (w : World mq)
      → ((update mq self (λ q. record q { fd = fd }) w).queues self).fd ≡ fd
  fd_set self fd w = ground (arith, ==_refl self)

  open_fd-Outcome :
      (self name : ℕ) (flag mode maxmsg : ℤ) (w : World mq)
      → (self == 0) ≡ false
      → OpenOutcome self w.map (open_fd mq self name flag mode maxmsg w)
  unfolding open_fd msg_queue_ptr
  open_fd-Outcome self name flag mode maxmsg w given =
      let fd = (mq.open_queue name flag mode maxmsg w.kernel).0 in
      elim (Bool-cases (is_neg fd)) [
        | inl bad ↦ rw (bad, ==_refl self) (inl (refl, bad, refl))
        | inr good ↦
            rw (good, given, ==_refl self)
              (inr (refl, good, ptr-put fd self w.map, λ k. put-others fd k self w.map))
      ]

  -- `Open` of a queue at an address that is not NULL returns ERR_MSG_QUEUE_OPEN_FAILED, with a
  -- negative descriptor, and changes no entry of the map; or it returns 0, the queue has a
  -- descriptor that the map leads to the queue, and the other entries are as they were.
  pub open-Outcome :
      (self name : ℕ) (flag mode maxmsg : ℤ) (w : World mq)
      → (self == 0) ≡ false
      → OpenOutcome self w.map (open_size mq self false name flag mode maxmsg w)
        × OpenOutcome self w.map (open_attr mq self false false name flag mode maxmsg w)
  unfolding open_size open_attr
  open-Outcome self name flag mode maxmsg w given = (
    open_fd-Outcome self name flag mode maxmsg _ given,
    open_fd-Outcome self name flag mode maxmsg _ given,
  )

  abbrev pub CloseOutcome : ℕ → World mq → ℤ × World mq → Type 0
  CloseOutcome self w (x, w') =
      ((x ≡ pos 0)
        × (msg_queue_ptr mq (w.queues self).fd w' ≡ 0)
        × OthersSame (w.queues self).fd w.map w'.map)
      ⊎ (((x ≡ err_close_no_handle) ⊎ (x ≡ err_close_failed)) × (w'.map ≡ w.map))

  -- `Close` of a queue at an address that is not NULL returns 0 with no entry left for its
  -- descriptor and the other entries as they were; or it returns an error and changes no entry.
  pub close-Outcome :
      (self : ℕ) (w : World mq) → (self == 0) ≡ false → CloseOutcome self w (close mq self w)
  unfolding close msg_queue_ptr
  close-Outcome self w given =
      let fd = (w.queues self).fd in
      elim (Bool-cases (is_neg fd)) [
        | inl bad ↦ rw bad (inr (inl refl, refl))
        | inr good ↦ elim (Bool-cases (is_zero (mq.close fd w.kernel).0)) [
          | inl closed ↦
              rw (good, closed, given)
                (inl (refl, ptr-erase fd w.map, λ k. erase-others fd k w.map))
          | inr failed ↦ rw (good, failed) (inr (inr refl, refl))
        ]
      ]

  -- What `Send` of a message to a descriptor above 0 does to the queues and to the counts.
  abbrev pub SendOutcome : ℤ → Mesg → ℕ → World mq → ℤ × Mesg × World mq → Type 0
  SendOutcome fd m prio w (x, m', w') =
      ((x ≡ pos 0)
        × (mq.contents w'.kernel fd ≡ insert_prio prio m (mq.contents w.kernel fd))
        × (w'.sent ≡ inc_ul w.sent)
        × ((q : ℕ)
            → (w'.queues q).send_cnt ≡ (
                if msg_queue_ptr mq fd w == 0
                then (w.queues q).send_cnt
                else (if q == msg_queue_ptr mq fd w
                    then inc_ul (w.queues q).send_cnt
                    else (w.queues q).send_cnt))))
      ⊎ ((x ≡ err_send_failed)
          × (mq.contents w'.kernel fd ≡ mq.contents w.kernel fd)
          × (w'.sent ≡ w.sent)
          × (w'.queues ≡ w.queues))

  -- `Send` to a descriptor above 0 returns 0 with the message in the queue of the descriptor, behind
  -- those of its priority, and counts it once in all and once at the queue that the map leads to,
  -- if any, and at no other; or it returns ERR_MSG_QUEUE_SEND_FAILED and changes neither the queue
  -- of the descriptor nor a count.
  pub send-Outcome :
      (fd : ℤ) (m : Mesg) (prio : ℕ) (w : World mq)
      → is_pos fd ≡ true
      → SendOutcome fd m prio w (send mq fd false m prio w)
  unfolding send
  send-Outcome fd m prio w good =
      elim (Bool-cases (eqb_ℤ (mq.send fd m prio w.kernel).0 minus_one)) [
        | inl failed ↦
            rw (good, failed) (inr (refl, mq.not_sent fd m prio w.kernel failed, refl, refl))
        | inr done ↦ elim (Bool-cases (msg_queue_ptr mq fd w == 0)) [
          | inl nobody ↦
              rw (good, done, nobody) (inl (refl, mq.sent fd m prio w.kernel done, refl, λ q. refl))
          | inr known ↦
              rw (good, done, known)
                (inl (refl, mq.sent fd m prio w.kernel done, refl, λ q. ground arith))
        ]
      ]
