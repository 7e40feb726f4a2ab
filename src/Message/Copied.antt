-- ===== src/Message/Copied.antt =====
-- What `CopyMsg` copies.
use wkc.Common.{
  ℕ, ℤ, pos, pos_part, is_pos, ◌≡◌, ◌≢◌, refl, ap, ◌∙◌, ◌⊎◌, inl, inr, Bool, true, false, not, ◌&&◌,
  take, arith, ◌==◌,
}
use wkc.Message.{Mesg, Env, Heap, free_msg, copy_data, clone_obj, copy_msg, err_copy_alloc}

-- The words of a message, which are copied as they are.
pub record SameWords (m src : Mesg) : Type 0 where
  pub msg_id : m.msg_id ≡ src.msg_id
  pub req : m.req ≡ src.req
  pub ack : m.ack ≡ src.ack
  pub cb_id : m.cb_id ≡ src.cb_id
  pub seq_cnt : m.seq_cnt ≡ src.seq_cnt

-- whether there are bytes to copy
abbrev pub has_bytes : Mesg → Bool
has_bytes m = not (m.ptr == 0) && is_pos m.size

-- A new block with the bytes of the source's.
pub record IsCopied (m src : Mesg) (h h' : Heap) : Type 0 where
  pub given : m.ptr ≢ 0
  pub same_size : m.size ≡ src.size
  pub same_bytes : h'.bytes m.ptr ≡ take (pos_part src.size) (h.bytes src.ptr)

-- No block.
pub record IsEmpty (m : Mesg) : Type 0 where
  pub null : m.ptr ≡ 0
  pub zero_size : m.size ≡ pos 0

free_msg-bytes : (m : Mesg) (h : Heap) → (free_msg m h).1.bytes ≡ h.bytes
unfolding free_msg
free_msg-bytes m h = ground arith

module _ (env : Env) where
  -- what a copy may end with
  abbrev pub CopyOutcome : Mesg → Heap → ℤ × Mesg × Heap → Type 0
  CopyOutcome src h (rc, m', h') =
      ((rc ≡ pos 0) × (has_bytes src ≡ true) × IsCopied m' src h h')
      ⊎ (((rc ≡ pos 0) × (has_bytes src ≡ false) × IsEmpty m')
          ⊎ ((rc ≡ err_copy_alloc) × (has_bytes src ≡ true) × IsEmpty m'))

  abbrev DataOutcome : Mesg → Heap → ℤ × (ℕ × ℤ) × Heap → Type 0
  DataOutcome src h (rc, (p, n), h') =
      ((rc ≡ pos 0)
        × (has_bytes src ≡ true)
        × ((p ≢ 0) × (n ≡ src.size) × (h'.bytes p ≡ take (pos_part src.size) (h.bytes src.ptr))))
      ⊎ (((rc ≡ pos 0) × (has_bytes src ≡ false) × ((p ≡ 0) × (n ≡ pos 0)))
          ⊎ ((rc ≡ err_copy_alloc) × (has_bytes src ≡ true) × ((p ≡ 0) × (n ≡ pos 0))))

  copy_data_lem : (src : Mesg) (h : Heap) → DataOutcome src h (copy_data env src h)
  unfolding copy_data
  copy_data_lem src h = ground arith

  clone_obj-bytes : (o : ℕ) (h : Heap) → (clone_obj env o h).1.bytes ≡ h.bytes
  unfolding clone_obj
  clone_obj-bytes o h = ground arith

  pub copy_msg-Outcome :
      (m src : Mesg) (h : Heap)
      → SameWords (copy_msg env m src h).1 src × CopyOutcome src h (copy_msg env m src h)
  unfolding copy_msg
  copy_msg-Outcome m src h = (
    record { msg_id = refl; req = refl; ack = refl; cb_id = refl; seq_cnt = refl },
    elim (copy_data_lem src h1) [
      | inl (rc, has, (given, n, same)) ↦ inl (
        rc,
        has,
        record {
          given = given;
          same_size = n;
          same_bytes =
              ap (λ b. b (copy_data env src h1).1.0)
                (clone_obj-bytes src.obj (copy_data env src h1).2)
              ∙ same
              ∙ ap (λ b. take (pos_part src.size) (b src.ptr)) (free_msg-bytes m h);
        },
      )
      | inr (inl (rc, has, (null, zero_))) ↦
          inr (inl (rc, has, record { null = null; zero_size = zero_ }))
      | inr (inr (rc, has, (null, zero_))) ↦
          inr (inr (rc, has, record { null = null; zero_size = zero_ }))
    ],
  )
    where
      h1 : Heap
      h1 = (free_msg m h).1
