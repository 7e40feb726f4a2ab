-- ===== src/Message.antt =====
-- project/basic/Mesg.h and Mesg.cpp: a message owns a block of bytes and an object, both of which
-- may be missing. An address is a number, and 0 is NULL. What `malloc` and an object's `Clone`
-- return is a parameter.
pub mod Owned
pub mod Copied
pub mod Tests
use wkc.Common.{
  ℕ, ◌+◌, ℤ, pos, negsuc, pos_part, is_pos, Bool, not, ◌&&◌, List, ◌∷◌, take, ◌==◌, if◌then◌else◌,
}

-- `MESG_T`, with the two unions of `tpMsgCmd` as the words that they are
pub record Mesg : Type 0 where
  pub msg_id : ℕ
  pub req : ℕ
  pub ack : ℕ
  pub ptr : ℕ
  pub size : ℤ
  pub cb_id : ℕ
  pub seq_cnt : ℕ
  pub obj : ℕ

pub data Event : Type 0 where
  malloc free clone delete : ℕ → Event

-- the calls so far, the latest first: an allocation with the address that it gave
abbrev pub Log : Type 0
Log = List Event

pub record Env : Type 0 where
  pub address : Log → ℕ
  pub cloned : ℕ → Log → ℕ

-- What stands at each address, and the calls.
pub record Heap : Type 0 where
  pub bytes : ℕ → List ℕ
  pub log : Log

abbrev pub note : Event → Heap → Heap
note e h = record h { log = e ∷ h.log }

-- Mesg()
abbrev pub blank : Mesg
blank = record {
  msg_id = 0;
  req = 0;
  ack = 0;
  ptr = 0;
  size = pos 0;
  cb_id = 0;
  seq_cnt = 0;
  obj = 0;
}

-- MsgData(ptr, size)
abbrev pub msg_data : ℕ → ℤ → Mesg → Mesg
msg_data p n m = record m { ptr = p; size = n }

-- MsgObjPtr(pclsMsgObj)
abbrev pub msg_obj_ptr : ℕ → Mesg → Mesg
msg_obj_ptr p m = record m { obj = p }

-- CbId(ulCbId)
abbrev pub set_cb_id : ℕ → Mesg → Mesg
set_cb_id c m = record m { cb_id = c }

-- ERR_MSG_COPY_MSG_ALLOC_FAILED
abbrev pub err_copy_alloc : ℤ
err_copy_alloc = negsuc 1301

-- the block of `Free`
unfoldable pub free_data : Mesg × Heap → Mesg × Heap
free_data (m, h) = if m.ptr == 0 then (m, h) else (msg_data 0 (pos 0) m, note (free m.ptr) h)

-- the object of `Free`
unfoldable pub delete_obj : Mesg × Heap → Mesg × Heap
delete_obj (m, h) = if m.obj == 0 then (m, h) else (msg_obj_ptr 0 m, note (delete m.obj) h)

-- Free()
unfoldable pub free_msg : Mesg → Heap → Mesg × Heap
unfolding free_data delete_obj
free_msg m h = delete_obj (free_data (m, h))

-- `memcpy(ptr, sigPtr, sigSize)` into a new block
abbrev pub copy_bytes : ℕ → ℕ → ℤ → Heap → Heap
copy_bytes p from n h = record h {
  bytes = λ q. if q == p then take (pos_part n) (h.bytes from) else h.bytes q;
}

module _ (env : Env) where
  -- the block of `CopyMsg`: the code, and the pair for `tpMsgData`
  unfoldable pub copy_data : Mesg → Heap → ℤ × (ℕ × ℤ) × Heap
  copy_data src h =
      if not (src.ptr == 0) && is_pos src.size
      then (let p = env.address h.log in
          if p == 0
          then (err_copy_alloc, (0, pos 0), note (malloc 0) h)
          else (pos 0, (p, src.size), copy_bytes p src.ptr src.size (note (malloc p) h)))
      else (pos 0, (0, pos 0), h)

  -- the object of `CopyMsg`
  unfoldable pub clone_obj : ℕ → Heap → ℕ × Heap
  clone_obj o h =
      if o == 0 then (0, h) else (env.cloned o h.log, note (clone (env.cloned o h.log)) h)

  -- CopyMsg(clsMsg) of another message, as its callers call it
  unfoldable pub copy_msg : Mesg → Mesg → Heap → ℤ × Mesg × Heap
  unfolding free_msg copy_data clone_obj
  copy_msg m src h =
      let (_, h1) = free_msg m h in
      let (rc, (p, n), h2) = copy_data src h1 in
      let (o, h3) = clone_obj src.obj h2 in (rc, record src { ptr = p; size = n; obj = o }, h3)

  -- Mesg(clsMsg): `m` is what stands in the memory of the new message
  unfoldable pub copy_construct : Mesg → Mesg → Heap → Mesg × Heap
  unfolding copy_msg
  copy_construct m src h =
      let (_, m', h') = copy_msg (msg_obj_ptr 0 (msg_data 0 (pos 0) m)) src h in (m', h')

  -- operator=(clsMsg): `same` says that the two are one message
  unfoldable pub assign : Bool → Mesg → Mesg → Heap → Mesg × Heap
  unfolding copy_msg
  assign same m src h = if same then (m, h) else (let (_, m', h') = copy_msg m src h in (m', h'))
