-- ===== src/Sfifo/WholeGet.antt =====
-- `sfifo_get` of project/utils/sfifo.c in steps of one byte, with no step of the other thread in
-- between.
use native.Mathlib.Nat.{mod-lt}
use mathlib.Core.Path.{subst}
use wkc.Common.{
  dec_lt, ℕ, zero, suc, ◌+◌, ◌≤◌, ◌<◌, ◌≡◌, refl, sym, ap, ◌∙◌, List, ◌++◌, length, arith, ltb,
  if◌then◌else◌, get_or, get_or-memcpy, get_or-drop, length-memcpy, length-drop, take, drop,
  list_ext, min,
}
use wkc.Sfifo.{Sfifo, add_u32, get, rest, get_len}
use wkc.Sfifo.Valid.{IsValid, size_bounds, get_len_lem, wrap, o, at, at-eq-wrap}
use wkc.Sfifo.Get.{get_or-get, length-get}
use wkc.Sfifo.Shared.{
  Getter, reading, Shared, begin_get, compare_get, clip_get, used_bytes, copy_out, end_get, Reach,
  later, read_byte,
}
use wkc.Sfifo.Ordered.{Reach-ordered}
use wkc.Sfifo.Bytes

-- the block with the first `k` bytes copied
abbrev reads : Sfifo → List ℕ → ℕ → ℕ → List ℕ
reads f target n zero = target
reads f target n (suc k) = read_byte f (reads f target n k) n k

length-reads : (f : Sfifo) (target : List ℕ) (n k : ℕ) → length (reads f target n k) ≡ length target
length-reads f target n zero = refl
length-reads f target n (suc k) =
    length-memcpy (reads f target n k) k _ 1 ∙ length-reads f target n k

module _ {f : Sfifo} (v : IsValid f) (target : List ℕ) (n : ℕ) (room : n ≤ length target)
    (enough : n ≤ rest f) where
  byte_read :
      (k i : ℕ)
      → k ≤ n
      → get_or (reads f target n k) i 0
        ≡ (if ltb i k then get_or f.buffer (wrap f.size (o v + i)) 0 else get_or target i 0)
  byte_read zero i h = ground arith
  byte_read (suc k) i h =
      let spot = Bytes.get_index-eq-at v n k h (omega (arith, v.used_fits, enough)) in
      let inside : at v k < f.size = mod-lt (f.out_count + k) (size_bounds v).0 in
      rw spot (
        ground (
          arith,
          get_or-memcpy (reads f target n k) k (drop (at v k) f.buffer) 1 i 0,
          length-drop (at v k) f.buffer,
          get_or-drop (at v k) f.buffer 0 0,
          length-reads f target n k,
          at-eq-wrap v k (omega (arith, v.used_fits, enough, h)),
          byte_read k i (omega arith),
          v.whole,
          inside,
        ))

module _ {f : Sfifo} (v : IsValid f) (target : List ℕ) (len : ℕ) (room : len ≤ length target) where
  all_read : reads f target (get_len f len) (get_len f len) ≡ (get f target len).1
  all_read =
      list_ext _ _ 0 (length-reads f target n n ∙ sym (length-get v target len room)) λ i low.
        byte_read v target n (omega (arith, clipped, room)) (omega (arith, clipped)) n i
          (omega arith)
        ∙ ap
            (λ (t : ℕ).
              if ltb i t then get_or f.buffer (wrap f.size (o v + i)) 0 else get_or target i 0)
            clipped
        ∙ sym (get_or-get v target len room i)
    where
      n : ℕ
      n = get_len f len

      clipped : n ≡ min len (rest f)
      clipped = get_len_lem v len

  get_count : (get f target len).0 ≡ get_len f len
  unfolding get
  get_count = refl

  get_ring : (get f target len).2 ≡ record f { out_count = add_u32 f.out_count (get_len f len) }
  unfolding get
  get_ring = refl

  get_copies :
      (f0 : Sfifo) (s : Shared) (k : ℕ)
      → k ≤ get_len f len
      → Reach f0 (record s { getter = reading target (get_len f len) 0; ring = f })
      → Reach f0 (record s {
        getter = reading (reads f target (get_len f len) k) (get_len f len) k;
        ring = f;
      })
  get_copies f0 s zero h r = r
  get_copies f0 s (suc k) h r =
      later (get_copies f0 s k (omega arith) r)
        (copy_out (reads f target (get_len f len) k) (get_len f len) k refl h)

-- With no step in between, the two reads of `min` give the clipped length.
start_get :
    {f0 : Sfifo} {s : Shared}
    → IsValid f0
    → Reach f0 s
    → s.getter ≡ Getter.outside
    → (target : List ℕ) (len : ℕ) → len ≤ length target
    → Reach f0 (record s { getter = reading target (get_len s.ring len) 0 })
unfolding get_len
start_get {f0} {s} v0 r out target len room = elim (dec_lt len (used_bytes s.ring)) [
  | yes fits ↦
      subst (λ (n : ℕ). Reach f0 (record s { getter = reading target n 0 })) (ground (arith, fits))
        (later r (begin_get target len out room fits))
  | no more ↦
      subst (λ (n : ℕ). Reach f0 (record s { getter = reading target n 0 })) (ground (arith, more))
        (later (later r (compare_get target len out room (omega (arith, more))))
          (clip_get target len refl (omega (arith, room, more))))
]

-- In any state of the two threads in which the getting thread is in no call, a call of `sfifo_get`,
-- with a block of at least the length it passes, can run without a step of the other thread in
-- between, and gives the bytes and leaves the ring that the function of Sfifo gives.
pub Reach-get :
    {f0 : Sfifo} {s : Shared}
    → IsValid f0
    → Reach f0 s
    → s.getter ≡ Getter.outside
    → (target : List ℕ) (len : ℕ) → len ≤ length target
    → Reach f0 (record s {
      getter = Getter.outside;
      ring = (get s.ring target len).2;
      given = s.given ++ take (get s.ring target len).0 (get s.ring target len).1;
    })
Reach-get {f0} {s} v0 r out target len room =
    let v = (Reach-ordered v0 r).1 in
    let n = get_len s.ring len in
    let copies =
      get_copies v target len room f0 s n (omega arith) (start_get v0 r out target len room) in
    subst
      (λ (x : ℕ × List ℕ × Sfifo).
        Reach f0
          (record s { getter = Getter.outside; ring = x.2; given = s.given ++ take x.0 x.1 }))
      (λ i. (
        sym (get_count v target len room) i,
        all_read v target len room i,
        sym (get_ring v target len room) i,
      ))
      (later copies (end_get (reads s.ring target n n) n refl))
