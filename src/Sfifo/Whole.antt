-- ===== src/Sfifo/Whole.antt =====
-- `sfifo_put` and `sfifo_get` of project/utils/sfifo.c in steps of one byte, with no step of the other
-- thread in between.
use native.Mathlib.Nat.{mod-lt, mod-add-mod}
use mathlib.Core.Path.{subst}
use wkc.Common.{
  dec_lt, ℕ, zero, suc, ◌+◌, ◌-◌, ◌%◌, ◌^◌, ◌≤◌, ◌<◌, ◌≡◌, refl, sym, ap, ap₂, ◌∙◌, List, ◌++◌,
  length, arith, if◌then◌else◌, get_or, take, list_ext, ◌==◌,
}
use wkc.Sfifo.{Sfifo, add_u32, put, rest, put_len}
use wkc.Sfifo.Valid.{IsValid, put_len_lem, size_bounds, mod_once, wrap}
use wkc.Sfifo.Put.{written, get_or-put, put-IsValid}
use wkc.Sfifo.Shared.{
  Putter, writing, Shared, begin_put, compare_put, clip_put, free_bytes, copy_in, end_put, Reach,
  later, write_byte,
}
use wkc.Sfifo.Ordered.{Reach-ordered}
use wkc.Sfifo.Bytes

-- the ring with the first `k` bytes copied
abbrev writes : Sfifo → List ℕ → ℕ → ℕ → Sfifo
writes f source n zero = f
writes f source n (suc k) = write_byte (writes f source n k) source n k

record Copied (f : Sfifo) (source : List ℕ) (k : ℕ) (g : Sfifo) : Type 0 where
  valid : IsValid g
  same_size : g.size ≡ f.size
  same_in : g.in_count ≡ f.in_count
  same_out : g.out_count ≡ f.out_count
  byte :
      (p : ℕ)
      → p < f.size
      → get_or g.buffer p 0 ≡ written f.buffer source f.size (f.in_count % f.size) k p

written_step :
    (ring source : List ℕ) (size at k p q : ℕ)
    → at < size
    → k < size
    → p < size
    → q ≡ wrap size (at + k)
    → (if p == q then get_or source k 0 else written ring source size at k p)
      ≡ written ring source size at (suc k) p
written_step ring source size at k p q low small inside here = ground arith

rest_same : (f g : Sfifo) → g.in_count ≡ f.in_count → g.out_count ≡ f.out_count → rest g ≡ rest f
unfolding rest
rest_same f g p q = ap₂ (λ (a b : ℕ). (a + 2 ^ 32 - b) % 2 ^ 32) p q

-- the slot `k` places after the next one, counted from the start of the ring
slot_at :
    {f : Sfifo} (v : IsValid f) (c k : ℕ)
    → k ≤ f.size
    → (c + k) % f.size ≡ wrap f.size (c % f.size + k)
slot_at {f} v c k h =
    sym (mod-add-mod c f.size k)
    ∙ mod_once {size = f.size} {o = c % f.size} {k = k} (mod-lt c (size_bounds v).0) h

module _ {f : Sfifo} (v : IsValid f) (source : List ℕ) (n : ℕ) (room : n ≤ length source)
    (fits : rest f + n ≤ f.size) where
  Copied-write_byte :
      (k : ℕ) (g : Sfifo)
      → k < n
      → Copied f source k g
      → Copied f source (suc k) (write_byte g source n k)
  Copied-write_byte k g h c = record {
    valid = Bytes.write_byte-IsValid c.valid source n k h room wide;
    same_size = c.same_size;
    same_in = c.same_in;
    same_out = c.same_out;
    byte = λ p low.
        Bytes.get_or-wrote c.valid source n k h room wide p (omega (arith, low, c.same_size))
        ∙ ap (λ (x : ℕ). if p == here then get_or source k 0 else x) (c.byte p low)
        ∙ written_step f.buffer source f.size (f.in_count % f.size) k p here
            (mod-lt f.in_count (size_bounds v).0) (omega arith) low spot;
  }
    where
      here : ℕ
      here = (g.in_count + k) % g.size

      wide : rest g + n ≤ g.size
      wide = omega (arith, fits, rest_same f g c.same_in c.same_out, c.same_size)

      spot : here ≡ wrap f.size (f.in_count % f.size + k)
      spot =
          ap₂ (λ (a b : ℕ). (a + k) % b) c.same_in c.same_size
          ∙ slot_at v f.in_count k (omega (arith, fits, h))

  writes-Copied : (k : ℕ) → k ≤ n → Copied f source k (writes f source n k)
  writes-Copied zero h = record {
    valid = v;
    same_size = refl;
    same_in = refl;
    same_out = refl;
    byte = λ p low. ground arith;
  }
  writes-Copied (suc k) h =
      Copied-write_byte k (writes f source n k) h (writes-Copied k (omega arith))

sfifo_ext :
    (f g : Sfifo)
    → f.buffer ≡ g.buffer
    → f.size ≡ g.size
    → f.in_count ≡ g.in_count
    → f.out_count ≡ g.out_count
    → f ≡ g
sfifo_ext f g a b c d = λ i. record { buffer = a i; size = b i; in_count = c i; out_count = d i }

module _ {f : Sfifo} (v : IsValid f) (source : List ℕ) (len : ℕ) (room : len ≤ length source) where
  clip_room : put_len f len ≤ length source
  clip_room = omega (arith, put_len_lem v len, room)

  clip_fits : rest f + put_len f len ≤ f.size
  clip_fits = omega (arith, put_len_lem v len, v.used_fits)

  whole-Copied : Copied f source (put_len f len) (writes f source (put_len f len) (put_len f len))
  whole-Copied =
      writes-Copied v source (put_len f len) clip_room clip_fits (put_len f len) (omega arith)

  put_size : (put f source len).1.size ≡ f.size
  unfolding put
  put_size = refl

  put_in : (put f source len).1.in_count ≡ add_u32 f.in_count (put_len f len)
  unfolding put
  put_in = refl

  put_out : (put f source len).1.out_count ≡ f.out_count
  unfolding put
  put_out = refl

  put_count : (put f source len).0 ≡ put_len f len
  unfolding put
  put_count = refl

  -- all bytes copied and the counter stored
  whole_put :
      let g = writes f source (put_len f len) (put_len f len) in
      record g { in_count = add_u32 g.in_count (put_len f len) } ≡ (put f source len).1
  whole_put =
      let n = put_len f len in
      let g = writes f source n n in
      sfifo_ext _ _ same_bytes (whole-Copied.same_size ∙ sym put_size)
        (ap (λ (t : ℕ). add_u32 t n) whole-Copied.same_in ∙ sym put_in)
        (whole-Copied.same_out ∙ sym put_out)
    where
      same_bytes :
          (writes f source (put_len f len) (put_len f len)).buffer ≡ (put f source len).1.buffer
      same_bytes =
          list_ext _ _ 0
            (whole-Copied.valid.whole
              ∙ whole-Copied.same_size
              ∙ sym ((put-IsValid v source len room).whole ∙ put_size))
            λ p low.
              let inside : p < f.size =
                omega (arith, low, whole-Copied.valid.whole, whole-Copied.same_size) in
              whole-Copied.byte p inside
              ∙ ap (λ (t : ℕ). written f.buffer source f.size (f.in_count % f.size) t p)
                  (put_len_lem v len)
              ∙ sym (get_or-put v source len room p inside)

  put_copies :
      (f0 : Sfifo) (s : Shared) (k : ℕ)
      → k ≤ put_len f len
      → Reach f0 (record s { putter = writing source (put_len f len) 0; ring = f })
      → Reach f0 (record s {
        putter = writing source (put_len f len) k;
        ring = writes f source (put_len f len) k;
      })
  put_copies f0 s zero h r = r
  put_copies f0 s (suc k) h r =
      later (put_copies f0 s k (omega arith) r) (copy_in source (put_len f len) k refl h)

-- With no step in between, the two reads of `min` give the clipped length.
start_put :
    {f0 : Sfifo} {s : Shared}
    → IsValid f0
    → Reach f0 s
    → s.putter ≡ Putter.outside
    → (source : List ℕ) (len : ℕ) → len ≤ length source
    → Reach f0 (record s { putter = writing source (put_len s.ring len) 0 })
unfolding put_len
start_put {f0} {s} v0 r out source len room = elim (dec_lt len (free_bytes s.ring)) [
  | yes fits ↦
      subst (λ (n : ℕ). Reach f0 (record s { putter = writing source n 0 })) (ground (arith, fits))
        (later r (begin_put source len out room fits))
  | no more ↦
      subst (λ (n : ℕ). Reach f0 (record s { putter = writing source n 0 })) (ground (arith, more))
        (later (later r (compare_put source len out room (omega (arith, more))))
          (clip_put source len refl (omega (arith, room, more))))
]

-- In any state of the two threads in which the putting thread is in no call, a call of `sfifo_put`, with a
-- block of at least the length it passes, can run without a step of the other thread in between,
-- and leaves the ring and the count of bytes that the function of Sfifo gives.
pub Reach-put :
    {f0 : Sfifo} {s : Shared}
    → IsValid f0
    → Reach f0 s
    → s.putter ≡ Putter.outside
    → (source : List ℕ) (len : ℕ) → len ≤ length source
    → Reach f0 (record s {
      putter = Putter.outside;
      ring = (put s.ring source len).1;
      sent = s.sent ++ take (put s.ring source len).0 source;
    })
Reach-put {f0} {s} v0 r out source len room =
    let v = (Reach-ordered v0 r).1 in
    let n = put_len s.ring len in
    let copies =
      put_copies v source len room f0 s n (omega arith) (start_put v0 r out source len room) in
    subst
      (λ (x : Sfifo × ℕ).
        Reach f0
          (record s { putter = Putter.outside; ring = x.0; sent = s.sent ++ take x.1 source }))
      (λ i. (whole_put v source len room i, sym (put_count v source len room) i))
      (later copies (end_put source n refl))
