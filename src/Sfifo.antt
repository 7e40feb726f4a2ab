-- ===== src/Sfifo.antt =====
-- project/utils/sfifo.c and sfifo.h: a byte ring whose two counters run on without bound and wrap
-- with `uint32_t`. A byte is any number, since bytes are only moved. The barriers `mb`, `rmb` and
-- `wmb` order memory between two threads and change no value.
pub mod Valid
mod Copies
pub mod Queue
pub mod Put
pub mod Get
pub mod Refine
mod Bytes
pub mod Shared
pub mod Ordered
pub mod Whole
pub mod WholeGet
pub mod Overrun
pub mod Bounds
pub mod Lifetime
mod Tests
mod Turns
use wkc.Common.{
  ℕ, ◌+◌, ◌-◌, ◌%◌, ◌^◌, bit_and, Bool, true, false, Option, none, some, List, ltb, if◌then◌else◌,
  drop, memcpy,
}

-- `sfifo_t`, with the block that `buffer` points to in place of the pointer.
pub record Sfifo : Type 0 where
  pub buffer : List ℕ
  pub size : ℕ
  pub in_count : ℕ
  pub out_count : ℕ

-- `uint32_t` sums and differences wrap.
abbrev pub add_u32 : ℕ → ℕ → ℕ
add_u32 a b = (a + b) % 2 ^ 32

abbrev pub sub_u32 : ℕ → ℕ → ℕ
sub_u32 a b = (a + 2 ^ 32 - b) % 2 ^ 32

-- the macro `min`
abbrev pub min_macro : ℕ → ℕ → ℕ
min_macro a b = if ltb a b then a else b

-- `x & (fifo->size - 1)`
pub mask : ℕ → ℕ → ℕ
mask size x = bit_and x (sub_u32 size 1)

-- `sfifo_put` up to its memory effects: the clipped length and the index of the first byte.
pub put_len : Sfifo → ℕ → ℕ
put_len f len = min_macro len (add_u32 (sub_u32 f.size f.in_count) f.out_count)

-- the clipped length of `sfifo_get`
pub get_len : Sfifo → ℕ → ℕ
get_len f len = min_macro len (sub_u32 f.in_count f.out_count)

-- the part of `len` bytes that fits before the end of the buffer
pub first_part : Sfifo → ℕ → ℕ → ℕ
first_part f at len = min_macro len (sub_u32 f.size at)

-- The number of bytes taken, and the fifo after the call.
pub put : Sfifo → List ℕ → ℕ → ℕ × Sfifo
put f source len =
    let n = put_len f len in
    let at = mask f.size f.in_count in
    let l = first_part f at n in
    let once = memcpy f.buffer at source l in
    let twice = memcpy once 0 (drop l source) (sub_u32 n l) in
    (n, record f { buffer = twice; in_count = add_u32 f.in_count n })

-- The number of bytes given, the caller's block after the call, and the fifo.
pub get : Sfifo → List ℕ → ℕ → ℕ × List ℕ × Sfifo
get f target len =
    let n = get_len f len in
    let at = mask f.size f.out_count in
    let l = first_part f at n in
    let once = memcpy target 0 (drop at f.buffer) l in
    let twice = memcpy once l f.buffer (sub_u32 n l) in
    (n, twice, record f { out_count = add_u32 f.out_count n })

pub rest : Sfifo → ℕ
rest f = sub_u32 f.in_count f.out_count
