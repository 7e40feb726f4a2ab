-- ===== src/Sfifo/Shared.antt =====
-- `sfifo_put` and `sfifo_get` of project/utils/sfifo.c by two threads at once, one that only puts and
-- one that only gets. A step reads the counters, copies one byte, or stores a counter: these
-- happen in the order of the program, for which the code has its barriers.
use wkc.Common.{
  ℕ, suc, ◌+◌, ◌-◌, ◌≤◌, ◌<◌, ltb, List, [], ◌++◌, length, take, drop, memcpy, if◌then◌else◌, ◌≡◌,
}
use wkc.Sfifo.{Sfifo, add_u32, sub_u32, mask, first_part}
use wkc.Sfifo.Queue.{contents}

-- where byte `k` of `n` goes in the ring, by one of the two `memcpy` of `sfifo_put`
abbrev pub put_index : Sfifo → ℕ → ℕ → ℕ
put_index f n k =
    let at = mask f.size f.in_count in
    let l = first_part f at n in if ltb k l then at + k else k - l

-- where byte `k` of `n` stands in the ring, for one of the two `memcpy` of `sfifo_get`
abbrev pub get_index : Sfifo → ℕ → ℕ → ℕ
get_index f n k =
    let at = mask f.size f.out_count in
    let l = first_part f at n in if ltb k l then at + k else k - l

-- what the macro `min` compares with the length in `sfifo_put`, and in `sfifo_get`; where the length is
-- not below it, the macro computes it again, from counters that it reads again
abbrev pub free_bytes : Sfifo → ℕ
free_bytes f = add_u32 (sub_u32 f.size f.in_count) f.out_count

abbrev pub used_bytes : Sfifo → ℕ
used_bytes f = sub_u32 f.in_count f.out_count

-- The thread that puts: outside; in `sfifo_put` with its block and its length, between the two reads of
-- the macro; or with its block, the clipped length, and the count of bytes that are copied.
pub data Putter : Type 0 where
  outside : Putter
  clipping : (source : List ℕ) (len : ℕ) → Putter
  writing : (source : List ℕ) (n k : ℕ) → Putter

-- The thread that gets, with its block as it is so far.
pub data Getter : Type 0 where
  outside : Getter
  clipping : (target : List ℕ) (len : ℕ) → Getter
  reading : (target : List ℕ) (n k : ℕ) → Getter

-- The ring, the two threads, and what calls that have returned have put and given.
pub record Shared : Type 0 where
  pub ring : Sfifo
  pub putter : Putter
  pub getter : Getter
  pub sent : List ℕ
  pub given : List ℕ

-- the ring with byte `k` of the source copied into it
abbrev pub write_byte : Sfifo → List ℕ → ℕ → ℕ → Sfifo
write_byte f source n k = record f { buffer = memcpy f.buffer (put_index f n k) (drop k source) 1 }

-- the block with byte `k` copied into it
abbrev pub read_byte : Sfifo → List ℕ → ℕ → ℕ → List ℕ
read_byte f target n k = memcpy target k (drop (get_index f n k) f.buffer) 1

-- A call comes with a block that has the bytes, or the room, that it asks for. Where the second read of
-- the macro gives more than the block has, the copy goes past it: there is no step then.
pub data Step (s : Shared) : Shared → Type 0 where
  begin_put :
      (source : List ℕ) (len : ℕ)
      → s.putter ≡ Putter.outside
      → len ≤ length source
      → len < free_bytes s.ring
      → Step s (record s { putter = writing source len 0 })
  compare_put :
      (source : List ℕ) (len : ℕ)
      → s.putter ≡ Putter.outside
      → len ≤ length source
      → free_bytes s.ring ≤ len
      → Step s (record s { putter = Putter.clipping source len })
  clip_put :
      (source : List ℕ) (len : ℕ)
      → s.putter ≡ Putter.clipping source len
      → free_bytes s.ring ≤ length source
      → Step s (record s { putter = writing source (free_bytes s.ring) 0 })
  copy_in :
      (source : List ℕ) (n k : ℕ)
      → s.putter ≡ writing source n k
      → k < n
      → Step s (record s { putter = writing source n (suc k); ring = write_byte s.ring source n k })
  end_put :
      (source : List ℕ) (n : ℕ)
      → s.putter ≡ writing source n n
      → Step s (record s {
        putter = Putter.outside;
        ring = record s.ring { in_count = add_u32 s.ring.in_count n };
        sent = s.sent ++ take n source;
      })
  begin_get :
      (target : List ℕ) (len : ℕ)
      → s.getter ≡ Getter.outside
      → len ≤ length target
      → len < used_bytes s.ring
      → Step s (record s { getter = reading target len 0 })
  compare_get :
      (target : List ℕ) (len : ℕ)
      → s.getter ≡ Getter.outside
      → len ≤ length target
      → used_bytes s.ring ≤ len
      → Step s (record s { getter = Getter.clipping target len })
  clip_get :
      (target : List ℕ) (len : ℕ)
      → s.getter ≡ Getter.clipping target len
      → used_bytes s.ring ≤ length target
      → Step s (record s { getter = reading target (used_bytes s.ring) 0 })
  copy_out :
      (target : List ℕ) (n k : ℕ)
      → s.getter ≡ reading target n k
      → k < n
      → Step s (record s { getter = reading (read_byte s.ring target n k) n (suc k) })
  end_get :
      (target : List ℕ) (n : ℕ)
      → s.getter ≡ reading target n n
      → Step s (record s {
        getter = Getter.outside;
        ring = record s.ring { out_count = add_u32 s.ring.out_count n };
        given = s.given ++ take n target;
      })

-- the two threads outside a ring, whose bytes count as put
abbrev pub start_of : Sfifo → Shared
start_of f = record {
  ring = f;
  putter = Putter.outside;
  getter = Getter.outside;
  sent = contents f;
  given = [];
}

pub data Reach (f : Sfifo) : Shared → Type 0 where
  start : Reach f (start_of f)
  later : {s t : Shared} → Reach f s → Step s t → Reach f t
