-- ===== src/Sfifo/Copies.antt =====
-- The two `memcpy` of `sfifo_put` and of `sfifo_get`, byte by byte: one up to the end of the
-- ring, one from its start.
use wkc.Common.{
  ℕ, ◌+◌, ◌-◌, ◌≤◌, ◌<◌, ◌≡◌, List, length, arith, ltb, leb, if◌then◌else◌, get_or, drop, memcpy,
  get_or-memcpy, get_or-drop, length-memcpy, length-drop, min,
}
use wkc.Sfifo.Valid.{wrap}

-- `n` bytes of the source go into the ring from index `at` on, round its end.
pub ring_write :
    (ring source : List ℕ) (size at n l p : ℕ)
    → length ring ≡ size
    → n ≤ length source
    → n ≤ size
    → at < size
    → p < size
    → l ≡ min n (size - at)
    → get_or (memcpy (memcpy ring at source l) 0 (drop l source) (n - l)) p 0 ≡ (
        if leb at p
        then (if ltb p (at + n) then get_or source (p - at) 0 else get_or ring p 0)
        else (if ltb (p + size) (at + n) then get_or source (p + size - at) 0 else get_or ring p 0))
ring_write ring source size at n l p hr hs hn ha hp hl = ground (
  arith,
  get_or-memcpy (memcpy ring at source l) 0 (drop l source) (n - l) p 0,
  length-memcpy ring at source l,
  length-drop l source,
  get_or-drop l source p 0,
  get_or-memcpy ring at source l p 0,
)

-- `n` bytes of the ring from index `at` on, round its end, go to the start of the target.
pub ring_read :
    (ring target : List ℕ) (size at n l i : ℕ)
    → length ring ≡ size
    → n ≤ length target
    → n ≤ size
    → at < size
    → l ≡ min n (size - at)
    → get_or (memcpy (memcpy target 0 (drop at ring) l) l ring (n - l)) i 0
      ≡ (if ltb i n then get_or ring (wrap size (at + i)) 0 else get_or target i 0)
ring_read ring target size at n l i hr ht hn ha hl = ground (
  arith,
  get_or-memcpy (memcpy target 0 (drop at ring) l) l ring (n - l) i 0,
  length-memcpy target 0 (drop at ring) l,
  length-drop at ring,
  get_or-memcpy target 0 (drop at ring) l i 0,
  get_or-drop at ring i 0,
)
