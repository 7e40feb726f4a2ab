-- ===== src/Sfifo/Turns.antt =====
-- Two threads on a concrete ring.
use wkc.Common.{ℕ, min, ◌+◌, ◌≡◌, refl, [], ◌∷◌, ◌++◌, ◌<◌, ◌≤◌, length, take, arith}
use wkc.Sfifo.{rest, put, get}
use wkc.Sfifo.Valid.{IsValid}
use wkc.Sfifo.Queue.{contents}
use wkc.Sfifo.Tests.{wrapping, wrapping-IsValid}
use wkc.Sfifo.Shared.{
  Putter, Getter, reading, Shared, compare_put, begin_get, free_bytes, used_bytes, start_of, Reach,
  start, later,
}
use wkc.Sfifo.Ordered.{Reach-ordered}
use wkc.Sfifo.Whole.{Reach-put}
use wkc.Sfifo.WholeGet.{Reach-get}
use wkc.Sfifo.Overrun.{Reach-overrun}

one_free : free_bytes wrapping ≤ 1
one_free = omega arith

three_used : 2 < used_bytes wrapping
three_used = omega arith

-- the getting thread begins between the two reads of the putting one
abbrev both_in : Shared
both_in = record (start_of wrapping) {
  putter = Putter.clipping (40 ∷ []) 1;
  getter = reading (0 ∷ 0 ∷ []) 2 0;
}

both_in-reached : Reach wrapping both_in
both_in-reached =
    later (later start (compare_put (40 ∷ []) 1 refl (omega arith) one_free))
      (begin_get (0 ∷ 0 ∷ []) 2 refl (omega arith) three_used)

Reach-ordered_example :
    (both_in.sent ≡ both_in.given ++ contents both_in.ring) × IsValid both_in.ring
Reach-ordered_example = Reach-ordered wrapping-IsValid both_in-reached

Reach-put_example : Reach wrapping (record (start_of wrapping) {
  putter = Putter.outside;
  ring = (put wrapping (40 ∷ 50 ∷ []) 2).1;
  sent = contents wrapping ++ take (put wrapping (40 ∷ 50 ∷ []) 2).0 (40 ∷ 50 ∷ []);
})
Reach-put_example = Reach-put wrapping-IsValid start refl (40 ∷ 50 ∷ []) 2 (omega arith)

Reach-get_example : Reach wrapping (record (start_of wrapping) {
  getter = Getter.outside;
  ring = (get wrapping (0 ∷ 0 ∷ []) 2).2;
  given = [] ++ take (get wrapping (0 ∷ 0 ∷ []) 2).0 (get wrapping (0 ∷ 0 ∷ []) 2).1;
})
Reach-get_example = Reach-get wrapping-IsValid start refl (0 ∷ 0 ∷ []) 2 (omega arith)

three_read : 1 < free_bytes wrapping + min 3 (rest wrapping)
unfolding rest
three_read = omega arith

Reach-overrun_example :
    let ring = (get wrapping (0 ∷ 0 ∷ 0 ∷ []) 3).2 in
    Reach wrapping (record (start_of wrapping) {
      putter = Putter.clipping (40 ∷ []) 1;
      getter = Getter.outside;
      ring = ring;
      given = [] ++ take (get wrapping (0 ∷ 0 ∷ 0 ∷ []) 3).0 (get wrapping (0 ∷ 0 ∷ 0 ∷ []) 3).1;
    })
    × (length {A = ℕ} (40 ∷ []) < free_bytes ring)
Reach-overrun_example =
    Reach-overrun wrapping-IsValid start refl refl (40 ∷ []) 1 (omega arith) one_free
      (0 ∷ 0 ∷ 0 ∷ []) 3 (omega arith) three_read
