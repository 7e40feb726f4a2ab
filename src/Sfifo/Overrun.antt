-- ===== src/Sfifo/Overrun.antt =====
-- The two reads of `min` in `sfifo_put` of project/utils/sfifo.c, with a call of `sfifo_get` by the other
-- thread between them.
use wkc.Common.{ℕ, ◌+◌, ◌≤◌, ◌<◌, ◌≡◌, refl, List, ◌++◌, length, take, min, arith}
use wkc.Sfifo.{Sfifo, get, rest}
use wkc.Sfifo.Valid.{IsValid}
use wkc.Sfifo.Get.{get-IsValid, get-rest}
use wkc.Sfifo.Shared.{Putter, Getter, Shared, compare_put, free_bytes, Reach, later}
use wkc.Sfifo.Ordered.{Reach-ordered, free_bytes-eq}
use wkc.Sfifo.WholeGet.{Reach-get}

free_bytes-get :
    {f : Sfifo} (v : IsValid f) (target : List ℕ) (len : ℕ)
    → free_bytes (get f target len).2 ≡ free_bytes f + min len (rest f)
free_bytes-get {f} v target len = omega (
  arith,
  free_bytes-eq (get-IsValid v target len),
  free_bytes-eq v,
  get-rest v target len,
  same_size,
  v.used_fits,
)
  where
    same_size : (get f target len).2.size ≡ f.size
    same_size = unfold get in refl

pub Reach-overrun :
    {f0 : Sfifo} {s : Shared}
    → IsValid f0
    → Reach f0 s
    → s.putter ≡ Putter.outside
    → s.getter ≡ Getter.outside
    → (source : List ℕ) (put_count : ℕ) → put_count ≤ length source
    → free_bytes s.ring ≤ put_count
    → (target : List ℕ) (get_count : ℕ) → get_count ≤ length target
    → length source < free_bytes s.ring + min get_count (rest s.ring)
    → let ring = (get s.ring target get_count).2 in
      Reach f0 (record s {
        putter = Putter.clipping source put_count;
        getter = Getter.outside;
        ring = ring;
        given = s.given ++ take (get s.ring target get_count).0 (get s.ring target get_count).1;
      })
      × (length source < free_bytes ring)
Reach-overrun {f0} {s} v0 r out idle source put_count room full target get_count space more = (
  Reach-get v0 (later r (compare_put source put_count out room full)) idle target get_count space,
  omega (arith, more, free_bytes-get (Reach-ordered v0 r).1 target get_count),
)
