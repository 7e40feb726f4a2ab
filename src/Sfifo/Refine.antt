-- ===== src/Sfifo/Refine.antt =====
-- `sfifo_put`, `sfifo_get` and `sfifo_rest` as the operations of a bounded queue of bytes.
use wkc.Common.{ℕ, ◌-◌, ◌≤◌, ◌≡◌, refl, List, [], ◌∷◌, ◌++◌, length, take, drop, arith, min}
use wkc.Sfifo.{Sfifo, put, get}
use wkc.Sfifo.Valid.{IsValid, put_len_lem, get_len_lem}
use wkc.Sfifo.Queue.{contents, length-contents}
use wkc.Sfifo.Put.{put-IsValid, contents-put}
use wkc.Sfifo.Get.{get-IsValid, contents-get, target-get}

-- The queue that the ring stands for: a list of at most `cap` bytes, oldest first. A put takes as
-- many bytes as fit, and a get gives as many as there are.
abbrev pub queue_put : ℕ → List ℕ → List ℕ → ℕ → ℕ × List ℕ
queue_put cap q source len = let n = min len (cap - length q) in (n, q ++ take n source)

abbrev pub queue_get : List ℕ → List ℕ → ℕ → ℕ × List ℕ × List ℕ
queue_get q target len = let n = min len (length q) in (n, take n q ++ drop n target, drop n q)

-- On a valid ring `sfifo_put` of `len` bytes, from a block that has them, is the put of the
-- bounded queue: the same count is returned, and the ring then holds the queue's bytes. It stays
-- valid, at the same size.
pub put_refines :
    {f : Sfifo} (source : List ℕ) (len : ℕ)
    → IsValid f
    → len ≤ length source
    → ((put f source len).0 ≡ (queue_put f.size (contents f) source len).0)
      × (contents (put f source len).1 ≡ (queue_put f.size (contents f) source len).1)
      × IsValid (put f source len).1
      × ((put f source len).1.size ≡ f.size)
put_refines {f} source len v room = (
  unfold put in rw length-contents (put_len_lem v len),
  rw length-contents (contents-put v source len room),
  put-IsValid v source len room,
  unfold put in refl,
)

-- On a valid ring `sfifo_get` of at most `len` bytes, into a block that has the room, is the get
-- of the queue: the same count is returned, the block begins with the oldest bytes and keeps its
-- own from there on, and the ring then holds the remaining bytes. It stays valid, at the same
-- size.
pub get_refines :
    {f : Sfifo} (target : List ℕ) (len : ℕ)
    → IsValid f
    → len ≤ length target
    → ((get f target len).0 ≡ (queue_get (contents f) target len).0)
      × ((get f target len).1 ≡ (queue_get (contents f) target len).1)
      × (contents (get f target len).2 ≡ (queue_get (contents f) target len).2)
      × IsValid (get f target len).2
      × ((get f target len).2.size ≡ f.size)
get_refines {f} target len v room = (
  unfold get in rw length-contents (get_len_lem v len),
  rw length-contents (target-get v target len room),
  rw length-contents (contents-get v target len),
  get-IsValid v target len,
  unfold get in refl,
)

-- A caller's request: the bytes to put, or the block to fill.
pub data Op : Type 0 where
  put_all fill : List ℕ → Op

-- What a sequence of calls returns, with the block of each get.
unfoldable pub run : Sfifo → List Op → List (ℕ × List ℕ)
run f [] = []
run f (put_all source ∷ ops) = let (n, f') = put f source (length source) in (n, []) ∷ run f' ops
run f (fill target ∷ ops) =
    let (n, block, f') = get f target (length target) in (n, block) ∷ run f' ops

unfoldable pub queue_run : ℕ → List ℕ → List Op → List (ℕ × List ℕ)
queue_run cap q [] = []
queue_run cap q (put_all source ∷ ops) =
    let (n, q') = queue_put cap q source (length source) in (n, []) ∷ queue_run cap q' ops
queue_run cap q (fill target ∷ ops) =
    let (n, block, q') = queue_get q target (length target) in (n, block) ∷ queue_run cap q' ops

-- No sequence of puts and gets tells a valid ring from the bounded queue of the bytes it holds.
pub run_refines :
    (ops : List Op) {f : Sfifo} → IsValid f → run f ops ≡ queue_run f.size (contents f) ops
unfolding run queue_run
run_refines [] v = refl
run_refines (put_all source ∷ ops) {f} v =
    let r = put_refines source (length source) v (omega arith) in
    rw (run_refines ops r.2, r.0, r.1, r.3) refl
run_refines (fill target ∷ ops) {f} v =
    let r = get_refines target (length target) v (omega arith) in
    rw (run_refines ops r.3, r.0, r.1, r.2, r.4) refl
