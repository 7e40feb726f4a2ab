-- ===== src/Sfifo/Bounds.antt =====
-- The memory that `sfifo_put` and `sfifo_get` touch, and a put read back by a get.
use native.Mathlib.Nat.{mod-lt, le_refl}
use wkc.Common.{
  ℕ, ◌+◌, ◌-◌, ◌%◌, ◌≤◌, ◌<◌, ◌≡◌, sym, ap, ◌∙◌, List, [], ◌++◌, length, take, drop, length-drop,
  arith, min, append-nil, take-length, drop-length, ap₂,
}
use wkc.Sfifo.{Sfifo, sub_u32, mask, put, get, rest, put_len, get_len, first_part}
use wkc.Sfifo.Valid.{IsValid, size_bounds, mask-eq-mod, put_len_lem, get_len_lem, first_part_lem}
use wkc.Sfifo.Queue.{contents, length-contents, contents-empty}
use wkc.Sfifo.Refine.{put_refines, get_refines, queue_get}

module _ {f : Sfifo} (v : IsValid f) (len : ℕ) where
  abbrev put_at : ℕ
  put_at = mask f.size f.in_count

  abbrev put_first : ℕ
  put_first = first_part f put_at (put_len f len)

  -- On a valid ring both copies of `sfifo_put` stay inside the ring's buffer and inside the
  -- caller's block of `len` bytes, and the length of the second does not wrap.
  pub put_in_bounds :
      (source : List ℕ)
      → len ≤ length source
      → (put_at + put_first ≤ length f.buffer)
        × (put_first ≤ length source)
        × (sub_u32 (put_len f len) put_first ≤ length f.buffer)
        × (sub_u32 (put_len f len) put_first ≤ length (drop put_first source))
        × (put_first + sub_u32 (put_len f len) put_first ≡ put_len f len)
  put_in_bounds source room =
      rw
        (
          mask-eq-mod v f.in_count,
          first_part_lem v (f.in_count % f.size) (put_len f len) below,
          put_len_lem v len,
        )
        (omega (
          arith,
          size_bounds v,
          below,
          length-drop (min (min len (f.size - rest f)) (f.size - f.in_count % f.size)) source,
        ))
    where
      below : f.in_count % f.size < f.size
      below = mod-lt f.in_count (size_bounds v).0

  abbrev get_at : ℕ
  get_at = mask f.size f.out_count

  abbrev get_first : ℕ
  get_first = first_part f get_at (get_len f len)

  -- On a valid ring both copies of `sfifo_get` read inside the ring's buffer and write inside the
  -- caller's block of `len` bytes, and the length of the second does not wrap.
  pub get_in_bounds :
      (target : List ℕ)
      → len ≤ length target
      → (get_at + get_first ≤ length f.buffer)
        × (get_first ≤ length target)
        × (sub_u32 (get_len f len) get_first ≤ length f.buffer)
        × (get_first + sub_u32 (get_len f len) get_first ≤ length target)
        × (get_first + sub_u32 (get_len f len) get_first ≡ get_len f len)
  get_in_bounds target room =
      rw
        (
          mask-eq-mod v f.out_count,
          first_part_lem v (f.out_count % f.size) (get_len f len) below,
          get_len_lem v len,
        )
        (omega (arith, size_bounds v, below, v))
    where
      below : f.out_count % f.size < f.size
      below = mod-lt f.out_count (size_bounds v).0

nothing_after {ℓ} : {A : Type ℓ} (n : ℕ) (xs : List A) → length xs ≡ n → drop n xs ≡ []
nothing_after n xs e = rw (← e) (drop-length xs)

-- Bytes put into an empty valid ring that has the room come back from one get of as many bytes,
-- all of them and in order, and the ring is empty again.
pub get-put :
    {f : Sfifo} (source target : List ℕ)
    → IsValid f
    → rest f ≡ 0
    → length source ≤ f.size
    → length target ≡ length source
    → ((put f source (length source)).0 ≡ length source)
      × ((get (put f source (length source)).1 target (length source)).0 ≡ length source)
      × ((get (put f source (length source)).1 target (length source)).1 ≡ source)
      × (contents (get (put f source (length source)).1 target (length source)).2 ≡ [])
get-put {f} source target v empty small same = (
  put_all,
  got.0 ∙ asked,
  got.1
      ∙ ap₂ (λ (q r : List ℕ). q ++ r) (rw (asked, filled) (take-length source)) beyond
      ∙ append-nil source,
  got.2 ∙ rw (asked, filled) (drop-length source),
)
  where
    n : ℕ
    n = length source

    f' : Sfifo
    f' = (put f source n).1

    put_all : (put f source n).0 ≡ n
    put_all = omega (arith, (put_refines source n v (le_refl n)).0, length-contents f)

    filled : contents f' ≡ source
    filled =
        (put_refines source n v (le_refl n)).1
        ∙ rw (contents-empty f empty) (ap (λ k. take k source) (omega arith) ∙ take-length source)

    valid : IsValid f'
    valid = (put_refines source n v (le_refl n)).2

    got :
        ((get f' target n).0 ≡ (queue_get (contents f') target n).0)
        × ((get f' target n).1 ≡ (queue_get (contents f') target n).1)
        × (contents (get f' target n).2 ≡ (queue_get (contents f') target n).2)
        × IsValid (get f' target n).2
        × ((get f' target n).2.size ≡ f'.size)
    got = get_refines target n valid (omega arith)

    asked : min n (length (contents f')) ≡ n
    asked = omega (arith, ap length filled)

    beyond : drop (min n (length (contents f'))) target ≡ []
    beyond = nothing_after _ target (same ∙ sym asked)
