-- ===== src/Sfifo/Put.antt =====
-- `sfifo_put` against a bounded queue of bytes.
use wkc.Common.{
  ℕ, ◌+◌, ◌-◌, ◌%◌, ◌≤◌, ◌<◌, ◌≡◌, sym, ◌∙◌, List, ◌++◌, length, arith, ltb, leb, if◌then◌else◌,
  get_or, get_or-append_of, get_or-take, length-append, length-take, take, memcpy, length-memcpy,
  list_ext, min, dec_lt,
}
use native.Mathlib.Nat.{mod-lt}
use wkc.Sfifo.{Sfifo, sub_u32, put, rest, put_len}
use wkc.Sfifo.Valid.{
  IsValid, size_bounds, mask-eq-mod, in_index, put_len_lem, mod_once, wrap, first_part_lem, o, at,
  o-lt-size, at-eq-wrap,
}
use wkc.Sfifo.Copies.{ring_write}
use wkc.Sfifo.Queue.{contents, length-contents, get_or-contents}

-- What the ring holds at index `p` after `n` bytes were written from index `at` on.
abbrev pub written : List ℕ → List ℕ → ℕ → ℕ → ℕ → ℕ → ℕ
written ring source size at n p =
    if leb at p
    then (if ltb p (at + n) then get_or source (p - at) 0 else get_or ring p 0)
    else (if ltb (p + size) (at + n) then get_or source (p + size - at) 0 else get_or ring p 0)

module _ (ring source : List ℕ) (size o used n i at p : ℕ) (ho : o < size) (fits : used + n ≤ size)
    (hat : at ≡ wrap size (o + used)) (hp : p ≡ wrap size (o + i)) where
  written_old : i < used → written ring source size at n p ≡ get_or ring p 0
  written_old h = ground arith

  written_new :
      used ≤ i → i < used + n → written ring source size at n p ≡ get_or source (i - used) 0
  written_new h k = ground arith

module _ {f : Sfifo} (v : IsValid f) where
  abbrev pub n_put : ℕ → ℕ
  n_put len = min len (f.size - rest f)

  fits : (len : ℕ) → rest f + n_put len ≤ f.size
  fits len = omega (arith, v)

  module _ (source : List ℕ) (len : ℕ) (room : len ≤ length source) where
    abbrev pub into : ℕ
    into = f.in_count % f.size

    into-eq-wrap : into ≡ wrap f.size (o v + rest f)
    into-eq-wrap = in_index v ∙ mod_once (o-lt-size v) v.used_fits

    pub into-lt-size : into < f.size
    into-lt-size = mod-lt f.in_count (size_bounds v).0

    -- What `sfifo_put` leaves at each index of the buffer.
    pub get_or-put :
        (p : ℕ)
        → p < f.size
        → get_or (put f source len).1.buffer p 0 ≡ written f.buffer source f.size into (n_put len) p
    unfolding put
    get_or-put p h =
        rw
          (
            mask-eq-mod v f.in_count,
            put_len_lem v len,
            first_part_lem v into (n_put len) into-lt-size,
            no_wrap,
          )
          (ring_write f.buffer source f.size into (n_put len) first p v.whole (omega (arith, room))
            (omega arith) into-lt-size h (omega arith))
      where
        first : ℕ
        first = min (n_put len) (f.size - into)

        no_wrap : sub_u32 (n_put len) first ≡ n_put len - first
        no_wrap = omega (arith, size_bounds v)

    pub put-rest : rest (put f source len).1 ≡ rest f + n_put len
    unfolding put rest
    put-rest = ground (arith, put_len_lem v len, size_bounds v, v)

    -- Each byte that the ring holds after `sfifo_put`.
    get_or-contents-put :
        (i : ℕ)
        → i < rest f + n_put len
        → get_or (put f source len).1.buffer ((f.out_count + i) % f.size) 0
          ≡ get_or (contents f ++ take (n_put len) source) i 0
    get_or-contents-put i h = elim (dec_lt i (rest f)) [
      | yes old ↦ ground (
        arith,
        get_or-put (at v i),
        mod-lt (f.out_count + i) (size_bounds v).0,
        appended i,
        get_or-contents f i old,
        written_old f.buffer source f.size (o v) (rest f) (n_put len) i into (at v i) (o-lt-size v)
            (fits len) into-eq-wrap (at-eq-wrap v i (omega (arith, v))) old,
      )
      | no new ↦ ground (
        arith,
        get_or-put (at v i),
        mod-lt (f.out_count + i) (size_bounds v).0,
        appended i,
        get_or-take (n_put len) source (i - rest f) 0 (omega arith),
        written_new f.buffer source f.size (o v) (rest f) (n_put len) i into (at v i) (o-lt-size v)
            (fits len) into-eq-wrap (at-eq-wrap v i (omega (arith, v))) (omega arith) h,
      )
    ]
      where
        taken : List ℕ
        taken = take (n_put len) source

        appended :
            (i : ℕ)
            → get_or (contents f ++ taken) i 0
              ≡ (if ltb i (rest f) then get_or (contents f) i 0 else get_or taken (i - rest f) 0)
        appended i = get_or-append_of (contents f) taken (rest f) i 0 (length-contents f)

    length-contents-put : length (contents f ++ take (n_put len) source) ≡ rest f + n_put len
    length-contents-put = omega (
      arith,
      length-append (contents f) (take (n_put len) source),
      length-contents f,
      length-take (n_put len) source (omega arith),
    )

    pub contents-put : contents (put f source len).1 ≡ contents f ++ take (n_put len) source
    contents-put = list_ext _ _ 0 (length-contents g ∙ put-rest ∙ sym length-contents-put) λ i h.
        let k : i < rest g = rw (length-contents g) at h in
        get_or-contents g i k ∙ same i (rw put-rest at k)
      where
        g : Sfifo
        g = (put f source len).1

        same :
            (i : ℕ)
            → i < rest f + n_put len
            → get_or g.buffer ((g.out_count + i) % g.size) 0
              ≡ get_or (contents f ++ take (n_put len) source) i 0
        same i h = unfold put in get_or-contents-put i h

    pub put-IsValid : IsValid (put f source len).1
    put-IsValid = record {
      width = v.width;
      width_small = v.width_small;
      power = unfold put in v.power;
      whole =
          unfold put in
          length-memcpy (memcpy _ _ _ _) _ _ _ ∙ length-memcpy f.buffer _ source _ ∙ v.whole;
      in_word = unfold put in mod-lt (f.in_count + put_len f len) (omega arith);
      out_word = unfold put in v.out_word;
      used_fits = rw put-rest (unfold put in fits len);
    }
