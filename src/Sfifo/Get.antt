-- ===== src/Sfifo/Get.antt =====
-- `sfifo_get` against a bounded queue of bytes.
use native.Mathlib.Nat.{mod-lt, mod-add-mod, add_assoc}
use wkc.Common.{
  ℕ, ◌+◌, ◌-◌, ◌%◌, ◌^◌, ◌≤◌, ◌<◌, ◌≡◌, sym, ◌∙◌, refl, ap, ap₂, List, ◌++◌, length, arith, ltb,
  if◌then◌else◌, get_or, get_or-append_of, get_or-take, get_or-drop, length-append, length-take,
  length-drop, take, drop, memcpy, length-memcpy, list_ext, min,
}
use wkc.Sfifo.{Sfifo, sub_u32, get, rest, get_len}
use wkc.Sfifo.Valid.{
  IsValid, size_bounds, mask-eq-mod, word-mod-size, get_len_lem, wrap, first_part_lem, o, at,
  o-lt-size, at-eq-wrap,
}
use wkc.Sfifo.Copies.{ring_read}
use wkc.Sfifo.Queue.{contents, length-contents, get_or-contents}

module _ {f : Sfifo} (v : IsValid f) (target : List ℕ) (len : ℕ) where
  abbrev pub n_get : ℕ
  n_get = min len (rest f)

  abbrev g : Sfifo
  g = (get f target len).2

  pub get-rest : rest g ≡ rest f - n_get
  unfolding get rest
  get-rest = ground (arith, get_len_lem v len, v)

  pub get-IsValid : IsValid g
  get-IsValid = record {
    width = v.width;
    width_small = v.width_small;
    power = unfold get in v.power;
    whole = unfold get in v.whole;
    in_word = unfold get in v.in_word;
    out_word = unfold get in mod-lt (f.out_count + get_len f len) (omega arith);
    used_fits = rw get-rest (unfold get in omega (arith, v));
  }

  -- The `i`-th byte after the call is the one `n_get + i` places on before it.
  later : (i : ℕ) → (g.out_count + i) % g.size ≡ at v (n_get + i)
  unfolding get
  later i =
      ap (λ (t : ℕ). ((f.out_count + t) % 2 ^ 32 + i) % f.size) (get_len_lem v len)
      ∙ sym (mod-add-mod ((f.out_count + n_get) % 2 ^ 32) f.size i)
      ∙ ap (λ (t : ℕ). (t + i) % f.size) (word-mod-size v (f.out_count + n_get))
      ∙ mod-add-mod (f.out_count + n_get) f.size i
      ∙ ap (λ (t : ℕ). t % f.size) (add_assoc f.out_count n_get i)

  pub contents-get : contents g ≡ drop n_get (contents f)
  contents-get = list_ext _ _ 0 (omega (arith, length-contents g, get-rest, dropped)) λ i h.
      let k : i < rest g = rw (length-contents g) at h in
      get_or-contents g i k
      ∙ ap₂ (λ (r : List ℕ) (p : ℕ). get_or r p 0) same_buffer (later i)
      ∙ sym (get_or-contents f (n_get + i) (omega (arith, get-rest)))
      ∙ sym (get_or-drop n_get (contents f) i 0)
    where
      dropped : length (drop n_get (contents f)) ≡ rest f - n_get
      dropped = omega (arith, length-drop n_get (contents f), length-contents f)

      same_buffer : g.buffer ≡ f.buffer
      same_buffer = unfold get in refl

  module _ (room : len ≤ length target) where
    pub get_or-get :
        (i : ℕ)
        → get_or (get f target len).1 i 0
          ≡ (if ltb i n_get then get_or f.buffer (wrap f.size (o v + i)) 0 else get_or target i 0)
    unfolding get
    get_or-get i =
        rw
          (
            mask-eq-mod v f.out_count,
            get_len_lem v len,
            first_part_lem v (o v) n_get (o-lt-size v),
            no_wrap,
          )
          (ring_read f.buffer target f.size (o v) n_get first i v.whole (omega (arith, room))
            (omega (arith, v)) (o-lt-size v) (omega arith))
      where
        first : ℕ
        first = min n_get (f.size - o v)

        no_wrap : sub_u32 n_get first ≡ n_get - first
        no_wrap = omega (arith, size_bounds v, v)

    pub length-get : length (get f target len).1 ≡ length target
    unfolding get
    length-get = length-memcpy (memcpy _ _ _ _) _ _ _ ∙ length-memcpy target 0 _ _

    pub target-get : (get f target len).1 ≡ take n_get (contents f) ++ drop n_get target
    target-get = list_ext _ _ 0 same_length λ i h.
        get_or-get i
        ∙ sym (
            ground (
              arith,
              get_or-append_of (take n_get (contents f)) (drop n_get target) n_get i 0 taken,
              get_or-take n_get (contents f) i 0,
              get_or-drop n_get target (i - n_get) 0,
              get_or-contents f i,
              at-eq-wrap v i,
              v,
            ))
      where
        taken : length (take n_get (contents f)) ≡ n_get
        taken = length-take n_get (contents f) (omega (arith, length-contents f))

        same_length :
            length (get f target len).1 ≡ length (take n_get (contents f) ++ drop n_get target)
        same_length = omega (
          arith,
          length-get,
          length-append (take n_get (contents f)) (drop n_get target),
          taken,
          length-drop n_get target,
          room,
        )
