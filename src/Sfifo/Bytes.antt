-- ===== src/Sfifo/Bytes.antt =====
-- One byte of `sfifo_put` and of `sfifo_get`, and the stores that end them, on a ring of
-- project/utils/sfifo.c.
use mathlib.Core.Path.{subst}
use native.Mathlib.Nat.{mod-lt, mod-add-mod, add_assoc}
use wkc.Common.{
  ℕ, suc, ◌+◌, ◌-◌, ◌%◌, ◌^◌, ◌≤◌, ◌<◌, ◌≡◌, ◌≢◌, refl, sym, ap, ◌∙◌, List, [], ◌++◌, length, arith,
  ltb, if◌then◌else◌, get_or, get_or-append_of, get_or-take, get_or-drop, get_or-memcpy,
  length-append, length-take, length-drop, length-memcpy, take, drop, list_ext, dec_lt, ◌==◌,
}
use wkc.Sfifo.{Sfifo, add_u32, mask, rest, get, first_part}
use wkc.Sfifo.Valid.{
  IsValid, size_bounds, word-mod-size, mask-eq-mod, get_len_lem, mod_once, first_part_lem, at,
}
use wkc.Sfifo.Queue.{contents, length-contents, get_or-contents}
use wkc.Sfifo.Get.{contents-get, get-IsValid, get-rest}
use wkc.Sfifo.Shared.{put_index, get_index, write_byte, read_byte}

-- two places of a ring less than a round apart
apart : {size : ℕ} (a d : ℕ) → 0 < d → d < size → a % size ≢ (a + d) % size
apart {size} a d h k e =
    let low = mod-lt a {m = size} (omega arith) in
    ground (
      arith,
      sym (mod-add-mod a size d),
      mod_once {size = size} {o = a % size} {k = d} low (omega arith),
      low,
      e,
    )

module _ {f : Sfifo} (v : IsValid f) where
  -- where the byte goes that is put `i` places after the next one
  abbrev pub slot : ℕ → ℕ
  slot i = (f.in_count + i) % f.size

  pub slot-eq-at : (i : ℕ) → slot i ≡ at v (rest f + i)
  unfolding rest
  slot-eq-at i =
      ap (λ (t : ℕ). (t + i) % f.size) counted
      ∙ sym (mod-add-mod ((f.out_count + used) % 2 ^ 32) f.size i)
      ∙ ap (λ (t : ℕ). (t + i) % f.size) (word-mod-size v (f.out_count + used))
      ∙ mod-add-mod (f.out_count + used) f.size i
      ∙ ap (λ (t : ℕ). t % f.size) (add_assoc f.out_count used i)
    where
      used : ℕ
      used = (f.in_count + 2 ^ 32 - f.out_count) % 2 ^ 32

      counted : f.in_count ≡ (f.out_count + used) % 2 ^ 32
      counted = omega (arith, v.in_word, v.out_word)

  -- a split at the end of the ring
  split_index :
      (c n k : ℕ)
      → k < n
      → n ≤ f.size
      → (let l = first_part f (mask f.size c) n in if ltb k l then mask f.size c + k else k - l)
        ≡ (c + k) % f.size
  split_index c n k h fits =
      let low = mod-lt c (size_bounds v).0 in
      rw (mask-eq-mod v c, first_part_lem v (c % f.size) n low)
        (ground (
          arith,
          sym (mod-add-mod c f.size k),
          mod_once {size = f.size} {o = c % f.size} {k = k} low (omega arith),
          low,
        ))

  pub put_index-eq-slot : (n k : ℕ) → k < n → n ≤ f.size → put_index f n k ≡ slot k
  put_index-eq-slot n k h fits = split_index f.in_count n k h fits

  pub get_index-eq-at : (n k : ℕ) → k < n → n ≤ f.size → get_index f n k ≡ at v k
  get_index-eq-at n k h fits = split_index f.out_count n k h fits

  module _ (source : List ℕ) (n k : ℕ) (h : k < n) (room : n ≤ length source)
      (fits : rest f + n ≤ f.size) where
    abbrev pub wrote : Sfifo
    wrote = write_byte f source n k

    pub get_or-wrote :
        (p : ℕ)
        → p < f.size
        → get_or wrote.buffer p 0 ≡ (if p == slot k then get_or source k 0 else get_or f.buffer p 0)
    get_or-wrote p small =
        let here = put_index-eq-slot n k h (omega arith) in
        let low : slot k < f.size = mod-lt (f.in_count + k) (size_bounds v).0 in
        rw here (
          ground (
            arith,
            get_or-memcpy f.buffer (slot k) (drop k source) 1 p 0,
            length-drop k source,
            get_or-drop k source 0 0,
            low,
            v.whole,
          ))

    pub write_byte-IsValid : IsValid wrote
    unfolding rest
    write_byte-IsValid = record {
      width = v.width;
      width_small = v.width_small;
      power = v.power;
      whole = length-memcpy f.buffer _ (drop k source) 1 ∙ v.whole;
      in_word = v.in_word;
      out_word = v.out_word;
      used_fits = v.used_fits;
    }

    -- the byte is not one that the ring holds
    slot-apart : (i : ℕ) → i < rest f + k → at v i ≢ slot k
    slot-apart i low e =
        apart {size = f.size} (f.out_count + i) (rest f + k - i) (omega arith) (omega arith)
          (e ∙ slot-eq-at k ∙ ap (λ (t : ℕ). t % f.size) (omega arith))

    pub rest-write_byte : rest wrote ≡ rest f
    unfolding rest
    rest-write_byte = refl

    pub contents-write_byte : contents wrote ≡ contents f
    unfolding rest
    contents-write_byte = list_ext _ _ 0 (length-contents wrote ∙ sym (length-contents f)) λ i low.
        let few : i < rest f = rw (length-contents wrote) at low in
        get_or-contents wrote i few
        ∙ ground (
          arith,
          get_or-wrote (at v i),
          mod-lt (f.out_count + i) (size_bounds v).0,
          slot-apart i (omega arith),
        )
        ∙ sym (get_or-contents f i few)

    -- the bytes that were copied before stay, and there is one more
    pub slot-write_byte :
        ((i : ℕ) → i < k → get_or f.buffer (slot i) 0 ≡ get_or source i 0)
        → (i : ℕ) → i < suc k
        → get_or wrote.buffer (slot i) 0 ≡ get_or source i 0
    slot-write_byte done i low = elim (dec_lt i k) [
      | yes old ↦ ground (
        arith,
        get_or-wrote (slot i),
        mod-lt (f.in_count + i) (size_bounds v).0,
        slot-apart (rest f + i) (omega arith),
        slot-eq-at i,
        done i old,
      )
      | no new ↦
          let same : i ≡ k = omega (arith, low, new) in
          rw same (ground (arith, get_or-wrote (slot k), mod-lt (f.in_count + k) (size_bounds v).0))
    ]

  -- the store that ends `sfifo_put`, once the bytes are copied
  module _ (source : List ℕ) (n : ℕ) (room : n ≤ length source) (fits : rest f + n ≤ f.size)
      (done : (i : ℕ) → i < n → get_or f.buffer (slot i) 0 ≡ get_or source i 0) where
    abbrev pub stored : Sfifo
    stored = record f { in_count = add_u32 f.in_count n }

    pub rest-stored : rest stored ≡ rest f + n
    unfolding rest
    rest-stored = omega (arith, size_bounds v, v.in_word, v.out_word)

    pub stored-IsValid : IsValid stored
    stored-IsValid = record {
      width = v.width;
      width_small = v.width_small;
      power = v.power;
      whole = v.whole;
      in_word = mod-lt (f.in_count + n) (omega arith);
      out_word = v.out_word;
      used_fits = rw rest-stored fits;
    }

    pub contents-stored : contents stored ≡ contents f ++ take n source
    contents-stored = list_ext _ _ 0 same_length λ i low.
        let few : i < rest f + n = rw (length-contents stored, rest-stored) at low in
        get_or-contents stored i (rw rest-stored few)
        ∙ byte i few
        ∙ sym (get_or-append_of (contents f) (take n source) (rest f) i 0 (length-contents f))
      where
        same_length : length (contents stored) ≡ length (contents f ++ take n source)
        same_length = omega (
          arith,
          length-contents stored,
          rest-stored,
          length-append (contents f) (take n source),
          length-contents f,
          length-take n source room,
        )

        byte :
            (i : ℕ)
            → i < rest f + n
            → get_or f.buffer (at v i) 0 ≡ (
                if ltb i (rest f)
                then get_or (contents f) i 0
                else get_or (take n source) (i - rest f) 0)
        byte i low = elim (dec_lt i (rest f)) [
          | yes old ↦ ground (arith, get_or-contents f i old)
          | no new ↦
              let back : rest f + (i - rest f) ≡ i = omega (arith, new) in
              ground (
                arith,
                slot-eq-at (i - rest f) ∙ ap (at v) back,
                done (i - rest f) (omega arith),
                get_or-take n source (i - rest f) 0 (omega arith),
              )
        ]

  -- the store that ends `sfifo_get`
  module _ (n : ℕ) (enough : n ≤ rest f) where
    abbrev pub released : Sfifo
    released = record f { out_count = add_u32 f.out_count n }

    get-released : (get f [] n).2 ≡ released
    unfolding get
    get-released =
        ap (λ (t : ℕ). record f { out_count = add_u32 f.out_count t })
          (get_len_lem v n ∙ omega arith)

    pub released-IsValid : IsValid released
    released-IsValid = subst IsValid get-released (get-IsValid v [] n)

    pub rest-released : rest released ≡ rest f - n
    rest-released = ap rest (sym get-released) ∙ get-rest v [] n ∙ omega arith

    pub contents-released : contents released ≡ drop n (contents f)
    contents-released =
        ap contents (sym get-released)
        ∙ contents-get v [] n
        ∙ ap (λ (t : ℕ). drop t (contents f)) (omega arith)

    -- one byte more for the caller
    pub read_byte-more :
        (target : List ℕ) (k : ℕ)
        → k < n
        → n ≤ length target
        → ((i : ℕ) → i < k → get_or target i 0 ≡ get_or (contents f) i 0)
        → (i : ℕ) → i < suc k
        → get_or (read_byte f target n k) i 0 ≡ get_or (contents f) i 0
    read_byte-more target k h room done i low =
        let here = get_index-eq-at n k h (omega (arith, v)) in
        let inside : at v k < f.size = mod-lt (f.out_count + k) (size_bounds v).0 in
        rw here (
          ground (
            arith,
            get_or-memcpy target k (drop (at v k) f.buffer) 1 i 0,
            length-drop (at v k) f.buffer,
            get_or-drop (at v k) f.buffer (i - k) 0,
            get_or-contents f i,
            v.whole,
            inside,
            done i,
          ))
