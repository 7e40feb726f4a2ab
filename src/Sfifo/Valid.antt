-- ===== src/Sfifo/Valid.antt =====
-- The representation invariant of `sfifo_t`: the size is a power of two, and the counters differ
-- by no more than it.
use Prim.Native.Nat.{◌∣◌}
use native.Mathlib.Nat.{
  add-zero, add-suc, pow-suc, dvd-mul_left, mod-mod_of_dvd, pow-le-pow_right, one-le-pow,
  mod-add-mod, mod-eq_of_lt, mod-eq-sub-mod, mod-lt,
}
use wkc.Common.{
  ℕ, zero, suc, ◌+◌, ◌-◌, ◌*◌, ◌%◌, ◌^◌, ◌≤◌, ◌<◌, ◌≡◌, sym, ap, ◌∙◌, length, arith, ltb,
  if◌then◌else◌, bit_and_mask, min, dec_lt,
}
use wkc.Sfifo.{Sfifo, mask, rest, put_len, get_len, first_part}

pub record IsValid (f : Sfifo) : Type 0 where
  pub width : ℕ
  pub width_small : width ≤ 31
  pub power : f.size ≡ 2 ^ width
  pub whole : length f.buffer ≡ f.size
  pub in_word : f.in_count < 2 ^ 32
  pub out_word : f.out_count < 2 ^ 32
  pub used_fits : rest f ≤ f.size

pow-add : (k j : ℕ) → 2 ^ (k + j) ≡ 2 ^ j * 2 ^ k
pow-add k zero = rw add-zero (omega arith)
pow-add k (suc j) =
    rw add-suc (omega (arith, pow-suc 2 (k + j), ap (λ (t : ℕ). 2 * t) (pow-add k j), double j k))
  where
    double : (j k : ℕ) → 2 ^ suc j * 2 ^ k ≡ 2 * (2 ^ j * 2 ^ k)
    double j k = rw pow-suc (omega arith)

module _ {f : Sfifo} (v : IsValid f) where
  pub size_bounds : (0 < f.size) × (f.size ≤ 2 ^ 31)
  size_bounds = (
    rw v.power (one-le-pow v.width 2 (omega arith)),
    rw v.power (pow-le-pow_right (omega arith) v.width_small),
  )

  size-dvd-word : f.size ∣ 2 ^ 32
  size-dvd-word = rw (v.power, split) (dvd-mul_left (2 ^ v.width) (2 ^ (32 - v.width)))
    where
      whole_word : 32 ≡ v.width + (32 - v.width)
      whole_word = omega (arith, v.width_small)

      split : 4294967296 ≡ 2 ^ (32 - v.width) * 2 ^ v.width
      split = ap (λ (t : ℕ). 2 ^ t) whole_word ∙ pow-add v.width (32 - v.width)

  -- A counter that wraps with the word goes on round the ring.
  pub word-mod-size : (x : ℕ) → x % 2 ^ 32 % f.size ≡ x % f.size
  word-mod-size x = mod-mod_of_dvd f.size x size-dvd-word

  pub mask-eq-mod : (x : ℕ) → mask f.size x ≡ x % f.size
  unfolding mask
  mask-eq-mod x = rw less_one (rw v.power (bit_and_mask v.width x))
    where
      less_one : (f.size + 2 ^ 32 - 1) % 2 ^ 32 ≡ f.size - 1
      less_one = omega (arith, size_bounds)

  -- Where the next byte goes, counted from the oldest one.
  pub in_index : f.in_count % f.size ≡ (f.out_count % f.size + rest f) % f.size
  unfolding rest
  in_index =
      ap (λ (t : ℕ). t % f.size) counted
      ∙ word-mod-size (f.out_count + rest f)
      ∙ sym (mod-add-mod f.out_count f.size (rest f))
    where
      counted : f.in_count ≡ (f.out_count + (f.in_count + 2 ^ 32 - f.out_count) % 2 ^ 32) % 2 ^ 32
      counted = omega (arith, v.in_word, v.out_word)

  pub put_len_lem : (len : ℕ) → put_len f len ≡ min len (f.size - rest f)
  unfolding put_len rest
  put_len_lem len = ground (arith, size_bounds, v)

  pub get_len_lem : (len : ℕ) → get_len f len ≡ min len (rest f)
  unfolding get_len rest
  get_len_lem len = ground (arith, v)

-- `x` modulo the size, for `x` within two rounds.
abbrev pub wrap : ℕ → ℕ → ℕ
wrap size x = if ltb x size then x else x - size

-- One round at most: an index and a step in the ring.
pub mod_once : {size o k : ℕ} → o < size → k ≤ size → (o + k) % size ≡ wrap size (o + k)
mod_once {size} {o} {k} ho hk = elim (dec_lt (o + k) size) [
  | yes h ↦ ground (arith, mod-eq_of_lt h)
  | no h ↦ ground (
    arith,
    mod-eq-sub-mod {n = o + k} {m = size} (omega arith),
    mod-eq_of_lt {n = o + k - size} {m = size} (omega arith),
  )
]

module _ {f : Sfifo} (v : IsValid f) where
  pub first_part_lem : (at n : ℕ) → at < f.size → first_part f at n ≡ min n (f.size - at)
  unfolding first_part
  first_part_lem at n h = ground (arith, size_bounds v)

  -- the index of the oldest byte, and of the one `i` places later
  abbrev pub o : ℕ
  o = f.out_count % f.size

  abbrev pub at : ℕ → ℕ
  at i = (f.out_count + i) % f.size

  pub o-lt-size : o < f.size
  o-lt-size = mod-lt f.out_count (size_bounds v).0

  pub at-eq-wrap : (i : ℕ) → i ≤ f.size → at i ≡ wrap f.size (o + i)
  at-eq-wrap i h = sym (mod-add-mod f.out_count f.size i) ∙ mod_once o-lt-size h
