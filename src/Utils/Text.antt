-- ===== src/Utils/Text.antt =====
-- `getRandString`: the length of the text and the characters in it.
use wkc.Common.{
  ℕ, zero, suc, ◌%◌, ◌≤◌, bit_and_mask, ◌≡◌, refl, some, List, [], ◌∷◌, ◌++◌, ◌==◌, length, take,
  drop, length-append, length-drop, arith,
}
use wkc.Utils.{rand_char, rand_chars, text, get_rand_string}

-- each character is above the space and at most 127, and is 127 exactly where the byte ends in seven ones
abbrev pub FromBytes : List ℕ → List ℕ → Type 0
FromBytes [] [] = Unit
FromBytes [] (_ ∷ _) = ⊥
FromBytes (_ ∷ _) [] = ⊥
FromBytes (b ∷ bs) (c ∷ cs) =
    (33 ≤ c) × (c ≤ 127) × ((c == 127) ≡ (b % 128 == 127)) × FromBytes bs cs

rand_char-range :
    (b : ℕ) → (33 ≤ rand_char b) × (rand_char b ≤ 127) × ((rand_char b == 127) ≡ (b % 128 == 127))
unfolding rand_char
rand_char-range b = (
  ground (arith, bit_and_mask 7 b),
  ground (arith, bit_and_mask 7 b),
  ground (arith, bit_and_mask 7 b),
)

rand_chars-FromBytes : (bs : List ℕ) → FromBytes bs (rand_chars bs)
unfolding rand_chars
rand_chars-FromBytes [] = tt
rand_chars-FromBytes (b ∷ bs) =
    let (low, high, last) = rand_char-range b in (low, high, last, rand_chars-FromBytes bs)

length-take_le : (n : ℕ) (xs : List ℕ) → length (take n xs) ≤ n
length-take_le zero xs = omega arith
length-take_le (suc n) [] = omega arith
length-take_le (suc n) (x ∷ xs) = omega (arith, length-take_le n xs)

-- With a length of at most 8 and a file that opens, `getRandString` returns 8 characters, whatever
-- the length and however many bytes the file gives: each is above the space and at most 127, and is
-- 127 exactly where the low seven bits of the byte in its place are set. The bytes are those of the
-- file, as many as were asked for and are there, and behind them what stood in the buffer.
pub get_rand_string-FromBytes :
    (len : ℕ) (bytes memory : List ℕ)
    → len ≤ 8
    → length memory ≡ 8
    → (buffer cs : List ℕ) × (get_rand_string len (some bytes) memory ≡ text cs)
      × FromBytes buffer cs
      × (length buffer ≡ 8)
      × (buffer ≡ take len bytes ++ drop (length (take len bytes)) memory)
unfolding get_rand_string
get_rand_string-FromBytes len bytes memory small whole =
    let written = take len bytes in
    let buffer = written ++ drop (length written) memory in
    (
      buffer,
      rand_chars buffer,
      ground (arith, length-take_le len bytes),
      rand_chars-FromBytes buffer,
      ground (
        arith,
        length-append written (drop (length written) memory),
        length-drop (length written) memory,
        length-take_le len bytes,
      ),
      refl,
    )
