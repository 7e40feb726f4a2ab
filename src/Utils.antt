-- ===== src/Utils.antt =====
-- project/utils/utils.cpp: the checksum and the random string. What the file gives is a parameter.
-- The functions of the date, of the time zone and of the digest print, or only call a library.
pub mod Checksum
pub mod Text
pub mod Names
mod Tests
use wkc.Common.{
  ℕ, zero, suc, ◌+◌, ◌-◌, ◌*◌, ◌/◌, ◌%◌, ◌^◌, ◌≤◌, leb, bit_and, Bool, true, false, Option, none,
  some, List, [], ◌∷◌, ◌++◌, ◌==◌, if◌then◌else◌, length, take, drop,
}
use Prim.Native.Nat.{bit_xor}

-- POLYNOMIAL
abbrev pub polynomial : ℕ
polynomial = 79764919

-- one turn of the loop over `j`
unfoldable pub crc_bit : ℕ → ℕ
crc_bit c = if bit_and c (2 ^ 31) == 0 then c * 2 % 2 ^ 32 else bit_xor (c * 2 % 2 ^ 32) polynomial

unfoldable pub crc_bits : ℕ → ℕ → ℕ
unfolding crc_bit
crc_bits zero c = c
crc_bits (suc j) c = crc_bits j (crc_bit c)

-- the entry of the table at `i`
unfoldable pub crc_accum : ℕ → ℕ
unfolding crc_bits
crc_accum i = crc_bits 8 (i * 2 ^ 24 % 2 ^ 32)

-- the loop over `i`, with so many turns to go
unfoldable pub fill_table : ℕ → ℕ → (ℕ → ℕ) → ℕ → ℕ
unfolding crc_accum
fill_table zero i table = table
fill_table (suc turns) i table =
    fill_table turns (suc i) (λ j. if j == i then crc_accum i else table j)

-- the static variables of `crc32`
pub record Crc : Type 0 where
  pub is_first : Bool
  pub table : ℕ → ℕ

-- the state of the loop over the buffer with one more byte
unfoldable pub crc_next : (ℕ → ℕ) → ℕ → ℕ → ℕ
crc_next table crc b =
    bit_xor (crc * 2 ^ 8 % 2 ^ 32) (table (bit_and (bit_xor (crc / 2 ^ 24) b) 255))

-- the loop over the buffer, for a length that is not negative: `none` is a read behind the bytes
unfoldable pub crc_loop : (ℕ → ℕ) → ℕ → List ℕ → ℕ → Option ℕ
unfolding crc_next
crc_loop table zero buf crc = some crc
crc_loop table (suc len) [] crc = none
crc_loop table (suc len) (b ∷ buf) crc = crc_loop table len buf (crc_next table crc b)

-- crc32(buf, len)
unfoldable pub crc32 : List ℕ → ℕ → Crc → Option ℕ × Crc
unfolding fill_table crc_loop
crc32 buf len s =
    let table = if s.is_first then fill_table 256 0 s.table else s.table in
    (crc_loop table len buf (2 ^ 32 - 1), record { is_first = false; table = table })

-- one character of `getRandString`
unfoldable pub rand_char : ℕ → ℕ
rand_char c = bit_and c 127 * (126 - 32) / 127 + 33

unfoldable pub rand_chars : List ℕ → List ℕ
unfolding rand_char
rand_chars [] = []
rand_chars (c ∷ cs) = rand_char c ∷ rand_chars cs

-- How `getRandString` ends: it throws, it writes behind its buffer of 8 bytes, or it returns.
pub data RandString : Type 0 where
  thrown : RandString
  overrun : RandString
  text : List ℕ → RandString

-- getRandString(len), for a length that is not negative: `opened` are the bytes that the file gives,
-- `none` if it does not open, and `memory` is what stands in the buffer
unfoldable pub get_rand_string : ℕ → Option (List ℕ) → List ℕ → RandString
unfolding rand_chars
get_rand_string len none memory = thrown
get_rand_string len (some bytes) memory =
    let written = take len bytes in
    if leb (length written) 8
    then text (rand_chars (written ++ drop (length written) memory))
    else overrun
