-- ===== src/Utils/Checksum.antt =====
-- `crc32` of project/utils/utils.cpp against the same function with no table.
use wkc.Common.{
  ℕ, zero, suc, ◌+◌, ◌-◌, ◌*◌, ◌/◌, ◌%◌, ◌^◌, ◌≤◌, ◌<◌, leb, ltb, bit_and, bit_and_mask, ◌≡◌, refl,
  ◌⊎◌, inl, inr, true, false, ◌&&◌, some, List, [], ◌∷◌, ◌==◌, if◌then◌else◌, length, take, arith,
  Bool-cases,
}
use Prim.Native.Nat.{bit_xor}
use wkc.Utils.{Crc, crc_accum, fill_table, crc_next, crc_loop, crc32}

-- the checksum of the bytes with no table and no state
unfoldable pub checksum : List ℕ → ℕ → ℕ
checksum [] crc = crc
checksum (b ∷ bs) crc =
    checksum bs
      (bit_xor (crc * 2 ^ 8 % 2 ^ 32) (crc_accum (bit_and (bit_xor (crc / 2 ^ 24) b) 255)))

-- What stands in the table, unless it is still to be filled.
abbrev pub IsReady : Crc → Type 0
IsReady s = (s.is_first ≡ true) ⊎ ((i : ℕ) → i < 256 → s.table i ≡ crc_accum i)

fill_table-entry :
    (turns i : ℕ) (table : ℕ → ℕ) (j : ℕ)
    → fill_table turns i table j ≡ (if leb i j && ltb j (i + turns) then crc_accum j else table j)
unfolding fill_table
fill_table-entry zero i table j = ground arith
fill_table-entry (suc turns) i table j =
    ground
      (arith, fill_table-entry turns (suc i) (λ (k : ℕ). if k == i then crc_accum i else table k) j)

byte_small : (a : ℕ) → bit_and a 255 < 256
byte_small a = omega (arith, bit_and_mask 8 a)

crc_loop-checksum :
    (table : ℕ → ℕ) (len : ℕ) (buf : List ℕ) (crc : ℕ)
    → ((i : ℕ) → i < 256 → table i ≡ crc_accum i)
    → len ≤ length buf
    → crc_loop table len buf crc ≡ some (checksum (take len buf) crc)
unfolding crc_loop crc_next checksum
crc_loop-checksum table zero buf crc h enough = refl
crc_loop-checksum table (suc len) [] crc h enough = absurd (omega arith)
crc_loop-checksum table (suc len) (b ∷ buf) crc h enough =
    let byte = bit_and (bit_xor (crc / 2 ^ 24) b) 255 in
    rw (h byte (byte_small (bit_xor (crc / 2 ^ 24) b)))
      (crc_loop-checksum table len buf _ h (omega arith))

filled : (table : ℕ → ℕ) (i : ℕ) → i < 256 → fill_table 256 0 table i ≡ crc_accum i
filled table i h = ground (arith, fill_table-entry 256 0 table i)

-- From the state at the start of the program, or after any call, `crc32` of bytes that are there
-- returns their checksum, computed with no table and no state, and the next call will too.
pub crc32-checksum :
    (buf : List ℕ) (len : ℕ) (s : Crc)
    → IsReady s
    → len ≤ length buf
    → let (result, s') = crc32 buf len s in
      (result ≡ some (checksum (take len buf) (2 ^ 32 - 1)))
      × ((i : ℕ) → i < 256 → s'.table i ≡ crc_accum i)
      × (s'.is_first ≡ false)
unfolding crc32
crc32-checksum buf len s ready enough = elim (Bool-cases s.is_first) [
  | inl first ↦
      let right = filled s.table in
      rw first (crc_loop-checksum (fill_table 256 0 s.table) len buf _ right enough, right, refl)
  | inr later ↦
      let right : (i : ℕ) → i < 256 → s.table i ≡ crc_accum i = elim ready [
        | inl no_table ↦ cc (no_table, later)
        | inr table ↦ table
      ] in
      rw later (crc_loop-checksum s.table len buf _ right enough, right, refl)
]
