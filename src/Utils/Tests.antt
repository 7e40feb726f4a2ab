-- ===== src/Utils/Tests.antt =====
-- The theorems on the checksum and the random string at concrete bytes.
use wkc.Common.{
  ℕ, pos, ◌-◌, ◌^◌, ◌<◌, ◌≡◌, refl, inl, true, false, some, List, [], ◌∷◌, take, arith,
}
use wkc.Utils.{Crc, crc32, crc_accum}
use wkc.Utils.Names.{get_msg_id_name, get_bug_units_name}
use wkc.Utils.Checksum.{checksum, crc32-checksum}

abbrev at_start : Crc
at_start = record { is_first = true; table = λ i. 0 }

crc32-checksum_example :
    let buf : List ℕ = 49 ∷ 50 ∷ 51 ∷ [] in
    let (result, s') = crc32 buf 2 at_start in
    (result ≡ some (checksum (take 2 buf) (2 ^ 32 - 1)))
    × ((i : ℕ) → i < 256 → s'.table i ≡ crc_accum i)
    × (s'.is_first ≡ false)
crc32-checksum_example = crc32-checksum (49 ∷ 50 ∷ 51 ∷ []) 2 at_start (inl refl) (omega arith)

-- A number out of range has the first name of the messages, and the last one of the units.
names_out_of_range :
    (get_msg_id_name (pos 7) ≡ "MSG_ID_NULL") × (get_bug_units_name (pos 7) ≡ "BUG_BUTT")
unfolding get_msg_id_name get_bug_units_name
names_out_of_range = (refl, refl)
