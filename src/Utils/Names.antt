-- ===== src/Utils/Names.antt =====
-- project/basic/EnumDef.cpp and EnumDef.h: the names of the message identifiers and of the units that
-- report bugs. An enumerator is its number.
use Prim.Native.String.{String}
use wkc.Common.{ℕ, ℤ, pos, negsuc, Bool, false, ltb, List, [], ◌∷◌, get_or, if◌then◌else◌}

-- MSG_ID_BUTT and BUG_BUTT, one more than the last
abbrev msg_id_butt : ℕ
msg_id_butt = 2

abbrev bug_butt : ℕ
bug_butt = 4

-- MSG_ID_MACRO and BUG_UNITS_MACRO, where ENUM_OR_STRING gives the text of a name
abbrev msg_id_names : List String
msg_id_names = "MSG_ID_NULL" ∷ "MSG_ID_STOP_THREAD" ∷ "MSG_ID_BUTT" ∷ []

abbrev bug_units_names : List String
bug_units_names = "BUG_NULL" ∷ "BUG_THREAD" ∷ "BUG_MSGQUEUE" ∷ "BUG_LOG" ∷ "BUG_BUTT" ∷ []

-- 0 <= id && id < butt
abbrev is_below : ℕ → ℤ → Bool
is_below butt (pos n) = ltb n butt
is_below butt (negsuc n) = false

abbrev name_at : List String → ℤ → String
name_at names (pos n) = get_or names n ""
name_at names (negsuc n) = ""

-- GetMsgIdName(enMsgId)
unfoldable pub get_msg_id_name : ℤ → String
get_msg_id_name id =
    if is_below msg_id_butt id then name_at msg_id_names id else get_or msg_id_names 0 ""

-- GetBugUnitsName(enBugUnits)
unfoldable pub get_bug_units_name : ℤ → String
get_bug_units_name units =
    if is_below bug_butt units
    then name_at bug_units_names units
    else get_or bug_units_names bug_butt ""
