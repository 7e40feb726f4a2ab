-- ===== src/Message/Tests.antt =====
-- The theorems on messages at concrete messages, where `malloc` gives the next of the addresses.
use wkc.Common.{ℕ, suc, ◌+◌, pos, [], ◌∷◌, arith, ◌==◌, if◌then◌else◌}
use wkc.Message.{Mesg, Env, Heap, Log, blank, copy_msg}
use wkc.Message.Owned.{holds, Balanced, copy_msg-Balanced}
use wkc.Message.Copied.{SameWords, CopyOutcome, copy_msg-Outcome}

-- an address for each call so far
abbrev pub count_calls : Log → ℕ
count_calls [] = 0
count_calls (_ ∷ log) = suc (count_calls log)

abbrev pub fresh : Env
fresh = record { address = λ log. 1000 + count_calls log; cloned = λ o log. 2000 + count_calls log }

abbrev letter : Mesg
letter = record blank { msg_id = 7; ptr = 100; size = pos 2; obj = 200 }

abbrev old : Mesg
old = record blank { msg_id = 3; ptr = 300; size = pos 1 }

abbrev heap : Heap
heap = record { bytes = λ q. if q == 100 then 5 ∷ 6 ∷ [] else 9 ∷ []; log = [] }

copy_msg-Balanced_example :
    let (_, m', h') = copy_msg fresh old letter heap in
    Balanced 300 heap (holds 300 old) h' (holds 300 m')
copy_msg-Balanced_example = copy_msg-Balanced 300 (omega arith) fresh old letter heap

copy_msg-Outcome_example :
    SameWords (copy_msg fresh old letter heap).1 letter
    × CopyOutcome fresh letter heap (copy_msg fresh old letter heap)
copy_msg-Outcome_example = copy_msg-Outcome fresh old letter heap
