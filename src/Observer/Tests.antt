-- ===== src/Observer/Tests.antt =====
-- The theorems on observers at concrete lists.
use wkc.Common.{
  ℕ, ℤ, pos, is_zero, length, map, ◌≡◌, ◌⊎◌, true, false, not, ◌&&◌, List, [], ◌∷◌, arith, ◌==◌,
}
use wkc.Message.{Mesg, Heap}
use wkc.Message.Owned.{holds, Balanced}
use wkc.Message.Tests.{fresh}
use wkc.Queue.Tests.{letter, no_bytes}
use wkc.Observer
use wkc.Observer.{Element, count, err_size_not_set}
use wkc.Observer.Notified.{wanting, label, label_of, notify-labels}
use wkc.Observer.Function
use wkc.Observer.Function.{all_left, notify-Balanced}

-- two functions, the first of which wants every message
abbrev two_functions : List (Element ℕ)
two_functions =
    (record { who = 50; msg_id = 0; cb_id = 1 }) ∷ (record { who = 51; msg_id = 7; cb_id = 2 }) ∷ []

abbrev two_queues : List (Element ℤ)
two_queues =
    (record { who = pos 5; msg_id = 0; cb_id = 1 })
    ∷ (record { who = pos 6; msg_id = 7; cb_id = 2 })
    ∷ []

same_refl : (k : ℕ) → (k == k) ≡ true
same_refl k = ground arith

-- a function that does nothing
abbrev idle : ℕ → Mesg → Heap → ℤ × Mesg × Heap
idle k m h = (pos 0, m, h)

notify-labels_example :
    let (x, m', w', told) =
      Observer.notify fresh (λ h. h) (λ h _. h) idle false two_functions letter no_bytes in
    ((not (letter.ptr == 0) && is_zero letter.size ≡ true) × (x ≡ err_size_not_set) × (told ≡ []))
    ⊎ ((not (letter.ptr == 0) && is_zero letter.size ≡ false)
        × (map label told ≡ map (label_of letter.msg_id) (wanting letter.msg_id two_functions))
        × (length told ≡ count letter.msg_id two_functions))
notify-labels_example = notify-labels fresh (λ h. h) (λ h _. h) idle two_functions letter no_bytes

notify-Balanced_example :
    let (x, m', h', told) = Function.notify fresh idle false two_functions letter no_bytes in
    Balanced 1000 no_bytes 0 h' (all_left fresh idle 1000 (omega arith) (λ k m. holds 1000 m) told)
notify-Balanced_example =
    notify-Balanced fresh idle 1000 (omega arith) (λ k m. holds 1000 m)
      (λ k m h. record { same = omega arith }) two_functions letter no_bytes
