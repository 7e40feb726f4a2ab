-- ===== src/ListR/Tests.antt =====
-- The theorems on `list_r` at a list of three nodes.
use wkc.Common.{◌+◌, List, suc, ◌==◌, if◌then◌else◌, ℕ, ltb, ◌≡◌, refl, some, [], ◌∷◌}
use wkc.ListR.{ListR, remove_if, for_each}
use wkc.ListR.Walkers.{Phase, outside, on, next, alone, Reach, start, move}
use wkc.ListR.Alone.{calls_for, for_each-alone}
use wkc.ListR.Walked.{held, values, reject, remove_if-reject}

abbrev three : ListR ℕ
three = record {
  head = 0;
  nodes =
      (record { address = 10; value = 7 })
      ∷ (record { address = 11; value = 3 })
      ∷ (record { address = 12; value = 9 })
      ∷ [];
  log = [];
}

remove_if-reject_example :
    let l' = remove_if (ltb 5) three in
    (values l'.nodes ≡ reject (ltb 5) (values three.nodes)) × (held l'.log ≡ some [])
remove_if-reject_example =
    remove_if-reject (ltb 5) three
      ((refl, (refl, (refl, tt))), ((refl, (refl, tt)), ((refl, tt), tt))) refl

for_each-alone_example :
    (for_each (λ x s. x + s) three 0).1.log
    ≡ alone (suc (calls_for three.nodes 0)) (λ i. if i == 0 then 0 else 9 + i) 3 outside three.log
for_each-alone_example =
    for_each-alone (λ i. if i == 0 then 0 else 9 + i) 3 (λ x s. x + s) 0 three 0
      (refl, (refl, (refl, refl))) refl

-- one thread waits for the head, while the other is at it
abbrev two_threads : List Phase
two_threads = on 0 ∷ outside ∷ []

two_threads-Reach : Reach 3 two_threads
two_threads-Reach =
    move [] outside (on 0) (outside ∷ []) (outside ∷ outside ∷ []) two_threads
      (start (outside ∷ outside ∷ []) refl) refl (unfold next in refl) refl
