-- ===== src/ListR/Turns.antt =====
-- One thread that removes a node of a list of two, while another waits for the head.
use wkc.Common.{ℕ, ◌≤◌, ◌*◌, ◌+◌, ◌<◌, true, List, [], ◌∷◌, ◌≡◌, refl, ◌⊎◌}
use wkc.ListR.Walkers.{Phase, outside, on, crossing, next, all_finished, Progress}
use wkc.ListR.Progress.{Exclusive}
use wkc.ListR.Changes.{Step, Run, start, later, walk, removed, touching, all_inside}
use wkc.ListR.Removed.{Run-Safe, Run-untouched}
use wkc.ListR.Ends.{Run-ends}

abbrev between : List Phase
between = crossing 0 ∷ outside ∷ []

between-reached : Run 2 (outside ∷ outside ∷ []) 2 2 between
unfolding next
between-reached =
    later (later (start refl) (walk 2 [] outside (on 0) (outside ∷ []) refl))
      (walk 2 [] (on 0) (crossing 0) (outside ∷ []) refl)

abbrev one_less : List Phase
one_less = on 0 ∷ outside ∷ []

one_less-reached : Run 2 (outside ∷ outside ∷ []) 3 1 one_less
one_less-reached = later between-reached (removed 1 0 [] (outside ∷ []))

Run-Safe_example :
    Exclusive one_less
    × (all_inside 1 one_less ≡ true)
    × ((all_finished one_less ≡ true) ⊎ Progress 1 one_less)
Run-Safe_example = Run-Safe one_less-reached

Run-untouched_example : (touching 1 [] ≡ 0) × (touching 1 (outside ∷ []) ≡ 0) × (0 < 2)
Run-untouched_example = Run-untouched 0 [] (outside ∷ []) between-reached

Run-ends_example :
    (3 ≤ 2 * (2 * (2 + 2) + 2))
    × ((all_finished one_less ≡ true) ⊎ ((n : ℕ) × (ws : List Phase) × Step 1 one_less n ws))
Run-ends_example = Run-ends one_less-reached
