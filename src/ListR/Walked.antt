-- ===== src/ListR/Walked.antt =====
-- The walks of `list_r` against plain functions on lists, and their locking.
use wkc.Common.{
  ℕ, ◌≡◌, refl, ap, Bool, true, false, Option, none, some, List, [], ◌∷◌, arith, ◌==◌,
  if◌then◌else◌, inl, inr, Bool-cases,
}
use wkc.ListR.{
  Event, lock, unlock, Node, ListR, each_from, for_each, find_from, find_first_if, remove_from,
  remove_if,
}

-- The locks that are held after the calls, the first taken first; `none` once a lock was taken
-- with two held, or twice, or one given up that was not held.
abbrev pub step : Event → Option (List ℕ) → Option (List ℕ)
step e none = none
step (lock n) (some []) = some (n ∷ [])
step (lock n) (some (c ∷ [])) = if n == c then none else some (c ∷ n ∷ [])
step (lock n) (some (c ∷ d ∷ held)) = none
step (unlock n) (some []) = none
step (unlock n) (some (c ∷ [])) = if c == n then some [] else none
step (unlock n) (some (c ∷ d ∷ [])) =
    if d == n then some (c ∷ []) else (if c == n then some (d ∷ []) else none)
step (unlock n) (some (c ∷ d ∷ e ∷ held)) = none

abbrev pub held : List Event → Option (List ℕ)
held [] = some []
held (e ∷ log) = step e (held log)

-- The nodes have addresses of their own, and none has that of the head.
abbrev pub Apart : {A : Type 0} → ℕ → List (Node A) → Type 0
Apart c [] = Unit
Apart c (n ∷ ns) = ((n.address == c) ≡ false) × Apart c ns

abbrev pub Distinct : {A : Type 0} → ℕ → List (Node A) → Type 0
Distinct c [] = Unit
Distinct c (n ∷ ns) = Apart c (n ∷ ns) × Distinct n.address ns

-- the values of the nodes
abbrev pub values : {A : Type 0} → List (Node A) → List A
values [] = []
values (n ∷ ns) = n.value ∷ values ns

abbrev pub foldl : {A S : Type 0} → (A → S → S) → S → List A → S
foldl f s [] = s
foldl f s (x ∷ xs) = foldl f (f x s) xs

abbrev pub first : {A : Type 0} → (A → Bool) → List A → Option A
first p [] = none
first p (x ∷ xs) = let rest = first p xs in if p x then some x else rest

abbrev pub reject : {A : Type 0} → (A → Bool) → List A → List A
reject p [] = []
reject p (x ∷ xs) = let rest = reject p xs in if p x then rest else x ∷ rest

==_refl : (n : ℕ) → (n == n) ≡ true
==_refl n = ground arith

-- from `current` to the next node, and from `current` back to itself
pass :
    (c n : ℕ) (log : List Event)
    → held log ≡ some (c ∷ [])
    → (n == c) ≡ false
    → held (unlock c ∷ lock n ∷ log) ≡ some (n ∷ [])
pass c n log h apart = rw (h, apart, ==_refl c, apart) refl

-- from `current` to the next node and back, when that is removed
unlink :
    (c n : ℕ) (log : List Event)
    → held log ≡ some (c ∷ [])
    → (n == c) ≡ false
    → held (unlock n ∷ lock n ∷ log) ≡ some (c ∷ [])
unlink c n log h apart = rw (h, apart, ==_refl n) refl

ends : (c : ℕ) (log : List Event) → held log ≡ some (c ∷ []) → held (unlock c ∷ log) ≡ some []
ends c log h = rw (h, ==_refl c) refl

starts : (c : ℕ) (log : List Event) → held log ≡ some [] → held (lock c ∷ log) ≡ some (c ∷ [])
starts c log h = rw h refl

Distinct-skip :
    {A : Type 0} (c : ℕ) (n : Node A) (ns : List (Node A)) → Distinct c (n ∷ ns) → Distinct c ns
Distinct-skip c n [] h = tt
Distinct-skip c n (x ∷ ns) ((_, apart), (_, rest)) = (apart, rest)

module _ {A S : Type 0} (f : A → S → S) where
  each_from-fold :
      (c : ℕ) (ns : List (Node A)) (s : S) (log : List Event)
      → (each_from f c ns (s, log)).0 ≡ foldl f s (values ns)
  unfolding each_from
  each_from-fold c [] s log = refl
  each_from-fold c (n ∷ ns) s log = each_from-fold n.address ns (f n.value s) _

  each_from-held :
      (c : ℕ) (ns : List (Node A)) (s : S) (log : List Event)
      → Distinct c ns
      → held log ≡ some (c ∷ [])
      → held (each_from f c ns (s, log)).1 ≡ some []
  unfolding each_from
  each_from-held c [] s log apart h = ends c log h
  each_from-held c (n ∷ ns) s log ((apart, _), rest) h =
      each_from-held n.address ns (f n.value s) (unlock c ∷ lock n.address ∷ log) rest
        (pass c n.address log h apart)

  -- `for_each` gives the values to the function in their order and leaves the list; it has taken no
  -- lock with two held, nor one that is held, and ends with none held.
  pub for_each-fold :
      (l : ListR A) (s : S)
      → Distinct l.head l.nodes
      → held l.log ≡ some []
      → let (s', l') = for_each f l s in
        (s' ≡ foldl f s (values l.nodes)) × (l'.nodes ≡ l.nodes) × (held l'.log ≡ some [])
  unfolding for_each
  for_each-fold l s apart h = (
    each_from-fold l.head l.nodes s _,
    refl,
    each_from-held l.head l.nodes s (lock l.head ∷ l.log) apart (starts l.head l.log h),
  )

module _ {A : Type 0} (p : A → Bool) where
  find_from-first :
      (c : ℕ) (ns : List (Node A)) (log : List Event)
      → Distinct c ns
      → held log ≡ some (c ∷ [])
      → let (found, log') = find_from p c ns log in
        (found ≡ first p (values ns)) × (held log' ≡ some [])
  unfolding find_from
  find_from-first c [] log apart h = (refl, ends c log h)
  find_from-first c (n ∷ ns) log ((apart, _), others) h =
      let passed = unlock c ∷ lock n.address ∷ log in
      let moved = pass c n.address log h apart in
      let (found, none_held) = find_from-first n.address ns passed others moved in
      elim (Bool-cases (p n.value)) [
        | inl hit ↦ rw hit (refl, ends n.address passed moved)
        | inr miss ↦ rw miss (found, none_held)
      ]

  -- `find_first_if` gives the first value that the test takes, if any, and leaves the list; it has
  -- taken no lock with two held, nor one that is held, and ends with none held.
  pub find_first_if-first :
      (l : ListR A)
      → Distinct l.head l.nodes
      → held l.log ≡ some []
      → let (found, l') = find_first_if p l in
        (found ≡ first p (values l.nodes)) × (l'.nodes ≡ l.nodes) × (held l'.log ≡ some [])
  unfolding find_first_if
  find_first_if-first l apart h =
      let (found, none_held) =
        find_from-first l.head l.nodes (lock l.head ∷ l.log) apart (starts l.head l.log h) in
      (found, refl, none_held)

  remove_from-reject :
      (c : ℕ) (ns : List (Node A)) (log : List Event)
      → Distinct c ns
      → held log ≡ some (c ∷ [])
      → let (left, log') = remove_from p c ns log in
        (values left ≡ reject p (values ns)) × (held log' ≡ some [])
  unfolding remove_from
  remove_from-reject c [] log apart h = (refl, ends c log h)
  remove_from-reject c (n ∷ ns) log apart h =
      let (gone, out) =
        remove_from-reject c ns (unlock n.address ∷ lock n.address ∷ log)
          (Distinct-skip c n ns apart) (unlink c n.address log h apart.0.0) in
      let (kept, out') =
        remove_from-reject n.address ns (unlock c ∷ lock n.address ∷ log) apart.1
          (pass c n.address log h apart.0.0) in
      elim (Bool-cases (p n.value)) [
        | inl hit ↦ rw (hit, remove_from) (gone, out)
        | inr miss ↦ rw (miss, remove_from) (ap (λ (vs : List A). n.value ∷ vs) kept, out')
      ]

  pub remove_if-reject :
      (l : ListR A)
      → Distinct l.head l.nodes
      → held l.log ≡ some []
      → let l' = remove_if p l in
        (values l'.nodes ≡ reject p (values l.nodes)) × (held l'.log ≡ some [])
  unfolding remove_if
  remove_if-reject l apart h =
      remove_from-reject l.head l.nodes (lock l.head ∷ l.log) apart (starts l.head l.log h)
