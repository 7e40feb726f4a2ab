-- ===== src/Common/Lists.antt =====
-- Lists with native indices, compared index by index, and `memcpy` between two of them.
use Prim.Native.Nat.{ℕ, zero, suc, ◌+◌, ◌-◌, ◌≤◌, ◌<◌}
use mathlib.Core.Path.{◌≡◌, refl, ap, ap₂, subst}
use mathlib.Core.List.{List, [], ◌∷◌, ◌++◌}
use native.Mathlib.Omega.{arith}
use wkc.Common.Tests.{ltb, leb, if◌then◌else◌}

module _ {ℓ} {A : Type ℓ} where
  abbrev pub length : List A → ℕ
  length [] = 0
  length (_ ∷ xs) = suc (length xs)

  abbrev pub get_or : List A → ℕ → A → A
  get_or [] _ d = d
  get_or (x ∷ _) zero _ = x
  get_or (_ ∷ xs) (suc i) d = get_or xs i d

  abbrev pub take : ℕ → List A → List A
  take zero _ = []
  take (suc n) [] = []
  take (suc n) (x ∷ xs) = x ∷ take n xs

  abbrev pub drop : ℕ → List A → List A
  drop zero xs = xs
  drop (suc n) [] = []
  drop (suc n) (x ∷ xs) = drop n xs

  -- `n` elements from the start of the source over the destination from index `off` on. What
  -- would go past the end of either is not copied; the callers prove that nothing does.
  pub memcpy : List A → ℕ → List A → ℕ → List A
  memcpy [] off src n = []
  memcpy (d ∷ dst) (suc off) src n = d ∷ memcpy dst off src n
  memcpy (d ∷ dst) zero [] n = d ∷ dst
  memcpy (d ∷ dst) zero (s ∷ src) zero = d ∷ dst
  memcpy (d ∷ dst) zero (s ∷ src) (suc n) = s ∷ memcpy dst zero src n

  pub length-append : (xs ys : List A) → length (xs ++ ys) ≡ length xs + length ys
  length-append [] ys = omega arith
  length-append (x ∷ xs) ys = omega (arith, length-append xs ys)

  pub length-take : (n : ℕ) (xs : List A) → n ≤ length xs → length (take n xs) ≡ n
  length-take zero xs h = refl
  length-take (suc n) [] h = absurd (omega arith)
  length-take (suc n) (x ∷ xs) h = omega (arith, length-take n xs (omega arith))

  pub length-drop : (n : ℕ) (xs : List A) → length (drop n xs) ≡ length xs - n
  length-drop zero xs = omega arith
  length-drop (suc n) [] = omega arith
  length-drop (suc n) (x ∷ xs) = omega (arith, length-drop n xs)

  pub take-length : (xs : List A) → take (length xs) xs ≡ xs
  take-length [] = refl
  take-length (x ∷ xs) = ap (λ t. x ∷ t) (take-length xs)

  pub drop-length : (xs : List A) → drop (length xs) xs ≡ []
  drop-length [] = refl
  drop-length (x ∷ xs) = drop-length xs

  pub length-memcpy :
      (dst : List A) (off : ℕ) (src : List A) (n : ℕ) → length (memcpy dst off src n) ≡ length dst
  unfolding memcpy
  length-memcpy [] off src n = refl
  length-memcpy (d ∷ dst) (suc off) src n = omega (arith, length-memcpy dst off src n)
  length-memcpy (d ∷ dst) zero [] n = refl
  length-memcpy (d ∷ dst) zero (s ∷ src) zero = refl
  length-memcpy (d ∷ dst) zero (s ∷ src) (suc n) = omega (arith, length-memcpy dst 0 src n)

  pub get_or-append :
      (xs ys : List A) (i : ℕ) (d : A)
      → get_or (xs ++ ys) i d
        ≡ (if ltb i (length xs) then get_or xs i d else get_or ys (i - length xs) d)
  get_or-append [] ys i d = ground arith
  get_or-append (x ∷ xs) ys zero d = ground arith
  get_or-append (x ∷ xs) ys (suc i) d = ground (arith, get_or-append xs ys i d)

  -- The same, with the length of the first list at hand as a number.
  pub get_or-append_of :
      (xs ys : List A) (n i : ℕ) (d : A)
      → length xs ≡ n
      → get_or (xs ++ ys) i d ≡ (if ltb i n then get_or xs i d else get_or ys (i - n) d)
  get_or-append_of xs ys n i d e =
      subst (λ k. get_or (xs ++ ys) i d ≡ (if ltb i k then get_or xs i d else get_or ys (i - k) d))
        e (get_or-append xs ys i d)

  pub get_or-take :
      (n : ℕ) (xs : List A) (i : ℕ) (d : A) → i < n → get_or (take n xs) i d ≡ get_or xs i d
  get_or-take zero xs i d h = absurd (omega arith)
  get_or-take (suc n) [] i d h = refl
  get_or-take (suc n) (x ∷ xs) zero d h = refl
  get_or-take (suc n) (x ∷ xs) (suc i) d h = get_or-take n xs i d (omega arith)

  pub get_or-drop :
      (n : ℕ) (xs : List A) (i : ℕ) (d : A) → get_or (drop n xs) i d ≡ get_or xs (n + i) d
  get_or-drop zero xs i d = ground arith
  get_or-drop (suc n) [] i d = refl
  get_or-drop (suc n) (x ∷ xs) i d = ground (arith, get_or-drop n xs i d)

  -- Lists of one length that agree at each index are equal.
  pub list_ext :
      (xs ys : List A) (d : A)
      → length xs ≡ length ys
      → ((i : ℕ) → i < length xs → get_or xs i d ≡ get_or ys i d)
      → xs ≡ ys
  list_ext [] [] d e h = refl
  list_ext [] (y ∷ ys) d e h = absurd (omega arith)
  list_ext (x ∷ xs) [] d e h = absurd (omega arith)
  list_ext (x ∷ xs) (y ∷ ys) d e h =
      ap₂ ◌∷◌ (h 0 (omega arith)) (list_ext xs ys d (omega arith) (λ i p. h (suc i) (omega arith)))

module _ {A : Type 0} where
  -- A copy that stays within both blocks.
  pub get_or-memcpy :
      (dst : List A) (off : ℕ) (src : List A) (n i : ℕ) (d : A)
      → off + n ≤ length dst
      → n ≤ length src
      → get_or (memcpy dst off src n) i d ≡ (
          if leb off i
          then (if ltb i (off + n) then get_or src (i - off) d else get_or dst i d)
          else get_or dst i d)
  unfolding memcpy
  get_or-memcpy [] off src n i d p q = ground arith
  get_or-memcpy (x ∷ dst) (suc off) src n zero d p q = ground arith
  get_or-memcpy (x ∷ dst) (suc off) src n (suc i) d p q =
      ground (arith, get_or-memcpy dst off src n i d)
  get_or-memcpy (x ∷ dst) zero [] n i d p q = ground arith
  get_or-memcpy (x ∷ dst) zero (s ∷ src) zero i d p q = ground arith
  get_or-memcpy (x ∷ dst) zero (s ∷ src) (suc n) zero d p q = ground arith
  get_or-memcpy (x ∷ dst) zero (s ∷ src) (suc n) (suc i) d p q =
      ground (arith, get_or-memcpy dst 0 src n i d)
