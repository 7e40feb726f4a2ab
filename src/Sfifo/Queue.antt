-- ===== src/Sfifo/Queue.antt =====
-- The bytes that a ring holds, oldest first.
use wkc.Common.{ℕ, zero, suc, ◌+◌, ◌%◌, ◌<◌, ◌≡◌, refl, ◌∙◌, List, [], ◌∷◌, length, get_or, arith}
use wkc.Sfifo.{Sfifo, rest}

-- `n` bytes of a ring, from the one that a counter at `s` stands for.
pub bytes : List ℕ → ℕ → ℕ → ℕ → List ℕ
bytes ring size s zero = []
bytes ring size s (suc n) = get_or ring (s % size) 0 ∷ bytes ring size (s + 1) n

pub contents : Sfifo → List ℕ
contents f = bytes f.buffer f.size f.out_count (rest f)

pub length-bytes : (ring : List ℕ) (size s n : ℕ) → length (bytes ring size s n) ≡ n
unfolding bytes
length-bytes ring size s zero = refl
length-bytes ring size s (suc n) = omega (arith, length-bytes ring size (s + 1) n)

pub length-contents : (f : Sfifo) → length (contents f) ≡ rest f
unfolding contents
length-contents f = length-bytes f.buffer f.size f.out_count (rest f)

pub get_or-bytes :
    (ring : List ℕ) (size s n i : ℕ)
    → i < n
    → get_or (bytes ring size s n) i 0 ≡ get_or ring ((s + i) % size) 0
unfolding bytes
get_or-bytes ring size s zero i h = absurd (omega arith)
get_or-bytes ring size s (suc n) zero h = ground arith
get_or-bytes ring size s (suc n) (suc i) h = ground (arith, get_or-bytes ring size (s + 1) n i)

pub get_or-contents :
    (f : Sfifo) (i : ℕ)
    → i < rest f
    → get_or (contents f) i 0 ≡ get_or f.buffer ((f.out_count + i) % f.size) 0
unfolding contents
get_or-contents f i h = get_or-bytes f.buffer f.size f.out_count (rest f) i h

pub contents-empty : (f : Sfifo) → rest f ≡ 0 → contents f ≡ []
contents-empty f e = nil_of_length (contents f) (length-contents f ∙ e)
  where
    nil_of_length : (xs : List ℕ) → length xs ≡ 0 → xs ≡ []
    nil_of_length [] h = refl
    nil_of_length (x ∷ xs) h = absurd (omega arith)
