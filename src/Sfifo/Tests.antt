-- ===== src/Sfifo/Tests.antt =====
-- The fifo at concrete sizes: a ring whose counters are about to wrap, and an allocator with one
-- block for each size.
use wkc.Common.{
  ℕ, ◌+◌, ◌≤◌, ◌≡◌, refl, Bool, false, not, ◌&&◌, ◌||◌, Option, none, some, List, [], ◌∷◌, length,
  drop, ◌==◌, arith, if◌then◌else◌, Bool-cases, inl, inr,
}
use wkc.Sfifo.{Sfifo, sub_u32, mask, rest, put_len, get_len, first_part}
use wkc.Sfifo.Valid.{IsValid}
use wkc.Sfifo.Queue.{contents}
use wkc.Sfifo.Refine.{run_refines, run, queue_run, Op, put_all, fill}
use wkc.Sfifo.Bounds.{put_in_bounds}
use wkc.Sfifo.Lifetime.{Allocator, Handle, init, alloc}

-- Three bytes, the last of which is the last before the counter wraps.
abbrev pub wrapping : Sfifo
wrapping = record { buffer = 30 ∷ 9 ∷ 10 ∷ 20 ∷ []; size = 4; in_count = 1; out_count = 4294967294 }

abbrev empty : Sfifo
empty = record {
  buffer = 0 ∷ 0 ∷ 0 ∷ 0 ∷ [];
  size = 4;
  in_count = 4294967295;
  out_count = 4294967295;
}

pub wrapping-IsValid : IsValid wrapping
unfolding rest
wrapping-IsValid = record {
  width = 2;
  width_small = omega arith;
  power = refl;
  whole = refl;
  in_word = omega arith;
  out_word = omega arith;
  used_fits = omega arith;
}

empty-IsValid : IsValid empty
unfolding rest
empty-IsValid = record {
  width = 2;
  width_small = omega arith;
  power = refl;
  whole = refl;
  in_word = omega arith;
  out_word = omega arith;
  used_fits = omega arith;
}

empty-rest : rest empty ≡ 0
unfolding rest
empty-rest = refl

abbrev script : List Op
script = put_all (40 ∷ 50 ∷ []) ∷ fill (0 ∷ 0 ∷ 0 ∷ []) ∷ put_all (60 ∷ 70 ∷ []) ∷ []

run_refines_example : run wrapping script ≡ queue_run 4 (contents wrapping) script
run_refines_example = run_refines script {f = wrapping} wrapping-IsValid

script_runs :
    queue_run 4 (10 ∷ 20 ∷ 30 ∷ []) script ≡ ((1, []) ∷ (3, 10 ∷ 20 ∷ 30 ∷ []) ∷ (2, []) ∷ [])
unfolding queue_run
script_runs = refl

abbrev put_at : ℕ
put_at = mask 4 1

abbrev put_first : ℕ
put_first = first_part wrapping put_at (put_len wrapping 2)

put_in_bounds_example :
    (put_at + put_first ≤ 4)
    × (put_first ≤ 2)
    × (sub_u32 (put_len wrapping 2) put_first ≤ 4)
    × (sub_u32 (put_len wrapping 2) put_first ≤ length {A = ℕ} (drop put_first (40 ∷ 50 ∷ [])))
    × (put_first + sub_u32 (put_len wrapping 2) put_first ≡ put_len wrapping 2)
put_in_bounds_example = put_in_bounds {f = wrapping} wrapping-IsValid 2 (40 ∷ 50 ∷ []) (omega arith)

abbrev get_at : ℕ
get_at = mask 4 4294967294

abbrev get_first : ℕ
get_first = first_part wrapping get_at (get_len wrapping 3)

-- The blocks in use; a block of `n` bytes stands at `n`.
abbrev Blocks : Type 0
Blocks = ℕ → Bool

abbrev slot : ℕ → Blocks → Option ℕ × Blocks
slot n m = if m n then (none, m) else (some n, λ q. q == n || m q)

slot_null : (n : ℕ) (m : Blocks) → (slot n m).0 ≡ none → (q : ℕ) → (slot n m).1 q ≡ m q
slot_null n m e q = elim (Bool-cases (m n)) [ inl used ↦ rw used | inr idle ↦ cc (rw idle at e) ]

slot_fresh : (n : ℕ) (m : Blocks) (p : ℕ) → (slot n m).0 ≡ some p → m p ≡ false
slot_fresh n m p e = ground arith

slot_block :
    (n : ℕ) (m : Blocks) (p : ℕ)
    → (slot n m).0 ≡ some p
    → (q : ℕ) → (slot n m).1 q ≡ (q == p || m q)
slot_block n m p e q = ground arith

abbrev slots : Allocator
slots = record {
  Memory = Blocks;
  malloc = slot;
  free = λ p m q. not (q == p) && m q;
  live = λ m q. m q;
  malloc_null = slot_null;
  malloc_fresh = slot_fresh;
  malloc_block = slot_block;
  free_block = λ p m q. refl;
}

abbrev none_used : Blocks
none_used = λ q. false

abbrev zeros : ℕ → List ℕ
zeros p = 0 ∷ 0 ∷ 0 ∷ 0 ∷ []

-- A ring of the struct's size takes the one block that the struct could have.
no_struct : (alloc slots zeros 24 none_used).0 ≡ none
unfolding alloc init
no_struct = refl

abbrev handle : Handle
handle = record {
  self = 24;
  block = 4;
  fifo = record { buffer = zeros 4; size = 4; in_count = 0; out_count = 0 };
}

allocated_four : (alloc slots zeros 4 none_used).0 ≡ some handle
unfolding alloc init
allocated_four = refl
