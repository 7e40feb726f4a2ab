-- ===== src/Sfifo/Lifetime.antt =====
-- `sfifo_init`, `sfifo_alloc` and `sfifo_free`, over an allocator that is a parameter. An address
-- is a number, and NULL is `none`.
use mathlib.Core.Path.{subst}
use wkc.Common.{
  ℕ, ◌^◌, ◌≤◌, ◌≡◌, refl, Bool, false, not, ◌&&◌, ◌||◌, Option, none, some, List, [], length, ◌==◌,
  arith, Option-cases, inl, inr, ==_iff,
}
use wkc.Sfifo.{Sfifo, rest}
use wkc.Sfifo.Valid.{IsValid}
use wkc.Sfifo.Queue.{contents, contents-empty}

-- What the code relies on of `malloc` and `free`: a block that is handed out was not in use, a
-- failed request leaves the blocks in use alone, and `free` gives back one block.
pub record Allocator : Type 1 where
  pub Memory : Type 0
  pub malloc : ℕ → Memory → Option ℕ × Memory
  pub free : ℕ → Memory → Memory
  pub live : Memory → ℕ → Bool
  pub malloc_null :
      (n : ℕ) (m : Memory) → (malloc n m).0 ≡ none → (q : ℕ) → live (malloc n m).1 q ≡ live m q
  pub malloc_fresh : (n : ℕ) (m : Memory) (p : ℕ) → (malloc n m).0 ≡ some p → live m p ≡ false
  pub malloc_block :
      (n : ℕ) (m : Memory) (p : ℕ)
      → (malloc n m).0 ≡ some p
      → (q : ℕ) → live (malloc n m).1 q ≡ (q == p || live m q)
  pub free_block : (p : ℕ) (m : Memory) (q : ℕ) → live (free p m) q ≡ (not (q == p) && live m q)

-- The struct that `sfifo_init` allocates at `self`; `block` is its field `buffer`.
pub record Handle : Type 0 where
  pub self : ℕ
  pub block : ℕ
  pub fifo : Sfifo

-- sizeof(sfifo_t) where a pointer has eight bytes
abbrev pub sizeof_sfifo : ℕ
sizeof_sfifo = 24

-- `found` is what stands in the memory at an address.
module _ (a : Allocator) (found : ℕ → List ℕ) where
  open a use {Memory, malloc, free, live, malloc_null, malloc_fresh, malloc_block, free_block}

  abbrev pub fresh : ℕ → ℕ → ℕ → Handle
  fresh p block size = record {
    self = p;
    block = block;
    fifo = record { buffer = found block; size = size; in_count = 0; out_count = 0 };
  }

  unfoldable pub init : ℕ → ℕ → Memory → Option Handle × Memory
  init block size m =
      let (p, m') = malloc sizeof_sfifo m in
      elim p [ none ↦ (none, m') | some q ↦ (some (fresh q block size), m') ]

  unfoldable pub alloc : ℕ → Memory → Option Handle × Memory
  alloc size m =
      let (p, m1) = malloc size m in
      elim p [
        | none ↦ (none, m1)
        | some block ↦
            let (r, m2) = init block size m1 in
            elim r [ none ↦ (none, free block m2) | some h ↦ (some h, m2) ]
      ]

  unfoldable pub release : Handle → Memory → Memory
  release h m = free h.self (free h.block m)

  -- When `sfifo_alloc` returns NULL, the blocks in use are those from before the call.
  pub alloc-no_leak :
      (size : ℕ) (m : Memory)
      → (alloc size m).0 ≡ none
      → (q : ℕ) → live (alloc size m).1 q ≡ live m q
  unfolding alloc init
  alloc-no_leak size m e q = elim (Option-cases (malloc size m).0) [
    | inl no_block ↦ ground (arith, malloc_null size m no_block q)
    | inr (p, got) ↦ elim (Option-cases (malloc sizeof_sfifo (malloc size m).1).0) [
      | inl no_struct ↦ ground (
        arith,
        malloc_fresh size m p got,
        malloc_block size m p got q,
        malloc_null sizeof_sfifo (malloc size m).1 no_struct q,
        free_block p (malloc sizeof_sfifo (malloc size m).1).1 q,
        ==_iff q p,
      )
      | inr (s, found) ↦ ground arith
    ]
  ]

  -- A handle that `sfifo_alloc` returns, given to `sfifo_free` at once, leaves the blocks in use
  -- as they were before the two calls.
  pub release-alloc :
      (size : ℕ) (m : Memory) (h : Handle)
      → (alloc size m).0 ≡ some h
      → (q : ℕ) → live (release h (alloc size m).1) q ≡ live m q
  unfolding alloc init release
  release-alloc size m h e q = elim (Option-cases (malloc size m).0) [
    | inl no_block ↦ ground arith
    | inr (p, got) ↦ elim (Option-cases (malloc sizeof_sfifo (malloc size m).1).0) [
      | inl no_struct ↦ ground arith
      | inr (s, had) ↦ ground (
        arith,
        malloc_fresh size m p got,
        malloc_fresh sizeof_sfifo (malloc size m).1 s had,
        malloc_block size m p got q,
        malloc_block size m p got s,
        malloc_block sizeof_sfifo (malloc size m).1 s had q,
        free_block p (malloc sizeof_sfifo (malloc size m).1).1 q,
        free_block s (free p (malloc sizeof_sfifo (malloc size m).1).1) q,
      )
    ]
  ]

  fresh-IsValid :
      (k size p block : ℕ)
      → size ≡ 2 ^ k
      → k ≤ 31
      → length (found block) ≡ size
      → IsValid (fresh p block size).fifo
  fresh-IsValid k size p block power small whole = record {
    width = k;
    width_small = small;
    power = power;
    whole = whole;
    in_word = omega arith;
    out_word = omega arith;
    used_fits = unfold rest in omega arith;
  }

  fresh-empty : (size p block : ℕ) → contents (fresh p block size).fifo ≡ []
  fresh-empty size p block = contents-empty (fresh p block size).fifo (unfold rest in refl)

  -- What `sfifo_alloc` returns for a power of two up to 2 ^ 31 is a valid ring with no byte in
  -- it, if the block that it was handed has the size that it asked for.
  pub alloc-IsValid :
      (k size : ℕ) (m : Memory) (h : Handle)
      → (alloc size m).0 ≡ some h
      → size ≡ 2 ^ k
      → k ≤ 31
      → length (found h.block) ≡ size
      → IsValid h.fifo × (contents h.fifo ≡ []) × (h.fifo.size ≡ size)
  unfolding alloc init
  alloc-IsValid k size m h e power small whole = elim (Option-cases (malloc size m).0) [
    | inl no_block ↦ ground arith
    | inr (p, got) ↦ elim (Option-cases (malloc sizeof_sfifo (malloc size m).1).0) [
      | inl no_struct ↦ ground arith
      | inr (s, had) ↦
          let made : fresh s p size ≡ h = ground arith in
          subst
            (λ (h : Handle).
              length (found h.block) ≡ size
              → IsValid h.fifo × (contents h.fifo ≡ []) × (h.fifo.size ≡ size))
            made (λ whole. (fresh-IsValid k size s p power small whole, fresh-empty size s p, refl))
            whole
    ]
  ]
