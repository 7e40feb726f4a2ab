-- ===== src/Sfifo/Ordered.antt =====
-- Runs of the two threads of Sfifo/Shared on one ring of project/utils/sfifo.c.
use wkc.Common.{
  ℕ, zero, suc, ◌+◌, ◌-◌, ◌%◌, ◌≤◌, ◌<◌, ◌≡◌, refl, sym, ap, ap₂, ◌∙◌, List, [], ◌∷◌, ◌++◌, length,
  arith, get_or, get_or-append_of, length-memcpy, take, drop, append_assoc,
}
use mathlib.Core.Path.{subst}
use wkc.Sfifo.{Sfifo, rest}
use wkc.Sfifo.Valid.{IsValid, size_bounds}
use wkc.Sfifo.Queue.{contents, length-contents}
use wkc.Sfifo.Shared.{
  Putter, writing, Getter, reading, Shared, Step, begin_put, compare_put, clip_put, copy_in,
  end_put, begin_get, compare_get, clip_get, free_bytes, used_bytes, copy_out, end_get, start_of,
  Reach, start, later, read_byte, write_byte,
}
use wkc.Sfifo.Bytes

pub free_bytes-eq : {f : Sfifo} → IsValid f → free_bytes f ≡ f.size - rest f
unfolding rest
free_bytes-eq v = ground (arith, size_bounds v, v)

pub used_bytes-eq : {f : Sfifo} → IsValid f → used_bytes f ≡ rest f
unfolding rest
used_bytes-eq v = ground (arith, v)

-- what the thread that puts has done so far: its bytes are in the slots behind those that the ring holds
abbrev pub Putting : Sfifo → Putter → Type 0
Putting f Putter.outside = Unit
Putting f (Putter.clipping source len) = Unit
Putting f (writing source n k) =
    (k ≤ n)
    × (n ≤ length source)
    × (rest f + n ≤ f.size)
    × ((i : ℕ) → i < k → get_or f.buffer ((f.in_count + i) % f.size) 0 ≡ get_or source i 0)

-- what the thread that gets has done so far: its block begins with the bytes that the ring holds
abbrev pub Getting : Sfifo → Getter → Type 0
Getting f Getter.outside = Unit
Getting f (Getter.clipping target len) = Unit
Getting f (reading target n k) =
    (k ≤ n)
    × (n ≤ length target)
    × (n ≤ rest f)
    × ((i : ℕ) → i < k → get_or target i 0 ≡ get_or (contents f) i 0)

pub record Inv (s : Shared) : Type 0 where
  pub valid : IsValid s.ring
  pub putting : Putting s.ring s.putter
  pub getting : Getting s.ring s.getter
  pub ordered : s.sent ≡ s.given ++ contents s.ring

Getting-grows :
    (f f' : Sfifo) (g : Getter)
    → rest f ≤ rest f'
    → ((i : ℕ) → i < rest f → get_or (contents f') i 0 ≡ get_or (contents f) i 0)
    → Getting f g
    → Getting f' g
Getting-grows f f' Getter.outside more same h = tt
Getting-grows f f' (Getter.clipping target len) more same h = tt
Getting-grows f f' (reading target n k) more same (kn, room, enough, done) =
    (kn, room, omega arith, λ i low. done i low ∙ sym (same i (omega arith)))

Putting-released :
    {f : Sfifo} (v : IsValid f) (n : ℕ) (enough : n ≤ rest f) (p : Putter)
    → Putting f p
    → Putting (Bytes.released v n enough) p
Putting-released v n enough Putter.outside h = tt
Putting-released v n enough (Putter.clipping source len) h = tt
Putting-released {f} v n enough (writing source m k) (km, room, fits, done) =
    (km, room, omega (arith, Bytes.rest-released v n enough), done)

take-drop : (n : ℕ) (xs : List ℕ) → take n xs ++ drop n xs ≡ xs
take-drop zero xs = refl
take-drop (suc n) [] = refl
take-drop (suc n) (x ∷ xs) = ap (λ (l : List ℕ). x ∷ l) (take-drop n xs)

take-same :
    (n : ℕ) (xs ys : List ℕ)
    → n ≤ length xs
    → n ≤ length ys
    → ((i : ℕ) → i < n → get_or xs i 0 ≡ get_or ys i 0)
    → take n xs ≡ take n ys
take-same zero xs ys p q h = refl
take-same (suc n) [] ys p q h = absurd (omega arith)
take-same (suc n) (x ∷ xs) [] p q h = absurd (omega arith)
take-same (suc n) (x ∷ xs) (y ∷ ys) p q h =
    ap₂ (λ (a : ℕ) (l : List ℕ). a ∷ l) (h 0 (omega arith))
      (take-same n xs ys (omega arith) (omega arith) (λ i low. h (suc i) (omega arith)))

Step-Inv : {s t : Shared} → Step s t → Inv s → Inv t
Step-Inv {s} (begin_put source len e room fits) inv = record {
  valid = inv.valid;
  putting = (
    omega arith,
    room,
    omega (arith, fits, inv.valid.used_fits, free_bytes-eq inv.valid),
    λ i low. absurd (omega arith),
  );
  getting = inv.getting;
  ordered = inv.ordered;
}
Step-Inv {s} (compare_put source len e room more) inv = record {
  valid = inv.valid;
  putting = tt;
  getting = inv.getting;
  ordered = inv.ordered;
}
Step-Inv {s} (clip_put source len e room) inv = record {
  valid = inv.valid;
  putting = (
    omega arith,
    room,
    omega (arith, inv.valid.used_fits, free_bytes-eq inv.valid),
    λ i low. absurd (omega arith),
  );
  getting = inv.getting;
  ordered = inv.ordered;
}
Step-Inv {s} (copy_in source n k e h) inv =
    let v = inv.valid in
    let (kn, room, fits, done) = subst (Putting s.ring) e inv.putting in
    let same = Bytes.contents-write_byte v source n k h room fits in
    let equal = Bytes.rest-write_byte v source n k h room fits in
    record {
      valid = Bytes.write_byte-IsValid v source n k h room fits;
      putting =
          (h, room, omega (arith, equal), Bytes.slot-write_byte v source n k h room fits done);
      getting =
          Getting-grows s.ring (write_byte s.ring source n k) s.getter (omega (arith, equal))
            (λ i low. ap (λ (l : List ℕ). get_or l i 0) same) inv.getting;
      ordered = inv.ordered ∙ ap (λ (l : List ℕ). s.given ++ l) (sym same);
    }
Step-Inv {s} (end_put source n e) inv =
    let v = inv.valid in
    let (_, room, fits, done) = subst (Putting s.ring) e inv.putting in
    let more = Bytes.contents-stored v source n room fits done in
    let longer = Bytes.rest-stored v source n room fits done in
    record {
      valid = Bytes.stored-IsValid v source n room fits done;
      putting = tt;
      getting =
          Getting-grows s.ring (Bytes.stored v source n room fits done) s.getter
            (omega (arith, longer))
            (λ i low.
              ap (λ (l : List ℕ). get_or l i 0) more
              ∙ ground (
                arith,
                get_or-append_of (contents s.ring) (take n source) (rest s.ring) i 0
                    (length-contents s.ring),
              ))
            inv.getting;
      ordered =
          ap (λ (l : List ℕ). l ++ take n source) inv.ordered
          ∙ append_assoc s.given (contents s.ring) (take n source)
          ∙ ap (λ (l : List ℕ). s.given ++ l) (sym more);
    }
Step-Inv {s} (begin_get target len e room fits) inv = record {
  valid = inv.valid;
  putting = inv.putting;
  getting = (
    omega arith,
    room,
    omega (arith, fits, used_bytes-eq inv.valid),
    λ i low. absurd (omega arith),
  );
  ordered = inv.ordered;
}
Step-Inv {s} (compare_get target len e room more) inv = record {
  valid = inv.valid;
  putting = inv.putting;
  getting = tt;
  ordered = inv.ordered;
}
Step-Inv {s} (clip_get target len e room) inv = record {
  valid = inv.valid;
  putting = inv.putting;
  getting =
      (omega arith, room, omega (arith, used_bytes-eq inv.valid), λ i low. absurd (omega arith));
  ordered = inv.ordered;
}
Step-Inv {s} (copy_out target n k e h) inv =
    let v = inv.valid in
    let (kn, room, enough, done) = subst (Getting s.ring) e inv.getting in
    record {
      valid = v;
      putting = inv.putting;
      getting = (
        h,
        omega (arith, room, length-read_byte s.ring target n k),
        enough,
        Bytes.read_byte-more v n enough target k h room done,
      );
      ordered = inv.ordered;
    }
  where
    length-read_byte :
        (f : Sfifo) (target : List ℕ) (n k : ℕ) → length (read_byte f target n k) ≡ length target
    length-read_byte f target n k = length-memcpy target k _ 1
Step-Inv {s} (end_get target n e) inv =
    let v = inv.valid in
    let (_, room, enough, done) = subst (Getting s.ring) e inv.getting in
    let fewer = Bytes.contents-released v n enough in
    record {
      valid = Bytes.released-IsValid v n enough;
      putting = Putting-released v n enough s.putter inv.putting;
      getting = tt;
      ordered =
          inv.ordered
          ∙ ap (λ (l : List ℕ). s.given ++ l)
              (sym (take-drop n (contents s.ring))
                ∙ ap₂ (λ (a b : List ℕ). a ++ b)
                    (sym (
                      take-same n target (contents s.ring) room
                        (omega (arith, length-contents s.ring)) done))
                    (sym fewer))
          ∙ sym (append_assoc s.given (take n target) (contents (Bytes.released v n enough)));
    }

start-Inv : (f : Sfifo) → IsValid f → Inv (start_of f)
start-Inv f v = record { valid = v; putting = tt; getting = tt; ordered = refl }

Reach-Inv : {f : Sfifo} {s : Shared} → IsValid f → Reach f s → Inv s
Reach-Inv {f} v start = start-Inv f v
Reach-Inv v (later r st) = Step-Inv st (Reach-Inv v r)

-- On a valid ring, with one thread that puts and one that gets, whatever the order of their steps, and as
-- long as the second read of `min` gives no call more than its block has: at any time, in the middle
-- of copies too, the bytes that the calls of `sfifo_get` have given, and behind them the bytes that
-- the ring holds, are the bytes that it held at first and that the calls of `sfifo_put` have taken
-- since, in their order. The ring is valid.
pub Reach-ordered :
    {f : Sfifo} {s : Shared}
    → IsValid f
    → Reach f s
    → (s.sent ≡ s.given ++ contents s.ring) × IsValid s.ring
Reach-ordered v r = let inv = Reach-Inv v r in (inv.ordered, inv.valid)
