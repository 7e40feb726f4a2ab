-- ===== src/RwEvent/Crowd.antt =====
-- Any number of threads that wait in `evt_rd_wait` of project/ipc/evt.c, and threads that call
-- `evt_wr_broadcast`, `evt_rd_reset` and, to poll, `evt_rd_wait` with no time. A move is what one
-- thread does under the mutex, up to the next gap. The waiting threads are alike: the model counts
-- them.
use wkc.Common.{
  ℕ, zero, suc, ◌+◌, ◌-◌, pos, ◌+ℤ◌, ◌-ℤ◌, ◌≡◌, refl, sym, ap, ◌∙◌, true, Bool-cases, inl, inr,
  Option, none, some, ltb, ◌==◌, if◌then◌else◌, arith,
}
use mathlib.Core.Path.{subst}
use native.Mathlib.Nat.{add_comm}
use wkc.Posix.Ledger.{count, broadcasted}
use wkc.Posix.Quiet.{quiet, start}
use wkc.Wait.Crowd.{if_some}
use wkc.RwEvent.{EvtRw, zeroed, broadcast, reset, wait, read, poll}

pub record Readers : Type 0 where
  pub object : EvtRw
  -- in `pthread_cond_wait` or `pthread_cond_timedwait`
  pub sleepers : ℕ
  -- about to leave it, without the mutex yet
  pub woken : ℕ

pub data Move : Type 0 where
  -- A reader begins to wait; leaves with 0 or at its deadline; waits again after another code; is about
  -- to leave on its own or at its deadline; a writer broadcasts; the flag is reset; the flag is
  -- polled.
  enter leave again stir shout clear look : Move

-- a broadcast where every call succeeds, and how often it wakes the readers
pub broadcast_once : EvtRw → EvtRw × ℕ
broadcast_once e = let w = (broadcast true quiet (start e)).1 in (w.object, count broadcasted w.log)

-- ++s32Rd and --s32Rd
abbrev pub counted : EvtRw → EvtRw
counted e = record e { rd = e.rd +ℤ pos 1 }

abbrev pub uncounted : EvtRw → EvtRw
uncounted e = record e { rd = e.rd -ℤ pos 1 }

abbrev pub shouted : Readers → Readers
shouted c =
    let (after, wakes) = broadcast_once c.object in
    if wakes == 0
    then record c { object = after }
    else record c { object = after; sleepers = 0; woken = c.woken + c.sleepers }

unfoldable pub move : Move → Readers → Option Readers
move enter c = some (record c { object = counted c.object; sleepers = suc c.sleepers })
move leave c =
    if ltb 0 c.woken
    then some (record c { object = uncounted c.object; woken = c.woken - 1 })
    else none
move again c =
    if ltb 0 c.woken
    then some (record c {
      object = counted (uncounted c.object);
      sleepers = suc c.sleepers;
      woken = c.woken - 1;
    })
    else none
move stir c =
    if ltb 0 c.sleepers
    then some (record c { sleepers = c.sleepers - 1; woken = suc c.woken })
    else none
move shout c = some (shouted c)
move clear c = some (record c { object = (reset true quiet (start c.object)).1.object })
move look c = some (record c { object = (wait 1 true 0 quiet (start c.object)).1.object })

abbrev pub no_reader : Readers
no_reader = record { object = zeroed; sleepers = 0; woken = 0 }

pub data RdTurns : Readers → Type 0 where
  begin : RdTurns no_reader
  then_ : (m : Move) (c d : Readers) → RdTurns c → move m c ≡ some d → RdTurns d

-- the readers are counted
abbrev Counted : Readers → Type 0
Counted c = c.object.rd ≡ pos (c.sleepers + c.woken)

add_one : (a : ℕ) → pos a +ℤ pos 1 ≡ pos (suc a)
unfolding ◌+ℤ◌
add_one a = ground arith

sub_one : (a : ℕ) → pos (suc a) -ℤ pos 1 ≡ pos a
unfolding ◌-ℤ◌
sub_one a = ground arith

reset-rd : (e : EvtRw) → (reset true quiet (start e)).1.object.rd ≡ e.rd
unfolding reset
reset-rd e = refl

poll-rd : (e : EvtRw) → (wait 1 true 0 quiet (start e)).1.object.rd ≡ e.rd
unfolding wait read poll
poll-rd e = ground arith

broadcast_once_lem :
    (n : ℕ) (e : EvtRw)
    → e.rd ≡ pos n
    → broadcast_once e ≡ (record e { wr = 1 }, if n == 0 then 0 else 1)
unfolding broadcast_once broadcast
broadcast_once_lem zero e h = rw h refl
broadcast_once_lem (suc n) e h =
    rw h (ap (λ (k : ℕ). (record { rd = pos (suc n); wr = 1 }, k)) (ground arith))

enter-Counted : (e : EvtRw) (n : ℕ) → e.rd ≡ pos n → (counted e).rd ≡ pos (suc n)
enter-Counted e n h = ap (λ z. z +ℤ pos 1) h ∙ add_one n

leave-Counted : (e : EvtRw) (n : ℕ) → e.rd ≡ pos (suc n) → (uncounted e).rd ≡ pos n
leave-Counted e n h = ap (λ z. z -ℤ pos 1) h ∙ sub_one n

shouted_lem :
    (c : Readers)
    → Counted c
    → shouted c
      ≡ record { object = record c.object { wr = 1 }; sleepers = 0; woken = c.sleepers + c.woken }
shouted_lem c h = elim (Bool-cases ((c.sleepers + c.woken) == 0)) [
  | inl nobody ↦
      rw (broadcast_once_lem (c.sleepers + c.woken) c.object h, nobody)
        (λ i. record {
          object = record c.object { wr = 1 };
          sleepers = none_sleeps (ground (arith, nobody)) i;
          woken = all_woken (ground (arith, nobody)) i;
        })
  | inr somebody ↦
      rw (broadcast_once_lem (c.sleepers + c.woken) c.object h, somebody)
        (λ i. record {
          object = record c.object { wr = 1 };
          sleepers = 0;
          woken = add_comm c.woken c.sleepers i;
        })
]
  where
    none_sleeps : c.sleepers + c.woken ≡ 0 → c.sleepers ≡ 0
    none_sleeps z = omega (arith, z)

    all_woken : c.sleepers + c.woken ≡ 0 → c.woken ≡ c.sleepers + c.woken
    all_woken z = omega (arith, z)

move-Counted : (m : Move) (c d : Readers) → move m c ≡ some d → Counted c → Counted d
unfolding move
move-Counted enter c d e h =
    subst Counted (if_some true _ d e).1
      (enter-Counted c.object (c.sleepers + c.woken) h ∙ ap pos (omega arith))
move-Counted leave c d e h =
    let (some_, same) = if_some (ltb 0 c.woken) _ d e in
    let back : c.sleepers + c.woken ≡ suc (c.sleepers + (c.woken - 1)) = ground (arith, some_) in
    subst Counted same (leave-Counted c.object (c.sleepers + (c.woken - 1)) (h ∙ ap pos back))
move-Counted again c d e h =
    let (some_, same) = if_some (ltb 0 c.woken) _ d e in
    let back : c.sleepers + c.woken ≡ suc (c.sleepers + (c.woken - 1)) = ground (arith, some_) in
    subst Counted same (
      enter-Counted (uncounted c.object) (c.sleepers + (c.woken - 1))
        (leave-Counted c.object (c.sleepers + (c.woken - 1)) (h ∙ ap pos back))
      ∙ ap pos (omega arith))
move-Counted stir c d e h =
    let (some_, same) = if_some (ltb 0 c.sleepers) _ d e in
    subst Counted same (h ∙ ap pos (ground (arith, some_)))
move-Counted shout c d e h =
    subst Counted (sym (shouted_lem c h) ∙ (if_some true (shouted c) d e).1)
      (h ∙ ap pos (omega arith))
move-Counted clear c d e h = subst Counted (if_some true _ d e).1 (reset-rd c.object ∙ h)
move-Counted look c d e h = subst Counted (if_some true _ d e).1 (poll-rd c.object ∙ h)

RdTurns-Counted : {c : Readers} → RdTurns c → Counted c
RdTurns-Counted begin = refl
RdTurns-Counted (then_ m c d r e) = move-Counted m c d e (RdTurns-Counted r)

-- However many threads read and write, and in whatever order they begin to wait, are woken, leave and
-- wait again, broadcast, reset and poll: `s32Rd` is the number of the threads in a wait, so a
-- broadcast, which wakes only where `s32Rd` is above zero, leaves none of them asleep and the
-- flag at 1.
pub RdTurns-heard :
    {c : Readers}
    → RdTurns c
    → (c.object.rd ≡ pos (c.sleepers + c.woken))
      × ((shouted c).sleepers ≡ 0)
      × ((shouted c).woken ≡ c.sleepers + c.woken)
      × ((shouted c).object.wr ≡ 1)
RdTurns-heard {c} r =
    let h = RdTurns-Counted r in
    let after = shouted_lem c h in
    (
      h,
      ap (λ (x : Readers). x.sleepers) after,
      ap (λ (x : Readers). x.woken) after,
      ap (λ (x : Readers). x.object.wr) after,
    )
