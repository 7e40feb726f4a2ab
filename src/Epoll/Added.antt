-- ===== src/Epoll/Added.antt =====
-- The list of watched descriptors under `wm_epoll_add`, and an addition taken back.
use wkc.Common.{
  is_zero, eqb_ℤ, not, ◌||◌, ◌==◌, if◌then◌else◌, ℕ, suc, ◌+◌, ℤ, pos, minus_one, ◌≡◌, ap, ◌∙◌, ◌⊎◌,
  inl, inr, Bool, true, false, ◌∷◌, arith,
}
use wkc.Epoll.{calloc, ctl_add, Event, EventList, eexist, Env, World, add, remove}
use wkc.Epoll.Registry.{
  count, allocated, freed, freed_at, distinct, absent, remove-entries, distinct-drop_fd,
}

module _ (l : EventList) (env : Env l) where
  open l use {entries, entries-add}

  -- the event that `wm_epoll_add` puts on the list
  abbrev pub made : ℤ → ℕ → ℕ → ℕ → ℕ → World l → Event
  made fd pevent arg1 pexit arg2 w = record {
    self = env.address w.log;
    fd = fd;
    pfn_event = pevent;
    parg1 = arg1;
    pfn_exit = pexit;
    parg2 = arg2;
  }

  -- The event is on the list, at its head, and has its block.
  pub record IsAdded (e : Event) (w w' : World l) : Type 0 where
    pub listed : entries w'.head ≡ e ∷ entries w.head
    pub block : count allocated w'.log ≡ suc (count allocated w.log)
    pub none_freed : count freed w'.log ≡ count freed w.log

  -- The list is as it was, and every block that was allocated is freed.
  pub record IsUnchanged (w w' : World l) : Type 0 where
    pub same : w'.head ≡ w.head
    pub blocks :
        count allocated w'.log + count freed w.log ≡ count freed w'.log + count allocated w.log

  -- what `epoll_ctl` answers, after `calloc`
  abbrev pub ctl_code : Event → ℕ → World l → ℤ
  ctl_code e events w = env.answer ((calloc, pos e.self) ∷ w.log) (ctl_add e.fd events e.self)

  -- Bad arguments; no block; refused by `epoll_ctl`; accepted.
  abbrev pub AddOutcome : Bool → Event → ℕ → World l → ℤ × World l → Type 0
  AddOutcome has_handle e events w (x, w') =
      (((not has_handle || e.pfn_event == 0) ≡ true) × (x ≡ minus_one) × (w' ≡ w))
      ⊎ ((((e.self == 0) ≡ true) × (x ≡ minus_one) × IsUnchanged w w')
          ⊎ (((is_zero (ctl_code e events w) ≡ false)
                × (x ≡ (if eqb_ℤ (env.errno w'.log) eexist then pos 0 else minus_one))
                × IsUnchanged w w'
                × (count (freed_at e.self) w'.log ≡ suc (count (freed_at e.self) w.log)))
              ⊎ ((is_zero (ctl_code e events w) ≡ true) × (x ≡ pos 0) × IsAdded e w w')))

  -- Whatever the system answers, `wm_epoll_add` returns -1 and changes nothing without a handle or an
  -- event callback, and -1 with the list as it was without a block. Where `epoll_ctl` answers other
  -- than 0, it returns 0 if `errno` is EEXIST and else -1, with the list as it was and the block
  -- freed. Where it answers 0, `wm_epoll_add` returns 0 with the event at the head of the list, in a
  -- block of its own.
  pub add-Outcome :
      (has_handle : Bool) (fd : ℤ) (events pevent arg1 pexit arg2 : ℕ) (w : World l)
      → AddOutcome has_handle
          (made fd pevent arg1 pexit arg2 w)
          events
          w
          (add l env has_handle fd events pevent arg1 pexit arg2 w)
  unfolding add
  add-Outcome has_handle fd events pevent arg1 pexit arg2 w =
      ground (arith, entries-add (made fd pevent arg1 pexit arg2 w) w.head)

  -- On a list where no two events stand at one address, and if `calloc` gives an address where none
  -- of them stands, no two do so after `wm_epoll_add`, nor after `wm_epoll_remove` of the same
  -- descriptor.
  pub add-remove-distinct :
      (has_handle : Bool) (fd : ℤ) (events pevent arg1 pexit arg2 : ℕ) (w : World l)
      → distinct (entries w.head) ≡ true
      → absent (env.address w.log) (entries w.head) ≡ true
      → (distinct (entries (add l env has_handle fd events pevent arg1 pexit arg2 w).1.head) ≡ true)
        × (distinct (entries (remove l env true fd w).1.head) ≡ true)
  add-remove-distinct has_handle fd events pevent arg1 pexit arg2 w d a = (
    elim (add-Outcome has_handle fd events pevent arg1 pexit arg2 w) [
      | inl (_, _, same) ↦ ap (λ x. distinct (entries x.head)) same ∙ d
      | inr (inl (_, _, unchanged)) ↦ ap (λ h. distinct (entries h)) unchanged.same ∙ d
      | inr (inr (inl (_, _, unchanged, _))) ↦ ap (λ h. distinct (entries h)) unchanged.same ∙ d
      | inr (inr (inr (_, _, added))) ↦ rw added.listed (ground arith)
    ],
    ap distinct (remove-entries l env fd w d).1 ∙ distinct-drop_fd fd (entries w.head) d,
  )

  -- On a list where no two events stand at one address, and with an address from `calloc` where
  -- none of them stands, an event that `wm_epoll_add` put on the list is the one that a removal of
  -- its descriptor takes off: the list is then as before the two calls.
  pub remove-add :
      (fd : ℤ) (events pevent arg1 pexit arg2 : ℕ) (w : World l)
      → distinct (entries w.head) ≡ true
      → absent (env.address w.log) (entries w.head) ≡ true
      → IsAdded
          (made fd pevent arg1 pexit arg2 w)
          w
          (add l env true fd events pevent arg1 pexit arg2 w).1
      → entries (remove l env true fd (add l env true fd events pevent arg1 pexit arg2 w).1).1.head
        ≡ entries w.head
  remove-add fd events pevent arg1 pexit arg2 w d a added =
      (remove-entries l env fd _
        (add-remove-distinct true fd events pevent arg1 pexit arg2 w d a).0).1
      ∙ rw added.listed (ground arith)
