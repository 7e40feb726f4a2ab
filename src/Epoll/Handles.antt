-- ===== src/Epoll/Handles.antt =====
-- `wm_epoll_create` and `wm_epoll_modify`.
use wkc.Common.{
  ℕ, suc, ◌+◌, ℤ, pos, minus_one, is_neg, eqb_ℤ, ◌≡◌, refl, ◌⊎◌, inl, inr, Bool, true, false, none,
  some, List, [], ◌∷◌, arith, Bool-cases,
}
use wkc.Epoll.{Event, EventList, Env, World, ctl_mod, create, modify_in, modify}
use wkc.Epoll.Registry.{count, allocated, freed, self_of}

module _ (l : EventList) (env : Env l) where
  open l use {entries, entries-init}

  -- Whatever the system answers, `wm_epoll_create` returns 0 with a descriptor that is not
  -- negative, no event listed and one block more; or -1 with every block that it allocated freed.
  pub epoll_create-Outcome :
      (has_handle : Bool) (w : World l)
      → let (x, w') = create l env has_handle w in
        ((x ≡ pos 0)
          × (is_neg w'.epfd ≡ false)
          × (entries w'.head ≡ [])
          × (count allocated w'.log ≡ suc (count allocated w.log))
          × (count freed w'.log ≡ count freed w.log))
        ⊎ ((x ≡ minus_one)
            × (count allocated w'.log + count freed w.log
                ≡ count freed w'.log + count allocated w.log))
  unfolding create
  epoll_create-Outcome has_handle w = ground (arith, entries-init)

  modify_in_lem :
      (fd : ℤ) (events : ℕ) (es : List Event) (w : World l)
      → ((self_of fd es ≡ none) × (modify_in l env fd events es w ≡ (minus_one, w)))
        ⊎ ((p : ℕ) × (r : ℤ) × (c : ℤ) × (self_of fd es ≡ some p)
            × (eqb_ℤ c fd ≡ true)
            × (modify_in l env fd events es w
                ≡ (pos 0, record w { log = (ctl_mod c events p, r) ∷ w.log })))
  unfolding modify_in
  modify_in_lem fd events [] w = inl (refl, refl)
  modify_in_lem fd events (e ∷ es) w = elim (Bool-cases (eqb_ℤ e.fd fd)) [
    | inl same ↦ rw same (inr (e.self, _, e.fd, refl, same, refl))
    | inr other ↦ rw other (modify_in_lem fd events es w)
  ]

  -- `wm_epoll_modify` returns -1 without a call if no event is on the descriptor. Otherwise it
  -- returns 0, whatever the system answers, after one call about the first event on the
  -- descriptor, with the address of this event.
  pub modify-Outcome :
      (fd : ℤ) (events : ℕ) (w : World l)
      → ((self_of fd (entries w.head) ≡ none) × (modify l env true fd events w ≡ (minus_one, w)))
        ⊎ ((p : ℕ) × (r : ℤ) × (c : ℤ) × (self_of fd (entries w.head) ≡ some p)
            × (eqb_ℤ c fd ≡ true)
            × (modify l env true fd events w
                ≡ (pos 0, record w { log = (ctl_mod c events p, r) ∷ w.log })))
  unfolding modify
  modify-Outcome fd events w = modify_in_lem fd events (entries w.head) w
