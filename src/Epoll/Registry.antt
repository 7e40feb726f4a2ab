-- ===== src/Epoll/Registry.antt =====
-- The list of watched descriptors under `wm_epoll_remove` and `wm_epoll_destroy`.
use wkc.Common.{
  ℕ, suc, ◌+◌, ℤ, pos, is_zero, eqb_ℤ, ◌≡◌, refl, ap, ◌∙◌, ◌⊎◌, inl, inr, Bool, true, false, not,
  ◌&&◌, Option, none, some, List, [], ◌∷◌, arith, length, ◌==◌, if◌then◌else◌, Bool-cases,
}
use wkc.Epoll.{
  Event, EventList, Call, ctl_del, Log, Env, World, drop_node, drop_event, drop_all, destroy,
  remove_in, remove, say, run_exit,
}

-- How many calls of a kind were made.
abbrev pub count : (Call → ℤ → Bool) → Log → ℕ
count p [] = 0
count p ((c, r) ∷ log) = if p c r then suc (count p log) else count p log

abbrev pub allocated : Call → ℤ → Bool
allocated Call.calloc r = not (is_zero r)
allocated _ _ = false

abbrev pub freed : Call → ℤ → Bool
freed (Call.free p) r = true
freed _ _ = false

-- a call of `free` at an address
abbrev pub freed_at : ℕ → Call → ℤ → Bool
freed_at q (Call.free p) r = p == q
freed_at q _ _ = false

-- how many of them an address wants
abbrev pub one_at : Option ℕ → ℕ → ℕ
one_at none q = 0
one_at (some p) q = if p == q then 1 else 0

abbrev pub closed : Call → ℤ → Bool
closed (Call.close fd) r = true
closed _ _ = false

-- the list without its first event on a descriptor
abbrev pub drop_fd : ℤ → List Event → List Event
drop_fd fd [] = []
drop_fd fd (e ∷ es) = if eqb_ℤ e.fd fd then es else e ∷ drop_fd fd es

-- no event of the list stands at the address
abbrev pub absent : ℕ → List Event → Bool
absent p [] = true
absent p (e ∷ es) = not (e.self == p) && absent p es

-- no two events of the list stand at one address
abbrev pub distinct : List Event → Bool
distinct [] = true
distinct (e ∷ es) = absent e.self es && distinct es

-- the address of the first event on a descriptor
abbrev pub self_of : ℤ → List Event → Option ℕ
self_of fd [] = none
self_of fd (e ∷ es) = if eqb_ℤ e.fd fd then some e.self else self_of fd es

self-ne-absent :
    (fd : ℤ) (es : List Event) (p q : ℕ)
    → absent p es ≡ true
    → self_of fd es ≡ some q
    → (p == q) ≡ false
self-ne-absent fd [] p q a e = cc e
self-ne-absent fd (x ∷ es) p q a e = ground (arith, self-ne-absent fd es p q)

-- Taking the first event on `fd` off by its address takes no other.
drop_node-eq-drop_fd :
    (fd : ℤ) (es : List Event) (p : ℕ)
    → distinct es ≡ true
    → self_of fd es ≡ some p
    → drop_node p es ≡ drop_fd fd es
drop_node-eq-drop_fd fd [] p d e = refl
drop_node-eq-drop_fd fd (x ∷ es) p d e =
    ground (arith, drop_node-eq-drop_fd fd es p, self-ne-absent fd es x.self p)

drop_fd-none : (fd : ℤ) (es : List Event) → self_of fd es ≡ none → drop_fd fd es ≡ es
drop_fd-none fd [] e = refl
drop_fd-none fd (x ∷ es) e = ground (arith, drop_fd-none fd es)

length-drop_fd :
    (fd : ℤ) (es : List Event) (p : ℕ)
    → self_of fd es ≡ some p
    → suc (length (drop_fd fd es)) ≡ length es
length-drop_fd fd [] p e = cc e
length-drop_fd fd (x ∷ es) p e = ground (arith, length-drop_fd fd es p)

absent-drop_fd :
    (fd : ℤ) (es : List Event) (p : ℕ) → absent p es ≡ true → absent p (drop_fd fd es) ≡ true
absent-drop_fd fd [] p a = refl
absent-drop_fd fd (x ∷ es) p a = ground (arith, absent-drop_fd fd es p)

pub distinct-drop_fd :
    (fd : ℤ) (es : List Event) → distinct es ≡ true → distinct (drop_fd fd es) ≡ true
distinct-drop_fd fd [] d = refl
distinct-drop_fd fd (x ∷ es) d = ground (arith, distinct-drop_fd fd es, absent-drop_fd fd es x.self)

module _ (l : EventList) (env : Env l) where
  open l use {Head, list_add, list_del, entries, entries-add, entries-del}

  run_exit-head : (e : Event) (w : World l) → (run_exit l env e w).head ≡ w.head
  run_exit-head e w = ground arith

  run_exit-freed :
      (e : Event) (w : World l) → count freed (run_exit l env e w).log ≡ count freed w.log
  run_exit-freed e w = ground arith

  run_exit-freed_at :
      (q : ℕ) (e : Event) (w : World l)
      → count (freed_at q) (run_exit l env e w).log ≡ count (freed_at q) w.log
  run_exit-freed_at q e w = ground arith

  remove_in-freed_at :
      (q : ℕ) (fd : ℤ) (es : List Event) (w : World l)
      → count (freed_at q) (remove_in l env fd es w).log
        ≡ one_at (self_of fd es) q + count (freed_at q) w.log
  unfolding remove_in
  remove_in-freed_at q fd [] w = omega arith
  remove_in-freed_at q fd (e ∷ es) w = elim (Bool-cases (eqb_ℤ e.fd fd)) [
    | inl same ↦ rw same (
        ground (
          arith,
          run_exit-freed_at q e
              (say l env (ctl_del e.fd) (record w { head = list_del e.self w.head })),
        ))
    | inr other ↦ rw other (remove_in-freed_at q fd es w)
  ]

  run_exit-closed :
      (e : Event) (w : World l) → count closed (run_exit l env e w).log ≡ count closed w.log
  run_exit-closed e w = ground arith

  remove_in_lem :
      (fd : ℤ) (es : List Event) (w : World l)
      → ((self_of fd es ≡ none) × (remove_in l env fd es w ≡ w))
        ⊎ ((p : ℕ) × (self_of fd es ≡ some p)
            × ((remove_in l env fd es w).head ≡ list_del p w.head)
            × (count freed (remove_in l env fd es w).log ≡ suc (count freed w.log)))
  unfolding remove_in
  remove_in_lem fd [] w = inl (refl, refl)
  remove_in_lem fd (e ∷ es) w = elim (Bool-cases (eqb_ℤ e.fd fd)) [
    | inl same ↦ rw same (inr (e.self, refl, run_exit-head e _, ap suc (run_exit-freed e _)))
    | inr other ↦ rw other (remove_in_lem fd es w)
  ]

  -- On a list where no two events stand at one address, `wm_epoll_remove` returns 0 and takes off
  -- the first event on the descriptor, and no other; its block is freed once if there is such an
  -- event, and no block otherwise.
  pub remove-entries :
      (fd : ℤ) (w : World l)
      → distinct (entries w.head) ≡ true
      → ((remove l env true fd w).0 ≡ pos 0)
        × (entries (remove l env true fd w).1.head ≡ drop_fd fd (entries w.head))
        × (count freed (remove l env true fd w).1.log + length (drop_fd fd (entries w.head))
            ≡ count freed w.log + length (entries w.head))
        × ((q : ℕ)
            → count (freed_at q) (remove l env true fd w).1.log
              ≡ one_at (self_of fd (entries w.head)) q + count (freed_at q) w.log)
  unfolding remove
  remove-entries fd w d = elim (remove_in_lem fd (entries w.head) w) [
    | inl (missing, same) ↦
        rw (same, drop_fd-none fd (entries w.head) missing)
          (refl, refl, refl, λ q. rw missing (omega arith))
    | inr (p, found, taken, block) ↦ (
      refl,
      ap entries taken ∙ entries-del p w.head ∙ drop_node-eq-drop_fd fd (entries w.head) p d found,
      omega (arith, block, length-drop_fd fd (entries w.head) p found),
      λ q. remove_in-freed_at q fd (entries w.head) w,
    )
  ]

  abbrev unlinked : Event → World l → World l
  unlinked e w = say l env (ctl_del e.fd) (record w { head = list_del e.self w.head })

  rest_of :
      (e : Event) (es : List Event) (w : World l)
      → entries w.head ≡ e ∷ es
      → entries (drop_event l env e w).head ≡ es
  unfolding drop_event
  rest_of e es w h =
      ap entries (run_exit-head e (unlinked e w)) ∙ entries-del e.self w.head ∙ rw h (first e es)
    where
      first : (e : Event) (es : List Event) → drop_node e.self (e ∷ es) ≡ es
      first e es = ground arith

  drop_all_lem :
      (es : List Event) (w : World l)
      → entries w.head ≡ es
      → (entries (drop_all l env es w).head ≡ [])
        × (count freed (drop_all l env es w).log ≡ count freed w.log + length es)
        × (count closed (drop_all l env es w).log ≡ count closed w.log + length es)
  unfolding drop_all drop_event
  drop_all_lem [] w h = (h, omega arith, omega arith)
  drop_all_lem (e ∷ es) w h =
      let (gone, blocks, files) = drop_all_lem es (drop_event l env e w) (rest_of e es w h) in
      (
        gone,
        omega (arith, blocks, run_exit-freed e (unlinked e w)),
        omega (arith, files, run_exit-closed e (unlinked e w)),
      )

  -- `wm_epoll_destroy` of a handle returns 0 and leaves an empty list. It frees one block for each
  -- event that was listed and one for the handle, and closes as many descriptors.
  pub destroy-entries :
      (p : ℕ) (w : World l)
      → (p == 0) ≡ false
      → ((destroy l env p w).0 ≡ pos 0)
        × (entries (destroy l env p w).1.head ≡ [])
        × (count freed (destroy l env p w).1.log ≡ count freed w.log + length (entries w.head) + 1)
        × (count closed (destroy l env p w).1.log
            ≡ count closed w.log + length (entries w.head) + 1)
  unfolding destroy
  destroy-entries p w given =
      let (gone, blocks, files) = drop_all_lem (entries w.head) w refl in
      rw given (refl, gone, omega (arith, blocks), omega (arith, files))
