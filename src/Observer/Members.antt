-- ===== src/Observer/Members.antt =====
-- The lists of observers under `Add`, `Del`, `IsHas` and `Count`.
use wkc.Common.{
  ℕ, ◌+◌, ◌≤◌, ◌≡◌, ◌⊎◌, refl, Bool, true, false, ◌&&◌, List, [], ◌∷◌, arith, ◌==◌, if◌then◌else◌,
  Bool-cases, inl, inr, ◌↔◌,
}
use wkc.Observer.{Element, count, is_has, add_element, del_element}

module _ {K : Type 0} (same : K → K → Bool) where
  -- an element for exactly this observer and message
  abbrev pub exact : K → ℕ → Element K → Bool
  exact who id e = same e.who who && e.msg_id == id

  -- how many such elements there are
  abbrev pub times : K → ℕ → List (Element K) → ℕ
  times who id [] = 0
  times who id (e ∷ es) = (if exact who id e then 1 else 0) + times who id es

module _ {K : Type 0} (same : K → K → Bool) (same_refl : (k : K) → same k k ≡ true) where
  is_has-times :
      (who : K) (id : ℕ) (es : List (Element K))
      → is_has same who id es ≡ false
      → (times same who id es ≡ 0) × (times same who 0 es ≡ 0)
  unfolding is_has
  is_has-times who id [] h = (refl, refl)
  is_has-times who id (e ∷ es) h = ground (arith, is_has-times who id es)

  times-is_has :
      (who : K) (id : ℕ) (es : List (Element K))
      → times same who id es ≡ 0
      → times same who 0 es ≡ 0
      → is_has same who id es ≡ false
  unfolding is_has
  times-is_has who id [] h z = refl
  times-is_has who id (e ∷ es) h z = ground (arith, times-is_has who id es)

  times-del :
      (who : K) (id : ℕ) (es : List (Element K))
      → times same who id (del_element same who id es) ≡ 0
  unfolding del_element
  times-del who id [] = refl
  times-del who id (e ∷ es) = ground (arith, times-del who id es)

  -- `IsHas` answers false exactly if the list has no element for this observer and this message,
  -- and none for this observer and every message.
  pub is_has_iff :
      (who : K) (id : ℕ) (es : List (Element K))
      → (is_has same who id es ≡ false) ↔ ((times same who id es ≡ 0) × (times same who 0 es ≡ 0))
  is_has_iff who id es = (is_has-times who id es, λ none_. times-is_has who id es none_.0 none_.1)

  is_has-add :
      (who : K) (id cb : ℕ) (es : List (Element K))
      → is_has same who id (add_element same who id cb es) ≡ true
  unfolding add_element is_has
  is_has-add who id cb es = elim (Bool-cases (is_has same who id es)) [
    | inl had ↦ rw had had
    | inr new ↦ rw (new, same_refl who) (ground arith)
  ]

  times-add :
      (who : K) (id cb : ℕ) (es : List (Element K))
      → times same who id es ≤ 1
      → times same who id (add_element same who id cb es) ≤ 1
  unfolding add_element
  times-add who id cb es small = ground (arith, is_has-times who id es)

  del-none :
      (who : K) (id : ℕ) (es : List (Element K))
      → times same who id es ≡ 0
      → del_element same who id es ≡ es
  unfolding del_element
  del-none who id [] z = refl
  del-none who id (e ∷ es) z = ground (arith, del-none who id es)

  del-add :
      (who : K) (id cb : ℕ) (es : List (Element K))
      → is_has same who id es ≡ false
      → del_element same who id (add_element same who id cb es) ≡ es
  unfolding add_element del_element
  del-add who id cb es new =
      rw (new, same_refl who) (ground (arith, del-none who id es, is_has-times who id es new))

  -- On a list with at most one element for an observer and a message, `Add` of the two leaves the
  -- observer there, with at most one such element; a `Del` of the two then leaves none, and where
  -- `IsHas` answered false before the two calls the list is as it was.
  pub add-del :
      (who : K) (id cb : ℕ) (es : List (Element K))
      → times same who id es ≤ 1
      → let added = add_element same who id cb es in
        let gone = del_element same who id added in
        (is_has same who id added ≡ true)
        × (times same who id added ≤ 1)
        × (times same who id gone ≡ 0)
        × ((is_has same who id es ≡ true) ⊎ (gone ≡ es))
  add-del who id cb es small = (
    is_has-add who id cb es,
    times-add who id cb es small,
    times-del who id (add_element same who id cb es),
    elim (Bool-cases (is_has same who id es)) [
      | inl had ↦ inl had
      | inr new ↦ inr (del-add who id cb es new)
    ],
  )

  -- The order of two additions counts: for an observer that is not on the list, after `Add` for a
  -- message that is not 0 and then for every message, that message has two elements more; after the
  -- two in the other order it has one more.
  pub count-add_order :
      (who : K) (id cb : ℕ) (es : List (Element K))
      → (id == 0) ≡ false
      → times same who id es ≡ 0
      → times same who 0 es ≡ 0
      → (count id (add_element same who 0 cb (add_element same who id cb es)) ≡ count id es + 2)
        × (count id (add_element same who id cb (add_element same who 0 cb es)) ≡ count id es + 1)
  unfolding add_element count is_has
  count-add_order who id cb es some_id z z0 =
      rw (times-is_has who id es z z0, times-is_has who 0 es z0 z0, same_refl who, some_id)
        (ground arith, ground arith)
