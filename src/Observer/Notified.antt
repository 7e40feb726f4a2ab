-- ===== src/Observer/Notified.antt =====
-- `Notify`: who is told, of what, and what it returns.
use wkc.Common.{
  ℕ, ℤ, pos, is_zero, length, ◌≡◌, refl, ap, ap₂, true, false, not, ◌&&◌, List, [], ◌∷◌, map, arith,
  ◌==◌, if◌then◌else◌, Bool-cases, inl, inr, ◌⊎◌,
}
use wkc.Message.{Mesg, Env, Heap, blank, set_cb_id, assign}
use wkc.Message.Copied.{copy_msg-Outcome}
use wkc.Observer.{Element, wants, count, notify_each, notify, copy_for, err_size_not_set}

length-map : {A B : Type 0} (f : A → B) (xs : List A) → length (map f xs) ≡ length xs
length-map f [] = refl
length-map f (x ∷ xs) = omega (arith, length-map f xs)

module _ {K : Type 0} where
  -- the elements that want a message, in their order
  abbrev pub wanting : ℕ → List (Element K) → List (Element K)
  wanting id [] = []
  wanting id (e ∷ es) = if wants id e then e ∷ wanting id es else wanting id es

  count-wanting : (id : ℕ) (es : List (Element K)) → count id es ≡ length (wanting id es)
  unfolding count
  count-wanting id [] = refl
  count-wanting id (e ∷ es) = ground (arith, count-wanting id es)

-- an observer, the message's number and the observer's own number
abbrev pub Label : Type 0 → Type 0
Label K = K × ℕ × ℕ

module _ {K : Type 0} where
  abbrev pub label_of : ℕ → Element K → Label K
  label_of id e = (e.who, id, e.cb_id)

  abbrev pub label : K × Mesg → Label K
  label (k, m) = (k, m.msg_id, m.cb_id)

module _ {K W : Type 0} (env : Env) (heap : W → Heap) (with_heap : Heap → W → W)
    (deliver : K → Mesg → W → ℤ × Mesg × W) where
  copy_for-label :
      (e : Element K) (m : Mesg) (w : W)
      → label (e.who, (copy_for env heap with_heap deliver (set_cb_id e.cb_id m) w).0)
        ≡ label_of m.msg_id e
  unfolding assign
  copy_for-label e m w =
      let same = (copy_msg-Outcome env blank (set_cb_id e.cb_id m) (heap w)).0 in
      ap₂ (λ (i c : ℕ). (e.who, i, c)) same.msg_id same.cb_id

  notify_each-labels :
      (es : List (Element K)) (rc : ℤ) (m : Mesg) (w : W)
      → let (_, m', _, told) = notify_each env heap with_heap deliver es rc m w in
        (map label told ≡ map (label_of m.msg_id) (wanting m.msg_id es)) × (m'.msg_id ≡ m.msg_id)
  unfolding notify_each
  notify_each-labels [] rc m w = (refl, refl)
  notify_each-labels (e ∷ es) rc m w = elim (Bool-cases (wants m.msg_id e)) [
    | inl told ↦
        let m1 = set_cb_id e.cb_id m in
        let (tmp, w1) = copy_for env heap with_heap deliver m1 w in
        let (rc1, _, w2) = deliver e.who tmp w1 in
        let (rest, same) = notify_each-labels es rc1 m1 w2 in
        rw (told, notify_each) (ap₂ ◌∷◌ (copy_for-label e m w) rest, same)
    | inr passed ↦ rw (passed, notify_each) (notify_each-labels es rc m w)
  ]

  -- `Notify` of a message returns ERR_OBS_MSG_SIZE_NOT_SET, and tells nobody, if the message has a
  -- block and no size. Otherwise it tells the observers that want the message, in the order of the
  -- list, each once for each of its elements, by a message with the number of the one that is sent
  -- and with the number that the observer gave; as many as `Count` says.
  pub notify-labels :
      (es : List (Element K)) (m : Mesg) (w : W)
      → let (x, m', w', told) = notify env heap with_heap deliver false es m w in
        ((not (m.ptr == 0) && is_zero m.size ≡ true) × (x ≡ err_size_not_set) × (told ≡ []))
        ⊎ ((not (m.ptr == 0) && is_zero m.size ≡ false)
            × (map label told ≡ map (label_of m.msg_id) (wanting m.msg_id es))
            × (length told ≡ count m.msg_id es))
  unfolding notify
  notify-labels es m w = elim (Bool-cases (not (m.ptr == 0) && is_zero m.size)) [
    | inl no_size ↦ rw no_size (inl (refl, refl, refl))
    | inr fit ↦
        let labels = (notify_each-labels es (pos 0) m w).0 in
        rw fit (
          inr (
            refl,
            labels,
            omega (
              arith,
              ap length labels,
              length-map label (notify_each env heap with_heap deliver es (pos 0) m w).3,
              length-map (label_of m.msg_id) (wanting m.msg_id es),
              count-wanting m.msg_id es,
            ),
          ))
  ]
