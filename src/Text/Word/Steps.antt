-- ===== src/Text/Word/Steps.antt =====
-- zc_text_word_hit of src/client/bridge.c: the steps between cursor positions, and the loops.
use zimbr.Prelude.{
  ℕ, zero, suc, ◌+◌, ◌-◌, ◌≤◌, ◌<◌, ◌≡◌, refl, sym, subst, Bool, true, false, ltb, ltb→lt, ltb→le,
  leb, ◌⊎◌, Bool-cases, inl, inr, arith,
}
use zimbr.Text.Word.{back_to, next_from, step_right, extend_left, extend_right}

weaken : (i x : ℕ) → suc i < x → i < x
weaken i x h = omega (arith, h)

pub at_most : (a b : ℕ) → leb a b ≡ true → a ≤ b
at_most a b h = ground arith

top : (j i : ℕ) → j ≤ suc i → leb j i ≡ false → suc i ≡ j
top j i h k = ground arith

module _ (cursor : ℕ → Bool) where
  -- a place where a selection may start, and one where it may end
  abbrev pub IsStart : ℕ → Type 0
  IsStart i = (i ≡ 0) ⊎ (cursor i ≡ true)

  abbrev pub IsStop : ℕ → ℕ → Type 0
  IsStop size i = (i ≡ size) ⊎ (cursor i ≡ true)

  pub back_to-IsStart : (i : ℕ) → (back_to cursor i ≤ i) × IsStart (back_to cursor i)
  unfolding back_to
  back_to-IsStart zero = (omega arith, inl refl)
  back_to-IsStart (suc i) = elim (Bool-cases (cursor (suc i))) [
    | inl e ↦ rw e (omega arith, inr e)
    | inr e ↦ let h = back_to-IsStart i in rw e (omega (arith, h.0), h.1)
  ]

  -- no cursor position lies between
  pub back_to-none : (i j : ℕ) → back_to cursor i < j → j ≤ i → cursor j ≡ false
  unfolding back_to
  back_to-none zero j h k = absurd (omega arith)
  back_to-none (suc i) j h k = elim (Bool-cases (cursor (suc i))) [
    | inl e ↦ (let l : suc i < j = (rw e at h) in absurd (omega (arith, l)))
    | inr e ↦ elim (Bool-cases (leb j i)) [
      | inl f ↦ back_to-none i j (rw e at h) (at_most j i f)
      | inr f ↦ subst (λ x. cursor x ≡ false) (top j i k f) e
    ]
  ]

  next_from-IsStop :
      (size left i : ℕ)
      → i + suc left ≡ size
      → (i < next_from cursor (suc left) i)
        × (next_from cursor (suc left) i ≤ size)
        × IsStop size (next_from cursor (suc left) i)
  unfolding next_from
  next_from-IsStop size zero i h = elim (Bool-cases (cursor (suc i))) [
    | inl e ↦ rw e (omega arith, omega arith, inr e)
    | inr e ↦ rw e (omega arith, omega arith, inl (omega arith))
  ]
  next_from-IsStop size (suc left) i h = elim (Bool-cases (cursor (suc i))) [
    | inl e ↦ rw e (omega arith, omega arith, inr e)
    | inr e ↦
        let k = next_from-IsStop size left (suc i) (omega arith) in
        rw e (weaken i (next_from cursor (suc left) (suc i)) k.0, k.1, k.2)
  ]

  pub step_right-IsStop :
      (size i : ℕ)
      → i < size
      → (i < step_right cursor size i)
        × (step_right cursor size i ≤ size)
        × IsStop size (step_right cursor size i)
  unfolding step_right
  step_right-IsStop size i h =
      let e : size - i ≡ suc (size - i - 1) = omega arith in
      rw e (next_from-IsStop size (size - i - 1) i (omega arith))

  pub next_from-none : (left i j : ℕ) → i < j → j < next_from cursor left i → cursor j ≡ false
  unfolding next_from
  next_from-none zero i j h k = absurd (omega (arith, h, k))
  next_from-none (suc left) i j h k = elim (Bool-cases (cursor (suc i))) [
    | inl e ↦ (let l : j < suc i = (rw e at k) in absurd (omega (arith, h, l)))
    | inr e ↦ elim (Bool-cases (leb j (suc i))) [
      | inl f ↦ subst (λ x. cursor x ≡ false) (sym (next_of j i h f)) e
      | inr f ↦ next_from-none left (suc i) j (past_of j (suc i) f) (rw e at k)
    ]
  ]
    where
      next_of : (a b : ℕ) → b < a → leb a (suc b) ≡ true → a ≡ suc b
      next_of a b h k = ground arith

      past_of : (a b : ℕ) → leb a b ≡ false → b < a
      past_of a b k = ground arith

  -- the clusters from `l` to before `r` are all of the class
  abbrev pub AreSame : (ℕ → Bool) → ℕ × ℕ → Type 0
  AreSame same r = (j : ℕ) → r.0 ≤ j → j < r.1 → IsStart j → same j ≡ true

  pub AreSame-cluster :
      (same : ℕ → Bool) (i k : ℕ)
      → same i ≡ true
      → ((j : ℕ) → i < j → j < k → cursor j ≡ false)
      → AreSame same (i, k)
  AreSame-cluster same i k here none j le lt s = elim (Bool-cases (leb j i)) [
    | inl e ↦ subst (λ x. same x ≡ true) (equal_of j i le e) here
    | inr e ↦ elim s [
      | inl z ↦ absurd (omega (arith, z, above_of j i e))
      | inr c ↦ absurd (clash_of (cursor j) c (none j (above_of j i e) lt))
    ]
  ]
    where
      equal_of : (a b : ℕ) → b ≤ a → leb a b ≡ true → b ≡ a
      equal_of a b h k = ground arith

      above_of : (a b : ℕ) → leb a b ≡ false → b < a
      above_of a b k = ground arith

      clash_of : (b : Bool) → b ≡ true → b ≡ false → ⊥
      clash_of b f g = cc

  pub AreSame-append :
      (same : ℕ → Bool) (l m r : ℕ)
      → AreSame same (l, m)
      → AreSame same (m, r)
      → AreSame same (l, r)
  AreSame-append same l m r a b j le lt s = elim (Bool-cases (ltb j m)) [
    | inl e ↦ a j le (ltb→lt j m e) s
    | inr e ↦ b j (ltb→le j m e) lt s
  ]

  AreSame-none : (same : ℕ → Bool) (i : ℕ) → AreSame same (i, i)
  AreSame-none same i j le lt s = absurd (omega (arith, le, lt))

  -- where the run of a class ends
  abbrev pub IsLeftEnd : (ℕ → Bool) → ℕ → Type 0
  IsLeftEnd same zero = Unit
  IsLeftEnd same (suc i) = same (back_to cursor i) ≡ false

  abbrev pub IsRightEnd : (ℕ → Bool) → ℕ → ℕ → Type 0
  IsRightEnd same size i = (i ≡ size) ⊎ (same i ≡ false)

  module _ (same : ℕ → Bool) where
    pub extend_left-IsStart :
        (fuel l : ℕ)
        → l ≤ fuel
        → IsStart l
        → (extend_left cursor same fuel l ≤ l)
          × IsStart (extend_left cursor same fuel l)
          × IsLeftEnd same (extend_left cursor same fuel l)
    unfolding extend_left
    extend_left-IsStart zero zero h s = (omega arith, s, tt)
    extend_left-IsStart zero (suc l) h s = absurd (omega arith)
    extend_left-IsStart (suc fuel) zero h s = (omega arith, inl refl, tt)
    extend_left-IsStart (suc fuel) (suc l) h s =
        let b = back_to-IsStart l in
        elim (Bool-cases (same (back_to cursor l))) [
          | inl e ↦
              let k = extend_left-IsStart fuel (back_to cursor l) (omega (arith, b.0)) b.1 in
              rw e (omega (arith, k.0, b.0), k.1, k.2)
          | inr e ↦ rw e (omega arith, s, e)
        ]

    pub extend_right-IsStop :
        (size fuel r : ℕ)
        → r ≤ size
        → size ≤ r + fuel
        → IsStop size r
        → (r ≤ extend_right cursor same size fuel r)
          × (extend_right cursor same size fuel r ≤ size)
          × IsStop size (extend_right cursor same size fuel r)
          × IsRightEnd same size (extend_right cursor same size fuel r)
    unfolding extend_right
    extend_right-IsStop size zero r h enough s = (omega arith, h, s, inl (omega arith))
    extend_right-IsStop size (suc fuel) r h enough s = elim (Bool-cases (ltb r size)) [
      | inl e ↦ elim (Bool-cases (same r)) [
        | inl f ↦
            let b = step_right-IsStop size r (ltb→lt r size e) in
            let k =
              extend_right-IsStop size fuel (step_right cursor size r) b.1 (omega (arith, b.0))
                b.2 in
            rw (e, f) (omega (arith, k.0, b.0), k.1, k.2, k.3)
        | inr f ↦ rw (e, f) (omega arith, h, s, inr f)
      ]
      | inr e ↦ rw e (omega arith, h, s, inl (omega (arith, ltb→le r size e)))
    ]

    pub extend_left-AreSame : (fuel l : ℕ) → AreSame same (extend_left cursor same fuel l, l)
    unfolding extend_left
    extend_left-AreSame zero l = AreSame-none same l
    extend_left-AreSame (suc fuel) zero = AreSame-none same zero
    extend_left-AreSame (suc fuel) (suc l) = elim (Bool-cases (same (back_to cursor l))) [
      | inl e ↦ rw e (
          AreSame-append same (extend_left cursor same fuel (back_to cursor l)) (back_to cursor l)
            (suc l) (extend_left-AreSame fuel (back_to cursor l))
            (AreSame-cluster same (back_to cursor l) (suc l) e
              (λ j h k. back_to-none l j h (omega (arith, k)))))
      | inr e ↦ rw e (AreSame-none same (suc l))
    ]

    pub extend_right-AreSame :
        (size fuel r : ℕ) → AreSame same (r, extend_right cursor same size fuel r)
    unfolding extend_right step_right
    extend_right-AreSame size zero r = AreSame-none same r
    extend_right-AreSame size (suc fuel) r = elim (Bool-cases (ltb r size)) [
      | inl e ↦ elim (Bool-cases (same r)) [
        | inl f ↦
            let next = step_right cursor size r in
            rw (e, f)
              (AreSame-append same r next (extend_right cursor same size fuel next)
                (AreSame-cluster same r next f (next_from-none (size - r) r))
                (extend_right-AreSame size fuel next))
        | inr f ↦ rw (e, f) (AreSame-none same r)
      ]
      | inr e ↦ rw e (AreSame-none same r)
    ]
