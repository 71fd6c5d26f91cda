-- ===== src/Text/Hit/First.antt =====
-- The binary search finds the first line whose part of the page reaches below the point.
use zimbr.Prelude.Int.{ℤ, pos, ◌+ℤ◌, ◌≤ℤ◌, ltb_ℤ, int_laws}
use zimbr.Prelude.{
  ℕ, zero, suc, ◌+◌, ◌-◌, ◌≤◌, ◌<◌, ◌≡◌, sym, subst, Bool, true, false, some, List, [], ◌∷◌, ltb,
  ltb→lt, ltb→le, Bool-cases, inl, inr, All, length, get_or, arith,
}
use zimbr.Text.Measure.{TextLine, Shaped, Font, measure}
use zimbr.Text.Measure.Stacked.{IsFont, IsStacked, IsUnclipped, bottom, measure-IsLayout}
use zimbr.Text.Hit.{half, middle, search, reaches, blank, hit_line}

-- The test fails before r, and holds at r unless r is the last index.
abbrev pub IsFirst : (ℕ → Bool) → ℕ → ℕ → Type 0
IsFirst holds last r =
    (r ≤ last) × ((i : ℕ) → i < r → holds i ≡ false) × (r < last → holds r ≡ true)

middle_bounds : (lo hi : ℕ) → lo < hi → (lo ≤ middle lo hi) × (middle lo hi < hi)
unfolding middle
middle_bounds lo hi h = (grind arith, grind arith)

abbrev IsMonotone : (ℕ → Bool) → ℕ → Type 0
IsMonotone holds last = (i j : ℕ) → i ≤ j → j ≤ last → holds i ≡ true → holds j ≡ true

false_below :
    (holds : ℕ → Bool) (last m : ℕ)
    → IsMonotone holds last
    → m ≤ last
    → holds m ≡ false
    → (i : ℕ) → i < suc m
    → holds i ≡ false
false_below holds last m mono hm e i hi = elim (Bool-cases (holds i)) [
  | inl t ↦ (let u : holds m ≡ true = mono i m (omega arith) hm t in cc)
  | inr f ↦ f
]

search-IsFirst :
    (holds : ℕ → Bool) (last : ℕ)
    → IsMonotone holds last
    → (fuel lo hi : ℕ) → lo ≤ hi
    → hi ≤ last
    → hi ≤ lo + fuel
    → ((i : ℕ) → i < lo → holds i ≡ false)
    → (hi < last → holds hi ≡ true)
    → IsFirst holds last (search holds fuel lo hi)
unfolding search
search-IsFirst holds last mono zero lo hi le top enough low high =
    let e : lo ≡ hi = omega arith in
    (omega arith, low, subst (λ k. k < last → holds k ≡ true) (sym e) high)
search-IsFirst holds last mono (suc fuel) lo hi le top enough low high =
    let again = search-IsFirst holds last mono fuel in
    let b = middle_bounds lo hi in
    elim (Bool-cases (ltb lo hi)) [
      | inl t ↦ elim (Bool-cases (holds (middle lo hi))) [
        | inl f ↦
            rw (t, f)
              (again lo (middle lo hi) (b (ltb→lt lo hi t)).0
                (omega (arith, (b (ltb→lt lo hi t)).1)) (omega (arith, (b (ltb→lt lo hi t)).1)) low
                (λ h. f))
        | inr f ↦
            rw (t, f)
              (again (suc (middle lo hi)) hi (omega (arith, (b (ltb→lt lo hi t)).1)) top
                (omega (arith, (b (ltb→lt lo hi t)).0))
                (false_below holds last (middle lo hi) mono (omega (arith, (b (ltb→lt lo hi t)).1))
                  f)
                high)
      ]
      | inr t ↦
          let e : lo ≡ hi = omega (arith, ltb→le lo hi t) in
          rw t (omega arith, low, subst (λ k. k < last → holds k ≡ true) (sym e) high)
    ]

-- The first of stacked lines starts where they start.
first_top :
    (spacing y : ℤ) (k : TextLine) (ks : List TextLine) (end : ℤ)
    → IsStacked spacing y (k ∷ ks) end
    → y ≤ℤ k.logical.y
first_top spacing y k [] end st = subst (λ z. y ≤ℤ z) (sym st.0) (omega int_laws)
first_top spacing y k (j ∷ js) end st = subst (λ z. y ≤ℤ z) (sym st.0) (omega int_laws)

module _ (spacing : ℤ) (s : pos 0 ≤ℤ spacing) where
  -- Stacked lines end one below the other.
  stacked_below :
      (y : ℤ) (l : TextLine) (ls : List TextLine) (end : ℤ) (i : ℕ)
      → IsStacked spacing y (l ∷ ls) end
      → All IsUnclipped (l ∷ ls)
      → i < suc (length ls)
      → bottom l ≤ℤ bottom (get_or (l ∷ ls) i blank)
  stacked_below y l ls end zero st all h = omega int_laws
  stacked_below y l [] end (suc i) st all h = absurd (omega arith)
  stacked_below y l (k ∷ ks) end (suc i) st all h = omega (
    int_laws,
    stacked_below (bottom l +ℤ spacing) k ks end i st.1 all.1 (omega arith),
    all.1.0.tall,
    first_top spacing (bottom l +ℤ spacing) k ks end st.1,
    s,
  )

  stacked_order :
      (y : ℤ) (ls : List TextLine) (end : ℤ) (i j : ℕ)
      → IsStacked spacing y ls end
      → All IsUnclipped ls
      → i ≤ j
      → j ≤ length ls - 1
      → bottom (get_or ls i blank) ≤ℤ bottom (get_or ls j blank)
  stacked_order y [] end i j st all le h = omega int_laws
  stacked_order y (l ∷ ls) end zero j st all le h =
      stacked_below y l ls end j st all (omega (arith, h))
  stacked_order y (l ∷ ls) end (suc i) zero st all le h = absurd (omega arith)
  stacked_order y (l ∷ []) end (suc i) (suc j) st all le h = absurd (omega arith)
  stacked_order y (l ∷ k ∷ ks) end (suc i) (suc j) st all le h =
      stacked_order (bottom l +ℤ spacing) (k ∷ ks) end i j st.1 all.1 (omega arith) (omega arith)

ltb_ℤ_trans : (a b c : ℤ) → ltb_ℤ a b ≡ true → b ≤ℤ c → ltb_ℤ a c ≡ true
ltb_ℤ_trans a b c h k = ground arith

reaches_below :
    (spacing py : ℤ) (l k : TextLine)
    → bottom l ≤ℤ bottom k
    → reaches spacing py l ≡ true
    → reaches spacing py k ≡ true
unfolding reaches
reaches_below spacing py l k h t =
    ltb_ℤ_trans py (bottom l +ℤ half spacing) (bottom k +ℤ half spacing) t (omega (int_laws, h))

-- On the lines of a measured layout, whose font has no negative metrics, a point is hit to the
-- first line whose bottom, with half of the gap that follows, is below it, and to the last line
-- where there is none: no earlier line reaches below the point.
pub hit_line-IsFirst :
    (font : Font) (shaped : List Shaped) (y py : ℤ) (lines : List TextLine) (end : ℤ)
    → IsFont font
    → measure font shaped y ≡ some (lines, end)
    → IsFirst
        (λ i. reaches font.spacing py (get_or lines i blank))
        (length lines - 1)
        (hit_line font.spacing lines py)
unfolding hit_line
hit_line-IsFirst font shaped y py lines end f h =
    let m = measure-IsLayout font f shaped y lines end h in
    search-IsFirst (λ i. reaches font.spacing py (get_or lines i blank)) (length lines - 1)
      (λ i j le lt.
        reaches_below font.spacing py (get_or lines i blank) (get_or lines j blank)
          (stacked_order font.spacing f.spacing y lines end i j m.1 m.2 le lt))
      (length lines - 1) 0 (length lines - 1) (omega arith) (omega arith) (omega arith)
      (λ i lt. absurd (omega arith)) (λ lt. absurd (omega arith))
