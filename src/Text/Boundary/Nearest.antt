-- ===== src/Text/Boundary/Nearest.antt =====
-- zc_text_boundary of src/client/bridge.c, to the right: the first cursor position after another.
use zimbr.Prelude.Int.{pos, ltb_ℤ}
use zimbr.Prelude.{
  ℕ, suc, ◌+◌, ◌≤◌, ◌<◌, ◌≡◌, refl, sym, subst, Bool, true, false, ◌||◌, List, [], ◌∷◌, ◌==◌, ltb,
  ltb→lt, ltb→le, if◌then◌else◌, All, Option, none, some, ◌⊎◌, Bool-cases, inl, inr, arith,
}
use zimbr.Text.Boundary.{Stop, scan, boundary}

-- the cursor positions of a text, from an offset on
abbrev pub cursors : List Stop → ℕ → List ℕ
cursors [] at = []
cursors (s ∷ stops) at =
    if s.is_cursor_position then at ∷ cursors stops (at + s.width) else cursors stops (at + s.width)

abbrev pub member : ℕ → List ℕ → Bool
member r [] = false
member r (c ∷ cs) = (c == r) || member r cs

All-map {ℓ κ} :
    {A : Type ℓ} {P Q : A → Type κ} (f : (a : A) → P a → Q a) (xs : List A) → All P xs → All Q xs
All-map f [] h = tt
All-map f (x ∷ xs) h = (f x h.0, All-map f xs h.1)

cursors-above : (stops : List Stop) (at : ℕ) → All (λ c. at ≤ c) (cursors stops at)
cursors-above [] at = tt
cursors-above (s ∷ stops) at =
    let rest =
      All-map (λ c h. later at s.width c h) (cursors stops (at + s.width))
        (cursors-above stops (at + s.width)) in
    elim (Bool-cases s.is_cursor_position) [ inl e ↦ rw e (omega arith, rest) | inr e ↦ rw e rest ]
  where
    later : (a w c : ℕ) → a + w ≤ c → a ≤ c
    later a w c h = omega arith

-- r is the first cursor position after `position`, or there is none and r is the end
abbrev pub IsNext : ℕ → ℕ → ℕ → List ℕ → Type 0
IsNext position size r cs =
    All (λ c. (c ≤ position) ⊎ (r ≤ c)) cs
    × (((position < r) × (member r cs ≡ true)) ⊎ ((r ≡ size) × All (λ c. c ≤ position) cs))

not_back : (d : ℕ) → ltb_ℤ (pos (suc d)) (pos 0) ≡ false
not_back d = ground arith

forth : (d : ℕ) → ltb_ℤ (pos 0) (pos (suc d)) ≡ true
forth d = ground arith

module _ (d position size : ℕ) (s : Stop) (stops : List Stop) (at prev : ℕ) where
  abbrev whole : ℕ
  whole = scan (pos (suc d)) position size (s ∷ stops) at prev

  stops_here : s.is_cursor_position ≡ true → ltb position at ≡ true → whole ≡ at
  unfolding scan
  stops_here e f = rw (e, not_back d, forth d, f) refl

  goes_on :
      s.is_cursor_position ≡ true
      → ltb position at ≡ false
      → whole ≡ scan (pos (suc d)) position size stops (at + s.width) at
  unfolding scan
  goes_on e f = rw (e, not_back d, forth d, f) refl

  passes :
      s.is_cursor_position ≡ false
      → whole ≡ scan (pos (suc d)) position size stops (at + s.width) prev
  unfolding scan
  passes e = rw e refl

at_cursor :
    (s : Stop) (stops : List Stop) (at : ℕ)
    → s.is_cursor_position ≡ true
    → cursors (s ∷ stops) at ≡ at ∷ cursors stops (at + s.width)
at_cursor s stops at e = rw e refl

past_it :
    (s : Stop) (stops : List Stop) (at : ℕ)
    → s.is_cursor_position ≡ false
    → cursors (s ∷ stops) at ≡ cursors stops (at + s.width)
past_it s stops at e = rw e refl

member_later : (r c : ℕ) (cs : List ℕ) → member r cs ≡ true → member r (c ∷ cs) ≡ true
member_later r c cs h = ground arith

here : (c : ℕ) (cs : List ℕ) → member c (c ∷ cs) ≡ true
here c cs = ground arith

stops_first :
    (position size at w : ℕ) (stops : List Stop)
    → position < at
    → IsNext position size at (at ∷ cursors stops (at + w))
stops_first position size at w stops h = (
  (
    inr (omega arith),
    All-map (λ c k. inr (nearer at w c k)) (cursors stops (at + w)) (cursors-above stops (at + w)),
  ),
  inl (h, here at (cursors stops (at + w))),
)
  where
    nearer : (a w c : ℕ) → a + w ≤ c → a ≤ c
    nearer a w c k = omega arith

skip_before :
    (position size r at : ℕ) (cs : List ℕ)
    → at ≤ position
    → IsNext position size r cs
    → IsNext position size r (at ∷ cs)
skip_before position size r at cs h (a, inl (lt, m)) =
    ((inl h, a), inl (lt, member_later r at cs m))
skip_before position size r at cs h (a, inr (e, b)) = ((inl h, a), inr (e, (h, b)))

scan-IsNext :
    (d position size : ℕ) (stops : List Stop) (at prev : ℕ)
    → IsNext position size (scan (pos (suc d)) position size stops at prev) (cursors stops at)
scan-IsNext d position size [] at prev = unfold scan in (tt, inr (refl, tt))
scan-IsNext d position size (s ∷ stops) at prev = elim (Bool-cases s.is_cursor_position) [
  | inl e ↦
      subst (IsNext position size (whole d position size s stops at prev))
        (sym (at_cursor s stops at e))
        (elim (Bool-cases (ltb position at)) [
          | inl f ↦
              subst (λ r. IsNext position size r (at ∷ cursors stops (at + s.width)))
                (sym (stops_here d position size s stops at prev e f))
                (stops_first position size at s.width stops (ltb→lt position at f))
          | inr f ↦
              subst (λ r. IsNext position size r (at ∷ cursors stops (at + s.width)))
                (sym (goes_on d position size s stops at prev e f))
                (skip_before position size
                  (scan (pos (suc d)) position size stops (at + s.width) at) at
                  (cursors stops (at + s.width)) (ltb→le position at f)
                  (scan-IsNext d position size stops (at + s.width) at))
        ])
  | inr e ↦
      subst (IsNext position size (whole d position size s stops at prev))
        (sym (past_it s stops at e))
        (subst (λ r. IsNext position size r (cursors stops (at + s.width)))
          (sym (passes d position size s stops at prev e))
          (scan-IsNext d position size stops (at + s.width) prev))
]

-- what a step to the right from `position` gives
abbrev pub IsRight : ℕ → ℕ → Option (List Stop) → ℕ → Type 0
IsRight position size none r = r ≡ position
IsRight position size (some stops) r = IsNext position size r (cursors stops 0)

-- To the right of a position, in a text that is UTF-8, the boundary is the first cursor position
-- after it: each cursor position is at most the position or at least the boundary, and the boundary
-- is a cursor position after it, or the size of the text where there is none. In a text that is not
-- UTF-8 the boundary is the position itself.
pub boundary-IsRight :
    (text : Option (List Stop)) (size position d : ℕ)
    → IsRight position size text (boundary text size position (pos (suc d)))
unfolding boundary
boundary-IsRight none size position d = refl
boundary-IsRight (some stops) size position d = scan-IsNext d position size stops 0 0
