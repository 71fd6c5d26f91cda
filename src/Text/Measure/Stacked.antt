-- ===== src/Text/Measure/Stacked.antt =====
-- The displayed lines follow one another without overlap, and no glyph is clipped.
use zimbr.Prelude.Int.{ℤ, pos, ◌+ℤ◌, ◌-ℤ◌, ◌≤ℤ◌, ltb_ℤ, int_laws}
use zimbr.Prelude.{
  ℕ, suc, ap, ◌≡◌, refl, subst, true, false, some, List, [], ◌∷◌, >>=-eq-some, some_inj,
  else-eq-some, else_false, All, arith, length,
}
use zimbr.Text.Measure.{
  Shaped, TextLine, Font, int_max, max_ℤ, above, below, place, next_y, measure,
}

-- a < b on the integers, as a test
not_lt : (a b : ℤ) → ltb_ℤ a b ≡ false → b ≤ℤ a
not_lt a b h = ground arith

max_ℤ-left : (a b : ℤ) → a ≤ℤ max_ℤ a b
unfolding max_ℤ
max_ℤ-left a b = ground arith

max_ℤ-right : (a b : ℤ) → b ≤ℤ max_ℤ a b
unfolding max_ℤ
max_ℤ-right a b = ground arith

-- what Pango's metrics are
pub record IsFont (font : Font) : Type 0 where
  pub ascent : pos 0 ≤ℤ font.ascent
  pub descent : pos 0 ≤ℤ font.descent
  pub spacing : pos 0 ≤ℤ font.spacing

module _ (font : Font) (line : Shaped) where
  above-ascent : font.ascent ≤ℤ above font line
  unfolding above
  above-ascent = ground (arith, max_ℤ-left font.ascent (line.baseline -ℤ line.ink.y))

  below-descent : font.descent ≤ℤ below font line
  unfolding below
  below-descent =
      ground (arith, max_ℤ-left font.descent (line.ink.y +ℤ line.ink.height -ℤ line.baseline))

  above-ink : ltb_ℤ (pos 0) line.ink.height ≡ true → line.baseline -ℤ line.ink.y ≤ℤ above font line
  unfolding above
  above-ink e = rw e (max_ℤ-right font.ascent (line.baseline -ℤ line.ink.y))

  below-ink :
      ltb_ℤ (pos 0) line.ink.height ≡ true
      → line.ink.y +ℤ line.ink.height -ℤ line.baseline ≤ℤ below font line
  unfolding below
  below-ink e = rw e (max_ℤ-right font.descent (line.ink.y +ℤ line.ink.height -ℤ line.baseline))

-- A line whose ink, if it has any, lies in its box.
abbrev pub bottom : TextLine → ℤ
bottom line = line.logical.y +ℤ line.logical.height

pub record IsUnclipped (line : TextLine) : Type 0 where
  pub tall : pos 0 ≤ℤ line.logical.height
  pub top : ltb_ℤ (pos 0) line.ink.height ≡ true → line.logical.y ≤ℤ line.ink.y
  pub foot : ltb_ℤ (pos 0) line.ink.height ≡ true → line.ink.y +ℤ line.ink.height ≤ℤ bottom line

place-IsUnclipped :
    (font : Font) (line : Shaped) (y : ℤ) → IsFont font → IsUnclipped (place font line y)
unfolding place
place-IsUnclipped font line y f = record {
  tall = omega (int_laws, above-ascent font line, below-descent font line, f.ascent, f.descent);
  top = λ e. omega (int_laws, above-ink font line e);
  foot = λ e. omega (int_laws, below-ink font line e);
}

-- `lines` fill the space from y to `end` in order, each `spacing` below the one before.
abbrev pub IsStacked : ℤ → ℤ → List TextLine → ℤ → Type 0
IsStacked spacing y [] end = end ≡ y
IsStacked spacing y (l ∷ []) end = (l.logical.y ≡ y) × (end ≡ bottom l)
IsStacked spacing y (l ∷ k ∷ ls) end =
    (l.logical.y ≡ y) × IsStacked spacing (bottom l +ℤ spacing) (k ∷ ls) end

abbrev pub Fits : ℤ → TextLine → Type 0
Fits spacing l = bottom l +ℤ spacing ≤ℤ int_max

abbrev pub IsLayout : Font → ℕ → ℤ → List TextLine → ℤ → Type 0
IsLayout font n y lines end =
    (length lines ≡ n)
    × IsStacked font.spacing y lines end
    × All IsUnclipped lines
    × All (Fits font.spacing) lines

module _ (font : Font) (f : IsFont font) where
  bottom-place :
      (line : Shaped) (y : ℤ) → bottom (place font line y) ≡ y +ℤ above font line +ℤ below font line
  unfolding place
  bottom-place line y = omega int_laws

  place-Fits :
      (line : Shaped) (y : ℤ)
      → ltb_ℤ int_max (y +ℤ above font line +ℤ below font line +ℤ font.spacing) ≡ false
      → Fits font.spacing (place font line y)
  place-Fits line y e =
      rw (bottom-place line y)
        (not_lt int_max (y +ℤ above font line +ℤ below font line +ℤ font.spacing) e)

  -- one line on top of a layout of the rest
  add_line :
      (line : Shaped) (rest : List Shaped) (y : ℤ) (lines : List TextLine) (end : ℤ)
      → Fits font.spacing (place font line y)
      → IsLayout font (length rest) (next_y font line rest y) lines end
      → IsLayout font (suc (length rest)) y (place font line y ∷ lines) end
  unfolding next_y
  add_line line [] y [] end fit h = (
    refl,
    ((unfold place in refl), rw (bottom-place line y) h.1),
    (place-IsUnclipped font line y f, tt),
    (fit, tt),
  )
  add_line line [] y (l ∷ ls) end fit h = absurd (omega arith)
  add_line line (k ∷ ks) y [] end fit h = absurd (omega arith)
  add_line line (k ∷ ks) y (l ∷ ls) end fit h = (
    ap suc h.0,
    ((unfold place in refl), rw (bottom-place line y) h.1),
    (place-IsUnclipped font line y f, h.2),
    (fit, h.3),
  )

  -- With a font whose ascent, descent and line spacing are not negative, a measured layout has one
  -- displayed line per shaped line, from y on; each starts one spacing below the bottom of the one
  -- before, the last ends where the layout does, the ink of each, if it has any, lies in its box,
  -- and no bottom plus the spacing passes INT_MAX.
  pub measure-IsLayout :
      (shaped : List Shaped) (y : ℤ) (lines : List TextLine) (end : ℤ)
      → measure font shaped y ≡ some (lines, end)
      → IsLayout font (length shaped) y lines end
  unfolding measure
  measure-IsLayout [] y lines end h =
      subst (λ r. IsLayout font 0 y r.0 r.1) (some_inj h) (refl, refl, tt, tt)
  measure-IsLayout (line ∷ rest) y lines end h =
      let past = ltb_ℤ int_max (y +ℤ above font line +ℤ below font line +ℤ font.spacing) in
      let fit = place-Fits line y (else_false past _ h) in
      let ((ls, last), e, k) =
        >>=-eq-some (measure font rest (next_y font line rest y)) _ (else-eq-some past _ h) in
      subst (λ r. IsLayout font (suc (length rest)) y r.0 r.1) (some_inj k)
        (add_line line rest y ls last fit
          (measure-IsLayout rest (next_y font line rest y) ls last e))
