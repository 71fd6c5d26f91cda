-- ===== src/Text/Measure.antt =====
-- src/client/bridge.c, text_measure_lines: the displayed position of each shaped line. What Pango
-- says of a line (its ink box and its baseline) and of the primary font is the input.
pub mod Stacked
use zimbr.Prelude.Int.{ℤ, pos, negsuc, pos_part, neg_part, ◌+ℤ◌, ◌-ℤ◌, ltb_ℤ}
use zimbr.Prelude.{
  ℕ, ◌-◌, ◌^◌, Bool, true, false, Option, none, some, List, [], ◌∷◌, if◌then◌else◌, ◌>>=◌,
}

-- the vertical part of a PangoRectangle, in Pango units
pub record Extent : Type 0 where
  pub y : ℤ
  pub height : ℤ

pub record Shaped : Type 0 where
  pub ink : Extent
  pub baseline : ℤ

-- struct TextLine, without its horizontal part
pub record TextLine : Type 0 where
  pub ink : Extent
  pub logical : Extent
  pub baseline : ℤ

-- the primary font's ascent and descent, and the spacing of the layout
pub record Font : Type 0 where
  pub ascent : ℤ
  pub descent : ℤ
  pub spacing : ℤ

abbrev pub int_max : ℤ
int_max = pos (2 ^ 31 - 1)

unfoldable pub max_ℤ : ℤ → ℤ → ℤ
max_ℤ a b = if ltb_ℤ b a then a else b

-- the room above and below the baseline: the font's, or more where the ink needs it
unfoldable pub above : Font → Shaped → ℤ
unfolding max_ℤ
above font line =
    if ltb_ℤ (pos 0) line.ink.height
    then max_ℤ font.ascent (line.baseline -ℤ line.ink.y)
    else font.ascent

unfoldable pub below : Font → Shaped → ℤ
unfolding max_ℤ
below font line =
    if ltb_ℤ (pos 0) line.ink.height
    then max_ℤ font.descent (line.ink.y +ℤ line.ink.height -ℤ line.baseline)
    else font.descent

-- the line whose top is at y
unfoldable pub place : Font → Shaped → ℤ → TextLine
place font line y = record {
  ink = record {
    y = line.ink.y +ℤ (y +ℤ above font line -ℤ line.baseline);
    height = line.ink.height;
  };
  logical = record { y = y; height = above font line +ℤ below font line };
  baseline = y +ℤ above font line;
}

abbrev pub is_last : List Shaped → Bool
is_last [] = true
is_last (line ∷ lines) = false

-- where the next line starts
unfoldable pub next_y : Font → Shaped → List Shaped → ℤ → ℤ
next_y font line rest y =
    let bottom = y +ℤ above font line +ℤ below font line in
    if is_last rest then bottom else bottom +ℤ font.spacing

-- The loop over the lines from y on, with the y that it ends at; `none` is the result 0 for a
-- layout that passes INT_MAX.
unfoldable pub measure : Font → List Shaped → ℤ → Option (List TextLine × ℤ)
measure font [] y = some ([], y)
measure font (line ∷ rest) y =
    let later = measure font rest (next_y font line rest y) in
    if ltb_ℤ int_max (y +ℤ above font line +ℤ below font line +ℤ font.spacing)
    then none
    else (later >>= λ (lines, end). some (place font line y ∷ lines, end))
