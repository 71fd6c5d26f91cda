-- ===== src/Text/Boundary.antt =====
-- src/client/bridge.c, zc_text_boundary: the cursor's next position.
pub mod Nearest
use zimbr.Prelude.Int.{ℤ, pos, negsuc, ltb_ℤ}
use zimbr.Prelude.{
  ℕ, ◌+◌, Bool, true, false, ◌&&◌, Option, none, some, List, [], ◌∷◌, ltb, leb, if◌then◌else◌,
}

-- Each character as Pango and GLib have it: whether the cursor may stand before it, and its length
-- in bytes. The end of the text is one more, of length 0.
pub record Stop : Type 0 where
  pub is_cursor_position : Bool
  pub width : ℕ

-- the loop, from the offset `at` on, with the cursor position before it
unfoldable pub scan : ℤ → ℕ → ℕ → List Stop → ℕ → ℕ → ℕ
scan direction position result [] at prev = result
scan direction position result (s ∷ stops) at prev =
    let later =
      scan direction position result stops (at + s.width)
        (if s.is_cursor_position then at else prev) in
    if s.is_cursor_position && (ltb_ℤ direction (pos 0) && leb position at)
    then prev
    else if s.is_cursor_position && (ltb_ℤ (pos 0) direction && ltb position at)
    then at
    else later

-- a text that is not UTF-8, for g_utf8_validate, is `none`
unfoldable pub boundary : Option (List Stop) → ℕ → ℕ → ℤ → ℕ
unfolding scan
boundary none size position direction = position
boundary (some stops) size position direction = scan direction position size stops 0 0
