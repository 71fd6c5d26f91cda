-- ===== src/Notifications/Image.antt =====
-- src/client/notifications.c: the picture of a notification, at most 128 pixels to a side.
pub mod Bounds
use zimbr.Prelude.Int.{ℤ, pos, negsuc, pos_part}
use zimbr.Prelude.{
  ℕ, zero, suc, ◌+◌, ◌*◌, ◌/◌, max, Bool, true, false, ◌&&◌, Option, none, some, List, [], ◌∷◌,
  ◌++◌, ltb, leb, ◌==◌, if◌then◌else◌, length, take, drop,
}

-- ZcPixels: `bytes` is the size that the decoder gives beside the buffer; a null buffer is `none`
pub record Pixels : Type 0 where
  pub content : Option (List ℕ)
  pub width : ℤ
  pub height : ℤ
  pub bytes : ℕ

-- the `(iiibii@ay)` value: RGBA rows without padding
pub record Hint : Type 0 where
  pub width : ℕ
  pub height : ℕ
  pub pixels : List ℕ

abbrev pub image_edge : ℕ
image_edge = 128

abbrev pub is_positive : ℤ → Bool
is_positive (pos zero) = false
is_positive (pos (suc n)) = true
is_positive (negsuc n) = false

-- MAX(1, side * IMAGE_EDGE / edge), if the picture is too large
unfoldable pub scaled : ℕ → ℕ → ℕ
scaled side edge = if leb edge image_edge then side else max 1 (side * image_edge / edge)

-- the inner loop: one row of the result, from column x on
unfoldable pub row : List ℕ → (width source_width source_y left x : ℕ) → List ℕ
row pixels width source_width source_y zero x = []
row pixels width source_width source_y (suc left) x =
    take 4 (drop ((source_y * source_width + x * source_width / width) * 4) pixels)
    ++ row pixels width source_width source_y left (x + 1)

-- the outer loop, from row y on
unfoldable pub rows : List ℕ → (width height source_width source_height left y : ℕ) → List ℕ
unfolding row
rows pixels width height source_width source_height zero y = []
rows pixels width height source_width source_height (suc left) y =
    row pixels width source_width (y * source_height / height) width 0
    ++ rows pixels width height source_width source_height left (y + 1)

unfoldable pub scale_pixels : List ℕ → ℕ → ℕ → Hint
unfolding scaled rows
scale_pixels pixels source_width source_height =
    let edge = max source_width source_height in
    let width = scaled source_width edge in
    let height = scaled source_height edge in
    record {
      width = width;
      height = height;
      pixels = rows pixels width height source_width source_height height 0;
    }

abbrev pub is_usable : Pixels → Bool
is_usable image =
    is_positive image.width
    && is_positive image.height
    && leb (pos_part image.width) 2560
    && leb (pos_part image.height) 2560
    && (image.bytes == pos_part image.width * pos_part image.height * 4)

abbrev pub hint_of : Option (List ℕ) → Pixels → Option Hint
hint_of none image = none
hint_of (some pixels) image =
    if is_usable image
    then some (scale_pixels pixels (pos_part image.width) (pos_part image.height))
    else none

-- a null picture is `none`
unfoldable pub image_hint : Option Pixels → Option Hint
unfolding scale_pixels
image_hint none = none
image_hint (some image) = hint_of image.content image
