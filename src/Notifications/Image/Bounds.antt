-- ===== src/Notifications/Image/Bounds.antt =====
-- The picture of a notification reads inside the source and fills exactly its own buffer.
use zimbr.Prelude.Int.{ℤ, pos, negsuc, pos_part}
use native.Mathlib.Nat.{mul_comm}
use zimbr.Prelude.{
  ℕ, zero, suc, ◌+◌, ◌*◌, ◌/◌, ◌≤◌, ◌<◌, ◌≡◌, refl, ◌∙◌, subst, some_inj, max, Bool, true, false,
  none, some, List, [], ◌∷◌, leb, if◌then◌else◌, length, length-append, length-drop, take, drop,
  arith, Bool-cases, inl, inr,
}
use zimbr.Notifications.Image.{
  Pixels, Hint, is_positive, is_usable, hint_of, image_edge, scaled, row, rows, scale_pixels,
  image_hint,
}

div_lt : (x s w : ℕ) → x < w → 0 < s → x * s / w < s
div_lt x s w h p = grind arith

div_le : (s e : ℕ) → s ≤ e → 0 < e → s * image_edge / e ≤ image_edge
div_le s e h p = grind arith

index_lt : (y x h w : ℕ) → y < h → x < w → y * w + x < h * w
index_lt y x h w p q = grind arith

length-take_four : (s : List ℕ) → 4 ≤ length s → length (take 4 s) ≡ 4
length-take_four (a ∷ b ∷ c ∷ d ∷ s) h = refl
length-take_four [] h = absurd (omega arith)
length-take_four (a ∷ []) h = absurd (omega arith)
length-take_four (a ∷ b ∷ []) h = absurd (omega arith)
length-take_four (a ∷ b ∷ c ∷ []) h = absurd (omega arith)

-- A source whose buffer holds `source_width` by `source_height` pixels.
module _ (pixels : List ℕ) (source_width source_height : ℕ) (w_pos : 0 < source_width)
    (size : length pixels ≡ source_width * source_height * 4) where
  length-pixel :
      (y x : ℕ)
      → y < source_height
      → x < source_width
      → length (take 4 (drop ((y * source_width + x) * 4) pixels)) ≡ 4
  length-pixel y x hy hx = length-take_four (drop ((y * source_width + x) * 4) pixels) (
      rw (length-drop ((y * source_width + x) * 4) pixels) (
        omega (
          arith,
          size,
          index_lt y x source_height source_width hy hx,
          mul_comm source_height source_width,
        )))

  length-row :
      (width y left x : ℕ)
      → y < source_height
      → x + left ≤ width
      → length (row pixels width source_width y left x) ≡ left * 4
  unfolding row
  length-row width y zero x hy hx = refl
  length-row width y (suc left) x hy hx =
      let sx = x * source_width / width in
      omega (
        arith,
        length-append (take 4 (drop ((y * source_width + sx) * 4) pixels))
            (row pixels width source_width y left (x + 1)),
        length-pixel y sx hy (div_lt x source_width width (omega arith) w_pos),
        length-row width y left (x + 1) hy (omega arith),
      )

  length-rows :
      (width height left y : ℕ)
      → 0 < source_height
      → y + left ≤ height
      → length (rows pixels width height source_width source_height left y) ≡ left * (width * 4)
  unfolding rows
  length-rows width height zero y h_pos hy = omega arith
  length-rows width height (suc left) y h_pos hy =
      let sy = y * source_height / height in
      omega (
        arith,
        length-append (row pixels width source_width sy width 0)
            (rows pixels width height source_width source_height left (y + 1)),
        length-row width sy width 0 (div_lt y source_height height (omega arith) h_pos)
            (omega arith),
        length-rows width height left (y + 1) h_pos (omega arith),
      )

scaled-le : (side edge : ℕ) → side ≤ edge → 0 < edge → scaled side edge ≤ image_edge
unfolding scaled
scaled-le side edge h p = elim (Bool-cases (leb edge image_edge)) [
  | inl e ↦ rw e (ground arith)
  | inr e ↦ rw e (omega (arith, div_le side edge h p))
]

-- the hint's pixels are complete rows, and no side is over 128
abbrev pub IsWithin : Hint → Type 0
IsWithin h =
    (h.width ≤ image_edge) × (h.height ≤ image_edge) × (length h.pixels ≡ h.height * (h.width * 4))

scale_pixels-IsWithin :
    (pixels : List ℕ) (w h : ℕ)
    → 0 < w
    → 0 < h
    → length pixels ≡ w * h * 4
    → IsWithin (scale_pixels pixels w h)
unfolding scale_pixels
scale_pixels-IsWithin pixels w h pw ph size =
    let edge = max w h in
    (
      scaled-le w edge (omega arith) (omega arith),
      scaled-le h edge (omega arith) (omega arith),
      length-rows pixels w h pw size (scaled w edge) (scaled h edge) (scaled h edge) 0 ph
          (omega arith),
    )

then-eq-some {ℓ} :
    {A : Type ℓ} (b : Bool) (x : A) {a : A}
    → (if b then some x else none) ≡ some a
    → (b ≡ true) × (some x ≡ some a)
then-eq-some true x h = (refl, h)
then-eq-some false x h = cc

positive_lem : (n : ℤ) → is_positive n ≡ true → 0 < pos_part n
positive_lem (pos zero) h = cc
positive_lem (pos (suc n)) h = omega arith
positive_lem (negsuc n) h = cc

usable_lem :
    (image : Pixels)
    → is_usable image ≡ true
    → (0 < pos_part image.width)
      × (0 < pos_part image.height)
      × (image.bytes ≡ pos_part image.width * pos_part image.height * 4)
usable_lem image h = ground (arith, positive_lem image.width, positive_lem image.height)

area_le : (a b l : ℕ) → a ≤ image_edge → b ≤ image_edge → l ≡ b * (a * 4) → l ≤ 64 * 1024
area_le a b l ha hb e = grind arith

-- A picture whose buffer has the size that comes with it gives a hint of at most 128 by 128 pixels,
-- at 64 KiB. Each of its pixels is four bytes read inside that buffer.
pub image_hint-IsWithin :
    (image : Pixels) (pixels : List ℕ) {h : Hint}
    → image.content ≡ some pixels
    → length pixels ≡ image.bytes
    → image_hint (some image) ≡ some h
    → IsWithin h × (length h.pixels ≤ 64 * 1024)
unfolding image_hint
image_hint-IsWithin image pixels {h} content size e =
    let e' : hint_of (some pixels) image ≡ some h =
      subst (λ c. hint_of c image ≡ some h) content e in
    let (usable, made) = then-eq-some (is_usable image) _ e' in
    let (pw, ph, bytes) = usable_lem image usable in
    let w =
      scale_pixels-IsWithin pixels (pos_part image.width) (pos_part image.height) pw ph
        (size ∙ bytes) in
    subst (λ x. IsWithin x × (length x.pixels ≤ 64 * 1024)) (some_inj made)
      (w, area_le _ _ _ w.0 w.1 w.2)
