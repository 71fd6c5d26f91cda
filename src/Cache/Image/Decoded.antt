-- ===== src/Cache/Image/Decoded.antt =====
-- zc_image_read of src/client/media.c: what a picture that it gives is.
use zimbr.Prelude.{
  ℕ, ◌*◌, ◌≤◌, ◌<◌, ◌≡◌, refl, ◌∙◌, ap, sym, subst, true, false, not, ◌||◌, Option, none, some,
  List, [], if◌then◌else◌, length, drop, if_both, starts_with, else_false, else-eq-some, ==_iff,
  length-drop, Bool-cases, inl, inr, arith, ◌==◌, if_case, true_of_not, or_first,
}
use zimbr.Files.Kernel.{Bytes}
use zimbr.Files.Read.{at_end, take_whole, ended, Fetch, IsRead, read_all, read_all-IsRead}
use zimbr.Cache.{cache_name}
use zimbr.Cache.Image.{
  Picture, PngLibrary, Started, JpegLibrary, side_limit, pixel_limit, dimensions, is_large,
  png_pixels, png_begun, decode_png, jpeg_pixels, jpeg_started, jpeg_headed, decode_jpeg, ImageFile,
  is_image_file, components_of, decode, size_of, jpeg_rows, png_signature, decode_read, jpeg_prefix,
  image_read_fd, reading_of, image_read, shown, opened,
}

-- a picture that fits the limits
pub record Fits (p : Picture) : Type 0 where
  pub width : (0 < p.width) × (p.width ≤ side_limit)
  pub height : (0 < p.height) × (p.height ≤ side_limit)
  pub bytes : p.bytes ≡ p.width * p.height * 4
  pub limit : p.bytes ≤ pixel_limit

abbrev pub FitsIf : Option Picture → Type 0
FitsIf none = Unit
FitsIf (some p) = Fits p

-- The documented results of the libraries: PNG_IMAGE_SIZE of an RGBA picture, and a JPEG that is
-- not scaled has the sides of its header.
pub record Documented (png : PngLibrary) (jpeg : JpegLibrary) : Type 0 where
  pub size : (w h : ℕ) → png.size w h ≡ w * h * 4
  pub start :
      (bytes : Bytes) (w h : ℕ) (s : Started)
      → jpeg.header bytes ≡ some (w, h)
      → jpeg.start bytes ≡ some s
      → (s.width ≡ w) × (s.height ≡ h)

small_sides :
    (w h : ℕ)
    → is_large w h ≡ false
    → (0 < w) × (w ≤ side_limit) × (0 < h) × (h ≤ side_limit) × (w * h * 4 ≤ pixel_limit)
unfolding dimensions
small_sides w h e = ground arith

png_pixels-FitsIf :
    (png : PngLibrary) (w h : ℕ) (content : Option Bytes)
    → png.size w h ≡ w * h * 4
    → is_large w h ≡ false
    → FitsIf (png_pixels png w h content)
png_pixels-FitsIf png w h none e l = tt
png_pixels-FitsIf png w h (some content) e l =
    let s = small_sides w h l in
    record {
      width = (s.0, s.1);
      height = (s.2, s.3);
      bytes = e;
      limit = subst (λ n. n ≤ pixel_limit) (sym e) s.4;
    }

module _ (png : PngLibrary) (jpeg : JpegLibrary) (doc : Documented png jpeg) where
  png_begun-FitsIf : (bytes : Bytes) (sides : Option (ℕ × ℕ)) → FitsIf (png_begun png bytes sides)
  png_begun-FitsIf bytes none = tt
  png_begun-FitsIf bytes (some (w, h)) =
      if_case FitsIf (is_large w h || not (png.allocated (png.size w h))) none
        (png_pixels png w h (png.finishes bytes)) (λ _. tt)
        (λ e. png_pixels-FitsIf png w h (png.finishes bytes) (doc.size w h) (or_first _ _ e))

  jpeg_pixels-FitsIf :
      (bytes : Bytes) (s : Started) (content : Option Bytes)
      → is_large s.width s.height ≡ false
      → FitsIf (jpeg_pixels jpeg bytes s content)
  jpeg_pixels-FitsIf bytes s none l = tt
  jpeg_pixels-FitsIf bytes s (some content) l =
      let t = small_sides s.width s.height l in
      if_both FitsIf (jpeg.finishes bytes)
        (some (record {
          content = content;
          width = s.width;
          height = s.height;
          bytes = s.width * s.height * 4;
        }))
        none (record { width = (t.0, t.1); height = (t.2, t.3); bytes = refl; limit = t.4 }) tt

  jpeg_started-FitsIf :
      (bytes : Bytes) (w h : ℕ) (start : Option Started)
      → jpeg.header bytes ≡ some (w, h)
      → jpeg.start bytes ≡ start
      → is_large w h ≡ false
      → FitsIf (jpeg_started jpeg bytes start)
  jpeg_started-FitsIf bytes w h none e f l = tt
  jpeg_started-FitsIf bytes w h (some s) e f l =
      let same = doc.start bytes w h s e f in
      if_both FitsIf
        (not (s.components == components_of jpeg) || not (jpeg.allocated (s.width * s.height * 4)))
        none (jpeg_pixels jpeg bytes s (jpeg_rows jpeg bytes s.width s.height 0 [])) tt
        (jpeg_pixels-FitsIf bytes s (jpeg_rows jpeg bytes s.width s.height 0 [])
          (ap (λ n. is_large n s.height) same.0 ∙ ap (λ n. is_large w n) same.1 ∙ l))

  jpeg_headed-FitsIf :
      (bytes : Bytes) (sides : Option (ℕ × ℕ))
      → jpeg.header bytes ≡ sides
      → FitsIf (jpeg_headed jpeg bytes sides)
  jpeg_headed-FitsIf bytes none e = tt
  jpeg_headed-FitsIf bytes (some (w, h)) e =
      if_case FitsIf (is_large w h) none (jpeg_started jpeg bytes (jpeg.start bytes)) (λ _. tt)
        (λ l. jpeg_started-FitsIf bytes w h (jpeg.start bytes) e refl l)

  decode-FitsIf : (bytes : Bytes) → FitsIf (decode png jpeg bytes)
  unfolding decode decode_png decode_jpeg
  decode-FitsIf bytes =
      if_both FitsIf (starts_with png_signature bytes) (decode_png png bytes)
        (if starts_with jpeg_prefix bytes then decode_jpeg jpeg bytes else none)
        (png_begun-FitsIf bytes (png.begins bytes))
        (if_both FitsIf (starts_with jpeg_prefix bytes) (decode_jpeg jpeg bytes) none
          (jpeg_headed-FitsIf bytes (jpeg.header bytes) refl) tt)

-- the decoder had all of the file
decode_read-whole :
    (png : PngLibrary) (jpeg : JpegLibrary) (file : ImageFile) (r : Option (Bytes × List Fetch))
    (p : Picture)
    → IsRead (size_of file.stat) file.content [] r
    → decode_read png jpeg file r ≡ some p
    → (decode png jpeg file.content ≡ some p) × (length file.content ≡ size_of file.stat)
decode_read-whole png jpeg file none p h e = cc
decode_read-whole png jpeg file (some (bytes, answers)) p h e =
    let n = size_of file.stat in
    let rest = drop n file.content in
    let t = ended answers rest (
      true_of_not (at_end answers rest)
        (else_false (not (at_end answers rest)) (decode png jpeg bytes) e)) in
    let whole = take_whole n file.content h.1 t in
    (
      ap (decode png jpeg) (sym (h.0 ∙ whole))
          ∙ else-eq-some (not (at_end answers rest)) (decode png jpeg bytes) e,
      omega (arith, (==_iff (length rest) 0).0 t, length-drop n file.content, h.1),
    )

-- a picture that was shown, with its file
pub record IsShown (png : PngLibrary) (jpeg : JpegLibrary) (user : ℕ) (name : Bytes)
    (file : ImageFile) (p : Picture) : Type 0 where
  pub named : cache_name name ≡ true
  pub private_file : is_image_file user file.stat ≡ true
  pub whole : length file.content ≡ size_of file.stat
  pub decoded : decode png jpeg file.content ≡ some p
  pub fits : Fits p

fd-IsShown :
    (png : PngLibrary) (jpeg : JpegLibrary) (user : ℕ) (name : Bytes) (file : ImageFile)
    (p : Picture)
    → Documented png jpeg
    → cache_name name ≡ true
    → image_read_fd png jpeg user file ≡ some p
    → IsShown png jpeg user name file p
unfolding image_read_fd
fd-IsShown png jpeg user name file p doc c e =
    let n = size_of file.stat in
    let r = read_all file.answers n file.content [] in
    let refuses = not (is_image_file user file.stat) || not file.allocated in
    let kept = else_false refuses (decode_read png jpeg file r) e in
    let w =
      decode_read-whole png jpeg file r p (read_all-IsRead file.answers n file.content [])
        (else-eq-some refuses (decode_read png jpeg file r) e) in
    record {
      named = c;
      private_file =
          true_of_not (is_image_file user file.stat)
            (or_first (not (is_image_file user file.stat)) (not file.allocated) kept);
      whole = w.1;
      decoded = w.0;
      fits = subst FitsIf w.0 (decode-FitsIf png jpeg doc file.content);
    }

shown_of : (o : Option Picture) (p : Picture) → reading_of o ≡ shown p → o ≡ some p
shown_of none p h = cc
shown_of (some q) p h = cc

-- Where the libraries do as they document and a read of an opened file gives a picture, the name is
-- one of the cache; the file is a regular, private one of the user's with one link, of 8 bytes to 8
-- MiB; the decoder had its whole content, after any short reads; both sides are from 1 to 2560, and
-- the pixels take four bytes each and at most 32 MiB.
pub image_read-IsShown :
    (png : PngLibrary) (jpeg : JpegLibrary) (user : ℕ) (name : Bytes) (file : ImageFile)
    (p : Picture)
    → Documented png jpeg
    → (image_read png jpeg user name (opened file)).0 ≡ shown p
    → IsShown png jpeg user name file p
unfolding image_read
image_read-IsShown png jpeg user name file p doc e = elim (Bool-cases (cache_name name)) [
  | inl c ↦
      fd-IsShown png jpeg user name file p doc c
        (shown_of (image_read_fd png jpeg user file) p (rw c at e))
  | inr c ↦ let e' = rw c at e in cc
]
