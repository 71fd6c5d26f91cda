-- ===== src/Cache/Image.antt =====
-- src/client/media.c: the cached pictures: the checks of their files, the read, and the decoders
-- over what libpng and libjpeg answer, which are parameters.
pub mod Decoded
use zimbr.Prelude.{
  ℕ, zero, suc, ◌+◌, ◌-◌, ◌*◌, ◌%◌, Bool, true, false, not, ◌&&◌, ◌||◌, Option, none, some, List,
  [], ◌∷◌, ◌++◌, ◌==◌, ltb, leb, if◌then◌else◌, length, drop, get_or, starts_with, ◌>>=◌,
}
use zimbr.Prelude.Int.{ℤ, pos, negsuc}
use zimbr.Files.Kernel.{Bytes, Stat, Found, found, lost, no_entry}
use zimbr.Files.Read.{at_end, Fetch, gives, interrupted, failed, read_all}
use zimbr.Cache.{cache_name}

-- ZcPixels of a picture that was decoded
pub record Picture : Type 0 where
  pub content : Bytes
  pub width : ℕ
  pub height : ℕ
  pub bytes : ℕ

-- libpng: the width and height that png_image_begin_read_from_memory finds, PNG_IMAGE_SIZE, whether
-- there is memory, and the pixels of png_image_finish_read
pub record PngLibrary : Type 0 where
  pub begins : Bytes → Option (ℕ × ℕ)
  pub size : ℕ → ℕ → ℕ
  pub allocated : ℕ → Bool
  pub finishes : Bytes → Option Bytes

-- libjpeg: the width and height of the header, what jpeg_start_decompress sets, each scanline, and
-- whether it finishes without a warning. An error of the library jumps back, and is an answer of
-- `none`.
pub record Started : Type 0 where
  pub components : ℕ
  pub width : ℕ
  pub height : ℕ

pub record JpegLibrary : Type 0 where
  pub alpha : Bool  -- JCS_ALPHA_EXTENSIONS
  pub header : Bytes → Option (ℕ × ℕ)
  pub start : Bytes → Option Started
  pub allocated : ℕ → Bool
  pub scanline : Bytes → ℕ → Option Bytes
  pub finishes : Bytes → Bool

abbrev pub side_limit : ℕ
side_limit = 2560

abbrev pub pixel_limit : ℕ
pixel_limit = 32 * 1024 * 1024

abbrev pub encoded_limit : ℕ
encoded_limit = 8 * 1024 * 1024

-- the sides were compared with 2560 before, so as int they are what they were
unfoldable pub dimensions : ℕ → ℕ → Bool
dimensions w h =
    ltb 0 w && ltb 0 h && leb w side_limit && leb h side_limit && leb (w * h * 4) pixel_limit

abbrev pub is_large : ℕ → ℕ → Bool
is_large w h = ltb side_limit w || ltb side_limit h || not (dimensions w h)

abbrev pub png_pixels : PngLibrary → ℕ → ℕ → Option Bytes → Option Picture
png_pixels png w h none = none
png_pixels png w h (some content) =
    some (record { content = content; width = w; height = h; bytes = png.size w h })

abbrev pub png_begun : PngLibrary → Bytes → Option (ℕ × ℕ) → Option Picture
png_begun png bytes none = none
png_begun png bytes (some (w, h)) =
    if is_large w h || not (png.allocated (png.size w h))
    then none
    else png_pixels png w h (png.finishes bytes)

unfoldable pub decode_png : PngLibrary → Bytes → Option Picture
unfolding dimensions
decode_png png bytes = png_begun png bytes (png.begins bytes)

-- a scanline of three components, with an opaque fourth
unfoldable pub opaque : Bytes → (left x : ℕ) → Bytes
opaque line zero x = []
opaque line (suc left) x =
    get_or line (x * 3) 0
    ∷ get_or line (x * 3 + 1) 0
    ∷ get_or line (x * 3 + 2) 0
    ∷ 255
    ∷ opaque line left (x + 1)

abbrev pub pixel_row : JpegLibrary → ℕ → Bytes → Bytes
pixel_row jpeg width line = if jpeg.alpha then line else opaque line width 0

-- the loop over the scanlines from y on, with the pixels above them
unfoldable pub jpeg_rows : JpegLibrary → Bytes → ℕ → (left y : ℕ) → Bytes → Option Bytes
unfolding opaque
jpeg_rows jpeg bytes width zero y content = some content
jpeg_rows jpeg bytes width (suc left) y content = jpeg.scanline bytes y >>= λ line.
    jpeg_rows jpeg bytes width left (y + 1) (content ++ pixel_row jpeg width line)

abbrev pub components_of : JpegLibrary → ℕ
components_of jpeg = if jpeg.alpha then 4 else 3

abbrev pub jpeg_pixels : JpegLibrary → Bytes → Started → Option Bytes → Option Picture
jpeg_pixels jpeg bytes s none = none
jpeg_pixels jpeg bytes s (some content) =
    if jpeg.finishes bytes
    then some (record {
      content = content;
      width = s.width;
      height = s.height;
      bytes = s.width * s.height * 4;
    })
    else none

abbrev pub jpeg_started : JpegLibrary → Bytes → Option Started → Option Picture
jpeg_started jpeg bytes none = none
jpeg_started jpeg bytes (some s) =
    if not (s.components == components_of jpeg) || not (jpeg.allocated (s.width * s.height * 4))
    then none
    else jpeg_pixels jpeg bytes s (jpeg_rows jpeg bytes s.width s.height 0 [])

abbrev pub jpeg_headed : JpegLibrary → Bytes → Option (ℕ × ℕ) → Option Picture
jpeg_headed jpeg bytes none = none
jpeg_headed jpeg bytes (some (w, h)) =
    if is_large w h then none else jpeg_started jpeg bytes (jpeg.start bytes)

unfoldable pub decode_jpeg : JpegLibrary → Bytes → Option Picture
unfolding dimensions jpeg_rows
decode_jpeg jpeg bytes = jpeg_headed jpeg bytes (jpeg.header bytes)

-- a file of the cache as the kernel shows it: fstat, its content, the answers of pread, and whether
-- there is memory for it
pub record ImageFile : Type 0 where
  pub stat : Found
  pub content : Bytes
  pub answers : List Fetch
  pub allocated : Bool

abbrev pub size_in_range : Option ℕ → Bool
size_in_range none = false
size_in_range (some n) = leb 8 n && leb n encoded_limit

abbrev pub is_image_file : ℕ → Found → Bool
is_image_file user (lost e) = false
is_image_file user (found st) =
    st.is_regular
    && (st.uid == user)
    && (st.mode % 512 == 384)
    && (st.links == 1)
    && size_in_range st.size

abbrev pub size_or_zero : Option ℕ → ℕ
size_or_zero none = 0
size_or_zero (some n) = n

abbrev pub size_of : Found → ℕ
size_of (lost e) = 0
size_of (found st) = size_or_zero st.size

abbrev pub png_signature : Bytes
png_signature = 0x89 ∷ b'P' ∷ b'N' ∷ b'G' ∷ b'\r' ∷ b'\n' ∷ 0x1a ∷ b'\n' ∷ []

abbrev pub jpeg_prefix : Bytes
jpeg_prefix = 0xff ∷ 0xd8 ∷ 0xff ∷ []

unfoldable pub decode : PngLibrary → JpegLibrary → Bytes → Option Picture
decode png jpeg bytes =
    if starts_with png_signature bytes
    then decode_png png bytes
    else if starts_with jpeg_prefix bytes
    then decode_jpeg jpeg bytes
    else none

abbrev pub decode_read :
    PngLibrary → JpegLibrary → ImageFile → Option (Bytes × List Fetch) → Option Picture
decode_read png jpeg file none = none
decode_read png jpeg file (some (bytes, answers)) =
    if not (at_end answers (drop (size_of file.stat) file.content))
    then none
    else decode png jpeg bytes

-- `none` is the result -1, after which the pixels are freed
unfoldable pub image_read_fd : PngLibrary → JpegLibrary → ℕ → ImageFile → Option Picture
unfolding read_all at_end decode decode_png decode_jpeg
image_read_fd png jpeg user file =
    if not (is_image_file user file.stat) || not file.allocated
    then none
    else decode_read png jpeg file (read_all file.answers (size_of file.stat) file.content [])

-- the results 1, 0 and -1
pub data Reading : Type 0 where
  shown : Picture → Reading
  missing : Reading
  refused : Reading

-- what openat answers
pub data Opening : Type 0 where
  opened : ImageFile → Opening
  unopened : ℕ → Opening

abbrev pub reading_of : Option Picture → Reading
reading_of none = refused
reading_of (some p) = shown p

abbrev pub is_shown : Reading → Bool
is_shown (shown p) = true
is_shown missing = false
is_shown refused = false

abbrev pub read_opened : PngLibrary → JpegLibrary → ℕ → Opening → Reading
read_opened png jpeg user (opened file) = reading_of (image_read_fd png jpeg user file)
read_opened png jpeg user (unopened e) = if e == no_entry then missing else refused

-- The result, and whether the time of the file was set.
unfoldable pub image_read : PngLibrary → JpegLibrary → ℕ → Bytes → Opening → Reading × Bool
unfolding cache_name image_read_fd
image_read png jpeg user name opening =
    if not (cache_name name)
    then (refused, false)
    else let r = read_opened png jpeg user opening in (r, is_shown r)
