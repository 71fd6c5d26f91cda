-- ===== src/Cache/Tests.antt =====
-- The theorems about src/client/media.c at concrete inputs.
use zimbr.Prelude.{
  ℕ, ◌<◌, ◌≡◌, ◌*◌, refl, true, false, none, some, [], ◌∷◌, ◌++◌, replicate, length, All, arith,
}
use zimbr.Prelude.Int.{pos}
use zimbr.Files.Kernel.{Bytes, Kernel, found, descriptor}
use zimbr.Files.Read.{gives, interrupted}
use zimbr.Cache.{cache_name, cache_temp, temporary_prefix}
use zimbr.Cache.Names.{temporary_name, cache_temp-cache_name}
use zimbr.Cache.Prune.{Listed, Scene, Usage, seen, cache_prune}
use zimbr.Cache.Prune.Tally.{tally}
use zimbr.Cache.Prune.Accounting.{IsPruned, no_files, cache_prune-IsPruned}
use zimbr.Cache.Prune.Bounds.{IsCacheName, cache_prune-IsCacheName}
use zimbr.Cache.Image.{Picture, PngLibrary, JpegLibrary, ImageFile, opened, shown, image_read}
use zimbr.Cache.Image.Decoded.{Documented, IsShown, image_read-IsShown}

abbrev key : ℕ → Bytes
key c = replicate 64 c

abbrev file : Bytes → ℕ → ℕ → Listed
file name size second = record {
  name = name;
  looked = seen (record {
    is_regular = true;
    is_own = true;
    size = some size;
    modified = record { sec = pos second; nsec = 5 };
  });
  unlinked = true;
  allocated = true;
}

abbrev leftover : Bytes
leftover = temporary_prefix ++ replicate 32 b'0'

-- a stray name, a temporary file, and three pictures of which the second is the oldest
abbrev scene : Scene
scene = record {
  opens = true;
  streams = true;
  listing =
      file (b'.' ∷ []) 1 1
      ∷ file leftover 7 1
      ∷ file (key b'a') 100 30
      ∷ file (key b'b') 200 10
      ∷ file (key b'c') 300 20
      ∷ [];
  read_fails = false;
  closes = true;
  removals = true ∷ [];
}

abbrev usage : Usage
usage = record { bytes = 400; entries = 2 }

pruned_scene : (cache_prune 450 8 true scene).0 ≡ some usage
unfolding cache_prune
pruned_scene = refl

cache_prune-IsPruned_example :
    IsPruned 450 8 (tally true scene.listing no_files) usage (cache_prune 450 8 true scene).1
cache_prune-IsPruned_example = cache_prune-IsPruned 450 8 true scene usage pruned_scene

cache_prune-IsCacheName_example : All IsCacheName (cache_prune 450 8 true scene).1
cache_prune-IsCacheName_example = cache_prune-IsCacheName 450 8 true scene

-- a PNG file of one pixel, as far as its header is read here
abbrev png_file : Bytes
png_file = 0x89 ∷ b'P' ∷ b'N' ∷ b'G' ∷ b'\r' ∷ b'\n' ∷ 0x1a ∷ b'\n' ∷ 1 ∷ []

abbrev png : PngLibrary
png = record {
  begins = λ bytes. some (1, 1);
  size = λ w h. w * h * 4;
  allocated = λ n. true;
  finishes = λ bytes. some (9 ∷ 9 ∷ 9 ∷ 255 ∷ []);
}

abbrev jpeg : JpegLibrary
jpeg = record {
  alpha = true;
  header = λ bytes. none;
  start = λ bytes. none;
  allocated = λ n. true;
  scanline = λ bytes y. none;
  finishes = λ bytes. true;
}

abbrev picture : Picture
picture = record { content = 9 ∷ 9 ∷ 9 ∷ 255 ∷ []; width = 1; height = 1; bytes = 4 }

-- 0600, read in two pieces
abbrev image_file : ImageFile
image_file = record {
  stat = found (record {
    is_regular = true;
    is_directory = false;
    uid = 1000;
    mode = 384;
    links = 1;
    size = some 9;
  });
  content = png_file;
  answers = gives 3 ∷ interrupted ∷ gives 100 ∷ gives 0 ∷ [];
  allocated = true;
}

documented : Documented png jpeg
documented = record { size = λ w h. refl; start = λ bytes w h s e f. cc }

good_picture : (image_read png jpeg 1000 (key b'a') (opened image_file)).0 ≡ shown picture
unfolding image_read
good_picture = refl

image_read-IsShown_example : IsShown png jpeg 1000 (key b'a') image_file picture
image_read-IsShown_example =
    image_read-IsShown png jpeg 1000 (key b'a') image_file picture documented good_picture

abbrev random : Bytes
random = replicate 16 0xab

abbrev kernel : Kernel
kernel = record { user = 1000; answers = descriptor 8 ∷ []; fds = []; calls = [] }

made_temporary : (cache_temp 3 37 random kernel).0 ≡ (some 8, temporary_name random)
unfolding cache_temp
made_temporary = refl

cache_temp-cache_name_example :
    (cache_name (temporary_name random) ≡ true)
    × (length (temporary_name random) < 37)
    × (random ≡ random)
cache_temp-cache_name_example =
    cache_temp-cache_name 3 37 random (temporary_name random) kernel 8 3 37 random kernel 8
      (omega arith) (omega arith) made_temporary made_temporary
