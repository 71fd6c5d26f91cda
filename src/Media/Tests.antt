-- ===== src/Media/Tests.antt =====
-- The theorems about src/relay/media.c at concrete inputs.
use zimbr.Prelude.Int.{pos, negsuc, ◌+ℤ◌}
use zimbr.Prelude.{ℕ, ◌≡◌, refl, inl, inr, true, false, some, [], ◌∷◌}
use zimbr.Files.Kernel.{Bytes, Found, found, Kernel, descriptor, success, status, failure}
use zimbr.Platform.Spawn
use zimbr.Media.{Details, media_directory, ok}
use zimbr.Media.Convert.{ImageInfo, Scene, empty, is_late, viewer, media_convert}
use zimbr.Media.Converted.{EndsWell, media_convert-EndsWell}

-- /a/b
abbrev path : Bytes
path = b'/' ∷ b'a' ∷ b'/' ∷ b'b' ∷ []

abbrev kernel : Kernel
kernel = record {
  user = 1000;
  answers =
      descriptor 3
      ∷ descriptor 4
      ∷ failure 2
      ∷ success
      ∷ descriptor 5
      ∷ status (record {
        is_regular = false;
        is_directory = true;
        uid = 1000;
        mode = 448;
        links = 2;
        size = some 0;
      })
      ∷ [];
  fds = 7 ∷ [];
  calls = [];
}

-- the last directory is made
directory_made : (media_directory path true kernel).0 ≡ ok 5
unfolding media_directory
directory_made = refl

abbrev details : Details
details = record {
  device = 8;
  inode = 99;
  modified_sec = pos 10;
  modified_ns = pos 11;
  changed_sec = negsuc 3;
  changed_ns = pos 13;
}

abbrev picture : ℕ → Found
picture size = found (record {
  is_regular = true;
  is_directory = false;
  uid = 1000;
  mode = 420;
  links = 1;
  size = some size;
})

abbrev info : ImageInfo
info = record { width = 2560; height = 1440; png = 0; still = 1; bytes = 700000 }

-- the helper exits in the second round
abbrev scene : Scene
scene = record {
  source = picture 90000000;
  details = details;
  piped = true;
  flagged = true;
  input = true;
  output = true;
  meta = true;
  actions = true;
  attributes = true;
  added = true;
  spawned = true;
  start = 500;
  rounds =
      record { waited = Spawn.Waited.running; now = 510 }
      ∷ record { waited = Spawn.Waited.ended (Spawn.Status.exited 0); now = 1600 }
      ∷ [];
  reaping = Spawn.Waited.failed ∷ [];
  info = some info;
  source_after = picture 90000000;
  details_after = details;
  encoded = picture 700000;
}

scene_converted :
    media_convert 1000 viewer (pos 1000) scene
    ≡ some (record { result = ok info; held = record empty { child = Spawn.Child.reaped } })
unfolding media_convert ◌+ℤ◌
scene_converted = refl

second_late :
    is_late (pos 500 +ℤ pos 1000) (record { waited = Spawn.Waited.running; now = 1600 }) ≡ true
unfolding ◌+ℤ◌
second_late = refl

media_convert-EndsWell_example :
    EndsWell 1000 viewer scene (media_convert 1000 viewer (pos 1000) scene)
media_convert-EndsWell_example =
    media_convert-EndsWell 1000 viewer (pos 1000) scene (inr (inl second_late)) tt
