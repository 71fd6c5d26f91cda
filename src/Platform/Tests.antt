-- ===== src/Platform/Tests.antt =====
-- The theorems about src/platform.c at concrete inputs.
use zimbr.Prelude.Int.{pos, ltb_ℤ, ◌+ℤ◌, ◌*ℤ◌, ◌-ℤ◌}
use zimbr.Prelude.{ℕ, ◌≡◌, refl, inr, inl, true, false, some, List, [], ◌∷◌}
use zimbr.Files.Kernel.{Bytes, Kernel, descriptor, success, status}
use zimbr.Net.Receive
use zimbr.Platform.Spawn.{Instant, Round, Scene, Ended, elapsed, spawn, ready}
use zimbr.Platform.Spawn
use zimbr.Platform.Spawn.Reaped.{IsClean, spawn-IsClean}
use zimbr.Platform.Spawn.Marker.{IsMarked, spawn-IsMarked}
use zimbr.Platform.Secrets.{secure_file}
use zimbr.Platform.Secrets.Stored.{IsStored, opening, secure_file-IsStored}

abbrev at_second : ℕ → Instant
at_second s = record { sec = s; nsec = 7 }

abbrev round : Bytes → Spawn.Waited → Bytes → ℕ → Round
round output waited rest second = record {
  output = output;
  waited = waited;
  rest = rest;
  now = at_second second;
}

-- the script prints its marker in two pieces, and is waited for again after an interruption
abbrev quick : Scene
quick = record {
  piped = true;
  prepared = true;
  spawned = true;
  start = at_second 100;
  rounds =
      round (b'r' ∷ b'e' ∷ []) Spawn.Waited.running [] 100
      ∷ round [] Spawn.Waited.interrupted [] 101
      ∷ round (b'a' ∷ b'd' ∷ []) (Spawn.Waited.ended (Spawn.Status.exited 0)) (b'y' ∷ b'\n' ∷ [])
          101
      ∷ [];
  reaping = [];
}

-- the script hangs, and is killed after three seconds
abbrev slow : Scene
slow = record quick {
  rounds = round [] Spawn.Waited.running [] 101 ∷ round [] Spawn.Waited.running [] 103 ∷ [];
  reaping = Spawn.Waited.interrupted ∷ Spawn.Waited.ended Spawn.Status.signalled ∷ [];
}

slow_late : ltb_ℤ (elapsed (at_second 100) (at_second 103)) (pos 3000) ≡ false
unfolding ◌+ℤ◌ ◌*ℤ◌ ◌-ℤ◌
slow_late = refl

spawn-IsClean_example : IsClean (spawn (pos 3000) slow)
spawn-IsClean_example = spawn-IsClean (pos 3000) slow (inr (inl slow_late)) tt

abbrev finished : Ended
finished = record {
  code = pos 0;
  held = record { read_end = false; write_end = false; child = Spawn.Child.reaped };
}

quick_run : spawn (pos 3000) quick ≡ some finished
unfolding spawn ◌+ℤ◌ ◌*ℤ◌ ◌-ℤ◌
quick_run = refl

spawn-IsMarked_example : IsMarked quick.rounds [] finished
spawn-IsMarked_example = spawn-IsMarked (pos 3000) quick finished 0 quick_run refl

abbrev path : Bytes
path = b'k' ∷ b'e' ∷ b'y' ∷ []

abbrev kernel : Kernel
kernel = record {
  user = 1000;
  answers =
      descriptor 9
      ∷ status (record {
        is_regular = true;
        is_directory = false;
        uid = 1000;
        mode = 420;
        links = 1;
        size = some 0;
      })
      ∷ success
      ∷ success
      ∷ [];
  fds = 4 ∷ [];
  calls = [];
}

abbrev short_writes : List Receive.Answer
short_writes = Receive.Answer.takes 2 ∷ Receive.Answer.interrupted ∷ Receive.Answer.takes 5 ∷ []

secret_stored : (secure_file path path true short_writes kernel).0.0 ≡ true
unfolding secure_file
secret_stored = refl

secure_file-IsStored_example :
    IsStored path (opening path true) kernel (secure_file path path true short_writes kernel)
secure_file-IsStored_example = secure_file-IsStored path path true short_writes kernel secret_stored
