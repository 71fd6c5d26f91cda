-- ===== src/Private/Tests.antt =====
-- The theorems about the private files at concrete inputs.
use zimbr.Prelude.{ℕ, true, false, some, [], ◌∷◌, ◌≡◌, refl, replicate}
use zimbr.Prelude.Int.{pos}
use zimbr.Files.Kernel.{Bytes, Answer, Kernel, descriptor, success, status}
use zimbr.Files.Read.{gives, interrupted}
use zimbr.Net.Receive
use zimbr.Private.Client
use zimbr.Private.Client.{Source}
use zimbr.Private.Walk.{Ends, private_read-Ends}
use zimbr.Private.Replace.{World, replace_config}
use zimbr.Private.Refinement.{Refines, replace_config-Refines}

-- /a/key
abbrev path : Bytes
path = b'/' ∷ b'a' ∷ b'/' ∷ b'k' ∷ b'e' ∷ b'y' ∷ []

abbrev directory : ℕ → ℕ → Answer
directory uid mode = status (record {
  is_regular = false;
  is_directory = true;
  uid = uid;
  mode = mode;
  links = 2;
  size = some 0;
})

abbrev regular : ℕ → Answer
regular size = status (record {
  is_regular = true;
  is_directory = false;
  uid = 1000;
  mode = 384;
  links = 1;
  size = some size;
})

abbrev source : Source
source = record {
  content = b'p' ∷ b'e' ∷ b'm' ∷ [];
  answers = gives 0 ∷ interrupted ∷ gives 9 ∷ gives 0 ∷ [];
  allocated = true;
}

-- the root, /a and the file
abbrev walk_kernel : Kernel
walk_kernel = record {
  user = 1000;
  answers =
      descriptor 3
      ∷ directory 0 493
      ∷ descriptor 4
      ∷ directory 1000 448
      ∷ descriptor 5
      ∷ regular 3
      ∷ [];
  fds = 7 ∷ [];
  calls = [];
}

credential_read :
    (Client.private_read path source walk_kernel).0 ≡ Client.Reading.have source.content
unfolding Client.private_read
credential_read = refl

private_read-Ends_example : Ends source (7 ∷ []) (Client.private_read path source walk_kernel)
private_read-Ends_example = private_read-Ends path source walk_kernel

abbrev old : Bytes
old = b'o' ∷ b'l' ∷ b'd' ∷ []

abbrev new : Bytes
new = b'n' ∷ b'e' ∷ b'w' ∷ []

abbrev world : World
world = record {
  first = record { content = old; answers = gives 9 ∷ gives 9 ∷ [] };
  second = record { content = old; answers = gives 0 ∷ gives 0 ∷ gives 0 ∷ gives 0 ∷ [] };
  fetches = gives 99 ∷ [];
  source = replicate 16 0x5c;
  writes = Receive.Answer.takes 1 ∷ Receive.Answer.takes 9 ∷ [];
}

-- the walk, the first check, /dev/urandom, the new file, the second check, the rename and the end
abbrev swap_kernel : Kernel
swap_kernel = record {
  user = 1000;
  answers =
      descriptor 3
      ∷ descriptor 4
      ∷ directory 1000 448
      ∷ directory 1000 448
      ∷ descriptor 5
      ∷ regular 3
      ∷ descriptor 6
      ∷ descriptor 8
      ∷ success
      ∷ success
      ∷ descriptor 9
      ∷ regular 3
      ∷ success
      ∷ success
      ∷ success
      ∷ [];
  fds = 7 ∷ [];
  calls = [];
}

config_replaced : (replace_config path (some old) new world swap_kernel).0.result ≡ pos 0
unfolding replace_config
config_replaced = refl

replace_config-Refines_example :
    Refines (some old) new world (7 ∷ []) (replace_config path (some old) new world swap_kernel)
replace_config-Refines_example = replace_config-Refines path (some old) new world swap_kernel
