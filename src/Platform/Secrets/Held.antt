-- ===== src/Platform/Secrets/Held.antt =====
-- The private files of src/platform.c: the descriptors after each operation.
use zimbr.Prelude.{
  ℕ, ◌≡◌, refl, ◌∙◌, Bool, true, false, Option, none, some, List, [], ◌∷◌, if◌then◌else◌, if_both,
}
use zimbr.Files.Kernel.{
  Bytes, Kernel, made, is_ok, open_call, close_fd, close, perform, stat_call, open_at,
  open_or_create, create_at, replace_at, lock, status_of,
}
use zimbr.Files.Descriptors.{IsKept, IsSame, close_first, open_call-IsKept}
use zimbr.Files.Read.{Fetch}
use zimbr.Net.Receive
use zimbr.Net.Receive.{write_all}
use zimbr.Cache.{working_directory}
use zimbr.Platform.Secrets.{
  is_own_regular, is_secret, private_mode, stored, secured, secure_file, short, secret_in,
  read_secret, locked, lock_in, lock_file, random_path, random_in, random,
}

private_mode-fds : (fd : ℕ) (b : Bool) (k : Kernel) → (private_mode fd b k).1.fds ≡ k.fds
unfolding perform made
private_mode-fds fd true k = refl
private_mode-fds fd false k = refl

stored-fds : (fd : ℕ) (w : Bool × Bytes) (k : Kernel) → (stored fd w k).1.fds ≡ close_fd fd k.fds
unfolding perform made
stored-fds fd (true, file) k = refl
stored-fds fd (false, file) k = refl

secured-IsSame :
    (answers : List Receive.Answer) (content : Bytes) (before : List ℕ) (r : Option ℕ × Kernel)
    → IsKept before r
    → IsSame before (secured answers content r)
unfolding stat_call made
secured-IsSame answers content before (none, k) h = h
secured-IsSame answers content before (some fd, k) h =
    let s = stat_call (status_of fd) k in
    let m = private_mode fd (is_own_regular k.user s.0) s.1 in
    let w = write_all answers content [] in
    let kept = stored fd w m.1 in
    let fds : m.1.fds ≡ fd ∷ before = private_mode-fds fd (is_own_regular k.user s.0) s.1 ∙ h in
    if_both (IsSame before) m.0 ((kept.0, some w.1), kept.1) ((false, none), close fd m.1)
      (stored-fds fd w m.1 ∙ close_first fd m.1.fds before fds) (close_first fd m.1.fds before fds)

secret_in-IsSame :
    (cap : ℕ) (content : Option Bytes) (before : List ℕ) (r : Option ℕ × Kernel)
    → IsKept before r
    → IsSame before (secret_in cap content r)
unfolding stat_call made
secret_in-IsSame cap content before (none, k) h = h
secret_in-IsSame cap content before (some fd, k) h =
    let s = stat_call (status_of fd) k in
    if_both (IsSame before) (is_secret k.user s.0) (short cap content, close fd s.1)
      (none, close fd s.1) (close_first fd k.fds before h) (close_first fd k.fds before h)

locked-IsKept :
    (fd : ℕ) (b : Bool) (before : List ℕ) (k : Kernel)
    → k.fds ≡ fd ∷ before
    → IsKept before (locked fd b k)
unfolding perform made
locked-IsKept fd false before k h = close_first fd k.fds before h
locked-IsKept fd true before k h =
    let r = perform (lock fd) k in
    if_both (IsKept before) (is_ok r.0) (some fd, r.1) (none, close fd r.1) h
      (close_first fd k.fds before h)

lock_in-IsKept :
    (before : List ℕ) (r : Option ℕ × Kernel) → IsKept before r → IsKept before (lock_in r)
unfolding stat_call made
lock_in-IsKept before (none, k) h = h
lock_in-IsKept before (some fd, k) h =
    let s = stat_call (status_of fd) k in locked-IsKept fd (is_own_regular k.user s.0) before s.1 h

random_in-IsSame :
    (n : ℕ) (answers : List Fetch) (source : Bytes) (before : List ℕ) (r : Option ℕ × Kernel)
    → IsKept before r
    → IsSame before (random_in n answers source r)
random_in-IsSame n answers source before (none, k) h = h
random_in-IsSame n answers source before (some fd, k) h = close_first fd k.fds before h

pub random-IsSame :
    (n : ℕ) (answers : List Fetch) (source : Bytes) (k : Kernel)
    → IsSame k.fds (random n answers source k)
unfolding random
random-IsSame n answers source k =
    random_in-IsSame n answers source k.fds (open_call (open_at working_directory random_path) k)
      (open_call-IsKept (open_at working_directory random_path) k)

-- Whatever the kernel answers, after the write and the read of a secret and the read of random
-- bytes the open descriptors are those from before, and after the lock these with the lock's in
-- front, if it was taken.
pub secrets-IsKept :
    (path content source : Bytes) (replace : Bool) (answers : List Receive.Answer)
    (fetches : List Fetch) (secret : Option Bytes) (n cap : ℕ) (k : Kernel)
    → IsSame k.fds (secure_file path content replace answers k)
      × IsSame k.fds (read_secret path cap secret k)
      × IsKept k.fds (lock_file path k)
      × IsSame k.fds (random n fetches source k)
unfolding secure_file read_secret lock_file
secrets-IsKept path content source replace answers fetches secret n cap k =
    let c =
      if replace then replace_at working_directory path else create_at working_directory path in
    (
      secured-IsSame answers content k.fds (open_call c k) (open_call-IsKept c k),
      secret_in-IsSame cap secret k.fds (open_call (open_at working_directory path) k)
          (open_call-IsKept (open_at working_directory path) k),
      lock_in-IsKept k.fds (open_call (open_or_create working_directory path) k)
          (open_call-IsKept (open_or_create working_directory path) k),
      random-IsSame n fetches source k,
    )
