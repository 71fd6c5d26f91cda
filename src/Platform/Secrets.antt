-- ===== src/Platform/Secrets.antt =====
-- src/platform.c: the private files of the relay, its lock, and random bytes. A descriptor or -1 is
-- `some` or `none`, 0 or -1 is `true` or `false`.
pub mod Held
pub mod Stored
use zimbr.Prelude.{
  ℕ, Bool, true, false, not, ◌&&◌, Option, none, some, List, [], ◌∷◌, ◌==◌, ltb, if◌then◌else◌,
  length,
}
use zimbr.Files.Kernel.{
  Bytes, Stat, Kernel, is_ok, open_call, close, perform, Found, found, lost, stat_call, is_private,
  open_at, open_or_create, create_at, replace_at, change_mode, lock, sync, write, status_of,
}
use zimbr.Files.Read.{Fetch, read_all}
use zimbr.Net.Receive
use zimbr.Net.Receive.{write_all}
use zimbr.Cache.{working_directory}

-- a regular file of the user's
abbrev pub is_own_regular : ℕ → Found → Bool
is_own_regular user (lost e) = false
is_own_regular user (found st) = (st.uid == user) && st.is_regular

abbrev pub is_secret : ℕ → Found → Bool
is_secret user (lost e) = false
is_secret user (found st) = (st.uid == user) && is_private st.mode && st.is_regular

-- fchmod to 0600, in the chain of checks
abbrev pub private_mode : ℕ → Bool → Kernel → Bool × Kernel
private_mode fd false k = (false, k)
private_mode fd true k = let (e, k') = perform (change_mode fd 384) k in (is_ok e, k')

-- the loop over write(2), which the log has as one write of all that was written
abbrev pub log_write : ℕ → Bytes → Kernel → Kernel
log_write fd file k = record k { calls = write fd file ∷ k.calls }

-- the end of the write, and the fsync
abbrev pub stored : ℕ → Bool × Bytes → Kernel → Bool × Kernel
stored fd (false, file) k = (false, close fd (log_write fd file k))
stored fd (true, file) k =
    let (e, k') = perform (sync fd) (log_write fd file k) in (is_ok e, close fd k')

-- Beside the result, the content of the file, where it was opened and passed the checks.
abbrev pub secured :
    List Receive.Answer → Bytes → Option ℕ × Kernel → (Bool × Option Bytes) × Kernel
secured answers content (none, k) = ((false, none), k)
secured answers content (some fd, k) =
    let (st, k') = stat_call (status_of fd) k in
    let (good, k'') = private_mode fd (is_own_regular k.user st) k' in
    let written = write_all answers content [] in
    let (kept, k''') = stored fd written k'' in
    if good then ((kept, some written.1), k''') else ((false, none), close fd k'')

unfoldable pub secure_file :
    Bytes → Bytes → Bool → List Receive.Answer → Kernel → (Bool × Option Bytes) × Kernel
unfolding open_call stat_call perform write_all
secure_file path content replace answers k = secured answers content (
    open_call
      (if replace then replace_at working_directory path else create_at working_directory path) k)

-- what read(2) gives, if it succeeds; at most `cap` bytes
abbrev pub short : ℕ → Option Bytes → Option Bytes
short cap none = none
short cap (some bytes) = if ltb (length bytes) cap then some bytes else none

abbrev pub secret_in : ℕ → Option Bytes → Option ℕ × Kernel → Option Bytes × Kernel
secret_in cap content (none, k) = (none, k)
secret_in cap content (some fd, k) =
    let (st, k') = stat_call (status_of fd) k in
    if is_secret k.user st then (short cap content, close fd k') else (none, close fd k')

unfoldable pub read_secret : Bytes → ℕ → Option Bytes → Kernel → Option Bytes × Kernel
unfolding open_call stat_call
read_secret path cap content k =
    secret_in cap content (open_call (open_at working_directory path) k)

abbrev pub locked : ℕ → Bool → Kernel → Option ℕ × Kernel
locked fd false k = (none, close fd k)
locked fd true k =
    let (e, k') = perform (lock fd) k in if is_ok e then (some fd, k') else (none, close fd k')

abbrev pub lock_in : Option ℕ × Kernel → Option ℕ × Kernel
lock_in (none, k) = (none, k)
lock_in (some fd, k) =
    let (st, k') = stat_call (status_of fd) k in locked fd (is_own_regular k.user st) k'

-- zr_lock; the open creates the file but does not clear it
unfoldable pub lock_file : Bytes → Kernel → Option ℕ × Kernel
unfolding open_call stat_call perform
lock_file path k = lock_in (open_call (open_or_create working_directory path) k)

abbrev pub random_path : Bytes
random_path = b'/' ∷ b'd' ∷ b'e' ∷ b'v' ∷ b'/' ∷ b'u' ∷ b'r' ∷ b'a' ∷ b'n' ∷ b'd' ∷ b'o' ∷ b'm' ∷ []

abbrev pub bytes_of : Option (Bytes × List Fetch) → Option Bytes
bytes_of none = none
bytes_of (some (bytes, answers)) = some bytes

abbrev pub random_in : ℕ → List Fetch → Bytes → Option ℕ × Kernel → Option Bytes × Kernel
random_in n answers source (none, k) = (none, k)
random_in n answers source (some fd, k) = (bytes_of (read_all answers n source []), close fd k)

-- `source` is what the device would give
unfoldable pub random : ℕ → List Fetch → Bytes → Kernel → Option Bytes × Kernel
unfolding open_call read_all
random n answers source k =
    random_in n answers source (open_call (open_at working_directory random_path) k)
