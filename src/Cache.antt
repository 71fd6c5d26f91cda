-- ===== src/Cache.antt =====
-- src/client/media.c: the names of the cached files, and the operations on the directory of the
-- cache. A descriptor or -1 is `some` or `none`, 0 or 1 is `false` or `true`.
pub mod Names
pub mod Prune
pub mod Image
mod Tests
use zimbr.Prelude.{
  ℕ, ◌+◌, ◌-◌, ◌/◌, ◌%◌, ◌^◌, Bool, true, false, not, ◌&&◌, ◌||◌, Option, none, some, List, [], ◌∷◌,
  ◌++◌, ◌==◌, ltb, leb, if◌then◌else◌, length, starts_with,
}
use zimbr.Files.Kernel.{
  Bytes, Stat, Answer, Call, Kernel, exists, made, error_of, is_ok, open_call, close, perform,
  Found, stat_call, descriptor, success, status, entry, finished, failure, open_at, create_at,
  make_directory, sync, status_of, rename, unlink, open_stream, read_entry,
}
use zimbr.Files.Uploads.{then_call}
use zimbr.Files.Outgoing.{is_own_place, is_error}

abbrev pub temporary_prefix : Bytes
temporary_prefix = b't' ∷ b'm' ∷ b'p' ∷ b'-' ∷ []

abbrev pub is_name_byte : ℕ → Bool
is_name_byte c = (leb b'a' c && leb c b'f') || (leb b'0' c && leb c b'9')

unfoldable pub all_name_bytes : Bytes → Bool
all_name_bytes [] = true
all_name_bytes (c ∷ cs) = is_name_byte c && all_name_bytes cs

-- the bytes from `start` on
abbrev pub after_prefix : Bytes → Bytes
after_prefix (a ∷ b ∷ c ∷ d ∷ rest) = rest
after_prefix name = []

unfoldable pub cache_name : Bytes → Bool
unfolding all_name_bytes
cache_name name =
    if not (length name == 64) && not (length name == 36)
    then false
    else if length name == 36
    then starts_with temporary_prefix name && all_name_bytes (after_prefix name)
    else all_name_bytes name

-- AT_FDCWD, as an unsigned number
abbrev pub working_directory : ℕ
working_directory = 2 ^ 32 - 100

abbrev pub cache_checked : Option ℕ × Kernel → Option ℕ × Kernel
cache_checked (none, k) = (none, k)
cache_checked (some dir, k) =
    let (st, k') = stat_call (status_of dir) k in
    if is_own_place k.user st then (some dir, k') else (none, close dir k')

unfoldable pub cache_open : Bytes → Kernel → Option ℕ × Kernel
unfolding perform open_call stat_call
cache_open path k =
    let (e, k') = perform (make_directory working_directory path) k in
    if is_ok e || is_error e exists
    then cache_checked (open_call (open_at working_directory path) k')
    else (none, k')

-- a digit of "%02x"
abbrev pub digit : ℕ → ℕ
digit d = if ltb d 10 then b'0' + d else b'a' + (d - 10)

unfoldable pub digits : Bytes → Bytes
digits [] = []
digits (r ∷ random) = digit (r / 16) ∷ digit (r % 16) ∷ digits random

-- `random` is what getrandom wrote, which is not 16 bytes where it fails. The name is left empty
-- where the code does not write it.
unfoldable pub cache_temp : ℕ → ℕ → Bytes → Kernel → (Option ℕ × Bytes) × Kernel
unfolding digits open_call
cache_temp dir size random k =
    let name = temporary_prefix ++ digits random in
    let (fd, k') = open_call (create_at dir name) k in
    if ltb size 37 || not (length random == 16) then ((none, []), k) else ((fd, name), k')

unfoldable pub cache_install : ℕ → Bytes → Bytes → ℕ → Kernel → Bool × Kernel
unfolding cache_name perform
cache_install dir temporary key fd k =
    if not (cache_name temporary) || not (cache_name key) || not (length key == 64)
    then (false, k)
    else then_call (sync dir) (then_call (rename dir temporary key) (then_call (sync fd) (true, k)))

unfoldable pub cache_remove : ℕ → Bytes → Kernel → Kernel
unfolding cache_name perform
cache_remove dir name k = if cache_name name then (perform (unlink dir name) k).1 else k

abbrev pub is_avatar : Bytes → Bool
is_avatar [] = false
is_avatar (c ∷ name) = (length (c ∷ name) == 64) && (c == b'a') && cache_name (c ∷ name)

-- The loop over the stream, by the answers that are left. An unlink takes the next answer too.
unfoldable pub clear_scan : List Answer → (dir scan : ℕ) → Kernel → Kernel
unfolding cache_name made
clear_scan [] dir scan k = made (read_entry scan) k
clear_scan (descriptor fd ∷ as') dir scan k = made (read_entry scan) k
clear_scan (success ∷ as') dir scan k = made (read_entry scan) k
clear_scan (status st ∷ as') dir scan k = made (read_entry scan) k
clear_scan (finished ∷ as') dir scan k = made (read_entry scan) k
clear_scan (failure e ∷ as') dir scan k = made (read_entry scan) k
clear_scan (entry name ∷ []) dir scan k =
    let k' = made (read_entry scan) k in
    if is_avatar name
    then made (read_entry scan) (made (unlink dir name) k')
    else made (read_entry scan) k'
clear_scan (entry name ∷ a ∷ as') dir scan k =
    let k' = made (read_entry scan) k in
    let kept = clear_scan (a ∷ as') dir scan k' in
    let gone = clear_scan as' dir scan (made (unlink dir name) k') in
    if is_avatar name then gone else kept

-- fdopendir has an answer of its own; closedir closes the copy
abbrev pub cleared : ℕ → Option ℕ × Kernel → Kernel
cleared dir (none, k) = k
cleared dir (some copy, k) =
    let (e, k') = perform (open_stream copy) k in
    if is_ok e then close copy (clear_scan k'.answers dir copy k') else close copy k'

unfoldable pub cache_clear_avatars : ℕ → Kernel → Kernel
unfolding clear_scan open_call perform
cache_clear_avatars dir k = cleared dir (open_call (open_at dir (b'.' ∷ [])) k)
