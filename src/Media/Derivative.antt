-- ===== src/Media/Derivative.antt =====
-- src/relay/media.c: the derived pictures, from their temporary files to those in the cache.
use zimbr.Prelude.{
  ℕ, ◌*◌, Bool, true, false, not, ◌&&◌, ◌||◌, Option, none, some, [], ◌∷◌, ◌==◌, leb, if◌then◌else◌,
  starts_with,
}
use zimbr.Files.Kernel.{
  Bytes, Call, Kernel, is_ok, open_call, close, perform, Found, found, lost, stat_call, is_private,
  create_at, change_mode, sync, status_of, rename, unlink,
}
use zimbr.Media.{unavailable, unsafe, Result, ok, err, component, error_code, Tried, open_part}

abbrev pub temporary_prefix : Bytes
temporary_prefix = b'.' ∷ b't' ∷ b'm' ∷ b'p' ∷ b'-' ∷ []

abbrev pub result_of : Option ℕ × Kernel → Result ℕ × Kernel
result_of (none, k) = (err unavailable, k)
result_of (some fd, k) = (ok fd, k)

unfoldable pub media_temporary : ℕ → Bytes → Kernel → Result ℕ × Kernel
unfolding component open_call
media_temporary directory name k =
    if not (component name) || not (starts_with temporary_prefix name)
    then (err unsafe, k)
    else result_of (open_call (create_at directory name) k)

abbrev pub derivative_size : Option ℕ → Bool
derivative_size none = false
derivative_size (some n) = leb 1 n && leb n (8 * 1024 * 1024)

abbrev pub is_derivative : ℕ → Found → Bool
is_derivative user (lost e) = false
is_derivative user (found st) =
    st.is_regular && (st.uid == user) && (st.links == 1) && derivative_size st.size

-- the next call, after those that succeeded
abbrev pub then_call : Call → Bool × Kernel → Bool × Kernel
then_call c (false, k) = (false, k)
then_call c (true, k) = let (e, k') = perform c k in (is_ok e, k')

unfoldable pub media_install : ℕ → ℕ → Bytes → Bytes → Kernel → Bool × Kernel
unfolding component stat_call perform
media_install directory fd temporary name k =
    let (st, k') = stat_call (status_of fd) k in
    if not (component temporary) || not (component name)
    then (false, k)
    else then_call (sync directory) (
        then_call (rename directory temporary name)
          (then_call (sync fd) (then_call (change_mode fd 384) (is_derivative k.user st, k'))))

abbrev pub has_length : ℕ → Found → Bool
has_length n (lost e) = false
has_length n (found st) = elim st.size [ none ↦ false | some m ↦ m == n ]

abbrev pub is_private_file : Found → Bool
is_private_file (lost e) = false
is_private_file (found st) = is_private st.mode

abbrev pub cached : ℕ → Tried × Kernel → Result ℕ × Kernel
cached n ((none, e), k) = (err (error_code e), k)
cached n ((some fd, e), k) =
    let (st, k') = stat_call (status_of fd) k in
    if not (is_derivative k.user st && is_private_file st && has_length n st)
    then (err unsafe, close fd k')
    else (ok fd, k')

unfoldable pub media_cached : ℕ → Bytes → ℕ → Kernel → Result ℕ × Kernel
unfolding component open_call stat_call
media_cached directory name n k =
    if not (component name) then (err unsafe, k) else cached n (open_part directory name k)

unfoldable pub media_remove : ℕ → Bytes → Kernel → Result (Option ℕ) × Kernel
unfolding component perform
media_remove directory name k =
    let (e, k') = perform (unlink directory name) k in
    if not (component name) then (err unsafe, k) else (ok e, k')
