-- ===== src/Files/Uploads.antt =====
-- src/relay/uploads.c: the directory of an upload, its files, and their removal. A descriptor or -1
-- is `some` or `none`, 0 or -1 is `true` or `false`.
pub mod Descriptors
pub mod Install
use zimbr.Prelude.{
  ℕ, zero, suc, ◌+◌, ◌*◌, ◌%◌, Bool, true, false, not, ◌&&◌, ◌||◌, Option, none, some, List, [],
  ◌∷◌, ◌++◌, ◌==◌, ltb, leb, if◌then◌else◌, length, bytes_eq,
}
use zimbr.Files.Kernel.{
  Bytes, Stat, Answer, Call, Kernel, no_entry, made, error_of, is_ok, open_call, close, perform,
  Found, found, lost, stat_call, is_private, descriptor, success, status, entry, finished, failure,
  open_at, create_at, make_directory, sync, status_of, status_at, rename, unlink, remove_directory,
  open_stream, read_entry,
}

unfoldable pub has_slash : Bytes → Bool
has_slash [] = false
has_slash (c ∷ cs) = (c == b'/') || has_slash cs

abbrev pub is_dots : Bytes → Bool
is_dots name = bytes_eq name (b'.' ∷ []) || bytes_eq name (b'.' ∷ b'.' ∷ [])

-- a name that is not null
unfoldable pub component : Bytes → Bool
unfolding has_slash
component name =
    not (length name == 0) && not (is_dots name) && not (has_slash name) && leb (length name) 255

abbrev pub is_own_directory : ℕ → Found → Bool
is_own_directory user (lost e) = false
is_own_directory user (found st) = (st.uid == user) && is_private st.mode

-- the check of a directory that was opened
abbrev pub checked : Option ℕ × Kernel → Option ℕ × Kernel
checked (none, k) = (none, k)
checked (some fd, k) =
    let (st, k') = stat_call (status_of fd) k in
    if is_own_directory k.user st then (some fd, k') else (none, close fd k')

unfoldable pub private_directory : ℕ → Bytes → Kernel → Option ℕ × Kernel
unfolding open_call stat_call component
private_directory root id k =
    if not (component id) then (none, k) else checked (open_call (open_at root id) k)

-- the fsync of the root, if the directory is there
abbrev pub synced : ℕ → Option ℕ × Kernel → Option ℕ × Kernel
synced root (none, k) = (none, k)
synced root (some fd, k) =
    let (e, k') = perform (sync root) k in if is_ok e then (some fd, k') else (none, close fd k')

unfoldable pub upload_directory : ℕ → Bytes → Kernel → Option ℕ × Kernel
unfolding private_directory perform
upload_directory root id k =
    let (e, k') = perform (make_directory root id) k in
    if not (component id)
    then (none, k)
    else if is_ok e
    then synced root (private_directory root id k')
    else (none, k')

unfoldable pub upload_temporary : ℕ → Bytes → Kernel → Option ℕ × Kernel
unfolding open_call
upload_temporary directory name k =
    if not (component name) then (none, k) else open_call (create_at directory name) k

abbrev pub upload_cap : ℕ
upload_cap = 100 * 1024 * 1024

abbrev pub has_size : Option ℕ → ℕ → Bool
has_size none n = false
has_size (some m) n = m == n

abbrev pub is_own_file : ℕ → ℕ → Found → Bool
is_own_file user n (lost e) = false
is_own_file user n (found st) =
    st.is_regular && (st.uid == user) && (st.links == 1) && is_private st.mode && has_size st.size n

unfoldable pub regular_file : ℕ → ℕ → Kernel → Bool × Kernel
unfolding stat_call
regular_file fd n k =
    let (st, k') = stat_call (status_of fd) k in
    if leb n upload_cap then (is_own_file k.user n st, k') else (false, k)

-- the next step, after one that succeeded
abbrev pub then_call : Call → Bool × Kernel → Bool × Kernel
then_call c (false, k) = (false, k)
then_call c (true, k) = let (e, k') = perform c k in if is_ok e then (true, k') else (false, k')

-- a name that is not taken: fstatat fails with ENOENT
abbrev pub is_absent : Found → Bool
is_absent (found st) = false
is_absent (lost e) = e == no_entry

abbrev pub then_absent : ℕ → Bytes → Bool × Kernel → Bool × Kernel
then_absent directory name (false, k) = (false, k)
then_absent directory name (true, k) =
    let (st, k') = stat_call (status_at directory name) k in (is_absent st, k')

unfoldable pub upload_install : ℕ → ℕ → Bytes → Bytes → ℕ → Kernel → Bool × Kernel
unfolding regular_file perform
upload_install directory fd temporary name n k =
    if not (component temporary) || not (component name) || bytes_eq temporary name
    then (false, k)
    else then_call (sync directory) (
        then_call (rename directory temporary name)
          (then_absent directory name (then_call (sync fd) (regular_file fd n k))))

abbrev pub kept_file : ℕ → Option ℕ × Kernel → Option ℕ × Kernel
kept_file n (none, k) = (none, k)
kept_file n (some fd, k) =
    let (good, k') = regular_file fd n k in if good then (some fd, k') else (none, close fd k')

abbrev pub opened_in : Bytes → ℕ → Option ℕ × Kernel → Option ℕ × Kernel
opened_in name n (none, k) = (none, k)
opened_in name n (some directory, k) =
    let (file, k') = open_call (open_at directory name) k in kept_file n (file, close directory k')

unfoldable pub upload_open : ℕ → Bytes → Bytes → ℕ → Kernel → Option ℕ × Kernel
unfolding private_directory regular_file
upload_open root id name n k =
    if not (component name) then (none, k) else opened_in name n (private_directory root id k)

-- The loop over the entries, on the answers that are left, after `count` of them were removed.
unfoldable pub clear : List Answer → ℕ → ℕ → Kernel → Bool × Kernel
clear [] fd count k = (false, made (read_entry fd) k)
clear (descriptor g ∷ as') fd count k = (false, made (read_entry fd) k)
clear (success ∷ as') fd count k = (false, made (read_entry fd) k)
clear (status st ∷ as') fd count k = (false, made (read_entry fd) k)
clear (finished ∷ as') fd count k = (true, made (read_entry fd) k)
clear (failure e ∷ as') fd count k = (false, made (read_entry fd) k)
clear (entry name ∷ []) fd count k =
    if is_dots name
    then (false, made (read_entry fd) (made (read_entry fd) k))
    else if ltb 16 (count + 1)
    then (false, made (read_entry fd) k)
    else (false, made (unlink fd name) (made (read_entry fd) k))
clear (entry name ∷ a ∷ as') fd count k =
    let k' = made (read_entry fd) k in
    let next = clear (a ∷ as') fd count k' in
    let rest = clear as' fd (count + 1) (made (unlink fd name) k') in
    if is_dots name
    then next
    else if ltb 16 (count + 1)
    then (false, k')
    else if is_ok (error_of a)
    then rest
    else (false, made (unlink fd name) k')

-- from fdopendir, which takes the descriptor over, to the end
abbrev pub emptied : ℕ → Bytes → Option ℕ × Kernel → Bool × Kernel
emptied root id (none, k) = (false, k)
emptied root id (some fd, k) =
    let (e, k') = perform (open_stream fd) k in
    let (good, k'') = clear k'.answers fd 0 k' in
    if is_ok e
    then then_call (sync root) (then_call (remove_directory root id) (good, close fd k''))
    else (false, close fd k')

abbrev pub removed_at : ℕ → Bytes → Found → Kernel → Bool × Kernel
removed_at root id (lost e) k = (e == no_entry, k)
removed_at root id (found st) k =
    if not st.is_directory then (false, k) else emptied root id (private_directory root id k)

unfoldable pub upload_remove : ℕ → Bytes → Kernel → Bool × Kernel
unfolding private_directory clear perform
upload_remove root id k =
    let (st, k') = stat_call (status_at root id) k in
    if not (component id) then (false, k) else removed_at root id st k'
