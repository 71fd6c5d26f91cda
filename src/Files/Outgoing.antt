-- ===== src/Files/Outgoing.antt =====
-- src/client/outgoing.c: the private copies of what the client sends.
pub mod Copies
use zimbr.Prelude.{
  ℕ, ◌+◌, ◌%◌, Bool, true, false, not, ◌&&◌, ◌||◌, Option, none, some, List, [], ◌∷◌, ◌==◌, ltb,
  leb, if◌then◌else◌, length,
}
use zimbr.Files.Kernel.{
  Bytes, Stat, Answer, Call, Kernel, no_entry, exists, made, is_ok, open_call, close, perform,
  Found, found, lost, stat_call, descriptor, success, status, entry, finished, failure, open_at,
  create_at, make_directory, sync, status_of, unlink, read_entry,
}
use zimbr.Files.Uploads.{is_own_file}

abbrev pub is_id_byte : ℕ → Bool
is_id_byte c =
    (leb b'a' c && leb c b'z')
    || (leb b'A' c && leb c b'Z')
    || (leb b'0' c && leb c b'9')
    || (c == b'-')
    || (c == b'_')

unfoldable pub all_id_bytes : Bytes → Bool
all_id_bytes [] = true
all_id_bytes (c ∷ cs) = is_id_byte c && all_id_bytes cs

unfoldable pub valid_id : Bytes → Bool
unfolding all_id_bytes
valid_id id = (length id == 22) && all_id_bytes id

abbrev pub outgoing_name : Bytes
outgoing_name = b'o' ∷ b'u' ∷ b't' ∷ b'g' ∷ b'o' ∷ b'i' ∷ b'n' ∷ b'g' ∷ []

-- (st_mode & 0777) == 0700
abbrev pub is_own_place : ℕ → Found → Bool
is_own_place user (lost e) = false
is_own_place user (found st) = (st.uid == user) && (st.mode % 512 == 448)

-- the checks of the directory, and the fsync of its parent
abbrev pub placed : ℕ → Option ℕ × Kernel → Option ℕ × Kernel
placed parent (none, k) = (none, k)
placed parent (some fd, k) =
    let (st, k') = stat_call (status_of fd) k in
    let (e, k'') = perform (sync parent) k' in
    if not (is_own_place k.user st)
    then (none, close fd k')
    else if is_ok e
    then (some fd, k'')
    else (none, close fd k'')

abbrev pub is_error : Option ℕ → ℕ → Bool
is_error none e = false
is_error (some d) e = d == e

-- the label `end`
abbrev pub closing : ℕ → Option ℕ × Kernel → Option ℕ × Kernel
closing parent (fd, k) = (fd, close parent k)

abbrev pub in_parent : Option ℕ × Kernel → Option ℕ × Kernel
in_parent (none, k) = (none, k)
in_parent (some parent, k) =
    let (e, k') = perform (make_directory parent outgoing_name) k in
    if not (is_ok e) && not (is_error e exists)
    then (none, close parent k')
    else closing parent (placed parent (open_call (open_at parent outgoing_name) k'))

-- `data` is a path for open(2), from the current directory's descriptor 0
unfoldable pub outgoing_directory : Bytes → Kernel → Option ℕ × Kernel
unfolding open_call perform stat_call
outgoing_directory path k = in_parent (open_call (open_at 0 path) k)

-- zc_outgoing_fingerprint: of a regular file
abbrev pub fingerprint : Found → Option Stat
fingerprint (lost e) = none
fingerprint (found st) = elim st.size [
  | none ↦ none
  | some n ↦ (if st.is_regular then some st else none)
]

abbrev pub fingerprinted : ℕ → Option Stat → Kernel → Option (ℕ × Stat) × Kernel
fingerprinted fd none k = (none, close fd k)
fingerprinted fd (some st) k = (some (fd, st), k)

abbrev pub source_of : Option ℕ × Kernel → Option (ℕ × Stat) × Kernel
source_of (none, k) = (none, k)
source_of (some fd, k) =
    let (st, k') = stat_call (status_of fd) k in fingerprinted fd (fingerprint st) k'

unfoldable pub outgoing_source : Bytes → Kernel → Option (ℕ × Stat) × Kernel
unfolding open_call stat_call
outgoing_source path k = source_of (open_call (open_at 0 path) k)

unfoldable pub outgoing_create : ℕ → Bytes → Kernel → Option ℕ × Kernel
unfolding open_call
outgoing_create directory id k =
    if not (valid_id id) then (none, k) else open_call (create_at directory id) k

-- the same conditions as of a file of the relay's uploads
abbrev pub own_copy : ℕ → Option ℕ × Kernel → Option ℕ × Kernel
own_copy n (none, k) = (none, k)
own_copy n (some fd, k) =
    let (st, k') = stat_call (status_of fd) k in
    if is_own_file k.user n st then (some fd, k') else (none, close fd k')

unfoldable pub outgoing_open : ℕ → Bytes → ℕ → Kernel → Option ℕ × Kernel
unfolding open_call stat_call
outgoing_open directory id n k =
    if not (valid_id id) then (none, k) else own_copy n (open_call (open_at directory id) k)

unfoldable pub outgoing_remove : ℕ → Bytes → Kernel → Bool × Kernel
unfolding perform
outgoing_remove directory id k =
    let (e, k') = perform (unlink directory id) k in
    let (f, k'') = perform (sync directory) k' in
    if not (valid_id id)
    then (false, k)
    else if not (is_ok e) && not (is_error e no_entry)
    then (false, k')
    else (is_ok f, k'')

-- zc_outgoing_next: a length above 0, 0 and -1
pub data Next : Type 0 where
  named : Bytes → Next
  ended : Next
  broken : Next

-- the loop over the entries, on the kernel's answers
unfoldable pub outgoing_next : List Answer → ℕ → ℕ → Kernel → Next × Kernel
unfolding valid_id
outgoing_next [] scan capacity k = (broken, made (read_entry scan) k)
outgoing_next (descriptor fd ∷ as') scan capacity k = (broken, made (read_entry scan) k)
outgoing_next (success ∷ as') scan capacity k = (broken, made (read_entry scan) k)
outgoing_next (status st ∷ as') scan capacity k = (broken, made (read_entry scan) k)
outgoing_next (failure e ∷ as') scan capacity k = (broken, made (read_entry scan) k)
outgoing_next (finished ∷ as') scan capacity k = (ended, made (read_entry scan) k)
outgoing_next (entry name ∷ as') scan capacity k =
    let k' = made (read_entry scan) k in
    let next = outgoing_next as' scan capacity k' in
    if not (valid_id name)
    then next
    else if leb capacity (length name)
    then (broken, k')
    else (named name, k')
