-- ===== src/Media.antt =====
-- src/relay/media.c: the files of the media assets. A descriptor is `opened`, and the negative
-- results are the cases of `Failure`.
pub mod Derivative
pub mod Sweep
pub mod Walked
pub mod Held
pub mod Convert
pub mod Converted
mod Tests
use zimbr.Prelude.{
  ℕ, ◌*◌, ◌%◌, Bool, true, false, not, ◌&&◌, ◌||◌, Option, none, some, List, [], ◌∷◌, ◌==◌, ltb,
  leb, if◌then◌else◌, length, starts_with,
}
use zimbr.Prelude.Int.{ℤ}
use zimbr.Files.Kernel.{
  Bytes, Stat, Answer, Call, Kernel, no_entry, exists, made, is_ok, error_of, first_answer,
  open_call, close, perform, Found, found, lost, stat_call, is_private, descriptor, success, status,
  entry, finished, failure, open_at, create_at, make_directory, change_mode, duplicate, sync,
  status_of, rename, unlink, open_stream, read_entry,
}
use zimbr.Files.Uploads.{is_dots, has_slash}
use zimbr.Files.Outgoing.{is_error}
use zimbr.Cache.{working_directory}
use zimbr.Private.{root_path, split_path, relative, path_max}

-- -1, -2, -3, -4, -5, -6, -7 and -8
pub data Failure : Type 0 where
  unavailable : Failure
  not_local : Failure
  unsafe : Failure
  oversized : Failure
  corrupt : Failure
  timed_out : Failure
  changed : Failure
  no_helper : Failure

pub data Result {ℓ} (A : Type ℓ) : Type ℓ where
  ok : A → Result A
  err : Failure → Result A

unfoldable pub component : Bytes → Bool
unfolding has_slash
component name = not (length name == 0) && not (is_dots name) && not (has_slash name)

-- ELOOP and ENOTDIR
abbrev pub is_link : Option ℕ → Bool
is_link e = is_error e 40 || is_error e 20

abbrev pub error_code : Option ℕ → Failure
error_code e = if is_error e no_entry then not_local else if is_link e then unsafe else unavailable

-- the error of the call that is next
abbrev pub next_error : Kernel → Option ℕ
next_error k = error_of (first_answer k.answers)

-- a descriptor, or errno
abbrev pub Tried : Type 0
Tried = Option ℕ × Option ℕ

abbrev pub open_part : ℕ → Bytes → Kernel → Tried × Kernel
open_part fd part k = let (next, k') = open_call (open_at fd part) k in ((next, next_error k), k')

-- the directory is made if it is the last part and is not there
abbrev pub made_part : ℕ → Bytes → Option ℕ × Kernel → Result Tried × Kernel
made_part fd part (e, k) =
    if not (is_ok e) && not (is_error e exists)
    then (err unavailable, k)
    else let (t, k') = open_part fd part k in (ok t, k')

abbrev pub or_make : Bool → ℕ → Bytes → Tried × Kernel → Result Tried × Kernel
or_make makes fd part ((some next, e), k) = (ok (some next, e), k)
or_make makes fd part ((none, e), k) =
    if is_error e no_entry && makes
    then made_part fd part (perform (make_directory fd part) k)
    else (ok (none, e), k)

-- the directory before is closed
abbrev pub stepped : ℕ → Result Tried × Kernel → Result ℕ × Kernel
stepped fd (err e, k) = (err e, close fd k)
stepped fd (ok (none, e), k) = (err (error_code e), close fd k)
stepped fd (ok (some next, e), k) = (ok next, close fd k)

abbrev pub step_into : Bool → ℕ → Bytes → Kernel → Result ℕ × Kernel
step_into makes fd part k =
    if not (component part)
    then (err unsafe, close fd k)
    else stepped fd (or_make makes fd part (open_part fd part k))

abbrev pub and_walk : Result ℕ × Kernel → (ℕ → Kernel → Result ℕ × Kernel) → Result ℕ × Kernel
and_walk (err e, k) walk = (err e, k)
and_walk (ok fd, k) walk = walk fd k

-- the loop over the parts
unfoldable pub walk : Bool → Bytes → List Bytes → ℕ → Kernel → Result ℕ × Kernel
unfolding component open_call perform
walk create part [] fd k = step_into create fd part k
walk create part (q ∷ qs) fd k = and_walk (step_into false fd part k) (walk create q qs)

abbrev pub is_own_private : ℕ → Found → Bool
is_own_private user (lost e) = false
is_own_private user (found st) = (st.uid == user) && is_private st.mode

abbrev pub private_if : Bool → Result ℕ × Kernel → Result ℕ × Kernel
private_if create (err e, k) = (err e, k)
private_if create (ok fd, k) =
    let (st, k') = stat_call (status_of fd) k in
    if not create
    then (ok fd, k)
    else if is_own_private k.user st
    then (ok fd, k')
    else (err unsafe, close fd k')

abbrev pub from_root : Bool → Bytes × List Bytes → Option ℕ × Kernel → Result ℕ × Kernel
from_root create parts (none, k) = (err unavailable, k)
from_root create (part, rest) (some fd, k) = private_if create (walk create part rest fd k)

abbrev pub with_path : Bool → Option Bytes → Kernel → Result ℕ × Kernel
with_path create none k = (err unsafe, k)
with_path create (some path) k =
    from_root create (split_path path) (open_call (open_at working_directory root_path) k)

unfoldable pub media_directory : Bytes → Bool → Kernel → Result ℕ × Kernel
unfolding split_path walk open_call stat_call
media_directory path create k = with_path create (relative path) k

-- ZrMediaFingerprint without the size: what fstat tells of a file beside its Stat
pub record Details : Type 0 where
  pub device : ℕ
  pub inode : ℕ
  pub modified_sec : ℤ
  pub modified_ns : ℤ
  pub changed_sec : ℤ
  pub changed_ns : ℤ

pub record Fingerprint : Type 0 where
  pub bytes : ℕ
  pub details : Details

abbrev pub source_cap : ℕ
source_cap = 100 * 1024 * 1024

abbrev pub sized : Details → Option ℕ → Result Fingerprint
sized d none = err unsafe
sized d (some n) =
    if ltb source_cap n then err oversized else ok (record { bytes = n; details = d })

unfoldable pub fingerprint_of : ℕ → Details → Found → Result Fingerprint
fingerprint_of user d (lost e) = err unavailable
fingerprint_of user d (found st) =
    if not st.is_regular || not (st.uid == user) || not (st.links == 1)
    then err unsafe
    else sized d st.size

unfoldable pub media_fingerprint : ℕ → Details → Kernel → Result Fingerprint × Kernel
unfolding fingerprint_of stat_call
media_fingerprint fd d k =
    let (st, k') = stat_call (status_of fd) k in (fingerprint_of k.user d st, k')

-- a descriptor, with the fingerprint of its file
abbrev pub printed : ℕ → Result Fingerprint × Kernel → Result (ℕ × Fingerprint) × Kernel
printed fd (err e, k) = (err e, close fd k)
printed fd (ok f, k) = (ok (fd, f), k)

abbrev pub print_if : Details → Result ℕ × Kernel → Result (ℕ × Fingerprint) × Kernel
print_if d (err e, k) = (err e, k)
print_if d (ok fd, k) = printed fd (media_fingerprint fd d k)

abbrev pub from_copy :
    Details → Bytes × List Bytes → Option ℕ × Kernel → Result (ℕ × Fingerprint) × Kernel
from_copy d parts (none, k) = (err unavailable, k)
from_copy d (part, rest) (some fd, k) = print_if d (walk false part rest fd k)

abbrev pub is_relative : Bytes → Bool
is_relative [] = true
is_relative (c ∷ path) = not (c == b'/') && ltb (length (c ∷ path)) path_max

-- a root of -1 is `none`
unfoldable pub media_source :
    Option ℕ → Bytes → Details → Kernel → Result (ℕ × Fingerprint) × Kernel
unfolding split_path walk media_fingerprint open_call
media_source none path d k = (err not_local, k)
media_source (some root) path d k =
    if not (is_relative path)
    then (err unsafe, k)
    else from_copy d (split_path path) (open_call (duplicate root) k)
