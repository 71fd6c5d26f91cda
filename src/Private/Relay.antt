-- ===== src/Private/Relay.antt =====
-- src/relay/tls.c: the walk to the directory of a private file, its opening and its reading. The
-- results 0 and more, -1 and -2 are `opened` or `some`, `broken` and `absent`.
use zimbr.Prelude.{
  ℕ, zero, suc, ◌-◌, ◌/◌, ◌%◌, min, Bool, true, false, ◌&&◌, Option, none, some, List, [], ◌∷◌,
  ◌++◌, ◌==◌, leb, if◌then◌else◌, length, take, drop,
}
use zimbr.Files.Kernel.{
  Bytes, Kernel, open_call, close, Found, found, lost, stat_call, is_private, open_at, status_of,
}
use zimbr.Files.Read.{Fetch, gives, interrupted, failed}
use zimbr.Cache.{working_directory}
use zimbr.Private.{root_path, split_path, relative, is_bad_part, is_trusted, is_missing}

-- the directory and the name in it
abbrev pub Parent : Type 0
Parent = Option (ℕ × Bytes)

abbrev pub is_parent : ℕ → Found → Bool
is_parent user (lost e) = false
is_parent user (found st) = (st.uid == user) && is_private st.mode && ((st.mode / 64) % 8 == 7)

-- the check after the loop
abbrev pub last_part : ℕ → Bytes → Kernel → Parent × Kernel
last_part dir part k =
    let (st, k') = stat_call (status_of dir) k in
    if is_parent k.user st then (some (dir, part), k') else (none, close dir k')

abbrev pub is_ancestor : ℕ → Found → Bool
is_ancestor user (lost e) = false
is_ancestor user (found st) = is_trusted user st

-- a directory that was opened in the one before, which is closed
abbrev pub entered : Option ℕ × Kernel → Option ℕ × Kernel
entered (none, k) = (none, k)
entered (some dir, k) =
    let (st, k') = stat_call (status_of dir) k in
    if is_ancestor k.user st then (some dir, k') else (none, close dir k')

abbrev pub enter : ℕ → Bytes → Kernel → Option ℕ × Kernel
enter dir part k = let (next, k') = open_call (open_at dir part) k in entered (next, close dir k')

abbrev pub and_walk : Option ℕ × Kernel → (ℕ → Kernel → Parent × Kernel) → Parent × Kernel
and_walk (none, k) walk = (none, k)
and_walk (some dir, k) walk = walk dir k

unfoldable pub walk : Bytes → List Bytes → ℕ → Kernel → Parent × Kernel
unfolding stat_call open_call
walk part [] dir k = if is_bad_part part then (none, close dir k) else last_part dir part k
walk part (q ∷ qs) dir k =
    let deeper = and_walk (enter dir part k) (walk q qs) in
    if is_bad_part part then (none, close dir k) else deeper

abbrev pub from_root : Bytes × List Bytes → Option ℕ × Kernel → Parent × Kernel
from_root parts (none, k) = (none, k)
from_root (part, rest) (some dir, k) = walk part rest dir k

abbrev pub with_path : Option Bytes → Kernel → Parent × Kernel
with_path none k = (none, k)
with_path (some path) k =
    from_root (split_path path) (open_call (open_at working_directory root_path) k)

unfoldable pub private_parent : Bytes → Kernel → Parent × Kernel
unfolding split_path walk open_call
private_parent path k = with_path (relative path) k

pub data Opened : Type 0 where
  opened : ℕ → Opened
  absent : Opened
  broken : Opened

abbrev pub at_most : Option ℕ → ℕ → Bool
at_most none n = true
at_most (some m) n = leb m n

abbrev pub is_config : ℕ → Found → Bool
is_config user (lost e) = false
is_config user (found st) =
    st.is_regular
    && (st.uid == user)
    && is_private st.mode
    && (st.links == 1)
    && at_most st.size 65536

abbrev pub opened_leaf : Bool → Option ℕ × Kernel → Opened × Kernel
opened_leaf is_absent (none, k) = (if is_absent then absent else broken, k)
opened_leaf is_absent (some fd, k) =
    let (st, k') = stat_call (status_of fd) k in
    if is_config k.user st then (opened fd, k') else (broken, close fd k')

unfoldable pub private_open_at : ℕ → Bytes → Kernel → Opened × Kernel
unfolding open_call stat_call
private_open_at dir leaf k = opened_leaf (is_missing k) (open_call (open_at dir leaf) k)

-- What the file has from the position on, and the answers of read(2), which gives nothing only at
-- the end of the file; `room` is cap - used.
unfoldable pub read_to_end : List Fetch → (room : ℕ) → Bytes → Bytes → Option Bytes
read_to_end answers zero source buffer = none
read_to_end [] (suc n) source buffer = none
read_to_end (gives k ∷ answers) (suc n) [] buffer = some buffer
read_to_end (gives k ∷ answers) (suc n) (c ∷ cs) buffer =
    let got = min k (min n (length cs)) in
    read_to_end answers (n - got) (drop got cs) (buffer ++ c ∷ take got cs)
read_to_end (interrupted ∷ answers) (suc n) source buffer =
    read_to_end answers (suc n) source buffer
read_to_end (failed ∷ answers) (suc n) source buffer = none

unfoldable pub private_read : List Fetch → ℕ → Bytes → ℕ → Kernel → Option Bytes × Kernel
unfolding read_to_end
private_read answers cap content fd k = (read_to_end answers cap content [], close fd k)

pub data Config : Type 0 where
  have : Bytes → Config
  missing : Config
  refused : Config

abbrev pub config_of : Option Bytes → Config
config_of none = refused
config_of (some bytes) = have bytes

abbrev pub read_leaf : List Fetch → ℕ → Bytes → Opened × Kernel → Config × Kernel
read_leaf answers cap content (opened fd, k) =
    let (bytes, k') = private_read answers cap content fd k in (config_of bytes, k')
read_leaf answers cap content (absent, k) = (missing, k)
read_leaf answers cap content (broken, k) = (refused, k)

-- the file is opened in the directory, which is closed then
abbrev pub leaf_in : ℕ → Opened × Kernel → Opened × Kernel
leaf_in dir (o, k) = (o, close dir k)

abbrev pub in_parent : List Fetch → ℕ → Bytes → Parent × Kernel → Config × Kernel
in_parent answers cap content (none, k) = (refused, k)
in_parent answers cap content (some (dir, leaf), k) =
    read_leaf answers cap content (leaf_in dir (private_open_at dir leaf k))

unfoldable pub tls_read_config : Bytes → ℕ → List Fetch → Bytes → Kernel → Config × Kernel
unfolding private_parent private_open_at private_read
tls_read_config path cap answers content k = in_parent answers cap content (private_parent path k)

-- every failure is -1
abbrev pub bytes_of : Config → Option Bytes
bytes_of (have bytes) = some bytes
bytes_of missing = none
bytes_of refused = none

unfoldable pub tls_read_file : Bytes → ℕ → List Fetch → Bytes → Kernel → Option Bytes × Kernel
unfolding tls_read_config
tls_read_file path cap answers content k =
    let (c, k') = tls_read_config path cap answers content k in (bytes_of c, k')
