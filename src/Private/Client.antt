-- ===== src/Private/Client.antt =====
-- src/client/bridge.c, zc_private_read: the credentials of the client.
use zimbr.Prelude.{
  ℕ, ◌*◌, ◌%◌, Bool, false, not, ◌&&◌, ◌||◌, Option, none, some, List, [], ◌∷◌, ◌==◌, leb,
  if◌then◌else◌, drop,
}
use zimbr.Files.Kernel.{
  Bytes, Kernel, open_call, close, Found, found, lost, stat_call, open_at, status_of,
}
use zimbr.Files.Read.{at_end, Fetch, read_all}
use zimbr.Cache.{working_directory}
use zimbr.Cache.Image.{size_of}
use zimbr.Private.{root_path, split_path, relative, is_bad_part, is_trusted, is_missing}

-- what the file is, if it is opened: its content, the answers of read, and whether there is memory
pub record Source : Type 0 where
  pub content : Bytes
  pub answers : List Fetch
  pub allocated : Bool

-- the results 1, 0 and -1
pub data Reading : Type 0 where
  have : Bytes → Reading
  missing : Reading
  refused : Reading

abbrev pub size_in_range : Option ℕ → Bool
size_in_range none = false
size_in_range (some n) = leb 1 n && leb n (1024 * 1024)

abbrev pub is_credential : ℕ → Found → Bool
is_credential user (lost e) = false
is_credential user (found st) =
    st.is_regular
    && (st.uid == user)
    && (st.mode % 512 == 384)
    && (st.links == 1)
    && size_in_range st.size

-- memchr
unfoldable pub has_nul : Bytes → Bool
has_nul [] = false
has_nul (c ∷ cs) = (c == 0) || has_nul cs

abbrev pub content_of : Source → ℕ → Option (Bytes × List Fetch) → Reading
content_of source n none = refused
content_of source n (some (bytes, answers)) =
    if not (at_end answers (drop n source.content)) || has_nul bytes then refused else have bytes

abbrev pub read_credential : Source → ℕ → Reading
read_credential source n =
    if not source.allocated
    then refused
    else content_of source n (read_all source.answers n source.content [])

-- the end of the function, with the directory, and the file if it was opened
abbrev pub ending : ℕ → Reading → Kernel → Reading × Kernel
ending dir r k = (r, close dir k)

-- the last part, in its directory
abbrev pub in_file : ℕ → Source → Bool → Option ℕ × Kernel → Reading × Kernel
in_file dir source absent (none, k) = ending dir (if absent then missing else refused) k
in_file dir source absent (some fd, k) =
    let (st, k') = stat_call (status_of fd) k in
    ending dir (if is_credential k.user st then read_credential source (size_of st) else refused)
      (close fd k')

abbrev pub last_part : ℕ → Source → Bytes → Found → Kernel → Reading × Kernel
last_part dir source part (lost e) k = ending dir refused k
last_part dir source part (found st) k =
    if not (st.uid == k.user) || not (st.mode % 512 == 448)
    then ending dir refused k
    else in_file dir source (is_missing k) (open_call (open_at dir part) k)

-- the next directory, after its parent was closed; or an end
abbrev pub next_part : ℕ → Bytes → Found → Kernel → Option ℕ × (Reading × Kernel)
next_part dir part (lost e) k = (none, ending dir refused k)
next_part dir part (found st) k =
    if not (is_trusted k.user st)
    then (none, ending dir refused k)
    else let (next, k') = open_call (open_at dir part) k in
      (next, ending dir (if is_missing k then missing else refused) k')

abbrev pub and_walk :
    Option ℕ × (Reading × Kernel) → (ℕ → Kernel → Reading × Kernel) → Reading × Kernel
and_walk (none, (r, k)) walk = (r, k)
and_walk (some dir, (r, k)) walk = walk dir k

-- the loop over the parts
unfoldable pub walk : Source → Bytes → List Bytes → ℕ → Kernel → Reading × Kernel
unfolding stat_call open_call read_all at_end has_nul
walk source part [] dir k =
    let (st, k') = stat_call (status_of dir) k in
    if is_bad_part part then ending dir refused k else last_part dir source part st k'
walk source part (q ∷ qs) dir k =
    let (st, k') = stat_call (status_of dir) k in
    let deeper = and_walk (next_part dir part st k') (walk source q qs) in
    if is_bad_part part then ending dir refused k else deeper

abbrev pub from_root : Source → Bytes × List Bytes → Option ℕ × Kernel → Reading × Kernel
from_root source parts (none, k) = (refused, k)
from_root source (part, rest) (some dir, k) = walk source part rest dir k

abbrev pub with_path : Source → Option Bytes → Kernel → Reading × Kernel
with_path source none k = (refused, k)
with_path source (some path) k =
    from_root source (split_path path) (open_call (open_at working_directory root_path) k)

unfoldable pub private_read : Bytes → Source → Kernel → Reading × Kernel
unfolding split_path walk open_call
private_read path source k = with_path source (relative path) k
