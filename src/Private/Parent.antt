-- ===== src/Private/Parent.antt =====
-- The walk and the reads of src/relay/tls.c: the descriptors after them, and what they give.
use zimbr.Prelude.{ℕ, ◌≡◌, refl, ◌∙◌, ap, Bool, Option, none, some, List, [], ◌∷◌, if_both}
use zimbr.Files.Kernel.{
  Bytes, Kernel, made, open_call, close_fd, close, stat_call, open_at, status_of,
}
use zimbr.Files.Read.{Fetch}
use zimbr.Files.Descriptors.{
  IsKept, IsSame, close_first, close_second, open_beside, open_call-IsKept, open_second,
}
use zimbr.Cache.{working_directory}
use zimbr.Private.{root_path, split_path, relative, is_bad_part, is_missing}
use zimbr.Private.Relay.{
  Parent, is_parent, last_part, is_ancestor, entered, enter, and_walk, walk, from_root, with_path,
  private_parent, Opened, opened, absent, broken, is_config, opened_leaf, private_open_at,
  private_read, read_leaf, leaf_in, in_parent, tls_read_config,
}

-- the directory that was found is open beside what was before
abbrev pub HasParent : List ℕ → Parent × Kernel → Type 0
HasParent before (none, k) = k.fds ≡ before
HasParent before (some (dir, leaf), k) = k.fds ≡ dir ∷ before

last_part-HasParent :
    (dir : ℕ) (part : Bytes) (before : List ℕ) (k : Kernel)
    → k.fds ≡ dir ∷ before
    → HasParent before (last_part dir part k)
unfolding stat_call made
last_part-HasParent dir part before k h =
    let s = stat_call (status_of dir) k in
    if_both (HasParent before) (is_parent k.user s.0) (some (dir, part), s.1) (none, close dir s.1)
      h (close_first dir k.fds before h)

entered-IsKept :
    (before : List ℕ) (r : Option ℕ × Kernel) → IsKept before r → IsKept before (entered r)
unfolding stat_call made
entered-IsKept before (none, k) h = h
entered-IsKept before (some dir, k) h =
    let s = stat_call (status_of dir) k in
    if_both (IsKept before) (is_ancestor k.user s.0) (some dir, s.1) (none, close dir s.1) h
      (close_first dir k.fds before h)

and_walk-HasParent :
    (before : List ℕ) (r : Option ℕ × Kernel) (next : ℕ → Kernel → Parent × Kernel)
    → ((dir : ℕ) (k : Kernel) → k.fds ≡ dir ∷ before → HasParent before (next dir k))
    → IsKept before r
    → HasParent before (and_walk r next)
and_walk-HasParent before (none, k) next keeps h = h
and_walk-HasParent before (some dir, k) next keeps h = keeps dir k h

walk-HasParent :
    (part : Bytes) (rest : List Bytes) (dir : ℕ) (before : List ℕ) (k : Kernel)
    → k.fds ≡ dir ∷ before
    → HasParent before (walk part rest dir k)
unfolding walk
walk-HasParent part [] dir before k h =
    if_both (HasParent before) (is_bad_part part) (none, close dir k) (last_part dir part k)
      (close_first dir k.fds before h) (last_part-HasParent dir part before k h)
walk-HasParent part (q ∷ qs) dir before k h =
    let o = open_call (open_at dir part) k in
    if_both (HasParent before) (is_bad_part part) (none, close dir k)
      (and_walk (enter dir part k) (walk q qs)) (close_first dir k.fds before h)
      (and_walk-HasParent before (enter dir part k) (walk q qs)
        (λ d j e. walk-HasParent q qs d before j e)
        (entered-IsKept before (o.0, close dir o.1)
          (open_second (open_at dir part) dir before k h)))

from_root-HasParent :
    (parts : Bytes × List Bytes) (before : List ℕ) (r : Option ℕ × Kernel)
    → IsKept before r
    → HasParent before (from_root parts r)
from_root-HasParent (part, rest) before (none, k) h = h
from_root-HasParent (part, rest) before (some dir, k) h = walk-HasParent part rest dir before k h

with_path-HasParent : (path : Option Bytes) (k : Kernel) → HasParent k.fds (with_path path k)
with_path-HasParent none k = refl
with_path-HasParent (some path) k =
    from_root-HasParent (split_path path) k.fds (open_call (open_at working_directory root_path) k)
      (open_call-IsKept (open_at working_directory root_path) k)

pub private_parent-HasParent : (path : Bytes) (k : Kernel) → HasParent k.fds (private_parent path k)
unfolding private_parent
private_parent-HasParent path k = with_path-HasParent (relative path) k

-- the file that was opened is open beside what was before
abbrev pub HasFile : List ℕ → Opened × Kernel → Type 0
HasFile before (opened fd, k) = k.fds ≡ fd ∷ before
HasFile before (absent, k) = k.fds ≡ before
HasFile before (broken, k) = k.fds ≡ before

opened_leaf-HasFile :
    (is_absent : Bool) (before : List ℕ) (r : Option ℕ × Kernel)
    → IsKept before r
    → HasFile before (opened_leaf is_absent r)
unfolding stat_call made
opened_leaf-HasFile is_absent before (none, k) h =
    if_both (λ o. HasFile before (o, k)) is_absent absent broken h h
opened_leaf-HasFile is_absent before (some fd, k) h =
    let s = stat_call (status_of fd) k in
    if_both (HasFile before) (is_config k.user s.0) (opened fd, s.1) (broken, close fd s.1) h
      (close_first fd k.fds before h)

pub private_open_at-HasFile :
    (dir : ℕ) (leaf : Bytes) (before : List ℕ) (k : Kernel)
    → k.fds ≡ before
    → HasFile before (private_open_at dir leaf k)
unfolding private_open_at
private_open_at-HasFile dir leaf before k h =
    opened_leaf-HasFile (is_missing k) before (open_call (open_at dir leaf) k)
      (open_beside (open_at dir leaf) before k h)

-- the directory is closed under the file
leaf_in-HasFile :
    (dir : ℕ) (before : List ℕ) (r : Opened × Kernel)
    → HasFile (dir ∷ before) r
    → HasFile before (leaf_in dir r)
leaf_in-HasFile dir before (opened fd, k) h =
    ap (λ fds. close_fd dir fds) h ∙ close_second fd dir before
leaf_in-HasFile dir before (absent, k) h = close_first dir k.fds before h
leaf_in-HasFile dir before (broken, k) h = close_first dir k.fds before h

read_leaf-IsSame :
    (answers : List Fetch) (cap : ℕ) (content : Bytes) (before : List ℕ) (r : Opened × Kernel)
    → HasFile before r
    → IsSame before (read_leaf answers cap content r)
unfolding private_read
read_leaf-IsSame answers cap content before (opened fd, k) h = close_first fd k.fds before h
read_leaf-IsSame answers cap content before (absent, k) h = h
read_leaf-IsSame answers cap content before (broken, k) h = h

in_parent-IsSame :
    (answers : List Fetch) (cap : ℕ) (content : Bytes) (before : List ℕ) (r : Parent × Kernel)
    → HasParent before r
    → IsSame before (in_parent answers cap content r)
in_parent-IsSame answers cap content before (none, k) h = h
in_parent-IsSame answers cap content before (some (dir, leaf), k) h =
    read_leaf-IsSame answers cap content before (leaf_in dir (private_open_at dir leaf k)) (
      leaf_in-HasFile dir before (private_open_at dir leaf k)
        (private_open_at-HasFile dir leaf (dir ∷ before) k h))

pub tls_read_config-IsSame :
    (path : Bytes) (cap : ℕ) (answers : List Fetch) (content : Bytes) (k : Kernel)
    → IsSame k.fds (tls_read_config path cap answers content k)
unfolding tls_read_config
tls_read_config-IsSame path cap answers content k =
    in_parent-IsSame answers cap content k.fds (private_parent path k)
      (private_parent-HasParent path k)
