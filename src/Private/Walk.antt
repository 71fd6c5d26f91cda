-- ===== src/Private/Walk.antt =====
-- zc_private_read of src/client/bridge.c and the reads of src/relay/tls.c: the descriptors after a
-- walk, and the file at its end.
use zimbr.Prelude.{
  ℕ, ◌*◌, ◌%◌, ◌≤◌, ◌≡◌, refl, ◌∙◌, ap, Bool, true, false, not, ◌&&◌, ◌||◌, Option, none, some,
  List, [], ◌∷◌, ◌==◌, if◌then◌else◌, length, drop, if_both, if_case, arith, true_of_not, or_first,
  ==_iff, length-drop, or_second, and_second,
}
use zimbr.Files.Kernel.{
  Bytes, Kernel, made, open_call, close_fd, close, Found, found, lost, stat_call, open_at,
  status_of,
}
use zimbr.Files.Read.{Fetch, read_all, IsRead, at_end, read_all-IsRead, ended, take_whole}
use zimbr.Files.Descriptors.{IsKept, close_first, open_beside, open_call-IsKept, open_second}
use zimbr.Cache.{working_directory}
use zimbr.Private.{root_path, split_path, relative, is_bad_part, is_trusted, is_missing}
use zimbr.Cache.Image.{size_of, size_or_zero}
use zimbr.Private.Client
use zimbr.Private.Client.{Source, Reading, is_credential, read_credential, has_nul}

-- what a read that succeeds gives, of the file at the end of the walk
abbrev pub IsWhole : Source → Reading → Type 0
IsWhole source (Reading.have bytes) =
    (bytes ≡ source.content)
    × (has_nul bytes ≡ false)
    × (1 ≤ length bytes)
    × (length bytes ≤ 1024 * 1024)
IsWhole source Reading.missing = Unit
IsWhole source Reading.refused = Unit

in_range :
    (size : Option ℕ)
    → Client.size_in_range size ≡ true
    → (1 ≤ size_or_zero size) × (size_or_zero size ≤ 1024 * 1024)
in_range none h = cc
in_range (some n) h = ground arith

size_bounds :
    (user : ℕ) (st : Found)
    → is_credential user st ≡ true
    → (1 ≤ size_of st) × (size_of st ≤ 1024 * 1024)
size_bounds user (lost e) h = cc
size_bounds user (found st) h = in_range st.size (
    and_second (st.is_regular && (st.uid == user) && (st.mode % 512 == 384) && (st.links == 1))
      (Client.size_in_range st.size) h)

all_of_source :
    (source : Source) (n : ℕ) (bytes : Bytes)
    → bytes ≡ source.content
    → length source.content ≡ n
    → (1 ≤ n) × (n ≤ 1024 * 1024)
    → has_nul bytes ≡ false
    → IsWhole source (Reading.have bytes)
all_of_source source n bytes e s b h =
    (e, h, omega (arith, ap length e, s, b.0), omega (arith, ap length e, s, b.1))

content_of-IsWhole :
    (source : Source) (n : ℕ) (r : Option (Bytes × List Fetch))
    → (1 ≤ n) × (n ≤ 1024 * 1024)
    → IsRead n source.content [] r
    → IsWhole source (Client.content_of source n r)
content_of-IsWhole source n none b h = tt
content_of-IsWhole source n (some (bytes, answers)) b h =
    let rest = drop n source.content in
    if_case (IsWhole source) (not (at_end answers rest) || has_nul bytes) Reading.refused
      (Reading.have bytes) (λ _. tt)
      (λ e.
        let t = ended answers rest (
          true_of_not (at_end answers rest)
            (or_first (not (at_end answers rest)) (has_nul bytes) e)) in
        let whole = take_whole n source.content h.1 t in
        let size : length source.content ≡ n =
          omega (arith, (==_iff (length rest) 0).0 t, length-drop n source.content, h.1) in
        all_of_source source n bytes (h.0 ∙ whole) size b
          (or_second (not (at_end answers rest)) (has_nul bytes) e))

read_credential-IsWhole :
    (source : Source) (n : ℕ)
    → (1 ≤ n) × (n ≤ 1024 * 1024)
    → IsWhole source (read_credential source n)
read_credential-IsWhole source n b =
    let r = read_all source.answers n source.content [] in
    if_both (IsWhole source) (not source.allocated) Reading.refused (Client.content_of source n r)
      tt (content_of-IsWhole source n r b (read_all-IsRead source.answers n source.content []))

-- what is open after a read is what was before, and the read gives the whole file
abbrev pub Ends : Source → List ℕ → Reading × Kernel → Type 0
Ends source before r = (r.1.fds ≡ before) × IsWhole source r.0

refused_or_missing :
    (source : Source) (is_absent : Bool)
    → IsWhole source (if is_absent then Reading.missing else Reading.refused)
refused_or_missing source true = tt
refused_or_missing source false = tt

module _ (source : Source) where
  in_file-Ends :
      (dir : ℕ) (is_absent : Bool) (before : List ℕ) (r : Option ℕ × Kernel)
      → IsKept (dir ∷ before) r
      → Ends source before (Client.in_file dir source is_absent r)
  unfolding stat_call made
  in_file-Ends dir is_absent before (none, k) h =
      (close_first dir k.fds before h, refused_or_missing source is_absent)
  in_file-Ends dir is_absent before (some fd, k) h =
      let s = stat_call (status_of fd) k in
      (
        close_first dir (close_fd fd k.fds) before (close_first fd k.fds (dir ∷ before) h),
        if_case (IsWhole source) (is_credential k.user s.0) (read_credential source (size_of s.0))
            Reading.refused
            (λ c. read_credential-IsWhole source (size_of s.0) (size_bounds k.user s.0 c))
            (λ _. tt),
      )

  last_part-Ends :
      (dir : ℕ) (part : Bytes) (st : Found) (before : List ℕ) (k : Kernel)
      → k.fds ≡ dir ∷ before
      → Ends source before (Client.last_part dir source part st k)
  last_part-Ends dir part (lost e) before k h = (close_first dir k.fds before h, tt)
  last_part-Ends dir part (found st) before k h =
      if_both (Ends source before) (not (st.uid == k.user) || not (st.mode % 512 == 448))
        (Client.ending dir Reading.refused k)
        (Client.in_file dir source (is_missing k) (open_call (open_at dir part) k))
        (close_first dir k.fds before h, tt)
        (in_file-Ends dir (is_missing k) before (open_call (open_at dir part) k)
          (open_beside (open_at dir part) (dir ∷ before) k h))

  -- the directory that is open beside those before, if there is one, and an end if there is none
  abbrev HasNext : List ℕ → Option ℕ × (Reading × Kernel) → Type 0
  HasNext before (none, (r, k)) = Ends source before (r, k)
  HasNext before (some next, (r, k)) = k.fds ≡ next ∷ before

  entered-HasNext :
      (before : List ℕ) (r : Reading) (next : Option ℕ) (k : Kernel)
      → IsWhole source r
      → IsKept before (next, k)
      → HasNext before (next, (r, k))
  entered-HasNext before r none k w h = (h, w)
  entered-HasNext before r (some fd) k w h = h

  next_part-HasNext :
      (dir : ℕ) (part : Bytes) (st : Found) (before : List ℕ) (k : Kernel)
      → k.fds ≡ dir ∷ before
      → HasNext before (Client.next_part dir part st k)
  next_part-HasNext dir part (lost e) before k h = (close_first dir k.fds before h, tt)
  next_part-HasNext dir part (found st) before k h =
      let o = open_call (open_at dir part) k in
      let r = if is_missing k then Reading.missing else Reading.refused in
      if_both (HasNext before) (not (is_trusted k.user st))
        (none, Client.ending dir Reading.refused k) (o.0, Client.ending dir r o.1)
        (close_first dir k.fds before h, tt)
        (entered-HasNext before r o.0 (close dir o.1) (refused_or_missing source (is_missing k))
          (open_second (open_at dir part) dir before k h))

  and_walk-Ends :
      (before : List ℕ) (r : Option ℕ × (Reading × Kernel)) (next : ℕ → Kernel → Reading × Kernel)
      → ((dir : ℕ) (k : Kernel) → k.fds ≡ dir ∷ before → Ends source before (next dir k))
      → HasNext before r
      → Ends source before (Client.and_walk r next)
  and_walk-Ends before (none, (r, k)) next keeps h = h
  and_walk-Ends before (some dir, (r, k)) next keeps h = keeps dir k h

  walk-Ends :
      (part : Bytes) (rest : List Bytes) (dir : ℕ) (before : List ℕ) (k : Kernel)
      → k.fds ≡ dir ∷ before
      → Ends source before (Client.walk source part rest dir k)
  unfolding Client.walk stat_call made
  walk-Ends part [] dir before k h =
      let s = stat_call (status_of dir) k in
      if_both (Ends source before) (is_bad_part part) (Client.ending dir Reading.refused k)
        (Client.last_part dir source part s.0 s.1) (close_first dir k.fds before h, tt)
        (last_part-Ends dir part s.0 before s.1 h)
  walk-Ends part (q ∷ qs) dir before k h =
      let s = stat_call (status_of dir) k in
      if_both (Ends source before) (is_bad_part part) (Client.ending dir Reading.refused k)
        (Client.and_walk (Client.next_part dir part s.0 s.1) (Client.walk source q qs))
        (close_first dir k.fds before h, tt)
        (and_walk-Ends before (Client.next_part dir part s.0 s.1) (Client.walk source q qs)
          (λ d j e. walk-Ends q qs d before j e) (next_part-HasNext dir part s.0 before s.1 h))

  from_root-Ends :
      (parts : Bytes × List Bytes) (before : List ℕ) (r : Option ℕ × Kernel)
      → IsKept before r
      → Ends source before (Client.from_root source parts r)
  from_root-Ends (part, rest) before (none, k) h = (h, tt)
  from_root-Ends (part, rest) before (some dir, k) h = walk-Ends part rest dir before k h

  with_path-Ends :
      (path : Option Bytes) (k : Kernel) → Ends source k.fds (Client.with_path source path k)
  with_path-Ends none k = (refl, tt)
  with_path-Ends (some path) k =
      from_root-Ends (split_path path) k.fds (open_call (open_at working_directory root_path) k)
        (open_call-IsKept (open_at working_directory root_path) k)

-- For every path and whatever the kernel answers on the walk, after a read of a credential the open
-- descriptors are those from before; and where it gives bytes, these are the whole content of the
-- file at the end of the walk, of 1 byte to 1 MiB, with no NUL.
pub private_read-Ends :
    (path : Bytes) (source : Source) (k : Kernel)
    → Ends source k.fds (Client.private_read path source k)
unfolding Client.private_read
private_read-Ends path source k = with_path-Ends source (relative path) k
