-- ===== src/Media/Walked.antt =====
-- The walks of src/relay/media.c: the descriptors after each.
use zimbr.Prelude.{
  ℕ, ◌≡◌, refl, ◌∙◌, ap, Bool, false, not, ◌&&◌, Option, none, some, List, [], ◌∷◌, if◌then◌else◌,
  if_both,
}
use zimbr.Files.Kernel.{
  Bytes, Kernel, made, is_ok, open_call, close_fd, close, perform, stat_call, open_at,
  make_directory, duplicate, status_of, exists, no_entry,
}
use zimbr.Files.Outgoing.{is_error}
use zimbr.Files.Descriptors.{IsKept, close_first, close_second, open_beside, open_call-IsKept}
use zimbr.Cache.{working_directory}
use zimbr.Private.{root_path, split_path}
use zimbr.Media.{
  unavailable, unsafe, Result, ok, err, component, Tried, open_part, made_part, or_make, stepped,
  step_into, and_walk, walk, is_own_private, private_if, from_root, with_path, Details, Fingerprint,
  media_fingerprint, printed, print_if, from_copy, is_relative, media_source,
}

-- the descriptor that is returned is open beside what was before
abbrev pub Holds : List ℕ → Result ℕ × Kernel → Type 0
Holds before (err e, k) = k.fds ≡ before
Holds before (ok fd, k) = k.fds ≡ fd ∷ before

abbrev pub HoldsTried : List ℕ → Tried × Kernel → Type 0
HoldsTried before ((next, e), k) = IsKept before (next, k)

abbrev HoldsMade : List ℕ → Result Tried × Kernel → Type 0
HoldsMade before (err e, k) = k.fds ≡ before
HoldsMade before (ok (next, e), k) = IsKept before (next, k)

pub open_part-HoldsTried :
    (fd : ℕ) (part : Bytes) (before : List ℕ) (k : Kernel)
    → k.fds ≡ before
    → HoldsTried before (open_part fd part k)
open_part-HoldsTried fd part before k h = open_beside (open_at fd part) before k h

made_part-HoldsMade :
    (fd : ℕ) (part : Bytes) (before : List ℕ) (e : Option ℕ) (k : Kernel)
    → k.fds ≡ before
    → HoldsMade before (made_part fd part (e, k))
made_part-HoldsMade fd part before e k h =
    let t = open_part fd part k in
    if_both (HoldsMade before) (not (is_ok e) && not (is_error e exists)) (err unavailable, k)
      (ok t.0, t.1) h (open_part-HoldsTried fd part before k h)

or_make-HoldsMade :
    (makes : Bool) (fd : ℕ) (part : Bytes) (before : List ℕ) (r : Tried × Kernel)
    → HoldsTried before r
    → HoldsMade before (or_make makes fd part r)
unfolding perform made
or_make-HoldsMade makes fd part before ((some next, e), k) h = h
or_make-HoldsMade makes fd part before ((none, e), k) h =
    let r = perform (make_directory fd part) k in
    if_both (HoldsMade before) (is_error e no_entry && makes) (made_part fd part r)
      (ok (none, e), k) (made_part-HoldsMade fd part before r.0 r.1 h) h

stepped-Holds :
    (fd : ℕ) (before : List ℕ) (r : Result Tried × Kernel)
    → HoldsMade (fd ∷ before) r
    → Holds before (stepped fd r)
stepped-Holds fd before (err e, k) h = close_first fd k.fds before h
stepped-Holds fd before (ok (none, e), k) h = close_first fd k.fds before h
stepped-Holds fd before (ok (some next, e), k) h = ap (close_fd fd) h ∙ close_second next fd before

step_into-Holds :
    (makes : Bool) (fd : ℕ) (part : Bytes) (before : List ℕ) (k : Kernel)
    → k.fds ≡ fd ∷ before
    → Holds before (step_into makes fd part k)
step_into-Holds makes fd part before k h =
    if_both (Holds before) (not (component part)) (err unsafe, close fd k)
      (stepped fd (or_make makes fd part (open_part fd part k))) (close_first fd k.fds before h)
      (stepped-Holds fd before (or_make makes fd part (open_part fd part k)) (
        or_make-HoldsMade makes fd part (fd ∷ before) (open_part fd part k)
          (open_part-HoldsTried fd part (fd ∷ before) k h)))

and_walk-Holds :
    (before : List ℕ) (r : Result ℕ × Kernel) (next : ℕ → Kernel → Result ℕ × Kernel)
    → ((fd : ℕ) (k : Kernel) → k.fds ≡ fd ∷ before → Holds before (next fd k))
    → Holds before r
    → Holds before (and_walk r next)
and_walk-Holds before (err e, k) next keeps h = h
and_walk-Holds before (ok fd, k) next keeps h = keeps fd k h

walk-Holds :
    (create : Bool) (part : Bytes) (rest : List Bytes) (fd : ℕ) (before : List ℕ) (k : Kernel)
    → k.fds ≡ fd ∷ before
    → Holds before (walk create part rest fd k)
unfolding walk
walk-Holds create part [] fd before k h = step_into-Holds create fd part before k h
walk-Holds create part (q ∷ qs) fd before k h =
    and_walk-Holds before (step_into false fd part k) (walk create q qs)
      (λ next j e. walk-Holds create q qs next before j e)
      (step_into-Holds false fd part before k h)

private_if-Holds :
    (create : Bool) (before : List ℕ) (r : Result ℕ × Kernel)
    → Holds before r
    → Holds before (private_if create r)
unfolding stat_call made
private_if-Holds create before (err e, k) h = h
private_if-Holds create before (ok fd, k) h =
    let s = stat_call (status_of fd) k in
    if_both (Holds before) (not create) (ok fd, k)
      (if is_own_private k.user s.0 then (ok fd, s.1) else (err unsafe, close fd s.1)) h
      (if_both (Holds before) (is_own_private k.user s.0) (ok fd, s.1) (err unsafe, close fd s.1) h
        (close_first fd k.fds before h))

from_root-Holds :
    (create : Bool) (parts : Bytes × List Bytes) (before : List ℕ) (r : Option ℕ × Kernel)
    → IsKept before r
    → Holds before (from_root create parts r)
from_root-Holds create (part, rest) before (none, k) h = h
from_root-Holds create (part, rest) before (some fd, k) h =
    private_if-Holds create before (walk create part rest fd k)
      (walk-Holds create part rest fd before k h)

pub with_path-Holds :
    (create : Bool) (path : Option Bytes) (k : Kernel) → Holds k.fds (with_path create path k)
with_path-Holds create none k = refl
with_path-Holds create (some path) k =
    from_root-Holds create (split_path path) k.fds
      (open_call (open_at working_directory root_path) k)
      (open_call-IsKept (open_at working_directory root_path) k)

-- the same of a source, with its fingerprint
abbrev pub HoldsSource : List ℕ → Result (ℕ × Fingerprint) × Kernel → Type 0
HoldsSource before (err e, k) = k.fds ≡ before
HoldsSource before (ok (fd, f), k) = k.fds ≡ fd ∷ before

printed-HoldsSource :
    (fd : ℕ) (before : List ℕ) (r : Result Fingerprint × Kernel)
    → r.1.fds ≡ fd ∷ before
    → HoldsSource before (printed fd r)
printed-HoldsSource fd before (err e, k) h = close_first fd k.fds before h
printed-HoldsSource fd before (ok f, k) h = h

print_if-HoldsSource :
    (d : Details) (before : List ℕ) (r : Result ℕ × Kernel)
    → Holds before r
    → HoldsSource before (print_if d r)
unfolding media_fingerprint stat_call made
print_if-HoldsSource d before (err e, k) h = h
print_if-HoldsSource d before (ok fd, k) h =
    printed-HoldsSource fd before (media_fingerprint fd d k) h

from_copy-HoldsSource :
    (d : Details) (parts : Bytes × List Bytes) (before : List ℕ) (r : Option ℕ × Kernel)
    → IsKept before r
    → HoldsSource before (from_copy d parts r)
from_copy-HoldsSource d (part, rest) before (none, k) h = h
from_copy-HoldsSource d (part, rest) before (some fd, k) h =
    print_if-HoldsSource d before (walk false part rest fd k)
      (walk-Holds false part rest fd before k h)

pub media_source-HoldsSource :
    (root : Option ℕ) (path : Bytes) (d : Details) (k : Kernel)
    → HoldsSource k.fds (media_source root path d k)
unfolding media_source
media_source-HoldsSource none path d k = refl
media_source-HoldsSource (some root) path d k =
    if_both (HoldsSource k.fds) (not (is_relative path)) (err unsafe, k)
      (from_copy d (split_path path) (open_call (duplicate root) k)) refl
      (from_copy-HoldsSource d (split_path path) k.fds (open_call (duplicate root) k)
        (open_call-IsKept (duplicate root) k))
