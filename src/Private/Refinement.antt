-- ===== src/Private/Refinement.antt =====
-- zr_tls_replace_config of src/relay/tls.c implements a compare and swap of the configuration.
use zimbr.Prelude.Int.{ℤ, pos, negsuc}
use zimbr.Prelude.{
  ℕ, ◌≡◌, ◌⊎◌, refl, ◌∙◌, ap, Bool, true, false, not, ◌||◌, Option, none, some, List, [], ◌∷◌, ◌++◌,
  leb, length, if◌then◌else◌, if_both, inl, inr,
}
use zimbr.Files.Kernel.{
  Bytes, Kernel, made, is_ok, open_call, close_fd, perform, create_at, change_mode, sync, rename,
}
use zimbr.Files.Write.{IsWritten, write_all-IsWritten}
use zimbr.Files.Descriptors.{IsKept, close_first, open_beside}
use zimbr.Net.Receive.{write_all}
use zimbr.Cache.{digits}
use zimbr.Platform.Secrets.{random}
use zimbr.Platform.Secrets.Held.{random-IsSame}
use zimbr.Platform.Secrets.Stored.{written_whole}
use zimbr.Private.Relay.{Parent, private_parent}
use zimbr.Private.Parent.{HasParent, private_parent-HasParent}
use zimbr.Private.Replace.{
  Match, same, differs, unclear, config_matches, Replaced, stopped, cleanup, rename_and_sync,
  install, fill, created, settings_prefix, named, World, if_same, in_parent, length_of,
  replace_config,
}
use zimbr.Private.Swap.{
  compare_and_swap, Sees, Decides, HasMatch, config_matches-HasMatch, swapped, kept,
}

-- The result by what renameat installed and what the last check saw: the outcome of the compare and
-- swap on that, or -1 with nothing installed.
abbrev pub Outcome : Option Bytes → Bytes → World → Option Bytes → Match → ℤ → Type 0
Outcome expected content w (some file) (same seen) result =
    (file ≡ content)
    × ((result ≡ pos 0) ⊎ (result ≡ pos 1))
    × Sees w.second seen
    × (compare_and_swap seen expected content ≡ (some content, true))
Outcome expected content w (some file) (differs seen) result = ⊥
Outcome expected content w (some file) unclear result = ⊥
Outcome expected content w none (same seen) result = result ≡ negsuc 0
Outcome expected content w none (differs seen) result =
    (result ≡ negsuc 1)
    × (Sees w.first seen ⊎ Sees w.second seen)
    × (compare_and_swap seen expected content ≡ (seen, false))
Outcome expected content w none unclear result = result ≡ negsuc 0

-- what is open after the call, and its outcome
abbrev pub Refines : Option Bytes → Bytes → World → List ℕ → Replaced × Kernel → Type 0
Refines expected content w before r =
    (r.1.fds ≡ before) × Outcome expected content w r.0.installed r.0.seen r.0.result

zero_or_one :
    (b : Bool) → ((if b then pos 0 else pos 1) ≡ pos 0) ⊎ ((if b then pos 0 else pos 1) ≡ pos 1)
zero_or_one true = inl refl
zero_or_one false = inr refl

module _ (expected : Option Bytes) (content : Bytes) (w : World) where
  rename_and_sync-Refines :
      (dir : ℕ) (temporary leaf file : Bytes) (seen : Option Bytes) (before : List ℕ) (k : Kernel)
      → k.fds ≡ before
      → file ≡ content
      → Decides expected w.second (same seen)
      → Refines expected content w before (rename_and_sync dir temporary leaf file (same seen) k)
  unfolding perform made
  rename_and_sync-Refines dir temporary leaf file seen before k h f d =
      let r = perform (rename dir temporary leaf) k in
      let r' = perform (sync dir) r.1 in
      let result = if is_ok r'.0 then pos 0 else pos 1 in
      let done : Replaced = record { result = result; seen = same seen; installed = some file } in
      if_both (Refines expected content w before) (not (is_ok r.0))
        (stopped (negsuc 0) (same seen), r.1) (done, r'.1) (h, refl)
        (h, (f, zero_or_one (is_ok r'.0), d.0, swapped seen expected content d.1))

  install-Refines :
      (dir : ℕ) (temporary leaf file : Bytes) (before : List ℕ) (r : Match × Kernel)
      → file ≡ content
      → HasMatch expected w.second before r
      → Refines expected content w before (install dir temporary leaf file r)
  install-Refines dir temporary leaf file before (same seen, k) f h =
      rename_and_sync-Refines dir temporary leaf file seen before k h.0 f h.1
  install-Refines dir temporary leaf file before (differs seen, k) f h =
      (h.0, (refl, inr h.1.0, kept seen expected content h.1.1))
  install-Refines dir temporary leaf file before (unclear, k) f h = (h.0, refl)

  fill-Refines :
      (dir : ℕ) (temporary leaf : Bytes) (fd : ℕ) (before : List ℕ) (o : Bool × Bytes) (k : Kernel)
      → k.fds ≡ before
      → IsWritten content [] o
      → Refines expected content w before (fill dir temporary leaf expected w.second fd o k)
  unfolding perform made
  fill-Refines dir temporary leaf fd before (false, file) k h i = (h, refl)
  fill-Refines dir temporary leaf fd before (true, file) k h i =
      let r = perform (sync fd) k in
      if_both (Refines expected content w before) (is_ok r.0)
        (install dir temporary leaf file (config_matches dir leaf expected w.second r.1))
        (stopped (negsuc 0) unclear, r.1)
        (install-Refines dir temporary leaf file before
          (config_matches dir leaf expected w.second r.1)
          (written_whole content (true, file) i refl)
          (config_matches-HasMatch dir leaf expected w.second before r.1 h))
        (h, refl)

  -- the file and the directory are closed
  cleanup-Refines :
      (dir fd : ℕ) (temporary : Bytes) (before : List ℕ) (r : Replaced × Kernel)
      → Refines expected content w (fd ∷ dir ∷ before) r
      → Refines expected content w before (cleanup dir fd temporary r)
  unfolding perform made
  cleanup-Refines dir fd temporary before r h = (
    ap (close_fd dir) (close_first fd r.1.fds (dir ∷ before) h.0)
        ∙ close_first dir (dir ∷ before) before refl,
    h.1,
  )

  created-Refines :
      (dir : ℕ) (temporary leaf : Bytes) (before : List ℕ) (r : Option ℕ × Kernel)
      → IsKept (dir ∷ before) r
      → Refines expected content w before
          (created dir temporary leaf expected content w.writes w.second r)
  unfolding perform made
  created-Refines dir temporary leaf before (none, k) h = (close_first dir k.fds before h, refl)
  created-Refines dir temporary leaf before (some fd, k) h =
      let r = perform (change_mode fd 384) k in
      let o = write_all w.writes content [] in
      let filled = fill dir temporary leaf expected w.second fd o r.1 in
      let failed : Replaced × Kernel = (stopped (negsuc 0) unclear, r.1) in
      cleanup-Refines dir fd temporary before (if is_ok r.0 then filled else failed) (
        if_both (Refines expected content w (fd ∷ dir ∷ before)) (is_ok r.0) filled failed
          (fill-Refines dir temporary leaf fd (fd ∷ dir ∷ before) o r.1 h
            (write_all-IsWritten w.writes content []))
          (h, refl))

  named-Refines :
      (dir : ℕ) (leaf : Bytes) (before : List ℕ) (r : Option Bytes × Kernel)
      → r.1.fds ≡ dir ∷ before
      → Refines expected content w before (named dir leaf expected content w.writes w.second r)
  named-Refines dir leaf before (none, k) h = (close_first dir k.fds before h, refl)
  named-Refines dir leaf before (some bytes, k) h =
      let temporary = settings_prefix ++ digits bytes in
      created-Refines dir temporary leaf before (open_call (create_at dir temporary) k)
        (open_beside (create_at dir temporary) (dir ∷ before) k h)

  if_same-Refines :
      (dir : ℕ) (leaf : Bytes) (before : List ℕ) (r : Match × Kernel)
      → HasMatch expected w.first (dir ∷ before) r
      → Refines expected content w before (if_same dir leaf expected content w r)
  if_same-Refines dir leaf before (same seen, k) h =
      named-Refines dir leaf before (random 16 w.fetches w.source k)
        (random-IsSame 16 w.fetches w.source k ∙ h.0)
  if_same-Refines dir leaf before (differs seen, k) h =
      (close_first dir k.fds before h.0, (refl, inl h.1.0, kept seen expected content h.1.1))
  if_same-Refines dir leaf before (unclear, k) h = (close_first dir k.fds before h.0, refl)

  in_parent-Refines :
      (before : List ℕ) (r : Parent × Kernel)
      → HasParent before r
      → Refines expected content w before (in_parent expected content w r)
  in_parent-Refines before (none, k) h = (h, refl)
  in_parent-Refines before (some (dir, leaf), k) h =
      if_same-Refines dir leaf before (config_matches dir leaf expected w.first k)
        (config_matches-HasMatch dir leaf expected w.first (dir ∷ before) k h)

-- Whatever the kernel answers and however others change the configuration between the two checks,
-- the call refines a compare and swap. A result of 0 or 1 is one with renameat done: the new file
-- has exactly the content, and the configuration that the second check saw is what was expected. A
-- result of -2 is one with nothing installed, and a check saw a configuration that is not expected.
-- A check sees no file or the whole content at its time. Any other result is -1, with nothing
-- installed. No descriptor is left open and none that was open is closed.
pub replace_config-Refines :
    (path : Bytes) (expected : Option Bytes) (content : Bytes) (w : World) (k : Kernel)
    → Refines expected content w k.fds (replace_config path expected content w k)
unfolding replace_config
replace_config-Refines path expected content w k =
    if_both (Refines expected content w k.fds)
      (leb 65536 (length content) || leb 65536 (length_of expected)) (stopped (negsuc 0) unclear, k)
      (in_parent expected content w (private_parent path k)) (refl, refl)
      (in_parent-Refines expected content w k.fds (private_parent path k)
        (private_parent-HasParent path k))
