-- ===== src/Private/Swap.antt =====
-- config_matches of src/relay/tls.c: what a check of the configuration decides, and the compare and
-- swap that zr_tls_replace_config promises.
use zimbr.Prelude.{
  ℕ, zero, suc, ◌-◌, min, ◌≡◌, refl, sym, ◌∙◌, ap, Bool, true, false, Option, none, some, List, [],
  ◌∷◌, ◌++◌, length, take, drop, take-drop, if◌then◌else◌, bytes_eq, if_case,
}
use mathlib.Core.List.{append_assoc, append-nil}
use zimbr.Files.Kernel.{Bytes, Kernel, close}
use zimbr.Files.Read.{Fetch, gives, interrupted, failed}
use zimbr.Files.Descriptors.{close_first}
use zimbr.Private.Relay.{Opened, opened, absent, broken, private_open_at, read_to_end, private_read}
use zimbr.Private.Parent.{HasFile, private_open_at-HasFile}
use zimbr.Private.Replace.{
  View, Match, same, differs, unclear, is_expected, compared, match_absent, match_opened,
  config_matches,
}

-- no file, or one with the bytes that are expected
abbrev pub is_same : Option Bytes → Option Bytes → Bool
is_same none none = true
is_same none (some expected) = false
is_same (some current) none = false
is_same (some current) (some expected) = bytes_eq expected current

-- what the function promises: the configuration after it, and whether it was replaced
unfoldable pub compare_and_swap : Option Bytes → Option Bytes → Bytes → Option Bytes × Bool
compare_and_swap current expected content =
    if is_same current expected then (some content, true) else (current, false)

-- all of the rest of the file was read
abbrev IsRest : Bytes → Bytes → Option Bytes → Type 0
IsRest source buffer none = Unit
IsRest source buffer (some bytes) = bytes ≡ buffer ++ source

add_chunk :
    (n c : ℕ) (cs buffer : Bytes) (r : Option Bytes)
    → IsRest (drop n cs) (buffer ++ c ∷ take n cs) r
    → IsRest (c ∷ cs) buffer r
add_chunk n c cs buffer none h = tt
add_chunk n c cs buffer (some bytes) h =
    h ∙ append_assoc buffer (c ∷ take n cs) (drop n cs) ∙ ap (λ b. buffer ++ c ∷ b) (take-drop n cs)

read_to_end-IsRest :
    (answers : List Fetch) (room : ℕ) (source buffer : Bytes)
    → IsRest source buffer (read_to_end answers room source buffer)
unfolding read_to_end
read_to_end-IsRest answers zero source buffer = tt
read_to_end-IsRest [] (suc n) source buffer = tt
read_to_end-IsRest (gives k ∷ answers) (suc n) [] buffer = sym (append-nil buffer)
read_to_end-IsRest (gives k ∷ answers) (suc n) (c ∷ cs) buffer =
    let got = min k (min n (length cs)) in
    add_chunk got c cs buffer
      (read_to_end answers (n - got) (drop got cs) (buffer ++ c ∷ take got cs))
      (read_to_end-IsRest answers (n - got) (drop got cs) (buffer ++ c ∷ take got cs))
read_to_end-IsRest (interrupted ∷ answers) (suc n) source buffer =
    read_to_end-IsRest answers (suc n) source buffer
read_to_end-IsRest (failed ∷ answers) (suc n) source buffer = tt

-- no file, or all of the view
abbrev pub Sees : View → Option Bytes → Type 0
Sees view none = Unit
Sees view (some bytes) = bytes ≡ view.content

-- what a check that decided saw
abbrev pub Decides : Option Bytes → View → Match → Type 0
Decides expected view (same seen) = Sees view seen × (is_same seen expected ≡ true)
Decides expected view (differs seen) = Sees view seen × (is_same seen expected ≡ false)
Decides expected view unclear = Unit

is_expected-is_same :
    (expected : Option Bytes) (current : Bytes)
    → is_expected expected current ≡ is_same (some current) expected
is_expected-is_same none current = refl
is_expected-is_same (some expected) current = refl

decided :
    (expected : Option Bytes) (view : View) (current : Bytes)
    → current ≡ view.content
    → Decides expected view
        (if is_expected expected current then same (some current) else differs (some current))
decided expected view current e =
    if_case (Decides expected view) (is_expected expected current) (same (some current))
      (differs (some current)) (λ t. (e, sym (is_expected-is_same expected current) ∙ t))
      (λ t. (e, sym (is_expected-is_same expected current) ∙ t))

compared-Decides :
    (expected : Option Bytes) (view : View) (o : Option Bytes) (k : Kernel)
    → IsRest view.content [] o
    → Decides expected view (compared expected (o, k)).0
compared-Decides expected view none k h = tt
compared-Decides expected view (some current) k h = decided expected view current h

compared-fds :
    (expected : Option Bytes) (o : Option Bytes) (k : Kernel)
    → (compared expected (o, k)).1.fds ≡ k.fds
compared-fds expected none k = refl
compared-fds expected (some current) k = refl

absent-Decides :
    (expected : Option Bytes) (view : View) → Decides expected view (match_absent expected)
absent-Decides none view = (tt, refl)
absent-Decides (some expected) view = (tt, refl)

-- the descriptors after a check, and what it decided
abbrev pub HasMatch : Option Bytes → View → List ℕ → Match × Kernel → Type 0
HasMatch expected view before r = (r.1.fds ≡ before) × Decides expected view r.0

match_opened-HasMatch :
    (expected : Option Bytes) (view : View) (before : List ℕ) (r : Opened × Kernel)
    → HasFile before r
    → HasMatch expected view before (match_opened expected view r)
unfolding private_read
match_opened-HasMatch expected view before (opened fd, k) h =
    let o = read_to_end view.answers 65536 view.content [] in
    (
      compared-fds expected o (close fd k) ∙ close_first fd k.fds before h,
      compared-Decides expected view o (close fd k)
          (read_to_end-IsRest view.answers 65536 view.content []),
    )
match_opened-HasMatch expected view before (absent, k) h = (h, absent-Decides expected view)
match_opened-HasMatch expected view before (broken, k) h = (h, tt)

pub config_matches-HasMatch :
    (dir : ℕ) (leaf : Bytes) (expected : Option Bytes) (view : View) (before : List ℕ) (k : Kernel)
    → k.fds ≡ before
    → HasMatch expected view before (config_matches dir leaf expected view k)
unfolding config_matches
config_matches-HasMatch dir leaf expected view before k h =
    match_opened-HasMatch expected view before (private_open_at dir leaf k)
      (private_open_at-HasFile dir leaf before k h)

pub swapped :
    (seen expected : Option Bytes) (content : Bytes)
    → is_same seen expected ≡ true
    → compare_and_swap seen expected content ≡ (some content, true)
unfolding compare_and_swap
swapped seen expected content h = rw h refl

pub kept :
    (seen expected : Option Bytes) (content : Bytes)
    → is_same seen expected ≡ false
    → compare_and_swap seen expected content ≡ (seen, false)
unfolding compare_and_swap
kept seen expected content h = rw h refl
