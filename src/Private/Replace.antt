-- ===== src/Private/Replace.antt =====
-- src/relay/tls.c, config_matches and zr_tls_replace_config: a configuration is replaced if it is
-- what the caller expects.
use zimbr.Prelude.Int.{ℤ, pos, negsuc}
use zimbr.Prelude.{
  ℕ, Bool, true, false, not, ◌||◌, Option, none, some, List, [], ◌∷◌, ◌++◌, leb, if◌then◌else◌,
  length, bytes_eq,
}
use zimbr.Files.Kernel.{
  Bytes, Kernel, is_ok, open_call, close, perform, create_at, change_mode, sync, rename, unlink,
}
use zimbr.Files.Read.{Fetch}
use zimbr.Net.Receive
use zimbr.Net.Receive.{write_all}
use zimbr.Cache.{digits}
use zimbr.Platform.Secrets.{random}
use zimbr.Private.Relay.{
  Parent, private_parent, Opened, opened, absent, broken, private_open_at, private_read,
}

-- the configuration at the time of a check, where the check opens it: its content and the answers
-- of read
pub record View : Type 0 where
  pub content : Bytes
  pub answers : List Fetch

-- the results 0, -2 and -1, with what the check saw; no file is `none`
pub data Match : Type 0 where
  same : Option Bytes → Match
  differs : Option Bytes → Match
  unclear : Match

abbrev pub is_expected : Option Bytes → Bytes → Bool
is_expected none current = false
is_expected (some expected) current = bytes_eq expected current

abbrev pub compared : Option Bytes → Option Bytes × Kernel → Match × Kernel
compared expected (none, k) = (unclear, k)
compared expected (some current, k) =
    (if is_expected expected current then same (some current) else differs (some current), k)

abbrev pub match_absent : Option Bytes → Match
match_absent none = same none
match_absent (some expected) = differs none

abbrev pub match_opened : Option Bytes → View → Opened × Kernel → Match × Kernel
match_opened expected view (opened fd, k) =
    compared expected (private_read view.answers 65536 view.content fd k)
match_opened expected view (absent, k) = (match_absent expected, k)
match_opened expected view (broken, k) = (unclear, k)

unfoldable pub config_matches : ℕ → Bytes → Option Bytes → View → Kernel → Match × Kernel
unfolding private_open_at private_read
config_matches dir leaf expected view k = match_opened expected view (private_open_at dir leaf k)

-- the result, and what renameat installed
pub record Replaced : Type 0 where
  pub result : ℤ
  pub seen : Match
  pub installed : Option Bytes

abbrev pub stopped : ℤ → Match → Replaced
stopped result m = record { result = result; seen = m; installed = none }

-- the label `done`
abbrev pub cleanup : ℕ → ℕ → Bytes → Replaced × Kernel → Replaced × Kernel
cleanup dir fd temporary (r, k) =
    let (e, k') = perform (unlink dir temporary) (close fd k) in (r, close dir k')

abbrev pub rename_and_sync : ℕ → Bytes → Bytes → Bytes → Match → Kernel → Replaced × Kernel
rename_and_sync dir temporary leaf file m k =
    let (e, k') = perform (rename dir temporary leaf) k in
    let (e', k'') = perform (sync dir) k' in
    if not (is_ok e) then (stopped (negsuc 0) m, k') else (
      record { result = if is_ok e' then pos 0 else pos 1; seen = m; installed = some file },
      k'',
    )

-- after the second check
abbrev pub install : ℕ → Bytes → Bytes → Bytes → Match × Kernel → Replaced × Kernel
install dir temporary leaf file (same seen, k) =
    rename_and_sync dir temporary leaf file (same seen) k
install dir temporary leaf file (differs seen, k) = (stopped (negsuc 1) (differs seen), k)
install dir temporary leaf file (unclear, k) = (stopped (negsuc 0) unclear, k)

-- the write, the fsync and the second check
abbrev pub fill :
    ℕ → Bytes → Bytes → Option Bytes → View → ℕ → Bool × Bytes → Kernel → Replaced × Kernel
fill dir temporary leaf expected view fd (false, file) k = (stopped (negsuc 0) unclear, k)
fill dir temporary leaf expected view fd (true, file) k =
    let (e, k') = perform (sync fd) k in
    if is_ok e
    then install dir temporary leaf file (config_matches dir leaf expected view k')
    else (stopped (negsuc 0) unclear, k')

abbrev pub created :
    ℕ
    → Bytes
    → Bytes
    → Option Bytes
    → Bytes
    → List Receive.Answer
    → View
    → Option ℕ × Kernel
    → Replaced × Kernel
created dir temporary leaf expected content writes view (none, k) =
    (stopped (negsuc 0) unclear, close dir k)
created dir temporary leaf expected content writes view (some fd, k) =
    let (e, k') = perform (change_mode fd 384) k in
    cleanup dir fd temporary (
      if is_ok e
      then fill dir temporary leaf expected view fd (write_all writes content []) k'
      else (stopped (negsuc 0) unclear, k'))

abbrev pub settings_prefix : Bytes
settings_prefix =
    b'.' ∷ b'r' ∷ b'e' ∷ b'l' ∷ b'a' ∷ b'y' ∷ b'-' ∷ b's' ∷ b'e' ∷ b't' ∷ b't' ∷ b'i' ∷ b'n' ∷ b'g'
    ∷ b's' ∷ b'-' ∷ []

abbrev pub named :
    ℕ
    → Bytes
    → Option Bytes
    → Bytes
    → List Receive.Answer
    → View
    → Option Bytes × Kernel
    → Replaced × Kernel
named dir leaf expected content writes view (none, k) = (stopped (negsuc 0) unclear, close dir k)
named dir leaf expected content writes view (some bytes, k) =
    let temporary = settings_prefix ++ digits bytes in
    created dir temporary leaf expected content writes view (open_call (create_at dir temporary) k)

-- the answers of the system beside the kernel's: the two views of the configuration, /dev/urandom,
-- and write(2)
pub record World : Type 0 where
  pub first : View
  pub second : View
  pub fetches : List Fetch
  pub source : Bytes
  pub writes : List Receive.Answer

-- after the first check
abbrev pub if_same : ℕ → Bytes → Option Bytes → Bytes → World → Match × Kernel → Replaced × Kernel
if_same dir leaf expected content w (same seen, k) =
    named dir leaf expected content w.writes w.second (random 16 w.fetches w.source k)
if_same dir leaf expected content w (differs seen, k) =
    (stopped (negsuc 1) (differs seen), close dir k)
if_same dir leaf expected content w (unclear, k) = (stopped (negsuc 0) unclear, close dir k)

abbrev pub in_parent : Option Bytes → Bytes → World → Parent × Kernel → Replaced × Kernel
in_parent expected content w (none, k) = (stopped (negsuc 0) unclear, k)
in_parent expected content w (some (dir, leaf), k) =
    if_same dir leaf expected content w (config_matches dir leaf expected w.first k)

abbrev pub length_of : Option Bytes → ℕ
length_of none = 0
length_of (some bytes) = length bytes

-- an expectation that is null has length 0
unfoldable pub replace_config : Bytes → Option Bytes → Bytes → World → Kernel → Replaced × Kernel
unfolding private_parent config_matches random open_call perform write_all digits
replace_config path expected content w k =
    if leb 65536 (length content) || leb 65536 (length_of expected)
    then (stopped (negsuc 0) unclear, k)
    else in_parent expected content w (private_parent path k)
