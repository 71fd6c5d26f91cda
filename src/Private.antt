-- ===== src/Private.antt =====
-- The walks to a private file, without symbolic links: private_parent of src/relay/tls.c and
-- zc_private_read of src/client/bridge.c; what the two share is here.
pub mod Client
pub mod Relay
pub mod Walk
pub mod Parent
pub mod Replace
pub mod Swap
pub mod Refinement
mod Tests
use zimbr.Prelude.{
  ℕ, ◌+◌, ◌/◌, ◌%◌, Bool, true, false, not, ◌&&◌, ◌||◌, Option, none, some, List, [], ◌∷◌, ◌++◌,
  ◌==◌, ltb, if◌then◌else◌, length, bytes_eq,
}
use zimbr.Files.Kernel.{Bytes, Stat, Kernel, no_entry, error_of, first_answer}
use zimbr.Files.Uploads.{is_dots}
use zimbr.Files.Outgoing.{is_error}

abbrev pub path_max : ℕ
path_max = 4096

-- the open directory before the first part
abbrev pub root_path : Bytes
root_path = b'/' ∷ []

abbrev pub add_first : ℕ → Bytes × List Bytes → Bytes × List Bytes
add_first c (part, rest) = (c ∷ part, rest)

abbrev pub add_part : Bytes × List Bytes → Bytes × List Bytes
add_part (part, rest) = ([], part ∷ rest)

-- the parts between the slashes: the first, and those after it
unfoldable pub split_path : Bytes → Bytes × List Bytes
split_path [] = ([], [])
split_path (c ∷ cs) =
    let parts = split_path cs in if c == b'/' then add_part parts else add_first c parts

-- a path that is not null, without its slash in front; `none` where it is refused
abbrev pub relative : Bytes → Option Bytes
relative [] = none
relative (c ∷ cs) = if (c == b'/') && ltb (length (c ∷ cs)) path_max then some cs else none

abbrev pub is_bad_part : Bytes → Bool
is_bad_part part = (length part == 0) || is_dots part

-- mode & 022, and mode & S_ISVTX
abbrev pub is_shared : ℕ → Bool
is_shared mode = ((mode / 16) % 2 == 1) || ((mode / 2) % 2 == 1)

abbrev pub is_sticky : ℕ → Bool
is_sticky mode = (mode / 512) % 2 == 1

-- an ancestor that others cannot write to
abbrev pub is_trusted : ℕ → Stat → Bool
is_trusted user st =
    not (not (st.uid == 0) && not (st.uid == user))
    && not (is_shared st.mode && not ((st.uid == 0) && is_sticky st.mode))

-- the call that is next fails with ENOENT
abbrev pub is_missing : Kernel → Bool
is_missing k = is_error (error_of (first_answer k.answers)) no_entry
