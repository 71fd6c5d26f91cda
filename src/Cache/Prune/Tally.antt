-- ===== src/Cache/Prune/Tally.antt =====
-- src/client/media.c, zc_cache_prune: what a scan that meets no error counts.
use zimbr.Prelude.{
  ℕ, ◌+◌, ◌≡◌, ◌⊎◌, Bool, true, false, ◌&&◌, Option, none, some, List, [], ◌∷◌, ◌++◌, ◌==◌,
  if◌then◌else◌, length,
}
use zimbr.Files.Kernel.{Bytes}
use zimbr.Cache.{cache_name}
use zimbr.Cache.Prune.{
  Time, Entry, Looked, seen, failing, Listed, Scan, entry_cap, temporary_length,
}
use zimbr.Cache.Prune.Order.{total}

-- the size and the time of a listed file that belongs to the cache: a name of the cache, and a
-- regular file of the user's
abbrev pub with_time : Option ℕ → Time → Option (ℕ × Time)
with_time none modified = none
with_time (some size) modified = some (size, modified)

abbrev pub seen_file : Looked → Option (ℕ × Time)
seen_file (failing e) = none
seen_file (seen st) = if st.is_regular && st.is_own then with_time st.size st.modified else none

abbrev pub cache_file : Listed → Option (ℕ × Time)
cache_file l = if cache_name l.name then seen_file l.looked else none

-- The files of the directory: the entries that are kept, the bytes of the temporary files that are
-- kept, and the names that were removed.
pub record Tally : Type 0 where
  pub entries : List Entry
  pub temporaries : ℕ
  pub removed : List Bytes

abbrev pub tally_file : Bool → Listed → Option (ℕ × Time) → Tally → Tally
tally_file startup l none t = t
tally_file startup l (some (size, modified)) t =
    if length l.name == temporary_length
    then (if startup
        then record t { removed = t.removed ++ l.name ∷ [] }
        else record t { temporaries = t.temporaries + size })
    else if length t.entries == entry_cap
    then record t { removed = t.removed ++ l.name ∷ [] }
    else record t {
      entries = t.entries ++ record { name = l.name; bytes = size; used = modified } ∷ [];
    }

unfoldable pub tally : Bool → List Listed → Tally → Tally
tally startup [] t = t
tally startup (l ∷ ls) t = tally startup ls (tally_file startup l (cache_file l) t)

-- the variables of the scan hold what the tally says
pub record Holds (t : Tally) (s : Scan) : Type 0 where
  pub entries : s.entries ≡ t.entries
  pub count : s.count ≡ length t.entries
  pub bytes : s.bytes ≡ t.temporaries + total t.entries
  pub removed : s.removed ≡ t.removed

-- a round that was not broken off, and that met no error
abbrev pub IsTallied : Tally → Bool × Scan → Type 0
IsTallied t (true, s) = s.ok ≡ false
IsTallied t (false, s) = (s.ok ≡ false) ⊎ Holds t s
