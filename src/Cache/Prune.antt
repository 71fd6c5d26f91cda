-- ===== src/Cache/Prune.antt =====
-- src/client/media.c, zc_cache_prune: the scan of the cache's directory, and the removal of the
-- oldest files until the rest is within the budget.
pub mod Order
pub mod Invariant
pub mod Tally
pub mod Tallied
pub mod Accounting
pub mod Bounds
use zimbr.Prelude.Int.{ℤ, pos, negsuc, ltb_ℤ}
use zimbr.Prelude.{
  ℕ, ◌+◌, ◌*◌, ◌-◌, ◌^◌, Bool, true, false, not, ◌&&◌, ◌||◌, Option, none, some, List, [], ◌∷◌,
  ◌++◌, ◌==◌, ltb, if◌then◌else◌, length,
}
use zimbr.Files.Kernel.{Bytes, no_entry}
use zimbr.Cache.{cache_name}

-- struct timespec
pub record Time : Type 0 where
  pub sec : ℤ
  pub nsec : ℕ

-- struct Entry
pub record Entry : Type 0 where
  pub name : Bytes
  pub bytes : ℕ
  pub used : Time

-- what fstatat tells of a name; a negative size is `none`
pub record FileStatus : Type 0 where
  pub is_regular : Bool
  pub is_own : Bool  -- st_uid == getuid()
  pub size : Option ℕ
  pub modified : Time

pub data Looked : Type 0 where
  seen : FileStatus → Looked
  failing : ℕ → Looked

-- A name that readdir returns, with the answers to the calls that the round may make for it:
-- fstatat, unlinkat (whether it succeeds) and realloc (whether there is memory).
pub record Listed : Type 0 where
  pub name : Bytes
  pub looked : Looked
  pub unlinked : Bool
  pub allocated : Bool

-- All the answers: of openat and fdopendir, the names, whether readdir ends by an error, the answer
-- of closedir, and those of unlinkat in the second loop; where they run out, unlinkat fails.
pub record Scene : Type 0 where
  pub opens : Bool
  pub streams : Bool
  pub listing : List Listed
  pub read_fails : Bool
  pub closes : Bool
  pub removals : List Bool

-- the variables of the function, and the names that were unlinked, the latest last
pub record Scan : Type 0 where
  pub entries : List Entry
  pub count : ℕ
  pub capacity : ℕ
  pub bytes : ℕ
  pub ok : Bool
  pub removed : List Bytes

-- ZcCacheUsage
pub record Usage : Type 0 where
  pub bytes : ℕ
  pub entries : ℕ

abbrev pub size_max : ℕ
size_max = 2 ^ 64 - 1

abbrev pub entry_cap : ℕ
entry_cap = 8192

abbrev pub temporary_length : ℕ
temporary_length = 36

-- the result of `oldest`
unfoldable pub oldest : Entry → Entry → ℤ
oldest a b =
    if ltb_ℤ a.used.sec b.used.sec
    then negsuc 0
    else if ltb_ℤ b.used.sec a.used.sec
    then pos 1
    else if ltb a.used.nsec b.used.nsec
    then negsuc 0
    else if ltb b.used.nsec a.used.nsec
    then pos 1
    else pos 0

-- qsort by `oldest`. The C standard leaves the order of equal elements open; here it is the listed
-- one.
unfoldable pub insert : Entry → List Entry → List Entry
unfolding oldest
insert e [] = e ∷ []
insert e (f ∷ fs) =
    let later = f ∷ insert e fs in if ltb_ℤ (oldest f e) (pos 0) then later else e ∷ f ∷ fs

unfoldable pub qsort : List Entry → List Entry
unfolding insert
qsort [] = []
qsort (e ∷ es) = insert e (qsort es)

-- the allocated length that a round needs
abbrev pub grown : ℕ → ℕ
grown capacity = if capacity == 0 then 64 else capacity * 2

-- `true` beside the state is a `break`
abbrev pub counted : Listed → ℕ → Time → Scan → Bool × Scan
counted l size modified s =
    if ltb (size_max - s.bytes) size then (true, record s { ok = false }) else (
      false,
      record s {
        entries = s.entries ++ record { name = l.name; bytes = size; used = modified } ∷ [];
        count = s.count + 1;
        bytes = s.bytes + size;
      },
    )

abbrev pub add_entry : Listed → ℕ → Time → Scan → Bool × Scan
add_entry l size modified s =
    if s.count == s.capacity
    then (if l.allocated
        then counted l size modified (record s { capacity = grown s.capacity })
        else (true, record s { ok = false }))
    else counted l size modified s

abbrev pub add_temporary : ℕ → Scan → Bool × Scan
add_temporary size s =
    if ltb (size_max - s.bytes) size
    then (true, record s { ok = false })
    else (false, record s { bytes = s.bytes + size })

-- a cache file of a size that is not negative
abbrev pub take_file : Bool → Listed → ℕ → Time → Scan → Bool × Scan
take_file startup l size modified s =
    if length l.name == temporary_length
    then (if startup
        then (if l.unlinked
            then (false, record s { removed = s.removed ++ l.name ∷ [] })
            else add_temporary size (record s { ok = false }))
        else add_temporary size s)
    else if s.count == entry_cap
    then (if l.unlinked
        then (false, record s { removed = s.removed ++ l.name ∷ [] })
        else (false, record s { ok = false }))
    else add_entry l size modified s

abbrev pub sized : Bool → Listed → Option ℕ → Time → Scan → Bool × Scan
sized startup l none modified s = (false, s)
sized startup l (some size) modified s = take_file startup l size modified s

abbrev pub looked_at : Bool → Listed → Looked → Scan → Bool × Scan
looked_at startup l (failing e) s =
    if e == no_entry then (false, s) else (false, record s { ok = false })
looked_at startup l (seen st) s =
    if not st.is_regular || not st.is_own then (false, s) else sized startup l st.size st.modified s

-- one round of the loop
unfoldable pub scan_round : Bool → Listed → Scan → Bool × Scan
unfolding cache_name
scan_round startup l s =
    if not (cache_name l.name) then (false, s) else looked_at startup l l.looked s

abbrev pub unless_broken : Bool × Scan → (Scan → Scan) → Scan
unless_broken (true, s) next = s
unless_broken (false, s) next = next s

-- `read_fails` is whether readdir ends by an error and not by the last name
unfoldable pub scan_loop : Bool → List Listed → Bool → Scan → Scan
unfolding scan_round
scan_loop startup [] read_fails s = if read_fails then record s { ok = false } else s
scan_loop startup (l ∷ ls) read_fails s =
    unless_broken (scan_round startup l s) (scan_loop startup ls read_fails)

abbrev pub is_over : ℕ → ℕ → (bytes remaining : ℕ) → Bool
is_over budget max_entries bytes remaining = ltb budget bytes || ltb max_entries remaining

abbrev pub next_removal : List Bool → Bool
next_removal [] = false
next_removal (b ∷ bs) = b

abbrev pub later_removals : List Bool → List Bool
later_removals [] = []
later_removals (b ∷ bs) = bs

-- the variables of the second loop: bytes, remaining, ok, and the names that were unlinked
pub record Left : Type 0 where
  pub bytes : ℕ
  pub remaining : ℕ
  pub ok : Bool
  pub removed : List Bytes

unfoldable pub evict_loop : (budget max_entries : ℕ) → List Entry → List Bool → Left → Left
evict_loop budget max_entries [] removals s = s
evict_loop budget max_entries (e ∷ es) removals s =
    let s' : Left =
      if next_removal removals
      then record s {
        bytes = s.bytes - e.bytes;
        remaining = s.remaining - 1;
        removed = s.removed ++ e.name ∷ [];
      }
      else record s { ok = false } in
    let rest = evict_loop budget max_entries es (later_removals removals) s' in
    if is_over budget max_entries s.bytes s.remaining then rest else s

abbrev pub start_scan : Scan
start_scan = record { entries = []; count = 0; capacity = 0; bytes = 0; ok = true; removed = [] }

-- the variables after closedir
abbrev pub after_scan : Bool → Scan → Left
after_scan closes s = record {
  bytes = s.bytes;
  remaining = s.count;
  ok = s.ok && closes;
  removed = s.removed;
}

abbrev pub verdict : ℕ → ℕ → Left → Option Usage × List Bytes
verdict budget max_entries s =
    if not s.ok || is_over budget max_entries s.bytes s.remaining
    then (none, s.removed)
    else (some (record { bytes = s.bytes; entries = s.remaining }), s.removed)

-- The usage, or `none` for the result 0, and the names that were unlinked.
unfoldable pub cache_prune : (budget max_entries : ℕ) → Bool → Scene → Option Usage × List Bytes
unfolding scan_loop qsort evict_loop
cache_prune budget max_entries startup scene =
    if not scene.opens || not scene.streams
    then (none, [])
    else let s = scan_loop startup scene.listing scene.read_fails start_scan in
      verdict budget max_entries
        (evict_loop budget max_entries (qsort s.entries) scene.removals (after_scan scene.closes s))
