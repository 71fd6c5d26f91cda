-- ===== src/Drop.antt =====
-- src/client/drop.c: the parser of a `text/uri-list` drop and the batch that waits for the
-- composer. A C string is the list of its bytes, without the NUL; the static variables are
-- `DropState`.
mod Hex
pub mod Decode
pub mod Lines
pub mod Bounds
pub mod RoundTrip
pub mod Delivery
mod Tests
unfoldable pub use Hex.{hex}
use Prim.Native.Nat.{min}
use zimbr.Prelude.Int.{ℤ, pos, negsuc}
use zimbr.Prelude.{
  ℕ, zero, suc, ◌+◌, ◌*◌, ◌-◌, Bool, true, false, not, ◌&&◌, ◌||◌, Option, none, some, List, [],
  ◌∷◌, ◌++◌, ltb, leb, ◌==◌, if◌then◌else◌, ◌>>=◌, length, get_or, drop, starts_with,
}

abbrev pub Bytes : Type 0
Bytes = List ℕ

-- ZC_DROP_FILES, ZC_DROP_PATH and ZC_DROP_BYTES of src/client/drop.h
abbrev pub drop_files : ℕ
drop_files = 16

abbrev pub drop_path : ℕ
drop_path = 4096

abbrev pub drop_bytes : ℕ
drop_bytes = 256 * 1024

-- memchr(text, 0, length) != NULL
unfoldable pub has_nul : Bytes → Bool
has_nul [] = false
has_nul (c ∷ cs) = (c == 0) || has_nul cs

unfoldable pub is_break : ℕ → Bool
is_break c = (c == b'\r') || (c == b'\n')

-- the scan to the end of a line: the line, and what is left from its break on
unfoldable pub split_line : Bytes → Bytes × Bytes
split_line [] = ([], [])
split_line (c ∷ cs) =
    let (line, rest) = split_line cs in if is_break c then ([], c ∷ cs) else (c ∷ line, rest)

-- the scan over the breaks that follow it
unfoldable pub skip_breaks : Bytes → Bytes
skip_breaks [] = []
skip_breaks (c ∷ cs) = if is_break c then skip_breaks cs else c ∷ cs

-- a byte that a path may not hold, whether it was escaped or not
abbrev pub is_control : ℕ → Bool
is_control c = ltb c 32 || (c == 127)

-- the store of one decoded byte, after `used` bytes
abbrev pub put_byte : ℕ → ℕ → Option Bytes → Option Bytes
put_byte used c rest =
    if is_control c || (used == drop_path - 1) then none else (rest >>= λ bytes. some (c ∷ bytes))

-- the loop over the bytes of a line from `start`; `none` is the jump to `invalid`
unfoldable pub decode : ℕ → Bytes → Option Bytes
unfolding hex
decode used [] = some []
decode used (c ∷ []) =
    if c == b'%'
    then none
    else if (c == b'?') || (c == b'#')
    then none
    else put_byte used c (some [])
decode used (c ∷ d ∷ []) =
    let rest = decode (used + 1) (d ∷ []) in
    if c == b'%' then none else if (c == b'?') || (c == b'#') then none else put_byte used c rest
decode used (c ∷ d ∷ e ∷ cs) =
    let plain = decode (used + 1) (d ∷ e ∷ cs) in
    let escaped = decode (used + 1) cs in
    if c == b'%'
    then (hex d >>= λ high. hex e >>= λ low. put_byte used (high * 16 + low) escaped)
    else if (c == b'?') || (c == b'#')
    then none
    else put_byte used c plain

abbrev pub file_scheme : Bytes
file_scheme = b'f' ∷ b'i' ∷ b'l' ∷ b'e' ∷ b':' ∷ b'/' ∷ []

abbrev pub localhost : Bytes
localhost = b'l' ∷ b'o' ∷ b'c' ∷ b'a' ∷ b'l' ∷ b'h' ∷ b'o' ∷ b's' ∷ b't' ∷ b'/' ∷ []

-- `start`: where the path of a `file:` URI begins
unfoldable pub path_start : Bytes → ℕ
path_start line =
    if leb 7 (length line) && (get_or line 6 0 == b'/')
    then (if leb (7 + 10) (length line) && starts_with localhost (drop 7 line) then 7 + 9 else 7)
    else 5

-- one line that is neither empty nor a comment
unfoldable pub parse_uri : Bytes → Option Bytes
unfolding path_start
parse_uri line =
    if ltb (length line) 6 || not (starts_with file_scheme line)
    then none
    else let start = path_start line in
      if leb (length line) start || not (get_or line start 0 == b'/')
      then none
      else decode 0 (drop start line)

-- The loop of zc_drop_parse over the text that is left, after `count` paths. Each round passes at
-- least one byte, so the length of the text is fuel enough (Drop/Lines).
unfoldable pub parse_lines : ℕ → ℕ → Bytes → Option (List Bytes)
parse_lines fuel count [] = some []
parse_lines zero count (c ∷ cs) = none
parse_lines (suc fuel) count (c ∷ cs) =
    let (line, after) = split_line (c ∷ cs) in
    let rest = skip_breaks after in
    let skipped = parse_lines fuel count rest in
    let taken = parse_lines fuel (count + 1) rest in
    if (length line == 0) || (get_or line 0 0 == b'#')
    then skipped
    else if count == drop_files
    then none
    else (parse_uri line >>= λ path. taken >>= λ paths. some (path ∷ paths))

-- zc_drop_parse without its writes: the paths of an accepted text
unfoldable pub parse : Bytes → Option (List Bytes)
unfolding parse_lines
parse text =
    if ltb drop_bytes (length text) || has_nul text then none else parse_lines (length text) 0 text

-- the static variables; the callers pass 0 or 1 to zc_drop_set_hovered
pub record DropState : Type 0 where
  pub rejected : Bool
  pub hovered : Bool
  pub pending : List Bytes

abbrev pub initial : DropState
initial = record { rejected = false; hovered = false; pending = [] }

unfoldable pub reject : DropState → DropState
reject s = record s { rejected = true }

unfoldable pub set_hovered : Bool → DropState → DropState
set_hovered active s = record s { hovered = active }

unfoldable pub take_error : DropState → Bool × DropState
take_error s = (s.rejected, record s { rejected = false })

-- zc_drop_take; `none` is the result 0, which leaves the output alone
unfoldable pub take_pending : DropState → Option (List Bytes) × DropState
take_pending s =
    if length s.pending == 0 then (none, s) else (some s.pending, record s { pending = [] })

-- the two ends of zc_drop_parse and of zc_drop_paths: a whole batch, or none and an error
unfoldable pub store : Option (List Bytes) → DropState → DropState
unfolding reject
store none s = reject (record s { pending = [] })
store (some paths) s = record s { pending = paths }

unfoldable pub offer : Bytes → DropState → DropState
unfolding store set_hovered
offer text s = store (parse text) (set_hovered false s)

-- the loop over the bytes of one path
unfoldable pub has_control : Bytes → Bool
has_control [] = false
has_control (c ∷ cs) = is_control c || has_control cs

-- the loop over the paths that zc_drop_paths is given; a null pointer is `none`
unfoldable pub check_paths : List (Option Bytes) → Option (List Bytes)
unfolding has_control
check_paths [] = some []
check_paths (none ∷ rest) = none
check_paths (some path ∷ rest) =
    if not (get_or path 0 0 == b'/') || leb drop_path (length path) || has_control path
    then none
    else (check_paths rest >>= λ paths. some (path ∷ paths))

-- `paths` are the `count` pointers
unfoldable pub offer_paths : List (Option Bytes) → DropState → DropState
unfolding check_paths store reject
offer_paths paths s =
    let cleared = record s { hovered = false; pending = [] } in
    if (length paths == 0) || ltb drop_files (length paths)
    then reject cleared
    else store (check_paths paths) cleared
