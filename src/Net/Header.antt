-- ===== src/Net/Header.antt =====
-- src/client/bridge.c, receive_header: the media type and the relay's extensions, from a header
-- line.
pub mod Fields
use zimbr.Prelude.{
  ℕ, ◌+◌, ◌-◌, Bool, true, false, ◌&&◌, ◌||◌, not, Option, none, some, List, [], ◌∷◌, ◌++◌, ◌==◌,
  ltb, leb, if◌then◌else◌, length, drop, starts_with,
}
use zimbr.Net.Slot.{Bytes, Slot}

-- sizeof mime and sizeof extensions
abbrev pub mime_size : ℕ
mime_size = 64

abbrev pub extensions_size : ℕ
extensions_size = 128

-- a letter of strncasecmp, in the C locale
unfoldable pub lower : ℕ → ℕ
lower c = if leb 65 c && leb c 90 then c + 32 else c

-- !strncasecmp(text, word, strlen(word)), for a word in small letters
unfoldable pub starts_word : Bytes → Bytes → Bool
unfolding lower
starts_word [] text = true
starts_word (w ∷ ws) [] = false
starts_word (w ∷ ws) (c ∷ text) = (w == lower c) && starts_word ws text

abbrev pub http_word : Bytes
http_word = b'H' ∷ b'T' ∷ b'T' ∷ b'P' ∷ b'/' ∷ []

abbrev pub type_word : Bytes
type_word =
    b'c' ∷ b'o' ∷ b'n' ∷ b't' ∷ b'e' ∷ b'n' ∷ b't' ∷ b'-' ∷ b't' ∷ b'y' ∷ b'p' ∷ b'e' ∷ b':' ∷ []

abbrev pub extensions_word : Bytes
extensions_word =
    b'z' ∷ b'i' ∷ b'm' ∷ b'b' ∷ b'r' ∷ b'-' ∷ b'e' ∷ b'v' ∷ b'e' ∷ b'n' ∷ b't' ∷ b'-' ∷ b'e' ∷ b'x'
    ∷ b't' ∷ b'e' ∷ b'n' ∷ b's' ∷ b'i' ∷ b'o' ∷ b'n' ∷ b's' ∷ b':' ∷ []

abbrev pub is_blank : ℕ → Bool
is_blank c = (c == b' ') || (c == b'\t')

-- the ends that the media type and the extensions are cut by
abbrev pub ends_type : ℕ → Bool
ends_type c = (c == b'\r') || (c == b'\n') || (c == b' ')

abbrev pub ends_extensions : ℕ → Bool
ends_extensions c = (c == b'\r') || (c == b'\n') || (c == b' ') || (c == b'\t')

-- the loop that moves `begin`
unfoldable pub trim_front : Bytes → Bytes
trim_front [] = []
trim_front (c ∷ cs) = if is_blank c then trim_front cs else c ∷ cs

-- the loop that moves `end` back
unfoldable pub trim_back : (ℕ → Bool) → Bytes → Bytes
trim_back ends [] = []
trim_back ends (c ∷ cs) =
    let rest = trim_back ends cs in if (length rest == 0) && ends c then [] else c ∷ rest

abbrev pub value : (ℕ → Bool) → Bytes → Bytes → Bytes
value ends word line = trim_back ends (trim_front (drop (length word) line))

-- a status line starts the headers of another response
abbrev pub status_line : Bytes → Slot → Slot
status_line line s =
    if starts_with http_word line
    then record s { extensions = []; mime = []; extension_seen = false }
    else s

-- each result is whether the callback goes on, to return n, or returns 0
unfoldable pub type_line : Bytes → Slot → Bool × Slot
unfolding starts_word trim_front trim_back
type_line line s =
    let v = value ends_type type_word line in
    if starts_word type_word line
    then (if leb mime_size (length v) then (false, s) else (true, record s { mime = v }))
    else (true, s)

unfoldable pub extensions_line : Bytes → Slot → Bool × Slot
unfolding starts_word trim_front trim_back
extensions_line line s =
    let v = value ends_extensions extensions_word line in
    if starts_word extensions_word line
    then (if leb extensions_size (length v) || s.extension_seen
        then (false, s)
        else (true, record s { extensions = v; extension_seen = true }))
    else (true, s)

unfoldable pub receive_header : Bytes → Slot → Bool × Slot
unfolding type_line extensions_line
receive_header line s =
    let (going, t) = type_line line (status_line line s) in
    if going then extensions_line line t else (false, t)

-- the header lines of a transfer, which libcurl ends at the first that is refused
unfoldable pub receive_headers : List Bytes → Slot → Bool × Slot
unfolding receive_header
receive_headers [] s = (true, s)
receive_headers (line ∷ lines) s =
    let (going, t) = receive_header line s in
    let rest = receive_headers lines t in if going then rest else (false, t)
