-- ===== src/Drop/Hex.antt =====
-- src/client/drop.c: the value of a hexadecimal digit, and the digits of a byte.
use zimbr.Prelude.{ℕ, ◌+◌, ◌-◌, ◌<◌, Option, none, some, ◌≡◌, ◌&&◌, ltb, leb, if◌then◌else◌, arith}

-- `none` is the result -1
unfoldable pub hex : ℕ → Option ℕ
hex c =
    if leb b'0' c && leb c b'9'
    then some (c - b'0')
    else if leb b'a' c && leb c b'f'
    then some (c - b'a' + 10)
    else if leb b'A' c && leb c b'F'
    then some (c - b'A' + 10)
    else none

-- a hexadecimal digit as `snprintf` writes it with %X
abbrev pub digit : ℕ → ℕ
digit d = if ltb d 10 then b'0' + d else b'A' + (d - 10)

pub hex-digit : (d : ℕ) → d < 16 → hex (digit d) ≡ some d
unfolding hex
hex-digit d h = ground arith

pub hex-lt : (c : ℕ) {d : ℕ} → hex c ≡ some d → d < 16
unfolding hex
hex-lt c h = ground arith
