-- ===== src/Net/Slot.antt =====
-- src/client/bridge.c: the slot of a transfer, and the arithmetic of size_t.
use zimbr.Prelude.{ℕ, ◌+◌, ◌-◌, ◌%◌, ◌^◌, ◌≤◌, ◌<◌, ◌≡◌, Bool, false, List, [], arith}

abbrev pub Bytes : Type 0
Bytes = List ℕ

-- the kinds of ZcError, in the order of its enumeration
pub data Kind : Type 0 where
  no_error : Kind
  network : Kind
  server_trust : Kind
  credentials : Kind
  client_rejected : Kind
  tls : Kind
  http : Kind
  config : Kind

-- struct Slot, without its libcurl handle and header list. `index` is its place in the array,
-- `file` what was written to its descriptor, and `body` the bytes of its buffer.
pub record Slot : Type 0 where
  pub index : ℕ
  pub file : Bytes
  pub body : Bytes
  pub len : ℕ
  pub status : ℕ
  pub is_done : Bool
  pub alert : ℕ
  pub last_rx : ℕ
  pub kind : Kind
  pub extensions : Bytes
  pub mime : Bytes
  pub extension_seen : Bool
  pub expected : ℕ
  pub is_upload : Bool
  pub sent : ℕ
  pub read_offset : ℕ
  pub upload_length : ℕ

-- `memset(s, 0, sizeof *s)`, for a slot of the array
abbrev pub empty : ℕ → Slot
empty index = record {
  index = index;
  file = [];
  body = [];
  len = 0;
  status = 0;
  is_done = false;
  alert = 0;
  last_rx = 0;
  kind = no_error;
  extensions = [];
  mime = [];
  extension_seen = false;
  expected = 0;
  is_upload = false;
  sent = 0;
  read_offset = 0;
  upload_length = 0;
}

-- a - b in 64 bits
unfoldable pub sub64 : ℕ → ℕ → ℕ
sub64 a b = (a + 2 ^ 64 - b) % 2 ^ 64

pub sub64_le : (a b : ℕ) → b ≤ a → a < 2 ^ 64 → sub64 a b ≡ a - b
unfolding sub64
sub64_le a b h k = omega arith
