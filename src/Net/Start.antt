-- ===== src/Net/Start.antt =====
-- src/client/bridge.c: starting a transfer, ending it, and taking what it brought. A lane is free
-- where its slot is `none`, which is a null libcurl handle.
pub mod Lanes
use zimbr.Prelude.Int.{ℤ, pos, negsuc}
use zimbr.Prelude.{
  ℕ, zero, suc, ◌+◌, ◌*◌, ◌-◌, ◌^◌, Bool, true, false, not, ◌&&◌, ◌||◌, Option, none, some, List,
  [], ◌∷◌, ◌==◌, ltb, leb, if◌then◌else◌, length, get_or, set,
}
use zimbr.Net.Slot.{Bytes, Slot, config, empty}

-- struct ZcNet: the origin of the relay and the five lanes
pub record Net : Type 0 where
  pub origin : Bytes
  pub slots : List (Option Slot)

abbrev pub is_free : Option Slot → Bool
is_free none = true
is_free (some s) = false

abbrev pub at : Net → ℕ → Option Slot
at n i = get_or n.slots i none

abbrev pub put : ℕ → Option Slot → Net → Net
put i s n = record n { slots = set n.slots i s }

unfoldable pub clear_slot : ℕ → Net → Net
clear_slot i n = put i none n

-- ZC_REQUEST_URL_CAPACITY
abbrev pub url_capacity : ℕ
url_capacity = 8192

abbrev pub is_path : Bytes → Bool
is_path path = (get_or path 0 0 == b'/') && not (get_or path 1 0 == b'/')

-- what libcurl makes of it: whether it gives a handle, and whether it takes every option
pub record Curl : Type 0 where
  pub has_handle : Bool
  pub is_configured : Bool

-- zc_net_start on a lane that is not below 0, at the time `now`
unfoldable pub start_lane : Curl → ℕ → Bytes → ℕ → ℕ → Net → Bool × Net
unfolding clear_slot
start_lane curl i path body_length now n =
    let fresh = record (empty i) { last_rx = now } in
    let failed = record fresh { kind = config; is_done = true } in
    if ltb 4 i || not (is_free (at n i)) || not (is_path path) || leb (2 ^ 63) body_length
    then (false, n)
    else if not curl.has_handle
    then (false, n)
    else if leb url_capacity (length n.origin + length path)
    then (false, clear_slot i (put i (some fresh) n))
    else (true, put i (some (if curl.is_configured then fresh else failed)) n)

unfoldable pub start : Curl → ℤ → Bytes → ℕ → ℕ → Net → Bool × Net
unfolding start_lane
start curl (pos i) path body_length now n = start_lane curl i path body_length now n
start curl (negsuc i) path body_length now n = (false, n)

abbrev pub change : (Slot → Slot) → Option Slot → Option Slot
change f none = none
change f (some s) = some (f s)

-- the writes to the slot, after a start that was accepted
abbrev pub then_change : (Slot → Slot) → ℕ → Bool × Net → Bool × Net
then_change f i (false, n) = (false, n)
then_change f i (true, n) = (true, put i (change f (at n i)) n)

-- `is_open` is fd >= 0
unfoldable pub start_file : Curl → ℤ → Bytes → Bool → ℕ → ℕ → Net → Bool × Net
unfolding start_lane
start_file curl (negsuc lane) path is_open expected now n = (false, n)
start_file curl (pos lane) path is_open expected now n =
    if ltb 1 lane || not is_open || ltb (8 * 1024 * 1024) expected
    then (false, n)
    else then_change (λ s. record s { expected = expected }) (lane + 2)
        (start_lane curl (lane + 2) path 0 now n)

abbrev pub is_epoch_byte : ℕ → Bool
is_epoch_byte c =
    (leb b'A' c && leb c b'Z')
    || (leb b'a' c && leb c b'z')
    || (leb b'0' c && leb c b'9')
    || (c == b'-')
    || (c == b'_')

unfoldable pub all_epoch_bytes : Bytes → Bool
all_epoch_bytes [] = true
all_epoch_bytes (c ∷ cs) = is_epoch_byte c && all_epoch_bytes cs

abbrev pub upload_cap : ℕ
upload_cap = 100 * 1024 * 1024

abbrev pub is_done_slot : Option Slot → Bool
is_done_slot none = false
is_done_slot (some s) = s.is_done

-- the upload's own headers and options, which `fits` says that libcurl takes
abbrev pub then_upload : Bool → ℕ → Bool × Net → Bool × Net
then_upload fits n (false, net) = (false, net)
then_upload fits n (true, net) =
    if is_done_slot (at net 4)
    then (true, net)
    else if fits
    then (
      true,
      put 4 (change (λ s. record s { is_upload = true; upload_length = n }) (at net 4)) net,
    )
    else (false, clear_slot 4 net)

unfoldable pub start_upload : Curl → Bool → Bytes → Bytes → Bool → ℕ → ℕ → Net → Bool × Net
unfolding start_lane all_epoch_bytes clear_slot
start_upload curl fits path epoch is_open n now net =
    if not is_open || ltb upload_cap n || not (length epoch == 22) || not (all_epoch_bytes epoch)
    then (false, net)
    else then_upload fits n (start_lane curl 4 path 0 now net)

-- zc_net_take_slot_body
abbrev pub body_of : Option Slot → Bytes
body_of none = []
body_of (some s) = s.body

unfoldable pub take_slot_body : ℕ → Net → Bytes × Net
take_slot_body i n =
    (body_of (at n i), put i (change (λ s. record s { body = []; len = 0 }) (at n i)) n)
