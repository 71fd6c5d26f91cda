-- ===== src/Notifications/Callbacks.antt =====
-- src/client/notifications.c: the callbacks that GIO makes: replies, signals, and the daemon's
-- name.
use zimbr.Prelude.{
  ℕ, zero, suc, ◌+◌, Bool, true, false, not, ◌&&◌, ◌||◌, Option, none, some, [], ◌∷◌, ◌==◌,
  if◌then◌else◌, replicate, bytes_eq,
}
use zimbr.Notifications.State.{
  Bytes, limit, cleared, notify_call, capabilities_call, Call, get_capabilities, notify, activate,
  Notifications, Glib, u64, is_live, at_slot, put_slot, send, release, new_call, close_id,
}

-- `notified` up to its release; `none` is a call that failed
unfoldable pub route_reply : Call → Option ℕ → Notifications → Notifications
unfolding close_id put_slot
route_reply c (some id) n =
    let v = at_slot n c.slot in
    if not n.stopped && (c.generation == n.generation)
    then (if is_live v && (v.serial == c.serial)
        then put_slot n c.slot (record v { id = id })
        else close_id n id)
    else n
route_reply c none n =
    if (c.generation == n.generation) && ((at_slot n c.slot).serial == c.serial)
    then put_slot n c.slot cleared
    else n

unfoldable pub notified : Call → Option ℕ → Notifications → Notifications
notified c reply n = release (route_reply c reply n)

-- Nothing reads `pending` between its reset and the call, so both writes of the slot are one here.
unfoldable pub send_notice : Glib → Notifications → ℕ → Notifications
unfolding put_slot send new_call
send_notice g n slot =
    let v = at_slot n slot in
    let body = if n.markup then g.markup_escape v.body else v.body in
    let image = if n.images then v.image else none in
    if not n.ready || not (is_live v) || not v.pending
    then n
    else put_slot (new_call notify_call (send n (notify v.summary body image n.actions)) slot) slot
        (record v { pending = false; image = none })

-- the loop over the slots
unfoldable pub send_from : Glib → ℕ → ℕ → Notifications → Notifications
send_from g zero slot n = n
send_from g (suc left) slot n = send_from g left (slot + 1) (send_notice g n slot)

-- what the daemon's reply holds: "actions", "body-markup", "icon-static" or "icon-multi"
pub record Capabilities : Type 0 where
  pub actions : Bool
  pub body_markup : Bool
  pub icon_static : Bool
  pub icon_multi : Bool

unfoldable pub set_capabilities : Option Capabilities → Notifications → Notifications
set_capabilities none n = record n { actions = false; markup = false; images = false }
set_capabilities (some caps) n = record n {
  actions = caps.actions;
  markup = caps.body_markup;
  images = caps.icon_static || caps.icon_multi;
}

unfoldable pub capabilities : Glib → Call → Option Capabilities → Notifications → Notifications
capabilities g c reply n =
    let known = record (set_capabilities reply n) { ready = true } in
    release
      (if not n.stopped && (c.generation == n.generation) then send_from g limit 0 known else n)

-- the signals of the daemon, with the id that each carries; `other` is a signal of another name or
-- with arguments of another type
pub data Signal : Type 0 where
  closed : ℕ → Signal
  activation_token : ℕ → Bytes → Signal
  action_invoked : ℕ → Bytes → Signal
  other : Signal

abbrev pub signal_id : Signal → ℕ
signal_id (closed id) = id
signal_id (activation_token id token) = id
signal_id (action_invoked id key) = id
signal_id other = 0

abbrev default_action : Bytes
default_action = b'd' ∷ b'e' ∷ b'f' ∷ b'a' ∷ b'u' ∷ b'l' ∷ b't' ∷ []

abbrev or_empty : Option Bytes → Bytes
or_empty none = []
or_empty (some s) = s

-- The body of the loop at the notice that matches. The client's callback is the message
-- `activate`; what it does to the object is calls of its own.
unfoldable pub react : Signal → ℕ → Notifications → Notifications
unfolding put_slot send
react (activation_token id value) slot n =
    put_slot n slot (record (at_slot n slot) { token = some value })
react (action_invoked id key) slot n =
    let v = at_slot n slot in
    if bytes_eq key default_action
    then send n (activate (or_empty v.chat) (or_empty v.token))
    else n
react (closed id) slot n = put_slot n slot cleared
react other slot n = n

-- the loop over the slots, up to the first match
unfoldable pub dispatch_from : Signal → ℕ → ℕ → Notifications → Notifications
dispatch_from sig zero slot n = n
dispatch_from sig (suc left) slot n =
    let v = at_slot n slot in
    let rest = dispatch_from sig left (slot + 1) n in
    if not (is_live v) || (signal_id sig == 0) || not (v.id == signal_id sig)
    then rest
    else react sig slot n

-- g_strcmp0(a, b) == 0
abbrev pub same_name : Option Bytes → Option Bytes → Bool
same_name none none = true
same_name none (some b) = false
same_name (some a) none = false
same_name (some a) (some b) = bytes_eq a b

unfoldable pub signal_received : Option Bytes → Signal → Notifications → Notifications
signal_received sender sig n =
    if n.stopped || not (same_name sender n.owner) then n else dispatch_from sig limit 0 n

unfoldable pub appeared : Bytes → Notifications → Notifications
unfolding send new_call
appeared owner n =
    let known = record n {
      generation = u64 (n.generation + 1);
      ready = false;
      bus = true;
      owner = some owner;
      subscribed = true;
    } in
    new_call capabilities_call (send known get_capabilities) 0

unfoldable pub vanished : Notifications → Notifications
vanished n = record n {
  generation = u64 (n.generation + 1);
  ready = false;
  subscribed = false;
  owner = none;
  notices = replicate limit cleared;
}
