-- ===== src/Notifications/State.antt =====
-- src/client/notifications.c: the object and its slots, its messages, and the counted references.
-- The object `ZcNotifications` is a record; what a handler sends is added to its log `sent`, and
-- the calls whose replies the bus still owes are `waiting`.
use zimbr.Prelude.{
  ℕ, ◌+◌, ◌-◌, ◌%◌, ◌^◌, Bool, true, false, not, ◌&&◌, Option, none, some, List, [], ◌∷◌, ◌==◌,
  if◌then◌else◌, get_or, set, replicate,
}
use zimbr.Notifications.Image.{Hint}

abbrev pub Bytes : Type 0
Bytes = List ℕ

abbrev pub limit : ℕ
limit = 64

-- a slot is free when `chat` is null
pub record Notice : Type 0 where
  pub chat : Option Bytes
  pub summary : Bytes
  pub body : Bytes
  pub token : Option Bytes
  pub image : Option Hint
  pub id : ℕ  -- guint
  pub serial : ℕ  -- guint64
  pub pending : Bool

-- clear_notice leaves the slot zeroed
abbrev pub cleared : Notice
cleared = record {
  chat = none;
  summary = [];
  body = [];
  token = none;
  image = none;
  id = 0;
  serial = 0;
  pending = false;
}

-- the context of an asynchronous call, with which of the two callbacks it is for
pub data Kind : Type 0 where
  notify_call : Kind
  capabilities_call : Kind

pub record Call : Type 0 where
  pub kind : Kind
  pub generation : ℕ
  pub serial : ℕ
  pub slot : ℕ

-- what goes out: to the daemon, and to the client's callback
pub data Message : Type 0 where
  get_capabilities : Message
  notify : (summary body : Bytes) (image : Option Hint) (actions : Bool) → Message
  close_notification : ℕ → Message
  activate : (chat token : Bytes) → Message

pub record Notifications : Type 0 where
  pub refs : ℕ
  pub subscribed : Bool
  pub serial : ℕ  -- guint64
  pub generation : ℕ  -- guint64
  pub stopped : Bool
  pub ready : Bool
  pub actions : Bool
  pub markup : Bool
  pub images : Bool
  pub bus : Bool
  pub owner : Option Bytes
  pub notices : List Notice
  pub waiting : List Call
  pub sent : List Message

-- What GLib computes for this code.
pub record Glib : Type 0 where
  pub is_utf8 : Bytes → Bool
  pub markup_escape : Bytes → Bytes

abbrev pub u64 : ℕ → ℕ
u64 n = n % 2 ^ 64

abbrev pub is_some {ℓ} : {A : Type ℓ} → Option A → Bool
is_some none = false
is_some (some a) = true

abbrev pub is_live : Notice → Bool
is_live v = is_some v.chat

abbrev pub at_slot : Notifications → ℕ → Notice
at_slot n slot = get_or n.notices slot cleared

unfoldable pub put_slot : Notifications → ℕ → Notice → Notifications
put_slot n slot v = record n { notices = set n.notices slot v }

unfoldable pub send : Notifications → Message → Notifications
send n m = record n { sent = m ∷ n.sent }

-- zc_notifications_new, before the name is first watched
abbrev pub created : Notifications
created = record {
  refs = 1;
  subscribed = false;
  serial = 0;
  generation = 0;
  stopped = false;
  ready = false;
  actions = false;
  markup = false;
  images = false;
  bus = false;
  owner = none;
  notices = replicate limit cleared;
  waiting = [];
  sent = [];
}

-- the last reference frees the object and all that it owns
unfoldable pub release : Notifications → Notifications
release n =
    let fewer = record n { refs = n.refs - 1 } in
    if fewer.refs == 0
    then record fewer { bus = false; owner = none; notices = replicate limit cleared }
    else fewer

unfoldable pub new_call : Kind → Notifications → ℕ → Notifications
new_call kind n slot =
    let c : Call = record {
      kind = kind;
      generation = n.generation;
      serial = (at_slot n slot).serial;
      slot = slot;
    } in
    record n { refs = n.refs + 1; waiting = c ∷ n.waiting }

unfoldable pub close_id : Notifications → ℕ → Notifications
unfolding send
close_id n id =
    if not (id == 0) && n.bus && is_some n.owner then send n (close_notification id) else n
