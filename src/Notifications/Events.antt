-- ===== src/Notifications/Events.antt =====
-- src/client/notifications.c: the order in which things happen to a notifications object. GIO
-- delivers each reply once, in any order; after zc_notifications_free only replies still come.
use zimbr.Prelude.{ℕ, zero, suc, Option, none, some, List, [], ◌∷◌, if◌then◌else◌, get_elem?}
use zimbr.Notifications.Image.{Pixels}
use zimbr.Notifications.State.{
  Bytes, Kind, notify_call, capabilities_call, Call, Notifications, Glib,
}
use zimbr.Notifications.Callbacks.{
  notified, Capabilities, capabilities, Signal, signal_received, appeared, vanished,
}
use zimbr.Notifications.Requests.{dismiss, show, free}

-- GIO hands a reply of the wrong type over as a failure.
pub data Reply : Type 0 where
  shown : ℕ → Reply
  capable : Capabilities → Reply
  failed : Reply

pub data Event : Type 0 where
  replied : ℕ → Reply → Event
  signalled : Option Bytes → Signal → Event
  daemon_up : Bytes → Event
  daemon_down : Event
  show_call : Bytes → Bytes → Bytes → Option Pixels → Event
  dismiss_call : Bytes → Event
  free_call : Event

abbrev pub remove_at : List Call → ℕ → List Call
remove_at [] i = []
remove_at (c ∷ cs) zero = cs
remove_at (c ∷ cs) (suc i) = c ∷ remove_at cs i

abbrev pub shown_id : Reply → Option ℕ
shown_id (shown id) = some id
shown_id (capable caps) = none
shown_id failed = none

abbrev pub known_capabilities : Reply → Option Capabilities
known_capabilities (shown id) = none
known_capabilities (capable caps) = some caps
known_capabilities failed = none

-- one of the two callbacks
unfoldable pub deliver : Glib → Kind → Call → Reply → Notifications → Notifications
deliver g notify_call c r n = notified c (shown_id r) n
deliver g capabilities_call c r n = capabilities g c (known_capabilities r) n

unfoldable pub deliver_waiting : Glib → Option Call → ℕ → Reply → Notifications → Notifications
deliver_waiting g none i r n = n
deliver_waiting g (some c) i r n =
    deliver g c.kind c r (record n { waiting = remove_at n.waiting i })

-- what happens while the client holds its reference
unfoldable pub live_step : Glib → Event → Notifications → Notifications
live_step g (replied i r) n = n
live_step g (signalled sender sig) n = signal_received sender sig n
live_step g (daemon_up owner) n = appeared owner n
live_step g daemon_down n = vanished n
live_step g (show_call chat summary body image) n = show g chat summary body image n
live_step g (dismiss_call chat) n = dismiss chat n
live_step g free_call n = free n

unfoldable pub step : Glib → Event → Notifications → Notifications
step g (replied i r) n = deliver_waiting g (get_elem? n.waiting i) i r n
step g e n = if n.stopped then n else live_step g e n

unfoldable pub run : Glib → List Event → Notifications → Notifications
run g [] n = n
run g (e ∷ es) n = run g es (step g e n)
