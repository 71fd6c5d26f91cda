-- ===== src/Notifications/Kept.antt =====
-- What the callbacks and the requests of the notifications leave in the slots: no more of any
-- conversation than before.
use zimbr.Prelude.{
  ℕ, zero, suc, ◌+◌, ◌≡◌, refl, sym, ◌∙◌, true, false, not, ◌&&◌, ◌||◌, Option, none, some, ◌==◌,
  if◌then◌else◌, length, arith,
}
use zimbr.Notifications.State.{
  Bytes, limit, notify_call, Call, Notifications, Glib, is_live, at_slot, send, new_call, close_id,
}
use zimbr.Notifications.Callbacks.{
  route_reply, notified, send_notice, send_from, Capabilities, set_capabilities, capabilities,
  Signal, closed, activation_token, action_invoked, other, react, dispatch_from, signal_received,
  signal_id, same_name, appeared, vanished,
}
use zimbr.Notifications.Requests.{shows, dismiss_from, close_from, free}
use zimbr.Notifications.Slots.{
  count-replicate, Within, Within-refl, Within-trans, Within-eq, Within-if, Within-cleared,
  Within-same, notices-close_id, Within-release,
}

pub Within-close_id : (n : Notifications) (id : ℕ) → Within n (close_id n id)
Within-close_id n id = Within-eq n (close_id n id) (notices-close_id n id)

Within-route_reply : (c : Call) (r : Option ℕ) (n : Notifications) → Within n (route_reply c r n)
unfolding route_reply
Within-route_reply c (some id) n =
    Within-if (not n.stopped && (c.generation == n.generation))
      (Within-if (is_live (at_slot n c.slot) && ((at_slot n c.slot).serial == c.serial))
        (Within-same n c.slot _ refl) (Within-close_id n id))
      (Within-refl n)
Within-route_reply c none n =
    Within-if ((c.generation == n.generation) && ((at_slot n c.slot).serial == c.serial))
      (Within-cleared n c.slot) (Within-refl n)

notices-set_capabilities :
    (r : Option Capabilities) (n : Notifications) → (set_capabilities r n).notices ≡ n.notices
unfolding set_capabilities
notices-set_capabilities none n = refl
notices-set_capabilities (some caps) n = refl

pub Within-notified :
    (c : Call) (r : Option ℕ) (n : Notifications)
    → length n.notices ≡ limit
    → Within n (notified c r n)
unfolding notified
Within-notified c r n h =
    let w = Within-route_reply c r n in Within-trans w (Within-release _ (w.size ∙ h))

module _ (g : Glib) where
  pub Within-send_notice : (n : Notifications) (slot : ℕ) → Within n (send_notice g n slot)
  unfolding send_notice
  Within-send_notice n slot =
      Within-if (not n.ready || not (is_live (at_slot n slot)) || not (at_slot n slot).pending)
        (Within-refl n)
        (Within-trans (Within-eq n (new_call notify_call (send n _) slot) refl)
          (Within-same (new_call notify_call (send n _) slot) slot _ refl))

  Within-send_from : (left slot : ℕ) (n : Notifications) → Within n (send_from g left slot n)
  unfolding send_from
  Within-send_from zero slot n = Within-refl n
  Within-send_from (suc left) slot n =
      Within-trans (Within-send_notice n slot)
        (Within-send_from left (slot + 1) (send_notice g n slot))

  pub Within-capabilities :
      (c : Call) (r : Option Capabilities) (n : Notifications)
      → length n.notices ≡ limit
      → Within n (capabilities g c r n)
  unfolding capabilities
  Within-capabilities c r n h = Within-trans inner (Within-release _ (inner.size ∙ h))
    where
      inner : Within n (
          if not n.stopped && (c.generation == n.generation)
          then send_from g limit 0 (record (set_capabilities r n) { ready = true })
          else n)
      inner =
          Within-if (not n.stopped && (c.generation == n.generation))
            (Within-trans
              (Within-eq n (record (set_capabilities r n) { ready = true })
                (notices-set_capabilities r n))
              (Within-send_from limit 0 (record (set_capabilities r n) { ready = true })))
            (Within-refl n)

Within-react : (sig : Signal) (slot : ℕ) (n : Notifications) → Within n (react sig slot n)
unfolding react
Within-react (closed id) slot n = Within-cleared n slot
Within-react (activation_token id token) slot n = Within-same n slot _ refl
Within-react (action_invoked id key) slot n = Within-eq n _ (ground arith)
Within-react other slot n = Within-refl n

Within-dispatch_from :
    (sig : Signal) (left slot : ℕ) (n : Notifications) → Within n (dispatch_from sig left slot n)
unfolding dispatch_from
Within-dispatch_from sig zero slot n = Within-refl n
Within-dispatch_from sig (suc left) slot n =
    Within-if
      (not (is_live (at_slot n slot))
        || (signal_id sig == 0)
        || not ((at_slot n slot).id == signal_id sig))
      (Within-dispatch_from sig left (slot + 1) n) (Within-react sig slot n)

pub Within-signal_received :
    (sender : Option Bytes) (sig : Signal) (n : Notifications)
    → Within n (signal_received sender sig n)
unfolding signal_received
Within-signal_received sender sig n =
    Within-if (n.stopped || not (same_name sender n.owner)) (Within-refl n)
      (Within-dispatch_from sig limit 0 n)

pub Within-appeared : (owner : Bytes) (n : Notifications) → Within n (appeared owner n)
unfolding appeared
Within-appeared owner n = Within-eq n _ refl

pub Within-vanished : (n : Notifications) → length n.notices ≡ limit → Within n (vanished n)
unfolding vanished
Within-vanished n h = record { size = sym h; fewer = λ chat. rw count-replicate (omega arith) }

pub Within-dismiss_from :
    (chat : Bytes) (left slot : ℕ) (n : Notifications) → Within n (dismiss_from chat left slot n)
unfolding dismiss_from
Within-dismiss_from chat zero slot n = Within-refl n
Within-dismiss_from chat (suc left) slot n =
    Within-trans
      (Within-if (shows chat (at_slot n slot))
        (Within-trans (Within-close_id n (at_slot n slot).id)
          (Within-cleared (close_id n (at_slot n slot).id) slot))
        (Within-refl n))
      (Within-dismiss_from chat left (slot + 1) _)

Within-close_from : (left slot : ℕ) (n : Notifications) → Within n (close_from left slot n)
unfolding close_from
Within-close_from zero slot n = Within-refl n
Within-close_from (suc left) slot n =
    Within-trans (Within-close_id n (at_slot n slot).id)
      (Within-close_from left (slot + 1) (close_id n (at_slot n slot).id))

pub Within-free : (n : Notifications) → length n.notices ≡ limit → Within n (free n)
unfolding free
Within-free n h =
    let stopped = record n { stopped = true; subscribed = false } in
    let w = Within-trans (Within-eq n stopped refl) (Within-close_from limit 0 stopped) in
    Within-trans w (Within-release _ (w.size ∙ h))
