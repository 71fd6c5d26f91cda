-- ===== src/Notifications/Balance.antt =====
-- What the callbacks and the requests of the notifications do to the reference count.
use zimbr.Prelude.{
  ℕ, zero, suc, ◌+◌, ◌≡◌, refl, ◌∙◌, Bool, true, false, not, ◌&&◌, ◌||◌, Option, none, some, ◌==◌,
  if◌then◌else◌, length, arith,
}
use zimbr.Notifications.Image.{Pixels, Hint}
use zimbr.Notifications.State.{
  Bytes, u64, limit, Notice, is_some, Message, cleared, Kind, notify_call, Call, Notifications,
  Glib, is_live, at_slot, put_slot, send, new_call, close_id,
}
use zimbr.Notifications.Callbacks.{
  route_reply, send_notice, send_from, Capabilities, set_capabilities, Signal, closed,
  activation_token, action_invoked, other, react, dispatch_from, signal_id,
}
use zimbr.Notifications.Requests.{shows, dismiss_from, dismiss, new_notice, fill, show, close_from}

-- From `n` to `m` each new reference is one for a new call.
pub record Balanced (n m : Notifications) : Type 0 where
  pub even : m.refs + length n.waiting ≡ n.refs + length m.waiting
  pub holds : m.stopped ≡ n.stopped

pub Balanced-refl : (n : Notifications) → Balanced n n
Balanced-refl n = record { even = refl; holds = refl }

Balanced-trans : {n m k : Notifications} → Balanced n m → Balanced m k → Balanced n k
Balanced-trans a b = record { even = omega (arith, a.even, b.even); holds = b.holds ∙ a.holds }

pub Balanced-if :
    (b : Bool) {n m k : Notifications}
    → Balanced n m
    → Balanced n k
    → Balanced n (if b then m else k)
Balanced-if true x y = x
Balanced-if false x y = y

Balanced-close_id : (n : Notifications) (id : ℕ) → Balanced n (close_id n id)
unfolding close_id
Balanced-close_id n id =
    Balanced-if (not (id == 0) && n.bus && is_some n.owner) (record { even = refl; holds = refl })
      (Balanced-refl n)

Balanced-put_slot : (n : Notifications) (slot : ℕ) (v : Notice) → Balanced n (put_slot n slot v)
unfolding put_slot
Balanced-put_slot n slot v = record { even = refl; holds = refl }

pub Balanced-route_reply :
    (c : Call) (r : Option ℕ) (n : Notifications) → Balanced n (route_reply c r n)
unfolding route_reply
Balanced-route_reply c (some id) n =
    Balanced-if (not n.stopped && (c.generation == n.generation))
      (Balanced-if (is_live (at_slot n c.slot) && ((at_slot n c.slot).serial == c.serial))
        (Balanced-put_slot n c.slot _) (Balanced-close_id n id))
      (Balanced-refl n)
Balanced-route_reply c none n =
    Balanced-if ((c.generation == n.generation) && ((at_slot n c.slot).serial == c.serial))
      (Balanced-put_slot n c.slot cleared) (Balanced-refl n)

Balanced-new_call : (k : Kind) (n : Notifications) (slot : ℕ) → Balanced n (new_call k n slot)
unfolding new_call
Balanced-new_call k n slot = record { even = omega arith; holds = refl }

Balanced-send : (n : Notifications) (m : Message) → Balanced n (send n m)
unfolding send
Balanced-send n m = record { even = refl; holds = refl }

module _ (g : Glib) where
  Balanced-send_notice : (n : Notifications) (slot : ℕ) → Balanced n (send_notice g n slot)
  unfolding send_notice
  Balanced-send_notice n slot =
      Balanced-if (not n.ready || not (is_live (at_slot n slot)) || not (at_slot n slot).pending)
        (Balanced-refl n)
        (Balanced-trans (Balanced-send n _) (
          Balanced-trans (Balanced-new_call notify_call (send n _) slot)
            (Balanced-put_slot (new_call notify_call (send n _) slot) slot _)))

  Balanced-send_from : (left slot : ℕ) (n : Notifications) → Balanced n (send_from g left slot n)
  unfolding send_from
  Balanced-send_from zero slot n = Balanced-refl n
  Balanced-send_from (suc left) slot n =
      Balanced-trans (Balanced-send_notice n slot)
        (Balanced-send_from left (slot + 1) (send_notice g n slot))

Balanced-set_capabilities :
    (r : Option Capabilities) (n : Notifications)
    → Balanced n (record (set_capabilities r n) { ready = true })
unfolding set_capabilities
Balanced-set_capabilities none n = record { even = refl; holds = refl }
Balanced-set_capabilities (some caps) n = record { even = refl; holds = refl }

pub Balanced-answer :
    (g : Glib) (c : Call) (r : Option Capabilities) (n : Notifications)
    → Balanced n (
        if not n.stopped && (c.generation == n.generation)
        then send_from g limit 0 (record (set_capabilities r n) { ready = true })
        else n)
Balanced-answer g c r n =
    Balanced-if (not n.stopped && (c.generation == n.generation))
      (Balanced-trans (Balanced-set_capabilities r n)
        (Balanced-send_from g limit 0 (record (set_capabilities r n) { ready = true })))
      (Balanced-refl n)

Balanced-react : (sig : Signal) (slot : ℕ) (n : Notifications) → Balanced n (react sig slot n)
unfolding react
Balanced-react (closed id) slot n = Balanced-put_slot n slot cleared
Balanced-react (activation_token id token) slot n = Balanced-put_slot n slot _
Balanced-react (action_invoked id key) slot n = record { even = ground arith; holds = ground arith }
Balanced-react other slot n = Balanced-refl n

pub Balanced-dispatch_from :
    (sig : Signal) (left slot : ℕ) (n : Notifications) → Balanced n (dispatch_from sig left slot n)
unfolding dispatch_from
Balanced-dispatch_from sig zero slot n = Balanced-refl n
Balanced-dispatch_from sig (suc left) slot n =
    Balanced-if
      (not (is_live (at_slot n slot))
        || (signal_id sig == 0)
        || not ((at_slot n slot).id == signal_id sig))
      (Balanced-dispatch_from sig left (slot + 1) n) (Balanced-react sig slot n)

Balanced-dismiss_from :
    (chat : Bytes) (left slot : ℕ) (n : Notifications) → Balanced n (dismiss_from chat left slot n)
unfolding dismiss_from
Balanced-dismiss_from chat zero slot n = Balanced-refl n
Balanced-dismiss_from chat (suc left) slot n =
    Balanced-trans
      (Balanced-if (shows chat (at_slot n slot))
        (Balanced-trans (Balanced-close_id n (at_slot n slot).id)
          (Balanced-put_slot (close_id n (at_slot n slot).id) slot cleared))
        (Balanced-refl n))
      (Balanced-dismiss_from chat left (slot + 1) _)

pub Balanced-dismiss : (chat : Bytes) (n : Notifications) → Balanced n (dismiss chat n)
unfolding dismiss
Balanced-dismiss chat n = Balanced-dismiss_from chat limit 0 n

pub Balanced-close_from : (left slot : ℕ) (n : Notifications) → Balanced n (close_from left slot n)
unfolding close_from
Balanced-close_from zero slot n = Balanced-refl n
Balanced-close_from (suc left) slot n =
    Balanced-trans (Balanced-close_id n (at_slot n slot).id)
      (Balanced-close_from left (slot + 1) (close_id n (at_slot n slot).id))

Balanced-fill :
    (g : Glib) (chat summary body : Bytes) (image : Option Hint) (slot : ℕ) (n : Notifications)
    → Balanced n (fill g chat summary body image slot n)
unfolding fill
Balanced-fill g chat summary body image slot n =
    let closed = close_id n (at_slot n slot).id in
    let serial = u64 (closed.serial + 1) in
    let numbered = record closed { serial = serial } in
    let v = new_notice chat summary body image serial in
    Balanced-trans (Balanced-close_id n (at_slot n slot).id) (
      Balanced-trans {m = numbered} (record { even = refl; holds = refl })
        (Balanced-trans (Balanced-put_slot numbered slot v)
          (Balanced-send_notice g (put_slot numbered slot v) slot)))

pub Balanced-show :
    (g : Glib) (chat summary body : Bytes) (image : Option Pixels) (n : Notifications)
    → Balanced n (show g chat summary body image n)
unfolding show
Balanced-show g chat summary body image n =
    Balanced-if (not (g.is_utf8 chat) || not (g.is_utf8 summary) || not (g.is_utf8 body))
      (Balanced-refl n)
      (Balanced-trans (Balanced-dismiss chat n)
        (Balanced-fill g chat summary body _ _ (dismiss chat n)))
