-- ===== src/Notifications/References.antt =====
-- The reference count of the notifications object: one for the client, and one for each call whose
-- reply is still to come.
use zimbr.Prelude.{
  ℕ, zero, suc, ◌+◌, ◌-◌, ◌≡◌, refl, ap, Bool, true, false, not, ◌||◌, Option, none, some, List, [],
  ◌∷◌, if◌then◌else◌, length, get_elem?, arith,
}
use zimbr.Notifications.State.{
  Bytes, limit, Kind, notify_call, capabilities_call, Call, Notifications, Glib, created, send,
  release, new_call,
}
use zimbr.Notifications.Callbacks.{
  route_reply, notified, capabilities, signal_received, same_name, appeared, vanished,
}
use zimbr.Notifications.Requests.{close_from, free}
use zimbr.Notifications.Events.{
  Event, Reply, replied, signalled, daemon_up, daemon_down, show_call, dismiss_call, free_call,
  step, live_step, deliver, deliver_waiting, shown_id, known_capabilities, remove_at, run,
}
use zimbr.Notifications.Balance.{
  Balanced-refl, Balanced-if, Balanced-route_reply, Balanced-answer, Balanced-dispatch_from,
  Balanced-dismiss, Balanced-close_from, Balanced-show, Balanced,
}

-- The count is exact.
abbrev pub IsCounted : Notifications → Type 0
IsCounted n = n.refs ≡ length n.waiting + (if n.stopped then 0 else 1)

Balanced-IsCounted : {n m : Notifications} → Balanced n m → IsCounted n → IsCounted m
Balanced-IsCounted b h = rw b.holds (omega (arith, b.even))

waiting-release : (n : Notifications) → (release n).waiting ≡ n.waiting
unfolding release
waiting-release n = ground arith

stopped-release : (n : Notifications) → (release n).stopped ≡ n.stopped
unfolding release
stopped-release n = ground arith

refs-release : (n : Notifications) → (release n).refs ≡ n.refs - 1
unfolding release
refs-release n = ground arith

-- A callback holds the reference of the call that it answers until it returns.
release-IsCounted :
    (n : Notifications)
    → n.refs ≡ suc (length n.waiting + (if n.stopped then 0 else 1))
    → IsCounted (release n)
release-IsCounted n h = rw (waiting-release n, stopped-release n, refs-release n) (omega arith)

length-remove_at :
    (cs : List Call) (i : ℕ) (c : Call)
    → get_elem? cs i ≡ some c
    → length cs ≡ suc (length (remove_at cs i))
length-remove_at [] i c h = cc
length-remove_at (d ∷ cs) zero c h = refl
length-remove_at (d ∷ cs) (suc i) c h = ap suc (length-remove_at cs i c h)

deliver-IsCounted :
    (g : Glib) (k : Kind) (c : Call) (r : Reply) (n : Notifications)
    → n.refs ≡ suc (length n.waiting + (if n.stopped then 0 else 1))
    → IsCounted (deliver g k c r n)
unfolding deliver notified capabilities
deliver-IsCounted g notify_call c r n h =
    let b = Balanced-route_reply c (shown_id r) n in
    release-IsCounted (route_reply c (shown_id r) n) (rw b.holds (omega (arith, b.even)))
deliver-IsCounted g capabilities_call c r n h =
    let b = Balanced-answer g c (known_capabilities r) n in
    release-IsCounted _ (rw b.holds (omega (arith, b.even)))

holding : (b : Bool) → b ≡ false → ◌≡◌ {A = ℕ} (if b then 0 else 1) 1
holding true e = cc
holding false e = refl

free-IsCounted : (n : Notifications) → n.stopped ≡ false → IsCounted n → IsCounted (free n)
unfolding free
free-IsCounted n e h =
    let last = record n { stopped = true; subscribed = false } in
    let b = Balanced-close_from limit 0 last in
    release-IsCounted (close_from limit 0 last)
      (rw b.holds (omega (arith, b.even, holding n.stopped e)))

Balanced-appeared : (owner : Bytes) (n : Notifications) → Balanced n (appeared owner n)
unfolding appeared new_call send
Balanced-appeared owner n = record { even = omega arith; holds = refl }

Balanced-vanished : (n : Notifications) → Balanced n (vanished n)
unfolding vanished
Balanced-vanished n = record { even = refl; holds = refl }

IsCounted-if :
    (b : Bool) (m k : Notifications)
    → IsCounted m
    → (b ≡ false → IsCounted k)
    → IsCounted (if b then m else k)
IsCounted-if true m k x y = x
IsCounted-if false m k x y = y refl

live_step-IsCounted :
    (g : Glib) (e : Event) (n : Notifications)
    → n.stopped ≡ false
    → IsCounted n
    → IsCounted (live_step g e n)
unfolding live_step signal_received
live_step-IsCounted g (replied i r) n s h = h
live_step-IsCounted g (signalled sender sig) n s h =
    Balanced-IsCounted
      (Balanced-if (n.stopped || not (same_name sender n.owner)) (Balanced-refl n)
        (Balanced-dispatch_from sig limit 0 n))
      h
live_step-IsCounted g (daemon_up owner) n s h = Balanced-IsCounted (Balanced-appeared owner n) h
live_step-IsCounted g daemon_down n s h = Balanced-IsCounted (Balanced-vanished n) h
live_step-IsCounted g (show_call chat summary body image) n s h =
    Balanced-IsCounted (Balanced-show g chat summary body image n) h
live_step-IsCounted g (dismiss_call chat) n s h = Balanced-IsCounted (Balanced-dismiss chat n) h
live_step-IsCounted g free_call n s h = free-IsCounted n s h

step-IsCounted : (g : Glib) (e : Event) (n : Notifications) → IsCounted n → IsCounted (step g e n)
unfolding step deliver_waiting
step-IsCounted g (replied i r) n h = answer (get_elem? n.waiting i) refl
  where
    answer : (c : Option Call) → get_elem? n.waiting i ≡ c → IsCounted (deliver_waiting g c i r n)
    answer none e = h
    answer (some c) e =
        deliver-IsCounted g c.kind c r (record n { waiting = remove_at n.waiting i })
          (omega (arith, length-remove_at n.waiting i c e))
step-IsCounted g e n h =
    IsCounted-if n.stopped n (live_step g e n) h (λ s. live_step-IsCounted g e n s h)

-- Whatever happens, the count is the number of calls whose replies are to come, and one more until
-- the client frees the object: it is not freed under a callback, and is freed after the last.
pub run-IsCounted :
    (g : Glib) (es : List Event)
    → (run g es created).refs
      ≡ length (run g es created).waiting + (if (run g es created).stopped then 0 else 1)
unfolding run
run-IsCounted g es = from es created refl
  where
    from : (es : List Event) (n : Notifications) → IsCounted n → IsCounted (run g es n)
    from [] n h = h
    from (e ∷ es) n h = from es (step g e n) (step-IsCounted g e n h)
