-- ===== src/Notifications/Uniqueness.antt =====
-- A conversation has at most one notification, whatever happens and in whatever order.
use zimbr.Prelude.{
  ℕ, ◌+◌, ◌≤◌, ◌<◌, ◌≡◌, refl, subst, ◌∙◌, ap, Bool, true, false, not, ◌||◌, Option, none, some,
  List, [], ◌∷◌, if◌then◌else◌, length, length-set, get_elem?, set, bytes_eq, eq_of_bytes_eq, arith,
  Bool-cases, inl, inr,
}
use native.Mathlib.Nat.{le_trans}
use zimbr.Notifications.Image.{Pixels, Hint}
use zimbr.Notifications.State.{
  Bytes, limit, Notice, Kind, notify_call, capabilities_call, Call, Notifications, Glib, created,
  at_slot, u64, put_slot, close_id,
}
use zimbr.Notifications.Requests.{shows, dismiss, new_notice, chosen, fill, show}
use zimbr.Notifications.Slots.{one, count, count-set, count-replicate, Within, notices-close_id}
use zimbr.Notifications.Events.{
  Event, Reply, replied, signalled, daemon_up, daemon_down, show_call, dismiss_call, free_call,
  step, live_step, deliver, deliver_waiting, shown_id, known_capabilities, remove_at, run,
}
use zimbr.Notifications.Kept.{
  Within-notified, Within-send_notice, Within-capabilities, Within-signal_received, Within-appeared,
  Within-vanished, Within-free,
}
use zimbr.Notifications.Eviction.{chosen-lt}
use zimbr.Notifications.Dismissal.{Within-dismiss, shows-dismiss}

notices-put_slot :
    (n : Notifications) (slot : ℕ) (v : Notice) → (put_slot n slot v).notices ≡ set n.notices slot v
unfolding put_slot
notices-put_slot n slot v = refl

one_le : (b : Bool) → one b ≤ 1
one_le true = omega arith
one_le false = omega arith

count-fill :
    (g : Glib) (chat summary body : Bytes) (image : Option Hint) (slot : ℕ) (n : Notifications)
    → slot < length n.notices
    → count chat n.notices ≡ 0
    → (chat' : Bytes) → count chat' n.notices ≤ 1
    → count chat' (fill g chat summary body image slot n).notices ≤ 1
unfolding fill
count-fill g chat summary body image slot n lt none_yet chat' le =
    let closed = close_id n (at_slot n slot).id in
    let serial = u64 (closed.serial + 1) in
    let v = new_notice chat summary body image serial in
    le_trans
      ((Within-send_notice g (put_slot (record closed { serial = serial }) slot v) slot).fewer
        chat')
      (rw
        (
          notices-put_slot (record closed { serial = serial }) slot v,
          notices-close_id n (at_slot n slot).id,
        )
        (filled v refl))
  where
    filled : (v : Notice) → v.chat ≡ some chat → count chat' (set n.notices slot v) ≤ 1
    filled v e = elim (Bool-cases (bytes_eq chat chat')) [
      | inl k ↦
          let same : chat ≡ chat' = eq_of_bytes_eq chat chat' k in
          omega (
            arith,
            count-set chat' n.notices slot v lt,
            one_le (shows chat' v),
            subst (λ c. count c n.notices ≡ 0) same none_yet,
          )
      | inr k ↦
          let hidden : shows chat' v ≡ false = rw e k in
          omega (arith, count-set chat' n.notices slot v lt, ap one hidden)
    ]

abbrev pub IsUnique : Notifications → Type 0
IsUnique n = (length n.notices ≡ limit) × ((chat : Bytes) → count chat n.notices ≤ 1)

Within-IsUnique : {n m : Notifications} → Within n m → IsUnique n → IsUnique m
Within-IsUnique w u = (w.size ∙ u.0, λ chat. le_trans (w.fewer chat) (u.1 chat))

IsUnique-if :
    (b : Bool) (m k : Notifications) → IsUnique m → IsUnique k → IsUnique (if b then m else k)
IsUnique-if true m k x y = x
IsUnique-if false m k x y = y

length-fill :
    (g : Glib) (chat summary body : Bytes) (image : Option Hint) (slot : ℕ) (n : Notifications)
    → length (fill g chat summary body image slot n).notices ≡ length n.notices
unfolding fill
length-fill g chat summary body image slot n =
    (Within-send_notice g (put_slot _ slot _) slot).size
    ∙ (rw notices-put_slot (length-set _ slot _)
        ∙ ap length (notices-close_id n (at_slot n slot).id))

fill-IsUnique :
    (g : Glib) (chat summary body : Bytes) (image : Option Hint) (n : Notifications)
    → count chat n.notices ≡ 0
    → IsUnique n
    → IsUnique (fill g chat summary body image (chosen n) n)
fill-IsUnique g chat summary body image n e u = (
  length-fill g chat summary body image (chosen n) n ∙ u.0,
  λ c.
      count-fill g chat summary body image (chosen n) n (chosen-lt n (omega (arith, u.0))) e c
        (u.1 c),
)

show-IsUnique :
    (g : Glib) (chat summary body : Bytes) (image : Option Pixels) (n : Notifications)
    → IsUnique n
    → IsUnique (show g chat summary body image n)
unfolding show
show-IsUnique g chat summary body image n u =
    IsUnique-if (not (g.is_utf8 chat) || not (g.is_utf8 summary) || not (g.is_utf8 body)) _ _ u (
      fill-IsUnique g chat summary body _ (dismiss chat n) (shows-dismiss chat n u.0)
        (Within-IsUnique (Within-dismiss chat n) u))

live_step-IsUnique :
    (g : Glib) (e : Event) (n : Notifications) → IsUnique n → IsUnique (live_step g e n)
unfolding live_step
live_step-IsUnique g (replied i r) n u = u
live_step-IsUnique g (signalled sender sig) n u =
    Within-IsUnique (Within-signal_received sender sig n) u
live_step-IsUnique g (daemon_up owner) n u = Within-IsUnique (Within-appeared owner n) u
live_step-IsUnique g daemon_down n u = Within-IsUnique (Within-vanished n u.0) u
live_step-IsUnique g (show_call chat summary body image) n u =
    show-IsUnique g chat summary body image n u
live_step-IsUnique g (dismiss_call chat) n u = Within-IsUnique (Within-dismiss chat n) u
live_step-IsUnique g free_call n u = Within-IsUnique (Within-free n u.0) u

deliver-IsUnique :
    (g : Glib) (k : Kind) (c : Call) (r : Reply) (n : Notifications)
    → IsUnique n
    → IsUnique (deliver g k c r n)
unfolding deliver
deliver-IsUnique g notify_call c r n u = Within-IsUnique (Within-notified c (shown_id r) n u.0) u
deliver-IsUnique g capabilities_call c r n u =
    Within-IsUnique (Within-capabilities g c (known_capabilities r) n u.0) u

step-IsUnique : (g : Glib) (e : Event) (n : Notifications) → IsUnique n → IsUnique (step g e n)
unfolding step deliver_waiting
step-IsUnique g (replied i r) n u = waiting (get_elem? n.waiting i)
  where
    waiting : (c : Option Call) → IsUnique (deliver_waiting g c i r n)
    waiting none = u
    waiting (some c) =
        deliver-IsUnique g c.kind c r (record n { waiting = remove_at n.waiting i }) u
step-IsUnique g e n u = IsUnique-if n.stopped n (live_step g e n) u (live_step-IsUnique g e n u)

IsUnique-created : IsUnique created
IsUnique-created = (refl, λ chat. rw count-replicate (omega arith))

-- Whatever the client, the daemon and the bus do, and in whatever order replies arrive, at most one
-- of the 64 slots shows a conversation.
pub run-IsUnique :
    (g : Glib) (es : List Event) (chat : Bytes)
    → (length (run g es created).notices ≡ limit) × (count chat (run g es created).notices ≤ 1)
unfolding run
run-IsUnique g es chat = let u = from es created IsUnique-created in (u.0, u.1 chat)
  where
    from : (es : List Event) (n : Notifications) → IsUnique n → IsUnique (run g es n)
    from [] n u = u
    from (e ∷ es) n u = from es (step g e n) (step-IsUnique g e n u)
