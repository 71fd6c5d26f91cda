-- ===== src/Notifications/Requests.antt =====
-- src/client/notifications.c: what the client calls: show, dismiss and free.
use zimbr.Prelude.{
  ℕ, zero, suc, ◌+◌, Bool, true, false, not, ◌||◌, Option, none, some, List, [], ◌∷◌, ltb,
  if◌then◌else◌, bytes_eq,
}
use zimbr.Notifications.Image.{Pixels, Hint, image_hint}
use zimbr.Notifications.State.{
  Bytes, limit, Notice, cleared, Notifications, Glib, u64, is_live, at_slot, put_slot, release,
  close_id,
}
use zimbr.Notifications.Callbacks.{send_notice}

-- v->chat && !strcmp(v->chat, chat)
abbrev pub shows : Bytes → Notice → Bool
shows chat v = elim v.chat [ none ↦ false | some c ↦ bytes_eq c chat ]

unfoldable pub dismiss_from : Bytes → ℕ → ℕ → Notifications → Notifications
dismiss_from chat zero slot n = n
dismiss_from chat (suc left) slot n =
    let v = at_slot n slot in
    dismiss_from chat left (slot + 1)
      (if shows chat v then put_slot (close_id n v.id) slot cleared else n)

unfoldable pub dismiss : Bytes → Notifications → Notifications
dismiss chat n = dismiss_from chat limit 0 n

-- The loop of zc_notifications_show that picks a slot: the first free one, or else the one with
-- the least serial. `slot` is the best so far and `i` the index of the next.
unfoldable pub choose : List Notice → ℕ → ℕ → ℕ → ℕ
choose [] i slot serial = slot
choose (v ∷ vs) i slot serial =
    let next =
      choose vs (i + 1) (if ltb v.serial serial then i else slot)
        (if ltb v.serial serial then v.serial else serial) in
    if not (is_live v) then i else next

unfoldable pub chosen : Notifications → ℕ
chosen n = choose n.notices 0 0 (at_slot n 0).serial

abbrev pub new_notice : Bytes → Bytes → Bytes → Option Hint → ℕ → Notice
new_notice chat summary body image serial = record {
  chat = some chat;
  summary = summary;
  body = body;
  token = none;
  image = image;
  id = 0;
  serial = serial;
  pending = true;
}

-- the rest of zc_notifications_show, at the slot that was picked
unfoldable pub fill : Glib → Bytes → Bytes → Bytes → Option Hint → ℕ → Notifications → Notifications
fill g chat summary body image slot n =
    let closed = close_id n (at_slot n slot).id in
    let serial = u64 (closed.serial + 1) in
    send_notice g
      (put_slot (record closed { serial = serial }) slot
        (new_notice chat summary body image serial))
      slot

-- zc_notifications_images: -1, 0 and 1
pub data Support : Type 0 where
  unknown : Support
  unsupported : Support
  supported : Support

unfoldable pub images_support : Notifications → Support
images_support n = if not n.ready then unknown else if n.images then supported else unsupported

abbrev wanted : Support → Option Hint → Option Hint
wanted unsupported image = none
wanted unknown image = image
wanted supported image = image

unfoldable pub show : Glib → Bytes → Bytes → Bytes → Option Pixels → Notifications → Notifications
show g chat summary body image n =
    let fresh = dismiss chat n in
    if not (g.is_utf8 chat) || not (g.is_utf8 summary) || not (g.is_utf8 body)
    then n
    else fill g chat summary body (wanted (images_support fresh) (image_hint image)) (chosen fresh)
        fresh

unfoldable pub close_from : ℕ → ℕ → Notifications → Notifications
close_from zero slot n = n
close_from (suc left) slot n = close_from left (slot + 1) (close_id n (at_slot n slot).id)

-- zc_notifications_free: the client's reference
unfoldable pub free : Notifications → Notifications
free n = release (close_from limit 0 (record n { stopped = true; subscribed = false }))
