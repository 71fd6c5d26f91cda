-- ===== src/Notifications/Tests.antt =====
-- src/client/notifications.c at concrete events.
use zimbr.Prelude.Int.{pos}
use zimbr.Prelude.{
  ℕ, zero, suc, ◌+◌, ◌*◌, ◌≤◌, ◌<◌, ◌≡◌, refl, true, false, none, some, List, [], ◌∷◌,
  if◌then◌else◌, length, arith,
}
use zimbr.Notifications.Image.{Pixels, Hint, image_hint}
use zimbr.Notifications.Image.Bounds.{IsWithin, image_hint-IsWithin}
use zimbr.Notifications.State.{Bytes, limit, Notifications, Glib, created, is_live, at_slot}
use zimbr.Notifications.Requests.{chosen, new_notice}
use zimbr.Notifications.Events.{
  Event, shown, capable, replied, daemon_up, show_call, free_call, run,
}
use zimbr.Notifications.Slots.{count}
use zimbr.Notifications.Uniqueness.{run-IsUnique}
use zimbr.Notifications.References.{run-IsCounted}
use zimbr.Notifications.Eviction.{chosen-least}

-- texts are accepted and shown as they are
abbrev plain : Glib
plain = record { is_utf8 = λ s. true; markup_escape = λ s. s }

abbrev alice : Bytes
alice = 97 ∷ []

abbrev busy : List Event
busy =
    daemon_up (1 ∷ [])
    ∷ show_call alice [] [] none
    ∷ replied 0 (
        capable
          (record { actions = true; body_markup = false; icon_static = true; icon_multi = false }))
    ∷ show_call alice [] [] none
    ∷ replied 0 (shown 7)
    ∷ replied 0 (shown 8)
    ∷ free_call
    ∷ []

run-IsUnique_example :
    (length (run plain busy created).notices ≡ limit)
    × (count alice (run plain busy created).notices ≤ 1)
run-IsUnique_example = run-IsUnique plain busy alice

run-IsCounted_example :
    (run plain busy created).refs
    ≡ length (run plain busy created).waiting + (if (run plain busy created).stopped then 0 else 1)
run-IsCounted_example = run-IsCounted plain busy

-- two slots, the second the older
abbrev two_notices : Notifications
two_notices = record created {
  notices = new_notice alice [] [] none 9 ∷ new_notice (98 ∷ []) [] [] none 4 ∷ [];
}

two_notices_live : (k : ℕ) → k < 2 → is_live (at_slot two_notices k) ≡ true
two_notices_live zero h = refl
two_notices_live (suc zero) h = refl
two_notices_live (suc (suc k)) h = absurd (omega arith)

chosen-least_example :
    (chosen two_notices < length two_notices.notices)
    × ((at_slot two_notices (chosen two_notices)).serial ≤ (at_slot two_notices 0).serial)
chosen-least_example = chosen-least two_notices two_notices_live 0 (omega arith)

abbrev dot : Pixels
dot = record { content = some (1 ∷ 2 ∷ 3 ∷ 4 ∷ []); width = pos 1; height = pos 1; bytes = 4 }

abbrev dot_hint : Hint
dot_hint = record { width = 1; height = 1; pixels = 1 ∷ 2 ∷ 3 ∷ 4 ∷ [] }

image_hint-dot : image_hint (some dot) ≡ some dot_hint
unfolding image_hint
image_hint-dot = refl

image_hint-IsWithin_example : IsWithin dot_hint × (length dot_hint.pixels ≤ 64 * 1024)
image_hint-IsWithin_example = image_hint-IsWithin dot (1 ∷ 2 ∷ 3 ∷ 4 ∷ []) refl refl image_hint-dot
