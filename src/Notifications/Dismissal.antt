-- ===== src/Notifications/Dismissal.antt =====
-- What zc_notifications_dismiss leaves of a conversation.
use zimbr.Prelude.{
  ==_refl, ℕ, zero, suc, ◌+◌, ◌<◌, ◌≡◌, refl, ap, true, false, ◌&&◌, List, [], ◌∷◌, ◌==◌,
  if◌then◌else◌, length, get_or, set, arith, Bool-cases, inl, inr,
}
use zimbr.Notifications.State.{
  Bytes, limit, Notice, cleared, Notifications, at_slot, put_slot, close_id,
}
use zimbr.Notifications.Requests.{shows, dismiss_from, dismiss}
use zimbr.Notifications.Slots.{count, count-none, Within, notices-close_id}
use zimbr.Notifications.Kept.{Within-dismiss_from}

-- Where zc_notifications_dismiss has passed, no slot shows the conversation.
at_slot-cleared :
    (n : Notifications) (slot i : ℕ)
    → at_slot (put_slot n slot cleared) i ≡ (if slot == i then cleared else at_slot n i)
unfolding put_slot
at_slot-cleared n slot i = go n.notices slot i
  where
    go :
        (vs : List Notice) (s j : ℕ)
        → get_or (set vs s cleared) j cleared ≡ (if s == j then cleared else get_or vs j cleared)
    go [] s j = ground arith
    go (v ∷ vs) zero zero = refl
    go (v ∷ vs) zero (suc j) = ground arith
    go (v ∷ vs) (suc s) zero = ground arith
    go (v ∷ vs) (suc s) (suc j) = ground (arith, go vs s j)

at_slot-close_id : (n : Notifications) (id i : ℕ) → at_slot (close_id n id) i ≡ at_slot n i
at_slot-close_id n id i = ap (λ vs. get_or vs i cleared) (notices-close_id n id)

abbrev dismiss_one : Bytes → ℕ → Notifications → Notifications
dismiss_one chat slot n =
    if shows chat (at_slot n slot)
    then put_slot (close_id n (at_slot n slot).id) slot cleared
    else n

at_slot-dismiss_one :
    (chat : Bytes) (slot i : ℕ) (n : Notifications)
    → at_slot (dismiss_one chat slot n) i
      ≡ (if (slot == i) && shows chat (at_slot n slot) then cleared else at_slot n i)
at_slot-dismiss_one chat slot i n = elim (Bool-cases (shows chat (at_slot n slot))) [
  | inl e ↦
      rw
        (
          e,
          at_slot-cleared (close_id n (at_slot n slot).id) slot i,
          at_slot-close_id n (at_slot n slot).id i,
        )
        (ground arith)
  | inr e ↦ rw e (ground arith)
]

shows-dismiss_one :
    (chat : Bytes) (slot i : ℕ) (n : Notifications)
    → (i < slot → shows chat (at_slot n i) ≡ false)
    → i < slot + 1
    → shows chat (at_slot (dismiss_one chat slot n) i) ≡ false
shows-dismiss_one chat slot i n before lt =
    rw (at_slot-dismiss_one chat slot i n) (elim (Bool-cases (slot == i)) [
      | inl e ↦ let same : slot ≡ i = ground arith in rw (same, ==_refl i) (split (at_slot n i))
      | inr e ↦ rw e (before (ground arith))
    ])
  where
    split : (v : Notice) → shows chat (if true && shows chat v then cleared else v) ≡ false
    split v = elim (Bool-cases (shows chat v)) [ inl e ↦ rw e refl | inr e ↦ rw (e, e) refl ]

shows-dismiss_from :
    (chat : Bytes) (left slot i : ℕ) (n : Notifications)
    → (i < slot → shows chat (at_slot n i) ≡ false)
    → i < slot + left
    → shows chat (at_slot (dismiss_from chat left slot n) i) ≡ false
unfolding dismiss_from
shows-dismiss_from chat zero slot i n before lt = before (omega arith)
shows-dismiss_from chat (suc left) slot i n before lt =
    shows-dismiss_from chat left (slot + 1) i (dismiss_one chat slot n)
      (shows-dismiss_one chat slot i n before) (omega arith)

pub Within-dismiss : (chat : Bytes) (n : Notifications) → Within n (dismiss chat n)
unfolding dismiss
Within-dismiss chat n = Within-dismiss_from chat limit 0 n

pub shows-dismiss :
    (chat : Bytes) (n : Notifications)
    → length n.notices ≡ limit
    → count chat (dismiss chat n).notices ≡ 0
unfolding dismiss
shows-dismiss chat n h = count-none chat (dismiss_from chat limit 0 n).notices λ i lt.
    shows-dismiss_from chat limit 0 i n (λ k. absurd (omega arith))
      (omega (arith, (Within-dismiss_from chat limit 0 n).size))
