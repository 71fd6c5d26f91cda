-- ===== src/Wayland/Safety/Session.antt =====
-- A whole session of the desktop connection keeps the offers sound.
use zimbr.Prelude.{ℕ, ◌≡◌, ◌≢◌, true, false, none, some, List, [], ◌∷◌}
use zimbr.Wayland.State.{State, initial}
use zimbr.Wayland.Device.{selection}
use zimbr.Wayland.Globals.{
  Event, announced, withdrawn, named_type, selected_action, introduced, entered, left, released,
  clipboard, polled, taken_paths, ended, step, run,
}
use zimbr.Wayland.Offers.{has, member, is_destroyed, IsClean}
use zimbr.Wayland.Safety.{held_by, IsSound}
use zimbr.Wayland.Safety.Device.{
  poll-IsSound, dropped-IsSound, leave-IsSound, mime-IsSound, action-IsSound, offered-IsSound,
}
use zimbr.Wayland.Safety.Enter.{selection-IsSound, enter-none-IsSound, enter-some-IsSound}
use zimbr.Wayland.Safety.Globals.{global-IsSound, removed-IsSound, free-IsSound}

-- what the history holds after an event
abbrev pub seen_after : Event → List ℕ → List ℕ
seen_after (announced n i v) seen = seen
seen_after (withdrawn n) seen = seen
seen_after (named_type p b) seen = seen
seen_after (selected_action p a) seen = seen
seen_after (introduced p v b) seen = p ∷ seen
seen_after (entered o own) seen = seen
seen_after left seen = seen
seen_after (released ends b now) seen = seen
seen_after (clipboard o) seen = seen
seen_after (polled now answers) seen = seen
seen_after taken_paths seen = seen
seen_after ended seen = seen

abbrev pub named_after : Event → List ℕ → List ℕ
named_after (announced n i v) named = named
named_after (withdrawn n) named = named
named_after (named_type p b) named = named
named_after (selected_action p a) named = named
named_after (introduced p v b) named = named
named_after (entered none own) named = named
named_after (entered (some (p, v)) own) named = p ∷ named
named_after left named = named
named_after (released ends b now) named = named
named_after (clipboard none) named = named
named_after (clipboard (some p)) named = p ∷ named
named_after (polled now answers) named = named
named_after taken_paths named = named
named_after ended named = named

-- What the protocol and libwayland promise of an event: an offer that is introduced is new, an
-- enter or a selection names an offer that none named before, and the proxy that libwayland hands
-- over is not one that was destroyed (it hands over a null pointer there).
abbrev pub IsDelivered : List ℕ → List ℕ → State → Event → Type 0
IsDelivered seen named s (announced n i v) = Unit
IsDelivered seen named s (withdrawn n) = Unit
IsDelivered seen named s (named_type p b) = Unit
IsDelivered seen named s (selected_action p a) = Unit
IsDelivered seen named s (introduced p v b) = member p seen ≡ false
IsDelivered seen named s (entered none own) = Unit
IsDelivered seen named s (entered (some (p, v)) own) =
    (member p named ≡ false) × (is_destroyed p s.requests ≡ false)
IsDelivered seen named s left = Unit
IsDelivered seen named s (released ends b now) = Unit
IsDelivered seen named s (clipboard none) = Unit
IsDelivered seen named s (clipboard (some p)) = member p named ≡ false
IsDelivered seen named s (polled now answers) = Unit
IsDelivered seen named s taken_paths = Unit
IsDelivered seen named s ended = Unit

abbrev pub IsProtocol : List ℕ → List ℕ → State → List Event → Type 0
IsProtocol seen named s [] = Unit
IsProtocol seen named s (e ∷ es) =
    IsDelivered seen named s e × IsProtocol (seen_after e seen) (named_after e named) (step e s) es

step-IsSound :
    (seen named : List ℕ) (e : Event) (s : State)
    → IsDelivered seen named s e
    → IsSound seen named s
    → IsSound (seen_after e seen) (named_after e named) (step e s)
unfolding step
step-IsSound seen named (announced n i v) s h safe = global-IsSound n i v s safe
step-IsSound seen named (withdrawn n) s h safe = removed-IsSound n s safe
step-IsSound seen named (named_type p b) s h safe = mime-IsSound p b s safe
step-IsSound seen named (selected_action p a) s h safe = action-IsSound p a s safe
step-IsSound seen named (introduced p v b) s h safe = offered-IsSound p v b s safe h
step-IsSound seen named (entered none own) s h safe = enter-none-IsSound own s safe
step-IsSound seen named (entered (some (p, v)) own) s h safe =
    enter-some-IsSound p v own s safe h.0 h.1
step-IsSound seen named left s h safe = leave-IsSound s safe
step-IsSound seen named (released ends b now) s h safe = dropped-IsSound ends b now s safe
step-IsSound seen named (clipboard none) s h safe = unfold selection in safe
step-IsSound seen named (clipboard (some p)) s h safe = selection-IsSound p s safe h
step-IsSound seen named (polled now answers) s h safe = poll-IsSound now answers s safe
step-IsSound seen named taken_paths s h safe = safe
step-IsSound seen named ended s h safe = free-IsSound s safe

-- no offer that the code holds is destroyed, and no request was ever sent on a destroyed one
abbrev pub IsAlive : State → Type 0
IsAlive s =
    IsClean s.requests
    × ((p : ℕ) → has p s.offers ≡ true → is_destroyed p s.requests ≡ false)
    × ((p : ℕ) → s.drag ≡ some p → has p s.offers ≡ true)
    × ((p : ℕ) → held_by s.transfer ≡ some p → (has p s.offers ≡ true) × (s.drag ≢ some p))

run_sound :
    (seen named : List ℕ) (es : List Event) (s : State)
    → IsProtocol seen named s es
    → IsSound seen named s
    → IsAlive (run es s)
unfolding run
run_sound seen named [] s h safe = (
  safe.clean,
  safe.live,
  λ p e. (safe.dragged p e).0,
  λ p e. ((safe.kept p e).0, λ k. (safe.dragged p k).2 e),
)
run_sound seen named (e ∷ es) s h safe =
    run_sound (seen_after e seen) (named_after e named) es (step e s) h.1
      (step-IsSound seen named e s h.0 safe)

-- In a session whose events keep the protocol, no request is sent on an offer that was destroyed
-- and none is destroyed twice; the drag and the offer of the transfer are always in the list, are
-- two different offers, and no offer of the list is destroyed.
pub run-IsAlive : (es : List Event) → IsProtocol [] [] initial es → IsAlive (run es initial)
run-IsAlive es h = run_sound [] [] es initial h (record {
  clean = tt;
  live = λ p k. (unfold has in cc);
  distinct = tt;
  known = λ p k. (unfold has in cc);
  gone = λ p k. (unfold is_destroyed in cc);
  dragged = λ p k. cc;
  kept = λ p k. cc;
})
