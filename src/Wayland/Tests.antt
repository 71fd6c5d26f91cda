-- ===== src/Wayland/Tests.antt =====
-- A drop: an offer comes, enters the window and is released, its pipe is read, and the client ends.
use zimbr.Drop.{DropState}
use zimbr.Drop as Drop
use zimbr.Prelude.{◌≡◌, refl, true, none, some, List, [], ◌∷◌, ◌++◌, if◌then◌else◌, arith}
use zimbr.Wayland.State.{State, Transfer, initial}
use zimbr.Wayland.Device.{Answer, poll}
use zimbr.Wayland.Globals.{
  Event, Interface, announced, introduced, named_type, selected_action, entered, released,
  clipboard, polled, ended, run, manager_global, seat_global,
}
use zimbr.Wayland.Safety.Session.{IsProtocol, IsAlive, run-IsAlive}
use zimbr.Wayland.Limits.{IsBounded}
use zimbr.Wayland.Limits.Session.{run-IsBounded}
use zimbr.Wayland.Delivery.{contents, is_whole, poll-drop}

abbrev session : List Event
session =
    announced 1 seat_global 9
    ∷ announced 2 manager_global 3
    ∷ introduced 7 3 true
    ∷ named_type 7 true
    ∷ selected_action 7 1
    ∷ entered (some (7, 3)) true
    ∷ released (some (5, 6)) true 100
    ∷ introduced 8 3 true
    ∷ clipboard (some 8)
    ∷ polled 200 (Answer.bytes (b'f' ∷ []) ∷ Answer.interrupted ∷ Answer.bytes [] ∷ [])
    ∷ ended
    ∷ []

session-IsProtocol : IsProtocol [] [] initial session
unfolding zimbr.Wayland.Globals.step zimbr.Wayland.Offers.is_destroyed zimbr.Wayland.State.action
    zimbr.Wayland.State.mime zimbr.Wayland.State.offered zimbr.Wayland.Globals.global
    zimbr.Wayland.Globals.bind_device
session-IsProtocol =
    (tt, (tt, (refl, (tt, (tt, ((refl, refl), (tt, (refl, (refl, (tt, (tt, tt)))))))))))

run-IsAlive_example : IsAlive (run session initial)
run-IsAlive_example = run-IsAlive session session-IsProtocol

run-IsBounded_example : IsBounded (run session initial)
run-IsBounded_example = run-IsBounded session

abbrev transfer : Transfer
transfer = record { offer = 7; fd = 5; text = b'f' ∷ []; deadline = 2100 }

abbrev waiting_state : State
waiting_state = record initial { transfer = some transfer }

contents_example :
    contents (Answer.interrupted ∷ Answer.bytes (b'i' ∷ []) ∷ Answer.bytes [] ∷ [])
    ≡ some (b'i' ∷ [])
unfolding contents
contents_example = refl

poll-drop_example :
    ((poll 200
        (Answer.interrupted ∷ Answer.bytes (b'i' ∷ []) ∷ Answer.bytes [] ∷ [])
        waiting_state).drop
      ≡ (if is_whole transfer.text (b'i' ∷ [])
          then Drop.offer (transfer.text ++ (b'i' ∷ [])) waiting_state.drop
          else Drop.reject waiting_state.drop))
    × ((poll 200
          (Answer.interrupted ∷ Answer.bytes (b'i' ∷ []) ∷ Answer.bytes [] ∷ [])
          waiting_state).transfer
        ≡ none)
poll-drop_example =
    poll-drop waiting_state transfer 200
      (Answer.interrupted ∷ Answer.bytes (b'i' ∷ []) ∷ Answer.bytes [] ∷ []) (b'i' ∷ []) refl
      (omega arith) (omega arith) contents_example
