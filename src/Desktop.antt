-- ===== src/Desktop.antt =====
-- src/client/desktop.c, zc_desktop_wake and zc_desktop_wait: other threads wake the thread of the
-- window. Each access to the shared flag, and each call of SDL, is a step, in any order between the
-- threads.
pub mod Wake
mod Tests
use zimbr.Prelude.{ℕ, zero, suc, ◌+◌, ◌≡◌, Bool, true, false, Option, none, some}

-- Where the thread of the window is: in its own code, in SDL_WaitEventTimeout, or after it.
pub data Main : Type 0 where
  working : Main
  waiting : Main
  leaving : Main

-- wake_pending, the wake events in SDL's queue, the threads between the two calls of
-- zc_desktop_wake, and the result of the last zc_desktop_wait
pub record State : Type 0 where
  pub pending : Bool
  pub queued : ℕ
  pub pushing : ℕ
  pub main : Main
  pub returned : Option Bool

-- SDL_SetAtomicInt(&wake_pending, 1): the thread pushes an event if the flag was clear
unfoldable pub wake : State → State
wake s = record s {
  pending = true;
  pushing = elim s.pending [ true ↦ s.pushing | false ↦ suc s.pushing ];
}

-- SDL_PushEvent, by a thread that set the flag
unfoldable pub push : ℕ → State → State
push n s = record s { pushing = n; queued = suc s.queued }

-- SDL_GetAtomicInt(&wake_pending): it waits if the flag is clear
unfoldable pub look : State → State
look s = record s { main = elim s.pending [ true ↦ leaving | false ↦ waiting ] }

unfoldable pub leave : State → State
leave s = record s { main = leaving }

-- SDL_SetAtomicInt(&wake_pending, 0), and the return
unfoldable pub finish : State → State
finish s = record s { pending = false; main = working; returned = some s.pending }

-- the application takes an event from the queue
unfoldable pub take_event : ℕ → State → State
take_event n s = record s { queued = n }

-- The steps of the threads; SDL_WaitEventTimeout ends when there is an event, or at its timeout.
-- The events are registered and the queue has room.
pub data Step : State → State → Type 0 where
  wakes : (s : State) → Step s (wake s)
  pushes : (s : State) (n : ℕ) → s.pushing ≡ suc n → Step s (push n s)
  looks : (s : State) → s.main ≡ working → Step s (look s)
  notices : (s : State) (n : ℕ) → s.main ≡ waiting → s.queued ≡ suc n → Step s (leave s)
  times_out : (s : State) → s.main ≡ waiting → Step s (leave s)
  finishes : (s : State) → s.main ≡ leaving → Step s (finish s)
  takes : (s : State) (n : ℕ) → s.main ≡ working → s.queued ≡ suc n → Step s (take_event n s)

pub data Steps : State → State → Type 0 where
  stay : (s : State) → Steps s s
  then_step : (s t u : State) → Steps s t → Step t u → Steps s u

-- zc_desktop_init
abbrev pub initial : State
initial = record { pending = false; queued = 0; pushing = 0; main = working; returned = none }
