-- ===== src/Desktop/Wake.antt =====
-- The wakes of src/client/desktop.c: none is lost.
use zimbr.Prelude.{ℕ, zero, suc, ◌+◌, ◌<◌, ◌≡◌, refl, ap, Bool, true, false, some, arith}
use zimbr.Desktop.{
  Main, working, waiting, leaving, State, wake, push, look, leave, finish, take_event, Step, wakes,
  pushes, looks, notices, times_out, finishes, takes, Steps, stay, then_step, initial,
}

-- where the thread waits with the flag set, an event is in the queue or on its way
abbrev pub IsComing : Main → Bool → ℕ → Type 0
IsComing working pending n = Unit
IsComing leaving pending n = Unit
IsComing waiting false n = Unit
IsComing waiting true n = 0 < n

abbrev pub IsAwake : State → Type 0
IsAwake s = IsComing s.main s.pending (s.pushing + s.queued)

wake-IsComing :
    (m : Main) (p : Bool) (a q : ℕ)
    → IsComing m p (a + q)
    → IsComing m true ((elim p as (λ b. ℕ) [ true ↦ a | false ↦ suc a ]) + q)
wake-IsComing working p a q h = tt
wake-IsComing leaving p a q h = tt
wake-IsComing waiting true a q h = h
wake-IsComing waiting false a q h = omega arith

push-IsComing : (m : Main) (p : Bool) (n q : ℕ) → IsComing m p (n + suc q)
push-IsComing working p n q = tt
push-IsComing leaving p n q = tt
push-IsComing waiting true n q = omega arith
push-IsComing waiting false n q = tt

look-IsComing :
    (p : Bool) (n : ℕ) → IsComing (elim p as (λ b. Main) [ true ↦ leaving | false ↦ waiting ]) p n
look-IsComing true n = tt
look-IsComing false n = tt

working-IsComing : (m : Main) (p : Bool) (n : ℕ) → m ≡ working → IsComing m p n
working-IsComing working p n e = tt
working-IsComing leaving p n e = tt
working-IsComing waiting p n e = cc

Step-IsAwake : {s t : State} → Step s t → IsAwake s → IsAwake t
unfolding wake push look leave finish take_event
Step-IsAwake (wakes s) h = wake-IsComing s.main s.pending s.pushing s.queued h
Step-IsAwake (pushes s n e) h = push-IsComing s.main s.pending n s.queued
Step-IsAwake (looks s e) h = look-IsComing s.pending (s.pushing + s.queued)
Step-IsAwake (notices s n e f) h = tt
Step-IsAwake (times_out s e) h = tt
Step-IsAwake (finishes s e) h = tt
Step-IsAwake (takes s n e f) h = working-IsComing s.main s.pending (s.pushing + n) e

Steps-IsAwake : {s t : State} → Steps s t → IsAwake s → IsAwake t
Steps-IsAwake (stay s) h = h
Steps-IsAwake (then_step s t u before last) h = Step-IsAwake last (Steps-IsAwake before h)

-- no step is the end of the wait at its timeout
abbrev pub IsUntimed : {s t : State} → Step s t → Type 0
IsUntimed (wakes s) = Unit
IsUntimed (pushes s n e) = Unit
IsUntimed (looks s e) = Unit
IsUntimed (notices s n e f) = Unit
IsUntimed (times_out s e) = ⊥
IsUntimed (finishes s e) = Unit
IsUntimed (takes s n e f) = Unit

abbrev pub AreUntimed : {s t : State} → Steps s t → Type 0
AreUntimed (stay s) = Unit
AreUntimed (then_step s t u before last) = AreUntimed before × IsUntimed last

-- the steps by which the wait returns: it notices an event that is there
notice_path :
    (s : State) (n : ℕ)
    → s.main ≡ waiting
    → s.queued ≡ suc n
    → (steps : Steps s (finish (leave s))) × AreUntimed steps
unfolding leave
notice_path s n e f =
    let noticed = then_step s s (leave s) (stay s) (notices s n e f) in
    (then_step s (leave s) (finish (leave s)) noticed (finishes (leave s) refl), ((tt, tt), tt))

-- or another thread pushes its event first
push_path :
    (s : State) (n : ℕ)
    → s.main ≡ waiting
    → s.pushing ≡ suc n
    → (steps : Steps s (finish (leave (push n s)))) × AreUntimed steps
unfolding leave push
push_path s n e f =
    let pushed = then_step s s (push n s) (stay s) (pushes s n f) in
    let noticed =
      then_step s (push n s) (leave (push n s)) pushed (notices (push n s) s.queued e refl) in
    (
      then_step s (leave (push n s)) (finish (leave (push n s))) noticed
          (finishes (leave (push n s)) refl),
      (((tt, tt), tt), tt),
    )

-- steps to a return that reports the wake, with no timeout among them
abbrev pub Returns : State → Type 0
Returns s =
    (t : State) × (steps : Steps s t) × AreUntimed steps
    × (t.main ≡ working)
    × (t.returned ≡ some true)

back_after :
    (s : State) (queued pushing : ℕ)
    → s.main ≡ waiting
    → s.pending ≡ true
    → s.queued ≡ queued
    → s.pushing ≡ pushing
    → 0 < pushing + queued
    → Returns s
unfolding leave push finish
back_after s (suc n) pushing m p e f h =
    let path = notice_path s n m e in (finish (leave s), path.0, path.1, refl, ap some p)
back_after s zero (suc n) m p e f h =
    let path = push_path s n m f in (finish (leave (push n s)), path.0, path.1, refl, ap some p)
back_after s zero zero m p e f h = absurd (omega arith)

coming_of : (m : Main) (p : Bool) (n : ℕ) → m ≡ waiting → p ≡ true → IsComing m p n → 0 < n
coming_of waiting true n e f h = h
coming_of waiting false n e f h = cc
coming_of working p n e f h = cc
coming_of leaving p n e f h = cc

-- No wake is lost. In every state that any interleaving of the threads reaches, in which the thread
-- of the window waits for an event and the flag is set, there is an event in the queue or a thread
-- that is about to push one, and there are steps, none of them the
-- timeout, after which the wait has returned with 1.
pub wait-Returns :
    (s : State)
    → Steps initial s
    → s.main ≡ waiting
    → s.pending ≡ true
    → (0 < s.pushing + s.queued) × Returns s
wait-Returns s reached m p =
    let c = coming_of s.main s.pending (s.pushing + s.queued) m p (Steps-IsAwake reached tt) in
    (c, back_after s s.queued s.pushing m p refl refl c)
