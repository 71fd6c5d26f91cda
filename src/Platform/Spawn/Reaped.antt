-- ===== src/Platform/Spawn/Reaped.antt =====
-- zr_spawn of src/platform.c: it ends, closes its pipe and leaves no child behind.
use zimbr.Prelude.Int.{ℤ, negsuc, ltb_ℤ}
use zimbr.Prelude.{
  ◌≡◌, ◌⊎◌, refl, Bool, true, false, not, ◌||◌, Option, none, some, List, [], ◌∷◌, if◌then◌else◌,
  leb, length, inl, inr, if_both, ◌∙◌,
}
use zimbr.Files.Kernel.{Bytes}
use zimbr.Platform.Spawn.{
  Instant, Waited, ended, running, interrupted, failed, Round, Scene, Child, no_child, alive,
  killed, reaped, unknown, Held, Ended, output_cap, elapsed, filled, reap, kill, is_late,
  after_wait, or_next, spawn_loop, spawn, unspawned, closed, both_ends,
}

-- some round's clock is at the timeout or later
abbrev pub HasLate : Instant → ℤ → List Round → Type 0
HasLate start timeout [] = ⊥
HasLate start timeout (r ∷ rs) =
    (ltb_ℤ (elapsed start r.now) timeout ≡ false) ⊎ HasLate start timeout rs

-- some answer of waitpid is not an interruption
abbrev pub HasAnswer : List Waited → Type 0
HasAnswer [] = ⊥
HasAnswer (ended status ∷ answers) = Unit
HasAnswer (running ∷ answers) = Unit
HasAnswer (interrupted ∷ answers) = HasAnswer answers
HasAnswer (failed ∷ answers) = Unit

-- the child was never there, was reaped, or is none that the kernel knows
abbrev pub IsGone : Child → Type 0
IsGone no_child = Unit
IsGone alive = ⊥
IsGone killed = ⊥
IsGone reaped = Unit
IsGone unknown = Unit

-- an end with nothing left behind
abbrev pub IsClean : Option Ended → Type 0
IsClean none = ⊥
IsClean (some e) = (e.held.read_end ≡ false) × (e.held.write_end ≡ false) × IsGone e.held.child

reap-IsGone :
    (answers : List Waited) (h : Held)
    → HasAnswer answers
    → IsGone (reap answers h).child × ((reap answers h).write_end ≡ h.write_end)
unfolding reap
reap-IsGone [] h k = elim k [ ]
reap-IsGone (ended status ∷ answers) h k = (tt, refl)
reap-IsGone (running ∷ answers) h k = (tt, refl)
reap-IsGone (interrupted ∷ answers) h k = reap-IsGone answers h k
reap-IsGone (failed ∷ answers) h k = (tt, refl)

kill-IsClean :
    (reaping : List Waited) (h : Held)
    → h.write_end ≡ false
    → HasAnswer reaping
    → IsClean (some (kill reaping h))
kill-IsClean reaping h w k =
    let g = reap-IsGone reaping (record h { child = killed }) k in (refl, g.1 ∙ w, g.0)

module _ (start : Instant) (timeout : ℤ) (reaping : List Waited) (answers : HasAnswer reaping) where
  late-IsClean :
      (late : Bool) (h : Held) (next : Option Ended)
      → h.write_end ≡ false
      → (late ≡ true) ⊎ IsClean next
      → IsClean (or_next (if late then some (kill reaping h) else none) next)
  late-IsClean true h next w e = kill-IsClean reaping h w answers
  late-IsClean false h next w (inl e) = cc
  late-IsClean false h next w (inr e) = e

  -- a round ends, and clean, if it is late or the next rounds do
  round-IsClean :
      (r : Round) (waited : Waited) (result : Bytes) (h : Held) (next : Option Ended)
      → h.write_end ≡ false
      → (is_late start timeout r result ≡ true) ⊎ IsClean next
      → IsClean (or_next (after_wait start timeout reaping r waited result h) next)
  round-IsClean r (ended status) result h next w e = (refl, w, tt)
  round-IsClean r running result h next w e =
      late-IsClean (is_late start timeout r result) h next w e
  round-IsClean r interrupted result h next w e =
      late-IsClean (is_late start timeout r result) h next w e
  round-IsClean r failed result h next w e = (refl, w, tt)

  late_test : (b c : Bool) → b ≡ false → (not b || c) ≡ true
  late_test true c h = cc
  late_test false c h = refl

  spawn_loop-IsClean :
      (rs : List Round) (result : Bytes) (h : Held)
      → h.write_end ≡ false
      → HasLate start timeout rs
      → IsClean (spawn_loop start timeout reaping rs result h)
  unfolding spawn_loop
  spawn_loop-IsClean [] result h w k = elim k [ ]
  spawn_loop-IsClean (r ∷ rs) result h w (inl k) =
      round-IsClean r r.waited (filled result r.output) h
        (spawn_loop start timeout reaping rs (filled result r.output) h) w
        (inl (
          late_test (ltb_ℤ (elapsed start r.now) timeout)
            (leb output_cap (length (filled result r.output))) k))
  spawn_loop-IsClean (r ∷ rs) result h w (inr k) =
      round-IsClean r r.waited (filled result r.output) h
        (spawn_loop start timeout reaping rs (filled result r.output) h) w
        (inr (spawn_loop-IsClean rs (filled result r.output) h w k))

-- Where the clock reaches the timeout in some round and the wait for a killed child is not
-- interrupted for ever, the call ends, whatever the script prints and however pipe, posix_spawn and
-- waitpid answer: both ends of the pipe are closed then, and the child was never started, has been
-- reaped, or is none that the kernel knows of; it is not left running or as a zombie.
pub spawn-IsClean :
    (timeout : ℤ) (s : Scene)
    → HasLate s.start timeout s.rounds
    → HasAnswer s.reaping
    → IsClean (spawn timeout s)
unfolding spawn
spawn-IsClean timeout s late answers =
    let e : Ended = record {
      code = negsuc 1;
      held = record both_ends { read_end = false; write_end = false };
    } in
    let h : Held = record both_ends { write_end = false; child = alive } in
    let f : Ended = record {
      code = negsuc 1;
      held = closed (record both_ends { write_end = false });
    } in
    let run = spawn_loop s.start timeout s.reaping s.rounds [] h in
    if_both IsClean (not s.piped) (some unspawned)
      (if not s.prepared then some e else if not s.spawned then some f else run) (refl, refl, tt)
      (if_both IsClean (not s.prepared) (some e) (if not s.spawned then some f else run)
        (refl, refl, tt)
        (if_both IsClean (not s.spawned) (some f) run (refl, refl, tt)
          (spawn_loop-IsClean s.start timeout s.reaping answers s.rounds [] h refl late)))
