-- ===== src/Media/Converted.antt =====
-- zr_media_convert of src/relay/media.c: what it leaves behind, and what a picture that it makes
-- is.
use zimbr.Prelude.Int.{ℤ, pos, ◌+ℤ◌}
use zimbr.Prelude.{
  ℕ, ◌*◌, ◌<◌, ◌≤◌, ◌≡◌, ◌⊎◌, refl, Bool, true, false, not, ◌||◌, Option, none, some, List, [], ◌∷◌,
  ◌==◌, ltb, if◌then◌else◌, if_both, if_case, inl, inr, arith, true_of_not,
}
use zimbr.Files.Kernel.{Bytes}
use zimbr.Platform.Spawn.{
  Status, exited, signalled, Waited, ended, running, interrupted, failed, alive,
}
use zimbr.Platform.Spawn.Reaped.{HasAnswer, IsGone}
use zimbr.Media.{
  Result, ok, err, Fingerprint, fingerprint_of, unavailable, corrupt, changed, oversized, no_helper,
}
use zimbr.Media.Derivative.{has_length}
use zimbr.Media.Convert.{
  ImageInfo, Round, Scene, Held, Ended, empty, media_same, edge, is_bad_info, is_unchanged, checked,
  report, reap, Finish, done, vanished, late, is_late, after_wait, or_next, wait_loop, piped,
  duplicated, close_write, close_read, close_duplicates, init_actions, init_attributes,
  destroy_actions, ending, finished, run, spawned, with_source, media_convert,
}

-- nothing is held but what the kernel has of the child
abbrev pub IsReleased : Ended → Type 0
IsReleased e = (e.held ≡ record empty { child = e.held.child }) × IsGone e.held.child

-- a picture within the limits of its variant
pub record IsWithin (variant : Bytes) (i : ImageInfo) : Type 0 where
  pub width : (0 < i.width) × (i.width ≤ edge variant)
  pub height : (0 < i.height) × (i.height ≤ edge variant)
  pub pixels : i.width * i.height * 4 ≤ 32 * 1024 * 1024
  pub bytes : (0 < i.bytes) × (i.bytes ≤ 8 * 1024 * 1024)
  pub flags : (i.png ≤ 1) × (i.still ≤ 1)

good_numbers :
    (e w h b p t : ℕ)
    → (w == 0)
        || (h == 0)
        || ltb e w
        || ltb e h
        || ltb (32 * 1024 * 1024) (w * h * 4)
        || (b == 0)
        || ltb (8 * 1024 * 1024) b
        || ltb 1 p
        || ltb 1 t
      ≡ false
    → (0 < w)
      × (w ≤ e)
      × (0 < h)
      × (h ≤ e)
      × (w * h * 4 ≤ 32 * 1024 * 1024)
      × (0 < b)
      × (b ≤ 8 * 1024 * 1024)
      × (p ≤ 1)
      × (t ≤ 1)
good_numbers e w h b p t k = ground arith

good_info :
    (variant : Bytes) (i : ImageInfo) → is_bad_info (edge variant) i ≡ false → IsWithin variant i
good_info variant i h =
    let n = good_numbers (edge variant) i.width i.height i.bytes i.png i.still h in
    record {
      width = (n.0, n.1);
      height = (n.2, n.3);
      pixels = n.4;
      bytes = (n.5, n.6);
      flags = (n.7, n.8);
    }

-- a picture that was made: within its limits, of the size that the output has, from a source that
-- is the same file as before
pub record IsConverted (user : ℕ) (variant : Bytes) (s : Scene) (i : ImageInfo) : Type 0 where
  pub within : IsWithin variant i
  pub size : has_length i.bytes s.encoded ≡ true
  pub before : Fingerprint
  pub after : Fingerprint
  pub first : fingerprint_of user s.details s.source ≡ ok before
  pub second : fingerprint_of user s.details_after s.source_after ≡ ok after
  pub same : media_same before after ≡ true

abbrev pub Converted : ℕ → Bytes → Scene → Result ImageInfo → Type 0
Converted user variant s (err e) = Unit
Converted user variant s (ok i) = IsConverted user variant s i

unchanged_print :
    (before : Fingerprint) (r : Result Fingerprint)
    → is_unchanged before r ≡ true
    → (after : Fingerprint) × (r ≡ ok after) × (media_same before after ≡ true)
unchanged_print before (err e) h = cc
unchanged_print before (ok after) h = (after, refl, h)

module _ (user : ℕ) (variant : Bytes) (s : Scene) (before : Fingerprint)
    (first : fingerprint_of user s.details s.source ≡ ok before) where
  checked-Converted :
      (info : Option ImageInfo) → Converted user variant s (checked user variant s before info)
  checked-Converted none = tt
  checked-Converted (some i) =
      let now = fingerprint_of user s.details_after s.source_after in
      let stays = is_unchanged before now in
      let sized = has_length i.bytes s.encoded in
      let last : Result ImageInfo = if not sized then err corrupt else ok i in
      if_case (Converted user variant s) (is_bad_info (edge variant) i) (err corrupt)
        (if not stays then err changed else last) (λ _. tt)
        (λ b.
          if_case (Converted user variant s) (not stays) (err changed) last (λ _. tt)
            (λ c.
              if_case (Converted user variant s) (not sized) (err corrupt) (ok i) (λ _. tt)
                (λ z.
                  let u = unchanged_print before now (true_of_not stays c) in
                  record {
                    within = good_info variant i b;
                    size = true_of_not sized z;
                    before = before;
                    after = u.0;
                    first = first;
                    second = u.1;
                    same = u.2;
                  })))

  report-Converted :
      (status : Status) → Converted user variant s (report user variant s before status)
  unfolding report
  report-Converted signalled = tt
  report-Converted (exited n) =
      if_both (Converted user variant s) (not (n == 0))
        (err (if n == 4 then oversized else corrupt)) (checked user variant s before s.info) tt
        (checked-Converted s.info)

reap-IsGone : (answers : List Waited) → HasAnswer answers → IsGone (reap answers)
unfolding reap
reap-IsGone [] h = elim h [ ]
reap-IsGone (ended status ∷ answers) h = tt
reap-IsGone (running ∷ answers) h = tt
reap-IsGone (interrupted ∷ answers) h = reap-IsGone answers h
reap-IsGone (failed ∷ answers) h = tt

-- the clock is at the deadline in some round
abbrev pub HasLateRound : ℤ → List Round → Type 0
HasLateRound deadline [] = ⊥
HasLateRound deadline (r ∷ rs) = (is_late deadline r ≡ true) ⊎ HasLateRound deadline rs

abbrev IsFinish : Option Finish → Type 0
IsFinish none = ⊥
IsFinish (some f) = Unit

late-IsFinish :
    (b : Bool) (next : Option Finish)
    → (b ≡ true) ⊎ IsFinish next
    → IsFinish (or_next (if b then some late else none) next)
late-IsFinish true next h = tt
late-IsFinish false next (inl h) = cc
late-IsFinish false next (inr h) = h

round-IsFinish :
    (deadline : ℤ) (r : Round) (waited : Waited) (next : Option Finish)
    → (is_late deadline r ≡ true) ⊎ IsFinish next
    → IsFinish (or_next (after_wait deadline r waited) next)
round-IsFinish deadline r (ended status) next h = tt
round-IsFinish deadline r running next h = late-IsFinish (is_late deadline r) next h
round-IsFinish deadline r interrupted next h = late-IsFinish (is_late deadline r) next h
round-IsFinish deadline r failed next h = tt

wait_loop-IsFinish :
    (deadline : ℤ) (rs : List Round) → HasLateRound deadline rs → IsFinish (wait_loop deadline rs)
unfolding wait_loop
wait_loop-IsFinish deadline [] h = elim h [ ]
wait_loop-IsFinish deadline (r ∷ rs) (inl h) =
    round-IsFinish deadline r r.waited (wait_loop deadline rs) (inl h)
wait_loop-IsFinish deadline (r ∷ rs) (inr h) =
    round-IsFinish deadline r r.waited (wait_loop deadline rs)
      (inr (wait_loop-IsFinish deadline rs h))

-- an end with nothing held, and a picture that was made if it says so
abbrev pub EndsWell : ℕ → Bytes → Scene → Option Ended → Type 0
EndsWell user variant s none = ⊥
EndsWell user variant s (some e) = IsReleased e × Converted user variant s e.result

-- what is held in the loop: the read end, and the child
abbrev in_loop : Held
in_loop = record empty { read_end = true; child = alive }

module _ (user : ℕ) (variant : Bytes) (timeout : ℤ) (s : Scene) (before : Fingerprint)
    (first : fingerprint_of user s.details s.source ≡ ok before)
    (late_round : HasLateRound (pos s.start +ℤ timeout) s.rounds)
    (answers : HasAnswer s.reaping) where
  finished-EndsWell :
      (f : Option Finish)
      → IsFinish f
      → EndsWell user variant s (finished user variant s before in_loop f)
  finished-EndsWell none h = elim h [ ]
  finished-EndsWell (some (done status)) h =
      ((refl, tt), report-Converted user variant s before first status)
  finished-EndsWell (some vanished) h = ((refl, tt), tt)
  finished-EndsWell (some late) h = ((refl, reap-IsGone s.reaping answers), tt)

  -- the call of posix_spawn, with the descriptors, the actions and the attributes
  spawned-EndsWell : EndsWell user variant s (
      spawned user variant timeout s before
        (init_attributes (init_actions (close_write (duplicated s piped)))))
  spawned-EndsWell =
      if_both (EndsWell user variant s) (not s.added || not s.spawned)
        (some (ending (err no_helper) empty)) (run user variant timeout s before in_loop)
        ((refl, tt), tt)
        (finished-EndsWell (wait_loop (pos s.start +ℤ timeout) s.rounds)
          (wait_loop-IsFinish (pos s.start +ℤ timeout) s.rounds late_round))

  opened-EndsWell : EndsWell user variant s (with_source user variant timeout s (ok before))
  opened-EndsWell =
      let P = EndsWell user variant s in
      let h = close_write (duplicated s piped) in
      let gone = some (ending (err unavailable) (close_read (close_duplicates h))) in
      let undone = some (
        ending (err unavailable)
          (close_read (close_duplicates (destroy_actions (init_actions h))))) in
      let child = spawned user variant timeout s before (init_attributes (init_actions h)) in
      let ready = if not s.attributes then undone else child in
      let prepared = if not s.actions then gone else ready in
      let no_copies = not s.input || not s.output || not s.meta in
      let copied = if no_copies then gone else prepared in
      let unflagged = some (ending (err unavailable) (close_write (close_read piped))) in
      if_both P (not s.piped) (some (ending (err unavailable) empty))
        (if not s.flagged then unflagged else copied) ((refl, tt), tt)
        (if_both P (not s.flagged) unflagged copied ((refl, tt), tt)
          (if_both P no_copies gone prepared ((refl, tt), tt)
            (if_both P (not s.actions) gone ready ((refl, tt), tt)
              (if_both P (not s.attributes) undone child ((refl, tt), tt) spawned-EndsWell))))

with_source-EndsWell :
    (user : ℕ) (variant : Bytes) (timeout : ℤ) (s : Scene) (r : Result Fingerprint)
    → fingerprint_of user s.details s.source ≡ r
    → HasLateRound (pos s.start +ℤ timeout) s.rounds
    → HasAnswer s.reaping
    → EndsWell user variant s (with_source user variant timeout s r)
with_source-EndsWell user variant timeout s (err e) first l a = ((refl, tt), tt)
with_source-EndsWell user variant timeout s (ok before) first l a =
    opened-EndsWell user variant timeout s before first l a

-- Where the clock reaches the deadline in some round and the wait for a killed helper is not
-- interrupted for ever, the call ends, whatever else the system and the helper do: none of its
-- descriptors, actions and attributes is left, and the helper was never started, has been reaped,
-- or is none that the kernel knows of. If it gives a picture, both sides are from 1 to the edge of
-- the variant, its pixels take at most 32 MiB and its bytes from 1 to 8 MiB, which is the size of
-- the output, and the source before and after is a file of the user's with the same fingerprint.
pub media_convert-EndsWell :
    (user : ℕ) (variant : Bytes) (timeout : ℤ) (s : Scene)
    → HasLateRound (pos s.start +ℤ timeout) s.rounds
    → HasAnswer s.reaping
    → EndsWell user variant s (media_convert user variant timeout s)
unfolding media_convert
media_convert-EndsWell user variant timeout s l a =
    with_source-EndsWell user variant timeout s (fingerprint_of user s.details s.source) refl l a
