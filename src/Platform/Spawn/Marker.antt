-- ===== src/Platform/Spawn/Marker.antt =====
-- zr_spawn of src/platform.c: what a result from 0 to 4 says of the script.
use zimbr.Prelude.Int.{ℤ, pos, negsuc}
use zimbr.Prelude.{
  ℕ, subst, ==_iff, ◌==◌, zero, suc, ◌-◌, ◌<◌, ◌≤◌, ◌≡◌, refl, sym, ◌∙◌, ap, Bool, true, false, not,
  Option, none, some, List, [], ◌∷◌, ◌++◌, if◌then◌else◌, leb, length, take, length-append,
  Bool-cases, inl, inr, if_both, arith,
}
use mathlib.Core.List.{append_assoc}
use zimbr.Files.Kernel.{Bytes}
use zimbr.Platform.Spawn.{
  Instant, Status, exited, signalled, Waited, ended, running, interrupted, failed, Round, Scene,
  reaped, Held, Ended, output_cap, filled, kill, is_late, after_wait, or_next, spawn_loop, spawn,
  unspawned, closed, both_ends, c_string, trimmed, marker_code, verdict, suc, alive,
}

-- all that the script printed up to its end
abbrev pub printed : List Round → Bytes
printed [] = []
printed (r ∷ rs) = r.output ++ printed rs

-- the bytes of the buffer, those of the rounds since, and those of the last round
abbrev pub all_output : Bytes → List Round → Round → Bytes
all_output before earlier r = before ++ (printed earlier ++ (r.output ++ r.rest))

-- The child has exited with status 0, and the marker is all that it printed since
-- the start, which is less than the buffer holds.
pub record IsMarked (rounds : List Round) (before : Bytes) (e : Ended) : Type 0 where
  pub earlier : List Round
  pub last : Round
  pub later : List Round
  pub split : rounds ≡ earlier ++ last ∷ later
  pub succeeded : last.waited ≡ ended (exited 0)
  pub whole : length (all_output before earlier last) < output_cap
  pub code : e.code ≡ marker_code (c_string (trimmed (all_output before earlier last)))
  pub child : e.held.child ≡ reaped

-- a buffer that is not full took the whole chunk
take_all : (n : ℕ) (b : Bytes) → length b ≤ n → take n b ≡ b
take_all zero [] h = refl
take_all zero (c ∷ b) h = absurd (omega arith)
take_all (suc n) [] h = refl
take_all (suc n) (c ∷ b) h = ap (λ r. c ∷ r) (take_all n b (omega arith))

length-take_min : (n : ℕ) (b : Bytes) → n ≤ length b → length (take n b) ≡ n
length-take_min zero b h = refl
length-take_min (suc n) [] h = absurd (omega arith)
length-take_min (suc n) (c ∷ b) h = ap suc (length-take_min n b (omega arith))

le_of_test : (a b : ℕ) → leb a b ≡ true → a ≤ b
le_of_test a b h = ground arith

lt_of_test : (a b : ℕ) → leb a b ≡ false → b < a
lt_of_test a b h = ground arith

filled-all :
    (result chunk : Bytes)
    → length (filled result chunk) < output_cap
    → filled result chunk ≡ result ++ chunk
filled-all result chunk h = elim (Bool-cases (leb (length chunk) (output_cap - length result))) [
  | inl k ↦
      ap (λ b. result ++ b)
        (take_all (output_cap - length result) chunk
          (le_of_test (length chunk) (output_cap - length result) k))
  | inr k ↦
      let l = lt_of_test (length chunk) (output_cap - length result) k in
      absurd (
        omega (
          arith,
          h,
          length-append result (take (output_cap - length result) chunk),
          length-take_min (output_cap - length result) chunk (omega arith),
        ))
]

-- what a short buffer holds
filled-short :
    (result chunk : Bytes) → length (filled result chunk) < output_cap → length result < output_cap
filled-short result chunk h =
    omega (arith, h, length-append result (take (output_cap - length result) chunk))

-- a result that is not an error is of a script that succeeded, with a buffer that is not full
verdict-pos :
    (status : Status) (result : Bytes) (n : ℕ)
    → verdict status result ≡ pos n
    → (status ≡ exited 0)
      × (length result < output_cap)
      × (verdict status result ≡ marker_code (c_string (trimmed result)))
unfolding verdict
verdict-pos (exited m) result n h = elim (Bool-cases (m == 0)) [
  | inl z ↦ elim (Bool-cases (leb output_cap (length result))) [
    | inl l ↦ let h' = rw (z, l) at h in cc
    | inr l ↦
        (ap exited ((==_iff m 0).0 z), lt_of_test output_cap (length result) l, rw (z, l) refl)
  ]
  | inr z ↦ let h' = rw z at h in cc
]
verdict-pos signalled result n h = cc

-- the claim of a run from a buffer with these bytes
abbrev Marks : List Round → Bytes → Option Ended → Type 0
Marks rounds before none = Unit
Marks rounds before (some e) = (n : ℕ) → e.code ≡ pos n → IsMarked rounds before e

exit-Marks :
    (r : Round) (rs : List Round) (before : Bytes) (status : Status) (h : Held)
    → r.waited ≡ ended status
    → Marks (r ∷ rs) before (
        some (record {
          code = verdict status (filled (filled before r.output) r.rest);
          held = closed (record h { child = reaped });
        }))
exit-Marks r rs before status h w n c =
    let v = verdict-pos status (filled (filled before r.output) r.rest) n c in
    let short = filled-short (filled before r.output) r.rest v.1 in
    let whole : filled (filled before r.output) r.rest ≡ all_output before [] r =
      filled-all (filled before r.output) r.rest v.1
      ∙ ap (λ b. b ++ r.rest) (filled-all before r.output short)
      ∙ append_assoc before r.output r.rest in
    record {
      earlier = [];
      last = r;
      later = rs;
      split = refl;
      succeeded = w ∙ ap ended v.0;
      whole = subst (λ b. length b < output_cap) whole v.1;
      code = v.2 ∙ ap (λ b. marker_code (c_string (trimmed b))) whole;
      child = refl;
    }

-- one more round, whose output the buffer took
add_round :
    (r : Round) (rs : List Round) (before : Bytes) (e : Ended)
    → IsMarked rs (filled before r.output) e
    → IsMarked (r ∷ rs) before e
add_round r rs before e m =
    let tail = printed m.earlier ++ (m.last.output ++ m.last.rest) in
    let short : length (filled before r.output) < output_cap =
      omega (arith, m.whole, length-append (filled before r.output) tail) in
    let whole : filled before r.output ++ tail ≡ all_output before (r ∷ m.earlier) m.last =
      ap (λ b. b ++ tail) (filled-all before r.output short)
      ∙ append_assoc before r.output tail
      ∙ ap (λ b. before ++ b)
          (sym (append_assoc r.output (printed m.earlier) (m.last.output ++ m.last.rest))) in
    record {
      earlier = r ∷ m.earlier;
      last = m.last;
      later = m.later;
      split = ap (λ rs. r ∷ rs) m.split;
      succeeded = m.succeeded;
      whole = subst (λ b. length b < output_cap) whole m.whole;
      code = m.code ∙ ap (λ b. marker_code (c_string (trimmed b))) whole;
      child = m.child;
    }

add_round-Marks :
    (r : Round) (rs : List Round) (before : Bytes) (o : Option Ended)
    → Marks rs (filled before r.output) o
    → Marks (r ∷ rs) before o
add_round-Marks r rs before none m = tt
add_round-Marks r rs before (some e) m = λ n c. add_round r rs before e (m n c)

late-Marks :
    (late : Bool) (reaping : List Waited) (h : Held) (rs : List Round) (before : Bytes)
    (next : Option Ended)
    → Marks rs before next
    → Marks rs before (or_next (if late then some (kill reaping h) else none) next)
late-Marks true reaping h rs before next m = λ n c. cc
late-Marks false reaping h rs before next m = m

round-Marks :
    (start : Instant) (timeout : ℤ) (reaping : List Waited) (r : Round) (waited : Waited)
    (rs : List Round) (before : Bytes) (h : Held) (next : Option Ended)
    → r.waited ≡ waited
    → Marks rs (filled before r.output) next
    → Marks
        (r ∷ rs)
        before
        (or_next (after_wait start timeout reaping r waited (filled before r.output) h) next)
round-Marks start timeout reaping r (ended status) rs before h next w m =
    exit-Marks r rs before status h w
round-Marks start timeout reaping r running rs before h next w m =
    late-Marks (is_late start timeout r (filled before r.output)) reaping h (r ∷ rs) before next
      (add_round-Marks r rs before next m)
round-Marks start timeout reaping r interrupted rs before h next w m =
    late-Marks (is_late start timeout r (filled before r.output)) reaping h (r ∷ rs) before next
      (add_round-Marks r rs before next m)
round-Marks start timeout reaping r failed rs before h next w m = λ n c. cc

spawn_loop-Marks :
    (start : Instant) (timeout : ℤ) (reaping : List Waited) (rs : List Round) (before : Bytes)
    (h : Held)
    → Marks rs before (spawn_loop start timeout reaping rs before h)
unfolding spawn_loop
spawn_loop-Marks start timeout reaping [] before h = tt
spawn_loop-Marks start timeout reaping (r ∷ rs) before h =
    round-Marks start timeout reaping r r.waited rs before h
      (spawn_loop start timeout reaping rs (filled before r.output) h) refl
      (spawn_loop-Marks start timeout reaping rs (filled before r.output) h)

-- A result that is not negative says that the child exited with status 0 in some round and was
-- reaped, that all it printed up to then is less than 128 bytes, none of which was lost, and that
-- these bytes, without the line ends at their back and up to the first NUL, are the marker of that
-- result.
pub spawn-IsMarked :
    (timeout : ℤ) (s : Scene) (e : Ended) (n : ℕ)
    → spawn timeout s ≡ some e
    → e.code ≡ pos n
    → IsMarked s.rounds [] e
unfolding spawn
spawn-IsMarked timeout s e n h c =
    let e1 : Ended = record {
      code = negsuc 1;
      held = record both_ends { read_end = false; write_end = false };
    } in
    let child : Held = record both_ends { write_end = false; child = alive } in
    let e2 : Ended = record {
      code = negsuc 1;
      held = closed (record both_ends { write_end = false });
    } in
    let run = spawn_loop s.start timeout s.reaping s.rounds [] child in
    let m =
      if_both (Marks s.rounds []) (not s.piped) (some unspawned)
        (if not s.prepared then some e1 else if not s.spawned then some e2 else run) (λ n c. cc)
        (if_both (Marks s.rounds []) (not s.prepared) (some e1)
          (if not s.spawned then some e2 else run) (λ n c. cc)
          (if_both (Marks s.rounds []) (not s.spawned) (some e2) run (λ n c. cc)
            (spawn_loop-Marks s.start timeout s.reaping s.rounds [] child))) in
    let m' = rw h at m in m' n c
