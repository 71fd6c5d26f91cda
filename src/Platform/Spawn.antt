-- ===== src/Platform/Spawn.antt =====
-- src/platform.c, zr_spawn: a script that runs within a time, and the marker that it prints.
pub mod Reaped
pub mod Marker
use zimbr.Prelude.Int.{ℤ, pos, negsuc, ◌+ℤ◌, ◌-ℤ◌, ◌*ℤ◌, ltb_ℤ}
use zimbr.Prelude.{
  ℕ, zero, suc, ◌+◌, ◌-◌, ◌*◌, ◌/◌, Bool, true, false, not, ◌&&◌, ◌||◌, Option, none, some, List,
  [], ◌∷◌, ◌++◌, ◌==◌, ltb, leb, if◌then◌else◌, length, take, bytes_eq,
}
use zimbr.Files.Kernel.{Bytes}

-- struct timespec
pub record Instant : Type 0 where
  pub sec : ℕ
  pub nsec : ℕ

-- how a child ended: WIFEXITED with WEXITSTATUS, or by a signal
pub data Status : Type 0 where
  exited : ℕ → Status
  signalled : Status

-- an answer of waitpid
pub data Waited : Type 0 where
  ended : Status → Waited
  running : Waited
  interrupted : Waited
  failed : Waited

-- The answers in one round: what the pipe has at the first read (nothing, if that fails), waitpid,
-- what the pipe has at the read after an exit, and the clock.
pub record Round : Type 0 where
  pub output : Bytes
  pub waited : Waited
  pub rest : Bytes
  pub now : Instant

-- The answers to the whole call: pipe, posix_spawn_file_actions_init, posix_spawn, the clock before
-- the loop, the rounds, and waitpid after the kill.
pub record Scene : Type 0 where
  pub piped : Bool
  pub prepared : Bool
  pub spawned : Bool
  pub start : Instant
  pub rounds : List Round
  pub reaping : List Waited

-- what the kernel has of the child
pub data Child : Type 0 where
  no_child : Child
  alive : Child
  killed : Child
  reaped : Child
  unknown : Child

-- the two ends of the pipe, and the child
pub record Held : Type 0 where
  pub read_end : Bool
  pub write_end : Bool
  pub child : Child

pub record Ended : Type 0 where
  pub code : ℤ
  pub held : Held

abbrev pub output_cap : ℕ
output_cap = 128

-- division of int64_t, towards zero
abbrev pub quotient : ℤ → ℕ → ℤ
quotient (pos n) d = pos (n / d)
quotient (negsuc n) d = pos 0 -ℤ pos (suc n / d)

abbrev pub elapsed : Instant → Instant → ℤ
elapsed start now =
    (pos now.sec -ℤ pos start.sec) *ℤ pos 1000 +ℤ quotient (pos now.nsec -ℤ pos start.nsec) 1000000

-- the bytes up to the first NUL
abbrev pub c_string : Bytes → Bytes
c_string [] = []
c_string (c ∷ cs) = if c == 0 then [] else c ∷ c_string cs

abbrev pub is_newline : ℕ → Bool
is_newline c = (c == b'\n') || (c == b'\r')

abbrev pub push_kept : ℕ → Bytes → Bytes
push_kept c [] = if is_newline c then [] else c ∷ []
push_kept c (d ∷ ds) = c ∷ d ∷ ds

-- the loop that clears line ends at the back
unfoldable pub trimmed : Bytes → Bytes
trimmed [] = []
trimmed (c ∷ cs) = push_kept c (trimmed cs)

abbrev pub ready : Bytes
ready = b'r' ∷ b'e' ∷ b'a' ∷ b'd' ∷ b'y' ∷ []

abbrev pub invoked : Bytes
invoked = b'i' ∷ b'n' ∷ b'v' ∷ b'o' ∷ b'k' ∷ b'e' ∷ b'd' ∷ []

abbrev pub permission_required : Bytes
permission_required =
    b'p' ∷ b'e' ∷ b'r' ∷ b'm' ∷ b'i' ∷ b's' ∷ b's' ∷ b'i' ∷ b'o' ∷ b'n' ∷ b'_' ∷ b'r' ∷ b'e' ∷ b'q'
    ∷ b'u' ∷ b'i' ∷ b'r' ∷ b'e' ∷ b'd' ∷ []

abbrev pub unsupported_account : Bytes
unsupported_account =
    b'u' ∷ b'n' ∷ b's' ∷ b'u' ∷ b'p' ∷ b'p' ∷ b'o' ∷ b'r' ∷ b't' ∷ b'e' ∷ b'd' ∷ b'_' ∷ b'a' ∷ b'c'
    ∷ b'c' ∷ b'o' ∷ b'u' ∷ b'n' ∷ b't' ∷ []

abbrev pub unsupported_target : Bytes
unsupported_target =
    b'u' ∷ b'n' ∷ b's' ∷ b'u' ∷ b'p' ∷ b'p' ∷ b'o' ∷ b'r' ∷ b't' ∷ b'e' ∷ b'd' ∷ b'_' ∷ b't' ∷ b'a'
    ∷ b'r' ∷ b'g' ∷ b'e' ∷ b't' ∷ []

abbrev pub adapter_unavailable : Bytes
adapter_unavailable =
    b'a' ∷ b'd' ∷ b'a' ∷ b'p' ∷ b't' ∷ b'e' ∷ b'r' ∷ b'_' ∷ b'u' ∷ b'n' ∷ b'a' ∷ b'v' ∷ b'a' ∷ b'i'
    ∷ b'l' ∷ b'a' ∷ b'b' ∷ b'l' ∷ b'e' ∷ []

-- the result of a marker
unfoldable pub marker_code : Bytes → ℤ
marker_code text =
    if bytes_eq text ready || bytes_eq text invoked
    then pos 0
    else if bytes_eq text permission_required
    then pos 1
    else if bytes_eq text unsupported_account
    then pos 2
    else if bytes_eq text unsupported_target
    then pos 3
    else if bytes_eq text adapter_unavailable
    then pos 4
    else negsuc 0

abbrev pub is_success : Status → Bool
is_success (exited n) = n == 0
is_success signalled = false

-- `result` is the bytes in use
unfoldable pub verdict : Status → Bytes → ℤ
unfolding trimmed marker_code
verdict status result =
    if not (is_success status) || leb output_cap (length result)
    then negsuc 0
    else marker_code (c_string (trimmed result))

-- a read into what is left of the buffer
abbrev pub filled : Bytes → Bytes → Bytes
filled result chunk = result ++ take (output_cap - length result) chunk

abbrev pub closed : Held → Held
closed h = record h { read_end = false }

-- waitpid after the kill; where the answers run out it is still waiting for a child that will not
-- live
unfoldable pub reap : List Waited → Held → Held
reap [] h = h
reap (ended status ∷ answers) h = record h { child = reaped }
reap (running ∷ answers) h = record h { child = unknown }
reap (interrupted ∷ answers) h = reap answers h
reap (failed ∷ answers) h = record h { child = unknown }

abbrev pub kill : List Waited → Held → Ended
kill reaping h = record {
  code = negsuc 0;
  held = closed (reap reaping (record h { child = killed }));
}

abbrev pub is_late : Instant → ℤ → Round → Bytes → Bool
is_late start timeout r result =
    not (ltb_ℤ (elapsed start r.now) timeout) || leb output_cap (length result)

-- what a round makes of the answer of waitpid: an end, or `none` for the next round
abbrev pub after_wait : Instant → ℤ → List Waited → Round → Waited → Bytes → Held → Option Ended
after_wait start timeout reaping r (ended status) result h = some (record {
  code = verdict status (filled result r.rest);
  held = closed (record h { child = reaped });
})
after_wait start timeout reaping r failed result h =
    some (record { code = negsuc 0; held = closed (record h { child = unknown }) })
after_wait start timeout reaping r running result h =
    if is_late start timeout r result then some (kill reaping h) else none
after_wait start timeout reaping r interrupted result h =
    if is_late start timeout r result then some (kill reaping h) else none

abbrev pub or_next : Option Ended → Option Ended → Option Ended
or_next none next = next
or_next (some e) next = some e

-- The loop; `none` is that it is still going when the rounds run out.
unfoldable pub spawn_loop : Instant → ℤ → List Waited → List Round → Bytes → Held → Option Ended
unfolding verdict reap
spawn_loop start timeout reaping [] result h = none
spawn_loop start timeout reaping (r ∷ rs) result h =
    or_next (after_wait start timeout reaping r r.waited (filled result r.output) h)
      (spawn_loop start timeout reaping rs (filled result r.output) h)

abbrev pub nothing : Held
nothing = record { read_end = false; write_end = false; child = no_child }

abbrev pub both_ends : Held
both_ends = record { read_end = true; write_end = true; child = no_child }

-- the file actions are destroyed and the write end is closed before the loop
abbrev pub unspawned : Ended
unspawned = record { code = negsuc 1; held = nothing }

unfoldable pub spawn : ℤ → Scene → Option Ended
unfolding spawn_loop
spawn timeout s =
    if not s.piped
    then some unspawned
    else if not s.prepared
    then some (record {
      code = negsuc 1;
      held = record both_ends { read_end = false; write_end = false };
    })
    else if not s.spawned
    then some (record { code = negsuc 1; held = closed (record both_ends { write_end = false }) })
    else spawn_loop s.start timeout s.reaping s.rounds []
        (record both_ends { write_end = false; child = alive })
