-- ===== src/Media/Convert.antt =====
-- src/relay/media.c, zr_media_convert, as on Linux: the helper that makes a smaller picture, with
-- its limits.
use zimbr.Prelude.Int.{ℤ, pos, ◌+ℤ◌, ltb_ℤ, eq_ℤ}
use zimbr.Prelude.{
  ℕ, ◌*◌, Bool, true, false, not, ◌&&◌, ◌||◌, Option, none, some, List, [], ◌∷◌, ◌==◌, ltb,
  if◌then◌else◌, bytes_eq,
}
use zimbr.Files.Kernel.{Bytes, Found}
use zimbr.Platform.Spawn.{
  Status, exited, signalled, Waited, ended, running, interrupted, failed, Child, no_child, alive,
  killed, reaped, unknown,
}
use zimbr.Media.{
  unavailable, oversized, corrupt, timed_out, changed, no_helper, Result, ok, err, Details,
  Fingerprint, fingerprint_of,
}
use zimbr.Media.Derivative.{has_length}

-- ZrImageInfo
pub record ImageInfo : Type 0 where
  pub width : ℕ
  pub height : ℕ
  pub png : ℕ
  pub still : ℕ
  pub bytes : ℕ

-- the answers of one round: waitpid, and the clock in milliseconds
pub record Round : Type 0 where
  pub waited : Waited
  pub now : ℕ

-- All the answers: fstat of the source with its details, pipe, the two fcntl on its read end, the
-- three duplicates, the init of the actions and of the attributes, whether all actions were added,
-- posix_spawn, the clock before the loop, the rounds, waitpid after the kill, the read of a whole
-- ZrImageInfo, fstat of the source again, and fstat of the output.
pub record Scene : Type 0 where
  pub source : Found
  pub details : Details
  pub piped : Bool
  pub flagged : Bool
  pub input : Bool
  pub output : Bool
  pub meta : Bool
  pub actions : Bool
  pub attributes : Bool
  pub added : Bool
  pub spawned : Bool
  pub start : ℕ
  pub rounds : List Round
  pub reaping : List Waited
  pub info : Option ImageInfo
  pub source_after : Found
  pub details_after : Details
  pub encoded : Found

-- the descriptors that the call has, the actions and attributes, and the child
pub record Held : Type 0 where
  pub read_end : Bool
  pub write_end : Bool
  pub input : Bool
  pub output : Bool
  pub meta : Bool
  pub actions : Bool
  pub attributes : Bool
  pub child : Child

pub record Ended : Type 0 where
  pub result : Result ImageInfo
  pub held : Held

abbrev pub empty : Held
empty = record {
  read_end = false;
  write_end = false;
  input = false;
  output = false;
  meta = false;
  actions = false;
  attributes = false;
  child = no_child;
}

abbrev pub same_details : Details → Details → Bool
same_details a b =
    (a.device == b.device)
    && (a.inode == b.inode)
    && eq_ℤ a.modified_sec b.modified_sec
    && eq_ℤ a.modified_ns b.modified_ns
    && eq_ℤ a.changed_sec b.changed_sec
    && eq_ℤ a.changed_ns b.changed_ns

unfoldable pub media_same : Fingerprint → Fingerprint → Bool
media_same a b = (a.bytes == b.bytes) && same_details a.details b.details

abbrev pub avatar : Bytes
avatar = b'a' ∷ b'v' ∷ b'a' ∷ b't' ∷ b'a' ∷ b'r' ∷ []

abbrev pub inline_image : Bytes
inline_image =
    b'i' ∷ b'n' ∷ b'l' ∷ b'i' ∷ b'n' ∷ b'e' ∷ b'_' ∷ b'i' ∷ b'm' ∷ b'a' ∷ b'g' ∷ b'e' ∷ []

abbrev pub viewer : Bytes
viewer = b'v' ∷ b'i' ∷ b'e' ∷ b'w' ∷ b'e' ∷ b'r' ∷ []

unfoldable pub edge : Bytes → ℕ
edge variant =
    if bytes_eq variant avatar
    then 128
    else if bytes_eq variant inline_image
    then 1024
    else if bytes_eq variant viewer
    then 2560
    else 0

abbrev pub is_bad_info : ℕ → ImageInfo → Bool
is_bad_info e i =
    (i.width == 0)
    || (i.height == 0)
    || ltb e i.width
    || ltb e i.height
    || ltb (32 * 1024 * 1024) (i.width * i.height * 4)
    || (i.bytes == 0)
    || ltb (8 * 1024 * 1024) i.bytes
    || ltb 1 i.png
    || ltb 1 i.still

abbrev pub is_unchanged : Fingerprint → Result Fingerprint → Bool
is_unchanged before (err e) = false
is_unchanged before (ok after) = media_same before after

-- the checks after the helper's report
abbrev pub checked : ℕ → Bytes → Scene → Fingerprint → Option ImageInfo → Result ImageInfo
checked user variant s before none = err corrupt
checked user variant s before (some i) =
    if is_bad_info (edge variant) i
    then err corrupt
    else if not (is_unchanged before (fingerprint_of user s.details_after s.source_after))
    then err changed
    else if not (has_length i.bytes s.encoded)
    then err corrupt
    else ok i

-- after the loop, when the child has exited
unfoldable pub report : ℕ → Bytes → Scene → Fingerprint → Status → Result ImageInfo
unfolding media_same edge fingerprint_of
report user variant s before (exited n) =
    if not (n == 0)
    then err (if n == 4 then oversized else corrupt)
    else checked user variant s before s.info
report user variant s before signalled = err corrupt

-- waitpid after the kill
unfoldable pub reap : List Waited → Child
reap [] = killed
reap (ended status ∷ answers) = reaped
reap (running ∷ answers) = unknown
reap (interrupted ∷ answers) = reap answers
reap (failed ∷ answers) = unknown

-- how the loop ends
pub data Finish : Type 0 where
  done : Status → Finish
  vanished : Finish
  late : Finish

abbrev pub is_late : ℤ → Round → Bool
is_late deadline r = not (ltb_ℤ (pos r.now) deadline)

abbrev pub after_wait : ℤ → Round → Waited → Option Finish
after_wait deadline r (ended status) = some (done status)
after_wait deadline r running = if is_late deadline r then some late else none
after_wait deadline r interrupted = if is_late deadline r then some late else none
after_wait deadline r failed = some vanished

abbrev pub or_next : Option Finish → Option Finish → Option Finish
or_next none next = next
or_next (some f) next = some f

-- the loop; `none` is that it is still going when the rounds run out
unfoldable pub wait_loop : ℤ → List Round → Option Finish
wait_loop deadline [] = none
wait_loop deadline (r ∷ rs) = or_next (after_wait deadline r r.waited) (wait_loop deadline rs)

-- pipe
abbrev pub piped : Held
piped = record empty { read_end = true; write_end = true }

-- fcntl with F_DUPFD_CLOEXEC: a duplicate that is -1 is not open
abbrev pub duplicated : Scene → Held → Held
duplicated s h = record h { input = s.input; output = s.output; meta = s.meta }

-- close(pipefd[1]) and close(pipefd[0])
abbrev pub close_write : Held → Held
close_write h = record h { write_end = false }

abbrev pub close_read : Held → Held
close_read h = record h { read_end = false }

abbrev pub close_duplicates : Held → Held
close_duplicates h = record h { input = false; output = false; meta = false }

-- posix_spawn_file_actions_init and posix_spawnattr_init, and their destroys
abbrev pub init_actions : Held → Held
init_actions h = record h { actions = true }

abbrev pub init_attributes : Held → Held
init_attributes h = record h { attributes = true }

abbrev pub destroy_actions : Held → Held
destroy_actions h = record h { actions = false }

abbrev pub destroy_attributes : Held → Held
destroy_attributes h = record h { attributes = false }

abbrev pub has_child : Child → Held → Held
has_child child h = record h { child = child }

abbrev pub ending : Result ImageInfo → Held → Ended
ending result h = record { result = result; held = h }

-- after the loop, with what is held in it
abbrev pub finished : ℕ → Bytes → Scene → Fingerprint → Held → Option Finish → Option Ended
finished user variant s before h none = none
finished user variant s before h (some (done status)) =
    some (ending (report user variant s before status) (close_read (has_child reaped h)))
finished user variant s before h (some vanished) =
    some (ending (err corrupt) (close_read (has_child unknown h)))
finished user variant s before h (some late) =
    some (ending (err timed_out) (close_read (has_child (reap s.reaping) h)))

-- the loop, with the read end and the child
abbrev pub run : ℕ → Bytes → ℤ → Scene → Fingerprint → Held → Option Ended
run user variant timeout s before h =
    finished user variant s before h (wait_loop (pos s.start +ℤ timeout) s.rounds)

-- posix_spawn, unless an action was not added, and the clean-up after it
abbrev pub spawned : ℕ → Bytes → ℤ → Scene → Fingerprint → Held → Option Ended
spawned user variant timeout s before h =
    let h' = close_duplicates (destroy_attributes (destroy_actions h)) in
    if not s.added || not s.spawned
    then some (ending (err no_helper) (close_read h'))
    else run user variant timeout s before (has_child alive h')

-- the init of the actions and of the attributes
abbrev pub prepared : ℕ → Bytes → ℤ → Scene → Fingerprint → Held → Option Ended
prepared user variant timeout s before h =
    if not s.actions
    then some (ending (err unavailable) (close_read (close_duplicates h)))
    else if not s.attributes
    then some (
        ending (err unavailable) (close_read (close_duplicates (destroy_actions (init_actions h)))))
    else spawned user variant timeout s before (init_attributes (init_actions h))

abbrev pub with_source : ℕ → Bytes → ℤ → Scene → Result Fingerprint → Option Ended
with_source user variant timeout s (err e) = some (ending (err e) empty)
with_source user variant timeout s (ok before) =
    let h = close_write (duplicated s piped) in
    if not s.piped
    then some (ending (err unavailable) empty)
    else if not s.flagged
    then some (ending (err unavailable) (close_write (close_read piped)))
    else if not s.input || not s.output || not s.meta
    then some (ending (err unavailable) (close_read (close_duplicates h)))
    else prepared user variant timeout s before h

unfoldable pub media_convert : ℕ → Bytes → ℤ → Scene → Option Ended
unfolding fingerprint_of report reap wait_loop
media_convert user variant timeout s =
    with_source user variant timeout s (fingerprint_of user s.details s.source)
