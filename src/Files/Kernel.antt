-- ===== src/Files/Kernel.antt =====
-- The system calls of the file code: each takes the next of the kernel's answers and is logged, the
-- newest first. `fds` are the descriptors that the code has open. A kernel with no answer left
-- fails with EIO, and an answer of another kind than the call has is a failure too.
use zimbr.Prelude.{
  ℕ, ◌%◌, Bool, true, false, Option, none, some, List, [], ◌∷◌, ◌==◌, if◌then◌else◌,
}

abbrev pub Bytes : Type 0
Bytes = List ℕ

-- a negative size is `none`
pub record Stat : Type 0 where
  pub is_regular : Bool
  pub is_directory : Bool
  pub uid : ℕ
  pub mode : ℕ
  pub links : ℕ
  pub size : Option ℕ

pub data Answer : Type 0 where
  descriptor : ℕ → Answer
  success : Answer
  status : Stat → Answer
  entry : Bytes → Answer
  finished : Answer
  failure : ℕ → Answer

pub data Call : Type 0 where
  open_at : ℕ → Bytes → Call
  create_at : ℕ → Bytes → Call
  replace_at : ℕ → Bytes → Call
  open_or_create : ℕ → Bytes → Call
  make_directory : ℕ → Bytes → Call
  change_mode : ℕ → ℕ → Call
  duplicate : ℕ → Call
  lock : ℕ → Call
  sync : ℕ → Call
  write : ℕ → Bytes → Call
  status_of : ℕ → Call
  status_at : ℕ → Bytes → Call
  rename : ℕ → Bytes → Bytes → Call
  unlink : ℕ → Bytes → Call
  remove_directory : ℕ → Bytes → Call
  open_stream : ℕ → Call
  read_entry : ℕ → Call

pub record Kernel : Type 0 where
  pub user : ℕ  -- getuid()
  pub answers : List Answer
  pub fds : List ℕ
  pub calls : List Call

-- ENOENT, EEXIST and EIO
abbrev pub no_entry : ℕ
no_entry = 2

abbrev pub exists : ℕ
exists = 17

abbrev pub io_error : ℕ
io_error = 5

abbrev pub first_answer : List Answer → Answer
first_answer [] = failure io_error
first_answer (a ∷ as') = a

abbrev pub later_answers : List Answer → List Answer
later_answers [] = []
later_answers (a ∷ as') = as'

unfoldable pub made : Call → Kernel → Kernel
made c k = record k { answers = later_answers k.answers; calls = c ∷ k.calls }

abbrev pub opened : Answer → Kernel → Option ℕ × Kernel
opened (descriptor fd) k = (some fd, record k { fds = fd ∷ k.fds })
opened success k = (none, k)
opened (status st) k = (none, k)
opened (entry name) k = (none, k)
opened finished k = (none, k)
opened (failure e) k = (none, k)

unfoldable pub open_call : Call → Kernel → Option ℕ × Kernel
unfolding made
open_call c k = opened (first_answer k.answers) (made c k)

unfoldable pub close_fd : ℕ → List ℕ → List ℕ
close_fd fd [] = []
close_fd fd (g ∷ gs) = if g == fd then gs else g ∷ close_fd fd gs

abbrev pub close : ℕ → Kernel → Kernel
close fd k = record k { fds = close_fd fd k.fds }

-- the error of a call that returns 0 or -1; `none` is 0
abbrev pub error_of : Answer → Option ℕ
error_of (descriptor fd) = some io_error
error_of success = none
error_of (status st) = some io_error
error_of (entry name) = some io_error
error_of finished = some io_error
error_of (failure e) = some e

abbrev pub is_ok : Option ℕ → Bool
is_ok none = true
is_ok (some e) = false

unfoldable pub perform : Call → Kernel → Option ℕ × Kernel
unfolding made
perform c k = (error_of (first_answer k.answers), made c k)

pub data Found : Type 0 where
  found : Stat → Found
  lost : ℕ → Found

abbrev pub found_in : Answer → Found
found_in (descriptor fd) = lost io_error
found_in success = lost io_error
found_in (status st) = found st
found_in (entry name) = lost io_error
found_in finished = lost io_error
found_in (failure e) = lost e

unfoldable pub stat_call : Call → Kernel → Found × Kernel
unfolding made
stat_call c k = (found_in (first_answer k.answers), made c k)

-- !(mode & 077)
abbrev pub is_private : ℕ → Bool
is_private mode = mode % 64 == 0
