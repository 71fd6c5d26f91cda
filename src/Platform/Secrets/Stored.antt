-- ===== src/Platform/Secrets/Stored.antt =====
-- The private files of src/platform.c: what was stored, and the random bytes.
use zimbr.Prelude.{
  ℕ, ◌≤◌, ◌≡◌, refl, sym, subst, ◌∙◌, ap, Bool, true, false, Option, none, some, List, [], ◌∷◌,
  if◌then◌else◌, length, take,
}
use mathlib.Core.List.{append-nil}
use zimbr.Files.Kernel.{
  Answer, first_answer, descriptor, success, status, entry, finished, failure, Bytes, Call, Kernel,
  Stat, found, found_in, later_answers, write, made, open_call, close, perform, stat_call, open_at,
  create_at, replace_at, change_mode, sync, status_of,
}
use zimbr.Files.Answered.{ok_answer, IsAfter, after, open_call-IsAfter}
use zimbr.Files.Read.{
  Fetch, read_all, IsRead, read_all-IsRead, gives_count, IsFine, IsDone, read_all-IsDone,
}
use zimbr.Files.Write.{IsWritten, write_all-IsWritten}
use zimbr.Net.Receive
use zimbr.Net.Receive.{write_all}
use zimbr.Cache.{working_directory}
use zimbr.Platform.Secrets.{
  is_own_regular, private_mode, log_write, stored, secured, secure_file, random_path, bytes_of,
  random_in, random,
}

private_mode-true :
    (fd : ℕ) (b : Bool) (k : Kernel)
    → (private_mode fd b k).0 ≡ true
    → (b ≡ true) × IsAfter (change_mode fd 384) success k (private_mode fd b k).1
unfolding perform made
private_mode-true fd true k h = (refl, record { calls = refl; answers = ok_answer k.answers h })
private_mode-true fd false k h = cc

-- what was written is all of the content, where the write succeeded
pub written_whole :
    (content : Bytes) (w : Bool × Bytes) → IsWritten content [] w → w.0 ≡ true → w.1 ≡ content
written_whole content (true, file) (sent, [], e, f, g) h = f ∙ sym (append-nil sent) ∙ sym e
written_whole content (true, file) (sent, c ∷ left, e, f, g) h = cc
written_whole content (false, file) w h = cc

stored-true :
    (fd : ℕ) (w : Bool × Bytes) (k : Kernel)
    → (stored fd w k).0 ≡ true
    → (w.0 ≡ true) × IsAfter (sync fd) success (log_write fd w.1 k) (stored fd w k).1
unfolding perform made
stored-true fd (true, file) k h = (refl, record { calls = refl; answers = ok_answer k.answers h })
stored-true fd (false, file) k h = cc

own_regular_answer :
    (user : ℕ) (answers : List Answer)
    → is_own_regular user (found_in (first_answer answers)) ≡ true
    → (st : Stat) × (answers ≡ status st ∷ later_answers answers)
      × (is_own_regular user (found st) ≡ true)
own_regular_answer user [] h = cc
own_regular_answer user (status st ∷ as') h = (st, refl, h)
own_regular_answer user (descriptor fd ∷ as') h = cc
own_regular_answer user (success ∷ as') h = cc
own_regular_answer user (entry name ∷ as') h = cc
own_regular_answer user (finished ∷ as') h = cc
own_regular_answer user (failure e ∷ as') h = cc

stat_own :
    (user fd : ℕ) (k : Kernel)
    → is_own_regular user (stat_call (status_of fd) k).0 ≡ true
    → (st : Stat) × IsAfter (status_of fd) (status st) k (stat_call (status_of fd) k).1
      × (is_own_regular user (found st) ≡ true)
unfolding stat_call made
stat_own user fd k h =
    let own = own_regular_answer user k.answers h in
    (own.0, record { calls = refl; answers = own.1 }, own.2)

good_branch :
    (good : Bool) (r : Bool × Kernel) (file : Option Bytes) (k : Kernel)
    → (let x : (Bool × Option Bytes) × Kernel =
          if good then ((r.0, file), r.1) else ((false, none), k) in
        x.0.0 ≡ true)
    → (good ≡ true) × (r.0 ≡ true)
good_branch true r file k h = (refl, h)
good_branch false r file k h = cc

-- a secret that was stored through the descriptor that `call` opened
pub record IsStored (content : Bytes) (call : Call) (k : Kernel)
    (r : (Bool × Option Bytes) × Kernel) : Type 0 where
  pub fd : ℕ
  pub stat : Stat
  pub file : r.0.1 ≡ some content
  pub own : is_own_regular k.user (found stat) ≡ true
  pub calls :
      r.1.calls ≡ sync fd ∷ write fd content ∷ change_mode fd 384 ∷ status_of fd ∷ call ∷ k.calls
  pub answers : k.answers ≡ descriptor fd ∷ status stat ∷ success ∷ success ∷ r.1.answers

secured-true :
    (answers : List Receive.Answer) (content : Bytes) (c : Call) (k : Kernel)
    (o : Option ℕ × Kernel)
    → open_call c k ≡ o
    → (secured answers content o).0.0 ≡ true
    → IsStored content c k (secured answers content o)
secured-true answers content c k (none, j) e h = cc
secured-true answers content c k (some fd, j) e h =
    let s = stat_call (status_of fd) j in
    let own = is_own_regular j.user s.0 in
    let m = private_mode fd own s.1 in
    let w = write_all answers content [] in
    let first = open_call-IsAfter c fd k j e in
    let good = good_branch m.0 (stored fd w m.1) (some w.1) (close fd m.1) h in
    let t = private_mode-true fd own s.1 good.0 in
    let u = stored-true fd w m.1 good.1 in
    let v = stat_own j.user fd j t.0 in
    let whole = written_whole content w (write_all-IsWritten answers content []) u.0 in
    rw good.0 (record {
      fd = fd;
      stat = v.0;
      file = ap some whole;
      own = subst (λ user. is_own_regular user (found v.0) ≡ true) (sym first.1) v.2;
      calls = after (sync fd) u.1.calls (
          ap (λ file. write fd file ∷ m.1.calls) whole
          ∙ ap (λ cs. write fd content ∷ cs)
              (after (change_mode fd 384) t.1.calls
                (after (status_of fd) v.1.calls first.0.calls)));
      answers =
          after (descriptor fd) first.0.answers
            (after (status v.0) v.1.answers (after success t.1.answers u.1.answers));
    })

abbrev pub opening : Bytes → Bool → Call
opening path replace =
    if replace then replace_at working_directory path else create_at working_directory path

-- A write of a secret that succeeds opened the path, to replace a file or to create one, as it was
-- told, and the answer was a regular file of the user's; then, in this order, the file was made
-- private, exactly the content was written, and the file was synced, where the change of the mode
-- and the sync succeeded.
pub secure_file-IsStored :
    (path content : Bytes) (replace : Bool) (answers : List Receive.Answer) (k : Kernel)
    → (secure_file path content replace answers k).0.0 ≡ true
    → IsStored content (opening path replace) k (secure_file path content replace answers k)
unfolding secure_file
secure_file-IsStored path content replace answers k h =
    let c = opening path replace in secured-true answers content c k (open_call c k) refl h

bytes_of-take :
    (n : ℕ) (source : Bytes) (r : Option (Bytes × List Fetch))
    → IsRead n source [] r
    → IsDone r
    → bytes_of r ≡ some (take n source)
bytes_of-take n source none h d = elim d [ ]
bytes_of-take n source (some (b, left)) h d = ap some h.0

random_in-take :
    (n fd : ℕ) (answers : List Fetch) (source : Bytes) (r : Option ℕ × Kernel)
    → r.0 ≡ some fd
    → IsDone (read_all answers n source [])
    → (random_in n answers source r).0 ≡ some (take n source)
random_in-take n fd answers source (none, k) o d = cc
random_in-take n fd answers source (some g, k) o d =
    bytes_of-take n source (read_all answers n source []) (read_all-IsRead answers n source []) d

-- Where as many reads give something as bytes are wanted, the others are interrupted, and the
-- device opens, the call gives exactly the number of bytes that is wanted, the first that the
-- device has.
pub random-take :
    (n fd : ℕ) (answers : List Fetch) (source : Bytes) (k : Kernel)
    → (open_call (open_at working_directory random_path) k).0 ≡ some fd
    → n ≤ length source
    → n ≤ gives_count answers
    → IsFine answers
    → (random n answers source k).0 ≡ some (take n source)
unfolding random
random-take n fd answers source k o l g f =
    random_in-take n fd answers source (open_call (open_at working_directory random_path) k) o
      (read_all-IsDone answers n source [] l g f)
