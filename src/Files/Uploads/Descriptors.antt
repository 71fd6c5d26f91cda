-- ===== src/Files/Uploads/Descriptors.antt =====
-- No operation on the uploads leaks a descriptor or closes one that it did not open.
use zimbr.Prelude.{
  if_both, ℕ, ◌+◌, ◌≡◌, refl, ◌∙◌, Bool, true, false, not, ◌||◌, Option, none, some, List, [], ◌∷◌,
  ltb, leb, if◌then◌else◌, bytes_eq,
}
use zimbr.Files.Kernel.{
  Bytes, Answer, Call, Kernel, made, open_call, close, error_of, is_ok, perform, Found, found, lost,
  stat_call, first_answer, descriptor, success, status, entry, finished, failure, open_at,
  create_at, make_directory, sync, status_of, status_at, rename, unlink, remove_directory,
  open_stream, read_entry,
}
use zimbr.Files.Descriptors.{IsKept, IsSame, close_first, open_call-IsKept, second_opened}
use zimbr.Files.Uploads.{
  is_dots, component, is_own_directory, checked, private_directory, synced, upload_directory,
  upload_temporary, upload_cap, is_own_file, regular_file, then_call, then_absent, upload_install,
  kept_file, opened_in, upload_open, clear, emptied, removed_at, upload_remove,
}

checked-IsKept :
    (before : List ℕ) (r : Option ℕ × Kernel) → IsKept before r → IsKept before (checked r)
unfolding stat_call made
checked-IsKept before (none, k) h = h
checked-IsKept before (some fd, k) h =
    let s = stat_call (status_of fd) k in
    if_both (IsKept before) (is_own_directory k.user s.0) (some fd, s.1) (none, close fd s.1) h
      (close_first fd k.fds before h)

private_directory-IsKept :
    (root : ℕ) (id : Bytes) (k : Kernel) → IsKept k.fds (private_directory root id k)
unfolding private_directory
private_directory-IsKept root id k =
    if_both (IsKept k.fds) (not (component id)) (none, k) (checked (open_call (open_at root id) k))
      refl
      (checked-IsKept k.fds (open_call (open_at root id) k) (open_call-IsKept (open_at root id) k))

synced-IsKept :
    (root : ℕ) (before : List ℕ) (r : Option ℕ × Kernel)
    → IsKept before r
    → IsKept before (synced root r)
unfolding perform made
synced-IsKept root before (none, k) h = h
synced-IsKept root before (some fd, k) h =
    let r = perform (sync root) k in
    if_both (IsKept before) (is_ok r.0) (some fd, r.1) (none, close fd r.1) h
      (close_first fd k.fds before h)

upload_directory-IsKept :
    (root : ℕ) (id : Bytes) (k : Kernel) → IsKept k.fds (upload_directory root id k)
unfolding upload_directory perform made
upload_directory-IsKept root id k =
    let r = perform (make_directory root id) k in
    if_both (IsKept k.fds) (not (component id)) (none, k)
      (if is_ok r.0 then synced root (private_directory root id r.1) else (none, r.1)) refl
      (if_both (IsKept k.fds) (is_ok r.0) (synced root (private_directory root id r.1)) (none, r.1)
        (synced-IsKept root k.fds (private_directory root id r.1)
          (private_directory-IsKept root id r.1))
        refl)

upload_temporary-IsKept :
    (directory : ℕ) (name : Bytes) (k : Kernel) → IsKept k.fds (upload_temporary directory name k)
unfolding upload_temporary
upload_temporary-IsKept directory name k =
    if_both (IsKept k.fds) (not (component name)) (none, k) (open_call (create_at directory name) k)
      refl (open_call-IsKept (create_at directory name) k)

regular_file-IsSame : (fd n : ℕ) (k : Kernel) → IsSame k.fds (regular_file fd n k)
unfolding regular_file stat_call made
regular_file-IsSame fd n k =
    let s = stat_call (status_of fd) k in
    if_both (IsSame k.fds) (leb n upload_cap) (is_own_file k.user n s.0, s.1) (false, k) refl refl

kept_file-IsKept :
    (n : ℕ) (before : List ℕ) (r : Option ℕ × Kernel)
    → IsKept before r
    → IsKept before (kept_file n r)
kept_file-IsKept n before (none, k) h = h
kept_file-IsKept n before (some fd, k) h =
    let r = regular_file fd n k in
    let same : r.1.fds ≡ fd ∷ before = regular_file-IsSame fd n k ∙ h in
    if_both (IsKept before) r.0 (some fd, r.1) (none, close fd r.1) same
      (close_first fd r.1.fds before same)

opened_in-IsKept :
    (name : Bytes) (n : ℕ) (before : List ℕ) (r : Option ℕ × Kernel)
    → IsKept before r
    → IsKept before (opened_in name n r)
unfolding open_call made
opened_in-IsKept name n before (none, k) h = h
opened_in-IsKept name n before (some directory, k) h =
    let r = open_call (open_at directory name) k in
    kept_file-IsKept n before (r.0, close directory r.1)
      (second_opened (first_answer k.answers) directory before (made (open_at directory name) k) h)

upload_open-IsKept :
    (root : ℕ) (id name : Bytes) (n : ℕ) (k : Kernel) → IsKept k.fds (upload_open root id name n k)
unfolding upload_open
upload_open-IsKept root id name n k =
    if_both (IsKept k.fds) (not (component name)) (none, k)
      (opened_in name n (private_directory root id k)) refl
      (opened_in-IsKept name n k.fds (private_directory root id k)
        (private_directory-IsKept root id k))

then_call-IsSame :
    (c : Call) (before : List ℕ) (r : Bool × Kernel)
    → IsSame before r
    → IsSame before (then_call c r)
unfolding perform made
then_call-IsSame c before (false, k) h = h
then_call-IsSame c before (true, k) h =
    let r = perform c k in if_both (IsSame before) (is_ok r.0) (true, r.1) (false, r.1) h h

then_absent-IsSame :
    (directory : ℕ) (name : Bytes) (before : List ℕ) (r : Bool × Kernel)
    → IsSame before r
    → IsSame before (then_absent directory name r)
unfolding stat_call made
then_absent-IsSame directory name before (false, k) h = h
then_absent-IsSame directory name before (true, k) h = h

upload_install-IsSame :
    (directory fd : ℕ) (temporary name : Bytes) (n : ℕ) (k : Kernel)
    → IsSame k.fds (upload_install directory fd temporary name n k)
unfolding upload_install
upload_install-IsSame directory fd temporary name n k =
    let file = then_call (sync fd) (regular_file fd n k) in
    let put = then_call (rename directory temporary name) (then_absent directory name file) in
    if_both (IsSame k.fds)
      (not (component temporary) || not (component name) || bytes_eq temporary name) (false, k)
      (then_call (sync directory) put) refl
      (then_call-IsSame (sync directory) k.fds put (
        then_call-IsSame (rename directory temporary name) k.fds (then_absent directory name file) (
          then_absent-IsSame directory name k.fds file
            (then_call-IsSame (sync fd) k.fds (regular_file fd n k) (regular_file-IsSame fd n k)))))

clear-IsSame :
    (answers : List Answer) (fd count : ℕ) (k : Kernel) → IsSame k.fds (clear answers fd count k)
unfolding clear made
clear-IsSame [] fd count k = refl
clear-IsSame (descriptor g ∷ as') fd count k = refl
clear-IsSame (success ∷ as') fd count k = refl
clear-IsSame (status st ∷ as') fd count k = refl
clear-IsSame (finished ∷ as') fd count k = refl
clear-IsSame (failure e ∷ as') fd count k = refl
clear-IsSame (entry name ∷ []) fd count k =
    let k' = made (read_entry fd) k in
    let late = if ltb 16 (count + 1) then (false, k') else (false, made (unlink fd name) k') in
    if_both (IsSame k.fds) (is_dots name) (false, made (read_entry fd) k') late refl
      (if_both (IsSame k.fds) (ltb 16 (count + 1)) (false, k') (false, made (unlink fd name) k')
        refl refl)
clear-IsSame (entry name ∷ a ∷ as') fd count k =
    let k' = made (read_entry fd) k in
    let gone = made (unlink fd name) k' in
    let next = clear (a ∷ as') fd count k' in
    let rest = clear as' fd (count + 1) gone in
    if_both (IsSame k.fds) (is_dots name) next
      (if ltb 16 (count + 1)
        then (false, k')
        else if is_ok (error_of a)
        then rest
        else (false, gone))
      (clear-IsSame (a ∷ as') fd count k')
      (if_both (IsSame k.fds) (ltb 16 (count + 1)) (false, k')
        (if is_ok (error_of a) then rest else (false, gone)) refl
        (if_both (IsSame k.fds) (is_ok (error_of a)) rest (false, gone)
          (clear-IsSame as' fd (count + 1) gone) refl))

emptied-IsSame :
    (root : ℕ) (id : Bytes) (before : List ℕ) (r : Option ℕ × Kernel)
    → IsKept before r
    → IsSame before (emptied root id r)
unfolding perform made
emptied-IsSame root id before (none, k) h = h
emptied-IsSame root id before (some fd, k) h =
    let r = perform (open_stream fd) k in
    let c = clear r.1.answers fd 0 r.1 in
    let closed = close_first fd c.1.fds before (clear-IsSame r.1.answers fd 0 r.1 ∙ h) in
    if_both (IsSame before) (is_ok r.0)
      (then_call (sync root) (then_call (remove_directory root id) (c.0, close fd c.1)))
      (false, close fd r.1)
      (then_call-IsSame (sync root) before
        (then_call (remove_directory root id) (c.0, close fd c.1))
        (then_call-IsSame (remove_directory root id) before (c.0, close fd c.1) closed))
      (close_first fd k.fds before h)

removed_at-IsSame :
    (root : ℕ) (id : Bytes) (st : Found) (k : Kernel) → IsSame k.fds (removed_at root id st k)
removed_at-IsSame root id (lost e) k = refl
removed_at-IsSame root id (found st) k =
    if_both (IsSame k.fds) (not st.is_directory) (false, k)
      (emptied root id (private_directory root id k)) refl
      (emptied-IsSame root id k.fds (private_directory root id k)
        (private_directory-IsKept root id k))

upload_remove-IsSame : (root : ℕ) (id : Bytes) (k : Kernel) → IsSame k.fds (upload_remove root id k)
unfolding upload_remove stat_call made
upload_remove-IsSame root id k =
    let s = stat_call (status_at root id) k in
    if_both (IsSame k.fds) (not (component id)) (false, k) (removed_at root id s.0 s.1) refl
      (removed_at-IsSame root id s.0 s.1)

-- Whatever the kernel answers, after each operation on the uploads the descriptors that are open
-- are those from before, with the one that the operation returned in front, if it returned one:
-- none is leaked on any path, and none that was open before is closed.
pub uploads-IsKept :
    (root directory fd : ℕ) (id temporary name : Bytes) (n : ℕ) (k : Kernel)
    → IsKept k.fds (upload_directory root id k)
      × IsKept k.fds (upload_temporary directory temporary k)
      × IsSame k.fds (upload_install directory fd temporary name n k)
      × IsKept k.fds (upload_open root id name n k)
      × IsSame k.fds (upload_remove root id k)
uploads-IsKept root directory fd id temporary name n k = (
  upload_directory-IsKept root id k,
  upload_temporary-IsKept directory temporary k,
  upload_install-IsSame directory fd temporary name n k,
  upload_open-IsKept root id name n k,
  upload_remove-IsSame root id k,
)
