-- ===== src/Files/Uploads/Install.antt =====
-- zr_upload_install of src/relay/uploads.c: what has happened when it succeeds.
use zimbr.Prelude.{
  ℕ, ◌≡◌, refl, ap, Bool, true, false, not, ◌||◌, [], ◌∷◌, List, ==_iff, leb, if◌then◌else◌,
  bytes_eq, Bool-cases, inl, inr,
}
use zimbr.Files.Kernel.{
  Bytes, Stat, Answer, Call, Kernel, made, is_ok, perform, found, found_in, stat_call, first_answer,
  later_answers, no_entry, descriptor, success, status, entry, finished, failure, sync, status_of,
  status_at, rename,
}
use zimbr.Files.Answered.{ok_answer, IsAfter, made-IsAfter, after}
use zimbr.Files.Uploads.{
  is_absent, component, upload_cap, is_own_file, regular_file, then_call, then_absent,
  upload_install, List,
}

-- an outcome that succeeded comes from the branch that can
else_true {ℓ} :
    {A : Type ℓ} (b : Bool) (s t : A) (x : Bool × A)
    → ◌≡◌ {A = Bool × A} (if b then (false, s) else x) (true, t)
    → (b ≡ false) × (x ≡ (true, t))
else_true true s t x h = cc
else_true false s t x h = (refl, h)

then_true {ℓ} :
    {A : Type ℓ} (b : Bool) (s t u : A)
    → ◌≡◌ {A = Bool × A} (if b then (true, u) else (false, s)) (true, t)
    → (b ≡ true) × (u ≡ t)
then_true true s t u h = (refl, ap (λ r. r.1) h)
then_true false s t u h = cc

absent_answer :
    (answers : List Answer)
    → is_absent (found_in (first_answer answers)) ≡ true
    → answers ≡ failure no_entry ∷ later_answers answers
absent_answer [] h = cc
absent_answer (failure e ∷ as') h = ap (λ x. failure x ∷ as') ((==_iff e no_entry).0 h)
absent_answer (success ∷ as') h = cc
absent_answer (descriptor fd ∷ as') h = cc
absent_answer (status st ∷ as') h = cc
absent_answer (entry name ∷ as') h = cc
absent_answer (finished ∷ as') h = cc

own_answer :
    (user n : ℕ) (answers : List Answer)
    → is_own_file user n (found_in (first_answer answers)) ≡ true
    → (st : Stat) × (answers ≡ status st ∷ later_answers answers)
      × (is_own_file user n (found st) ≡ true)
own_answer user n [] h = cc
own_answer user n (status st ∷ as') h = (st, refl, h)
own_answer user n (descriptor fd ∷ as') h = cc
own_answer user n (success ∷ as') h = cc
own_answer user n (entry name ∷ as') h = cc
own_answer user n (finished ∷ as') h = cc
own_answer user n (failure e ∷ as') h = cc

-- A step that succeeded follows one that did, and its call succeeded.
then_call-true :
    (c : Call) (r : Bool × Kernel) (k : Kernel)
    → then_call c r ≡ (true, k)
    → (r ≡ (true, r.1)) × IsAfter c success r.1 k
unfolding perform
then_call-true c (false, j) k h = cc
then_call-true c (true, j) k h =
    let r = perform c j in
    let t = then_true (is_ok r.0) r.1 k r.1 h in
    (refl, made-IsAfter c success j k t.1 (ok_answer j.answers t.0))

then_absent-true :
    (directory : ℕ) (name : Bytes) (r : Bool × Kernel) (k : Kernel)
    → then_absent directory name r ≡ (true, k)
    → (r ≡ (true, r.1)) × IsAfter (status_at directory name) (failure no_entry) r.1 k
unfolding stat_call
then_absent-true directory name (false, j) k h = cc
then_absent-true directory name (true, j) k h = (
  refl,
  made-IsAfter (status_at directory name) (failure no_entry) j k (ap (λ r. r.1) h)
      (absent_answer j.answers (ap (λ r. r.0) h)),
)

regular_file-true :
    (fd n : ℕ) (k k' : Kernel)
    → regular_file fd n k ≡ (true, k')
    → (leb n upload_cap ≡ true)
      × ((st : Stat) × IsAfter (status_of fd) (status st) k k'
          × (is_own_file k.user n (found st) ≡ true))
unfolding regular_file stat_call
regular_file-true fd n k k' h = elim (Bool-cases (leb n upload_cap)) [
  | inl e ↦
      let g : (is_own_file k.user n (found_in (first_answer k.answers)), made (status_of fd) k)
          ≡ (true, k') =
        (rw e at h) in
      let own = own_answer k.user n k.answers (ap (λ r. r.0) g) in
      (e, (own.0, made-IsAfter (status_of fd) (status own.0) k k' (ap (λ r. r.1) g) own.1, own.2))
  | inr e ↦ absurd (never k k' (rw e at h))
]
  where
    never : (s t : Kernel) → ◌≡◌ {A = Bool × Kernel} (false, s) (true, t) → ⊥
    never s t e = cc

good_names : (x y z : Bool) → not x || not y || z ≡ false → (x ≡ true) × (y ≡ true)
good_names true true z g = (refl, refl)
good_names true false z g = cc
good_names false y z g = cc

-- When an install reports success: both names are single components, the length is at most 100 MiB,
-- and the calls were, in this order, the status of the file, which was a regular one of the user,
-- with one link, closed to others and of exactly that length, the sync of the file, which succeeded,
-- the look for the name, which found none, the rename, which succeeded, and the sync of the
-- directory, which succeeded.
pub upload_install-true :
    (directory fd : ℕ) (temporary name : Bytes) (n : ℕ) (k k' : Kernel)
    → upload_install directory fd temporary name n k ≡ (true, k')
    → (component temporary ≡ true)
      × (component name ≡ true)
      × (leb n upload_cap ≡ true)
      × ((st : Stat) × (k.answers
            ≡ status st ∷ success ∷ failure no_entry ∷ success ∷ success ∷ k'.answers)
          × (is_own_file k.user n (found st) ≡ true))
      × (k'.calls
          ≡ sync directory
            ∷ rename directory temporary name
            ∷ status_at directory name
            ∷ sync fd
            ∷ status_of fd
            ∷ k.calls)
unfolding upload_install
upload_install-true directory fd temporary name n k k' h =
    let file = regular_file fd n k in
    let synced = then_call (sync fd) file in
    let looked = then_absent directory name synced in
    let put = then_call (rename directory temporary name) looked in
    let bad = not (component temporary) || not (component name) || bytes_eq temporary name in
    let start = else_true bad k k' (then_call (sync directory) put) h in
    let a = then_call-true (sync directory) put k' start.1 in
    let b = then_call-true (rename directory temporary name) looked put.1 a.0 in
    let c = then_absent-true directory name synced looked.1 b.0 in
    let d = then_call-true (sync fd) file synced.1 c.0 in
    let e = regular_file-true fd n k file.1 d.0 in
    let names =
      good_names (component temporary) (component name) (bytes_eq temporary name) start.0 in
    let first = e.1.1 in
    (
      names.0,
      names.1,
      e.0,
      (
        e.1.0,
        after (status e.1.0) first.answers (
            after success d.1.answers
              (after (failure no_entry) c.1.answers (after success b.1.answers a.1.answers))),
        e.1.2,
      ),
      after (sync directory) a.1.calls (
          after (rename directory temporary name) b.1.calls
            (after (status_at directory name) c.1.calls (after (sync fd) d.1.calls first.calls))),
    )
