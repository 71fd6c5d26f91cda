-- ===== src/Files/Descriptors.antt =====
-- The descriptors of the private files: those that are open after a call, and after a close.
use zimbr.Prelude.{
  subst, ℕ, ◌≡◌, refl, sym, ◌∙◌, ap, Option, none, some, List, ◌∷◌, ◌==◌, ==_iff, Bool-cases, inl,
  inr, arith,
}
use zimbr.Files.Kernel.{
  Answer, Call, Kernel, made, opened, open_call, close_fd, close, first_answer, descriptor, success,
  status, entry, finished, failure,
}

-- What is open after an operation: what was before, and the descriptor that it returns.
abbrev pub IsKept : List ℕ → Option ℕ × Kernel → Type 0
IsKept before (none, k) = k.fds ≡ before
IsKept before (some fd, k) = k.fds ≡ fd ∷ before

-- What is open after an operation that returns no descriptor.
abbrev pub IsSame {ℓ} : {A : Type ℓ} → List ℕ → A × Kernel → Type 0
IsSame before r = r.1.fds ≡ before

pub close_first : (fd : ℕ) (fds before : List ℕ) → fds ≡ fd ∷ before → close_fd fd fds ≡ before
unfolding close_fd
close_first fd fds before e = rw e (ground arith)

pub close_second : (fd g : ℕ) (before : List ℕ) → close_fd g (fd ∷ g ∷ before) ≡ fd ∷ before
unfolding close_fd
close_second fd g before = elim (Bool-cases (fd == g)) [
  | inl h ↦ rw h (ap (λ x. x ∷ before) (sym ((==_iff fd g).0 h)))
  | inr h ↦ rw h (ground arith)
]

opened-IsKept : (a : Answer) (k : Kernel) → IsKept k.fds (opened a k)
opened-IsKept (descriptor fd) k = refl
opened-IsKept success k = refl
opened-IsKept (status st) k = refl
opened-IsKept (entry name) k = refl
opened-IsKept finished k = refl
opened-IsKept (failure e) k = refl

pub open_call-IsKept : (c : Call) (k : Kernel) → IsKept k.fds (open_call c k)
unfolding open_call made
open_call-IsKept c k = opened-IsKept (first_answer k.answers) (made c k)

-- the file is open, and the directory is closed
pub second_opened :
    (a : Answer) (directory : ℕ) (before : List ℕ) (k : Kernel)
    → k.fds ≡ directory ∷ before
    → IsKept before ((opened a k).0, close directory (opened a k).1)
second_opened (descriptor fd) directory before k h =
    ap (λ fds. close_fd directory (fd ∷ fds)) h ∙ close_second fd directory before
second_opened success directory before k h = close_first directory k.fds before h
second_opened (status st) directory before k h = close_first directory k.fds before h
second_opened (entry name) directory before k h = close_first directory k.fds before h
second_opened finished directory before k h = close_first directory k.fds before h
second_opened (failure e) directory before k h = close_first directory k.fds before h

-- a call that opens in a directory, which is closed after it
pub open_second :
    (c : Call) (directory : ℕ) (before : List ℕ) (k : Kernel)
    → k.fds ≡ directory ∷ before
    → IsKept before ((open_call c k).0, close directory (open_call c k).1)
unfolding open_call made
open_second c directory before k h =
    second_opened (first_answer k.answers) directory before (made c k) h

-- a call that opens beside descriptors that are known
pub open_beside :
    (c : Call) (before : List ℕ) (k : Kernel) → k.fds ≡ before → IsKept before (open_call c k)
open_beside c before k h = subst (λ fds. IsKept fds (open_call c k)) h (open_call-IsKept c k)
