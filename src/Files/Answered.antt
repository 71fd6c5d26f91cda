-- ===== src/Files/Answered.antt =====
-- The calls of the private files with the answers that they took.
use zimbr.Prelude.{ℕ, ◌≡◌, refl, sym, ◌∙◌, ap, true, [], ◌∷◌, some, List}
use zimbr.Files.Kernel.{
  Answer, Call, Kernel, made, is_ok, first_answer, opened, open_call, later_answers, error_of,
  descriptor, success, status, entry, finished, failure,
}

-- the answers before a call that took one
pub ok_answer :
    (answers : List Answer)
    → is_ok (error_of (first_answer answers)) ≡ true
    → answers ≡ success ∷ later_answers answers
ok_answer [] h = cc
ok_answer (success ∷ as') h = refl
ok_answer (descriptor fd ∷ as') h = cc
ok_answer (status st ∷ as') h = cc
ok_answer (entry name ∷ as') h = cc
ok_answer (finished ∷ as') h = cc
ok_answer (failure e ∷ as') h = cc

-- `k` is `j` after a call with its answer
pub record IsAfter (c : Call) (a : Answer) (j k : Kernel) : Type 0 where
  pub calls : k.calls ≡ c ∷ j.calls
  pub answers : j.answers ≡ a ∷ k.answers

pub made-IsAfter :
    (c : Call) (a : Answer) (j k : Kernel)
    → made c j ≡ k
    → j.answers ≡ a ∷ later_answers j.answers
    → IsAfter c a j k
unfolding made
made-IsAfter c a j k e h = record {
  calls = sym (ap (λ k. k.calls) e);
  answers = h ∙ ap (λ k. a ∷ k.answers) e;
}

-- one call more, with those before it
pub after {ℓ} : {A : Type ℓ} (c : A) {cs ds es : List A} → cs ≡ c ∷ ds → ds ≡ es → cs ≡ c ∷ es
after c h g = h ∙ ap (λ cs. c ∷ cs) g

-- a call that opened a descriptor
with_descriptor :
    (fd : ℕ) (answers : List Answer) (m k : Kernel)
    → opened (first_answer answers) m ≡ (some fd, k)
    → (answers ≡ descriptor fd ∷ later_answers answers)
      × (m.calls ≡ k.calls)
      × (m.answers ≡ k.answers)
      × (m.user ≡ k.user)
with_descriptor fd [] m k h = cc
with_descriptor fd (descriptor g ∷ as') m k h =
    let same : g ≡ fd = cc in
    (
      ap (λ x. descriptor x ∷ as') same,
      ap (λ r. r.1.calls) h,
      ap (λ r. r.1.answers) h,
      ap (λ r. r.1.user) h,
    )
with_descriptor fd (success ∷ as') m k h = cc
with_descriptor fd (status st ∷ as') m k h = cc
with_descriptor fd (entry name ∷ as') m k h = cc
with_descriptor fd (finished ∷ as') m k h = cc
with_descriptor fd (failure e ∷ as') m k h = cc

pub open_call-IsAfter :
    (c : Call) (fd : ℕ) (j k : Kernel)
    → open_call c j ≡ (some fd, k)
    → IsAfter c (descriptor fd) j k × (j.user ≡ k.user)
unfolding open_call made
open_call-IsAfter c fd j k h =
    let o = with_descriptor fd j.answers (made c j) k h in
    (record { calls = sym o.1; answers = o.0 ∙ ap (λ as'. descriptor fd ∷ as') o.2 }, o.3)
