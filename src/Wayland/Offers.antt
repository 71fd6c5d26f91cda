-- ===== src/Wayland/Offers.antt =====
-- The list of offers by the proxies that it holds, and the log of requests by those it destroyed.
use zimbr.Prelude.{
  ℕ, ◌≡◌, refl, subst, Bool, true, false, ◌||◌, Option, none, some, List, [], ◌∷◌, ◌==◌, ==_iff,
  if◌then◌else◌, Bool-cases, inl, inr, arith,
}
use zimbr.Wayland.State.{Offer, Request, find, unlink, update}

unfoldable pub has : ℕ → List Offer → Bool
has p [] = false
has p (o ∷ os) = (o.proxy == p) || has p os

abbrev pub IsDistinct : List Offer → Type 0
IsDistinct [] = Unit
IsDistinct (o ∷ os) = (has o.proxy os ≡ false) × IsDistinct os

abbrev pub member : ℕ → List ℕ → Bool
member p [] = false
member p (q ∷ qs) = (q == p) || member p qs

-- the offer that a request is sent on
abbrev pub subject : Request → Option ℕ
subject (Request.accept p a) = some p
subject (Request.set_actions p a) = some p
subject (Request.receive p fd) = some p
subject (Request.finish p) = some p
subject (Request.destroy p) = some p
subject (Request.free_device v) = none
subject Request.free_seat = none
subject Request.free_manager = none
subject Request.free_activation = none

abbrev pub destroys : ℕ → Request → Bool
destroys p (Request.accept q a) = false
destroys p (Request.set_actions q a) = false
destroys p (Request.receive q fd) = false
destroys p (Request.finish q) = false
destroys p (Request.destroy q) = q == p
destroys p (Request.free_device v) = false
destroys p Request.free_seat = false
destroys p Request.free_manager = false
destroys p Request.free_activation = false

unfoldable pub is_destroyed : ℕ → List Request → Bool
is_destroyed p [] = false
is_destroyed p (r ∷ rs) = destroys p r || is_destroyed p rs

abbrev pub IsLive : Option ℕ → List Request → Type 0
IsLive none rs = Unit
IsLive (some p) rs = is_destroyed p rs ≡ false

-- no request was sent on an offer that was destroyed before, and none was destroyed twice
abbrev pub IsClean : List Request → Type 0
IsClean [] = Unit
IsClean (r ∷ rs) = IsLive (subject r) rs × IsClean rs

pub has-unlink :
    (p q : ℕ) (os : List Offer)
    → IsDistinct os
    → has q (unlink p os) ≡ (if p == q then false else has q os)
unfolding has unlink
has-unlink p q [] d = ground arith
has-unlink p q (o ∷ os) d =
    let same : (o.proxy ≡ q) → has q os ≡ false = λ e. subst (λ k. has k os ≡ false) e d.0 in
    ground (arith, has-unlink p q os d.1, same)

pub IsDistinct-unlink : (p : ℕ) (os : List Offer) → IsDistinct os → IsDistinct (unlink p os)
unfolding unlink
IsDistinct-unlink p [] d = tt
IsDistinct-unlink p (o ∷ os) d =
    ground (arith, has-unlink p o.proxy os d.1, IsDistinct-unlink p os d.1)

module _ (f : Offer → Offer) (keeps : (o : Offer) → (f o).proxy ≡ o.proxy) where
  pub has-update : (p q : ℕ) (os : List Offer) → has q (update f p os) ≡ has q os
  unfolding has update
  has-update p q [] = refl
  has-update p q (o ∷ os) = ground (arith, has-update p q os, keeps o)

  pub IsDistinct-update : (p : ℕ) (os : List Offer) → IsDistinct os → IsDistinct (update f p os)
  unfolding update
  IsDistinct-update p [] d = tt
  IsDistinct-update p (o ∷ os) d =
      ground (arith, has-update p o.proxy os, keeps o, IsDistinct-update p os d.1)

pub find-has :
    (p : ℕ) (os : List Offer) (o : Offer) → find p os ≡ some o → (o.proxy ≡ p) × (has p os ≡ true)
unfolding find has
find-has p [] o h = cc
find-has p (k ∷ os) o h = ground (arith, find-has p os o)

pub has-find :
    (p : ℕ) (os : List Offer) → has p os ≡ true → (o : Offer) × (find p os ≡ some o) × (o.proxy ≡ p)
unfolding find has
has-find p [] h = cc
has-find p (k ∷ os) h = elim (Bool-cases (k.proxy == p)) [
  | inl e ↦ rw e (k, refl, (==_iff k.proxy p).0 e)
  | inr e ↦ let rest : has p os ≡ true = ground arith in rw e (has-find p os rest)
]
