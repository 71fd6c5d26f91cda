-- ===== src/Wayland/Safety.antt =====
-- The offers stay sound under each write: what is destroyed is gone, and what is kept is alive.
pub mod Device
pub mod Enter
pub mod Globals
pub mod Session
use zimbr.Prelude.{
  ℕ, ◌≡◌, ◌≢◌, refl, sym, ◌∙◌, ap, subst, Bool, true, false, ◌||◌, Option, none, some, List, [],
  ◌∷◌, ◌==◌, ==_iff, if◌then◌else◌, Bool-cases, Option-cases, some_inj, inl, inr, arith,
}
use zimbr.Wayland.State.{
  Offer, Transfer, Request, State, find, unlink, update, is_drag, destroy_offer,
}
use zimbr.Wayland.Offers.{
  has, IsDistinct, member, subject, destroys, is_destroyed, IsLive, IsClean, has-unlink,
  IsDistinct-unlink, has-update, IsDistinct-update, find-has,
}

-- `seen` are the proxies that were introduced, `named` those that an enter or a selection named,
-- `held` is the offer of the transfer.
pub record IsSafe (seen named : List ℕ) (held : Option ℕ) (offers : List Offer) (drag : Option ℕ)
    (requests : List Request) : Type 0 where
  pub clean : IsClean requests
  pub live : (p : ℕ) → has p offers ≡ true → is_destroyed p requests ≡ false
  pub distinct : IsDistinct offers
  pub known : (p : ℕ) → has p offers ≡ true → member p seen ≡ true
  pub gone : (p : ℕ) → is_destroyed p requests ≡ true → member p seen ≡ true
  pub dragged :
      (p : ℕ) → drag ≡ some p → (has p offers ≡ true) × (member p named ≡ true) × (held ≢ some p)
  pub kept : (p : ℕ) → held ≡ some p → (has p offers ≡ true) × (member p named ≡ true)

abbrev pub held_by : Option Transfer → Option ℕ
held_by none = none
held_by (some t) = some t.offer

abbrev pub IsSound : List ℕ → List ℕ → State → Type 0
IsSound seen named s = IsSafe seen named (held_by s.transfer) s.offers s.drag s.requests

-- the drag after destroy_offer(p)
clear_drag :
    (drag : Option ℕ) (p q : ℕ)
    → (if is_drag drag p then none else drag) ≡ some q
    → (drag ≡ some q) × (p ≢ q)
clear_drag none p q h = cc
clear_drag (some r) p q h = elim (Bool-cases (r == p)) [
  | inl e ↦ (let k : Option.none ≡ some q = (rw e at h) in cc)
  | inr e ↦
      let k : Option.some r ≡ some q = (rw e at h) in
      (k, λ pq. (let c : (r == p) ≡ true = (==_iff r p).1 (some_inj k ∙ sym pq) in cc))
]

module _ {seen named : List ℕ} {held : Option ℕ} {offers : List Offer} {drag : Option ℕ}
    {requests : List Request} (s : IsSafe seen named held offers drag requests) where
  -- destroy_offer, with the transfer that is held afterwards
  pub destroy-IsSafe :
      (p : ℕ) (after : Option ℕ)
      → has p offers ≡ true
      → ((q : ℕ) → after ≡ some q → (held ≡ some q) × (p ≢ q))
      → IsSafe seen named after
          (unlink p offers)
          (if is_drag drag p then none else drag)
          (Request.destroy p ∷ requests)
  unfolding is_destroyed
  destroy-IsSafe p after there other = record {
    clean = (s.live p there, s.clean);
    live = λ q h. still_live q h (s.live q (left_over q h));
    distinct = IsDistinct-unlink p offers s.distinct;
    known = λ q h. s.known q (left_over q h);
    gone = λ q h. destroyed_seen q h;
    dragged = λ q h.
        let c = clear_drag drag p q h in
        let d = s.dragged q c.0 in (left_in q d.0 c.1, d.1, λ e. d.2 (other q e).0);
    kept = λ q h. (left_in q (s.kept q (other q h).0).0 (other q h).1, (s.kept q (other q h).0).1);
  }
    where
      left_over : (q : ℕ) → has q (unlink p offers) ≡ true → has q offers ≡ true
      left_over q h = let e = has-unlink p q offers s.distinct in ground arith

      left_in : (q : ℕ) → has q offers ≡ true → p ≢ q → has q (unlink p offers) ≡ true
      left_in q h ne = let e = has-unlink p q offers s.distinct in ground arith

      still_live :
          (q : ℕ)
          → has q (unlink p offers) ≡ true
          → is_destroyed q requests ≡ false
          → is_destroyed q (Request.destroy p ∷ requests) ≡ false
      still_live q h k = let e = has-unlink p q offers s.distinct in ground arith

      destroyed_seen :
          (q : ℕ) → is_destroyed q (Request.destroy p ∷ requests) ≡ true → member q seen ≡ true
      destroyed_seen q h = elim (Bool-cases (p == q)) [
        | inl e ↦ subst (λ k. member k seen ≡ true) ((==_iff p q).0 e) (s.known p there)
        | inr e ↦ s.gone q (rw e at h)
      ]

  -- any other request, on an offer that is alive or on none
  pub request-IsSafe :
      (r : Request)
      → IsLive (subject r) requests
      → ((q : ℕ) → destroys q r ≡ false)
      → IsSafe seen named held offers drag (r ∷ requests)
  unfolding is_destroyed
  request-IsSafe r fits keeps = record {
    clean = (fits, s.clean);
    live = λ q h. rw (keeps q) (s.live q h);
    distinct = s.distinct;
    known = s.known;
    gone = λ q h. s.gone q (rw (keeps q) at h);
    dragged = s.dragged;
    kept = s.kept;
  }

  -- a listener's write to an offer
  pub update-IsSafe :
      (f : Offer → Offer) (p : ℕ)
      → ((o : Offer) → (f o).proxy ≡ o.proxy)
      → IsSafe seen named held (update f p offers) drag requests
  update-IsSafe f p keeps = record {
    clean = s.clean;
    live = λ q h. s.live q (sym (has-update f keeps p q offers) ∙ h);
    distinct = IsDistinct-update f keeps p offers s.distinct;
    known = λ q h. s.known q (sym (has-update f keeps p q offers) ∙ h);
    gone = s.gone;
    dragged = λ q h. let d = s.dragged q h in (has-update f keeps p q offers ∙ d.0, d.1, d.2);
    kept = λ q h. let d = s.kept q h in (has-update f keeps p q offers ∙ d.0, d.1);
  }

  new_absent : (p : ℕ) → member p seen ≡ false → has p offers ≡ false
  new_absent p new = elim (Bool-cases (has p offers)) [
    | inl h ↦ (let k : member p seen ≡ true = s.known p h in cc)
    | inr h ↦ h
  ]

  new_undestroyed : (p : ℕ) → member p seen ≡ false → is_destroyed p requests ≡ false
  new_undestroyed p new = elim (Bool-cases (is_destroyed p requests)) [
    | inl h ↦ (let k : member p seen ≡ true = s.gone p h in cc)
    | inr h ↦ h
  ]

  -- a new offer that is kept
  pub introduce-IsSafe :
      (o : Offer)
      → member o.proxy seen ≡ false
      → IsSafe (o.proxy ∷ seen) named held (o ∷ offers) drag requests
  unfolding has
  introduce-IsSafe o new = record {
    clean = s.clean;
    live = λ q h. first_live q h;
    distinct = (new_absent o.proxy new, s.distinct);
    known = λ q h. first_known q h;
    gone = λ q h. let k = s.gone q h in ground arith;
    dragged = λ q h. let d = s.dragged q h in (ground arith, d.1, d.2);
    kept = λ q h. let d = s.kept q h in (ground arith, d.1);
  }
    where
      first_live : (q : ℕ) → has q (o ∷ offers) ≡ true → is_destroyed q requests ≡ false
      first_live q h = elim (Bool-cases (o.proxy == q)) [
        | inl e ↦
            subst (λ k. is_destroyed k requests ≡ false) ((==_iff o.proxy q).0 e)
              (new_undestroyed o.proxy new)
        | inr e ↦ s.live q (rw e at h)
      ]

      first_known : (q : ℕ) → has q (o ∷ offers) ≡ true → member q (o.proxy ∷ seen) ≡ true
      first_known q h = elim (Bool-cases (o.proxy == q)) [
        | inl e ↦ rw e refl
        | inr e ↦ rw e (s.known q (rw e at h))
      ]

  -- a new offer that is refused
  pub refuse-IsSafe :
      (p : ℕ)
      → member p seen ≡ false
      → IsSafe (p ∷ seen) named held offers drag (Request.destroy p ∷ requests)
  unfolding is_destroyed
  refuse-IsSafe p new = record {
    clean = (new_undestroyed p new, s.clean);
    live = λ q h. others_live q h (s.live q h) (s.known q h);
    distinct = s.distinct;
    known = λ q h. let k = s.known q h in ground arith;
    gone = λ q h. let k = s.gone q in ground arith;
    dragged = s.dragged;
    kept = s.kept;
  }
    where
      others_live :
          (q : ℕ)
          → has q offers ≡ true
          → is_destroyed q requests ≡ false
          → member q seen ≡ true
          → is_destroyed q (Request.destroy p ∷ requests) ≡ false
      others_live q h k m = elim (Bool-cases (p == q)) [
        | inl e ↦
            (let c : member p seen ≡ true =
                subst (λ k. member k seen ≡ true) (sym ((==_iff p q).0 e)) m in
              cc)
        | inr e ↦ rw e k
      ]
