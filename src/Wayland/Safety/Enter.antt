-- ===== src/Wayland/Safety/Enter.antt =====
-- Entering an offer and the clipboard's selection keep the offers sound.
use zimbr.Prelude.{
  ℕ, ◌≡◌, ◌≢◌, refl, sym, ◌∙◌, ap, subst, Bool, true, false, Option, none, some, List, [], ◌∷◌,
  ◌++◌, ◌==◌, ==_iff, leb, Bool-cases, Option-cases, some_inj, inl, inr, arith,
}
use zimbr.Wayland.State.{Offer, Request, State, find, destroy_offer, set_hovered}
use zimbr.Wayland.Device.{accepts, proxy_of, enter_offer, enter, selection}
use zimbr.Wayland.Offers.{has, member, is_destroyed, find-has}
use zimbr.Wayland.Safety.{IsSafe, held_by, IsSound, request-IsSafe}
use zimbr.Wayland.Safety.Device.{if_holds, destroy_offer-IsSound, destroy_drag-IsSound, held_other}

module _ {seen named : List ℕ} where
  pub name-IsSafe :
      {held : Option ℕ} {offers : List Offer} {drag : Option ℕ} {requests : List Request} (p : ℕ)
      → IsSafe seen named held offers drag requests
      → IsSafe seen (p ∷ named) held offers drag requests
  name-IsSafe p safe = record {
    clean = safe.clean;
    live = safe.live;
    distinct = safe.distinct;
    known = safe.known;
    gone = safe.gone;
    dragged = λ q e. let d = safe.dragged q e in (d.0, name_more q d.1, d.2);
    kept = λ q e. let d = safe.kept q e in (d.0, name_more q d.1);
  }
    where
      name_more : (q : ℕ) → member q named ≡ true → member q (p ∷ named) ≡ true
      name_more q h = ground arith

  pub selection-IsSound :
      (p : ℕ) (s : State)
      → IsSound seen named s
      → member p named ≡ false
      → IsSound seen (p ∷ named) (selection (some p) s)
  unfolding selection
  selection-IsSound p s safe new = elim (Option-cases (find p s.offers)) [
    | inl e ↦ rw e (name-IsSafe p safe)
    | inr (o, e) ↦
        let h = find-has p s.offers o e in
        rw e (
          name-IsSafe p (
            destroy_offer-IsSound s o.proxy safe (subst (λ k. has k s.offers ≡ true) (sym h.0) h.1)
              (λ k. held_other s p safe new (k ∙ ap some h.0))))
  ]

  new_drag-IsSafe :
      {held : Option ℕ} {offers : List Offer} {drag : Option ℕ} {requests : List Request}
      (after : Option ℕ)
      → IsSafe seen named held offers drag requests
      → ((q : ℕ)
          → after ≡ some q
          → (has q offers ≡ true) × (member q named ≡ true) × (held ≢ some q))
      → IsSafe seen named held offers after requests
  new_drag-IsSafe after safe h = record {
    clean = safe.clean;
    live = safe.live;
    distinct = safe.distinct;
    known = safe.known;
    gone = safe.gone;
    dragged = h;
    kept = safe.kept;
  }

-- the proxy of an enter is none that the drag's destruction destroyed
alive_after :
    (p : ℕ) (d : Option ℕ) (s : State)
    → d ≢ some p
    → is_destroyed p s.requests ≡ false
    → is_destroyed p (destroy_offer d s).requests ≡ false
unfolding destroy_offer is_destroyed
alive_after p none s ne alive = alive
alive_after p (some q) s ne alive = elim (Bool-cases (q == p)) [
  | inl e ↦ absurd (ne (ap some ((==_iff q p).0 e)))
  | inr e ↦ rw e alive
]

module _ {seen named : List ℕ} where
  -- the drag that enter_offer keeps is the offer that it looked up
  entered_drag :
      (p : ℕ) (s : State) (o : Option Offer)
      → IsSound seen named s
      → member p named ≡ false
      → find p s.offers ≡ o
      → (q : ℕ) → proxy_of o ≡ some q
      → (has q s.offers ≡ true) × (member q (p ∷ named) ≡ true) × (held_by s.transfer ≢ some q)
  entered_drag p s none safe new e q k = cc
  entered_drag p s (some o) safe new e q k =
      let h = find-has p s.offers o e in
      let pq : p ≡ q = sym h.0 ∙ some_inj k in
      subst
        (λ r.
          (has r s.offers ≡ true) × (member r (p ∷ named) ≡ true) × (held_by s.transfer ≢ some r))
        pq (h.1, ground arith, held_other s p safe new)

  enter_offer-IsSound :
      (p version : ℕ) (own : Bool) (s : State)
      → IsSound seen named s
      → member p named ≡ false
      → is_destroyed p s.requests ≡ false
      → IsSound seen (p ∷ named) (enter_offer p version own s)
  unfolding enter_offer
  enter_offer-IsSound p version own s safe new alive =
      let o = find p s.offers in
      let named_safe : IsSafe seen (p ∷ named) (held_by s.transfer) s.offers (proxy_of o)
          s.requests =
        new_drag-IsSafe (proxy_of o) (name-IsSafe p safe) (entered_drag p s o safe new refl) in
      let accepted =
        request-IsSafe named_safe (Request.accept p (accepts own o)) alive (λ q. refl) in
      if_holds
        (λ rs.
          IsSafe seen (p ∷ named) (held_by s.transfer) s.offers (proxy_of o)
            (rs ++ (Request.accept p (accepts own o) ∷ s.requests)))
        (leb 3 version) (Request.set_actions p (accepts own o) ∷ []) []
        (request-IsSafe accepted (Request.set_actions p (accepts own o))
          (unfold is_destroyed in alive) (λ q. refl))
        accepted

  pub enter-none-IsSound :
      (own : Bool) (s : State) → IsSound seen named s → IsSound seen named (enter none own s)
  unfolding enter
  enter-none-IsSound own s safe = destroy_drag-IsSound s safe

  pub enter-some-IsSound :
      (p version : ℕ) (own : Bool) (s : State)
      → IsSound seen named s
      → member p named ≡ false
      → is_destroyed p s.requests ≡ false
      → IsSound seen (p ∷ named) (enter (some (p, version)) own s)
  unfolding enter
  enter-some-IsSound p version own s safe new alive =
      let other : s.drag ≢ some p =
        λ e. (let k : member p named ≡ true = (safe.dragged p e).1 in cc) in
      enter_offer-IsSound p version own (set_hovered false (destroy_offer s.drag s))
        (destroy_drag-IsSound s safe) new (alive_after p s.drag s other alive)
