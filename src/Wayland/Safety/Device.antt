-- ===== src/Wayland/Safety/Device.antt =====
-- The handlers of the data device and the transfer keep the offers sound.
use zimbr.Prelude.{
  ℕ, ◌≡◌, ◌≢◌, refl, sym, ◌∙◌, ap, subst, Bool, true, false, ◌&&◌, Option, none, some, List, [],
  ◌∷◌, ◌++◌, ◌==◌, if◌then◌else◌, ltb, leb, length, Option-cases, inl, inr,
}
use zimbr.Wayland.State.{
  Offer, Transfer, Request, State, copy_action, find, destroy_offer, mime, action, offered,
  set_hovered, reject,
}
use zimbr.Wayland.Device.{
  Answer, Pumped, waiting, finished, leave, finish_requests, end_transfer, hand_over, finish_some,
  finish_transfer, pump, pumped, poll_some, poll, start, is_active, dropped_on, dropped,
}
use zimbr.Wayland.Offers.{has, member, is_destroyed, find-has}
use zimbr.Wayland.Safety.{
  IsSafe, held_by, IsSound, destroy-IsSafe, request-IsSafe, update-IsSafe, introduce-IsSafe,
  refuse-IsSafe,
}

-- a property of both branches
pub if_holds {ℓ κ} :
    {A : Type ℓ} (P : A → Type κ) (b : Bool) (x y : A) → P x → P y → P (if b then x else y)
if_holds P true x y hx hy = hx
if_holds P false x y hx hy = hy

module _ {seen named : List ℕ} where
  pub destroy_offer-IsSound :
      (s : State) (p : ℕ)
      → IsSound seen named s
      → has p s.offers ≡ true
      → held_by s.transfer ≢ some p
      → IsSound seen named (destroy_offer (some p) s)
  unfolding destroy_offer
  destroy_offer-IsSound s p safe there free_of =
      destroy-IsSafe safe p (held_by s.transfer) there
        (λ q e. (e, λ pq. free_of (e ∙ ap some (sym pq))))

  destroy_found-IsSound :
      (d : Option ℕ) (s : State)
      → IsSound seen named s
      → ((p : ℕ) → d ≡ some p → (has p s.offers ≡ true) × (held_by s.transfer ≢ some p))
      → IsSound seen named (destroy_offer d s)
  destroy_found-IsSound none s safe h = unfold destroy_offer in safe
  destroy_found-IsSound (some p) s safe h = destroy_offer-IsSound s p safe (h p refl).0 (h p refl).1

  pub destroy_drag-IsSound :
      (s : State) → IsSound seen named s → IsSound seen named (destroy_offer s.drag s)
  destroy_drag-IsSound s safe =
      destroy_found-IsSound s.drag s safe (λ p e. let d = safe.dragged p e in (d.0, d.2))

  pub leave-IsSound : (s : State) → IsSound seen named s → IsSound seen named (leave s)
  unfolding leave
  leave-IsSound s safe = destroy_drag-IsSound (set_hovered false s) safe

  pub mime-IsSound :
      (p : ℕ) (b : Bool) (s : State) → IsSound seen named s → IsSound seen named (mime p b s)
  unfolding mime
  mime-IsSound p true s safe = update-IsSafe safe (λ o. record o { uris = true }) p (λ o. refl)
  mime-IsSound p false s safe = safe

  pub action-IsSound :
      (p a : ℕ) (s : State) → IsSound seen named s → IsSound seen named (action p a s)
  unfolding action
  action-IsSound p a s safe = update-IsSafe safe (λ o. record o { action = a }) p (λ o. refl)

  pub offered-IsSound :
      (p version : ℕ) (allocated : Bool) (s : State)
      → IsSound seen named s
      → member p seen ≡ false
      → IsSound (p ∷ seen) named (offered p version allocated s)
  unfolding offered
  offered-IsSound p version allocated s safe new =
      let o : Offer = record { proxy = p; version = version; uris = false; action = 0 } in
      if_holds (IsSound (p ∷ seen) named) (ltb (length s.offers) 32 && allocated)
        (record s { offers = o ∷ s.offers })
        (reject (record s { requests = Request.destroy p ∷ s.requests }))
        (introduce-IsSafe safe (record { proxy = p; version = version; uris = false; action = 0 })
          new)
        (refuse-IsSafe safe p new)

  -- what a safe history names is not held by what was named before
  pub held_other :
      (s : State) (p : ℕ)
      → IsSound seen named s
      → member p named ≡ false
      → held_by s.transfer ≢ some p
  held_other s p safe new e = let k : member p named ≡ true = (safe.kept p e).1 in cc

  finish_log-IsSafe :
      (s : State) (t : Transfer)
      → IsSafe seen named (some t.offer) s.offers s.drag s.requests
      → IsSafe seen named
          (some t.offer)
          s.offers
          s.drag
          (finish_requests (find t.offer s.offers) ++ s.requests)
  unfolding finish_requests
  finish_log-IsSafe s t safe = elim (Option-cases (find t.offer s.offers)) [
    | inl e ↦ rw e safe
    | inr (o, e) ↦
        let h = find-has t.offer s.offers o e in
        let l : is_destroyed o.proxy s.requests ≡ false =
          safe.live o.proxy (subst (λ k. has k s.offers ≡ true) (sym h.0) h.1) in
        rw e (
          if_holds (λ rs. IsSafe seen named (some t.offer) s.offers s.drag (rs ++ s.requests))
            (leb 3 o.version && (o.action == copy_action)) (Request.finish o.proxy ∷ []) []
            (request-IsSafe safe (Request.finish o.proxy) l (λ q. refl)) safe)
  ]

  end_transfer-IsSound :
      (t : Transfer) (s : State)
      → IsSafe seen named (some t.offer) s.offers s.drag s.requests
      → IsSound seen named (end_transfer t s)
  unfolding end_transfer destroy_offer
  end_transfer-IsSound t s safe =
      destroy-IsSafe (finish_log-IsSafe s t safe) t.offer none (safe.kept t.offer refl).0
        (λ q e. cc)

  finish_some-IsSound :
      (o : Option Transfer) (complete : Bool) (s : State)
      → IsSafe seen named (held_by o) s.offers s.drag s.requests
      → o ≡ s.transfer
      → IsSound seen named (finish_some o complete s)
  finish_some-IsSound none complete s safe e = rw (← e) safe
  finish_some-IsSound (some t) true s safe e = end_transfer-IsSound t (hand_over true t.text s) safe
  finish_some-IsSound (some t) false s safe e =
      end_transfer-IsSound t (hand_over false t.text s) safe

  pub finish_transfer-IsSound :
      (complete : Bool) (s : State)
      → IsSound seen named s
      → IsSound seen named (finish_transfer complete s)
  unfolding finish_transfer
  finish_transfer-IsSound complete s safe = finish_some-IsSound s.transfer complete s safe refl

  pumped-IsSound :
      (t : Transfer) (r : Pumped) (s : State)
      → IsSafe seen named (some t.offer) s.offers s.drag s.requests
      → IsSound seen named (pumped t r s)
  pumped-IsSound t (waiting text) s safe = safe
  pumped-IsSound t (finished complete text) s safe =
      finish_transfer-IsSound complete (record s { transfer = some (record t { text = text }) })
        safe

  poll_some-IsSound :
      (o : Option Transfer) (now : ℕ) (answers : List Answer) (s : State)
      → IsSafe seen named (held_by o) s.offers s.drag s.requests
      → o ≡ s.transfer
      → IsSound seen named (poll_some o now answers s)
  poll_some-IsSound none now answers s safe e = rw (← e) safe
  poll_some-IsSound (some t) now answers s safe e =
      if_holds (IsSound seen named) (leb t.deadline now) (finish_transfer false s)
        (pumped t (pump answers t.text) s) (finish_transfer-IsSound false s (rw (← e) safe))
        (pumped-IsSound t (pump answers t.text) s safe)

  pub poll-IsSound :
      (now : ℕ) (answers : List Answer) (s : State)
      → IsSound seen named s
      → IsSound seen named (poll now answers s)
  unfolding poll
  poll-IsSound now answers s safe = poll_some-IsSound s.transfer now answers s safe refl

  -- the drag becomes the transfer
  hold-IsSafe :
      {offers : List Offer} {requests : List Request} (p : ℕ)
      → IsSafe seen named none offers (some p) requests
      → IsSafe seen named (some p) offers none requests
  hold-IsSafe p safe = record {
    clean = safe.clean;
    live = safe.live;
    distinct = safe.distinct;
    known = safe.known;
    gone = safe.gone;
    dragged = λ q e. cc;
    kept = λ q e. let d = safe.dragged q e in (d.0, d.1);
  }

  start-IsSound :
      (ends : Option (ℕ × ℕ)) (allocated : Bool) (now p : ℕ) (s : State)
      → IsSound seen named s
      → IsSafe seen named none s.offers (some p) s.requests
      → IsSound seen named (start ends allocated now p s)
  start-IsSound none allocated now p s safe d = safe
  start-IsSound (some (r, w)) false now p s safe d = safe
  start-IsSound (some (r, w)) true now p s safe d =
      hold-IsSafe p
        (request-IsSafe d (Request.receive p w) (d.live p (d.dragged p refl).0) (λ q. refl))

  begin-IsSound :
      (o : Option Transfer) (ends : Option (ℕ × ℕ)) (allocated : Bool) (now p : ℕ) (s : State)
      → IsSound seen named s
      → IsSafe seen named (held_by o) s.offers (some p) s.requests
      → IsSound seen named (if is_active o then reject s else start ends allocated now p s)
  begin-IsSound none ends allocated now p s safe d = start-IsSound ends allocated now p s safe d
  begin-IsSound (some t) ends allocated now p s safe d = safe

  dropped_on-IsSound :
      (drag : Option ℕ) (ends : Option (ℕ × ℕ)) (allocated : Bool) (now : ℕ) (s : State)
      → IsSound seen named s
      → drag ≡ s.drag
      → IsSound seen named (dropped_on drag ends allocated now s)
  dropped_on-IsSound none ends allocated now s safe e = safe
  dropped_on-IsSound (some p) ends allocated now s safe e =
      if_holds (IsSound seen named) s.drop.hovered
        (if is_active s.transfer then reject s else start ends allocated now p s) s
        (begin-IsSound s.transfer ends allocated now p s safe
          (subst (λ d. IsSafe seen named (held_by s.transfer) s.offers d s.requests) (sym e) safe))
        safe

  pub dropped-IsSound :
      (ends : Option (ℕ × ℕ)) (allocated : Bool) (now : ℕ) (s : State)
      → IsSound seen named s
      → IsSound seen named (dropped ends allocated now s)
  unfolding dropped
  dropped-IsSound ends allocated now s safe =
      destroy_drag-IsSound (set_hovered false (dropped_on s.drag ends allocated now s))
        (dropped_on-IsSound s.drag ends allocated now s safe refl)
