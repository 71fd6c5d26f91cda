-- ===== src/Wayland/Safety/Globals.antt =====
-- The registry's globals, and the end of the device, keep the offers sound.
use zimbr.Prelude.{
  ℕ, ◌≡◌, ◌≢◌, refl, sym, ap, subst, true, false, ◌&&◌, not, Option, none, some, List, [], ◌∷◌,
  ◌==◌, if◌then◌else◌, min, leb, arith,
}
use zimbr.Wayland.State.{Offer, Transfer, Request, State, unlink, destroy_offer}
use zimbr.Wayland.Device.{finish_transfer, finish_some, end_transfer}
use zimbr.Wayland.Globals.{
  Interface, activation_global, manager_global, seat_global, unknown_global, is_bound, version_of,
  bind_device, bind_global, global, destroy_all, drop_device, free_device, is_name, is_manager,
  free_activation, free_seat, free_manager, removed, unbind, free,
}
use zimbr.Wayland.Offers.{has, IsDistinct, IsLive, subject, destroys, has-unlink}
use zimbr.Wayland.Safety.{IsSafe, held_by, IsSound, request-IsSafe}
use zimbr.Wayland.Safety.Device.{if_holds, destroy_offer-IsSound, finish_transfer-IsSound}

finished_none :
    (o : Option Transfer) (s : State) → o ≡ s.transfer → (finish_some o false s).transfer ≡ none
finished_none none s e = sym e
finished_none (some t) s e = unfold end_transfer in refl

module _ {seen named : List ℕ} where
  bind_device-IsSound : (s : State) → IsSound seen named s → IsSound seen named (bind_device s)
  unfolding bind_device
  bind_device-IsSound s safe =
      if_holds (IsSound seen named)
        (is_bound s.manager && is_bound s.seat && not (is_bound s.device))
        (record s { device = some (version_of s.manager) }) s safe safe

  bind_global-IsSound :
      (name : ℕ) (i : Interface) (version : ℕ) (s : State)
      → IsSound seen named s
      → IsSound seen named (bind_global name i version s)
  bind_global-IsSound name activation_global version s safe =
      if_holds (IsSound seen named) (is_bound s.activation) s (record s { activation = some name })
        safe safe
  bind_global-IsSound name manager_global version s safe =
      if_holds (IsSound seen named) (is_bound s.manager) s
        (record s { manager = some (name, min version 3) }) safe safe
  bind_global-IsSound name seat_global version s safe =
      if_holds (IsSound seen named) (is_bound s.seat) s (record s { seat = some name }) safe safe
  bind_global-IsSound name unknown_global version s safe = safe

  pub global-IsSound :
      (name : ℕ) (i : Interface) (version : ℕ) (s : State)
      → IsSound seen named s
      → IsSound seen named (global name i version s)
  unfolding global
  global-IsSound name i version s safe =
      bind_device-IsSound (bind_global name i version s) (bind_global-IsSound name i version s safe)

  -- without a transfer
  destroy_all-IsSound :
      (os : List Offer) (s : State)
      → IsSound seen named s
      → s.transfer ≡ none
      → IsDistinct os
      → ((q : ℕ) → has q os ≡ true → has q s.offers ≡ true)
      → IsSound seen named (destroy_all os s)
  unfolding destroy_all destroy_offer has
  destroy_all-IsSound [] s safe e d sub = safe
  destroy_all-IsSound (o ∷ os) s safe e d sub =
      destroy_all-IsSound os (destroy_offer (some o.proxy) s)
        (destroy_offer-IsSound s o.proxy safe (sub o.proxy (ground arith))
          (λ k. let c : held_by s.transfer ≡ none = ap held_by e in cc))
        e d.1
        (λ q h.
          left_in q (sub q (ground arith)) (other_than q h)
            (has-unlink o.proxy q s.offers safe.distinct))
    where
      other_than : (q : ℕ) → has q os ≡ true → o.proxy ≢ q
      other_than q h k = let c : has q os ≡ false = subst (λ r. has r os ≡ false) k d.0 in cc

      left_in :
          (q : ℕ)
          → has q s.offers ≡ true
          → o.proxy ≢ q
          → has q (unlink o.proxy s.offers) ≡ (if o.proxy == q then false else has q s.offers)
          → has q (unlink o.proxy s.offers) ≡ true
      left_in q h ne k = ground arith

  drop_device-IsSound :
      (device : Option ℕ) (s : State)
      → IsSound seen named s
      → IsSound seen named (drop_device device s)
  drop_device-IsSound none s safe = safe
  drop_device-IsSound (some v) s safe =
      request-IsSafe safe (Request.free_device (leb 2 v)) tt (λ q. refl)

  free_device-IsSound : (s : State) → IsSound seen named s → IsSound seen named (free_device s)
  unfolding free_device
  free_device-IsSound s safe =
      let t = finish_transfer false s in
      let sound : IsSound seen named t = finish_transfer-IsSound false s safe in
      let u = destroy_all t.offers t in
      drop_device-IsSound u.device u (
        destroy_all-IsSound t.offers t sound
          (unfold finish_transfer in finished_none s.transfer s refl) sound.distinct (λ q h. h))

  request-IsSound :
      (r : Request) (s : State)
      → subject r ≡ none
      → ((q : ℕ) → destroys q r ≡ false)
      → IsSound seen named s
      → IsSafe seen named (held_by s.transfer) s.offers s.drag (r ∷ s.requests)
  request-IsSound r s e keeps safe =
      request-IsSafe safe r (subst (λ o. IsLive o s.requests) (sym e) tt) keeps

  pub removed-IsSound :
      (name : ℕ) (s : State) → IsSound seen named s → IsSound seen named (removed name s)
  unfolding removed free_seat free_manager
  removed-IsSound name s safe =
      let a = if is_name s.activation name then free_activation s else s in
      let b = if is_name a.seat name then free_seat a else a in
      let ha : IsSound seen named a =
        if_holds (IsSound seen named) (is_name s.activation name) (free_activation s) s
          (request-IsSafe safe Request.free_activation tt (λ q. refl)) safe in
      let hb : IsSound seen named b =
        if_holds (IsSound seen named) (is_name a.seat name) (free_seat a) a
          (request-IsSafe (free_device-IsSound a ha) Request.free_seat tt (λ q. refl)) ha in
      if_holds (IsSound seen named) (is_manager b.manager name) (free_manager b) b
        (request-IsSafe (free_device-IsSound b hb) Request.free_manager tt (λ q. refl)) hb

  unbind-IsSound {ℓ} :
      {A : Type ℓ} (o : Option A) (r : Request) (s : State)
      → subject r ≡ none
      → ((q : ℕ) → destroys q r ≡ false)
      → IsSound seen named s
      → IsSound seen named (unbind o r s)
  unbind-IsSound none r s e keeps safe = safe
  unbind-IsSound (some a) r s e keeps safe = request-IsSound r s e keeps safe

  pub free-IsSound : (s : State) → IsSound seen named s → IsSound seen named (free s)
  unfolding free
  free-IsSound s safe =
      let t = free_device s in
      let u = unbind t.seat Request.free_seat t in
      let v = unbind u.manager Request.free_manager u in
      let hu : IsSound seen named u =
        unbind-IsSound t.seat Request.free_seat t refl (λ q. refl) (free_device-IsSound s safe) in
      let hv : IsSound seen named v =
        unbind-IsSound u.manager Request.free_manager u refl (λ q. refl) hu in
      unbind-IsSound v.activation Request.free_activation v refl (λ q. refl) hv
