-- ===== src/Wayland/Limits/Session.antt =====
-- Every event keeps the device within its bounds.
use zimbr.Prelude.{
  ℕ, ◌≤◌, ◌≡◌, refl, sym, ◌∙◌, ap, subst, Bool, true, false, ◌&&◌, not, Option, none, some, List,
  [], ◌∷◌, ◌==◌, ==_iff, if◌then◌else◌, min, ltb, leb, ltb→lt, length, Bool-cases, inl, inr, arith,
}
use zimbr.Drop.{drop_bytes}
use zimbr.Wayland.State.{
  Offer, Transfer, Request, State, initial, find, destroy_offer, close_fd, mime, action, offered,
  set_hovered, reject,
}
use zimbr.Wayland.Device.{
  Answer, enter, enter_offer, leave, finish_transfer, pump, pumped, poll_some, poll, start,
  is_active, dropped_on, dropped, selected_offer, selection,
}
use zimbr.Wayland.Globals.{
  Interface, activation_global, manager_global, seat_global, unknown_global, is_bound, version_of,
  bind_device, bind_global, global, destroy_all, drop_device, free_device, is_name, is_manager,
  free_activation, free_seat, free_manager, removed, unbind, free, Event, announced, withdrawn,
  named_type, selected_action, introduced, entered, left, released, clipboard, polled, taken_paths,
  ended, step, run,
}
use zimbr.Wayland.Safety.Device.{if_holds}
use zimbr.Wayland.Limits.{
  length-update, descriptors, IsShort, IsBounded, pump-Fits, destroy_offer-IsBounded,
  finish_transfer-IsBounded, pumped-IsBounded,
}

poll_some-IsBounded :
    (o : Option Transfer) (now : ℕ) (answers : List Answer) (s : State)
    → IsBounded s
    → o ≡ s.transfer
    → IsBounded (poll_some o now answers s)
poll_some-IsBounded none now answers s h e = h
poll_some-IsBounded (some t) now answers s h e =
    let short : length t.text ≤ drop_bytes = subst IsShort (sym e) h.2 in
    if_holds IsBounded (leb t.deadline now) (finish_transfer false s)
      (pumped t (pump answers t.text) s) (finish_transfer-IsBounded false s h)
      (pumped-IsBounded t (pump answers t.text) s h.0 (h.1 ∙ ap descriptors (sym e))
        (pump-Fits answers t.text (omega (arith, short))))

-- pipe2 and the close of its write end, with nothing else open
close_write : (r w : ℕ) (fds : List ℕ) → fds ≡ [] → close_fd w (r ∷ w ∷ fds) ≡ r ∷ []
unfolding close_fd
close_write r w fds e = elim (Bool-cases (r == w)) [
  | inl h ↦ rw (e, h) (ap (λ x. x ∷ []) (sym ((==_iff r w).0 h)))
  | inr h ↦ rw (e, h) (ground arith)
]

close_both : (r w : ℕ) (fds : List ℕ) → close_fd w (close_fd r (r ∷ w ∷ fds)) ≡ fds
unfolding close_fd
close_both r w fds = ground arith

start-IsBounded :
    (o : Option Transfer) (ends : Option (ℕ × ℕ)) (allocated : Bool) (now p : ℕ) (s : State)
    → IsBounded s
    → o ≡ s.transfer
    → IsBounded (if is_active o then reject s else start ends allocated now p s)
start-IsBounded (some t) ends allocated now p s h e = h
start-IsBounded none none allocated now p s h e = h
start-IsBounded none (some (r, w)) false now p s h e = (h.0, close_both r w s.fds ∙ h.1, h.2)
start-IsBounded none (some (r, w)) true now p s h e =
    (h.0, close_write r w s.fds (h.1 ∙ ap descriptors (sym e)), omega arith)

dropped_on-IsBounded :
    (drag : Option ℕ) (ends : Option (ℕ × ℕ)) (allocated : Bool) (now : ℕ) (s : State)
    → IsBounded s
    → IsBounded (dropped_on drag ends allocated now s)
dropped_on-IsBounded none ends allocated now s h = h
dropped_on-IsBounded (some p) ends allocated now s h =
    if_holds IsBounded s.drop.hovered
      (if is_active s.transfer then reject s else start ends allocated now p s) s
      (start-IsBounded s.transfer ends allocated now p s h refl) h

dropped-IsBounded :
    (ends : Option (ℕ × ℕ)) (allocated : Bool) (now : ℕ) (s : State)
    → IsBounded s
    → IsBounded (dropped ends allocated now s)
unfolding dropped
dropped-IsBounded ends allocated now s h =
    let t = set_hovered false (dropped_on s.drag ends allocated now s) in
    destroy_offer-IsBounded t.drag t (dropped_on-IsBounded s.drag ends allocated now s h)

enter-IsBounded :
    (o : Option (ℕ × ℕ)) (own : Bool) (s : State) → IsBounded s → IsBounded (enter o own s)
unfolding enter enter_offer
enter-IsBounded none own s h = destroy_offer-IsBounded s.drag s h
enter-IsBounded (some (p, v)) own s h = destroy_offer-IsBounded s.drag s h

selected-IsBounded : (o : Option Offer) (s : State) → IsBounded s → IsBounded (selected_offer o s)
selected-IsBounded none s h = h
selected-IsBounded (some o) s h = destroy_offer-IsBounded (some o.proxy) s h

selection-IsBounded : (o : Option ℕ) (s : State) → IsBounded s → IsBounded (selection o s)
unfolding selection
selection-IsBounded none s h = h
selection-IsBounded (some p) s h = selected-IsBounded (find p s.offers) s h

offered-IsBounded :
    (p version : ℕ) (allocated : Bool) (s : State)
    → IsBounded s
    → IsBounded (offered p version allocated s)
unfolding offered
offered-IsBounded p version allocated s h = elim (Bool-cases (ltb (length s.offers) 32)) [
  | inl e ↦
      let room = ltb→lt (length s.offers) 32 e in
      rw e (
        if_holds IsBounded allocated
          (record s {
            offers = record { proxy = p; version = version; uris = false; action = 0 } ∷ s.offers;
          })
          (reject (record s { requests = Request.destroy p ∷ s.requests }))
          (omega (arith, room), h.1, h.2) h)
  | inr e ↦ rw e h
]

mime-IsBounded : (p : ℕ) (b : Bool) (s : State) → IsBounded s → IsBounded (mime p b s)
unfolding mime
mime-IsBounded p true s h =
    (omega (arith, length-update (λ o. record o { uris = true }) p s.offers, h.0), h.1, h.2)
mime-IsBounded p false s h = h

action-IsBounded : (p a : ℕ) (s : State) → IsBounded s → IsBounded (action p a s)
unfolding action
action-IsBounded p a s h =
    (omega (arith, length-update (λ o. record o { action = a }) p s.offers, h.0), h.1, h.2)

bind_global-IsBounded :
    (name : ℕ) (i : Interface) (v : ℕ) (s : State)
    → IsBounded s
    → IsBounded (bind_global name i v s)
bind_global-IsBounded name activation_global v s h =
    if_holds IsBounded (is_bound s.activation) s (record s { activation = some name }) h h
bind_global-IsBounded name manager_global v s h =
    if_holds IsBounded (is_bound s.manager) s (record s { manager = some (name, min v 3) }) h h
bind_global-IsBounded name seat_global v s h =
    if_holds IsBounded (is_bound s.seat) s (record s { seat = some name }) h h
bind_global-IsBounded name unknown_global v s h = h

global-IsBounded :
    (name : ℕ) (i : Interface) (v : ℕ) (s : State) → IsBounded s → IsBounded (global name i v s)
unfolding global bind_device
global-IsBounded name i v s h =
    let t = bind_global name i v s in
    let k = bind_global-IsBounded name i v s h in
    if_holds IsBounded (is_bound t.manager && is_bound t.seat && not (is_bound t.device))
      (record t { device = some (version_of t.manager) }) t k k

destroy_all-IsBounded : (os : List Offer) (s : State) → IsBounded s → IsBounded (destroy_all os s)
unfolding destroy_all
destroy_all-IsBounded [] s h = h
destroy_all-IsBounded (o ∷ os) s h =
    destroy_all-IsBounded os (destroy_offer (some o.proxy) s)
      (destroy_offer-IsBounded (some o.proxy) s h)

drop_device-IsBounded : (d : Option ℕ) (s : State) → IsBounded s → IsBounded (drop_device d s)
drop_device-IsBounded none s h = h
drop_device-IsBounded (some v) s h = h

free_device-IsBounded : (s : State) → IsBounded s → IsBounded (free_device s)
unfolding free_device
free_device-IsBounded s h =
    let t = finish_transfer false s in
    let u = destroy_all t.offers t in
    drop_device-IsBounded u.device u
      (destroy_all-IsBounded t.offers t (finish_transfer-IsBounded false s h))

removed-IsBounded : (name : ℕ) (s : State) → IsBounded s → IsBounded (removed name s)
unfolding removed free_seat free_manager
removed-IsBounded name s h =
    let a = if is_name s.activation name then free_activation s else s in
    let b = if is_name a.seat name then free_seat a else a in
    let ha : IsBounded a =
      if_holds IsBounded (is_name s.activation name) (free_activation s) s h h in
    let hb : IsBounded b =
      if_holds IsBounded (is_name a.seat name) (free_seat a) a (free_device-IsBounded a ha) ha in
    if_holds IsBounded (is_manager b.manager name) (free_manager b) b (free_device-IsBounded b hb)
      hb

unbind-IsBounded {ℓ} :
    {A : Type ℓ} (o : Option A) (r : Request) (s : State) → IsBounded s → IsBounded (unbind o r s)
unbind-IsBounded none r s h = h
unbind-IsBounded (some a) r s h = h

free-IsBounded : (s : State) → IsBounded s → IsBounded (free s)
unfolding free
free-IsBounded s h =
    let t = free_device s in
    let u = unbind t.seat Request.free_seat t in
    let v = unbind u.manager Request.free_manager u in
    unbind-IsBounded v.activation Request.free_activation v (
      unbind-IsBounded u.manager Request.free_manager u
        (unbind-IsBounded t.seat Request.free_seat t (free_device-IsBounded s h)))

step-IsBounded : (e : Event) (s : State) → IsBounded s → IsBounded (step e s)
unfolding step
step-IsBounded (announced n i v) s h = global-IsBounded n i v s h
step-IsBounded (withdrawn n) s h = removed-IsBounded n s h
step-IsBounded (named_type p b) s h = mime-IsBounded p b s h
step-IsBounded (selected_action p a) s h = action-IsBounded p a s h
step-IsBounded (introduced p v b) s h = offered-IsBounded p v b s h
step-IsBounded (entered o own) s h = enter-IsBounded o own s h
step-IsBounded left s h = unfold leave in destroy_offer-IsBounded s.drag (set_hovered false s) h
step-IsBounded (released ends b now) s h = dropped-IsBounded ends b now s h
step-IsBounded (clipboard o) s h = selection-IsBounded o s h
step-IsBounded (polled now answers) s h =
    unfold poll in poll_some-IsBounded s.transfer now answers s h refl
step-IsBounded taken_paths s h = h
step-IsBounded ended s h = free-IsBounded s h

run_lem : (es : List Event) (s : State) → IsBounded s → IsBounded (run es s)
unfolding run
run_lem [] s h = h
run_lem (e ∷ es) s h = run_lem es (step e s) (step-IsBounded e s h)

-- After any events at all, at most 32 offers are kept, the descriptors that are open are the one of
-- the transfer, or none without a transfer, and the text that a transfer has read is at most
-- ZC_DROP_BYTES long.
pub run-IsBounded : (es : List Event) → IsBounded (run es initial)
run-IsBounded es = run_lem es initial (omega arith, refl, tt)
