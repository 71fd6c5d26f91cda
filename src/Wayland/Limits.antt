-- ===== src/Wayland/Limits.antt =====
-- What the device holds is bounded, whatever the events are.
pub mod Session
use zimbr.Drop.{Bytes, drop_bytes, has_nul}
use zimbr.Prelude.{
  ℕ, zero, suc, ◌+◌, ◌-◌, ◌≤◌, ◌≡◌, refl, sym, ◌∙◌, ap, subst, Bool, true, false, ◌&&◌, not, Option,
  none, some, List, [], ◌∷◌, ◌++◌, ◌==◌, if◌then◌else◌, min, ltb, leb, length, length-append, take,
  Bool-cases, Option-cases, inl, inr, arith,
}
use zimbr.Wayland.State.{
  Offer, Transfer, Request, State, initial, find, unlink, update, is_drag, destroy_offer, close_fd,
  mime, action, offered, set_hovered, reject,
}
use zimbr.Wayland.Device.{
  Answer, bytes, interrupted, again, failed, Pumped, waiting, finished, log, enter, leave,
  end_transfer, hand_over, finish_some, finish_transfer, pump, pumped, poll_some, poll, start,
  is_active, dropped_on, dropped, selected_offer, selection, enter_offer,
}
use zimbr.Wayland.Safety.Device.{if_holds}

length-unlink : (p : ℕ) (os : List Offer) → length (unlink p os) ≤ length os
unfolding unlink
length-unlink p [] = omega arith
length-unlink p (o ∷ os) = ground (arith, length-unlink p os)

pub length-update :
    (f : Offer → Offer) (p : ℕ) (os : List Offer) → length (update f p os) ≡ length os
unfolding update
length-update f p [] = refl
length-update f p (o ∷ os) = ground (arith, length-update f p os)

abbrev pub descriptors : Option Transfer → List ℕ
descriptors none = []
descriptors (some t) = t.fd ∷ []

-- how much a transfer that waits has read
abbrev pub IsShort : Option Transfer → Type 0
IsShort none = Unit
IsShort (some t) = length t.text ≤ drop_bytes

abbrev pub IsBounded : State → Type 0
IsBounded s = (length s.offers ≤ 32) × (s.fds ≡ descriptors s.transfer) × IsShort s.transfer

length-take : (n : ℕ) (b : Bytes) → length (take n b) ≤ n
length-take zero b = omega arith
length-take (suc n) [] = omega arith
length-take (suc n) (x ∷ b) = omega (arith, length-take n b)

-- The read loop keeps to the buffer of ZC_DROP_BYTES + 1 bytes.
abbrev pub Fits : Pumped → Type 0
Fits (waiting text) = length text ≤ drop_bytes
Fits (finished complete text) = length text ≤ drop_bytes + 1

pub pump-Fits :
    (answers : List Answer) (text : Bytes) → length text ≤ drop_bytes + 1 → Fits (pump answers text)
unfolding pump
pump-Fits [] text h = elim (Bool-cases (leb (length text) drop_bytes)) [
  | inl e ↦ rw e (ground arith)
  | inr e ↦ rw e h
]
pump-Fits (bytes b ∷ answers) text h =
    let chunk = take (drop_bytes + 1 - length text) b in
    let k = length-take (drop_bytes + 1 - length text) b in
    if_holds Fits (ltb drop_bytes (length text)) (finished false text) _ h (
      if_holds Fits (length chunk == 0) (finished true text) _ h (
        if_holds Fits (has_nul chunk) (finished false text) (pump answers (text ++ chunk)) h
          (pump-Fits answers (text ++ chunk) (omega (arith, length-append text chunk, k)))))
pump-Fits (interrupted ∷ answers) text h =
    if_holds Fits (ltb drop_bytes (length text)) (finished false text) (pump answers text) h
      (pump-Fits answers text h)
pump-Fits (again ∷ answers) text h = elim (Bool-cases (ltb drop_bytes (length text))) [
  | inl e ↦ rw e h
  | inr e ↦ rw e (ground arith)
]
pump-Fits (failed ∷ answers) text h = h

pub destroy_offer-IsBounded :
    (o : Option ℕ) (s : State) → IsBounded s → IsBounded (destroy_offer o s)
unfolding destroy_offer
destroy_offer-IsBounded none s h = h
destroy_offer-IsBounded (some p) s h = (omega (arith, length-unlink p s.offers, h.0), h.1, h.2)

-- closing the only descriptor
close_last : (fd : ℕ) (fds : List ℕ) → fds ≡ fd ∷ [] → close_fd fd fds ≡ []
unfolding close_fd
close_last fd fds e = rw e (ground arith)

end_transfer-IsBounded :
    (t : Transfer) (s : State)
    → length s.offers ≤ 32
    → s.fds ≡ t.fd ∷ []
    → IsBounded (end_transfer t s)
unfolding end_transfer destroy_offer
end_transfer-IsBounded t s h e =
    (omega (arith, length-unlink t.offer s.offers, h), close_last t.fd s.fds e, tt)

finish_some-IsBounded :
    (o : Option Transfer) (complete : Bool) (s : State)
    → length s.offers ≤ 32
    → s.fds ≡ descriptors o
    → o ≡ s.transfer
    → IsBounded (finish_some o complete s)
finish_some-IsBounded none complete s h e k = (h, e ∙ ap descriptors k, subst IsShort k tt)
finish_some-IsBounded (some t) true s h e k = end_transfer-IsBounded t (hand_over true t.text s) h e
finish_some-IsBounded (some t) false s h e k =
    end_transfer-IsBounded t (hand_over false t.text s) h e

pub finish_transfer-IsBounded :
    (complete : Bool) (s : State) → IsBounded s → IsBounded (finish_transfer complete s)
unfolding finish_transfer
finish_transfer-IsBounded complete s h = finish_some-IsBounded s.transfer complete s h.0 h.1 refl

pub pumped-IsBounded :
    (t : Transfer) (r : Pumped) (s : State)
    → length s.offers ≤ 32
    → s.fds ≡ t.fd ∷ []
    → Fits r
    → IsBounded (pumped t r s)
pumped-IsBounded t (waiting text) s h e k = (h, e, k)
pumped-IsBounded t (finished complete text) s h e k =
    unfold finish_transfer in
    finish_some-IsBounded (some (record t { text = text })) complete
      (record s { transfer = some (record t { text = text }) }) h e refl
