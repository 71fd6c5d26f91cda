-- ===== src/Wayland/Device.antt =====
-- src/client/desktop/wayland.c: what the data device's listener, the transfer and the poll do.
use zimbr.Drop.{Bytes, drop_bytes, has_nul, offer}
use zimbr.Prelude.{
  ℕ, ◌+◌, ◌-◌, Bool, true, false, ◌&&◌, Option, none, some, List, [], ◌∷◌, ◌++◌, ltb, leb, ◌==◌,
  if◌then◌else◌, length, take,
}
use zimbr.Wayland.State.{
  Offer, Transfer, Request, State, copy_action, find, destroy_offer, close_fd, set_hovered, reject,
}

abbrev pub log : List Request → State → State
log rs s = record s { requests = rs ++ s.requests }

-- `enter` with a proxy whose data is `o`; `own` is whether the surface is the window's
abbrev pub accepts : Bool → Option Offer → Bool
accepts own none = false
accepts own (some o) = o.uris && own

abbrev pub proxy_of : Option Offer → Option ℕ
proxy_of none = none
proxy_of (some o) = some o.proxy

-- the part of `enter` for an offer: its proxy and that proxy's version
unfoldable pub enter_offer : ℕ → ℕ → Bool → State → State
unfolding find
enter_offer p version own s =
    let o = find p s.offers in
    let accepted = accepts own o in
    let set : List Request = if leb 3 version then Request.set_actions p accepted ∷ [] else [] in
    set_hovered accepted
      (record s { drag = proxy_of o; requests = set ++ (Request.accept p accepted ∷ s.requests) })

unfoldable pub enter : Option (ℕ × ℕ) → Bool → State → State
unfolding enter_offer
enter none own s = set_hovered false (destroy_offer s.drag s)
enter (some (p, version)) own s =
    enter_offer p version own (set_hovered false (destroy_offer s.drag s))

unfoldable pub leave : State → State
leave s = let t = set_hovered false s in destroy_offer t.drag t

-- wl_data_offer_finish, for a version and an action that have it
unfoldable pub finish_requests : Option Offer → List Request
finish_requests none = []
finish_requests (some o) =
    if leb 3 o.version && (o.action == copy_action) then Request.finish o.proxy ∷ [] else []

-- the rest of finish_transfer, once the batch is offered or rejected
unfoldable pub end_transfer : Transfer → State → State
unfolding finish_requests
end_transfer t s =
    let done = log (finish_requests (find t.offer s.offers)) s in
    let closed_fd = record done { fds = close_fd t.fd done.fds } in
    record (destroy_offer (some t.offer) closed_fd) { transfer = none }

-- zc_drop_offer for a transfer that is complete
abbrev pub hand_over : Bool → Bytes → State → State
hand_over complete text s = if complete then record s { drop = offer text s.drop } else reject s

abbrev pub finish_some : Option Transfer → Bool → State → State
finish_some none complete s = s
finish_some (some t) complete s = end_transfer t (hand_over complete t.text s)

unfoldable pub finish_transfer : Bool → State → State
unfolding end_transfer
finish_transfer complete s = finish_some s.transfer complete s

-- An answer of read(2); the kernel delivers no more bytes than it is asked for, and none at the
-- end of the pipe. A pipe that has no further answer is empty: EAGAIN.
pub data Answer : Type 0 where
  bytes : Bytes → Answer
  interrupted : Answer
  again : Answer
  failed : Answer

-- how the loop of zc_wayland_poll leaves: with the text that it has, or by finish_transfer
pub data Pumped : Type 0 where
  waiting : Bytes → Pumped
  finished : Bool → Bytes → Pumped

unfoldable pub pump : List Answer → Bytes → Pumped
pump [] text = if leb (length text) drop_bytes then waiting text else finished false text
pump (bytes b ∷ answers) text =
    let chunk = take (drop_bytes + 1 - length text) b in
    let rest = pump answers (text ++ chunk) in
    if ltb drop_bytes (length text)
    then finished false text
    else if length chunk == 0
    then finished true text
    else if has_nul chunk
    then finished false text
    else rest
pump (interrupted ∷ answers) text =
    let rest = pump answers text in
    if ltb drop_bytes (length text) then finished false text else rest
pump (again ∷ answers) text =
    if ltb drop_bytes (length text) then finished false text else waiting text
pump (failed ∷ answers) text = finished false text

abbrev pub pumped : Transfer → Pumped → State → State
pumped t (waiting text) s = record s { transfer = some (record t { text = text }) }
pumped t (finished complete text) s =
    finish_transfer complete (record s { transfer = some (record t { text = text }) })

abbrev pub poll_some : Option Transfer → ℕ → List Answer → State → State
poll_some none now answers s = s
poll_some (some t) now answers s =
    if leb t.deadline now then finish_transfer false s else pumped t (pump answers t.text) s

-- zc_wayland_poll at the time `now`, in ms
unfoldable pub poll : ℕ → List Answer → State → State
unfolding finish_transfer pump
poll now answers s = poll_some s.transfer now answers s

-- `ends` is what pipe2 gives, `allocated` whether malloc succeeds
abbrev pub start : Option (ℕ × ℕ) → Bool → ℕ → ℕ → State → State
start none allocated now p s = reject s
start (some (r, w)) allocated now p s =
    let opened = record s { fds = r ∷ w ∷ s.fds } in
    if allocated
    then record (log (Request.receive p w ∷ []) opened) {
      fds = close_fd w opened.fds;
      transfer = some (record { offer = p; fd = r; text = []; deadline = now + 2000 });
      drag = none;
    }
    else reject (record opened { fds = close_fd w (close_fd r opened.fds) })

abbrev pub is_active : Option Transfer → Bool
is_active none = false
is_active (some t) = true

abbrev pub dropped_on : Option ℕ → Option (ℕ × ℕ) → Bool → ℕ → State → State
dropped_on none ends allocated now s = s
dropped_on (some p) ends allocated now s =
    if s.drop.hovered
    then (if is_active s.transfer then reject s else start ends allocated now p s)
    else s

unfoldable pub dropped : Option (ℕ × ℕ) → Bool → ℕ → State → State
dropped ends allocated now s =
    let t = set_hovered false (dropped_on s.drag ends allocated now s) in destroy_offer t.drag t

-- zc_wayland_wait_limit; a negative timeout is `none`
unfoldable pub wait_limit : Option ℕ → State → Option ℕ
wait_limit none s = if is_active s.transfer then some 10 else none
wait_limit (some ms) s = if is_active s.transfer && ltb 10 ms then some 10 else some ms

-- `selection`, with the proxy of an offer
abbrev pub selected_offer : Option Offer → State → State
selected_offer none s = s
selected_offer (some o) s = destroy_offer (some o.proxy) s

unfoldable pub selection : Option ℕ → State → State
unfolding find
selection none s = s
selection (some p) s = selected_offer (find p s.offers) s
