-- ===== src/Wayland/State.antt =====
-- src/client/desktop/wayland.c: the offers of the data device, the drag, the one transfer, and the
-- globals that the registry announced. An `Offer *` is the number of its proxy; the requests that
-- the code sends are logged, the newest first.
use zimbr.Drop.{DropState, Bytes}
use zimbr.Drop as Drop
use zimbr.Prelude.{
  ℕ, Bool, true, false, ◌&&◌, Option, none, some, List, [], ◌∷◌, ltb, ◌==◌, if◌then◌else◌, length,
}

pub record Offer : Type 0 where
  pub proxy : ℕ
  pub version : ℕ
  pub uris : Bool
  pub action : ℕ

pub record Transfer : Type 0 where
  pub offer : ℕ
  pub fd : ℕ
  pub text : Bytes
  pub deadline : ℕ

pub data Request : Type 0 where
  -- wl_data_offer_accept, set_actions, receive, finish and destroy
  accept : ℕ → Bool → Request
  set_actions : ℕ → Bool → Request
  receive : ℕ → ℕ → Request
  finish : ℕ → Request
  destroy : ℕ → Request
  -- the data device, the seat, the manager and the activation object
  free_device : Bool → Request
  free_seat : Request
  free_manager : Request
  free_activation : Request

-- the static variables, with the descriptors that the file has open; `activation` and `seat` are
-- the names of the bound globals, `device` and the manager carry their version
pub record State : Type 0 where
  pub offers : List Offer
  pub drag : Option ℕ
  pub transfer : Option Transfer
  pub drop : DropState
  pub fds : List ℕ
  pub activation : Option ℕ
  pub seat : Option ℕ
  pub manager : Option (ℕ × ℕ)
  pub device : Option ℕ
  pub requests : List Request

abbrev pub initial : State
initial = record {
  offers = [];
  drag = none;
  transfer = none;
  drop = Drop.initial;
  fds = [];
  activation = none;
  seat = none;
  manager = none;
  device = none;
  requests = [];
}

-- WL_DATA_DEVICE_MANAGER_DND_ACTION_COPY
abbrev pub copy_action : ℕ
copy_action = 1

unfoldable pub find : ℕ → List Offer → Option Offer
find p [] = none
find p (o ∷ os) = if o.proxy == p then some o else find p os

-- the loop of destroy_offer that unlinks the offer
unfoldable pub unlink : ℕ → List Offer → List Offer
unlink p [] = []
unlink p (o ∷ os) = if o.proxy == p then os else o ∷ unlink p os

abbrev pub is_drag : Option ℕ → ℕ → Bool
is_drag none p = false
is_drag (some q) p = q == p

unfoldable pub destroy_offer : Option ℕ → State → State
unfolding unlink
destroy_offer none s = s
destroy_offer (some p) s = record s {
  offers = unlink p s.offers;
  drag = if is_drag s.drag p then none else s.drag;
  requests = destroy p ∷ s.requests;
}

unfoldable pub close_fd : ℕ → List ℕ → List ℕ
close_fd fd [] = []
close_fd fd (g ∷ gs) = if g == fd then gs else g ∷ close_fd fd gs

abbrev pub set_hovered : Bool → State → State
set_hovered active s = record s { drop = Drop.set_hovered active s.drop }

abbrev pub reject : State → State
reject s = record s { drop = Drop.reject s.drop }

-- a listener's write to the offer that it got as its data
unfoldable pub update : (Offer → Offer) → ℕ → List Offer → List Offer
update f p [] = []
update f p (o ∷ os) = if o.proxy == p then f o ∷ os else o ∷ update f p os

-- `mime` is called with a type that is, or is not, text/uri-list
unfoldable pub mime : ℕ → Bool → State → State
unfolding update
mime p is_uri_list s =
    if is_uri_list
    then record s { offers = update (λ o. record o { uris = true }) p s.offers }
    else s

unfoldable pub action : ℕ → ℕ → State → State
unfolding update
action p selected s = record s { offers = update (λ o. record o { action = selected }) p s.offers }

-- `allocated` is whether calloc succeeds
unfoldable pub offered : ℕ → ℕ → Bool → State → State
offered p version allocated s =
    if ltb (length s.offers) 32 && allocated
    then record s {
      offers = record { proxy = p; version = version; uris = false; action = 0 } ∷ s.offers;
    }
    else reject (record s { requests = destroy p ∷ s.requests })
