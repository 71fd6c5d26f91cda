-- ===== src/Wayland/Globals.antt =====
-- src/client/desktop/wayland.c: the globals of the registry, and the events of a session.
use zimbr.Drop.{DropState, Bytes}
use zimbr.Drop as Drop
use zimbr.Prelude.{
  ℕ, Bool, true, false, not, ◌&&◌, Option, none, some, List, [], ◌∷◌, leb, ◌==◌, min, if◌then◌else◌,
}
use zimbr.Wayland.State.{Offer, Request, State, destroy_offer, set_hovered, mime, action, offered}
use zimbr.Wayland.Device.{Answer, log, enter, leave, finish_transfer, poll, dropped, selection}

-- the interfaces that `global` compares with
pub data Interface : Type 0 where
  activation_global : Interface
  manager_global : Interface
  seat_global : Interface
  unknown_global : Interface

abbrev pub is_bound {ℓ} : {A : Type ℓ} → Option A → Bool
is_bound none = false
is_bound (some a) = true

abbrev pub version_of : Option (ℕ × ℕ) → ℕ
version_of none = 0
version_of (some (name, version)) = version

-- the device has the version of its manager
unfoldable pub bind_device : State → State
bind_device s =
    if is_bound s.manager && is_bound s.seat && not (is_bound s.device)
    then record s { device = some (version_of s.manager) }
    else s

abbrev pub bind_global : ℕ → Interface → ℕ → State → State
bind_global name activation_global version s =
    if is_bound s.activation then s else record s { activation = some name }
bind_global name manager_global version s =
    if is_bound s.manager then s else record s { manager = some (name, min version 3) }
bind_global name seat_global version s =
    if is_bound s.seat then s else record s { seat = some name }
bind_global name unknown_global version s = s

unfoldable pub global : ℕ → Interface → ℕ → State → State
unfolding bind_device
global name interface version s = bind_device (bind_global name interface version s)

-- `while (offers) destroy_offer(offers)`, on the offers there are
unfoldable pub destroy_all : List Offer → State → State
unfolding destroy_offer
destroy_all [] s = s
destroy_all (o ∷ os) s = destroy_all os (destroy_offer (some o.proxy) s)

-- wl_data_device_release, or wl_data_device_destroy before version 2
abbrev pub drop_device : Option ℕ → State → State
drop_device none s = s
drop_device (some version) s = record (log (Request.free_device (leb 2 version) ∷ []) s) {
  device = none;
}

unfoldable pub free_device : State → State
unfolding destroy_all finish_transfer
free_device s =
    let t = finish_transfer false s in
    let u = destroy_all t.offers t in set_hovered false (drop_device u.device u)

abbrev pub is_name : Option ℕ → ℕ → Bool
is_name none name = false
is_name (some n) name = name == n

abbrev pub is_manager : Option (ℕ × ℕ) → ℕ → Bool
is_manager none name = false
is_manager (some (n, version)) name = name == n

abbrev pub free_activation : State → State
free_activation s = record (log (Request.free_activation ∷ []) s) { activation = none }

unfoldable pub free_seat : State → State
unfolding free_device
free_seat s = let t = free_device s in record (log (Request.free_seat ∷ []) t) { seat = none }

unfoldable pub free_manager : State → State
unfolding free_device
free_manager s =
    let t = free_device s in record (log (Request.free_manager ∷ []) t) { manager = none }

unfoldable pub removed : ℕ → State → State
unfolding free_seat free_manager
removed name s =
    let a = if is_name s.activation name then free_activation s else s in
    let b = if is_name a.seat name then free_seat a else a in
    if is_manager b.manager name then free_manager b else b

abbrev pub unbind {ℓ} : {A : Type ℓ} → Option A → Request → State → State
unbind none r s = s
unbind (some a) r s = log (r ∷ []) s

-- zc_wayland_free
unfoldable pub free : State → State
unfolding free_device
free s =
    let t = free_device s in
    let u = unbind t.seat Request.free_seat t in
    let v = unbind u.manager Request.free_manager u in
    record (unbind v.activation Request.free_activation v) {
      seat = none;
      manager = none;
      activation = none;
    }

pub data Event : Type 0 where
  -- of the registry
  announced : ℕ → Interface → ℕ → Event
  withdrawn : ℕ → Event
  -- of an offer
  named_type : ℕ → Bool → Event
  selected_action : ℕ → ℕ → Event
  -- of the data device
  introduced : ℕ → ℕ → Bool → Event
  entered : Option (ℕ × ℕ) → Bool → Event
  left : Event
  released : Option (ℕ × ℕ) → Bool → ℕ → Event
  clipboard : Option ℕ → Event
  -- of the client: its loop polls, takes the paths of a drop, and ends
  polled : ℕ → List Answer → Event
  taken_paths : Event
  ended : Event

unfoldable pub step : Event → State → State
step (announced name interface version) s = global name interface version s
step (withdrawn name) s = removed name s
step (named_type p uris) s = mime p uris s
step (selected_action p a) s = action p a s
step (introduced p version allocated) s = offered p version allocated s
step (entered o own) s = enter o own s
step left s = leave s
step (released ends allocated now) s = dropped ends allocated now s
step (clipboard o) s = selection o s
step (polled now answers) s = poll now answers s
step taken_paths s = record s { drop = (Drop.take_pending s.drop).1 }
step ended s = free s

unfoldable pub run : List Event → State → State
unfolding step
run [] s = s
run (e ∷ es) s = run es (step e s)
