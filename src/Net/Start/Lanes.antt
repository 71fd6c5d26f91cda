-- ===== src/Net/Start/Lanes.antt =====
-- A start takes a free lane with a slot that is ready, or changes nothing.
use zimbr.Prelude.Int.{pos}
use zimbr.Prelude.{
  ℕ, zero, suc, ◌+◌, ◌*◌, ◌^◌, ◌≤◌, ◌≡◌, refl, ◌∙◌, ap, Bool, true, false, not, ◌||◌, Option, none,
  some, List, [], ◌∷◌, ◌==◌, ltb, leb, ltb→le, if◌then◌else◌, length, get_or, set, arith, ◌⊎◌, inl,
  inr,
}
use zimbr.Net.Slot.{Bytes, Slot, no_error, config, empty}
use zimbr.Net.Start.{
  Net, is_free, at, put, clear_slot, url_capacity, is_path, Curl, start_lane, start, change,
  then_change, start_file, all_epoch_bytes, upload_cap, is_done_slot, then_upload, start_upload,
}

-- a slot that has received, written and sent nothing, with no answer's status, headers or alert; it
-- waits for its transfer, or is done where libcurl refused an option
pub record IsReady (i : ℕ) (s : Slot) : Type 0 where
  pub index : s.index ≡ i
  pub file : s.file ≡ []
  pub body : s.body ≡ []
  pub len : s.len ≡ 0
  pub status : s.status ≡ 0
  pub alert : s.alert ≡ 0
  pub extensions : s.extensions ≡ []
  pub mime : s.mime ≡ []
  pub extension_seen : s.extension_seen ≡ false
  pub sent : s.sent ≡ 0
  pub read_offset : s.read_offset ≡ 0
  pub upload_length : s.upload_length ≤ upload_cap
  pub expected : s.expected ≤ 8 * 1024 * 1024
  pub is_upload : (s.is_upload ≡ false) ⊎ (i ≡ 4)
  pub outcome :
      ((s.is_done ≡ false) × (s.kind ≡ no_error)) ⊎ ((s.is_done ≡ true) × (s.kind ≡ config))

abbrev pub IsStarted : ℕ → Net → Bool × Net → Type 0
IsStarted i n (false, m) = m.slots ≡ n.slots
IsStarted i n (true, m) =
    (i ≤ 4)
    × (is_free (at n i) ≡ true)
    × ((s : Slot) × (m.slots ≡ set n.slots i (some s)) × IsReady i s)

-- a lane that is taken and given back
put_back :
    (slots : List (Option Slot)) (i : ℕ) (v : Option Slot)
    → is_free (get_or slots i none) ≡ true
    → set (set slots i v) i none ≡ slots
put_back [] i v h = refl
put_back (none ∷ slots) zero v h = refl
put_back (some s ∷ slots) zero v h = cc
put_back (s ∷ slots) (suc i) v h = ap (λ r. s ∷ r) (put_back slots i v h)

set-set :
    (slots : List (Option Slot)) (i : ℕ) (u v : Option Slot)
    → set (set slots i u) i v ≡ set slots i v
set-set [] i u v = refl
set-set (s ∷ slots) zero u v = refl
set-set (s ∷ slots) (suc i) u v = ap (λ r. s ∷ r) (set-set slots i u v)

both {ℓ κ} :
    {A : Type ℓ} (P : A → Type κ) (b : Bool) (x y : A)
    → (b ≡ true → P x)
    → (b ≡ false → P y)
    → P (if b then x else y)
both P true x y hx hy = hx refl
both P false x y hx hy = hy refl

no_or : (a b : Bool) → a || b ≡ false → (a ≡ false) × (b ≡ false)
no_or true b h = cc
no_or false b h = (refl, h)

no_not : (a : Bool) → not a ≡ false → a ≡ true
no_not true h = refl
no_not false h = cc

-- the slot that a start puts, with libcurl configured or not
abbrev fresh : ℕ → ℕ → Slot
fresh i now = record (empty i) { last_rx = now }

abbrev failed : ℕ → ℕ → Slot
failed i now = record (fresh i now) { kind = config; is_done = true }

fresh-IsReady : (i now : ℕ) (b : Bool) → IsReady i (if b then fresh i now else failed i now)
fresh-IsReady i now true = record {
  index = refl;
  file = refl;
  body = refl;
  len = refl;
  status = refl;
  alert = refl;
  extensions = refl;
  mime = refl;
  extension_seen = refl;
  sent = refl;
  read_offset = refl;
  upload_length = omega arith;
  expected = omega arith;
  is_upload = inl refl;
  outcome = inl (refl, refl);
}
fresh-IsReady i now false = record {
  index = refl;
  file = refl;
  body = refl;
  len = refl;
  status = refl;
  alert = refl;
  extensions = refl;
  mime = refl;
  extension_seen = refl;
  sent = refl;
  read_offset = refl;
  upload_length = omega arith;
  expected = omega arith;
  is_upload = inl refl;
  outcome = inr (refl, refl);
}

start_lane-IsStarted :
    (curl : Curl) (i : ℕ) (path : Bytes) (body_length now : ℕ) (n : Net)
    → IsStarted i n (start_lane curl i path body_length now n)
unfolding start_lane clear_slot
start_lane-IsStarted curl i path body_length now n =
    let first = fresh i now in
    let s = if curl.is_configured then first else failed i now in
    let refused =
      ltb 4 i || not (is_free (at n i)) || not (is_path path) || leb (2 ^ 63) body_length in
    let long = leb url_capacity (length n.origin + length path) in
    let late =
      if long then (false, clear_slot i (put i (some first) n)) else (true, put i (some s) n) in
    both (IsStarted i n) refused (false, n) (if not curl.has_handle then (false, n) else late)
      (λ e. refl)
      (λ e.
        let lane =
          no_or (ltb 4 i) (not (is_free (at n i)))
            (no_or _ (not (is_path path)) (no_or _ (leb (2 ^ 63) body_length) e).0).0 in
        let free_lane = no_not (is_free (at n i)) lane.1 in
        both (IsStarted i n) (not curl.has_handle) (false, n) late (λ f. refl)
          (λ f.
            both (IsStarted i n) long (false, clear_slot i (put i (some first) n))
              (true, put i (some s) n) (λ g. put_back n.slots i (some first) free_lane)
              (λ g.
                (ltb→le 4 i lane.0, free_lane, (s, refl, fresh-IsReady i now curl.is_configured)))))

-- a slot that was put, and then written to
get_or-set :
    (slots : List (Option Slot)) (i : ℕ) (s : Slot) (f : Slot → Slot)
    → set (set slots i (some s)) i (change f (get_or (set slots i (some s)) i none))
      ≡ set slots i (some (f s))
get_or-set [] i s f = refl
get_or-set (x ∷ slots) zero s f = refl
get_or-set (x ∷ slots) (suc i) s f = ap (λ r. x ∷ r) (get_or-set slots i s f)

-- a write that keeps a slot ready
change-IsStarted :
    (f : Slot → Slot) (i : ℕ) (n m : Net)
    → ((s : Slot) → IsReady i s → IsReady i (f s))
    → IsStarted i n (true, m)
    → IsStarted i n (true, put i (change f (at m i)) m)
change-IsStarted f i n m keeps (le, free_lane, (s, e, h)) = (
  le,
  free_lane,
  (
    f s,
    ap (λ slots. set slots i (change f (get_or slots i none))) e ∙ get_or-set n.slots i s f,
    keeps s h,
  ),
)

then_change-IsStarted :
    (f : Slot → Slot) (i : ℕ) (n : Net) (r : Bool × Net)
    → ((s : Slot) → IsReady i s → IsReady i (f s))
    → IsStarted i n r
    → IsStarted i n (then_change f i r)
then_change-IsStarted f i n (false, m) keeps h = h
then_change-IsStarted f i n (true, m) keeps h = change-IsStarted f i n m keeps h

start_file-IsStarted :
    (curl : Curl) (lane : ℕ) (path : Bytes) (is_open : Bool) (expected now : ℕ) (n : Net)
    → IsStarted (lane + 2) n (start_file curl (pos lane) path is_open expected now n)
unfolding start_file
start_file-IsStarted curl lane path is_open expected now n =
    let f : Slot → Slot = λ s. record s { expected = expected } in
    let begun = start_lane curl (lane + 2) path 0 now n in
    both (IsStarted (lane + 2) n) (ltb 1 lane || not is_open || ltb (8 * 1024 * 1024) expected)
      (false, n) (then_change f (lane + 2) begun) (λ e. refl)
      (λ e.
        let small =
          ltb→le (8 * 1024 * 1024) expected
            (no_or (ltb 1 lane || not is_open) (ltb (8 * 1024 * 1024) expected) e).1 in
        then_change-IsStarted f (lane + 2) n begun
          (λ s h. record {
            index = h.index;
            file = h.file;
            body = h.body;
            len = h.len;
            status = h.status;
            alert = h.alert;
            extensions = h.extensions;
            mime = h.mime;
            extension_seen = h.extension_seen;
            sent = h.sent;
            read_offset = h.read_offset;
            upload_length = h.upload_length;
            expected = small;
            is_upload = h.is_upload;
            outcome = h.outcome;
          })
          (start_lane-IsStarted curl (lane + 2) path 0 now n))

then_upload-IsStarted :
    (fits : Bool) (size : ℕ) (n : Net) (r : Bool × Net)
    → size ≤ upload_cap
    → IsStarted 4 n r
    → IsStarted 4 n (then_upload fits size r)
unfolding clear_slot
then_upload-IsStarted fits size n (false, m) small h = h
then_upload-IsStarted fits size n (true, m) small h =
    let f : Slot → Slot = λ s. record s { is_upload = true; upload_length = size } in
    both (IsStarted 4 n) (is_done_slot (at m 4)) (true, m)
      (if fits then (true, put 4 (change f (at m 4)) m) else (false, clear_slot 4 m)) (λ e. h)
      (λ e.
        both (IsStarted 4 n) fits (true, put 4 (change f (at m 4)) m) (false, clear_slot 4 m)
          (λ g.
            change-IsStarted f 4 n m
              (λ s k. record {
                index = k.index;
                file = k.file;
                body = k.body;
                len = k.len;
                status = k.status;
                alert = k.alert;
                extensions = k.extensions;
                mime = k.mime;
                extension_seen = k.extension_seen;
                sent = k.sent;
                read_offset = k.read_offset;
                upload_length = small;
                expected = k.expected;
                is_upload = inr refl;
                outcome = k.outcome;
              })
              h)
          (λ g. ap (λ slots. set slots 4 none) h.2.1 ∙ put_back n.slots 4 (some h.2.0) h.1))

start_upload-IsStarted :
    (curl : Curl) (fits : Bool) (path epoch : Bytes) (is_open : Bool) (size now : ℕ) (n : Net)
    → IsStarted 4 n (start_upload curl fits path epoch is_open size now n)
unfolding start_upload
start_upload-IsStarted curl fits path epoch is_open size now n =
    let begun = start_lane curl 4 path 0 now n in
    let refused =
      not is_open
      || ltb upload_cap size
      || not (length epoch == 22)
      || not (all_epoch_bytes epoch) in
    both (IsStarted 4 n) refused (false, n) (then_upload fits size begun) (λ e. refl)
      (λ e.
        then_upload-IsStarted fits size n begun
          (ltb→le upload_cap size
            (no_or (not is_open) (ltb upload_cap size)
              (no_or _ (not (length epoch == 22)) (no_or _ (not (all_epoch_bytes epoch)) e).0).0).1)
          (start_lane-IsStarted curl 4 path 0 now n))

-- Each of the three starts, on a lane whose number is not negative and whatever its other arguments
-- and libcurl are, either is refused and leaves every lane as it was, or takes a lane that was free
-- and puts a slot there that has received, written and sent nothing, with an expected length
-- of at most 8 MiB and an upload length of at most 100 MiB, of an upload only in the upload's lane,
-- and leaves the other lanes as they were.
pub starts-IsStarted :
    (curl : Curl) (fits is_open : Bool) (i : ℕ) (path epoch : Bytes) (size now : ℕ) (n : Net)
    → IsStarted i n (start curl (pos i) path size now n)
      × IsStarted (i + 2) n (start_file curl (pos i) path is_open size now n)
      × IsStarted 4 n (start_upload curl fits path epoch is_open size now n)
unfolding start
starts-IsStarted curl fits is_open i path epoch size now n = (
  start_lane-IsStarted curl i path size now n,
  start_file-IsStarted curl i path is_open size now n,
  start_upload-IsStarted curl fits path epoch is_open size now n,
)
