-- ===== src/Drop/Delivery.antt =====
-- The batch that waits between the compositor's callbacks and the composer, over any sequence of
-- the calls that src/client/drop.c offers.
use zimbr.Prelude.{
  suc, ◌≤◌, ◌≡◌, refl, ap, inl, inr, subst, Bool, true, false, not, ◌||◌, Option, none, some, List,
  [], ◌∷◌, ltb, leb, ◌==◌, >>=-eq-some, some_inj, else-eq-some, else_false, length, get_or, All,
  arith, Bool-cases,
}
use zimbr.Drop.{
  Bytes, drop_files, drop_path, has_control, parse, DropState, initial, reject, set_hovered,
  take_error, take_pending, store, offer, check_paths, offer_paths,
}
use zimbr.Drop.Bounds.{IsPrintable, IsSafePath, parse-IsSafePath}

pub data Call : Type 0 where
  offered : Bytes → Call
  named : List (Option Bytes) → Call
  hover : Bool → Call
  refused : Call
  taken : Call
  asked : Call

pub apply : DropState → Call → DropState
apply s (offered text) = offer text s
apply s (named paths) = offer_paths paths s
apply s (hover active) = set_hovered active s
apply s refused = reject s
apply s taken = (take_pending s).1
apply s asked = (take_error s).1

pub after_calls : DropState → List Call → DropState
after_calls s [] = s
after_calls s (c ∷ cs) = after_calls (apply s c) cs

abbrev pub IsBatch : List Bytes → Type 0
IsBatch paths = (length paths ≤ drop_files) × All IsSafePath paths

has_control-All : (path : Bytes) → has_control path ≡ false → All IsPrintable path
unfolding has_control
has_control-All [] h = tt
has_control-All (c ∷ cs) h = (ground arith, has_control-All cs (ground arith))

check_paths-IsBatch :
    (paths : List (Option Bytes)) (accepted : List Bytes)
    → check_paths paths ≡ some accepted
    → (length accepted ≡ length paths) × All IsSafePath accepted
unfolding check_paths
check_paths-IsBatch [] accepted h = ground arith
check_paths-IsBatch (none ∷ rest) accepted h = cc
check_paths-IsBatch (some path ∷ rest) accepted h =
    let bad = not (get_or path 0 0 == b'/') || leb drop_path (length path) || has_control path in
    let safe : bad ≡ false = else_false bad _ h in
    let (paths, e, k) = >>=-eq-some (check_paths rest) _ (else-eq-some bad _ h) in
    let (len, all_safe) = check_paths-IsBatch rest paths e in
    subst (λ x. (length x ≡ suc (length rest)) × All IsSafePath x) (some_inj k)
      (
        ap suc len,
        (
          record {
            absolute = ground arith;
            short = ground arith;
            printable = has_control-All path (ground arith);
          },
          all_safe,
        ),
      )

store-IsBatch :
    (parsed : Option (List Bytes)) (s : DropState)
    → ((ps : List Bytes) → parsed ≡ some ps → IsBatch ps)
    → IsBatch (store parsed s).pending
unfolding store
store-IsBatch none s h = (omega arith, tt)
store-IsBatch (some ps) s h = h ps refl

offer_paths-IsBatch :
    (paths : List (Option Bytes)) (s : DropState) → IsBatch (offer_paths paths s).pending
unfolding offer_paths
offer_paths-IsBatch paths s =
    elim (Bool-cases ((length paths == 0) || ltb drop_files (length paths))) [
      | inl e ↦ rw e (omega arith, tt)
      | inr e ↦ rw e (
          store-IsBatch (check_paths paths) _
            λ ps k. let (len, safe) = check_paths-IsBatch paths ps k in (ground arith, safe))
    ]

take_pending-IsBatch : (s : DropState) → IsBatch s.pending → IsBatch (take_pending s).1.pending
unfolding take_pending
take_pending-IsBatch s h = elim (Bool-cases (length s.pending == 0)) [
  | inl e ↦ rw e h
  | inr e ↦ rw e (omega arith, tt)
]

apply-IsBatch : (s : DropState) (c : Call) → IsBatch s.pending → IsBatch (apply s c).pending
unfolding apply
apply-IsBatch s (offered text) h =
    unfold offer in store-IsBatch (parse text) _ (parse-IsSafePath text)
apply-IsBatch s (named paths) h = offer_paths-IsBatch paths s
apply-IsBatch s (hover active) h = unfold set_hovered in h
apply-IsBatch s refused h = unfold reject in h
apply-IsBatch s taken h = take_pending-IsBatch s h
apply-IsBatch s asked h = unfold take_error in h

-- Whatever calls are made, in any order, the waiting batch holds at most sixteen safe paths.
pub after_calls-IsBatch : (cs : List Call) → IsBatch (after_calls initial cs).pending
unfolding after_calls
after_calls-IsBatch cs = from initial cs (omega arith, tt)
  where
    from : (s : DropState) (cs : List Call) → IsBatch s.pending → IsBatch (after_calls s cs).pending
    from s [] h = h
    from s (c ∷ cs) h = from (apply s c) cs (apply-IsBatch s c h)

-- what zc_drop_take returns for a batch
abbrev pub nonempty : Option (List Bytes) → Option (List Bytes)
nonempty none = none
nonempty (some []) = none
nonempty (some (p ∷ ps)) = some (p ∷ ps)

abbrev pub is_none {ℓ} : {A : Type ℓ} → Option A → Bool
is_none none = true
is_none (some a) = false

-- An offered text replaces the waiting batch by all its paths or by none. The next take returns
-- exactly these, and the one after it nothing; a rejected text sets the error, and an accepted one
-- leaves the error as it was.
pub take_pending-offer :
    (text : Bytes) (s : DropState)
    → ((take_pending (offer text s)).0 ≡ nonempty (parse text))
      × ((take_pending (take_pending (offer text s)).1).0 ≡ none)
      × ((take_error (offer text s)).0 ≡ (is_none (parse text) || s.rejected))
unfolding offer take_pending take_error
take_pending-offer text s = cases (parse text)
  where
    cases :
        (parsed : Option (List Bytes))
        → ((take_pending (store parsed (set_hovered false s))).0 ≡ nonempty parsed)
          × ((take_pending (take_pending (store parsed (set_hovered false s))).1).0 ≡ none)
          × ((take_error (store parsed (set_hovered false s))).0 ≡ (is_none parsed || s.rejected))
    cases none = (refl, refl, refl)
    cases (some []) = (refl, refl, refl)
    cases (some (p ∷ ps)) = (ground arith, ground arith, refl)
