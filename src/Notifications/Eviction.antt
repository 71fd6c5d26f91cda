-- ===== src/Notifications/Eviction.antt =====
-- The slot that zc_notifications_show takes: one of the slots, a free one or the oldest.
use native.Mathlib.Nat.{le_refl, add-zero, zero-add}
use zimbr.Prelude.{
  ℕ, zero, suc, ◌+◌, ◌≤◌, ◌<◌, ◌≡◌, refl, true, false, List, [], ◌∷◌, if◌then◌else◌, ltb, length,
  get_or, arith, Bool-cases, inl, inr,
}
use zimbr.Notifications.State.{Notice, cleared, Notifications, is_live, at_slot}
use zimbr.Notifications.Requests.{choose, chosen}

choose-lt :
    (vs : List Notice) (i slot serial : ℕ)
    → slot < i + length vs
    → choose vs i slot serial < i + length vs
unfolding choose
choose-lt [] i slot serial h = h
choose-lt (v ∷ vs) i slot serial h = ground (
  arith,
  choose-lt vs (i + 1) (if ltb v.serial serial then i else slot)
      (if ltb v.serial serial then v.serial else serial),
)

-- the slot that is picked is one of the slots
pub chosen-lt : (n : Notifications) → 0 < length n.notices → chosen n < length n.notices
unfolding chosen
chosen-lt n h = omega (arith, choose-lt n.notices 0 0 (at_slot n 0).serial (omega (arith, h)))

abbrev nth : List Notice → ℕ → Notice
nth vs i = get_or vs i cleared

shift : (i k : ℕ) → i + 1 + k ≡ i + suc k
shift i k = omega arith

-- `vs` are the slots of `all` from index i on, and `slot` is the best before, with its serial.
module _ (all : List Notice) where
  choose-least :
      (vs : List Notice) (i slot serial : ℕ)
      → ((k : ℕ) → k < length vs → nth all (i + k) ≡ nth vs k)
      → (nth all slot).serial ≡ serial
      → ((k : ℕ) → k < length vs → is_live (nth vs k) ≡ true)
      → ((nth all (choose vs i slot serial)).serial ≤ serial)
        × ((k : ℕ) → k < length vs → (nth all (choose vs i slot serial)).serial ≤ (nth vs k).serial)
  unfolding choose
  choose-least [] i slot serial at e live = (rw e (le_refl serial), λ k lt. absurd (omega arith))
  choose-least (v ∷ vs) i slot serial at e live =
      let here : nth all i ≡ v = rw (← add-zero i) (at 0 (omega arith)) in
      let later : (k : ℕ) → k < length vs → nth all (i + 1 + k) ≡ nth vs k =
        λ k lt. rw (shift i k) (at (suc k) (omega arith)) in
      let live' : (k : ℕ) → k < length vs → is_live (nth vs k) ≡ true =
        λ k lt. live (suc k) (omega arith) in
      let taken = choose-least vs (i + 1) i v.serial later (rw here refl) live' in
      let passed = choose-least vs (i + 1) slot serial later e live' in
      rw (live 0 (omega arith)) (elim (Bool-cases (ltb v.serial serial)) [
        | inl less ↦
            rw less
              (ground (arith, taken.0), (extend (choose vs (i + 1) i v.serial) taken.0 taken.1))
        | inr more ↦
            rw more
              (passed.0, extend (choose vs (i + 1) slot serial) (ground (arith, passed.0)) passed.1)
      ])
    where
      extend :
          (r : ℕ)
          → (nth all r).serial ≤ v.serial
          → ((k : ℕ) → k < length vs → (nth all r).serial ≤ (nth vs k).serial)
          → (k : ℕ) → k < suc (length vs)
          → (nth all r).serial ≤ (nth (v ∷ vs) k).serial
      extend r h hs zero lt = h
      extend r h hs (suc k) lt = hs k (omega arith)

  choose-free :
      (vs : List Notice) (i slot serial k : ℕ)
      → ((k : ℕ) → k < length vs → nth all (i + k) ≡ nth vs k)
      → k < length vs
      → is_live (nth vs k) ≡ false
      → is_live (nth all (choose vs i slot serial)) ≡ false
  unfolding choose
  choose-free [] i slot serial k at lt e = absurd (omega arith)
  choose-free (v ∷ vs) i slot serial zero at lt e =
      let here : nth all i ≡ v = rw (← add-zero i) (at 0 (omega arith)) in rw e (rw here e)
  choose-free (v ∷ vs) i slot serial (suc k) at lt e =
      let here : nth all i ≡ v = rw (← add-zero i) (at 0 (omega arith)) in
      let rest =
        choose-free vs (i + 1) (if ltb v.serial serial then i else slot)
          (if ltb v.serial serial then v.serial else serial) k
          (λ j lt'. rw (shift i j) (at (suc j) (omega arith))) (omega arith) e in
      elim (Bool-cases (is_live v)) [ inl live ↦ rw live rest | inr dead ↦ rw dead (rw here dead) ]

-- A new notification takes a free slot, if there is one.
pub chosen-free :
    (n : Notifications) (slot : ℕ)
    → slot < length n.notices
    → is_live (at_slot n slot) ≡ false
    → is_live (at_slot n (chosen n)) ≡ false
unfolding chosen
chosen-free n slot lt e =
    choose-free n.notices n.notices 0 0 (at_slot n 0).serial slot (λ k _. rw (zero-add k) refl) lt e

-- If every slot is taken, a new notification takes the place of the oldest: its slot is one of
-- the slots, and no other has a lesser serial.
pub chosen-least :
    (n : Notifications)
    → ((k : ℕ) → k < length n.notices → is_live (at_slot n k) ≡ true)
    → (slot : ℕ) → slot < length n.notices
    → (chosen n < length n.notices) × ((at_slot n (chosen n)).serial ≤ (at_slot n slot).serial)
unfolding chosen
chosen-least n full slot lt = (
  chosen-lt n (omega (arith, lt)),
  (choose-least n.notices n.notices 0 0 (at_slot n 0).serial (λ k _. rw (zero-add k) refl) refl
        full).1
      slot lt,
)
