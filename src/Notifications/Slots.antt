-- ===== src/Notifications/Slots.antt =====
-- The slots of the notifications object, one by one and counted, under each of its writes.
use zimbr.Prelude.{
  ℕ, zero, suc, ◌+◌, ◌-◌, ◌≤◌, ◌<◌, ◌≡◌, refl, sym, ap, Bool, true, false, List, [], ◌∷◌, ◌==◌,
  if◌then◌else◌, length, length-set, get_or, set, replicate, arith, Bool-cases, inl, inr,
}
use zimbr.Notifications.State.{
  Bytes, limit, Notice, cleared, Notifications, at_slot, put_slot, release, close_id,
}
use zimbr.Notifications.Requests.{shows}

abbrev pub one : Bool → ℕ
one true = 1
one false = 0

-- how many slots show a conversation
unfoldable pub count : Bytes → List Notice → ℕ
count chat [] = 0
count chat (v ∷ vs) = one (shows chat v) + count chat vs

pub get_or-set :
    (vs : List Notice) (i j : ℕ) (v : Notice)
    → i < length vs
    → get_or (set vs i v) j cleared ≡ (if i == j then v else get_or vs j cleared)
get_or-set [] i j v h = absurd (omega arith)
get_or-set (w ∷ vs) zero zero v h = refl
get_or-set (w ∷ vs) zero (suc j) v h = ground arith
get_or-set (w ∷ vs) (suc i) zero v h = ground arith
get_or-set (w ∷ vs) (suc i) (suc j) v h = ground (arith, get_or-set vs i j v)

pub count-set :
    (chat : Bytes) (vs : List Notice) (i : ℕ) (v : Notice)
    → i < length vs
    → count chat (set vs i v) + one (shows chat (get_or vs i cleared))
      ≡ count chat vs + one (shows chat v)
unfolding count
count-set chat [] i v h = absurd (omega arith)
count-set chat (w ∷ vs) zero v h = omega arith
count-set chat (w ∷ vs) (suc i) v h = omega (arith, count-set chat vs i v (omega arith))

pub count-none :
    (chat : Bytes) (vs : List Notice)
    → ((i : ℕ) → i < length vs → shows chat (get_or vs i cleared) ≡ false)
    → count chat vs ≡ 0
unfolding count
count-none chat [] h = refl
count-none chat (v ∷ vs) h =
    let first : shows chat v ≡ false = h 0 (omega arith) in
    rw first (rw (count-none chat vs (λ i lt. h (suc i) (omega arith))) refl)

-- Replacing a slot by one that shows the same conversation.
count-set_same :
    (chat : Bytes) (vs : List Notice) (i : ℕ) (v : Notice)
    → shows chat v ≡ shows chat (get_or vs i cleared)
    → count chat (set vs i v) ≡ count chat vs
unfolding count
count-set_same chat [] i v h = refl
count-set_same chat (w ∷ vs) zero v h = rw h refl
count-set_same chat (w ∷ vs) (suc i) v h =
    ap (λ x. one (shows chat w) + x) (count-set_same chat vs i v h)

count-set-cleared :
    (chat : Bytes) (vs : List Notice) (i : ℕ) → count chat (set vs i cleared) ≤ count chat vs
unfolding count
count-set-cleared chat [] i = omega arith
count-set-cleared chat (w ∷ vs) zero = omega arith
count-set-cleared chat (w ∷ vs) (suc i) = omega (arith, count-set-cleared chat vs i)

pub count-replicate : (chat : Bytes) (k : ℕ) → count chat (replicate k cleared) ≡ 0
unfolding count
count-replicate chat zero = refl
count-replicate chat (suc k) = rw (count-replicate chat k) refl

-- `m` has the slots of `n`, and shows no conversation more often.
pub record Within (n m : Notifications) : Type 0 where
  pub size : length m.notices ≡ length n.notices
  pub fewer : (chat : Bytes) → count chat m.notices ≤ count chat n.notices

pub Within-refl : (n : Notifications) → Within n n
Within-refl n = record { size = refl; fewer = λ chat. omega arith }

pub Within-trans : {n m k : Notifications} → Within n m → Within m k → Within n k
Within-trans a b = record {
  size = omega (arith, a.size, b.size);
  fewer = λ chat. omega (arith, a.fewer chat, b.fewer chat);
}

pub Within-if :
    (b : Bool) {n m k : Notifications} → Within n m → Within n k → Within n (if b then m else k)
Within-if true x y = x
Within-if false x y = y

pub Within-eq : (n m : Notifications) → m.notices ≡ n.notices → Within n m
Within-eq n m e = record { size = ap length e; fewer = λ chat. rw e (omega arith) }

module _ (n : Notifications) (slot : ℕ) where
  pub Within-cleared : Within n (put_slot n slot cleared)
  unfolding put_slot
  Within-cleared = record {
    size = length-set n.notices slot cleared;
    fewer = λ chat. count-set-cleared chat n.notices slot;
  }

  pub Within-same : (v : Notice) → v.chat ≡ (at_slot n slot).chat → Within n (put_slot n slot v)
  unfolding put_slot
  Within-same v e = record {
    size = length-set n.notices slot v;
    fewer = λ chat. rw (count-set_same chat n.notices slot v (rw e refl)) (omega arith);
  }

pub notices-close_id : (n : Notifications) (id : ℕ) → (close_id n id).notices ≡ n.notices
unfolding close_id
notices-close_id n id = ground arith

pub Within-release : (n : Notifications) → length n.notices ≡ limit → Within n (release n)
unfolding release
Within-release n h = elim (Bool-cases (n.refs - 1 == 0)) [
  | inl e ↦ rw e (record { size = sym h; fewer = λ chat. rw count-replicate (omega arith) })
  | inr e ↦ rw e (Within-eq _ _ refl)
]
