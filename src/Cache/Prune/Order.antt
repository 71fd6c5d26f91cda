-- ===== src/Cache/Prune/Order.antt =====
-- zc_cache_prune of src/client/media.c: the order in which files are removed, and that sorting
-- keeps them.
use zimbr.Prelude.Int.{ℤ, pos, negsuc, pos_part, neg_part, ltb_ℤ}
use zimbr.Prelude.{
  ℕ, zero, suc, take, drop, ◌+◌, ◌≡◌, refl, ◌∙◌, ap, Bool, true, false, List, [], ◌∷◌, ltb, ◌<◌,
  ◌≤◌, ◌⊎◌, if◌then◌else◌, length, All, Bool-cases, inl, inr, arith,
}
use zimbr.Cache.Prune.{Entry, oldest, insert, qsort}

-- a was used no later than b
abbrev pub is_older : Entry → Entry → Bool
is_older a b = if ltb_ℤ (oldest b a) (pos 0) then false else true

-- the sizes of the files together
unfoldable pub total : List Entry → ℕ
total [] = 0
total (e ∷ es) = e.bytes + total es

pub total-insert : (e : Entry) (es : List Entry) → total (insert e es) ≡ e.bytes + total es
unfolding total insert
total-insert e [] = refl
total-insert e (f ∷ fs) = elim (Bool-cases (ltb_ℤ (oldest f e) (pos 0))) [
  | inl h ↦ rw h (omega (arith, total-insert e fs))
  | inr h ↦ rw h refl
]

pub length-insert : (e : Entry) (es : List Entry) → length (insert e es) ≡ suc (length es)
unfolding insert
length-insert e [] = refl
length-insert e (f ∷ fs) = elim (Bool-cases (ltb_ℤ (oldest f e) (pos 0))) [
  | inl h ↦ rw h (ap suc (length-insert e fs))
  | inr h ↦ rw h refl
]

pub total-qsort : (es : List Entry) → total (qsort es) ≡ total es
unfolding qsort total
total-qsort [] = refl
total-qsort (e ∷ es) = total-insert e (qsort es) ∙ ap (λ n. e.bytes + n) (total-qsort es)

pub length-qsort : (es : List Entry) → length (qsort es) ≡ length es
unfolding qsort
length-qsort [] = refl
length-qsort (e ∷ es) = length-insert e (qsort es) ∙ ap suc (length-qsort es)

-- the comparison of two times, of which `below` and `above` compare the seconds
abbrev verdict : (below above : Bool) → (n m : ℕ) → ℤ
verdict below above n m =
    if below
    then negsuc 0
    else if above
    then pos 1
    else if ltb n m
    then negsuc 0
    else if ltb m n
    then pos 1
    else pos 0

-- a time is no later than another
abbrev IsBefore : (x y n m : ℕ) → Type 0
IsBefore x y n m = (x < y) ⊎ ((x ≡ y) × (n ≤ m))

times_of_test :
    (x y n m : ℕ)
    → (if ltb_ℤ (verdict (ltb y x) (ltb x y) m n) (pos 0) then false else true) ≡ true
    → IsBefore x y n m
times_of_test x y n m h = ground arith

test_of_before :
    (x y n m : ℕ)
    → IsBefore x y n m
    → (if ltb_ℤ (verdict (ltb y x) (ltb x y) m n) (pos 0) then false else true) ≡ true
test_of_before x y n m h = ground arith

-- the seconds of two times, on one side of zero
abbrev left_sec : Entry → Entry → ℕ
left_sec a b = pos_part a.used.sec + neg_part b.used.sec

times_of_older :
    (a b : Entry)
    → is_older a b ≡ true
    → IsBefore (left_sec a b) (left_sec b a) a.used.nsec b.used.nsec
unfolding oldest
times_of_older a b h = times_of_test (left_sec a b) (left_sec b a) a.used.nsec b.used.nsec h

older_of_before :
    (a b : Entry)
    → IsBefore (left_sec a b) (left_sec b a) a.used.nsec b.used.nsec
    → is_older a b ≡ true
unfolding oldest
older_of_before a b h = test_of_before (left_sec a b) (left_sec b a) a.used.nsec b.used.nsec h

times_trans :
    (a b c d e f n m o : ℕ)
    → IsBefore (a + d) (b + c) n m
    → IsBefore (b + f) (e + d) m o
    → IsBefore (a + f) (e + c) n o
times_trans a b c d e f n m o (inl h) (inl k) = inl (omega arith)
times_trans a b c d e f n m o (inl h) (inr k) = inl (omega arith)
times_trans a b c d e f n m o (inr h) (inl k) = inl (omega arith)
times_trans a b c d e f n m o (inr h) (inr k) = inr (omega arith, omega arith)

pub older_trans : (a b c : Entry) → is_older a b ≡ true → is_older b c ≡ true → is_older a c ≡ true
older_trans a b c h k = older_of_before a c (
    times_trans (pos_part a.used.sec) (pos_part b.used.sec) (neg_part a.used.sec)
      (neg_part b.used.sec) (pos_part c.used.sec) (neg_part c.used.sec) a.used.nsec b.used.nsec
      c.used.nsec (times_of_older a b h) (times_of_older b c k))

times_total : (x y n m : ℕ) → IsBefore x y n m ⊎ IsBefore y x m n
times_total x y n m = grind arith

-- where e goes after f, f is older
older_of_after : (f e : Entry) → ltb_ℤ (oldest f e) (pos 0) ≡ true → is_older f e ≡ true
older_of_after f e h = elim (times_total (left_sec f e) (left_sec e f) f.used.nsec e.used.nsec) [
  | inl k ↦ older_of_before f e k
  | inr k ↦ let t = older_of_before e f k in cc
]

older_of_not_after : (f e : Entry) → ltb_ℤ (oldest f e) (pos 0) ≡ false → is_older e f ≡ true
older_of_not_after f e h = rw h refl

abbrev pub IsOlderThan : List Entry → Entry → Type 0
IsOlderThan es e = All (λ f. is_older e f ≡ true) es

-- each file was used no later than those after it
abbrev pub IsSorted : List Entry → Type 0
IsSorted [] = Unit
IsSorted (e ∷ es) = IsOlderThan es e × IsSorted es

older_of_all :
    (e f : Entry) (fs : List Entry) → is_older e f ≡ true → IsOlderThan fs f → IsOlderThan fs e
older_of_all e f [] h k = tt
older_of_all e f (g ∷ gs) h k = (older_trans e f g h k.0, older_of_all e f gs h k.1)

insert-IsOlderThan :
    (g e : Entry) (es : List Entry)
    → is_older g e ≡ true
    → IsOlderThan es g
    → IsOlderThan (insert e es) g
unfolding insert
insert-IsOlderThan g e [] h k = (h, tt)
insert-IsOlderThan g e (f ∷ fs) h k = elim (Bool-cases (ltb_ℤ (oldest f e) (pos 0))) [
  | inl t ↦ rw t (k.0, insert-IsOlderThan g e fs h k.1)
  | inr t ↦ rw t (h, k)
]

insert-IsSorted : (e : Entry) (es : List Entry) → IsSorted es → IsSorted (insert e es)
unfolding insert
insert-IsSorted e [] h = (tt, tt)
insert-IsSorted e (f ∷ fs) h = elim (Bool-cases (ltb_ℤ (oldest f e) (pos 0))) [
  | inl t ↦ rw t (insert-IsOlderThan f e fs (older_of_after f e t) h.0, insert-IsSorted e fs h.1)
  | inr t ↦ rw t ((older_of_not_after f e t, older_of_all e f fs (older_of_not_after f e t) h.0), h)
]

pub qsort-IsSorted : (es : List Entry) → IsSorted (qsort es)
unfolding qsort
qsort-IsSorted [] = tt
qsort-IsSorted (e ∷ es) = insert-IsSorted e (qsort es) (qsort-IsSorted es)

-- all the first n files were used no later than the others
drop-IsOlderThan :
    (n : ℕ) (e : Entry) (es : List Entry) → IsOlderThan es e → IsOlderThan (drop n es) e
drop-IsOlderThan zero e es h = h
drop-IsOlderThan (suc n) e [] h = tt
drop-IsOlderThan (suc n) e (f ∷ fs) h = drop-IsOlderThan n e fs h.1

pub first-IsOlderThan :
    (n : ℕ) (es : List Entry) → IsSorted es → All (IsOlderThan (drop n es)) (take n es)
first-IsOlderThan zero es h = tt
first-IsOlderThan (suc n) [] h = tt
first-IsOlderThan (suc n) (e ∷ es) h = (drop-IsOlderThan n e es h.0, first-IsOlderThan n es h.1)
