-- ===== src/Prelude/Tests.antt =====
-- Boolean tests on the native numbers, the conditional, and case splits that keep an equation.
use Prim.Native.Nat.{ℕ, ◌≤◌, ◌<◌, compare, Ordering}
use mathlib.Core.Path.{◌≡◌, refl}
use mathlib.Core.Logic.{◌↔◌, ◌⊎◌, inl, inr}
use mathlib.Core.Bool.{Bool, true, false, not, ◌&&◌, ◌||◌}
use mathlib.Core.Option.{Option, none, some}
use native.Mathlib.Omega.{arith}

abbrev pub ltb : ℕ → ℕ → Bool
ltb a b = elim (compare a b) [ Ordering.lt ↦ true | _ ↦ false ]

abbrev pub leb : ℕ → ℕ → Bool
leb a b = elim (compare a b) [ Ordering.gt ↦ false | _ ↦ true ]

infix 50 ◌==◌
abbrev pub ◌==◌ : ℕ → ℕ → Bool
a == b = elim (compare a b) [ Ordering.eq ↦ true | _ ↦ false ]

infix 1 if◌then◌else◌
abbrev pub if◌then◌else◌ {ℓ} : {A : Type ℓ} → Bool → A → A → A
if true then x else y = x
if false then x else y = y

pub ltb→lt : (a b : ℕ) → ltb a b ≡ true → a < b
ltb→lt a b h = ground arith

pub lt→ltb : (a b : ℕ) → a < b → ltb a b ≡ true
lt→ltb a b h = ground arith

pub ltb→le : (a b : ℕ) → ltb a b ≡ false → b ≤ a
ltb→le a b h = ground arith

pub ==_refl : (a : ℕ) → (a == a) ≡ true
==_refl a = ground arith

pub ==_iff : (a b : ℕ) → ((a == b) ≡ true) ↔ (a ≡ b)
==_iff a b = ground arith

pub Bool-cases : (b : Bool) → (b ≡ true) ⊎ (b ≡ false)
Bool-cases true = inl refl
Bool-cases false = inr refl

pub Option-cases {ℓ} : {A : Type ℓ} (o : Option A) → (o ≡ none) ⊎ ((a : A) × (o ≡ some a))
Option-cases none = inl refl
Option-cases (some a) = inr (a, refl)

-- Sequencing of fallible steps.
infixl 10 ◌>>=◌
abbrev pub ◌>>=◌ {ℓ κ} : {A : Type ℓ} {B : Type κ} → Option A → (A → Option B) → Option B
none >>= f = none
some a >>= f = f a

-- Inversion of a step that succeeded.
pub >>=-eq-some {ℓ κ} :
    {A : Type ℓ} {B : Type κ} (m : Option A) (f : A → Option B) {b : B}
    → (m >>= f) ≡ some b
    → (a : A) × (m ≡ some a) × (f a ≡ some b)
>>=-eq-some none f h = cc
>>=-eq-some (some a) f h = (a, refl, h)

pub some_inj {ℓ} : {A : Type ℓ} {a b : A} → some a ≡ some b → a ≡ b
some_inj h = cc

-- A test that sends its branch to a failure did not hold where there is a result.
pub else-eq-some {ℓ} :
    {A : Type ℓ} (b : Bool) (x : Option A) {a : A} → (if b then none else x) ≡ some a → x ≡ some a
else-eq-some true x h = cc
else-eq-some false x h = h

pub else_false {ℓ} :
    {A : Type ℓ} (b : Bool) (x : Option A) {a : A} → (if b then none else x) ≡ some a → b ≡ false
else_false true x h = cc
else_false false x h = refl

-- a property of both branches
pub if_both {ℓ κ} :
    {A : Type ℓ} (P : A → Type κ) (b : Bool) (x y : A) → P x → P y → P (if b then x else y)
if_both P true x y hx hy = hx
if_both P false x y hx hy = hy

-- a relation of the results of two conditionals with one test
pub if_two {ℓ κ μ} :
    {A : Type ℓ} {B : Type κ} (R : A → B → Type μ) (b : Bool) (x y : A) (x' y' : B)
    → R x x'
    → R y y'
    → R (if b then x else y) (if b then x' else y')
if_two R true x y x' y' hx hy = hx
if_two R false x y x' y' hx hy = hy

-- a property of both branches, each with what the test says
pub if_case {ℓ κ} :
    {A : Type ℓ} (P : A → Type κ) (b : Bool) (x y : A)
    → (b ≡ true → P x)
    → (b ≡ false → P y)
    → P (if b then x else y)
if_case P true x y hx hy = hx refl
if_case P false x y hx hy = hy refl

-- the parts of a test
pub or_first : (a b : Bool) → (a || b) ≡ false → a ≡ false
or_first true b h = cc
or_first false b h = refl

pub or_second : (a b : Bool) → (a || b) ≡ false → b ≡ false
or_second true b h = cc
or_second false b h = h

pub and_first : (a b : Bool) → (a && b) ≡ true → a ≡ true
and_first true b h = refl
and_first false b h = cc

pub and_second : (a b : Bool) → (a && b) ≡ true → b ≡ true
and_second true b h = h
and_second false b h = cc

pub true_of_not : (a : Bool) → not a ≡ false → a ≡ true
true_of_not true h = refl
true_of_not false h = cc
