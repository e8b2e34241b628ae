-- ===== src/Prelude/Tests.antt =====
-- Boolean tests on the native numbers, the conditional, and the chain of steps that may panic.
use Prim.Native.Nat.{ℕ, ◌≤◌, ◌<◌, compare, Ordering}
use mathlib.Core.Path.{◌≡◌, refl, sym, subst}
use mathlib.Core.Logic.{◌⊎◌, ◌↔◌, inl, inr}
use mathlib.Core.Bool.{Bool, true, false}
use mathlib.Core.Option.{Option, none, some}
use native.Mathlib.Omega.{arith}

-- These compute to `compare`, which `ground` and `grind` read with no lemma listed.
abbrev pub ltb : ℕ → ℕ → Bool
ltb a b = elim (compare a b) [ Ordering.lt ↦ true | _ ↦ false ]

abbrev pub leb : ℕ → ℕ → Bool
leb a b = elim (compare a b) [ Ordering.gt ↦ false | _ ↦ true ]

infix 50 ◌==◌
abbrev pub ◌==◌ : ℕ → ℕ → Bool
a == b = elim (compare a b) [ Ordering.eq ↦ true | _ ↦ false ]

infix 1 if◌then◌else◌
abbrev pub if◌then◌else◌ {ℓ} : {A : Type ℓ} → Bool → A → A → A
if true then x else y = x
if false then x else y = y

-- A Go function that may panic (an index out of range) returns an `Option`; `none` is the panic.
infixl 5 ◌>>=◌
abbrev pub ◌>>=◌ {ℓ κ} : {A : Type ℓ} {B : Type κ} → Option A → (A → Option B) → Option B
none >>= f = none
some a >>= f = f a

pub ltb→lt : (a b : ℕ) → ltb a b ≡ true → a < b
ltb→lt a b h = ground arith

pub lt→ltb : (a b : ℕ) → a < b → ltb a b ≡ true
lt→ltb a b h = ground arith

pub ltb→le : (a b : ℕ) → ltb a b ≡ false → b ≤ a
ltb→le a b h = ground arith

pub le→ltb : (a b : ℕ) → b ≤ a → ltb a b ≡ false
le→ltb a b h = ground arith

pub leb→le : (a b : ℕ) → leb a b ≡ true → a ≤ b
leb→le a b h = ground arith

pub ==_iff : (a b : ℕ) → ((a == b) ≡ true) ↔ (a ≡ b)
==_iff a b = ground arith

-- To split on a computed value and keep the equation.
pub Bool-cases : (b : Bool) → (b ≡ true) ⊎ (b ≡ false)
Bool-cases true = inl refl
Bool-cases false = inr refl

pub Option-cases {ℓ} : {A : Type ℓ} (o : Option A) → (o ≡ none) ⊎ ((a : A) × (o ≡ some a))
Option-cases none = inl refl
Option-cases (some a) = inr (a, refl)

-- Inversion of a chain that did not panic.
pub >>=-eq-some {ℓ κ} :
    {A : Type ℓ} {B : Type κ} (m : Option A) (f : A → Option B) {b : B}
    → (m >>= f) ≡ some b
    → (a : A) × (m ≡ some a) × (f a ≡ some b)
>>=-eq-some none f h = cc
>>=-eq-some (some a) f h = (a, refl, h)

-- `P` of what a chain returns, if it returns.
pub data OnSome {ℓ κ} {A : Type ℓ} (P : A → Type κ) : Option A → Type (ℓ ⊔ κ) where
  on_none : OnSome P none
  on_some : {a : A} → P a → OnSome P (some a)

pub OnSome-bind {ℓ κ μ} :
    {A : Type ℓ} {B : Type κ} (P : B → Type μ) (m : Option A) (f : A → Option B)
    → ((a : A) → m ≡ some a → OnSome P (f a))
    → OnSome P (m >>= f)
OnSome-bind P none f h = on_none
OnSome-bind P (some a) f h = h a refl

pub OnSome-if {ℓ κ} :
    {A : Type ℓ} (P : A → Type κ) (b : Bool) (x y : Option A)
    → (b ≡ true → OnSome P x)
    → (b ≡ false → OnSome P y)
    → OnSome P (if b then x else y)
OnSome-if P true x y h k = h refl
OnSome-if P false x y h k = k refl

pub OnSome-map {ℓ κ μ} :
    {A : Type ℓ} (P : A → Type κ) (Q : A → Type μ) (m : Option A)
    → ((a : A) → P a → Q a)
    → OnSome P m
    → OnSome Q m
OnSome-map P Q m f on_none = on_none
OnSome-map P Q m f (on_some {a = a} h) = on_some (f a h)

pub OnSome-all {ℓ κ} :
    {A : Type ℓ} (P : A → Type κ) (m : Option A) → ((a : A) → m ≡ some a → P a) → OnSome P m
OnSome-all P none h = on_none
OnSome-all P (some a) h = on_some (h a refl)

abbrev Holds {ℓ κ} : {A : Type ℓ} → (A → Type κ) → Option A → Type κ
Holds P none = Unit
Holds P (some a) = P a

Holds-OnSome {ℓ κ} : {A : Type ℓ} (P : A → Type κ) (m : Option A) → OnSome P m → Holds P m
Holds-OnSome P m on_none = tt
Holds-OnSome P m (on_some h) = h

pub OnSome-at {ℓ κ} :
    {A : Type ℓ} (P : A → Type κ) {m : Option A} {a : A} → OnSome P m → m ≡ some a → P a
OnSome-at P {m} h e = subst (Holds P) e (Holds-OnSome P m h)

-- A chain that does not panic, and `P` of what it returns.
pub data Returns {ℓ κ} {A : Type ℓ} (P : A → Type κ) : Option A → Type (ℓ ⊔ κ) where
  returned : {a : A} → P a → Returns P (some a)

pub Returns-bind {ℓ κ μ ν} :
    {A : Type ℓ} {B : Type κ} (Q : A → Type ν) (P : B → Type μ) (m : Option A) (f : A → Option B)
    → Returns Q m
    → ((a : A) → m ≡ some a → Q a → Returns P (f a))
    → Returns P (m >>= f)
Returns-bind Q P m f (returned {a = a} q) h = h a refl q

pub Returns-if {ℓ κ} :
    {A : Type ℓ} (P : A → Type κ) (b : Bool) (x y : Option A)
    → (b ≡ true → Returns P x)
    → (b ≡ false → Returns P y)
    → Returns P (if b then x else y)
Returns-if P true x y h k = h refl
Returns-if P false x y h k = k refl

pub Returns-map {ℓ κ μ} :
    {A : Type ℓ} (P : A → Type κ) (Q : A → Type μ) (m : Option A)
    → ((a : A) → P a → Q a)
    → Returns P m
    → Returns Q m
Returns-map P Q m f (returned {a = a} h) = returned (f a h)

pub Returns-of {ℓ κ} :
    {A : Type ℓ} (P : A → Type κ) (m : Option A) {a : A} → m ≡ some a → P a → Returns P m
Returns-of P m e h = subst (Returns P) (sym e) (returned h)

pub Returns-some {ℓ κ} :
    {A : Type ℓ} (P : A → Type κ) (m : Option A) → Returns P m → (a : A) × (m ≡ some a) × P a
Returns-some P m (returned {a = a} h) = (a, refl, h)

-- The branch taken, where a rewrite would reach into the branches too.
pub if_false {ℓ} : {A : Type ℓ} {b : Bool} (x y : A) → b ≡ false → (if b then x else y) ≡ y
if_false x y h = rw h

pub if_true {ℓ} : {A : Type ℓ} {b : Bool} (x y : A) → b ≡ true → (if b then x else y) ≡ x
if_true x y h = rw h

-- One chain returns one value.
pub some_unique {ℓ κ} :
    {A : Type ℓ} (P : A → Type κ) {m : Option A} {a b : A} → m ≡ some a → m ≡ some b → P a → P b
some_unique P {m} {a} {b} e f h = OnSome-at P (subst (OnSome P) (sym e) (on_some h)) f
