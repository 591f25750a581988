-- ===== src/Common/Tests.antt =====
-- Boolean tests on the native numbers, the conditional, and case splits that keep an equation.
use Prim.Native.Nat.{ℕ, zero, suc, ◌≤◌, ◌<◌, compare, Ordering}
use mathlib.Core.Path.{◌≡◌, refl}
use mathlib.Core.Logic.{◌↔◌, ◌⊎◌, inl, inr}
use mathlib.Core.Bool.{Bool, true, false}
use mathlib.Core.Option.{Option, none, some}
use native.Mathlib.Omega.{arith}

abbrev pub ltb : ℕ → ℕ → Bool
ltb a b = elim (compare a b) [ Ordering.lt ↦ true | _ ↦ false ]

abbrev pub leb : ℕ → ℕ → Bool
leb a b = elim (compare a b) [ Ordering.gt ↦ false | _ ↦ true ]

infix 50 ◌==◌
abbrev pub ◌==◌ : ℕ → ℕ → Bool
a == b = elim (compare a b) [ Ordering.eq ↦ true | _ ↦ false ]

infix 1 if◌then◌else◌
abbrev pub if◌then◌else◌ {ℓ} : {A : Type ℓ} → Bool → A → A → A
if true then x else y = x
if false then x else y = y

pub ltb→lt : (a b : ℕ) → ltb a b ≡ true → a < b
ltb→lt a b h = ground arith

pub lt→ltb : (a b : ℕ) → a < b → ltb a b ≡ true
lt→ltb a b h = ground arith

pub ltb→le : (a b : ℕ) → ltb a b ≡ false → b ≤ a
ltb→le a b h = ground arith

pub le→ltb : (a b : ℕ) → b ≤ a → ltb a b ≡ false
le→ltb a b h = ground arith

pub le→leb : (a b : ℕ) → a ≤ b → leb a b ≡ true
le→leb a b h = ground arith

pub ==_iff : (a b : ℕ) → ((a == b) ≡ true) ↔ (a ≡ b)
==_iff a b = ground arith

pub Bool-cases : (b : Bool) → (b ≡ true) ⊎ (b ≡ false)
Bool-cases true = inl refl
Bool-cases false = inr refl

pub Option-cases {ℓ} : {A : Type ℓ} (o : Option A) → (o ≡ none) ⊎ ((a : A) × (o ≡ some a))
Option-cases none = inl refl
Option-cases (some a) = inr (a, refl)

-- Whether a test passes on each of the first `bound` numbers, the last one first.
unfoldable pub passes_below : (ℕ → Bool) → ℕ → Bool
passes_below test zero = true
passes_below test (suc bound) = if test bound then passes_below test bound else false

-- A table that evaluates to true is a fact about every entry.
pub passes_below-lt :
    (test : ℕ → Bool) (bound : ℕ)
    → passes_below test bound ≡ true
    → {i : ℕ} → i < bound
    → test i ≡ true
unfolding passes_below
passes_below-lt test (suc bound) table {i = i} h = elim (Bool-cases (i == bound)) [
  | inl last ↦ ground (arith, last)
  | inr other ↦ passes_below-lt test bound (ground arith) (ground arith)
]
passes_below-lt test zero table h = absurd (omega arith)

-- What holds of both branches holds of the choice between them.
pub if-cases {ℓ κ} :
    {A : Type ℓ} (P : A → Type κ) (test : Bool) {x y : A}
    → (test ≡ true → P x)
    → (test ≡ false → P y)
    → P (if test then x else y)
if-cases P true yes_case no_case = yes_case refl
if-cases P false yes_case no_case = no_case refl

-- What holds in both cases of an option holds of the choice between them.
pub option-cases {ℓ κ μ} :
    {A : Type ℓ} {B : Type κ} (P : B → Type μ) (o : Option A) {x : B} {f : A → B}
    → (o ≡ none → P x)
    → ((a : A) → o ≡ some a → P (f a))
    → P (elim o [ none ↦ x | some a ↦ f a ])
option-cases P none none_case some_case = none_case refl
option-cases P (some a) none_case some_case = some_case a refl

-- A relation between the branches of two choices by equal tests.
pub if-related {ℓ κ} :
    {A : Type ℓ} (R : A → A → Type κ) (test other : Bool) {x y u v : A}
    → test ≡ other
    → (test ≡ true → R x u)
    → (test ≡ false → R y v)
    → R (if test then x else y) (if other then u else v)
if-related R true true same yes_case no_case = yes_case refl
if-related R false false same yes_case no_case = no_case refl
if-related R true false same yes_case no_case = cc
if-related R false true same yes_case no_case = cc

pub if-map {ℓ κ} :
    {A : Type ℓ} {B : Type κ} (f : A → B) (test : Bool) (x y : A)
    → f (if test then x else y) ≡ (if test then f x else f y)
if-map f true x y = refl
if-map f false x y = refl
