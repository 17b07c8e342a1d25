-- ===== src/Base/Tests.antt =====
-- Boolean tests on the native numbers, the conditional, and tests on optional values.
use Prim.Native.Nat.{ℕ, ◌≤◌, ◌<◌, compare, Ordering}
use mathlib.Core.Path.{◌≡◌, refl}
use mathlib.Core.Logic.{◌↔◌, ◌⊎◌, inl, inr}
use mathlib.Core.Bool.{Bool, true, false}
use mathlib.Core.Option.{Option, none, some}
use native.Mathlib.Omega.{arith}

abbrev pub ltb : ℕ → ℕ → Bool
ltb a b = elim (compare a b) [ Ordering.lt ↦ true | _ ↦ false ]

abbrev pub leb : ℕ → ℕ → Bool
leb a b = elim (compare a b) [ Ordering.gt ↦ false | _ ↦ true ]

infix 50 ◌==◌
abbrev pub ◌==◌ : ℕ → ℕ → Bool
a == b = elim (compare a b) [ Ordering.eq ↦ true | _ ↦ false ]

infix 1 if◌then◌else◌
abbrev pub if◌then◌else◌ {ℓ} : {A : Type ℓ} → Bool → A → A → A
if true then x else y = x
if false then x else y = y

module _ {ℓ} {A : Type ℓ} where
  pub if-true : {b : Bool} (x y : A) → b ≡ true → (if b then x else y) ≡ x
  if-true x y e = rw e refl

  pub if-false : {b : Bool} (x y : A) → b ≡ false → (if b then x else y) ≡ y
  if-false x y e = rw e refl

pub ltb→lt : (a b : ℕ) → ltb a b ≡ true → a < b
ltb→lt a b h = ground arith

pub leb→le : (a b : ℕ) → leb a b ≡ true → a ≤ b
leb→le a b h = ground arith

pub ==_iff : (a b : ℕ) → ((a == b) ≡ true) ↔ (a ≡ b)
==_iff a b = ground arith

pub ==_refl : (a : ℕ) → (a == a) ≡ true
==_refl a = ground arith

pub Bool-cases : (b : Bool) → (b ≡ true) ⊎ (b ≡ false)
Bool-cases true = inl refl
Bool-cases false = inr refl

module _ {ℓ} {A : Type ℓ} where
  pub Option-cases : (o : Option A) → (o ≡ none) ⊎ ((a : A) × (o ≡ some a))
  Option-cases none = inl refl
  Option-cases (some a) = inr (a, refl)

  -- `a ?? d`, and SQL's coalesce(a, d).
  abbrev pub get_or : Option A → A → A
  get_or none d = d
  get_or (some a) d = a

  -- coalesce(a, b) where both may be null.
  abbrev pub or_else : Option A → Option A → Option A
  or_else none b = b
  or_else (some a) b = some a

  abbrev pub is_some : Option A → Bool
  is_some none = false
  is_some (some a) = true

  -- A comparison with a null is not true, as in SQL.
  abbrev pub holds : (A → Bool) → Option A → Bool
  holds p none = false
  holds p (some a) = p a

abbrev pub opt_is : Option ℕ → ℕ → Bool
opt_is o n = holds (λ m. m == n) o

pub opt_is_iff : (o : Option ℕ) (n : ℕ) → (opt_is o n ≡ true) ↔ (o ≡ some n)
opt_is_iff o n = ground arith

pub holds-false_iff {ℓ} :
    {A : Type ℓ} (p : A → Bool) (o : Option A)
    → (holds p o ≡ false) ↔ ((a : A) → o ≡ some a → p a ≡ false)
holds-false_iff p none = (λ e a h. cc, λ k. refl)
holds-false_iff p (some b) = (λ e a h. cc, λ k. k b refl)
