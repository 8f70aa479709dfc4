-- ===== src/Base/Equality.antt =====
-- `===` of the source is `==`, at each type that has a test for equality.
use Prim.Native.Nat.{ℕ}
use Prim.Native.String.{String}
use mathlib.Core.Path.{◌≡◌, refl, ap, subst}
use mathlib.Core.Bool.{Bool, true, false, not}
use mathlib.Core.Option.{Option, none, some}
use native.Mathlib.Omega.{arith}
use text.Mathlib.Text.{◌==◌ as text_test}
use text.Mathlib.TextEquality.{eq_iff}
use mx_api_service.Base.Tests.{nat_beq}

-- A test that says `true` of equal values, and of no others.
pub record Comparable {ℓ} (A : Type ℓ) : Type ℓ where
  pub same : A → A → Bool
  pub sound : (a b : A) → same a b ≡ true → a ≡ b
  pub reflexive : (a : A) → same a a ≡ true

infix 50 ◌==◌
abbrev pub ◌==◌ {ℓ} : {K : Type ℓ} ⦃c : Comparable K⦄ → K → K → Bool
◌==◌ ⦃c⦄ x y = c.same x y

pub nat_sound : (a b : ℕ) → nat_beq a b ≡ true → a ≡ b
nat_sound a b h = ground arith

pub nat_reflexive : (a : ℕ) → nat_beq a a ≡ true
nat_reflexive a = ground arith

instance abbrev pub nat_comparable : Comparable ℕ
nat_comparable = record { same = nat_beq; sound = nat_sound; reflexive = nat_reflexive }

pub text_sound : (s t : String) → text_test s t ≡ true → s ≡ t
text_sound s t = (eq_iff s t).0

pub text_reflexive : (s : String) → text_test s s ≡ true
text_reflexive s = (eq_iff s s).1 refl

instance abbrev pub text_comparable : Comparable String
text_comparable = record { same = text_test; sound = text_sound; reflexive = text_reflexive }

abbrev pub bool_test : Bool → Bool → Bool
bool_test true b = b
bool_test false b = not b

pub bool_sound : (a b : Bool) → bool_test a b ≡ true → a ≡ b
bool_sound true true h = refl
bool_sound false false h = refl
bool_sound true false h = cc
bool_sound false true h = cc

pub bool_reflexive : (a : Bool) → bool_test a a ≡ true
bool_reflexive true = refl
bool_reflexive false = refl

instance abbrev pub bool_comparable : Comparable Bool
bool_comparable = record { same = bool_test; sound = bool_sound; reflexive = bool_reflexive }

-- `undefined` is an option; two of them are compared by their values.
module _ {ℓ} {A : Type ℓ} ⦃c : Comparable A⦄ where
  abbrev pub option_test : Option A → Option A → Bool
  option_test none none = true
  option_test (some a) (some b) = c.same a b
  option_test _ _ = false

  pub option_sound : (o p : Option A) → option_test o p ≡ true → o ≡ p
  option_sound none none h = refl
  option_sound (some a) (some b) h = ap some (c.sound a b h)
  option_sound none (some b) h = cc
  option_sound (some a) none h = cc

  pub option_reflexive : (o : Option A) → option_test o o ≡ true
  option_reflexive none = refl
  option_reflexive (some a) = c.reflexive a

  instance abbrev pub option_comparable : Comparable (Option A)
  option_comparable = record {
    same = option_test;
    sound = option_sound;
    reflexive = option_reflexive;
  }

-- The test says `true` of equal values.
pub ==-true {ℓ} : {K : Type ℓ} ⦃c : Comparable K⦄ {x y : K} → x ≡ y → (x == y) ≡ true
==-true ⦃c⦄ {x = x} e = subst (λ z. c.same x z ≡ true) e (c.reflexive x)
