-- ===== src/Base/Decimal.antt =====
-- A number in a template of the source: its decimal digits.
use Prim.Native.Nat.{ℕ, zero, suc, ◌/◌, ◌%◌}
use Prim.Native.String.{String}
use mathlib.Core.Path.{◌≡◌, refl}
use mathlib.Core.Bool.{Bool, true, false}
use mx_api_service.Base.Tests.{ltb, nat_beq, if◌then◌else◌}
use mx_api_service.Base.Text.{◌<>◌}

pub data Digit : Type 0 where
  d0 d1 d2 d3 d4 d5 d6 d7 d8 d9 : Digit

unfoldable pub digit_text : Digit → String
digit_text d0 = "0"
digit_text d1 = "1"
digit_text d2 = "2"
digit_text d3 = "3"
digit_text d4 = "4"
digit_text d5 = "5"
digit_text d6 = "6"
digit_text d7 = "7"
digit_text d8 = "8"
digit_text d9 = "9"

-- The digit of a number below ten.
abbrev pub digit_of : ℕ → Digit
digit_of n =
    if nat_beq n 0
    then d0
    else if nat_beq n 1
    then d1
    else if nat_beq n 2
    then d2
    else if nat_beq n 3
    then d3
    else if nat_beq n 4
    then d4
    else if nat_beq n 5
    then d5
    else if nat_beq n 6
    then d6
    else if nat_beq n 7
    then d7
    else if nat_beq n 8
    then d8
    else d9

-- The digits of `n`, where `fuel` is at least `n`.
unfoldable pub decimal_by : ℕ → ℕ → String
unfolding digit_text
decimal_by zero n = digit_text (digit_of n)
decimal_by (suc fuel) n = elim (ltb n 10) [
  | true ↦ digit_text (digit_of n)
  | false ↦ decimal_by fuel (n / 10) <> digit_text (digit_of (n % 10))
]

unfoldable pub decimal : ℕ → String
decimal n = decimal_by n n

decimal_test : decimal 20047 ≡ "20047"
unfolding decimal decimal_by ◌<>◌ digit_text
decimal_test = refl

-- A text that begins with a digit.
abbrev pub HasDigit : String → Type 0
HasDigit s = (d : Digit) × (rest : String) × (s ≡ digit_text d <> rest)

single : (d : Digit) → HasDigit (digit_text d)
unfolding ◌<>◌ digit_text
single d0 = (d0, "", refl)
single d1 = (d1, "", refl)
single d2 = (d2, "", refl)
single d3 = (d3, "", refl)
single d4 = (d4, "", refl)
single d5 = (d5, "", refl)
single d6 = (d6, "", refl)
single d7 = (d7, "", refl)
single d8 = (d8, "", refl)
single d9 = (d9, "", refl)

<>-<> : (s t u : String) → (s <> t) <> u ≡ s <> (t <> u)
unfolding ◌<>◌
<>-<> String.[] t u = refl
<>-<> (String.◌∷◌ c s) t u = rw (<>-<> s t u) refl

either_one :
    (b : Bool) (s t : String) → HasDigit s → HasDigit t → HasDigit (elim b [ true ↦ s | false ↦ t ])
either_one true s t h k = h
either_one false s t h k = k

longer : (s t : String) → HasDigit s → HasDigit (s <> t)
longer s t (d, r, p) = (d, r <> t, rw (p) (<>-<> (digit_text d) r t))

pub decimal_by-HasDigit : (fuel n : ℕ) → HasDigit (decimal_by fuel n)
unfolding decimal_by
decimal_by-HasDigit zero n = single (digit_of n)
decimal_by-HasDigit (suc fuel) n =
    either_one (ltb n 10) _ _ (single (digit_of n)) (longer _ _ (decimal_by-HasDigit fuel (n / 10)))

pub decimal-HasDigit : (n : ℕ) → HasDigit (decimal n)
unfolding decimal
decimal-HasDigit n = decimal_by-HasDigit n n
