-- ===== src/Base/Text.antt =====
-- JavaScript strings as native texts: length in UTF-16 code units, and `split` at one character.
use Prim.Native.Char.{Char, code}
use Prim.Native.Nat.{ℕ, ◌+◌}
use Prim.Native.String.{String}
use mathlib.Core.Logic.{◌≢◌}
use mathlib.Core.List.{List, [], ◌∷◌}
use mathlib.Core.Path.{◌≡◌, refl}
use mathlib.Core.Bool.{true}
use mathlib.Core.Logic.{inl, inr}
use native.Mathlib.Omega.{arith}
use mx_api_service.Base.Tests.{Bool-cases, ltb, nat_beq, if◌then◌else◌}

-- `s.length`: a character outside the basic plane is a surrogate pair.
unfoldable pub units : String → ℕ
units String.[] = 0
units (String.◌∷◌ c s) = (if ltb (code c) 0x10000 then 1 else 2) + units s

abbrev pub onto_head : Char → List String → List String
onto_head c [] = String.◌∷◌ c String.[] ∷ []
onto_head c (p ∷ ps) = String.◌∷◌ c p ∷ ps

-- `s.split(sep)` for a separator of one character.
unfoldable pub split : ℕ → String → List String
split sep String.[] = "" ∷ []
split sep (String.◌∷◌ c s) =
    if nat_beq (code c) sep then "" ∷ split sep s else onto_head c (split sep s)

-- No character of the text is the separator.
abbrev pub Lacks : ℕ → String → Type 0
Lacks sep String.[] = Unit
Lacks sep (String.◌∷◌ c s) = (code c ≢ sep) × Lacks sep s

-- `s + t` of the source, and the parts of a template, by the characters of the first text.
infixr 66 ◌<>◌
unfoldable pub ◌<>◌ : String → String → String
◌<>◌ String.[] t = t
◌<>◌ (String.◌∷◌ c s) t = String.◌∷◌ c (s <> t)

-- The code of the first character; 0 if there is none.
abbrev pub head_code : String → ℕ
head_code String.[] = 0
head_code (String.◌∷◌ c s) = code c

pub split-single : (sep : ℕ) (s : String) → Lacks sep s → split sep s ≡ s ∷ []
unfolding split
split-single sep String.[] h = refl
split-single sep (String.◌∷◌ c s) (n, h) = elim (Bool-cases (nat_beq (code c) sep)) [
  | inl e ↦ absurd (ground arith)
  | inr e ↦ rw (e, split-single sep s h) refl
]

-- `split` takes a part without separators off the front.
pub split-<> :
    (sep : ℕ) (s t : String) (c : Char)
    → Lacks sep s
    → code c ≡ sep
    → split sep (s <> String.◌∷◌ c t) ≡ s ∷ split sep t
unfolding split ◌<>◌
split-<> sep String.[] t c h e = rw (let f : nat_beq (code c) sep ≡ true = ground arith in f) refl
split-<> sep (String.◌∷◌ d s) t c (n, h) e = elim (Bool-cases (nat_beq (code d) sep)) [
  | inl f ↦ absurd (ground arith)
  | inr f ↦ rw (f, split-<> sep s t c h e) refl
]
