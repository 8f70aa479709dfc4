-- ===== src/Action/Termination.antt =====
-- Relayed transactions (Action/Normal) are read within the fuel that the length of the data gives.
use mx_api_service.Base.{
  ℕ, zero, suc, ◌+◌, ◌<◌, ◌≤◌, ◌≡◌, ◌≢◌, refl, subst, String, Option, none, some, List, [], ◌∷◌,
  Bool, true, false, ◌==◌, text_comparable, option_comparable, arith, Option-cases, Bool-cases, inl,
  inr, units, split, onto_head, nat_beq, ltb, if◌then◌else◌, every,
}
use mx_api_service.Action.{
  Outcome, returned, thrown, out_of_fuel, ◌>>=◌, Sdk, ActionTransaction, TransactionMetadata,
  new_metadata,
}
use mx_api_service.Action.Normal.{
  get_normal_transaction_metadata, relayed, relayed_v1, relayed_v2, read_data, read_call,
  start_metadata, or_else, is_smart_contract_argument,
}
use Prim.Native.Char.{Char, code}

-- The parts of a split text with their separators.
abbrev total : List String → ℕ
total [] = 0
total (p ∷ ps) = units p + 1 + total ps

some_unit : (c : Char) → 1 ≤ (if ltb (code c) 0x10000 then 1 else 2)
some_unit c = ground arith

total-onto_head :
    (c : Char) (ps : List String) (n : ℕ)
    → total ps ≤ n + 1
    → total (onto_head c ps) ≤ (if ltb (code c) 0x10000 then 1 else 2) + n + 1
unfolding units
total-onto_head c [] n h = omega arith
total-onto_head c (p ∷ ps) n h = omega (arith, h)

total-split : (sep : ℕ) (s : String) → total (split sep s) ≤ units s + 1
unfolding split units
total-split sep String.[] = omega arith
total-split sep (String.◌∷◌ c s) =
    let ih = total-split sep s in
    elim (Bool-cases (nat_beq (code c) sep)) [
      | inl e ↦ rw (e) (omega (arith, ih, some_unit c))
      | inr e ↦ rw (e) (total-onto_head c (split sep s) (units s) ih)
    ]

-- What is documented of the functions that decode: none makes a text longer, and the data of a JSON
-- text is a part of it.
pub record Shrinks {P : Type 0} (sdk : Sdk P) : Type 0 where
  pub base64 : (s : String) → units (sdk.base64_decode s) ≤ units s
  pub hex : (s : String) → units (sdk.hex_to_string s) ≤ units s
  pub encode :
      (s : String)
      → sdk.base64_decode (sdk.base64_encode (sdk.hex_to_string s)) ≡ sdk.hex_to_string s
  pub json :
      (s d : String) (t : ActionTransaction)
      → sdk.parse_json s ≡ some t
      → t.transaction_data ≡ some d
      → units d ≤ units s

module _ {P : Type 0} (sdk : Sdk P) where
  abbrev pub data_size : Option String → ℕ
  data_size none = 0
  data_size (some d) = units (sdk.base64_decode d)

  total-read_call :
      (ps : List String) (m : TransactionMetadata P) (n : ℕ)
      → total ps ≤ n + 1
      → m.function_args ≡ []
      → total (read_call sdk ps m).function_args ≤ n
  unfolding read_call
  total-read_call [] m n h e = rw (e) (omega arith)
  total-read_call (name ∷ args) m n h e =
      elim (Bool-cases (every (is_smart_contract_argument sdk) args)) [
        | inl f ↦ rw (f) (omega (arith, h))
        | inr f ↦ rw (f, e) (omega arith)
      ]

  total-read_data :
      (d : Option String) (m : TransactionMetadata P)
      → m.function_args ≡ []
      → total (read_data sdk d m).function_args ≤ data_size d
  unfolding read_data
  total-read_data none m e = rw (e) (omega arith)
  total-read_data (some d) m e = elim (Bool-cases (d == "")) [
    | inl f ↦ rw (f, e) (omega arith)
    | inr f ↦ rw (f) (total-read_call _ m _ (total-split 64 (sdk.base64_decode d)) e)
  ]

  module _ (laws : Shrinks sdk) where
    -- The transaction inside has less data than `n`.
    abbrev Smaller : Option ActionTransaction → ℕ → Type 0
    Smaller none n = Unit
    Smaller (some t) n = data_size t.transaction_data < n

    json_size :
        (s : String) (t : ActionTransaction) (d : Option String)
        → sdk.parse_json s ≡ some t
        → t.transaction_data ≡ d
        → data_size d ≤ units s
    json_size s t none h e = omega arith
    json_size s t (some d) h e = omega (arith, laws.json s d t h e, laws.base64 d)

    relayed_v1-Smaller : (arg : String) → Smaller (relayed_v1 sdk arg) (units arg + 1)
    unfolding relayed_v1
    relayed_v1-Smaller arg = elim (Option-cases (sdk.parse_json (sdk.hex_to_string arg))) [
      | inl e ↦ rw (Smaller, e) tt
      | inr (t, e) ↦ elim (Option-cases (sdk.bech32_encode (sdk.base64_to_hex t.sender))) [
        | inl f ↦ rw (Smaller, e, f) tt
        | inr (sender, f) ↦ elim (Option-cases (sdk.bech32_encode (sdk.base64_to_hex t.receiver))) [
          | inl g ↦ rw (Smaller, e, f, g) tt
          | inr (receiver, g) ↦
              rw (Smaller, e, f, g)
                (omega (arith, json_size _ t t.transaction_data e refl, laws.hex arg))
        ]
      ]
    ]

    relayed_v2-Smaller :
        (t : ActionTransaction) (a b : String) → Smaller (relayed_v2 sdk t a b) (units b + 1)
    unfolding relayed_v2
    relayed_v2-Smaller t a b = elim (Option-cases (sdk.bech32_encode a)) [
      | inl e ↦ rw (Smaller, e) tt
      | inr (receiver, e) ↦ rw (Smaller, e, laws.encode b) (omega (arith, laws.hex b))
    ]

    weaken : (o : Option ActionTransaction) (m n : ℕ) → m ≤ n → Smaller o m → Smaller o n
    weaken none m n h k = tt
    weaken (some t) m n h k = omega (arith, h, k)

    test-Smaller :
        (b : Bool) (o : Option ActionTransaction) (n : ℕ)
        → Smaller o n
        → Smaller (if b then o else none) n
    test-Smaller true o n h = h
    test-Smaller false o n h = tt

    relayed-Smaller :
        (t : ActionTransaction) (name : Option String) (args : List String)
        → Smaller (relayed sdk t name args) (total args)
    unfolding relayed
    relayed-Smaller t name [] = tt
    relayed-Smaller t name (a ∷ []) =
        test-Smaller _ _ _ (weaken _ _ _ (omega arith) (relayed_v1-Smaller a))
    relayed-Smaller t name (a ∷ b ∷ []) = tt
    relayed-Smaller t name (a ∷ b ∷ c ∷ []) = tt
    relayed-Smaller t name (a ∷ b ∷ c ∷ d ∷ []) =
        test-Smaller _ _ _ (weaken _ _ _ (omega arith) (relayed_v2-Smaller t a c))
    relayed-Smaller t name (a ∷ b ∷ c ∷ d ∷ e ∷ r) = tt

    or_else-ne-out_of_fuel :
        (o : Outcome (TransactionMetadata P)) (m : TransactionMetadata P)
        → o ≢ out_of_fuel
        → or_else sdk o m ≢ out_of_fuel
    or_else-ne-out_of_fuel (returned r) m h = h
    or_else-ne-out_of_fuel thrown m h = λ e. cc
    or_else-ne-out_of_fuel out_of_fuel m h = h

    -- If decoding makes no text longer, then a transaction is read with more fuel than its decoded
    -- data has characters, however many relayed transactions are inside each other.
    pub get_normal_transaction_metadata-ne-out_of_fuel :
        (fuel : ℕ) (t : ActionTransaction)
        → data_size t.transaction_data < fuel
        → get_normal_transaction_metadata sdk fuel t ≢ out_of_fuel
    unfolding get_normal_transaction_metadata start_metadata new_metadata
    get_normal_transaction_metadata-ne-out_of_fuel zero t h = absurd (omega (arith, h))
    get_normal_transaction_metadata-ne-out_of_fuel (suc fuel) t h =
        elim (Option-cases (sdk.big_int t.value)) [
          | inl e ↦ rw (e) (λ p. cc)
          | inr (value, e) ↦
              let m = read_data sdk t.transaction_data (start_metadata sdk t value) in
              let small = relayed-Smaller t m.function_name m.function_args in
              elim (Option-cases (relayed sdk t m.function_name m.function_args)) [
                | inl f ↦ rw (e, ◌>>=◌, f) (λ p. cc)
                | inr (inner, f) ↦
                    let s = subst (λ o. Smaller o (total m.function_args)) f small in
                    rw (e, ◌>>=◌, f)
                      (or_else-ne-out_of_fuel _ _ (
                        get_normal_transaction_metadata-ne-out_of_fuel fuel inner (
                          omega (
                            arith,
                            s,
                            h,
                            total-read_data t.transaction_data (start_metadata sdk t value) refl,
                          ))))
              ]
        ]
