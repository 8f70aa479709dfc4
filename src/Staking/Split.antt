-- ===== src/Staking/Split.antt =====
-- How the amounts of an address are split over its nodes (Staking/PerNode).
use native.Mathlib.Nat.{div-mul-le_self, lt-div-mul-add, le-div_iff_mul-le, div-lt_iff_lt-mul}
use mx_api_service.Base.{
  ℕ, ◌+◌, ◌-◌, ◌/◌, ◌*◌, ◌≤◌, ◌<◌, ◌≡◌, refl, inl, inr, arith, String, decimal, Option, none, some,
  List, ◌∷◌, map, Bool, true, false, ◌&&◌, ◌==◌, ltb, Bool-cases, nat_comparable, text_comparable,
}
use mx_api_service.Staking.Minimum.{is_unset}
use mx_api_service.Staking.PerNode.{
  pos, subtract, big_text, StakeTopup, stake_of_nodes, read_response,
  get_all_stakes_for_address_nodes_raw,
}

and-false : (b : Bool) → (b && false) ≡ false
and-false true = refl
and-false false = refl

-- Dividing two parts and their sum by a number: rounding loses one at most.
quotient_parts :
    (t w n : ℕ) → 0 < n → t ≤ w → (t / n + (w - t) / n ≤ w / n) × (w / n ≤ t / n + (w - t) / n + 1)
quotient_parts t w n h k =
    let a = div-mul-le_self t n in
    let b = div-mul-le_self (w - t) n in
    let c = lt-div-mul-add {a = t} h in
    let d = lt-div-mul-add {a = w - t} h in
    (
      (le-div_iff_mul-le h).1 (omega arith),
      let e = (div-lt_iff_lt-mul {k = n} {x = w} {y = t / n + (w - t) / n + 2} h).1 (omega arith) in
          omega arith,
    )

subtract-pos : (t w : ℕ) → t ≤ w → subtract w t ≡ pos (w - t)
subtract-pos t w h = elim (Bool-cases (ltb w t)) [
  | inl e ↦ absurd (ground arith)
  | inr e ↦ rw (e) refl
]

-- One of `n` equal parts of an amount, rounded down to a whole number.
abbrev pub IsPart : ℕ → ℕ → ℕ → Type 0
IsPart amount n part = (part * n ≤ amount) × (amount < part * n + n)

quotient-IsPart : (amount n : ℕ) → 0 < n → IsPart amount n (amount / n)
quotient-IsPart amount n h = (div-mul-le_self amount n, lt-div-mul-add {a = amount} h)

-- What each of the nodes has, by the top-up of its address and the amount that includes it.
abbrev pub IsSplit : String → ℕ → ℕ → ℕ → List String → StakeTopup → Type 0
IsSplit address t w n blses r =
    (top_up : ℕ) × (stake : ℕ) × (locked : ℕ) × (r.top_up ≡ decimal top_up)
    × (r.stake ≡ decimal stake)
    × (r.locked ≡ decimal locked)
    × (r.num_nodes ≡ n)
    × (r.address ≡ address)
    × (r.blses ≡ blses)
    × IsPart t n top_up
    × IsPart (w - t) n stake
    × IsPart w n locked
    × (top_up + stake ≤ locked)
    × (locked ≤ top_up + stake + 1)

module _ (number_of : String → ℕ) (hex_of : String → String) where
  stake_of_nodes-IsSplit :
      (address : String) (t w n : ℕ) (blses : List String)
      → 0 < n
      → t ≤ w
      → (r : StakeTopup) × (stake_of_nodes number_of hex_of address t w n blses ≡ some r)
        × IsSplit address t w n blses r
  unfolding stake_of_nodes big_text
  stake_of_nodes-IsSplit address t w n blses h k =
      let z : (n == 0) ≡ false = ground arith in
      let (low, high) = quotient_parts t w n h k in
      (
        record {
          top_up = decimal (t / n);
          stake = decimal ((w - t) / n);
          locked = decimal (w / n);
          num_nodes = n;
          address = address;
          blses = blses;
        },
        rw (stake_of_nodes, subtract-pos t w k, z, and-false (w - t == 0)) refl,
        (
          t / n,
          (w - t) / n,
          w / n,
          refl,
          refl,
          refl,
          refl,
          refl,
          refl,
          quotient-IsPart t n h,
          quotient-IsPart (w - t) n h,
          quotient-IsPart w n h,
          low,
          high,
        ),
      )

  -- Where the address and the contract are given, and the query is answered with the top-up, an
  -- amount that includes it and a number of nodes that is not 0, the answer has the address, the
  -- number and the keys of the nodes, and each node gets an equal part of the amounts, rounded down:
  -- a part times the number of nodes is at most the amount, and misses it by less than the number of
  -- nodes. The locked part is the sum of the two others or one more.
  pub get_all_stakes_for_address_nodes_raw-IsSplit :
      (contract : Option String) (query : String → Option (List String)) (address : String)
      (top_up staked n : String) (blses : List String)
      → (address == "") ≡ false
      → is_unset contract ≡ false
      → query address ≡ some (top_up ∷ staked ∷ n ∷ blses)
      → 0 < number_of n
      → number_of top_up ≤ number_of staked
      → (r : StakeTopup) × (get_all_stakes_for_address_nodes_raw number_of hex_of contract query
            address
          ≡ some r)
        × IsSplit address (number_of top_up) (number_of staked) (number_of n) (map hex_of blses) r
  unfolding get_all_stakes_for_address_nodes_raw read_response
  get_all_stakes_for_address_nodes_raw-IsSplit contract query address t s n blses a c q h k =
      let (r, e, split) =
        stake_of_nodes-IsSplit address (number_of t) (number_of s) (number_of n) (map hex_of blses)
          h k in
      (r, rw (get_all_stakes_for_address_nodes_raw, a, c, q) e, split)

  -- An address whose query is answered with no nodes, and an amount other than the top-up, throws:
  -- the amounts are divided by the number of nodes.
  pub get_all_stakes_for_address_nodes_raw_zero :
      (contract : Option String) (query : String → Option (List String)) (address : String)
      (top_up staked n : String) (blses : List String)
      → (address == "") ≡ false
      → is_unset contract ≡ false
      → query address ≡ some (top_up ∷ staked ∷ n ∷ blses)
      → number_of n ≡ 0
      → number_of top_up < number_of staked
      → get_all_stakes_for_address_nodes_raw number_of hex_of contract query address ≡ none
  unfolding get_all_stakes_for_address_nodes_raw read_response stake_of_nodes
  get_all_stakes_for_address_nodes_raw_zero contract query address t s n blses a c q h k =
      let z : (number_of s - number_of t == 0) ≡ false = ground arith in
      rw
        (
          get_all_stakes_for_address_nodes_raw,
          a,
          c,
          q,
          read_response,
          stake_of_nodes,
          subtract-pos (number_of t) (number_of s) (omega arith),
          h,
          z,
        )
        refl
