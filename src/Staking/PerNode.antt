-- ===== src/Staking/PerNode.antt =====
-- getAllStakesForAddressNodesRaw and getStakes: what is staked for each node of an address.
use mx_api_service.Base.{
  ℕ, ◌+◌, ◌-◌, ◌/◌, String, ◌<>◌, decimal, Option, none, some, List, [], ◌∷◌, ◌++◌, map, Bool,
  false, ◌&&◌, ◌==◌, ltb, if◌then◌else◌, nat_comparable, text_comparable,
}
use mx_api_service.Staking.Minimum.{is_unset}

-- BigInt: a number, or the negative of one more than a number.
pub data ℤ : Type 0 where
  pos : ℕ → ℤ
  negsuc : ℕ → ℤ

abbrev pub subtract : ℕ → ℕ → ℤ
subtract a b = if ltb a b then negsuc (b - a - 1) else pos (a - b)

-- Division rounds towards 0.
abbrev pub quotient : ℤ → ℕ → ℤ
quotient (pos a) n = pos (a / n)
quotient (negsuc a) n = let q = (a + 1) / n in if q == 0 then pos 0 else negsuc (q - 1)

unfoldable pub big_text : ℤ → String
unfolding ◌<>◌ decimal
big_text (pos a) = decimal a
big_text (negsuc a) = "-" <> decimal (a + 1)

abbrev pub is_zero : ℤ → Bool
is_zero (pos a) = a == 0
is_zero (negsuc a) = false

pub record StakeTopup : Type 0 where
  pub top_up : String
  pub stake : String
  pub locked : String
  pub num_nodes : ℕ
  pub address : String
  pub blses : List String

-- `new StakeTopup()`
abbrev pub new_stake_topup : StakeTopup
new_stake_topup = record {
  top_up = "";
  stake = "";
  locked = "";
  num_nodes = 0;
  address = "";
  blses = [];
}

pub record Stake : Type 0 where
  pub bls : String
  pub stake : String
  pub top_up : String
  pub locked : String
  pub address : String

-- `number_of` reads bytes in base64 as a number, `hex_of` as digits.
module _ (number_of : String → ℕ) (hex_of : String → String) where
  -- The amounts for each node. An address with no nodes and an amount is a division by zero, which
  -- throws.
  unfoldable pub stake_of_nodes : String → ℕ → ℕ → ℕ → List String → Option StakeTopup
  unfolding big_text
  stake_of_nodes address top_up with_top_up n blses =
      let staked = subtract with_top_up top_up in
      if is_zero staked && (n == 0)
      then some (record {
        top_up = "0";
        stake = "0";
        locked = "0";
        num_nodes = n;
        address = address;
        blses = blses;
      })
      else if n == 0
      then none
      else some (record {
        top_up = big_text (pos (top_up / n));
        stake = big_text (quotient staked n);
        locked = big_text (pos (with_top_up / n));
        num_nodes = n;
        address = address;
        blses = blses;
      })

  -- What the contract answers; the number of nodes and the amounts must all be there.
  unfoldable pub read_response : String → List String → Option StakeTopup
  unfolding stake_of_nodes
  read_response address (top_up ∷ staked ∷ n ∷ blses) =
      stake_of_nodes address (number_of top_up) (number_of staked) (number_of n) (map hex_of blses)
  read_response address _ = none

  -- The contract's answer to a query is undefined where the query fails.
  unfoldable pub get_all_stakes_for_address_nodes_raw :
      Option String → (String → Option (List String)) → String → Option StakeTopup
  unfolding read_response
  get_all_stakes_for_address_nodes_raw contract query address =
      if address == ""
      then some new_stake_topup
      else if is_unset contract
      then some new_stake_topup
      else elim (query address) [
        | none ↦ some (record {
          top_up = "0";
          stake = "0";
          locked = "0";
          num_nodes = 0;
          address = address;
          blses = [];
        })
        | some response ↦ read_response address response
      ]

-- One entry for each key of an address.
unfoldable pub stakes_of : StakeTopup → List String → List Stake
stakes_of s [] = []
stakes_of s (bls ∷ blses) =
    record { bls = bls; stake = s.stake; top_up = s.top_up; locked = s.locked; address = s.address }
    ∷ stakes_of s blses

-- getStakes, from what getAllStakesForNodes gives.
unfoldable pub get_stakes : List StakeTopup → List Stake
unfolding stakes_of
get_stakes [] = []
get_stakes (s ∷ ss) = stakes_of s s.blses ++ get_stakes ss
