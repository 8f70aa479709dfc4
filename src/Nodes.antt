-- ===== src/Nodes.antt =====
-- src/endpoints/nodes: the data of nodes, and of the queries for them.
pub mod Filter
pub mod Criteria
pub mod Order
pub mod Listing
pub mod Owners
pub mod Build
mod Examples
pub mod Auctions
use mx_api_service.Base.{ℕ, Bool, true, false, String, Option, none, some, List, []}

pub data NodeType : Type 0 where
  observer validator : NodeType

-- The fields of a node. A status is a text, since it can be what the gateway says; ratings are in
-- hundredths. What is `undefined`, or a rating that is NaN, is `none`: this is so of the fields that
-- the heartbeat and the statistics give, for a node that is not in them. The profile of an identity
-- and the progress of a synchronisation are left out.
pub record Node : Type 0 where
  pub bls : String
  pub name : Option String
  pub version : String
  pub rating : Option ℕ
  pub temp_rating : Option ℕ
  pub rating_modifier : ℕ
  pub shard : Option ℕ
  pub node_type : Option NodeType
  pub status : Option String
  pub online : Bool
  pub nonce : Option ℕ
  pub instances : Option ℕ
  pub owner : String
  pub identity : Option String
  pub provider : String
  pub issues : List String
  pub stake : String
  pub top_up : String
  pub locked : String
  pub leader_failure : Option ℕ
  pub leader_success : Option ℕ
  pub validator_failure : Option ℕ
  pub validator_ignored_signatures : Option ℕ
  pub validator_success : Option ℕ
  pub position : ℕ
  pub auctioned : Option Bool
  pub auction_position : Option ℕ
  pub auction_top_up : Option String
  pub auction_qualified : Option Bool
  pub full_history : Option Bool
  pub remaining_un_bond_period : Option ℕ
  pub is_in_danger_zone : Option Bool
  pub epochs_left : Option ℕ
  pub qualified_stake : String

-- `new Node()`, with the values that the class gives
abbrev pub new_node : Node
new_node = record {
  bls = "";
  name = some "";
  version = "";
  rating = some 0;
  temp_rating = some 0;
  rating_modifier = 0;
  shard = none;
  node_type = none;
  status = none;
  online = false;
  nonce = some 0;
  instances = some 0;
  owner = "";
  identity = none;
  provider = "";
  issues = [];
  stake = "";
  top_up = "";
  locked = "";
  leader_failure = some 0;
  leader_success = some 0;
  validator_failure = some 0;
  validator_ignored_signatures = some 0;
  validator_success = some 0;
  position = 0;
  auctioned = none;
  auction_position = none;
  auction_top_up = none;
  auction_qualified = none;
  full_history = none;
  remaining_un_bond_period = none;
  is_in_danger_zone = none;
  epochs_left = none;
  qualified_stake = "";
}

pub data NodeSort : Type 0 where
  name version temp_rating leader_success leader_failure validator_success validator_failure :
      NodeSort
  validator_ignored_signatures position auction_position locked qualified_stake : NodeSort

pub data SortOrder : Type 0 where
  asc desc : SortOrder

pub record NodeFilter : Type 0 where
  pub search : Option String
  pub online : Option Bool
  pub node_type : Option NodeType
  pub status : Option String
  pub shard : Option ℕ
  pub issues : Option Bool
  pub identity : Option String
  pub provider : Option String
  pub owner : Option String
  pub auctioned : Option Bool
  pub full_history : Option Bool
  pub sort : Option NodeSort
  pub order : Option SortOrder
  pub keys : Option (List String)
  pub is_qualified : Option Bool
  pub is_auction_danger_zone : Option Bool
  pub is_auctioned : Option Bool
