-- ===== src/Nodes/Examples.antt =====
-- Tests of the nodes.
use mx_api_service.Base.{
  ℕ, ◌+◌, ◌≡◌, ◌↔◌, refl, Bool, true, false, String, Option, none, some, List, [], ◌∷◌, ◌++◌,
  length, map, units, sym, ap, All, ◌≢◌, Bool-cases, inl, inr, ==-true, text_comparable, ◌==◌,
  if◌then◌else◌,
}
use mx_api_service.Nodes
use mx_api_service.Nodes.{Node, NodeFilter, new_node, validator, observer, desc, asc}
use mx_api_service.Nodes.Listing.{IsListing, get_filtered_nodes, get_filtered_nodes-IsListing}
use mx_api_service.Nodes.Owners.{
  Contract, Knows, IsIn, CacheIsRight, blses_of, get_owners, get_owners-owner_of,
}
use mx_api_service.Nodes.Auctions.{
  Entry, NodeAuction, InDanger, joined, join_auction, process_entries, mark_danger,
  process_entries-joined, get_nodes_auctions,
}
use mx_api_service.Nodes.Build.{
  QueuedAt, NotQueued, find_node, node_kind, process_queued_nodes, process_queued_nodes-QueuedAt,
}

any_node : NodeFilter
any_node = record {
  search = none;
  online = none;
  node_type = some validator;
  status = none;
  shard = none;
  issues = none;
  identity = none;
  provider = none;
  owner = some "erd1a";
  auctioned = none;
  full_history = none;
  sort = some Nodes.locked;
  order = some desc;
  keys = none;
  is_qualified = none;
  is_auction_danger_zone = none;
  is_auctioned = none;
}

a_node : String → String → String → Node
a_node bls owner locked = record new_node {
  bls = bls;
  owner = owner;
  locked = locked;
  node_type = some validator;
}

the_nodes : List Node
unfolding a_node
the_nodes = a_node "aa" "erd1a" "1" ∷ a_node "bb" "erd1b" "1234" ∷ a_node "cc" "erd1a" "123" ∷ []

-- The case of letters is kept, and a text stands for its length.
listed : map (λ n. n.bls) (get_filtered_nodes (λ s. s) units any_node the_nodes) ≡ "cc" ∷ "aa" ∷ []
unfolding get_filtered_nodes any_node the_nodes units
listed = refl

get_filtered_nodes-IsListing_example :
    IsListing
      (λ s. s)
      units
      any_node
      the_nodes
      (get_filtered_nodes (λ s. s) units any_node the_nodes)
get_filtered_nodes-IsListing_example =
    get_filtered_nodes-IsListing (λ s. s) units any_node the_nodes

-- One owner has the node `aa`, and the contract knows no other.
one_owner : String → Option String
one_owner b = if b == "aa" then some "erd1a" else none

owned : String → List String
owned o = if o == "erd1a" then "aa" ∷ [] else []

contract : Contract
contract = record { get_bls_owner = one_owner; get_owner_blses = owned }

some_inj : {a b : String} → some a ≡ some b → a ≡ b
some_inj h = cc

one_owner_named : (b : String) → one_owner b ≢ some ""
unfolding one_owner
one_owner_named b e = elim (Bool-cases (b == "aa")) [
  | inl f ↦ cc (ap (λ x. x == "") (some_inj {a = "erd1a"} {b = ""} (rw (f) at e)))
  | inr f ↦ cc (rw (f) at e)
]

owned-one_owner : (o : String) → All (λ b. one_owner b ≡ some o) (owned o)
unfolding owned one_owner
owned-one_owner o = elim (Bool-cases (o == "erd1a")) [
  | inl f ↦ rw (f) (ap some (sym (text_comparable.sound o "erd1a" f)), tt)
  | inr f ↦ rw (f) tt
]

one_owner-owned : (b o : String) → one_owner b ≡ some o → IsIn contract b (owned o)
unfolding owned one_owner
one_owner-owned b o e = elim (Bool-cases (b == "aa")) [
  | inl f ↦
      let same : "erd1a" ≡ o = some_inj (rw (f) at e) in
      rw (==-true (sym same)) (inl (text_comparable.sound b "aa" f))
  | inr f ↦ cc (rw (f) at e)
]

contract-Knows : Knows contract one_owner
unfolding contract
contract-Knows = record {
  owner = λ b. refl;
  named = one_owner_named;
  only = owned-one_owner;
  each = one_owner-owned;
}

abbrev asked : List (String × Option String)
asked = ("aa", none) ∷ ("bb", none) ∷ ("aa", some "erd1a") ∷ []

cache_right : CacheIsRight contract one_owner asked
unfolding one_owner
cache_right = (refl, tt)

get_owners-owner_of_example :
    (get_owners contract asked).0 ≡ map one_owner (blses_of contract asked)
get_owners-owner_of_example =
    get_owners-owner_of contract one_owner contract-Knows asked cache_right

kind_test : node_kind (some "observer") none ≡ (observer, none)
unfolding node_kind
kind_test = refl

entry : String → Bool → Entry
entry bls qualified = record { bls_key = bls; qualified = qualified; qualified_top_up = "12" }

-- A text stands for its length, but "0" for 0.
value_of : String → ℕ
value_of s = if s == "0" then 0 else units s

no_digits : value_of "" ≡ value_of "0"
unfolding value_of units
no_digits = refl

auctioned : Node
unfolding a_node
auctioned = record (a_node "aa" "erd1a" "1") { stake = "1"; status = some "auction" }

process_entries-joined_example :
    (process_entries value_of 4 1
        (entry "zz" true ∷ [] ++ entry "aa" true ∷ entry "yy" false ∷ [])
        auctioned
      ≡ record (joined value_of 4
          (length {A = Entry} (entry "zz" true ∷ []) + 1)
          (entry "aa" true)
          auctioned) {
            is_in_danger_zone =
                (process_entries value_of 4 1
                  (entry "zz" true ∷ [] ++ entry "aa" true ∷ entry "yy" false ∷ [])
                  auctioned).is_in_danger_zone;
          })
    × (((process_entries value_of 4 1
            (entry "zz" true ∷ [] ++ entry "aa" true ∷ entry "yy" false ∷ [])
            auctioned).is_in_danger_zone
          ≡ some true)
        ↔ InDanger value_of 4 (entry "aa" true) auctioned)
unfolding auctioned entry
process_entries-joined_example =
    process_entries-joined value_of 4 no_digits (entry "zz" true ∷ []) (entry "yy" false ∷ [])
      (entry "aa" true) auctioned refl refl refl (refl, tt) (refl, tt)

-- 1 and 2 are less than 4, and not less than 3.
in_danger_zone :
    (process_entries value_of 4 1 (entry "aa" true ∷ []) auctioned).is_in_danger_zone ≡ some true
unfolding process_entries join_auction mark_danger auctioned entry value_of units
in_danger_zone = refl

not_in_danger_zone :
    (process_entries value_of 3 1 (entry "aa" true ∷ []) auctioned).is_in_danger_zone ≡ none
unfolding process_entries join_auction mark_danger auctioned entry value_of units
not_in_danger_zone = refl

an_auction : ℕ → NodeAuction
an_auction n = record {
  qualified_stake = "1";
  auction_validators = n;
  qualified_auction_validators = 0;
  dropped_validators = 0;
  danger_zone_validators = 0;
}

-- The second page of two is empty: the list is sliced from 2 to 2.
second_page :
    get_nodes_auctions
      (λ keys l. l)
      value_of
      (record { start = 2; size = 2 })
      (record { sort = none; order = none })
      (map an_auction (5 ∷ 6 ∷ 7 ∷ 8 ∷ []))
    ≡ []
unfolding get_nodes_auctions
second_page = refl

-- What is not asked for is the highest stake first.
first_page :
    map
      (λ n. n.auction_validators)
      (get_nodes_auctions
        (λ keys l. l)
        value_of
        (record { start = 0; size = 2 })
        (record { sort = none; order = none })
        (map an_auction (5 ∷ 6 ∷ 7 ∷ 8 ∷ [])))
    ≡ 8 ∷ 7 ∷ []
unfolding get_nodes_auctions an_auction
first_page = refl

process_queued_nodes-QueuedAt_example :
    QueuedAt "cc" 2 (process_queued_nodes (("dd", 1) ∷ [] ++ ("cc", 2) ∷ ("ee", 3) ∷ []) the_nodes)
    × ((other : String)
        → NotQueued other (("dd", 1) ∷ [] ++ ("cc", 2) ∷ ("ee", 3) ∷ [])
        → find_node other
            (process_queued_nodes (("dd", 1) ∷ [] ++ ("cc", 2) ∷ ("ee", 3) ∷ []) the_nodes)
          ≡ find_node other the_nodes)
process_queued_nodes-QueuedAt_example =
    process_queued_nodes-QueuedAt "cc" 2 (("dd", 1) ∷ []) (("ee", 3) ∷ []) the_nodes (refl, tt)
