-- ===== src/Nodes/Order.antt =====
-- The order in which NodeService sorts nodes.
use mx_api_service.Base.{
  ℕ, ◌≡◌, refl, Bool, true, false, String, Option, none, some, ◌==◌, text_comparable, ltb, text_gt,
  IsOrder, IsOrderOn, text_gt-IsOrder, ltb-IsOrder, if◌then◌else◌,
}
use mx_api_service.Nodes.{
  Node, NodeSort, name, version, temp_rating, leader_success, leader_failure, validator_success,
  validator_failure, validator_ignored_signatures, position, auction_position, locked,
  qualified_stake, new_node,
}

-- What the comparator compares: `a > b` of two numbers or two texts, and false with `undefined` or
-- NaN.
pub data SortValue : Type 0 where
  missing : SortValue
  amount : ℕ → SortValue
  text : String → SortValue

unfoldable pub value_gt : SortValue → SortValue → Bool
value_gt (amount a) (amount b) = ltb b a
value_gt (text s) (text t) = text_gt s t
value_gt _ _ = false

-- `to_number` is Number of a text.
module _ (lower : String → String) (to_number : String → ℕ) where
  -- The case is changed of a text that is not "".
  abbrev pub lowered : String → String
  lowered s = if s == "" then s else lower s

  abbrev pub amount_value : Option ℕ → SortValue
  amount_value none = missing
  amount_value (some n) = amount n

  abbrev pub text_value : Option String → SortValue
  text_value none = missing
  text_value (some s) = text (lowered s)

  unfoldable pub sort_value : NodeSort → Node → SortValue
  sort_value name n = text_value n.name
  sort_value version n = text (lowered n.version)
  sort_value temp_rating n = amount_value n.temp_rating
  sort_value leader_success n = amount_value n.leader_success
  sort_value leader_failure n = amount_value n.leader_failure
  sort_value validator_success n = amount_value n.validator_success
  sort_value validator_failure n = amount_value n.validator_failure
  sort_value validator_ignored_signatures n = amount_value n.validator_ignored_signatures
  sort_value position n = amount n.position
  sort_value auction_position n = amount_value n.auction_position
  sort_value locked n = amount (to_number n.locked)
  sort_value qualified_stake n = text (lowered n.qualified_stake)

  -- The comparator says that `a` comes after `b`.
  unfoldable pub node_gt : NodeSort → Node → Node → Bool
  unfolding value_gt sort_value
  node_gt s a b = value_gt (sort_value s a) (sort_value s b)

  abbrev pub is_there : SortValue → Bool
  is_there missing = false
  is_there _ = true

  -- The node has the field.
  abbrev pub HasValue : NodeSort → Node → Type 0
  unfolding sort_value
  HasValue s n = is_there (sort_value s n) ≡ true

  amount_trans :
      (a b c : Option ℕ)
      → is_there (amount_value b) ≡ true
      → value_gt (amount_value a) (amount_value b) ≡ false
      → value_gt (amount_value b) (amount_value c) ≡ false
      → value_gt (amount_value a) (amount_value c) ≡ false
  unfolding value_gt
  amount_trans a none c p h k = cc
  amount_trans none (some b) c p h k = refl
  amount_trans (some a) (some b) none p h k = refl
  amount_trans (some a) (some b) (some c) p h k = ltb-IsOrder.trans a b c h k

  text_trans :
      (a b c : Option String)
      → is_there (text_value b) ≡ true
      → value_gt (text_value a) (text_value b) ≡ false
      → value_gt (text_value b) (text_value c) ≡ false
      → value_gt (text_value a) (text_value c) ≡ false
  unfolding value_gt
  text_trans a none c p h k = cc
  text_trans none (some b) c p h k = refl
  text_trans (some a) (some b) none p h k = refl
  text_trans (some a) (some b) (some c) p h k =
      text_gt-IsOrder.trans (lowered a) (lowered b) (lowered c) h k

  value_asym : (a b : SortValue) → value_gt a b ≡ true → value_gt b a ≡ false
  unfolding value_gt
  value_asym missing b h = cc
  value_asym (amount a) missing h = refl
  value_asym (amount a) (amount b) h = ltb-IsOrder.asym a b h
  value_asym (amount a) (text t) h = refl
  value_asym (text s) missing h = refl
  value_asym (text s) (amount b) h = refl
  value_asym (text s) (text t) h = text_gt-IsOrder.asym s t h

  node_gt_trans :
      (s : NodeSort) (a b c : Node)
      → HasValue s b
      → node_gt s a b ≡ false
      → node_gt s b c ≡ false
      → node_gt s a c ≡ false
  unfolding node_gt
  node_gt_trans name a b c = text_trans a.name b.name c.name
  node_gt_trans version a b c = text_trans (some a.version) (some b.version) (some c.version)
  node_gt_trans temp_rating a b c = amount_trans a.temp_rating b.temp_rating c.temp_rating
  node_gt_trans leader_success a b c =
      amount_trans a.leader_success b.leader_success c.leader_success
  node_gt_trans leader_failure a b c =
      amount_trans a.leader_failure b.leader_failure c.leader_failure
  node_gt_trans validator_success a b c =
      amount_trans a.validator_success b.validator_success c.validator_success
  node_gt_trans validator_failure a b c =
      amount_trans a.validator_failure b.validator_failure c.validator_failure
  node_gt_trans validator_ignored_signatures a b c =
      amount_trans a.validator_ignored_signatures b.validator_ignored_signatures
        c.validator_ignored_signatures
  node_gt_trans position a b c = amount_trans (some a.position) (some b.position) (some c.position)
  node_gt_trans auction_position a b c =
      amount_trans a.auction_position b.auction_position c.auction_position
  node_gt_trans locked a b c =
      amount_trans (some (to_number a.locked)) (some (to_number b.locked))
        (some (to_number c.locked))
  node_gt_trans qualified_stake a b c =
      text_trans (some a.qualified_stake) (some b.qualified_stake) (some c.qualified_stake)

  -- The comparator is an order of the nodes that have the field.
  pub node_gt-IsOrderOn : (s : NodeSort) → IsOrderOn (HasValue s) (node_gt s)
  unfolding node_gt
  node_gt-IsOrderOn s = record {
    asym = λ a b. value_asym (sort_value s a) (sort_value s b);
    trans = node_gt_trans s;
  }

  -- On all nodes it is no order, by the position in the auction or by the rating: a node without one
  -- counts as equal to all.
  auction_position-not-IsOrder : ¬ IsOrder (node_gt auction_position)
  unfolding node_gt
  auction_position-not-IsOrder o = cc (
      o.trans (record new_node { auction_position = some 2 }) new_node
        (record new_node { auction_position = some 1 }) refl refl)

  temp_rating-not-IsOrder : ¬ IsOrder (node_gt temp_rating)
  unfolding node_gt
  temp_rating-not-IsOrder o = cc (
      o.trans (record new_node { temp_rating = some 2 }) (record new_node { temp_rating = none })
        (record new_node { temp_rating = some 1 }) refl refl)
