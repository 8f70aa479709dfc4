-- ===== src/Nodes/Auctions.antt =====
-- processAuctions and getNodesAuctions of NodeService.
use mathlib.Core.List.{reverse}
use mx_api_service.Base.{
  ℕ, suc, ◌+◌, ◌-◌, ◌*◌, ◌/◌, ◌≡◌, ◌<◌, ◌↔◌, refl, sym, subst, ap, ◌∙◌, Bool, true, false, ◌&&◌,
  String, Option, none, some, List, [], ◌∷◌, ◌++◌, All, length, flatten, map, take, drop, ltb, ◌==◌,
  ==-true, text_comparable, option_comparable, nat_comparable, decimal, Bool-cases, inl, inr,
  if◌then◌else◌, arith,
}
use mx_api_service.CacheInfo.{QueryPagination}
use mx_api_service.Nodes.{Node, SortOrder, asc, desc}
use mx_api_service.Nodes.Filter.{is_true}

pub record AuctionNode : Type 0 where
  pub bls_key : String
  pub qualified : Bool

pub record Auction : Type 0 where
  pub qualified_top_up : String
  pub nodes : Option (List AuctionNode)

-- A node of an auction, with the top-up that it is qualified for.
pub record Entry : Type 0 where
  pub bls_key : String
  pub qualified : Bool
  pub qualified_top_up : String

-- The two inner loops run over these; an auction without nodes is passed over.
abbrev pub entries_of : Auction → List Entry
entries_of a = elim a.nodes [
  | none ↦ []
  | some ns ↦
      map
        (λ n. record {
          bls_key = n.bls_key;
          qualified = n.qualified;
          qualified_top_up = a.qualified_top_up;
        })
        ns
]

-- `big` is BigInt of a text of digits, and 0 for "".
module _ (big : String → ℕ) (threshold : ℕ) where
  unfoldable pub join_auction : ℕ → Entry → Node → Node
  join_auction position e n =
      if n.bls == e.bls_key
      then record n {
        auctioned = some true;
        auction_position = some position;
        auction_top_up = some e.qualified_top_up;
        auction_qualified = some e.qualified;
        qualified_stake = decimal (big n.stake + big e.qualified_top_up);
      }
      else n

  -- `value || "0"`
  abbrev pub amount_or_zero : Option String → ℕ
  amount_or_zero none = big "0"
  amount_or_zero (some s) = if s == "" then big "0" else big s

  abbrev pub in_danger : Node → Bool
  in_danger n =
      (n.status == some "auction")
      && is_true n.auction_qualified
      && ltb (amount_or_zero (some n.stake) + amount_or_zero n.auction_top_up) threshold

  unfoldable pub mark_danger : Node → Node
  mark_danger n = if in_danger n then record n { is_in_danger_zone = some true } else n

  -- The loops for one node, from a position on.
  unfoldable pub process_entries : ℕ → List Entry → Node → Node
  unfolding join_auction mark_danger
  process_entries position [] n = n
  process_entries position (e ∷ es) n =
      process_entries (suc position) es (mark_danger (join_auction position e n))

-- Where the minimum stake is `minimum`, in percent of which the danger zone is 105.
unfoldable pub process_auctions : (String → ℕ) → ℕ → List Auction → List Node → List Node
unfolding process_entries
process_auctions big minimum auctions nodes =
    map (process_entries big (minimum * 105 / 100) 1 (flatten (map entries_of auctions))) nodes

-- The fields of a node auction that getNodesAuctions reads.
pub record NodeAuction : Type 0 where
  pub qualified_stake : String
  pub auction_validators : ℕ
  pub qualified_auction_validators : ℕ
  pub dropped_validators : ℕ
  pub danger_zone_validators : ℕ

pub data NodeSortAuction : Type 0 where
  auction_validators dropped_validators qualified_auction_validators qualified_stake :
      NodeSortAuction
  danger_zone_validators : NodeSortAuction

pub record NodeAuctionFilter : Type 0 where
  pub sort : Option NodeSortAuction
  pub order : Option SortOrder

-- The number `n`, and the number `0 - n`.
pub data SortKey : Type 0 where
  plus minus : ℕ → SortKey

-- `to_number` is Number of a text.
abbrev pub auction_value : (String → ℕ) → NodeSortAuction → NodeAuction → SortKey
auction_value to_number auction_validators n = plus n.auction_validators
auction_value to_number dropped_validators n = plus n.dropped_validators
auction_value to_number qualified_auction_validators n = plus n.qualified_auction_validators
auction_value to_number qualified_stake n = plus (to_number n.qualified_stake)
auction_value to_number danger_zone_validators n = plus n.danger_zone_validators

-- The three keys that are sorted by, each where those before it are equal.
abbrev pub auction_keys : (String → ℕ) → Option NodeSortAuction → List (NodeAuction → SortKey)
auction_keys to_number sort =
    let by : NodeSortAuction = elim sort [ none ↦ qualified_stake | some s ↦ s ] in
    auction_value to_number by
    ∷ (λ n. if n.qualified_auction_validators == 0 then plus 0 else plus 1)
    ∷ (λ n. minus n.dropped_validators)
    ∷ []

-- The order is descending if it is asked for, and if neither a field nor an order is.
abbrev pub auctions_descend : NodeAuctionFilter → Bool
auctions_descend filter = elim filter.order [
  | some desc ↦ true
  | some asc ↦ false
  | none ↦ elim filter.sort [ none ↦ true | some _ ↦ false ]
]

-- `sorted` is the sorting of the SDK by some keys; the list is sliced from `from` to `size`, as the
-- code has it.
unfoldable pub get_nodes_auctions :
    (List (NodeAuction → SortKey) → List NodeAuction → List NodeAuction)
    → (String → ℕ)
    → QueryPagination
    → NodeAuctionFilter
    → List NodeAuction
    → List NodeAuction
get_nodes_auctions sorted to_number page filter nodes =
    let ordered = sorted (auction_keys to_number filter.sort) nodes in
    let listed = if auctions_descend filter then reverse ordered else ordered in
    take (page.size - page.start) (drop page.start listed)

module _ (big : String → ℕ) (threshold : ℕ) where
  -- None of the entries is about the node.
  abbrev pub Absent : String → List Entry → Type 0
  Absent bls es = All (λ e. (bls == e.bls_key) ≡ false) es

  -- The mark of a node is there already if it belongs there.
  abbrev Marked : Node → Type 0
  Marked n = mark_danger big threshold n ≡ n

  join_auction-Absent :
      (position : ℕ) (e : Entry) (n : Node)
      → (n.bls == e.bls_key) ≡ false
      → join_auction big threshold position e n ≡ n
  unfolding join_auction
  join_auction-Absent position e n h = rw (h) refl

  process_entries-Absent :
      (position : ℕ) (es : List Entry) (n : Node)
      → Absent n.bls es
      → Marked n
      → process_entries big threshold position es n ≡ n
  unfolding process_entries
  process_entries-Absent position [] n h m = refl
  process_entries-Absent position (e ∷ es) n (h, hs) m =
      ap (λ x. process_entries big threshold (suc position) es (mark_danger big threshold x))
        (join_auction-Absent position e n h)
      ∙ ap (process_entries big threshold (suc position) es) m
      ∙ process_entries-Absent (suc position) es n hs m

  process_entries-append :
      (position : ℕ) (xs ys : List Entry) (n : Node)
      → process_entries big threshold position (xs ++ ys) n
        ≡ process_entries big threshold
            (length xs + position)
            ys
            (process_entries big threshold position xs n)
  unfolding process_entries
  process_entries-append position [] ys n =
      let e : 0 + position ≡ position = omega arith in rw (e) refl
  process_entries-append position (x ∷ xs) ys n =
      let e : suc (length xs) + position ≡ length xs + suc position = omega arith in
      rw (e) (process_entries-append (suc position) xs ys _)

  mark_danger-Marked : (n : Node) → Marked (mark_danger big threshold n)
  unfolding mark_danger
  mark_danger-Marked n = elim (Bool-cases (in_danger big threshold n)) [
    | inl f ↦ rw (f) (rw (f) refl)
    | inr f ↦ rw (f) (rw (f) refl)
  ]

  mark_danger-bls : (n : Node) → (mark_danger big threshold n).bls ≡ n.bls
  unfolding mark_danger
  mark_danger-bls n = elim (Bool-cases (in_danger big threshold n)) [
    | inl f ↦ rw (f) refl
    | inr f ↦ rw (f) refl
  ]

  -- The node as its entry at a position leaves it.
  abbrev pub joined : ℕ → Entry → Node → Node
  joined position e n = record n {
    auctioned = some true;
    auction_position = some position;
    auction_top_up = some e.qualified_top_up;
    auction_qualified = some e.qualified;
    qualified_stake = decimal (big n.stake + big e.qualified_top_up);
  }

  join_auction-joined :
      (position : ℕ) (e : Entry) (n : Node)
      → n.bls ≡ e.bls_key
      → join_auction big threshold position e n ≡ joined position e n
  unfolding join_auction
  join_auction-joined position e n h = rw (==-true h) refl

  process_entries-here :
      (p : ℕ) (e : Entry) (after : List Entry) (n : Node)
      → n.bls ≡ e.bls_key
      → process_entries big threshold p (e ∷ after) n
        ≡ process_entries big threshold (suc p) after (mark_danger big threshold (joined p e n))
  unfolding process_entries
  process_entries-here p e after n i =
      ap (λ x. process_entries big threshold (suc p) after (mark_danger big threshold x))
        (join_auction-joined p e n i)

  and_false : (a b c : Bool) → b ≡ false → (a && b && c) ≡ false
  and_false true b c h = rw (h) refl
  and_false false b c h = refl

  unqualified-Marked : (n : Node) → n.auction_qualified ≡ none → Marked n
  unfolding mark_danger
  unqualified-Marked n q =
      let f : in_danger big threshold n ≡ false =
        and_false _ (is_true n.auction_qualified) _ (ap is_true q) in
      rw (f) refl

  process_entries-mark :
      (before after : List Entry) (e : Entry) (n : Node)
      → n.auction_qualified ≡ none
      → n.bls ≡ e.bls_key
      → Absent n.bls before
      → Absent n.bls after
      → process_entries big threshold 1 (before ++ e ∷ after) n
        ≡ mark_danger big threshold (joined (length before + 1) e n)
  process_entries-mark before after e n q i b a =
      let p = length before + 1 in
      let m = mark_danger big threshold (joined p e n) in
      process_entries-append 1 before (e ∷ after) n
      ∙ ap (process_entries big threshold p (e ∷ after))
          (process_entries-Absent 1 before n b (unqualified-Marked n q))
      ∙ process_entries-here p e after n i
      ∙ process_entries-Absent (suc p) after m
          (subst (λ x. Absent x after) (sym (mark_danger-bls (joined p e n))) a)
          (mark_danger-Marked (joined p e n))

  is_true-some : (b : Bool) → is_true (some b) ≡ b
  is_true-some true = refl
  is_true-some false = refl

  and3_iff : (a b c : Bool) → ((a && b && c) ≡ true) ↔ ((a ≡ true) × (b ≡ true) × (c ≡ true))
  and3_iff true true c = (λ h. (refl, refl, h), λ h. h.2)
  and3_iff true false c = (λ h. cc, λ h. cc (h.1))
  and3_iff false b c = (λ h. cc, λ h. cc (h.0))

  some_sound : (s : Option String) (t : String) → (s == some t) ≡ true → s ≡ some t
  some_sound none t h = cc
  some_sound (some s) t h = ap some (text_comparable.sound s t h)

  -- What puts a node with an entry in the danger zone: it is in the auction, the entry is qualified,
  -- and the stake and the top-up are together less than the threshold.
  abbrev pub InDanger : Entry → Node → Type 0
  InDanger e n =
      (n.status ≡ some "auction")
      × (e.qualified ≡ true)
      × (big n.stake + big e.qualified_top_up < threshold)

  module _ (empty : big "" ≡ big "0") where
    amount_or_zero-some : (s : String) → amount_or_zero big threshold (some s) ≡ big s
    amount_or_zero-some s = elim (Bool-cases (s == "")) [
      | inl e ↦ rw (e, text_comparable.sound s "" e) (sym empty)
      | inr e ↦ rw (e) refl
    ]

    in_danger_iff :
        (p : ℕ) (e : Entry) (n : Node)
        → (in_danger big threshold (joined p e n) ≡ true) ↔ InDanger e n
    in_danger_iff p e n =
        let stake = amount_or_zero-some n.stake in
        let top_up = amount_or_zero-some e.qualified_top_up in
        let q = is_true-some e.qualified in
        let three = and3_iff (n.status == some "auction") (is_true (some e.qualified)) _ in
        (
          λ h.
              let (s, t, u) = three.0 h in
              let below : ltb (big n.stake + big e.qualified_top_up) threshold ≡ true =
                rw (stake, top_up) at u in
              (some_sound n.status "auction" s, sym q ∙ t, ground (arith, below)),
          λ (s, t, u). three.1 (==-true s, q ∙ t, rw (stake, top_up) (ground (arith, u))),
        )

    mark_danger_iff :
        (n : Node)
        → n.is_in_danger_zone ≡ none
        → ((mark_danger big threshold n).is_in_danger_zone ≡ some true)
          ↔ (in_danger big threshold n ≡ true)
    unfolding mark_danger
    mark_danger_iff n m = elim (Bool-cases (in_danger big threshold n)) [
      | inl f ↦ rw (f) (λ h. refl, λ h. refl)
      | inr f ↦ rw (f, m) (λ h. cc, λ h. cc)
    ]

    mark_danger-fields :
        (n : Node)
        → mark_danger big threshold n
          ≡ record n { is_in_danger_zone = (mark_danger big threshold n).is_in_danger_zone }
    unfolding mark_danger
    mark_danger-fields n = elim (Bool-cases (in_danger big threshold n)) [
      | inl f ↦ rw (f) refl
      | inr f ↦ rw (f) refl
    ]

    -- Where BigInt reads "" and "0" alike, a node that was never in an auction nor marked, and has
    -- one entry among all those of the auctions, gets what the entry says and its place among the
    -- entries as its position. It is marked as in the danger zone exactly if its status is that it
    -- is in the auction, the entry is qualified, and its stake and the top-up are together less than
    -- the threshold; nothing else of it changes.
    pub process_entries-joined :
        (before after : List Entry) (e : Entry) (n : Node)
        → n.auction_qualified ≡ none
        → n.is_in_danger_zone ≡ none
        → n.bls ≡ e.bls_key
        → Absent n.bls before
        → Absent n.bls after
        → (process_entries big threshold 1 (before ++ e ∷ after) n
            ≡ record (joined (length before + 1) e n) {
              is_in_danger_zone =
                  (process_entries big threshold 1 (before ++ e ∷ after) n).is_in_danger_zone;
            })
          × (((process_entries big threshold 1 (before ++ e ∷ after) n).is_in_danger_zone
                ≡ some true)
              ↔ InDanger e n)
    process_entries-joined before after e n q m i b a =
        let p = length before + 1 in
        let mark = mark_danger_iff (joined p e n) m in
        let danger = in_danger_iff p e n in
        rw (process_entries-mark before after e n q i b a)
          (mark_danger-fields (joined p e n), (λ h. danger.0 (mark.0 h), λ h. mark.1 (danger.1 h)))
