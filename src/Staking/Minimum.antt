-- ===== src/Staking/Minimum.antt =====
-- getMinimumAuctionTopUp and getMinimumAuctionStake.
use mx_api_service.Base.{
  ℕ, ◌+◌, ◌≤◌, ◌≡◌, refl, ap, ◌∙◌, sym, inl, inr, ◌⊎◌, arith, String, decimal, Option, none, some,
  List, [], ◌∷◌, ◌++◌, All, Bool, true, false, ◌||◌, ◌==◌, text_reflexive, ltb, if◌then◌else◌,
  Bool-cases, exists, text_comparable,
}
use mx_api_service.Nodes.Auctions.{Auction, AuctionNode}

-- `!text` of an amount that can be undefined.
abbrev pub is_unset : Option String → Bool
is_unset none = true
is_unset (some s) = s == ""

-- `big` is BigInt of a text of digits.
module _ (big : String → ℕ) where
  abbrev pub is_higher : Option String → String → Bool
  is_higher none t = false
  is_higher (some m) t = ltb (big t) (big m)

  -- The amount kept once an amount is seen that counts.
  abbrev pub keep_lower : String → Option String → Option String
  keep_lower t m = if is_unset m || is_higher m t then some t else m

  unfoldable pub scan_nodes : String → List AuctionNode → Option String → Option String
  scan_nodes t [] m = m
  scan_nodes t (n ∷ ns) m = scan_nodes t ns (if n.qualified then keep_lower t m else m)

  -- An auction can have no nodes.
  unfoldable pub scan_given : String → Option (List AuctionNode) → Option String → Option String
  unfolding scan_nodes
  scan_given t none m = m
  scan_given t (some ns) m = scan_nodes t ns m

  -- The loop over the auctions.
  unfoldable pub scan_auctions : List Auction → Option String → Option String
  unfolding scan_given
  scan_auctions [] m = m
  scan_auctions (a ∷ rest) m = scan_auctions rest (scan_given a.qualified_top_up a.nodes m)

  unfoldable pub get_minimum_auction_top_up : List Auction → Option String
  unfolding scan_auctions
  get_minimum_auction_top_up [] = none
  get_minimum_auction_top_up (a ∷ rest) = scan_auctions (a ∷ rest) none

  abbrev pub amount_of : Option String → ℕ
  amount_of none = 0
  amount_of (some s) = if s == "" then 0 else big s

  unfoldable pub get_minimum_auction_stake : List Auction → String
  unfolding get_minimum_auction_top_up decimal
  get_minimum_auction_stake auctions =
      decimal (2500000000000000000000 + amount_of (get_minimum_auction_top_up auctions))

-- The top-up of each node that is qualified.
abbrev pub top_ups_of : String → List AuctionNode → List String
top_ups_of t [] = []
top_ups_of t (n ∷ ns) = if n.qualified then t ∷ top_ups_of t ns else top_ups_of t ns

abbrev pub given_top_ups : String → Option (List AuctionNode) → List String
given_top_ups t none = []
given_top_ups t (some ns) = top_ups_of t ns

abbrev pub qualified_top_ups : List Auction → List String
qualified_top_ups [] = []
qualified_top_ups (a ∷ rest) = given_top_ups a.qualified_top_up a.nodes ++ qualified_top_ups rest

module _ (big : String → ℕ) where
  keep_all : List String → Option String → Option String
  keep_all [] m = m
  keep_all (t ∷ ts) m = keep_all ts (keep_lower big t m)

  keep_all-append :
      (ts us : List String) (m : Option String)
      → keep_all (ts ++ us) m ≡ keep_all us (keep_all ts m)
  unfolding keep_all
  keep_all-append [] us m = refl
  keep_all-append (t ∷ ts) us m = keep_all-append ts us (keep_lower big t m)

  scan_nodes-keep_all :
      (t : String) (ns : List AuctionNode) (m : Option String)
      → scan_nodes big t ns m ≡ keep_all (top_ups_of t ns) m
  unfolding scan_nodes keep_all
  scan_nodes-keep_all t [] m = refl
  scan_nodes-keep_all t (n ∷ ns) m = elim (Bool-cases n.qualified) [
    | inl e ↦ rw (e) (scan_nodes-keep_all t ns (keep_lower big t m))
    | inr e ↦ rw (e) (scan_nodes-keep_all t ns m)
  ]

  scan_given-keep_all :
      (t : String) (ns : Option (List AuctionNode)) (m : Option String)
      → scan_given big t ns m ≡ keep_all (given_top_ups t ns) m
  unfolding scan_given keep_all
  scan_given-keep_all t none m = refl
  scan_given-keep_all t (some ns) m = scan_nodes-keep_all t ns m

  scan_auctions-keep_all :
      (auctions : List Auction) (m : Option String)
      → scan_auctions big auctions m ≡ keep_all (qualified_top_ups auctions) m
  unfolding scan_auctions keep_all
  scan_auctions-keep_all [] m = refl
  scan_auctions-keep_all (a ∷ rest) m =
      scan_auctions-keep_all rest (scan_given big a.qualified_top_up a.nodes m)
      ∙ ap (keep_all (qualified_top_ups rest)) (scan_given-keep_all a.qualified_top_up a.nodes m)
      ∙ sym (keep_all-append (given_top_ups a.qualified_top_up a.nodes) (qualified_top_ups rest) m)

  get_minimum-keep_all :
      (auctions : List Auction)
      → get_minimum_auction_top_up big auctions ≡ keep_all (qualified_top_ups auctions) none
  unfolding get_minimum_auction_top_up keep_all
  get_minimum-keep_all [] = refl
  get_minimum-keep_all (a ∷ rest) = scan_auctions-keep_all (a ∷ rest) none

  -- The first text or a member of the list, not above any of them.
  abbrev Lowest : String → List String → String → Type 0
  Lowest m ts r =
      (exists (λ u. u == r) (m ∷ ts) ≡ true) × (big r ≤ big m) × All (λ u. big r ≤ big u) ts

  abbrev IsGiven : List String → Type 0
  IsGiven ts = All (λ t. (t == "") ≡ false) ts

  or-true : (a b c : Bool) → (a || c) ≡ true → (a || (b || c)) ≡ true
  or-true a b c h = ground arith

  skip_true : (a b : Bool) → b ≡ true → (a || b) ≡ true
  skip_true a b h = ground arith

  keep_all-Lowest :
      (m : String) (ts : List String)
      → (m == "") ≡ false
      → IsGiven ts
      → (r : String) × (keep_all ts (some m) ≡ some r) × Lowest m ts r
  unfolding keep_all
  keep_all-Lowest m [] h k = (m, refl, (rw (text_reflexive m) refl, omega arith, tt))
  keep_all-Lowest m (t ∷ ts) h (g, k) = elim (Bool-cases (ltb (big t) (big m))) [
    | inl e ↦
        let (r, p, (i, l, ls)) = keep_all-Lowest t ts g k in
        (r, rw (h, e) p, (skip_true _ _ i, ground arith, (l, ls)))
    | inr e ↦
        let (r, p, (i, l, ls)) = keep_all-Lowest m ts h k in
        (
          r,
          rw (h, e) p,
          (or-true (m == r) (t == r) (exists (λ u. u == r) ts) i, l, (ground arith, ls)),
        )
  ]

  -- An amount among them that none is below.
  abbrev pub IsLeast : List String → String → Type 0
  IsLeast ts r = (exists (λ u. u == r) ts ≡ true) × All (λ u. big r ≤ big u) ts

  minimum_of :
      (ts : List String)
      → IsGiven ts
      → ((ts ≡ []) × (keep_all ts none ≡ none))
        ⊎ ((r : String) × (keep_all ts none ≡ some r) × IsLeast ts r)
  unfolding keep_all
  minimum_of [] h = inl (refl, refl)
  minimum_of (t ∷ ts) (g, h) =
      let (r, p, (i, l, ls)) = keep_all-Lowest t ts g h in inr (r, p, (i, (l, ls)))

  -- Where no top-up is the empty text, the minimum is undefined exactly if no node is qualified,
  -- and else it is one of the top-ups of the qualified nodes, with none below it.
  pub get_minimum_auction_top_up-IsLeast :
      (auctions : List Auction)
      → All (λ t. (t == "") ≡ false) (qualified_top_ups auctions)
      → ((qualified_top_ups auctions ≡ []) × (get_minimum_auction_top_up big auctions ≡ none))
        ⊎ ((r : String) × (get_minimum_auction_top_up big auctions ≡ some r)
            × IsLeast (qualified_top_ups auctions) r)
  get_minimum_auction_top_up-IsLeast auctions h =
      rw (get_minimum-keep_all auctions) (minimum_of (qualified_top_ups auctions) h)
