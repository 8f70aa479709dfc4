-- ===== src/Nodes/Filter.antt =====
-- The test of getFilteredNodes of NodeService.
use Prim.Native.Char.{code}
use mx_api_service.Base.{
  ◌≡◌, refl, Bool, true, false, not, ◌&&◌, ◌||◌, String, Option, none, some, List, [], ◌∷◌, exists,
  ◌==◌, Comparable, bool_comparable, nat_beq, nat_comparable, text_comparable, option_comparable,
  if◌then◌else◌,
}
use mx_api_service.Nodes.{Node, NodeFilter, NodeType, observer, validator}

abbrev pub type_test : NodeType → NodeType → Bool
type_test observer observer = true
type_test validator validator = true
type_test _ _ = false

pub type_sound : (a b : NodeType) → type_test a b ≡ true → a ≡ b
type_sound observer observer h = refl
type_sound validator validator h = refl
type_sound observer validator h = cc
type_sound validator observer h = cc

pub type_reflexive : (a : NodeType) → type_test a a ≡ true
type_reflexive observer = refl
type_reflexive validator = refl

instance abbrev pub type_comparable : Comparable NodeType
type_comparable = record { same = type_test; sound = type_sound; reflexive = type_reflexive }

unfoldable pub begins_with : String → String → Bool
begins_with s String.[] = true
begins_with String.[] (String.◌∷◌ d t) = false
begins_with (String.◌∷◌ c s) (String.◌∷◌ d t) =
    if nat_beq (code c) (code d) then begins_with s t else false

-- `s.includes(t)`
unfoldable pub includes : String → String → Bool
unfolding begins_with
includes String.[] t = begins_with String.[] t
includes (String.◌∷◌ c s) t = begins_with (String.◌∷◌ c s) t || includes s t

-- `query !== undefined && value !== query`
abbrev pub differs : {A : Type 0} ⦃c : Comparable A⦄ → Option A → Option A → Bool
differs ⦃c⦄ none v = false
differs ⦃c⦄ (some a) none = true
differs ⦃c⦄ (some a) (some b) = not (c.same b a)

-- `query && value !== query`, where "" is as if it was not given.
abbrev pub text_differs : Option String → Option String → Bool
text_differs none v = false
text_differs (some a) v = if a == "" then false else differs (some a) v

abbrev pub is_true : Option Bool → Bool
is_true (some true) = true
is_true _ = false

abbrev pub has_issues : Node → Bool
has_issues n = elim n.issues [ [] ↦ false | _ ∷ _ ↦ true ]

abbrev pub flag_differs : Option Bool → Bool → Bool
flag_differs none v = false
flag_differs (some true) v = not v
flag_differs (some false) v = v

-- `lower` is toLowerCase.
module _ (lower : String → String) where
  -- `text && text.toLowerCase().includes(search.toLowerCase())`
  unfoldable pub text_matches : String → String → Bool
  unfolding includes
  text_matches search text = if text == "" then false else includes (lower text) (lower search)

  -- A text that is `undefined` is tested as if it was "".
  abbrev pub text_given : Option String → String
  text_given none = ""
  text_given (some s) = s

  unfoldable pub search_fails : Option String → Node → Bool
  unfolding text_matches
  search_fails none n = false
  search_fails (some s) n =
      not (text_matches s n.bls)
      && not (text_matches s (text_given n.name))
      && not (text_matches s n.version)

  abbrev pub keys_fail : Option (List String) → Node → Bool
  keys_fail none n = false
  keys_fail (some ks) n = not (exists (λ k. k == n.bls) ks)

  abbrev pub danger_zone_fails : Option Bool → Node → Bool
  danger_zone_fails (some true) n = not (is_true n.is_in_danger_zone)
  danger_zone_fails _ n = false

  unfoldable pub node_matches : NodeFilter → Node → Bool
  unfolding search_fails
  node_matches q n =
      if search_fails q.search n
      then false
      else if differs q.online (some n.online)
      then false
      else if differs q.node_type n.node_type
      then false
      else if differs q.status n.status
      then false
      else if differs q.shard n.shard
      then false
      else if flag_differs q.issues (has_issues n)
      then false
      else if text_differs q.identity n.identity
      then false
      else if text_differs q.provider (some n.provider)
      then false
      else if text_differs q.owner (some n.owner)
      then false
      else if differs q.auctioned n.auctioned
      then false
      else if flag_differs q.full_history (is_true n.full_history)
      then false
      else if danger_zone_fails q.is_auction_danger_zone n
      then false
      else if keys_fail q.keys n
      then false
      else if differs q.is_qualified n.auction_qualified
      then false
      else if differs q.is_auctioned n.auctioned
      then false
      else true
