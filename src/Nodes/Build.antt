-- ===== src/Nodes/Build.antt =====
-- How NodeService puts its nodes together: the type and the status that the gateway's answers give,
-- the version, the queue, and the providers.
use mx_api_service.Base.{
  ℕ, ◌≡◌, refl, sym, ◌∙◌, Bool, true, false, ◌||◌, String, ◌<>◌, split, Option, none, some, List,
  [], ◌∷◌, ◌++◌, find, take, ◌==◌, ==-true, text_comparable, option_comparable, Bool-cases, inl,
  inr, if◌then◌else◌,
}
use mx_api_service.Nodes.{Node, NodeType, observer, validator, new_node}
use mx_api_service.Nodes.Filter.{includes, type_comparable}

-- `peerType ? peerType : validatorStatus`, where "" is as if it was not given.
abbrev pub given_or : Option String → Option String → Option String
given_or none b = b
given_or (some a) b = if a == "" then b else some a

abbrev pub is_leaving : Option String → Bool
is_leaving none = false
is_leaving (some s) = includes s "leaving"

unfoldable pub node_kind : Option String → Option String → NodeType × Option String
unfolding includes
node_kind peer_type validator_status =
    if validator_status == some "new"
    then (validator, some "new")
    else if validator_status == some "auction"
    then (validator, some "auction")
    else if validator_status == some "jailed"
    then (validator, some "jailed")
    else if is_leaving validator_status
    then (validator, some "leaving")
    else if validator_status == some "inactive"
    then (validator, some "inactive")
    else if peer_type == some "observer"
    then (observer, none)
    else (validator, given_or peer_type validator_status)

-- The first part of a text that is split at one character; 45 is `-` and 47 is `/`.
abbrev pub first_part : List String → String
first_part [] = ""
first_part (p ∷ _) = p

abbrev pub join_dash : List String → String
join_dash [] = ""
join_dash (p ∷ ps) = elim ps [ [] ↦ p | _ ∷ _ ↦ p <> ("-" <> join_dash ps) ]

unfoldable pub node_version : String → String
unfolding includes split ◌<>◌
node_version version =
    if version == ""
    then ""
    else if includes version "-rc" || includes version "-patch"
    then first_part (split 47 (join_dash (take 2 (split 45 version))))
    else first_part (split 47 (first_part (split 45 version)))

version_test : node_version "v1.8.3-rc2-0-gabc/go1.20" ≡ "v1.8.3-rc2"
unfolding node_version
version_test = refl

-- `nodes.find(node => node.bls === bls)` with a change to what is found.
abbrev pub change_first : String → (Node → Node) → List Node → List Node
change_first bls f [] = []
change_first bls f (n ∷ ns) = if n.bls == bls then f n ∷ ns else n ∷ change_first bls f ns

abbrev pub has_bls : String → List Node → Bool
has_bls bls [] = false
has_bls bls (n ∷ ns) = (n.bls == bls) || has_bls bls ns

abbrev pub queued : ℕ → Node → Node
queued position n = record n {
  node_type = some validator;
  status = some "queued";
  position = position;
}

-- An item of the queue: its node, and its place.
unfoldable pub process_queue_item : String × ℕ → List Node → List Node
process_queue_item (bls, position) nodes =
    if has_bls bls nodes
    then change_first bls (queued position) nodes
    else nodes ++ queued position (record new_node { bls = bls }) ∷ []

unfoldable pub process_queued_nodes : List (String × ℕ) → List Node → List Node
unfolding process_queue_item
process_queued_nodes [] nodes = nodes
process_queued_nodes (item ∷ queue) nodes =
    process_queued_nodes queue (process_queue_item item nodes)

-- The node of a name, by the first that has it.
abbrev pub find_node : String → List Node → Option Node
find_node bls nodes = find (λ n. n.bls == bls) nodes

-- `provider_owner` is what the cache has under ProviderOwner; "" is as if it had none.
unfoldable pub apply_node_provider : (String → Option String) → Node → Node
apply_node_provider provider_owner n =
    if n.node_type == some validator
    then elim (provider_owner n.owner) [
      | none ↦ n
      | some o ↦ if o == "" then n else record n { provider = n.owner; owner = o }
    ]
    else n

abbrev pub QueuedAt : String → ℕ → List Node → Type 0
QueuedAt bls position nodes =
    (n : Node) × (find_node bls nodes ≡ some n)
    × (n.node_type ≡ some validator)
    × (n.status ≡ some "queued")
    × (n.position ≡ position)

change_first-QueuedAt :
    (bls : String) (position : ℕ) (nodes : List Node)
    → has_bls bls nodes ≡ true
    → QueuedAt bls position (change_first bls (queued position) nodes)
change_first-QueuedAt bls position [] h = cc
change_first-QueuedAt bls position (n ∷ ns) h = elim (Bool-cases (n.bls == bls)) [
  | inl e ↦ rw (e) (queued position n, rw (e) refl, refl, refl, refl)
  | inr e ↦ rw (e) (rw (e) (change_first-QueuedAt bls position ns (rw (e) at h)))
]

append-QueuedAt :
    (bls : String) (position : ℕ) (nodes : List Node)
    → has_bls bls nodes ≡ false
    → QueuedAt bls position (nodes ++ queued position (record new_node { bls = bls }) ∷ [])
append-QueuedAt bls position [] h = (
  queued position (record new_node { bls = bls }),
  rw (==-true {x = bls} refl) refl,
  refl,
  refl,
  refl,
)
append-QueuedAt bls position (n ∷ ns) h = elim (Bool-cases (n.bls == bls)) [
  | inl e ↦ cc (rw (e) at h)
  | inr e ↦ rw (e) (append-QueuedAt bls position ns (rw (e) at h))
]

not_same : (a b c : String) → (a == b) ≡ true → (c == b) ≡ false → (a == c) ≡ false
not_same a b c e f = elim (Bool-cases (a == c)) [
  | inl g ↦
      let same : c ≡ b = sym (text_comparable.sound a c g) ∙ text_comparable.sound a b e in
      cc (==-true same)
  | inr g ↦ g
]

-- What is done to one node is not seen of another.
change_first-other :
    (bls other : String) (position : ℕ) (nodes : List Node)
    → (bls == other) ≡ false
    → find_node bls (change_first other (queued position) nodes) ≡ find_node bls nodes
change_first-other bls other position [] h = refl
change_first-other bls other position (n ∷ ns) h = elim (Bool-cases (n.bls == other)) [
  | inl e ↦ rw (e) (rw (not_same n.bls other bls e h) refl)
  | inr e ↦ rw (e) (elim (Bool-cases (n.bls == bls)) [
    | inl f ↦ rw (f) refl
    | inr f ↦ rw (f) (change_first-other bls other position ns h)
  ])
]

append-other :
    (bls : String) (nodes : List Node) (n : Node)
    → (n.bls == bls) ≡ false
    → find_node bls (nodes ++ n ∷ []) ≡ find_node bls nodes
append-other bls [] n h = rw (h) refl
append-other bls (x ∷ xs) n h = elim (Bool-cases (x.bls == bls)) [
  | inl f ↦ rw (f) refl
  | inr f ↦ rw (f) (append-other bls xs n h)
]

swapped : (a b : String) → (a == b) ≡ false → (b == a) ≡ false
swapped a b h = elim (Bool-cases (b == a)) [
  | inl f ↦ cc (==-true (sym (text_comparable.sound b a f)))
  | inr f ↦ f
]

process_queue_item-other :
    (bls other : String) (position : ℕ) (nodes : List Node)
    → (bls == other) ≡ false
    → find_node bls (process_queue_item (other, position) nodes) ≡ find_node bls nodes
unfolding process_queue_item
process_queue_item-other bls other position nodes h = elim (Bool-cases (has_bls other nodes)) [
  | inl e ↦ rw (e) (change_first-other bls other position nodes h)
  | inr e ↦ rw (e) (
      append-other bls nodes (queued position (record new_node { bls = other }))
        (swapped bls other h))
]

process_queue_item-QueuedAt :
    (bls : String) (position : ℕ) (nodes : List Node)
    → QueuedAt bls position (process_queue_item (bls, position) nodes)
unfolding process_queue_item
process_queue_item-QueuedAt bls position nodes = elim (Bool-cases (has_bls bls nodes)) [
  | inl e ↦ rw (e) (change_first-QueuedAt bls position nodes e)
  | inr e ↦ rw (e) (append-QueuedAt bls position nodes e)
]

-- No item of the queue has the name.
abbrev pub NotQueued : String → List (String × ℕ) → Type 0
NotQueued bls [] = Unit
NotQueued bls ((other, position) ∷ queue) = ((bls == other) ≡ false) × NotQueued bls queue

process_queued_nodes-other :
    (bls : String) (queue : List (String × ℕ)) (nodes : List Node)
    → NotQueued bls queue
    → find_node bls (process_queued_nodes queue nodes) ≡ find_node bls nodes
unfolding process_queued_nodes
process_queued_nodes-other bls [] nodes h = refl
process_queued_nodes-other bls ((other, position) ∷ queue) nodes (h, hs) =
    process_queued_nodes-other bls queue _ hs ∙ process_queue_item-other bls other position nodes h

last_item :
    (bls : String) (position : ℕ) (before after : List (String × ℕ)) (nodes : List Node)
    → NotQueued bls after
    → QueuedAt bls position (process_queued_nodes (before ++ (bls, position) ∷ after) nodes)
unfolding process_queued_nodes
last_item bls position [] after nodes h =
    let (n, e, p, q, r) = process_queue_item-QueuedAt bls position nodes in
    (n, process_queued_nodes-other bls after _ h ∙ e, p, q, r)
last_item bls position (item ∷ before) after nodes h =
    last_item bls position before after (process_queue_item item nodes) h

-- An item of the queue whose node has no later item leaves its node as a queued validator at the
-- item's place, whether the node was known before or not; a node without an item is left as it was.
pub process_queued_nodes-QueuedAt :
    (bls : String) (position : ℕ) (before after : List (String × ℕ)) (nodes : List Node)
    → NotQueued bls after
    → QueuedAt bls position (process_queued_nodes (before ++ (bls, position) ∷ after) nodes)
      × ((other : String)
          → NotQueued other (before ++ (bls, position) ∷ after)
          → find_node other (process_queued_nodes (before ++ (bls, position) ∷ after) nodes)
            ≡ find_node other nodes)
process_queued_nodes-QueuedAt bls position before after nodes h = (
  last_item bls position before after nodes h,
  λ other k. process_queued_nodes-other other (before ++ (bls, position) ∷ after) nodes k,
)
