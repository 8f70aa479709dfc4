-- ===== src/Nodes/Criteria.antt =====
-- What a query asks of a node, and that the test of the service (Nodes/Filter) decides it.
use Prim.Native.Char.{code}
use text.Mathlib.TextEquality.{Char-path}
use mx_api_service.Base.{
  ◌≡◌, ◌≢◌, ◌↔◌, ◌⊎◌, inl, inr, refl, sym, subst, ap, ap₂, nat_sound, nat_reflexive, Bool, true,
  false, not, ◌&&◌, ◌||◌, String, ◌<>◌, Option, none, some, List, [], ◌∷◌, All, exists, ◌==◌,
  Comparable, Bool-cases, nat_beq, bool_comparable, nat_comparable, text_comparable,
  option_comparable, ==-true, if◌then◌else◌, arith,
}
use mx_api_service.Nodes.{Node, NodeFilter}
use mx_api_service.Nodes.Filter.{
  differs, text_differs, flag_differs, is_true, has_issues, begins_with, includes, text_matches,
  search_fails, keys_fail, danger_zone_fails, node_matches, type_comparable, text_given,
}

-- The text `t` stands somewhere in `s`.
abbrev pub Contains : String → String → Type 0
Contains s t = (before : String) × (after : String) × (s ≡ before <> (t <> after))

begins_with→prefix : (s t : String) → begins_with s t ≡ true → (after : String) × (s ≡ t <> after)
unfolding begins_with ◌<>◌
begins_with→prefix s String.[] h = (s, refl)
begins_with→prefix String.[] (String.◌∷◌ d t) h = cc
begins_with→prefix (String.◌∷◌ c s) (String.◌∷◌ d t) h =
    let same : nat_beq (code c) (code d) ≡ true = ground arith in
    let rest : begins_with s t ≡ true = ground arith in
    let (after, e) = begins_with→prefix s t rest in
    (after, ap₂ String.◌∷◌ (Char-path c d (nat_sound (code c) (code d) same)) e)

prefix→begins_with : (t after : String) → begins_with (t <> after) t ≡ true
unfolding begins_with ◌<>◌
prefix→begins_with String.[] String.[] = refl
prefix→begins_with String.[] (String.◌∷◌ c s) = refl
prefix→begins_with (String.◌∷◌ d t) after = rw (nat_reflexive (code d)) (prefix→begins_with t after)

includes→Contains : (s t : String) → includes s t ≡ true → Contains s t
unfolding includes ◌<>◌
includes→Contains String.[] t h =
    let (after, e) = begins_with→prefix String.[] t h in ("", after, e)
includes→Contains (String.◌∷◌ c s) t h = elim (Bool-cases (begins_with (String.◌∷◌ c s) t)) [
  | inl e ↦ let (after, f) = begins_with→prefix (String.◌∷◌ c s) t e in ("", after, f)
  | inr e ↦
      let later : includes s t ≡ true = ground arith in
      let (before, after, f) = includes→Contains s t later in
      (String.◌∷◌ c before, after, ap (String.◌∷◌ c) f)
]

includes_first : (s t : String) → begins_with s t ≡ true → includes s t ≡ true
unfolding includes
includes_first String.[] t h = h
includes_first (String.◌∷◌ c s) t h = rw (h) refl

or_true : (b : Bool) → (b || true) ≡ true
or_true true = refl
or_true false = refl

Contains→includes : (before t after : String) → includes (before <> (t <> after)) t ≡ true
unfolding includes ◌<>◌
Contains→includes String.[] t after = includes_first (t <> after) t (prefix→begins_with t after)
Contains→includes (String.◌∷◌ c before) t after = rw (Contains→includes before t after) (or_true _)

pub includes_iff : (s t : String) → (includes s t ≡ true) ↔ Contains s t
includes_iff s t = (
  includes→Contains s t,
  λ (before, after, e). subst (λ x. includes x t ≡ true) (sym e) (Contains→includes before t after),
)

not-false : {b : Bool} → not b ≡ false → b ≡ true
not-false {b = true} h = refl
not-false {b = false} h = cc

some_inj : {A : Type 0} {a b : A} → some a ≡ some b → a ≡ b
some_inj h = cc

module _ {A : Type 0} where
  -- A value that is asked for is the value there.
  abbrev pub Asks : Option A → Option A → Type 0
  Asks none v = Unit
  Asks (some a) v = v ≡ some a

  differs_iff : ⦃c : Comparable A⦄ (q v : Option A) → (differs q v ≡ false) ↔ Asks q v
  differs_iff none v = (λ h. tt, λ h. refl)
  differs_iff (some a) none = (λ h. cc, λ h. cc)
  differs_iff ⦃c⦄ (some a) (some b) =
      (λ h. ap some (c.sound b a (not-false h)), λ h. ap not (==-true (some_inj h)))

-- A text that is asked for, but "", is the text there.
abbrev pub AsksText : Option String → Option String → Type 0
AsksText none v = Unit
AsksText (some a) v = a ≢ "" → v ≡ some a

text_differs_iff : (q v : Option String) → (text_differs q v ≡ false) ↔ AsksText q v
text_differs_iff none v = (λ h. tt, λ h. refl)
text_differs_iff (some a) v = elim (Bool-cases (a == "")) [
  | inl e ↦ (λ h n. absurd (n (text_comparable.sound a "" e)), λ h. rw (e) refl)
  | inr e ↦ (
    λ h n. (differs_iff (some a) v).0 (rw e at h),
    λ h. rw (e) ((differs_iff (some a) v).1 (h (λ p. cc (==-true p)))),
  )
]

-- A flag that is asked for is the answer of the test.
abbrev pub AsksFlag : Option Bool → Bool → Type 0
AsksFlag none v = Unit
AsksFlag (some b) v = v ≡ b

flag_differs_iff : (q : Option Bool) (v : Bool) → (flag_differs q v ≡ false) ↔ AsksFlag q v
flag_differs_iff none v = (λ h. tt, λ h. refl)
flag_differs_iff (some true) true = (λ h. refl, λ h. refl)
flag_differs_iff (some true) false = (λ h. cc, λ h. cc)
flag_differs_iff (some false) true = (λ h. cc, λ h. cc)
flag_differs_iff (some false) false = (λ h. refl, λ h. refl)

-- The danger zone can only be asked for: a `false` asks nothing.
abbrev pub AsksDangerZone : Option Bool → Node → Type 0
AsksDangerZone (some true) n = is_true n.is_in_danger_zone ≡ true
AsksDangerZone _ n = Unit

danger_zone_fails_iff :
    (lower : String → String) (q : Option Bool) (n : Node)
    → (danger_zone_fails lower q n ≡ false) ↔ AsksDangerZone q n
danger_zone_fails_iff lower none n = (λ h. tt, λ h. refl)
danger_zone_fails_iff lower (some false) n = (λ h. tt, λ h. refl)
danger_zone_fails_iff lower (some true) n = (λ h. not-false h, λ h. ap not h)

abbrev pub IsAmong : String → List String → Type 0
IsAmong b [] = ⊥
IsAmong b (k ∷ ks) = (k ≡ b) ⊎ IsAmong b ks

exists-IsAmong : (b : String) (ks : List String) → (exists (λ k. k == b) ks ≡ true) ↔ IsAmong b ks
exists-IsAmong b [] = (λ h. cc, λ h. absurd h)
exists-IsAmong b (k ∷ ks) = elim (Bool-cases (k == b)) [
  | inl e ↦ (λ h. inl (text_comparable.sound k b e), λ h. rw (e) refl)
  | inr e ↦ (
    λ h. inr ((exists-IsAmong b ks).0 (rw e at h)),
    λ h. elim h [ inl p ↦ cc (==-true p) | inr p ↦ rw (e) ((exists-IsAmong b ks).1 p) ],
  )
]

abbrev pub AsksKeys : Option (List String) → Node → Type 0
AsksKeys none n = Unit
AsksKeys (some ks) n = IsAmong n.bls ks

keys_fail_iff :
    (lower : String → String) (q : Option (List String)) (n : Node)
    → (keys_fail lower q n ≡ false) ↔ AsksKeys q n
keys_fail_iff lower none n = (λ h. tt, λ h. refl)
keys_fail_iff lower (some ks) n =
    (λ h. (exists-IsAmong n.bls ks).0 (not-false h), λ h. ap not ((exists-IsAmong n.bls ks).1 h))

three_iff :
    (a b c : Bool) → ((not a && not b && not c) ≡ false) ↔ ((a ≡ true) ⊎ (b ≡ true) ⊎ (c ≡ true))
three_iff true b c = (λ h. inl refl, λ h. refl)
three_iff false true c = (λ h. inr (inl refl), λ h. refl)
three_iff false false true = (λ h. inr (inr refl), λ h. refl)
three_iff false false false =
    (λ h. cc, λ h. elim h [ inl p ↦ cc | inr q ↦ elim q [ inl p ↦ cc | inr p ↦ cc ] ])

module _ (lower : String → String) where
  -- The search text stands in a text that is not "", whatever the case of the letters is.
  abbrev pub Mentions : String → String → Type 0
  Mentions text s = (text ≢ "") × Contains (lower text) (lower s)

  text_matches_iff : (s text : String) → (text_matches lower s text ≡ true) ↔ Mentions text s
  unfolding text_matches
  text_matches_iff s text = elim (Bool-cases (text == "")) [
    | inl e ↦ (λ h. cc (rw e at h), λ h. absurd (h.0 (text_comparable.sound text "" e)))
    | inr e ↦ (
      λ h. (λ p. cc (==-true p), (includes_iff (lower text) (lower s)).0 (rw e at h)),
      λ h. rw (e) ((includes_iff (lower text) (lower s)).1 h.1),
    )
  ]

  -- One of the three texts of a node mentions what is searched.
  abbrev pub AsksSearch : Option String → Node → Type 0
  AsksSearch none n = Unit
  AsksSearch (some s) n =
      Mentions n.bls s ⊎ Mentions (text_given lower n.name) s ⊎ Mentions n.version s

  search_fails_iff :
      (q : Option String) (n : Node) → (search_fails lower q n ≡ false) ↔ AsksSearch q n
  unfolding search_fails
  search_fails_iff none n = (λ h. tt, λ h. refl)
  search_fails_iff (some s) n =
      let bls = text_matches_iff s n.bls in
      let name = text_matches_iff s (text_given lower n.name) in
      let version = text_matches_iff s n.version in
      let three =
        three_iff (text_matches lower s n.bls) (text_matches lower s (text_given lower n.name))
          (text_matches lower s n.version) in
      (
        λ h. elim (three.0 h) [
          | inl p ↦ inl (bls.0 p)
          | inr q ↦ elim q [ inl p ↦ inr (inl (name.0 p)) | inr p ↦ inr (inr (version.0 p)) ]
        ],
        λ h. three.1 (elim h [
          | inl p ↦ inl (bls.1 p)
          | inr q ↦ elim q [ inl p ↦ inr (inl (name.1 p)) | inr p ↦ inr (inr (version.1 p)) ]
        ]),
      )

  -- What a query asks of a node, criterion by criterion.
  pub record Fits (q : NodeFilter) (n : Node) : Type 0 where
    pub search : AsksSearch q.search n
    pub online : Asks q.online (some n.online)
    pub node_type : Asks q.node_type n.node_type
    pub status : Asks q.status n.status
    pub shard : Asks q.shard n.shard
    pub issues : AsksFlag q.issues (has_issues n)
    pub identity : AsksText q.identity n.identity
    pub provider : AsksText q.provider (some n.provider)
    pub owner : AsksText q.owner (some n.owner)
    pub auctioned : Asks q.auctioned n.auctioned
    pub full_history : AsksFlag q.full_history (is_true n.full_history)
    pub danger_zone : AsksDangerZone q.is_auction_danger_zone n
    pub keys : AsksKeys q.keys n
    pub is_qualified : Asks q.is_qualified n.auction_qualified
    pub is_auctioned : Asks q.is_auctioned n.auctioned

  -- The early returns of the service, as a list of tests.
  abbrev first_failure : List Bool → Bool
  first_failure [] = true
  first_failure (b ∷ bs) = if b then false else first_failure bs

  first_failure_iff : (bs : List Bool) → (first_failure bs ≡ true) ↔ All (λ b. b ≡ false) bs
  first_failure_iff [] = (λ h. tt, λ h. refl)
  first_failure_iff (true ∷ bs) = (λ h. cc, λ h. cc (h.0))
  first_failure_iff (false ∷ bs) =
      (λ h. (refl, (first_failure_iff bs).0 h), λ h. (first_failure_iff bs).1 h.1)

  abbrev failures : NodeFilter → Node → List Bool
  failures q n =
      search_fails lower q.search n
      ∷ differs q.online (some n.online)
      ∷ differs q.node_type n.node_type
      ∷ differs q.status n.status
      ∷ differs q.shard n.shard
      ∷ flag_differs q.issues (has_issues n)
      ∷ text_differs q.identity n.identity
      ∷ text_differs q.provider (some n.provider)
      ∷ text_differs q.owner (some n.owner)
      ∷ differs q.auctioned n.auctioned
      ∷ flag_differs q.full_history (is_true n.full_history)
      ∷ danger_zone_fails lower q.is_auction_danger_zone n
      ∷ keys_fail lower q.keys n
      ∷ differs q.is_qualified n.auction_qualified
      ∷ differs q.is_auctioned n.auctioned
      ∷ []

  -- A node passes the test of the service exactly if it is what the query asks for in each of its
  -- criteria.
  pub node_matches_iff : (q : NodeFilter) (n : Node) → (node_matches lower q n ≡ true) ↔ Fits q n
  unfolding node_matches
  node_matches_iff q n = (
    λ h.
        let (a, (b, (c, (d, (e, (f, (g, (i, (j, (k, (l, (m, (o, (p, (r, z))))))))))))))) =
          (first_failure_iff (failures q n)).0 h in
        record {
          search = (search_fails_iff q.search n).0 a;
          online = (differs_iff q.online (some n.online)).0 b;
          node_type = (differs_iff q.node_type n.node_type).0 c;
          status = (differs_iff q.status n.status).0 d;
          shard = (differs_iff q.shard n.shard).0 e;
          issues = (flag_differs_iff q.issues (has_issues n)).0 f;
          identity = (text_differs_iff q.identity n.identity).0 g;
          provider = (text_differs_iff q.provider (some n.provider)).0 i;
          owner = (text_differs_iff q.owner (some n.owner)).0 j;
          auctioned = (differs_iff q.auctioned n.auctioned).0 k;
          full_history = (flag_differs_iff q.full_history (is_true n.full_history)).0 l;
          danger_zone = (danger_zone_fails_iff lower q.is_auction_danger_zone n).0 m;
          keys = (keys_fail_iff lower q.keys n).0 o;
          is_qualified = (differs_iff q.is_qualified n.auction_qualified).0 p;
          is_auctioned = (differs_iff q.is_auctioned n.auctioned).0 r;
        },
    λ h. (first_failure_iff (failures q n)).1 (
      (search_fails_iff q.search n).1 h.search,
      (
        (differs_iff q.online (some n.online)).1 h.online,
        (
          (differs_iff q.node_type n.node_type).1 h.node_type,
          (
            (differs_iff q.status n.status).1 h.status,
            (
              (differs_iff q.shard n.shard).1 h.shard,
              (
                (flag_differs_iff q.issues (has_issues n)).1 h.issues,
                (
                  (text_differs_iff q.identity n.identity).1 h.identity,
                  (
                    (text_differs_iff q.provider (some n.provider)).1 h.provider,
                    (
                      (text_differs_iff q.owner (some n.owner)).1 h.owner,
                      (
                        (differs_iff q.auctioned n.auctioned).1 h.auctioned,
                        (
                          (flag_differs_iff q.full_history (is_true n.full_history)).1
                              h.full_history,
                          (
                            (danger_zone_fails_iff lower q.is_auction_danger_zone n).1
                                h.danger_zone,
                            (
                              (keys_fail_iff lower q.keys n).1 h.keys,
                              (
                                (differs_iff q.is_qualified n.auction_qualified).1 h.is_qualified,
                                ((differs_iff q.is_auctioned n.auctioned).1 h.is_auctioned, tt),
                              ),
                            ),
                          ),
                        ),
                      ),
                    ),
                  ),
                ),
              ),
            ),
          ),
        ),
      ),
    ),
  )
