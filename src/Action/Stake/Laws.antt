-- ===== src/Action/Stake/Laws.antt =====
-- What the recognizer of staking transactions answers, and from which provider.
use mx_api_service.Base.{
  ℕ, decimal, subst, get_elem?, ◌≡◌, ◌⊎◌, arith, sym, refl, ap, ◌∙◌, inl, inr, String, Option, none,
  some, List, [], ◌∷◌, Bool, true, false, ◌||◌, ◌==◌, if◌then◌else◌, exists, text_comparable,
}
use mx_api_service.Action.{Outcome, returned, or_throw, ◌>>=◌}
use mx_api_service.Action.Arguments.{ProviderDetails, Metadata, Action, Calls, stake_arguments}
use mx_api_service.Action.Stake.{
  Provider, Identity, provider_details, Details, details_of, add_providers, get_providers,
  recognize_stake, provider_action, some_action, un_delegate, get_un_delegate_action,
  get_delegate_action, get_action,
}

-- The details of the last provider of the list at an address, or else the ones given.
abbrev pub last_provider :
    List Identity → String → List Provider → Option ProviderDetails → Option ProviderDetails
last_provider identities a [] d = d
last_provider identities a (p ∷ ps) d =
    last_provider identities a ps
      (if p.provider == a then some (provider_details identities p) else d)

details_of-add_providers :
    (identities : List Identity) (a : String) (ps : List Provider) (ds : Details)
    → details_of a (add_providers identities ps ds)
      ≡ last_provider identities a ps (details_of a ds)
unfolding details_of add_providers
details_of-add_providers identities a [] ds = refl
details_of-add_providers identities a (p ∷ ps) ds =
    details_of-add_providers identities a ps ((p.provider, provider_details identities p) ∷ ds)

-- The functions of a provider that are recognized.
abbrev pub stake_functions : List String
stake_functions =
    "delegate" ∷ "stake" ∷ "unDelegate" ∷ "claimRewards" ∷ "reDelegateRewards" ∷ "withdraw" ∷ []

if-cases :
    {A : Type 0} (b : Bool) (x y : A) {r : A}
    → (if b then x else y) ≡ r
    → ((b ≡ true) × (x ≡ r)) ⊎ ((b ≡ false) × (y ≡ r))
if-cases true x y h = inl (refl, h)
if-cases false x y h = inr (refl, h)

module _ (c : Calls) (m : Metadata) (d : ProviderDetails) where
  -- An action that shows the provider's details.
  abbrev Shows : Action → Type 0
  Shows a = (v : Option String) × (a.arguments ≡ some (stake_arguments v d))

  returned-inj :
      {a b : Action}
      → ◌≡◌ {A = Outcome (Option Action)} (returned (some a)) (returned (some b))
      → a ≡ b
  returned-inj h = cc

  Shows-eq :
      {a b : Action}
      → ◌≡◌ {A = Outcome (Option Action)} (returned (some a)) (returned (some b))
      → Shows a
      → Shows b
  Shows-eq h s = subst Shows (returned-inj h) s

  un_delegate-Shows :
      (a : Action) (o : Option ℕ)
      → c.hex_to_big_int (get_elem? m.function_args 0) ≡ o
      → some_action (get_un_delegate_action c m d) ≡ returned (some a)
      → Shows a
  unfolding get_un_delegate_action un_delegate
  un_delegate-Shows a none e h = absurd (cc)
  un_delegate-Shows a (some v) e h =
      Shows-eq (sym (ap (λ o. some_action (or_throw o >>= un_delegate c d)) e) ∙ h)
        (some (decimal v), refl)

  abbrev Recognized : String → Action → Type 0
  Recognized f a = (exists (λ x. f == x) stake_functions ≡ true) × Shows a

  provider_action-Recognized :
      (f : String) (a : Action) → provider_action c m d f ≡ returned (some a) → Recognized f a
  unfolding provider_action get_delegate_action get_action
  provider_action-Recognized f a h = elim (if-cases ((f == "delegate") || (f == "stake")) _ _ h) [
    | inl (e, k) ↦ (ground arith, Shows-eq k (some (decimal m.value), refl))
    | inr (e1, h1) ↦ elim (if-cases (f == "unDelegate") _ _ h1) [
      | inl (e, k) ↦ (ground arith, un_delegate-Shows a _ refl k)
      | inr (e2, h2) ↦ elim (if-cases (f == "claimRewards") _ _ h2) [
        | inl (e, k) ↦ (ground arith, Shows-eq k (none, refl))
        | inr (e3, h3) ↦ elim (if-cases (f == "reDelegateRewards") _ _ h3) [
          | inl (e, k) ↦ (ground arith, Shows-eq k (none, refl))
          | inr (e4, h4) ↦ elim (if-cases (f == "withdraw") _ _ h4) [
            | inl (e, k) ↦ (ground arith, Shows-eq k (none, refl))
            | inr (e5, h5) ↦ absurd (cc)
          ]
        ]
      ]
    ]
  ]

  named-Recognized :
      (name : Option String) (a : Action)
      → elim name [ none ↦ returned none | some f ↦ provider_action c m d f ] ≡ returned (some a)
      → (f : String) × (name ≡ some f) × Recognized f a
  named-Recognized none a h = absurd (cc)
  named-Recognized (some f) a h = (f, refl, provider_action-Recognized f a h)

-- What holds of an action on a provider with the details.
abbrev pub IsStaking : Calls → Metadata → Option ProviderDetails → Action → Type 0
IsStaking c m found a =
    (d : ProviderDetails) × (f : String) × (found ≡ some d)
    × (m.function_name ≡ some f)
    × (exists (λ x. f == x) stake_functions ≡ true)
    × ((v : Option String) × (a.arguments ≡ some (stake_arguments v d)))

recognize-step :
    (c : Calls) (m : Metadata) (a : Action) (found : Option ProviderDetails)
    → elim found [
      | none ↦ returned none
      | some d ↦ elim m.function_name [ none ↦ returned none | some f ↦ provider_action c m d f ]
    ]
      ≡ returned (some a)
    → IsStaking c m found a
recognize-step c m a none h = absurd (cc)
recognize-step c m a (some d) h =
    let (f, e, (among, shows)) = named-Recognized c m d m.function_name a h in
    (d, f, refl, e, among, shows)

-- Where the cache holds nothing, an action is recognized only if the receiver is one of the
-- providers and the function one of the six, and it shows the details of the last provider of the
-- list at that address.
pub recognize_stake-IsStaking :
    (c : Calls) (providers : List Provider) (identities : List Identity) (m : Metadata) (a : Action)
    → recognize_stake c (get_providers none providers identities) m ≡ returned (some a)
    → IsStaking c m (last_provider identities m.receiver providers none) a
unfolding recognize_stake get_providers details_of
recognize_stake-IsStaking c ps is m a h =
    subst (λ o. IsStaking c m o a) (details_of-add_providers is m.receiver ps [])
      (recognize-step c m a _ h)
