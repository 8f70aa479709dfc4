-- ===== src/Staking/Nakamoto.antt =====
-- getNakamotoCoefficient. The sort and the product with 0.33 are outside of the repository and of
-- the whole numbers: both are parameters.
use mx_api_service.Base.{
  ℕ, zero, suc, ◌+◌, ◌≤◌, ◌<◌, ◌≡◌, refl, ap, inl, inr, ◌⊎◌, arith, Option, none, some, List, [],
  ◌∷◌, map, take, length, All, ltb, if◌then◌else◌, Bool-cases,
}

-- An identity, by its validators.
pub record Identity : Type 0 where
  pub validators : Option ℕ

abbrev pub validators_of : Identity → ℕ
validators_of i = elim i.validators [ none ↦ 0 | some v ↦ v ]

-- The loop over the identities.
unfoldable pub count_identities : ℕ → ℕ → List ℕ → ℕ
count_identities threshold cumulative [] = 0
count_identities threshold cumulative (v ∷ vs) =
    let rest = count_identities threshold (cumulative + v) vs in
    if ltb threshold (cumulative + v) then 1 else suc rest

-- `sorted` is sortedDescending by the validators, `third` the ceiling of a number times 0.33.
unfoldable pub get_nakamoto_coefficient :
    (List Identity → List Identity) → (ℕ → ℕ) → ℕ → List Identity → ℕ
unfolding count_identities
get_nakamoto_coefficient sorted third total_validators identities =
    count_identities (third total_validators) 0 (map validators_of (sorted identities))

abbrev pub sum : List ℕ → ℕ
sum [] = 0
sum (v ∷ vs) = v + sum vs

abbrev pub IsDescending : List ℕ → Type 0
IsDescending [] = Unit
IsDescending (v ∷ vs) = All (λ w. w ≤ v) vs × IsDescending vs

-- A choice of some elements of a list, in their order.
pub data IsChoice : List ℕ → List ℕ → Type 0 where
  nothing : IsChoice [] []
  skip : {v : ℕ} {xs ys : List ℕ} → IsChoice xs ys → IsChoice xs (v ∷ ys)
  pick : {v : ℕ} {xs ys : List ℕ} → IsChoice xs ys → IsChoice (v ∷ xs) (v ∷ ys)

take_one_more :
    (k v : ℕ) (vs : List ℕ) → All (λ w. w ≤ v) vs → sum (take (suc k) vs) ≤ v + sum (take k vs)
take_one_more k v [] h = omega arith
take_one_more zero v (w ∷ vs) (h, hs) = omega arith
take_one_more (suc k) v (w ∷ vs) (h, hs) = let ih = take_one_more k v vs hs in omega arith

take_first : (k v : ℕ) (vs : List ℕ) → All (λ w. w ≤ v) vs → sum (take k vs) ≤ sum (take k (v ∷ vs))
take_first zero v vs h = omega arith
take_first (suc k) v vs h = take_one_more k v vs h

-- The first elements of a descending list have the largest sum.
IsChoice-sum :
    (xs ys : List ℕ) → IsChoice xs ys → IsDescending ys → sum xs ≤ sum (take (length xs) ys)
IsChoice-sum _ _ nothing h = omega arith
IsChoice-sum xs (v ∷ ys) (skip c) (h, hs) =
    let ih = IsChoice-sum xs ys c hs in let f = take_first (length xs) v ys h in omega arith
IsChoice-sum (v ∷ xs) (_ ∷ ys) (pick c) (h, hs) = let ih = IsChoice-sum xs ys c hs in omega arith

-- Fewer than are counted stay within the threshold.
count-below :
    (threshold k c : ℕ) (vs : List ℕ)
    → k < count_identities threshold c vs
    → c ≤ threshold
    → c + sum (take k vs) ≤ threshold
unfolding count_identities
count-below threshold k c [] h b = omega arith
count-below threshold zero c (v ∷ vs) h b = omega arith
count-below threshold (suc k) c (v ∷ vs) h b = elim (Bool-cases (ltb threshold (c + v))) [
  | inl e ↦ absurd (ground arith)
  | inr e ↦
      let f : k < count_identities threshold (c + v) vs = ground arith in
      let ih = count-below threshold k (c + v) vs f (ground arith) in omega arith
]

-- What is counted exceeds the threshold, unless everything is counted.
count-above :
    (threshold c : ℕ) (vs : List ℕ)
    → (threshold < c + sum (take (count_identities threshold c vs) vs))
      ⊎ (count_identities threshold c vs ≡ length vs)
unfolding count_identities
count-above threshold c [] = inr refl
count-above threshold c (v ∷ vs) = elim (Bool-cases (ltb threshold (c + v))) [
  | inl e ↦ rw (e) (inl (ground arith))
  | inr e ↦ elim (count-above threshold (c + v) vs) [
    | inl h ↦ rw (e) (inl (omega arith))
    | inr h ↦ rw (e) (inr (ap suc h))
  ]
]

-- Where the sort is by the validators, from the highest, fewer identities than the coefficient,
-- whichever are chosen, have no more validators than the threshold, and as many identities as the
-- coefficient says, taken from the highest, have more, unless they are all there are.
pub get_nakamoto_coefficient_least :
    (sorted : List Identity → List Identity) (third : ℕ → ℕ) (total_validators : ℕ)
    (identities : List Identity) (chosen : List ℕ)
    → IsDescending (map validators_of (sorted identities))
    → IsChoice chosen (map validators_of (sorted identities))
    → length chosen < get_nakamoto_coefficient sorted third total_validators identities
    → (sum chosen ≤ third total_validators)
      × ((third total_validators
            < sum (
                take
                  (get_nakamoto_coefficient sorted third total_validators identities)
                  (map validators_of (sorted identities))))
          ⊎ (get_nakamoto_coefficient sorted third total_validators identities
              ≡ length (map validators_of (sorted identities))))
unfolding get_nakamoto_coefficient
get_nakamoto_coefficient_least sorted third n identities chosen d c h =
    let vs = map validators_of (sorted identities) in
    let low = IsChoice-sum chosen vs c d in
    let k = count-below (third n) (length chosen) 0 vs h (omega arith) in
    (omega arith, elim (count-above (third n) 0 vs) [ inl e ↦ inl (omega arith) | inr e ↦ inr e ])
