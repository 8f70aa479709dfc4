-- ===== src/Action/Mex/Guard.antt =====
-- The test on the receiver that comes before the exchange's recognizers.
use mx_api_service.Base.{
  ◌≡◌, refl, ap, sym, ◌∙◌, inl, inr, String, Option, none, some, List, [], ◌∷◌, ◌++◌, Bool, true,
  false, ◌||◌, ◌==◌, ==-true, Bool-cases, text_comparable, text_sound, arith,
}
use mx_api_service.Action.{returned}
use mx_api_service.Action.Arguments.{Metadata, Calls}
use mx_api_service.Action.Mex.Settings.{
  MexSettings, includes, get_mex_contracts_raw, is_mex_interaction,
}
use mx_api_service.Action.Mex.Pair.{recognize_pair}
use mx_api_service.Action.Mex.Farm.{recognize_farm}
use mx_api_service.Action.Mex.Assets.{
  recognize_wrap, recognize_locked_asset, recognize_distribution,
}
use mx_api_service.Action.Mex.Recognizer.{recognize_interaction, recognize_later, recognize_mex}

includes-append :
    (xs ys : List String) (a : String) → includes (xs ++ ys) a ≡ (includes xs a || includes ys a)
includes-append [] ys a = refl
includes-append (x ∷ xs) ys a = rw (includes-append xs ys a) (ground arith)

==-swap : (s t : String) → (s == t) ≡ false → (t == s) ≡ false
==-swap s t h = elim (Bool-cases (t == s)) [
  | inl e ↦ absurd (let k : (s == t) ≡ true = ==-true (sym (text_sound t s e)) in cc)
  | inr e ↦ e
]

-- The receiver is none of the contracts of the settings.
record Apart (s : MexSettings) (a : String) : Type 0 where
  distribution : (a == s.distribution_contract) ≡ false
  locked_asset : (a == s.locked_asset_contract) ≡ false
  router : (s.router_factory_contract == a) ≡ false
  farms : includes s.farm_contracts a ≡ false
  pairs : includes s.pair_contracts a ≡ false
  wraps : includes s.wrap_contracts a ≡ false

or-false : (a b : Bool) → (a || b) ≡ false → (a ≡ false) × (b ≡ false)
or-false true b h = absurd (cc)
or-false false b h = (refl, h)

not_among-Apart :
    (s : MexSettings) (a : String) → includes (get_mex_contracts_raw (some s)) a ≡ false → Apart s a
unfolding get_mex_contracts_raw
not_among-Apart s a h =
    let (d, h1) = or-false _ _ h in
    let (l, h2) = or-false _ _ h1 in
    let (r, h3) = or-false _ _ h2 in
    let (f, h4) = or-false _ _ (sym (includes-append s.farm_contracts _ a) ∙ h3) in
    let (p, w) = or-false _ _ (sym (includes-append s.pair_contracts s.wrap_contracts a) ∙ h4) in
    record {
      distribution = ==-swap _ _ d;
      locked_asset = ==-swap _ _ l;
      router = r;
      farms = f;
      pairs = p;
      wraps = w;
    }

module _ (c : Calls) (wegld : Option String) (s : MexSettings) (m : Metadata) where
  distribution_passes : Apart s m.receiver → recognize_distribution s m ≡ none
  unfolding recognize_distribution
  distribution_passes h = rw (recognize_distribution, h.distribution) refl

  pair_passes : Apart s m.receiver → recognize_pair c s m ≡ returned (none, m)
  unfolding recognize_pair
  pair_passes h = rw (recognize_pair, h.pairs, h.router) refl

  later_passes : Apart s m.receiver → recognize_later c wegld s m ≡ none
  unfolding recognize_later recognize_farm recognize_wrap recognize_locked_asset
  later_passes h =
      rw
        (
          recognize_later, recognize_farm, h.farms, recognize_wrap, h.wraps, recognize_locked_asset,
          h.locked_asset,
        )
        refl

  interaction-Apart : Apart s m.receiver → recognize_interaction c wegld s m ≡ returned (none, m)
  unfolding recognize_interaction
  interaction-Apart h =
      rw (recognize_interaction, distribution_passes h, pair_passes h)
        (ap (λ o. returned (o, m)) (later_passes h))

  -- With the contracts of the settings, the test whether the receiver is one of them changes
  -- nothing: each recognizer after it gives no action, and leaves the metadata as it is, where the
  -- receiver is none of them.
  pub recognize_mex-recognize_interaction :
      recognize_mex c (some s) (get_mex_contracts_raw (some s)) wegld m
      ≡ recognize_interaction c wegld s m
  unfolding recognize_mex is_mex_interaction
  recognize_mex-recognize_interaction =
      elim (Bool-cases (includes (get_mex_contracts_raw (some s)) m.receiver)) [
        | inl e ↦ rw (recognize_mex, is_mex_interaction, e) refl
        | inr e ↦
            rw (recognize_mex, is_mex_interaction, e)
              (sym (interaction-Apart (not_among-Apart s m.receiver e)))
      ]
