-- ===== src/Action/Recognized.antt =====
-- Which recognizer says what a transaction does (Action/Service).
use mx_api_service.Base.{
  ◌≡◌, refl, sym, ap, fun_ext, ◌∙◌, Option, none, some, List, [], ◌∷◌, ◌++◌, All, Bool, true, false,
}
use mx_api_service.Action.{
  Outcome, returned, thrown, out_of_fuel, ◌>>=◌, TransactionMetadata, TransactionAction,
}
use mx_api_service.Action.Service.{
  Answer, Recognizer, Recognizers, push_recognizers, get_recognizers, first_action, answer_or,
  reading,
}

module _ {P A : Type 0} where
  or_next_assoc :
      (o : Answer P A) (k l : Recognizer P A)
      → ((o >>= answer_or k) >>= answer_or l) ≡ (o >>= answer_or (λ m. k m >>= answer_or l))
  or_next_assoc (returned (none, m)) k l = refl
  or_next_assoc (returned (some a, m)) k l = refl
  or_next_assoc thrown k l = refl
  or_next_assoc out_of_fuel k l = refl

  first_action-append :
      (rs ss : List (Recognizer P A)) (m : TransactionMetadata P)
      → first_action (rs ++ ss) m ≡ (first_action rs m >>= answer_or (first_action ss))
  unfolding first_action
  first_action-append [] ss m = refl
  first_action-append (r ∷ rs) ss m =
      ap (λ k. r m >>= answer_or k) (fun_ext (first_action-append rs ss))
      ∙ sym (or_next_assoc (r m) (first_action rs) (first_action ss))

  -- A recognizer that passes leaves the metadata as it was.
  abbrev pub Keeps : Recognizer P A → Type 0
  Keeps r = (m m' : TransactionMetadata P) → r m ≡ returned (none, m') → m' ≡ m

  reading_step :
      (o : Outcome (Option (TransactionAction A))) (m m' : TransactionMetadata P)
      → ◌≡◌ {A = Answer P A} (o >>= (λ action. returned (action, m))) (returned (none, m'))
      → m' ≡ m
  reading_step (returned none) m m' h = cc
  reading_step (returned (some a)) m m' h = absurd (cc)
  reading_step thrown m m' h = absurd (cc)
  reading_step out_of_fuel m m' h = absurd (cc)

  pub reading-Keeps :
      (r : TransactionMetadata P → Outcome (Option (TransactionAction A))) → Keeps (reading r)
  reading-Keeps r m m' h = reading_step (r m) m m' h

  Keeps-step :
      (o : Answer P A) (m m'' : TransactionMetadata P) (k : Recognizer P A)
      → ((m' : TransactionMetadata P) → o ≡ returned (none, m') → m' ≡ m)
      → Keeps k
      → (o >>= answer_or k) ≡ returned (none, m'')
      → m'' ≡ m
  Keeps-step (returned (none, m')) m m'' k h j e = j m' m'' e ∙ h m' refl
  Keeps-step (returned (some a, m')) m m'' k h j e = cc
  Keeps-step thrown m m'' k h j e = cc
  Keeps-step out_of_fuel m m'' k h j e = cc

  first_action-Keeps : (rs : List (Recognizer P A)) → All Keeps rs → Keeps (first_action rs)
  unfolding first_action
  first_action-Keeps [] h m m' e = cc
  first_action-Keeps (r ∷ rs) (h, hs) m m' e =
      Keeps-step (r m) m m' (first_action rs) (h m) (first_action-Keeps rs hs) e

  -- Asking again after passing gives the same.
  ask_twice :
      (k : Recognizer P A)
      → Keeps k
      → (m : TransactionMetadata P) (o : Answer P A) → k m ≡ o
      → (o >>= answer_or k) ≡ o
  ask_twice k h m (returned (none, m')) e = ap k (h m m' e) ∙ e
  ask_twice k h m (returned (some a, m')) e = refl
  ask_twice k h m thrown e = refl
  ask_twice k h m out_of_fuel e = refl

  push_twice :
      (r : Recognizers P A) (b : Bool)
      → push_recognizers r b (push_recognizers r b [])
        ≡ push_recognizers r b [] ++ push_recognizers r b []
  unfolding push_recognizers
  push_twice r true = refl
  push_twice r false = refl

  -- Two first calls that both find the list of recognizers empty, and get the same answer on the
  -- exchange, put each recognizer in it twice. If each of them leaves the metadata as it was where
  -- it passes, then what is recognized is what one call would give.
  pub first_action-push_recognizers :
      (r : Recognizers P A) (is_mex_active : Bool) (m : TransactionMetadata P)
      → All Keeps (push_recognizers r is_mex_active [])
      → first_action (push_recognizers r is_mex_active (push_recognizers r is_mex_active [])) m
        ≡ first_action (get_recognizers r is_mex_active []) m
  unfolding get_recognizers
  first_action-push_recognizers r b m h =
      let rs = push_recognizers r b [] in
      ap (λ l. first_action l m) (push_twice r b)
      ∙ first_action-append rs rs m
      ∙ (ask_twice (first_action rs) (first_action-Keeps rs h) m (first_action rs m) refl)
