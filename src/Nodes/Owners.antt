-- ===== src/Nodes/Owners.antt =====
-- getOwners of NodeService: owners of nodes from the cache, and from the contract where it has none.
use mx_api_service.Base.{
  ◌≡◌, ◌≢◌, ◌⊎◌, inl, inr, refl, sym, ap, ap₂, ◌∙◌, Bool, true, false, String, Option, none, some,
  List, [], ◌∷◌, ◌++◌, map, All, ◌==◌, text_comparable, ==-true, Bool-cases, if◌then◌else◌,
}

-- What the contract says: the owner of a node, and the nodes of an owner.
pub record Contract : Type 0 where
  pub get_bls_owner : String → Option String
  pub get_owner_blses : String → List String

-- The dictionary `owners`, and what is written to the cache, in order.
pub record Owners : Type 0 where
  pub owner : String → Option String
  pub writes : List (String × String)

abbrev pub no_owners : Owners
no_owners = record { owner = λ b. none; writes = [] }

-- One round of the loop over the nodes of an owner.
unfoldable pub record_owner : String → String → Owners → Owners
record_owner owner bls s = record {
  owner = λ b. if b == bls then some owner else s.owner b;
  writes = s.writes ++ (bls, owner) ∷ [];
}

unfoldable pub record_owners : String → List String → Owners → Owners
unfolding record_owner
record_owners owner [] s = s
record_owners owner (b ∷ bs) s = record_owners owner bs (record_owner owner b s)

-- An owner that is "" is as if there were none.
abbrev pub is_given : Option String → Bool
is_given none = false
is_given (some o) = if o == "" then false else true

module _ (c : Contract) where
  -- The nodes of an owner, if there is one.
  unfoldable pub record_found : Option String → Owners → Owners
  unfolding record_owners
  record_found none s = s
  record_found (some o) s = if o == "" then s else record_owners o (c.get_owner_blses o) s

  -- One round of the loop over the nodes that the cache lacks.
  unfoldable pub find_owner : String → Owners → Owners
  unfolding record_found
  find_owner bls s = if is_given (s.owner bls) then s else record_found (c.get_bls_owner bls) s

  -- Each node stands with what the cache has for it.
  unfoldable pub find_owners : List (String × Option String) → Owners → Owners
  unfolding find_owner
  find_owners [] s = s
  find_owners ((bls, none) ∷ bs) s = find_owners bs (find_owner bls s)
  find_owners ((bls, some o) ∷ bs) s = find_owners bs s

  abbrev pub owner_or_found : Owners → String × Option String → Option String
  owner_or_found s (bls, none) = s.owner bls
  owner_or_found s (bls, some o) = some o

  unfoldable pub get_owners :
      List (String × Option String) → List (Option String) × List (String × String)
  unfolding find_owners
  get_owners bs = let s = find_owners bs no_owners in (map (owner_or_found s) bs, s.writes)

  abbrev pub IsIn : String → List String → Type 0
  IsIn b [] = ⊥
  IsIn b (x ∷ xs) = (b ≡ x) ⊎ IsIn b xs

  -- The contract knows the owner of every node, and the nodes of every owner.
  pub record Knows (owner_of : String → Option String) : Type 0 where
    pub owner : (b : String) → c.get_bls_owner b ≡ owner_of b
    pub named : (b : String) → owner_of b ≢ some ""
    pub only : (o : String) → All (λ b. owner_of b ≡ some o) (c.get_owner_blses o)
    pub each : (b o : String) → owner_of b ≡ some o → IsIn b (c.get_owner_blses o)

  -- What the cache has is right.
  abbrev pub CacheIsRight : (String → Option String) → List (String × Option String) → Type 0
  CacheIsRight owner_of [] = Unit
  CacheIsRight owner_of ((b, none) ∷ bs) = CacheIsRight owner_of bs
  CacheIsRight owner_of ((b, some o) ∷ bs) = (owner_of b ≡ some o) × CacheIsRight owner_of bs

  abbrev pub blses_of : List (String × Option String) → List String
  blses_of bs = map (λ p. p.0) bs

  module _ (owner_of : String → Option String) (k : Knows owner_of) where
    -- What the dictionary has is right.
    abbrev Agrees : Owners → Type 0
    Agrees s = (b : String) → (s.owner b ≡ none) ⊎ (s.owner b ≡ owner_of b)

    abbrev Settled : String → Owners → Type 0
    Settled b s = s.owner b ≡ owner_of b

    record_owner-Settled :
        (o x b : String) (s : Owners)
        → owner_of x ≡ some o
        → Settled b s
        → Settled b (record_owner o x s)
    unfolding record_owner
    record_owner-Settled o x b s e h = elim (Bool-cases (b == x)) [
      | inl f ↦ rw (f) (sym e ∙ ap owner_of (sym (text_comparable.sound b x f)))
      | inr f ↦ rw (f) h
    ]

    record_owner-Agrees :
        (o x : String) (s : Owners) → owner_of x ≡ some o → Agrees s → Agrees (record_owner o x s)
    unfolding record_owner
    record_owner-Agrees o x s e h b = elim (Bool-cases (b == x)) [
      | inl f ↦ inr (rw (f) (sym e ∙ ap owner_of (sym (text_comparable.sound b x f))))
      | inr f ↦ rw (f) (h b)
    ]

    record_itself :
        (o x b : String) (s : Owners) → owner_of x ≡ some o → b ≡ x → Settled b (record_owner o x s)
    unfolding record_owner
    record_itself o x b s h e = rw (==-true e) (sym h ∙ ap owner_of (sym e))

    record_owners-Settled :
        (o b : String) (xs : List String) (s : Owners)
        → All (λ x. owner_of x ≡ some o) xs
        → Settled b s
        → Settled b (record_owners o xs s)
    unfolding record_owners
    record_owners-Settled o b [] s h t = t
    record_owners-Settled o b (x ∷ xs) s (h, hs) t =
        record_owners-Settled o b xs _ hs (record_owner-Settled o x b s h t)

    record_owners-Agrees :
        (o : String) (xs : List String) (s : Owners)
        → All (λ x. owner_of x ≡ some o) xs
        → Agrees s
        → Agrees (record_owners o xs s)
    unfolding record_owners
    record_owners-Agrees o [] s h t = t
    record_owners-Agrees o (x ∷ xs) s (h, hs) t =
        record_owners-Agrees o xs _ hs (record_owner-Agrees o x s h t)

    record_owners-settles :
        (o b : String) (xs : List String) (s : Owners)
        → All (λ x. owner_of x ≡ some o) xs
        → IsIn b xs
        → Settled b (record_owners o xs s)
    unfolding record_owners
    record_owners-settles o b [] s h m = absurd m
    record_owners-settles o b (x ∷ xs) s (h, hs) (inl e) =
        record_owners-Settled o b xs _ hs (record_itself o x b s h e)
    record_owners-settles o b (x ∷ xs) s (h, hs) (inr m) = record_owners-settles o b xs _ hs m

    record_found-Settled :
        (x b : String) (o : Option String) (s : Owners)
        → c.get_bls_owner x ≡ o
        → Settled b s
        → Settled b (record_found o s)
    unfolding record_found
    record_found-Settled x b none s e h = h
    record_found-Settled x b (some o) s e h = elim (Bool-cases (o == "")) [
      | inl f ↦ rw (f) h
      | inr f ↦ rw (f) (record_owners-Settled o b (c.get_owner_blses o) s (k.only o) h)
    ]

    record_found-Agrees : (o : Option String) (s : Owners) → Agrees s → Agrees (record_found o s)
    unfolding record_found
    record_found-Agrees none s h = h
    record_found-Agrees (some o) s h = elim (Bool-cases (o == "")) [
      | inl f ↦ rw (f) h
      | inr f ↦ rw (f) (record_owners-Agrees o (c.get_owner_blses o) s (k.only o) h)
    ]

    record_found-settles :
        (b : String) (o : Option String) (s : Owners)
        → owner_of b ≡ o
        → Agrees s
        → Settled b s ⊎ (s.owner b ≡ none)
        → Settled b (record_found o s)
    unfolding record_found
    record_found-settles b none s e h (inl t) = t
    record_found-settles b none s e h (inr t) = t ∙ sym e
    record_found-settles b (some o) s e h t = elim (Bool-cases (o == "")) [
      | inl f ↦ absurd (k.named b (e ∙ ap some (text_comparable.sound o "" f)))
      | inr f ↦ rw (f) (record_owners-settles o b (c.get_owner_blses o) s (k.only o) (k.each b o e))
    ]

    find_owner-Settled : (x b : String) (s : Owners) → Settled b s → Settled b (find_owner x s)
    unfolding find_owner
    find_owner-Settled x b s h = elim (Bool-cases (is_given (s.owner x))) [
      | inl f ↦ rw (f) h
      | inr f ↦ rw (f) (record_found-Settled x b (c.get_bls_owner x) s refl h)
    ]

    find_owner-Agrees : (x : String) (s : Owners) → Agrees s → Agrees (find_owner x s)
    unfolding find_owner
    find_owner-Agrees x s h = elim (Bool-cases (is_given (s.owner x))) [
      | inl f ↦ rw (f) h
      | inr f ↦ rw (f) (record_found-Agrees (c.get_bls_owner x) s h)
    ]

    find_owner-settles : (b : String) (s : Owners) → Agrees s → Settled b (find_owner b s)
    unfolding find_owner
    find_owner-settles b s h = elim (Bool-cases (is_given (s.owner b))) [
      | inl f ↦ rw (f) (elim (h b) [ inl e ↦ cc (rw (e) at f) | inr e ↦ e ])
      | inr f ↦ rw (f) (
          record_found-settles b (c.get_bls_owner b) s (sym (k.owner b)) h
            (elim (h b) [ inl e ↦ inr e | inr e ↦ inl e ]))
    ]

    find_owners-Settled :
        (b : String) (bs : List (String × Option String)) (s : Owners)
        → Settled b s
        → Settled b (find_owners bs s)
    unfolding find_owners
    find_owners-Settled b [] s h = h
    find_owners-Settled b ((x, none) ∷ bs) s h =
        find_owners-Settled b bs _ (find_owner-Settled x b s h)
    find_owners-Settled b ((x, some o) ∷ bs) s h = find_owners-Settled b bs s h

    -- After the loop, the answer for each node is right, whatever the dictionary held before.
    find_owners-answers :
        (bs : List (String × Option String)) (s : Owners)
        → Agrees s
        → CacheIsRight owner_of bs
        → map (owner_or_found (find_owners bs s)) bs ≡ map owner_of (blses_of bs)
    unfolding find_owners
    find_owners-answers [] s h r = refl
    find_owners-answers ((b, none) ∷ bs) s h r =
        ap₂ ◌∷◌ (find_owners-Settled b bs _ (find_owner-settles b s h))
          (find_owners-answers bs _ (find_owner-Agrees b s h) r)
    find_owners-answers ((b, some o) ∷ bs) s h (e, r) =
        ap₂ ◌∷◌ (sym e) (find_owners-answers bs s h r)

    -- If the contract knows every owner and the cache is right, each node of the list gets its owner,
    -- in the order of the list, whether the cache had it or not.
    pub get_owners-owner_of :
        (bs : List (String × Option String))
        → CacheIsRight owner_of bs
        → (get_owners bs).0 ≡ map owner_of (blses_of bs)
    unfolding get_owners
    get_owners-owner_of bs r = find_owners-answers bs no_owners (λ b. inl refl) r
