-- ===== src/Tokens/Counts.antt =====
-- How the pages of the list of tokens and its count agree (Tokens).
use mx_api_service.Base.{
  ℕ, suc, ◌+◌, ◌≡◌, refl, ap, fun_ext, ◌∙◌, inl, inr, arith, String, Option, none, some, List, [],
  ◌∷◌, ◌++◌, map, Bool, true, false, not, ◌&&◌, ◌==◌, if◌then◌else◌, Bool-cases, exists, select,
  take, drop, length, text_comparable, option_comparable,
}
use mx_api_service.CacheInfo.{QueryPagination}
use mx_api_service.Nodes.{SortOrder, asc, desc}
use mx_api_service.Tokens.{
  TokenType, fungible_esdt, Token, TokenSort, TokenFilter, filter_given, Listing, sort_tokens,
  criteria, sort_given, type_is, filter_type, is_found, contains, is_among, filter_identifiers,
  filter_meta, filter_pair_types, filter_before, get_filtered_tokens, apply_ticker_from_assets,
  is_no_egld, get_tokens,
}

select-select :
    {A : Type 0} (p q : A → Bool) (xs : List A)
    → select p (select q xs) ≡ select (λ x. q x && p x) xs
select-select p q [] = refl
select-select p q (x ∷ xs) = elim (Bool-cases (q x)) [
  | inl e ↦ elim (Bool-cases (p x)) [
    | inl f ↦ rw (e, f) (ap (λ ys. x ∷ ys) (select-select p q xs))
    | inr f ↦ rw (e, f) (select-select p q xs)
  ]
  | inr e ↦ rw (e) (select-select p q xs)
]

select-append :
    {A : Type 0} (p : A → Bool) (xs ys : List A) → select p (xs ++ ys) ≡ select p xs ++ select p ys
select-append p [] ys = refl
select-append p (x ∷ xs) ys = elim (Bool-cases (p x)) [
  | inl e ↦ rw (e) (ap (λ zs. x ∷ zs) (select-append p xs ys))
  | inr e ↦ rw (e) (select-append p xs ys)
]

map-append : {A B : Type 0} (f : A → B) (xs ys : List A) → map f (xs ++ ys) ≡ map f xs ++ map f ys
map-append f [] ys = refl
map-append f (x ∷ xs) ys = ap (λ zs. f x ∷ zs) (map-append f xs ys)

-- The number of elements that pass a test.
abbrev pub count : {A : Type 0} → (A → Bool) → List A → ℕ
count p xs = length (select p xs)

count-not :
    {A : Type 0} (p : A → Bool) (xs : List A) → count p xs + count (λ x. not (p x)) xs ≡ length xs
count-not p [] = omega arith
count-not p (x ∷ xs) = elim (Bool-cases (p x)) [
  | inl e ↦ let ih = count-not p xs in rw (e) (omega arith)
  | inr e ↦ let ih = count-not p xs in rw (e) (omega arith)
]

module _ {V : Type 0} where
  ticker_keeps : (t : Token V) → is_no_egld (apply_ticker_from_assets t) ≡ is_no_egld t
  unfolding apply_ticker_from_assets
  ticker_keeps t = elim (Bool-cases t.has_assets) [ inl e ↦ rw (e) refl | inr e ↦ rw (e) refl ]

  count-ticker :
      (ts : List (Token V))
      → count (is_no_egld) (map (apply_ticker_from_assets) ts) ≡ count (is_no_egld) ts
  count-ticker [] = refl
  count-ticker (t ∷ ts) = elim (Bool-cases (is_no_egld t)) [
    | inl e ↦ rw (ticker_keeps t, e) (ap (λ n. suc n) (count-ticker ts))
    | inr e ↦ rw (ticker_keeps t, e) (count-ticker ts)
  ]

-- A test that is only made if the flag is off.
abbrev pub unless : {A : Type 0} → Bool → (A → Bool) → A → Bool
unless true p x = true
unless false p x = p x

-- A criterion that a filter can give.
abbrev pub given_ok : {A : Type 0} → Option String → (String → A → Bool) → A → Bool
given_ok none p t = true
given_ok (some s) p t = unless (s == "") (p s) t

and_assoc : (a b c d : Bool) → (a && ((b && c) && d)) ≡ (((a && b) && c) && d)
and_assoc a b c d = ground arith

select-true : {A : Type 0} (xs : List A) → xs ≡ select (λ x. true) xs
select-true [] = refl
select-true (x ∷ xs) = ap (λ ys. x ∷ ys) (select-true xs)

select-unless :
    {A : Type 0} (b : Bool) (p : A → Bool) (xs : List A)
    → (if b then xs else select p xs) ≡ select (unless b p) xs
select-unless true p xs = select-true xs
select-unless false p xs = refl

filter_given-select :
    {A : Type 0} (o : Option String) (p : String → A → Bool) (xs : List A)
    → filter_given o p xs ≡ select (given_ok o p) xs
filter_given-select none p xs = select-true xs
filter_given-select (some s) p xs = select-unless (s == "") (p s) xs

-- One more filter after a selection.
select-given :
    {A : Type 0} (o : Option String) (p : String → A → Bool) (q : A → Bool) (xs ys : List A)
    → ys ≡ select q xs
    → filter_given o p ys ≡ select (λ x. q x && given_ok o p x) xs
select-given o p q xs ys e =
    filter_given-select o p ys ∙ ap (select (given_ok o p)) e ∙ select-select (given_ok o p) q xs

module _ {V : Type 0} (l : Listing V) where
  -- The criteria of a filter, one by one.
  abbrev pub type_ok : Option TokenType → Token V → Bool
  type_ok none t = true
  type_ok (some ty) t = type_is ty t

  abbrev pub identifiers_ok : Option (List String) → Token V → Bool
  identifiers_ok none t = true
  identifiers_ok (some ids) t = is_among l ids t

  abbrev pub meta_ok : Option Bool → Token V → Bool
  meta_ok (some true) t = true
  meta_ok _ t = type_is fungible_esdt t

  abbrev pub pair_ok : List String → Token V → Bool
  pair_ok [] t = true
  pair_ok (p ∷ ps) t = exists (λ x. x == t.mex_pair_type) (p ∷ ps)

  abbrev pub meets_before : TokenFilter → Token V → Bool
  meets_before q t =
      (((((type_ok q.token_type t && given_ok q.sub_type (λ s x. x.sub_type == s) t)
              && given_ok q.search (is_found l) t)
            && given_ok q.name (λ s x. l.lower x.name == l.lower s) t)
          && given_ok q.identifier (λ s x. contains l x.identifier s) t)
        && identifiers_ok q.identifiers t)
      && meta_ok q.include_meta_esdt t

  abbrev pub meets : TokenFilter → Token V → Bool
  meets q t =
      (meets_before q t && pair_ok q.mex_pair_type t)
      && given_ok q.price_source (λ s x. x.price_source == some s) t

  filter_type-select :
      (o : Option TokenType) (ts : List (Token V)) → filter_type o ts ≡ select (type_ok o) ts
  filter_type-select none ts = select-true ts
  filter_type-select (some ty) ts = refl

  filter_identifiers-select :
      (o : Option (List String)) (ts : List (Token V))
      → filter_identifiers l o ts ≡ select (identifiers_ok o) ts
  filter_identifiers-select none ts = select-true ts
  filter_identifiers-select (some ids) ts = refl

  filter_meta-select :
      (o : Option Bool) (ts : List (Token V)) → filter_meta o ts ≡ select (meta_ok o) ts
  filter_meta-select none ts = refl
  filter_meta-select (some true) ts = select-true ts
  filter_meta-select (some false) ts = refl

  filter_pair_types-select :
      (ps : List String) (ts : List (Token V)) → filter_pair_types ps ts ≡ select (pair_ok ps) ts
  filter_pair_types-select [] ts = select-true ts
  filter_pair_types-select (p ∷ ps) ts = refl

  filter_before-select :
      (q : TokenFilter) (ts : List (Token V)) → filter_before l q ts ≡ select (meets_before q) ts
  unfolding filter_before
  filter_before-select q ts =
      let a = filter_type-select q.token_type ts in
      let b = select-given q.sub_type (λ s x. x.sub_type == s) _ ts _ a in
      let c = select-given q.search (is_found l) _ ts _ b in
      let d = select-given q.name (λ s x. l.lower x.name == l.lower s) _ ts _ c in
      let e = select-given q.identifier (λ s x. contains l x.identifier s) _ ts _ d in
      let f =
        filter_identifiers-select q.identifiers _
        ∙ ap (select (identifiers_ok q.identifiers)) e
        ∙ select-select _ _ ts in
      filter_meta-select q.include_meta_esdt _
      ∙ ap (select (meta_ok q.include_meta_esdt)) f
      ∙ select-select _ _ ts

  -- What the sort keeps: the number of tokens that pass a test, for each test.
  abbrev pub KeepsCounts : (List (Token V) → List (Token V)) → Type 0
  KeepsCounts f = (p : Token V → Bool) (ts : List (Token V)) → count p (f ts) ≡ count p ts

  sort_given-KeepsCounts :
      ((c : Token V → V) → KeepsCounts (l.sorted c))
      → ((c : Token V → V) → KeepsCounts (l.sorted_descending c))
      → (s : Option TokenSort) (o : Option SortOrder) → KeepsCounts (sort_given l s o)
  unfolding sort_tokens
  sort_given-KeepsCounts up down none o p ts = refl
  sort_given-KeepsCounts up down (some s) none p ts = down (criteria l s) p ts
  sort_given-KeepsCounts up down (some s) (some asc) p ts = up (criteria l s) p ts
  sort_given-KeepsCounts up down (some s) (some desc) p ts = down (criteria l s) p ts

  -- Where the two sorts keep what they sort, the filtered list has the tokens that meet every
  -- criterion of the query and no others, each as often as it was there: for each test, as many
  -- tokens of the list pass it as there are tokens that meet the criteria and pass it.
  pub get_filtered_tokens-count :
      ((c : Token V → V) → KeepsCounts (l.sorted c))
      → ((c : Token V → V) → KeepsCounts (l.sorted_descending c))
      → (q : TokenFilter) (ts : List (Token V)) (p : Token V → Bool)
      → count p (get_filtered_tokens l q ts) ≡ count (λ t. meets q t && p t) ts
  unfolding get_filtered_tokens
  get_filtered_tokens-count up down q ts p =
      let arranged = sort_given l q.sort q.order (filter_before l q ts) in
      let pair = pair_ok q.mex_pair_type in
      let source = given_ok q.price_source (λ s x. x.price_source == some s) in
      let after =
        select-given q.price_source (λ s x. x.price_source == some s) pair arranged _
          (filter_pair_types-select q.mex_pair_type arranged) in
      ap (count p) after
      ∙ ap length (select-select p (λ x. pair x && source x) arranged)
      ∙ sort_given-KeepsCounts up down q.sort q.order (λ x. (pair x && source x) && p x) _
      ∙ ap (count (λ x. (pair x && source x) && p x)) (filter_before-select q ts)
      ∙ ap length (select-select (λ x. (pair x && source x) && p x) (meets_before q) ts)
      ∙ ap (λ r. count r ts) (fun_ext (λ x. and_assoc (meets_before q x) (pair x) (source x) (p x)))

  -- The EGLD token is left out after the page is cut: a page is shorter than the part of the
  -- filtered list that it stands for by the number of times that EGLD is in that part.
  pub get_tokens-length :
      (page : QueryPagination) (q : TokenFilter) (ts : List (Token V))
      → length (get_tokens l page q ts)
          + count
              (λ t. not (is_no_egld t))
              (take page.size (drop page.start (get_filtered_tokens l q ts)))
        ≡ length (take page.size (drop page.start (get_filtered_tokens l q ts)))
  unfolding get_tokens
  get_tokens-length page q ts =
      let part = take page.size (drop page.start (get_filtered_tokens l q ts)) in
      let a = count-ticker part in let b = count-not is_no_egld part in omega arith
