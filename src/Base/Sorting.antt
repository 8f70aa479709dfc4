-- ===== src/Base/Sorting.antt =====
-- `Array.sort` with a comparator, as a stable sort, and what it gives when the comparator is an
-- order; the order of texts.
use Prim.Native.Char.{code}
use Prim.Native.Nat.{ℕ}
use Prim.Native.String.{String}
use mathlib.Core.Path.{◌≡◌, refl}
use mathlib.Core.Bool.{Bool, true, false}
use mathlib.Core.Logic.{inl, inr}
use mathlib.Core.List.{List, [], ◌∷◌, ◌++◌, Perm, reverse, reverse-append}
use mathlib.Core.List.Perm
use native.Mathlib.Omega.{arith}
use mx_api_service.Base.Tests.{Bool-cases, ltb, if◌then◌else◌}
use mx_api_service.Base.Lists.{All, All-append}

-- `s > t` of texts.
unfoldable pub text_gt : String → String → Bool
text_gt String.[] t = false
text_gt (String.◌∷◌ c s) String.[] = true
text_gt (String.◌∷◌ c s) (String.◌∷◌ d t) =
    if ltb (code d) (code c) then true else if ltb (code c) (code d) then false else text_gt s t

-- What a test for "greater" is in an order in which some values can be equal.
pub record IsOrder {ℓ} {A : Type ℓ} (gt : A → A → Bool) : Type ℓ where
  pub asym : (x y : A) → gt x y ≡ true → gt y x ≡ false
  pub trans : (x y z : A) → gt x y ≡ false → gt y z ≡ false → gt x z ≡ false

-- The same where the value in the middle has a property.
pub record IsOrderOn {ℓ κ} {A : Type ℓ} (P : A → Type κ) (gt : A → A → Bool) : Type (ℓ ⊔ κ) where
  pub asym : (x y : A) → gt x y ≡ true → gt y x ≡ false
  pub trans : (x y z : A) → P y → gt x y ≡ false → gt y z ≡ false → gt x z ≡ false

text_gt_asym : (s t : String) → text_gt s t ≡ true → text_gt t s ≡ false
unfolding text_gt
text_gt_asym String.[] t h = cc
text_gt_asym (String.◌∷◌ c s) String.[] h = refl
text_gt_asym (String.◌∷◌ c s) (String.◌∷◌ d t) h = ground (arith, text_gt_asym s t)

text_gt_trans : (s t u : String) → text_gt s t ≡ false → text_gt t u ≡ false → text_gt s u ≡ false
unfolding text_gt
text_gt_trans String.[] t u h k = refl
text_gt_trans (String.◌∷◌ c s) String.[] u h k = cc
text_gt_trans (String.◌∷◌ c s) (String.◌∷◌ d t) String.[] h k = cc
text_gt_trans (String.◌∷◌ c s) (String.◌∷◌ d t) (String.◌∷◌ e u) h k =
    ground (arith, text_gt_trans s t u)

pub text_gt-IsOrder : IsOrder text_gt
text_gt-IsOrder = record { asym = text_gt_asym; trans = text_gt_trans }

pub ltb-IsOrder : IsOrder (λ (x y : ℕ). ltb y x)
ltb-IsOrder = record { asym = λ x y h. ground arith; trans = λ x y z h k. ground arith }

module _ {ℓ} {A : Type ℓ} (gt : A → A → Bool) where
  unfoldable pub insert_by : A → List A → List A
  insert_by x [] = x ∷ []
  insert_by x (y ∷ ys) = if gt x y then y ∷ insert_by x ys else x ∷ y ∷ ys

  unfoldable pub sort_by : List A → List A
  unfolding insert_by
  sort_by [] = []
  sort_by (x ∷ xs) = insert_by x (sort_by xs)

  -- No element is greater than one after it.
  abbrev pub IsSorted : List A → Type ℓ
  IsSorted [] = Unit
  IsSorted (x ∷ xs) = All (λ y. gt x y ≡ false) xs × IsSorted xs

  insert_by-perm : (x : A) (xs : List A) → Perm (insert_by x xs) (x ∷ xs)
  unfolding insert_by
  insert_by-perm x [] = Perm.rfl
  insert_by-perm x (y ∷ ys) = elim (Bool-cases (gt x y)) [
    | inl e ↦ rw (e) (Perm.trans (Perm.cons y (insert_by-perm x ys)) (Perm.swap x y ys))
    | inr e ↦ rw (e) (Perm.rfl)
  ]

  -- Sorting only rearranges.
  pub sort_by-perm : (xs : List A) → Perm (sort_by xs) xs
  unfolding sort_by
  sort_by-perm [] = Perm.rfl
  sort_by-perm (x ∷ xs) = Perm.trans (insert_by-perm x (sort_by xs)) (Perm.cons x (sort_by-perm xs))

  All-insert_by {κ} :
      (P : A → Type κ) (x : A) (xs : List A) → P x → All P xs → All P (insert_by x xs)
  unfolding insert_by
  All-insert_by P x [] p h = (p, tt)
  All-insert_by P x (y ∷ ys) p (q, h) = elim (Bool-cases (gt x y)) [
    | inl e ↦ rw (e) (q, All-insert_by P x ys p h)
    | inr e ↦ rw (e) (p, (q, h))
  ]

  pub All-sort_by {κ} : (P : A → Type κ) (xs : List A) → All P xs → All P (sort_by xs)
  unfolding sort_by
  All-sort_by P [] h = tt
  All-sort_by P (x ∷ xs) (h, hs) = All-insert_by P x (sort_by xs) h (All-sort_by P xs hs)

  module _ {κ} (P : A → Type κ) (o : IsOrderOn P gt) where
    below-All :
        (x y : A) (ys : List A)
        → P y
        → gt x y ≡ false
        → All (λ z. gt y z ≡ false) ys
        → All (λ z. gt x z ≡ false) ys
    below-All x y [] p h k = tt
    below-All x y (z ∷ zs) p h (k, ks) = (o.trans x y z p h k, below-All x y zs p h ks)

    insert_by-IsSorted : (x : A) (xs : List A) → All P xs → IsSorted xs → IsSorted (insert_by x xs)
    unfolding insert_by
    insert_by-IsSorted x [] ps h = (tt, tt)
    insert_by-IsSorted x (y ∷ ys) (p, ps) (h, hs) = elim (Bool-cases (gt x y)) [
      | inl e ↦ rw (e) (All-insert_by _ x ys (o.asym x y e) h, insert_by-IsSorted x ys ps hs)
      | inr e ↦ rw (e) ((e, below-All x y ys p e h), (h, hs))
    ]

    -- With an order of the values, the result is sorted.
    pub sort_by-IsSorted : (xs : List A) → All P xs → IsSorted (sort_by xs)
    unfolding sort_by
    sort_by-IsSorted [] ps = tt
    sort_by-IsSorted (x ∷ xs) (p, ps) =
        insert_by-IsSorted x (sort_by xs) (All-sort_by P xs ps) (sort_by-IsSorted xs ps)

module _ {ℓ} {A : Type ℓ} where
  pub All-reverse {κ} : (P : A → Type κ) (xs : List A) → All P xs → All P (reverse xs)
  All-reverse P [] h = tt
  All-reverse P (x ∷ xs) (h, hs) =
      rw (reverse-append (x ∷ []) xs)
        (All-append P (reverse xs) (x ∷ []) (All-reverse P xs hs) (h, tt))

  IsSorted-last :
      (gt : A → A → Bool) (xs : List A) (x : A)
      → IsSorted gt xs
      → All (λ y. gt y x ≡ false) xs
      → IsSorted gt (xs ++ x ∷ [])
  IsSorted-last gt [] x h k = (tt, tt)
  IsSorted-last gt (y ∷ ys) x (h, hs) (k, ks) =
      (All-append _ ys (x ∷ []) h (k, tt), IsSorted-last gt ys x hs ks)

  -- A sorted list from its end is sorted the other way.
  pub IsSorted-reverse :
      (gt : A → A → Bool) (xs : List A) → IsSorted gt xs → IsSorted (λ x y. gt y x) (reverse xs)
  IsSorted-reverse gt [] h = tt
  IsSorted-reverse gt (x ∷ xs) (h, hs) = rw (reverse-append (x ∷ []) xs) (
      IsSorted-last (λ a b. gt b a) (reverse xs) x (IsSorted-reverse gt xs hs) (All-reverse _ xs h))
