-- ===== src/Base/Pages.antt =====
-- Parts of lists: pages that follow one another, and predicates on what is selected.
use Prim.Native.Nat.{ℕ, zero, suc, ◌+◌}
use mathlib.Core.Path.{◌≡◌, refl, ap, subst}
use mathlib.Core.Logic.{inl, inr}
use mathlib.Core.Logic.Or
use mathlib.Core.Bool.{Bool, true}
use mathlib.Core.List.{List, [], ◌∷◌, ◌++◌, Mem, Mem-prop, mem-cons, mem-cons_of_mem, mem-cons_self}
use native.Mathlib.Omega.{arith}
use mx_api_service.Base.Tests.{Bool-cases}
use mx_api_service.Base.Lists.{All, select, take, drop}

module _ {ℓ} {A : Type ℓ} where
  pub take-plus : (a b : ℕ) (xs : List A) → take a xs ++ take b (drop a xs) ≡ take (a + b) xs
  take-plus zero b xs = let e : 0 + b ≡ b = omega arith in rw (e) refl
  take-plus (suc a) zero [] = let e : suc a + 0 ≡ suc a = omega arith in rw (e) refl
  take-plus (suc a) (suc b) [] =
      let e : suc a + suc b ≡ suc (a + suc b) = omega arith in rw (e) refl
  take-plus (suc a) b (x ∷ xs) =
      let e : suc a + b ≡ suc (a + b) = omega arith in rw (e) (ap (λ ys. x ∷ ys) (take-plus a b xs))

  pub drop-plus : (a b : ℕ) (xs : List A) → drop (a + b) xs ≡ drop b (drop a xs)
  drop-plus zero b xs = let e : 0 + b ≡ b = omega arith in rw (e) refl
  drop-plus (suc a) zero [] = let e : suc a + 0 ≡ suc a = omega arith in rw (e) refl
  drop-plus (suc a) (suc b) [] =
      let e : suc a + suc b ≡ suc (a + suc b) = omega arith in rw (e) refl
  drop-plus (suc a) b (x ∷ xs) =
      let e : suc a + b ≡ suc (a + b) = omega arith in rw (e) (drop-plus a b xs)

  pub All-select : (p : A → Bool) (xs : List A) → All (λ x. p x ≡ true) (select p xs)
  All-select p [] = tt
  All-select p (x ∷ xs) = elim (Bool-cases (p x)) [
    | inl e ↦ rw (e) (e, All-select p xs)
    | inr e ↦ rw (e) (All-select p xs)
  ]

  pub All-drop {κ} : (P : A → Type κ) (n : ℕ) (xs : List A) → All P xs → All P (drop n xs)
  All-drop P zero xs h = h
  All-drop P (suc n) [] h = h
  All-drop P (suc n) (x ∷ xs) (h, hs) = All-drop P n xs hs

  pub All-take {κ} : (P : A → Type κ) (n : ℕ) (xs : List A) → All P xs → All P (take n xs)
  All-take P zero xs h = tt
  All-take P (suc n) [] h = tt
  All-take P (suc n) (x ∷ xs) (h, hs) = (h, All-take P n xs hs)

  -- What passes the test and is in the list is selected.
  pub mem-select :
      (p : A → Bool) (n : A) (xs : List A) → Mem n xs → p n ≡ true → Mem n (select p xs)
  mem-select p n [] m h = m
  mem-select p n (x ∷ xs) m h =
      Or.elim Mem-prop (mem-cons.0 m)
        (λ e.
          rw (let f : p x ≡ true = subst (λ y. p y ≡ true) e h in f)
            (subst (λ y. Mem n (y ∷ select p xs)) e mem-cons_self))
        (λ later. elim (Bool-cases (p x)) [
          | inl f ↦ rw (f) (mem-cons_of_mem x (mem-select p n xs later h))
          | inr f ↦ rw (f) (mem-select p n xs later h)
        ])

  pub All-map {κ κ'} :
      {P : A → Type κ} {Q : A → Type κ'} (f : (x : A) → P x → Q x) (xs : List A)
      → All P xs
      → All Q xs
  All-map f [] h = tt
  All-map f (x ∷ xs) (h, hs) = (f x h, All-map f xs hs)
