-- ===== src/TpsWarmer/Maximum.antt =====
-- The largest rate of an interval (TpsWarmer).
use mx_api_service.Base.{
  ℕ, ◌≡◌, ◌≤◌, ◌⊎◌, inl, inr, refl, ap, ◌∙◌, Option, some, none, List, [], ◌∷◌, All, arith, ltb,
  Bool-cases,
}
use mx_api_service.TpsWarmer.{Tps, larger, reduce_tps, get_max_tps, refresh_max}

-- The point is one of the list.
abbrev pub IsIn : Tps → List Tps → Type 0
IsIn t [] = ⊥
IsIn t (x ∷ xs) = (t ≡ x) ⊎ IsIn t xs

abbrev pub Bounds : Tps → List Tps → Type 0
Bounds m ts = All (λ t. t.tps ≤ m.tps) ts

larger_bounds : (a b : Tps) → (a.tps ≤ (larger a b).tps) × (b.tps ≤ (larger a b).tps)
larger_bounds a b = (ground arith, ground arith)

larger-IsIn : (a b : Tps) → (larger a b ≡ a) ⊎ (larger a b ≡ b)
larger-IsIn a b = elim (Bool-cases (ltb b.tps a.tps)) [
  | inl e ↦ inl (rw (e) refl)
  | inr e ↦ inr (rw (e) refl)
]

reduce_tps-Bounds :
    (a : Tps) (ts : List Tps) → (a.tps ≤ (reduce_tps a ts).tps) × Bounds (reduce_tps a ts) ts
reduce_tps-Bounds a [] = (omega arith, tt)
reduce_tps-Bounds a (t ∷ ts) =
    let (x, y) = larger_bounds a t in
    let (p, q) = reduce_tps-Bounds (larger a t) ts in
    (omega (arith, x, p), (omega (arith, y, p), q))

reduce_tps-IsIn : (a : Tps) (ts : List Tps) → IsIn (reduce_tps a ts) (a ∷ ts)
reduce_tps-IsIn a [] = inl refl
reduce_tps-IsIn a (t ∷ ts) = elim (larger-IsIn a t) [
  | inl e ↦ elim (reduce_tps-IsIn (larger a t) ts) [ inl f ↦ inl (f ∙ e) | inr f ↦ inr (inr f) ]
  | inr e ↦ elim (reduce_tps-IsIn (larger a t) ts) [
    | inl f ↦ inr (inl (f ∙ e))
    | inr f ↦ inr (inr f)
  ]
]

All-le : (m n : ℕ) (ts : List Tps) → m ≤ n → All (λ t. t.tps ≤ m) ts → All (λ t. t.tps ≤ n) ts
All-le m n [] h k = tt
All-le m n (t ∷ ts) h (k, ks) = (omega (arith, h, k), All-le m n ts h ks)

some_inj : {A : Type 0} {a b : A} → some a ≡ some b → a ≡ b
some_inj h = cc

-- A history with a point leaves a maximum that neither a point of the history nor what was kept
-- before exceeds, and that is one of these.
pub refresh_max-Bounds :
    (t : Tps) (ts : List Tps) (retrieved : Option Tps)
    → (kept : Tps) × (refresh_max (t ∷ ts) retrieved ≡ some kept)
      × Bounds kept (t ∷ ts)
      × ((r : Tps) → retrieved ≡ some r → r.tps ≤ kept.tps)
      × (IsIn kept (t ∷ ts) ⊎ (retrieved ≡ some kept))
unfolding refresh_max get_max_tps
refresh_max-Bounds t ts none =
    let (p, q) = reduce_tps-Bounds t ts in
    (reduce_tps t ts, refl, (p, q), λ r h. cc, inl (reduce_tps-IsIn t ts))
refresh_max-Bounds t ts (some r) =
    let m = reduce_tps t ts in
    let (p, q) = reduce_tps-Bounds t ts in
    elim (Bool-cases (ltb r.tps m.tps)) [
      | inl e ↦ (
        m,
        rw (e) refl,
        (p, q),
        λ r' h.
            let same : r ≡ r' = some_inj h in
            let k : r.tps ≡ r'.tps = ap (λ x. x.tps) same in ground (arith, k, e),
        inl (reduce_tps-IsIn t ts),
      )
      | inr e ↦
          let h : m.tps ≤ r.tps = ground arith in
          (
            r,
            rw (e) refl,
            (omega (arith, p, h), All-le m.tps r.tps ts h q),
            λ r' k. let same : r.tps ≡ r'.tps = ap (λ x. x.tps) (some_inj k) in omega (arith, same),
            inr refl,
          )
    ]
