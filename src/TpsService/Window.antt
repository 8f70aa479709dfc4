-- ===== src/TpsService/Window.antt =====
-- Which counts a history shows (TpsService).
use mx_api_service.Base.{
  ℕ, zero, suc, ◌+◌, ◌-◌, ◌*◌, ◌/◌, ◌≤◌, ◌<◌, ◌≡◌, refl, sym, subst, ap, ◌∙◌, arith, List, [], ◌∷◌,
  map, true, false, nat_beq, leb,
}
use mx_api_service.TpsWarmer.{TpsEntries, Tps, get_timestamp_by_frequency, save_tps}
use mx_api_service.TpsService.{
  TpsInterval, last_10m, last_1h, last_1d, get_frequency_by_interval, Lengths, get_interval_by_enum,
  timestamps_from, point, get_tps_history_raw,
}

-- A time and the `k` that follow it, a frequency apart.
abbrev pub multiples : ℕ → ℕ → ℕ → List ℕ
multiples zero frequency t = t ∷ []
multiples (suc k) frequency t = t ∷ multiples k frequency (t + frequency)

timestamps_from-past :
    (fuel t end_timestamp f : ℕ) → end_timestamp < t → timestamps_from fuel t end_timestamp f ≡ []
unfolding timestamps_from
timestamps_from-past zero t e f h = refl
timestamps_from-past (suc fuel) t e f h = let b : leb t e ≡ false = ground arith in rw (b) refl

timestamps_from-multiples :
    (k fuel t f : ℕ) → 0 < f → k < fuel → timestamps_from fuel t (t + k * f) f ≡ multiples k f t
unfolding timestamps_from
timestamps_from-multiples zero zero t f p h = absurd (omega arith)
timestamps_from-multiples (suc k) zero t f p h = absurd (omega arith)
timestamps_from-multiples zero (suc fuel) t f p h =
    let b : leb t (t + 0 * f) ≡ true = ground arith in
    rw (b, timestamps_from-past fuel (t + f) (t + 0 * f) f (omega arith)) refl
timestamps_from-multiples (suc k) (suc fuel) t f p h =
    let e : t + suc k * f ≡ t + f + k * f = omega arith in
    let b : leb t (t + suc k * f) ≡ true = ground arith in
    rw (b, e, timestamps_from-multiples k fuel (t + f) f p (omega arith)) refl

-- The transactions that a history shows.
abbrev pub total : List Tps → ℕ
total [] = 0
total (t ∷ ts) = t.tps + total ts

module _ (s : TpsEntries) (timestamp f n : ℕ) where
  abbrev after : TpsEntries
  after = save_tps timestamp f n s

  abbrev slot : ℕ
  slot = get_timestamp_by_frequency timestamp f

  point_hit : (point after f slot).tps ≡ (point s f slot).tps + n
  unfolding save_tps
  point_hit = ground arith

  point_hit_at : (t : ℕ) → slot ≡ t → (point after f t).tps ≡ (point s f t).tps + n
  point_hit_at t e = subst (λ x. (point after f x).tps ≡ (point s f x).tps + n) e point_hit

  point_miss : (t : ℕ) → nat_beq t slot ≡ false → (point after f t).tps ≡ (point s f t).tps
  unfolding save_tps
  point_miss t h = rw (h) refl

  total_miss :
      (k t : ℕ)
      → slot < t
      → total (map (point after f) (multiples k f t)) ≡ total (map (point s f) (multiples k f t))
  total_miss zero t h = let e = point_miss t (ground arith) in omega arith
  total_miss (suc k) t h =
      let e = point_miss t (ground arith) in
      let ih = total_miss k (t + f) (omega arith) in omega arith

  at_zero : (j t : ℕ) → j ≤ 0 → slot ≡ t + j * f → slot ≡ t
  at_zero zero t h e = omega arith
  at_zero (suc j) t h e = absurd (omega arith)

  total_hit :
      (k j t : ℕ)
      → 0 < f
      → j ≤ k
      → slot ≡ t + j * f
      → total (map (point after f) (multiples k f t))
        ≡ total (map (point s f) (multiples k f t)) + n
  total_hit zero j t p h e = let m = point_hit_at t (at_zero j t h e) in omega arith
  total_hit (suc k) zero t p h e =
      let m = point_hit_at t (omega arith) in
      let rest = total_miss k (t + f) (omega arith) in omega arith
  total_hit (suc k) (suc j) t p h e =
      let m = point_miss t (ground arith) in
      let ih = total_hit k j (t + f) p (omega arith) (omega arith) in omega arith

factor_le : (k f : ℕ) → 0 < f → k < suc (k * f)
factor_le zero f h = omega arith
factor_le (suc k) f h = let ih = factor_le k f h in omega arith

slot_apart :
    (q m k d j f : ℕ) → q ≡ d + j → m ≡ k + d → (q * f ≡ m * f - k * f + j * f) × (k * f ≤ m * f)
slot_apart q m k d j f a b = rw (a, b) (omega arith, omega arith)

frequency_positive : (interval : TpsInterval) → 0 < get_frequency_by_interval interval
frequency_positive last_10m = omega arith
frequency_positive last_1h = omega arith
frequency_positive last_1d = omega arith

module _ (l : Lengths) (now k : ℕ) (interval : TpsInterval) where
  abbrev frequency : ℕ
  frequency = get_frequency_by_interval interval

  history-multiples :
      (s : TpsEntries)
      → get_interval_by_enum l interval ≡ k * frequency
      → k ≤ now / frequency
      → get_tps_history_raw l now s interval
        ≡ map
            (point s frequency)
            (multiples k frequency (now / frequency * frequency - k * frequency))
  unfolding get_tps_history_raw get_timestamp_by_frequency
  history-multiples s e h =
      let f = frequency in
      let m = now / f in
      let (a, b) = slot_apart (m - k) m k (m - k) 0 f (omega arith) (omega arith) in
      let c : m * f - k * f + k * f ≡ m * f = omega arith in
      ap (λ x. map (point s f) (timestamps_from (suc x) (m * f - x) (m * f) f)) e
      ∙ ap (λ x. map (point s f) (timestamps_from (suc (k * f)) (m * f - k * f) x f)) (sym c)
      ∙ ap (map (point s f)) (
          timestamps_from-multiples k (suc (k * f)) (m * f - k * f) f (frequency_positive interval)
            (factor_le k f (frequency_positive interval)))

  -- Where the length of the interval is `k` times its frequency, what a block adds at that frequency
  -- is shown once by the history that is read later, if the slot of the block is the one of the
  -- reading or one of the `k` before it: the total of the history grows by the transactions of the
  -- block, whatever was counted before.
  pub get_tps_history_raw-save_tps :
      (s : TpsEntries) (timestamp n : ℕ)
      → get_interval_by_enum l interval ≡ k * frequency
      → k ≤ now / frequency
      → timestamp / frequency ≤ now / frequency
      → now / frequency ≤ timestamp / frequency + k
      → total (get_tps_history_raw l now (save_tps timestamp frequency n s) interval)
        ≡ total (get_tps_history_raw l now s interval) + n
  unfolding get_timestamp_by_frequency
  get_tps_history_raw-save_tps s timestamp n e h low high =
      let f = frequency in
      let q = timestamp / f in
      let m = now / f in
      let (a, b) = slot_apart q m k (m - k) (q + k - m) f (omega arith) (omega arith) in
      ap total (history-multiples (save_tps timestamp f n s) e h)
      ∙ total_hit s timestamp f n k (q + k - m) (m * f - k * f) (frequency_positive interval)
          (omega arith) a
      ∙ ap (λ x. total x + n) (sym (history-multiples s e h))
