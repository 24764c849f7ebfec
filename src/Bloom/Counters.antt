-- ===== src/Bloom/Counters.antt =====
-- The counters of a Bloom filter, two to a byte, and its bits.
use seafile_server.Base.{
  ℕ, zero, suc, ◌+◌, ◌*◌, ◌/◌, ◌%◌, ◌<◌, ◌≡◌, ◌≢◌, refl, ap, ◌∙◌, true, false, List, [], ◌∷◌, ◌==◌,
  arith, get_or, set, length, Bool-cases, inl, inr,
}
use seafile_server.Bloom.{low, high, up, down, change, counter_in, with_counter, counter_at}

pub get_or-set-same {ℓ} :
    {A : Type ℓ} (xs : List A) (i : ℕ) (v d : A) → i < length xs → get_or (set xs i v) i d ≡ v
get_or-set-same [] i v d h = absurd (omega (arith, h))
get_or-set-same (x ∷ xs) zero v d h = refl
get_or-set-same (x ∷ xs) (suc i) v d h = get_or-set-same xs i v d (omega (arith, h))

pub get_or-set-other {ℓ} :
    {A : Type ℓ} (xs : List A) (i j : ℕ) (v d : A) → i ≢ j → get_or (set xs i v) j d ≡ get_or xs j d
get_or-set-other [] i j v d h = refl
get_or-set-other (x ∷ xs) zero zero v d h = absurd (h refl)
get_or-set-other (x ∷ xs) zero (suc j) v d h = refl
get_or-set-other (x ∷ xs) (suc i) zero v d h = refl
get_or-set-other (x ∷ xs) (suc i) (suc j) v d h = get_or-set-other xs i j v d (λ e. h (ap suc e))

pack_low : (h l : ℕ) → l < 16 → (h * 16 + l) % 16 ≡ l
pack_low h l small = omega arith

pack_high : (h l : ℕ) → l < 16 → h < 16 → (h * 16 + l) / 16 % 16 ≡ h
pack_high h l small bound = omega arith

low_small : (v : ℕ) → low v < 16
low_small v = omega arith

high_small : (v : ℕ) → high v < 16
high_small v = omega arith

change-same :
    (step : ℕ → ℕ) (o v : ℕ)
    → ((n : ℕ) → n < 16 → step n < 16)
    → counter_in o (change step o v) ≡ step (counter_in o v)
unfolding change counter_in
change-same step o v small = elim (Bool-cases (o == 0)) [
  | inl e ↦ rw e (pack_low (high v) (step (low v)) (small (low v) (low_small v)))
  | inr e ↦ rw e (pack_high (step (high v)) (low v) (low_small v) (small (high v) (high_small v)))
]

change-other :
    (step : ℕ → ℕ) (o p v : ℕ)
    → ((n : ℕ) → n < 16 → step n < 16)
    → o < 2
    → p < 2
    → o ≢ p
    → counter_in p (change step o v) ≡ counter_in p v
unfolding change counter_in
change-other step o p v small ho hp ne = elim (Bool-cases (o == 0)) [
  | inl e ↦
      let other : (p == 0) ≡ false = ground arith in
      rw (e, other) (pack_high (high v) (step (low v)) (small (low v) (low_small v)) (high_small v))
  | inr e ↦
      let other : (p == 0) ≡ true = ground arith in
      rw (e, other) (pack_low (step (high v)) (low v) (low_small v))
]

pub up_small : (n : ℕ) → n < 16 → up n < 16
up_small n h = ground arith

pub down_small : (n : ℕ) → n < 16 → down n < 16
down_small n h = ground arith

module _ (step : ℕ → ℕ) (small : (n : ℕ) → n < 16 → step n < 16) (counters : List ℕ) where
  pub counter_at-same :
      (i : ℕ)
      → i / 2 < length counters
      → counter_at i (with_counter step i counters) ≡ step (counter_at i counters)
  counter_at-same i inside =
      ap (counter_in (i % 2)) (get_or-set-same counters (i / 2) _ 0 inside)
      ∙ change-same step (i % 2) (get_or counters (i / 2) 0) small

  pub counter_at-other :
      (i j : ℕ)
      → i / 2 < length counters
      → i ≢ j
      → counter_at j (with_counter step i counters) ≡ counter_at j counters
  counter_at-other i j inside ne = elim (Bool-cases (i / 2 == j / 2)) [
    | inl e ↦
        let byte : i / 2 ≡ j / 2 = ground arith in
        let nibble : i % 2 ≢ j % 2 = λ q. ne (omega (arith, byte, q)) in
        ap
          (λ (n : ℕ).
            counter_in (j % 2)
              (get_or (set counters n (change step (i % 2) (get_or counters n 0))) (j / 2) 0))
          byte
        ∙ ap (counter_in (j % 2))
            (get_or-set-same counters (j / 2) _ 0 (omega (arith, byte, inside)))
        ∙ change-other step (i % 2) (j % 2) (get_or counters (j / 2) 0) small (omega arith)
            (omega arith) nibble
    | inr e ↦
        let byte : i / 2 ≢ j / 2 = λ q. ground arith in
        ap (counter_in (j % 2)) (get_or-set-other counters (i / 2) (j / 2) _ 0 byte)
  ]
