-- ===== src/Bloom/Held.antt =====
-- What a counting Bloom filter of lib/bloom-filter.c holds.
use mathlib.Core.Path.{subst}
use seafile_server.Base.{
  ℕ, zero, suc, ◌+◌, ◌*◌, ◌/◌, ◌%◌, ◌≤◌, ◌<◌, ◌≡◌, ◌≢◌, ◌⊎◌, inl, inr, refl, sym, ap, ◌∙◌, Bool,
  true, false, ◌||◌, some, List, [], ◌∷◌, ◌==◌, ltb, if◌then◌else◌, arith, get_or, set, length,
  length-set, All, Bool-cases, replicate, if_rule, if_split,
}
use seafile_server.Bloom.{
  Bloom, new_bloom, bloom_create, up, down, change, counter_in, with_counter, counter_at, incr_bit,
  decr_bit, incr_all, decr_all, all_set,
}
use seafile_server.Bloom.Counters.{
  get_or-set-same, get_or-set-other, counter_at-same, counter_at-other, up_small, down_small,
}

abbrev pub one_if : ℕ → ℕ → ℕ
one_if i j = if i == j then 1 else 0

-- How often an index stands in a list.
abbrev pub times : ℕ → List ℕ → ℕ
times j [] = 0
times j (i ∷ is) = one_if i j + times j is

pub length-replicate {ℓ} : {A : Type ℓ} (n : ℕ) (x : A) → length (replicate n x) ≡ n
length-replicate zero x = refl
length-replicate (suc n) x = ap suc (length-replicate n x)

abbrev Enough : ℕ → ℕ → Type 0
Enough n counter = (n ≤ counter) ⊎ (counter ≡ 15)

-- The filter has a size and a number of hashes, and holds each index at least so many times: its bit
-- is set if that is not 0, and its counter is that high, or stuck at 15.
pub record Holds (size k : ℕ) (bf : Bloom) (c : ℕ → ℕ) : Type 0 where
  pub counts : bf.counting ≡ true
  pub its_size : bf.asize ≡ size
  pub its_k : bf.k ≡ k
  room : size ≤ length bf.a
  counter_room : size ≤ 2 * length bf.counters
  bits : (i : ℕ) → i < size → 0 < c i → get_or bf.a i false ≡ true
  enough : (i : ℕ) → i < size → Enough (c i) (counter_at i bf.counters)

counter_in_small : (o v : ℕ) → counter_in o v < 16
unfolding counter_in
counter_in_small o v = ground arith

up-Enough : (n m d : ℕ) → m < 16 → d ≡ n + 1 → Enough n m → Enough d (up m)
up-Enough n m d small e h = ground arith

down-Enough : (n m d : ℕ) → m < 16 → d ≡ n + 1 → Enough d m → Enough n (down m)
down-Enough n m d small e h = ground arith

-- The counter of an index after a step of another's or of its own.
with_counter-Enough :
    (step : ℕ → ℕ) (counters : List ℕ) (i j n d : ℕ)
    → ((m : ℕ) → m < 16 → step m < 16)
    → i / 2 < length counters
    → ((m : ℕ) → i ≡ j → m < 16 → Enough n m → Enough d (step m))
    → (i ≢ j → n ≡ d)
    → Enough n (counter_at j counters)
    → Enough d (counter_at j (with_counter step i counters))
with_counter-Enough step counters i j n d small inside own other h = elim (Bool-cases (i == j)) [
  | inl e ↦
      let same : i ≡ j = ground arith in
      let new : counter_at i (with_counter step i counters) ≡ step (counter_at i counters) =
        counter_at-same step small counters i inside in
      let there : counter_at j (with_counter step i counters) ≡ step (counter_at j counters) =
        subst
          (λ (m : ℕ). counter_at m (with_counter step i counters) ≡ step (counter_at m counters))
          same new in
      subst (Enough d) (sym there) (own (counter_at j counters) same (counter_in_small (j % 2) _) h)
  | inr e ↦
      let apart : i ≢ j = λ q. ground arith in
      subst (Enough d) (sym (counter_at-other step small counters i j inside apart))
        (subst (λ (m : ℕ). Enough m (counter_at j counters)) (other apart) h)
]

emptied_none : (n m : ℕ) → (m == 0) ≡ true → Enough n m → ¬ (0 < n)
emptied_none n m e h pos = ground arith

module _ (size k : ℕ) where
  pub Holds-same :
      (bf : Bloom) (c d : ℕ → ℕ) → Holds size k bf c → ((j : ℕ) → d j ≡ c j) → Holds size k bf d
  Holds-same bf c d h same = record {
    counts = h.counts;
    its_size = h.its_size;
    its_k = h.its_k;
    room = h.room;
    counter_room = h.counter_room;
    bits = λ i lt pos. h.bits i lt (omega (arith, same i, pos));
    enough = λ i lt.
        subst (λ (n : ℕ). Enough n (counter_at i bf.counters)) (sym (same i)) (h.enough i lt);
  }

  incr_bit-Holds :
      (bf : Bloom) (c d : ℕ → ℕ) (i : ℕ)
      → i < size
      → Holds size k bf c
      → ((j : ℕ) → d j ≡ c j + one_if i j)
      → Holds size k (incr_bit bf i) d
  unfolding incr_bit
  incr_bit-Holds bf c d i inside h more = record {
    counts = h.counts;
    its_size = h.its_size;
    its_k = h.its_k;
    room = omega (arith, length-set bf.a i true, h.room);
    counter_room = rw h.counts (
        omega (
          arith,
          length-set bf.counters (i / 2) (change up (i % 2) (get_or bf.counters (i / 2) 0)),
          h.counter_room,
        ));
    bits = λ j lt pos. elim (Bool-cases (i == j)) [
      | inl e ↦
          let same : i ≡ j = ground arith in
          subst (λ (n : ℕ). get_or (set bf.a i true) n false ≡ true) same
            (get_or-set-same bf.a i true false (omega (arith, inside, h.room)))
      | inr e ↦
          get_or-set-other bf.a i j true false (λ q. ground arith)
          ∙ h.bits j lt (ground (arith, more j))
    ];
    enough = λ j lt. rw h.counts (
        with_counter-Enough up bf.counters i j (c j) (d j) up_small
          (omega (arith, inside, h.counter_room))
          (λ m same small. up-Enough (c j) m (d j) small (ground (arith, more j, same)))
          (λ apart. ground (arith, more j, apart)) (h.enough j lt));
  }

  decr_bit-Holds :
      (bf : Bloom) (c d : ℕ → ℕ) (i : ℕ)
      → i < size
      → Holds size k bf d
      → ((j : ℕ) → d j ≡ c j + one_if i j)
      → Holds size k (decr_bit bf i) c
  unfolding decr_bit
  decr_bit-Holds bf c d i inside h more = rw h.counts (record {
    counts = refl;
    its_size = h.its_size;
    its_k = h.its_k;
    room =
        if_rule (λ (x : List Bool). size ≤ length x) (down (counter_at i bf.counters) == 0)
          (set bf.a i false) bf.a (omega (arith, length-set bf.a i false, h.room)) h.room;
    counter_room = omega (
      arith,
      length-set bf.counters (i / 2) (change down (i % 2) (get_or bf.counters (i / 2) 0)),
      h.counter_room,
    );
    bits = λ j lt pos.
        if_split (λ (x : List Bool). get_or x j false ≡ true) (down (counter_at i bf.counters) == 0)
          (set bf.a i false) bf.a (λ emptied. still_set j lt pos emptied)
          (λ kept. h.bits j lt (ground (arith, more j)));
    enough = λ j lt.
        with_counter-Enough down bf.counters i j (d j) (c j) down_small
          (omega (arith, inside, h.counter_room))
          (λ m same small. down-Enough (c j) m (d j) small (ground (arith, more j, same)))
          (λ apart. ground (arith, more j, apart)) (h.enough j lt);
  })
    where
      still_set :
          (j : ℕ)
          → j < size
          → 0 < c j
          → (down (counter_at i bf.counters) == 0) ≡ true
          → get_or (set bf.a i false) j false ≡ true
      still_set j lt pos emptied = elim (Bool-cases (i == j)) [
        | inl e ↦
            let same : i ≡ j = ground arith in
            let left : Enough (c i) (down (counter_at i bf.counters)) =
              down-Enough (c i) (counter_at i bf.counters) (d i) (counter_in_small (i % 2) _)
                (ground (arith, more i)) (h.enough i inside) in
            let held : 0 < c i = subst (λ (n : ℕ). 0 < c n) (sym same) pos in
            absurd (emptied_none (c i) (down (counter_at i bf.counters)) emptied left held)
        | inr e ↦
            get_or-set-other bf.a i j false false (λ q. ground arith)
            ∙ h.bits j lt (ground (arith, more j))
      ]

  pub incr_all-Holds :
      (is : List ℕ) (bf : Bloom) (c d : ℕ → ℕ)
      → All (λ i. i < size) is
      → Holds size k bf c
      → ((j : ℕ) → d j ≡ c j + times j is)
      → Holds size k (incr_all is bf) d
  unfolding incr_all
  incr_all-Holds [] bf c d inside h more = Holds-same bf c d h (λ j. omega (arith, more j))
  incr_all-Holds (i ∷ is) bf c d (lt, inside) h more =
      incr_all-Holds is (incr_bit bf i) (λ j. c j + one_if i j) d inside
        (incr_bit-Holds bf c (λ j. c j + one_if i j) i lt h (λ j. refl))
        (λ j. omega (arith, more j))

  pub decr_all-Holds :
      (is : List ℕ) (bf : Bloom) (c d : ℕ → ℕ)
      → All (λ i. i < size) is
      → Holds size k bf d
      → ((j : ℕ) → d j ≡ c j + times j is)
      → Holds size k (decr_all is bf) c
  unfolding decr_all
  decr_all-Holds [] bf c d inside h more = Holds-same bf d c h (λ j. omega (arith, more j))
  decr_all-Holds (i ∷ is) bf c d (lt, inside) h more =
      decr_all-Holds is (decr_bit bf i) c (λ j. c j + times j is) inside
        (decr_bit-Holds bf (λ j. c j + times j is) d i lt h (λ j. omega (arith, more j)))
        (λ j. refl)

  pub all_set-Holds :
      (is : List ℕ) (bf : Bloom) (c : ℕ → ℕ)
      → All (λ i. i < size) is
      → Holds size k bf c
      → All (λ i. 0 < c i) is
      → all_set is bf.a ≡ true
  unfolding all_set
  all_set-Holds [] bf c inside h held = refl
  all_set-Holds (i ∷ is) bf c (lt, inside) h (pos, held) =
      rw (h.bits i lt pos) (all_set-Holds is bf c inside h held)

  new_bloom-Holds : Holds size k (new_bloom size k true) (λ j. 0)
  unfolding new_bloom
  new_bloom-Holds = record {
    counts = refl;
    its_size = refl;
    its_k = refl;
    room = omega (arith, length-replicate ((size + 7) / 8 * 8) false);
    counter_room = omega (arith, length-replicate {A = ℕ} ((size * 4 + 7) / 8) 0);
    bits = λ i lt pos. absurd (omega (arith, pos));
    enough = λ i lt. inl (omega arith);
  }

  pub bloom_create-Holds :
      {bf : Bloom} → bloom_create size k true ≡ some bf → Holds size k bf (λ j. 0)
  unfolding bloom_create
  bloom_create-Holds {bf} e = elim (Bool-cases (k == 0 || ltb 4 k)) [
    | inl bad ↦ cc
    | inr good ↦
        let same : new_bloom size k true ≡ bf = cc in
        subst (λ (b : Bloom). Holds size k b (λ j. 0)) same new_bloom-Holds
  ]

pub times-All : (is : List ℕ) (c : ℕ → ℕ) → ((j : ℕ) → times j is ≤ c j) → All (λ i. 0 < c i) is
times-All [] c h = tt
times-All (i ∷ is) c h = (ground (arith, h i), times-All is c (λ j. omega (arith, h j)))
