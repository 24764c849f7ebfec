-- ===== src/Bloom.antt =====
-- The Bloom filter of lib/bloom-filter.c.
pub mod Counters
pub mod Held
pub mod Finds
pub mod Adds
use seafile_server.Base.{
  ℕ, zero, suc, ◌+◌, ◌-◌, ◌*◌, ◌/◌, ◌%◌, ◌^◌, Bool, true, false, not, ◌&&◌, ◌||◌, Option, none,
  some, List, [], ◌∷◌, CString, ltb, ◌==◌, if◌then◌else◌, get_or, set, replicate, map, take,
}

-- `Bloom`. The array `a` is read and written bit by bit, through SETBIT, CLEARBIT and GETBIT, and
-- is the list of its bits; `counters` is a list of bytes.
pub record Bloom : Type 0 where
  pub asize : ℕ
  pub a : List Bool
  pub csize : ℕ
  pub counters : List ℕ
  pub k : ℕ
  pub counting : Bool

-- The fields that `bloom_create` sets, and the arrays of zeros that it allocates.
unfoldable pub new_bloom : ℕ → ℕ → Bool → Bloom
new_bloom size k counting = record {
  asize = size;
  a = replicate ((size + 7) / 8 * 8) false;
  csize = if counting then size * 4 else 0;
  counters = if counting then replicate ((size * 4 + 7) / 8) 0 else [];
  k = k;
  counting = counting;
}

-- `bloom_create`, where memory is given. `k` is not negative.
unfoldable pub bloom_create : ℕ → ℕ → Bool → Option Bloom
unfolding new_bloom
bloom_create size k counting = if k == 0 || ltb 4 k then none else some (new_bloom size k counting)

abbrev pub low : ℕ → ℕ
low value = value % 16

abbrev pub high : ℕ → ℕ
high value = value / 16 % 16

abbrev pub up : ℕ → ℕ
up count = if ltb count 15 then suc count else count

-- Once it has reached the maximum, a counter never goes back.
abbrev pub down : ℕ → ℕ
down count = if ltb 0 count && ltb count 15 then count - 1 else count

-- The byte of two counters, and one of them changed.
unfoldable pub change : (ℕ → ℕ) → ℕ → ℕ → ℕ
change step offset value =
    if offset == 0 then high value * 16 + step (low value) else step (high value) * 16 + low value

unfoldable pub counter_in : ℕ → ℕ → ℕ
counter_in offset value = if offset == 0 then low value else high value

abbrev pub with_counter : (ℕ → ℕ) → ℕ → List ℕ → List ℕ
with_counter step bit_idx counters =
    set counters (bit_idx / 2) (change step (bit_idx % 2) (get_or counters (bit_idx / 2) 0))

abbrev pub counter_at : ℕ → List ℕ → ℕ
counter_at bit_idx counters = counter_in (bit_idx % 2) (get_or counters (bit_idx / 2) 0)

unfoldable pub incr_bit : Bloom → ℕ → Bloom
unfolding change
incr_bit bf bit_idx = record bf {
  a = set bf.a bit_idx true;
  counters = if bf.counting then with_counter up bit_idx bf.counters else bf.counters;
}

unfoldable pub decr_bit : Bloom → ℕ → Bloom
unfolding change counter_in
decr_bit bf bit_idx =
    if bf.counting
    then record bf {
      a = if down (counter_at bit_idx bf.counters) == 0 then set bf.a bit_idx false else bf.a;
      counters = with_counter down bit_idx bf.counters;
    }
    else record bf { a = set bf.a bit_idx false }

unfoldable pub incr_all : List ℕ → Bloom → Bloom
unfolding incr_bit
incr_all [] bf = bf
incr_all (i ∷ is) bf = incr_all is (incr_bit bf i)

unfoldable pub decr_all : List ℕ → Bloom → Bloom
unfolding decr_bit
decr_all [] bf = bf
decr_all (i ∷ is) bf = decr_all is (decr_bit bf i)

unfoldable pub all_set : List ℕ → List Bool → Bool
all_set [] a = true
all_set (i ∷ is) a = get_or a i false && all_set is a

-- The argument `bit_idx` is an `unsigned int`.
abbrev pub to_uint : List ℕ → List ℕ
to_uint = map (λ i. i % 2 ^ 32)

-- SHA-256 of a text, as the four numbers of the type `size_t` that its bytes are read as.
module _ (sha256 : CString → List ℕ) where
  -- `sha_int[i] % bloom->asize` for the first `k`. In C the size must not be 0.
  abbrev pub indices : Bloom → CString → List ℕ
  indices bloom s = map (λ n. n % bloom.asize) (take bloom.k (sha256 s))

  unfoldable pub bloom_add : Bloom → CString → Bloom
  unfolding incr_all
  bloom_add bloom s = incr_all (to_uint (indices bloom s)) bloom

  -- `none` where the C function returns -1.
  unfoldable pub bloom_remove : Bloom → CString → Option Bloom
  unfolding decr_all
  bloom_remove bloom s =
      if bloom.counting then some (decr_all (to_uint (indices bloom s)) bloom) else none

  unfoldable pub bloom_test : Bloom → CString → Bool
  unfolding all_set
  bloom_test bloom s = all_set (indices bloom s) bloom.a
