-- ===== src/Bloom/Adds.antt =====
-- Adding to a Bloom filter of lib/bloom-filter.c, with counters or without.
use native.Mathlib.Nat.{mod-lt}
use seafile_server.Base.{
  ℕ, zero, suc, ◌+◌, ◌*◌, ◌/◌, ◌%◌, ◌^◌, ◌<◌, ◌≤◌, ◌≡◌, refl, sym, ◌∙◌, inl, inr, Bool, true, false,
  ◌||◌, some, List, [], ◌∷◌, CString, arith, map, take, All, All-map, get_or, set, length,
  length-set, Bool-cases, ltb, ◌==◌,
}
use mathlib.Core.Path.{subst}
use seafile_server.Bloom.{
  Bloom, new_bloom, bloom_create, incr_bit, incr_all, all_set, indices, to_uint, bloom_add,
  bloom_test,
}
use seafile_server.Bloom.Counters.{get_or-set-same}
use seafile_server.Bloom.Held.{length-replicate}
use seafile_server.Bloom.Finds.{add_each, to_uint-below}

abbrev Marked : Bloom → ℕ → Type 0
Marked bf i = get_or bf.a i false ≡ true

-- The second filter has the shape of the first, and all the bits that are set in it.
record Keeps (bf later : Bloom) : Type 0 where
  same_size : later.asize ≡ bf.asize
  same_k : later.k ≡ bf.k
  same_length : length later.a ≡ length bf.a
  marks : (i : ℕ) → Marked bf i → Marked later i

Keeps-refl : (bf : Bloom) → Keeps bf bf
Keeps-refl bf = record { same_size = refl; same_k = refl; same_length = refl; marks = λ i h. h }

Keeps-trans : {a b c : Bloom} → Keeps a b → Keeps b c → Keeps a c
Keeps-trans g h = record {
  same_size = h.same_size ∙ g.same_size;
  same_k = h.same_k ∙ g.same_k;
  same_length = h.same_length ∙ g.same_length;
  marks = λ i m. h.marks i (g.marks i m);
}

set-true :
    (a : List Bool) (i j : ℕ) → get_or a j false ≡ true → get_or (set a i true) j false ≡ true
set-true [] i j h = h
set-true (x ∷ a) zero zero h = refl
set-true (x ∷ a) zero (suc j) h = h
set-true (x ∷ a) (suc i) zero h = h
set-true (x ∷ a) (suc i) (suc j) h = set-true a i j h

incr_bit-Keeps : (bf : Bloom) (i : ℕ) → Keeps bf (incr_bit bf i)
unfolding incr_bit
incr_bit-Keeps bf i = record {
  same_size = refl;
  same_k = refl;
  same_length = length-set bf.a i true;
  marks = λ j h. set-true bf.a i j h;
}

incr_bit-Marked : (bf : Bloom) (i : ℕ) → i < length bf.a → Marked (incr_bit bf i) i
unfolding incr_bit
incr_bit-Marked bf i inside = get_or-set-same bf.a i true false inside

incr_all-Keeps : (is : List ℕ) (bf : Bloom) → Keeps bf (incr_all is bf)
unfolding incr_all
incr_all-Keeps [] bf = Keeps-refl bf
incr_all-Keeps (i ∷ is) bf = Keeps-trans (incr_bit-Keeps bf i) (incr_all-Keeps is (incr_bit bf i))

incr_all-Marked :
    (size : ℕ) (is : List ℕ) (bf : Bloom)
    → All (λ i. i < size) is
    → size ≤ length bf.a
    → All (λ i. Marked (incr_all is bf) i) is
unfolding incr_all
incr_all-Marked size [] bf inside room = tt
incr_all-Marked size (i ∷ is) bf (lt, inside) room =
    let kept = incr_bit-Keeps bf i in
    (
      (incr_all-Keeps is (incr_bit bf i)).marks i (incr_bit-Marked bf i (omega (arith, lt, room))),
      incr_all-Marked size is (incr_bit bf i) inside (omega (arith, kept.same_length, room)),
    )

all_set-Marked : (is : List ℕ) (bf : Bloom) → All (λ i. Marked bf i) is → all_set is bf.a ≡ true
unfolding all_set
all_set-Marked [] bf h = refl
all_set-Marked (i ∷ is) bf (h, hs) = rw h (all_set-Marked is bf hs)

below : (size : ℕ) → 0 < size → (ns : List ℕ) → All (λ i. i < size) (map (λ n. n % size) ns)
below size pos [] = tt
below size pos (n ∷ ns) = (mod-lt n pos, below size pos ns)

module _ (sha256 : CString → List ℕ) where
  add_each-Keeps : (ts : List CString) (bf : Bloom) → Keeps bf (add_each sha256 ts bf)
  unfolding bloom_add
  add_each-Keeps [] bf = Keeps-refl bf
  add_each-Keeps (t ∷ ts) bf =
      Keeps-trans (incr_all-Keeps (to_uint (indices sha256 bf t)) bf)
        (add_each-Keeps ts (bloom_add sha256 bf t))

  bloom_add-Marked :
      (bf : Bloom) (s : CString)
      → 0 < bf.asize
      → bf.asize ≤ 2 ^ 32
      → bf.asize ≤ length bf.a
      → All (λ i. Marked (bloom_add sha256 bf s) i) (indices sha256 bf s)
  unfolding bloom_add
  bloom_add-Marked bf s pos fits room =
      let inside = below bf.asize pos (take bf.k (sha256 s)) in
      subst (λ (is : List ℕ). All (λ i. Marked (incr_all is bf) i) (indices sha256 bf s))
        (sym (to_uint-below bf.asize fits (indices sha256 bf s) inside))
        (incr_all-Marked bf.asize (indices sha256 bf s) bf inside room)

  indices-Keeps :
      (bf later : Bloom) (s : CString)
      → Keeps bf later
      → indices sha256 later s ≡ indices sha256 bf s
  indices-Keeps bf later s h = rw (h.same_size, h.same_k) refl

  test_later :
      (bf later : Bloom) (s : CString)
      → 0 < bf.asize
      → bf.asize ≤ 2 ^ 32
      → bf.asize ≤ length bf.a
      → Keeps (bloom_add sha256 bf s) later
      → Keeps bf later
      → bloom_test sha256 later s ≡ true
  unfolding bloom_test
  test_later bf later s pos fits room h from = rw (indices-Keeps bf later s from) (
      all_set-Marked (indices sha256 bf s) later (
        All-map _ _ (indices sha256 bf s) (λ i m. h.marks i m)
          (bloom_add-Marked bf s pos fits room)))

  created_room :
      (size k : ℕ) (counting : Bool) {bf : Bloom}
      → bloom_create size k counting ≡ some bf
      → (bf.asize ≡ size) × (bf.asize ≤ length bf.a)
  unfolding bloom_create new_bloom
  created_room size k counting {bf} e = elim (Bool-cases (k == 0 || ltb 4 k)) [
    | inl bad ↦ cc
    | inr good ↦
        let same : new_bloom size k counting ≡ bf = cc in
        subst (λ (b : Bloom). (b.asize ≡ size) × (b.asize ≤ length b.a)) same
          (refl, omega (arith, length-replicate ((size + 7) / 8 * 8) false))
  ]

  -- What is added to a filter of a size from 1 to 2 ^ 32, with counters or without, is found,
  -- whatever else was added before it and after it.
  pub bloom_test_added :
      (size k : ℕ) (counting : Bool) {created : Bloom} (before after : List CString) (s : CString)
      → 0 < size
      → size ≤ 2 ^ 32
      → bloom_create size k counting ≡ some created
      → bloom_test sha256
          (add_each sha256 after (bloom_add sha256 (add_each sha256 before created) s))
          s
        ≡ true
  bloom_test_added size k counting {created} before after s pos fits made =
      let (its_size, room) = created_room size k counting made in
      let early = add_each-Keeps before created in
      let bf = add_each sha256 before created in
      let asked : bf.asize ≡ size = early.same_size ∙ its_size in
      let later = add_each-Keeps after (bloom_add sha256 bf s) in
      test_later bf (add_each sha256 after (bloom_add sha256 bf s)) s (omega (arith, asked, pos))
        (omega (arith, asked, fits)) (omega (arith, early.same_size, early.same_length, room)) later
        (Keeps-trans (add_each-Keeps (s ∷ []) bf) later)
