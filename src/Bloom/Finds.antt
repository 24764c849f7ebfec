-- ===== src/Bloom/Finds.antt =====
-- A counting Bloom filter of lib/bloom-filter.c finds what it holds.
use mathlib.Core.Bool.{false≢true}
use native.Mathlib.Nat.{mod-lt}
use seafile_server.Base.{
  Bool, false, if◌then◌else◌, ℕ, ◌+◌, ◌%◌, ◌^◌, ◌<◌, ◌≤◌, ◌≡◌, refl, ap, ◌∙◌, true, Option, none,
  some, List, [], ◌∷◌, CString, arith, map, take, All,
}
use seafile_server.Bloom.{
  Bloom, bloom_create, decr_all, indices, to_uint, bloom_add, bloom_remove, bloom_test,
}
use seafile_server.Bloom.Held.{
  times, Holds, Holds-same, times-All, incr_all-Holds, decr_all-Holds, all_set-Holds,
  bloom_create-Holds,
}

if_true {ℓ} : {A : Type ℓ} (b : Bool) (x y : A) → b ≡ true → (if b then x else y) ≡ x
if_true true x y e = refl
if_true false x y e = absurd (false≢true e)

pub to_uint-below :
    (size : ℕ) → size ≤ 2 ^ 32 → (is : List ℕ) → All (λ i. i < size) is → to_uint is ≡ is
to_uint-below size fits [] h = refl
to_uint-below size fits (i ∷ is) (h, hs) =
    let same : i % 2 ^ 32 ≡ i = omega (arith, h, fits) in
    rw (same, to_uint-below size fits is hs) refl

module _ (sha256 : CString → List ℕ) where
  abbrev pub add_each : List CString → Bloom → Bloom
  add_each [] bf = bf
  add_each (t ∷ ts) bf = add_each ts (bloom_add sha256 bf t)

  abbrev remove_next : (Bloom → Option Bloom) → Option Bloom → Option Bloom
  remove_next next none = none
  remove_next next (some bf) = next bf

  abbrev pub remove_each : List CString → Bloom → Option Bloom
  remove_each [] bf = some bf
  remove_each (t ∷ ts) bf = remove_next (λ b. remove_each ts b) (bloom_remove sha256 bf t)

  module _ (size k : ℕ) (pos : 0 < size) (fits : size ≤ 2 ^ 32) where
    abbrev at : CString → List ℕ
    at s = map (λ n. n % size) (take k (sha256 s))

    below : (ns : List ℕ) → All (λ i. i < size) (map (λ n. n % size) ns)
    below [] = tt
    below (n ∷ ns) = (mod-lt n pos, below ns)

    indices-at :
        (bf : Bloom) (c : ℕ → ℕ) (s : CString) → Holds size k bf c → indices sha256 bf s ≡ at s
    indices-at bf c s h = rw (h.its_size, h.its_k) refl

    to_uint-at :
        (bf : Bloom) (c : ℕ → ℕ) (s : CString)
        → Holds size k bf c
        → to_uint (indices sha256 bf s) ≡ at s
    to_uint-at bf c s h =
        ap to_uint (indices-at bf c s h)
        ∙ to_uint-below size fits (at s) (below (take k (sha256 s)))

    -- How often an index is held for some texts.
    abbrev total : ℕ → List CString → ℕ
    total j [] = 0
    total j (t ∷ ts) = times j (at t) + total j ts

    bloom_add-Holds :
        (bf : Bloom) (c d : ℕ → ℕ) (s : CString)
        → Holds size k bf c
        → ((j : ℕ) → d j ≡ c j + times j (at s))
        → Holds size k (bloom_add sha256 bf s) d
    unfolding bloom_add
    bloom_add-Holds bf c d s h more =
        rw (to_uint-at bf c s h)
          (incr_all-Holds size k (at s) bf c d (below (take k (sha256 s))) h more)

    add_each-Holds :
        (ts : List CString) (bf : Bloom) (c d : ℕ → ℕ)
        → Holds size k bf c
        → ((j : ℕ) → d j ≡ c j + total j ts)
        → Holds size k (add_each ts bf) d
    add_each-Holds [] bf c d h more = Holds-same size k bf c d h (λ j. omega (arith, more j))
    add_each-Holds (t ∷ ts) bf c d h more =
        add_each-Holds ts (bloom_add sha256 bf t) (λ j. c j + times j (at t)) d
          (bloom_add-Holds bf c (λ j. c j + times j (at t)) t h (λ j. refl))
          (λ j. omega (arith, more j))

    bloom_remove-Holds :
        (bf : Bloom) (d : ℕ → ℕ) (t : CString)
        → Holds size k bf d
        → bloom_remove sha256 bf t ≡ some (decr_all (at t) bf)
    unfolding bloom_remove
    bloom_remove-Holds bf d t h =
        if_true bf.counting _ none h.counts
        ∙ ap (λ (is : List ℕ). some (decr_all is bf)) (to_uint-at bf d t h)

    remove_each-Holds :
        (ts : List CString) (bf : Bloom) (c d : ℕ → ℕ)
        → Holds size k bf d
        → ((j : ℕ) → d j ≡ c j + total j ts)
        → (left : Bloom) × (remove_each ts bf ≡ some left) × Holds size k left c
    remove_each-Holds [] bf c d h more =
        (bf, refl, Holds-same size k bf d c h (λ j. omega (arith, more j)))
    remove_each-Holds (t ∷ ts) bf c d h more =
        let next =
          decr_all-Holds size k (at t) bf (λ j. c j + total j ts) d (below (take k (sha256 t))) h
            (λ j. omega (arith, more j)) in
        let (left, e, held) =
          remove_each-Holds ts (decr_all (at t) bf) c (λ j. c j + total j ts) next (λ j. refl) in
        (left, ap (remove_next (λ b. remove_each ts b)) (bloom_remove-Holds bf d t h) ∙ e, held)

    bloom_test-held :
        (bf : Bloom) (c : ℕ → ℕ) (s : CString)
        → Holds size k bf c
        → ((j : ℕ) → times j (at s) ≤ c j)
        → bloom_test sha256 bf s ≡ true
    unfolding bloom_test
    bloom_test-held bf c s h held =
        rw (indices-at bf c s h)
          (all_set-Holds size k (at s) bf c (below (take k (sha256 s))) h (times-All (at s) c held))

  -- What is added to a counting filter of a size from 1 to 2 ^ 32 is found, whatever else was added before it, and
  -- after everything that was added after it is removed again; these removals succeed.
  pub bloom_test_finds :
      (size k : ℕ) {created : Bloom} (before after : List CString) (s : CString)
      → 0 < size
      → size ≤ 2 ^ 32
      → bloom_create size k true ≡ some created
      → (bf : Bloom) × (remove_each after
            (add_each after (bloom_add sha256 (add_each before created) s))
          ≡ some bf)
        × (bloom_test sha256 bf s ≡ true)
  bloom_test_finds size k {created} before after s pos fits made =
      let first =
        add_each-Holds size k pos fits before created (λ j. 0) (λ j. total size k pos fits j before)
          (bloom_create-Holds size k made) (λ j. omega arith) in
      let c : ℕ → ℕ = λ j. total size k pos fits j before + times j (at size k pos fits s) in
      let second =
        bloom_add-Holds size k pos fits (add_each before created)
          (λ j. total size k pos fits j before) c s first (λ j. refl) in
      let third =
        add_each-Holds size k pos fits after (bloom_add sha256 (add_each before created) s) c
          (λ j. c j + total size k pos fits j after) second (λ j. refl) in
      let (bf, e, held) =
        remove_each-Holds size k pos fits after
          (add_each after (bloom_add sha256 (add_each before created) s)) c
          (λ j. c j + total size k pos fits j after) third (λ j. refl) in
      (bf, e, bloom_test-held size k pos fits bf c s held (λ j. omega arith))
