-- ===== src/Tests/Blooms.antt =====
-- A small Bloom filter.
use seafile_server.Base.{
  ℕ, ◌+◌, ◌≡◌, refl, true, false, some, List, [], ◌∷◌, CString, codes, length, arith,
}
use seafile_server.Bloom.{Bloom, new_bloom, bloom_create, bloom_add, bloom_test}
use seafile_server.Bloom.Adds.{bloom_test_added}
use seafile_server.Bloom.Finds.{add_each, remove_each, bloom_test_finds}

-- A stand-in for SHA-256.
abbrev digest : CString → List ℕ
digest s = length s ∷ (length s + 11) ∷ 5 ∷ 7 ∷ []

made : bloom_create 8 3 true ≡ some (new_bloom 8 3 true)
unfolding bloom_create
made = refl

bloom_test_finds_example :
    (bf : Bloom) × (remove_each digest (codes "bb" ∷ []) (
        add_each digest
          (codes "bb" ∷ [])
          (bloom_add digest (add_each digest [] (new_bloom 8 3 true)) (codes "a")))
      ≡ some bf)
    × (bloom_test digest bf (codes "a") ≡ true)
bloom_test_finds_example =
    bloom_test_finds digest 8 3 [] (codes "bb" ∷ []) (codes "a") (omega arith) (omega arith) made

plain_made : bloom_create 8 3 false ≡ some (new_bloom 8 3 false)
unfolding bloom_create
plain_made = refl

bloom_test_added_example :
    bloom_test digest
      (add_each digest
        (codes "bb" ∷ [])
        (bloom_add digest (add_each digest [] (new_bloom 8 3 false)) (codes "a")))
      (codes "a")
    ≡ true
bloom_test_added_example =
    bloom_test_added digest 8 3 false [] (codes "bb" ∷ []) (codes "a") (omega arith) (omega arith)
      plain_made
