-- ===== src/Partition/Tests.antt =====
-- Runs of the partitions over two and three channels.
use volga.Prelude.{ℕ, ◌<◌, ◌≡◌, refl, [], ◌∷◌, All, length, get_elem?, some, arith}
use volga.Prelude.Int.{ℤ, negsuc}
use volga.Partition.{key_by, round_robin_by, partition}
use volga.Partition.Range.{
  IsSound, IsBuiltIn, Answers, answers, partition_in_range, round_robin_fair,
}

abbrev negative_hash : ℕ → ℤ
negative_hash r = negsuc r

partition_in_range_example :
    Answers
      (partition negative_hash key_by 6 3)
      (λ a. All (λ i. i < 3) a.0 × (0 < length a.0) × IsSound a.1 × IsBuiltIn a.1)
partition_in_range_example = partition_in_range negative_hash key_by 6 3 (omega arith) tt tt

round_robin_fair_example :
    (i : ℕ) × (i < 3)
    × (get_elem? (answers negative_hash (round_robin_by 1) 3 (4 ∷ 5 ∷ 6 ∷ [])) i ≡ some (2 ∷ []))
    × ((j : ℕ)
        → j < 3
        → get_elem? (answers negative_hash (round_robin_by 1) 3 (4 ∷ 5 ∷ 6 ∷ [])) j ≡ some (2 ∷ [])
        → j ≡ i)
round_robin_fair_example =
    round_robin_fair negative_hash 1 3 (4 ∷ 5 ∷ 6 ∷ []) 2 (omega arith) refl (omega arith)
