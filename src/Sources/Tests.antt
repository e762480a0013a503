-- ===== src/Sources/Tests.antt =====
-- A source with a bound of two that collects three values.
use volga.Prelude.{ℕ, ◌≡◌, ◌&&◌, some, ok, List, [], ◌∷◌, ltb, leb, length}
use volga.Sources.{open_source}
use volga.Sources.Bounded.{collect_all, sampled, has_emit_ts, bounded_source}

abbrev three_values : List ℕ
three_values = 5 ∷ 6 ∷ 7 ∷ []

bounded_source_example :
    let (records, after) =
      collect_all ℕ ℕ (some (λ v. some v)) (λ i. i) three_values (open_source (ok 2)) in
    (after.num_fetched_records ≡ length three_values)
    × (after.finished ≡ (ltb 0 2 && leb 2 (length three_values)))
    × (has_emit_ts records ≡ sampled 0 three_values)
bounded_source_example = bounded_source ℕ ℕ (some (λ v. some v)) (λ i. i) three_values 2
