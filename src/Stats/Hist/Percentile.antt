-- ===== src/Stats/Hist/Percentile.antt =====
-- `Hist.percentiles` (hist.py), in exact arithmetic.
use volga.Prelude.{
  nat_eq, ℕ, zero, suc, ◌+◌, ◌*◌, ◌≤◌, ◌<◌, ◌≡◌, refl, sym, ap, ◌&&◌, ◌⊎◌, inl, inr, some, List, [],
  ◌∷◌, ltb, leb, arith, Bool-cases, length, take, get_elem?, lt→ltb, subst,
}
use volga.Prelude.Dict
use volga.Prelude.Dict.{Dict}
use volga.Stats.Hist.Merge.{IsOver, total}
use volga.Stats.Hist.{Hist, ok, cumulative_below, percentile, sum}

-- `idx` is where the cumulative share of `p` percent is passed: the values up to there are more
-- than that share, and those before it are not.
pub record Passes (p total before : ℕ) (ns : List ℕ) (idx : ℕ) : Type 0 where
  pub inside : idx < length ns
  pub more : p * total < (before + sum (take (suc idx) ns)) * 100
  pub less : (idx ≡ 0) ⊎ ((before + sum (take idx ns)) * 100 ≤ p * total)

cumulative_over :
    (p total before : ℕ) (ns : List ℕ)
    → p * total < before * 100
    → cumulative_below p total before ns ≡ 0
unfolding cumulative_below
cumulative_over p total before [] h = refl
cumulative_over p total before (n ∷ ns) h =
    let ih = cumulative_over p total (before + n) ns (omega arith) in
    elim (Bool-cases (ltb 0 total && leb ((before + n) * 100) (p * total))) [
      | inl low ↦ absurd (ground arith)
      | inr high ↦ rw (high, ih)
    ]

Passes-later :
    (p total before n : ℕ) (ns : List ℕ) (idx : ℕ)
    → (before + n) * 100 ≤ p * total
    → Passes p total (before + n) ns idx
    → Passes p total before (n ∷ ns) (suc idx)
unfolding sum
Passes-later p total before n ns zero low h = record {
  inside = omega (arith, h.inside);
  more = omega (arith, h.more);
  less = inr (omega arith);
}
Passes-later p total before n ns (suc idx) low h = record {
  inside = omega (arith, h.inside);
  more = omega (arith, h.more);
  less = inr (elim h.less [
    | inl at_start ↦ absurd (suc-ne-zero at_start)
    | inr below ↦ omega (arith, below)
  ]);
}
  where
    suc-ne-zero : {m : ℕ} → suc m ≡ 0 → ⊥
    suc-ne-zero q = omega arith

cumulative_below-Passes :
    (p total before : ℕ) (ns : List ℕ)
    → 0 < total
    → p * total < (before + sum ns) * 100
    → (before * 100 ≤ p * total)
    → Passes p total before ns (cumulative_below p total before ns)
unfolding cumulative_below sum
cumulative_below-Passes p total before [] t h b = absurd (omega arith)
cumulative_below-Passes p total before (n ∷ ns) t h b =
    elim (Bool-cases (leb ((before + n) * 100) (p * total))) [
      | inl low ↦
          let rest =
            cumulative_below-Passes p total (before + n) ns t (omega arith) (ground arith) in
          let count = cumulative_below p total (before + n) ns in
          let bump : suc count ≡ 1 + count = omega arith in
          rw (low, lt→ltb 0 total t)
            (subst (Passes p total before (n ∷ ns)) bump
              (Passes-later p total before n ns count (ground arith) rest))
      | inr high ↦
          let none_after = cumulative_over p total (before + n) ns (ground arith) in
          rw (high, lt→ltb 0 total t, none_after)
            (record { inside = omega arith; more = ground arith; less = inl refl })
    ]

length-values : (d : Dict ℕ ℕ) → length (Dict.values d) ≡ length (Dict.keys d)
length-values [] = refl
length-values ((k, v) ∷ d) = ap suc (length-values d)

get_elem?-inside : (idx : ℕ) (xs : List ℕ) → idx < length xs → (b : ℕ) × (get_elem? xs idx ≡ some b)
get_elem?-inside idx [] h = absurd (omega arith)
get_elem?-inside zero (x ∷ xs) h = (x, refl)
get_elem?-inside (suc idx) (x ∷ xs) h = get_elem?-inside idx xs (omega arith)

share_below : (p t : ℕ) → p < 100 → 0 < t → p * t < (0 + t) * 100
share_below p zero below some_seen = absurd (omega arith)
share_below p (suc zero) below some_seen = omega arith
share_below p (suc (suc t)) below some_seen =
    let ih = share_below p (suc t) below (omega arith) in omega (arith, ih)

percentile-found :
    (p b : ℕ) (h : Hist)
    → get_elem? h.buckets (cumulative_below p (total h) 0 (Dict.values h.hist)) ≡ some b
    → percentile p h ≡ ok b
unfolding percentile
percentile-found p b h found = rw (found, percentile)

-- For a percentile below 100 of a histogram with an observation, the result is the first bucket at
-- which the observations up to it are more than that share of all.
pub percentile_lem :
    (bs : List ℕ) (p : ℕ) (h : Hist)
    → IsOver bs h
    → p < 100
    → 0 < total h
    → (idx : ℕ) × (b : ℕ) × (percentile p h ≡ ok b)
      × (get_elem? bs idx ≡ some b)
      × Passes p (total h) 0 (Dict.values h.hist) idx
percentile_lem bs p h over below some_seen =
    let idx = cumulative_below p (total h) 0 (Dict.values h.hist) in
    let passes =
      cumulative_below-Passes p (total h) 0 (Dict.values h.hist) some_seen
        (share_below p (total h) below some_seen) (omega arith) in
    let inside : idx < length bs =
      subst (λ ks. idx < length ks) over.keys
        (subst (λ n. idx < n) (length-values h.hist) passes.inside) in
    let (b, found) = get_elem?-inside idx bs inside in
    let run =
      percentile-found p b h (subst (λ ks. get_elem? ks idx ≡ some b) (sym over.same) found) in
    (idx, b, run, found, passes)
