-- ===== src/Stats/Worker/Locked.antt =====
-- `WorkerLatencyStatsState` (stats_manager.py): what is counted, and the lock after an exception.
use volga.Prelude.{
  nat_eq, ℕ, zero, suc, ◌+◌, ◌<◌, ◌==◌, ◌≡◌, refl, sym, subst, true, false, [], ◌∷◌, leb, arith,
  Bool-cases, Option-cases, inl, inr, All, none, some,
}
use volga.Prelude.Int.{ℤ, pos, negsuc}
use volga.Prelude.Dict
use volga.Prelude.Dict.{Dict}
use volga.Stats.Hist
use volga.Stats.Hist.{Hist, Result, ok, raised, ◌>>=◌, is_sorted, new_hist}
use volga.Stats.Hist.Merge.{IsOver, total, Distinct}
use volga.Stats.Hist.Observe.{observe_counts_once}
use volga.Stats.Hist.Fresh.{new_hist-IsOver}
use volga.Stats.Worker.{
  ms_to_s, bins, latency_bins_ms, WorkerLatencyStatsState, returns, throws, blocks, observed,
  observe, collect_latency,
}

bins-above : (k start n : ℕ) → k < start → All (λ (c : ℕ). (k == c) ≡ false) (bins start n)
unfolding bins
bins-above k start zero h = tt
bins-above k start (suc n) h = (ground arith, bins-above k (start + 10) n (omega arith))

bins-Distinct : (start n : ℕ) → Distinct (bins start n)
unfolding bins
bins-Distinct start zero = tt
bins-Distinct start (suc n) =
    (bins-above start (start + 10) n (omega arith), bins-Distinct (start + 10) n)

bins-sorted : (start n : ℕ) → is_sorted (bins start n) ≡ true
unfolding bins is_sorted
bins-sorted start zero = refl
bins-sorted start (suc zero) = refl
bins-sorted start (suc (suc n)) =
    let le : leb start (start + 10) ≡ true = ground arith in
    rw le (bins-sorted (start + 10) (suc n))

-- The observations of all the seconds.
unfoldable pub observations : Dict ℕ Hist → ℕ
observations [] = 0
observations ((s, h) ∷ d) = total h + observations d

observations-put :
    (s : ℕ) (h : Hist) (d : Dict ℕ Hist) {old : Hist}
    → Dict.get s d ≡ some old
    → observations (Dict.put s h d) + total old ≡ observations d + total h
unfolding observations Dict.get Dict.put
observations-put s h [] found = cc
observations-put s h ((j, w) ∷ d) {old} found = elim (Bool-cases (j == s)) [
  | inl same ↦ let e : total w ≡ total old = cc (rw same at found) in rw same (omega (arith, e))
  | inr other ↦ rw other (omega (arith, observations-put s h d (rw other at found)))
]

observations-put_new :
    (s : ℕ) (h : Hist) (d : Dict ℕ Hist)
    → Dict.get s d ≡ none
    → observations (Dict.put s h d) ≡ observations d + total h
unfolding observations Dict.get Dict.put
observations-put_new s h [] absent = omega arith
observations-put_new s h ((j, w) ∷ d) absent = elim (Bool-cases (j == s)) [
  | inl same ↦ cc (rw same at absent)
  | inr other ↦ rw other (omega (arith, observations-put_new s h d (rw other at absent)))
]

-- Every histogram has the latency buckets.
abbrev pub IsLatency : Dict ℕ Hist → Type 0
IsLatency d = All (λ ((s, h) : ℕ × Hist). IsOver latency_bins_ms h) d

latency_bins-first : latency_bins_ms ≡ 10 ∷ bins 20 998
unfolding bins latency_bins_ms
latency_bins-first = refl

new_latency_hist :
    (h : Hist) × (new_hist latency_bins_ms ≡ ok h) × IsOver latency_bins_ms h × (total h ≡ 0)
unfolding latency_bins_ms
new_latency_hist = new_hist-IsOver (bins 10 999) (bins-sorted 10 999) (bins-Distinct 10 999)

observe_latency :
    (v : ℕ) (h : Hist)
    → IsOver latency_bins_ms h
    → (out : Hist) × (Hist.observe (pos v) h ≡ ok out)
      × IsOver latency_bins_ms out
      × (total out ≡ total h + 1)
observe_latency v h over =
    let (old, out, run, found, changed, more, over') =
      observe_counts_once v 10 (bins 20 998) h
        (subst (λ bs. IsOver bs h) latency_bins-first over) in
    (out, run, subst (λ bs. IsOver bs out) (sym latency_bins-first) over', more)

observed-known :
    (l : ℤ) (s : ℕ) (d : Dict ℕ Hist) {h out : Hist}
    → Dict.get s d ≡ some h
    → Hist.observe l h ≡ ok out
    → observed l s d ≡ ok (Dict.put s out d)
unfolding observed
observed-known l s d found run = rw (found, observed, run)

observed-new :
    (l : ℤ) (s : ℕ) (d : Dict ℕ Hist) {h out : Hist}
    → Dict.get s d ≡ none
    → new_hist latency_bins_ms ≡ ok h
    → Hist.observe l h ≡ ok out
    → observed l s d ≡ ok (Dict.put s out d)
unfolding observed
observed-new l s d absent new run = rw (absent, observed, new, run)

observed-counts :
    (v s : ℕ) (d : Dict ℕ Hist)
    → IsLatency d
    → (out : Dict ℕ Hist) × (observed (pos v) s d ≡ ok out)
      × IsLatency out
      × (observations out ≡ observations d + 1)
observed-counts v s d lat = elim (Option-cases (Dict.get s d)) [
  | inl absent ↦
      let (h, new, over, none_seen) = new_latency_hist in
      let (out, run, over', more) = observe_latency v h over in
      (
        Dict.put s out d,
        observed-new (pos v) s d absent new run,
        Dict.All-put (λ ((s, h) : ℕ × Hist). IsOver latency_bins_ms h) s out d over' lat,
        omega (arith, observations-put_new s out d absent),
      )
  | inr (h, found) ↦
      let over = Dict.All-get (λ ((s, h) : ℕ × Hist). IsOver latency_bins_ms h) s d lat found in
      let (out, run, over', more) = observe_latency v h over in
      (
        Dict.put s out d,
        observed-known (pos v) s d found run,
        Dict.All-put (λ ((s, h) : ℕ × Hist). IsOver latency_bins_ms h) s out d over' lat,
        omega (arith, observations-put s out d found),
      )
]

observed-negative : (n s : ℕ) (d : Dict ℕ Hist) → observed (negsuc n) s d ≡ raised
unfolding observed Hist.observe
observed-negative n s d = elim (Option-cases (Dict.get s d)) [
  | inl absent ↦ let (h, new, over, none_seen) = new_latency_hist in rw (absent, observed, new) refl
  | inr (h, found) ↦ rw (found, observed) refl
]

-- While the lock is free, a latency that is not negative is counted exactly once and the lock is
-- free again; the histograms keep the latency buckets.
pub nonnegative_counted_once :
    (v ts_ms : ℕ) (d : Dict ℕ Hist)
    → IsLatency d
    → (out : Dict ℕ Hist) × (observe
          (pos v)
          ts_ms
          (record { latency_hists_per_s = d; locked = false })
        ≡ returns (record { latency_hists_per_s = out; locked = false }))
      × IsLatency out
      × (observations out ≡ observations d + 1)
unfolding observe
nonnegative_counted_once v ts_ms d lat =
    let (out, run, lat', more) = observed-counts v (ms_to_s ts_ms) d lat in
    (out, rw run refl, lat', more)

-- A negative latency (the sender's clock is ahead) makes `observe` throw while it holds the lock,
-- and after that every `observe` and every `collect` of the worker waits for good.
pub negative_latency_blocks :
    (n ts_ms : ℕ) (d : Dict ℕ Hist)
    → (after : WorkerLatencyStatsState) × (observe
          (negsuc n)
          ts_ms
          (record { latency_hists_per_s = d; locked = false })
        ≡ throws after)
      × ((l : ℤ) (later : ℕ) → observe l later after ≡ blocks)
      × (collect_latency after ≡ blocks)
unfolding observe collect_latency
negative_latency_blocks n ts_ms d =
    let after : WorkerLatencyStatsState = record { latency_hists_per_s = d; locked = true } in
    (after, rw (observed-negative n (ms_to_s ts_ms) d) refl, λ l later. refl, refl)
