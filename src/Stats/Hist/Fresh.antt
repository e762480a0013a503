-- ===== src/Stats/Hist/Fresh.antt =====
-- `Hist(buckets)` (hist.py): a new histogram, and the latency buckets of a worker.
use volga.Prelude.{
  nat_eq, ℕ, ◌+◌, ◌==◌, ◌≡◌, refl, sym, ap, ◌∙◌, true, false, List, [], ◌∷◌, ◌++◌, All,
  append_assoc, append-nil,
}
use volga.Prelude.Dict
use volga.Prelude.Dict.{Dict}
use volga.Stats.Hist.{Hist, ok, is_sorted, zeros, new_hist, sum}
use volga.Stats.Hist.Merge.{IsOver, total, Distinct}

-- No key of the dict is in the list.
abbrev Free : List ℕ → Dict ℕ ℕ → Type 0
Free ks d = All (λ k. Dict.has k d ≡ false) ks

Free-put :
    (k v : ℕ) (ks : List ℕ) (d : Dict ℕ ℕ)
    → All (λ (c : ℕ). (k == c) ≡ false) ks
    → Free ks d
    → Free ks (Dict.put k v d)
Free-put k v [] d new free = tt
Free-put k v (j ∷ ks) d new free =
    (Dict.has-put k j v d ∙ rw new.0 free.0, Free-put k v ks d new.1 free.1)

Free-nil : (ks : List ℕ) → Free ks []
unfolding Dict.has
Free-nil [] = tt
Free-nil (k ∷ ks) = (refl, Free-nil ks)

pub keys-append : (d e : Dict ℕ ℕ) → Dict.keys (d ++ e) ≡ Dict.keys d ++ Dict.keys e
keys-append [] e = refl
keys-append ((k, v) ∷ d) e = ap (λ ks. k ∷ ks) (keys-append d e)

sum-append_zero :
    (k : ℕ) (d : Dict ℕ ℕ) → sum (Dict.values (d ++ (k, 0) ∷ [])) ≡ sum (Dict.values d)
unfolding sum
sum-append_zero k [] = refl
sum-append_zero k ((j, v) ∷ d) = ap (λ (n : ℕ). v + n) (sum-append_zero k d)

zeros-fresh :
    (bs : List ℕ) (d : Dict ℕ ℕ)
    → Distinct bs
    → Free bs d
    → (Dict.keys (zeros bs d) ≡ Dict.keys d ++ bs)
      × (sum (Dict.values (zeros bs d)) ≡ sum (Dict.values d))
unfolding zeros
zeros-fresh [] d u free = (sym (append-nil (Dict.keys d)), refl)
zeros-fresh (b ∷ bs) d u free =
    let new : Dict.put b 0 d ≡ d ++ (b, 0) ∷ [] = Dict.put-new b 0 d free.0 in
    let (keys, none_seen) = zeros-fresh bs (Dict.put b 0 d) u.1 (Free-put b 0 bs d u.0 free.1) in
    (
      keys ∙ rw (new, keys-append) (append_assoc (Dict.keys d) (b ∷ []) bs),
      none_seen ∙ rw (new, sum-append_zero) refl,
    )

-- A new histogram over sorted, distinct buckets counts nothing.
pub new_hist-IsOver :
    (bs : List ℕ)
    → is_sorted bs ≡ true
    → Distinct bs
    → (h : Hist) × (new_hist bs ≡ ok h) × IsOver bs h × (total h ≡ 0)
unfolding new_hist sum
new_hist-IsOver bs s u =
    let (keys, none_seen) = zeros-fresh bs [] u (Free-nil bs) in
    (
      record { buckets = bs; hist = zeros bs [] },
      rw s,
      record { same = refl; keys = keys },
      none_seen,
    )
