-- ===== src/Stats/Job/Throughput.antt =====
-- `JobThroughputStatsState` (stats_manager.py): what the window holds after an update.
use volga.Prelude.{
  nat_eq, ℕ, ◌+◌, ◌-◌, ◌==◌, ◌≡◌, refl, sym, ap, ◌∙◌, subst, false, List, [], ◌∷◌, if◌then◌else◌,
  ltb, arith, Bool-cases, inl, inr, All, none, some, beq→eq,
}
use volga.Prelude.Dict
use volga.Prelude.Dict.{Dict}
use volga.Stats.Hist.Merge.{Distinct}
use volga.Stats.Job.{
  bump, merge_update, merge_updates, last_second, window_after, throughput_aggregation_window_s,
}
use volga.Stats.Job.Window.{remove_old-get}

-- What the entries for a second add up to.
unfoldable pub entry_sum : ℕ → Dict ℕ ℕ → ℕ
entry_sum s [] = 0
entry_sum s ((t, n) ∷ d) = (if t == s then n else 0) + entry_sum s d

abbrev pub amount : ℕ → Dict ℕ ℕ → ℕ
amount s d = elim (Dict.get s d) [ some n ↦ n | none ↦ 0 ]

amount-none : (s : ℕ) (d : Dict ℕ ℕ) → Dict.get s d ≡ none → amount s d ≡ 0
amount-none s d absent = rw (absent, amount) refl

amount-same : (s : ℕ) (d e : Dict ℕ ℕ) → Dict.get s d ≡ Dict.get s e → amount s d ≡ amount s e
amount-same s d e h = rw (h, amount) refl

bump-put : (t n : ℕ) (d : Dict ℕ ℕ) → bump t n d ≡ Dict.put t (amount t d + n) d
unfolding bump
bump-put t n d = elim (Bool-cases (Dict.has t d)) [
  | inl there ↦ rw there refl
  | inr fresh ↦
      let e : n ≡ amount t d + n = omega (arith, amount-none t d (Dict.has-false→get t d fresh)) in
      rw fresh (ap (λ (v : ℕ). Dict.put t v d) e)
]

amount-put :
    (t v s : ℕ) (d : Dict ℕ ℕ) → amount s (Dict.put t v d) ≡ (if t == s then v else amount s d)
amount-put t v s d = elim (Bool-cases (t == s)) [
  | inl same ↦ rw (amount, Dict.get-put t s v d, same) refl
  | inr other ↦ rw (amount, Dict.get-put t s v d, other) refl
]

amount-bump :
    (t n s : ℕ) (d : Dict ℕ ℕ) → amount s (bump t n d) ≡ amount s d + (if t == s then n else 0)
amount-bump t n s d = elim (Bool-cases (t == s)) [
  | inl same ↦
      let e = ap (λ (c : ℕ). amount c d) (beq→eq t s same) in
      rw (bump-put, amount-put, same) (omega (arith, e))
  | inr other ↦ rw (bump-put, amount-put, other) (omega arith)
]

amount-merge_update :
    (s : ℕ) (up acc : Dict ℕ ℕ) → amount s (merge_update up acc) ≡ amount s acc + entry_sum s up
unfolding merge_update entry_sum
amount-merge_update s [] acc = omega arith
amount-merge_update s ((t, n) ∷ up) acc =
    omega (arith, amount-merge_update s up (bump t n acc), amount-bump t n s acc)

-- What the updates report for a second.
unfoldable pub reported : ℕ → List (Dict ℕ ℕ) → ℕ
reported s [] = 0
reported s (up ∷ ups) = entry_sum s up + reported s ups

amount-merge_updates :
    (s : ℕ) (ups : List (Dict ℕ ℕ)) (acc : Dict ℕ ℕ)
    → amount s (merge_updates ups acc) ≡ amount s acc + reported s ups
unfolding merge_updates reported
amount-merge_updates s [] acc = omega arith
amount-merge_updates s (up ∷ ups) acc =
    omega (arith, amount-merge_updates s ups (merge_update up acc), amount-merge_update s up acc)

All-put_keys :
    (P : ℕ → Type 0) (k v : ℕ) (d : Dict ℕ ℕ)
    → P k
    → All P (Dict.keys d)
    → All P (Dict.keys (Dict.put k v d))
unfolding Dict.put
All-put_keys P k v [] new h = (new, tt)
All-put_keys P k v ((j, w) ∷ d) new h = elim (Bool-cases (j == k)) [
  | inl same ↦ rw same h
  | inr other ↦ rw other (h.0, All-put_keys P k v d new h.1)
]

Distinct-put :
    (k v : ℕ) (d : Dict ℕ ℕ) → Distinct (Dict.keys d) → Distinct (Dict.keys (Dict.put k v d))
unfolding Dict.put
Distinct-put k v [] u = (tt, tt)
Distinct-put k v ((j, w) ∷ d) u = elim (Bool-cases (j == k)) [
  | inl same ↦ rw same u
  | inr other ↦
      rw other (All-put_keys (λ (c : ℕ). (j == c) ≡ false) k v d other u.0, Distinct-put k v d u.1)
]

merge_update-Distinct :
    (up acc : Dict ℕ ℕ) → Distinct (Dict.keys acc) → Distinct (Dict.keys (merge_update up acc))
unfolding merge_update
merge_update-Distinct [] acc u = u
merge_update-Distinct ((t, n) ∷ up) acc u = merge_update-Distinct up (bump t n acc) (
    subst (λ d. Distinct (Dict.keys d)) (sym (bump-put t n acc))
      (Distinct-put t (amount t acc + n) acc u))

merge_updates-Distinct :
    (ups : List (Dict ℕ ℕ)) (acc : Dict ℕ ℕ)
    → Distinct (Dict.keys acc)
    → Distinct (Dict.keys (merge_updates ups acc))
unfolding merge_updates
merge_updates-Distinct [] acc u = u
merge_updates-Distinct (up ∷ ups) acc u =
    merge_updates-Distinct ups (merge_update up acc) (merge_update-Distinct up acc u)

entry_sum-absent :
    (s : ℕ) (d : Dict ℕ ℕ) → All (λ (c : ℕ). (s == c) ≡ false) (Dict.keys d) → entry_sum s d ≡ 0
unfolding entry_sum
entry_sum-absent s [] h = refl
entry_sum-absent s ((t, n) ∷ d) h =
    let other : (t == s) ≡ false = ground (arith, h.0) in
    rw other (omega (arith, entry_sum-absent s d h.1))

entry_sum-amount : (s : ℕ) (d : Dict ℕ ℕ) → Distinct (Dict.keys d) → entry_sum s d ≡ amount s d
unfolding entry_sum Dict.get
entry_sum-amount s [] u = refl
entry_sum-amount s ((t, n) ∷ d) u = elim (Bool-cases (t == s)) [
  | inl same ↦
      let rest : entry_sum s d ≡ 0 =
        entry_sum-absent s d
          (subst (λ k. All (λ (c : ℕ). (k == c) ≡ false) (Dict.keys d)) (beq→eq t s same) u.0) in
      rw (amount, same) (omega (arith, rest))
  | inr other ↦ let ih = entry_sum-amount s d u.1 in rw (amount, other) (omega (arith, ih))
]

pub throughput_window :
    (updates : List (Dict ℕ ℕ)) (window : Dict ℕ ℕ) (s : ℕ)
    → Distinct (Dict.keys window)
    → let newest = last_second (Dict.keys (merge_update (merge_updates updates []) window)) in
      Dict.get_or s 0 (window_after updates window) ≡ (
        if ltb throughput_aggregation_window_s (newest - s)
        then 0
        else Dict.get_or s 0 window + reported s updates)
unfolding window_after
throughput_window updates window s u =
    let merged = merge_updates updates [] in
    let all = merge_update merged window in
    let newest = last_second (Dict.keys all) in
    let kept =
      remove_old-get throughput_aggregation_window_s newest s all
        (merge_update-Distinct merged window u) in
    let nothing = amount-none s [] (unfold Dict.get in refl) in
    let count : amount s all ≡ amount s window + reported s updates = omega (
      arith,
      amount-merge_update s merged window,
      entry_sum-amount s merged (merge_updates-Distinct updates [] tt),
      amount-merge_updates s updates [],
      nothing,
    ) in
    elim (Bool-cases (ltb throughput_aggregation_window_s (newest - s))) [
      | inl old ↦
          let gone = amount-none s (window_after updates window) (kept ∙ rw old refl) in rw old gone
      | inr recent ↦
          let same = amount-same s (window_after updates window) all (kept ∙ rw recent refl) in
          rw recent (same ∙ count)
    ]
