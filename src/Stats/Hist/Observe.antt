-- ===== src/Stats/Hist/Observe.antt =====
-- `Hist.observe` (hist.py): which bucket counts a value.
use volga.Prelude.{
  nat_eq, ℕ, zero, suc, ◌+◌, ◌<◌, ◌==◌, ◌≡◌, refl, sym, subst, ◌∙◌, some, List, [], ◌∷◌, leb,
  if◌then◌else◌, arith, Bool-cases, inl, inr, In, lt→ltb,
}
use volga.Prelude.Int.{pos}
use volga.Prelude.Dict
use volga.Prelude.Dict.{Dict}
use volga.Stats.Hist.Merge.{IsOver, total, sum-put, keys-put, add_at-some}
use volga.Stats.Hist.{Hist, ok, add_at, observe_from, observe_hist, observe}

-- The first bucket that is not below the value, and the last bucket if all are.
unfoldable pub bucket_of : ℕ → ℕ → List ℕ → ℕ
bucket_of value last [] = last
bucket_of value last (b ∷ bs) = let more = bucket_of value b bs in if leb value b then b else more

observe_from-bucket :
    (prev value b : ℕ) (bs : List ℕ) (d : Dict ℕ ℕ)
    → prev < value
    → observe_from prev (b ∷ bs) value d ≡ add_at (bucket_of value b (b ∷ bs)) 1 d
unfolding observe_from bucket_of
observe_from-bucket prev value b [] d h = ground arith
observe_from-bucket prev value b (c ∷ bs) d h = elim (Bool-cases (leb value b)) [
  | inl fits ↦ rw (fits, lt→ltb prev value h)
  | inr over ↦ rw (over, lt→ltb prev value h) (observe_from-bucket b value c bs d (ground arith))
]

bucket_of-In : (value last b : ℕ) (bs : List ℕ) → In (bucket_of value last (b ∷ bs)) (b ∷ bs)
unfolding bucket_of
bucket_of-In value last b [] = ground arith
bucket_of-In value last b (c ∷ bs) = elim (Bool-cases (leb value b)) [
  | inl fits ↦ rw fits (inl refl)
  | inr over ↦
      let next : bucket_of value last (b ∷ c ∷ bs) ≡ bucket_of value b (c ∷ bs) = rw over in
      subst (λ k. In k (b ∷ c ∷ bs)) (sym next) (inr (bucket_of-In value b c bs))
]

has_entry : (k : ℕ) (d : Dict ℕ ℕ) → In k (Dict.keys d) → (n : ℕ) × (Dict.get k d ≡ some n)
unfolding Dict.get
has_entry k [] member = elim member [ ]
has_entry k ((j, w) ∷ d) member = elim (Bool-cases (j == k)) [
  | inl same ↦ (w, rw same)
  | inr other ↦ elim member [
    | inl same ↦ absurd (ground arith)
    | inr later ↦ rw other (has_entry k d later)
  ]
]

-- The bucket that counts a value: the first one for 0, else the first that is not below it, and the
-- last one for a value over all of them.
unfoldable pub counted_by : ℕ → ℕ → List ℕ → ℕ
counted_by zero b bs = b
counted_by (suc v) b bs = bucket_of (suc v) b (b ∷ bs)

observe_hist-add :
    (v b : ℕ) (bs : List ℕ) (d : Dict ℕ ℕ)
    → observe_hist v (record { buckets = b ∷ bs; hist = d }) ≡ add_at (counted_by v b bs) 1 d
unfolding observe_hist counted_by
observe_hist-add zero b bs d = refl
observe_hist-add (suc v) b bs d = observe_from-bucket 0 (suc v) b bs d (omega arith)

counted_by-In : (v b : ℕ) (bs : List ℕ) → In (counted_by v b bs) (b ∷ bs)
unfolding counted_by
counted_by-In zero b bs = inl refl
counted_by-In (suc v) b bs = bucket_of-In (suc v) b b bs

-- On a histogram with a bucket, `observe` of a value that is not negative raises no error: the
-- count of the bucket of the value goes up by one, every other count stays, so the histogram
-- counts one observation more, over the same buckets.
pub observe_counts_once :
    (v b : ℕ) (bs : List ℕ) (h : Hist)
    → IsOver (b ∷ bs) h
    → (old : ℕ) × (out : Hist) × (observe (pos v) h ≡ ok out)
      × (Dict.get (counted_by v b bs) h.hist ≡ some old)
      × (out.hist ≡ Dict.put (counted_by v b bs) (old + 1) h.hist)
      × (total out ≡ total h + 1)
      × IsOver (b ∷ bs) out
unfolding observe
observe_counts_once v b bs h over =
    let k = counted_by v b bs in
    let (old, found) =
      has_entry k h.hist (subst (λ ks. In k ks) (sym over.keys) (counted_by-In v b bs)) in
    let d = Dict.put k (old + 1) h.hist in
    let added : add_at k 1 h.hist ≡ ok d = add_at-some k 1 h.hist found in
    let run : observe_hist v h ≡ ok d =
      subst (λ bks. observe_hist v (record { buckets = bks; hist = h.hist }) ≡ ok d) (sym over.same)
        (observe_hist-add v b bs h.hist ∙ added) in
    (
      old,
      record h { hist = d },
      rw run,
      found,
      refl,
      omega (arith, sum-put k (old + 1) h.hist found),
      record { same = over.same; keys = keys-put k (old + 1) h.hist found ∙ over.keys },
    )
