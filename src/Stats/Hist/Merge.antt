-- ===== src/Stats/Hist/Merge.antt =====
-- `Hist.merge` (hist.py): counts are added bucket by bucket.
use volga.Prelude.{
  nat_eq, ℕ, ◌+◌, ◌==◌, ◌≡◌, refl, sym, ap, ◌∙◌, subst, true, false, some, List, [], ◌∷◌, arith,
  Bool-cases, inl, inr, beq_refl, All, All-map, map,
}
use volga.Prelude.Dict
use volga.Prelude.Dict.{Dict}
use volga.Stats.Hist.{Hist, ok, is_sorted, add_at, add_all, same_buckets, merge_into, merge, sum}

abbrev pub Distinct : List ℕ → Type 0
Distinct [] = Unit
Distinct (b ∷ bs) = All (λ (c : ℕ). (b == c) ≡ false) bs × Distinct bs

pub sum-put :
    (k v : ℕ) (d : Dict ℕ ℕ) {old : ℕ}
    → Dict.get k d ≡ some old
    → sum (Dict.values (Dict.put k v d)) + old ≡ sum (Dict.values d) + v
unfolding sum Dict.get Dict.put
sum-put k v [] h = cc
sum-put k v ((j, w) ∷ d) {old} h = elim (Bool-cases (j == k)) [
  | inl same ↦ let e : w ≡ old = cc (rw same at h) in rw same (omega arith)
  | inr other ↦ rw other (omega (arith, sum-put k v d (rw other at h)))
]

pub keys-put :
    (k v : ℕ) (d : Dict ℕ ℕ) {old : ℕ}
    → Dict.get k d ≡ some old
    → Dict.keys (Dict.put k v d) ≡ Dict.keys d
unfolding Dict.get Dict.put
keys-put k v [] h = cc
keys-put k v ((j, w) ∷ d) {old} h = elim (Bool-cases (j == k)) [
  | inl same ↦ rw same
  | inr other ↦ rw other (ap (λ ks. j ∷ ks) (keys-put k v d (rw other at h)))
]

-- What `add_all` reads of the other dict.
unfoldable pub picked : List ℕ → Dict ℕ ℕ → ℕ
picked [] other = 0
picked (b ∷ bs) other = Dict.get_or b 0 other + picked bs other

get-of_key :
    (b : ℕ) (ks : List ℕ) (d : Dict ℕ ℕ) → Dict.keys d ≡ b ∷ ks → (n : ℕ) × (Dict.get b d ≡ some n)
unfolding Dict.get
get-of_key b ks [] e = absurd (nil-ne-cons e)
  where
    nil-ne-cons : {x : ℕ} {xs : List ℕ} → [] ≡ x ∷ xs → ⊥
    nil-ne-cons q = cc
get-of_key b ks ((j, w) ∷ d) e = (w, rw (head_same e) (rw (beq_refl b)))
  where
    head_same : j ∷ Dict.keys d ≡ b ∷ ks → j ≡ b
    head_same q = cc

-- Every key of the list has an entry.
abbrev pub Covers : List ℕ → Dict ℕ ℕ → Type 0
Covers ks d = All (λ k. (n : ℕ) × (Dict.get k d ≡ some n)) ks

Covers-put : (ks : List ℕ) (k v : ℕ) (d : Dict ℕ ℕ) → Covers ks d → Covers ks (Dict.put k v d)
Covers-put ks k v d h =
    All-map ks
      (λ j (n, found). elim (Bool-cases (k == j)) [
        | inl same ↦ (v, Dict.get-put k j v d ∙ rw same)
        | inr other ↦ (n, Dict.get-put k j v d ∙ rw other found)
      ])
      h

pub add_at-some :
    (k n : ℕ) (d : Dict ℕ ℕ) {old : ℕ}
    → Dict.get k d ≡ some old
    → add_at k n d ≡ ok (Dict.put k (old + n) d)
unfolding add_at
add_at-some k n d h = rw (h, add_at)

add_all-step :
    (b : ℕ) (bs : List ℕ) (other d d1 : Dict ℕ ℕ) {n : ℕ}
    → Dict.get b other ≡ some n
    → add_at b n d ≡ ok d1
    → add_all (b ∷ bs) other d ≡ add_all bs other d1
unfolding add_all
add_all-step b bs other d d1 found added = rw (found, add_all, added)

add_all-total :
    (bs : List ℕ) (other d : Dict ℕ ℕ)
    → Covers bs other
    → Covers bs d
    → (out : Dict ℕ ℕ) × (add_all bs other d ≡ ok out)
      × (sum (Dict.values out) ≡ sum (Dict.values d) + picked bs other)
      × (Dict.keys out ≡ Dict.keys d)
unfolding add_all picked
add_all-total [] other d h k = (d, refl, omega arith, refl)
add_all-total (b ∷ bs) other d h k =
    let (n, in_other) = h.0 in
    let (old, in_d) = k.0 in
    let d1 = Dict.put b (old + n) d in
    let added : add_at b n d ≡ ok d1 = add_at-some b n d in_d in
    let (out, run, total, keys) = add_all-total bs other d1 h.1 (Covers-put bs b (old + n) d k.1) in
    let read : Dict.get_or b 0 other ≡ n = rw (in_other, Dict.get_or) in
    (
      out,
      add_all-step b bs other d d1 in_other added ∙ run,
      omega (arith, total, sum-put b (old + n) d in_d, read),
      keys ∙ keys-put b (old + n) d in_d,
    )

picked-skip :
    (j w : ℕ) (bs : List ℕ) (d : Dict ℕ ℕ)
    → All (λ (c : ℕ). (j == c) ≡ false) bs
    → picked bs ((j, w) ∷ d) ≡ picked bs d
unfolding picked Dict.get
picked-skip j w [] d h = refl
picked-skip j w (b ∷ bs) d h =
    rw (h.0, Dict.get_or) (ap (λ (t : ℕ). Dict.get_or b 0 d + t) (picked-skip j w bs d h.1))

-- A dict whose keys are the list, all different, is read once in full.
picked-keys : (d : Dict ℕ ℕ) → Distinct (Dict.keys d) → picked (Dict.keys d) d ≡ sum (Dict.values d)
unfolding picked sum Dict.get
picked-keys [] h = refl
picked-keys ((j, w) ∷ d) h =
    rw (beq_refl j, Dict.get_or)
      (ap (λ (t : ℕ). w + t) (picked-skip j w (Dict.keys d) d h.0 ∙ picked-keys d h.1))

Covers-keys : (d : Dict ℕ ℕ) → Covers (Dict.keys d) d
unfolding Dict.get
Covers-keys [] = tt
Covers-keys ((j, w) ∷ d) = (
  (w, rw (beq_refl j)),
  All-map (Dict.keys d)
      (λ k (n, found). elim (Bool-cases (j == k)) [
        | inl same ↦ (w, rw same)
        | inr other ↦ (n, rw other found)
      ])
      (Covers-keys d),
)

-- A histogram over these buckets, as the constructor makes them and `observe` keeps them.
pub record IsOver (buckets : List ℕ) (h : Hist) : Type 0 where
  pub same : h.buckets ≡ buckets
  pub keys : Dict.keys h.hist ≡ buckets

abbrev pub total : Hist → ℕ
total h = sum (Dict.values h.hist)

same_buckets_refl : (bs : List ℕ) → same_buckets bs bs ≡ true
unfolding same_buckets
same_buckets_refl [] = refl
same_buckets_refl (b ∷ bs) = rw (beq_refl b) (same_buckets_refl bs)

merge_into-total :
    (bs : List ℕ) (d : Dict ℕ ℕ) (hs : List Hist)
    → Distinct bs
    → Dict.keys d ≡ bs
    → All (IsOver bs) hs
    → (out : Dict ℕ ℕ) × (merge_into bs d hs ≡ ok out)
      × (sum (Dict.values out) ≡ sum (Dict.values d) + sum (map total hs))
      × (Dict.keys out ≡ bs)
unfolding merge_into sum
merge_into-total bs d [] u k h = (d, refl, omega arith, k)
merge_into-total bs d (x ∷ hs) u k h =
    let in_x : Covers bs x.hist = subst (λ ks. Covers ks x.hist) h.0.keys (Covers-keys x.hist) in
    let in_d : Covers bs d = subst (λ ks. Covers ks d) k (Covers-keys d) in
    let read : picked bs x.hist ≡ total x =
      subst (λ ks. picked ks x.hist ≡ total x) h.0.keys
        (picked-keys x.hist (subst Distinct (sym h.0.keys) u)) in
    let (d1, run1, total1, keys1) = add_all-total bs x.hist d in_x in_d in
    let (out, run, total2, keys2) = merge_into-total bs d1 hs u (keys1 ∙ k) h.1 in
    (out, rw (h.0.same, same_buckets_refl bs, run1) run, omega (arith, total1, total2, read), keys2)

-- Histograms over the same sorted, distinct buckets are merged without an error, and the result
-- counts exactly the observations of all of them. It is over the same buckets.
pub merge-total :
    (bs : List ℕ) (h : Hist) (hs : List Hist)
    → is_sorted bs ≡ true
    → Distinct bs
    → All (IsOver bs) (h ∷ hs)
    → (out : Hist) × (merge (h ∷ hs) ≡ ok out)
      × (total out ≡ total h + sum (map total hs))
      × IsOver bs out
unfolding merge
merge-total bs h hs s u over =
    let (d, run, count, keys) = merge_into-total bs h.hist hs u over.0.keys over.1 in
    (
      record { buckets = h.buckets; hist = d },
      rw (over.0.same, run, s),
      count,
      record { same = over.0.same; keys = keys },
    )
