-- ===== src/Partition/Range.antt =====
-- The partitions that each strategy of partition.py answers.
use volga.Prelude.{
  ℕ, zero, suc, ◌+◌, ◌-◌, ◌%◌, ◌≤◌, ◌<◌, ◌≡◌, refl, sym, ap, ◌∙◌, false, List, [], ◌∷◌, length, All,
  All-map, get_elem?, some, ◌==◌, arith, Bool-cases, inl, inr,
}
use native.Mathlib.Nat.{mod-add-mod, mod-eq_of_lt, mod-eq-sub-mod, add_assoc}
use native.Mathlib.Decide.{dec_lt}
use volga.Prelude.Int.{ℤ}
use volga.Partition.{
  Partition, broadcast_by, key_by, round_robin_by, forward_to, simple_by, Outcome, returns,
  zero_division, range_from, partition,
}

pub length-range_from : (start n : ℕ) → length (range_from start n) ≡ n
unfolding range_from
length-range_from start zero = refl
length-range_from start (suc n) = ap suc (length-range_from (suc start) n)

range_from_bounds : (start n : ℕ) → All (λ i. (start ≤ i) × (i < start + n)) (range_from start n)
unfolding range_from
range_from_bounds start zero = tt
range_from_bounds start (suc n) = (
  (omega arith, omega arith),
  All-map (range_from (suc start) n) (λ i h. (omega (arith, h.0), omega (arith, h.1)))
      (range_from_bounds (suc start) n),
)

pub range_from-get : (start n i : ℕ) → i < n → get_elem? (range_from start n) i ≡ some (start + i)
unfolding range_from
range_from-get start zero i h = elim h [ ]
range_from-get start (suc n) zero h = ap some (omega arith)
range_from-get start (suc n) (suc i) h =
    range_from-get (suc start) n i (omega arith) ∙ ap some (omega arith)

-- What the program keeps true of a partition object: the cache of a broadcast is a full range.
abbrev pub IsSound : {R : Type 0} → Partition R → Type 0
IsSound (broadcast_by cached) = cached ≡ range_from 0 (length cached)
IsSound _ = Unit

-- A partition of a user's function answers what that function answers.
abbrev pub IsBuiltIn : {R : Type 0} → Partition R → Type 0
IsBuiltIn (simple_by _) = ⊥
IsBuiltIn _ = Unit

abbrev pub Answers : {A : Type 0} → Outcome A → (A → Type 0) → Type 0
Answers (returns a) P = P a
Answers zero_division P = ⊥

ne_zero : (n : ℕ) → 0 < n → (n == 0) ≡ false
ne_zero n h = ground arith

mod_lt : (a n : ℕ) → 0 < n → a % n < n
mod_lt a n h = omega arith

mod_step : (seq i n : ℕ) → ((seq + 1) % n + 1 + i) % n ≡ (seq + 1 + suc i) % n
mod_step seq i n =
    ap (λ (k : ℕ). k % n) (add_assoc ((seq + 1) % n) 1 i)
    ∙ mod-add-mod (seq + 1) n (1 + i)
    ∙ ap (λ (k : ℕ). k % n) (omega arith)

mod_wrap : (a n : ℕ) → n ≤ a → a < n + n → a % n ≡ a - n
mod_wrap a n low high = mod-eq-sub-mod low ∙ mod-eq_of_lt (omega arith)

-- A walk of `n` steps round `n` places meets each place once.
round_places :
    (s n place : ℕ)
    → s < n
    → place < n
    → (i : ℕ) × (i < n) × ((s + i) % n ≡ place) × ((j : ℕ) → j < n → (s + j) % n ≡ place → j ≡ i)
round_places s n place hs hp = elim (dec_lt place s) [
  | yes below ↦ (
    place + n - s,
    omega arith,
    mod_wrap _ n (omega arith) (omega arith) ∙ omega arith,
    λ j hj e. elim (dec_lt (s + j) n) [
      | yes flat ↦ absurd (omega (arith, e, mod-eq_of_lt flat))
      | no wraps ↦ omega (arith, e, mod_wrap (s + j) n (omega arith) (omega arith))
    ],
  )
  | no above ↦ (
    place - s,
    omega arith,
    mod-eq_of_lt (omega arith) ∙ omega arith,
    λ j hj e. elim (dec_lt (s + j) n) [
      | yes flat ↦ omega (arith, e, mod-eq_of_lt flat)
      | no wraps ↦ absurd (omega (arith, e, mod_wrap (s + j) n (omega arith) (omega arith)))
    ],
  )
]

module _ {R : Type 0} (hash_key : R → ℤ) where
  broadcast-lem :
      (cached : List ℕ) (r : R) (n : ℕ)
      → cached ≡ range_from 0 (length cached)
      → partition hash_key (broadcast_by cached) r n
        ≡ returns (range_from 0 n, broadcast_by (range_from 0 n))
  unfolding partition
  broadcast-lem cached r n h = elim (Bool-cases (length cached == n)) [
    | inl same ↦
        let e : cached ≡ range_from 0 n = h ∙ ap (range_from 0) (ground arith) in
        rw same (λ i. returns (e i, broadcast_by (e i)))
    | inr other ↦ rw other
  ]

  range_full :
      (n : ℕ)
      → 0 < n
      → All (λ i. i < n) (range_from 0 n)
        × (0 < length (range_from 0 n))
        × IsSound {R = R} (broadcast_by (range_from 0 n))
        × Unit {0}
  range_full n pos = (
    All-map (range_from 0 n) (λ i h. omega (arith, h.1)) (range_from_bounds 0 n),
    rw length-range_from pos,
    rw length-range_from,
    tt,
  )

  -- With at least one channel every built-in partition answers channels that exist, at least one,
  -- and keeps its object sound.
  pub partition_in_range :
      (p : Partition R) (r : R) (n : ℕ)
      → 0 < n
      → IsSound p
      → IsBuiltIn p
      → Answers
          (partition hash_key p r n)
          (λ a. All (λ i. i < n) a.0 × (0 < length a.0) × IsSound a.1 × IsBuiltIn a.1)
  partition_in_range (broadcast_by cached) r n pos s b =
      rw (broadcast-lem cached r n s) (range_full n pos)
  partition_in_range key_by r n pos s b =
      unfold partition in rw (ne_zero n pos) ((mod_lt _ n pos, tt), omega arith, tt, tt)
  partition_in_range (round_robin_by seq) r n pos s b =
      unfold partition in rw (ne_zero n pos) ((mod_lt _ n pos, tt), omega arith, tt, tt)
  partition_in_range forward_to r n pos s b = unfold partition in ((pos, tt), omega arith, tt, tt)
  partition_in_range (simple_by func) r n pos s b = absurd b

  -- The answers for a run of records through one partition object.
  unfoldable pub answers : Partition R → ℕ → List R → List (List ℕ)
  answers p n [] = []
  answers p n (r ∷ rs) = elim (partition hash_key p r n) [
    | returns (now, p') ↦ now ∷ answers p' n rs
    | zero_division ↦ []
  ]

  round_robin_step :
      (seq n : ℕ) (r : R) (rs : List R)
      → 0 < n
      → answers (round_robin_by seq) n (r ∷ rs)
        ≡ (((seq + 1) % n) ∷ []) ∷ answers (round_robin_by ((seq + 1) % n)) n rs
  round_robin_step seq n r rs pos =
      let e : partition hash_key (round_robin_by seq) r n
          ≡ returns (((seq + 1) % n) ∷ [], round_robin_by ((seq + 1) % n)) =
        unfold partition in rw (ne_zero n pos) in
      unfold answers in rw (e, answers)

  round_robin-answers :
      (seq n : ℕ) (rs : List R) (i : ℕ)
      → 0 < n
      → i < length rs
      → get_elem? (answers (round_robin_by seq) n rs) i ≡ some (((seq + 1 + i) % n) ∷ [])
  round_robin-answers seq n [] i pos h = elim h [ ]
  round_robin-answers seq n (r ∷ rs) zero pos h =
      rw (round_robin_step seq n r rs pos) (ap (λ (k : ℕ). some ((k % n) ∷ [])) (omega arith))
  round_robin-answers seq n (r ∷ rs) (suc i) pos h = rw (round_robin_step seq n r rs pos) (
      round_robin-answers ((seq + 1) % n) n rs i pos (omega arith)
      ∙ ap (λ (k : ℕ). some (k ∷ [])) (mod_step seq i n))

  -- Round robin is fair: of `n` records in a row, whatever went before, each of the `n` channels
  -- gets one, and record `i` gets the channel `i` places after the next.
  pub round_robin_fair :
      (seq n : ℕ) (rs : List R) (channel : ℕ)
      → 0 < n
      → length rs ≡ n
      → channel < n
      → (i : ℕ) × (i < n)
        × (get_elem? (answers (round_robin_by seq) n rs) i ≡ some (channel ∷ []))
        × ((j : ℕ)
            → j < n
            → get_elem? (answers (round_robin_by seq) n rs) j ≡ some (channel ∷ [])
            → j ≡ i)
  round_robin_fair seq n rs channel pos len h =
      let (i, below, there, only) = round_places ((seq + 1) % n) n channel (mod_lt _ n pos) h in
      let answer : (j : ℕ)
          → j < n
          → get_elem? (answers (round_robin_by seq) n rs) j
            ≡ some ((((seq + 1) % n + j) % n) ∷ []) =
        λ j hj.
          round_robin-answers seq n rs j pos (omega arith)
          ∙ ap (λ (k : ℕ). some (k ∷ [])) (sym (mod-add-mod (seq + 1) n j)) in
      (
        i,
        below,
        answer i below ∙ ap (λ (k : ℕ). some (k ∷ [])) there,
        λ j hj e. only j hj (cc (answer j hj)),
      )
