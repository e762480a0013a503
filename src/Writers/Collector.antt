-- ===== src/Writers/Collector.antt =====
-- volga/streaming/runtime/core/collector/output_collector.py: `collect`, from the partitions that the
-- partition of the collector answered. The writer is a parameter: its state, and an attempt to write
-- a record to a channel.
use volga.Prelude.{
  ℕ, zero, suc, ◌+◌, ◌%◌, ◌≤◌, ◌<◌, ◌≡◌, refl, sym, subst, Bool, true, false, none, some, List, [],
  ◌∷◌, ◌++◌, length, get_elem?, Result, ok, raised, if◌then◌else◌, Bool-cases, inl, inr, append-nil,
  append_assoc, arith,
}
use native.Mathlib.Nat.{mod-lt}
use mathlib.Core.List.{Perm, perm-append_left_iff}
use mathlib.Core.List.Perm

-- `del partitions_to_send[i]`
unfoldable pub delete_at : List ℕ → ℕ → List ℕ
delete_at [] i = []
delete_at (p ∷ ps) zero = ps
delete_at (p ∷ ps) (suc i) = p ∷ delete_at ps i

-- A writer, with the partitions whose channels took the record so far.
pub record Sent (W : Type 0) : Type 0 where
  pub writer : W
  pub sent : List ℕ

module _ {W : Type 0} (try_write_record : ℕ → W → W × Bool) where
  -- The loop. `raised` stands for an index out of range, and for more attempts than the fuel.
  unfoldable pub send_loop : ℕ → List ℕ → ℕ → Sent W → Result (Sent W)
  send_loop fuel [] cur s = ok s
  send_loop zero (q ∷ qs) cur s = raised
  send_loop (suc fuel) (q ∷ qs) cur s = elim (get_elem? (q ∷ qs) cur) [
    | none ↦ raised
    | some p ↦
        let (writer', succ) = try_write_record p s.writer in
        let left = delete_at (q ∷ qs) cur in
        let after_success =
          send_loop fuel left ((cur + 1) % length left)
            (record { writer = writer'; sent = s.sent ++ p ∷ [] }) in
        let after_refusal =
          send_loop fuel (q ∷ qs) ((cur + 1) % length (q ∷ qs)) (record s { writer = writer' }) in
        if succ then after_success else after_refusal
  ]

  unfoldable pub collect : ℕ → List ℕ → W → Result (Sent W)
  unfolding send_loop
  collect fuel partitions writer =
      send_loop fuel partitions 0 (record { writer = writer; sent = [] })

-- `delete_at` takes away one place, and what stood there.
delete_at-length :
    (ps : List ℕ) (i : ℕ) {p : ℕ}
    → get_elem? ps i ≡ some p
    → length (delete_at ps i) + 1 ≡ length ps
unfolding delete_at
delete_at-length [] i h = absurd (cc)
delete_at-length (q ∷ qs) zero h = omega arith
delete_at-length (q ∷ qs) (suc i) h = omega (arith, delete_at-length qs i h)

delete_at-perm :
    (ps : List ℕ) (i : ℕ) {p : ℕ} → get_elem? ps i ≡ some p → Perm (p ∷ delete_at ps i) ps
unfolding delete_at
delete_at-perm [] i h = absurd (cc)
delete_at-perm (q ∷ qs) zero {p} h =
    let same : q ≡ p = cc in subst (λ (x : ℕ). Perm (x ∷ qs) (q ∷ qs)) same (Perm.refl (q ∷ qs))
delete_at-perm (q ∷ qs) (suc i) {p} h =
    Perm.trans (Perm.swap q p (delete_at qs i)) (Perm.cons q (delete_at-perm qs i h))

in_range-get : (ps : List ℕ) (i : ℕ) → i < length ps → (p : ℕ) × (get_elem? ps i ≡ some p)
in_range-get [] i h = absurd (omega arith)
in_range-get (q ∷ qs) zero h = (q, refl)
in_range-get (q ∷ qs) (suc i) h = in_range-get qs i (omega arith)

nothing_left : (ps : List ℕ) → Perm (ps ++ []) ps
nothing_left ps = subst (λ (x : List ℕ). Perm x ps) (sym (append-nil ps)) (Perm.refl ps)

module _ {W : Type 0} (try_write_record : ℕ → W → W × Bool) (patience : W → ℕ)
    (accepts : (p : ℕ) (w : W)
      → (try_write_record p w).1 ≡ true
      → patience (try_write_record p w).0 ≤ patience w)
    (refuses : (p : ℕ) (w : W)
      → (try_write_record p w).1 ≡ false
      → patience (try_write_record p w).0 < patience w) where
  send_loop-sends :
      (fuel : ℕ) (ps : List ℕ) (cur : ℕ) (s : Sent W)
      → length ps + patience s.writer ≤ fuel
      → (0 < length ps → cur < length ps)
      → (s' : Sent W) × (send_loop try_write_record fuel ps cur s ≡ ok s')
        × Perm (s.sent ++ ps) s'.sent
  unfolding send_loop
  send_loop-sends zero [] cur s enough inside = (s, refl, nothing_left s.sent)
  send_loop-sends (suc fuel) [] cur s enough inside = (s, refl, nothing_left s.sent)
  send_loop-sends zero (q ∷ qs) cur s enough inside = absurd (omega arith)
  send_loop-sends (suc fuel) (q ∷ qs) cur s enough inside =
      let (p, found) = in_range-get (q ∷ qs) cur (inside (omega arith)) in
      let w' = (try_write_record p s.writer).0 in
      elim (Bool-cases (try_write_record p s.writer).1) [
        | inl taken ↦
            let left = delete_at (q ∷ qs) cur in
            let less = delete_at-length (q ∷ qs) cur found in
            let s1 : Sent W = record { writer = w'; sent = s.sent ++ p ∷ [] } in
            let (s', run, perm) =
              send_loop-sends fuel left ((cur + 1) % length left) s1
                (omega (arith, accepts p s.writer taken)) (λ pos. mod-lt (cur + 1) pos) in
            let moved : Perm (s.sent ++ (q ∷ qs)) ((s.sent ++ p ∷ []) ++ left) =
              subst (Perm (s.sent ++ (q ∷ qs))) (sym (append_assoc s.sent (p ∷ []) left))
                ((perm-append_left_iff s.sent).1 (Perm.symm (delete_at-perm (q ∷ qs) cur found))) in
            (s', rw (found, send_loop, taken) run, Perm.trans moved perm)
        | inr refused ↦
            let s1 : Sent W = record s { writer = w' } in
            let (s', run, perm) =
              send_loop-sends fuel (q ∷ qs) ((cur + 1) % length (q ∷ qs)) s1
                (omega (arith, refuses p s.writer refused)) (λ pos. mod-lt (cur + 1) pos) in
            (s', rw (found, send_loop, refused) run, perm)
      ]

  -- Where a refusal uses up some of a patience that no accepted record brings back, `collect` ends
  -- within as many attempts as there are partitions and patience, and the record went to the channel
  -- of every partition as often as the partition stands among them, and to no other.
  pub collect_lem :
      (partitions : List ℕ) (writer : W) (fuel : ℕ)
      → length partitions + patience writer ≤ fuel
      → (s : Sent W) × (collect try_write_record fuel partitions writer ≡ ok s)
        × Perm partitions s.sent
  unfolding collect
  collect_lem partitions writer fuel enough =
      send_loop-sends fuel partitions 0 (record { writer = writer; sent = [] }) enough (λ pos. pos)
