-- ===== src/Operators/Chain.antt =====
-- `ChainedOneInputOperator` (chained.py) does what its operators do one after the other.
use volga.Prelude.{
  ℕ, zero, suc, ◌≤◌, ◌≡◌, refl, sym, ap, ◌∙◌, List, [], ◌∷◌, ◌++◌, append_assoc, arith, Eq, Result,
  ok, ◌>>=◌, Result-cases, inl, inr, length,
}
use volga.Operators.{Record, OneInput, process_element, feed, forward, process_chained}

module _ {S R Q : Type 0} (f : S → R → Result (S × List Q)) where
  feed-append :
      (s : S) (xs ys : List R)
      → feed f s (xs ++ ys)
        ≡ (do first ← feed f s xs; rest ← feed f first.0 ys; ok (rest.0, first.1 ++ rest.1))
  unfolding feed
  feed-append s [] ys = elim (Result-cases (feed f s ys)) [
    | inl fails ↦ rw fails refl
    | inr (out, runs) ↦ rw runs refl
  ]
  feed-append s (x ∷ xs) ys = elim (Result-cases (f s x)) [
    | inl fails ↦ rw fails refl
    | inr (out, runs) ↦
        rw (runs, feed-append out.0 xs ys)
          (elim (Result-cases (feed f out.0 xs)) [
            | inl fails ↦ rw fails refl
            | inr (mid, then_runs) ↦ elim (Result-cases (feed f mid.0 ys)) [
              | inl fails ↦ rw (then_runs, fails) refl
              | inr (last, last_runs) ↦
                  rw (then_runs, last_runs)
                    (ap (λ qs. ok (last.0, qs)) (sym (append_assoc out.1 mid.1 last.1)))
            ]
          ])
  ]

module _ {V K : Type 0} ⦃e : Eq K⦄ (clock : ℕ → ℕ) where
  -- A list of records goes through the head first, and then through the rest of the chain.
  forward-split :
      (n : ℕ) (op : OneInput V K) (ops : List (OneInput V K)) (rs : List (Record V K))
      → feed (forward clock (suc n)) (op ∷ ops) rs ≡ (do
        head ← feed (process_element clock) op rs
        rest ← feed (forward clock n) ops head.1
        ok (head.0 ∷ rest.0, rest.1))
  unfolding feed forward
  forward-split n op ops [] = refl
  forward-split n op ops (r ∷ rs) = elim (Result-cases (process_element clock op r)) [
    | inl fails ↦ rw fails refl
    | inr (head, runs) ↦ elim (Result-cases (feed (forward clock n) ops head.1)) [
      | inl fails ↦ elim (Result-cases (feed (process_element clock) head.0 rs)) [
        | inl more_fails ↦ rw (runs, fails, more_fails) refl
        | inr (more, more_run) ↦
            rw (runs, fails, more_run, feed-append (forward clock n) ops head.1 more.1, fails) refl
      ]
      | inr (rest, rest_runs) ↦
          rw (runs, rest_runs, forward-split n head.0 rest.0 rs)
            (elim (Result-cases (feed (process_element clock) head.0 rs)) [
              | inl more_fails ↦ rw more_fails refl
              | inr (more, more_run) ↦
                  rw (more_run, feed-append (forward clock n) ops head.1 more.1, rest_runs)
                    (elim (Result-cases (feed (forward clock n) rest.0 more.1)) [
                      | inl last_fails ↦ rw last_fails refl
                      | inr (last, last_runs) ↦ rw last_runs refl
                    ])
            ])
    ]
  ]

  -- The operators as separate tasks: each one gets all that the one before it collected.
  unfoldable pub pipeline :
      List (OneInput V K) → List (Record V K) → Result (List (OneInput V K) × List (Record V K))
  unfolding feed process_element
  pipeline [] rs = ok ([], rs)
  pipeline (op ∷ ops) rs = do
    head ← feed (process_element clock) op rs
    rest ← pipeline ops head.1
    ok (head.0 ∷ rest.0, rest.1)

  feed-none : (n : ℕ) (rs : List (Record V K)) → feed (forward clock n) [] rs ≡ ok ([], rs)
  unfolding feed forward
  feed-none n [] = refl
  feed-none n (r ∷ rs) = rw (feed-none n rs) refl

  forward-pipeline :
      (n : ℕ) (ops : List (OneInput V K)) (rs : List (Record V K))
      → length ops ≤ n
      → feed (forward clock n) ops rs ≡ pipeline ops rs
  unfolding pipeline
  forward-pipeline n [] rs h = feed-none n rs
  forward-pipeline zero (op ∷ ops) rs h = absurd (omega arith)
  forward-pipeline (suc n) (op ∷ ops) rs h =
      forward-split n op ops rs ∙ elim (Result-cases (feed (process_element clock) op rs)) [
        | inl fails ↦ rw fails refl
        | inr (head, runs) ↦ rw (runs, forward-pipeline n ops head.1 (omega arith)) refl
      ]

  pipeline-length :
      (ops : List (OneInput V K)) (rs : List (Record V K))
      {out : List (OneInput V K) × List (Record V K)}
      → pipeline ops rs ≡ ok out
      → length out.0 ≡ length ops
  unfolding pipeline
  pipeline-length [] rs {out} h =
      let same : ([], rs) ≡ out = cc in
      ap (λ ((o, q) : List (OneInput V K) × List (Record V K)). length o) (sym same)
  pipeline-length (op ∷ ops) rs {out} h = elim (Result-cases (feed (process_element clock) op rs)) [
    | inl fails ↦ cc (rw fails at h)
    | inr (head, runs) ↦ elim (Result-cases (pipeline ops head.1)) [
      | inl fails ↦ cc (rw (runs, fails) at h)
      | inr (rest, rest_runs) ↦
          let same : (head.0 ∷ rest.0, rest.1) ≡ out = cc (rw (runs, rest_runs) at h) in
          ap (λ ((o, q) : List (OneInput V K) × List (Record V K)). length o) (sym same)
          ∙ ap suc (pipeline-length ops head.1 rest_runs)
    ]
  ]

  forward-length :
      (ops : List (OneInput V K)) (r : Record V K) {out : List (OneInput V K) × List (Record V K)}
      → forward clock (length ops) ops r ≡ ok out
      → length out.0 ≡ length ops
  unfolding feed
  forward-length ops r {out} h =
      let fed : feed (forward clock (length ops)) ops (r ∷ []) ≡ ok (out.0, out.1 ++ []) =
        rw h refl in
      pipeline-length ops (r ∷ [])
        (sym (forward-pipeline (length ops) ops (r ∷ []) (omega arith)) ∙ fed)

  feed-process_chained :
      (ops : List (OneInput V K)) (rs : List (Record V K))
      → feed (process_chained clock) ops rs ≡ feed (forward clock (length ops)) ops rs
  unfolding feed process_chained
  feed-process_chained ops [] = refl
  feed-process_chained ops (r ∷ rs) = elim (Result-cases (forward clock (length ops) ops r)) [
    | inl fails ↦ rw fails refl
    | inr (out, runs) ↦
        let rest =
          feed-process_chained out.0 rs
          ∙ ap (λ (n : ℕ). feed (forward clock n) out.0 rs) (forward-length ops r runs) in
        rw (runs, rest) refl
  ]

  -- A chained operator does to any sequence of records what its operators do as separate tasks, where
  -- each gets all that the one before it collected: the same operators' states after it, the same
  -- records out in the same order, and a failure exactly where the separate tasks have one.
  pub chained_is_pipeline :
      (ops : List (OneInput V K)) (rs : List (Record V K))
      → feed (process_chained clock) ops rs ≡ pipeline ops rs
  chained_is_pipeline ops rs =
      feed-process_chained ops rs ∙ forward-pipeline (length ops) ops rs (omega arith)
