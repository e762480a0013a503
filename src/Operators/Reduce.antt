-- ===== src/Operators/Reduce.antt =====
-- `ReduceOperator` (operators.py) keeps, for each key, its values reduced in their order.
use volga.Prelude.{
  ℕ, Option, none, some, List, [], ◌∷◌, ◌++◌, if◌then◌else◌, Eq, ok, ◌≡◌, refl, sym, ap, ◌∙◌, subst,
  Bool-cases, append_assoc, append-nil, Option-cases, inl, inr, beq→eq, beq_refl,
}
use volga.Prelude.Dict
use volga.Prelude.Dict.{Dict}
use volga.Operators.{Record, reduce_operator, reduce_element, process_element, feed, unkeyed}

-- What a key's value becomes with one value more.
unfoldable pub absorb : {V : Type 0} → (V → V → V) → Option V → V → V
absorb f none v = v
absorb f (some old) v = f old v

module _ {V K : Type 0} where
  unfoldable pub with_keys : List (K × Record V K) → List (Record V K)
  with_keys [] = []
  with_keys ((k, r) ∷ rs) = record r { key = some k } ∷ with_keys rs

  unfoldable pub values : List (Record V K) → List (Option V)
  values [] = []
  values (r ∷ rs) = some r.value ∷ values rs

module _ {V K : Type 0} ⦃e : Eq K⦄ (f : V → V → V) where
  -- The value of a key after the records: its values, reduced from the first on.
  unfoldable pub reduced : K → Option V → List (K × Record V K) → Option V
  unfolding absorb
  reduced k start [] = start
  reduced k start ((j, r) ∷ rs) =
      if e.beq j k then reduced k (some (absorb f start r.value)) rs else reduced k start rs

  -- For each record, the values of its key up to it, reduced.
  unfoldable pub prefixes : List (K × Record V K) → List (K × Record V K) → List (Option V)
  unfolding reduced
  prefixes seen [] = []
  prefixes seen ((k, r) ∷ rs) =
      reduced k none (seen ++ (k, r) ∷ []) ∷ prefixes (seen ++ (k, r) ∷ []) rs

  reduced-snoc :
      (k j : K) (start : Option V) (r : Record V K) (seen : List (K × Record V K))
      → reduced k start (seen ++ (j, r) ∷ []) ≡ (
          if e.beq j k
          then some (absorb f (reduced k start seen) r.value)
          else reduced k start seen)
  unfolding reduced
  reduced-snoc k j start r [] = refl
  reduced-snoc k j start r ((i, x) ∷ seen) = elim (Bool-cases (e.beq i k)) [
    | inl same ↦ rw same (reduced-snoc k j (some (absorb f start x.value)) r seen)
    | inr other ↦ rw other (reduced-snoc k j start r seen)
  ]

  unfoldable pub Tracks : Dict K V → List (K × Record V K) → Type 0
  Tracks state seen = (k : K) → Dict.get k state ≡ reduced k none seen

  Tracks-put :
      (state : Dict K V) (seen : List (K × Record V K)) (k : K) (r : Record V K)
      → Tracks state seen
      → Tracks (Dict.put k (absorb f (Dict.get k state) r.value) state) (seen ++ (k, r) ∷ [])
  unfolding Tracks
  Tracks-put state seen k r h j =
      Dict.get-put k j (absorb f (Dict.get k state) r.value) state
      ∙ (elim (Bool-cases (e.beq k j)) [
        | inl same ↦
            let here = h k ∙ ap (λ c. reduced c none seen) (beq→eq k j same) in
            rw (same, here, reduced-snoc j k none r seen, same) refl
        | inr other ↦ rw (other, reduced-snoc j k none r seen, other) (h j)
      ])

module _ {V K : Type 0} ⦃e : Eq K⦄ (clock : ℕ → ℕ) (f : V → V → V) where
  reduce_element-absorbs :
      (state : Dict K V) (k : K) (r : Record V K)
      → (out : Record V K) × (reduce_element clock f state k r
          ≡ (reduce_operator f (Dict.put k (absorb f (Dict.get k state) r.value) state), out ∷ []))
        × (out.value ≡ absorb f (Dict.get k state) r.value)
  unfolding reduce_element absorb unkeyed
  reduce_element-absorbs state k r = elim (Option-cases (Dict.get k state)) [
    | inl absent ↦ (r, rw (absent, reduce_element, absorb) refl, rw (absent, absorb) refl)
    | inr (old, found) ↦ (
      unkeyed (f old r.value) r.event_time r.source_emit_ts,
      rw (found, reduce_element, absorb) refl,
      rw (found, absorb) refl,
    )
  ]

  reduce_from :
      (rs : List (K × Record V K)) (state : Dict K V) (seen : List (K × Record V K))
      → Tracks f state seen
      → (after : Dict K V) × (outs : List (Record V K)) × (feed
            (process_element clock)
            (reduce_operator f state)
            (with_keys rs)
          ≡ ok (reduce_operator f after, outs))
        × Tracks f after (seen ++ rs)
        × (values outs ≡ prefixes f seen rs)
  unfolding feed with_keys prefixes process_element values Tracks
  reduce_from [] state seen h =
      (state, [], refl, subst (Tracks f state) (sym (append-nil seen)) h, refl)
  reduce_from ((k, r) ∷ rs) state seen h =
      let (out, step, carries) = reduce_element-absorbs state k (record r { key = some k }) in
      let state1 = Dict.put k (absorb f (Dict.get k state) r.value) state in
      let (after, outs, run, tracks, vals) =
        reduce_from rs state1 (seen ++ (k, r) ∷ []) (Tracks-put f state seen k r h) in
      (
        after,
        out ∷ outs,
        rw (step, run) refl,
        subst (Tracks f after) (append_assoc seen ((k, r) ∷ []) rs) tracks,
        ap (λ v. v ∷ values outs)
              (ap some carries
                ∙ sym (reduced-snoc f k k none r seen ∙ rw (beq_refl k, sym (h k)) refl))
            ∙ ap (λ vs. reduced f k none (seen ++ (k, r) ∷ []) ∷ vs) vals,
      )

  -- Given records with keys, one after the other, `reduce` raises no error, keeps for every key its
  -- values reduced in their order, and collects for each record the reduced value of its key so far.
  pub reduce_lem :
      (rs : List (K × Record V K))
      → (after : Dict K V) × (outs : List (Record V K)) × (feed
            (process_element clock)
            (reduce_operator f [])
            (with_keys rs)
          ≡ ok (reduce_operator f after, outs))
        × ((k : K) → Dict.get k after ≡ reduced f k none rs)
        × (values outs ≡ prefixes f [] rs)
  unfolding Tracks reduced Dict.get
  reduce_lem rs = reduce_from rs [] [] (λ k. refl)
