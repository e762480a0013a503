-- ===== src/Sources/Bounded.antt =====
-- A source with a bound (`SourceContextImpl.collect` in operators.py): when it is finished.
use volga.Prelude.{
  ℕ, ◌+◌, ◌%◌, ◌==◌, ◌≡◌, refl, ap, ◌∙◌, Bool, true, false, ◌&&◌, Option, none, some, List, [], ◌∷◌,
  if◌then◌else◌, leb, ltb, length, arith, Bool-cases, inl, inr,
}
use volga.Operators.{Record, unkeyed}
use volga.Prelude.{ok}
use volga.Sources.{open_source, SourceContext, new_source_context, reached, collect}

-- Whether each record carries its emission time: every 100th does.
unfoldable pub sampled : {V : Type 0} → ℕ → List V → List Bool
sampled fetched [] = []
sampled fetched (v ∷ vs) = ((fetched + 1) % 100 == 0) ∷ sampled (fetched + 1) vs

unfoldable pub has_emit_ts : {V K : Type 0} → List (Record V K) → List Bool
has_emit_ts [] = []
has_emit_ts (r ∷ rs) = elim r.source_emit_ts [ some t ↦ true | none ↦ false ] ∷ has_emit_ts rs

module _ {V : Type 0} (D K : Type 0) (assign_timestamp : Option (V → Option ℕ))
    (clock : ℕ → ℕ) where
  -- Collects values one after the other. The clock's reading is that of the number of the record.
  unfoldable pub collect_all : List V → SourceContext D → List (Record V K) × SourceContext D
  unfolding collect
  collect_all [] ctx = ([], ctx)
  collect_all (v ∷ vs) ctx =
      let now = clock ctx.num_fetched_records in
      let (r, next) = collect {K = K} assign_timestamp now now v ctx in
      let (rs, after) = collect_all vs next in (r ∷ rs, after)

  fetched-collect_all :
      (vs : List V) (ctx : SourceContext D)
      → (collect_all vs ctx).1.num_fetched_records ≡ ctx.num_fetched_records + length vs
  unfolding collect_all collect
  fetched-collect_all [] ctx = omega arith
  fetched-collect_all (v ∷ vs) ctx =
      let now = clock ctx.num_fetched_records in
      omega (arith, fetched-collect_all vs (collect {K = K} assign_timestamp now now v ctx).1)

  finished-collect_all :
      (vs : List V) (ctx : SourceContext D) (bound : ℕ)
      → ctx.num_records ≡ some bound
      → (collect_all vs ctx).1.finished ≡ (
          if ltb ctx.num_fetched_records bound && leb bound (ctx.num_fetched_records + length vs)
          then true
          else ctx.finished)
  unfolding collect_all collect
  finished-collect_all [] ctx bound h =
      let no : (ltb ctx.num_fetched_records bound && leb bound (ctx.num_fetched_records + 0))
          ≡ false =
        ground arith in
      rw no refl
  finished-collect_all (v ∷ vs) ctx bound h =
      let fetched = ctx.num_fetched_records + 1 in
      let now = clock ctx.num_fetched_records in
      let next : SourceContext D = (collect {K = K} assign_timestamp now now v ctx).1 in
      let ih = finished-collect_all vs next bound h in
      let at_bound : reached ctx.num_records fetched ≡ (bound == fetched) =
        ap (λ o. reached o fetched) h in
      ih ∙ rw at_bound (ground arith)

  sampled-collect_all :
      (vs : List V) (ctx : SourceContext D)
      → has_emit_ts (collect_all vs ctx).0 ≡ sampled ctx.num_fetched_records vs
  unfolding collect_all collect sampled has_emit_ts unkeyed
  sampled-collect_all [] ctx = refl
  sampled-collect_all (v ∷ vs) ctx =
      let now = clock ctx.num_fetched_records in
      let next : SourceContext D = (collect {K = K} assign_timestamp now now v ctx).1 in
      let ih = sampled-collect_all vs next in
      elim (Bool-cases ((ctx.num_fetched_records + 1) % 100 == 0)) [
        | inl hundredth ↦ rw hundredth (ap (λ bs. true ∷ bs) ih)
        | inr between ↦ rw between (ap (λ bs. false ∷ bs) ih)
      ]

  -- A source with a bound counts what it collects, is finished exactly from its bound on where the
  -- bound is positive, and never where it is 0; exactly every 100th record carries an emission time.
  pub bounded_source :
      (vs : List V) (bound : ℕ)
      → let (records, after) = collect_all vs (open_source (ok bound)) in
        (after.num_fetched_records ≡ length vs)
        × (after.finished ≡ (ltb 0 bound && leb bound (length vs)))
        × (has_emit_ts records ≡ sampled 0 vs)
  unfolding open_source
  bounded_source vs bound =
      let fresh : SourceContext D = new_source_context (some bound) in
      let finished = finished-collect_all vs fresh bound refl in
      let count = fetched-collect_all vs fresh in
      (omega (arith, count), finished ∙ ground arith, sampled-collect_all vs fresh)
