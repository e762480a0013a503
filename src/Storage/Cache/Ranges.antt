-- ===== src/Storage/Cache/Ranges.antt =====
-- Range queries of the cache, and the buffer of the bulk sink (simple_in_memory_actor_storage.py).
use volga.Prelude.{
  ℕ, zero, suc, ◌<◌, ◌≡◌, refl, sym, ap, ◌∙◌, subst, true, some, List, [], ◌∷◌, ◌++◌, append_assoc,
  append-nil, ltb, length, get_elem?, arith, Option-cases, inl, inr, ◌⊎◌, Result-cases, raised, All,
}
use volga.Storage.{Keys}
use volga.Storage.Cache.{first_from, last_until, slice, BulkSink, sink_bulk, dump_buffer}

first_from-raised :
    {V : Type 0} (start : ℕ) (xs : List (ℕ × V))
    → All (λ ((t, v) : ℕ × V). t < start) xs
    → first_from start xs ≡ raised
unfolding first_from
first_from-raised start [] h = refl
first_from-raised start ((t, v) ∷ xs) h =
    let before : ltb t start ≡ true = ground (arith, h.0) in
    rw (before, first_from-raised start xs h.1) refl

late_at :
    {V : Type 0} (end i : ℕ) (xs : List (ℕ × V)) {x : ℕ × V}
    → All (λ ((t, v) : ℕ × V). end < t) xs
    → get_elem? xs i ≡ some x
    → end < x.0
late_at end i [] h found = cc
late_at end zero (y ∷ xs) {x} h found = let same : y ≡ x = cc in subst (λ z. end < z.0) same h.0
late_at end (suc i) (y ∷ xs) h found = late_at end i xs h.1 found

last_until-raised :
    {V : Type 0} (end i : ℕ) (xs : List (ℕ × V))
    → All (λ ((t, v) : ℕ × V). end < t) xs
    → last_until end i xs ≡ raised
unfolding last_until
last_until-raised end zero xs h = refl
last_until-raised end (suc i) xs h = elim (Option-cases (get_elem? xs i)) [
  | inl absent ↦ rw (absent, last_until) refl
  | inr ((t, v), found) ↦
      let late : ltb end t ≡ true = let lt = late_at end i xs h found in ground (arith, lt) in
      rw (found, last_until, late, last_until-raised end i xs h) refl
]

-- A query with a start and an end raises where all the values of the key are before its start, or
-- all of them are after its end; it does not answer that there are none.
pub out_of_range_raises :
    {V : Type 0} (xs : List (ℕ × V)) (start end : ℕ)
    → All (λ ((t, v) : ℕ × V). t < start) xs ⊎ All (λ ((t, v) : ℕ × V). end < t) xs
    → slice (some start) (some end) xs ≡ raised
unfolding slice
out_of_range_raises xs start end (inl before) = rw (first_from-raised start xs before) refl
out_of_range_raises xs start end (inr after) = elim (Result-cases (first_from start xs)) [
  | inl fails ↦ rw fails refl
  | inr (first, runs) ↦ rw (runs, last_until-raised end (length xs) xs after) refl
]

-- What happens to a bulk sink: a value, or a look of the dumper.
pub data Event (V : Type 0) : Type 0 where
  value : V → Event V
  dump : Event V

unfoldable pub flat : {A : Type 0} → List (List A) → List A
flat [] = []
flat (xs ∷ xss) = xs ++ flat xss

flat-snoc :
    {A : Type 0} (xss : List (List A)) (xs : List A) → flat (xss ++ xs ∷ []) ≡ flat xss ++ xs
unfolding flat
flat-snoc [] xs = append-nil xs
flat-snoc (ys ∷ xss) xs =
    ap (λ zs. ys ++ zs) (flat-snoc xss xs) ∙ sym (append_assoc ys (flat xss) xs)

module _ {V : Type 0} (keys_of : V → Keys) (ts_of : V → ℕ) where
  unfoldable pub run_sink : List (Event V) → BulkSink V → BulkSink V
  unfolding sink_bulk dump_buffer
  run_sink [] s = s
  run_sink (value v ∷ events) s = run_sink events (sink_bulk keys_of ts_of v s)
  run_sink (dump ∷ events) s = run_sink events (dump_buffer keys_of ts_of s)

  -- What was sent to the actor, call after call, and then what waits in the buffer.
  unfoldable pub all_of : BulkSink V → List (Keys × ℕ × V)
  unfolding flat
  all_of s = flat s.sent ++ s.buffer

  unfoldable pub records_of : List (Event V) → List (Keys × ℕ × V)
  records_of [] = []
  records_of (value v ∷ events) = (keys_of v, ts_of v, v) ∷ records_of events
  records_of (dump ∷ events) = records_of events

  sink-adds :
      (v : V) (s : BulkSink V)
      → all_of (sink_bulk keys_of ts_of v s) ≡ all_of s ++ (keys_of v, ts_of v, v) ∷ []
  unfolding all_of sink_bulk
  sink-adds v s = sym (append_assoc (flat s.sent) s.buffer ((keys_of v, ts_of v, v) ∷ []))

  dump-keeps :
      (sent : List (List (Keys × ℕ × V))) (buffer : List (Keys × ℕ × V))
      → let s : BulkSink V = record { buffer = buffer; sent = sent } in
        all_of (dump_buffer keys_of ts_of s) ≡ all_of s
  unfolding all_of dump_buffer
  dump-keeps sent [] = refl
  dump-keeps sent (x ∷ xs) = append-nil _ ∙ flat-snoc sent (x ∷ xs)

  run_sink-keeps :
      (events : List (Event V)) (s : BulkSink V)
      → all_of (run_sink events s) ≡ all_of s ++ records_of events
  unfolding run_sink records_of
  run_sink-keeps [] s = sym (append-nil _)
  run_sink-keeps (value v ∷ events) s =
      run_sink-keeps events (sink_bulk keys_of ts_of v s)
      ∙ ap (λ rs. rs ++ records_of events) (sink-adds v s)
      ∙ append_assoc (all_of s) ((keys_of v, ts_of v, v) ∷ []) (records_of events)
  run_sink-keeps (dump ∷ events) s =
      run_sink-keeps events (dump_buffer keys_of ts_of s)
      ∙ ap (λ rs. rs ++ records_of events) (dump-keeps s.sent s.buffer)

  pub bulk_sink_keeps :
      (events : List (Event V))
      → all_of (run_sink events (record { buffer = []; sent = [] })) ≡ records_of events
  unfolding all_of flat
  bulk_sink_keeps events = run_sink-keeps events (record { buffer = []; sent = [] })
