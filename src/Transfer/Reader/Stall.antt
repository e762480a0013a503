-- ===== src/Transfer/Reader/Stall.antt =====
-- data_reader.py: a buffer that was stored for want of memory is not put in the output queue when it
-- comes again, although there is memory by then.
use volga.Prelude.{
  nat_eq, ℕ, ◌≡◌, refl, ap, ◌∙◌, ◌==◌, true, ◌&&◌, ◌||◌, not, some, List, [], ◌∷◌, ◌++◌, length,
  Result, ok, ◌>>=◌, ltb, All, All-map, ◌⊎◌, Bool-cases, inl, inr,
}
use volga.Prelude.Dict
use volga.Prelude.Dict.{Dict}
use volga.Buffers.Varint.{Bytes}
use volga.Buffers.Serializer.{Text, get_buffer_id}
use volga.Transfer.Reader.{DataReader, on_buffer, rcv}
use volga.Transfer.Reader.Memory.{has_memory_total}

module _ (name : Text) where
  -- Buffers that come one after the other.
  unfoldable pub rcv_all : List Bytes → DataReader → Result DataReader
  rcv_all [] r = ok r
  rcv_all (b ∷ bs) r = do r' ← rcv name (some b) r; rcv_all bs r'

  -- The buffer with this id was put in the output queue before, or is stored.
  abbrev pub IsKnown : DataReader → Bytes → Type 0
  IsKnown r b =
      (i : ℕ) × (get_buffer_id b ≡ ok i)
      × ((ltb i r.next_wm ≡ true) ⊎ (Dict.has i r.out_of_order ≡ true))

  -- The state but for the acknowledgements and the tracker.
  pub record Same (r r' : DataReader) : Type 0 where
    pub queue : r'.output_queue ≡ r.output_queue
    pub watermark : r'.next_wm ≡ r.next_wm
    pub stored : r'.out_of_order ≡ r.out_of_order

  rcv-Same :
      (b : Bytes) (r : DataReader)
      → IsKnown r b
      → (r' : DataReader) × (rcv name (some b) r ≡ ok r') × Same r r'
  unfolding rcv on_buffer
  rcv-Same b r (i, is_id, known) =
      let (t, has_mem, looked) = has_memory_total name r.tracker in
      let r1 : DataReader = record r { tracker = t } in
      let again : DataReader = record r1 { ack_queue = r.ack_queue ++ i ∷ [] } in
      elim (Bool-cases
        ((length r.out_of_order == 0 || Dict.has r.next_wm r.out_of_order) && not has_mem)) [
          | inl full ↦
              (r1, rw (looked, full) refl, record { queue = refl; watermark = refl; stored = refl })
          | inr room ↦
              let same : Same r again = record { queue = refl; watermark = refl; stored = refl } in
              elim (Bool-cases (ltb i r.next_wm)) [
                | inl old ↦ (again, rw (looked, room, is_id, old) refl, same)
                | inr new ↦ elim known [
                  | inl old ↦ absurd (cc)
                  | inr has ↦ (again, rw (looked, room, is_id, new, has) refl, same)
                ]
              ]
        ]

  IsKnown-Same : (r r' : DataReader) (b : Bytes) → Same r r' → IsKnown r b → IsKnown r' b
  IsKnown-Same r r' b same (i, is_id, inl old) = (i, is_id, inl (ap (ltb i) same.watermark ∙ old))
  IsKnown-Same r r' b same (i, is_id, inr has) = (i, is_id, inr (ap (Dict.has i) same.stored ∙ has))

  pub stored_never_delivered :
      (bs : List Bytes) (r : DataReader)
      → Dict.has r.next_wm r.out_of_order ≡ true
      → All (IsKnown r) bs
      → (r' : DataReader) × (rcv_all bs r ≡ ok r')
        × (r'.output_queue ≡ r.output_queue)
        × (r'.next_wm ≡ r.next_wm)
        × (Dict.has r'.next_wm r'.out_of_order ≡ true)
  unfolding rcv_all
  stored_never_delivered [] r waits known = (r, refl, refl, refl, waits)
  stored_never_delivered (b ∷ bs) r waits known =
      let (r1, run, same) = rcv-Same b r known.0 in
      let (r', rest, queue, watermark, waits') =
        stored_never_delivered bs r1
          (ap (λ (n : ℕ). Dict.has n r1.out_of_order) same.watermark
            ∙ ap (Dict.has r.next_wm) same.stored
            ∙ waits)
          (All-map bs (λ x h. IsKnown-Same r r1 x same h) known.1) in
      (r', rw run rest, queue ∙ same.queue, watermark ∙ same.watermark, waits')
