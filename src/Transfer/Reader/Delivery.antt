-- ===== src/Transfer/Reader/Delivery.antt =====
-- data_reader.py: whatever order buffers come in, and however often, the output queue has them in the
-- order of their ids, each once.
pub mod Drained
use volga.Prelude.{
  nat_eq, ℕ, zero, suc, ◌+◌, ◌-◌, ◌≡◌, refl, sym, ap, ◌∙◌, subst, ◌==◌, Bool, true, false, ◌&&◌,
  ◌||◌, not, Option, none, some, List, [], ◌∷◌, ◌++◌, append_assoc, length, Result, ok, raised,
  ◌>>=◌, Result-cases, if◌then◌else◌, ltb, leb, All, Bool-cases, Option-cases, inl, inr, arith,
}
use volga.Prelude.Dict
use volga.Prelude.Dict.{Dict}
use volga.Buffers.Varint.{Bytes}
use volga.Buffers.Serializer.{Text, Codec, get_buffer_id, deser}
use volga.Buffers.Tracker.{text_eq, BufferMemoryTracker, capacity, try_acquire, release}
use volga.Transfer.Reader.Memory.{has_memory_total}
use volga.Transfer.Reader.{
  DataReader, new_data_reader, Sequential, put_next, put_in_order, delete_all, accept, on_buffer,
  has_memory, rcv, read_message,
}

All-delete_all {κ} :
    (P : ℕ × Bytes → Type κ) (ids : List ℕ) (d : Dict ℕ Bytes) → All P d → All P (delete_all ids d)
unfolding delete_all
All-delete_all P [] d h = h
All-delete_all P (id ∷ ids) d h = All-delete_all P ids (Dict.delete id d) (Dict.All-delete P id d h)

-- What a sender sends: the buffer with each id.
module _ (name : Text) (stream : ℕ → Bytes) (ids : (i : ℕ) → get_buffer_id (stream i) ≡ ok i) where
  abbrev pub first_buffers : ℕ → List Bytes
  first_buffers zero = []
  first_buffers (suc n) = first_buffers n ++ stream n ∷ []

  -- What was handed out and what is in the queue are the first buffers, up to the watermark.
  pub record InOrder (taken : List Bytes) (r : DataReader) : Type 0 where
    pub queued : taken ++ r.output_queue ≡ first_buffers r.next_wm
    pub genuine : All (λ ((i, b) : ℕ × Bytes). b ≡ stream i) r.out_of_order

  put_next-first_buffers :
      (buffer_id : ℕ) (b : Bytes) (memory : BufferMemoryTracker) (taken : List Bytes)
      (s : Sequential)
      → b ≡ stream s.next
      → taken ++ s.queue ≡ first_buffers s.next
      → taken ++ (put_next buffer_id b memory s).queue
        ≡ first_buffers (put_next buffer_id b memory s).next
  unfolding put_next
  put_next-first_buffers buffer_id b memory taken s is_next queued =
      let one_on : suc s.next ≡ s.next + 1 = omega arith in
      sym (append_assoc taken s.queue (b ∷ []))
      ∙ ap (λ (q : List Bytes). q ++ b ∷ []) queued
      ∙ ap (λ (x : Bytes). first_buffers s.next ++ x ∷ []) is_next
      ∙ ap first_buffers one_on

  put_in_order-first_buffers :
      (rounds buffer_id : ℕ) (stored : Dict ℕ Bytes) (taken : List Bytes) (s : Sequential)
      → All (λ ((i, b) : ℕ × Bytes). b ≡ stream i) stored
      → taken ++ s.queue ≡ first_buffers s.next
      → taken ++ (put_in_order name rounds buffer_id stored s).queue
        ≡ first_buffers (put_in_order name rounds buffer_id stored s).next
  unfolding put_in_order
  put_in_order-first_buffers zero buffer_id stored taken s genuine queued = queued
  put_in_order-first_buffers (suc rounds) buffer_id stored taken s genuine queued =
      elim (Option-cases (Dict.get s.next stored)) [
        | inl absent ↦ rw (absent, put_in_order) queued
        | inr (b, found) ↦ elim (Bool-cases (try_acquire name 1 false s.memory).1) [
          | inr refused ↦ rw (found, put_in_order, refused) queued
          | inl granted ↦
              let memory = (try_acquire name 1 false s.memory).0 in
              let is_next =
                Dict.All-get (λ ((i, b) : ℕ × Bytes). b ≡ stream i) s.next stored genuine found in
              rw (found, put_in_order, granted)
                (put_in_order-first_buffers rounds buffer_id stored taken
                  (put_next buffer_id b memory s) genuine
                  (put_next-first_buffers buffer_id b memory taken s is_next queued))
        ]
      ]

  accept-InOrder :
      (i : ℕ) (taken : List Bytes) (r : DataReader)
      → InOrder taken r
      → InOrder taken (accept name i (stream i) r)
  unfolding accept
  accept-InOrder i taken r o =
      let P : ℕ × Bytes → Type 0 = λ ((i, b) : ℕ × Bytes). b ≡ stream i in
      let stored = Dict.put i (stream i) r.out_of_order in
      let genuine : All P stored = Dict.All-put P i (stream i) r.out_of_order refl o.genuine in
      record {
        queued = put_in_order-first_buffers (length stored) i stored taken _ genuine o.queued;
        genuine = All-delete_all P _ stored genuine;
      }

  on_buffer-InOrder :
      (i : ℕ) (taken : List Bytes) (r : DataReader)
      → InOrder taken r
      → (r' : DataReader) × (on_buffer name (stream i) r ≡ ok r') × InOrder taken r'
  unfolding on_buffer
  on_buffer-InOrder i taken r o =
      let again : DataReader = record r { ack_queue = r.ack_queue ++ i ∷ [] } in
      let kept : InOrder taken again = record { queued = o.queued; genuine = o.genuine } in
      elim (Bool-cases (ltb i r.next_wm)) [
        | inl old ↦ (again, rw (ids i, old) refl, kept)
        | inr new ↦ elim (Bool-cases (Dict.has i r.out_of_order)) [
          | inl known ↦ (again, rw (ids i, new, known) refl, kept)
          | inr fresh ↦
              (accept name i (stream i) r, rw (ids i, new, fresh) refl, accept-InOrder i taken r o)
        ]
      ]

  unfoldable pub arrived : Option ℕ → Option Bytes
  arrived none = none
  arrived (some i) = some (stream i)

  pub rcv-InOrder :
      (id : Option ℕ) (taken : List Bytes) (r : DataReader)
      → InOrder taken r
      → (r' : DataReader) × (rcv name (arrived id) r ≡ ok r') × InOrder taken r'
  unfolding rcv arrived
  rcv-InOrder id taken r o =
      let (t, has_mem, looked) = has_memory_total name r.tracker in
      let r1 : DataReader = record r { tracker = t } in
      let kept : InOrder taken r1 = record { queued = o.queued; genuine = o.genuine } in
      elim (Bool-cases
        ((length r.out_of_order == 0 || Dict.has r.next_wm r.out_of_order) && not has_mem)) [
          | inl full ↦ (r1, rw (looked, full) refl, kept)
          | inr room ↦ taken_in id t has_mem looked room kept
        ]
    where
      taken_in :
          (id : Option ℕ) (t : BufferMemoryTracker) (has_mem : Bool)
          → has_memory name r.tracker ≡ ok (t, has_mem)
          → ((length r.out_of_order == 0 || Dict.has r.next_wm r.out_of_order) && not has_mem)
            ≡ false
          → InOrder taken (record r { tracker = t })
          → (r' : DataReader) × (rcv name (arrived id) r ≡ ok r') × InOrder taken r'
      taken_in none t has_mem looked room kept =
          (record r { tracker = t }, rw (looked, room) refl, kept)
      taken_in (some i) t has_mem looked room kept =
          let (r', run, o') = on_buffer-InOrder i taken (record r { tracker = t }) kept in
          (r', rw (looked, room) run, o')

  -- What happens to a reader: the socket has the buffer with an id, or nothing, or a message is read.
  pub data Event : Type 0 where
    comes : Option ℕ → Event
    is_read : Event

  module _ {M : Type 0} (codec : Codec M) where
    -- The state together with the buffers that were handed out.
    unfoldable pub happens : Event → List Bytes × DataReader → Result (List Bytes × DataReader)
    happens (comes id) (taken, r) = do r' ← rcv name (arrived id) r; ok (taken, r')
    happens is_read (taken, r) = do
      (r', msgs) ← read_message name codec r
      ok (elim r.output_queue [ [] ↦ taken | b ∷ queue ↦ taken ++ b ∷ [] ], r')

    unfoldable pub all_happen :
        List Event → List Bytes × DataReader → Result (List Bytes × DataReader)
    unfolding happens
    all_happen [] s = ok s
    all_happen (e ∷ es) s = do s' ← happens e s; all_happen es s'

    read-InOrder :
        (taken : List Bytes) (r : DataReader) {taken' : List Bytes} {r' : DataReader}
        → InOrder taken r
        → happens is_read (taken, r) ≡ ok (taken', r')
        → InOrder taken' r'
    unfolding happens read_message
    read-InOrder taken r {taken'} {r'} o h = by_queue r.output_queue refl
      where
        by_queue : (q : List Bytes) → q ≡ r.output_queue → InOrder taken' r'
        by_queue [] e =
            let done = rw (← e, happens, read_message) at h in
            let is_taken : taken ≡ taken' = cc in
            let is_r : r ≡ r' = cc in
            subst (λ (x : List Bytes). InOrder x r') is_taken (subst (InOrder taken) is_r o)
        by_queue (b ∷ q) e = elim (Result-cases (release name 1 r.tracker)) [
          | inl failed ↦ absurd (cc (rw (← e, failed, happens, read_message) at h))
          | inr (t, freed) ↦ elim (Result-cases (deser codec b)) [
            | inl failed ↦ absurd (cc (rw (← e, freed, failed, happens, read_message) at h))
            | inr (msgs, read) ↦
                let done = rw (← e, freed, read, happens, read_message) at h in
                let is_taken : taken ++ b ∷ [] ≡ taken' = cc in
                let rest : DataReader = record r { output_queue = q; tracker = t } in
                let is_r : rest ≡ r' = cc in
                let o' : InOrder (taken ++ b ∷ []) rest = record {
                  queued =
                      append_assoc taken (b ∷ []) q
                      ∙ ap (λ (x : List Bytes). taken ++ x) e
                      ∙ o.queued;
                  genuine = o.genuine;
                } in
                subst (λ (x : List Bytes). InOrder x r') is_taken
                  (subst (InOrder (taken ++ b ∷ [])) is_r o')
          ]
        ]

    happens-InOrder :
        (e : Event) (taken : List Bytes) (r : DataReader) {taken' : List Bytes} {r' : DataReader}
        → InOrder taken r
        → happens e (taken, r) ≡ ok (taken', r')
        → InOrder taken' r'
    unfolding happens
    happens-InOrder is_read taken r o h = read-InOrder taken r o h
    happens-InOrder (comes id) taken r {taken'} {r'} o h =
        let (r1, run, o1) = rcv-InOrder id taken r o in
        let done = rw (run, happens) at h in
        let is_taken : taken ≡ taken' = cc in
        let is_r : r1 ≡ r' = cc in
        subst (λ (x : List Bytes). InOrder x r') is_taken (subst (InOrder taken) is_r o1)

    all_happen-InOrder :
        (es : List Event) (taken : List Bytes) (r : DataReader) {taken' : List Bytes}
        {r' : DataReader}
        → InOrder taken r
        → all_happen es (taken, r) ≡ ok (taken', r')
        → InOrder taken' r'
    unfolding all_happen
    all_happen-InOrder [] taken r {taken'} {r'} o h =
        let is_taken : taken ≡ taken' = cc in
        let is_r : r ≡ r' = cc in
        subst (λ (x : List Bytes). InOrder x r') is_taken (subst (InOrder taken) is_r o)
    all_happen-InOrder (e ∷ es) taken r o h = elim (Result-cases (happens e (taken, r))) [
      | inl failed ↦ absurd (cc (rw (failed, all_happen) at h))
      | inr ((taken1, r1), run) ↦
          all_happen-InOrder es taken1 r1 (happens-InOrder e taken r o run)
            (rw (run, all_happen) at h)
    ]

    -- However often and in whatever order buffers come, and whenever a message is read, while no read
    -- raises, the buffers handed out and then those in the output queue are the sender's buffers from
    -- the first on, in the order of their ids, each once and with no gap; and taking in one more, or
    -- finding none, never raises.
    pub delivered_in_order :
        (es : List Event) (tracker : BufferMemoryTracker) {taken : List Bytes} {r : DataReader}
        → all_happen es ([], new_data_reader tracker) ≡ ok (taken, r)
        → (taken ++ r.output_queue ≡ first_buffers r.next_wm)
          × ((id : Option ℕ) → (r' : DataReader) × (rcv name (arrived id) r ≡ ok r'))
    delivered_in_order es tracker {taken} {r} h =
        let o =
          all_happen-InOrder es [] (new_data_reader tracker)
            (record { queued = refl; genuine = tt }) h in
        (o.queued, λ id. let (r', run, o') = rcv-InOrder id taken r o in (r', run))
