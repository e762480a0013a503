-- ===== src/Transfer/Writer/InFlight/Kept.antt =====
-- local/data_writer.py: writing, sending and acknowledging, one after the other.
use volga.Prelude.{
  nat_eq, ℕ, ◌+◌, ◌≤◌, ◌==◌, ◌≡◌, sym, subst, Bool, Option, List, [], ◌∷◌, ◌++◌, length, Result, ok,
  ◌>>=◌, Result-cases, Option-cases, Bool-cases, All, All-map, In-append_left, append_assoc,
  append-nil, inl, inr, arith,
}
use volga.Prelude.Dict
use volga.Prelude.Dict.{Dict}
use volga.Buffers.Varint.{Bytes}
use volga.Buffers.Serializer.{Text, Codec, get_buffer_id}
use volga.Buffers.Tracker.{BufferMemoryTracker}
use volga.Buffers.Queues.{BufferingPolicy, append_msg, pop}
use volga.Transfer.Writer.{DataWriter, new_data_writer, write_message, send, on_ack, rcv_acks}
use volga.Transfer.Writer.InFlight.{
  InFlight, note_given, Accounted, OwnId, Tracked, send-Tracked, delete-Accounted,
}

-- What happens to a channel of the writer.
pub data Event (M : Type 0) : Type 0 where
  writes : M → ℕ → Event M
  sends : ℕ → ℕ → Event M
  gets_acks : List ℕ → Event M

pub record Record : Type 0 where
  pub writer : DataWriter
  pub given : List Bytes
  pub acked : List ℕ

module _ {M : Type 0} (codec : Codec M) (buffer_size : ℕ) (policy : BufferingPolicy)
    (channel_id : Text) (timeout limit : ℕ) where
  -- The writer after an event, with the buffers given to the socket so far and the ids acknowledged.
  unfoldable pub step : Event M → Record → Result Record
  unfolding note_given
  step (writes message now) r = do
    (w, taken) ← write_message codec buffer_size policy channel_id message now r.writer
    ok (record r { writer = w })
  step (sends t later) r = do
    (w, buffer) ← send timeout limit policy t later r.writer
    ok (record r { writer = w; given = note_given r.given buffer })
  step (gets_acks acks) r = do
    w ← rcv_acks channel_id acks r.writer
    ok (record r { writer = w; acked = r.acked ++ acks })

  unfoldable pub steps : List (Event M) → Record → Result Record
  unfolding step
  steps [] r = ok r
  steps (e ∷ es) r = do r' ← step e r; steps es r'

write-in_flight :
    {M : Type 0} (codec : Codec M) (size : ℕ) (policy : BufferingPolicy) (c : Text) (m : M)
    (now : ℕ) (w : DataWriter) {w' : DataWriter} {taken : Bool}
    → write_message codec size policy c m now w ≡ ok (w', taken)
    → w'.in_flight ≡ w.in_flight
unfolding write_message
write-in_flight codec size policy c m now w {w'} {taken} run =
    elim (Result-cases (append_msg codec size policy m c now w.queue w.tracker)) [
      | inl failed ↦ absurd (cc (rw (write_message, failed) at run))
      | inr ((q, tracker, res), e) ↦ cc (rw (write_message, e) at run)
    ]

-- More ids acknowledged.
more_acked :
    (in_flight : InFlight) (acked more : List ℕ) (b : Bytes)
    → Accounted in_flight acked b
    → Accounted in_flight (acked ++ more) b
unfolding Accounted
more_acked in_flight acked more b (id, is_id, inl there) = (id, is_id, inl there)
more_acked in_flight acked more b (id, is_id, inr done) =
    (id, is_id, inr (In-append_left id acked more done))

unacked-Tracked :
    (limit : ℕ) (given : List Bytes) (acked more : List ℕ) (in_flight : InFlight)
    → Tracked limit given acked in_flight
    → Tracked limit given (acked ++ more) in_flight
unacked-Tracked limit given acked more in_flight track = record {
  own_ids = track.own_ids;
  accounted = All-map given (more_acked in_flight acked more) track.accounted;
  bounded = track.bounded;
}

deleted-Tracked :
    (limit id : ℕ) (given : List Bytes) (acked : List ℕ) (in_flight : InFlight)
    → Tracked limit given acked in_flight
    → Tracked limit given (acked ++ id ∷ []) (Dict.delete id in_flight)
deleted-Tracked limit id given acked in_flight track = record {
  own_ids = Dict.All-delete OwnId id in_flight track.own_ids;
  accounted = All-map given (delete-Accounted id in_flight acked) track.accounted;
  bounded = omega (arith, Dict.length-delete id in_flight, track.bounded);
}

on_ack-Tracked :
    (limit : ℕ) (c : Text) (id : ℕ) (w : DataWriter) (given : List Bytes) (acked : List ℕ)
    {w' : DataWriter}
    → Tracked limit given acked w.in_flight
    → on_ack c id w ≡ ok w'
    → Tracked limit given (acked ++ id ∷ []) w'.in_flight
unfolding on_ack
on_ack-Tracked limit c id w given acked {w'} track run =
    elim (Option-cases (Dict.get id w.in_flight)) [
      | inl absent ↦
          let same : w ≡ w' = cc (rw (on_ack, absent) at run) in
          subst (λ (v : DataWriter). Tracked limit given (acked ++ id ∷ []) v.in_flight) same
            (unacked-Tracked limit given acked (id ∷ []) w.in_flight track)
      | inr (entry, found) ↦ elim (Result-cases (get_buffer_id entry.1)) [
        | inl failed ↦ absurd (cc (rw (on_ack, found, failed) at run))
        | inr (own_id, is_id) ↦ elim (Bool-cases (id == own_id)) [
          | inr other ↦ absurd (cc (rw (on_ack, found, is_id, other) at run))
          | inl own ↦ elim (Result-cases (pop c id w.queue w.tracker)) [
            | inl failed ↦ absurd (cc (rw (on_ack, found, is_id, own, failed) at run))
            | inr ((q, tracker), e) ↦
                let same : Dict.delete id w.in_flight ≡ w'.in_flight =
                  cc (rw (on_ack, found, is_id, own, e) at run) in
                subst (λ (d : InFlight). Tracked limit given (acked ++ id ∷ []) d) same
                  (deleted-Tracked limit id given acked w.in_flight track)
          ]
        ]
      ]
    ]

rcv_acks-Tracked :
    (limit : ℕ) (c : Text) (acks : List ℕ) (w : DataWriter) (given : List Bytes) (acked : List ℕ)
    {w' : DataWriter}
    → Tracked limit given acked w.in_flight
    → rcv_acks c acks w ≡ ok w'
    → Tracked limit given (acked ++ acks) w'.in_flight
unfolding rcv_acks
rcv_acks-Tracked limit c [] w given acked {w'} track run =
    let same : w ≡ w' = cc in
    rw (append-nil acked)
      (subst (λ (v : DataWriter). Tracked limit given acked v.in_flight) same track)
rcv_acks-Tracked limit c (ack ∷ acks) w given acked {w'} track run =
    elim (Result-cases (on_ack c ack w)) [
      | inl failed ↦ absurd (cc (rw (rcv_acks, failed) at run))
      | inr (w₁, e) ↦ rw (sym (append_assoc acked (ack ∷ []) acks)) (
          rcv_acks-Tracked limit c acks w₁ given (acked ++ ack ∷ [])
            (on_ack-Tracked limit c ack w given acked track e) (rw (rcv_acks, e) at run))
    ]

module _ {M : Type 0} (codec : Codec M) (size : ℕ) (policy : BufferingPolicy) (c : Text)
    (timeout limit : ℕ) where
  abbrev Good : Record → Type 0
  Good r = Tracked limit r.given r.acked r.writer.in_flight

  step-Good :
      (e : Event M) (r : Record) {r' : Record}
      → Good r
      → step codec size policy c timeout limit e r ≡ ok r'
      → Good r'
  unfolding step
  step-Good (writes m now) r {r'} good run =
      elim (Result-cases (write_message codec size policy c m now r.writer)) [
        | inl failed ↦ absurd (cc (rw (step, failed) at run))
        | inr ((w, taken), e) ↦
            let same : record r { writer = w } ≡ r' = cc (rw (step, e) at run) in
            subst Good same (
              subst (λ (d : InFlight). Tracked limit r.given r.acked d)
                (sym (write-in_flight codec size policy c m now r.writer e)) good)
      ]
  step-Good (sends t later) r {r'} good run =
      elim (Result-cases (send timeout limit policy t later r.writer)) [
        | inl failed ↦ absurd (cc (rw (step, failed) at run))
        | inr ((w, b), e) ↦
            let same : record r { writer = w; given = note_given r.given b } ≡ r' =
              cc (rw (step, e) at run) in
            subst Good same
              (send-Tracked timeout limit policy t later r.writer r.given r.acked good e)
      ]
  step-Good (gets_acks acks) r {r'} good run = elim (Result-cases (rcv_acks c acks r.writer)) [
    | inl failed ↦ absurd (cc (rw (step, failed) at run))
    | inr (w, e) ↦
        let same : record r { writer = w; acked = r.acked ++ acks } ≡ r' =
          cc (rw (step, e) at run) in
        subst Good same (rcv_acks-Tracked limit c acks r.writer r.given r.acked good e)
  ]

  steps-Good :
      (es : List (Event M)) (r : Record) {r' : Record}
      → Good r
      → steps codec size policy c timeout limit es r ≡ ok r'
      → Good r'
  unfolding steps
  steps-Good [] r {r'} good run = let same : r ≡ r' = cc in subst Good same good
  steps-Good (e ∷ es) r {r'} good run =
      elim (Result-cases (step codec size policy c timeout limit e r)) [
        | inl failed ↦ absurd (cc (rw (steps, failed) at run))
        | inr (r₁, first) ↦ steps-Good es r₁ (step-Good e r good first) (rw (steps, first) at run)
      ]

-- On a new writer, however writing, sending and acknowledgements follow one another without an
-- exception: every buffer that was ever given to the socket, whether the socket took it or not, is
-- still in flight under its own id, or its id was acknowledged; and no more buffers are in flight than
-- the limit and one.
pub sent_until_acknowledged :
    {M : Type 0} (codec : Codec M) (size : ℕ) (policy : BufferingPolicy) (c : Text)
    (timeout limit : ℕ) (tracker : Option BufferMemoryTracker) (es : List (Event M)) {r : Record}
    → steps codec size policy c timeout limit es
        (record { writer = new_data_writer tracker; given = []; acked = [] })
      ≡ ok r
    → All (Accounted r.writer.in_flight r.acked) r.given × (length r.writer.in_flight ≤ limit + 1)
sent_until_acknowledged codec size policy c timeout limit tracker es run =
    let good =
      steps-Good codec size policy c timeout limit es
        (record { writer = new_data_writer tracker; given = []; acked = [] })
        (record { own_ids = tt; accounted = tt; bounded = omega arith }) run in
    (good.accounted, good.bounded)
