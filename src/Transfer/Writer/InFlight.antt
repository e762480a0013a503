-- ===== src/Transfer/Writer/InFlight.antt =====
-- local/data_writer.py: a buffer that was given to the socket stays in flight until it is acknowledged.
pub mod Kept
use volga.Prelude.{
  nat_eq, ℕ, zero, suc, ◌+◌, ◌≤◌, ◌<◌, ◌==◌, ◌≡◌, ◌≢◌, refl, sym, ap, ◌∙◌, subst, Bool, true, false,
  Option, none, some, List, [], ◌∷◌, ◌++◌, length, Result, ok, raised, ◌>>=◌, Result-cases,
  Option-cases, Bool-cases, if◌then◌else◌, ltb, All, All-map, All-append, In, In-append_left,
  In-append_right, inl, inr, ◌⊎◌, arith, beq→eq, beq_refl, beq_ne, ==_iff,
}
use volga.Prelude.Dict
use volga.Prelude.Dict.{Dict}
use volga.Buffers.Varint.{Bytes}
use volga.Buffers.Serializer.{Text, Codec, get_buffer_id}
use volga.Buffers.Tracker.{BufferMemoryTracker}
use volga.Buffers.Queues.{BufferingPolicy, ChannelQueue, append_msg, schedule_next, pop}
use volga.Transfer.Writer.{
  DataWriter, new_data_writer, write_message, find_timed_out, send_new, send_scheduled, send,
  on_ack, rcv_acks,
}

abbrev pub InFlight : Type 0
InFlight = Dict ℕ (ℕ × Bytes)

find_timed_out-get :
    (timeout t : ℕ) (ids : List ℕ) (in_flight : InFlight) {late : ℕ × Bytes}
    → find_timed_out timeout t ids in_flight ≡ some late
    → (ts : ℕ) × (Dict.get late.0 in_flight ≡ some (ts, late.1))
unfolding find_timed_out
find_timed_out-get timeout t [] in_flight h = absurd (cc)
find_timed_out-get timeout t (id ∷ ids) in_flight {late} h =
    elim (Option-cases (Dict.get id in_flight)) [
      | inl absent ↦ find_timed_out-get timeout t ids in_flight (rw (find_timed_out, absent) at h)
      | inr ((ts, buffer), found) ↦ elim (Bool-cases (ltb (ts + timeout) t)) [
        | inr early ↦
            find_timed_out-get timeout t ids in_flight (rw (find_timed_out, found, early) at h)
        | inl is_late ↦
            let found_late : some (id, buffer) ≡ some late =
              rw (find_timed_out, found, is_late) at h in
            let same : (id, buffer) ≡ late = cc in
            (ts, subst (λ (l : ℕ × Bytes). Dict.get l.0 in_flight ≡ some (ts, l.1)) same found)
      ]
    ]

-- The buffers given to the socket, after one more call of `send`.
unfoldable pub note_given : List Bytes → Option Bytes → List Bytes
note_given given none = given
note_given given (some buffer) = given ++ buffer ∷ []

-- A buffer is in flight under its id, or its id was acknowledged.
unfoldable pub Accounted : InFlight → List ℕ → Bytes → Type 0
Accounted in_flight acked buffer =
    (id : ℕ) × (get_buffer_id buffer ≡ ok id)
    × (((ts : ℕ) × (Dict.get id in_flight ≡ some (ts, buffer))) ⊎ In id acked)

pub OwnId : ℕ × (ℕ × Bytes) → Type 0
OwnId (id, (ts, b)) = get_buffer_id b ≡ ok id

pub record Tracked (limit : ℕ) (given : List Bytes) (acked : List ℕ) (in_flight : InFlight)
    : Type 0 where
  pub own_ids : All OwnId in_flight
  pub accounted : All (Accounted in_flight acked) given
  pub bounded : length in_flight ≤ limit + 1

same_entry : {e d : ℕ × Bytes} → some e ≡ some d → e.1 ≡ d.1
same_entry h = cc

-- A buffer that goes into flight, under an id that was free or was its own.
put-Accounted :
    (id t : ℕ) (buffer : Bytes) (in_flight : InFlight) (acked : List ℕ)
    → ((ts : ℕ) (b : Bytes) → Dict.get id in_flight ≡ some (ts, b) → b ≡ buffer)
    → (b : Bytes) → Accounted in_flight acked b
    → Accounted (Dict.put id (t, buffer) in_flight) acked b
unfolding Accounted
put-Accounted id t buffer in_flight acked own b (j, is_id, inr done) = (j, is_id, inr done)
put-Accounted id t buffer in_flight acked own b (j, is_id, inl (ts, found)) =
    elim (Bool-cases (id == j)) [
      | inr other ↦ (j, is_id, inl (ts, Dict.get-put id j (t, buffer) in_flight ∙ rw other found))
      | inl same ↦
          let same_id : id ≡ j = beq→eq id j same in
          let at_id : Dict.get id in_flight ≡ some (ts, b) =
            subst (λ (x : ℕ). Dict.get x in_flight ≡ some (ts, b)) (sym same_id) found in
          (
            j,
            is_id,
            inl (
              t,
              Dict.get-put id j (t, buffer) in_flight
                  ∙ rw same (ap (λ (x : Bytes). some (t, x)) (sym (own ts b at_id))),
            ),
          )
    ]

put-Tracked :
    (limit id t : ℕ) (buffer : Bytes) (given : List Bytes) (acked : List ℕ) (in_flight : InFlight)
    → Tracked limit given acked in_flight
    → get_buffer_id buffer ≡ ok id
    → ((ts : ℕ) (b : Bytes) → Dict.get id in_flight ≡ some (ts, b) → b ≡ buffer)
    → length (Dict.put id (t, buffer) in_flight) ≤ limit + 1
    → Tracked limit (given ++ buffer ∷ []) acked (Dict.put id (t, buffer) in_flight)
unfolding Accounted OwnId
put-Tracked limit id t buffer given acked in_flight track is_id own room = record {
  own_ids = Dict.All-put OwnId id (t, buffer) in_flight is_id track.own_ids;
  accounted =
      All-append (Accounted (Dict.put id (t, buffer) in_flight) acked) given (buffer ∷ [])
        (All-map given (put-Accounted id t buffer in_flight acked own) track.accounted)
        ((id, is_id, inl (t, Dict.get-put_self id (t, buffer) in_flight)), tt);
  bounded = room;
}

-- An acknowledgement that is taken off the flight.
pub delete-Accounted :
    (id : ℕ) (in_flight : InFlight) (acked : List ℕ) (b : Bytes)
    → Accounted in_flight acked b
    → Accounted (Dict.delete id in_flight) (acked ++ id ∷ []) b
unfolding Accounted
delete-Accounted id in_flight acked b (j, is_id, inr done) =
    (j, is_id, inr (In-append_left j acked (id ∷ []) done))
delete-Accounted id in_flight acked b (j, is_id, inl (ts, found)) = elim (Bool-cases (id == j)) [
  | inl same ↦ (j, is_id, inr (In-append_right j acked (id ∷ []) (inl (sym (beq→eq id j same)))))
  | inr other ↦ (j, is_id, inl (ts, Dict.get-delete_ne id j in_flight (ground arith) ∙ found))
]

abbrev After : ℕ → List Bytes → List ℕ → DataWriter × Option Bytes → Type 0
After limit given acked answer = Tracked limit (note_given given answer.1) acked answer.0.in_flight

answered :
    (limit : ℕ) (given : List Bytes) (acked : List ℕ) {r r' : DataWriter × Option Bytes}
    → Result.ok r ≡ ok r'
    → After limit given acked r
    → After limit given acked r'
answered limit given acked {r} {r'} same h =
    let same_answer : r ≡ r' = cc in subst (After limit given acked) same_answer h

module _ (timeout limit : ℕ) (policy : BufferingPolicy) where
  send_new-Tracked :
      (t : ℕ) (buffer : Bytes) (w : DataWriter) (given : List Bytes) (acked : List ℕ)
      {w' : DataWriter} {b : Option Bytes}
      → length w.in_flight ≤ limit
      → Tracked limit given acked w.in_flight
      → send_new t buffer w ≡ ok (w', b)
      → Tracked limit (note_given given b) acked w'.in_flight
  unfolding send_new note_given
  send_new-Tracked t buffer w given acked {w'} {b} room track run =
      elim (Result-cases (get_buffer_id buffer)) [
        | inl failed ↦ absurd (cc (rw (send_new, failed) at run))
        | inr (id, is_id) ↦ elim (Bool-cases (Dict.has id w.in_flight)) [
          | inl twice ↦ absurd (cc (rw (send_new, is_id, twice) at run))
          | inr free ↦
              let none_there : Dict.get id w.in_flight ≡ none =
                Dict.has-false→get id w.in_flight free in
              let next =
                put-Tracked limit id t buffer given acked w.in_flight track is_id
                  (λ ts x found. absurd (cc))
                  (omega (arith, Dict.length-put id (t, buffer) w.in_flight)) in
              answered limit given acked
                {r = (record w { in_flight = Dict.put id (t, buffer) w.in_flight }, some buffer)}
                {r' = (w', b)} (rw (send_new, is_id, free) at run) next
        ]
      ]

  pub send-Tracked :
      (t later : ℕ) (w : DataWriter) (given : List Bytes) (acked : List ℕ) {w' : DataWriter}
      {b : Option Bytes}
      → Tracked limit given acked w.in_flight
      → send timeout limit policy t later w ≡ ok (w', b)
      → Tracked limit (note_given given b) acked w'.in_flight
  unfolding send send_scheduled note_given OwnId
  send-Tracked t later w given acked {w'} {b} track run =
      elim (Option-cases (find_timed_out timeout t (Dict.keys w.in_flight) w.in_flight)) [
        | inr (late, found) ↦
            let (ts, there) =
              find_timed_out-get timeout t (Dict.keys w.in_flight) w.in_flight found in
            let next =
              put-Tracked limit late.0 t late.1 given acked w.in_flight track
                (Dict.All-get OwnId late.0 w.in_flight track.own_ids there) (λ ts' x at_id. cc)
                (omega (
                  arith,
                  Dict.length-put_again late.0 (t, late.1) w.in_flight there,
                  track.bounded,
                )) in
            answered limit given acked
              {r = (record w { in_flight = Dict.put late.0 (t, late.1) w.in_flight }, some late.1)}
              {r' = (w', b)} (rw (send, found) at run) next
        | inl on_time ↦ elim (Bool-cases (ltb limit (length w.in_flight))) [
          | inl full ↦
              answered limit given acked {r = (w, none)} {r' = (w', b)}
                (rw (send, on_time, full) at run) track
          | inr room ↦ elim (Result-cases (schedule_next policy t w.queue)) [
            | inl failed ↦ absurd (cc (rw (send, on_time, room, failed) at run))
            | inr ((q, none), e) ↦
                answered limit given acked {r = (record w { queue = q }, none)} {r' = (w', b)}
                  (rw (send, on_time, room, e) at run) track
            | inr ((q, some buffer), e) ↦
                send_new-Tracked later buffer (record w { queue = q }) given acked
                  (ground (arith, room)) track (rw (send, on_time, room, e) at run)
          ]
        ]
      ]
