-- ===== src/Transfer/Writer.antt =====
-- volga/streaming/runtime/network_deprecated/transfer/local/data_writer.py: one channel of a writer, with
-- its queue of buffers and the buffers in flight. The clock's readings and the answer of the socket
-- are arguments; the limits are parameters.
pub mod InFlight
use volga.Prelude.{
  nat_eq, ℕ, ◌+◌, ◌==◌, Bool, true, false, Option, none, some, List, [], ◌∷◌, length, Result, ok,
  raised, ◌>>=◌, if◌then◌else◌, ltb,
}
use volga.Prelude.Dict
use volga.Prelude.Dict.{Dict}
use volga.Buffers.Varint.{Bytes}
use volga.Buffers.Serializer.{Text, Codec, get_buffer_id}
use volga.Buffers.Tracker.{BufferMemoryTracker}
use volga.Buffers.Queues.{
  BufferingPolicy, ChannelQueue, new_channel_queue, append_msg, schedule_next, pop,
}

pub record DataWriter : Type 0 where
  pub queue : ChannelQueue
  pub tracker : Option BufferMemoryTracker
  pub in_flight : Dict ℕ (ℕ × Bytes)

abbrev pub new_data_writer : Option BufferMemoryTracker → DataWriter
new_data_writer tracker = record { queue = new_channel_queue; tracker = tracker; in_flight = [] }

-- A try of `_write_message`, and whether the message was taken.
unfoldable pub write_message :
    {M : Type 0}
    → Codec M
    → ℕ
    → BufferingPolicy
    → Text
    → M
    → ℕ
    → DataWriter
    → Result (DataWriter × Bool)
write_message codec buffer_size policy channel_id message now w = do
  (q, tracker, res) ← append_msg codec buffer_size policy message channel_id now w.queue w.tracker
  ok (record w { queue = q; tracker = tracker }, elim res [ none ↦ false | some _ ↦ true ])

module _ (in_flight_timeout : ℕ) where
  -- The first of the buffers in flight that waits for too long.
  unfoldable pub find_timed_out : ℕ → List ℕ → Dict ℕ (ℕ × Bytes) → Option (ℕ × Bytes)
  find_timed_out t [] in_flight = none
  find_timed_out t (id ∷ ids) in_flight = elim (Dict.get id in_flight) [
    | none ↦ find_timed_out t ids in_flight
    | some entry ↦
        if ltb (entry.0 + in_flight_timeout) t
        then some (id, entry.1)
        else find_timed_out t ids in_flight
  ]

-- A new buffer: it is in flight from now on, whether the socket takes it or not.
unfoldable pub send_new : ℕ → Bytes → DataWriter → Result (DataWriter × Option Bytes)
send_new t buffer w = do
  buffer_id ← get_buffer_id buffer
  if Dict.has buffer_id w.in_flight
      then raised
      else ok (record w { in_flight = Dict.put buffer_id (t, buffer) w.in_flight }, some buffer)

unfoldable pub send_scheduled :
    ℕ → DataWriter → ChannelQueue × Option Bytes → Result (DataWriter × Option Bytes)
send_scheduled later w (q, none) = ok (record w { queue = q }, none)
send_scheduled later w (q, some buffer) = send_new later buffer (record w { queue = q })

-- `send`, and the buffer that it gives to the socket.
unfoldable pub send :
    ℕ → ℕ → BufferingPolicy → ℕ → ℕ → DataWriter → Result (DataWriter × Option Bytes)
send in_flight_timeout in_flight_limit policy t later w =
    elim (find_timed_out in_flight_timeout t (Dict.keys w.in_flight) w.in_flight) [
      | some late ↦
          ok (record w { in_flight = Dict.put late.0 (t, late.1) w.in_flight }, some late.1)
      | none ↦
          if ltb in_flight_limit (length w.in_flight)
          then ok (w, none)
          else schedule_next policy t w.queue >>= λ next. send_scheduled later w next
    ]

-- An acknowledgement: of a buffer in flight, or of none, and then nothing happens.
unfoldable pub on_ack : Text → ℕ → DataWriter → Result DataWriter
on_ack channel_id buffer_id w = elim (Dict.get buffer_id w.in_flight) [
  | none ↦ ok w
  | some entry ↦ do
    own_id ← get_buffer_id entry.1
    if buffer_id == own_id
        then (do
          (q, tracker) ← pop channel_id buffer_id w.queue w.tracker
          ok (record {
            queue = q;
            tracker = tracker;
            in_flight = Dict.delete buffer_id w.in_flight;
          }))
        else raised
]

-- `rcv` of a batch.
unfoldable pub rcv_acks : Text → List ℕ → DataWriter → Result DataWriter
unfolding on_ack
rcv_acks channel_id [] w = ok w
rcv_acks channel_id (ack ∷ acks) w = do w' ← on_ack channel_id ack w; rcv_acks channel_id acks w'
