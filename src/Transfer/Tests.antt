-- ===== src/Transfer/Tests.antt =====
-- The two ends of a channel at concrete inputs: buffers without a message, over a channel called `c`.
use volga.Prelude.{
  nat_eq, ℕ, ◌+◌, ◌≤◌, ◌≡◌, refl, ap, Bool, true, false, Option, none, some, List, [], ◌∷◌, ◌++◌,
  length, Result, ok, raised, ◌>>=◌, arith, All, ◌⊎◌, inl, inr,
}
use volga.Prelude.Dict
use volga.Buffers.Varint.{Bytes, encode_int}
use volga.Buffers.Varint.RoundTrip.{decode_bytes-encode_int}
use volga.Buffers.Serializer.{Text, Codec, get_buffer_id, get_buffer_id_and_offset}
use volga.Buffers.Tracker.{text_eq, BufferMemoryTracker, try_acquire}
use volga.Buffers.Queues.{new_channel_queue, buffer_per_message}
use volga.Transfer.Reader.{DataReader, new_data_reader, rcv, accept}
use volga.Transfer.Reader.Delivery.{
  Event, comes, is_read, all_happen, arrived, first_buffers, delivered_in_order,
}
use volga.Transfer.Reader.Stall.{rcv_all, IsKnown, stored_never_delivered}
use volga.Transfer.Writer.{DataWriter, new_data_writer}
use volga.Transfer.Writer.InFlight.{Accounted}
use volga.Transfer.Writer.InFlight.Kept.{
  writes, sends, gets_acks, Record, step, steps, sent_until_acknowledged,
}

abbrev plain : Codec Bytes
plain = record { msg_to_bytes = λ m. m; bytes_to_msg = λ b. b }

abbrev channel : Text
channel = b'c' ∷ []

abbrev header : Bytes
header =
    b'c' ∷ b' ' ∷ b' ' ∷ b' ' ∷ b' ' ∷ b' ' ∷ b' ' ∷ b' ' ∷ b' ' ∷ b' ' ∷ b' ' ∷ b' ' ∷ b' ' ∷ b' '
    ∷ b' ' ∷ b' ' ∷ []

-- The sender's buffers.
abbrev stream : ℕ → Bytes
stream i = header ++ (encode_int i ++ 0 ∷ [])

ids : (i : ℕ) → get_buffer_id (stream i) ≡ ok i
unfolding get_buffer_id get_buffer_id_and_offset
ids i = rw (decode_bytes-encode_int header i (0 ∷ []))

abbrev tracker : BufferMemoryTracker
tracker = record { capacity_per_in_channel = 1; capacity_per_out = 3; shared_dict = [] }

abbrev some_events : List (Event channel stream ids)
some_events = comes (some 1) ∷ comes (some 0) ∷ is_read ∷ comes (some 1) ∷ []

abbrev reader : DataReader
reader = record {
  output_queue = stream 1 ∷ [];
  next_wm = 2;
  out_of_order = [];
  ack_queue = 0 ∷ 0 ∷ 1 ∷ [];
  tracker = record tracker { shared_dict = (channel, 2) ∷ [] };
}

events_ok :
    all_happen channel stream ids plain some_events ([], new_data_reader tracker)
    ≡ ok (stream 0 ∷ [], reader)
unfolding all_happen rcv volga.Transfer.Reader.has_memory try_acquire Dict.get
    volga.Buffers.Tracker.release Dict.put arrived volga.Transfer.Reader.on_buffer get_buffer_id
    volga.Buffers.Varint.decode_bytes encode_int Dict.has accept volga.Transfer.Reader.put_in_order
    volga.Transfer.Reader.delete_all volga.Transfer.Reader.read_message
    volga.Transfer.Reader.put_next volga.Buffers.Serializer.deser get_buffer_id_and_offset
    volga.Buffers.Serializer.get_payload volga.Buffers.Serializer.get_payload_size
    volga.Buffers.Serializer.read_messages volga.Buffers.Varint.decode_loop
    volga.Buffers.Varint.encode_loop Dict.delete volga.Prelude.Wf.lt_wf
    volga.Transfer.Reader.Delivery.happens
events_ok = refl

delivered_in_order_example :
    ((stream 0 ∷ []) ++ reader.output_queue ≡ stream 0 ∷ stream 1 ∷ [])
    × ((id : Option ℕ)
        → (r' : DataReader) × (rcv channel (arrived channel stream ids id) reader ≡ ok r'))
delivered_in_order_example =
    delivered_in_order channel stream ids plain some_events tracker {taken = stream 0 ∷ []}
      {r = reader} events_ok

-- A reader with both of the buffers 0 and 1 stored, though there is memory.
abbrev stalled : DataReader
stalled = record {
  output_queue = [];
  next_wm = 0;
  out_of_order = (1, stream 1) ∷ (0, stream 0) ∷ [];
  ack_queue = [];
  tracker = record tracker { shared_dict = (channel, 1) ∷ [] };
}

stalled_waits : Dict.has 0 stalled.out_of_order ≡ true
unfolding Dict.has
stalled_waits = refl

known : All (IsKnown channel stalled) (stream 0 ∷ stream 1 ∷ [])
unfolding Dict.has
known = ((0, ids 0, inr refl), ((1, ids 1, inr refl), tt))

stored_never_delivered_example :
    (r' : DataReader) × (rcv_all channel (stream 0 ∷ stream 1 ∷ []) stalled ≡ ok r')
    × (r'.output_queue ≡ [])
    × (r'.next_wm ≡ 0)
    × (Dict.has r'.next_wm r'.out_of_order ≡ true)
stored_never_delivered_example =
    stored_never_delivered channel (stream 0 ∷ stream 1 ∷ []) stalled stalled_waits known

abbrev writer_events : List (volga.Transfer.Writer.InFlight.Kept.Event Bytes)
writer_events =
    writes (9 ∷ []) 0
    ∷ writes (8 ∷ []) 0
    ∷ sends 1 1
    ∷ sends 2 2
    ∷ sends 9 9
    ∷ gets_acks (0 ∷ [])
    ∷ []

abbrev buffer_0 : Bytes
buffer_0 = header ++ (0 ∷ 3 ∷ 0 ∷ 1 ∷ 9 ∷ [])

abbrev buffer_1 : Bytes
buffer_1 = header ++ (1 ∷ 3 ∷ 1 ∷ 1 ∷ 8 ∷ [])

abbrev after_events : Record
after_events = record {
  writer = record {
    queue = record new_channel_queue {
      msg_id_seq = 2;
      buffer_id_seq = 2;
      buffer_queue = buffer_1 ∷ [];
      last_update_ts = some 0;
      schedule_index = 1;
    };
    tracker = none;
    in_flight = (1, (2, buffer_1)) ∷ [];
  };
  given = buffer_0 ∷ buffer_1 ∷ buffer_0 ∷ [];
  acked = 0 ∷ [];
}

writer_events_ok :
    steps plain 64 buffer_per_message channel 5 10 writer_events
      (record { writer = new_data_writer none; given = []; acked = [] })
    ≡ ok after_events
unfolding steps step volga.Transfer.Writer.write_message volga.Buffers.Queues.append_msg
    volga.Buffers.Serializer.serialize_msg volga.Buffers.Serializer.serialize_msg_bytes
    volga.Buffers.Queues.append_payload volga.Buffers.Queues.open_buffer
    volga.Buffers.Queues.last_buffer volga.Buffers.Queues.append_fresh
    volga.Buffers.Queues.acquire_one volga.Buffers.Serializer.str_to_bytes encode_int
    volga.Buffers.Queues.append_new volga.Buffers.Queues.is_per_message volga.Transfer.Writer.send
    volga.Transfer.Writer.find_timed_out volga.Buffers.Queues.schedule_next
    volga.Buffers.Queues.take_next volga.Buffers.Queues.append_to volga.Buffers.Queues.has_no_room
    volga.Buffers.Queues.is_idle volga.Buffers.Queues.pop volga.Buffers.Queues.pop_ready
    volga.Buffers.Queues.release_one volga.Buffers.Queues.schedule_last
    volga.Buffers.Queues.set_last volga.Buffers.Serializer.append_msg_bytes get_buffer_id
    get_buffer_id_and_offset volga.Buffers.Serializer.get_payload_size volga.Buffers.Tracker.release
    try_acquire volga.Buffers.Varint.decode_bytes volga.Buffers.Varint.decode_loop
    volga.Buffers.Varint.encode_loop Dict.delete Dict.get Dict.has Dict.put volga.Prelude.Wf.lt_wf
    volga.Transfer.Writer.InFlight.note_given volga.Transfer.Writer.on_ack
    volga.Transfer.Writer.rcv_acks volga.Transfer.Writer.send_new
    volga.Transfer.Writer.send_scheduled
writer_events_ok = refl

sent_until_acknowledged_example :
    All (Accounted after_events.writer.in_flight after_events.acked) after_events.given
    × (length after_events.writer.in_flight ≤ 10 + 1)
sent_until_acknowledged_example =
    sent_until_acknowledged plain 64 buffer_per_message channel 5 10 none writer_events
      {r = after_events} writer_events_ok
