-- ===== src/Buffers/Tests.antt =====
-- The buffers at concrete inputs: two messages of one and three bytes over a channel called `c`.
use volga.Prelude.{
  nat_eq, ℕ, ◌+◌, ◌≡◌, ◌≢◌, refl, true, false, none, some, List, [], ◌∷◌, ◌++◌, drop, ok, arith,
}
use volga.Prelude.Dict
use volga.Buffers.Varint.{Bytes, encode_int, decode_bytes}
use volga.Buffers.Serializer.{
  Text, Codec, serialize_msg, append_msg_bytes, deser, get_buffer_id, get_channel_id,
  serialize_msg_bytes, str_to_bytes, get_payload_size, get_buffer_id_and_offset,
}
use volga.Buffers.Serializer.Layout.RoundTrip.{first, more, buffer_round_trip}
use volga.Buffers.Tracker.{text_eq, BufferMemoryTracker, try_acquire, release}
use volga.Buffers.Tracker.Ledger.{
  Call, acquire, give_back, call, calls, left, taken, returned, ledger_balances,
}
use volga.Buffers.Queues.{
  BufferingPolicy, buffering, buffer_per_message, ChannelQueue, new_channel_queue,
}
use volga.Buffers.Queues.Fifo.History.{
  Method, append_msg_at, schedule_next_at, pop_id, History, started, invoke, invoke_all,
  queue_is_fifo,
}
use volga.Buffers.Queues.Groups.{read_all}

abbrev plain : Codec Bytes
plain = record { msg_to_bytes = λ m. m; bytes_to_msg = λ b. b }

abbrev channel : Text
channel = b'c' ∷ []

abbrev payload : Bytes
payload = 6 ∷ 3 ∷ 10 ∷ 11 ∷ 12 ∷ []

abbrev spaces : Bytes
spaces =
    b' ' ∷ b' ' ∷ b' ' ∷ b' ' ∷ b' ' ∷ b' ' ∷ b' ' ∷ b' ' ∷ b' ' ∷ b' ' ∷ b' ' ∷ b' ' ∷ b' ' ∷ b' '
    ∷ b' ' ∷ []

abbrev one_message : Bytes
one_message = b'c' ∷ spaces ++ (4 ∷ 3 ∷ 5 ∷ 1 ∷ 9 ∷ [])

abbrev two_messages : Bytes
two_messages = b'c' ∷ spaces ++ (4 ∷ 8 ∷ 5 ∷ 1 ∷ 9 ∷ payload)

first_ok : serialize_msg plain channel 4 (9 ∷ []) 5 64 true ≡ ok one_message
unfolding serialize_msg serialize_msg_bytes str_to_bytes encode_int
first_ok = refl

payload_ok : serialize_msg plain channel 0 (10 ∷ 11 ∷ 12 ∷ []) 6 64 false ≡ ok payload
unfolding serialize_msg serialize_msg_bytes encode_int
payload_ok = refl

both_ok : append_msg_bytes one_message payload 64 ≡ ok two_messages
unfolding append_msg_bytes get_buffer_id_and_offset decode_bytes get_payload_size encode_int
both_ok = refl

buffer_round_trip_example :
    (deser plain two_messages ≡ ok ((9 ∷ []) ∷ (10 ∷ 11 ∷ 12 ∷ []) ∷ []))
    × (get_buffer_id two_messages ≡ ok 4)
    × (get_channel_id two_messages ≡ channel)
unfolding volga.Buffers.Serializer.is_space
buffer_round_trip_example =
    buffer_round_trip plain channel 4 64 {b = two_messages}
      {msgs = (5, 9 ∷ []) ∷ (6, 10 ∷ 11 ∷ 12 ∷ []) ∷ []} (λ m. refl) (refl, tt)
      (more 0 6 (10 ∷ 11 ∷ 12 ∷ []) (first 5 (9 ∷ []) first_ok) payload_ok both_ok)

abbrev tracker : BufferMemoryTracker
tracker = record { capacity_per_in_channel = 1; capacity_per_out = 3; shared_dict = [] }

abbrev some_calls : List Call
some_calls = acquire channel 2 ∷ acquire channel 2 ∷ give_back channel 1 ∷ []

calls_ok :
    calls (λ key. false) some_calls tracker
    ≡ ok (record tracker { shared_dict = (channel, 2) ∷ [] })
unfolding calls call try_acquire release Dict.get Dict.put
calls_ok = refl

ledger_balances_example :
    left (λ key. false) channel (record tracker { shared_dict = (channel, 2) ∷ [] })
      + taken (λ key. false) channel some_calls tracker
    ≡ left (λ key. false) channel tracker + returned (λ key. false) channel some_calls
ledger_balances_example = ledger_balances (λ key. false) channel some_calls tracker calls_ok

abbrev some_methods : List (Method Bytes)
some_methods =
    append_msg_at (9 ∷ []) 0
    ∷ append_msg_at (10 ∷ 11 ∷ []) 1
    ∷ schedule_next_at 2
    ∷ append_msg_at (12 ∷ []) 3
    ∷ pop_id 0
    ∷ []

abbrev buffer_1 : Bytes
buffer_1 = b'c' ∷ spaces ++ (1 ∷ 4 ∷ 1 ∷ 2 ∷ 10 ∷ 11 ∷ [])

abbrev buffer_2 : Bytes
buffer_2 = b'c' ∷ spaces ++ (2 ∷ 3 ∷ 2 ∷ 1 ∷ 12 ∷ [])

abbrev history : History
history = record {
  queue = record new_channel_queue {
    msg_id_seq = 3;
    buffer_id_seq = 3;
    buffer_queue = buffer_1 ∷ buffer_2 ∷ [];
    last_update_ts = some 3;
    schedule_index = 0;
  };
  tracker = none;
  accepted = (0, 9 ∷ []) ∷ (1, 10 ∷ 11 ∷ []) ∷ (2, 12 ∷ []) ∷ [];
  sent = (b'c' ∷ spaces ++ (0 ∷ 3 ∷ 0 ∷ 1 ∷ 9 ∷ [])) ∷ [];
}

methods_ok : invoke_all plain 64 buffer_per_message channel some_methods (started none) ≡ ok history
unfolding invoke_all invoke volga.Buffers.Queues.append_msg serialize_msg serialize_msg_bytes
    volga.Buffers.Queues.append_payload volga.Buffers.Queues.open_buffer
    volga.Buffers.Queues.last_buffer volga.Buffers.Queues.append_fresh
    volga.Buffers.Queues.acquire_one str_to_bytes encode_int volga.Buffers.Queues.append_new
    volga.Buffers.Queues.is_per_message volga.Buffers.Queues.schedule_next
    volga.Buffers.Queues.take_next volga.Buffers.Queues.pop volga.Buffers.Queues.pop_ready
    get_buffer_id get_buffer_id_and_offset decode_bytes Dict.put Dict.has Dict.delete
    volga.Buffers.Queues.release_one volga.Buffers.Queues.schedule_last
    volga.Buffers.Queues.Fifo.History.note_appended volga.Buffers.Queues.Fifo.History.note_sent
methods_ok = refl

per_message : buffer_per_message ≢ buffering
per_message e = cc

queue_is_fifo_example :
    (sent_msgs : List (ℕ × Bytes)) × (waiting_msgs : List (ℕ × Bytes)) × (read_all history.sent
      ≡ ok sent_msgs)
    × (read_all (drop history.queue.schedule_index history.queue.buffer_queue) ≡ ok waiting_msgs)
    × (history.accepted ≡ sent_msgs ++ waiting_msgs)
queue_is_fifo_example =
    queue_is_fifo plain 64 buffer_per_message channel (omega arith) per_message some_methods none
      {h = history} methods_ok
