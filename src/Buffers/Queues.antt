-- ===== src/Buffers/Queues.antt =====
-- volga/streaming/runtime/network_deprecated/buffer/buffer_queues.py and buffering_policy.py. The lock
-- of a channel is held for the whole of each method, so methods of one channel do not mix. The clock
-- is an argument.
pub mod Groups
pub mod Fifo
use volga.Prelude.{
  nat_eq, ℕ, zero, suc, ◌+◌, ◌-◌, ◌==◌, Bool, true, false, ◌&&◌, ◌||◌, not, Option, none, some,
  List, [], ◌∷◌, ◌++◌, length, get_elem?, Result, ok, raised, ◌>>=◌, if◌then◌else◌, ltb, leb,
}
use volga.Prelude.Dict
use volga.Prelude.Dict.{Dict}
use volga.Buffers.Varint.{Bytes}
use volga.Buffers.Serializer.{Text, Codec, serialize_msg, append_msg_bytes, get_buffer_id}
use volga.Buffers.Tracker.{text_eq, BufferMemoryTracker, try_acquire, release}

-- The classes of policies: the base class, and its two subclasses.
pub data BufferingPolicy : Type 0 where
  buffering : BufferingPolicy
  buffer_per_message : BufferingPolicy
  periodic_partial_flush : ℕ → BufferingPolicy

unfoldable pub is_per_message : BufferingPolicy → Bool
is_per_message buffer_per_message = true
is_per_message other = false

-- The state of one channel, an entry of each of the dicts.
pub record ChannelQueue : Type 0 where
  pub msg_id_seq : ℕ
  pub buffer_id_seq : ℕ
  pub buffer_queue : List Bytes
  pub last_update_ts : Option ℕ
  pub schedule_index : ℕ
  pub should_cut_buffer : Bool
  pub pops : Dict ℕ Bool

abbrev pub new_channel_queue : ChannelQueue
new_channel_queue = record {
  msg_id_seq = 0;
  buffer_id_seq = 0;
  buffer_queue = [];
  last_update_ts = none;
  schedule_index = 0;
  should_cut_buffer = false;
  pops = [];
}

-- `buffer_queue[-1]`
unfoldable pub last_buffer : List Bytes → Option Bytes
last_buffer [] = none
last_buffer (b ∷ []) = some b
last_buffer (b ∷ c ∷ queue) = last_buffer (c ∷ queue)

-- `buffer_queue[-1] = b`
unfoldable pub set_last : List Bytes → Bytes → List Bytes
set_last [] b = []
set_last (a ∷ []) b = b ∷ []
set_last (a ∷ c ∷ queue) b = a ∷ set_last (c ∷ queue) b

-- `self._buffer_size - len(buffer_queue[-1]) < len(msg_payload_bytes)`: the difference may be negative.
unfoldable pub has_no_room : ℕ → Bytes → Bytes → Bool
has_no_room buffer_size last payload = ltb buffer_size (length last + length payload)

-- The last buffer, where the message goes into it.
unfoldable pub open_buffer : BufferingPolicy → ℕ → Bytes → ChannelQueue → Option Bytes
open_buffer policy buffer_size payload q = elim (last_buffer q.buffer_queue) [
  | none ↦ none
  | some last ↦
      if is_per_message policy || has_no_room buffer_size last payload || q.should_cut_buffer
      then none
      else some last
]

-- The tracker is optional. Without one there is always memory.
unfoldable pub acquire_one : Text → Option BufferMemoryTracker → Option BufferMemoryTracker × Bool
acquire_one channel_id none = (none, true)
acquire_one channel_id (some tracker) =
    let (tracker', has_mem) = try_acquire channel_id 1 true tracker in (some tracker', has_mem)

unfoldable pub release_one : Text → Option BufferMemoryTracker → Result (Option BufferMemoryTracker)
release_one channel_id none = ok none
release_one channel_id (some tracker) = do
  tracker' ← release channel_id 1 tracker
  ok (some tracker')

abbrev pub Appended : Type 0
Appended = ChannelQueue × Option BufferMemoryTracker × Option (ℕ × ℕ)

module _ {M : Type 0} (codec : Codec M) (buffer_size : ℕ) (policy : BufferingPolicy) where
  unfoldable pub append_to : Bytes → Bytes → ℕ → ChannelQueue → Result ChannelQueue
  append_to last payload now q = do
    updated_last_buffer ← append_msg_bytes last payload buffer_size
    ok (record q {
      buffer_queue = set_last q.buffer_queue updated_last_buffer;
      msg_id_seq = q.msg_id_seq + 1;
      last_update_ts = some now;
    })

  unfoldable pub append_new : Bytes → ℕ → ChannelQueue → ChannelQueue
  append_new buffer now q = record q {
    buffer_queue = q.buffer_queue ++ buffer ∷ [];
    msg_id_seq = q.msg_id_seq + 1;
    buffer_id_seq = q.buffer_id_seq + 1;
    last_update_ts = some now;
    should_cut_buffer = false;
  }

  -- The end of `append_msg`: a new buffer, if there is memory for it. `none` is backpressure.
  unfoldable pub append_fresh :
      M → Text → ℕ → ChannelQueue → Option BufferMemoryTracker → Result Appended
  append_fresh message channel_id now q tracker =
      let (tracker', has_mem) = acquire_one channel_id tracker in
      let with_buffer : Result Appended = (do
        buffer ←
            serialize_msg codec channel_id q.buffer_id_seq message q.msg_id_seq buffer_size true
        ok (append_new buffer now q, tracker', some (q.msg_id_seq, q.buffer_id_seq))) in
      if has_mem then with_buffer else ok (q, tracker', none)

  unfoldable pub append_payload :
      Bytes → M → Text → ℕ → ChannelQueue → Option BufferMemoryTracker → Result Appended
  append_payload payload message channel_id now q tracker =
      elim (open_buffer policy buffer_size payload q) [
        | some last ↦ do
          q' ← append_to last payload now q
          ok (q', tracker, some (q.msg_id_seq, q.buffer_id_seq))
        | none ↦ append_fresh message channel_id now q tracker
      ]

  -- `append_msg`, on the state of its channel.
  unfoldable pub append_msg :
      M → Text → ℕ → ChannelQueue → Option BufferMemoryTracker → Result Appended
  append_msg message channel_id now q tracker = do
    payload ← serialize_msg codec channel_id q.buffer_id_seq message q.msg_id_seq buffer_size false
    append_payload payload message channel_id now q tracker

-- `time.time() - last >= flush_period_s`, and a raise where there was no update.
unfoldable pub is_idle : ℕ → ℕ → Option ℕ → Result Bool
is_idle now flush_period none = raised
is_idle now flush_period (some last) = ok (leb (last + flush_period) now)

-- `buffer_queue[self._schedule_index[channel_id]]`, and the index goes on.
unfoldable pub take_next : ChannelQueue → Bool → Result (ChannelQueue × Option Bytes)
take_next q cut = elim (get_elem? q.buffer_queue q.schedule_index) [
  | none ↦ raised
  | some buffer ↦
      ok (record q { schedule_index = q.schedule_index + 1; should_cut_buffer = cut }, some buffer)
]

-- The last of the queue, which a periodic policy keeps until the channel is idle.
unfoldable pub schedule_last :
    BufferingPolicy → ℕ → ChannelQueue → Result (ChannelQueue × Option Bytes)
schedule_last (periodic_partial_flush flush_period) now q = do
  idle ← is_idle now flush_period q.last_update_ts
  if idle then take_next q true else ok (q, none)
schedule_last other now q = take_next q q.should_cut_buffer

unfoldable pub schedule_next :
    BufferingPolicy → ℕ → ChannelQueue → Result (ChannelQueue × Option Bytes)
schedule_next policy now q =
    if ltb (length q.buffer_queue) q.schedule_index
    then raised
    else if length q.buffer_queue == q.schedule_index
    then ok (q, none)
    else if length q.buffer_queue == q.schedule_index + 1
    then schedule_last policy now q
    else take_next q q.should_cut_buffer

abbrev pub Popped : Type 0
Popped = List Bytes × ℕ × Dict ℕ Bool × Option BufferMemoryTracker

-- The loop of `pop`: it takes from the left while the first buffer was asked for.
unfoldable pub pop_ready :
    Text → List Bytes → ℕ → Dict ℕ Bool → Option BufferMemoryTracker → Result Popped
pop_ready channel_id [] index pops tracker = ok ([], index, pops, tracker)
pop_ready channel_id (buffer ∷ queue) index pops tracker = do
  buffer_id ← get_buffer_id buffer
  if Dict.has buffer_id pops
      then (if index == 0 then raised else do
        tracker' ← release_one channel_id tracker
        pop_ready channel_id queue (index - 1) (Dict.delete buffer_id pops) tracker')
      else ok (buffer ∷ queue, index, pops, tracker)

unfoldable pub pop :
    Text
    → ℕ
    → ChannelQueue
    → Option BufferMemoryTracker
    → Result (ChannelQueue × Option BufferMemoryTracker)
pop channel_id buffer_id q tracker =
    let popped : Result (ChannelQueue × Option BufferMemoryTracker) = (do
      (queue, index, pops, tracker') ←
          pop_ready channel_id q.buffer_queue q.schedule_index (Dict.put buffer_id true q.pops)
            tracker
      ok (record q { buffer_queue = queue; schedule_index = index; pops = pops }, tracker')) in
    if length q.buffer_queue == 0 then raised else popped
