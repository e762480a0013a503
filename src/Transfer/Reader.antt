-- ===== src/Transfer/Reader.antt =====
-- volga/streaming/runtime/network_deprecated/transfer/local/data_reader.py: the state of one channel of
-- a reader, with the output queue and the memory that its channels share. The socket is an argument:
-- what it has to give, and whether it takes what is sent.
pub mod Memory
pub mod Delivery
pub mod Stall
use volga.Prelude.{
  nat_eq, ℕ, zero, suc, ◌+◌, ◌==◌, Bool, true, false, ◌&&◌, ◌||◌, not, Option, none, some, List, [],
  ◌∷◌, ◌++◌, length, Result, ok, raised, ◌>>=◌, if◌then◌else◌, ltb,
}
use volga.Prelude.Dict
use volga.Prelude.Dict.{Dict}
use volga.Buffers.Varint.{Bytes}
use volga.Buffers.Serializer.{Text, Codec, get_buffer_id, deser}
use volga.Buffers.Tracker.{text_eq, BufferMemoryTracker, try_acquire, release}

-- `next_wm` is the watermark and one, which starts at -1. An acknowledgement is its buffer's id.
pub record DataReader : Type 0 where
  pub output_queue : List Bytes
  pub next_wm : ℕ
  pub out_of_order : Dict ℕ Bytes
  pub ack_queue : List ℕ
  pub tracker : BufferMemoryTracker

abbrev pub new_data_reader : BufferMemoryTracker → DataReader
new_data_reader tracker = record {
  output_queue = [];
  next_wm = 0;
  out_of_order = [];
  ack_queue = [];
  tracker = tracker;
}

-- What the loop over the sequential buffers carries.
pub record Sequential : Type 0 where
  pub queue : List Bytes
  pub next : ℕ
  pub acks : List ℕ
  pub memory : BufferMemoryTracker
  pub to_del : List ℕ

unfoldable pub delete_all : List ℕ → Dict ℕ Bytes → Dict ℕ Bytes
delete_all [] stored = stored
delete_all (id ∷ ids) stored = delete_all ids (Dict.delete id stored)

-- The next buffer goes to the output queue, with the acknowledgement of the buffer that came.
unfoldable pub put_next : ℕ → Bytes → BufferMemoryTracker → Sequential → Sequential
put_next buffer_id buffer memory s = record {
  queue = s.queue ++ buffer ∷ [];
  next = s.next + 1;
  acks = s.acks ++ buffer_id ∷ [];
  memory = memory;
  to_del = s.to_del ++ s.next ∷ [];
}

module _ (name : Text) where
  -- Each round is for another key of the dict, so as many rounds as it has entries are enough.
  unfoldable pub put_in_order : ℕ → ℕ → Dict ℕ Bytes → Sequential → Sequential
  put_in_order zero buffer_id stored s = s
  put_in_order (suc rounds) buffer_id stored s = elim (Dict.get s.next stored) [
    | none ↦ s
    | some buffer ↦
        let (memory', succ) = try_acquire name 1 false s.memory in
        let rest = put_in_order rounds buffer_id stored (put_next buffer_id buffer memory' s) in
        if succ then rest else record s { memory = memory' }
  ]

  -- `rcv` from the point where a new buffer is stored.
  unfoldable pub accept : ℕ → Bytes → DataReader → DataReader
  accept buffer_id buffer r =
      let stored = Dict.put buffer_id buffer r.out_of_order in
      let s = put_in_order (length stored) buffer_id stored (record {
        queue = r.output_queue;
        next = r.next_wm;
        acks = r.ack_queue;
        memory = r.tracker;
        to_del = [];
      }) in
      record {
        output_queue = s.queue;
        next_wm = s.next;
        out_of_order = delete_all s.to_del stored;
        ack_queue = s.acks;
        tracker = s.memory;
      }

  -- A buffer that was in the output queue or is stored is acknowledged once more.
  unfoldable pub on_buffer : Bytes → DataReader → Result DataReader
  on_buffer buffer r = do
    buffer_id ← get_buffer_id buffer
    let again = record r { ack_queue = r.ack_queue ++ buffer_id ∷ [] }
    if ltb buffer_id r.next_wm
        then ok again
        else if Dict.has buffer_id r.out_of_order
        then ok again
        else ok (accept buffer_id buffer r)

  -- The memory is taken and given back, to see whether there is any.
  unfoldable pub has_memory : BufferMemoryTracker → Result (BufferMemoryTracker × Bool)
  has_memory tracker =
      let (tracker', has_mem) = try_acquire name 1 false tracker in
      let freed : Result (BufferMemoryTracker × Bool) = (do
        tracker'' ← release name 1 tracker'
        ok (tracker'', true)) in
      if has_mem then freed else ok (tracker', false)

  unfoldable pub rcv : Option Bytes → DataReader → Result DataReader
  rcv arrived r = do
    (tracker, has_mem) ← has_memory r.tracker
    let r' = record r { tracker = tracker }
    if (length r.out_of_order == 0 || Dict.has r.next_wm r.out_of_order) && not has_mem
        then ok r'
        else elim arrived [ none ↦ ok r' | some buffer ↦ on_buffer buffer r' ]

  unfoldable pub read_message : {M : Type 0} → Codec M → DataReader → Result (DataReader × List M)
  read_message codec r = elim r.output_queue [
    | [] ↦ ok (r, [])
    | buffer ∷ queue ↦ do
      tracker ← release name 1 r.tracker
      msgs ← deser codec buffer
      ok (record r { output_queue = queue; tracker = tracker }, msgs)
  ]

-- `send`: a batch of acknowledgements, which go back where they were if the socket takes nothing.
unfoldable pub send_acks : ℕ → Bool → DataReader → DataReader × Option (List ℕ)
send_acks ack_batch_size sent r =
    if ltb (length r.ack_queue) ack_batch_size
    then (r, none)
    else if sent
    then (record r { ack_queue = [] }, some r.ack_queue)
    else (r, none)
