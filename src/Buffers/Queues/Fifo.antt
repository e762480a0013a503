-- ===== src/Buffers/Queues/Fifo.antt =====
-- buffer_queues.py: every method keeps the queue of groups, and does to the waiting messages what a
-- first-in first-out queue does.
pub mod Scheduling
pub mod Popping
pub mod History
use volga.Prelude.{
  nat_eq, ℕ, zero, suc, ◌+◌, ◌-◌, ◌≤◌, ◌<◌, ◌≡◌, ◌≢◌, refl, sym, ap, ◌∙◌, subst, ◌==◌, Bool, true,
  false, ◌||◌, Option, none, some, List, [], ◌∷◌, ◌++◌, length, drop, length-append, append_assoc,
  append-nil, get_elem?, Result, ok, raised, ◌>>=◌, Result-cases, if◌then◌else◌, ltb, Bool-cases,
  Option-cases, inl, inr, arith,
}
use volga.Prelude.Dict
use volga.Prelude.Dict.{Dict}
use volga.Buffers.Varint.{Bytes}
use volga.Buffers.Serializer.{Text, Codec, serialize_msg, append_msg_bytes, get_buffer_id}
use volga.Buffers.Serializer.Layout.{entry, layout, get_buffer_id-layout}
use volga.Buffers.Serializer.Layout.RoundTrip.{
  serialize_msg_bytes-first, serialize_msg_bytes-more, append_msg_bytes-grows,
}
use volga.Buffers.Tracker.{BufferMemoryTracker}
use volga.Buffers.Queues.{
  BufferingPolicy, buffering, buffer_per_message, periodic_partial_flush, is_per_message,
  ChannelQueue, last_buffer, set_last, has_no_room, open_buffer, acquire_one, release_one,
  append_to, append_new, append_fresh, append_payload, append_msg, is_idle, take_next,
  schedule_last, schedule_next, pop_ready, pop,
}
use volga.Buffers.Queues.Groups.{
  Group, messages, buffers, grow_last, messages-append, buffers-append, length-buffers,
  grow_last-behind, length-grow_last, drop-append_le, last_buffer-buffers, get_elem?-buffers,
}

-- The queue's buffers are those of the groups, no more are scheduled than there are, and a periodic
-- policy cuts the last buffer once it is scheduled.
pub record Queued (c : Text) (policy : BufferingPolicy) (q : ChannelQueue) (gs : List Group)
    : Type 0 where
  pub holds : q.buffer_queue ≡ buffers c gs
  pub scheduled : q.schedule_index ≤ length gs
  pub cut :
      is_per_message policy ≡ false
      → 0 < length gs
      → q.schedule_index ≡ length gs
      → q.should_cut_buffer ≡ true

-- The messages that wait to be scheduled.
abbrev pub waiting : ChannelQueue → List Group → List (ℕ × Bytes)
waiting q gs = messages (drop q.schedule_index gs)

open_buffer_lem :
    (policy : BufferingPolicy) (size : ℕ) (payload last : Bytes) (q : ChannelQueue)
    → open_buffer policy size payload q ≡ some last
    → (last_buffer q.buffer_queue ≡ some last)
      × (is_per_message policy ≡ false)
      × (q.should_cut_buffer ≡ false)
unfolding open_buffer
open_buffer_lem policy size payload last q h = ground arith

module _ {M : Type 0} (codec : Codec M) (size : ℕ) (policy : BufferingPolicy) (c : Text)
    (fits : length c ≤ 16) where
  append_to_lem :
      (last payload : Bytes) (now : ℕ) (q : ChannelQueue) {q' : ChannelQueue}
      → append_to codec size policy last payload now q ≡ ok q'
      → (grown : Bytes) × (append_msg_bytes last payload size ≡ ok grown)
        × (q' ≡ record q {
          buffer_queue = set_last q.buffer_queue grown;
          msg_id_seq = q.msg_id_seq + 1;
          last_update_ts = some now;
        })
  unfolding append_to
  append_to_lem last payload now q h = elim (Result-cases (append_msg_bytes last payload size)) [
    | inl failed ↦ absurd (cc (rw failed at h))
    | inr (grown, run) ↦ (grown, run, cc (rw run at h))
  ]

  -- A message that goes into the last buffer.
  append_to-Queued :
      (q : ChannelQueue) (gs : List Group) (last payload : Bytes) (now : ℕ) (msg : Bytes)
      → {q' : ChannelQueue} → Queued c policy q gs
      → open_buffer policy size payload q ≡ some last
      → payload ≡ entry q.msg_id_seq msg
      → append_to codec size policy last payload now q ≡ ok q'
      → (gs' : List Group) × Queued c policy q' gs'
        × (waiting q' gs' ≡ waiting q gs ++ (q.msg_id_seq, msg) ∷ [])
  unfolding open_buffer
  append_to-Queued q gs last payload now msg {q'} queued opened is_entry h =
      let (found, periodic, uncut) = open_buffer_lem policy size payload last q opened in
      let (grown, appended, is_q') = append_to_lem last payload now q h in
      let (id, msgs, is_last, some_left, set_grown) =
        last_buffer-buffers c gs (rw queued.holds at found) in
      let e : ℕ × Bytes = (q.msg_id_seq, msg) in
      let is_grown : grown ≡ layout c id (msgs ++ e ∷ []) =
        append_msg_bytes-grows c id msgs q.msg_id_seq msg size fits is_last is_entry appended in
      let below : q.schedule_index < length gs = inside periodic uncut some_left in
      rw is_q' (
        grow_last gs e,
        record {
          holds =
              ap (λ (bs : List Bytes). set_last bs grown) queued.holds
              ∙ ap (set_last (buffers c gs)) is_grown
              ∙ set_grown e;
          scheduled = omega (arith, length-grow_last gs e);
          cut = λ p n at_end. absurd (omega (arith, length-grow_last gs e));
        },
        grow_last-behind q.schedule_index gs e below,
      )
    where
      inside :
          is_per_message policy ≡ false
          → q.should_cut_buffer ≡ false
          → 0 < length gs
          → q.schedule_index < length gs
      inside periodic uncut some_left = elim (Bool-cases (q.schedule_index == length gs)) [
        | inl all ↦ absurd (cc (queued.cut periodic some_left (ground arith)))
        | inr other ↦ let h = queued.scheduled in ground arith
      ]

  -- A message that goes into a new buffer.
  append_new-Queued :
      (q : ChannelQueue) (gs : List Group) (buffer : Bytes) (now : ℕ) (msg : Bytes)
      → Queued c policy q gs
      → buffer ≡ layout c q.buffer_id_seq ((q.msg_id_seq, msg) ∷ [])
      → (gs' : List Group) × Queued c policy (append_new codec size policy buffer now q) gs'
        × (waiting (append_new codec size policy buffer now q) gs'
            ≡ waiting q gs ++ (q.msg_id_seq, msg) ∷ [])
  unfolding append_new
  append_new-Queued q gs buffer now msg queued is_layout =
      let e : ℕ × Bytes = (q.msg_id_seq, msg) in
      let g : Group = (q.buffer_id_seq, e ∷ []) in
      let h = queued.scheduled in
      let len = length-append gs (g ∷ []) in
      (
        gs ++ g ∷ [],
        record {
          holds = rw (queued.holds, is_layout) (sym (buffers-append c gs (g ∷ [])));
          scheduled = omega (arith, len);
          cut = λ p n at_end. absurd (omega (arith, len));
        },
        rw (drop-append_le q.schedule_index gs (g ∷ []) h)
            (messages-append (drop q.schedule_index gs) (g ∷ [])),
      )

  -- What `append_msg` answers says whether the message waits behind the others or nothing changed.
  abbrev pub Enqueued : M → ChannelQueue → List Group → ChannelQueue → Option (ℕ × ℕ) → Type 0
  Enqueued msg q gs q' none = q' ≡ q
  Enqueued msg q gs q' (some answer) =
      (gs' : List Group) × Queued c policy q' gs'
      × (waiting q' gs' ≡ waiting q gs ++ (q.msg_id_seq, codec.msg_to_bytes msg) ∷ [])

  append_fresh-Enqueued :
      (msg : M) (now : ℕ) (q : ChannelQueue) (gs : List Group)
      (tracker : Option BufferMemoryTracker)
      → {q' : ChannelQueue} {tracker' : Option BufferMemoryTracker} {answer : Option (ℕ × ℕ)}
      → Queued c policy q gs
      → append_fresh codec size policy msg c now q tracker ≡ ok (q', tracker', answer)
      → Enqueued msg q gs q' answer
  unfolding append_fresh serialize_msg
  append_fresh-Enqueued msg now q gs tracker {q'} {tracker'} {answer} queued h =
      elim (Bool-cases (acquire_one c tracker).1) [
        | inl mem ↦
            elim (Result-cases (serialize_msg codec c q.buffer_id_seq msg q.msg_id_seq size true)) [
              | inl failed ↦ absurd (cc (rw (mem, failed) at h))
              | inr (buffer, written) ↦
                  let done = rw (mem, written) at h in
                  let is_layout =
                    (serialize_msg_bytes-first c q.buffer_id_seq (codec.msg_to_bytes msg)
                      q.msg_id_seq size written).1 in
                  let enqueued =
                    append_new-Queued q gs buffer now (codec.msg_to_bytes msg) queued is_layout in
                  let is_q' : append_new codec size policy buffer now q ≡ q' = cc in
                  let is_some : some (q.msg_id_seq, q.buffer_id_seq) ≡ answer = cc in
                  subst (Enqueued msg q gs q') is_some (
                    subst
                      (λ (r : ChannelQueue).
                        Enqueued msg q gs r (some (q.msg_id_seq, q.buffer_id_seq)))
                      is_q' enqueued)
            ]
        | inr full ↦
            let done = rw full at h in
            let is_none : none ≡ answer = cc in
            let same : q' ≡ q = cc in subst (Enqueued msg q gs q') is_none same
      ]

  append_payload-Enqueued :
      (msg : M) (now : ℕ) (q : ChannelQueue) (gs : List Group)
      (tracker : Option BufferMemoryTracker)
      → {q' : ChannelQueue} {tracker' : Option BufferMemoryTracker} {answer : Option (ℕ × ℕ)}
      → Queued c policy q gs
      → append_payload codec size policy
          (entry q.msg_id_seq (codec.msg_to_bytes msg))
          msg
          c
          now
          q
          tracker
        ≡ ok (q', tracker', answer)
      → Enqueued msg q gs q' answer
  unfolding append_payload
  append_payload-Enqueued msg now q gs tracker {q'} {tracker'} {answer} queued h =
      let payload = entry q.msg_id_seq (codec.msg_to_bytes msg) in
      elim (Option-cases (open_buffer policy size payload q)) [
        | inl closed ↦
            append_fresh-Enqueued msg now q gs tracker queued (rw (closed, append_payload) at h)
        | inr (last, opened) ↦
            elim (Result-cases (append_to codec size policy last payload now q)) [
              | inl failed ↦ absurd (cc (rw (opened, failed, append_payload) at h))
              | inr (q1, run) ↦
                  let done = rw (opened, run, append_payload) at h in
                  let is_q' : q1 ≡ q' = cc in
                  let is_some : some (q.msg_id_seq, q.buffer_id_seq) ≡ answer = cc in
                  subst (Enqueued msg q gs q') is_some (
                    subst
                      (λ (r : ChannelQueue).
                        Enqueued msg q gs r (some (q.msg_id_seq, q.buffer_id_seq)))
                      is_q'
                      (append_to-Queued q gs last payload now (codec.msg_to_bytes msg) queued opened
                        refl run))
            ]
      ]

  pub append_msg-Enqueued :
      (msg : M) (now : ℕ) (q : ChannelQueue) (gs : List Group)
      (tracker : Option BufferMemoryTracker)
      → {q' : ChannelQueue} {tracker' : Option BufferMemoryTracker} {answer : Option (ℕ × ℕ)}
      → Queued c policy q gs
      → append_msg codec size policy msg c now q tracker ≡ ok (q', tracker', answer)
      → Enqueued msg q gs q' answer
  unfolding append_msg serialize_msg
  append_msg-Enqueued msg now q gs tracker queued h =
      append_payload-Enqueued msg now q gs tracker queued (
        rw (serialize_msg_bytes-more c q.buffer_id_seq (codec.msg_to_bytes msg) q.msg_id_seq size)
          at h)
