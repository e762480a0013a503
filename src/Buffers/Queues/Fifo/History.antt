-- ===== src/Buffers/Queues/Fifo/History.antt =====
-- buffer_queues.py: the methods of a channel one after the other, with what was accepted and what was
-- handed to the sender so far.
use volga.Prelude.{
  ℕ, ◌≡◌, ◌≢◌, refl, sym, ap, ◌∙◌, subst, Option, none, some, List, [], ◌∷◌, ◌++◌, drop,
  append_assoc, append-nil, Result, ok, ◌>>=◌, Result-cases, length, ◌≤◌, inl, inr, arith,
}
use volga.Buffers.Varint.{Bytes}
use volga.Buffers.Serializer.{Text, Codec}
use volga.Buffers.Tracker.{BufferMemoryTracker}
use volga.Buffers.Queues.{
  BufferingPolicy, buffering, ChannelQueue, new_channel_queue, append_msg, schedule_next, pop,
}
use volga.Buffers.Queues.Groups.{Group, read_all, read_all-buffers, read_all-append, drop-buffers}
use volga.Buffers.Queues.Fifo.{Queued, waiting, append_msg-Enqueued}
use volga.Buffers.Queues.Fifo.Scheduling.{schedule_next-Scheduled}
use volga.Buffers.Queues.Fifo.Popping.{pop-Queued}

-- A call of a method; the clock's reading goes with those that ask for it.
pub data Method (M : Type 0) : Type 0 where
  append_msg_at : M → ℕ → Method M
  schedule_next_at : ℕ → Method M
  pop_id : ℕ → Method M

pub record History : Type 0 where
  pub queue : ChannelQueue
  pub tracker : Option BufferMemoryTracker
  pub accepted : List (ℕ × Bytes)
  pub sent : List Bytes

abbrev pub started : Option BufferMemoryTracker → History
started tracker = record { queue = new_channel_queue; tracker = tracker; accepted = []; sent = [] }

module _ {M : Type 0} (codec : Codec M) (size : ℕ) (policy : BufferingPolicy) (c : Text) where
  unfoldable pub note_appended :
      M → History → ChannelQueue × Option BufferMemoryTracker × Option (ℕ × ℕ) → History
  note_appended msg h (q, tracker, none) = record h { queue = q; tracker = tracker }
  note_appended msg h (q, tracker, some answer) = record h {
    queue = q;
    tracker = tracker;
    accepted = h.accepted ++ (h.queue.msg_id_seq, codec.msg_to_bytes msg) ∷ [];
  }

  unfoldable pub note_sent : History → ChannelQueue × Option Bytes → History
  note_sent h (q, none) = record h { queue = q }
  note_sent h (q, some b) = record h { queue = q; sent = h.sent ++ b ∷ [] }

  unfoldable pub invoke : Method M → History → Result History
  unfolding note_appended note_sent
  invoke (append_msg_at msg now) h = do
    answer ← append_msg codec size policy msg c now h.queue h.tracker
    ok (note_appended msg h answer)
  invoke (schedule_next_at now) h = do
    answer ← schedule_next policy now h.queue
    ok (note_sent h answer)
  invoke (pop_id id) h = do
    (q, tracker) ← pop c id h.queue h.tracker
    ok (record h { queue = q; tracker = tracker })

  unfoldable pub invoke_all : List (Method M) → History → Result History
  unfolding invoke
  invoke_all [] h = ok h
  invoke_all (m ∷ ms) h = do h' ← invoke m h; invoke_all ms h'

  module _ (fits : length c ≤ 16) (flushes : policy ≢ buffering) where
    -- What was accepted is what the sent buffers hold, and then what waits.
    record Balanced (h : History) : Type 0 where
      groups : List Group
      queued : Queued c policy h.queue groups
      sent_msgs : List (ℕ × Bytes)
      read_back : read_all h.sent ≡ ok sent_msgs
      in_order : h.accepted ≡ sent_msgs ++ waiting h.queue groups

    append-Balanced :
        (msg : M) (now : ℕ) (h : History) (q : ChannelQueue) (tracker : Option BufferMemoryTracker)
        → (answer : Option (ℕ × ℕ)) → Balanced h
        → append_msg codec size policy msg c now h.queue h.tracker ≡ ok (q, tracker, answer)
        → Balanced (note_appended msg h (q, tracker, answer))
    unfolding note_appended
    append-Balanced msg now h q tracker none b run =
        let same : q ≡ h.queue =
          append_msg-Enqueued codec size policy c fits msg now h.queue b.groups h.tracker b.queued
            run in
        record {
          groups = b.groups;
          queued = subst (λ (r : ChannelQueue). Queued c policy r b.groups) (sym same) b.queued;
          sent_msgs = b.sent_msgs;
          read_back = b.read_back;
          in_order =
              b.in_order ∙ ap (λ (r : ChannelQueue). b.sent_msgs ++ waiting r b.groups) (sym same);
        }
    append-Balanced msg now h q tracker (some answer) b run =
        let (gs', queued', more) =
          append_msg-Enqueued codec size policy c fits msg now h.queue b.groups h.tracker b.queued
            run in
        let e : ℕ × Bytes = (h.queue.msg_id_seq, codec.msg_to_bytes msg) in
        record {
          groups = gs';
          queued = queued';
          sent_msgs = b.sent_msgs;
          read_back = b.read_back;
          in_order =
              ap (λ (r : List (ℕ × Bytes)). r ++ e ∷ []) b.in_order
              ∙ append_assoc b.sent_msgs (waiting h.queue b.groups) (e ∷ [])
              ∙ ap (◌++◌ b.sent_msgs) (sym more);
        }

    schedule-Balanced :
        (now : ℕ) (h : History) (q : ChannelQueue) (answer : Option Bytes)
        → Balanced h
        → schedule_next policy now h.queue ≡ ok (q, answer)
        → Balanced (note_sent h (q, answer))
    unfolding note_sent
    schedule-Balanced now h q none b run =
        let same : q ≡ h.queue =
          schedule_next-Scheduled policy c flushes now h.queue b.groups b.queued run in
        record {
          groups = b.groups;
          queued = subst (λ (r : ChannelQueue). Queued c policy r b.groups) (sym same) b.queued;
          sent_msgs = b.sent_msgs;
          read_back = b.read_back;
          in_order =
              b.in_order ∙ ap (λ (r : ChannelQueue). b.sent_msgs ++ waiting r b.groups) (sym same);
        }
    schedule-Balanced now h q (some buffer) b run =
        let (id, msgs, is_layout, queued', next) =
          schedule_next-Scheduled policy c flushes now h.queue b.groups b.queued run in
        let one_read : read_all (buffer ∷ []) ≡ ok (msgs ++ []) =
          ap (λ (x : Bytes). read_all (x ∷ [])) is_layout
          ∙ read_all-buffers c ((id, msgs) ∷ []) fits in
        record {
          groups = b.groups;
          queued = queued';
          sent_msgs = b.sent_msgs ++ (msgs ++ []);
          read_back = read_all-append h.sent (buffer ∷ []) b.read_back one_read;
          in_order =
              b.in_order
              ∙ ap (◌++◌ b.sent_msgs) (
                  next
                  ∙ ap (λ (r : List (ℕ × Bytes)). r ++ waiting q b.groups) (sym (append-nil msgs)))
              ∙ sym (append_assoc b.sent_msgs (msgs ++ []) (waiting q b.groups));
        }

    invoke-Balanced :
        (m : Method M) (h : History) {h' : History} → Balanced h → invoke m h ≡ ok h' → Balanced h'
    unfolding invoke
    invoke-Balanced (append_msg_at msg now) h b run =
        elim (Result-cases (append_msg codec size policy msg c now h.queue h.tracker)) [
          | inl failed ↦ absurd (cc (rw failed at run))
          | inr ((q, tracker, answer), e) ↦
              subst Balanced (cc (rw e at run)) (append-Balanced msg now h q tracker answer b e)
        ]
    invoke-Balanced (schedule_next_at now) h b run =
        elim (Result-cases (schedule_next policy now h.queue)) [
          | inl failed ↦ absurd (cc (rw failed at run))
          | inr ((q, answer), e) ↦
              subst Balanced (cc (rw e at run)) (schedule-Balanced now h q answer b e)
        ]
    invoke-Balanced (pop_id id) h b run = elim (Result-cases (pop c id h.queue h.tracker)) [
      | inl failed ↦ absurd (cc (rw failed at run))
      | inr ((q, tracker), e) ↦
          let (gs', queued', same) =
            pop-Queued c fits policy id h.queue b.groups h.tracker b.queued e in
          let popped : Balanced (record h { queue = q; tracker = tracker }) = record {
            groups = gs';
            queued = queued';
            sent_msgs = b.sent_msgs;
            read_back = b.read_back;
            in_order = b.in_order ∙ ap (◌++◌ b.sent_msgs) (sym same);
          } in
          subst Balanced (cc (rw e at run)) popped
    ]

    invoke_all-Balanced :
        (ms : List (Method M)) (h : History) {h' : History}
        → Balanced h
        → invoke_all ms h ≡ ok h'
        → Balanced h'
    unfolding invoke_all
    invoke_all-Balanced [] h b run = subst Balanced (cc) b
    invoke_all-Balanced (m ∷ ms) h b run = elim (Result-cases (invoke m h)) [
      | inl failed ↦ absurd (cc (rw (failed, invoke_all) at run))
      | inr (h1, e) ↦
          invoke_all-Balanced ms h1 (invoke-Balanced m h b e) (rw (e, invoke_all) at run)
    ]

    -- A periodic or per-message policy. However appending, scheduling and popping follow one another on
    -- a new channel, as long as none raises, the buffers handed to the sender and then those not yet
    -- scheduled hold together exactly the accepted messages, each once and in the order of acceptance.
    pub queue_is_fifo :
        (ms : List (Method M)) (tracker : Option BufferMemoryTracker) {h : History}
        → invoke_all ms (started tracker) ≡ ok h
        → (sent_msgs : List (ℕ × Bytes)) × (waiting_msgs : List (ℕ × Bytes)) × (read_all h.sent
            ≡ ok sent_msgs)
          × (read_all (drop h.queue.schedule_index h.queue.buffer_queue) ≡ ok waiting_msgs)
          × (h.accepted ≡ sent_msgs ++ waiting_msgs)
    queue_is_fifo ms tracker {h} run =
        let start : Balanced (started tracker) = record {
          groups = [];
          queued = record {
            holds = refl;
            scheduled = omega arith;
            cut = λ p n e. absurd (omega arith);
          };
          sent_msgs = [];
          read_back = unfold read_all in refl;
          in_order = refl;
        } in
        let b = invoke_all-Balanced ms (started tracker) start run in
        let i = h.queue.schedule_index in
        let held = b.queued.holds in
        (
          b.sent_msgs,
          waiting h.queue b.groups,
          b.read_back,
          ap (λ (bs : List Bytes). read_all (drop i bs)) held
              ∙ ap read_all (drop-buffers c i b.groups)
              ∙ read_all-buffers c (drop i b.groups) fits,
          b.in_order,
        )
