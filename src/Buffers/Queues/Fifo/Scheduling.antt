-- ===== src/Buffers/Queues/Fifo/Scheduling.antt =====
-- buffer_queues.py: `schedule_next` takes the first of the waiting groups.
use volga.Prelude.{
  nat_eq, ℕ, suc, ◌+◌, ◌≤◌, ◌≡◌, ◌≢◌, refl, sym, ap, ◌∙◌, subst, ◌==◌, Bool, true, false, Option,
  none, some, List, ◌++◌, length, drop, get_elem?, ok, Result-cases, ltb, Bool-cases, Option-cases,
  inl, inr, arith,
}
use volga.Buffers.Varint.{Bytes}
use volga.Buffers.Serializer.{Text}
use volga.Buffers.Serializer.Layout.{layout}
use volga.Buffers.Queues.{
  BufferingPolicy, buffering, buffer_per_message, periodic_partial_flush, is_per_message,
  ChannelQueue, is_idle, take_next, schedule_last, schedule_next,
}
use volga.Buffers.Queues.Groups.{Group, messages, length-buffers, get_elem?-buffers}
use volga.Buffers.Queues.Fifo.{Queued, waiting}

module _ (policy : BufferingPolicy) (c : Text) (flushes : policy ≢ buffering) where
  -- What `schedule_next` answers: the first of the waiting groups, or nothing, and then it changed
  -- nothing.
  abbrev pub Scheduled : ChannelQueue → List Group → ChannelQueue → Option Bytes → Type 0
  Scheduled q gs q' none = q' ≡ q
  Scheduled q gs q' (some b) =
      (id : ℕ) × (msgs : List (ℕ × Bytes)) × (b ≡ layout c id msgs)
      × Queued c policy q' gs
      × (waiting q gs ≡ msgs ++ waiting q' gs)

  take_next-Scheduled :
      (q : ChannelQueue) (gs : List Group) (cut : Bool)
      → {q' : ChannelQueue} {answer : Option Bytes} → Queued c policy q gs
      → (is_per_message policy ≡ false → q.schedule_index + 1 ≡ length gs → cut ≡ true)
      → take_next q cut ≡ ok (q', answer)
      → Scheduled q gs q' answer
  unfolding take_next
  take_next-Scheduled q gs cut {q'} {answer} queued cuts h =
      elim (Option-cases (get_elem? q.buffer_queue q.schedule_index)) [
        | inl absent ↦ absurd (cc (rw (absent, take_next) at h))
        | inr (b, found) ↦
            let (id, msgs, is_layout, below, next) =
              get_elem?-buffers c q.schedule_index gs (rw queued.holds at found) in
            let done = rw (found, take_next) at h in
            let i = q.schedule_index in
            let moved : ChannelQueue = record q {
              schedule_index = i + 1;
              should_cut_buffer = cut;
            } in
            let one_on : suc i ≡ i + 1 = omega arith in
            let inside : i + 1 ≤ length gs = omega arith in
            let waits : waiting q gs ≡ msgs ++ waiting moved gs =
              ap messages next ∙ ap (λ (n : ℕ). msgs ++ messages (drop n gs)) one_on in
            let is_q' : moved ≡ q' = cc in
            let is_some : some b ≡ answer = cc in
            let queued' : Queued c policy moved gs = record {
              holds = queued.holds;
              scheduled = inside;
              cut = λ p n at_end. cuts p at_end;
            } in
            subst (Scheduled q gs q') is_some (
              subst (λ (r : ChannelQueue). Scheduled q gs r (some b)) is_q'
                (id, msgs, is_layout, queued', waits))
      ]

  schedule_last-Scheduled :
      (now : ℕ) (q : ChannelQueue) (gs : List Group)
      → {q' : ChannelQueue} {answer : Option Bytes} → Queued c policy q gs
      → schedule_last policy now q ≡ ok (q', answer)
      → Scheduled q gs q' answer
  unfolding schedule_last is_per_message
  schedule_last-Scheduled now q gs {q'} {answer} queued h = go policy refl
    where
      go : (p : BufferingPolicy) → p ≡ policy → Scheduled q gs q' answer
      go buffering e = absurd (flushes (sym e))
      go buffer_per_message e =
          take_next-Scheduled q gs q.should_cut_buffer queued (λ p at_end. absurd (cc))
            (rw (← e, schedule_last) at h)
      go (periodic_partial_flush period) e =
          elim (Result-cases (is_idle now period q.last_update_ts)) [
            | inl failed ↦ absurd (cc (rw (← e, schedule_last, failed) at h))
            | inr (true, run) ↦
                take_next-Scheduled q gs true queued (λ p at_end. refl)
                  (rw (← e, schedule_last, run) at h)
            | inr (false, run) ↦
                let done = rw (← e, schedule_last, run) at h in
                let is_none : none ≡ answer = cc in
                let same : q' ≡ q = cc in subst (Scheduled q gs q') is_none same
          ]

  pub schedule_next-Scheduled :
      (now : ℕ) (q : ChannelQueue) (gs : List Group)
      → {q' : ChannelQueue} {answer : Option Bytes} → Queued c policy q gs
      → schedule_next policy now q ≡ ok (q', answer)
      → Scheduled q gs q' answer
  unfolding schedule_next
  schedule_next-Scheduled now q gs {q'} {answer} queued h =
      let n = length q.buffer_queue in
      let i = q.schedule_index in
      elim (Bool-cases (ltb n i)) [
        | inl over ↦ absurd (cc (rw over at h))
        | inr within ↦ elim (Bool-cases (n == i)) [
          | inl all ↦
              let done = rw (within, all) at h in
              let is_none : none ≡ answer = cc in
              let same : q' ≡ q = cc in subst (Scheduled q gs q') is_none same
          | inr some_left ↦ elim (Bool-cases (n == i + 1)) [
            | inl one_left ↦
                schedule_last-Scheduled now q gs queued (rw (within, some_left, one_left) at h)
            | inr more_left ↦
                take_next-Scheduled q gs q.should_cut_buffer queued
                  (λ p at_end. absurd (
                    ground (arith, more_left, ap length queued.holds, length-buffers c gs, at_end)))
                  (rw (within, some_left, more_left) at h)
          ]
        ]
      ]
