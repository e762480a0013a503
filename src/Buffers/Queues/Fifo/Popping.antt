-- ===== src/Buffers/Queues/Fifo/Popping.antt =====
-- buffer_queues.py: `pop` takes only scheduled buffers from the queue.
use volga.Prelude.{
  false, nat_eq, ℕ, zero, suc, ◌+◌, ◌-◌, ◌≤◌, ◌≡◌, sym, ap, ◌∙◌, subst, ◌==◌, Bool, true, Option,
  List, [], ◌∷◌, length, drop, ok, Result-cases, Bool-cases, inl, inr, arith,
}
use volga.Prelude.Dict
use volga.Prelude.Dict.{Dict}
use volga.Buffers.Varint.{Bytes}
use volga.Buffers.Serializer.{Text}
use volga.Buffers.Serializer.Layout.{get_buffer_id-layout}
use volga.Buffers.Tracker.{BufferMemoryTracker}
use volga.Buffers.Queues.{BufferingPolicy, ChannelQueue, release_one, pop_ready, pop}
use volga.Buffers.Queues.Groups.{Group, messages, buffers}
use volga.Buffers.Queues.Fifo.{Queued, waiting}

module _ (c : Text) (fits : length c ≤ 16) where
  -- Only the scheduled part gets shorter.
  record Shortened (gs : List Group) (i : ℕ) (queue : List Bytes) (i' : ℕ) (gs' : List Group)
      : Type 0 where
    holds : queue ≡ buffers c gs'
    within : i' ≤ length gs'
    same_rest : drop i gs ≡ drop i' gs'
    same_count : length gs + i' ≡ length gs' + i
    shorter : length gs' ≤ length gs

  unmoved :
      (gs : List Group) {i i' : ℕ} {queue : List Bytes}
      → i ≤ length gs
      → i ≡ i'
      → buffers c gs ≡ queue
      → (gs' : List Group) × Shortened gs i queue i' gs'
  unmoved gs within is_i is_queue = (
    gs,
    record {
      holds = sym is_queue;
      within = omega arith;
      same_rest = ap (λ (n : ℕ). drop n gs) is_i;
      same_count = omega arith;
      shorter = omega arith;
    },
  )

  pop_ready-Shortened :
      (gs : List Group) (i : ℕ) (pops : Dict ℕ Bool) (tracker : Option BufferMemoryTracker)
      → {queue : List Bytes} {i' : ℕ} {pops' : Dict ℕ Bool} {tracker' : Option BufferMemoryTracker}
      → i ≤ length gs
      → pop_ready c (buffers c gs) i pops tracker ≡ ok (queue, i', pops', tracker')
      → (gs' : List Group) × Shortened gs i queue i' gs'
  unfolding pop_ready
  pop_ready-Shortened [] i pops tracker {queue} {i'} within h =
      let is_i : i ≡ i' = cc in
      (
        [],
        record {
          holds = cc;
          within = omega arith;
          same_rest = ap (λ (n : ℕ). drop {A = Group} n []) is_i;
          same_count = omega arith;
          shorter = omega arith;
        },
      )
  pop_ready-Shortened ((id, msgs) ∷ gs) zero pops tracker within h =
      let read = get_buffer_id-layout c id fits msgs in
      elim (Bool-cases (Dict.has id pops)) [
        | inr kept ↦
            unmoved ((id, msgs) ∷ gs) within (cc (rw (read, kept) at h)) (cc (rw (read, kept) at h))
        | inl asked ↦ absurd (cc (rw (read, asked) at h))
      ]
  pop_ready-Shortened ((id, msgs) ∷ gs) (suc i) pops tracker within h =
      let read = get_buffer_id-layout c id fits msgs in
      let some_left : (suc i == 0) ≡ false = ground arith in
      elim (Bool-cases (Dict.has id pops)) [
        | inr kept ↦
            unmoved ((id, msgs) ∷ gs) within (cc (rw (read, kept) at h)) (cc (rw (read, kept) at h))
        | inl asked ↦ elim (Result-cases (release_one c tracker)) [
          | inl failed ↦ absurd (cc (rw (read, asked, some_left, failed) at h))
          | inr (tracker1, freed) ↦
              let one_less : suc i - 1 ≡ i = omega arith in
              let (gs', short) =
                pop_ready-Shortened gs i (Dict.delete id pops) tracker1 (omega arith)
                  (rw (read, asked, some_left, freed, one_less) at h) in
              (
                gs',
                record {
                  holds = short.holds;
                  within = short.within;
                  same_rest = short.same_rest;
                  same_count = let count = short.same_count in omega arith;
                  shorter = let less = short.shorter in omega arith;
                },
              )
        ]
      ]

  pub pop-Queued :
      (policy : BufferingPolicy) (buffer_id : ℕ) (q : ChannelQueue) (gs : List Group)
      → (tracker : Option BufferMemoryTracker)
      → {q' : ChannelQueue} {tracker' : Option BufferMemoryTracker} → Queued c policy q gs
      → pop c buffer_id q tracker ≡ ok (q', tracker')
      → (gs' : List Group) × Queued c policy q' gs' × (waiting q' gs' ≡ waiting q gs)
  unfolding pop
  pop-Queued policy buffer_id q gs tracker {q'} {tracker'} queued h =
      let pops = Dict.put buffer_id true q.pops in
      elim (Bool-cases (length q.buffer_queue == 0)) [
        | inl empty ↦ absurd (cc (rw empty at h))
        | inr filled ↦
            elim (Result-cases (pop_ready c q.buffer_queue q.schedule_index pops tracker)) [
              | inl failed ↦ absurd (cc (rw (filled, failed) at h))
              | inr ((queue, i', pops', tracker1), run) ↦
                  let done = rw (filled, run) at h in
                  let (gs', short) =
                    pop_ready-Shortened gs q.schedule_index pops tracker queued.scheduled
                      (rw queued.holds at run) in
                  let popped : ChannelQueue = record q {
                    buffer_queue = queue;
                    schedule_index = i';
                    pops = pops';
                  } in
                  let is_q' : popped ≡ q' = cc in
                  let queued' : Queued c policy popped gs' = record {
                    holds = short.holds;
                    scheduled = short.within;
                    cut = λ p n at_end.
                        let count = short.same_count in
                        let less = short.shorter in queued.cut p (omega arith) (omega arith);
                  } in
                  (
                    gs',
                    subst (λ (r : ChannelQueue). Queued c policy r gs') is_q' queued',
                    ap (λ (r : ChannelQueue). waiting r gs') (sym is_q')
                        ∙ ap messages (sym short.same_rest),
                  )
            ]
      ]
