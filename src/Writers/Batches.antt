-- ===== src/Writers/Batches.antt =====
-- volga/streaming/runtime/network/local/data_writer.py: the batch of one channel, under the channel's
-- lock. The clock and the answer of the Rust writer are arguments.
pub mod Order
use volga.Prelude.{
  ℕ, zero, suc, ◌+◌, ◌≤◌, ◌<◌, ◌==◌, ◌≡◌, refl, sym, ap, ◌∙◌, Bool, true, false, ◌&&◌, ◌||◌, Option,
  none, some, List, [], ◌∷◌, ◌++◌, append_assoc, append-nil, length, length-append, if◌then◌else◌,
  leb, Bool-cases, inl, inr, arith,
}

-- `write_bytes` is given the bytes of a whole batch; the batches that it took are kept here.
-- `last_write_ts` is -1 before the first write: that is `none`.
pub record BatchWriter (M : Type 0) : Type 0 where
  pub batch : List M
  pub last_write_ts : Option ℕ
  pub num_msgs_sent : ℕ
  pub written : List (List M)

-- `time.perf_counter() - last >= self._flush_period_s`
unfoldable pub is_late : ℕ → ℕ → Option ℕ → Bool
is_late flush_period now none = leb flush_period (now + 1)
is_late flush_period now (some last) = leb (last + flush_period) now

-- A call of the two methods, with the answer of the Rust writer and the time.
pub data Turn (M : Type 0) : Type 0 where
  write : Bool → ℕ → M → Turn M
  flush : Bool → ℕ → Turn M

module _ {M : Type 0} where
  abbrev pub new_batch_writer : BatchWriter M
  new_batch_writer = record { batch = []; last_write_ts = none; num_msgs_sent = 0; written = [] }

  -- `_try_write_message`
  unfoldable pub write_locked : ℕ → Bool → ℕ → M → BatchWriter M → BatchWriter M × Bool
  write_locked batch_size takes now message w =
      let batch = w.batch ++ message ∷ [] in
      if length batch == batch_size
      then (if takes
          then (
            record w { batch = []; last_write_ts = some now; written = w.written ++ batch ∷ [] },
            true,
          )
          else (w, false))
      else (record w { batch = batch; last_write_ts = some now }, true)

  unfoldable pub try_write_message : ℕ → Bool → ℕ → M → BatchWriter M → BatchWriter M × Bool
  unfolding write_locked
  try_write_message batch_size takes now message w =
      let (w', res) = write_locked batch_size takes now message w in
      (if res then record w' { num_msgs_sent = w'.num_msgs_sent + 1 } else w', res)

  unfoldable pub try_flush_if_needed : ℕ → Bool → ℕ → BatchWriter M → BatchWriter M
  unfolding is_late
  try_flush_if_needed flush_period takes now w =
      if is_late flush_period now w.last_write_ts
      then (if length w.batch == 0
          then w
          else (if takes
              then record w {
                batch = [];
                last_write_ts = some now;
                written = w.written ++ w.batch ∷ [];
              }
              else w))
      else w

  -- The writer after a turn, and the messages that it accepted in it.
  unfoldable pub turn : ℕ → ℕ → Turn M → BatchWriter M → BatchWriter M × List M
  turn batch_size flush_period (write takes now message) w =
      let (w', res) = try_write_message batch_size takes now message w in
      (w', if res then message ∷ [] else [])
  turn batch_size flush_period (flush takes now) w =
      (try_flush_if_needed flush_period takes now w, [])

  unfoldable pub turns : ℕ → ℕ → List (Turn M) → BatchWriter M → BatchWriter M × List M
  turns batch_size flush_period [] w = (w, [])
  turns batch_size flush_period (t ∷ ts) w =
      let (w₁, accepted) = turn batch_size flush_period t w in
      let (w₂, rest) = turns batch_size flush_period ts w₁ in (w₂, accepted ++ rest)

  unfoldable pub all_of : List (List M) → List M
  all_of [] = []
  all_of (b ∷ bs) = b ++ all_of bs

  -- What the writer holds of the messages that it accepted.
  pub Keeps : ℕ → List M → BatchWriter M → Type 0
  Keeps batch_size sent w =
      (all_of w.written ++ w.batch ≡ sent)
      × (w.num_msgs_sent ≡ length sent)
      × (length w.batch < batch_size)

  all_of-append : (bs : List (List M)) (b : List M) → all_of (bs ++ b ∷ []) ≡ all_of bs ++ b
  unfolding all_of
  all_of-append [] b = append-nil b
  all_of-append (c ∷ bs) b =
      ap (λ (r : List M). c ++ r) (all_of-append bs b) ∙ sym (append_assoc c (all_of bs) b)
