-- ===== src/Writers/Batches/Order.antt =====
-- data_writer.py: whatever the writer accepted is in the batches it wrote and in the open one, in
-- order, and nothing else is.
use volga.Prelude.{
  ℕ, ◌+◌, ◌<◌, ◌==◌, ◌≡◌, refl, sym, ap, ◌∙◌, Bool, List, [], ◌∷◌, ◌++◌, append_assoc, append-nil,
  length, length-append, Bool-cases, inl, inr, arith,
}
use volga.Writers.Batches.{
  BatchWriter, new_batch_writer, write_locked, try_write_message, is_late, try_flush_if_needed,
  Turn, write, flush, turn, turns, all_of, all_of-append, Keeps,
}

module _ {M : Type 0} (batch_size : ℕ) (flush_period : ℕ) (positive : 0 < batch_size) where
  one_more : (xs : List M) (m : M) → length (xs ++ m ∷ []) ≡ length xs + 1
  one_more xs m = length-append xs (m ∷ [])

  written_out : (bs : List (List M)) (b : List M) → all_of (bs ++ b ∷ []) ++ [] ≡ all_of bs ++ b
  written_out bs b = append-nil (all_of (bs ++ b ∷ [])) ∙ all_of-append bs b

  write-Keeps :
      (takes : Bool) (now : ℕ) (m : M) (sent : List M) (w : BatchWriter M)
      → Keeps batch_size sent w
      → let (w', accepted) = turn batch_size flush_period (write takes now m) w in
        Keeps batch_size (sent ++ accepted) w'
  unfolding Keeps turn try_write_message write_locked
  write-Keeps takes now m sent w (order, counted, short) =
      let longer : all_of w.written ++ (w.batch ++ m ∷ []) ≡ sent ++ m ∷ [] =
        sym (append_assoc (all_of w.written) w.batch (m ∷ []))
        ∙ ap (λ (r : List M). r ++ m ∷ []) order in
      let count : w.num_msgs_sent + 1 ≡ length (sent ++ m ∷ []) =
        omega (arith, counted, one_more sent m) in
      elim (Bool-cases (length (w.batch ++ m ∷ []) == batch_size)) [
        | inl full ↦ elim (Bool-cases takes) [
          | inl took ↦
              rw full
                (rw took (written_out w.written (w.batch ++ m ∷ []) ∙ longer, count, positive))
          | inr refused ↦ rw full (
              rw refused
                (order ∙ sym (append-nil sent), counted ∙ ap length (sym (append-nil sent)), short))
        ]
        | inr room ↦ rw room (longer, count, ground (arith, one_more w.batch m))
      ]

  flush-Keeps :
      (takes : Bool) (now : ℕ) (sent : List M) (w : BatchWriter M)
      → Keeps batch_size sent w
      → Keeps batch_size sent (try_flush_if_needed flush_period takes now w)
  unfolding Keeps try_flush_if_needed
  flush-Keeps takes now sent w (order, counted, short) =
      elim (Bool-cases (is_late flush_period now w.last_write_ts)) [
        | inr early ↦ rw early (order, counted, short)
        | inl late ↦ elim (Bool-cases (length w.batch == 0)) [
          | inl empty ↦ rw late (rw empty (order, counted, short))
          | inr held ↦ elim (Bool-cases takes) [
            | inl took ↦
                rw late
                  (rw held (rw took (written_out w.written w.batch ∙ order, counted, positive)))
            | inr refused ↦ rw late (rw held (rw refused (order, counted, short)))
          ]
        ]
      ]

  turn-Keeps :
      (t : Turn M) (sent : List M) (w : BatchWriter M)
      → Keeps batch_size sent w
      → let (w', accepted) = turn batch_size flush_period t w in
        Keeps batch_size (sent ++ accepted) w'
  unfolding turn
  turn-Keeps (write takes now m) sent w keeps = write-Keeps takes now m sent w keeps
  turn-Keeps (flush takes now) sent w keeps =
      rw (append-nil sent) (flush-Keeps takes now sent w keeps)

  turns-Keeps :
      (ts : List (Turn M)) (sent : List M) (w : BatchWriter M)
      → Keeps batch_size sent w
      → let (w', accepted) = turns batch_size flush_period ts w in
        Keeps batch_size (sent ++ accepted) w'
  unfolding turns
  turns-Keeps [] sent w keeps = rw (append-nil sent) keeps
  turns-Keeps (t ∷ ts) sent w keeps =
      let (w₁, accepted) = turn batch_size flush_period t w in
      let (w₂, rest) = turns batch_size flush_period ts w₁ in
      rw (sym (append_assoc sent accepted rest))
        (turns-Keeps ts (sent ++ accepted) w₁ (turn-Keeps t sent w keeps))

-- With a batch size above zero, after any calls of `try_write_message` and `try_flush_if_needed` on a
-- new writer, whatever the Rust writer answered and whatever the time was: the batches written and
-- then the open batch are the messages that were accepted, in their order; `num_msgs_sent` is their
-- number; and the open batch is shorter than the batch size.
pub batches_keep_order :
    {M : Type 0} (batch_size : ℕ) (flush_period : ℕ)
    → 0 < batch_size
    → (ts : List (Turn M))
    → let (w, accepted) = turns batch_size flush_period ts new_batch_writer in
      (all_of w.written ++ w.batch ≡ accepted)
      × (w.num_msgs_sent ≡ length accepted)
      × (length w.batch < batch_size)
unfolding Keeps all_of
batches_keep_order batch_size flush_period positive ts =
    turns-Keeps batch_size flush_period positive ts [] new_batch_writer (refl, refl, positive)
