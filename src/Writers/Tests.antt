-- ===== src/Writers/Tests.antt =====
-- The collector and the batches of the writer at concrete inputs.
use volga.Prelude.{
  ℕ, zero, suc, ◌≤◌, ◌<◌, ◌≡◌, Bool, true, false, List, [], ◌∷◌, ◌++◌, length, ok, arith,
}
use mathlib.Core.List.{Perm}
use volga.Writers.Collector.{Sent, collect, collect_lem}
use volga.Writers.Batches.{Turn, write, flush, turns, all_of, new_batch_writer}
use volga.Writers.Batches.Order.{batches_keep_order}

-- A writer that refuses as often as its state says.
abbrev try_write : ℕ → ℕ → ℕ × Bool
try_write p zero = (zero, true)
try_write p (suc n) = (n, false)

accepts : (p : ℕ) (w : ℕ) → (try_write p w).1 ≡ true → (try_write p w).0 ≤ w
accepts p zero h = omega arith
accepts p (suc n) h = omega arith

refuses : (p : ℕ) (w : ℕ) → (try_write p w).1 ≡ false → (try_write p w).0 < w
refuses p zero h = absurd (cc)
refuses p (suc n) h = omega arith

collect_lem_example :
    (s : Sent ℕ) × (collect try_write 6 (4 ∷ 0 ∷ 7 ∷ []) 3 ≡ ok s) × Perm (4 ∷ 0 ∷ 7 ∷ []) s.sent
collect_lem_example =
    collect_lem try_write (λ w. w) accepts refuses (4 ∷ 0 ∷ 7 ∷ []) 3 6 (omega arith)

abbrev some_turns : List (Turn ℕ)
some_turns =
    write true 0 10
    ∷ write false 1 11
    ∷ write true 1 12
    ∷ write true 2 13
    ∷ flush true 3
    ∷ flush true 9
    ∷ write true 9 14
    ∷ []

batches_keep_order_example :
    let (w, accepted) = turns 2 5 some_turns new_batch_writer in
    (all_of w.written ++ w.batch ≡ accepted)
    × (w.num_msgs_sent ≡ length accepted)
    × (length w.batch < 2)
batches_keep_order_example = batches_keep_order 2 5 (omega arith) some_turns
