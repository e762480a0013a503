-- ===== src/Partition.antt =====
-- volga/streaming/api/partition/partition.py: which downstream channels a record goes to. A partition
-- object keeps state between records, so `partition` returns the object as it is afterwards.
pub mod Range
mod Tests
use volga.Prelude.{ℕ, zero, suc, ◌+◌, ◌%◌, Bool, List, [], ◌∷◌, length, ◌==◌, if◌then◌else◌}
use volga.Prelude.Int.{ℤ, pos, negsuc}

-- The class of a partition object, which is all that the graph code asks of it.
pub data PartitionClass : Type 0 where
  broadcast key round_robin forward simple : PartitionClass

-- The objects, over the records `R`. `broadcast_by` holds the cached list of all partitions.
pub data Partition (R : Type 0) : Type 0 where
  broadcast_by : (partitions : List ℕ) → Partition R
  key_by : Partition R
  round_robin_by : (seq : ℕ) → Partition R
  forward_to : Partition R
  simple_by : (func : R → ℕ → List ℕ) → Partition R

-- `%` by zero raises.
pub data Outcome (A : Type 0) : Type 0 where
  returns : A → Outcome A
  zero_division : Outcome A

-- `list(range(n))`
unfoldable pub range_from : ℕ → ℕ → List ℕ
range_from start zero = []
range_from start (suc n) = start ∷ range_from (suc start) n

abbrev pub abs : ℤ → ℕ
abs (pos n) = n
abs (negsuc n) = n + 1

-- `hash_key` is Python's `hash(record.key)`.
module _ {R : Type 0} (hash_key : R → ℤ) where
  unfoldable pub partition : Partition R → R → ℕ → Outcome (List ℕ × Partition R)
  unfolding range_from
  partition (broadcast_by cached) r n =
      let now : List ℕ = if length cached == n then cached else range_from 0 n in
      returns (now, broadcast_by now)
  partition key_by r n =
      if n == 0 then zero_division else returns ((abs (hash_key r) % n) ∷ [], key_by)
  partition (round_robin_by seq) r n =
      if n == 0
      then zero_division
      else returns (((seq + 1) % n) ∷ [], round_robin_by ((seq + 1) % n))
  partition forward_to r n = returns (0 ∷ [], forward_to)
  partition (simple_by func) r n = returns (func r n, simple_by func)

module _ {R : Type 0} where
  -- `isinstance` on a partition object.
  unfoldable pub class_of : Partition R → PartitionClass
  class_of (broadcast_by _) = broadcast
  class_of key_by = key
  class_of (round_robin_by _) = round_robin
  class_of forward_to = forward
  class_of (simple_by _) = simple

  -- The objects that the constructors of the classes make.
  abbrev pub new_broadcast : Partition R
  new_broadcast = broadcast_by []

  abbrev pub new_round_robin : Partition R
  new_round_robin = round_robin_by 0
