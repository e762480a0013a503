-- ===== src/JobGraph/Operator.antt =====
-- The operators of volga/streaming/api/operators/operators.py and chained.py as the graph sees them:
-- the class of the object, the id that a job vertex gives it, and chains of operators.
use volga.Prelude.{ℕ, Option, none, some, List, [], ◌∷◌, ltb, length, if◌then◌else◌}

pub data OperatorType : Type 0 where
  source one_input two_input : OperatorType

pub data OperatorClass : Type 0 where
  source_operator map_operator flat_map_operator filter_operator : OperatorClass
  key_by_operator reduce_operator sink_operator : OperatorClass
  union_operator join_operator multi_window_operator : OperatorClass

pub record StreamOperator : Type 0 where
  pub class : OperatorClass
  pub id : Option ℕ

-- `operator_type()`, which each class inherits.
abbrev type_of_class : OperatorClass → OperatorType
type_of_class source_operator = OperatorType.source
type_of_class join_operator = two_input
type_of_class _ = one_input

abbrev pub operator_type : StreamOperator → OperatorType
operator_type o = type_of_class o.class

-- What a vertex of the optimized graph runs.
pub data Runnable : Type 0 where
  single : StreamOperator → Runnable
  chained : (kind : OperatorType) (operators : List StreamOperator) (id : Option ℕ) → Runnable

-- `new_chained_operator`: the class of the chain is that of its head. The constructor asserts more
-- than one operator; `none` is a failed assertion or a missing head.
unfoldable pub new_chained_operator : List StreamOperator → Option Runnable
new_chained_operator [] = none
new_chained_operator (o ∷ os) =
    if ltb 1 (length (o ∷ os)) then some (chained (operator_type o) (o ∷ os) none) else none

-- `JobVertex.__init__` sets the operator's id.
abbrev pub set_id : ℕ → StreamOperator → StreamOperator
set_id i o = record o { id = some i }

abbrev pub set_runnable_id : ℕ → Runnable → Runnable
set_runnable_id i (single o) = single (set_id i o)
set_runnable_id i (chained kind os _) = chained kind os (some i)
