-- ===== src/Operators/Join.antt =====
-- `JoinOperator` (operators.py) and `TwoInputProcessor` (processor.py).
pub mod Pairs
use volga.Prelude.{
  Bool, true, false, Option, none, some, List, [], ◌∷◌, map, if◌then◌else◌, Eq, Result, ok, raised,
  ◌>>=◌, string_eq,
}
use volga.Prelude.Dict
use volga.Prelude.Dict.{Dict}
use volga.Operators.{Record, unkeyed}
use Prim.Native.String.{String}

pub record JoinState (V K : Type 0) : Type 0 where
  pub left_records_dict : Dict K (List (Record V K))
  pub right_records_dict : Dict K (List (Record V K))

-- `left_stream_name == stream_name`, where a name may be None.
unfoldable pub same_name : Option String → Option String → Bool
same_name none none = true
same_name none (some b) = false
same_name (some a) none = false
same_name (some a) (some b) = string_eq.beq a b

module _ {V K : Type 0} ⦃e : Eq K⦄ where
  -- `if key in d: ...` and else `d[key] = []`
  unfoldable pub ensure : K → Dict K (List (Record V K)) → Dict K (List (Record V K))
  ensure k d = if Dict.has k d then d else Dict.put k [] d

  -- The record that a left and a right record are joined to: the times are the left one's.
  unfoldable pub joined : (V → V → V) → Record V K → Record V K → Record V K
  unfolding unkeyed
  joined join left right = unkeyed (join left.value right.value) left.event_time left.source_emit_ts

  unfoldable pub process_left :
      (V → V → V) → K → Record V K → JoinState V K → JoinState V K × List (Record V K)
  unfolding ensure joined
  process_left join k left state = (
    record {
      left_records_dict = Dict.push k left state.left_records_dict;
      right_records_dict = ensure k state.right_records_dict;
    },
    map (λ right. joined join left right) (Dict.get_or k [] state.right_records_dict),
  )

  unfoldable pub process_right :
      (V → V → V) → K → Record V K → JoinState V K → JoinState V K × List (Record V K)
  unfolding ensure joined
  process_right join k right state = (
    record {
      left_records_dict = ensure k state.left_records_dict;
      right_records_dict = Dict.push k right state.right_records_dict;
    },
    map (λ left. joined join left right) (Dict.get_or k [] state.left_records_dict),
  )

  -- `JoinOperator.process_element`
  unfoldable pub process_pair :
      (V → V → V)
      → JoinState V K
      → Option (Record V K)
      → Option (Record V K)
      → Result (JoinState V K × List (Record V K))
  unfolding process_left process_right
  process_pair join state (some left) right = elim left.key [
    | some k ↦ ok (process_left join k left state)
    | none ↦ raised
  ]
  process_pair join state none (some right) = elim right.key [
    | some k ↦ ok (process_right join k right state)
    | none ↦ raised
  ]
  process_pair join state none none = raised

  -- `TwoInputProcessor.process`
  unfoldable pub process_two :
      (V → V → V)
      → Option String
      → Option String
      → JoinState V K
      → Record V K
      → Result (JoinState V K × List (Record V K))
  unfolding process_pair same_name
  process_two join left_name right_name state r =
      if same_name left_name r.stream_name
      then process_pair join state (some r) none
      else if same_name right_name r.stream_name
      then process_pair join state none (some r)
      else raised
