-- ===== src/Dataset/Join.antt =====
-- volga/api/dataset/operators.py: the dataset's join, its schema and the functions that its stream
-- runs. A set of the fields both sides have is met in an order of its own, an argument here.
pub mod Joined
use Prim.Native.String
use Prim.Native.String.{String}
use volga.Prelude.{
  ◌==◌, Bool, true, false, not, ◌&&◌, ◌||◌, Option, none, some, List, [], ◌∷◌, ◌++◌, Result, ok,
  raised, ◌>>=◌, if◌then◌else◌, length, string_eq,
}
use volga.Prelude.Dict
use volga.Prelude.Dict.{Dict}
use volga.Dataset.{Schema, fields, contains, merge, copy_all}

-- The fields that the two sides are joined on.
pub record JoinOn : Type 0 where
  pub on : Option (List String)
  pub left_on : Option (List String)
  pub right_on : Option (List String)

one_key : Option (List String) → Bool
one_key none = true
one_key (some columns) = length columns == 1

given : Option (List String) → Bool
given none = false
given (some _) = true

-- `Join.__init__`
unfoldable pub new_join : JoinOn → Result JoinOn
unfolding one_key given
new_join j =
    if not (one_key j.on) || not (one_key j.left_on) || not (one_key j.right_on)
    then raised
    else (if (not (given j.left_on) && given j.right_on)
          || (given j.left_on && not (given j.right_on))
        then raised
        else ok j)

-- `OperatorNode.join`
unfoldable pub join : JoinOn → Result JoinOn
unfolding new_join given
join j =
    if not (given j.on) && (not (given j.left_on) || not (given j.right_on))
    then raised
    else (if (not (given j.left_on) || not (given j.right_on)) && not (given j.on)
        then raised
        else new_join j)

key_of : Option (List String) → Result String
key_of (some (k ∷ _)) = ok k
key_of (some []) = raised
key_of none = raised

-- `_stream_left_key_func` with `left_on`, and `_stream_right_key_func` with `right_on`.
unfoldable pub stream_key :
    {V : Type 0} → Option (List String) → Option (List String) → Dict String V → Result V
unfolding key_of
stream_key on own_on element =
    let key : Result String = elim on [
      | none ↦ key_of own_on
      | some columns ↦ key_of (some columns)
    ] in
    key >>= λ k. elim (Dict.get k element) [ none ↦ raised | some v ↦ ok v ]

append : String → String → String
append String.[] t = t
append (String.◌∷◌ c s) t = String.◌∷◌ c (append s t)

unfoldable pub prefix_duplicate_field : String → Bool → String
unfolding append
prefix_duplicate_field field is_left =
    if is_left then append "left_" field else append "right_" field

-- A field's name in the joined schema.
unfoldable pub new_name : (String → Bool) → Bool → String → String
unfolding prefix_duplicate_field
new_name same is_left f = if same f then prefix_duplicate_field f is_left else f

-- The key fields: `on`, and else `left_on`.
unfoldable pub key_fields : Option (List String) → Option (List String) → Result (List String)
key_fields (some columns) left_on = ok columns
key_fields none (some columns) = ok columns
key_fields none none = raised

module _ {T : Type 0} where
  unfoldable pub is_same : Schema T → Schema T → String → Bool
  unfolding contains
  is_same ls rs f = contains (fields ls) f && contains (fields rs) f

  -- Where a loop of `_joined_schema` looks a field up.
  unfoldable pub left_type : Schema T → String → Option T
  left_type ls f = elim (Dict.get f ls.values) [ some t ↦ some t | none ↦ Dict.get f ls.keys ]

  unfoldable pub right_type : T → Schema T → String → Option T
  unfolding left_type
  right_type datetime rs f = elim (left_type rs f) [
    | some t ↦ some t
    | none ↦ if string_eq.beq f rs.timestamp then some datetime else none
  ]

  -- The body that the two loops of `_joined_schema` share.
  unfoldable pub join_fields :
      (String → Option T)
      → (String → Bool)
      → Bool
      → String
      → Dict String T
      → List String
      → Dict String T
      → Result (Dict String T)
  unfolding new_name
  join_fields type_of same is_left ts keys [] values = ok values
  join_fields type_of same is_left ts keys (f ∷ fs) values =
      let rest = join_fields type_of same is_left ts keys fs in
      if string_eq.beq f ts || Dict.has f keys
      then rest values
      else (if Dict.has (new_name same is_left f) values then raised else elim (type_of f) [
        | none ↦ raised
        | some t ↦ rest (Dict.put (new_name same is_left f) t values)
      ])

  unfoldable pub joined_schema :
      T → Schema T → Schema T → Option (List String) → Option (List String) → Result (Schema T)
  unfolding key_fields copy_all join_fields is_same left_type right_type
  joined_schema datetime ls rs on left_on = key_fields on left_on >>= λ columns.
      copy_all columns ls.keys [] >>= λ keys.
      join_fields (left_type ls) (is_same ls rs) true ls.timestamp keys (fields ls) [] >>= λ lefts.
      join_fields (right_type datetime rs) (is_same ls rs) false ls.timestamp keys (fields rs) lefts
      >>= λ values. ok (record { keys = keys; values = values; timestamp = ls.timestamp })

module _ {V : Type 0} where
  -- One round of `_stream_join_func` on the left and the right event. The renamed field of the right
  -- one goes to the left event, too.
  unfoldable pub rename_same :
      String → Dict String V × Dict String V → Result (Dict String V × Dict String V)
  unfolding prefix_duplicate_field
  rename_same k (left, right) =
      let own : Result (Dict String V) = elim (Dict.get k left) [
        | none ↦ ok left
        | some v ↦
            if Dict.has (prefix_duplicate_field k true) left
            then raised
            else ok (Dict.delete k (Dict.put (prefix_duplicate_field k true) v left))
      ] in
      own >>= λ left'. elim (Dict.get k right) [
        | none ↦ ok (left', right)
        | some v ↦
            if Dict.has (prefix_duplicate_field k false) right
            then raised
            else ok (Dict.put (prefix_duplicate_field k false) v left', Dict.delete k right)
      ]

  rename_all : List String → Dict String V × Dict String V → Result (Dict String V × Dict String V)
  unfolding rename_same
  rename_all [] events = ok events
  rename_all (k ∷ same_fields) events = rename_same k events >>= λ next. rename_all same_fields next

  unfoldable pub stream_join_func :
      List String → Dict String V → Dict String V → Result (Dict String V)
  unfolding rename_all merge
  stream_join_func same_fields left right =
      rename_all same_fields (left, right) >>= λ events. ok (merge (merge [] events.0) events.1)

  -- A loop of `_stream_join_func_new`.
  unfoldable pub out_fields :
      List String → List String → Bool → Dict String V → Dict String V → Dict String V
  unfolding contains prefix_duplicate_field
  out_fields same_fields schema_fields is_left [] out_event = out_event
  out_fields same_fields schema_fields is_left ((f, v) ∷ event) out_event =
      let rest = out_fields same_fields schema_fields is_left event in
      if contains same_fields f
      then rest (Dict.put (prefix_duplicate_field f is_left) v out_event)
      else (if contains schema_fields f then rest (Dict.put f v out_event) else rest out_event)

  unfoldable pub stream_join_func_new :
      List String
      → List String
      → Option (Dict String V)
      → Option (Dict String V)
      → Result (Dict String V)
  unfolding out_fields
  stream_join_func_new same_fields schema_fields (some left) (some right) = ok (
      out_fields same_fields schema_fields false right
        (out_fields same_fields schema_fields true left []))
  stream_join_func_new same_fields schema_fields left right = raised
