-- ===== src/Dataset.antt =====
-- volga/api/dataset/schema.py and the operators of volga/api/dataset/operators.py that keep, select or
-- change a schema. `T` is Python's types, and `datetime` the one of the timestamp.
pub mod Join
pub mod Aggregate
mod Tests
use Prim.Native.String.{String}
use volga.Prelude.{
  ◌==◌, ◌≡◌, Bool, true, false, not, ◌&&◌, ◌||◌, Option, none, some, List, [], ◌∷◌, ◌++◌, Result,
  ok, raised, ◌>>=◌, if◌then◌else◌, length, Eq, string_eq, ℕ, suc, zero,
}
use volga.Prelude.Dict
use volga.Prelude.Dict.{Dict}

pub record Schema (T : Type 0) : Type 0 where
  pub keys : Dict String T
  pub values : Dict String T
  pub timestamp : String

-- `x in xs`
unfoldable pub contains : List String → String → Bool
contains [] x = false
contains (y ∷ ys) x = if string_eq.beq y x then true else contains ys x

-- `{**d, **e}`
unfoldable pub merge {ℓ} : {V : Type ℓ} → Dict String V → Dict String V → Dict String V
merge d [] = d
merge d ((k, v) ∷ e) = merge (Dict.put k v d) e

-- `for k in names: d[k] = source[k]`, which raises for a name that `source` does not have.
unfoldable pub copy_all :
    {V : Type 0} → List String → Dict String V → Dict String V → Result (Dict String V)
copy_all [] source d = ok d
copy_all (k ∷ names) source d = elim (Dict.get k source) [
  | none ↦ raised
  | some v ↦ copy_all names source (Dict.put k v d)
]

dropped : List String → String → List String → List String
dropped columns ts [] = []
dropped columns ts (c ∷ cs) =
    let rest = dropped columns ts cs in
    if not (contains columns c) && not (string_eq.beq c ts) then c ∷ rest else rest

module _ {T : Type 0} where
  unfoldable pub to_dict : T → Schema T → Dict String T
  unfolding merge
  to_dict datetime s = Dict.put s.timestamp datetime (merge (merge [] s.keys) s.values)

  abbrev pub fields : Schema T → List String
  fields s = Dict.keys s.keys ++ Dict.keys s.values ++ s.timestamp ∷ []

  unfoldable pub get_type : T → Schema T → String → Result T
  get_type datetime s field = elim (Dict.get field s.keys) [
    | some t ↦ ok t
    | none ↦ elim (Dict.get field s.values) [
      | some t ↦ ok t
      | none ↦ if string_eq.beq field s.timestamp then ok datetime else raised
    ]
  ]

  -- The loop of `Transform.schema`.
  unfoldable pub new_values : Schema T → Dict String T → Dict String T → Result (Dict String T)
  new_values input_schema [] values = ok values
  new_values input_schema ((field, t) ∷ new_schema) values =
      let skipped = new_values input_schema new_schema values in
      let added = new_values input_schema new_schema (Dict.put field t values) in
      if Dict.has field input_schema.keys || string_eq.beq field input_schema.timestamp
      then skipped
      else (if Dict.has field values then raised else added)

  -- `Transform.schema`
  unfoldable pub transform_schema : Option (Dict String T) → Schema T → Result (Schema T)
  unfolding new_values
  transform_schema none input_schema = ok input_schema
  transform_schema (some new_schema_dict) input_schema =
      new_values input_schema new_schema_dict [] >>= λ values.
      ok (record { keys = input_schema.keys; values = values; timestamp = input_schema.timestamp })

  -- `select`: the columns that `Drop` is given, and nothing when the operator itself is returned.
  unfoldable pub select : List String → Schema T → Option (List String)
  unfolding dropped contains
  select columns s =
      let drop_cols = dropped columns s.timestamp (fields s) in
      if length drop_cols == 0 then none else some drop_cols

-- `GroupBy.__init__` and its key function: exactly one key field, and an event has it.
unfoldable pub group_by : List String → Result String
group_by [] = raised
group_by (key ∷ []) = ok key
group_by (key ∷ _ ∷ _) = raised

unfoldable pub stream_key_by : {V : Type 0} → String → Dict String V → Result V
stream_key_by key event = elim (Dict.get key event) [ none ↦ raised | some v ↦ ok v ]
