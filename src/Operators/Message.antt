-- ===== src/Operators/Message.antt =====
-- volga/streaming/api/message/message.py: a record as the message of a channel, and back.
use volga.Prelude.{ℕ, Option, none, some, [], ◌∷◌, Result, ok, raised, ◌>>=◌, ◌≡◌, refl, string_eq}
use volga.Prelude.Dict
use volga.Prelude.Dict.{Dict}
use volga.Operators.{Record}
use Prim.Native.String.{String}

pub data Field (V K : Type 0) : Type 0 where
  key_field : K → Field V K
  value_field : V → Field V K
  name_field : Option String → Field V K
  number_field : Option ℕ → Field V K

module _ {V K : Type 0} where
  -- `to_channel_message` of a record and of one with a key.
  unfoldable pub to_channel_message : Record V K → Dict String (Field V K)
  to_channel_message r =
      let rest =
        ("value", value_field r.value)
        ∷ ("stream_name", name_field r.stream_name)
        ∷ ("event_time", number_field r.event_time)
        ∷ ("source_emit_ts", number_field r.source_emit_ts)
        ∷ [] in
      elim r.key [ some k ↦ ("key", key_field k) ∷ rest | none ↦ rest ]

  unfoldable pub read_key : Dict String (Field V K) → Result (Option K)
  read_key message = elim (Dict.get "key" message) [
    | some (key_field k) ↦ ok (some k)
    | some (value_field v) ↦ raised
    | some (name_field n) ↦ raised
    | some (number_field n) ↦ raised
    | none ↦ ok none
  ]

  unfoldable pub read_value : Dict String (Field V K) → Result V
  read_value message = elim (Dict.get "value" message) [
    | some (key_field k) ↦ raised
    | some (value_field v) ↦ ok v
    | some (name_field n) ↦ raised
    | some (number_field n) ↦ raised
    | none ↦ raised
  ]

  unfoldable pub read_name : Dict String (Field V K) → Result (Option String)
  read_name message = elim (Dict.get "stream_name" message) [
    | some (key_field k) ↦ raised
    | some (value_field v) ↦ raised
    | some (name_field n) ↦ ok n
    | some (number_field n) ↦ raised
    | none ↦ raised
  ]

  unfoldable pub read_number : String → Dict String (Field V K) → Result (Option ℕ)
  read_number name message = elim (Dict.get name message) [
    | some (key_field k) ↦ raised
    | some (value_field v) ↦ raised
    | some (name_field n) ↦ raised
    | some (number_field n) ↦ ok n
    | none ↦ raised
  ]

  unfoldable pub record_from_channel_message : Dict String (Field V K) → Result (Record V K)
  unfolding read_key read_value read_name read_number
  record_from_channel_message message = do
    key ← read_key message
    value ← read_value message
    event_time ← read_number "event_time" message
    source_emit_ts ← read_number "source_emit_ts" message
    stream_name ← read_name message
    ok (record {
      key = key;
      value = value;
      stream_name = stream_name;
      event_time = event_time;
      source_emit_ts = source_emit_ts;
    })

  from_fields :
      (key : Option K) (value : V) (name : Option String) (event_time emitted : Option ℕ)
      → let r : Record V K = record {
        key = key;
        value = value;
        stream_name = name;
        event_time = event_time;
        source_emit_ts = emitted;
      } in
        record_from_channel_message (to_channel_message r) ≡ ok r
  unfolding record_from_channel_message to_channel_message read_key read_value read_name read_number
      Dict.get
  from_fields none value name event_time emitted = refl
  from_fields (some k) value name event_time emitted = refl

  -- A record, with a key or without one, is read back from its message as it was.
  pub record_round_trip :
      (r : Record V K) → record_from_channel_message (to_channel_message r) ≡ ok r
  record_round_trip r = from_fields r.key r.value r.stream_name r.event_time r.source_emit_ts
