-- ===== src/Dataset/Tests.antt =====
-- The dataset's operators at concrete inputs: users and their orders, with whole numbers for types.
use Prim.Native.String.{String}
use volga.Prelude.{
  nat_eq, string_eq, ℕ, ◌==◌, ◌≡◌, refl, true, false, none, some, [], ◌∷◌, ◌++◌, ok, raised, ◌⊎◌,
  In, if◌then◌else◌,
}
use volga.Prelude.Dict
use volga.Prelude.Dict.{Dict}
use volga.Dataset.{Schema, fields, contains, copy_all}
use volga.Dataset.Join.{joined_schema, left_type, right_type, is_same}
use volga.Dataset.Join.Joined.{described, typed, joined_schema_lem}
use volga.Dataset.Aggregate.{find_time, output_window}
use volga.Dataset.Aggregate.Output.{output_window_lem}

abbrev users : Schema ℕ
users = record { keys = ("user", 1) ∷ []; values = ("name", 2) ∷ []; timestamp = "at" }

abbrev orders : Schema ℕ
orders = record {
  keys = ("buyer", 1) ∷ [];
  values = ("name", 2) ∷ ("price", 3) ∷ [];
  timestamp = "sold";
}

abbrev user_key : Dict String ℕ
user_key = ("user", 1) ∷ []

key_ok : copy_all ("user" ∷ []) users.keys [] ≡ ok user_key
unfolding copy_all Dict.get Dict.put
key_ok = refl

joined_schema_lem_example :
    (s : Schema ℕ) × (joined_schema 0 users orders none (some ("user" ∷ [])) ≡ ok s)
    × (s.timestamp ≡ "at")
    × (s.keys ≡ user_key)
    × (typed s.values
        ≡ described (left_type users) (is_same users orders) true "at" user_key (fields users)
          ++ described
              (right_type 0 orders)
              (is_same users orders)
              false
              "at"
              user_key
              (fields orders))
unfolding volga.Dataset.Join.key_fields volga.Dataset.Join.Joined.Fresh
    volga.Dataset.Join.Joined.names described Dict.has contains volga.Dataset.Join.new_name is_same
joined_schema_lem_example =
    joined_schema_lem 0 users orders none (some ("user" ∷ [])) ("user" ∷ []) user_key refl key_ok
      (refl, (refl, (refl, (refl, (refl, tt)))))

abbrev totals : Schema ℕ
totals = record { keys = ("user", 1) ∷ []; values = ("total", 3) ∷ []; timestamp = "at" }

abbrev event : Dict String ℕ
event = ("user", 5) ∷ ("time", 99) ∷ []

abbrev totals_now : Dict String ℕ
totals_now = ("total", 7) ∷ []

output_window_lem_example :
    ((res : Dict String ℕ) × (ts : ℕ) × (output_window (λ v. v == 99) totals totals_now event
        ≡ ok res)
      × (find_time (λ v. v == 99) (5 ∷ 99 ∷ []) ≡ some ts)
      × ((n : String)
          → Dict.get n res ≡ (
              if contains ("total" ∷ []) n
              then Dict.get n totals_now
              else (if string_eq.beq "at" n
                  then some ts
                  else (if contains ("user" ∷ []) n then Dict.get n event else none)))))
    ⊎ ((output_window (λ v. v == 99) totals totals_now event ≡ raised)
        × (((n : String) × In n ("user" ∷ []) × (Dict.get n event ≡ none))
            ⊎ ((find_time (λ v. v == 99) (5 ∷ 99 ∷ []) ≡ none)
                ⊎ ((n : String) × In n ("total" ∷ []) × (Dict.get n totals_now ≡ none)))))
output_window_lem_example = output_window_lem (λ v. v == 99) totals totals_now event
