-- ===== src/Dataset/Join/Joined.antt =====
-- volga/api/dataset/operators.py: what the joined schema has for the fields of the two sides.
use Prim.Native.String.{String}
use volga.Prelude.{
  ◌≡◌, refl, sym, ap, ◌∙◌, Bool, true, false, ◌||◌, Option, some, List, [], ◌∷◌, ◌++◌, append_assoc,
  append-nil, ok, if◌then◌else◌, Bool-cases, Option-cases, string_eq, beq_refl, All, All-append,
  All-map, In, In-All, ◌⊎◌, inl, inr, arith, subst,
}
use volga.Prelude.Dict
use volga.Prelude.Dict.{Dict}
use volga.Dataset.{Schema, fields, contains, copy_all}
use volga.Dataset.Join.{
  is_same, left_type, right_type, new_name, join_fields, key_fields, joined_schema,
}

-- None of the names was there before it came.
unfoldable pub Fresh : List String → List String → Type 0
Fresh seen [] = Unit
Fresh seen (n ∷ ns) = (contains seen n ≡ false) × Fresh (seen ++ n ∷ []) ns

module _ {T : Type 0} where
  -- A field of a side in the joined schema: its name there, and its type on its side.
  unfoldable pub described :
      (String → Option T)
      → (String → Bool)
      → Bool
      → String
      → Dict String T
      → List String
      → List (String × Option T)
  described type_of same is_left ts keys [] = []
  described type_of same is_left ts keys (f ∷ fs) =
      let rest = described type_of same is_left ts keys fs in
      if string_eq.beq f ts || Dict.has f keys
      then rest
      else (new_name same is_left f, type_of f) ∷ rest

  unfoldable pub names : List (String × Option T) → List String
  names [] = []
  names ((n, t) ∷ es) = n ∷ names es

  unfoldable pub typed : Dict String T → List (String × Option T)
  typed [] = []
  typed ((n, t) ∷ d) = (n, some t) ∷ typed d

  typed-append :
      (d : Dict String T) (n : String) (t : T)
      → typed (d ++ (n, t) ∷ []) ≡ typed d ++ (n, some t) ∷ []
  unfolding typed
  typed-append [] n t = refl
  typed-append ((m, u) ∷ d) n t =
      ap (λ (r : List (String × Option T)). (m, some u) ∷ r) (typed-append d n t)

  names-append : (es fs : List (String × Option T)) → names (es ++ fs) ≡ names es ++ names fs
  unfolding names
  names-append [] fs = refl
  names-append ((n, t) ∷ es) fs = ap (λ (r : List String). n ∷ r) (names-append es fs)

  keys-append :
      (d : Dict String T) (n : String) (t : T)
      → Dict.keys (d ++ (n, t) ∷ []) ≡ Dict.keys d ++ n ∷ []
  keys-append [] n t = refl
  keys-append ((m, u) ∷ d) n t = ap (λ (r : List String). m ∷ r) (keys-append d n t)

  has-contains : (n : String) (d : Dict String T) → Dict.has n d ≡ contains (Dict.keys d) n
  unfolding Dict.has contains
  has-contains n [] = refl
  has-contains n ((m, t) ∷ d) = ground (arith, has-contains n d)

  -- A field that a loop does not skip has a type.
  IsTyped : (String → Option T) → String → String → Type 0
  IsTyped type_of ts f = (string_eq.beq f ts ≡ true) ⊎ ((t : T) × (type_of f ≡ some t))

  join_fields-described :
      (type_of : String → Option T) (same : String → Bool) (is_left : Bool) (ts : String)
      (keys : Dict String T) (fs later : List String) (values : Dict String T)
      → All (IsTyped type_of ts) fs
      → Fresh (Dict.keys values) (names (described type_of same is_left ts keys fs) ++ later)
      → (values' : Dict String T) × (join_fields type_of same is_left ts keys fs values
          ≡ ok values')
        × (typed values' ≡ typed values ++ described type_of same is_left ts keys fs)
        × Fresh (Dict.keys values') later
  unfolding join_fields described names IsTyped Fresh
  join_fields-described type_of same is_left ts keys [] later values typed_all fresh =
      (values, refl, sym (append-nil (typed values)), fresh)
  join_fields-described type_of same is_left ts keys (f ∷ fs) later values (is_typed, typed_all)
        fresh =
      elim (Bool-cases (string_eq.beq f ts || Dict.has f keys)) [
        | inl skip ↦
            let (values', run, same_types, left) =
              join_fields-described type_of same is_left ts keys fs later values typed_all
                (rw skip at fresh) in
            (values', rw skip run, rw skip same_types, left)
        | inr keep ↦ elim is_typed [
          | inl at_ts ↦ absurd (ground arith)
          | inr (t, found) ↦
              let name = new_name same is_left f in
              let new : (contains (Dict.keys values) name ≡ false)
                  × Fresh (Dict.keys values ++ name ∷ [])
                      (names (described type_of same is_left ts keys fs) ++ later) =
                rw keep at fresh in
              let absent : Dict.has name values ≡ false = has-contains name values ∙ new.0 in
              let put : Dict.put name t values ≡ values ++ (name, t) ∷ [] =
                Dict.put-new name t values absent in
              let put_keys : Dict.keys (Dict.put name t values) ≡ Dict.keys values ++ name ∷ [] =
                ap (λ (d : Dict String T). Dict.keys d) put ∙ keys-append values name t in
              let (values', run, same_types, left) =
                join_fields-described type_of same is_left ts keys fs later (Dict.put name t values)
                  typed_all
                  (subst
                    (λ (seen : List String).
                      Fresh seen (names (described type_of same is_left ts keys fs) ++ later))
                    (sym put_keys) new.1) in
              (
                values',
                rw keep (rw absent (rw found run)),
                rw keep (
                    rw found (
                      same_types
                      ∙ ap
                          (λ (r : List (String × Option T)).
                            r ++ described type_of same is_left ts keys fs)
                          (ap typed put ∙ typed-append values name t)
                      ∙ append_assoc (typed values) ((name, some t) ∷ [])
                          (described type_of same is_left ts keys fs))),
                left,
              )
        ]
      ]

  In-keys→get :
      (f : String) (d : Dict String T) → In f (Dict.keys d) → (t : T) × (Dict.get f d ≡ some t)
  unfolding Dict.get
  In-keys→get f [] i = absurd i
  In-keys→get f ((m, t) ∷ d) (inl e) = (t, rw (sym e) (rw (beq_refl f)))
  In-keys→get f ((m, t) ∷ d) (inr i) = elim (Bool-cases (string_eq.beq m f)) [
    | inl here ↦ (t, rw here)
    | inr there ↦ let (u, found) = In-keys→get f d i in (u, rw there found)
  ]

  left-IsTyped : (ls : Schema T) → All (IsTyped (left_type ls) ls.timestamp) (fields ls)
  unfolding IsTyped left_type
  left-IsTyped ls =
      let at_key : (f : String) → In f (Dict.keys ls.keys) → IsTyped (left_type ls) ls.timestamp f =
        λ f i.
          let (t, found) = In-keys→get f ls.keys i in
          elim (Option-cases (Dict.get f ls.values)) [
            | inl absent ↦ inr (t, rw (left_type, absent) found)
            | inr (u, there) ↦ inr (u, rw (left_type, there))
          ] in
      let at_value : (f : String)
          → In f (Dict.keys ls.values)
          → IsTyped (left_type ls) ls.timestamp f =
        λ f i. let (t, found) = In-keys→get f ls.values i in inr (t, rw (left_type, found)) in
      All-append (IsTyped (left_type ls) ls.timestamp) (Dict.keys ls.keys ++ Dict.keys ls.values)
        (ls.timestamp ∷ [])
        (All-append (IsTyped (left_type ls) ls.timestamp) (Dict.keys ls.keys) (Dict.keys ls.values)
          (In-All (IsTyped (left_type ls) ls.timestamp) (Dict.keys ls.keys) at_key)
          (In-All (IsTyped (left_type ls) ls.timestamp) (Dict.keys ls.values) at_value))
        (inl (beq_refl ls.timestamp), tt)

  -- The right side's timestamp has a type of its own.
  right-IsTyped :
      (datetime : T) (rs : Schema T) (ts : String)
      → All (IsTyped (right_type datetime rs) ts) (fields rs)
  unfolding IsTyped right_type
  right-IsTyped datetime rs ts =
      let from_left : (f : String)
          → IsTyped (left_type rs) rs.timestamp f
          → IsTyped (right_type datetime rs) ts f =
        λ f h. elim (Option-cases (left_type rs f)) [
          | inr (u, there) ↦ inr (u, rw (right_type, there))
          | inl absent ↦ elim h [
            | inl here ↦ inr (datetime, rw (right_type, absent, here))
            | inr (t, found) ↦ absurd (cc)
          ]
        ] in
      All-map (fields rs) from_left (left-IsTyped rs)

pub joined_schema_lem :
    {T : Type 0} (datetime : T) (ls rs : Schema T) (on left_on : Option (List String))
    (columns : List String) (keys : Dict String T)
    → key_fields on left_on ≡ ok columns
    → copy_all columns ls.keys [] ≡ ok keys
    → let lefts = described (left_type ls) (is_same ls rs) true ls.timestamp keys (fields ls) in
      let rights =
        described (right_type datetime rs) (is_same ls rs) false ls.timestamp keys (fields rs) in
      Fresh [] (names lefts ++ names rights)
      → (s : Schema T) × (joined_schema datetime ls rs on left_on ≡ ok s)
        × (s.timestamp ≡ ls.timestamp)
        × (s.keys ≡ keys)
        × (typed s.values ≡ lefts ++ rights)
unfolding joined_schema typed
joined_schema_lem datetime ls rs on left_on columns keys on_columns key_copy fresh =
    let same = is_same ls rs in
    let lefts = described (left_type ls) same true ls.timestamp keys (fields ls) in
    let rights = described (right_type datetime rs) same false ls.timestamp keys (fields rs) in
    let (first, run₁, types₁, fresh₁) =
      join_fields-described (left_type ls) same true ls.timestamp keys (fields ls) (names rights) []
        (left-IsTyped ls) fresh in
    let (values, run₂, types₂, _) =
      join_fields-described (right_type datetime rs) same false ls.timestamp keys (fields rs) []
        first (right-IsTyped datetime rs ls.timestamp)
        (subst (λ (ns : List String). Fresh (Dict.keys first) ns) (sym (append-nil (names rights)))
          fresh₁) in
    (
      record { keys = keys; values = values; timestamp = ls.timestamp },
      rw on_columns (rw key_copy (rw run₁ (rw run₂))),
      refl,
      refl,
      types₂ ∙ ap (λ (r : List (String × Option _)). r ++ rights) types₁,
    )
