-- ===== src/Storage.antt =====
-- volga/storage/common/key_index.py and simple_in_memory_actor_storage.py: the store of the cache
-- actor. A keys dict holds its values as strings, a set is a list without repetitions, and
-- `value_less` is Python's `<` on two stored values of the same time.
pub mod Stored
pub mod Cache
mod Tests
use Prim.Native.Nat.{Ordering}
use Prim.Native.String.{String, compare}
use Prim.Native.String
use volga.Prelude.{
  nat_eq, string_eq, ℕ, zero, suc, ◌+◌, ◌-◌, ◌/◌, ◌==◌, Bool, true, false, Option, none, some, List,
  [], ◌∷◌, ◌++◌, map, if◌then◌else◌, ltb, length, get_elem?, take, drop, Result, ok, raised, ◌>>=◌,
  insort_right,
}
use volga.Prelude.Dict
use volga.Prelude.Dict.{Dict}

abbrev pub Keys : Type 0
Keys = Dict String String

-- `_kv_strings`
unfoldable pub kv_strings : Keys → List String
kv_strings [] = []
kv_strings ((k, v) ∷ d) = String.◌++◌ k (String.◌++◌ "=" v) ∷ kv_strings d

abbrev before : String → String → Bool
before a b = elim (compare a b) [ Ordering.lt ↦ true | Ordering.eq ↦ false | Ordering.gt ↦ false ]

insert_string : String → List String → List String
insert_string s [] = s ∷ []
insert_string s (t ∷ ts) = if before s t then s ∷ t ∷ ts else t ∷ insert_string s ts

unfoldable pub sort_strings : List String → List String
unfolding insert_string
sort_strings [] = []
sort_strings (s ∷ ss) = insert_string s (sort_strings ss)

-- `'-'.join(strings)`
unfoldable pub join_keys : List String → String
join_keys [] = ""
join_keys (s ∷ []) = s
join_keys (s ∷ t ∷ ss) = String.◌++◌ s (String.◌++◌ "-" (join_keys (t ∷ ss)))

unfoldable pub compose_main_key : Keys → String
unfolding kv_strings sort_strings join_keys
compose_main_key d = join_keys (sort_strings (kv_strings d))

-- `itertools.combinations`
unfoldable pub combinations : ℕ → List String → List (List String)
combinations zero xs = [] ∷ []
combinations (suc n) [] = []
combinations (suc n) (x ∷ xs) = map (λ c. x ∷ c) (combinations n xs) ++ combinations (suc n) xs

unfoldable pub add_to_set : String → List String → List String
add_to_set s [] = s ∷ []
add_to_set s (t ∷ ts) = if string_eq.beq t s then t ∷ ts else t ∷ add_to_set s ts

unfoldable pub add_combinations : List (List String) → List String → List String
unfolding add_to_set sort_strings join_keys
add_combinations [] res = res
add_combinations (c ∷ cs) res = add_combinations cs (add_to_set (join_keys (sort_strings c)) res)

-- `for d in range(2, depth)`, with `n` rounds left.
unfoldable pub add_depths : ℕ → ℕ → List String → List String → List String
unfolding add_combinations combinations
add_depths d zero strings res = res
add_depths d (suc n) strings res =
    add_depths (suc d) n strings (add_combinations (combinations d strings) res)

unfoldable pub to_set : List String → List String → List String
unfolding add_to_set
to_set [] res = res
to_set (s ∷ ss) res = to_set ss (add_to_set s res)

unfoldable pub compose_possible_keys : Keys → List String
unfolding kv_strings add_depths to_set
compose_possible_keys d =
    let strings = kv_strings d in
    let depth = length d in
    if ltb depth 2 then strings else add_depths 2 (depth - 2) strings (to_set strings [])

abbrev pub KeyIndex : Type 0
KeyIndex = Dict String (List String)

unfoldable pub index_keys : String → List String → KeyIndex → KeyIndex
unfolding add_to_set
index_keys main_key [] index = index
index_keys main_key (k ∷ ks) index =
    index_keys main_key ks (Dict.put k (add_to_set main_key (Dict.get_or k [] index)) index)

-- `KeyIndex.put`
unfoldable pub put_keys : Keys → KeyIndex → KeyIndex
unfolding index_keys compose_main_key compose_possible_keys
put_keys d index = index_keys (compose_main_key d) (compose_possible_keys d) index

-- `KeyIndex.get`
unfoldable pub get_keys : Keys → KeyIndex → List String
unfolding compose_main_key
get_keys d index = Dict.get_or (compose_main_key d) [] index

pub record Dataset (V : Type 0) : Type 0 where
  pub per_key : Dict String (List (ℕ × V))
  pub key_index : KeyIndex

module _ {V : Type 0} (value_less : V → V → Result Bool) where
  -- `(ts, value) < (ts', value')`
  unfoldable pub entry_less : ℕ × V → ℕ × V → Result Bool
  entry_less (t, v) (u, w) =
      if ltb t u then ok true else (if t == u then value_less v w else ok false)

  -- A round of `bisect.bisect_right`: what it comes to, given the search of each half.
  unfoldable pub narrow : ℕ × V → ℕ → ℕ → List (ℕ × V) → Result ℕ → Result ℕ → Result ℕ
  unfolding entry_less
  narrow x lo hi xs left right =
      if ltb lo hi
      then elim (get_elem? xs ((lo + hi) / 2)) [
        | none ↦ raised
        | some y ↦ do less ← entry_less x y; if less then left else right
      ]
      else ok lo

  -- `bisect.bisect_right`, with fuel for its rounds.
  unfoldable pub bisect_right : ℕ → ℕ × V → ℕ → ℕ → List (ℕ × V) → Result ℕ
  unfolding narrow
  bisect_right zero x lo hi xs = ok lo
  bisect_right (suc fuel) x lo hi xs =
      let mid = (lo + hi) / 2 in
      let left = bisect_right fuel x lo mid xs in
      let right = bisect_right fuel x (mid + 1) hi xs in narrow x lo hi xs left right

  unfoldable pub insort : ℕ × V → List (ℕ × V) → Result (List (ℕ × V))
  unfolding bisect_right
  insort x xs = do i ← bisect_right (length xs) x 0 (length xs) xs; ok (take i xs ++ x ∷ drop i xs)

  -- The loop of `put_records` on one dataset.
  unfoldable pub put_all : List (Keys × ℕ × V) → Dataset V → Result (Dataset V)
  unfolding insort put_keys compose_main_key
  put_all [] ds = ok ds
  put_all ((keys, ts, v) ∷ records) ds = do
    let key = compose_main_key keys
    ts_vals ← insort (ts, v) (Dict.get_or key [] ds.per_key)
    put_all records (record {
      per_key = Dict.put key ts_vals ds.per_key;
      key_index = put_keys keys ds.key_index;
    })
