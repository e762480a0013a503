-- ===== src/Operators/Join/Pairs.antt =====
-- `JoinOperator` (operators.py) joins every left record with every right record of its key.
use volga.Prelude.{
  true, false, none, some, List, [], ◌∷◌, ◌++◌, map, if◌then◌else◌, Eq, Result, ok, ◌≡◌, refl, sym,
  ap, ◌∙◌, subst, Bool-cases, inl, inr, beq→eq, beq_refl, arith, append_assoc, append-nil,
  string_eq,
}
use volga.Prelude.Dict
use volga.Prelude.Dict.{Dict}
use volga.Operators.{Record, feed}
use volga.Operators.Join.{JoinState, ensure, joined, process_left, process_right, process_pair}
use mathlib.Core.List.{Perm, perm_middle}
use mathlib.Core.List.Perm

map-snoc :
    {A B : Type 0} (f : A → B) (xs : List A) (y : A) → map f (xs ++ y ∷ []) ≡ map f xs ++ f y ∷ []
map-snoc f [] y = refl
map-snoc f (x ∷ xs) y = ap (λ zs. f x ∷ zs) (map-snoc f xs y)

perm_step :
    {A : Type 0} (before after new outs whole : List A)
    → Perm after (before ++ new)
    → Perm (after ++ outs) whole
    → Perm (before ++ (new ++ outs)) whole
perm_step before after new outs whole grows rest =
    Perm.trans
      (subst (λ q. Perm q (after ++ outs)) (append_assoc before new outs)
        (Perm.symm (Perm.append_right outs grows)))
      rest

perm_cross :
    {A : Type 0} (xs ys zs ws : List A) (p : A)
    → Perm ws (ys ++ zs)
    → Perm ((xs ++ p ∷ []) ++ ws) ((xs ++ ys) ++ p ∷ zs)
perm_cross xs ys zs ws p h =
    rw (append_assoc xs (p ∷ []) ws, append_assoc xs ys (p ∷ zs))
      (Perm.append_left xs (Perm.trans (Perm.cons p h) (Perm.symm (perm_middle ys zs))))

module _ {V K : Type 0} ⦃e : Eq K⦄ where
  -- The records of a key.
  unfoldable pub with_key : K → List (K × Record V K) → List (Record V K)
  with_key k [] = []
  with_key k ((j, r) ∷ rs) = if e.beq j k then r ∷ with_key k rs else with_key k rs

  with_key-snoc :
      (k j : K) (r : Record V K) (rs : List (K × Record V K))
      → with_key k (rs ++ (j, r) ∷ [])
        ≡ (if e.beq j k then with_key k rs ++ r ∷ [] else with_key k rs)
  unfolding with_key
  with_key-snoc k j r [] = refl
  with_key-snoc k j r ((i, x) ∷ rs) = elim (Bool-cases (e.beq i k)) [
    | inl same ↦ elim (Bool-cases (e.beq j k)) [
      | inl also ↦ rw (same, with_key-snoc k j r rs, also) refl
      | inr not_j ↦ rw (same, with_key-snoc k j r rs, not_j) refl
    ]
    | inr other ↦ rw other (with_key-snoc k j r rs)
  ]

  get_or-ensure :
      (k j : K) (d : Dict K (List (Record V K)))
      → Dict.get_or j [] (ensure k d) ≡ Dict.get_or j [] d
  unfolding ensure
  get_or-ensure k j d = elim (Bool-cases (Dict.has k d)) [
    | inl there ↦ rw there refl
    | inr fresh ↦ elim (Bool-cases (e.beq k j)) [
      | inl same ↦
          let absent =
            subst (λ c. Dict.get c d ≡ none) (beq→eq k j same) (Dict.has-false→get k d fresh) in
          rw (fresh, Dict.get_or, Dict.get-put k j [] d, same, absent) refl
      | inr other ↦ rw (fresh, Dict.get_or, Dict.get-put k j [] d, other) refl
    ]
  ]

  get_or-push_snoc :
      (k j : K) (r : Record V K) (d : Dict K (List (Record V K))) (rs : List (K × Record V K))
      → ((i : K) → Dict.get_or i [] d ≡ with_key i rs)
      → Dict.get_or j [] (Dict.push k r d) ≡ with_key j (rs ++ (k, r) ∷ [])
  get_or-push_snoc k j r d rs h = elim (Bool-cases (e.beq k j)) [
    | inl same ↦
        let at_key =
          Dict.get_or-push_self k r d
          ∙ ap (λ xs. xs ++ r ∷ []) (h k)
          ∙ sym (with_key-snoc k k r rs ∙ rw (beq_refl k) refl) in
        subst (λ c. Dict.get_or c [] (Dict.push k r d) ≡ with_key c (rs ++ (k, r) ∷ []))
          (beq→eq k j same) at_key
    | inr other ↦
        Dict.get_or-push_ne k j r d other ∙ h j ∙ sym (with_key-snoc j k r rs ∙ rw other refl)
  ]

  -- The dicts hold, key by key, the records seen.
  record Holds (state : JoinState V K) (ls rs : List (K × Record V K)) : Type 0 where
    left : (k : K) → Dict.get_or k [] state.left_records_dict ≡ with_key k ls
    right : (k : K) → Dict.get_or k [] state.right_records_dict ≡ with_key k rs

module _ {V K : Type 0} ⦃e : Eq K⦄ (join : V → V → V) where
  -- Every left record joined with every right record of its key.
  unfoldable pub all_pairs : List (K × Record V K) → List (K × Record V K) → List (Record V K)
  unfolding with_key joined
  all_pairs [] rights = []
  all_pairs ((k, l) ∷ lefts) rights =
      map (joined join l) (with_key k rights) ++ all_pairs lefts rights

  all_pairs-left :
      (ls rs : List (K × Record V K)) (k : K) (l : Record V K)
      → all_pairs (ls ++ (k, l) ∷ []) rs ≡ all_pairs ls rs ++ map (joined join l) (with_key k rs)
  unfolding all_pairs
  all_pairs-left [] rs k l = append-nil _
  all_pairs-left ((j, x) ∷ ls) rs k l =
      rw (all_pairs-left ls rs k l) (sym (append_assoc (map (joined join x) (with_key j rs)) _ _))

  all_pairs-right :
      (ls rs : List (K × Record V K)) (k : K) (r : Record V K)
      → Perm
          (all_pairs ls (rs ++ (k, r) ∷ []))
          (all_pairs ls rs ++ map (λ l. joined join l r) (with_key k ls))
  unfolding all_pairs with_key
  all_pairs-right [] rs k r = Perm.refl _
  all_pairs-right ((j, x) ∷ ls) rs k r =
      let ih = all_pairs-right ls rs k r in
      let mine = map (joined join x) (with_key j rs) in
      let others = map (λ l. joined join l r) (with_key k ls) in
      elim (Bool-cases (e.beq j k)) [
        | inl same ↦
            let kj : e.beq k j ≡ true = ground (arith, e.beq_iff k j, e.beq_iff j k) in
            rw (with_key-snoc j k r rs, kj, same, map-snoc (joined join x) (with_key j rs) r)
              (perm_cross mine (all_pairs ls rs) others (all_pairs ls (rs ++ (k, r) ∷ []))
                (joined join x r) ih)
        | inr other ↦
            let kj : e.beq k j ≡ false = ground (arith, e.beq_iff k j, e.beq_iff j k) in
            rw (with_key-snoc j k r rs, kj, other, append_assoc mine (all_pairs ls rs) others)
              (Perm.append_left mine ih)
      ]

-- A record with a key, from the left or the right input.
pub data Arrival (V K : Type 0) : Type 0 where
  from_left : K → Record V K → Arrival V K
  from_right : K → Record V K → Arrival V K

module _ {V K : Type 0} where
  abbrev pub keyed : K → Record V K → Record V K
  keyed k r = record r { key = some k }

  unfoldable pub lefts : List (Arrival V K) → List (K × Record V K)
  lefts [] = []
  lefts (from_left k r ∷ arrivals) = (k, keyed k r) ∷ lefts arrivals
  lefts (from_right k r ∷ arrivals) = lefts arrivals

  unfoldable pub rights : List (Arrival V K) → List (K × Record V K)
  rights [] = []
  rights (from_left k r ∷ arrivals) = rights arrivals
  rights (from_right k r ∷ arrivals) = (k, keyed k r) ∷ rights arrivals

module _ {V K : Type 0} ⦃e : Eq K⦄ (join : V → V → V) where
  unfoldable pub arrive : JoinState V K → Arrival V K → Result (JoinState V K × List (Record V K))
  unfolding process_pair
  arrive state (from_left k r) = process_pair join state (some (keyed k r)) none
  arrive state (from_right k r) = process_pair join state none (some (keyed k r))

  join_from :
      (arrivals : List (Arrival V K)) (state : JoinState V K) (ls rs : List (K × Record V K))
      → Holds state ls rs
      → (after : JoinState V K) × (outs : List (Record V K)) × (feed arrive state arrivals
          ≡ ok (after, outs))
        × Perm
            (all_pairs join ls rs ++ outs)
            (all_pairs join (ls ++ lefts arrivals) (rs ++ rights arrivals))
  unfolding feed arrive lefts rights process_pair process_left process_right
  join_from [] state ls rs h =
      (state, [], refl, rw (append-nil, append-nil, append-nil) (Perm.refl _))
  join_from (from_left k r ∷ arrivals) state ls rs h =
      let next = process_left join k (keyed k r) state in
      let holds : Holds next.0 (ls ++ (k, keyed k r) ∷ []) rs = record {
        left = λ j. get_or-push_snoc k j (keyed k r) state.left_records_dict ls h.left;
        right = λ j. get_or-ensure k j state.right_records_dict ∙ h.right j;
      } in
      let (after, outs, run, perm) =
        join_from arrivals next.0 (ls ++ (k, keyed k r) ∷ []) rs holds in
      let new_is : next.1 ≡ map (joined join (keyed k r)) (with_key k rs) =
        ap (λ xs. map (joined join (keyed k r)) xs) (h.right k) in
      let grows : Perm (all_pairs join (ls ++ (k, keyed k r) ∷ []) rs)
          (all_pairs join ls rs ++ next.1) =
        subst (Perm (all_pairs join (ls ++ (k, keyed k r) ∷ []) rs))
          (all_pairs-left join ls rs k (keyed k r)
            ∙ ap (λ q. all_pairs join ls rs ++ q) (sym new_is))
          (Perm.refl _) in
      (
        after,
        next.1 ++ outs,
        rw run refl,
        subst
            (λ q.
              Perm (all_pairs join ls rs ++ (next.1 ++ outs))
                (all_pairs join q (rs ++ rights arrivals)))
            (append_assoc ls ((k, keyed k r) ∷ []) (lefts arrivals))
            (perm_step (all_pairs join ls rs) _ next.1 outs _ grows perm),
      )
  join_from (from_right k r ∷ arrivals) state ls rs h =
      let next = process_right join k (keyed k r) state in
      let holds : Holds next.0 ls (rs ++ (k, keyed k r) ∷ []) = record {
        left = λ j. get_or-ensure k j state.left_records_dict ∙ h.left j;
        right = λ j. get_or-push_snoc k j (keyed k r) state.right_records_dict rs h.right;
      } in
      let (after, outs, run, perm) =
        join_from arrivals next.0 ls (rs ++ (k, keyed k r) ∷ []) holds in
      let new_is : next.1 ≡ map (λ l. joined join l (keyed k r)) (with_key k ls) =
        ap (λ xs. map (λ l. joined join l (keyed k r)) xs) (h.left k) in
      let grows : Perm (all_pairs join ls (rs ++ (k, keyed k r) ∷ []))
          (all_pairs join ls rs ++ next.1) =
        subst
          (λ q. Perm (all_pairs join ls (rs ++ (k, keyed k r) ∷ [])) (all_pairs join ls rs ++ q))
          (sym new_is) (all_pairs-right join ls rs k (keyed k r)) in
      (
        after,
        next.1 ++ outs,
        rw run refl,
        subst
            (λ q.
              Perm (all_pairs join ls rs ++ (next.1 ++ outs))
                (all_pairs join (ls ++ lefts arrivals) q))
            (append_assoc rs ((k, keyed k r) ∷ []) (rights arrivals))
            (perm_step (all_pairs join ls rs) _ next.1 outs _ grows perm),
      )

  -- However the records of two inputs arrive one after the other, the join raises no error and what
  -- it collects is, up to order, every left record joined once with every right record of its key.
  pub join_pairs :
      (arrivals : List (Arrival V K))
      → (after : JoinState V K) × (outs : List (Record V K)) × (feed arrive
            (record { left_records_dict = []; right_records_dict = [] })
            arrivals
          ≡ ok (after, outs))
        × Perm outs (all_pairs join (lefts arrivals) (rights arrivals))
  unfolding all_pairs Dict.get with_key
  join_pairs arrivals =
      let empty : JoinState V K = record { left_records_dict = []; right_records_dict = [] } in
      let holds : Holds empty [] [] = record { left = λ k. refl; right = λ k. refl } in
      let (after, outs, run, perm) = join_from arrivals empty [] [] holds in
      (after, outs, run, perm)
