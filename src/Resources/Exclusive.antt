-- ===== src/Resources/Exclusive.antt =====
-- node_assign_strategy.py: what the two strategies answer.
use volga.Prelude.{
  nat_eq, ℕ, ◌≡◌, refl, sym, ap, ◌∙◌, subst, ◌==◌, true, Option, some, List, [], ◌∷◌, ◌++◌,
  append_assoc, append-nil, ok, Result-cases, All, All-append, All-map, Bool-cases, Option-cases,
  inl, inr, arith,
}
use volga.Prelude.Dict
use volga.Prelude.Dict.{Dict}
use volga.ExecutionGraph.{
  ExecutionId, execution_id_eq, ExecutionVertex, execution_vertex_id, ExecutionGraph,
}
use volga.Resources.{
  Resources, Node, Assigned, allocate_at, find_own, place_own, place_all_own, place_operators,
  operator_first,
}
use volga.Resources.Nodes.{HasLeft, allocate_at_lem, find_own_lem}

module _ {O : Type 0} where
  abbrev pub ids : List (ExecutionVertex O) → List ExecutionId
  ids [] = []
  ids (v ∷ vs) = execution_vertex_id v ∷ ids vs

  abbrev pub all_ids : List (List (ExecutionVertex O)) → List ExecutionId
  all_ids [] = []
  all_ids (vs ∷ rest) = ids vs ++ all_ids rest

-- The entry's node belongs to the entry's operator.
abbrev pub IsOwner : Dict ℕ ℕ → ExecutionId × ℕ → Type 0
IsOwner owners (id, place) = Dict.get place owners ≡ some id.vertex_id

pub keys-append : (d e : Dict ExecutionId ℕ) → Dict.keys (d ++ e) ≡ Dict.keys d ++ Dict.keys e
keys-append [] e = refl
keys-append ((k, v) ∷ d) e = ap (◌∷◌ k) (keys-append d e)

-- A node that is free or the operator's own becomes its own, and the others keep their owner.
IsOwner-put :
    (place op : ℕ) (owners : Dict ℕ ℕ) (e : ExecutionId × ℕ)
    → (Dict.get_or place op owners == op) ≡ true
    → IsOwner owners e
    → IsOwner (Dict.put place op owners) e
IsOwner-put place op owners (id, p) own h = elim (Bool-cases (place == p)) [
  | inl same ↦
      let e : place ≡ p = ground arith in
      let found : Dict.get place owners ≡ some id.vertex_id = rw e h in
      let its : id.vertex_id ≡ op = ground (arith, rw (found, Dict.get_or) at own) in
      Dict.get-put place p op owners ∙ rw same (ap some (sym its))
  | inr other ↦ Dict.get-put place p op owners ∙ rw other h
]

-- How far an assignment came: no node is short, and the entries belong to their operators.
pub record Sound (owners : Dict ℕ ℕ) (a : Assigned) : Type 0 where
  pub left : All HasLeft a.nodes
  pub owned : All (IsOwner owners) a.res

module _ {O : Type 0} (resources_of : ExecutionId → Option Resources) where
  place_own-Sound :
      (v : ExecutionVertex O) (owners : Dict ℕ ℕ) (a : Assigned)
      → {owners' : Dict ℕ ℕ} {a' : Assigned} → Sound owners a
      → place_own resources_of v owners a ≡ ok (owners', a')
      → Sound owners' a' × (Dict.keys a'.res ≡ Dict.keys a.res ++ execution_vertex_id v ∷ [])
  unfolding place_own
  place_own-Sound v owners a {owners'} {a'} s h =
      let id = execution_vertex_id v in
      let op = v.job_vertex.vertex_id in
      elim (Option-cases (resources_of id)) [
        | inl absent ↦ absurd (cc (rw (absent, place_own) at h))
        | inr (required, found) ↦ elim (Option-cases (find_own op required a.nodes 0 owners)) [
          | inl full ↦ absurd (cc (rw (found, full, place_own) at h))
          | inr ((place, node), chosen) ↦
              elim (Result-cases (allocate_at id (some required) place node a)) [
                | inl failed ↦ absurd (cc (rw (found, chosen, failed, place_own) at h))
                | inr (a1, run) ↦
                    let (node_left, enough, own) =
                      find_own_lem op required a.nodes 0 owners s.left chosen in
                    let (left, res) =
                      allocate_at_lem id required place node a enough node_left s.left run in
                    let done = rw (found, chosen, run, place_own) at h in
                    let is_owners : Dict.put place op owners ≡ owners' = cc in
                    let is_a : a1 ≡ a' = cc in
                    let new : IsOwner (Dict.put place op owners) (id, place) =
                      Dict.get-put_self place op owners in
                    let kept = All-map a.res (λ e o. IsOwner-put place op owners e own o) s.owned in
                    let owned : All (IsOwner (Dict.put place op owners)) a1.res =
                      subst (All (IsOwner (Dict.put place op owners))) (sym res) (
                        All-append (IsOwner (Dict.put place op owners)) a.res ((id, place) ∷ [])
                          kept (new, tt)) in
                    let sound : Sound (Dict.put place op owners) a1 = record {
                      left = left;
                      owned = owned;
                    } in
                    (
                      subst (λ (x : Assigned). Sound owners' x) is_a
                          (subst (λ (o : Dict ℕ ℕ). Sound o a1) is_owners sound),
                      ap (λ (x : Assigned). Dict.keys x.res) (sym is_a)
                          ∙ ap Dict.keys res
                          ∙ keys-append a.res ((id, place) ∷ []),
                    )
              ]
        ]
      ]

  place_all_own-Sound :
      (vs : List (ExecutionVertex O)) (owners : Dict ℕ ℕ) (a : Assigned)
      → {owners' : Dict ℕ ℕ} {a' : Assigned} → Sound owners a
      → place_all_own resources_of vs owners a ≡ ok (owners', a')
      → Sound owners' a' × (Dict.keys a'.res ≡ Dict.keys a.res ++ ids vs)
  unfolding place_all_own
  place_all_own-Sound [] owners a {owners'} {a'} s h =
      let is_owners : owners ≡ owners' = cc in
      let is_a : a ≡ a' = cc in
      (
        subst (λ (x : Assigned). Sound owners' x) is_a
            (subst (λ (o : Dict ℕ ℕ). Sound o a) is_owners s),
        ap (λ (x : Assigned). Dict.keys x.res) (sym is_a) ∙ sym (append-nil (Dict.keys a.res)),
      )
  place_all_own-Sound (v ∷ vs) owners a s h =
      elim (Result-cases (place_own resources_of v owners a)) [
        | inl failed ↦ absurd (cc (rw (failed, place_all_own) at h))
        | inr ((owners1, a1), run) ↦
            let (s1, keys1) = place_own-Sound v owners a s run in
            let (s', keys') = place_all_own-Sound vs owners1 a1 s1 (rw (run, place_all_own) at h) in
            (
              s',
              keys'
                  ∙ ap (λ (ks : List ExecutionId). ks ++ ids vs) keys1
                  ∙ append_assoc (Dict.keys a.res) (execution_vertex_id v ∷ []) (ids vs),
            )
      ]

  place_operators-Sound :
      (vss : List (List (ExecutionVertex O))) (owners : Dict ℕ ℕ) (a : Assigned)
      → {owners' : Dict ℕ ℕ} {a' : Assigned} → Sound owners a
      → place_operators resources_of vss owners a ≡ ok (owners', a')
      → Sound owners' a' × (Dict.keys a'.res ≡ Dict.keys a.res ++ all_ids vss)
  unfolding place_operators
  place_operators-Sound [] owners a {owners'} {a'} s h =
      let is_owners : owners ≡ owners' = cc in
      let is_a : a ≡ a' = cc in
      (
        subst (λ (x : Assigned). Sound owners' x) is_a
            (subst (λ (o : Dict ℕ ℕ). Sound o a) is_owners s),
        ap (λ (x : Assigned). Dict.keys x.res) (sym is_a) ∙ sym (append-nil (Dict.keys a.res)),
      )
  place_operators-Sound (vs ∷ vss) owners a s h =
      elim (Result-cases (place_all_own resources_of vs owners a)) [
        | inl failed ↦ absurd (cc (rw (failed, place_operators) at h))
        | inr ((owners1, a1), run) ↦
            let (s1, keys1) = place_all_own-Sound vs owners a s run in
            let (s', keys') =
              place_operators-Sound vss owners1 a1 s1 (rw (run, place_operators) at h) in
            (
              s',
              keys'
                  ∙ ap (λ (ks : List ExecutionId). ks ++ all_ids vss) keys1
                  ∙ append_assoc (Dict.keys a.res) (ids vs) (all_ids vss),
            )
      ]

  -- Where no node starts with less than nothing and OperatorFirst, on its first use, finds a place for
  -- every vertex, no node is left with less than nothing, the places are those of exactly the graph's
  -- vertices in order, and every node that is used belongs to one operator only.
  pub operator_first_lem :
      (nodes : List Node) (graph : ExecutionGraph O) {owners : Dict ℕ ℕ} {a : Assigned}
      → All HasLeft nodes
      → operator_first resources_of [] nodes graph ≡ ok (owners, a)
      → All HasLeft a.nodes
        × (Dict.keys a.res ≡ all_ids (Dict.values graph.execution_vertices_by_job_vertex))
        × All (λ ((id, place) : ExecutionId × ℕ). Dict.get place owners ≡ some id.vertex_id) a.res
  unfolding operator_first
  operator_first_lem nodes graph left h =
      let (s, keys) =
        place_operators-Sound (Dict.values graph.execution_vertices_by_job_vertex) []
          (record { nodes = nodes; res = [] }) (record { left = left; owned = tt }) h in
      (s.left, keys, s.owned)
