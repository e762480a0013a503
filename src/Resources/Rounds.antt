-- ===== src/Resources/Rounds.antt =====
-- node_assign_strategy.py: what ParallelismFirst answers, round after round.
use volga.Prelude.{
  nat_eq, ℕ, zero, suc, ◌≡◌, refl, sym, ap, ◌∙◌, subst, Option, none, some, List, [], ◌∷◌, ◌++◌,
  append_assoc, append-nil, drop, get_elem?, ok, Result-cases, All, Option-cases, inl, inr,
}
use volga.Prelude.Dict
use volga.Prelude.Dict.{Dict}
use volga.ExecutionGraph.{
  ExecutionId, execution_id_eq, ExecutionVertex, execution_vertex_id, ExecutionGraph,
}
use volga.Resources.{
  Resources, Node, Assigned, allocate_at, find_from, place_by_index, place_instances, place_rounds,
  parallelism_first,
}
use volga.Resources.Nodes.{HasLeft, All-drop, allocate_at_lem, find_from_lem}
use volga.Resources.Exclusive.{keys-append}

module _ {O : Type 0} (resources_of : ExecutionId → Option Resources) where
  -- The instances that the rounds of ParallelismFirst come to.
  abbrev pub instance_ids : ℕ → List (List (ExecutionVertex O)) → List ExecutionId
  instance_ids i [] = []
  instance_ids i (vs ∷ rest) = elim (get_elem? vs i) [
    | none ↦ instance_ids i rest
    | some v ↦ execution_vertex_id v ∷ instance_ids i rest
  ]

  abbrev pub round_ids : ℕ → ℕ → List (List (ExecutionVertex O)) → List ExecutionId
  round_ids i zero vss = []
  round_ids i (suc rounds) vss = instance_ids i vss ++ round_ids (suc i) rounds vss

  place_by_index-HasLeft :
      (v : ExecutionVertex O) (index : ℕ) (a : Assigned) {index' : ℕ} {a' : Assigned}
      → All HasLeft a.nodes
      → place_by_index resources_of v index a ≡ ok (index', a')
      → All HasLeft a'.nodes × (Dict.keys a'.res ≡ Dict.keys a.res ++ execution_vertex_id v ∷ [])
  unfolding place_by_index
  place_by_index-HasLeft v index a {index'} {a'} left h =
      elim (Option-cases (resources_of (execution_vertex_id v))) [
        | inl absent ↦ absurd (cc (rw (absent, place_by_index) at h))
        | inr (required, found) ↦
            chosen required found (find_from required (drop index a.nodes) index).1 refl
      ]
    where
      chosen :
          (required : Resources)
          → resources_of (execution_vertex_id v) ≡ some required
          → (o : Option Node) → o ≡ (find_from required (drop index a.nodes) index).1
          → All HasLeft a'.nodes
            × (Dict.keys a'.res ≡ Dict.keys a.res ++ execution_vertex_id v ∷ [])
      chosen required found none e = absurd (cc (rw (found, ← e, place_by_index) at h))
      chosen required found (some node) e =
          let place = (find_from required (drop index a.nodes) index).0 in
          elim (Result-cases (allocate_at (execution_vertex_id v) (some required) place node a)) [
            | inl failed ↦ absurd (cc (rw (found, ← e, failed, place_by_index) at h))
            | inr (a1, run) ↦
                let is_a : a1 ≡ a' = cc (rw (found, ← e, run, place_by_index) at h) in
                let same : find_from required (drop index a.nodes) index ≡ (place, some node) =
                  λ i. (place, sym e i) in
                let (node_left, enough) =
                  find_from_lem required (drop index a.nodes) index
                    (All-drop HasLeft index a.nodes left) same in
                let (left', res) =
                  allocate_at_lem (execution_vertex_id v) required place node a enough node_left
                    left run in
                (
                  subst (λ (x : Assigned). All HasLeft x.nodes) is_a left',
                  ap (λ (x : Assigned). Dict.keys x.res) (sym is_a)
                      ∙ ap Dict.keys res
                      ∙ keys-append a.res ((execution_vertex_id v, place) ∷ []),
                )
          ]

  place_instances-HasLeft :
      (i : ℕ) (vss : List (List (ExecutionVertex O))) (index : ℕ) (a : Assigned)
      → {index' : ℕ} {a' : Assigned} → All HasLeft a.nodes
      → place_instances resources_of i vss index a ≡ ok (index', a')
      → All HasLeft a'.nodes × (Dict.keys a'.res ≡ Dict.keys a.res ++ instance_ids i vss)
  unfolding place_instances
  place_instances-HasLeft i [] index a {index'} {a'} left h =
      let is_a : a ≡ a' = cc in
      (
        subst (λ (x : Assigned). All HasLeft x.nodes) is_a left,
        ap (λ (x : Assigned). Dict.keys x.res) (sym is_a) ∙ sym (append-nil (Dict.keys a.res)),
      )
  place_instances-HasLeft i (vs ∷ rest) index a {index'} {a'} left h =
      elim (Option-cases (get_elem? vs i)) [
        | inl absent ↦
            rw (absent, instance_ids)
              (place_instances-HasLeft i rest index a left (rw (absent, place_instances) at h))
        | inr (v, found) ↦ elim (Result-cases (place_by_index resources_of v index a)) [
          | inl failed ↦ absurd (cc (rw (found, failed, place_instances) at h))
          | inr ((index1, a1), run) ↦
              let (left1, keys1) = place_by_index-HasLeft v index a left run in
              let (left', keys') =
                place_instances-HasLeft i rest index1 a1 left1
                  (rw (found, run, place_instances) at h) in
              rw (found, instance_ids)
                (
                  left',
                  keys'
                      ∙ ap (λ (ks : List ExecutionId). ks ++ instance_ids i rest) keys1
                      ∙ append_assoc (Dict.keys a.res) (execution_vertex_id v ∷ [])
                          (instance_ids i rest),
                )
        ]
      ]

  place_rounds-HasLeft :
      (i rounds : ℕ) (vss : List (List (ExecutionVertex O))) (index : ℕ) (a : Assigned)
      → {index' : ℕ} {a' : Assigned} → All HasLeft a.nodes
      → place_rounds resources_of i rounds vss index a ≡ ok (index', a')
      → All HasLeft a'.nodes × (Dict.keys a'.res ≡ Dict.keys a.res ++ round_ids i rounds vss)
  unfolding place_rounds
  place_rounds-HasLeft i zero vss index a {index'} {a'} left h =
      let is_a : a ≡ a' = cc in
      (
        subst (λ (x : Assigned). All HasLeft x.nodes) is_a left,
        ap (λ (x : Assigned). Dict.keys x.res) (sym is_a) ∙ sym (append-nil (Dict.keys a.res)),
      )
  place_rounds-HasLeft i (suc rounds) vss index a left h =
      elim (Result-cases (place_instances resources_of i vss index a)) [
        | inl failed ↦ absurd (cc (rw (failed, place_rounds) at h))
        | inr ((index1, a1), run) ↦
            let (left1, keys1) = place_instances-HasLeft i vss index a left run in
            let (left', keys') =
              place_rounds-HasLeft (suc i) rounds vss index1 a1 left1
                (rw (run, place_rounds) at h) in
            (
              left',
              keys'
                  ∙ ap (λ (ks : List ExecutionId). ks ++ round_ids (suc i) rounds vss) keys1
                  ∙ append_assoc (Dict.keys a.res) (instance_ids i vss)
                      (round_ids (suc i) rounds vss),
            )
      ]

  -- Where no node starts with less than nothing and ParallelismFirst finds a place for every vertex
  -- that it comes to, no node is left with less than nothing, and the places are those of exactly the
  -- instances 0, 1, ... of the job vertices, round after round up to the greatest parallelism.
  pub parallelism_first_lem :
      (curr_node_index : ℕ) (nodes : List Node) (graph : ExecutionGraph O) {index : ℕ}
      {a : Assigned}
      → All HasLeft nodes
      → parallelism_first resources_of curr_node_index nodes graph ≡ ok (index, a)
      → All HasLeft a.nodes
        × (Dict.keys a.res
            ≡ round_ids 0 graph.max_parallelism
                (Dict.values graph.execution_vertices_by_job_vertex))
  unfolding parallelism_first
  parallelism_first_lem curr_node_index nodes graph left h =
      place_rounds-HasLeft 0 graph.max_parallelism
        (Dict.values graph.execution_vertices_by_job_vertex) curr_node_index
        (record { nodes = nodes; res = [] }) left h
