-- ===== src/ExecutionGraph/Wiring.antt =====
-- The edges of the execution graph (the second loop of ExecutionGraph.from_job_graph).
use Prim.Native.String.{String}
use volga.Prelude.{
  nat_eq, ℕ, ◌*◌, ◌<◌, ◌==◌, ◌≡◌, ◌≢◌, refl, sym, ap, ◌∙◌, subst, true, some, List, [], ◌∷◌, ◌++◌,
  map, arith, Bool-cases, inl, inr, if◌then◌else◌, length, length-append, length-map, append_assoc,
  append-nil, All, All-map, In, beq→eq,
}
use volga.Prelude.Dict
use volga.JobGraph.{JobEdge, JobVertex, JobGraph, has_vertex, get_max_parallelism, max_from}
use volga.JobGraph.Builder.Distinct.{DistinctVertices}
use volga.ExecutionGraph.{
  ExecutionVertex, ExecutionEdge, ExecutionGraph, execution_id_eq, new_execution_edge,
  create_vertices, connect_targets, connect_sources, connect_edge, connect_edges, empty_graph,
  from_job_graph,
}
use volga.ExecutionGraph.Instances.{
  instances, group_of, create_vertices-group_of, create_vertices-edges,
}

module _ {O : Type 0} where
  -- The edges of one job edge: every source instance to every target instance.
  unfoldable pub all_pairs :
      JobEdge → List (ExecutionVertex O) → List (ExecutionVertex O) → List ExecutionEdge
  all_pairs e targets [] = []
  all_pairs e targets (s ∷ ss) =
      map (new_execution_edge e targets s) targets ++ all_pairs e targets ss

  connect_targets-edges :
      (e : JobEdge) (targets : List (ExecutionVertex O)) (s : ExecutionVertex O)
      (ts : List (ExecutionVertex O)) (g : ExecutionGraph O)
      → (connect_targets e targets s ts g).execution_edges
        ≡ g.execution_edges ++ map (new_execution_edge e targets s) ts
  unfolding connect_targets
  connect_targets-edges e targets s [] g = sym (append-nil g.execution_edges)
  connect_targets-edges e targets s (t ∷ ts) g =
      connect_targets-edges e targets s ts _ ∙ append_assoc g.execution_edges _ _

  connect_targets-groups :
      (e : JobEdge) (targets : List (ExecutionVertex O)) (s : ExecutionVertex O)
      (ts : List (ExecutionVertex O)) (g : ExecutionGraph O)
      → (connect_targets e targets s ts g).execution_vertices_by_job_vertex
        ≡ g.execution_vertices_by_job_vertex
  unfolding connect_targets
  connect_targets-groups e targets s [] g = refl
  connect_targets-groups e targets s (t ∷ ts) g = connect_targets-groups e targets s ts _

  connect_sources-edges :
      (e : JobEdge) (targets ss : List (ExecutionVertex O)) (g : ExecutionGraph O)
      → (connect_sources e targets ss g).execution_edges
        ≡ g.execution_edges ++ all_pairs e targets ss
  unfolding connect_sources all_pairs
  connect_sources-edges e targets [] g = sym (append-nil g.execution_edges)
  connect_sources-edges e targets (s ∷ ss) g =
      connect_sources-edges e targets ss _
      ∙ ap (λ es. es ++ all_pairs e targets ss) (connect_targets-edges e targets s targets g)
      ∙ append_assoc g.execution_edges _ _

  connect_sources-groups :
      (e : JobEdge) (targets ss : List (ExecutionVertex O)) (g : ExecutionGraph O)
      → (connect_sources e targets ss g).execution_vertices_by_job_vertex
        ≡ g.execution_vertices_by_job_vertex
  unfolding connect_sources
  connect_sources-groups e targets [] g = refl
  connect_sources-groups e targets (s ∷ ss) g =
      connect_sources-groups e targets ss _ ∙ connect_targets-groups e targets s targets g

  length-all_pairs :
      (e : JobEdge) (targets ss : List (ExecutionVertex O))
      → length (all_pairs e targets ss) ≡ length ss * length targets
  unfolding all_pairs
  length-all_pairs e targets [] = omega arith
  length-all_pairs e targets (s ∷ ss) =
      length-append (map (new_execution_edge e targets s) targets) (all_pairs e targets ss)
      ∙ rw (length-map, length-all_pairs e targets ss) (grind arith)

  -- The edges of a list of job edges, where `group` gives the instances of each job vertex.
  unfoldable pub wired : (ℕ → List (ExecutionVertex O)) → List JobEdge → List ExecutionEdge
  wired group [] = []
  wired group (e ∷ es) =
      all_pairs e (group e.target_vertex_id) (group e.source_vertex_id) ++ wired group es

  -- Both ends of the edge have their group.
  abbrev HasGroups : (ℕ → List (ExecutionVertex O)) → ExecutionGraph O → JobEdge → Type 0
  HasGroups group g e =
      (group_of e.source_vertex_id g ≡ some (group e.source_vertex_id))
      × (group_of e.target_vertex_id g ≡ some (group e.target_vertex_id))

  connect_edge-some :
      (e : JobEdge) (g : ExecutionGraph O) {ss ts : List (ExecutionVertex O)}
      → group_of e.source_vertex_id g ≡ some ss
      → group_of e.target_vertex_id g ≡ some ts
      → connect_edge e g ≡ some (connect_sources e ts ss g)
  unfolding connect_edge
  connect_edge-some e g a b = rw (a, connect_edge, b)

  connect_edges-wired :
      (group : ℕ → List (ExecutionVertex O)) (es : List JobEdge) (g : ExecutionGraph O)
      → All (HasGroups group g) es
      → (out : ExecutionGraph O) × (connect_edges es g ≡ some out)
        × (out.execution_edges ≡ g.execution_edges ++ wired group es)
        × (out.execution_vertices_by_job_vertex ≡ g.execution_vertices_by_job_vertex)
  unfolding connect_edges wired
  connect_edges-wired group [] g h = (g, refl, sym (append-nil g.execution_edges), refl)
  connect_edges-wired group (e ∷ es) g h =
      let targets = group e.target_vertex_id in
      let sources = group e.source_vertex_id in
      let g1 : ExecutionGraph O = connect_sources e targets sources g in
      let same = connect_sources-groups e targets sources g in
      let (out, run, edges, kept) = connect_edges-wired group es g1 (
        All-map es
          (λ d k. (
            ap (Dict.get d.source_vertex_id) same ∙ k.0,
            ap (Dict.get d.target_vertex_id) same ∙ k.1,
          ))
          h.1) in
      (
        out,
        rw (connect_edge-some e g h.0.0 h.0.1, connect_edges) run,
        edges
            ∙ ap (λ ds. ds ++ wired group es) (connect_sources-edges e targets sources g)
            ∙ append_assoc g.execution_edges _ _,
        kept ∙ same,
      )

  -- The instances of the job vertex of that id.
  unfoldable pub instances_of : List (JobVertex O) → ℕ → List (ExecutionVertex O)
  instances_of [] k = []
  instances_of (v ∷ vs) k =
      if v.vertex_id == k then instances v 0 v.parallelism else instances_of vs k

  find_vertex :
      (vs : List (JobVertex O)) (k : ℕ)
      → has_vertex k vs ≡ true
      → (v : JobVertex O) × In v vs
        × (v.vertex_id ≡ k)
        × (instances_of vs k ≡ instances v 0 v.parallelism)
  unfolding has_vertex instances_of
  find_vertex [] k h = cc
  find_vertex (v ∷ vs) k h = elim (Bool-cases (v.vertex_id == k)) [
    | inl same ↦ (v, inl refl, beq→eq v.vertex_id k same, rw same)
    | inr other ↦
        let (u, i, own, e) = find_vertex vs k (rw other at h) in (u, inr i, own, rw other e)
  ]

  -- What from_job_graph asks of its job graph.
  pub record IsRunnable (jg : JobGraph O) : Type 0 where
    pub some_vertex : jg.job_vertices ≢ []
    pub distinct : DistinctVertices jg.job_vertices
    pub parallel : All (λ (v : JobVertex O). 0 < v.parallelism) jg.job_vertices
    pub joined :
        All
          (λ (e : JobEdge).
            (has_vertex e.source_vertex_id jg.job_vertices ≡ true)
            × (has_vertex e.target_vertex_id jg.job_vertices ≡ true))
          jg.job_edges

  nonempty :
      (vs : List (JobVertex O))
      → vs ≢ []
      → (v : JobVertex O) × (ws : List (JobVertex O)) × (vs ≡ v ∷ ws)
  nonempty [] h = absurd (h refl)
  nonempty (v ∷ vs) h = (v, vs, refl)

  max-some : (jg : JobGraph O) → jg.job_vertices ≢ [] → (m : ℕ) × (get_max_parallelism jg ≡ some m)
  unfolding get_max_parallelism
  max-some jg h =
      let (v, vs, e) = nonempty jg.job_vertices h in
      (max_from v.parallelism vs, rw (e, get_max_parallelism))

  from_job_graph-some :
      (jg : JobGraph O) {m : ℕ}
      → get_max_parallelism jg ≡ some m
      → from_job_graph jg
        ≡ connect_edges jg.job_edges (create_vertices jg.job_vertices (empty_graph jg.job_name m))
  unfolding from_job_graph
  from_job_graph-some jg h = rw (h, from_job_graph)

  created-group_of :
      (jg : JobGraph O) (name : String) (m k : ℕ)
      → IsRunnable jg
      → has_vertex k jg.job_vertices ≡ true
      → group_of k (create_vertices jg.job_vertices (empty_graph name m))
        ≡ some (instances_of jg.job_vertices k)
  unfolding Dict.get
  created-group_of jg name m k r there =
      let (v, i, own, e) = find_vertex jg.job_vertices k there in
      subst
        (λ (j : ℕ).
          group_of j (create_vertices jg.job_vertices (empty_graph name m))
          ≡ some (instances_of jg.job_vertices k))
        own
        (create_vertices-group_of jg.job_vertices v _ r.distinct i r.parallel (λ j t. refl)
          ∙ ap some (sym e))

  -- From a job graph with distinct vertices, positive parallelism and edges that join its vertices,
  -- an execution graph is made. Its edges are, job edge by job edge, all pairs of an instance of the
  -- source and an instance of the target, and each job vertex has its instances 0, 1, ... in order.
  pub from_job_graph-wired :
      (jg : JobGraph O)
      → IsRunnable jg
      → (out : ExecutionGraph O) × (from_job_graph jg ≡ some out)
        × (out.execution_edges ≡ wired (instances_of jg.job_vertices) jg.job_edges)
        × ((k : ℕ)
            → has_vertex k jg.job_vertices ≡ true
            → Dict.get k out.execution_vertices_by_job_vertex
              ≡ some (instances_of jg.job_vertices k))
  from_job_graph-wired jg r =
      let (m, found) = max-some jg r.some_vertex in
      let group = created-group_of jg jg.job_name m in
      let (out, run, edges, kept) =
        connect_edges-wired (instances_of jg.job_vertices) jg.job_edges
          (create_vertices jg.job_vertices (empty_graph jg.job_name m))
          (All-map jg.job_edges (λ e j. (group _ r j.0, group _ r j.1)) r.joined) in
      (
        out,
        from_job_graph-some jg found ∙ run,
        edges
            ∙ ap (λ es. es ++ wired (instances_of jg.job_vertices) jg.job_edges)
                (create_vertices-edges jg.job_vertices _),
        λ k there. ap (Dict.get k) kept ∙ group k r there,
      )
