-- ===== src/ExecutionGraph/Instances.antt =====
-- The instances of a job vertex (the first loop of ExecutionGraph.from_job_graph).
use volga.Prelude.{
  ℕ, zero, suc, ◌<◌, ◌==◌, ◌≡◌, refl, sym, ap, ◌∙◌, true, false, Option, none, some, List, [], ◌∷◌,
  ◌++◌, arith, Bool-cases, inl, inr, length, nat_eq, beq_refl, beq→eq, subst, append_assoc,
  append-nil, All, In,
}
use volga.Prelude.Dict
use volga.JobGraph.{JobVertex, has_vertex}
use volga.JobGraph.Builder.Distinct.{DistinctVertices}
use volga.ExecutionGraph.{
  ExecutionVertex, ExecutionGraph, new_execution_vertex, create_instances, create_vertices,
}

module _ {O : Type 0} where
  -- What the loop should make: the instances from index `i` on.
  unfoldable pub instances : JobVertex O → ℕ → ℕ → List (ExecutionVertex O)
  instances v i zero = []
  instances v i (suc n) = new_execution_vertex v i ∷ instances v (suc i) n

  pub length-instances : (v : JobVertex O) (i n : ℕ) → length (instances v i n) ≡ n
  unfolding instances
  length-instances v i zero = refl
  length-instances v i (suc n) = ap suc (length-instances v (suc i) n)

  abbrev pub group_of : ℕ → ExecutionGraph O → Option (List (ExecutionVertex O))
  group_of k g = Dict.get k g.execution_vertices_by_job_vertex

  create_instances-other :
      (v : JobVertex O) (i n k : ℕ) (g : ExecutionGraph O)
      → (v.vertex_id == k) ≡ false
      → group_of k (create_instances v i n g) ≡ group_of k g
  unfolding create_instances
  create_instances-other v i zero k g ne = refl
  create_instances-other v i (suc n) k g ne =
      create_instances-other v (suc i) n k _ ne
      ∙ Dict.get-push v.vertex_id k (new_execution_vertex v i) g.execution_vertices_by_job_vertex
      ∙ rw ne

  create_instances-own :
      (v : JobVertex O) (i n : ℕ) (g : ExecutionGraph O) {old : List (ExecutionVertex O)}
      → group_of v.vertex_id g ≡ some old
      → group_of v.vertex_id (create_instances v i n g) ≡ some (old ++ instances v i n)
  unfolding create_instances instances
  create_instances-own v i zero g {old} h = rw append-nil h
  create_instances-own v i (suc n) g {old} h =
      create_instances-own v (suc i) n _ {old = old ++ new_execution_vertex v i ∷ []}
        (pushed v (new_execution_vertex v i) g.execution_vertices_by_job_vertex h)
      ∙ ap some (append_assoc old _ _)
    where
      pushed :
          (v : JobVertex O) (x : ExecutionVertex O) (d : Dict.Dict ℕ (List (ExecutionVertex O)))
          → Dict.get v.vertex_id d ≡ some old
          → Dict.get v.vertex_id (Dict.push v.vertex_id x d) ≡ some (old ++ x ∷ [])
      pushed v x d e =
          rw (Dict.get-push v.vertex_id v.vertex_id x d, beq_refl v.vertex_id, e, Dict.get_or)

  create_instances-new :
      (v : JobVertex O) (n : ℕ) (g : ExecutionGraph O)
      → group_of v.vertex_id g ≡ none
      → 0 < n
      → group_of v.vertex_id (create_instances v 0 n g) ≡ some (instances v 0 n)
  unfolding create_instances instances
  create_instances-new v zero g h pos = elim pos [ ]
  create_instances-new v (suc n) g h pos =
      create_instances-own v 1 n _ {old = new_execution_vertex v 0 ∷ []} (
        rw (
          Dict.get-push v.vertex_id v.vertex_id (new_execution_vertex v 0)
              g.execution_vertices_by_job_vertex,
          beq_refl v.vertex_id,
          h,
          Dict.get_or,
        ))

  create_vertices-other :
      (vs : List (JobVertex O)) (k : ℕ) (g : ExecutionGraph O)
      → has_vertex k vs ≡ false
      → group_of k (create_vertices vs g) ≡ group_of k g
  unfolding create_vertices has_vertex
  create_vertices-other [] k g h = refl
  create_vertices-other (v ∷ vs) k g h = elim (Bool-cases (v.vertex_id == k)) [
    | inl same ↦ cc (rw same at h)
    | inr other ↦
        create_vertices-other vs k _ (rw other at h)
        ∙ create_instances-other v 0 v.parallelism k g other
  ]

  -- Every job vertex gets exactly its instances, with indices from 0 to its parallelism.
  pub create_vertices-group_of :
      (vs : List (JobVertex O)) (v : JobVertex O) (g : ExecutionGraph O)
      → DistinctVertices vs
      → In v vs
      → All (λ u. 0 < u.parallelism) vs
      → ((k : ℕ) → has_vertex k vs ≡ true → group_of k g ≡ none)
      → group_of v.vertex_id (create_vertices vs g) ≡ some (instances v 0 v.parallelism)
  unfolding create_vertices has_vertex
  create_vertices-group_of [] v g d i pos new = absurd i
  create_vertices-group_of (u ∷ us) v g d (inl same) pos new =
      subst
        (λ (w : JobVertex O).
          group_of w.vertex_id (create_vertices us (create_instances u 0 u.parallelism g))
          ≡ some (instances w 0 w.parallelism))
        (sym same)
        (create_vertices-other us u.vertex_id _ d.0
          ∙ create_instances-new u u.parallelism g (new u.vertex_id (rw (beq_refl u.vertex_id)))
              pos.0)
  create_vertices-group_of (u ∷ us) v g d (inr i) pos new =
      create_vertices-group_of us v _ d.1 i pos.1 (λ k there.
        create_instances-other u 0 u.parallelism k g (differs u us k d.0 there)
        ∙ new k (later u us k there))
    where
      differs :
          (x : JobVertex O) (xs : List (JobVertex O)) (k : ℕ)
          → has_vertex x.vertex_id xs ≡ false
          → has_vertex k xs ≡ true
          → (x.vertex_id == k) ≡ false
      differs x xs k absent there = elim (Bool-cases (x.vertex_id == k)) [
        | inl same ↦ cc (rw (beq→eq x.vertex_id k same) at absent)
        | inr other ↦ other
      ]

      later :
          (x : JobVertex O) (xs : List (JobVertex O)) (k : ℕ)
          → has_vertex k xs ≡ true
          → has_vertex k (x ∷ xs) ≡ true
      later x xs k there = ground arith

  create_instances-edges :
      (v : JobVertex O) (i n : ℕ) (g : ExecutionGraph O)
      → (create_instances v i n g).execution_edges ≡ g.execution_edges
  unfolding create_instances
  create_instances-edges v i zero g = refl
  create_instances-edges v i (suc n) g = create_instances-edges v (suc i) n _

  pub create_vertices-edges :
      (vs : List (JobVertex O)) (g : ExecutionGraph O)
      → (create_vertices vs g).execution_edges ≡ g.execution_edges
  unfolding create_vertices
  create_vertices-edges [] g = refl
  create_vertices-edges (v ∷ vs) g =
      create_vertices-edges vs _ ∙ create_instances-edges v 0 v.parallelism g
