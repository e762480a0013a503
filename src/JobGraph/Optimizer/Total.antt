-- ===== src/JobGraph/Optimizer/Total.antt =====
-- The walk of job_graph_optimizer.py ends, on graphs whose ids grow along every edge. Streams get
-- their ids from a counter when they are made, after the streams that they read.
use Prim.Native.Nat.{ℕ}
use volga.Prelude.{
  nat_eq, beq→eq, beq_refl, In-All, zero, suc, ◌+◌, ◌≤◌, ◌<◌, ◌==◌, ◌≡◌, refl, sym, ◌∙◌, subst, inl,
  inr, Bool, true, some, List, [], ◌∷◌, arith, Bool-cases, In, All, All-In,
}
use volga.Prelude.Dict
use volga.JobGraph.{
  JobEdge, has_vertex, is_source, filter_edges, filter_sources, get_vertex_output_edges,
  get_source_vertices,
}
use volga.JobGraph.Builder.{Graph}
use volga.JobGraph.Optimizer.{
  Vertex, State, Result, ok, find, map_vertices, vertex_map, can_chain, contains,
  add_vertex_to_chain_set, divide_edge, divide_edges, divide_vertices, divide_sources, divide,
  max_id, depth_bound, start,
}
use volga.JobGraph.Optimizer.Steps.{tail_of, open_of}

-- Both ends of each edge are vertices, and the source has the smaller id.
pub record Ascends (g : Graph) (e : JobEdge) : Type 0 where
  pub order : e.source_vertex_id < e.target_vertex_id
  pub target : has_vertex e.target_vertex_id g.job_vertices ≡ true

-- The vertex map holds every vertex under its own id.
map_vertices-keeps :
    (vs : List Vertex) (d : Dict.Dict ℕ Vertex) (i : ℕ) {v : Vertex}
    → Dict.get i d ≡ some v
    → (w : Vertex) × (Dict.get i (map_vertices vs d) ≡ some w)
unfolding map_vertices
map_vertices-keeps [] d i {v} h = (v, h)
map_vertices-keeps (u ∷ us) d i {v} h = elim (Bool-cases (u.vertex_id == i)) [
  | inl same ↦ map_vertices-keeps us _ i {v = u} (Dict.get-put u.vertex_id i u d ∙ rw same)
  | inr other ↦ map_vertices-keeps us _ i {v = v} (Dict.get-put u.vertex_id i u d ∙ rw other h)
]

map_vertices-has :
    (vs : List Vertex) (d : Dict.Dict ℕ Vertex) (i : ℕ)
    → has_vertex i vs ≡ true
    → (w : Vertex) × (Dict.get i (map_vertices vs d) ≡ some w)
unfolding map_vertices has_vertex
map_vertices-has [] d i h = cc
map_vertices-has (u ∷ us) d i h = elim (Bool-cases (u.vertex_id == i)) [
  | inl same ↦ map_vertices-keeps us _ i {v = u} (Dict.get-put u.vertex_id i u d ∙ rw same)
  | inr other ↦ map_vertices-has us _ i (rw other at h)
]

abbrev OwnId : ℕ × Vertex → Type 0
OwnId (i, v) = v.vertex_id ≡ i

map_vertices-OwnId :
    (vs : List Vertex) (d : Dict.Dict ℕ Vertex) → All OwnId d → All OwnId (map_vertices vs d)
unfolding map_vertices
map_vertices-OwnId [] d h = h
map_vertices-OwnId (u ∷ us) d h =
    map_vertices-OwnId us _ (Dict.All-put OwnId u.vertex_id u d refl h)

pub vertex_map-has :
    (g : Graph) (i : ℕ)
    → has_vertex i g.job_vertices ≡ true
    → (w : Vertex) × (Dict.get i (vertex_map g) ≡ some w)
unfolding vertex_map
vertex_map-has g i h = map_vertices-has g.job_vertices [] i h

pub vertex_map-OwnId :
    (g : Graph) (i : ℕ) (v : Vertex) → Dict.get i (vertex_map g) ≡ some v → v.vertex_id ≡ i
unfolding vertex_map
vertex_map-OwnId g i v h =
    Dict.All-get OwnId i (vertex_map g) (map_vertices-OwnId g.job_vertices [] tt) h

has_vertex-le_max : (i : ℕ) (vs : List Vertex) → has_vertex i vs ≡ true → i ≤ max_id vs
unfolding has_vertex max_id
has_vertex-le_max i [] h = cc
has_vertex-le_max i (v ∷ vs) h = ground (arith, has_vertex-le_max i vs)

pub In-filter_edges :
    (p : JobEdge → Bool) (e : JobEdge) (es : List JobEdge)
    → In e (filter_edges p es)
    → In e es × (p e ≡ true)
unfolding filter_edges
In-filter_edges p e [] i = absurd i
In-filter_edges p e (d ∷ es) i =
    let below : In e (filter_edges p es) → In e es × (p e ≡ true) = In-filter_edges p e es in
    elim (Bool-cases (p d)) [
      | inl keep ↦ kept below keep (rw keep at i)
      | inr drop ↦ let (there, passes) = below (rw drop at i) in (inr there, passes)
    ]
  where
    kept :
        (In e (filter_edges p es) → In e es × (p e ≡ true))
        → p d ≡ true
        → In e (d ∷ filter_edges p es)
        → In e (d ∷ es) × (p e ≡ true)
    kept below k (inl same) = (inl same, subst (λ x. p x ≡ true) (sym same) k)
    kept below k (inr more) = let (there, passes) = below more in (inr there, passes)

pub In-output_edges :
    (g : Graph) (i : ℕ) (e : JobEdge)
    → In e (get_vertex_output_edges i g)
    → In e g.job_edges × (e.source_vertex_id ≡ i)
unfolding get_vertex_output_edges
In-output_edges g i e out =
    let (there, from) = In-filter_edges (λ d. d.source_vertex_id == i) e g.job_edges out in
    (there, beq→eq e.source_vertex_id i from)

-- A call that ends normally from every state.
abbrev Ends : (State → Result State) → Type 0
Ends m = (st : State) → (t : State) × (m st ≡ ok t)

In-has_vertex : (v : Vertex) (vs : List Vertex) → In v vs → has_vertex v.vertex_id vs ≡ true
unfolding has_vertex
In-has_vertex v [] i = absurd i
In-has_vertex v (u ∷ us) (inl e) =
    subst (λ (w : Vertex). has_vertex v.vertex_id (w ∷ us) ≡ true) e (rw (beq_refl v.vertex_id))
In-has_vertex v (u ∷ us) (inr i) = ground (arith, In-has_vertex v us i)

In-filter_sources : (v : Vertex) (vs : List Vertex) → In v (filter_sources vs) → In v vs
unfolding filter_sources
In-filter_sources v [] i = i
In-filter_sources v (u ∷ us) i = elim (Bool-cases (is_source u.vertex_type)) [
  | inl keep ↦
      let below : In v (filter_sources us) → In v us = In-filter_sources v us in
      let i' : In v (u ∷ filter_sources us) = rw keep at i in
      elim i' [ inl e ↦ inl e | inr more ↦ inr (below more) ]
  | inr drop ↦ inr (In-filter_sources v us (rw drop at i))
]

pub sources_there :
    (g : Graph) → All (λ v. has_vertex v.vertex_id g.job_vertices ≡ true) (get_source_vertices g)
unfolding get_source_vertices
sources_there g =
    In-All _ _ (λ v i. In-has_vertex v g.job_vertices (In-filter_sources v g.job_vertices i))

module _ (g : Graph) (ascends : All (Ascends g) g.job_edges) where
  divide_edge-Ends :
      (again : ℕ → Vertex → State → Result State) (head : ℕ) (src : Vertex) (edge : JobEdge)
      → In edge (get_vertex_output_edges src.vertex_id g)
      → ((h : ℕ) (v : Vertex)
          → has_vertex v.vertex_id g.job_vertices ≡ true
          → src.vertex_id < v.vertex_id
          → Ends (again h v))
      → Ends (divide_edge again g head src edge)
  unfolding divide_edge
  divide_edge-Ends again head src edge out deeper st =
      let (known, from) = In-output_edges g src.vertex_id edge out in
      let up = All-In (Ascends g) edge g.job_edges ascends known in
      let (target, found) = vertex_map-has g edge.target_vertex_id up.target in
      let own : target.vertex_id ≡ edge.target_vertex_id = vertex_map-OwnId g _ target found in
      let there : has_vertex target.vertex_id g.job_vertices ≡ true = rw own up.target in
      let above : src.vertex_id < target.vertex_id = omega (arith, own, from, up.order) in
      elim (Bool-cases (can_chain g src target edge)) [
        | inl chains ↦
            let (t, run) =
              deeper head target there above (add_vertex_to_chain_set head target st) in
            (t, rw (found, find, chains) run)
        | inr cuts ↦ elim (Bool-cases (contains target.vertex_id st.visited)) [
          | inl seen ↦ (tail_of head src edge st, rw (found, find, cuts, seen))
          | inr new ↦
              let (t, run) =
                deeper edge.target_vertex_id target there above (open_of head src edge target st) in
              (t, rw (found, find, cuts, new) run)
        ]
      ]

  divide_edges-Ends :
      (again : ℕ → Vertex → State → Result State) (head : ℕ) (src : Vertex) (edges : List JobEdge)
      → ((e : JobEdge) → In e edges → In e (get_vertex_output_edges src.vertex_id g))
      → ((h : ℕ) (v : Vertex)
          → has_vertex v.vertex_id g.job_vertices ≡ true
          → src.vertex_id < v.vertex_id
          → Ends (again h v))
      → Ends (divide_edges again g head src edges)
  unfolding divide_edges
  divide_edges-Ends again head src [] outs deeper st = (st, refl)
  divide_edges-Ends again head src (edge ∷ edges) outs deeper st =
      let (mid, first) = divide_edge-Ends again head src edge (outs edge (inl refl)) deeper st in
      let (t, rest) = divide_edges-Ends again head src edges (λ e i. outs e (inr i)) deeper mid in
      (t, rw first rest)

  divide_vertices-Ends :
      (fuel head : ℕ) (src : Vertex)
      → has_vertex src.vertex_id g.job_vertices ≡ true
      → max_id g.job_vertices < src.vertex_id + fuel
      → Ends (divide_vertices fuel g head src)
  unfolding divide_vertices
  divide_vertices-Ends zero head src there room st =
      absurd (omega (arith, has_vertex-le_max src.vertex_id g.job_vertices there))
  divide_vertices-Ends (suc fuel) head src there room st =
      divide_edges-Ends (divide_vertices fuel g) head src _ (λ e i. i)
        (λ h v v_there above. divide_vertices-Ends fuel h v v_there (omega arith)) st

  divide_sources-Ends :
      (vs : List Vertex)
      → All (λ v. has_vertex v.vertex_id g.job_vertices ≡ true) vs
      → Ends (divide_sources (depth_bound g) g vs)
  unfolding divide_sources depth_bound
  divide_sources-Ends [] there st = (st, refl)
  divide_sources-Ends (v ∷ vs) there st =
      let (mid, first) =
        divide_vertices-Ends (depth_bound g) v.vertex_id v there.0 (omega arith)
          (add_vertex_to_chain_set v.vertex_id v st) in
      let (t, rest) = divide_sources-Ends vs there.1 mid in (t, rw first rest)

  pub divide-Ends : (t : State) × (divide g ≡ ok t)
  unfolding divide
  divide-Ends = divide_sources-Ends (get_source_vertices g) (sources_there g) start
