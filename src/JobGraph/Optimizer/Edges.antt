-- ===== src/JobGraph/Optimizer/Edges.antt =====
-- The edges of the optimized graph (`reset_edges` and `merge_vertices` of job_graph_optimizer.py).
use volga.Prelude.{
  nat_eq, beq→eq, ℕ, ◌==◌, ◌≡◌, refl, sym, ap, ◌∙◌, subst, ◌⊎◌, inl, inr, true, false, some, List,
  [], ◌∷◌, ◌++◌, arith, Bool-cases, In, All, All-append, All-map, All-In,
}
use volga.Prelude.Dict
use volga.Prelude.Dict.{Dict}
use volga.JobGraph.{JobEdge}
use volga.JobGraph.Builder.{Graph}
use volga.JobGraph.Optimizer.{
  Vertex, State, ok, vertex_map, contains, add_vertex_to_chain_set, visit, divide,
}
use volga.JobGraph.Optimizer.Total.{vertex_map-OwnId, vertex_map-has, sources_there}
use volga.JobGraph.Optimizer.Steps.{InChain, tail_of, Step, extend, revisit, open_chain}
use volga.JobGraph.Optimizer.Chains.{divide-keeps}

-- The chain's head leads it, and the vertex map knows all of its vertices.
abbrev pub IsHeaded : Graph → ℕ × List Vertex → Type 0
IsHeaded g (head, []) = ⊥
IsHeaded g (head, v ∷ chain) =
    (v.vertex_id ≡ head)
    × All (λ u. (w : Vertex) × (Dict.get u.vertex_id (vertex_map g) ≡ some w)) (v ∷ chain)

abbrev pub Opened : State → ℕ → Type 0
Opened st i = Dict.has i st.chain_set ≡ true

abbrev pub TailsOpened : State → ℕ × List JobEdge → Type 0
TailsOpened st (head, es) = Opened st head × All (λ (e : JobEdge). Opened st e.target_vertex_id) es

-- Every chain has its head, what was visited has a chain, and each edge between chains goes from a
-- chain to the head of a chain.
pub record IsWellFormed (g : Graph) (st : State) : Type 0 where
  pub chains : All (IsHeaded g) st.chain_set
  pub visited : All (Opened st) st.visited
  pub tails : All (TailsOpened st) st.tail_edges_map

push-Opened :
    (root i : ℕ) (v : Vertex) (st : State)
    → Opened st i
    → Opened (add_vertex_to_chain_set root v st) i
push-Opened root i v st h = rw Dict.has-push (ground arith)

push-Opened_self :
    (root : ℕ) (v : Vertex) (st : State) → Opened (add_vertex_to_chain_set root v st) root
push-Opened_self root v st = rw Dict.has-push (ground arith)

InChain-Opened : (head : ℕ) (v : Vertex) (st : State) → InChain head v st → Opened st head
InChain-Opened head v st i = elim (Bool-cases (Dict.has head st.chain_set)) [
  | inl there ↦ there
  | inr gone ↦ absurd (rw (Dict.has-false→get head st.chain_set gone, Dict.get_or) at i)
]

push-IsHeaded :
    (g : Graph) (root : ℕ) (v w : Vertex) (st : State)
    → Dict.get v.vertex_id (vertex_map g) ≡ some w
    → (Opened st root ⊎ (v.vertex_id ≡ root))
    → All (IsHeaded g) st.chain_set
    → All (IsHeaded g) (add_vertex_to_chain_set root v st).chain_set
push-IsHeaded g root v w st found ready h =
    Dict.All-push (IsHeaded g) root v st.chain_set (fresh ready) grown h
  where
    fresh :
        (Opened st root ⊎ (v.vertex_id ≡ root))
        → Dict.has root st.chain_set ≡ false
        → IsHeaded g (root, v ∷ [])
    fresh (inl opened) none_yet = cc
    fresh (inr own) none_yet = (own, ((w, found), tt))

    grown :
        (chain : List Vertex)
        → Dict.get root st.chain_set ≡ some chain
        → IsHeaded g (root, chain)
        → IsHeaded g (root, chain ++ v ∷ [])
    grown [] at_root headed = absurd headed
    grown (u ∷ chain) at_root headed = (
      headed.0,
      All-append (λ x. (y : Vertex) × (Dict.get x.vertex_id (vertex_map g) ≡ some y)) (u ∷ chain)
          (v ∷ []) headed.1 ((w, found), tt),
    )

push_tail-TailsOpened :
    (st : State) (head : ℕ) (e : JobEdge) (d : Dict ℕ (List JobEdge))
    → Opened st head
    → Opened st e.target_vertex_id
    → All (TailsOpened st) d
    → All (TailsOpened st) (Dict.push head e d)
push_tail-TailsOpened st head e d from to h =
    Dict.All-push (TailsOpened st) head e d (λ fresh. (from, (to, tt)))
      (λ es at_head old. (
        from,
        All-append (λ (x : JobEdge). Opened st x.target_vertex_id) es (e ∷ []) old.1 (to, tt),
      ))
      h

push-TailsOpened :
    (root : ℕ) (v : Vertex) (st : State) (d : Dict ℕ (List JobEdge))
    → All (TailsOpened st) d
    → All (TailsOpened (add_vertex_to_chain_set root v st)) d
push-TailsOpened root v st d h =
    All-map d
      (λ p t. (
        push-Opened root p.0 v st t.0,
        All-map p.1 (λ e o. push-Opened root e.target_vertex_id v st o) t.1,
      ))
      h

contains→In : (i : ℕ) (js : List ℕ) → contains i js ≡ true → In i js
unfolding contains
contains→In i [] h = cc
contains→In i (j ∷ js) h = elim (Bool-cases (j == i)) [
  | inl same ↦ inl (sym (beq→eq j i same))
  | inr other ↦ inr (contains→In i js (rw other at h))
]

Step-IsWellFormed : (g : Graph) (s t : State) → Step g s t → IsWellFormed g s → IsWellFormed g t
Step-IsWellFormed g s t (extend head src edge target f c) w =
    let own : target.vertex_id ≡ edge.target_vertex_id = vertex_map-OwnId g _ target f.found in
    record {
      chains =
          push-IsHeaded g head target target s
            (ap (λ (k : ℕ). Dict.get k (vertex_map g)) own ∙ f.found)
            (inl (InChain-Opened head src s f.placed)) w.chains;
      visited = All-map s.visited (λ i. push-Opened head i target s) w.visited;
      tails = push-TailsOpened head target s s.tail_edges_map w.tails;
    }
Step-IsWellFormed g s t (revisit head src edge target f c seen) w =
    let own : target.vertex_id ≡ edge.target_vertex_id = vertex_map-OwnId g _ target f.found in
    record {
      chains = w.chains;
      visited = w.visited;
      tails =
          push_tail-TailsOpened s head _ s.tail_edges_map (InChain-Opened head src s f.placed)
            (subst (Opened s) own (
              All-In (Opened s) target.vertex_id s.visited w.visited
                (contains→In _ s.visited seen)))
            w.tails;
    }
Step-IsWellFormed g s t (open_chain head src edge target f c new) w =
    let own : target.vertex_id ≡ edge.target_vertex_id = vertex_map-OwnId g _ target f.found in
    let before : State = visit target (tail_of head src edge s) in
    let root : ℕ = edge.target_vertex_id in
    let opened : Opened t root = push-Opened_self root target before in
    record {
      chains =
          push-IsHeaded g root target target before
            (ap (λ (k : ℕ). Dict.get k (vertex_map g)) own ∙ f.found) (inr own) w.chains;
      visited = (
        subst (Opened t) (sym own) opened,
        All-map s.visited (λ i. push-Opened root i target before) w.visited,
      );
      tails =
          push_tail-TailsOpened t head _ s.tail_edges_map
            (push-Opened root head target before (InChain-Opened head src s f.placed)) opened
            (push-TailsOpened root target s s.tail_edges_map w.tails);
    }

pub divide-IsWellFormed : (g : Graph) (t : State) → divide g ≡ ok t → IsWellFormed g t
divide-IsWellFormed g t run =
    divide-keeps g (IsWellFormed g) t (Step-IsWellFormed g)
      (λ v a i w.
        let (u, found) = vertex_map-has g v.vertex_id (All-In _ v _ (sources_there g) i) in
        record {
          chains = push-IsHeaded g v.vertex_id v u a found (inr refl) w.chains;
          visited = All-map a.visited (λ j. push-Opened v.vertex_id j v a) w.visited;
          tails = push-TailsOpened v.vertex_id v a a.tail_edges_map w.tails;
        })
      (record { chains = tt; visited = tt; tails = tt }) run
