-- ===== src/JobGraph/Optimizer/Steps.antt =====
-- `divide_vertices` (job_graph_optimizer.py) as a step relation: each round of its loop is one of
-- three steps, whatever the depth at which it runs.
use volga.Prelude.{
  nat_eq, beq→eq, ℕ, zero, suc, ◌==◌, ◌≡◌, refl, sym, ap, ◌∙◌, subst, inl, inr, true, false, some,
  List, [], ◌∷◌, Bool-cases, Option-cases, In, In-append_left, In-append_right,
}
use volga.Prelude.Dict
use volga.JobGraph.{JobEdge, get_vertex_output_edges}
use volga.JobGraph.Builder.{Graph}
use volga.JobGraph.Optimizer.{
  Vertex, State, Result, ok, key_error, failed_assertion, too_deep, find, vertex_map, can_chain,
  contains, add_vertex_to_chain_set, add_tail_edge, visit, divide_edge, divide_edges,
  divide_vertices, ◌>>=◌,
}

-- The vertex stands in the chain of that head.
abbrev pub InChain : ℕ → Vertex → State → Type 0
InChain head v st = In v (Dict.get_or head [] st.chain_set)

-- `tail_edges_map` after a call of `add_tail_edge` in the loop.
abbrev pub tail_of : ℕ → Vertex → JobEdge → State → State
tail_of head src edge st = add_tail_edge head edge src.stream_operator.id edge.target_operator_id st

-- The new head of a chain, after the edge to it was filed.
abbrev pub open_of : ℕ → Vertex → JobEdge → Vertex → State → State
open_of head src edge target st =
    add_vertex_to_chain_set edge.target_vertex_id target (visit target (tail_of head src edge st))

-- What every step has: an output edge of a vertex that stands in a chain, and the edge's target.
pub record Follows (g : Graph) (head : ℕ) (src : Vertex) (edge : JobEdge) (target : Vertex)
    (st : State) : Type 0 where
  pub placed : InChain head src st
  pub output : In edge (get_vertex_output_edges src.vertex_id g)
  pub found : Dict.get edge.target_vertex_id (vertex_map g) ≡ some target

pub data Step (g : Graph) (st : State) : State → Type 0 where
  extend :
      (head : ℕ) (src : Vertex) (edge : JobEdge) (target : Vertex)
      → Follows g head src edge target st
      → can_chain g src target edge ≡ true
      → Step g st (add_vertex_to_chain_set head target st)
  revisit :
      (head : ℕ) (src : Vertex) (edge : JobEdge) (target : Vertex)
      → Follows g head src edge target st
      → can_chain g src target edge ≡ false
      → contains target.vertex_id st.visited ≡ true
      → Step g st (tail_of head src edge st)
  open_chain :
      (head : ℕ) (src : Vertex) (edge : JobEdge) (target : Vertex)
      → Follows g head src edge target st
      → can_chain g src target edge ≡ false
      → contains target.vertex_id st.visited ≡ false
      → Step g st (open_of head src edge target st)

pub data Reach (g : Graph) (st : State) : State → Type 0 where
  here : Reach g st st
  next : {t u : State} → Reach g st t → Step g t u → Reach g st u

pub Reach-trans : (g : Graph) {s t u : State} → Reach g s t → Reach g t u → Reach g s u
Reach-trans g r here = r
Reach-trans g r (next q step) = next (Reach-trans g r q) step

-- A chain only grows.
pub push-InChain :
    (root head : ℕ) (target v : Vertex) (st : State)
    → InChain head v st
    → InChain head v (add_vertex_to_chain_set root target st)
push-InChain root head target v st h = elim (Bool-cases (root == head)) [
  | inl same ↦
      let e : root ≡ head = beq→eq root head same in
      subst (λ (k : ℕ). InChain k v (add_vertex_to_chain_set root target st)) e
        (subst (In v) (sym (Dict.get_or-push_self root target st.chain_set))
          (In-append_left v _ (target ∷ []) (subst (λ (k : ℕ). InChain k v st) (sym e) h)))
  | inr other ↦ subst (In v) (sym (Dict.get_or-push_ne root head target st.chain_set other)) h
]

pub push-InChain_self :
    (root : ℕ) (target : Vertex) (st : State)
    → InChain root target (add_vertex_to_chain_set root target st)
push-InChain_self root target st =
    subst (In target) (sym (Dict.get_or-push_self root target st.chain_set))
      (In-append_right target _ (target ∷ []) (inl refl))

pub Step-InChain :
    (g : Graph) (head : ℕ) (v : Vertex) {s t : State}
    → Step g s t
    → InChain head v s
    → InChain head v t
Step-InChain g head v {s} (extend h src edge target f c) i = push-InChain h head target v s i
Step-InChain g head v (revisit h src edge target f c o) i = i
Step-InChain g head v {s} (open_chain h src edge target f c o) i =
    push-InChain edge.target_vertex_id head target v (visit target (tail_of h src edge s)) i

pub Reach-InChain :
    (g : Graph) (head : ℕ) (v : Vertex) {s t : State}
    → Reach g s t
    → InChain head v s
    → InChain head v t
Reach-InChain g head v here i = i
Reach-InChain g head v (next r step) i = Step-InChain g head v step (Reach-InChain g head v r i)

-- The recursive call, as far as the loop relies on it.
abbrev Sound : Graph → (ℕ → Vertex → State → Result State) → Type 0
Sound g again =
    (head : ℕ) (src : Vertex) (s t : State)
    → InChain head src s
    → again head src s ≡ ok t
    → Reach g s t

-- A chain of two calls that ends well: what the first one returned, and the second one's run.
pub both_ok {ℓ κ} :
    {S : Type ℓ} {T : Type κ} (first : Result S) (second : S → Result T) {out : T}
    → (first >>= second) ≡ ok out
    → (mid : S) × (first ≡ ok mid) × (second mid ≡ ok out)
both_ok too_deep second run = cc
both_ok failed_assertion second run = cc
both_ok (key_error k) second run = cc
both_ok (ok mid) second run = (mid, refl, run)

pub ok-injective : {A : Type 0} {u w : A} → ok u ≡ ok w → u ≡ w
ok-injective e = cc

too_deep-ne-ok : {A : Type 0} {w : A} → too_deep ≡ ok w → ⊥
too_deep-ne-ok e = cc

key_error-ne-ok : {A : Type 0} {k : ℕ} {w : A} → key_error k ≡ ok w → ⊥
key_error-ne-ok e = cc

pub find-eq-ok :
    (k : ℕ) (d : Dict.Dict ℕ Vertex) {v : Vertex} → find k d ≡ ok v → Dict.get k d ≡ some v
find-eq-ok k d h = elim (Option-cases (Dict.get k d)) [
  | inl gone ↦ absurd (key_error-ne-ok (rw (gone, find) at h))
  | inr (w, there) ↦ there ∙ ap some (ok-injective (rw (there, find) at h))
]

divide_edge-Reach :
    (again : ℕ → Vertex → State → Result State) (g : Graph) (head : ℕ) (src : Vertex)
    (edge : JobEdge) (s t : State)
    → Sound g again
    → InChain head src s
    → In edge (get_vertex_output_edges src.vertex_id g)
    → divide_edge again g head src edge s ≡ ok t
    → Reach g s t
unfolding divide_edge
divide_edge-Reach again g head src edge s t sound placed output run =
    let (target, is_found, more) = both_ok (find edge.target_vertex_id (vertex_map g)) _ run in
    let follows : Follows g head src edge target s = record {
      placed = placed;
      output = output;
      found = find-eq-ok _ _ is_found;
    } in
    elim (Bool-cases (can_chain g src target edge)) [
      | inl chains ↦
          Reach-trans g (next here (extend head src edge target follows chains))
            (sound head target _ t (push-InChain_self head target s) (rw chains at more))
      | inr cuts ↦ elim (Bool-cases (contains target.vertex_id s.visited)) [
        | inl seen ↦
            subst (Reach g s) (ok-injective (rw (cuts, seen) at more))
              (next here (revisit head src edge target follows cuts seen))
        | inr new ↦ Reach-trans g (next here (open_chain head src edge target follows cuts new)) (
            sound edge.target_vertex_id target _ t
              (push-InChain_self edge.target_vertex_id target
                (visit target (tail_of head src edge s)))
              (rw (cuts, new) at more))
      ]
    ]

divide_edges-Reach :
    (again : ℕ → Vertex → State → Result State) (g : Graph) (head : ℕ) (src : Vertex)
    (edges : List JobEdge) (s t : State)
    → Sound g again
    → InChain head src s
    → ((e : JobEdge) → In e edges → In e (get_vertex_output_edges src.vertex_id g))
    → divide_edges again g head src edges s ≡ ok t
    → Reach g s t
unfolding divide_edges
divide_edges-Reach again g head src [] s t sound placed outputs run =
    subst (Reach g s) (ok-injective run) here
divide_edges-Reach again g head src (edge ∷ edges) s t sound placed outputs run =
    let (mid, first, rest) = both_ok (divide_edge again g head src edge s) _ run in
    let r1 =
      divide_edge-Reach again g head src edge s mid sound placed (outputs edge (inl refl)) first in
    Reach-trans g r1 (
      divide_edges-Reach again g head src edges mid t sound (Reach-InChain g head src r1 placed)
        (λ e i. outputs e (inr i)) rest)

pub divide_vertices-Reach : (fuel : ℕ) (g : Graph) → Sound g (divide_vertices fuel g)
unfolding divide_vertices
divide_vertices-Reach zero g head src s t placed run = absurd (too_deep-ne-ok run)
divide_vertices-Reach (suc fuel) g head src s t placed run =
    divide_edges-Reach (divide_vertices fuel g) g head src _ s t (divide_vertices-Reach fuel g)
      placed (λ e i. i) run
