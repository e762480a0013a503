-- ===== src/Resources/Nodes.antt =====
-- resource_manager.py and node_assign_strategy.py: what a vertex takes is there, so that no node is
-- left with less than nothing.
use volga.Prelude.{
  nat_eq, ℕ, zero, suc, ◌+◌, ◌≡◌, subst, ◌==◌, true, ◌&&◌, Option, none, some, List, [], ◌∷◌, ◌++◌,
  drop, set, ok, Result-cases, All, Bool-cases, inl, inr, arith,
}
use volga.Prelude.Int.{ℤ, pos, ◌-ℤ◌, ◌≤ℤ◌, -ℤ_parts}
use volga.Prelude.Dict
use volga.Prelude.Dict.{Dict}
use volga.ExecutionGraph.{ExecutionId, execution_id_eq}
use volga.Resources.{
  Resources, acquire, acquire_resources, Node, allocate_execution_vertex, is_enough,
  has_enough_resources, Assigned, allocate_at, find_from, find_own,
}

abbrev pub NotNegative : Option ℤ → Type 0
NotNegative none = Unit
NotNegative (some amount) = pos 0 ≤ℤ amount

-- No amount of the node is below 0.
pub record HasLeft (node : Node) : Type 0 where
  pub cpus : NotNegative node.resources.num_cpus
  pub gpus : NotNegative node.resources.num_gpus
  pub mem : NotNegative node.resources.memory

acquire-NotNegative :
    (available required : Option ℤ) {left : Option ℤ}
    → is_enough required available ≡ true
    → NotNegative available
    → acquire available required ≡ ok left
    → NotNegative left
unfolding is_enough acquire
acquire-NotNegative available none {left} enough h run =
    let same : available ≡ left = cc in subst NotNegative same h
acquire-NotNegative none (some required) enough h run = absurd (cc)
acquire-NotNegative (some available) (some required) {left} enough h run =
    let same : some (available -ℤ required) ≡ left = cc in
    subst NotNegative same (difference (ground arith))
  where
    difference : required ≤ℤ available → pos 0 ≤ℤ available -ℤ required
    difference le = omega (arith, -ℤ_parts available required)

pub allocate-HasLeft :
    (required : Resources) (node : Node) {node' : Node}
    → has_enough_resources required node ≡ true
    → HasLeft node
    → allocate_execution_vertex (some required) node ≡ ok node'
    → HasLeft node'
unfolding has_enough_resources allocate_execution_vertex acquire_resources
allocate-HasLeft required node {node'} enough h run =
    elim (Result-cases (acquire node.resources.num_cpus required.num_cpus)) [
      | inl failed ↦ absurd (cc (rw failed at run))
      | inr (cpus, c) ↦ elim (Result-cases (acquire node.resources.memory required.memory)) [
        | inl failed ↦ absurd (cc (rw (c, failed) at run))
        | inr (memory, m) ↦
            elim (Result-cases (acquire node.resources.num_gpus required.num_gpus)) [
              | inl failed ↦ absurd (cc (rw (c, m, failed) at run))
              | inr (gpus, g) ↦
                  let cpus_enough : is_enough required.num_cpus node.resources.num_cpus ≡ true =
                    ground arith in
                  let mem_enough : is_enough required.memory node.resources.memory ≡ true =
                    ground arith in
                  let gpus_enough : is_enough required.num_gpus node.resources.num_gpus ≡ true =
                    ground arith in
                  let left : Node = record node {
                    resources = record { num_cpus = cpus; num_gpus = gpus; memory = memory };
                  } in
                  let kept : HasLeft left = record {
                    cpus =
                        acquire-NotNegative node.resources.num_cpus required.num_cpus cpus_enough
                          h.cpus c;
                    gpus =
                        acquire-NotNegative node.resources.num_gpus required.num_gpus gpus_enough
                          h.gpus g;
                    mem =
                        acquire-NotNegative node.resources.memory required.memory mem_enough h.mem
                          m;
                  } in
                  let is_node' : left ≡ node' = cc (rw (c, m, g) at run) in
                  subst HasLeft is_node' kept
            ]
      ]
    ]

All-set {ℓ κ} :
    {A : Type ℓ} (P : A → Type κ) (xs : List A) (i : ℕ) (x : A)
    → P x
    → All P xs
    → All P (set xs i x)
All-set P [] i x new h = tt
All-set P (y ∷ ys) zero x new h = (new, h.1)
All-set P (y ∷ ys) (suc i) x new h = (h.0, All-set P ys i x new h.1)

pub All-drop {ℓ κ} :
    {A : Type ℓ} (P : A → Type κ) (n : ℕ) (xs : List A) → All P xs → All P (drop n xs)
All-drop P zero xs h = h
All-drop P (suc n) [] h = tt
All-drop P (suc n) (x ∷ xs) h = All-drop P n xs h.1

-- What `allocate_at` does to the nodes, and to the places of the vertices.
pub allocate_at_lem :
    (id : ExecutionId) (required : Resources) (place : ℕ) (node : Node) (a : Assigned)
    {a' : Assigned}
    → has_enough_resources required node ≡ true
    → HasLeft node
    → All HasLeft a.nodes
    → allocate_at id (some required) place node a ≡ ok a'
    → All HasLeft a'.nodes × (a'.res ≡ a.res ++ (id, place) ∷ [])
unfolding allocate_at
allocate_at_lem id required place node a {a'} enough left all h =
    elim (Bool-cases (Dict.has id a.res)) [
      | inl again ↦ absurd (cc (rw again at h))
      | inr new ↦ elim (Result-cases (allocate_execution_vertex (some required) node)) [
        | inl failed ↦ absurd (cc (rw (new, failed) at h))
        | inr (node', run) ↦
            let made : Assigned = record {
              nodes = set a.nodes place node';
              res = Dict.put id place a.res;
            } in
            let is_a' : made ≡ a' = cc (rw (new, run) at h) in
            let left' = allocate-HasLeft required node enough left run in
            subst (λ (x : Assigned). All HasLeft x.nodes × (x.res ≡ a.res ++ (id, place) ∷ []))
              is_a' (All-set HasLeft a.nodes place node' left' all, Dict.put-new id place a.res new)
      ]
    ]

pub find_from_lem :
    (required : Resources) (nodes : List Node) (index : ℕ) {index' : ℕ} {node : Node}
    → All HasLeft nodes
    → find_from required nodes index ≡ (index', some node)
    → HasLeft node × (has_enough_resources required node ≡ true)
unfolding find_from
find_from_lem required [] index all h = absurd (cc)
find_from_lem required (n ∷ ns) index {index'} {node} all h =
    elim (Bool-cases (has_enough_resources required n)) [
      | inl enough ↦
          let same : n ≡ node = cc (rw enough at h) in
          subst (λ (x : Node). HasLeft x × (has_enough_resources required x ≡ true)) same
            (all.0, enough)
      | inr short ↦ find_from_lem required ns (index + 1) all.1 (rw short at h)
    ]

pub find_own_lem :
    (op : ℕ) (required : Resources) (nodes : List Node) (i : ℕ) (owners : Dict ℕ ℕ)
    → {place : ℕ} {node : Node} → All HasLeft nodes
    → find_own op required nodes i owners ≡ some (place, node)
    → HasLeft node
      × (has_enough_resources required node ≡ true)
      × ((Dict.get_or place op owners == op) ≡ true)
unfolding find_own
find_own_lem op required [] i owners all h = absurd (cc)
find_own_lem op required (n ∷ ns) i owners {place} {node} all h =
    elim (Bool-cases ((Dict.get_or i op owners == op) && has_enough_resources required n)) [
      | inr no_room ↦ find_own_lem op required ns (i + 1) owners all.1 (rw no_room at h)
      | inl room ↦
          let same : n ≡ node = cc (rw room at h) in
          let is_place : i ≡ place = cc (rw room at h) in
          let enough : has_enough_resources required n ≡ true = ground arith in
          let own : (Dict.get_or i op owners == op) ≡ true = ground arith in
          (
            subst HasLeft same all.0,
            subst (λ (x : Node). has_enough_resources required x ≡ true) same enough,
            subst (λ (p : ℕ). (Dict.get_or p op owners == op) ≡ true) is_place own,
          )
    ]
