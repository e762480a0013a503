-- ===== src/Ports/Exclusive.antt =====
-- No two connections of a node share a port (worker_lifecycle_controller.py).
use Prim.Native.String.{String}
use volga.Prelude.{
  string_eq, ℕ, ◌==◌, ◌≡◌, refl, sym, ap, ◌∙◌, subst, true, false, ◌&&◌, none, some, List, [], ◌∷◌,
  ok, raised, arith, Bool-cases, Option-cases, inl, inr, ◌⊎◌, beq→eq, beq_refl, In,
}
use volga.Prelude.Dict
use volga.Prelude.Dict.{Dict}
use volga.Ports.{Reserved, port_pool, is_used, first_free, gen_port}

-- Connections with one node and one port are the same connection.
pub record IsExclusive (reserved : Reserved) : Type 0 where
  pub exclusive :
      (c d : String) (port : ℕ) (node : String)
      → Dict.get c reserved ≡ some (port, node)
      → Dict.get d reserved ≡ some (port, node)
      → c ≡ d

get-is_used :
    (c : String) (reserved : Reserved) {port : ℕ} {node : String}
    → Dict.get c reserved ≡ some (port, node)
    → is_used node port reserved ≡ true
unfolding Dict.get is_used
get-is_used c [] h = cc
get-is_used c ((d, (p, n)) ∷ reserved) {port} {node} h = elim (Bool-cases (string_eq.beq d c)) [
  | inl same ↦
      let entry : (p, n) ≡ (port, node) = cc (rw same at h) in
      let p_is : p ≡ port = ap (λ ((a, b) : ℕ × String). a) entry in
      let n_is : n ≡ node = ap (λ ((a, b) : ℕ × String). b) entry in
      let hit : string_eq.beq node n ≡ true =
        subst (λ m. string_eq.beq node m ≡ true) (sym n_is) (beq_refl node) in
      let port_hit : (p == port) ≡ true = ground (arith, p_is) in rw (hit, port_hit) refl
  | inr other ↦
      let ih = get-is_used c reserved (rw other at h) in
      elim (Bool-cases (string_eq.beq node n && p == port)) [
        | inl hit ↦ rw hit refl
        | inr miss ↦ rw miss ih
      ]
]

first_free-free :
    (node : String) (ports : List ℕ) (reserved : Reserved) {port : ℕ}
    → first_free node ports reserved ≡ some port
    → (is_used node port reserved ≡ false) × In port ports
unfolding first_free
first_free-free node [] reserved h = cc
first_free-free node (p ∷ ports) reserved {port} h = elim (Bool-cases (is_used node p reserved)) [
  | inl used ↦
      let (free, member) = first_free-free node ports reserved (rw used at h) in (free, inr member)
  | inr free ↦
      let same : p ≡ port = cc (rw free at h) in
      (subst (λ q. is_used node q reserved ≡ false) same free, inl (sym same))
]

module _ (conn node : String) (port : ℕ) (reserved : Reserved) where
  private_port :
      is_used node port reserved ≡ false
      → (c d : String) {p : ℕ} {n : String} → string_eq.beq conn c ≡ true
      → string_eq.beq conn d ≡ false
      → Dict.get c (Dict.put conn (port, node) reserved) ≡ some (p, n)
      → Dict.get d (Dict.put conn (port, node) reserved) ≡ some (p, n)
      → c ≡ d
  private_port free c d {p} {n} same other at_c at_d =
      let entry : (port, node) ≡ (p, n) =
        cc (rw (Dict.get-put conn c (port, node) reserved, same) at at_c) in
      let p_is : port ≡ p = ap (λ ((a, b) : ℕ × String). a) entry in
      let n_is : node ≡ n = ap (λ ((a, b) : ℕ × String). b) entry in
      let old : Dict.get d reserved ≡ some (p, n) =
        rw (Dict.get-put conn d (port, node) reserved, other) at at_d in
      let used : is_used node port reserved ≡ true = rw (p_is, n_is) (get-is_used d reserved old) in
      cc

  put-IsExclusive :
      is_used node port reserved ≡ false
      → IsExclusive reserved
      → IsExclusive (Dict.put conn (port, node) reserved)
  put-IsExclusive free h = record {
    exclusive = λ c d p n at_c at_d. elim (Bool-cases (string_eq.beq conn c)) [
      | inl c_same ↦ elim (Bool-cases (string_eq.beq conn d)) [
        | inl d_same ↦ sym (beq→eq conn c c_same) ∙ beq→eq conn d d_same
        | inr d_other ↦ private_port free c d c_same d_other at_c at_d
      ]
      | inr c_other ↦ elim (Bool-cases (string_eq.beq conn d)) [
        | inl d_same ↦ sym (private_port free d c d_same c_other at_d at_c)
        | inr d_other ↦
            h.exclusive c d p n (rw (Dict.get-put conn c (port, node) reserved, c_other) at at_c)
              (rw (Dict.get-put conn d (port, node) reserved, d_other) at at_d)
      ]
    ];
  }

module _ (conn node : String) (reserved : Reserved) where
  gen_port-old :
      {entry : ℕ × String}
      → Dict.get conn reserved ≡ some entry
      → gen_port conn node reserved ≡ ok (entry.0, reserved)
  unfolding gen_port
  gen_port-old found = rw (found, gen_port) refl

  gen_port-new :
      {p : ℕ}
      → Dict.get conn reserved ≡ none
      → first_free node port_pool reserved ≡ some p
      → gen_port conn node reserved ≡ ok (p, Dict.put conn (p, node) reserved)
  unfolding gen_port
  gen_port-new fresh free = rw (fresh, gen_port, free) refl

  gen_port-full :
      Dict.get conn reserved ≡ none
      → first_free node port_pool reserved ≡ none
      → gen_port conn node reserved ≡ raised
  unfolding gen_port
  gen_port-full fresh all_used = rw (fresh, gen_port, all_used) refl

-- What holds of an answer: the connections of a node do not share a port, asking again answers the
-- same, and the connection had its port before, or got one of the pool.
pub record IsGood (conn node : String) (reserved : Reserved) (answer : ℕ × Reserved) : Type 0 where
  pub exclusive : IsExclusive answer.1
  pub repeated : gen_port conn node answer.1 ≡ ok answer
  pub origin : (Dict.has conn reserved ≡ true) ⊎ In answer.0 port_pool

-- While no two connections of a node share a port, none do after an answer of `gen_port`; asking again
-- answers the same port, and a connection that had no port before got one of the pool.
pub gen_port-IsGood :
    (conn node : String) (reserved : Reserved) (answer : ℕ × Reserved)
    → IsExclusive reserved
    → gen_port conn node reserved ≡ ok answer
    → IsGood conn node reserved answer
gen_port-IsGood conn node reserved answer h run = elim (Option-cases (Dict.get conn reserved)) [
  | inr (entry, found) ↦
      let same : (entry.0, reserved) ≡ answer =
        ok-same (sym (gen_port-old conn node reserved found) ∙ run) in
      subst (IsGood conn node reserved) same (record {
        exclusive = h;
        repeated = gen_port-old conn node reserved found;
        origin = inl (Dict.get→has conn reserved found);
      })
  | inl fresh ↦ elim (Option-cases (first_free node port_pool reserved)) [
    | inl all_used ↦ raised-ne (sym (gen_port-full conn node reserved fresh all_used) ∙ run)
    | inr (p, free) ↦
        let same : (p, Dict.put conn (p, node) reserved) ≡ answer =
          ok-same (sym (gen_port-new conn node reserved fresh free) ∙ run) in
        let (unused, member) = first_free-free node port_pool reserved free in
        subst (IsGood conn node reserved) same (record {
          exclusive = put-IsExclusive conn node p reserved unused h;
          repeated =
              gen_port-old conn node (Dict.put conn (p, node) reserved)
                (Dict.get-put_self conn (p, node) reserved);
          origin = inr member;
        })
  ]
]
  where
    ok-same : {a b : ℕ × Reserved} → ok a ≡ ok b → a ≡ b
    ok-same e = cc

    raised-ne : {A : Type 0} {b : ℕ × Reserved} → raised ≡ ok b → A
    raised-ne e = absurd (no e)
      where
        no : {c : ℕ × Reserved} → raised ≡ ok c → ⊥
        no q = cc
