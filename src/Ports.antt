-- ===== src/Ports.antt =====
-- `WorkerLifecycleController.gen_port` in
-- volga/streaming/runtime/master/worker_lifecycle_controller.py: the ports of remote connections.
pub mod Exclusive
mod Tests
use Prim.Native.String.{String}
use volga.Prelude.{
  string_eq, ℕ, ◌==◌, Bool, true, false, ◌&&◌, Option, none, some, List, [], ◌∷◌, if◌then◌else◌,
  Result, ok, raised,
}
use volga.Prelude.Dict
use volga.Prelude.Dict.{Dict}

-- The port and the node of each connection.
abbrev pub Reserved : Type 0
Reserved = Dict String (ℕ × String)

abbrev pub port_pool : List ℕ
port_pool = 1234 ∷ 1235 ∷ 1236 ∷ 1237 ∷ []

unfoldable pub is_used : String → ℕ → Reserved → Bool
is_used node port [] = false
is_used node port ((conn, (reserved_port, reserved_node)) ∷ reserved) =
    if string_eq.beq node reserved_node && reserved_port == port
    then true
    else is_used node port reserved

unfoldable pub first_free : String → List ℕ → Reserved → Option ℕ
unfolding is_used
first_free node [] reserved = none
first_free node (port ∷ ports) reserved =
    if is_used node port reserved then first_free node ports reserved else some port

-- `gen_port`
unfoldable pub gen_port : String → String → Reserved → Result (ℕ × Reserved)
unfolding first_free
gen_port conn node reserved = elim (Dict.get conn reserved) [
  | some (port, reserved_node) ↦ ok (port, reserved)
  | none ↦ elim (first_free node port_pool reserved) [
    | none ↦ raised
    | some port ↦ ok (port, Dict.put conn (port, node) reserved)
  ]
]
