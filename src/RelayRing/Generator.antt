-- ===== src/RelayRing/Generator.antt =====
-- ring_relay.go: `RingRelayAddressGenerator`, the ring of ports that allocations go round.
--
-- A node is bound when the first allocation comes to it; whether the system lets it is an argument,
-- which is `true` where `net.ListenPacket` succeeds. The methods run under the generator's mutex, which
-- no method asks for twice; nobody holds a node's mutex when they begin.
use p2pt_server.Prelude.{
  ℕ, zero, suc, ◌+◌, ◌%◌, ◌^◌, String, Bool, true, false, ◌&&◌, ◌||◌, not, Option, none, some, List,
  [], ◌∷◌, ◌==◌, eqb, ltb, leb, length, is_empty, if◌then◌else◌,
}
use p2pt_server.RelayRing.{RingPortNode, new_node, attach, permit, and_then, close_virtual}

pub record RingRelayAddressGenerator : Type 0 where
  pub has_relay_ip : Bool
  pub min_port : ℕ
  pub max_port : ℕ
  pub ring : List RingPortNode
  pub current_index : ℕ

unfoldable pub new_generator : Bool → ℕ → ℕ → RingRelayAddressGenerator
new_generator has_relay_ip min_port max_port = record {
  has_relay_ip = has_relay_ip;
  min_port = if ltb max_port min_port then max_port else min_port;
  max_port = if ltb max_port min_port then min_port else max_port;
  ring = [];
  current_index = 0;
}

unfoldable pub validate : RingRelayAddressGenerator → Bool
validate r = r.has_relay_ip && not (eqb r.min_port 0 || eqb r.max_port 0)

-- for port := r.minPort; port <= r.maxPort; port++, with a port of sixteen bits. `none` means that the
-- fuel ran out.
unfoldable pub ring_loop : ℕ → ℕ → ℕ → Option (List ℕ)
ring_loop zero port max_port = none
ring_loop (suc fuel) port max_port = elim (leb port max_port) [
  | false ↦ some []
  | true ↦ elim (ring_loop fuel ((port + 1) % 2 ^ 16) max_port) [
    | none ↦ none
    | some ports ↦ some (port ∷ ports)
  ]
]

unfoldable pub new_nodes : List ℕ → List RingPortNode
new_nodes [] = []
new_nodes (p ∷ ports) = new_node p ∷ new_nodes ports

unfoldable pub get_node? : ℕ → List RingPortNode → Option RingPortNode
get_node? i [] = none
get_node? zero (n ∷ l) = some n
get_node? (suc i) (n ∷ l) = get_node? i l

unfoldable pub set_node : ℕ → RingPortNode → List RingPortNode → List RingPortNode
set_node i n [] = []
set_node zero n (m ∷ l) = n ∷ l
set_node (suc i) n (m ∷ l) = m ∷ set_node i n l

pub data Allocated : Type 0 where
  unsupported : Allocated
  no_ports : Allocated
  bind_failed : ℕ → Allocated
  -- the port of the relay address, and the number of the virtual connection at its node
  allocated : ℕ → ℕ → Allocated
  -- an index outside the ring
  panics : Allocated

-- The node whose turn it is, bound if it is not, with a new virtual connection.
unfoldable pub use_node :
    Bool → RingRelayAddressGenerator → Option RingPortNode → RingRelayAddressGenerator × Allocated
use_node binds r none = (r, panics)
use_node binds r (some node) =
    let r' = record r { current_index = (r.current_index + 1) % length r.ring } in
    if not node.bound && not binds then (r', bind_failed node.port) else (
      record r' { ring = set_node r.current_index (attach (record node { bound = true })) r.ring },
      allocated node.port node.made,
    )

unfoldable pub is_udp : String → Bool
is_udp network = network == "udp" || network == "udp4" || network == "udp6"

-- The ring as the first call makes it; `ports` is what the loop over the ports comes to.
unfoldable pub initialised : List ℕ → RingRelayAddressGenerator → RingRelayAddressGenerator
initialised ports r = if is_empty r.ring then record r { ring = new_nodes ports } else r

unfoldable pub allocate_packet_conn :
    List ℕ → String → Bool → RingRelayAddressGenerator → RingRelayAddressGenerator × Allocated
allocate_packet_conn ports network binds r =
    let r' = initialised ports r in
    if not (is_udp network)
    then (r, unsupported)
    else if is_empty r'.ring
    then (r', no_ports)
    else use_node binds r' (get_node? r'.current_index r'.ring)

-- RegisterPermission: at the first node that is bound and has the port of the relay address. All
-- nodes have the same relay IP, which the address that is given has too.
unfoldable pub permit_at : ℕ → String → List RingPortNode → List RingPortNode
permit_at port peer_ip [] = []
permit_at port peer_ip (n ∷ l) =
    let rest = permit_at port peer_ip l in
    if n.bound && eqb n.port port then permit peer_ip n ∷ l else n ∷ rest

unfoldable pub register_permission :
    Option ℕ → String → RingRelayAddressGenerator → RingRelayAddressGenerator
register_permission none peer_ip r = r
register_permission (some port) peer_ip r =
    if peer_ip == "" then r else record r { ring = permit_at port peer_ip r.ring }

-- for _, v := range node.activeConns { v.Close() }
unfoldable pub close_all : List ℕ → RingPortNode → Option RingPortNode
close_all [] n = some n
close_all (v ∷ l) n = and_then (close_all l) (close_virtual v n)

-- The body of the loop of `Close`: the mutex is held over it.
unfoldable pub close_node : RingPortNode → Option RingPortNode
close_node n =
    if n.locked
    then none
    else and_then (λ n'. some (record n' { locked = false }))
        (close_all n.active_conns (record n { locked = true; closed = true }))

abbrev pub with_node : RingPortNode → Option (List RingPortNode) → Option (List RingPortNode)
with_node n none = none
with_node n (some l) = some (n ∷ l)

unfoldable pub close_nodes : List RingPortNode → Option (List RingPortNode)
close_nodes [] = some []
close_nodes (n ∷ l) = elim (close_node n) [ none ↦ none | some n' ↦ with_node n' (close_nodes l) ]

-- Close; `none` if it never returns
unfoldable pub close_generator : RingRelayAddressGenerator → Option RingRelayAddressGenerator
close_generator r = elim (close_nodes r.ring) [
  | none ↦ none
  | some l ↦ some (record r { ring = l })
]
