-- ===== src/RelayRing.antt =====
-- ring_relay.go: one UDP port of the relay, which the allocations of the TURN server share.
--
-- A `*VirtualPacketConn` is the number under which its node made it, and `virtuals` holds what the
-- pointer leads to. `locked` is the node's mutex: who asks for it while it is held waits, and in a
-- method that holds it itself waits for ever, which is `none`. Here a method is one step, between
-- two of which nobody holds the mutex; Threads and Race take `WriteTo`, `deliver` and `Close` apart. A
-- read lock waits for the same. The sockets, and what the monitor makes of the traffic, are left to
-- the environment: a write is given the number of bytes that the socket took, and the bytes to charge
-- are a result.
pub mod Conns
pub mod Wiring
pub mod Threads
pub mod Traced
pub mod Closing
pub mod Progress
pub mod Generator
pub mod Rounds
pub mod Turns
pub mod Shutdown
pub mod Race
pub mod Replies
mod Examples
use p2pt_server.Prelude.{
  ℕ, suc, ◌+◌, String, Bool, true, false, ◌&&◌, ◌||◌, not, Option, none, some, List, [], ◌∷◌, ◌++◌,
  ◌==◌, eqb, ltb, length, if◌then◌else◌,
}
use p2pt_server.GoMap.{GoMap, get, put, keep}
use p2pt_server.Net.{extract_ip}

pub record InboundPacket : Type 0 where
  pub payload : List ℕ
  pub addr : String

pub record VirtualPacketConn : Type 0 where
  pub inbound : List InboundPacket
  pub closed : Bool

pub record RingPortNode : Type 0 where
  pub port : ℕ
  pub bound : Bool
  pub locked : Bool
  pub routes : GoMap ℕ
  pub active_conns : List ℕ
  pub closed : Bool
  pub virtuals : ℕ → VirtualPacketConn
  -- the number of virtual connections made so far
  pub made : ℕ

-- The buffer of the channel `inbound`.
abbrev pub capacity : ℕ
capacity = 256

abbrev pub new_virtual : VirtualPacketConn
new_virtual = record { inbound = []; closed = false }

-- No call has a number that was never given; it would find a closed connection.
abbrev pub no_virtual : VirtualPacketConn
no_virtual = record { inbound = []; closed = true }

pub new_node : ℕ → RingPortNode
new_node port = record {
  port = port;
  bound = false;
  locked = false;
  routes = [];
  active_conns = [];
  closed = false;
  virtuals = λ v. no_virtual;
  made = 0;
}

-- What stands at `v`, changed.
unfoldable pub update : ℕ → VirtualPacketConn → (ℕ → VirtualPacketConn) → ℕ → VirtualPacketConn
update v x f w = if eqb v w then x else f w

-- n.mu.Lock(); defer n.mu.Unlock()
unfoldable pub guarded : (RingPortNode → RingPortNode) → RingPortNode → Option RingPortNode
guarded f n = if n.locked then none else some (f n)

unfoldable pub last : List ℕ → Option ℕ
last [] = none
last (v ∷ []) = some v
last (v ∷ w ∷ l) = last (w ∷ l)

-- The third and fourth rule: the only active connection, or the latest.
unfoldable pub latest : RingPortNode → Option ℕ
latest n = last n.active_conns

otherwise : Option ℕ → Option ℕ → Option ℕ
otherwise (some v) o = some v
otherwise none o = o

unfoldable pub find_target : String → RingPortNode → Option ℕ
unfolding otherwise
find_target remote n =
    otherwise (get remote n.routes) (otherwise (get (extract_ip remote) n.routes) (latest n))

-- The routes of `registerRoute`.
unfoldable pub add_route : String → ℕ → RingPortNode → RingPortNode
add_route remote v n =
    let routes = put remote v n.routes in
    let ip = extract_ip remote in record n { routes = if ip == "" then routes else put ip v routes }

unfoldable pub register_route : String → ℕ → RingPortNode → Option RingPortNode
register_route remote v n = if remote == "" then some n else guarded (add_route remote v) n

-- The loop that stops at the first match.
unfoldable pub remove_first : ℕ → List ℕ → List ℕ
remove_first v [] = []
remove_first v (w ∷ l) = let rest = remove_first v l in if eqb w v then l else w ∷ rest

unfoldable pub drop_virtual : ℕ → RingPortNode → RingPortNode
drop_virtual v n = record n {
  routes = keep (λ k target. not (eqb target v)) n.routes;
  active_conns = remove_first v n.active_conns;
}

unfoldable pub unregister_virtual : ℕ → RingPortNode → Option RingPortNode
unregister_virtual v n = guarded (drop_virtual v) n

-- The end of `AllocatePacketConn`: a new virtual connection, the latest of the node.
unfoldable pub attach : RingPortNode → RingPortNode
attach n = record n {
  active_conns = n.active_conns ++ (n.made ∷ []);
  virtuals = update n.made new_virtual n.virtuals;
  made = suc n.made;
}

-- What a write gives back: the connection is closed, or the bytes that were written, which are charged
-- to the relay address and the remote one if there are any.
pub data Written : Type 0 where
  err_closed : Written
  written : ℕ → Written

with_bytes : ℕ → Option RingPortNode → Option (RingPortNode × Written)
with_bytes taken none = none
with_bytes taken (some n) = some (n, written taken)

-- `taken` is the number of bytes that the socket took.
unfoldable pub write_to : ℕ → String → ℕ → RingPortNode → Option (RingPortNode × Written)
unfolding with_bytes
write_to v addr taken n =
    if (n.virtuals v).closed
    then some (n, err_closed)
    else with_bytes taken (register_route addr v n)

-- `closeOnce.Do`: the second call does nothing.
unfoldable pub close_virtual : ℕ → RingPortNode → Option RingPortNode
close_virtual v n =
    if (n.virtuals v).closed
    then some n
    else unregister_virtual v
        (record n { virtuals = update v (record (n.virtuals v) { closed = true }) n.virtuals })

-- Whether the packet is queued, and so charged, or dropped.
unfoldable pub deliver : InboundPacket → ℕ → RingPortNode → RingPortNode × Bool
deliver pkt v n =
    let x = n.virtuals v in
    if not x.closed && ltb (length x.inbound) capacity
    then (
      record n { virtuals = update v (record x { inbound = x.inbound ++ (pkt ∷ []) }) n.virtuals },
      true,
    )
    else (n, false)

-- One round of `start` that reads a packet.
unfoldable pub receive : InboundPacket → RingPortNode → RingPortNode × Bool
receive pkt n = elim (find_target pkt.addr n) [ none ↦ (n, false) | some v ↦ deliver pkt v n ]

-- What `ReadFrom` takes from the channel; nothing is there to read in an empty one, whose reader
-- waits, or is told that the connection is closed.
unfoldable pub read_from : ℕ → RingPortNode → RingPortNode × Option InboundPacket
read_from v n = elim (n.virtuals v).inbound [
  | [] ↦ (n, none)
  | pkt ∷ rest ↦ (
    record n { virtuals = update v (record (n.virtuals v) { inbound = rest }) n.virtuals },
    some pkt,
  )
]

-- `RegisterPermission` at the node of the relay address.
unfoldable pub permit : String → RingPortNode → RingPortNode
permit peer_ip n = elim (latest n) [
  | none ↦ n
  | some v ↦ record n { routes = put peer_ip v n.routes }
]

-- What happens at a node.
pub data Event : Type 0 where
  allocated : Event
  wrote : ℕ → String → ℕ → Event
  permitted : String → Event
  received : InboundPacket → Event
  read : ℕ → Event
  ended : ℕ → Event

node_of : Option (RingPortNode × Written) → Option RingPortNode
node_of none = none
node_of (some (n, w)) = some n

unfoldable pub step : Event → RingPortNode → Option RingPortNode
unfolding node_of
step allocated n = guarded attach n
step (wrote v addr taken) n = node_of (write_to v addr taken n)
step (permitted ip) n = if ip == "" then some n else guarded (permit ip) n
step (received pkt) n = if n.locked then none else some (receive pkt n).0
step (read v) n = some (read_from v n).0
step (ended v) n = close_virtual v n

unfoldable pub and_then :
    (RingPortNode → Option RingPortNode) → Option RingPortNode → Option RingPortNode
and_then f none = none
and_then f (some n) = f n

unfoldable pub run : List Event → RingPortNode → Option RingPortNode
run [] n = some n
run (e ∷ es) n = and_then (run es) (step e n)
