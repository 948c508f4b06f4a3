-- ===== src/RelayRing/Threads.antt =====
-- ring_relay.go: what the threads of one port do to it, each access to what they share at a time.
-- A `WriteTo` that has passed its test of the flag comes to its route later, a packet that has found
-- its connection is queued later, and `Close` sets the flag first and unregisters the connection
-- later: anything may come in between, also a write or a packet for a connection that is closed by
-- then. A send on a channel that is closed by then ends the program; here it goes on.
use p2pt_server.GoMap.{get, IsUnique}
use p2pt_server.Prelude.{
  ℕ, ◌≤◌, String, true, false, ◌||◌, not, some, List, [], ◌∷◌, ◌++◌, ◌==◌, ◌≡◌, ltb, length,
  if◌then◌else◌,
}
use p2pt_server.RelayRing.{
  InboundPacket, RingPortNode, capacity, new_node, update, add_route, remove_first, drop_virtual,
  attach, read_from, permit,
}
use p2pt_server.RelayRing.Conns.{has_conn, IsDistinct}

-- `closing` are the connections whose flag is set, and which are not unregistered yet; `late` those
-- for which a route was noted after their flag was set.
pub record Port : Type 0 where
  pub node : RingPortNode
  pub closing : List ℕ
  pub late : List ℕ

unfoldable pub new_port : ℕ → Port
unfolding new_node
new_port port = record { node = new_node port; closing = []; late = [] }

pub data Move : Type 0 where
  attaches : Move
  routes : ℕ → String → Move
  permits : String → Move
  queues : InboundPacket → ℕ → Move
  reads : ℕ → Move
  flags : ℕ → Move
  unregisters : ℕ → Move

-- The send of `deliver`, or its default.
unfoldable pub queue : InboundPacket → ℕ → RingPortNode → RingPortNode
queue pkt v n =
    let x = n.virtuals v in
    if ltb (length x.inbound) capacity
    then record n {
      virtuals = update v (record x { inbound = x.inbound ++ (pkt ∷ []) }) n.virtuals;
    }
    else n

-- `v.closed.Store(true)`
unfoldable pub flag : ℕ → RingPortNode → RingPortNode
flag v n = record n { virtuals = update v (record (n.virtuals v) { closed = true }) n.virtuals }

unfoldable pub move : Move → Port → Port
unfolding queue flag attach add_route permit read_from drop_virtual
move attaches p = record p { node = attach p.node }
move (routes v addr) p = if addr == "" then p else record p {
  node = add_route addr v p.node;
  late = if (p.node.virtuals v).closed then v ∷ p.late else p.late;
}
move (permits ip) p = if ip == "" then p else record p { node = permit ip p.node }
move (queues pkt v) p = record p { node = queue pkt v p.node }
move (reads v) p = record p { node = (read_from v p.node).0 }
move (flags v) p =
    if (p.node.virtuals v).closed
    then p
    else record p { node = flag v p.node; closing = v ∷ p.closing }
move (unregisters v) p =
    if has_conn v p.closing
    then record p { node = drop_virtual v p.node; closing = remove_first v p.closing }
    else p

unfoldable pub move_all : List Move → Port → Port
unfolding move
move_all [] p = p
move_all (e ∷ es) p = move_all es (move e p)

-- The active connections are those that are open or being closed, each once; a route leads to one of
-- these, or to one that is noted as late; and no buffer is over its capacity.
pub record IsTraced (p : Port) : Type 0 where
  pub unique : IsUnique p.node.routes
  pub listed :
      (v : ℕ)
      → has_conn v p.node.active_conns ≡ (not (p.node.virtuals v).closed || has_conn v p.closing)
  pub routed :
      (k : String) (v : ℕ)
      → get k p.node.routes ≡ some v
      → (has_conn v p.node.active_conns || has_conn v p.late) ≡ true
  pub fresh : (v : ℕ) → p.node.made ≤ v → (p.node.virtuals v).closed ≡ true
  pub shut : (v : ℕ) → has_conn v p.closing ≡ true → (p.node.virtuals v).closed ≡ true
  pub given : (v : ℕ) → p.node.made ≤ v → has_conn v p.closing ≡ false
  pub distinct : IsDistinct p.node.active_conns
  pub once : IsDistinct p.closing
  pub buffered : (v : ℕ) → length (p.node.virtuals v).inbound ≤ capacity
