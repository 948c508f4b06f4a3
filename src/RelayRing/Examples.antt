-- ===== src/RelayRing/Examples.antt =====
-- A port with two allocations, a ring of three ports, and the theorems at these.
use p2pt_server.Prelude.{
  ◌+◌, ◌-◌, ◌%◌, String, true, false, none, some, List, [], ◌∷◌, ◌≡◌, ◌≢◌, refl, arith, eq_iff, ltb,
  length, is_some, if◌then◌else◌,
}
use p2pt_server.GoMap.{get, put, keep}
use p2pt_server.GoText.{has_char}
use p2pt_server.Net.{extract_ip}
use p2pt_server.RelayRing.{
  InboundPacket, RingPortNode, new_node, attach, update, add_route, remove_first, drop_virtual,
  Event, allocated, wrote, permitted, received, read, ended,
}
use p2pt_server.RelayRing.Wiring.{IsWired, new_node-IsWired, attach-IsWired}
use p2pt_server.RelayRing.Closing.{move_all-new_port}
use p2pt_server.RelayRing.Threads.{
  new_port, Move, attaches, routes, queues, flags, unregisters, queue, flag, move, move_all,
  IsTraced,
}
use p2pt_server.RelayRing.Generator.{
  RingRelayAddressGenerator, new_generator, ring_loop, allocate_packet_conn, close_generator,
}
use p2pt_server.RelayRing.Rounds.{count_up, port_loop}
use p2pt_server.RelayRing.Turns.{port_of, allocate_all, allocate_goes_round}
use p2pt_server.RelayRing.Shutdown.{all_idle, AllWired, close_generator-idle}
use p2pt_server.RelayRing.Race.{Shared, Receiver, Closer, Writer}

-- The port 7000 with the allocations 0 and 1.
abbrev shared_port : RingPortNode
shared_port = attach (attach (new_node 7000))

shared_port-IsWired : IsWired shared_port
shared_port-IsWired = attach-IsWired _ (attach-IsWired _ (new_node-IsWired 7000))

abbrev packet : InboundPacket
packet = record { payload = 1 ∷ 2 ∷ []; addr = "9.9.9.9:5000" }

abbrev events : List Event
events =
    wrote 0 "9.9.9.9:5000" 10
    ∷ received packet
    ∷ read 0
    ∷ ended 0
    ∷ ended 0
    ∷ received packet
    ∷ permitted "8.8.8.8"
    ∷ []

-- A write of the connection 0 comes to its route after the connection is flagged and unregistered.
abbrev moves : List Move
moves =
    attaches
    ∷ attaches
    ∷ routes 1 "10.0.0.9:5000"
    ∷ flags 0
    ∷ unregisters 0
    ∷ routes 0 "10.0.0.7:5000"
    ∷ queues (record { payload = 1 ∷ []; addr = "10.0.0.9:5000" }) 1
    ∷ []

stale_target :
    let p = move_all moves (new_port 7000) in
    (get "10.0.0.7:5000" p.node.routes ≡ some 0)
    × (p.node.active_conns ≡ 1 ∷ [])
    × (p.late ≡ 0 ∷ [])
unfolding move_all move new_port new_node attach update add_route flag drop_virtual remove_first get
    put keep extract_ip has_char queue
stale_target = (refl, refl, refl)

move_all-new_port_example : IsTraced (move_all moves (new_port 7000))
move_all-new_port_example = move_all-new_port moves 7000

abbrev others : List Event
others = allocated ∷ wrote 1 "9.9.9.9:6000" 10 ∷ received packet ∷ ended 1 ∷ []

address_given : ◌≢◌ {A = String} "9.9.9.9:5000" ""
address_given = ground (arith, eq_iff "9.9.9.9:5000" "")

other_port : ◌≢◌ {A = String} "9.9.9.9:6000" "9.9.9.9:5000"
other_port = ground (arith, eq_iff "9.9.9.9:6000" "9.9.9.9:5000")

host_alone : extract_ip "9.9.9.9:6000" ≢ "9.9.9.9:5000"
unfolding extract_ip has_char
host_alone = ground (arith, eq_iff "9.9.9.9" "9.9.9.9:5000")

port_loop_example :
    ring_loop 9 7000 7002
    ≡ (if ltb 7002 65535 then some (count_up (7002 - 7000 + 1) 7000) else none)
port_loop_example = port_loop 7000 7002 9 (omega arith) (omega arith) (omega arith)

-- The fifth of the calls, two of which the system refused, is about the second port of three.
allocate_goes_round_example :
    port_of
      (allocate_packet_conn (7000 ∷ 7001 ∷ 7002 ∷ []) "udp" true (
        allocate_all
          (7000 ∷ 7001 ∷ 7002 ∷ [])
          (true ∷ false ∷ false ∷ true ∷ [])
          (new_generator true 7000 7002))).1
    ≡ some (7000 + length (true ∷ false ∷ false ∷ true ∷ []) % (7002 - 7000 + 1))
unfolding ring_loop
allocate_goes_round_example =
    allocate_goes_round 7000 7002 9 (7000 ∷ 7001 ∷ 7002 ∷ []) (true ∷ false ∷ false ∷ true ∷ [])
      true true (omega arith) (omega arith) (omega arith) refl

abbrev generator : RingRelayAddressGenerator
generator = record (new_generator true 7000 7001) { ring = new_node 7001 ∷ shared_port ∷ [] }

close_generator-idle_example : is_some (close_generator generator) ≡ all_idle generator.ring
unfolding AllWired
close_generator-idle_example =
    close_generator-idle generator (new_node-IsWired 7001, (shared_port-IsWired, tt))

never_returns : all_idle generator.ring ≡ false
unfolding all_idle attach new_node
never_returns = refl

abbrev meeting : Shared
meeting = record {
  receiver = Receiver.waiting;
  closer = Closer.unclosed;
  writer = Writer.writing;
  flag = false;
  routed = true;
  channel_closed = false;
  queued = 0;
  panicked = false;
}

-- A packet is found for a connection that is closed, and refused.
abbrev refused : Shared
refused = record meeting { flag = true }
