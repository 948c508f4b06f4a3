-- ===== src/TurnMonitor/Meter.antt =====
-- turn_meter.go: the sockets that tell the monitor what passes through them.
--
-- `range` is the order in which the runtime walks the sessions. The socket itself is not modelled: a
-- read and a write come with the address and the number of bytes that they gave.
use p2pt_server.Prelude.{
  ℕ, String, Bool, true, Option, none, some, List, [], ◌∷◌, get_or, if◌then◌else◌,
}
use p2pt_server.Clock.{Time}
use p2pt_server.GoMap.{GoMap}
use p2pt_server.TurnMonitor.{TurnMonitor, TurnSession}
use p2pt_server.TurnMonitor.Charging.{record_relay_traffic, record_raw_traffic}

pub record MeteredPacketConn : Type 0 where
  pub has_monitor : Bool
  pub is_relay : Bool
  pub relay_addr : String

-- `local` is the address of the socket, if it has one.
unfoldable pub new_metered_packet_conn : Option String → Bool → Bool → MeteredPacketConn
new_metered_packet_conn local has_monitor is_relay = record {
  has_monitor = has_monitor;
  is_relay = is_relay;
  relay_addr = get_or "" local;
}

pub record Transfer : Type 0 where
  -- whether the packet is read, or written
  pub incoming : Bool
  pub addr : Option String
  pub n : ℕ
  pub at_time : Time

module _ (range : GoMap TurnSession → GoMap TurnSession) where
  -- What `ReadFrom` does when the socket has read `n` bytes.
  unfoldable pub read_from :
      MeteredPacketConn → Option String → ℕ → Time → TurnMonitor → TurnMonitor
  read_from m addr n now tm =
      if m.has_monitor
      then (if m.is_relay
          then record_relay_traffic range m.relay_addr addr n now tm
          else record_raw_traffic range addr n now tm)
      else tm

  unfoldable pub write_to : MeteredPacketConn → Option String → ℕ → Time → TurnMonitor → TurnMonitor
  write_to m addr n now tm =
      if m.has_monitor
      then (if m.is_relay
          then record_relay_traffic range m.relay_addr addr n now tm
          else record_raw_traffic range addr n now tm)
      else tm

  unfoldable pub transfer : MeteredPacketConn → Transfer → TurnMonitor → TurnMonitor
  transfer m t tm =
      if t.incoming then read_from m t.addr t.n t.at_time tm else write_to m t.addr t.n t.at_time tm

  unfoldable pub transfer_all : MeteredPacketConn → List Transfer → TurnMonitor → TurnMonitor
  transfer_all m [] tm = tm
  transfer_all m (t ∷ ts) tm = transfer_all m ts (transfer m t tm)

-- The relay's generator, wrapped; `generate` is what the one inside answers, an address and a socket
-- with its own address, or an error.
unfoldable pub allocate_packet_conn :
    Bool → Option (String × Option String) → Option (String × MeteredPacketConn)
unfolding new_metered_packet_conn
allocate_packet_conn has_monitor none = none
allocate_packet_conn has_monitor (some (addr, local)) =
    some (addr, new_metered_packet_conn local has_monitor true)
