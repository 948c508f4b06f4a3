-- ===== src/Upnp.antt =====
-- upnp.go: the router in front of the host, whether the provider shares its address among customers
-- (CGNAT), and the ports that the router is asked to open.
--
-- A client of the package goupnp is what it answers: the external address, or `none` for an error, and
-- whether it takes the mapping of a port with a protocol. Ports are not negative. The texts of the
-- messages are left out, and the time of the report.
pub mod Cgnat
mod Examples
use Prim.Native.String.{◌++◌ as ◌+++◌}
use p2pt_server.Prelude.{
  ℕ, ◌/◌, ◌%◌, ◌^◌, String, Bool, true, false, ◌&&◌, ◌||◌, not, Option, none, some, List, [], ◌∷◌,
  ◌++◌, ◌==◌, eqb, ltb, is_empty, if◌then◌else◌,
}
use p2pt_server.GoText.{decimal, trim_space}
use p2pt_server.Net.Ip.{Ip, v4, v6, parse_ip, is_loopback, is_private, is_link_local_unicast}

pub record Client : Type 0 where
  pub external_ip : Option String
  pub takes : ℕ → String → Bool

pub data Message : Type 0 where
  not_scanned : Message
  no_router : Message
  behind_cgnat : String → String → Message
  opened : List String → String → Message
  nothing_mapped : Message

pub record UpnpReport : Type 0 where
  pub is_active : Bool
  pub router_name : String
  pub router_external_ip : String
  pub public_internet_ip : String
  pub local_ip : String
  pub has_cgnat : Bool
  pub mapped_ports : List String
  pub message : Message

pub record UpnpManager : Type 0 where
  pub last_report : UpnpReport
  pub turn_port : ℕ
  pub http_port : ℕ
  pub local_ip : String
  pub public_ip : String

unfoldable pub blank_report : UpnpReport
blank_report = record {
  is_active = false;
  router_name = "";
  router_external_ip = "";
  public_internet_ip = "";
  local_ip = "";
  has_cgnat = false;
  mapped_ports = [];
  message = not_scanned;
}

unfoldable pub new_upnp_manager : ℕ → ℕ → String → String → UpnpManager
unfolding blank_report
new_upnp_manager turn_port http_port local_ip public_ip = record {
  last_report = blank_report;
  turn_port = turn_port;
  http_port = http_port;
  local_ip = local_ip;
  public_ip = public_ip;
}

-- 100.64.0.0/10
unfoldable pub is_shared : Ip → Bool
is_shared (v4 a b c d) = eqb a 100 && eqb (b / 64) 1
is_shared (v6 l) = false

unfoldable pub is_private_or_cgnat_ip : Option Ip → Bool
unfolding is_shared
is_private_or_cgnat_ip none = false
is_private_or_cgnat_ip (some ip) =
    if is_private ip || is_loopback ip || is_link_local_unicast ip then true else is_shared ip

unfoldable pub is_private_or_cgnat : String → Bool
unfolding is_private_or_cgnat_ip
is_private_or_cgnat ip = is_private_or_cgnat_ip (parse_ip (trim_space ip))

unfoldable pub usable : Option String → Option String
usable none = none
usable (some ip) = if ip == "" || ip == "0.0.0.0" then none else some ip

or_else : Option String → Option String → Option String
or_else (some ip) o = some ip
or_else none o = o

-- The first address that a client gives.
unfoldable pub first_external : List Client → Option String
unfolding usable or_else
first_external [] = none
first_external (c ∷ cs) = or_else (usable c.external_ip) (first_external cs)

abbrev after_ip : List Client → Option String → String × String
after_ip ppp_clients (some ip) = (ip, "WANIPConnection1 IGD")
after_ip ppp_clients none = elim (first_external ppp_clients) [
  | none ↦ ("", "")
  | some ip ↦ (ip, "WANPPPConnection1 IGD")
]

-- The router's address and its name: clients of the one kind are asked before those of the other.
unfoldable pub router : List Client → List Client → String × String
router ip_clients ppp_clients = after_ip ppp_clients (first_external ip_clients)

unfoldable pub cgnat : String → String → Bool
cgnat router_ip public_ip =
    if router_ip == ""
    then false
    else if is_private_or_cgnat router_ip
    then true
    else not (public_ip == "") && not (public_ip == router_ip)

-- Whether some client takes the mapping; those behind it are not asked.
unfoldable pub any_takes : ℕ → String → List Client → Bool
any_takes port protocol [] = false
any_takes port protocol (c ∷ cs) = c.takes port protocol || any_takes port protocol cs

-- mapPort, with a port of sixteen bits
unfoldable pub map_port : List Client → List Client → ℕ → String → Bool
map_port ip_clients ppp_clients port protocol =
    any_takes (port % 2 ^ 16) protocol ip_clients || any_takes (port % 2 ^ 16) protocol ppp_clients

unfoldable pub mapped : List Client → List Client → ℕ → String → String → List String
mapped ip_clients ppp_clients port protocol label =
    if ltb 0 port && map_port ip_clients ppp_clients port protocol
    then (decimal 20 port +++ label) ∷ []
    else []

unfoldable pub message_of : Bool → String → String → List String → Message
message_of shared name ip ports =
    if shared
    then behind_cgnat name ip
    else if is_empty ports
    then nothing_mapped
    else opened ports ip

unfoldable pub report_of : List Client → List Client → UpnpManager → UpnpReport
report_of ip_clients ppp_clients m =
    let (ip, name) = router ip_clients ppp_clients in
    let ports =
      mapped ip_clients ppp_clients m.turn_port "UDP" "/UDP (TURN)"
      ++ mapped ip_clients ppp_clients m.http_port "TCP" "/TCP (Signaling)" in
    if is_empty ip_clients && is_empty ppp_clients
    then record blank_report {
      local_ip = m.local_ip;
      public_internet_ip = m.public_ip;
      message = no_router;
    }
    else record {
      is_active = true;
      router_name = name;
      router_external_ip = ip;
      public_internet_ip = m.public_ip;
      local_ip = m.local_ip;
      has_cgnat = cgnat ip m.public_ip;
      mapped_ports = ports;
      message = message_of (cgnat ip m.public_ip) name ip ports;
    }

unfoldable pub discover_and_map : List Client → List Client → UpnpManager → UpnpManager × UpnpReport
discover_and_map ip_clients ppp_clients m =
    let report = report_of ip_clients ppp_clients m in (record m { last_report = report }, report)

unfoldable pub get_report : UpnpManager → UpnpReport
get_report m = m.last_report
