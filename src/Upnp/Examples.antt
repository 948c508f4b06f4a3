-- ===== src/Upnp/Examples.antt =====
-- A router behind another one.
use p2pt_server.Prelude.{false, ◌&&◌, ◌||◌, not, some, [], ◌∷◌, ◌≡◌, ◌==◌, refl, arith, eqb}
use p2pt_server.GoText.{decimal, digit}
use p2pt_server.Net.Dotted.{dotted_text}
use p2pt_server.Upnp.{
  Client, UpnpManager, new_upnp_manager, usable, first_external, router, any_takes, map_port,
  mapped, report_of, discover_and_map,
}
use p2pt_server.Upnp.Cgnat.{is_inside, discover_and_map-is_inside}

abbrev silent : Client
silent = record { external_ip = some "0.0.0.0"; takes = λ port protocol. false }

abbrev shared : Client
shared = record { external_ip = some "100.64.0.9"; takes = λ port protocol. eqb port 3478 }

abbrev manager : UpnpManager
manager = new_upnp_manager 3478 80 "192.168.1.5" "8.8.8.8"

router_of : (router (silent ∷ []) (shared ∷ [])).0 ≡ dotted_text 100 64 0 9
unfolding router first_external usable dotted_text decimal digit
router_of = refl

ports : (report_of (silent ∷ []) (shared ∷ []) manager).mapped_ports ≡ "3478/UDP (TURN)" ∷ []
unfolding report_of mapped map_port any_takes decimal digit new_upnp_manager
ports = refl

discover_and_map-is_inside_example :
    (discover_and_map (silent ∷ []) (shared ∷ []) manager).1.has_cgnat ≡ (
      is_inside 100 64
      || (not (manager.public_ip == "") && not (manager.public_ip == dotted_text 100 64 0 9)))
discover_and_map-is_inside_example =
    discover_and_map-is_inside (silent ∷ []) (shared ∷ []) manager 100 64 0 9 (omega arith)
      (omega arith) (omega arith) (omega arith) router_of
