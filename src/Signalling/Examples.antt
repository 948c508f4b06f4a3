-- ===== src/Signalling/Examples.antt =====
-- Two peers that meet, one of which reconnects.
use p2pt_server.Prelude.{◌+◌, ◌≡◌, ◌≢◌, String, true, List, [], ◌∷◌, refl, arith, eq_iff}
use p2pt_server.Clock.{zero_time}
use p2pt_server.GoMap.{get}
use p2pt_server.Signalling.{
  PeerMessage, SignalingServer, new_signaling_server, send, open_connection, close_connection,
  on_message, is_relayed, Event, opened, closed, run,
}
use p2pt_server.Signalling.Delivery.{AllSpare, Spares, delivered}
use p2pt_server.Signalling.Silence.{Fresh, Others, closed_is_silent}

abbrev offer : PeerMessage
offer = record { type = "OFFER"; src = "mallory"; dst = "ana"; payload = "{}"; msg = "" }

-- "ana" was connected as 1 before, and that connection ends late.
abbrev before : SignalingServer
before = record {
  clients = ("ana", record { id = "ana"; token = "t"; conn = 1 }) ∷ [];
  recent_tokens = [];
}

abbrev events : List Event
events = closed "ana" "t" 1 ∷ opened "bob" "u" 3 (zero_time + 5) true ∷ []

bob_is_not_ana : ◌≢◌ {A = String} "bob" "ana"
bob_is_not_ana = ground (arith, eq_iff "bob" "ana")

ana_given : ◌≢◌ {A = String} "ana" ""
ana_given = ground (arith, eq_iff "ana" "")

token_given : ◌≢◌ {A = String} "t" ""
token_given = ground (arith, eq_iff "t" "")

delivered_example :
    on_message "bob" 3 offer (run events (open_connection "ana" "t" 2 zero_time true before).0)
    ≡ send 2 (record offer { src = "bob" }) ∷ []
unfolding AllSpare Spares is_relayed
delivered_example =
    delivered "ana" "t" "bob" 2 3 zero_time events offer before (omega arith, (bob_is_not_ana, tt))
      refl refl ana_given

nobody-Fresh : Fresh 2 new_signaling_server
unfolding Fresh get new_signaling_server
nobody-Fresh k c h = absurd (cc h)

closed_is_silent_example : Fresh 2 (
    run events
      (close_connection "ana" "t" 2
        (run events (open_connection "ana" "t" 2 zero_time true new_signaling_server).0)).0)
unfolding Others
closed_is_silent_example =
    closed_is_silent "ana" "t" 2 zero_time true events events new_signaling_server nobody-Fresh
      (omega arith, tt) (omega arith, tt)
