-- ===== src/TurnMonitor/Examples.antt =====
-- A monitor with two sessions, and the theorems at these inputs.
use p2pt_server.Prelude.{
  ℕ, ◌+◌, ◌*◌, String, true, false, ◌&&◌, none, some, List, [], ◌∷◌, ◌≡◌, refl, arith, ltb, leb,
  eq_iff, length,
}
use p2pt_server.Clock.{Time, minute, zero_time, second, unix_epoch}
use p2pt_server.GoText.{format_int, decimal}
use p2pt_server.GoText.Pieces.{Free}
use p2pt_server.Net.Dotted.{Free-has_char}
use p2pt_server.Signalling.{SignalingServer}
use p2pt_server.TurnMonitor.Routes.{RouteConfig, turn_credentials, turn_user, handle_turn_revoke}
use p2pt_server.Prelude.{◌||◌, if◌then◌else◌}
use p2pt_server.GoText.{pos}
use p2pt_server.TurnMonitor.Issued.{
  turn_user-ne-pingo, AllServers, turn_credentials-open, handle_turn_revoke-shuts_out,
}
use p2pt_server.TurnMonitor.Reissued.{auth_handler-reissued}
use p2pt_server.GoMap.{GoMap, get}
use p2pt_server.GoMap.Laws.{Visits-refl}
use p2pt_server.GoText.{has_char, split}
use p2pt_server.Net.{extract_ip}
use p2pt_server.Prelude.{◌≢◌, is_some, Option}
use p2pt_server.GoMap.{put}
use p2pt_server.TurnMonitor.{is_session_revoked, record_success, record_auth_attempt}
use p2pt_server.TurnMonitor.AuthHandler.{
  TurnConfig, auth_handler, ask_all, IsClean, guard_never_fires,
}
use p2pt_server.TurnMonitor.{
  TurnSession, TurnMonitor, active, check_ip_blocked, new_session, session_key, record_auth_attempt,
  is_session_revoked, revoke_session,
}
use p2pt_server.TurnMonitor.Charging.{record_relay_traffic}
use p2pt_server.TurnMonitor.Abuse.{fail_all, last_time, check_ip_blocked-fail_all}
use p2pt_server.TurnMonitor.Traffic.{IsCharged, relay_traffic-IsCharged}
use p2pt_server.Prelude.{◌^◌}
use p2pt_server.TurnMonitor.Meter.{MeteredPacketConn, Transfer}

abbrev now : Time
now = zero_time + 1000

abbrev session : String → String → String → ℕ → TurnSession
session user ip relay seen = record {
  username = user;
  peer_id = user;
  client_ip = ip;
  relay_addr = relay;
  created_at = now;
  expires_at = now;
  bytes_relayed = 0;
  packets_count = 0;
  last_activity = zero_time + seen;
  is_token_auth = false;
  status = active;
}

abbrev empty : TurnMonitor
empty = record { sessions = []; reputations = []; revoked_tokens = [] }

-- "ana" was active after "bea".
abbrev monitor : TurnMonitor
monitor = record empty {
  sessions =
      ("ana@10.0.0.7", session "ana" "10.0.0.7" "1.2.3.4:7000" 900)
      ∷ ("bea@10.0.0.8", session "bea" "10.0.0.8" "" 100)
      ∷ [];
}

abbrev in_order : GoMap TurnSession → GoMap TurnSession
in_order m = m

host : extract_ip "10.0.0.7:5000" ≡ "10.0.0.7"
unfolding extract_ip has_char
host = refl

token_user : (new_session "1700000000:ana:1" "10.0.0.7" now).peer_id ≡ "ana:1"
unfolding new_session split p2pt_server.GoText.parse_int p2pt_server.GoText.join
token_user = refl

abbrev attempts : List (String × Time)
attempts = ("ana", now) ∷ ("bea", now + 5) ∷ []

check_ip_blocked-fail_all_example :
    check_ip_blocked (some "10.0.0.7:5000") now (fail_all "10.0.0.7:5000" attempts monitor)
    ≡ (leb 20 (length attempts) && ltb now (last_time now (("bea", now + 5) ∷ []) + 10 * minute))
unfolding get
check_ip_blocked-fail_all_example =
    check_ip_blocked-fail_all "10.0.0.7:5000" "ana" now now (("bea", now + 5) ∷ []) monitor refl
      (omega arith)

relay_traffic-IsCharged_example :
    let tm' = record_relay_traffic in_order "" none 120 now monitor in
    (key : String) × IsCharged "" 120 now monitor.sessions tm'.sessions key
    × (tm' ≡ record monitor { sessions = tm'.sessions })
unfolding get
relay_traffic-IsCharged_example =
    relay_traffic-IsCharged in_order "" none 120 now monitor
      (Visits-refl monitor.sessions (refl, (refl, tt))) (omega arith) (omega arith)

abbrev turn_config : TurnConfig
turn_config = record { username = "pingo"; password = "pw"; auth_secret = "key" }

-- The texts themselves stand for the key and the code.
abbrev key_text : String → String → String → String
key_text u realm password = password

abbrev mac_text : String → String → String
mac_text secret u = secret

secret_given : ◌≢◌ {A = String} turn_config.auth_secret ""
secret_given = ground (arith, eq_iff "key" "")

abbrev requests : List (String × String × Option String × Time)
requests = ("1:ana", "r", some "10.0.0.7:1", zero_time + 5) ∷ []

nobody-IsClean : IsClean empty
unfolding IsClean get
nobody-IsClean ip rep h = absurd (cc h)

-- The name bears a time stamp of 1970.
guard_never_fires_example :
    (check_ip_blocked
        (some "10.0.0.7:1")
        (zero_time + 9)
        (ask_all key_text mac_text turn_config requests empty)
      ≡ false)
    × (is_some
          (auth_handler key_text mac_text turn_config "1:ana" "r"
            (some "10.0.0.7:1")
            (zero_time + 9)
            (ask_all key_text mac_text turn_config requests empty)).1
        ≡ true)
unfolding ask_all auth_handler check_ip_blocked is_session_revoked record_auth_attempt
    record_success get put extract_ip has_char
guard_never_fires_example =
    guard_never_fires key_text mac_text turn_config requests empty "1:ana" "r" (some "10.0.0.7:1")
      (zero_time + 9) secret_given nobody-IsClean (omega arith) free
  where
    free :
        is_session_revoked "1:ana"
          (zero_time + 9)
          (ask_all key_text mac_text turn_config requests empty)
        ≡ false
    free = refl

abbrev relay_socket : MeteredPacketConn
relay_socket = record { has_monitor = true; is_relay = true; relay_addr = "1.2.3.4:7000" }

-- A packet from a peer, one to a client that nobody knows, and an empty one.
abbrev transfers : List Transfer
transfers =
    record { incoming = true; addr = some "9.9.9.9:1"; n = 120; at_time = now }
    ∷ record { incoming = false; addr = none; n = 2 ^ 64; at_time = now + 1 }
    ∷ record { incoming = true; addr = some "10.0.0.8:1"; n = 0; at_time = now + 2 }
    ∷ []

-- 1 January 2024, and a second later.
abbrev new_year : Time
new_year = (unix_epoch + 1704067200) * second

-- What /turn-credentials issues to "ana", and the text that the key is of.
name_of_ana : turn_user new_year "ana" ≡ "1704153600:ana"
unfolding turn_user format_int decimal
name_of_ana = refl

ana_is_not_configured : (t : Time) → turn_user t "ana" ≢ turn_config.username
ana_is_not_configured t = turn_user-ne-pingo t "ana"

ana-no_at : Free "@" "ana"
unfolding has_char
ana-no_at = Free-has_char "@" "ana" refl

abbrev route_config : RouteConfig
route_config = record {
  auth_secret = "key";
  public_ip = "1.2.3.4";
  wan_ip = "9.8.7.6";
  turn_port = pos 3478;
}

turn_credentials-open_example :
    let servers = turn_credentials mac_text route_config new_year "ana" "" in
    (leb 1 (length servers) ≡ true)
    × AllServers
        (λ s.
          (auth_handler key_text mac_text turn_config
            (s.username)
            "r"
            (some "10.0.0.7:1")
            (new_year + 5)
            monitor).1
          ≡ (if check_ip_blocked (some "10.0.0.7:1") (new_year + 5) monitor
                || is_session_revoked (s.username) (new_year + 5) monitor
              then none
              else some (key_text (s.username) "r" (s.credential))))
        servers
turn_credentials-open_example =
    turn_credentials-open key_text mac_text turn_config route_config new_year (new_year + 5) "ana"
      "" "r" (some "10.0.0.7:1") monitor secret_given refl (ana_is_not_configured new_year)

abbrev connected : SignalingServer
connected = record {
  clients = ("ana", record { id = "ana"; token = "k"; conn = 4 }) ∷ [];
  recent_tokens = [];
}

handle_turn_revoke-shuts_out_example :
    let r =
      handle_turn_revoke "POST"
        (some (session_key (turn_user new_year "ana") "10.0.0.7"))
        (new_year + 9)
        monitor
        connected in
    ((auth_handler key_text mac_text turn_config
        (turn_user new_year "ana")
        "r"
        (some "10.0.0.9:1")
        (new_year + 10)
        (r.monitor)).1
      ≡ none)
    × (get "ana" (r.signalling.clients) ≡ none)
unfolding has_char
handle_turn_revoke-shuts_out_example =
    handle_turn_revoke-shuts_out key_text mac_text turn_config new_year (new_year + 9)
      (new_year + 10) "ana" "10.0.0.7" "r" (some "10.0.0.9:1") monitor connected
      (Free-has_char ":" "ana" refl) ana-no_at (Free-has_char "@" "10.0.0.7" refl) (omega arith)

auth_handler-reissued_example :
    (auth_handler key_text mac_text turn_config
      (turn_user (new_year + second) "ana")
      "r"
      (some "10.0.0.7:1")
      (new_year + 10)
      (revoke_session (session_key (turn_user new_year "ana") "10.0.0.7") (new_year + 9) empty)).1
    ≡ some (
        key_text
          (turn_user (new_year + second) "ana")
          "r"
          (mac_text (turn_config.auth_secret) (turn_user (new_year + second) "ana")))
unfolding check_ip_blocked is_session_revoked get has_char
auth_handler-reissued_example =
    auth_handler-reissued key_text mac_text turn_config new_year (new_year + second) (new_year + 9)
      (new_year + 10) "ana" "10.0.0.7" "r" (some "10.0.0.7:1") empty ana-no_at
      (Free-has_char "@" "10.0.0.7" refl) (omega arith) (omega arith)
      (λ e. absurd (omega (arith, e))) secret_given (ana_is_not_configured (new_year + second)) refl
      refl
