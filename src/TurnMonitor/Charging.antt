-- ===== src/TurnMonitor/Charging.antt =====
-- turn_monitor.go: to which session traffic is charged.
use p2pt_server.Prelude.{
  ℕ, ◌+◌, ◌%◌, ◌^◌, String, Bool, ◌&&◌, not, Option, none, some, [], ◌∷◌, ◌==◌, eqb, if◌then◌else◌,
}
use p2pt_server.Clock.{Time, before}
use p2pt_server.GoMap.{GoMap, put}
use p2pt_server.Net.{extract_ip}
use p2pt_server.TurnMonitor.{TurnSession, TurnMonitor, session_key, modify}

-- `bytes` more are charged to a session.
unfoldable pub charge : ℕ → Time → TurnSession → TurnSession
charge bytes now s = record s {
  bytes_relayed = (s.bytes_relayed + bytes) % 2 ^ 64;
  packets_count = (s.packets_count + 1) % 2 ^ 64;
  last_activity = now;
}

pub record_packet : String → String → ℕ → Time → TurnMonitor → TurnMonitor
unfolding modify charge
record_packet username client_ip bytes now tm = record tm {
  sessions = modify (session_key username client_ip) (charge bytes now) tm.sessions;
}

-- The first session that passes a test.
unfoldable pub first_match :
    (TurnSession → Bool) → GoMap TurnSession → Option (String × TurnSession)
first_match p [] = none
first_match p (e ∷ l) = let rest = first_match p l in if p e.1 then some e else rest

-- The last loop of `RecordRelayTraffic`: `newestSession` begins as nil.
unfoldable pub newest :
    Time → Option (String × TurnSession) → GoMap TurnSession → Option (String × TurnSession)
newest now best [] = best
newest now none (e ∷ l) = newest now (some e) l
newest now (some b) (e ∷ l) =
    newest now (if before (e.1).last_activity now then some e else some b) l

unfoldable pub charge_at :
    ℕ → Time → Option (String × TurnSession) → GoMap TurnSession → GoMap TurnSession
unfolding charge
charge_at bytes now none m = m
charge_at bytes now (some (key, s)) m = put key (charge bytes now s) m

-- A session that is found by its client's address takes the relay address, if it has none.
unfoldable pub adopt : String → TurnSession → TurnSession
adopt relay s =
    if s.relay_addr == "" && not (relay == "") then record s { relay_addr = relay } else s

unfoldable pub by_client : Option String → GoMap TurnSession → Option (String × TurnSession)
unfolding first_match
by_client none l = none
by_client (some remote) l = first_match (λ s. s.client_ip == extract_ip remote) l

unfoldable pub by_relay : String → GoMap TurnSession → Option (String × TurnSession)
unfolding first_match
by_relay relay l = if relay == "" then none else first_match (λ s. s.relay_addr == relay) l

unfoldable pub charge_adopting :
    ℕ → Time → String → Option (String × TurnSession) → GoMap TurnSession → GoMap TurnSession
unfolding adopt charge
charge_adopting bytes now relay none m = m
charge_adopting bytes now relay (some (key, s)) m = put key (adopt relay (charge bytes now s)) m

-- The three attempts of `RecordRelayTraffic`: by relay address, by client address, and the fallback.
unfoldable pub credit :
    ℕ
    → Time
    → String
    → Option (String × TurnSession)
    → Option (String × TurnSession)
    → Option (String × TurnSession)
    → GoMap TurnSession
    → GoMap TurnSession
unfolding charge_at charge_adopting
credit bytes now relay (some e) client fallback m = charge_at bytes now (some e) m
credit bytes now relay none (some e) fallback m = charge_adopting bytes now relay (some e) m
credit bytes now relay none none fallback m = charge_at bytes now fallback m

module _ (range : GoMap TurnSession → GoMap TurnSession) where
  -- `bytes` more through the relay socket `relay`, to or from `remote`: charged to the session of the
  -- relay address, else to one of the client's address, else to some session.
  unfoldable pub record_relay_traffic :
      String → Option String → ℕ → Time → TurnMonitor → TurnMonitor
  unfolding by_relay by_client credit newest
  record_relay_traffic relay remote bytes now tm =
      let m = tm.sessions in
      if eqb bytes 0 then tm else record tm {
        sessions =
            credit bytes now relay (by_relay relay (range m)) (by_client remote (range m))
              (newest now none (range m)) m;
      }

  pub record_raw_traffic : Option String → ℕ → Time → TurnMonitor → TurnMonitor
  unfolding by_client charge_at
  record_raw_traffic src bytes now tm = if eqb bytes 0 then tm else record tm {
    sessions = charge_at bytes now (by_client src (range tm.sessions)) tm.sessions;
  }
