-- ===== src/TurnMonitor.antt =====
-- turn_monitor.go: the sessions of the TURN relay, the traffic that is charged to them, and the
-- reputation of the addresses that use it.
--
-- A `net.Addr` is the text of its `String` method, or `none` for nil. The sessions and reputations
-- are pointers that stand in one map each, so that the maps hold the values. An int64 counter is its
-- bit pattern, which wraps at 2^64. Where a loop over a map stops at the first match, `range` is the
-- order in which the runtime walks it.
pub mod Abuse
pub mod Charging
pub mod Traffic
pub mod Revocation
pub mod Routes
pub mod Issued
pub mod Reissued
pub mod AuthHandler
pub mod Meter
pub mod Conserved
mod Examples
use p2pt_server.Prelude.{
  ℕ, zero, suc, ◌+◌, ◌*◌, ◌%◌, ◌^◌, String, Bool, true, false, ◌&&◌, ◌||◌, not, Option, none, some,
  List, [], ◌∷◌, ◌==◌, eqb, ltb, leb, get_or, is_empty, map, if◌then◌else◌,
}
use Prim.Native.String.{◌++◌}
use p2pt_server.Clock.{Time, second, minute, hour, zero_time, after, before, exceeds, unix_time}
use p2pt_server.GoMap.{GoMap, get, has, put, delete, keep, size}
use p2pt_server.GoText.{ℤ, pos, negsuc, split, join, parse_int}
use p2pt_server.Net.{extract_ip}

pub data Status : Type 0 where
  active idle expired closed blocked : Status

pub record TurnSession : Type 0 where
  pub username : String
  pub peer_id : String
  pub client_ip : String
  pub relay_addr : String
  pub created_at : Time
  pub expires_at : Time
  pub bytes_relayed : ℕ
  pub packets_count : ℕ
  pub last_activity : Time
  pub is_token_auth : Bool
  pub status : Status

pub record IpReputation : Type 0 where
  pub ip : String
  pub failures : ℕ
  pub last_failure : Time
  pub blocked_until : Time
  pub success_count : ℕ

pub record TurnMonitor : Type 0 where
  pub sessions : GoMap TurnSession
  pub reputations : GoMap IpReputation
  pub revoked_tokens : GoMap Time

pub new_turn_monitor : TurnMonitor
new_turn_monitor = record { sessions = []; reputations = []; revoked_tokens = [] }

-- &IPReputation{IP: ip}
abbrev pub new_reputation : String → IpReputation
new_reputation ip = record {
  ip = ip;
  failures = 0;
  last_failure = zero_time;
  blocked_until = zero_time;
  success_count = 0;
}

-- The reputation of an address, made if there is none.
abbrev pub reputation : String → TurnMonitor → IpReputation
reputation ip tm = get_or (new_reputation ip) (get ip tm.reputations)

abbrev is_closed : Status → Bool
is_closed closed = true
is_closed _ = false

pub cleanup_expired : Time → TurnMonitor → TurnMonitor
cleanup_expired now tm = record tm {
  sessions =
      keep
        (λ key s. not (
          (is_closed s.status && exceeds now s.last_activity (30 * second))
          || (after now s.expires_at && exceeds now s.last_activity (2 * minute))))
        tm.sessions;
}

is_blocked : Option IpReputation → Time → Bool
is_blocked none now = false
is_blocked (some rep) now = before now rep.blocked_until

pub check_ip_blocked : Option String → Time → TurnMonitor → Bool
unfolding is_blocked
check_ip_blocked none now tm = false
check_ip_blocked (some addr) now tm = is_blocked (get (extract_ip addr) tm.reputations) now

-- "%s@%s"
pub session_key : String → String → String
session_key username ip = username ++ ("@" ++ ip)

-- The expiry, whether it is a token, and the peer, that a user name of the form `time:peer` stands
-- for.
timed : Option ℤ → List String → String → Time → Time × Bool × String
timed (some (pos (suc n))) rest username now = (unix_time (suc n), true, join ":" rest)
timed _ rest username now = (now + 60 * second, false, username)

read_username : List String → String → Time → Time × Bool × String
unfolding timed
read_username (ts ∷ part ∷ rest) username now = timed (parse_int ts) (part ∷ rest) username now
read_username _ username now = (now + 60 * second, false, username)

-- The session that a successful authentication opens.
pub new_session : String → String → Time → TurnSession
unfolding read_username
new_session username ip now =
    let (expires, is_token, peer) = read_username (split ":" username) username now in
    record {
      username = username;
      peer_id = peer;
      client_ip = ip;
      relay_addr = "";
      created_at = now;
      expires_at = expires;
      bytes_relayed = 0;
      packets_count = 0;
      last_activity = now;
      is_token_auth = is_token;
      status = active;
    }

record_success : String → String → Time → TurnMonitor → TurnMonitor
record_success username ip now tm =
    let rep = reputation ip tm in
    if after (get_or zero_time (get username tm.revoked_tokens)) now
    then record tm { reputations = put ip rep tm.reputations }
    else record {
      sessions = put (session_key username ip) (new_session username ip now) tm.sessions;
      reputations =
          put ip (record rep { success_count = rep.success_count + 1; failures = 0 })
            tm.reputations;
      revoked_tokens = tm.revoked_tokens;
    }

-- One more failure, the twentieth and later ones with a block of ten minutes.
abbrev pub failed : Time → IpReputation → IpReputation
failed now rep =
    let n = rep.failures + 1 in
    record rep {
      failures = n;
      last_failure = now;
      blocked_until = if leb 20 n then now + 10 * minute else rep.blocked_until;
    }

record_failure : String → Time → TurnMonitor → TurnMonitor
record_failure ip now tm = record tm {
  reputations = put ip (failed now (reputation ip tm)) tm.reputations;
}

pub record_auth_attempt : String → Option String → Bool → Time → TurnMonitor → TurnMonitor
unfolding record_success record_failure
record_auth_attempt username none success now tm = tm
record_auth_attempt username (some addr) true now tm =
    record_success username (extract_ip addr) now tm
record_auth_attempt username (some addr) false now tm = record_failure (extract_ip addr) now tm

-- The session that `RecordAllocationCreated` makes where there is none.
blank_session : String → String → Time → TurnSession
blank_session username ip now = record {
  username = username;
  peer_id = username;
  client_ip = ip;
  relay_addr = "";
  created_at = now;
  expires_at = zero_time;
  bytes_relayed = 0;
  packets_count = 0;
  last_activity = zero_time;
  is_token_auth = false;
  status = active;
}

pub record_allocation_created :
    String → Option String → Option String → Time → TurnMonitor → TurnMonitor
unfolding blank_session
record_allocation_created username none relay now tm = tm
record_allocation_created username (some addr) relay now tm =
    let ip = extract_ip addr in
    let key = session_key username ip in
    let s = get_or (blank_session username ip now) (get key tm.sessions) in
    record tm {
      sessions =
          put key
            (record s {
              status = active;
              last_activity = now;
              expires_at = now + 60 * second;
              relay_addr = get_or s.relay_addr relay;
            })
            tm.sessions;
    }

-- A change to the session at `key`, if there is one.
pub modify : String → (TurnSession → TurnSession) → GoMap TurnSession → GoMap TurnSession
modify key f m = elim (get key m) [ none ↦ m | some s ↦ put key (f s) m ]

pub record_allocation_deleted : String → Option String → Time → TurnMonitor → TurnMonitor
unfolding modify
record_allocation_deleted username none now tm = tm
record_allocation_deleted username (some addr) now tm = record tm {
  sessions =
      modify (session_key username (extract_ip addr))
        (λ s. record s { status = closed; expires_at = now }) tm.sessions;
}

-- One round of the loop of `GetActiveSessions`: the session with its status written, and whether it
-- counts as active.
pub refreshed : Time → TurnSession → TurnSession × Bool
refreshed now s =
    if is_closed s.status || after now s.expires_at
    then (if is_closed s.status then (s, false) else (record s { status = expired }, false))
    else if exceeds now s.last_activity (60 * second)
    then (record s { status = idle }, false)
    else (record s { status = active }, true)

pub refresh_all : Time → GoMap TurnSession → GoMap TurnSession × ℕ
refresh_all now [] = ([], 0)
refresh_all now ((key, s) ∷ m) =
    let (s', counts) = refreshed now s in
    let (m', n) = refresh_all now m in ((key, s') ∷ m', (if counts then n + 1 else n))

pub get_blocked_ips : Time → TurnMonitor → GoMap IpReputation
get_blocked_ips now tm = keep (λ ip rep. before now rep.blocked_until) tm.reputations

-- The sessions are written to under a read lock; the list that is returned holds the same pointers.
pub get_active_sessions : Time → TurnMonitor → TurnMonitor × ℕ × ℕ
unfolding refresh_all
get_active_sessions now tm =
    let (sessions, active_count) = refresh_all now tm.sessions in
    (record tm { sessions = sessions }, active_count, size (get_blocked_ips now tm))

pub block_ip : String → ℕ → Time → TurnMonitor → TurnMonitor
block_ip ip duration now tm =
    if ip == ""
    then tm
    else (let lasting = if eqb duration 0 then 24 * hour else duration in
        record tm {
          sessions = keep (λ key s. not (s.client_ip == ip)) tm.sessions;
          reputations =
              put ip (record (reputation ip tm) { blocked_until = now + lasting }) tm.reputations;
        })

pub unblock_ip : String → TurnMonitor → TurnMonitor
unblock_ip ip tm = elim (get ip tm.reputations) [
  | none ↦ tm
  | some rep ↦ record tm {
    reputations = put ip (record rep { blocked_until = zero_time; failures = 0 }) tm.reputations;
  }
]

pub is_session_revoked : String → Time → TurnMonitor → Bool
is_session_revoked username now tm = elim (get username tm.revoked_tokens) [
  | none ↦ false
  | some expiry ↦ before now expiry
]

-- The user of a session key `user@ip`.
pub target_user : List String → String → String
target_user (user ∷ ip ∷ []) key = user
target_user _ key = key

pub revoke_session : String → Time → TurnMonitor → TurnMonitor
unfolding target_user
revoke_session key now tm =
    let user = target_user (split "@" key) key in
    let revoked = put key (now + 12 * hour) tm.revoked_tokens in
    record tm {
      revoked_tokens =
          if not (user == "pingo") && not (user == "")
          then put user (now + 12 * hour) revoked
          else revoked;
      sessions =
          keep (λ k s. not (k == key || session_key s.username s.client_ip == key))
            (delete key tm.sessions);
    }
