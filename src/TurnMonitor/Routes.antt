-- ===== src/TurnMonitor/Routes.antt =====
-- The routes of main.go on the TURN relay: /turn-credentials, which anybody may ask, and /api/turn/revoke,
-- which stands behind RequireAuth. The HMAC-SHA1 in base64 is a parameter. The
-- clock is not before 1970.
use Prim.Native.String.{◌∷◌, ◌++◌}
use p2pt_server.Clock.{Time, unix_seconds}
use p2pt_server.GoText.{ℤ, pos, format_int, split}
use p2pt_server.Net.Ip.{parse_ip}
use p2pt_server.Prelude.{
  ℕ, ◌+◌, String, not, ◌&&◌, Option, none, some, List, [], ◌∷◌ as ◌::◌, ◌==◌, is_some,
  if◌then◌else◌,
}
use p2pt_server.Signalling.{SignalingServer, Output, kick_client}
use p2pt_server.TurnMonitor.{TurnMonitor, revoke_session}

-- What the routes read of `Config`.
pub record RouteConfig : Type 0 where
  pub auth_secret : String
  pub public_ip : String
  pub wan_ip : String
  pub turn_port : ℤ

pub record IceServer : Type 0 where
  pub urls : List String
  pub username : String
  pub credential : String

-- `%d:%s` of the expiry, a day from now, and the peer
unfoldable pub turn_user : Time → String → String
unfolding format_int
turn_user now user = format_int (pos (unix_seconds now + 86400)) ++ (":" ∷ user)

abbrev pub requested_user : String → String → String
requested_user peer_id user =
    if not (peer_id == "") then peer_id else if not (user == "") then user else "pingo-client"

abbrev turn_uri : String → String → RouteConfig → String
turn_uri host transport cfg =
    "turn:" ++ host ++ ":" ++ format_int (cfg.turn_port) ++ "?transport=" ++ transport

abbrev stun_uri : String → RouteConfig → String
stun_uri host cfg = "stun:" ++ host ++ ":" ++ format_int (cfg.turn_port)

abbrev server_at : (String → String → String) → RouteConfig → String → String → IceServer
server_at mac cfg u host = record {
  urls = turn_uri host "udp" cfg :: turn_uri host "tcp" cfg :: stun_uri host cfg :: [];
  username = u;
  credential = mac (cfg.auth_secret) u;
}

-- The servers that /turn-credentials offers: the WAN address if it is another one than the public host.
unfoldable pub turn_credentials :
    (String → String → String) → RouteConfig → Time → String → String → List IceServer
unfolding turn_user format_int parse_ip
turn_credentials mac cfg now peer_id user =
    let u = turn_user now (requested_user peer_id user) in
    let public = server_at mac cfg u (cfg.public_ip) :: [] in
    if not (cfg.wan_ip == "")
      && not (cfg.wan_ip == cfg.public_ip)
      && is_some (parse_ip (cfg.wan_ip))
    then server_at mac cfg u (cfg.wan_ip) :: public
    else public

-- The peer of a session key `time:peer@ip`, or its user.
abbrev pub first_of : List String → String → String
first_of [] s = s
first_of (a :: l) s = a

abbrev pub second_of : List String → String → String
second_of (a :: b :: l) s = b
second_of _ s = s

unfoldable pub peer_of_key : String → String
unfolding split
peer_of_key key = let user = first_of (split "@" key) key in second_of (split ":" user) user

-- What becomes of a request to /api/turn/revoke: its HTTP status, and the state after it.
pub record Revocation : Type 0 where
  pub status : ℕ
  pub monitor : TurnMonitor
  pub signalling : SignalingServer
  pub outputs : List Output

abbrev kicked : TurnMonitor → SignalingServer × List Output → Revocation
kicked tm (s, outputs) = record { status = 200; monitor = tm; signalling = s; outputs = outputs }

-- The key is `none` if the body does not decode.
unfoldable pub handle_turn_revoke :
    String → Option String → Time → TurnMonitor → SignalingServer → Revocation
unfolding peer_of_key
handle_turn_revoke method key now tm s =
    if method == "POST"
    then (elim key [
      | none ↦ record { status = 400; monitor = tm; signalling = s; outputs = [] }
      | some k ↦ kicked (revoke_session k now tm) (kick_client (peer_of_key k) s)
    ])
    else record { status = 405; monitor = tm; signalling = s; outputs = [] }
