-- ===== src/Signalling.antt =====
-- main.go: `SignalingServer`, which passes the messages of PeerJS between WebSockets.
--
-- A `*websocket.Conn` is a number, different for different connections. The server never holds a nil
-- connection: `AddClient` is called with the one that was just upgraded. Two messages are sent in one
-- step if one handler sends them; whether a send fails is known to the caller of the handler only,
-- and changes the state in one place, the greeting. Pings, deadlines and `LastSeen`, which nothing
-- reads, are left out.
pub mod Delivery
pub mod Silence
pub mod Tokens
mod Examples
use Prim.Native.String.{◌++◌ as ◌^^◌}
use p2pt_server.Prelude.{
  ℕ, ◌-◌, ◌+◌, ◌*◌, String, Bool, true, false, not, ◌&&◌, ◌||◌, Option, none, some, List, [], ◌∷◌,
  ◌++◌, ◌==◌, eqb, ltb, get_or, is_some, length, if◌then◌else◌,
}
use p2pt_server.Clock.{Time, minute, before}
use p2pt_server.GoMap.{GoMap, get, put, delete, keep, size}

abbrev pub Conn : Type 0
Conn = ℕ

-- `payload` is the raw JSON.
pub record PeerMessage : Type 0 where
  pub type : String
  pub src : String
  pub dst : String
  pub payload : String
  pub msg : String

pub record Client : Type 0 where
  pub id : String
  pub token : String
  pub conn : Conn

-- A peer's tokens, with the times at which they were seen.
pub record SignalingServer : Type 0 where
  pub clients : GoMap Client
  pub recent_tokens : GoMap (GoMap Time)

pub new_signaling_server : SignalingServer
new_signaling_server = record { clients = []; recent_tokens = [] }

-- What leaves the server: a message on a connection, or the end of a connection.
pub data Output : Type 0 where
  send : Conn → PeerMessage → Output
  close : Conn → Output

-- The connection that an id is known by is closed.
close_of : Option Client → List Output
close_of none = []
close_of (some c) = close c.conn ∷ []

-- The token is noted, and those not seen for ten minutes are forgotten.
pub note_token : String → Time → GoMap Time → GoMap Time
note_token token now m = keep (λ t seen. not (before seen (now - 10 * minute))) (put token now m)

pub add_client : String → String → Conn → Time → SignalingServer → SignalingServer × List Output
unfolding close_of
add_client id token conn now s = (
  record {
    clients = put id (record { id = id; token = token; conn = conn }) s.clients;
    recent_tokens =
        if token == ""
        then s.recent_tokens
        else put id (note_token token now (get_or [] (get id s.recent_tokens))) s.recent_tokens;
  },
  close_of (get id s.clients),
)

-- Whether the client is the one to remove: no connection, or its own, and no token, or its own.
pub is_client : String → Option Conn → Client → Bool
is_client token none c = token == "" || c.token == token
is_client token (some conn) c = eqb c.conn conn && (token == "" || c.token == token)

pub remove_client : String → String → Option Conn → SignalingServer → SignalingServer
remove_client id token conn s = elim (get id s.clients) [
  | none ↦ s
  | some c ↦ if is_client token conn c then record s { clients = delete id s.clients } else s
]

pub get_client : String → SignalingServer → Option Client
get_client id s = get id s.clients

has_token : String → Option Client → Bool
has_token token none = false
has_token token (some c) = c.token == token

-- time.Since(seen) < 5*time.Minute
seen_lately : Option Time → Time → Bool
seen_lately none now = false
seen_lately (some seen) now = ltb now (seen + 5 * minute)

pub validate_peer_token : String → String → Time → SignalingServer → Bool
unfolding has_token seen_lately
validate_peer_token id token now s =
    if id == "" || token == ""
    then false
    else has_token token (get id s.clients)
      || seen_lately (get token (get_or [] (get id s.recent_tokens))) now

pub client_count : SignalingServer → ℕ
client_count s = size s.clients

unfoldable pub kick_client : String → SignalingServer → SignalingServer × List Output
unfolding close_of
kick_client id s = (record s { clients = delete id s.clients }, close_of (get id s.clients))

abbrev blank : String → PeerMessage
blank type = record { type = type; src = ""; dst = ""; payload = ""; msg = "" }

-- What a connection that opens is met with; `greeted` says whether the OPEN message is sent without
-- an error. The id is the one of the query, or the eight digits that the server draws.
pub open_connection :
    String → String → Conn → Time → Bool → SignalingServer → SignalingServer × List Output
open_connection id token conn now greeted s =
    let (s', out) = add_client id token conn now s in
    let sent = send conn (blank "OPEN") in
    if greeted
    then (s', out ++ (sent ∷ []))
    else (remove_client id token (some conn) s', out ++ (close conn ∷ []))

pub is_relayed : String → Bool
is_relayed type = type == "OFFER" || type == "ANSWER" || type == "CANDIDATE" || type == "LEAVE"

-- The message goes to the connection of its destination, or an error goes back.
forward : String → Conn → PeerMessage → Option Client → List Output
forward id conn msg (some target) = send target.conn (record msg { src = id }) ∷ []
forward id conn msg none =
    send conn (record (blank "ERROR") { msg = "Could not connect to peer " ^^ msg.dst }) ∷ []

-- A message that is read from the connection `conn` of the peer `id`. The state stays as it is.
pub on_message : String → Conn → PeerMessage → SignalingServer → List Output
unfolding forward
on_message id conn msg s =
    if msg.type == "HEARTBEAT"
    then send conn (blank "HEARTBEAT") ∷ []
    else if is_relayed msg.type
    then (if msg.dst == "" then [] else forward id conn msg (get_client msg.dst s))
    else []

-- The end of a connection.
pub close_connection : String → String → Conn → SignalingServer → SignalingServer × List Output
close_connection id token conn s = (remove_client id token (some conn) s, close conn ∷ [])

-- What happens to the connections of the server.
pub data Event : Type 0 where
  opened : String → String → Conn → Time → Bool → Event
  closed : String → String → Conn → Event
  kicked : String → Event

pub step : Event → SignalingServer → SignalingServer
step (opened id token conn now greeted) s = (open_connection id token conn now greeted s).0
step (closed id token conn) s = (close_connection id token conn s).0
step (kicked id) s = (kick_client id s).0

pub run : List Event → SignalingServer → SignalingServer
run [] s = s
run (e ∷ es) s = run es (step e s)
