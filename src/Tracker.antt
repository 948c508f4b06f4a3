-- ===== src/Tracker.antt =====
-- tracker.go: the WebTorrent tracker, a registry of the peers that announce themselves for a topic.
--
-- A `*PeerSession` is the number of its connection, since a peer's entry is only ever used to send
-- to it; the session's own `PeerID` is read by its own connection alone, which sets it together
-- with `currentPeerID`, so that one text per connection stands for both. A handler returns the new
-- tracker and what it sends. `json.Unmarshal` has been applied: a message is a request or malformed.
pub mod Shape
pub mod Signals
pub mod Life
pub mod Identity
mod Examples
use p2pt_server.Prelude.{
  ℕ, String, Bool, true, false, ◌||◌, not, Option, none, some, List, [], ◌∷◌, ◌++◌, ◌==◌, eqb,
  is_some, get_or, length, is_empty, if◌then◌else◌,
}
use p2pt_server.GoMap.{GoMap, get, has, put, delete, size}

-- `offer` and `answer` hold raw JSON.
pub record TrackerOffer : Type 0 where
  pub offer_id : String
  pub offer : String

pub record TrackerAnswer : Type 0 where
  pub offer_id : String
  pub answer : String

-- The fields that the tracker reads: `numwant`, `left`, `uploaded`, `downloaded` and `event` are
-- decoded and never looked at.
pub record TrackerRequest : Type 0 where
  pub action : String
  pub info_hash : String
  pub peer_id : String
  pub offers : List TrackerOffer
  pub answer : Option TrackerAnswer
  pub to_peer_id : String
  pub offer_id : String

pub record TrackerResponse : Type 0 where
  pub action : String
  pub info_hash : String
  pub interval : ℕ
  pub complete : ℕ
  pub incomplete : ℕ
  pub peer_id : String
  pub offer_id : String
  pub offer : String
  pub answer : String
  pub failure : String

-- TrackerResponse{}
abbrev pub blank : TrackerResponse
blank = record {
  action = "";
  info_hash = "";
  interval = 0;
  complete = 0;
  incomplete = 0;
  peer_id = "";
  offer_id = "";
  offer = "";
  answer = "";
  failure = "";
}

-- A `Send` on the session of connection `conn`.
pub record Sent : Type 0 where
  pub conn : ℕ
  pub response : TrackerResponse

pub record WebTorrentTracker : Type 0 where
  pub swarms : GoMap (GoMap ℕ)
  pub peers : GoMap (GoMap Bool)

pub new_web_torrent_tracker : WebTorrentTracker
new_web_torrent_tracker = record { swarms = []; peers = [] }

-- The map at `k` of a map of maps, made if it is not there.
abbrev pub inner {ℓ} : {V : Type ℓ} → String → GoMap (GoMap V) → GoMap V
inner k m = get_or [] (get k m)

-- The first critical section of `handleAnnounce`.
pub register : ℕ → String → String → WebTorrentTracker → WebTorrentTracker
register conn info_hash peer_id t = record {
  swarms = put info_hash (put peer_id conn (inner info_hash t.swarms)) t.swarms;
  peers = put peer_id (put info_hash true (inner peer_id t.peers)) t.peers;
}

offer_response : TrackerRequest → TrackerOffer → TrackerResponse
offer_response req o = record blank {
  info_hash = req.info_hash;
  peer_id = req.peer_id;
  offer_id = o.offer_id;
  offer = o.offer;
}

-- The loop of `distributeOffers`. The index `offerIdx` counts the offers that are used up, so the
-- offers from it on are the list that is left.
distribute : TrackerRequest → List (String × ℕ) → List TrackerOffer → List Sent
distribute req [] offers = []
distribute req (peer ∷ swarm) [] = elim (peer.0 == req.peer_id) [
  | true ↦ distribute req swarm []
  | false ↦ []
]
distribute req (peer ∷ swarm) (o ∷ offers) = elim (peer.0 == req.peer_id) [
  | true ↦ distribute req swarm (o ∷ offers)
  | false ↦ record { conn = peer.1; response = offer_response req o } ∷ distribute req swarm offers
]

-- `range` is the order in which the runtime walks the swarm.
module _ (range : GoMap ℕ → GoMap ℕ) where
  pub distribute_offers : TrackerRequest → WebTorrentTracker → List Sent
  unfolding distribute offer_response
  distribute_offers req t = elim (get req.info_hash t.swarms) [
    | none ↦ []
    | some swarm ↦ distribute req (range swarm) req.offers
  ]

  pub handle_announce : ℕ → TrackerRequest → WebTorrentTracker → WebTorrentTracker × List Sent
  unfolding register distribute_offers
  handle_announce conn req t =
      if req.info_hash == "" || req.peer_id == ""
      then (
        t,
        record { conn = conn; response = record blank { failure = "missing info_hash or peer_id" } }
            ∷ [],
      )
      else let t' = register conn req.info_hash req.peer_id t in
        (
          t',
          record {
            conn = conn;
            response = record blank {
              action = "announce";
              info_hash = req.info_hash;
              interval = 120;
              complete = size (inner req.info_hash t'.swarms);
            };
          }
              ∷ (if is_empty req.offers then [] else distribute_offers req t'),
        )

-- What `forwardSignal` sends once the target is found.
forward_answer : String → TrackerRequest → ℕ → Option TrackerAnswer → List Sent
forward_answer peer_id req target none = []
forward_answer peer_id req target (some a) =
    record {
      conn = target;
      response = record blank {
        info_hash = req.info_hash;
        peer_id = peer_id;
        offer_id = req.offer_id;
        answer = a.answer;
      };
    }
    ∷ []

-- `peer_id` is the `PeerID` of the session that asks.
pub forward_signal : String → TrackerRequest → WebTorrentTracker → List Sent
unfolding forward_answer
forward_signal peer_id req t = elim (get req.info_hash t.swarms) [
  | none ↦ []
  | some swarm ↦ elim (get req.to_peer_id swarm) [
    | none ↦ []
    | some target ↦ forward_answer peer_id req target req.answer
  ]
]

pub handle_scrape : ℕ → TrackerRequest → WebTorrentTracker → List Sent
handle_scrape conn req t =
    record {
      conn = conn;
      response = record blank {
        action = "scrape";
        info_hash = req.info_hash;
        complete = size (inner req.info_hash t.swarms);
      };
    }
    ∷ []

-- One round of the loop of `removePeer`.
pub leave_swarm : String → String → GoMap (GoMap ℕ) → GoMap (GoMap ℕ)
leave_swarm peer_id info_hash swarms = elim (get info_hash swarms) [
  | none ↦ swarms
  | some swarm ↦
      let rest = delete peer_id swarm in
      if eqb (size rest) 0 then delete info_hash swarms else put info_hash rest swarms
]

pub leave_all : String → List (String × Bool) → GoMap (GoMap ℕ) → GoMap (GoMap ℕ)
leave_all peer_id [] swarms = swarms
leave_all peer_id (h ∷ hashes) swarms = leave_all peer_id hashes (leave_swarm peer_id h.0 swarms)

pub remove_peer : String → WebTorrentTracker → WebTorrentTracker
remove_peer peer_id t = elim (get peer_id t.peers) [
  | none ↦ t
  | some hashes ↦ record {
    swarms = leave_all peer_id hashes t.swarms;
    peers = delete peer_id t.peers;
  }
]

pub swarm_count : WebTorrentTracker → ℕ
swarm_count t = size t.swarms

-- The outcome of `json.Unmarshal` on a message.
pub data Message : Type 0 where
  malformed : Message
  request : TrackerRequest → Message

-- The tracker and the `currentPeerID` of each connection's goroutine.
pub record Server : Type 0 where
  pub tracker : WebTorrentTracker
  pub current : ℕ → String

pub start : Server
unfolding new_web_torrent_tracker
start = record { tracker = new_web_torrent_tracker; current = λ c. "" }

pub data Event : Type 0 where
  received : ℕ → Message → Event
  closed : ℕ → Event

abbrev pub update : (ℕ → String) → ℕ → String → ℕ → String
update f c s d = if eqb d c then s else f d

module _ (range : GoMap ℕ → GoMap ℕ) where
  -- The `switch` on the action of a request.
  dispatch : ℕ → String → TrackerRequest → WebTorrentTracker → WebTorrentTracker × List Sent
  unfolding handle_announce handle_scrape forward_signal
  dispatch conn current req t =
      if req.action == "announce"
      then handle_announce range conn req t
      else if req.action == "scrape"
      then (t, handle_scrape conn req t)
      else if req.to_peer_id == ""
      then (t, [])
      else (t, forward_signal current req t)

  -- One turn of a connection of `HandleWebSocket`: a message, or the read error that ends its loop
  -- and runs the deferred `removePeer`.
  pub step : Event → Server → Server × List Sent
  unfolding dispatch remove_peer
  step (received conn malformed) s = (
    s,
    record { conn = conn; response = record blank { failure = "malformed JSON request" } } ∷ [],
  )
  step (received conn (request req)) s =
      let current' = if req.peer_id == "" then s.current else update s.current conn req.peer_id in
      let (t, sent) = dispatch conn (current' conn) req s.tracker in
      (record { tracker = t; current = current' }, sent)
  step (closed conn) s = (
    record {
      tracker = if s.current conn == "" then s.tracker else remove_peer (s.current conn) s.tracker;
      current = update s.current conn "";
    },
    [],
  )

  -- A history of events; what is sent is appended.
  pub run : List Event → Server → Server × List Sent
  run [] s = (s, [])
  run (e ∷ es) s = let (s', sent) = step e s in let (s'', rest) = run es s' in (s'', sent ++ rest)
