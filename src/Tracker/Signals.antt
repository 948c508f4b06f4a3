-- ===== src/Tracker/Signals.antt =====
-- What the tracker sends: the statistics of a swarm, and the offers of an announce.
use p2pt_server.Prelude.{
  ℕ, ◌+◌, ◌-◌, min, String, false, ◌||◌, some, ◌≡◌, ◌≢◌, refl, List, [], ◌∷◌, arith, ◌==◌, eq_iff,
  eq_refl, length, if◌then◌else◌,
}
use p2pt_server.GoMap.{GoMap, get, put, delete, size, IsUnique, Visits}
use p2pt_server.GoMap.Laws.{
  get-put, get-delete, put-IsUnique, delete-IsUnique, size-put, size-delete,
}
use p2pt_server.Tracker.{
  WebTorrentTracker, TrackerRequest, TrackerOffer, Sent, blank, inner, register, distribute,
  offer_response, distribute_offers, handle_announce, handle_scrape,
}
use p2pt_server.Tracker.Shape.{has_at, IsConsistent, inner-IsUnique}

-- The first offer to the first of the peers, and so on, as far as both go.
pub pair_off : TrackerRequest → GoMap ℕ → List TrackerOffer → List Sent
pair_off req [] offers = []
pair_off req (peer ∷ peers) [] = []
pair_off req (peer ∷ peers) (o ∷ offers) =
    record { conn = peer.1; response = offer_response req o } ∷ pair_off req peers offers

-- The loop, which skips the announcer as it goes, pairs the offers with the other peers.
distribute-eq-pair_off :
    (req : TrackerRequest) (l : GoMap ℕ) (offers : List TrackerOffer)
    → distribute req l offers ≡ pair_off req (delete req.peer_id l) offers
unfolding distribute pair_off delete
distribute-eq-pair_off req [] offers = refl
distribute-eq-pair_off req (p ∷ l) [] = ground (arith, distribute-eq-pair_off req l [])
distribute-eq-pair_off req (p ∷ l) (o ∷ offers) =
    ground (arith, distribute-eq-pair_off req l (o ∷ offers), distribute-eq-pair_off req l offers)

length-pair_off :
    (req : TrackerRequest) (l : GoMap ℕ) (offers : List TrackerOffer)
    → length (pair_off req l offers) ≡ min (length offers) (size l)
unfolding pair_off
length-pair_off req [] offers = omega arith
length-pair_off req (p ∷ l) [] = omega arith
length-pair_off req (p ∷ l) (o ∷ offers) = omega (arith, length-pair_off req l offers)

Visits-delete :
    (k : String) (l m : GoMap ℕ) → IsUnique m → Visits l m → Visits (delete k l) (delete k m)
Visits-delete k l m u v = record {
  once = delete-IsUnique k l v.once;
  same = λ j. ground (arith, get-delete j k l, get-delete j k m, v.same j);
  all = ground (arith, size-delete k l v.once, size-delete k m u, v.same k, v.all);
}

pub announce_reply : ℕ → TrackerRequest → ℕ → Sent
announce_reply conn req complete = record {
  conn = conn;
  response = record blank {
    action = "announce";
    info_hash = req.info_hash;
    interval = 120;
    complete = complete;
  };
}

pair_off-nil : (req : TrackerRequest) (l : GoMap ℕ) → pair_off req l [] ≡ []
unfolding pair_off
pair_off-nil req [] = refl
pair_off-nil req (p ∷ l) = refl

inner-register :
    (conn : ℕ) (h p : String) (t : WebTorrentTracker)
    → get h (register conn h p t).swarms ≡ some (put p conn (inner h t.swarms))
unfolding register
inner-register conn h p t =
    ground (arith, get-put h h (put p conn (inner h t.swarms)) t.swarms, eq_refl h)

module _ (range : GoMap ℕ → GoMap ℕ) (conn : ℕ) (req : TrackerRequest) (t : WebTorrentTracker) where
  distribute_offers-register :
      let swarm = put req.peer_id conn (inner req.info_hash t.swarms) in
      distribute_offers range req (register conn req.info_hash req.peer_id t)
      ≡ pair_off req (delete req.peer_id (range swarm)) req.offers
  unfolding distribute_offers
  distribute_offers-register =
      rw (inner-register conn req.info_hash req.peer_id t, distribute_offers)
        (distribute-eq-pair_off req _ req.offers)

  handle_announce_lem :
      (req.info_hash == "" || req.peer_id == "") ≡ false
      → let swarm = put req.peer_id conn (inner req.info_hash t.swarms) in
        handle_announce range conn req t ≡ (
          register conn req.info_hash req.peer_id t,
          announce_reply conn req (size swarm)
              ∷ pair_off req (delete req.peer_id (range swarm)) req.offers,
        )
  unfolding handle_announce announce_reply
  handle_announce_lem h = ground (
    arith,
    inner-register conn req.info_hash req.peer_id t,
    distribute_offers-register,
    pair_off-nil req
        (delete req.peer_id (range (put req.peer_id conn (inner req.info_hash t.swarms)))),
  )

  valid_announce :
      req.info_hash ≢ "" → req.peer_id ≢ "" → (req.info_hash == "" || req.peer_id == "") ≡ false
  valid_announce h k = ground (arith, eq_iff req.info_hash "", eq_iff req.peer_id "")

  -- An announce that names an info-hash and a peer enters the peer in the swarm, tells the announcer
  -- the size of the swarm, and gives the first offer to the first of the other peers, the second to
  -- the second, and so on until either runs out: `others` lists, in an order that the runtime
  -- chooses, each peer of the swarm but the announcer, once.
  pub announce_offers :
      IsConsistent t
      → ((m : GoMap ℕ) → IsUnique m → Visits (range m) m)
      → req.info_hash ≢ ""
      → req.peer_id ≢ ""
      → let swarm = inner req.info_hash (handle_announce range conn req t).0.swarms in
        (others : GoMap ℕ) × Visits others (delete req.peer_id swarm)
        × (get req.peer_id swarm ≡ some conn)
        × ((handle_announce range conn req t).1
            ≡ announce_reply conn req (size swarm) ∷ pair_off req others req.offers)
  announce_offers i v h k =
      let p = req.peer_id in
      let swarm = put p conn (inner req.info_hash t.swarms) in
      let u : IsUnique swarm =
        put-IsUnique p conn _ (inner-IsUnique req.info_hash t.swarms i.swarms) in
      rw (handle_announce_lem (valid_announce h k)) (
        rw (inner-register conn req.info_hash p t) (
          delete p (range swarm),
          Visits-delete p (range swarm) swarm u (v swarm u),
          ground (arith, get-put p p conn (inner req.info_hash t.swarms), eq_refl p),
          refl,
        ))

  -- An announce sends one reply and as many offers as it brings, at most one for each other peer.
  length-announce :
      IsConsistent t
      → ((m : GoMap ℕ) → IsUnique m → Visits (range m) m)
      → req.info_hash ≢ ""
      → req.peer_id ≢ ""
      → let (t', sent) = handle_announce range conn req t in
        length sent ≡ 1 + min (length req.offers) (size (inner req.info_hash t'.swarms) - 1)
  length-announce i v h k =
      let p = req.peer_id in
      let swarm = put p conn (inner req.info_hash t.swarms) in
      let u : IsUnique swarm =
        put-IsUnique p conn _ (inner-IsUnique req.info_hash t.swarms i.swarms) in
      rw (handle_announce_lem (valid_announce h k)) (
        rw (inner-register conn req.info_hash p t) (
          ground (
            arith,
            length-pair_off req (delete p (range swarm)) req.offers,
            size-delete p (range swarm) (v swarm u).once,
            (v swarm u).same p,
            (v swarm u).all,
            get-put p p conn (inner req.info_hash t.swarms),
            eq_refl p,
          )))

pub scrape_reply : ℕ → TrackerRequest → ℕ → Sent
scrape_reply conn req complete = record {
  conn = conn;
  response = record blank { action = "scrape"; info_hash = req.info_hash; complete = complete };
}

-- A scrape after an announce counts the announcer once more if it was not in the swarm, and as
-- before if it announced itself again.
scrape-announce :
    (range : GoMap ℕ → GoMap ℕ) (conn asker : ℕ) (req ask : TrackerRequest) (t : WebTorrentTracker)
    → req.info_hash ≢ ""
    → req.peer_id ≢ ""
    → ask.info_hash ≡ req.info_hash
    → let n = size (inner req.info_hash t.swarms) in
      handle_scrape asker ask (handle_announce range conn req t).0
      ≡ scrape_reply asker ask (if has_at req.info_hash req.peer_id t.swarms then n else n + 1) ∷ []
unfolding handle_scrape scrape_reply
scrape-announce range conn asker req ask t h k e =
    rw (e, handle_announce_lem range conn req t (valid_announce range conn req t h k))
      (rw (inner-register conn req.info_hash req.peer_id t)
        (ground (arith, e, size-put req.peer_id conn (inner req.info_hash t.swarms))))
