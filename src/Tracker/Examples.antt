-- ===== src/Tracker/Examples.antt =====
-- The tracker at work: three connections, two topics, and the theorems at these inputs.
use p2pt_server.Prelude.{ℕ, String, ◌≡◌, ◌≢◌, refl, none, some, List, [], ◌∷◌, arith, eq_iff}
use p2pt_server.GoMap.{GoMap, get, delete, size, Visits}
use p2pt_server.GoMap.Laws.{Visits-refl}
use p2pt_server.Tracker.{
  TrackerRequest, TrackerOffer, Server, Event, received, closed, malformed, request, start, run,
  handle_announce, inner,
}
use p2pt_server.Tracker.Shape.{IsConsistent, run-IsConsistent}
use p2pt_server.Tracker.Signals.{announce_reply, pair_off, announce_offers}
use p2pt_server.Tracker.Identity.{IsAnnounce}

abbrev in_order : GoMap ℕ → GoMap ℕ
in_order m = m

abbrev offer : String → TrackerOffer
offer s = record { offer_id = s; offer = "sdp" }

abbrev announce : String → List TrackerOffer → TrackerRequest
announce p os = record {
  action = "announce";
  info_hash = "h";
  peer_id = p;
  offers = os;
  answer = none;
  to_peer_id = "";
  offer_id = "";
}

abbrev history : List Event
history =
    received 1 (request (announce "ana" []))
    ∷ received 2 (request (announce "bea" []))
    ∷ received 3 malformed
    ∷ []

abbrev later : Server
later = (run in_order history start).0

abbrev goodbye : List Event
goodbye = received 1 (request (announce "ana" [])) ∷ closed 1 ∷ []

announce-IsAnnounce : (p : String) → p ≢ "" → IsAnnounce (announce p [])
announce-IsAnnounce p n = record {
  action = refl;
  info_hash = λ e. ground (arith, eq_iff "h" "");
  peer_id = n;
}

ana_named : ◌≢◌ {A = String} "ana" ""
ana_named = ground (arith, eq_iff "ana" "")

cyd_named : ◌≢◌ {A = String} "cyd" ""
cyd_named = ground (arith, eq_iff "cyd" "")

h_named : ◌≢◌ {A = String} "h" ""
h_named = ground (arith, eq_iff "h" "")

run-IsConsistent_example : IsConsistent (run in_order history start).0.tracker
run-IsConsistent_example = run-IsConsistent in_order history

announce_offers_example :
    let req = announce "cyd" (offer "o1" ∷ []) in
    let swarm = inner "h" (handle_announce in_order 3 req later.tracker).0.swarms in
    (others : GoMap ℕ) × Visits others (delete "cyd" swarm)
    × (get "cyd" swarm ≡ some 3)
    × ((handle_announce in_order 3 req later.tracker).1
        ≡ announce_reply 3 req (size swarm) ∷ pair_off req others (offer "o1" ∷ []))
announce_offers_example =
    announce_offers in_order 3 (announce "cyd" (offer "o1" ∷ [])) later.tracker
      (run-IsConsistent in_order history) Visits-refl h_named cyd_named
