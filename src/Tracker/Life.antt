-- ===== src/Tracker/Life.antt =====
-- How long a peer stays in a swarm: from an announce to the end of its connection.
use p2pt_server.Prelude.{
  ℕ, String, Bool, true, false, ◌||◌, ◌&&◌, Option, none, some, ◌≡◌, ◌≢◌, refl, ap, ◌∙◌, List, [],
  ◌∷◌, arith, ◌==◌, ==_ne, inl, inr, Bool-cases, if_cases, if◌then◌else◌,
}
use p2pt_server.GoMap.{GoMap, get, size}
use p2pt_server.GoMap.Laws.{empty_of_get}
use p2pt_server.Tracker.{
  WebTorrentTracker, TrackerRequest, Sent, swarm_count, handle_announce, dispatch, Event, received,
  closed, malformed, request, Server, start, step, run,
}
use p2pt_server.Tracker.Shape.{
  has_at, IsConsistent, has_at-register, has_at-remove_peer, step-IsConsistent, run-IsConsistent,
  start-IsConsistent,
}

-- The end of a connection takes the peer that it spoke for out of every swarm, changes no other
-- peer's place, and sends nothing.
closed_leaves :
    (range : GoMap ℕ → GoMap ℕ) (conn : ℕ) (s : Server) (h q : String)
    → IsConsistent s.tracker
    → s.current conn ≢ ""
    → let (s', sent) = step range (closed conn) s in
      (has_at h q s'.tracker.swarms
        ≡ (if s.current conn == q then false else has_at h q s.tracker.swarms))
      × (sent ≡ [])
unfolding step
closed_leaves range conn s h q i n =
    rw (==_ne (s.current conn) "" n) ((has_at-remove_peer (s.current conn) h q s.tracker i).0, refl)

-- Some connection announced the peer `p` for the info-hash `h`.
abbrev announces : String → String → Event → Bool
announces h p (received conn malformed) = false
announces h p (received conn (request req)) =
    req.action == "announce" && (req.info_hash == h && req.peer_id == p)
announces h p (closed conn) = false

abbrev pub ever_announced : String → String → List Event → Bool
ever_announced h p [] = false
ever_announced h p (e ∷ es) = announces h p e || ever_announced h p es

module _ (range : GoMap ℕ → GoMap ℕ) (h p : String) where
  handle_announce_keeps :
      (conn : ℕ) (req : TrackerRequest) (t : WebTorrentTracker)
      → (req.info_hash == h && req.peer_id == p) ≡ false
      → has_at h p t.swarms ≡ false
      → has_at h p (handle_announce range conn req t).0.swarms ≡ false
  unfolding handle_announce
  handle_announce_keeps conn req t n a =
      if_cases (λ (r : WebTorrentTracker × List Sent). has_at h p r.0.swarms ≡ false)
        (req.info_hash == "" || req.peer_id == "") (λ _. a)
        (λ _. (has_at-register conn req.info_hash req.peer_id h p t).0 ∙ ground arith)

  dispatch_keeps :
      (conn : ℕ) (current : String) (req : TrackerRequest) (t : WebTorrentTracker)
      → announces h p (received conn (request req)) ≡ false
      → has_at h p t.swarms ≡ false
      → has_at h p (dispatch range conn current req t).0.swarms ≡ false
  unfolding dispatch
  dispatch_keeps conn current req t n a =
      let P = λ (r : WebTorrentTracker × List Sent). has_at h p r.0.swarms ≡ false in
      if_cases P (req.action == "announce") (λ y. handle_announce_keeps conn req t (ground arith) a)
        (λ _.
          if_cases P (req.action == "scrape") (λ _. a)
            (λ _. if_cases P (req.to_peer_id == "") (λ _. a) (λ _. a)))

  step_keeps :
      (e : Event) (s : Server)
      → IsConsistent s.tracker
      → announces h p e ≡ false
      → has_at h p s.tracker.swarms ≡ false
      → has_at h p (step range e s).0.tracker.swarms ≡ false
  unfolding step
  step_keeps (received conn malformed) s i n a = a
  step_keeps (received conn (request req)) s i n a = dispatch_keeps conn _ req s.tracker n a
  step_keeps (closed conn) s i n a =
      if_cases (λ (t : WebTorrentTracker). has_at h p t.swarms ≡ false) (s.current conn == "")
        (λ _. a) (λ _. (has_at-remove_peer (s.current conn) h p s.tracker i).0 ∙ ground arith)

  run_from_keeps :
      (es : List Event) (s : Server)
      → IsConsistent s.tracker
      → ever_announced h p es ≡ false
      → has_at h p s.tracker.swarms ≡ false
      → has_at h p (run range es s).0.tracker.swarms ≡ false
  unfolding run
  run_from_keeps [] s i n a = a
  run_from_keeps (e ∷ es) s i n a =
      run_from_keeps es (step range e s).0 (step-IsConsistent range e s i) (ground arith)
        (step_keeps e s i (ground arith) a)

  -- No peer is in a swarm for which nobody has announced it.
  present_needs_announce :
      (es : List Event)
      → has_at h p (run range es start).0.tracker.swarms ≡ true
      → ever_announced h p es ≡ true
  unfolding start get
  present_needs_announce es y = elim (Bool-cases (ever_announced h p es)) [
    | inl e ↦ e
    | inr n ↦ cc (y, run_from_keeps es start (start-IsConsistent range) n refl)
  ]

-- When no peer is in any swarm, the tracker holds no swarm at all: `SwarmCount` goes back to 0.
swarm_count-empty :
    (range : GoMap ℕ → GoMap ℕ) (es : List Event)
    → let t = (run range es start).0.tracker in
      ((h p : String) → has_at h p t.swarms ≡ false) → swarm_count t ≡ 0
unfolding swarm_count
swarm_count-empty range es none_there =
    ap (λ (m : GoMap (GoMap ℕ)). size m)
      (empty_of_get t.swarms (λ h. no_swarm h (get h t.swarms) refl))
  where
    t : WebTorrentTracker
    t = (run range es start).0.tracker

    no_swarm : (h : String) (o : Option (GoMap ℕ)) → get h t.swarms ≡ o → o ≡ none
    no_swarm h none e = refl
    no_swarm h (some s) e = absurd (
        ((run-IsConsistent range es).swarms.each h s e).1
          (empty_of_get s (λ p. ground (arith, none_there h p, e))))
