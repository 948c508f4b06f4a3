-- ===== src/Tracker/Identity.antt =====
-- A connection that speaks for two peers, and a peer for which two connections speak.
use p2pt_server.Prelude.{
  ℕ, String, true, false, ◌&&◌, ◌≡◌, ◌≢◌, refl, ap, ◌∙◌, [], ◌∷◌, arith, ◌==◌, eq_iff, eqb, eq_refl,
  ==_ne, if◌then◌else◌,
}
use p2pt_server.GoMap.{GoMap}
use p2pt_server.Tracker.{
  WebTorrentTracker, TrackerRequest, register, handle_announce, dispatch, received, closed, request,
  Server, step, run,
}
use p2pt_server.Tracker.Shape.{
  has_at, IsConsistent, has_at-register, has_at-remove_peer, step-IsConsistent,
}

-- A request that `handleAnnounce` accepts.
pub record IsAnnounce (req : TrackerRequest) : Type 0 where
  pub action : req.action ≡ "announce"
  pub info_hash : req.info_hash ≢ ""
  pub peer_id : req.peer_id ≢ ""

module _ (range : GoMap ℕ → GoMap ℕ) where
  dispatch-announce :
      (conn : ℕ) (current : String) (req : TrackerRequest) (t : WebTorrentTracker)
      → IsAnnounce req
      → (dispatch range conn current req t).0 ≡ register conn req.info_hash req.peer_id t
  unfolding dispatch handle_announce
  dispatch-announce conn current req t a = ground (
    arith,
    eq_iff req.action "announce",
    eq_iff req.info_hash "",
    eq_iff req.peer_id "",
    a.action,
  )

  -- What an announce does to the server.
  step_announce_has_at :
      (conn : ℕ) (req : TrackerRequest) (s : Server) (h p : String)
      → IsAnnounce req
      → has_at h p (step range (received conn (request req)) s).0.tracker.swarms
        ≡ (if (req.info_hash == h) && (req.peer_id == p) then true else has_at h p s.tracker.swarms)
  unfolding step
  step_announce_has_at conn req s h p a =
      ap (λ (t : WebTorrentTracker). has_at h p t.swarms) (dispatch-announce conn _ req s.tracker a)
      ∙ (has_at-register conn req.info_hash req.peer_id h p s.tracker).0

  step_announce_current :
      (conn : ℕ) (req : TrackerRequest) (s : Server) (c : ℕ)
      → IsAnnounce req
      → (step range (received conn (request req)) s).0.current c
        ≡ (if eqb c conn then req.peer_id else s.current c)
  unfolding step
  step_announce_current conn req s c a = rw (==_ne req.peer_id "" a.peer_id)

  step_closed_has_at :
      (conn : ℕ) (s : Server) (h p : String)
      → IsConsistent s.tracker
      → s.current conn ≢ ""
      → has_at h p (step range (closed conn) s).0.tracker.swarms
        ≡ (if s.current conn == p then false else has_at h p s.tracker.swarms)
  unfolding step
  step_closed_has_at conn s h p i n =
      rw (==_ne (s.current conn) "" n) ((has_at-remove_peer (s.current conn) h p s.tracker i).0)

  step_closed_current :
      (conn : ℕ) (s : Server) (c : ℕ)
      → (step range (closed conn) s).0.current c ≡ (if eqb c conn then "" else s.current c)
  unfolding step
  step_closed_current conn s c = refl

  module _ (conn : ℕ) (first second : TrackerRequest) (s : Server) where
    after_first : Server
    after_first = (step range (received conn (request first)) s).0

    after_second : Server
    unfolding after_first
    after_second = (step range (received conn (request second)) after_first).0

    -- A connection that announces one peer, then another, and ends leaves the first peer in its swarm:
    -- the peer is still listed there, though no connection speaks for it any more.
    left_behind :
        IsConsistent s.tracker
        → IsAnnounce first
        → IsAnnounce second
        → first.peer_id ≢ second.peer_id
        → ((c : ℕ) → s.current c ≢ first.peer_id)
        → let es =
            received conn (request first) ∷ received conn (request second) ∷ closed conn ∷ [] in
          let s' = (run range es s).0 in
          (has_at first.info_hash first.peer_id s'.tracker.swarms ≡ true)
          × ((c : ℕ) → s'.current c ≢ first.peer_id)
    unfolding run after_second
    left_behind i a b n alone = (
      ground (
        arith,
        step_closed_has_at conn after_second first.info_hash first.peer_id consistent known,
        step_announce_current conn second after_first conn b,
        step_announce_has_at conn second after_first first.info_hash first.peer_id b,
        step_announce_has_at conn first s first.info_hash first.peer_id a,
        eq_refl first.info_hash,
        eq_refl first.peer_id,
        eq_iff second.peer_id first.peer_id,
      ),
      λ c e. ground (
        arith,
        step_closed_current conn after_second c,
        step_announce_current conn second after_first c b,
        step_announce_current conn first s c a,
        alone c,
        a.peer_id,
      ),
    )
      where
        consistent : IsConsistent after_second.tracker
        consistent = step-IsConsistent range _ after_first (step-IsConsistent range _ s i)

        known : after_second.current conn ≢ ""
        known e = b.peer_id (ground (arith, step_announce_current conn second after_first conn b))

  -- A connection that announces a peer which another one speaks for, and ends, takes the peer out of
  -- every swarm, while the other connection goes on and still speaks for it.
  takes_along :
      (conn other : ℕ) (req : TrackerRequest) (s : Server) (h : String)
      → IsConsistent s.tracker
      → IsAnnounce req
      → conn ≢ other
      → s.current other ≡ req.peer_id
      → let s' = (run range (received conn (request req) ∷ closed conn ∷ []) s).0 in
        (has_at h req.peer_id s'.tracker.swarms ≡ false) × (s'.current other ≡ req.peer_id)
  unfolding run
  takes_along conn other req s h i a n same = (
    step_closed_has_at conn s1 h req.peer_id (step-IsConsistent range _ s i) known
        ∙ ground (arith, step_announce_current conn req s conn a, eq_refl req.peer_id),
    ground (arith, step_closed_current conn s1 other, step_announce_current conn req s other a),
  )
    where
      s1 : Server
      s1 = (step range (received conn (request req)) s).0

      known : s1.current conn ≢ ""
      known e = a.peer_id (ground (arith, step_announce_current conn req s conn a))
