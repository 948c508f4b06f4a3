-- ===== src/Tracker/Shape.antt =====
-- The two maps of the tracker tell the same story: who is in which swarm.
use p2pt_server.Prelude.{
  ℕ, String, Bool, true, false, ◌&&◌, ◌||◌, some, ◌≡◌, ◌≢◌, refl, ◌∙◌, List, [], ◌∷◌, arith, ◌==◌,
  eq_iff, eqb, inl, inr, Bool-cases, Option-cases, if_cases, if◌then◌else◌,
}
use p2pt_server.GoMap.{GoMap, get, has, put, delete, size, IsUnique}
use p2pt_server.GoMap.Laws.{get-put, get-delete, get_empty, put-IsUnique, delete-IsUnique}
use p2pt_server.Tracker.{
  WebTorrentTracker, TrackerRequest, Sent, inner, register, leave_swarm, leave_all, remove_peer,
  handle_announce, dispatch, Event, received, closed, malformed, request, Server, start, step, run,
}

-- `b` is a key of the map at `a`.
abbrev pub has_at {ℓ} : {V : Type ℓ} → String → String → GoMap (GoMap V) → Bool
has_at a b m = has b (inner a m)

-- Each inner map has its keys once, and the outer map has no empty one.
pub record IsTidy {ℓ} {V : Type ℓ} (m : GoMap (GoMap V)) : Type ℓ where
  pub once : IsUnique m
  pub each : (a : String) (s : GoMap V) → get a m ≡ some s → IsUnique s × (s ≢ [])

pub record IsConsistent (t : WebTorrentTracker) : Type 0 where
  pub swarms : IsTidy t.swarms
  pub peers : IsTidy t.peers
  pub linked : (h p : String) → has_at h p t.swarms ≡ has_at p h t.peers

module _ {ℓ} {V : Type ℓ} where
  put-ne-nil : (k : String) (v : V) (m : GoMap V) → put k v m ≢ []
  unfolding put
  put-ne-nil k v [] h = cc
  put-ne-nil k v ((j, w) ∷ m) h = ground arith

  pub inner-IsUnique : (a : String) (m : GoMap (GoMap V)) → IsTidy m → IsUnique (inner a m)
  inner-IsUnique a m t = elim (Option-cases (get a m)) [
    | inl e ↦ rw e tt
    | inr (s, e) ↦ rw e (t.each a s e).0
  ]

  put-IsTidy :
      (a : String) (s : GoMap V) (m : GoMap (GoMap V))
      → IsTidy m
      → IsUnique s
      → s ≢ []
      → IsTidy (put a s m)
  put-IsTidy a s m t u n = record {
    once = put-IsUnique a s m t.once;
    each = λ b r e. pick b r (get-put b a s m) e;
  }
    where
      pick :
          (b : String) (r : GoMap V)
          → get b (put a s m) ≡ (if a == b then some s else get b m)
          → get b (put a s m) ≡ some r
          → IsUnique r × (r ≢ [])
      pick b r law e = elim (Bool-cases (a == b)) [
        | inl y ↦ let e' : s ≡ r = ground arith in rw (← e') (u, n)
        | inr y ↦ t.each b r (ground arith)
      ]

  delete-IsTidy : (a : String) (m : GoMap (GoMap V)) → IsTidy m → IsTidy (delete a m)
  delete-IsTidy a m t = record {
    once = delete-IsUnique a m t.once;
    each = λ b r e. t.each b r (ground (arith, get-delete b a m));
  }

  pub has_at-put :
      (a b c d : String) (v : V) (m : GoMap (GoMap V))
      → has_at c d (put a (put b v (inner a m)) m)
        ≡ (if (a == c) && (b == d) then true else has_at c d m)
  has_at-put a b c d v m =
      ground (arith, eq_iff a c, get-put c a (put b v (inner a m)) m, get-put d b v (inner a m))

  has_at-delete :
      (a c d : String) (m : GoMap (GoMap V))
      → has_at c d (delete a m) ≡ (if a == c then false else has_at c d m)
  unfolding get
  has_at-delete a c d m = ground (arith, get-delete c a m)

  nil_of_size : (m : GoMap V) → eqb (size m) 0 ≡ true → m ≡ []
  nil_of_size [] h = refl
  nil_of_size (x ∷ m) h = ground arith

  ne-nil_of_size : (m : GoMap V) → eqb (size m) 0 ≡ false → m ≢ []
  ne-nil_of_size m h e = ground arith

has_at-leave_swarm :
    (p h c d : String) (m : GoMap (GoMap ℕ))
    → has_at c d (leave_swarm p h m) ≡ (if (h == c) && (p == d) then false else has_at c d m)
unfolding leave_swarm get
has_at-leave_swarm p h c d m = elim (Option-cases (get h m)) [
  | inl e ↦ rw (e, leave_swarm) (ground (arith, eq_iff h c))
  | inr (swarm, e) ↦
      rw (e, leave_swarm)
        (elim (Bool-cases (eqb (size (delete p swarm)) 0)) [
          | inl y ↦ rw y (
              ground (
                arith,
                eq_iff h c,
                get-delete c h m,
                get-delete d p swarm,
                get_empty d (delete p swarm),
              ))
          | inr n ↦
              rw n
                (ground (arith, eq_iff h c, get-put c h (delete p swarm) m, get-delete d p swarm))
        ])
]

leave_swarm-IsTidy : (p h : String) (m : GoMap (GoMap ℕ)) → IsTidy m → IsTidy (leave_swarm p h m)
unfolding leave_swarm
leave_swarm-IsTidy p h m t = elim (Option-cases (get h m)) [
  | inl e ↦ rw (e, leave_swarm) t
  | inr (swarm, e) ↦
      rw (e, leave_swarm)
        (elim (Bool-cases (eqb (size (delete p swarm)) 0)) [
          | inl y ↦ rw y (delete-IsTidy h m t)
          | inr n ↦ rw n (
              put-IsTidy h (delete p swarm) m t (delete-IsUnique p swarm (t.each h swarm e).0)
                (ne-nil_of_size (delete p swarm) n))
        ])
]

has_at-leave_all :
    (p : String) (hs : GoMap Bool) (c d : String) (m : GoMap (GoMap ℕ))
    → has_at c d (leave_all p hs m) ≡ (if (p == d) && has c hs then false else has_at c d m)
unfolding leave_all get
has_at-leave_all p [] c d m = ground arith
has_at-leave_all p ((h, b) ∷ hs) c d m =
    has_at-leave_all p hs c d (leave_swarm p h m) ∙ ground (arith, has_at-leave_swarm p h c d m)

leave_all-IsTidy :
    (p : String) (hs : GoMap Bool) (m : GoMap (GoMap ℕ)) → IsTidy m → IsTidy (leave_all p hs m)
unfolding leave_all
leave_all-IsTidy p [] m t = t
leave_all-IsTidy p ((h, b) ∷ hs) m t =
    leave_all-IsTidy p hs (leave_swarm p h m) (leave_swarm-IsTidy p h m t)

-- `register` enters one peer in one swarm, in both maps.
pub has_at-register :
    (conn : ℕ) (h p c d : String) (t : WebTorrentTracker)
    → let t' = register conn h p t in
      (has_at c d t'.swarms ≡ (if (h == c) && (p == d) then true else has_at c d t.swarms))
      × (has_at d c t'.peers ≡ (if (p == d) && (h == c) then true else has_at d c t.peers))
unfolding register
has_at-register conn h p c d t = (has_at-put h p c d conn t.swarms, has_at-put p h d c true t.peers)

register-IsConsistent :
    (conn : ℕ) (h p : String) (t : WebTorrentTracker)
    → IsConsistent t
    → IsConsistent (register conn h p t)
unfolding register
register-IsConsistent conn h p t i = record {
  swarms =
      put-IsTidy h _ t.swarms i.swarms (put-IsUnique p conn _ (inner-IsUnique h t.swarms i.swarms))
        (put-ne-nil p conn _);
  peers =
      put-IsTidy p _ t.peers i.peers (put-IsUnique h true _ (inner-IsUnique p t.peers i.peers))
        (put-ne-nil h true _);
  linked = λ c d.
      ground
        (arith, has_at-put h p c d conn t.swarms, has_at-put p h d c true t.peers, i.linked c d);
}

-- `removePeer` takes its peer out of every swarm, and nobody else out of any.
pub has_at-remove_peer :
    (p c d : String) (t : WebTorrentTracker)
    → IsConsistent t
    → let t' = remove_peer p t in
      (has_at c d t'.swarms ≡ (if p == d then false else has_at c d t.swarms))
      × (has_at d c t'.peers ≡ (if p == d then false else has_at d c t.peers))
unfolding remove_peer get
has_at-remove_peer p c d t i = elim (Option-cases (get p t.peers)) [
  | inl e ↦
      rw (e, remove_peer) (ground (arith, eq_iff p d, i.linked c d), ground (arith, eq_iff p d))
  | inr (hs, e) ↦
      rw (e, remove_peer)
        (
          has_at-leave_all p hs c d t.swarms ∙ ground (arith, eq_iff p d, i.linked c d),
          has_at-delete p d c t.peers,
        )
]

remove_peer-IsTidy :
    (p : String) (t : WebTorrentTracker)
    → IsConsistent t
    → IsTidy (remove_peer p t).swarms × IsTidy (remove_peer p t).peers
unfolding remove_peer
remove_peer-IsTidy p t i = elim (Option-cases (get p t.peers)) [
  | inl e ↦ rw (e, remove_peer) (i.swarms, i.peers)
  | inr (hs, e) ↦
      rw (e, remove_peer) (leave_all-IsTidy p hs t.swarms i.swarms, delete-IsTidy p t.peers i.peers)
]

remove_peer-IsConsistent :
    (p : String) (t : WebTorrentTracker) → IsConsistent t → IsConsistent (remove_peer p t)
remove_peer-IsConsistent p t i = record {
  swarms = (remove_peer-IsTidy p t i).0;
  peers = (remove_peer-IsTidy p t i).1;
  linked = λ c d. ground (arith, has_at-remove_peer p c d t i, i.linked c d);
}

module _ (range : GoMap ℕ → GoMap ℕ) where
  handle_announce-IsConsistent :
      (conn : ℕ) (req : TrackerRequest) (t : WebTorrentTracker)
      → IsConsistent t
      → IsConsistent (handle_announce range conn req t).0
  unfolding handle_announce
  handle_announce-IsConsistent conn req t i =
      elim (Bool-cases (req.info_hash == "" || req.peer_id == "")) [
        | inl y ↦ rw (y, handle_announce) i
        | inr n ↦ rw (n, handle_announce) (register-IsConsistent conn req.info_hash req.peer_id t i)
      ]

  dispatch-IsConsistent :
      (conn : ℕ) (current : String) (req : TrackerRequest) (t : WebTorrentTracker)
      → IsConsistent t
      → IsConsistent (dispatch range conn current req t).0
  unfolding dispatch
  dispatch-IsConsistent conn current req t i =
      if_cases (λ (r : WebTorrentTracker × List Sent). IsConsistent r.0) (req.action == "announce")
        (λ _. handle_announce-IsConsistent conn req t i)
        (λ _.
          if_cases (λ (r : WebTorrentTracker × List Sent). IsConsistent r.0)
            (req.action == "scrape") (λ _. i)
            (λ _.
              if_cases (λ (r : WebTorrentTracker × List Sent). IsConsistent r.0)
                (req.to_peer_id == "") (λ _. i) (λ _. i)))

  -- Every event keeps the two maps of the tracker in step.
  pub step-IsConsistent :
      (e : Event) (s : Server) → IsConsistent s.tracker → IsConsistent (step range e s).0.tracker
  unfolding step
  step-IsConsistent (received conn malformed) s i = i
  step-IsConsistent (received conn (request req)) s i = dispatch-IsConsistent conn _ req s.tracker i
  step-IsConsistent (closed conn) s i = elim (Bool-cases (s.current conn == "")) [
    | inl y ↦ rw y i
    | inr n ↦ rw n (remove_peer-IsConsistent (s.current conn) s.tracker i)
  ]

  pub run_from-IsConsistent :
      (es : List Event) (s : Server)
      → IsConsistent s.tracker
      → IsConsistent (run range es s).0.tracker
  unfolding run
  run_from-IsConsistent [] s i = i
  run_from-IsConsistent (e ∷ es) s i =
      run_from-IsConsistent es (step range e s).0 (step-IsConsistent e s i)

  pub start-IsConsistent : IsConsistent start.tracker
  unfolding start get
  start-IsConsistent = record {
    swarms = record { once = tt; each = λ a s e. cc };
    peers = record { once = tt; each = λ a s e. cc };
    linked = λ h p. refl;
  }

  -- Whatever the connections do, in any order: a peer is in the swarm of an info-hash exactly if the
  -- info-hash is noted for the peer, no key stands twice in a map, and no swarm or note is empty.
  pub run-IsConsistent : (es : List Event) → IsConsistent (run range es start).0.tracker
  run-IsConsistent es = run_from-IsConsistent es start start-IsConsistent
