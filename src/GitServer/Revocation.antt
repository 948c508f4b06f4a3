-- ===== src/GitServer/Revocation.antt =====
-- Who is revoked, and for how long.
use p2pt_server.Prelude.{String, Bool, true, ◌||◌, [], ◌∷◌, ◌≡◌, refl, arith, eq_iff}
use p2pt_server.Clock.{Time}
use p2pt_server.GoMap.{GoMap, get, has, put, IsUnique}
use p2pt_server.GoMap.Laws.{get-put}
use p2pt_server.GoText.{trim_space}
use p2pt_server.GitToken.{PeerClaim}
use p2pt_server.GitServer.{
  GitServer, is_peer_revoked, is_marked, marked, save_claims, load_claims, restart,
}
use p2pt_server.GitServer.{note_times, note_marks, revoked_map}

has-marked :
    (k : String) (now : Time) (m : GoMap PeerClaim)
    → IsUnique m
    → has k (marked now m) ≡ is_marked (get k m)
unfolding marked get is_marked
has-marked k now [] u = refl
has-marked k now ((p, c) ∷ m) u =
    ground (arith, eq_iff p k, has-marked k now m, get-put k p now (marked now m))

-- After a restart, those peers are revoked whose claims were marked as revoked when they were last
-- saved, and no others.
restart_revoked :
    (peer : String) (now : Time) (g : GitServer)
    → IsUnique g.claims
    → is_peer_revoked peer (restart now (save_claims g))
      ≡ is_marked (get (trim_space peer) g.claims)
unfolding is_peer_revoked restart load_claims save_claims
restart_revoked peer now g u = ground (arith, has-marked (trim_space peer) now g.claims)

get-note_times :
    (k : String) (m : GoMap Time) (l : GoMap Bool) → has k (note_times m l) ≡ (has k m || has k l)
unfolding note_times get
get-note_times k [] l = refl
get-note_times k ((p, t) ∷ m) l =
    ground (arith, get-note_times k m (put p true l), get-put k p true l, eq_iff p k)

get-note_marks :
    (k : String) (m : GoMap PeerClaim) (l : GoMap Bool)
    → IsUnique m
    → has k (note_marks m l) ≡ (is_marked (get k m) || has k l)
unfolding note_marks get is_marked
get-note_marks k [] l u = refl
get-note_marks k ((p, c) ∷ m) l u =
    ground (
      arith,
      get-note_marks k m (put p true l),
      get-note_marks k m l,
      get-put k p true l,
      eq_iff p k,
    )

-- The list of revoked peers that the dashboard shows holds a peer exactly if requests of that peer
-- are refused as revoked.
revoked_map-is_peer_revoked :
    (peer : String) (g : GitServer)
    → IsUnique g.claims
    → trim_space peer ≡ peer
    → has peer (revoked_map g) ≡ is_peer_revoked peer g
unfolding revoked_map is_peer_revoked get
revoked_map-is_peer_revoked peer g u t = ground (
  arith,
  t,
  get-note_marks peer g.claims (note_times g.revoked_peers []),
  get-note_times peer g.revoked_peers [],
)
