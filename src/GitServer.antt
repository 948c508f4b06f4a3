-- ===== src/GitServer.antt =====
-- git_server.go: who has claimed which peer's repositories, who is revoked, and what of it is on disk.
--
-- A claim's pointer stands in `claims` only, so that the map holds the values. `file` is what
-- `.git_claims.json` decodes to, or `none` if there is no such file; a write of it succeeds. The
-- Smart HTTP engine behind the checks is the package gitkit.
pub mod Access
pub mod Credentials
pub mod Admin
pub mod Isolation
pub mod Run
pub mod Claims
pub mod Revocation
pub mod Barred
pub mod Issued
pub mod Deletion
mod Examples
use p2pt_server.Prelude.{◌||◌, String, Bool, true, false, Option, none, some, [], ◌∷◌, map, List, ℕ}
use p2pt_server.Clock.{Time}
use p2pt_server.GoMap.{GoMap, get, has, put, delete}
use p2pt_server.GoText.{trim_space}
use p2pt_server.GitToken.{PeerClaim}
use p2pt_server.Auth.{AuthManager}

pub record GitServer : Type 0 where
  pub claims : GoMap PeerClaim
  pub revoked_peers : GoMap Time
  pub file : Option (GoMap PeerClaim)

-- The peers of the file that are marked as revoked.
unfoldable pub marked : Time → GoMap PeerClaim → GoMap Time
marked now [] = []
marked now ((peer, claim) ∷ m) =
    let rest = marked now m in elim claim.revoked [ true ↦ put peer now rest | false ↦ rest ]

unfoldable pub load_claims : Time → GitServer → GitServer
unfolding marked
load_claims now g = elim g.file [
  | none ↦ g
  | some loaded ↦ record g { claims = loaded; revoked_peers = marked now loaded }
]

-- A server that starts on the file that another one has left (`NewGitServer`).
pub restart : Time → GitServer → GitServer
restart now g = load_claims now (record { claims = []; revoked_peers = []; file = g.file })

pub save_claims : GitServer → GitServer
save_claims g = record g { file = some g.claims }

-- if c, ok := gs.claims[peer]; ok { c.Revoked = b }
pub mark : Bool → String → GitServer → GitServer
mark b peer g = elim (get peer g.claims) [
  | none ↦ g
  | some c ↦ record g { claims = put peer (record c { revoked = b }) g.claims }
]

pub revoke_peer : String → Time → GitServer → GitServer
revoke_peer peer_id now g =
    let clean = trim_space peer_id in
    save_claims (mark true clean (record g { revoked_peers = put clean now g.revoked_peers }))

pub unrevoke_peer : String → GitServer → GitServer
unrevoke_peer peer_id g =
    let clean = trim_space peer_id in
    save_claims (mark false clean (record g { revoked_peers = delete clean g.revoked_peers }))

pub unlock_peer_claim : String → GitServer → GitServer
unlock_peer_claim peer_id g =
    save_claims (record g { claims = delete (trim_space peer_id) g.claims })

pub is_marked : Option PeerClaim → Bool
is_marked none = false
is_marked (some c) = c.revoked

pub is_peer_revoked : String → GitServer → Bool
is_peer_revoked peer_id g =
    let clean = trim_space peer_id in is_marked (get clean g.claims) || has clean g.revoked_peers

pub get_peer_claim : String → GitServer → Option PeerClaim
get_peer_claim peer_id g = get (trim_space peer_id) g.claims

-- for p := range gs.revokedPeers { revokedMap[p] = true }
unfoldable pub note_times : GoMap Time → GoMap Bool → GoMap Bool
note_times [] l = l
note_times ((p, t) ∷ m) l = note_times m (put p true l)

-- for p, c := range gs.claims { if c.Revoked { revokedMap[p] = true } }
unfoldable pub note_marks : GoMap PeerClaim → GoMap Bool → GoMap Bool
note_marks [] l = l
note_marks ((p, c) ∷ m) l = note_marks m (elim c.revoked [ true ↦ put p true l | false ↦ l ])

-- GetRevokedPeers: the keys of the result are the list that it returns.
pub revoked_map : GitServer → GoMap Bool
revoked_map g = note_marks g.claims (note_times g.revoked_peers [])

pub get_revoked_peers : GitServer → List String
get_revoked_peers g = map (λ (e : String × Bool). e.0) (revoked_map g)
