-- ===== src/GitServer/Admin.antt =====
-- git_server.go: what the administrator does to a peer: revoke, restore, unlock, and delete. The
-- routes stand behind `RequireAuth` (main.go).
--
-- `DeleteRepo` removes one directory; what the system answers to it is an argument. For a name
-- without a separator the path below `rootDir` is that name, so that `filepath.Rel` returns it.
use p2pt_server.Prelude.{
  String, Bool, true, false, ◌||◌, Option, none, some, ◌==◌, is_some, if◌then◌else◌,
}
use p2pt_server.Clock.{Time}
use p2pt_server.GoMap.{delete}
use p2pt_server.GoText.{trim_space, strip_prefix?, has_char}
use p2pt_server.GitServer.{GitServer, save_claims, revoke_peer, unrevoke_peer, unlock_peer_claim}

pub data AdminReply : Type 0 where
  post_required : AdminReply
  peer_id_required : AdminReply
  done : String → AdminReply
  failed : AdminReply

-- What the four handlers share: a POST whose JSON body names a peer.
unfoldable pub admin_post :
    String
    → Option String
    → (String → GitServer → GitServer × AdminReply)
    → GitServer
    → GitServer × AdminReply
admin_post method body act g =
    if method == "POST"
    then (elim body [
      | none ↦ (g, peer_id_required)
      | some peer ↦ if trim_space peer == "" then (g, peer_id_required) else act (trim_space peer) g
    ])
    else (g, post_required)

unfoldable pub handle_revoke_peer :
    String → Option String → Time → GitServer → GitServer × AdminReply
handle_revoke_peer method body now =
    admin_post method body (λ peer g. (revoke_peer peer now g, done peer))

unfoldable pub handle_unrevoke_peer : String → Option String → GitServer → GitServer × AdminReply
handle_unrevoke_peer method body =
    admin_post method body (λ peer g. (unrevoke_peer peer g, done peer))

unfoldable pub handle_unlock_peer : String → Option String → GitServer → GitServer × AdminReply
handle_unlock_peer method body =
    admin_post method body (λ peer g. (unlock_peer_claim peer g, done peer))

-- What the disk answers: there is no such directory, it is removed, or it cannot be removed.
pub data Removal : Type 0 where
  absent : Removal
  removed : Removal
  not_removed : Removal

-- A name that could lead out of the directory of repositories.
unfoldable pub is_bad_namespace : String → Bool
is_bad_namespace ns = ns == "" || ns == "." || ns == ".." || has_char "/" ns || has_char "\\" ns

-- strings.HasPrefix(rel, "..") || rel == "."
unfoldable pub is_outside : String → Bool
is_outside rel = is_some (strip_prefix? ".." rel) || rel == "."

unfoldable pub forget : String → GitServer → GitServer
forget ns g =
    save_claims
      (record g { claims = delete ns g.claims; revoked_peers = delete ns g.revoked_peers })

-- The second result says whether it succeeds.
unfoldable pub delete_repo : (String → Removal) → String → GitServer → GitServer × Bool
delete_repo disk namespace g =
    let ns = trim_space namespace in
    if is_bad_namespace ns || is_outside ns then (g, false) else (elim (disk ns) [
      | not_removed ↦ (g, false)
      | absent ↦ (forget ns g, true)
      | removed ↦ (forget ns g, true)
    ])

-- The reply to a deletion.
deleted : String → GitServer × Bool → GitServer × AdminReply
deleted peer (g, true) = (g, done peer)
deleted peer (g, false) = (g, failed)

unfoldable pub handle_delete_repo :
    (String → Removal) → String → Option String → GitServer → GitServer × AdminReply
unfolding deleted
handle_delete_repo disk method body =
    admin_post method body (λ peer g. deleted peer (delete_repo disk peer g))
