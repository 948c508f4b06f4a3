-- ===== src/GitServer/Run.antt =====
-- Runs of the Git server: one operation after the other, restarts included.
use p2pt_server.Prelude.{ℕ, String, Option, none, some, List, [], ◌∷◌, ◌==◌, ◌≡◌, refl, if_cases}
use p2pt_server.Clock.{Time}
use p2pt_server.GoText.{trim_space}
use p2pt_server.GoText.Trim.{trim_space-trim_space}
use p2pt_server.Auth.{AuthManager}
use p2pt_server.GitServer.{GitServer, restart, revoke_peer, unrevoke_peer, unlock_peer_claim}
use p2pt_server.GitServer.Access.{GitConfig, authenticate_request}
use p2pt_server.GitServer.Credentials.{
  CredentialsRequest, requested_peer, body_peer, handle_git_credentials,
}
use p2pt_server.GitServer.Admin.{Removal, delete_repo}

-- What can happen to the server.
pub data Op : Type 0 where
  revoke : String → Time → Op
  unrevoke : String → Op
  unlock : String → Op
  remove : (String → Removal) → String → Op
  ask : Option AuthManager → CredentialsRequest → Time → Time → List ℕ → Op
  access : Option AuthManager → String → String → String → Time → Op
  reboot : Time → Op

body_peer-trimmed : (b : Option (String × String)) → trim_space (body_peer b) ≡ body_peer b
unfolding body_peer trim_space
body_peer-trimmed none = refl
body_peer-trimmed (some (peer_id, user)) =
    if_cases P (peer_id == "")
      (λ _. if_cases P (user == "") (λ _. refl) (λ _. trim_space-trim_space user))
      (λ _. trim_space-trim_space peer_id)
  where
    P : String → Type 0
    P s = trim_space s ≡ s

pub requested_peer-trimmed :
    (r : CredentialsRequest) → trim_space (requested_peer r) ≡ requested_peer r
unfolding requested_peer
requested_peer-trimmed r =
    if_cases (λ (s : String). trim_space s ≡ s) _ (λ _. body_peer-trimmed r.body)
      (λ _.
        if_cases (λ (s : String). trim_space s ≡ s) (trim_space r.peer_id == "")
          (λ _. trim_space-trim_space r.user) (λ _. trim_space-trim_space r.peer_id))

module _ (hmac_sha256 : String → String → List ℕ) (sha256 : String → List ℕ) (cfg : GitConfig) where
  unfoldable pub perform : Op → GitServer → GitServer
  perform (revoke peer now) g = revoke_peer peer now g
  perform (unrevoke peer) g = unrevoke_peer peer g
  perform (unlock peer) g = unlock_peer_claim peer g
  perform (remove disk peer) g = (delete_repo disk peer g).0
  perform (ask auth r now later nonce) g =
      (handle_git_credentials hmac_sha256 sha256 cfg auth r now later nonce g).0
  perform (access auth username password repo now) g =
      (authenticate_request hmac_sha256 sha256 cfg auth username password repo now g).0
  perform (reboot now) g = restart now g

  unfoldable pub perform_all : List Op → GitServer → GitServer
  perform_all [] g = g
  perform_all (o ∷ ops) g = perform_all ops (perform o g)
