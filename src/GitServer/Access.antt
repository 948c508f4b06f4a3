-- ===== src/GitServer/Access.antt =====
-- git_server.go: `authenticateRequest`, which the Smart HTTP engine asks about each request, and the
-- routing in front of it (`ServeHTTP`).
--
-- One reading of the clock serves the expiry of the token, the time of use and the session. Of the
-- engine's request the name of the repository is read; `ensureRepoConfig`, which runs `git config` in
-- the background, is left out.
use p2pt_server.Prelude.{
  ℕ, String, Bool, false, not, ◌&&◌, ◌||◌, Option, none, some, List, ◌∷◌, ◌==◌, get_or,
  if◌then◌else◌,
}
use p2pt_server.Clock.{Time, unix_seconds}
use p2pt_server.GoMap.{get, put}
use p2pt_server.GoText.{trim_space, trim_char, split, strip_prefix?}
use p2pt_server.GitToken.{validate_git_token, hash_git_token}
use p2pt_server.Auth.{AuthManager, validate_password, is_live}
use p2pt_server.GitServer.{GitServer, is_peer_revoked, save_claims}

-- What the Git server reads of `Config`; an int stands for the port.
pub record GitConfig : Type 0 where
  pub username : String
  pub password : String
  pub auth_secret : String
  pub git_repo : String
  pub enable_tls : Bool
  pub public_ip : String
  pub http_port : ℕ

-- The key of the tokens.
unfoldable pub token_secret : GitConfig → String
token_secret cfg = if cfg.auth_secret == "" then cfg.password else cfg.auth_secret

-- parts[0], if len(parts) > 1
first_of_many : List String → String
first_of_many (p ∷ q ∷ l) = p
first_of_many _ = ""

-- The first segment of "peer/routes.git"; none is in "routes.git".
unfoldable pub repo_namespace : String → String
unfolding first_of_many
repo_namespace repo_name = first_of_many (split "/" (trim_char "/" repo_name))

-- The three ways in that are not a token of the peer's own.
unfoldable pub is_admin : Option AuthManager → String → Bool
is_admin none password = false
is_admin (some a) password = validate_password password a

unfoldable pub has_valid_session : Option AuthManager → String → Time → Bool
has_valid_session none password now = false
has_valid_session (some a) password now = is_live (get password a.sessions) now

unfoldable pub is_appliance_user : GitConfig → String → String → Bool
is_appliance_user cfg username password = username == cfg.username && password == cfg.password

-- What `authenticateRequest` returns: `true`, or the error.
pub data Verdict : Type 0 where
  empty_credentials : Verdict
  peer_revoked : Verdict
  stale_token : Verdict
  invalid_credentials : Verdict
  other_namespace : Verdict
  granted : Verdict

-- The last two checks: somebody is authenticated, and the repository is in their namespace.
unfoldable pub check_isolation : Bool → Bool → String → String → Verdict
check_isolation authenticated admin username namespace =
    if authenticated
    then (if not (namespace == "") && not admin && not (username == namespace)
        then other_namespace
        else granted)
    else invalid_credentials

module _ (hmac_sha256 : String → String → List ℕ) where
  unfoldable pub valid_token : GitConfig → String → String → Time → Bool
  valid_token cfg username password now =
      validate_git_token hmac_sha256 (token_secret cfg) username password (unix_seconds now)

unfoldable pub check_rest :
    GitConfig
    → Option AuthManager
    → String
    → String
    → String
    → Time
    → Bool
    → GitServer × Option Verdict
    → GitServer × Verdict
check_rest cfg auth username password repo_name now valid (g, some v) = (g, v)
check_rest cfg auth username password repo_name now valid (g, none) =
    let admin = is_admin auth password in
    (
      g,
      check_isolation
          (valid
            || is_appliance_user cfg username password
            || admin
            || has_valid_session auth password now)
          admin username (repo_namespace repo_name),
    )

module _ (sha256 : String → List ℕ) where
  -- Of a token with a valid signature: it must be the one of the peer's claim, if there is a claim.
  unfoldable pub check_claim : String → String → Time → GitServer → GitServer × Option Verdict
  check_claim username password now g = elim (get username g.claims) [
    | none ↦ (g, none)
    | some claim ↦
        if claim.revoked
        then (g, some peer_revoked)
        else if hash_git_token sha256 password == claim.token_hash
        then (
          save_claims
              (record g { claims = put username (record claim { last_used = now }) g.claims }),
          none,
        )
        else (g, some stale_token)
  ]

module _ (hmac_sha256 : String → String → List ℕ) (sha256 : String → List ℕ) where
  unfoldable pub check_trimmed :
      GitConfig
      → Option AuthManager
      → String
      → String
      → String
      → Time
      → GitServer
      → GitServer × Verdict
  unfolding check_rest
  check_trimmed cfg auth username password repo_name now g =
      if username == "" || password == ""
      then (g, empty_credentials)
      else if is_peer_revoked username g
      then (g, peer_revoked)
      else (let valid = valid_token hmac_sha256 cfg username password now in
          check_rest cfg auth username password repo_name now valid
            (if valid then check_claim sha256 username password now g else (g, none)))

  unfoldable pub authenticate_request :
      GitConfig
      → Option AuthManager
      → String
      → String
      → String
      → Time
      → GitServer
      → GitServer × Verdict
  authenticate_request cfg auth cred_username cred_password repo_name now g =
      check_trimmed cfg auth (trim_space cred_username) (trim_space cred_password) repo_name now g

-- What `ServeHTTP` does with a request.
pub data GitRoute : Type 0 where
  preflight : GitRoute
  no_repository : GitRoute
  -- the path that the engine sees
  to_gitkit : String → GitRoute

unfoldable pub serve_http : String → String → GitRoute
serve_http method path =
    if method == "OPTIONS"
    then preflight
    else (let sub_path = get_or path (strip_prefix? "/git" path) in
        if sub_path == "" || sub_path == "/" then no_repository else to_gitkit sub_path)
