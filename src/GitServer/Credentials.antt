-- ===== src/GitServer/Credentials.antt =====
-- git_server.go: `HandleGitCredentials`, which gives a peer its token, and locks the peer's name to
-- the device that asked first.
--
-- An int is an int64. `now` is the reading of the clock for the expiry, `later` that for the claim.
use Prim.Native.String.{◌++◌}
use p2pt_server.Prelude.{
  ℕ, ◌-◌, ◌+◌, ◌*◌, ◌/◌, ◌^◌, String, Bool, false, not, ◌&&◌, Option, none, some, List, ◌==◌, eqb,
  leb, if◌then◌else◌,
}
use p2pt_server.Clock.{Time, second, seconds, add_duration}
use p2pt_server.GoMap.{put}
use p2pt_server.GoText.{ℤ, pos, negsuc, trim_space, parse_int, format_int, strip_lower?, has_suffix}
use p2pt_server.Net.{extract_ip}
use p2pt_server.GitToken.{PeerClaim, generate_git_token, hash_git_token}
use p2pt_server.Auth.{AuthManager, Request, is_authenticated, get_client_ip}
use p2pt_server.GitServer.{GitServer, is_peer_revoked, get_peer_claim, save_claims}
use p2pt_server.GitServer.Access.{GitConfig, token_secret}

-- A request for credentials: the query, where a missing field is empty, and the JSON body, if it
-- decodes.
pub record CredentialsRequest : Type 0 where
  pub http : Request
  pub peer_id : String
  pub user : String
  pub token : String
  pub ttl : String
  pub body : Option (String × String)

-- The name in the body.
unfoldable pub body_peer : Option (String × String) → String
body_peer none = ""
body_peer (some (peer_id, user)) =
    if peer_id == "" then (if user == "" then "" else trim_space user) else trim_space peer_id

unfoldable pub requested_peer : CredentialsRequest → String
unfolding body_peer
requested_peer r =
    let by_id = trim_space r.peer_id in
    let by_user = trim_space r.user in
    let named = if by_id == "" then by_user else by_id in
    if named == "" && r.http.method == "POST" then body_peer r.body else named

bearer_token : Option String → String
bearer_token none = ""
bearer_token (some token) = trim_space token

unfoldable pub provided_token : CredentialsRequest → String
unfolding bearer_token
provided_token r =
    let given = trim_space r.token in
    if given == "" then bearer_token (strip_lower? "bearer " r.http.authorization) else given

abbrev pub default_ttl : ℕ
default_ttl = 30 * 24 * 3600

positive_or_default : Option ℤ → ℕ
positive_or_default (some (pos n)) = if eqb n 0 then default_ttl else n
positive_or_default _ = default_ttl

-- The seconds that the token is to live.
unfoldable pub ttl_seconds : String → ℕ
unfolding positive_or_default
ttl_seconds s = if s == "" then default_ttl else positive_or_default (parse_int s)

-- expiry.Unix()
unfoldable pub to_unix : Time → ℤ
to_unix t =
    let s = t / second in
    let epoch = 2 ^ 63 + 62135596800 in
    if leb epoch s then pos (s - epoch) else negsuc (epoch - s - 1)

unfoldable pub repo_name : GitConfig → String
repo_name cfg =
    let name = if cfg.git_repo == "" then "routes" else cfg.git_repo in
    if has_suffix ".git" name then name else name ++ ".git"

-- "%s://%s:%d/git/%s/%s"
unfoldable pub repo_url : GitConfig → String → String
repo_url cfg peer_id =
    (if cfg.enable_tls then "https" else "http")
    ++ ("://"
        ++ (cfg.public_ip
            ++ (":"
                ++ (format_int (pos cfg.http_port)
                    ++ ("/git/" ++ (peer_id ++ ("/" ++ repo_name cfg)))))))

-- gs.authMgr != nil && gs.authMgr.IsAuthenticated(r)
unfoldable pub is_admin_request : Option AuthManager → Request → Time → Bool
is_admin_request none r now = false
is_admin_request (some a) r now = is_authenticated r now a

-- The reply that hands out a token.
pub record Credentials : Type 0 where
  pub url : String
  pub username : String
  pub token : String
  pub repo : String
  pub expires_at : ℤ
  pub ttl : ℕ

pub data CredentialsReply : Type 0 where
  preflight_ok : CredentialsReply
  peer_required : CredentialsReply
  forbidden : CredentialsReply
  already_claimed : CredentialsReply
  issued : Credentials → CredentialsReply

module _ (hmac_sha256 : String → String → List ℕ) (sha256 : String → List ℕ) where
  -- Whether the name is claimed, and the request comes neither from the administrator nor with the
  -- token of the claim.
  unfoldable pub is_locked :
      CredentialsRequest → Option AuthManager → Time → Option PeerClaim → Bool
  is_locked r auth now none = false
  is_locked r auth now (some claim) =
      let admin = is_admin_request auth r.http now in
      let provided = provided_token r in
      let owner = not (provided == "") && hash_git_token sha256 provided == claim.token_hash in
      not (claim.token_hash == "") && not admin && not owner

  unfoldable pub client_address : CredentialsRequest → Option AuthManager → String
  client_address r none = extract_ip r.http.remote_addr
  client_address r (some a) = get_client_ip r.http

  -- The claim that is registered.
  unfoldable pub new_claim :
      Option AuthManager → CredentialsRequest → String → String → Time → Time → PeerClaim
  new_claim auth r peer_id token expiry later = record {
    peer_id = peer_id;
    token_hash = hash_git_token sha256 token;
    claimed_at = later;
    expires_at = expiry;
    client_ip = client_address r auth;
    last_used = later;
    revoked = false;
  }

  -- `nonce` holds the random bytes of the token.
  unfoldable pub issue :
      GitConfig
      → Option AuthManager
      → CredentialsRequest
      → String
      → Time
      → Time
      → List ℕ
      → GitServer
      → GitServer × CredentialsReply
  issue cfg auth r peer_id now later nonce g =
      let ttl = ttl_seconds r.ttl in
      let expiry = add_duration now (seconds ttl) in
      let token =
        generate_git_token hmac_sha256 (token_secret cfg) peer_id (to_unix expiry) nonce in
      (
        save_claims (record g {
          claims = put peer_id (new_claim auth r peer_id token expiry later) g.claims;
        }),
        issued (record {
          url = repo_url cfg peer_id;
          username = peer_id;
          token = token;
          repo = repo_name cfg;
          expires_at = to_unix expiry;
          ttl = ttl;
        }),
      )

  unfoldable pub handle_git_credentials :
      GitConfig
      → Option AuthManager
      → CredentialsRequest
      → Time
      → Time
      → List ℕ
      → GitServer
      → GitServer × CredentialsReply
  handle_git_credentials cfg auth r now later nonce g =
      let peer_id = requested_peer r in
      if r.http.method == "OPTIONS"
      then (g, preflight_ok)
      else if peer_id == ""
      then (g, peer_required)
      else if is_peer_revoked peer_id g
      then (g, forbidden)
      else if is_locked r auth now (get_peer_claim peer_id g)
      then (g, already_claimed)
      else issue cfg auth r peer_id now later nonce g
