-- ===== src/GitServer/Isolation.antt =====
-- Which requests for a repository are granted.
use p2pt_server.Prelude.{
  ℕ, String, true, false, ◌||◌, Option, some, List, ◌≡◌, ◌≢◌, inl, inr, arith, eq_iff, ==_ne,
  Option-cases,
}
use p2pt_server.Clock.{Time}
use p2pt_server.GoMap.{get}
use p2pt_server.GoText.{trim_space}
use p2pt_server.GitToken.{PeerClaim, hash_git_token}
use p2pt_server.Auth.{AuthManager}
use p2pt_server.GitServer.{GitServer, is_peer_revoked, is_marked}
use p2pt_server.GitServer.Access.{
  GitConfig, granted, valid_token, repo_namespace, is_admin, has_valid_session, is_appliance_user,
  check_claim, check_rest, check_trimmed, check_isolation, authenticate_request,
}

module _ (hmac_sha256 : String → String → List ℕ) (sha256 : String → List ℕ) where
  -- What a granted request had to show, with the name and the password trimmed: the namespace that is
  -- asked for is its own unless it knows the administrator's password, and a token must fit the claim.
  pub record Granted (cfg : GitConfig) (auth : Option AuthManager)
      (username password repo_name : String) (now : Time) (g : GitServer) : Type 0 where
    pub not_revoked : is_peer_revoked username g ≡ false
    pub shown :
        (valid_token hmac_sha256 cfg username password now
          || is_appliance_user cfg username password
          || is_admin auth password
          || has_valid_session auth password now)
        ≡ true
    pub fits :
        (c : PeerClaim)
        → get username g.claims ≡ some c
        → valid_token hmac_sha256 cfg username password now ≡ true
        → hash_git_token sha256 password ≡ c.token_hash
    pub own :
        repo_namespace repo_name ≢ ""
        → is_admin auth password ≡ false
        → username ≡ repo_namespace repo_name

  -- A request that is granted comes from a peer that is not revoked, shows a token, a password or a
  -- session that is valid, shows the token of the claim if it shows a token and there is a claim, and
  -- asks for a repository of its own if it asks for a namespace and without the administrator's
  -- password.
  pub authenticate_request-Granted :
      (cfg : GitConfig) (auth : Option AuthManager) (username password repo_name : String)
      (now : Time) (g : GitServer)
      → (authenticate_request hmac_sha256 sha256 cfg auth username password repo_name now g).1
        ≡ granted
      → Granted cfg auth (trim_space username) (trim_space password) repo_name now g
  unfolding authenticate_request check_trimmed check_rest check_claim check_isolation is_marked
  authenticate_request-Granted cfg auth username password repo_name now g h = record {
    not_revoked = ground arith;
    shown = elim (Option-cases (get (trim_space username) g.claims)) [
      | inl e ↦ ground (arith, e)
      | inr (c, e) ↦ ground (arith, e)
    ];
    fits = λ c e v.
        ground (arith, e, v, eq_iff (hash_git_token sha256 (trim_space password)) c.token_hash);
    own = λ n m. elim (Option-cases (get (trim_space username) g.claims)) [
      | inl e ↦
          ground (arith, e, m, ==_ne _ _ n, eq_iff (trim_space username) (repo_namespace repo_name))
      | inr (c, e) ↦
          ground (arith, e, m, ==_ne _ _ n, eq_iff (trim_space username) (repo_namespace repo_name))
    ];
  }
