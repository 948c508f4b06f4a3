-- ===== src/GitServer/Issued.antt =====
-- The credentials that are handed out open the repositories of their peer.
use p2pt_server.Prelude.{
  ℕ, String, true, false, Option, some, List, ◌==◌, ◌≡◌, ◌≢◌, refl, ap, sym, ◌∙◌, arith, eq_iff,
  eq_refl, ==_ne, if_cases,
}
use p2pt_server.Clock.{Time}
use p2pt_server.GoMap.{get}
use p2pt_server.GoMap.Laws.{get-put}
use p2pt_server.GoText.{trim_space}
use p2pt_server.GitToken.{PeerClaim, hash_git_token}
use p2pt_server.Auth.{AuthManager}
use p2pt_server.GitServer.{GitServer, is_peer_revoked, is_marked, save_claims, get_peer_claim}
use p2pt_server.GitServer.Access.{
  GitConfig, check_claim, check_rest, check_trimmed, authenticate_request,
}
use p2pt_server.GitServer.Credentials.{
  CredentialsRequest, requested_peer, is_locked, issue, handle_git_credentials, CredentialsReply,
}
use p2pt_server.GitServer.Run.{requested_peer-trimmed}
use p2pt_server.Prelude.{◌+◌, ◌*◌, ◌^◌, ◌≤◌, ◌<◌, ◌/◌, ◌-◌}
use p2pt_server.Clock.{second, seconds, add_duration, unix_epoch, unix_seconds}
use p2pt_server.GoText.{pos}
use p2pt_server.GitToken.{generate_git_token}
use p2pt_server.GitToken.Binding.{validate-generate}
use p2pt_server.GitToken.Shape.{token-trimmed, token-ne-nil}
use p2pt_server.GitServer.Access.{
  granted, valid_token, token_secret, repo_namespace, check_isolation,
}
use p2pt_server.GitServer.Credentials.{issued, new_claim, to_unix, ttl_seconds, Credentials}

abbrev lifetime : CredentialsRequest → ℕ
lifetime r = ttl_seconds r.ttl * second

-- The expiry of the token in seconds since 1970.
abbrev pub expires : CredentialsRequest → Time → ℕ
expires r now = (now + lifetime r) / second - unix_epoch

-- The clock is past 1970 and short of the end of an int64, and the lifetime that is asked for does not
-- overflow.
pub record IsSane (r : CredentialsRequest) (now : Time) : Type 0 where
  pub past_epoch : unix_epoch * second ≤ now
  pub not_late : now < 2 ^ 64 * second
  pub short : ttl_seconds r.ttl ≤ 9223372036

to_unix-expiry :
    (r : CredentialsRequest) (now : Time)
    → IsSane r now
    → to_unix (add_duration now (seconds (ttl_seconds r.ttl))) ≡ pos (expires r now)
unfolding to_unix
to_unix-expiry r now s = ground (arith, s.past_epoch, s.short)

expires_small : (r : CredentialsRequest) (now : Time) → IsSane r now → expires r now < 2 ^ 63
expires_small r now s = omega (arith, s.not_late, s.short)

module _ (hmac_sha256 : String → String → List ℕ) (sha256 : String → List ℕ) where
  -- A request with the token of the peer's claim is granted.
  owner_granted :
      (cfg : GitConfig) (auth : Option AuthManager) (username password repo : String) (t : Time)
      (c : PeerClaim) (g : GitServer)
      → trim_space username ≡ username
      → trim_space password ≡ password
      → username ≢ ""
      → password ≢ ""
      → is_peer_revoked username g ≡ false
      → get username g.claims ≡ some c
      → c.revoked ≡ false
      → c.token_hash ≡ hash_git_token sha256 password
      → valid_token hmac_sha256 cfg username password t ≡ true
      → repo_namespace repo ≡ username
      → (authenticate_request hmac_sha256 sha256 cfg auth username password repo t g).1 ≡ granted
  unfolding authenticate_request check_trimmed check_rest check_claim check_isolation
  owner_granted cfg auth username password repo t c g tu tp nu np free e nr hashed valid own =
      ground (
        arith,
        tu,
        tp,
        ==_ne _ _ nu,
        ==_ne _ _ np,
        free,
        e,
        nr,
        valid,
        own,
        eq_iff (hash_git_token sha256 password) c.token_hash,
        eq_refl username,
      )

module _ (hmac_sha256 : String → String → List ℕ) (sha256 : String → List ℕ) (cfg : GitConfig)
    (auth : Option AuthManager) (r : CredentialsRequest) (peer : String) (now later : Time)
    (nonce : List ℕ) (g : GitServer) where
  abbrev token : String
  token = generate_git_token hmac_sha256 (token_secret cfg) peer (pos (expires r now)) nonce

  abbrev left : GitServer
  left = (issue hmac_sha256 sha256 cfg auth r peer now later nonce g).0

  abbrev claim : PeerClaim
  claim =
      new_claim hmac_sha256 sha256 auth r peer token
        (add_duration now (seconds (ttl_seconds r.ttl))) later

  claim_stands : IsSane r now → get peer left.claims ≡ some claim
  unfolding issue save_claims
  claim_stands s =
      rw (to_unix-expiry r now s) (rw (get-put peer peer claim g.claims, eq_refl peer) refl)

  left_free :
      IsSane r now
      → trim_space peer ≡ peer
      → is_peer_revoked peer g ≡ false
      → is_peer_revoked peer left ≡ false
  unfolding is_peer_revoked issue save_claims is_marked new_claim
  left_free s t free =
      let unmarked : is_marked (get peer left.claims) ≡ false = ap is_marked (claim_stands s) in
      let same : left.revoked_peers ≡ g.revoked_peers = refl in
      ground (arith, t, free, unmarked, same)

  issue-grants :
      (auth' : Option AuthManager) (repo : String) (t : Time)
      → IsSane r now
      → trim_space peer ≡ peer
      → peer ≢ ""
      → token_secret cfg ≢ ""
      → is_peer_revoked peer g ≡ false
      → unix_seconds t ≤ expires r now
      → repo_namespace repo ≡ peer
      → (authenticate_request hmac_sha256 sha256 cfg auth' peer token repo t left).1 ≡ granted
  unfolding new_claim valid_token
  issue-grants auth' repo t s tp np ns free early own =
      owner_granted hmac_sha256 sha256 cfg auth' peer token repo t claim left tp
        (token-trimmed hmac_sha256 (token_secret cfg) peer (expires r now) nonce) np
        (token-ne-nil hmac_sha256 (token_secret cfg) peer (expires r now) nonce)
        (left_free s tp free) (claim_stands s) refl refl
        (validate-generate hmac_sha256 (token_secret cfg) (expires r now) (unix_seconds t) peer
            nonce ns np (expires_small r now s)
          ∙ ground (arith, early))
        own

module _ (hmac_sha256 : String → String → List ℕ) (sha256 : String → List ℕ) (cfg : GitConfig)
    (auth : Option AuthManager) (r : CredentialsRequest) (now later : Time) (nonce : List ℕ)
    (g : GitServer) where
  handle-issues :
      (c : Credentials)
      → (handle_git_credentials hmac_sha256 sha256 cfg auth r now later nonce g).1 ≡ issued c
      → (requested_peer r ≢ "")
        × (is_peer_revoked (requested_peer r) g ≡ false)
        × (handle_git_credentials hmac_sha256 sha256 cfg auth r now later nonce g
            ≡ issue hmac_sha256 sha256 cfg auth r (requested_peer r) now later nonce g)
  unfolding handle_git_credentials
  handle-issues c =
      if_cases P (r.http.method == "OPTIONS") (λ _ h. absurd (cc h))
        (λ _.
          if_cases P (requested_peer r == "") (λ _ h. absurd (cc h))
            (λ named.
              if_cases P (is_peer_revoked (requested_peer r) g) (λ _ h. absurd (cc h))
                (λ free.
                  if_cases P
                    (is_locked hmac_sha256 sha256 r auth now (get_peer_claim (requested_peer r) g))
                    (λ _ h. absurd (cc h))
                    (λ _ h. (ground (arith, named, eq_iff (requested_peer r) ""), free, refl)))))
    where
      P : GitServer × CredentialsReply → Type 0
      P x =
          x.1 ≡ issued c
          → (requested_peer r ≢ "")
            × (is_peer_revoked (requested_peer r) g ≡ false)
            × (x ≡ issue hmac_sha256 sha256 cfg auth r (requested_peer r) now later nonce g)

  issue-reply :
      (c : Credentials)
      → IsSane r now
      → (issue hmac_sha256 sha256 cfg auth r (requested_peer r) now later nonce g).1 ≡ issued c
      → (c.username ≡ requested_peer r)
        × (c.token
            ≡ generate_git_token hmac_sha256
                (token_secret cfg)
                (requested_peer r)
                (pos (expires r now))
                nonce)
  unfolding issue
  issue-reply c s h = (cc h, cc (h, to_unix-expiry r now s))

  -- Credentials that are handed out open the repositories in the peer's namespace until the token
  -- expires, the lifetime that was asked for after it was issued: the key of the tokens must be set, and the
  -- clock and the lifetime must be sane.
  pub credentials_open :
      (c : Credentials) (auth' : Option AuthManager) (repo : String) (t : Time)
      → (handle_git_credentials hmac_sha256 sha256 cfg auth r now later nonce g).1 ≡ issued c
      → IsSane r now
      → token_secret cfg ≢ ""
      → unix_seconds t ≤ expires r now
      → repo_namespace repo ≡ c.username
      → (authenticate_request hmac_sha256 sha256 cfg auth' c.username c.token repo t
          (handle_git_credentials hmac_sha256 sha256 cfg auth r now later nonce g).0).1
        ≡ granted
  credentials_open c auth' repo t h s ns early own =
      let (named, free, same) = handle-issues c h in
      let (name, token) =
        issue-reply c s (ap (λ (x : GitServer × CredentialsReply). x.1) (sym same) ∙ h) in
      rw (same, name, token)
        (issue-grants hmac_sha256 sha256 cfg auth r (requested_peer r) now later nonce g auth' repo
          t s (requested_peer-trimmed r) named ns free early (own ∙ name))
