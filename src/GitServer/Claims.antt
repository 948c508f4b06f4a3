-- ===== src/GitServer/Claims.antt =====
-- What becomes of a claim over a run of the server.
use p2pt_server.Prelude.{
  ℕ, String, true, false, Option, none, some, List, [], ◌∷◌, ◌==◌, ◌≡◌, ◌≢◌, inl, inr, refl, ap,
  ◌∙◌, arith, eq_iff, ==_ne, Option-cases, Bool-cases, if_cases,
}
use p2pt_server.Clock.{Time}
use p2pt_server.GoMap.{get}
use p2pt_server.GoMap.Laws.{get-put, get-put_other, get-delete}
use p2pt_server.GoText.{trim_space}
use p2pt_server.GitToken.{PeerClaim, hash_git_token}
use p2pt_server.Auth.{AuthManager}
use p2pt_server.GitServer.{
  GitServer, is_peer_revoked, mark, save_claims, load_claims, restart, revoke_peer, unrevoke_peer,
  unlock_peer_claim, get_peer_claim,
}
use p2pt_server.GitServer.Access.{
  GitConfig, check_claim, check_rest, check_trimmed, authenticate_request,
}
use p2pt_server.GitServer.Credentials.{
  CredentialsRequest, requested_peer, provided_token, is_admin_request, is_locked, issue,
  handle_git_credentials, CredentialsReply,
}
use p2pt_server.GitServer.Run.{
  Op, revoke, unrevoke, unlock, remove, ask, access, reboot, perform, perform_all,
  requested_peer-trimmed,
}
use p2pt_server.GitServer.Admin.{Removal, forget, delete_repo}

module _ (hmac_sha256 : String → String → List ℕ) (sha256 : String → List ℕ) (cfg : GitConfig) where
  -- What leaves a claim alone: nobody unlocks or deletes the peer, and who asks for its credentials is
  -- neither the administrator nor has the token.
  unfoldable pub Spares : String → String → Op → Type 0
  Spares peer hash (unlock q) = trim_space q ≢ peer
  Spares peer hash (remove disk q) = trim_space q ≢ peer
  Spares peer hash (ask auth r now later nonce) =
      requested_peer r ≡ peer
      → (is_admin_request auth r.http now ≡ false)
        × (hash_git_token sha256 (provided_token r) ≢ hash)
  Spares peer hash _ = Unit

  unfoldable pub AllSpare : String → String → List Op → Type 0
  AllSpare peer hash [] = Unit
  AllSpare peer hash (o ∷ ops) = Spares peer hash o × AllSpare peer hash ops

abbrev hash_of : Option PeerClaim → Option String
hash_of none = none
hash_of (some c) = some c.token_hash

-- The peer is claimed with a token of that hash, in memory and on disk.
pub record Held (peer hash : String) (g : GitServer) : Type 0 where
  pub stands : hash_of (get peer g.claims) ≡ some hash
  pub synced : g.file ≡ some g.claims

revoke-Held :
    (peer hash q : String) (now : Time) (g : GitServer)
    → Held peer hash g
    → Held peer hash (revoke_peer q now g)
unfolding revoke_peer mark save_claims
revoke-Held peer hash q now g h = elim (Option-cases (get (trim_space q) g.claims)) [
  | inl e ↦ record { stands = ground (arith, e, h.stands); synced = ground (arith, e) }
  | inr (c, e) ↦ record {
    stands = ground (
      arith,
      e,
      h.stands,
      get-put peer (trim_space q) (record c { revoked = true }) g.claims,
      eq_iff (trim_space q) peer,
    );
    synced = ground (arith, e);
  }
]

unrevoke-Held :
    (peer hash q : String) (g : GitServer) → Held peer hash g → Held peer hash (unrevoke_peer q g)
unfolding unrevoke_peer mark save_claims
unrevoke-Held peer hash q g h = elim (Option-cases (get (trim_space q) g.claims)) [
  | inl e ↦ record { stands = ground (arith, e, h.stands); synced = ground (arith, e) }
  | inr (c, e) ↦ record {
    stands = ground (
      arith,
      e,
      h.stands,
      get-put peer (trim_space q) (record c { revoked = false }) g.claims,
      eq_iff (trim_space q) peer,
    );
    synced = ground (arith, e);
  }
]

unlock-Held :
    (peer hash q : String) (g : GitServer)
    → trim_space q ≢ peer
    → Held peer hash g
    → Held peer hash (unlock_peer_claim q g)
unfolding unlock_peer_claim save_claims
unlock-Held peer hash q g n h = record {
  stands = ground (arith, h.stands, ==_ne _ _ n, get-delete peer (trim_space q) g.claims);
  synced = refl;
}

delete-Held :
    (peer hash : String) (disk : String → Removal) (q : String) (g : GitServer)
    → trim_space q ≢ peer
    → Held peer hash g
    → Held peer hash (delete_repo disk q g).0
unfolding delete_repo forget save_claims
delete-Held peer hash disk q g n h = record {
  stands = ground (arith, h.stands, ==_ne _ _ n, get-delete peer (trim_space q) g.claims);
  synced = ground (arith, h.synced);
}

restart-Held :
    (peer hash : String) (now : Time) (g : GitServer)
    → Held peer hash g
    → Held peer hash (restart now g)
unfolding restart load_claims
restart-Held peer hash now g h = record {
  stands = ground (arith, h.stands, h.synced);
  synced = ground (arith, h.synced);
}

module _ (hmac_sha256 : String → String → List ℕ) (sha256 : String → List ℕ) (cfg : GitConfig) where
  access-Held :
      (peer hash : String) (auth : Option AuthManager) (username password repo : String)
      (now : Time) (g : GitServer)
      → Held peer hash g
      → Held peer hash
          (authenticate_request hmac_sha256 sha256 cfg auth username password repo now g).0
  unfolding authenticate_request check_trimmed check_rest check_claim save_claims
  access-Held peer hash auth username password repo now g h =
      elim (Option-cases (get (trim_space username) g.claims)) [
        | inl e ↦ record {
          stands = ground (arith, e, h.stands);
          synced = ground (arith, e, h.synced);
        }
        | inr (c, e) ↦ record {
          stands = ground (
            arith,
            e,
            h.stands,
            get-put peer (trim_space username) (record c { last_used = now }) g.claims,
            eq_iff (trim_space username) peer,
          );
          synced = ground (arith, e, h.synced);
        }
      ]

  foreign_locked :
      (hash : String) (auth : Option AuthManager) (r : CredentialsRequest) (now : Time)
      (o : Option PeerClaim)
      → hash ≢ ""
      → hash_of o ≡ some hash
      → is_admin_request auth r.http now ≡ false
      → hash_git_token sha256 (provided_token r) ≢ hash
      → is_locked hmac_sha256 sha256 r auth now o ≡ true
  unfolding is_locked
  foreign_locked hash auth r now none n e a f = absurd (ground arith)
  foreign_locked hash auth r now (some c) n e a f = ground (
    arith,
    a,
    eq_iff c.token_hash "",
    eq_iff (hash_git_token sha256 (provided_token r)) c.token_hash,
  )

  -- A claimed name is not given to a stranger.
  ask_foreign :
      (peer hash : String) (auth : Option AuthManager) (r : CredentialsRequest) (now later : Time)
      (nonce : List ℕ) (g : GitServer)
      → hash ≢ ""
      → requested_peer r ≡ peer
      → is_admin_request auth r.http now ≡ false
      → hash_git_token sha256 (provided_token r) ≢ hash
      → Held peer hash g
      → (handle_git_credentials hmac_sha256 sha256 cfg auth r now later nonce g).0 ≡ g
  unfolding handle_git_credentials get_peer_claim
  ask_foreign peer hash auth r now later nonce g n e a f h = ground (
    arith,
    requested_peer-trimmed r,
    h.stands,
    foreign_locked hash auth r now (get peer g.claims) n h.stands a f,
  )

  issue-Held :
      (peer hash q : String) (auth : Option AuthManager) (r : CredentialsRequest) (now later : Time)
      (nonce : List ℕ) (g : GitServer)
      → q ≢ peer
      → Held peer hash g
      → Held peer hash (issue hmac_sha256 sha256 cfg auth r q now later nonce g).0
  unfolding issue save_claims
  issue-Held peer hash q auth r now later nonce g n h = record {
    stands = ap hash_of (get-put_other peer q _ g.claims n) ∙ h.stands;
    synced = refl;
  }

  ask_other :
      (peer hash : String) (auth : Option AuthManager) (r : CredentialsRequest) (now later : Time)
      (nonce : List ℕ) (g : GitServer)
      → requested_peer r ≢ peer
      → Held peer hash g
      → Held peer hash (handle_git_credentials hmac_sha256 sha256 cfg auth r now later nonce g).0
  unfolding handle_git_credentials
  ask_other peer hash auth r now later nonce g n h =
      if_cases P (r.http.method == "OPTIONS") (λ _. h)
        (λ _.
          if_cases P (requested_peer r == "") (λ _. h)
            (λ _.
              if_cases P (is_peer_revoked (requested_peer r) g) (λ _. h)
                (λ _.
                  if_cases P
                    (is_locked hmac_sha256 sha256 r auth now (get_peer_claim (requested_peer r) g))
                    (λ _. h)
                    (λ _. issue-Held peer hash (requested_peer r) auth r now later nonce g n h))))
    where
      P : GitServer × CredentialsReply → Type 0
      P x = Held peer hash x.0

  ask-Held :
      (peer hash : String) (auth : Option AuthManager) (r : CredentialsRequest) (now later : Time)
      (nonce : List ℕ) (g : GitServer)
      → hash ≢ ""
      → Spares hmac_sha256 sha256 cfg peer hash (ask auth r now later nonce)
      → Held peer hash g
      → Held peer hash (handle_git_credentials hmac_sha256 sha256 cfg auth r now later nonce g).0
  unfolding Spares
  ask-Held peer hash auth r now later nonce g n s h = elim (Bool-cases (requested_peer r == peer)) [
    | inl e ↦
        let q : requested_peer r ≡ peer = ground (arith, e, eq_iff (requested_peer r) peer) in
        let same : (handle_git_credentials hmac_sha256 sha256 cfg auth r now later nonce g).0 ≡ g =
          ask_foreign peer hash auth r now later nonce g n q (s q).0 (s q).1 h in
        rw same h
    | inr e ↦
        ask_other peer hash auth r now later nonce g
          (ground (arith, e, eq_iff (requested_peer r) peer)) h
  ]

  perform-Held :
      (peer hash : String) (o : Op) (g : GitServer)
      → hash ≢ ""
      → Spares hmac_sha256 sha256 cfg peer hash o
      → Held peer hash g
      → Held peer hash (perform hmac_sha256 sha256 cfg o g)
  unfolding perform Spares
  perform-Held peer hash (revoke q now) g n s h = revoke-Held peer hash q now g h
  perform-Held peer hash (unrevoke q) g n s h = unrevoke-Held peer hash q g h
  perform-Held peer hash (unlock q) g n s h = unlock-Held peer hash q g s h
  perform-Held peer hash (remove disk q) g n s h = delete-Held peer hash disk q g s h
  perform-Held peer hash (ask auth r now later nonce) g n s h =
      ask-Held peer hash auth r now later nonce g n s h
  perform-Held peer hash (access auth username password repo now) g n s h =
      access-Held peer hash auth username password repo now g h
  perform-Held peer hash (reboot now) g n s h = restart-Held peer hash now g h

  -- A claim stands as long as nobody unlocks or deletes the peer: whatever else happens, restarts
  -- included, the token of the claim stays the one that is asked for, unless credentials are asked for
  -- with that token or by the administrator.
  pub perform_all-Held :
      (peer hash : String) (ops : List Op) (g : GitServer)
      → hash ≢ ""
      → AllSpare hmac_sha256 sha256 cfg peer hash ops
      → Held peer hash g
      → Held peer hash (perform_all hmac_sha256 sha256 cfg ops g)
  unfolding perform_all AllSpare
  perform_all-Held peer hash [] g n s h = h
  perform_all-Held peer hash (o ∷ ops) g n s h =
      perform_all-Held peer hash ops (perform hmac_sha256 sha256 cfg o g) n s.1
        (perform-Held peer hash o g n s.0 h)
