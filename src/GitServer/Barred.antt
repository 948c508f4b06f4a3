-- ===== src/GitServer/Barred.antt =====
-- How long a revocation lasts.
use p2pt_server.Prelude.{
  ℕ, String, true, false, Option, some, List, [], ◌∷◌, ◌==◌, ◌≡◌, ◌≢◌, inl, inr, refl, ap, sym, ◌∙◌,
  arith, eq_iff, eq_refl, ==_ne, Option-cases, if_cases,
}
use p2pt_server.Clock.{Time}
use p2pt_server.GoMap.{get}
use p2pt_server.GoMap.Laws.{get-put, get-put_other, get-delete}
use p2pt_server.GoText.{trim_space}
use p2pt_server.GoText.Trim.{trim_space-trim_space}
use p2pt_server.GitToken.{PeerClaim}
use p2pt_server.Auth.{AuthManager}
use p2pt_server.GitServer.{
  GitServer, is_peer_revoked, is_marked, mark, save_claims, load_claims, restart, revoke_peer,
  unrevoke_peer, unlock_peer_claim, get_peer_claim,
}
use p2pt_server.GitServer.Access.{
  GitConfig, check_claim, check_rest, check_trimmed, authenticate_request,
}
use p2pt_server.GitServer.Credentials.{
  CredentialsRequest, requested_peer, is_locked, issue, handle_git_credentials, CredentialsReply,
}
use p2pt_server.GitServer.Run.{
  Op, revoke, unrevoke, unlock, remove, ask, access, reboot, perform, perform_all,
}
use p2pt_server.GitServer.Admin.{Removal, forget, delete_repo}
use p2pt_server.GitServer.Isolation.{authenticate_request-Granted}
use p2pt_server.GitServer.Access.{granted}

-- The claim of the peer is marked as revoked, in memory and on disk.
pub record Barred (peer : String) (g : GitServer) : Type 0 where
  pub barred : is_marked (get peer g.claims) ≡ true
  pub synced : g.file ≡ some g.claims

revoke-Barred :
    (peer q : String) (now : Time) (g : GitServer)
    → Barred peer g
    → Barred peer (revoke_peer q now g)
unfolding revoke_peer mark save_claims is_marked
revoke-Barred peer q now g h = elim (Option-cases (get (trim_space q) g.claims)) [
  | inl e ↦ record { barred = ground (arith, e, h.barred); synced = ground (arith, e) }
  | inr (c, e) ↦ record {
    barred = ground (
      arith,
      e,
      h.barred,
      get-put peer (trim_space q) (record c { revoked = true }) g.claims,
      eq_iff (trim_space q) peer,
    );
    synced = ground (arith, e);
  }
]

-- A revocation marks the claim, if there is one.
revoke-starts :
    (peer : String) (now : Time) (c : PeerClaim) (g : GitServer)
    → trim_space peer ≡ peer
    → get peer g.claims ≡ some c
    → Barred peer (revoke_peer peer now g)
unfolding revoke_peer mark save_claims is_marked
revoke-starts peer now c g t e = record {
  barred =
      ground (arith, e, t, get-put peer peer (record c { revoked = true }) g.claims, eq_refl peer);
  synced = ground (arith, e, t);
}

unrevoke-Barred :
    (peer q : String) (g : GitServer)
    → trim_space q ≢ peer
    → Barred peer g
    → Barred peer (unrevoke_peer q g)
unfolding unrevoke_peer mark save_claims is_marked
unrevoke-Barred peer q g n h = elim (Option-cases (get (trim_space q) g.claims)) [
  | inl e ↦ record { barred = ground (arith, e, h.barred); synced = ground (arith, e) }
  | inr (c, e) ↦ record {
    barred = ground (
      arith,
      e,
      h.barred,
      get-put_other peer (trim_space q) (record c { revoked = false }) g.claims n,
    );
    synced = ground (arith, e);
  }
]

unlock-Barred :
    (peer q : String) (g : GitServer)
    → trim_space q ≢ peer
    → Barred peer g
    → Barred peer (unlock_peer_claim q g)
unfolding unlock_peer_claim save_claims is_marked
unlock-Barred peer q g n h = record {
  barred = ground (arith, h.barred, ==_ne _ _ n, get-delete peer (trim_space q) g.claims);
  synced = refl;
}

delete-Barred :
    (peer : String) (disk : String → Removal) (q : String) (g : GitServer)
    → trim_space q ≢ peer
    → Barred peer g
    → Barred peer (delete_repo disk q g).0
unfolding delete_repo forget save_claims is_marked
delete-Barred peer disk q g n h = record {
  barred = ground (arith, h.barred, ==_ne _ _ n, get-delete peer (trim_space q) g.claims);
  synced = ground (arith, h.synced);
}

restart-Barred :
    (peer : String) (now : Time) (g : GitServer) → Barred peer g → Barred peer (restart now g)
unfolding restart load_claims is_marked
restart-Barred peer now g h = record {
  barred = ground (arith, h.barred, h.synced);
  synced = ground (arith, h.synced);
}

Barred-revoked :
    (peer : String) (g : GitServer)
    → trim_space peer ≡ peer
    → Barred peer g
    → is_peer_revoked peer g ≡ true
unfolding is_peer_revoked
Barred-revoked peer g t h = ground (arith, t, h.barred)

-- What leaves a revocation alone: nobody restores, unlocks or deletes the peer.
unfoldable pub Keeps : String → Op → Type 0
Keeps peer (unrevoke q) = trim_space q ≢ peer
Keeps peer (unlock q) = trim_space q ≢ peer
Keeps peer (remove disk q) = trim_space q ≢ peer
Keeps peer _ = Unit

unfoldable pub AllKeep : String → List Op → Type 0
AllKeep peer [] = Unit
AllKeep peer (o ∷ ops) = Keeps peer o × AllKeep peer ops

module _ (hmac_sha256 : String → String → List ℕ) (sha256 : String → List ℕ) (cfg : GitConfig) where
  access-Barred :
      (peer : String) (auth : Option AuthManager) (username password repo : String) (now : Time)
      (g : GitServer)
      → Barred peer g
      → Barred peer
          (authenticate_request hmac_sha256 sha256 cfg auth username password repo now g).0
  unfolding authenticate_request check_trimmed check_rest check_claim save_claims is_marked
  access-Barred peer auth username password repo now g h =
      elim (Option-cases (get (trim_space username) g.claims)) [
        | inl e ↦ record {
          barred = ground (arith, e, h.barred);
          synced = ground (arith, e, h.synced);
        }
        | inr (c, e) ↦ record {
          barred = ground (
            arith,
            e,
            h.barred,
            get-put peer (trim_space username) (record c { last_used = now }) g.claims,
            eq_iff (trim_space username) peer,
          );
          synced = ground (arith, e, h.synced);
        }
      ]

  ask-Barred :
      (peer : String) (auth : Option AuthManager) (r : CredentialsRequest) (now later : Time)
      (nonce : List ℕ) (g : GitServer)
      → trim_space peer ≡ peer
      → Barred peer g
      → Barred peer (handle_git_credentials hmac_sha256 sha256 cfg auth r now later nonce g).0
  unfolding handle_git_credentials issue save_claims
  ask-Barred peer auth r now later nonce g t h =
      if_cases P (r.http.method == "OPTIONS") (λ _. h)
        (λ _.
          if_cases P (requested_peer r == "") (λ _. h)
            (λ _.
              if_cases P (is_peer_revoked (requested_peer r) g) (λ _. h)
                (λ free.
                  if_cases P
                    (is_locked hmac_sha256 sha256 r auth now (get_peer_claim (requested_peer r) g))
                    (λ _. h)
                    (λ _. record {
                      barred =
                          ap is_marked
                            (get-put_other peer (requested_peer r) _ g.claims (other free))
                          ∙ h.barred;
                      synced = refl;
                    }))))
    where
      P : GitServer × CredentialsReply → Type 0
      P x = Barred peer x.0

      other : is_peer_revoked (requested_peer r) g ≡ false → requested_peer r ≢ peer
      other free e =
          absurd (cc (free, ap (λ (q : String). is_peer_revoked q g) e, Barred-revoked peer g t h))

  perform-Barred :
      (peer : String) (o : Op) (g : GitServer)
      → trim_space peer ≡ peer
      → Keeps peer o
      → Barred peer g
      → Barred peer (perform hmac_sha256 sha256 cfg o g)
  unfolding perform Keeps
  perform-Barred peer (revoke q now) g t s h = revoke-Barred peer q now g h
  perform-Barred peer (unrevoke q) g t s h = unrevoke-Barred peer q g s h
  perform-Barred peer (unlock q) g t s h = unlock-Barred peer q g s h
  perform-Barred peer (remove disk q) g t s h = delete-Barred peer disk q g s h
  perform-Barred peer (ask auth r now later nonce) g t s h =
      ask-Barred peer auth r now later nonce g t h
  perform-Barred peer (access auth username password repo now) g t s h =
      access-Barred peer auth username password repo now g h
  perform-Barred peer (reboot now) g t s h = restart-Barred peer now g h

  perform_all-Barred :
      (peer : String) (ops : List Op) (g : GitServer)
      → trim_space peer ≡ peer
      → AllKeep peer ops
      → Barred peer g
      → Barred peer (perform_all hmac_sha256 sha256 cfg ops g)
  unfolding perform_all AllKeep
  perform_all-Barred peer [] g t s h = h
  perform_all-Barred peer (o ∷ ops) g t s h =
      perform_all-Barred peer ops (perform hmac_sha256 sha256 cfg o g) t s.1
        (perform-Barred peer o g t s.0 h)

  -- A peer that has a claim, once revoked, is granted no request, with whatever password, and stays
  -- revoked whatever happens, restarts included, as long as nobody restores, unlocks or deletes it.
  pub revoked_is_shut_out :
      (peer : String) (now later : Time) (c : PeerClaim) (ops : List Op) (g : GitServer)
      (auth : Option AuthManager) (username password repo : String)
      → trim_space username ≡ peer
      → get peer g.claims ≡ some c
      → AllKeep peer ops
      → (authenticate_request hmac_sha256 sha256 cfg auth username password repo later
          (perform_all hmac_sha256 sha256 cfg ops (revoke_peer peer now g))).1
        ≢ granted
  revoked_is_shut_out peer now later c ops g auth username password repo u e k v =
      let t : trim_space peer ≡ peer = ap trim_space (sym u) ∙ trim_space-trim_space username ∙ u in
      let g' = perform_all hmac_sha256 sha256 cfg ops (revoke_peer peer now g) in
      let h =
        perform_all-Barred peer ops (revoke_peer peer now g) t k (revoke-starts peer now c g t e) in
      let shut =
        authenticate_request-Granted hmac_sha256 sha256 cfg auth username password repo later g'
          v in
      absurd (
        cc (
          shut.not_revoked,
          ap (λ (q : String). is_peer_revoked q g') u,
          Barred-revoked peer g' t h,
        ))
