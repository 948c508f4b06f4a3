-- ===== src/GitServer/Deletion.antt =====
-- What the deletion of a repository leaves.
use p2pt_server.Prelude.{
  String, Bool, true, false, none, some, ◌≡◌, ◌≢◌, refl, arith, eq_refl, ==_ne, if_cases,
}
use p2pt_server.GoMap.{get}
use p2pt_server.GoMap.Laws.{get-delete}
use p2pt_server.GoText.{trim_space}
use p2pt_server.GoText.Trim.{trim_space-trim_space}
use p2pt_server.GitServer.{GitServer, is_peer_revoked, is_marked, save_claims}
use p2pt_server.GitServer.Admin.{Removal, forget, delete_repo}

-- The peer has no claim and is not revoked, the other peers are as they were, and the file is written.
pub record Forgotten (peer : String) (before after : GitServer) : Type 0 where
  pub unclaimed : get peer after.claims ≡ none
  pub free : is_peer_revoked peer after ≡ false
  pub claims : (k : String) → peer ≢ k → get k after.claims ≡ get k before.claims
  pub times : (k : String) → peer ≢ k → get k after.revoked_peers ≡ get k before.revoked_peers
  pub synced : after.file ≡ some after.claims

forget-Forgotten :
    (peer : String) (g : GitServer) → trim_space peer ≡ peer → Forgotten peer g (forget peer g)
unfolding forget save_claims is_peer_revoked is_marked
forget-Forgotten peer g t = record {
  unclaimed = ground (arith, get-delete peer peer g.claims, eq_refl peer);
  free =
      ground (
        arith,
        t,
        get-delete peer peer g.claims,
        get-delete peer peer g.revoked_peers,
        eq_refl peer,
      );
  claims = λ k n. ground (arith, get-delete k peer g.claims, ==_ne peer k n);
  times = λ k n. ground (arith, get-delete k peer g.revoked_peers, ==_ne peer k n);
  synced = refl;
}

-- A deletion that succeeds forgets the peer's claim and its revocation, and nobody else's, and one
-- that fails changes nothing.
delete_repo_lem :
    (disk : String → Removal) (namespace : String) (g : GitServer)
    → ((delete_repo disk namespace g).1 ≡ true
        → Forgotten (trim_space namespace) g (delete_repo disk namespace g).0)
      × ((delete_repo disk namespace g).1 ≡ false → (delete_repo disk namespace g).0 ≡ g)
unfolding delete_repo
delete_repo_lem disk namespace g =
    if_cases P _ (λ _. (λ h. absurd (cc h), λ h. refl)) (λ _. by_disk (disk (trim_space namespace)))
  where
    P : GitServer × Bool → Type 0
    P x = (x.1 ≡ true → Forgotten (trim_space namespace) g x.0) × (x.1 ≡ false → x.0 ≡ g)

    gone : Forgotten (trim_space namespace) g (forget (trim_space namespace) g)
    gone = forget-Forgotten (trim_space namespace) g (trim_space-trim_space namespace)

    by_disk :
        (d : Removal)
        → P (elim d [
          | Removal.not_removed ↦ (g, false)
          | Removal.absent ↦ (forget (trim_space namespace) g, true)
          | Removal.removed ↦ (forget (trim_space namespace) g, true)
        ])
    by_disk Removal.absent = (λ _. gone, λ h. absurd (cc h))
    by_disk Removal.removed = (λ _. gone, λ h. absurd (cc h))
    by_disk Removal.not_removed = (λ h. absurd (cc h), λ _. refl)
