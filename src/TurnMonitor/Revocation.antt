-- ===== src/TurnMonitor/Revocation.antt =====
-- What revoking a session stops, and what it does not.
use Prim.Native.String.append
use p2pt_server.Prelude.{
  ◌+◌, ◌*◌, ◌≤◌, ◌<◌, String, true, none, some, List, [], ◌∷◌, ◌≡◌, ◌≢◌, refl, ap, ◌∙◌, arith,
  eq_refl, ==_ne,
}
use p2pt_server.Clock.{Time, hour, zero_time}
use p2pt_server.GoMap.{get, put, delete}
use p2pt_server.GoMap.Laws.{get-put, get-delete, get-keep-none}
use p2pt_server.GoText.{split}
use p2pt_server.GoText.Pieces.{Free, split-Free, split-append}
use p2pt_server.Net.{extract_ip}
use p2pt_server.TurnMonitor.{
  TurnMonitor, session_key, new_session, record_success, record_auth_attempt, is_session_revoked,
  target_user, revoke_session,
}

-- A session's key splits into its user and its address.
pub split-session_key :
    (user ip : String)
    → Free "@" user
    → Free "@" ip
    → split "@" (session_key user ip) ≡ user ∷ ip ∷ []
unfolding session_key
split-session_key user ip f g =
    rw (append.cons, append.nil)
      (split-append "@" user ip f ∙ ap (λ (l : List String). user ∷ l) (split-Free "@" ip g))

pub target_user-session_key :
    (user ip : String)
    → Free "@" user
    → Free "@" ip
    → target_user (split "@" (session_key user ip)) (session_key user ip) ≡ user
unfolding target_user
target_user-session_key user ip f g =
    ap (λ l. target_user l (session_key user ip)) (split-session_key user ip f g)

module _ (user ip : String) (now : Time) (tm : TurnMonitor) (f : Free "@" user)
    (g : Free "@" ip) where
  abbrev revoked : TurnMonitor
  revoked = revoke_session (session_key user ip) now tm

  pub revoked_until :
      user ≢ "pingo" → user ≢ "" → get user revoked.revoked_tokens ≡ some (now + 12 * hour)
  unfolding revoke_session
  revoked_until n m =
      rw (target_user-session_key user ip f g, ==_ne user "pingo" n, ==_ne user "" m)
        (ground (
          arith,
          get-put user user (now + 12 * hour)
              (put (session_key user ip) (now + 12 * hour) tm.revoked_tokens),
          eq_refl user,
        ))

  pub session_gone : get (session_key user ip) revoked.sessions ≡ none
  unfolding revoke_session
  session_gone =
      let key = session_key user ip in
      get-keep-none key _ (delete key tm.sessions)
        (ground (arith, get-delete key key tm.sessions, eq_refl key))

  -- Revoking the session of a user other than the shared one ends it, and for twelve hours the user
  -- counts as revoked and opens no session by authenticating again, from whatever address.
  revoked_stays_out :
      (addr : String) (t : Time)
      → user ≢ "pingo"
      → user ≢ ""
      → t < now + 12 * hour
      → (get (session_key user ip) revoked.sessions ≡ none)
        × (is_session_revoked user t revoked ≡ true)
        × ((record_auth_attempt user (some addr) true t revoked).sessions ≡ revoked.sessions)
  unfolding is_session_revoked record_auth_attempt record_success
  revoked_stays_out addr t n m h =
      (session_gone, ground (arith, revoked_until n m), ground (arith, revoked_until n m))

pingo-Free : Free "@" "pingo"
pingo-Free = (refl, (refl, (refl, (refl, (refl, tt)))))

session_key-ne-pingo : (ip : String) → Free "@" ip → session_key "pingo" ip ≢ "pingo"
unfolding split
session_key-ne-pingo ip g e =
    cc (split-session_key "pingo" ip pingo-Free g, ap (λ s. split "@" s) e)

pingo_not_revoked :
    (ip : String) (now : Time) (tm : TurnMonitor)
    → Free "@" ip
    → get "pingo" tm.revoked_tokens ≡ none
    → get "pingo" (revoke_session (session_key "pingo" ip) now tm).revoked_tokens ≡ none
unfolding revoke_session
pingo_not_revoked ip now tm g fresh =
    let key = session_key "pingo" ip in
    rw (target_user-session_key "pingo" ip pingo-Free g) (
      ground (
        arith,
        get-put "pingo" key (now + 12 * hour) tm.revoked_tokens,
        ==_ne key "pingo" (session_key-ne-pingo ip g),
      ))

-- Revoking a session of the shared user "pingo" ends it, and stops nothing: the same client opens the
-- session again the next time that it authenticates.
pingo_comes_back :
    (addr : String) (now t : Time) (tm : TurnMonitor)
    → Free "@" (extract_ip addr)
    → get "pingo" tm.revoked_tokens ≡ none
    → zero_time ≤ t
    → let key = session_key "pingo" (extract_ip addr) in
      let tm' = revoke_session key now tm in
      (get key tm'.sessions ≡ none)
      × (get key (record_auth_attempt "pingo" (some addr) true t tm').sessions
          ≡ some (new_session "pingo" (extract_ip addr) t))
unfolding record_auth_attempt record_success
pingo_comes_back addr now t tm g none_yet recent =
    let key = session_key "pingo" (extract_ip addr) in
    (
      session_gone "pingo" (extract_ip addr) now tm pingo-Free g,
      ground (
        arith,
        pingo_not_revoked (extract_ip addr) now tm g none_yet,
        get-put key key (new_session "pingo" (extract_ip addr) t)
            (revoke_session key now tm).sessions,
        eq_refl key,
      ),
    )
