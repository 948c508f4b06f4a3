-- ===== src/TurnMonitor/Reissued.antt =====
-- What a revocation does not stop: new credentials for the same peer.
use p2pt_server.Clock.{Time, hour, unix_seconds}
use p2pt_server.GoMap.{put}
use p2pt_server.GoMap.Laws.{get-put}
use p2pt_server.GoText.{ℤ, pos, negsuc, parse_int, format_int, split}
use p2pt_server.GoText.Decimal.{parse_int-format_int}
use p2pt_server.GoText.Pieces.{Free, split-Free}
use p2pt_server.Prelude.{
  ℕ, ◌+◌, ◌*◌, ◌<◌, ◌^◌, String, false, false≢true, Option, none, some, List, ◌≡◌, ◌≢◌, sym, ◌∙◌,
  ap, arith, leb, length, ==_ne,
}
use p2pt_server.TurnMonitor.{
  TurnMonitor, session_key, check_ip_blocked, is_session_revoked, revoke_session,
}
use p2pt_server.TurnMonitor.AuthHandler.{TurnConfig, auth_handler}
use p2pt_server.TurnMonitor.Revocation.{split-session_key, target_user-session_key}
use p2pt_server.TurnMonitor.Issued.{split-turn_user, turn_user-no_at, auth_handler-turn_user}
use p2pt_server.TurnMonitor.Routes.{first_of, turn_user}

magnitude : Option ℤ → ℕ
magnitude none = 0
magnitude (some (pos n)) = n
magnitude (some (negsuc n)) = n

-- Different seconds of issue make different names.
turn_user-injective :
    (i j : Time) (peer : String)
    → unix_seconds i + 86400 < 2 ^ 63
    → unix_seconds j + 86400 < 2 ^ 63
    → turn_user i peer ≡ turn_user j peer
    → unix_seconds i ≡ unix_seconds j
unfolding magnitude
turn_user-injective i j peer a b e =
    let head : List String → String = λ l. first_of l "" in
    let texts : format_int (pos (unix_seconds i + 86400))
        ≡ format_int (pos (unix_seconds j + 86400)) =
      sym (ap head (split-turn_user i peer))
      ∙ ap head (ap (split ":") e)
      ∙ ap head (split-turn_user j peer) in
    let numbers =
      sym (parse_int-format_int (unix_seconds i + 86400) a)
      ∙ ap parse_int texts
      ∙ parse_int-format_int (unix_seconds j + 86400) b in
    omega (arith, ap magnitude numbers)

-- A session's key is no name without an at sign.
session_key-ne : (u ip v : String) → Free "@" u → Free "@" ip → Free "@" v → session_key u ip ≢ v
session_key-ne u ip v f g h e =
    let one = sym (split-session_key u ip f g) ∙ ap (split "@") e ∙ split-Free "@" v h in
    false≢true (sym (ap (λ (l : List String). leb 2 (length l)) one))

-- A revocation changes nothing for another name.
revoke_session-other :
    (u ip v : String) (now t : Time) (tm : TurnMonitor)
    → Free "@" u
    → Free "@" ip
    → Free "@" v
    → u ≢ v
    → is_session_revoked v t (revoke_session (session_key u ip) now tm) ≡ is_session_revoked v t tm
unfolding is_session_revoked revoke_session
revoke_session-other u ip v now t tm f g h n =
    let key = session_key u ip in
    let kept = put key (now + 12 * hour) (tm.revoked_tokens) in
    rw (target_user-session_key u ip f g) (
      ground (
        arith,
        get-put v key (now + 12 * hour) (tm.revoked_tokens),
        get-put v u (now + 12 * hour) kept,
        ==_ne u v n,
        ==_ne key v (session_key-ne u ip v f g h),
      ))

unblocked :
    (src : Option String) (t : Time) (key : String) (now : Time) (tm : TurnMonitor)
    → check_ip_blocked src t tm ≡ false
    → check_ip_blocked src t (revoke_session key now tm) ≡ false
unfolding check_ip_blocked revoke_session
unblocked none t key now tm c = c
unblocked (some addr) t key now tm c = c

module _ {ℓ} {Key : Type ℓ} (auth_key : String → String → String → Key)
    (mac : String → String → String) where
  -- The peer whose session was revoked asks /turn-credentials again, in another second, and is
  -- back: with a secret, a peer and an address without at signs and expiries that are int64s, the
  -- TURN server gives the key for the new credentials as if nothing had been revoked, from an
  -- address that was not blocked, and unless the new name was revoked before or is the configured
  -- one.
  pub auth_handler-reissued :
      (cfg : TurnConfig) (issued again now t : Time) (peer ip realm : String) (src : Option String)
      (tm : TurnMonitor)
      → Free "@" peer
      → Free "@" ip
      → unix_seconds issued + 86400 < 2 ^ 63
      → unix_seconds again + 86400 < 2 ^ 63
      → unix_seconds issued ≢ unix_seconds again
      → cfg.auth_secret ≢ ""
      → turn_user again peer ≢ cfg.username
      → check_ip_blocked src t tm ≡ false
      → is_session_revoked (turn_user again peer) t tm ≡ false
      → (auth_handler auth_key mac cfg
          (turn_user again peer)
          realm
          src
          t
          (revoke_session (session_key (turn_user issued peer) ip) now tm)).1
        ≡ some
            (auth_key (turn_user again peer) realm (mac (cfg.auth_secret) (turn_user again peer)))
  auth_handler-reissued cfg issued again now t peer ip realm src tm f g a b d s n c r =
      let u = turn_user issued peer in
      let v = turn_user again peer in
      let other =
        revoke_session-other u ip v now t tm (turn_user-no_at issued peer f) g
          (turn_user-no_at again peer f) (λ e. d (turn_user-injective issued again peer a b e)) in
      auth_handler-turn_user auth_key mac cfg again t peer realm src
        (revoke_session (session_key u ip) now tm) s n (unblocked src t (session_key u ip) now tm c)
        (other ∙ r)
