-- ===== src/TurnMonitor/Issued.antt =====
-- The credentials that /turn-credentials issues: what the TURN server makes of them, and what their
-- revocation does.
use Prim.Native.Char.{Char, code}
use Prim.Native.String.{[] as empty, ◌∷◌ as ◌::◌}
use p2pt_server.Clock.{Time, hour, unix_seconds}
use p2pt_server.GoMap.{get}
use p2pt_server.GoMap.Laws.{get-delete}
use p2pt_server.GoText.{pos, digit, decimal, format_int, split, in_front}
use p2pt_server.GoText.Decimal.{code-digit}
use p2pt_server.GoText.Pieces.{Free, split-Free, split-append, Free-append}
use p2pt_server.Prelude.{
  ℕ, zero, suc, ◌+◌, ◌*◌, ◌/◌, ◌%◌, ◌<◌, String, true, false, false≢true, Option, none, some, List,
  [], ◌∷◌, ◌≡◌, ◌≢◌, refl, sym, ◌∙◌, ap, arith, eqb, ltb, leb, length, ==_ne, eq_refl, inl, inr,
  Bool-cases, if_cases, not, ◌&&◌, ◌||◌, ◌==◌, is_some, if◌then◌else◌,
}
use p2pt_server.Signalling.{SignalingServer, kick_client}
use p2pt_server.TurnMonitor.{
  TurnMonitor, session_key, check_ip_blocked, is_session_revoked, revoke_session,
}
use p2pt_server.TurnMonitor.AuthHandler.{TurnConfig, auth_handler, secret_password}
use p2pt_server.TurnMonitor.Revocation.{split-session_key, revoked_until}
use p2pt_server.Net.Ip.{parse_ip}
use p2pt_server.TurnMonitor.Routes.{
  RouteConfig, IceServer, requested_user, turn_credentials, first_of, second_of, turn_user,
  peer_of_key, handle_turn_revoke,
}

-- A character that is no digit does not stand in a number.
decimal-Free_of :
    (c : Char) (fuel n : ℕ)
    → ((d : ℕ) → d < 10 → eqb (code (digit d)) (code c) ≡ false)
    → Free c (decimal fuel n)
unfolding decimal
decimal-Free_of c zero n h = tt
decimal-Free_of c (suc fuel) n h = elim (Bool-cases (ltb n 10)) [
  | inl e ↦ rw (e, decimal) (h n (ground arith), tt)
  | inr e ↦
      rw (e, decimal)
        (Free-append c (decimal fuel (n / 10)) (digit (n % 10) :: empty)
          (decimal-Free_of c fuel (n / 10) h) (h (n % 10) (omega arith), tt))
]

expiry-no_colon : (n : ℕ) → Free ":" (format_int (pos n))
unfolding format_int
expiry-no_colon n = decimal-Free_of ":" 20 n (λ d h. rw (code-digit d h) (ground arith))

expiry-no_at : (n : ℕ) → Free "@" (format_int (pos n))
unfolding format_int
expiry-no_at n = decimal-Free_of "@" 20 n (λ d h. rw (code-digit d h) (ground arith))

pub split-turn_user :
    (now : Time) (peer : String)
    → split ":" (turn_user now peer) ≡ format_int (pos (unix_seconds now + 86400)) ∷ split ":" peer
unfolding turn_user
split-turn_user now peer =
    split-append ":" (format_int (pos (unix_seconds now + 86400))) peer
      (expiry-no_colon (unix_seconds now + 86400))

in_front-length : (d : Char) (l : List String) → leb 1 (length (in_front d l)) ≡ true
in_front-length d [] = refl
in_front-length d (s ∷ l) = ground arith

-- A split text has a piece.
split-length : (c : Char) (s : String) → leb 1 (length (split c s)) ≡ true
unfolding split
split-length c empty = refl
split-length c (d :: s) =
    if_cases (λ (l : List String). leb 1 (length l) ≡ true) (eqb (code d) (code c))
      (λ e. ground (arith, split-length c s)) (λ e. in_front-length d (split c s))

turn_user-pieces :
    (now : Time) (peer : String) → leb 2 (length (split ":" (turn_user now peer))) ≡ true
turn_user-pieces now peer =
    ap (λ (l : List String). leb 2 (length l)) (split-turn_user now peer)
    ∙ ground (arith, split-length ":" peer)

module _ {ℓ} {Key : Type ℓ} (auth_key : String → String → String → Key)
    (mac : String → String → String) where
  -- With a secret, and for a name that is not the configured user's and not revoked, from an address
  -- that is not blocked, the key is made of the code of the name.
  pub auth_handler-turn_user :
      (cfg : TurnConfig) (issued now : Time) (peer realm : String) (src : Option String)
      (tm : TurnMonitor)
      → cfg.auth_secret ≢ ""
      → turn_user issued peer ≢ cfg.username
      → check_ip_blocked src now tm ≡ false
      → is_session_revoked (turn_user issued peer) now tm ≡ false
      → (auth_handler auth_key mac cfg (turn_user issued peer) realm src now tm).1
        ≡ some
            (auth_key (turn_user issued peer) realm (mac (cfg.auth_secret) (turn_user issued peer)))
  unfolding auth_handler secret_password
  auth_handler-turn_user cfg issued now peer realm src tm s n b r =
      rw (b, r, ==_ne (turn_user issued peer) (cfg.username) n, ==_ne (cfg.auth_secret) "" s)
        (rw (turn_user-pieces issued peer) refl)

-- What holds of every server that is offered.
abbrev pub AllServers : (IceServer → Type 0) → List IceServer → Type 0
AllServers P [] = Unit
AllServers P (s ∷ l) = P s × AllServers P l

-- Whatever is offered, is offered under the user's name with its password, and it is not nothing.
turn_credentials-AllServers :
    (mac : String → String → String) (routes : RouteConfig) (issued : Time) (peer_id user : String)
    (P : IceServer → Type 0)
    → ((s : IceServer)
        → s.username ≡ turn_user issued (requested_user peer_id user)
        → s.credential ≡ mac (routes.auth_secret) (turn_user issued (requested_user peer_id user))
        → P s)
    → let servers = turn_credentials mac routes issued peer_id user in
      (leb 1 (length servers) ≡ true) × AllServers P servers
unfolding turn_credentials
turn_credentials-AllServers mac routes issued peer_id user P h =
    if_cases (λ (l : List IceServer). (leb 1 (length l) ≡ true) × AllServers P l)
      (not (routes.wan_ip == "")
        && not (routes.wan_ip == routes.public_ip)
        && is_some (parse_ip (routes.wan_ip)))
      (λ _. (refl, (h _ refl refl, (h _ refl refl, tt)))) (λ _. (refl, (h _ refl refl, tt)))

module _ {Key : Type 0} (auth_key : String → String → String → Key)
    (mac : String → String → String) where
  -- The key of a name that is not the configured user's.
  auth_handler-coded :
      (cfg : TurnConfig) (u realm : String) (src : Option String) (now : Time) (tm : TurnMonitor)
      → cfg.auth_secret ≢ ""
      → leb 2 (length (split ":" u)) ≡ true
      → u ≢ cfg.username
      → (auth_handler auth_key mac cfg u realm src now tm).1 ≡ (
          if check_ip_blocked src now tm || is_session_revoked u now tm
          then none
          else some (auth_key u realm (mac (cfg.auth_secret) u)))
  unfolding auth_handler secret_password
  auth_handler-coded cfg u realm src now tm s two n =
      elim (Bool-cases (check_ip_blocked src now tm)) [
        | inl b ↦ rw b refl
        | inr b ↦ elim (Bool-cases (is_session_revoked u now tm)) [
          | inl r ↦ rw (b, r) refl
          | inr r ↦ rw (b, r, ==_ne u (cfg.username) n, ==_ne (cfg.auth_secret) "" s, two) refl
        ]
      ]

  -- The servers of an answer of /turn-credentials, of which there is one at least, all come with a
  -- name and a password of which the TURN server makes the user's key, whatever peer was named, if
  -- both have the same secret, not an empty one, and the name is not the configured user's: unless
  -- the address that asks is blocked or the name is revoked, and then it gives no key.
  pub turn_credentials-open :
      (cfg : TurnConfig) (routes : RouteConfig) (issued now : Time) (peer_id user realm : String)
      (src : Option String) (tm : TurnMonitor)
      → cfg.auth_secret ≢ ""
      → routes.auth_secret ≡ cfg.auth_secret
      → turn_user issued (requested_user peer_id user) ≢ cfg.username
      → let servers = turn_credentials mac routes issued peer_id user in
        (leb 1 (length servers) ≡ true)
        × AllServers
            (λ s. (auth_handler auth_key mac cfg (s.username) realm src now tm).1 ≡ (
              if check_ip_blocked src now tm || is_session_revoked (s.username) now tm
              then none
              else some (auth_key (s.username) realm (s.credential))))
            servers
  turn_credentials-open cfg routes issued now peer_id user realm src tm s same n =
      let peer = requested_user peer_id user in
      turn_credentials-AllServers mac routes issued peer_id user _ (λ server u c.
        rw (u, c, same)
          (auth_handler-coded cfg (turn_user issued peer) realm src now tm s
            (turn_user-pieces issued peer) n))

pub turn_user-no_at : (now : Time) (peer : String) → Free "@" peer → Free "@" (turn_user now peer)
unfolding turn_user
turn_user-no_at now peer f =
    Free-append "@" (format_int (pos (unix_seconds now + 86400))) (":" :: peer)
      (expiry-no_at (unix_seconds now + 86400)) (refl, f)

-- A text of one piece is no such name.
turn_user-ne :
    (now : Time) (peer other : String) → split ":" other ≡ other ∷ [] → turn_user now peer ≢ other
turn_user-ne now peer other h e =
    let pieces = turn_user-pieces now peer in
    false≢true (sym (ap (λ (l : List String). leb 2 (length l)) (ap (split ":") e ∙ h)) ∙ pieces)

pub turn_user-ne-pingo : (now : Time) (peer : String) → turn_user now peer ≢ "pingo"
unfolding split
turn_user-ne-pingo now peer = turn_user-ne now peer "pingo" refl

turn_user-ne-empty : (now : Time) (peer : String) → turn_user now peer ≢ ""
unfolding split
turn_user-ne-empty now peer = turn_user-ne now peer "" refl

peer_of_key-turn_user :
    (issued : Time) (peer ip : String)
    → Free ":" peer
    → Free "@" peer
    → Free "@" ip
    → peer_of_key (session_key (turn_user issued peer) ip) ≡ peer
unfolding peer_of_key
peer_of_key-turn_user issued peer ip c f g =
    let u = turn_user issued peer in
    ap
      (λ (l : List String).
        second_of (split ":" (first_of l (session_key u ip))) (first_of l (session_key u ip)))
      (split-session_key u ip (turn_user-no_at issued peer f) g)
    ∙ ap (λ (l : List String). second_of l u)
        (split-turn_user issued peer
          ∙ ap (λ (l : List String). format_int (pos (unix_seconds issued + 86400)) ∷ l)
              (split-Free ":" peer c))

module _ {ℓ} {Key : Type ℓ} (auth_key : String → String → String → Key)
    (mac : String → String → String) where
  revoked_refused :
      (cfg : TurnConfig) (u realm : String) (src : Option String) (t : Time) (tm : TurnMonitor)
      → is_session_revoked u t tm ≡ true
      → (auth_handler auth_key mac cfg u realm src t tm).1 ≡ none
  unfolding auth_handler
  revoked_refused cfg u realm src t tm r =
      if_cases (λ (x : TurnMonitor × Option Key). x.1 ≡ none) (check_ip_blocked src t tm)
        (λ e. refl) (λ e. rw r refl)

  -- After a POST to /api/turn/revoke with the key of a session that a peer, named without colons
  -- and at signs, has opened with issued credentials, from an address without an at sign, the
  -- TURN server gives no key for these credentials for twelve hours, whoever asks, and the peer
  -- is connected to the signalling server no more.
  pub handle_turn_revoke-shuts_out :
      (cfg : TurnConfig) (issued now t : Time) (peer ip realm : String) (src : Option String)
      (tm : TurnMonitor) (s : SignalingServer)
      → Free ":" peer
      → Free "@" peer
      → Free "@" ip
      → t < now + 12 * hour
      → let r =
          handle_turn_revoke "POST" (some (session_key (turn_user issued peer) ip)) now tm s in
        ((auth_handler auth_key mac cfg (turn_user issued peer) realm src t (r.monitor)).1 ≡ none)
        × (get peer (r.signalling.clients) ≡ none)
  unfolding handle_turn_revoke is_session_revoked kick_client
  handle_turn_revoke-shuts_out cfg issued now t peer ip realm src tm s c f g h =
      let u = turn_user issued peer in
      let until =
        revoked_until u ip now tm (turn_user-no_at issued peer f) g (turn_user-ne-pingo issued peer)
          (turn_user-ne-empty issued peer) in
      (
        revoked_refused cfg u realm src t (revoke_session (session_key u ip) now tm)
            (ground (arith, until)),
        rw (peer_of_key-turn_user issued peer ip c f g)
            (ground (arith, get-delete peer peer (s.clients), eq_refl peer)),
      )
