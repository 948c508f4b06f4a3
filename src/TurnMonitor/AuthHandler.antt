-- ===== src/TurnMonitor/AuthHandler.antt =====
-- main.go: the `AuthHandler` that the TURN server asks for the key of a user, and what it tells the
-- monitor. The HMAC-SHA1 in base64 and `turn.GenerateAuthKey` are parameters. The handler reads the
-- clock once.
use p2pt_server.Prelude.{
  ◌≤◌, String, true, false, not, Option, none, some, List, [], ◌∷◌, ◌==◌, ◌≡◌, ◌≢◌, refl, arith,
  ==_ne, Option-cases, inl, inr, leb, length, get_or, if_cases, is_some, if◌then◌else◌,
}
use p2pt_server.Clock.{Time, zero_time, after}
use p2pt_server.GoMap.{GoMap, get, put}
use p2pt_server.GoMap.Laws.{get-put}
use p2pt_server.GoText.{split}
use p2pt_server.Net.{extract_ip}
use p2pt_server.TurnMonitor.{
  TurnMonitor, IpReputation, reputation, check_ip_blocked, is_blocked, is_session_revoked,
  record_auth_attempt, record_success,
}

-- What the handler reads of `Config`.
pub record TurnConfig : Type 0 where
  pub username : String
  pub password : String
  pub auth_secret : String

module _ {ℓ} {Key : Type ℓ} (auth_key : String → String → String → Key)
    (mac : String → String → String) where
  -- The password that a user's key is made of, if the server knows one: `u` is the user.
  unfoldable pub secret_password : TurnConfig → String → String
  secret_password cfg u =
      if leb 2 (length (split ":" u)) then mac cfg.auth_secret u else cfg.auth_secret

  unfoldable pub auth_handler :
      TurnConfig → String → String → Option String → Time → TurnMonitor → TurnMonitor × Option Key
  auth_handler cfg u realm src now tm =
      if check_ip_blocked src now tm
      then (tm, none)
      else if is_session_revoked u now tm
      then (tm, none)
      else if u == cfg.username
      then (record_auth_attempt u src true now tm, some (auth_key u realm cfg.password))
      else if not (cfg.auth_secret == "")
      then (record_auth_attempt u src true now tm, some (auth_key u realm (secret_password cfg u)))
      else (record_auth_attempt u src false now tm, none)

  -- Requests for keys, one after the other.
  unfoldable pub ask_all :
      TurnConfig → List (String × String × Option String × Time) → TurnMonitor → TurnMonitor
  ask_all cfg [] tm = tm
  ask_all cfg ((u, realm, src, now) ∷ l) tm = ask_all cfg l (auth_handler cfg u realm src now tm).0

-- No address has ever been blocked.
unfoldable pub IsClean : TurnMonitor → Type 0
IsClean tm =
    (ip : String) (rep : IpReputation)
    → get ip tm.reputations ≡ some rep
    → rep.blocked_until ≡ zero_time

reputation-IsClean :
    (ip : String) (tm : TurnMonitor) → IsClean tm → (reputation ip tm).blocked_until ≡ zero_time
unfolding IsClean
reputation-IsClean ip tm c = elim (Option-cases (get ip tm.reputations)) [
  | inl e ↦ ground (arith, e)
  | inr (rep, e) ↦ ground (arith, e, c ip rep e)
]

put-clean :
    (ip k : String) (r rep : IpReputation) (m : GoMap IpReputation)
    → r.blocked_until ≡ zero_time
    → ((j : String) (x : IpReputation) → get j m ≡ some x → x.blocked_until ≡ zero_time)
    → get k (put ip r m) ≡ some rep
    → rep.blocked_until ≡ zero_time
put-clean ip k r rep m z c h = elim (Option-cases (get k m)) [
  | inl e ↦ ground (arith, e, h, z, get-put k ip r m)
  | inr (x, e) ↦ ground (arith, e, h, z, c k x e, get-put k ip r m)
]

success-IsClean :
    (u : String) (src : Option String) (now : Time) (tm : TurnMonitor)
    → IsClean tm
    → IsClean (record_auth_attempt u src true now tm)
unfolding IsClean record_auth_attempt record_success
success-IsClean u none now tm c = c
success-IsClean u (some addr) now tm c =
    let z = reputation-IsClean (extract_ip addr) tm c in
    if_cases IsClean (after (get_or zero_time (get u tm.revoked_tokens)) now)
      (λ _. λ k rep h. put-clean (extract_ip addr) k _ rep tm.reputations z c h)
      (λ _. λ k rep h. put-clean (extract_ip addr) k _ rep tm.reputations z c h)

clean_unblocked :
    (src : Option String) (now : Time) (tm : TurnMonitor)
    → zero_time ≤ now
    → IsClean tm
    → check_ip_blocked src now tm ≡ false
unfolding IsClean check_ip_blocked is_blocked
clean_unblocked none now tm l c = refl
clean_unblocked (some addr) now tm l c =
    elim (Option-cases (get (extract_ip addr) tm.reputations)) [
      | inl e ↦ ground (arith, e)
      | inr (rep, e) ↦ ground (arith, e, c (extract_ip addr) rep e, l)
    ]

module _ {ℓ} {Key : Type ℓ} (auth_key : String → String → String → Key)
    (mac : String → String → String) where
  handler-IsClean :
      (cfg : TurnConfig) (u realm : String) (src : Option String) (now : Time) (tm : TurnMonitor)
      → cfg.auth_secret ≢ ""
      → IsClean tm
      → IsClean (auth_handler auth_key mac cfg u realm src now tm).0
  unfolding auth_handler
  handler-IsClean cfg u realm src now tm n c =
      if_cases P (check_ip_blocked src now tm) (λ _. c)
        (λ _.
          if_cases P (is_session_revoked u now tm) (λ _. c)
            (λ _.
              if_cases P (u == cfg.username) (λ _. success-IsClean u src now tm c)
                (λ _.
                  if_cases P (not (cfg.auth_secret == "")) (λ _. success-IsClean u src now tm c)
                    (λ e. absurd (ground (arith, e, ==_ne cfg.auth_secret "" n))))))
    where
      P : TurnMonitor × Option Key → Type 0
      P x = IsClean x.0

  ask_all-IsClean :
      (cfg : TurnConfig) (l : List (String × String × Option String × Time)) (tm : TurnMonitor)
      → cfg.auth_secret ≢ ""
      → IsClean tm
      → IsClean (ask_all auth_key mac cfg l tm)
  unfolding ask_all
  ask_all-IsClean cfg [] tm n c = c
  ask_all-IsClean cfg ((u, realm, src, now) ∷ l) tm n c =
      ask_all-IsClean cfg l (auth_handler auth_key mac cfg u realm src now tm).0 n
        (handler-IsClean cfg u realm src now tm n c)

  -- With a secret in the configuration, from a monitor that has blocked nobody, and at times after the
  -- year 1, no number of requests for keys, whoever they name and whatever becomes of them, blocks an
  -- address, and a name that is not revoked is given a key, whatever time stamp it bears.
  pub guard_never_fires :
      (cfg : TurnConfig) (l : List (String × String × Option String × Time)) (tm : TurnMonitor)
      (u realm : String) (src : Option String) (now : Time)
      → cfg.auth_secret ≢ ""
      → IsClean tm
      → zero_time ≤ now
      → is_session_revoked u now (ask_all auth_key mac cfg l tm) ≡ false
      → (check_ip_blocked src now (ask_all auth_key mac cfg l tm) ≡ false)
        × (is_some (auth_handler auth_key mac cfg u realm src now (ask_all auth_key mac cfg l tm)).1
            ≡ true)
  unfolding auth_handler
  guard_never_fires cfg l tm u realm src now n c late free =
      let unblocked : check_ip_blocked src now (ask_all auth_key mac cfg l tm) ≡ false =
        clean_unblocked src now (ask_all auth_key mac cfg l tm) late
          (ask_all-IsClean cfg l tm n c) in
      (unblocked, ground (arith, unblocked, free, ==_ne cfg.auth_secret "" n))
