-- ===== src/Auth/Sessions.antt =====
-- Login sessions: how one begins, how long it lasts, and what ends it.
use p2pt_server.Prelude.{
  ℕ, ◌+◌, ◌≤◌, String, true, false, ◌&&◌, not, Option, none, some, List, ◌∷◌, ◌≡◌, ◌≢◌, refl, ap,
  sym, ◌∙◌, arith, eqb, ltb, eq_iff, eq_refl, ==_ne, inl, inr, Option-cases,
}
use p2pt_server.Clock.{Time, after, before}
use p2pt_server.GoMap.{GoMap, get, put, IsUnique}
use p2pt_server.GoMap.Laws.{get-put, get-delete, get-keep, kept}
use p2pt_server.GoText.{strip_prefix?, encode_hex}
use p2pt_server.Auth.{
  AuthManager, SessionInfo, Request, welcome, session_duration, validate_password, check_rate_limit,
  create_session, record_successful_attempt, is_live, bearer, basic, by_cookie, is_authenticated,
  check_password, handle_login, handle_logout, set_admin_password, cleanup_expired,
}

-- A request that has nothing but a session cookie to show.
pub record HasCookie (token : String) (r : Request) : Type 0 where
  pub bare : r.authorization ≡ ""
  pub shown : r.cookie ≡ some token

-- With nothing else to show, a request is let in as long as the session of its cookie lives.
is_authenticated-cookie :
    (token : String) (r : Request) (t : Time) (a : AuthManager)
    → HasCookie token r
    → token ≢ ""
    → is_authenticated r t a ≡ is_live (get token a.sessions) t
unfolding is_authenticated
is_authenticated-cookie token r t a c n =
    ground (arith, eq_iff r.authorization "", c.bare, c.shown, ==_ne token "" n)

live_session :
    (token : String) (s : SessionInfo) (t : Time) (m : GoMap SessionInfo)
    → is_live (get token (put token s m)) t ≡ ltb t s.expires_at
unfolding is_live
live_session token s t m = ground (arith, get-put token token s m, eq_refl token)

encode_hex-ne-nil : (b : ℕ) (bs : List ℕ) → encode_hex (b ∷ bs) ≢ ""
unfolding encode_hex
encode_hex-ne-nil b bs e = cc

-- What a welcome says of the request and of the manager that it leaves.
handle_login-welcome :
    (r : Request) (now later : Time) (bytes : List ℕ) (a : AuthManager) (s : SessionInfo)
    → (handle_login r now later (some bytes) a).1 ≡ welcome s
    → (password : String) × (r.password ≡ some password)
      × (validate_password password a ≡ true)
      × ((handle_login r now later (some bytes) a).0.sessions ≡ put s.token s a.sessions)
      × (s.expires_at ≡ later + session_duration)
      × (s.token ≡ encode_hex bytes)
unfolding handle_login check_password create_session record_successful_attempt
handle_login-welcome r now later bytes a s h = elim (Option-cases r.password) [
  | inl e ↦ absurd (ground (arith, e))
  | inr (p, e) ↦ (p, e, ground arith, ground arith, ground arith, ground arith)
]

-- A login that is welcomed had the right password, and opens a session: until 24 hours later, and not
-- after, a request with its cookie is let in.
pub welcome_lem :
    (r r' : Request) (now later t : Time) (b : ℕ) (bs : List ℕ) (a : AuthManager) (s : SessionInfo)
    → (handle_login r now later (some (b ∷ bs)) a).1 ≡ welcome s
    → HasCookie s.token r'
    → (is_authenticated r' t (handle_login r now later (some (b ∷ bs)) a).0
        ≡ ltb t (later + session_duration))
      × (password : String) × (r.password ≡ some password)
      × (validate_password password a ≡ true)
welcome_lem r r' now later t b bs a s h c =
    let (p, e, valid, opened, ends, named) = handle_login-welcome r now later (b ∷ bs) a s h in
    let a' = (handle_login r now later (some (b ∷ bs)) a).0 in
    let known : s.token ≢ "" = λ q. encode_hex-ne-nil b bs (sym named ∙ q) in
    (
      is_authenticated-cookie s.token r' t a' c known
          ∙ rw opened (live_session s.token s t a.sessions)
          ∙ ap (λ (x : ℕ). ltb t x) ends,
      p,
      e,
      valid,
    )

-- After a logout the cookie that it came with opens nothing.
logout_ends :
    (token : String) (r r' : Request) (t : Time) (a : AuthManager)
    → r.cookie ≡ some token
    → HasCookie token r'
    → is_authenticated r' t (handle_logout r a) ≡ false
unfolding handle_logout is_authenticated is_live
logout_ends token r r' t a e c = ground (
  arith,
  eq_iff r'.authorization "",
  c.bare,
  c.shown,
  get-delete token token a.sessions,
  eq_refl token,
)

-- After a change of the password no cookie opens anything.
new_password_ends :
    (password token : String) (r : Request) (t : Time) (a : AuthManager)
    → HasCookie token r
    → is_authenticated r t (set_admin_password password a) ≡ false
unfolding set_admin_password is_authenticated is_live get
new_password_ends password token r t a c =
    ground (arith, eq_iff r.authorization "", c.bare, c.shown)

is_live-kept :
    (token : String) (now t : Time) (o : Option SessionInfo)
    → now ≤ t
    → is_live (kept (λ k s. not (after now s.expires_at)) token o) t ≡ is_live o t
unfolding is_live
is_live-kept token now t none h = refl
is_live-kept token now t (some s) h = ground arith

module _ (now t : Time) (a : AuthManager) (us : IsUnique a.sessions) (h : now ≤ t) where
  live_cleanup :
      (token : String)
      → is_live (get token (cleanup_expired now a).sessions) t ≡ is_live (get token a.sessions) t
  unfolding cleanup_expired
  live_cleanup token =
      ap (λ (o : Option SessionInfo). is_live o t)
        (get-keep token (λ k s. not (after now s.expires_at)) a.sessions us)
      ∙ is_live-kept token now t (get token a.sessions) h

  password_cleanup :
      (p : String) → validate_password p (cleanup_expired now a) ≡ validate_password p a
  unfolding validate_password cleanup_expired
  password_cleanup p = refl

  bearer_cleanup : (o : Option String) → bearer o t (cleanup_expired now a) ≡ bearer o t a
  unfolding bearer
  bearer_cleanup none = refl
  bearer_cleanup (some k) = cc (live_cleanup k, password_cleanup k)

  basic_cleanup : (o : Option (String × String)) → basic o (cleanup_expired now a) ≡ basic o a
  unfolding basic
  basic_cleanup none = refl
  basic_cleanup (some (u, p)) = password_cleanup p

  cookie_cleanup : (o : Option String) → by_cookie o t (cleanup_expired now a) ≡ by_cookie o t a
  unfolding by_cookie
  cookie_cleanup none = refl
  cookie_cleanup (some k) = ground (arith, live_cleanup k)

  authenticated_cleanup :
      (r : Request) → is_authenticated r t (cleanup_expired now a) ≡ is_authenticated r t a
  unfolding is_authenticated
  authenticated_cleanup r = ground (
    arith,
    bearer_cleanup (strip_prefix? "Bearer " r.authorization),
    basic_cleanup r.basic_auth,
    cookie_cleanup r.cookie,
  )

rate_limit_cleanup :
    (ip : String) (now t : Time) (a : AuthManager)
    → IsUnique a.attempts
    → now ≤ t
    → check_rate_limit ip t (cleanup_expired now a) ≡ check_rate_limit ip t a
unfolding check_rate_limit cleanup_expired
rate_limit_cleanup ip now t a ua h = ground (
  arith,
  get-keep ip (λ k att. not (before att.blocked_until now && eqb att.failures 0)) a.attempts ua,
)

-- The clean-up changes no answer at or after its time: who is let in, and who is locked out.
cleanup_unseen :
    (r : Request) (ip : String) (now t : Time) (a : AuthManager)
    → IsUnique a.sessions
    → IsUnique a.attempts
    → now ≤ t
    → (is_authenticated r t (cleanup_expired now a) ≡ is_authenticated r t a)
      × (check_rate_limit ip t (cleanup_expired now a) ≡ check_rate_limit ip t a)
cleanup_unseen r ip now t a us ua h =
    (authenticated_cleanup now t a us h r, rate_limit_cleanup ip now t a ua h)
