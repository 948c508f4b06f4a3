-- ===== src/Auth.antt =====
-- auth.go: the administrator's password, login sessions, and the lock-out of those who guess.
--
-- A `Request` holds what the methods read of an `*http.Request`, as Go's `net/http` hands it over:
-- the cookie and the basic credentials are parsed, and the body is decoded. A session's and an
-- attempt's pointer stand in one map only, so that the maps hold the values.
pub mod Lockout
pub mod Guesses
pub mod Sessions
pub mod Access
pub mod Networks
mod Examples
use p2pt_server.Prelude.{
  ℕ, suc, ◌+◌, ◌-◌, ◌*◌, ◌/◌, String, Bool, true, false, ◌&&◌, ◌||◌, not, Option, none, some, List,
  [], ◌==◌, eqb, ltb, leb, get_or, if◌then◌else◌,
}
use p2pt_server.Clock.{Time, second, minute, hour, zero_time, after, before}
use p2pt_server.GoMap.{GoMap, get, put, delete, keep}
use p2pt_server.GoText.{trim_space, strip_prefix?, encode_hex}
use p2pt_server.Net.{extract_ip}

abbrev pub session_duration : ℕ
session_duration = 24 * hour

abbrev pub max_login_failures : ℕ
max_login_failures = 5

abbrev pub lockout_duration : ℕ
lockout_duration = 5 * minute

pub record SessionInfo : Type 0 where
  pub token : String
  pub created_at : Time
  pub expires_at : Time
  pub client_ip : String

pub record LoginAttempt : Type 0 where
  pub failures : ℕ
  pub blocked_until : Time

pub record AuthManager : Type 0 where
  pub admin_password : String
  pub allow_wan_dash : Bool
  pub sessions : GoMap SessionInfo
  pub attempts : GoMap LoginAttempt

pub record Request : Type 0 where
  pub method : String
  pub remote_addr : String
  pub authorization : String
  pub basic_auth : Option (String × String)
  pub cookie : Option String
  -- the password of a JSON body; `none` if the body does not decode
  pub password : Option String

pub new_auth_manager : String → Bool → AuthManager
new_auth_manager password allow_wan_dash = record {
  admin_password = trim_space password;
  allow_wan_dash = allow_wan_dash;
  sessions = [];
  attempts = [];
}

-- Every session ends when the password changes.
pub set_admin_password : String → AuthManager → AuthManager
set_admin_password password a = record a { admin_password = trim_space password; sessions = [] }

pub cleanup_expired : Time → AuthManager → AuthManager
cleanup_expired now a = record a {
  sessions = keep (λ token s. not (after now s.expires_at)) a.sessions;
  attempts = keep (λ ip att. not (before att.blocked_until now && eqb att.failures 0)) a.attempts;
}

unfoldable pub get_client_ip : Request → String
get_client_ip r = trim_space (extract_ip r.remote_addr)

-- The password that is asked for: "admin" if none is set.
abbrev pub expected : AuthManager → String
expected a = if a.admin_password == "" then "admin" else a.admin_password

pub validate_password : String → AuthManager → Bool
validate_password candidate a =
    let cand = trim_space candidate in
    if cand == expected a
    then true
    else (expected a == "alpine" && cand == "admin") || (expected a == "admin" && cand == "alpine")

-- Whether the address is locked out, and for how long.
pub check_rate_limit : String → Time → AuthManager → Bool × ℕ
check_rate_limit ip now a = elim (get ip a.attempts) [
  | none ↦ (false, 0)
  | some att ↦ if after att.blocked_until now then (true, att.blocked_until - now) else (false, 0)
]

-- Counts a failure: the attempts that remain, and whether the address is now blocked.
pub record_failed_attempt : String → Time → AuthManager → AuthManager × ℕ × Bool
record_failed_attempt ip now a =
    let att = get_or (record { failures = 0; blocked_until = zero_time }) (get ip a.attempts) in
    let n = att.failures + 1 in
    if leb max_login_failures n
    then (
      record a {
        attempts =
            put ip (record { failures = 0; blocked_until = now + lockout_duration }) a.attempts;
      },
      0,
      true,
    )
    else (
      record a { attempts = put ip (record att { failures = n }) a.attempts },
      max_login_failures - n,
      false,
    )

pub record_successful_attempt : String → AuthManager → AuthManager
record_successful_attempt ip a = record a { attempts = delete ip a.attempts }

-- `random` holds the 32 bytes of `rand.Read`, or `none` for its error.
pub create_session :
    String → Time → Option (List ℕ) → AuthManager → AuthManager × Option SessionInfo
create_session client_ip now none a = (a, none)
create_session client_ip now (some bytes) a =
    let sess : SessionInfo = record {
      token = encode_hex bytes;
      created_at = now;
      expires_at = now + session_duration;
      client_ip = client_ip;
    } in
    (record a { sessions = put sess.token sess a.sessions }, some sess)

-- `exists && time.Now().Before(sess.ExpiresAt)`
pub is_live : Option SessionInfo → Time → Bool
is_live none now = false
is_live (some s) now = before now s.expires_at

bearer : Option String → Time → AuthManager → Bool
bearer none now a = false
bearer (some token) now a = validate_password token a || is_live (get token a.sessions) now

basic : Option (String × String) → AuthManager → Bool
basic none a = false
basic (some (user, password)) a = validate_password password a

by_cookie : Option String → Time → AuthManager → Bool
by_cookie none now a = false
by_cookie (some value) now a = if value == "" then false else is_live (get value a.sessions) now

pub is_authenticated : Request → Time → AuthManager → Bool
unfolding bearer basic by_cookie
is_authenticated r now a =
    (if r.authorization == ""
      then false
      else bearer (strip_prefix? "Bearer " r.authorization) now a || basic r.basic_auth a)
    || by_cookie r.cookie now a

-- What `HandleLogin` answers.
pub data LoginReply : Type 0 where
  post_required : LoginReply
  too_many : ℕ → LoginReply
  invalid_json : LoginReply
  wrong_locked : LoginReply
  wrong_remaining : ℕ → LoginReply
  no_session : LoginReply
  welcome : SessionInfo → LoginReply

-- The status line.
pub status : LoginReply → ℕ
status post_required = 405
status (too_many secs) = 429
status invalid_json = 400
status wrong_locked = 401
status (wrong_remaining n) = 401
status no_session = 500
status (welcome s) = 200

after_failure : AuthManager × ℕ × Bool → AuthManager × LoginReply
after_failure (a, remaining, true) = (a, wrong_locked)
after_failure (a, remaining, false) = (a, wrong_remaining remaining)

after_session : AuthManager × Option SessionInfo → AuthManager × LoginReply
after_session (a, none) = (a, no_session)
after_session (a, some s) = (a, welcome s)

check_password :
    String → Time → Option (List ℕ) → Option String → AuthManager → AuthManager × LoginReply
unfolding after_failure after_session
check_password ip now random none a = (a, invalid_json)
check_password ip now random (some password) a =
    if validate_password password a
    then after_session (create_session ip now random (record_successful_attempt ip a))
    else after_failure (record_failed_attempt ip now a)

-- A login with nothing in between. `now` is the reading of the clock by `CheckRateLimit`, and `later`
-- that by what follows it. Lockout takes the two apart.
pub handle_login : Request → Time → Time → Option (List ℕ) → AuthManager → AuthManager × LoginReply
unfolding check_password
handle_login r now later random a =
    if r.method == "POST"
    then (let ip = get_client_ip r in
        let (blocked, duration) = check_rate_limit ip now a in
        if blocked
        then (a, too_many (duration / second))
        else check_password ip later random r.password a)
    else (a, post_required)

-- The session of the cookie ends.
pub handle_logout : Request → AuthManager → AuthManager
handle_logout r a = elim r.cookie [
  | none ↦ a
  | some value ↦ if value == "" then a else record a { sessions = delete value a.sessions }
]
