-- ===== src/Auth/Lockout.antt =====
-- Guessing the password: the lock-out of an address, and logins that run at the same time.
use p2pt_server.Prelude.{
  ℕ, zero, suc, none, ◌+◌, ◌-◌, ◌/◌, ◌≤◌, ◌<◌, String, true, false, Option, some, List, [], ◌∷◌,
  ◌≡◌, refl, arith, ltb, leb, lt→ltb, get_or, eq_iff, eq_refl, inl, inr, Bool-cases, if◌then◌else◌,
  ◌==◌,
}
use p2pt_server.Clock.{Time, second, zero_time}
use p2pt_server.GoMap.{get}
use p2pt_server.GoMap.Laws.{get-put}
use p2pt_server.Auth.{
  AuthManager, Request, LoginAttempt, LoginReply, post_required, too_many, max_login_failures,
  lockout_duration, get_client_ip, validate_password, check_rate_limit, record_failed_attempt,
  check_password, handle_login,
}

-- The failures that are counted against an address, and the end of its lock-out.
abbrev pub standing : String → AuthManager → LoginAttempt
standing ip a = get_or (record { failures = 0; blocked_until = zero_time }) (get ip a.attempts)

-- The lock-out test, in one line: no entry is an entry that blocks until the year 1.
pub check_rate_limit_lem :
    (ip : String) (now : Time) (a : AuthManager)
    → zero_time ≤ now
    → check_rate_limit ip now a
      ≡ (let b = (standing ip a).blocked_until in if ltb now b then (true, b - now) else (false, 0))
unfolding check_rate_limit
check_rate_limit_lem ip now a h = ground arith

-- While an address is locked out, a login from it is turned away with the seconds that are left,
-- whatever the password, and changes nothing.
pub handle_login-blocked :
    (r : Request) (now later : Time) (random : Option (List ℕ)) (a : AuthManager)
    → r.method ≡ "POST"
    → zero_time ≤ now
    → now < (standing (get_client_ip r) a).blocked_until
    → handle_login r now later random a
      ≡ (a, too_many (((standing (get_client_ip r) a).blocked_until - now) / second))
unfolding handle_login
handle_login-blocked r now later random a post recent blocked = ground (
  arith,
  eq_iff r.method "POST",
  check_rate_limit_lem (get_client_ip r) now a recent,
  lt→ltb now (standing (get_client_ip r) a).blocked_until blocked,
)

pub standing-record_failed_attempt :
    (ip : String) (now : Time) (a : AuthManager)
    → let s = standing ip a in
      standing ip (record_failed_attempt ip now a).0 ≡ (
        if leb max_login_failures (s.failures + 1)
        then record { failures = 0; blocked_until = now + lockout_duration }
        else record { failures = s.failures + 1; blocked_until = s.blocked_until })
unfolding record_failed_attempt
standing-record_failed_attempt ip now a =
    elim (Bool-cases (leb max_login_failures ((standing ip a).failures + 1))) [
      | inl y ↦
          rw (y, record_failed_attempt)
            (ground (
              arith,
              get-put ip ip (record { failures = 0; blocked_until = now + lockout_duration })
                  a.attempts,
              eq_refl ip,
            ))
      | inr n ↦
          rw (n, record_failed_attempt)
            (ground (
              arith,
              get-put ip ip (record (standing ip a) { failures = (standing ip a).failures + 1 })
                  a.attempts,
              eq_refl ip,
            ))
    ]

-- A POST from `ip` whose password decodes and is not the administrator's.
pub record IsWrongGuess (ip : String) (a : AuthManager) (r : Request) : Type 0 where
  pub posted : r.method ≡ "POST"
  pub from_ip : get_client_ip r ≡ ip
  pub guess : String
  pub decoded : r.password ≡ some guess
  pub wrong : validate_password guess a ≡ false

-- What HandleLogin does before it reads the body; `none` if it goes on.
unfoldable pub begin_login : Request → Time → AuthManager → Option LoginReply
unfolding check_rate_limit get_client_ip
begin_login r now a =
    if r.method == "POST"
    then (let (blocked, duration) = check_rate_limit (get_client_ip r) now a in
        if blocked then some (too_many (duration / second)) else none)
    else some post_required

-- What it does once it has the body.
unfoldable pub end_login : Request → Time → Option (List ℕ) → AuthManager → AuthManager × LoginReply
unfolding check_password get_client_ip
end_login r later random a = check_password (get_client_ip r) later random (r.password) a

-- A login that nothing comes in between of does the one and then, if it goes on, the other.
handle_login_lem :
    (r : Request) (now later : Time) (random : Option (List ℕ)) (a : AuthManager)
    → handle_login r now later random a
      ≡ elim (begin_login r now a) as (λ _. AuthManager × LoginReply) [
        | none ↦ end_login r later random a
        | some reply ↦ (a, reply)
      ]
unfolding handle_login begin_login end_login
handle_login_lem r now later random a = elim (Bool-cases (r.method == "POST")) [
  | inr n ↦ rw n refl
  | inl y ↦ elim (Bool-cases (check_rate_limit (get_client_ip r) now a).0) [
    | inl b ↦ rw (y, b) refl
    | inr b ↦ rw (y, b) refl
  ]
]

-- Logins run at the same time: each is checked once, and once more if it goes on, its password is
-- compared; the time of either comes with it.
pub data LoginEvent : Type 0 where
  checked : Request → Time → LoginEvent
  answered : Request → Time → LoginEvent

-- The manager, the number of logins that have passed the check and are not answered yet, and the
-- number of passwords that were compared.
pub record Desk : Type 0 where
  pub manager : AuthManager
  pub pending : ℕ
  pub compared : ℕ

abbrev pub entered : Desk → Option LoginReply → Desk
entered d none = record d { pending = suc (d.pending) }
entered d (some reply) = d

-- An answer to a login that has passed the check, if there is one.
abbrev pub left : Request → Time → Desk → ℕ → Desk
left r later d zero = d
left r later d (suc p) = record {
  manager = (end_login r later none (d.manager)).0;
  pending = p;
  compared = suc (d.compared);
}

unfoldable pub serve : LoginEvent → Desk → Desk
unfolding begin_login end_login
serve (checked r now) d = entered d (begin_login r now (d.manager))
serve (answered r later) d = left r later d (d.pending)

unfoldable pub serve_all : List LoginEvent → Desk → Desk
unfolding serve
serve_all [] d = d
serve_all (e ∷ es) d = serve_all es (serve e d)
