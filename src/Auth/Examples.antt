-- ===== src/Auth/Examples.antt =====
-- A manager whose password is "pass", a visitor, and the theorems at these inputs.
use p2pt_server.Prelude.{
  ◌+◌, ◌*◌, ◌≤◌, String, true, false, none, some, List, [], ◌∷◌, ◌≡◌, refl, arith, ltb,
}
use p2pt_server.Clock.{Time, hour, zero_time}
use p2pt_server.GoMap.{get, put}
use p2pt_server.GoText.{has_char, trim_space, encode_hex}
use p2pt_server.Net.{extract_ip}
use p2pt_server.Auth.{
  AuthManager, SessionInfo, Request, welcome, session_duration, get_client_ip, new_auth_manager,
  validate_password, check_rate_limit, create_session, record_successful_attempt,
  record_failed_attempt, is_authenticated, check_password, handle_login,
}
use mathlib.Core.List.{[] as nil, ◌∷◌ as ◌::◌}
use p2pt_server.Prelude.{◌≢◌}
use p2pt_server.GoText.{decimal, digit, read_digits, split}
use p2pt_server.Net.Ip.{v4, v6, parse_ip, parse_ipv6, parse_ipv4, parse_byte, of_groups}
use p2pt_server.Net.Dotted.{dotted_text}
use p2pt_server.Auth.Access.{let_in, login_page, require_auth, require_local_network}
use p2pt_server.Auth.Networks.{is_home, require_local_network-is_home, require_auth-public}
use p2pt_server.Auth.Guesses.{AreGuesses, guesses_bounded}
use p2pt_server.Auth.Lockout.{
  IsWrongGuess, LoginEvent, checked, answered, Desk, begin_login, end_login, serve, serve_all,
}
use p2pt_server.Auth.Sessions.{HasCookie, welcome_lem}

abbrev now : Time
now = zero_time + 1000000

abbrev manager : AuthManager
manager = record { admin_password = "pass"; allow_wan_dash = false; sessions = []; attempts = [] }

abbrev login : String → Request
login password = record {
  method = "POST";
  remote_addr = "10.0.0.7:4242";
  authorization = "";
  basic_auth = none;
  cookie = none;
  password = some password;
}

abbrev visit : String → Request
visit token = record {
  method = "GET";
  remote_addr = "[fe80::1]:80";
  authorization = "";
  basic_auth = none;
  cookie = some token;
  password = none;
}

ips : (get_client_ip (login "x") ≡ "10.0.0.7") × (get_client_ip (visit "x") ≡ "fe80::1")
unfolding get_client_ip trim_space extract_ip has_char
ips = (refl, refl)

trimmed : (validate_password " pass\n" manager ≡ true) × (validate_password "past" manager ≡ false)
unfolding validate_password trim_space
trimmed = (refl, refl)

-- The password "alpine" opens a manager whose password is "admin".
alpine_for_admin : validate_password "alpine" (new_auth_manager "admin" false) ≡ true
unfolding validate_password trim_space new_auth_manager
alpine_for_admin = refl

past-IsWrongGuess : IsWrongGuess "10.0.0.7" manager (login "past")
unfolding get_client_ip trim_space extract_ip has_char validate_password
past-IsWrongGuess = record {
  posted = refl;
  from_ip = refl;
  guess = "past";
  decoded = refl;
  wrong = refl;
}

abbrev idle : Desk
idle = record { manager = manager; pending = 0; compared = 0 }

abbrev check : LoginEvent
check = checked (login "past") now

abbrev answer : LoginEvent
answer = answered (login "past") (now + 5)

abbrev one_by_one : List LoginEvent
one_by_one =
    check ∷ answer ∷ check ∷ answer ∷ check ∷ answer ∷ check ∷ answer ∷ check ∷ answer ∷ check ∷ []

-- The sixth guess is turned away.
five_compared :
    ((serve_all one_by_one idle).compared ≡ 5) × ((serve_all one_by_one idle).pending ≡ 0)
unfolding serve_all serve begin_login end_login check_password check_rate_limit
    record_failed_attempt validate_password trim_space get_client_ip extract_ip has_char get put
five_compared = (refl, refl)

abbrev at_once : List LoginEvent
at_once =
    check ∷ check ∷ check ∷ check ∷ check ∷ check ∷ check ∷ answer ∷ answer ∷ answer ∷ answer
    ∷ answer ∷ answer ∷ answer ∷ []

-- Seven guesses that come at once are all compared.
seven_compared : (serve_all at_once idle).compared ≡ 7
unfolding serve_all serve begin_login end_login check_password check_rate_limit
    record_failed_attempt validate_password trim_space get_client_ip extract_ip has_char get put
seven_compared = refl

abbrev two : List LoginEvent
two = check ∷ check ∷ answer ∷ answer ∷ []

two-AreGuesses : AreGuesses "10.0.0.7" manager now 1 2 now two idle
unfolding AreGuesses serve begin_login end_login check_password check_rate_limit
    record_failed_attempt validate_password trim_space get_client_ip extract_ip has_char get put
two-AreGuesses = (
  past-IsWrongGuess,
  omega arith,
  omega arith,
  omega arith,
  (
    past-IsWrongGuess,
    omega arith,
    omega arith,
    omega arith,
    (
      past-IsWrongGuess,
      omega arith,
      tt,
      omega arith,
      (past-IsWrongGuess, omega arith, tt, omega arith, tt),
    ),
  ),
)

guesses_bounded_example : (serve_all two idle).compared ≤ 1 * (4 + 2)
unfolding get
guesses_bounded_example =
    guesses_bounded "10.0.0.7" manager now 1 2 two (omega arith) refl two-AreGuesses

abbrev locked : AuthManager
locked = record manager {
  attempts = ("10.0.0.7", record { failures = 0; blocked_until = now + 4000000000 }) ∷ [];
}

abbrev session : SessionInfo
session = record {
  token = "0a0b";
  created_at = now + 5;
  expires_at = now + 5 + 24 * hour;
  client_ip = "10.0.0.7";
}

logged_in :
    (handle_login (login "pass") now (now + 5) (some (10 ∷ 11 ∷ [])) manager).1 ≡ welcome session
unfolding handle_login check_password check_rate_limit create_session record_successful_attempt
    validate_password trim_space get_client_ip extract_ip has_char get encode_hex
logged_in = refl

visit-HasCookie : (token : String) → HasCookie token (visit token)
visit-HasCookie token = record { bare = refl; shown = refl }

welcome_lem_example :
    (is_authenticated
        (visit "0a0b")
        (now + 6)
        (handle_login (login "pass") now (now + 5) (some (10 ∷ 11 ∷ [])) manager).0
      ≡ ltb (now + 6) (now + 5 + session_duration))
    × (password : String) × (some "pass" ≡ some password)
    × (validate_password password manager ≡ true)
welcome_lem_example =
    welcome_lem (login "pass") (visit "0a0b") now (now + 5) (now + 6) 10 (11 ∷ []) manager session
      logged_in (visit-HasCookie "0a0b")

abbrev with_session : AuthManager
with_session = record manager { sessions = ("0a0b", session) ∷ [] }

addresses :
    (parse_ip "fe80::1" ≡ some (v6 (0xFE80 :: 0 :: 0 :: 0 :: 0 :: 0 :: 0 :: 1 :: nil)))
    × (parse_ip "::ffff:10.0.0.7" ≡ some (v4 10 0 0 7))
    × (parse_ip "1:2:3:4:5:6:7::" ≡ some (v6 (1 :: 2 :: 3 :: 4 :: 5 :: 6 :: 7 :: 0 :: nil)))
    × (parse_ip "::" ≡ some (v6 (0 :: 0 :: 0 :: 0 :: 0 :: 0 :: 0 :: 0 :: nil)))
    × (parse_ip "1:2:3:4:5:6:7:8" ≡ some (v6 (1 :: 2 :: 3 :: 4 :: 5 :: 6 :: 7 :: 8 :: nil)))
unfolding parse_ip parse_ipv6 parse_ipv4 parse_byte of_groups has_char split read_digits
addresses = (refl, refl, refl, refl, refl)

no_addresses :
    (parse_ip "1::2::3" ≡ none)
    × (parse_ip "1:" ≡ none)
    × (parse_ip "1:2:3:4:5:6:7::8" ≡ none)
    × (parse_ip "12345::" ≡ none)
    × (parse_ip "fe80::1%eth0" ≡ none)
    × (parse_ip "010.0.0.7" ≡ none)
    × (parse_ip "10.0.0.256" ≡ none)
    × (parse_ip "1.2.3.4::" ≡ none)
unfolding parse_ip parse_ipv6 parse_ipv4 parse_byte of_groups has_char split read_digits
no_addresses = (refl, refl, refl, refl, refl, refl, refl, refl)

abbrev far_away : Request
far_away = record (login "pass") { remote_addr = "8.8.8.8:5000" }

far_away_ip : get_client_ip far_away ≡ dotted_text 8 8 8 8
unfolding get_client_ip trim_space extract_ip has_char dotted_text decimal digit
far_away_ip = refl

require_local_network-is_home_example : require_local_network [] far_away ≡ is_home 8 8 8
require_local_network-is_home_example =
    require_local_network-is_home [] far_away 8 8 8 8 (omega arith) (omega arith) (omega arith)
      (omega arith) far_away_ip

require_auth-public_example :
    (require_auth [] "/" "" far_away now manager ≢ let_in)
    × (require_auth [] "/" "" far_away now manager ≢ login_page)
    × (require_local_network [] far_away ≡ false)
unfolding is_home is_authenticated
require_auth-public_example =
    require_auth-public [] "/" "" far_away now manager 8 8 8 8 (omega arith) (omega arith)
      (omega arith) (omega arith) far_away_ip refl refl refl
