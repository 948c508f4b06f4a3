-- ===== src/Wifi/Configure.antt =====
-- /api/wifi/configure of main.go: the files that the appliance reads at its next start.
use Prim.Native.String.{◌++◌}
use p2pt_server.Auth.{
  AuthManager, Request, LoginReply, too_many, is_authenticated, validate_password, get_client_ip,
  handle_login,
}
use p2pt_server.Auth.Lockout.{standing, handle_login-blocked}
use p2pt_server.Auth.Access.{IpNet, require_local_network}
use p2pt_server.Clock.{Time, second, zero_time}
use p2pt_server.GoText.{trim_space}
use p2pt_server.Prelude.{
  String, Bool, true, false, not, ◌&&◌, ◌||◌, Option, none, some, List, ◌≡◌, ap, refl, arith, ◌==◌,
  eq_iff, if◌then◌else◌, Bool-cases, inl, inr, ℕ, ◌<◌, ◌≤◌, ◌-◌, ◌/◌, [], ◌∷◌, ◌≢◌, sym, ◌∙◌, ==_ne,
  if_cases, false≢true,
}

-- The JSON of the body; a field that is missing is an empty text.
pub record WifiPayload : Type 0 where
  pub ssid : String
  pub password : String
  pub ip_mode : String
  pub ip : String
  pub netmask : String
  pub gateway : String
  pub dns : String
  pub reboot : Bool
  pub admin_password : String

-- The files on the card: wifi.txt, and ip.txt, which is removed for `none`.
pub record Files : Type 0 where
  pub wifi_txt : String
  pub ip_txt : Option String

pub data ConfigureReply : Type 0 where
  not_local allowed post_required invalid_json unauthorized no_ssid : ConfigureReply
  saved : Files → Bool → ConfigureReply

abbrev or_default : String → String → String
or_default d s = if s == "" then d else s

abbrev wifi_content : String → String → String
wifi_content ssid pass = "SSID=" ++ ssid ++ "\nPASS=" ++ pass ++ "\n"

abbrev ip_content : WifiPayload → String
ip_content p =
    "IP="
    ++ p.ip
    ++ "\nNETMASK="
    ++ or_default "255.255.255.0" (p.netmask)
    ++ "\nGATEWAY="
    ++ or_default "192.168.1.1" (p.gateway)
    ++ "\nDNS="
    ++ or_default "1.1.1.1 8.8.8.8" (p.dns)
    ++ "\n"

unfoldable pub files : WifiPayload → Files
unfolding trim_space
files p = record {
  wifi_txt = wifi_content (trim_space (p.ssid)) (trim_space (p.password));
  ip_txt = if p.ip_mode == "static" && not (p.ip == "") then some (ip_content p) else none;
}

-- A session, or the administrator's password in the body.
unfoldable pub may_configure : Request → Time → WifiPayload → AuthManager → Bool
may_configure r now p a =
    is_authenticated r now a
    || (not (p.admin_password == "") && validate_password (p.admin_password) a)

abbrev configure : WifiPayload → ConfigureReply
configure p = if trim_space (p.ssid) == "" then no_ssid else saved (files p) (p.reboot)

-- The manager is only read.
abbrev decoded : Request → Time → AuthManager → Option WifiPayload → AuthManager × ConfigureReply
decoded r now a none = (a, invalid_json)
decoded r now a (some p) = if may_configure r now p a then (a, configure p) else (a, unauthorized)

unfoldable pub handle_wifi_configure :
    List IpNet → Request → Time → Option WifiPayload → AuthManager → AuthManager × ConfigureReply
unfolding files may_configure trim_space
handle_wifi_configure nets r now payload a =
    if not (require_local_network nets r)
    then (a, not_local)
    else if r.method == "OPTIONS"
    then (a, allowed)
    else if r.method == "POST"
    then decoded r now a payload
    else (a, post_required)

-- A request, the time it is answered at, and its body.
pub record Visit : Type 0 where
  pub request : Request
  pub now : Time
  pub payload : Option WifiPayload

-- Requests to /api/wifi/configure, one after the other.
unfoldable pub configure_all : List IpNet → List Visit → AuthManager → AuthManager
unfolding handle_wifi_configure
configure_all nets [] a = a
configure_all nets (v ∷ vs) a =
    configure_all nets vs (handle_wifi_configure nets (v.request) (v.now) (v.payload) a).0

abbrev pub is_saved : ConfigureReply → Bool
is_saved (saved f reboot) = true
is_saved _ = false

-- No method is two methods.
one_method : (m : String) → ((m == "OPTIONS") && (m == "POST")) ≡ false
one_method m = elim (Bool-cases (m == "POST")) [
  | inl e ↦ rw (ap (λ (x : String). x == "OPTIONS") ((eq_iff m "POST").0 e)) refl
  | inr e ↦ ground arith
]

five_tests :
    (a : AuthManager) (f : Files) (reboot near options post nameless may : Bool)
    → (options && post) ≡ false
    → let r : AuthManager × ConfigureReply =
        if not near
        then (a, not_local)
        else if options
        then (a, allowed)
        else if post
        then (if may
            then (a, (if nameless then no_ssid else saved f reboot))
            else (a, unauthorized))
        else (a, post_required) in
      (is_saved (r.1) ≡ (near && post && not nameless && may)) × (r.0 ≡ a)
five_tests a f reboot false options post nameless may h = (refl, refl)
five_tests a f reboot true true true nameless may h = absurd (false≢true (sym h))
five_tests a f reboot true true false nameless may h = (refl, refl)
five_tests a f reboot true false false nameless may h = (refl, refl)
five_tests a f reboot true false true true true h = (refl, refl)
five_tests a f reboot true false true true false h = (refl, refl)
five_tests a f reboot true false true false true h = (refl, refl)
five_tests a f reboot true false true false false h = (refl, refl)

handle_wifi_configure_lem :
    (nets : List IpNet) (r : Request) (now : Time) (p : WifiPayload) (a : AuthManager)
    → let reply = handle_wifi_configure nets r now (some p) a in
      (is_saved (reply.1) ≡ (
        require_local_network nets r
        && (r.method == "POST")
        && not (trim_space (p.ssid) == "")
        && may_configure r now p a))
      × (reply.0 ≡ a)
unfolding handle_wifi_configure
handle_wifi_configure_lem nets r now p a =
    five_tests a (files p) (p.reboot) (require_local_network nets r) (r.method == "OPTIONS")
      (r.method == "POST") (trim_space (p.ssid) == "") (may_configure r now p a)
      (one_method (r.method))

handle_wifi_configure-same :
    (nets : List IpNet) (r : Request) (now : Time) (payload : Option WifiPayload) (a : AuthManager)
    → (handle_wifi_configure nets r now payload a).0 ≡ a
unfolding handle_wifi_configure
handle_wifi_configure-same nets r now (some p) a = (handle_wifi_configure_lem nets r now p a).1
handle_wifi_configure-same nets r now none a =
    let same = λ (x : AuthManager × ConfigureReply). x.0 ≡ a in
    if_cases same (not (require_local_network nets r)) (λ _. refl)
      (λ _.
        if_cases same (r.method == "OPTIONS") (λ _. refl)
          (λ _. if_cases same (r.method == "POST") (λ _. refl) (λ _. refl)))

configure_all-same :
    (nets : List IpNet) (vs : List Visit) (a : AuthManager) → configure_all nets vs a ≡ a
unfolding configure_all
configure_all-same nets [] a = refl
configure_all-same nets (v ∷ vs) a =
    configure_all-same nets vs (handle_wifi_configure nets (v.request) (v.now) (v.payload) a).0
    ∙ handle_wifi_configure-same nets (v.request) (v.now) (v.payload) a

-- After any requests to /api/wifi/configure, from wherever and with whatever passwords: if an
-- address of the local network was locked out of the login before them, and by the clock, which
-- stands after the year 1, still is, then a POST of its to HandleLogin is turned away with the
-- seconds that are left, but one to /api/wifi/configure that names a network is answered as if
-- nobody had guessed: the files are written exactly if it has a session or a password, not an
-- empty one, that is the administrator's.
pub configure_past_lockout :
    (nets : List IpNet) (vs : List Visit) (r : Request) (now later : Time)
    (random : Option (List ℕ)) (p : WifiPayload) (a : AuthManager)
    → r.method ≡ "POST"
    → require_local_network nets r ≡ true
    → trim_space (p.ssid) ≢ ""
    → zero_time ≤ now
    → now < ((standing (get_client_ip r) a).blocked_until)
    → let a' = configure_all nets vs a in
      ((handle_login r now later random a').1
        ≡ too_many ((((standing (get_client_ip r) a).blocked_until) - now) / second))
      × (is_saved ((handle_wifi_configure nets r now (some p) a').1) ≡ (
          is_authenticated r now a
          || (not (p.admin_password == "") && validate_password (p.admin_password) a)))
unfolding may_configure
configure_past_lockout nets vs r now later random p a post near named recent blocked =
    let same = configure_all-same nets vs a in
    let (saves, kept) = handle_wifi_configure_lem nets r now p a in
    rw same (
      ap (λ (x : AuthManager × LoginReply). x.1)
          (handle_login-blocked r now later random a post recent blocked),
      saves
          ∙ rw (near, (eq_iff (r.method) "POST").1 post, ==_ne (trim_space (p.ssid)) "" named) refl,
    )
