-- ===== src/Wifi/Examples.antt =====
-- Scans and settings of the Wi-Fi on concrete inputs.
use p2pt_server.Auth.{
  AuthManager, Request, too_many, is_authenticated, validate_password, get_client_ip, handle_login,
}
use p2pt_server.Auth.Lockout.{standing}
use p2pt_server.Clock.{second, zero_time}
use p2pt_server.Net.{extract_ip}
use p2pt_server.GoText.{has_char}
use p2pt_server.Auth.Access.{
  require_local_network, is_private_or_local_request, is_local_ip, is_in_range,
}
use p2pt_server.Net.Ip.{parse_ip, parse_ipv4, parse_byte, is_private, is_loopback}
use p2pt_server.GoMap.{GoMap, get, put, IsUnique}
use p2pt_server.GoMap.Laws.{Visits-refl}
use p2pt_server.GoText.{
  ℤ, negsuc, split, join, parse_int, in_range, read_natural, read_digits, strip_prefix?, trim_left,
  trim_right, trim_space,
}
use p2pt_server.GoText.Cut.{
  has_prefix, fields, words, after_first, trim_prefix, trim_suffix, trim_set, drop_set,
  drop_set_last,
}
use p2pt_server.Prelude.{
  List, ◌+◌, ◌-◌, ◌/◌, arith, eq_iff, String, false, not, ◌&&◌, ◌||◌, Option, none, some, [], ◌∷◌,
  ◌≡◌, refl, ◌==◌, if◌then◌else◌,
}
use p2pt_server.Wifi.{
  add_network, add_all, heard_by, parse_iw, parse_iw_scan_output, parse_iwlist,
  parse_iwlist_scan_output, parse_wpa_cli, parse_wpa_cli_scan_output, scan_wi_fi_networks,
}
use p2pt_server.Wifi.Configure.{
  WifiPayload, Visit, handle_wifi_configure, configure_all, is_saved, configure_past_lockout,
}
use p2pt_server.Wifi.Heard.{chosen, first_heard, scan_wi_fi_networks_lem}

-- A strconv.ParseFloat that reads two numbers.
abbrev parse_float : String → Option ℤ
parse_float s =
    if s == "-48.00" then some (negsuc 47) else if s == "-71.00" then some (negsuc 70) else none

abbrev iw_output : String
iw_output =
    "BSS 00:11\n\tsignal: -71.00 dBm\n\tSSID: casa\nBSS 00:12\n\tsignal: -48.00 dBm\n\tSSID: casa\n\tSSID: \n\tSSID: bar\n"

iw_reports :
    parse_iw_scan_output parse_float iw_output
    ≡ ("casa", negsuc 70) ∷ ("casa", negsuc 47) ∷ ("bar", negsuc 99) ∷ []
unfolding parse_iw_scan_output parse_iw split has_prefix strip_prefix? fields words trim_prefix
    trim_space trim_left trim_right
iw_reports = refl

iwlist_reports :
    parse_iwlist_scan_output
      "Quality=4/7  Signal level=-52 dBm\n  ESSID:\"my net\"\n Signal level=-60dBm\nESSID:\"\"\nESSID:'x'"
    ≡ ("my net", negsuc 51) ∷ ("x", negsuc 99) ∷ []
unfolding parse_iwlist_scan_output parse_iwlist split after_first has_prefix strip_prefix? fields
    words trim_prefix trim_suffix trim_set drop_set drop_set_last trim_space trim_left trim_right
    parse_int in_range read_natural read_digits
iwlist_reports = refl

wpa_reports :
    parse_wpa_cli_scan_output
      "bssid / frequency\n00:11\t2412\t-40\t[WPA2]\tcasa\n00:12 2412 -50 [ESS] my net\n"
    ≡ ("casa", negsuc 39) ∷ ("my net", negsuc 49) ∷ []
unfolding parse_wpa_cli_scan_output parse_wpa_cli split has_prefix strip_prefix? fields words join
    trim_space trim_left trim_right parse_int in_range read_natural read_digits
wpa_reports = refl

abbrev unsorted : GoMap ℤ → GoMap ℤ
unsorted m = m

scan_wi_fi_networks_lem_example :
    let networks = scan_wi_fi_networks parse_float unsorted (some iw_output) none none in
    let reports =
      chosen
        (heard_by (parse_iw_scan_output parse_float) (some iw_output))
        (heard_by parse_iwlist_scan_output none)
        (heard_by parse_wpa_cli_scan_output none) in
    IsUnique networks
    × (get "casa" networks ≡ (if "casa" == "" then none else first_heard "casa" reports))
scan_wi_fi_networks_lem_example =
    scan_wi_fi_networks_lem parse_float unsorted (some iw_output) none none "casa" Visits-refl

-- A network that a nearer station repeats is listed with the signal of the farther one.
first_signal_stays :
    scan_wi_fi_networks parse_float unsorted (some iw_output) none none
    ≡ ("casa", negsuc 70) ∷ ("bar", negsuc 99) ∷ []
unfolding scan_wi_fi_networks add_all add_network get put parse_iw_scan_output parse_iw split
    has_prefix strip_prefix? fields words trim_prefix trim_space trim_left trim_right
first_signal_stays = refl

-- The client's address is locked out for a while yet.
abbrev locked : AuthManager
locked = record {
  admin_password = "pass";
  allow_wan_dash = false;
  sessions = [];
  attempts = ("10.0.0.7", record { failures = 5; blocked_until = zero_time + 900 }) ∷ [];
}

abbrev request : Request
request = record {
  method = "POST";
  remote_addr = "10.0.0.7:4242";
  authorization = "";
  basic_auth = none;
  cookie = none;
  password = none;
}

abbrev payload : WifiPayload
payload = record {
  ssid = "casa";
  password = "secreto";
  ip_mode = "static";
  ip = "192.168.1.9";
  netmask = "";
  gateway = "";
  dns = "9.9.9.9";
  reboot = false;
  admin_password = "pass";
}

-- Two wrong passwords, and then the right one.
abbrev wrong_visits : List Visit
wrong_visits =
    record {
      request = request;
      now = zero_time + 90;
      payload = some (record payload { admin_password = "x" });
    }
    ∷ record {
      request = request;
      now = zero_time + 95;
      payload = some (record payload { admin_password = "y" });
    }
    ∷ []

configure_past_lockout_example :
    let a' = configure_all [] wrong_visits locked in
    ((handle_login request (zero_time + 100) (zero_time + 101) none a').1
      ≡ too_many
          (((standing (get_client_ip request) locked).blocked_until - (zero_time + 100)) / second))
    × (is_saved ((handle_wifi_configure [] request (zero_time + 100) (some payload) a').1) ≡ (
        is_authenticated request (zero_time + 100) locked
        || (not (payload.admin_password == "")
            && validate_password (payload.admin_password) locked)))
unfolding require_local_network is_private_or_local_request is_local_ip is_in_range is_private
    is_loopback get_client_ip trim_space trim_left trim_right extract_ip has_char get parse_ip
    parse_ipv4 parse_byte split read_digits
configure_past_lockout_example =
    configure_past_lockout [] wrong_visits request (zero_time + 100) (zero_time + 101) none payload
      locked refl refl (ground (arith, eq_iff "casa" "")) (omega arith) (omega arith)
