-- ===== src/Wifi.antt =====
-- The Wi-Fi routes of main.go: scanWiFiNetworks with the parsers of what the tools iw, iwlist and wpa_cli
-- print, and /api/wifi/configure (Configure). A parser gives the names and signals that it reports, in
-- order; the output of a tool is `none` if the tool is missing, fails or prints nothing. The
-- value of `strconv.ParseFloat` cut to an int, and the order that `sort.Slice` makes, are arguments.
pub mod Heard
pub mod Configure
mod Examples
use p2pt_server.GoMap.{GoMap, put, has}
use p2pt_server.GoText.{ℤ, pos, negsuc, split, join, parse_int, trim_space}
use p2pt_server.GoText.Cut.{has_prefix, fields, after_first, trim_prefix, trim_suffix, trim_set}
use p2pt_server.Prelude.{
  ℕ, suc, String, Bool, true, false, ◌||◌, Option, none, some, List, [], ◌∷◌, ◌≡◌, ◌==◌, eqb,
  get_or, if◌then◌else◌,
}

-- A name and a signal in dBm, as a parser reports them.
abbrev pub Report : Type 0
Report = String × ℤ

abbrev weakest : ℤ
weakest = negsuc 99

-- The names are unique, so that the list of networks is a map.
unfoldable pub add_network : Report → GoMap ℤ → GoMap ℤ
unfolding put trim_space
add_network (ssid, signal) networks =
    let name = trim_space ssid in
    if name == "" || has name networks then networks else put name signal networks

unfoldable pub add_all : List Report → GoMap ℤ → GoMap ℤ
unfolding add_network
add_all [] networks = networks
add_all (r ∷ rs) networks = add_all rs (add_network r networks)

abbrev reported : String → ℤ → List Report → List Report
reported ssid signal rs = if ssid == "" then rs else (ssid, signal) ∷ rs

module _ (parse_float : String → Option ℤ) where
  abbrev second_field : ℤ → List String → ℤ
  second_field old (a ∷ b ∷ l) = get_or old (parse_float b)
  second_field old _ = old

  unfoldable pub parse_iw : ℤ → List String → List Report
  unfolding has_prefix fields trim_prefix trim_space
  parse_iw signal [] = []
  parse_iw signal (l ∷ ls) =
      let line = trim_space l in
      let heard = parse_iw (second_field signal (fields line)) ls in
      let named = parse_iw weakest ls in
      let rest = parse_iw signal ls in
      if has_prefix "signal:" line
      then heard
      else if has_prefix "SSID:" line
      then reported (trim_space (trim_prefix "SSID:" line)) signal named
      else rest

  unfoldable pub parse_iw_scan_output : String → List Report
  unfolding parse_iw split
  parse_iw_scan_output raw = parse_iw weakest (split "\n" raw)

abbrev number_or_weakest : String → ℤ
number_or_weakest s = get_or weakest (parse_int s)

-- Five columns or more, of which the third and the fifth count.
abbrev wpa_columns : List String → Option Report
wpa_columns (a ∷ b ∷ c ∷ d ∷ e ∷ l) = some (trim_space e, number_or_weakest c)
wpa_columns _ = none

abbrev wpa_fields : List String → List Report → List Report
wpa_fields (a ∷ b ∷ c ∷ d ∷ e ∷ l) rs = reported (join " " (e ∷ l)) (number_or_weakest c) rs
wpa_fields _ rs = rs

abbrev wpa_line : String → Option Report → List Report → List Report
wpa_line line none rs = wpa_fields (fields line) rs
wpa_line line (some (ssid, signal)) rs = reported ssid signal rs

unfoldable pub parse_wpa_cli : List String → List Report
unfolding has_prefix fields trim_space split parse_int join
parse_wpa_cli [] = []
parse_wpa_cli (l ∷ ls) =
    let line = trim_space l in
    let rest = parse_wpa_cli ls in
    if line == "" || has_prefix "bssid" line
    then rest
    else wpa_line line (wpa_columns (split "\t" line)) rest

unfoldable pub parse_wpa_cli_scan_output : String → List Report
unfolding parse_wpa_cli split
parse_wpa_cli_scan_output raw = parse_wpa_cli (split "\n" raw)

abbrev is_iwlist_quote : ℕ → Bool
is_iwlist_quote c = eqb c 0x22 || eqb c b'\'' || eqb c b'\r' || eqb c b' '

abbrev level : ℤ → List String → ℤ
level old [] = old
level old (f ∷ l) = get_or old (parse_int (trim_suffix "dBm" f))

abbrev iwlist_line : ℤ → String → Option String → (ℤ → List Report) → List Report
iwlist_line signal line (some sub) later = later (level signal (fields sub))
iwlist_line signal line none later =
    if has_prefix "ESSID:" line
    then reported (trim_set is_iwlist_quote (trim_prefix "ESSID:" line)) signal (later weakest)
    else later signal

unfoldable pub parse_iwlist : ℤ → List String → List Report
unfolding has_prefix fields trim_space trim_set trim_prefix trim_suffix parse_int after_first
parse_iwlist signal [] = []
parse_iwlist signal (l ∷ ls) =
    iwlist_line signal (trim_space l) (after_first "Signal level=" (trim_space l))
      (λ s. parse_iwlist s ls)

unfoldable pub parse_iwlist_scan_output : String → List Report
unfolding parse_iwlist split
parse_iwlist_scan_output raw = parse_iwlist weakest (split "\n" raw)

-- What a tool reports, if it runs.
abbrev heard_by : (String → List Report) → Option String → List Report
heard_by parse none = []
heard_by parse (some out) = parse out

-- A tool is tried if none before it found a network.
abbrev next_tool : List Report → GoMap ℤ → GoMap ℤ
next_tool reports [] = add_all reports []
next_tool reports (n ∷ networks) = n ∷ networks

unfoldable pub scan_wi_fi_networks :
    (String → Option ℤ)
    → (GoMap ℤ → GoMap ℤ)
    → Option String
    → Option String
    → Option String
    → GoMap ℤ
unfolding add_all parse_iw_scan_output parse_iwlist_scan_output parse_wpa_cli_scan_output
scan_wi_fi_networks parse_float sort iw iwlist wpa_cli = sort (
    next_tool (heard_by parse_wpa_cli_scan_output wpa_cli) (
      next_tool (heard_by parse_iwlist_scan_output iwlist)
        (add_all (heard_by (parse_iw_scan_output parse_float) iw) [])))
