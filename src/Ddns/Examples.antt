-- ===== src/Ddns/Examples.antt =====
-- Dynamic DNS on concrete inputs.
use Prim.Native.Char.{Char, code}
use p2pt_server.Clock.{Time, zero_time}
use p2pt_server.ConfigStorage.{Config, load_env_file, save_config_to_env, has_nul, is_quote}
use p2pt_server.ConfigStorage.Lines.{IsPlain}
use p2pt_server.ConfigStorage.Saved.{HasPlainTexts}
use p2pt_server.ConfigStorage.Settings.{default_flags, config_of}
use p2pt_server.Ddns.{
  DuckDnsManager, not_initialised, set_status, failed, body, World, answer, conclude, attempt,
  update, renew, set_credentials, clean_duck_domain, format_full_domain,
}
use p2pt_server.Ddns.Api.{
  Settings, DuckPayload, ConfigPayload, after_update, handle_duckdns, handle_config, with_duck,
  with_payload, handle_duckdns_lem, handle_config-restart,
}
use p2pt_server.Ddns.CloudHub.{
  CloudHubDdnsManager, HubResult, HubReply, failed as hub_failed, answered,
  new_cloud_hub_ddns_manager, endpoint,
}
use p2pt_server.Ddns.Ipv6.{Interface, is_global_unicast_ipv6, first_global, scan, get_global_ipv6}
use p2pt_server.Ddns.Outcome.{sends, reply_ok}
use p2pt_server.Ddns.Reports.{run as run_hub, last_reported, run-last_reported}
use p2pt_server.GoText.{pos, has_char, has_suffix, strip_prefix?, trim_left, trim_right, trim_space}
use p2pt_server.GoText.Cut.{
  has_prefix, contains, trim_suffix, lower, trim_set, drop_set, drop_set_last,
}
use p2pt_server.Net.Dotted.{Free-has_char}
use p2pt_server.Net.Ip.{
  v4, v6, first_group, groups_value, is_loopback, is_private, is_link_local_unicast,
}
use p2pt_server.Prelude.{
  String, true, false, ◌&&◌, none, some, Option, List, [], ◌∷◌, ◌≡◌, refl, arith, eq_iff, ◌==◌, eqb,
  if◌then◌else◌,
}

-- A unicode.ToLower that knows one letter.
abbrev to_lower : Char → Char
to_lower c = if eqb (code c) b'H' then "h" else c

abbrev well : World
well = record {
  now = 100;
  ipv6 = "";
  request_error = none;
  first = body "OK\n";
  retry = failed "not made";
}

abbrev wrong_clock : World
wrong_clock = record {
  now = 100;
  ipv6 = "";
  request_error = none;
  first = failed "tls: failed to verify certificate: x509: certificate has expired";
  retry = body "OK";
}

abbrev offline : World
offline = record {
  now = 200;
  ipv6 = "";
  request_error = none;
  first = failed "no route to host";
  retry = failed "";
}

abbrev manager : DuckDnsManager
manager = record {
  domain = "home";
  token = "t1";
  status = record {
    enabled = true;
    domain = "home";
    full_domain = "home.duckdns.org";
    last_update = zero_time;
    last_success = false;
    last_message = not_initialised;
    current_ip = "";
    current_ipv6 = "";
    next_update_in = "";
  };
}

-- The program's names.
names :
    (clean_duck_domain to_lower " Home.duckdns.org\n" ≡ "home")
    × (clean_duck_domain to_lower "a.duckdns.org.duckdns.org" ≡ "a.duckdns.org")
    × (format_full_domain "home" ≡ "home.duckdns.org")
unfolding clean_duck_domain format_full_domain lower trim_suffix trim_space trim_left trim_right
    has_suffix
names = (refl, refl, refl)

abbrev cfg : Config
cfg = record {
  http_port = pos 9000;
  turn_port = pos 3478;
  public_ip = "";
  duck_domain = "";
  duck_token = "";
  enable_upnp = true;
  enable_mdns = true;
  enable_auto_update = false;
  topic_id = "mesh";
  realm = "pingo";
  username = "pingo";
  password = "p";
  auth_secret = "s";
  min_relay_port = pos 1;
  max_relay_port = pos 2;
  enable_tls = true;
  disable_tls = false;
  tls_cert_file = "";
  tls_key_file = "";
  app_public_url = "";
  admin_password = "w";
  allow_wan_dash = true;
  enable_git = true;
  git_dir = "";
  git_repo = "";
  web_dir = "";
  phanpy_dir = "";
  enable_mastodon = false;
  mastodon_target = "";
  ddns_appliance_id = "";
  ddns_secret_token = "";
  ddns_hub_endpoint = "";
  wan_ip = "1.2.3.4";
}

abbrev settings : Settings
settings = record { config = cfg; duck = manager }

abbrev account : DuckPayload
account = record { domain = " Home.duckdns.org"; token = "t2" }

handle_duckdns_lem_example :
    let ok =
      sends well (renew to_lower (account.domain) (account.token) (settings.duck))
      && reply_ok (answer (well.first) (well.retry)) in
    let c = handle_duckdns to_lower well "POST" (some account) settings in
    (c.settings.config ≡ (if ok then with_duck account (settings.config) else settings.config))
    × (c.written
        ≡ (if ok then some (save_config_to_env (with_duck account (settings.config))) else none))
handle_duckdns_lem_example = handle_duckdns_lem to_lower well account settings

-- The manager reports one host, the configuration names another.
hosts_differ :
    let c = handle_duckdns to_lower well "POST" (some account) settings in
    (c.settings.duck.status.full_domain ≡ "home.duckdns.org")
    × (c.settings.duck.status.last_success ≡ true)
    × (c.settings.config.public_ip ≡ " Home.duckdns.org")
unfolding handle_duckdns after_update set_credentials renew update attempt conclude set_status
    clean_duck_domain format_full_domain contains has_prefix strip_prefix? trim_space trim_left
    trim_right trim_suffix lower has_suffix
hosts_differ = (refl, refl, refl)

abbrev new_topic : ConfigPayload
new_topic = record { duck_domain = ""; duck_token = ""; topic_id = " my mesh "; upnp = none }

plain :
    (v : String)
    → trim_space v ≡ v
    → trim_set is_quote v ≡ v
    → has_char "\n" v ≡ false
    → has_nul v ≡ false
    → IsPlain v
plain v t q l z = record {
  trimmed = t;
  unquoted = q;
  on_one_line = Free-has_char "\n" v l;
  no_nul = z;
}

new-HasPlainTexts : HasPlainTexts (with_payload new_topic cfg)
unfolding with_payload trim_space trim_left trim_right trim_set drop_set drop_set_last has_char
    has_nul
new-HasPlainTexts = record {
  public_ip = plain "" refl refl refl refl;
  topic_id = plain "my mesh" refl refl refl refl;
  duck_domain = plain "" refl refl refl refl;
  duck_token = plain "" refl refl refl refl;
  username = plain "pingo" refl refl refl refl;
  password = plain "p" refl refl refl refl;
  realm = plain "pingo" refl refl refl refl;
  auth_secret = plain "s" refl refl refl refl;
  admin_password = plain "w" refl refl refl refl;
}

handle_config-restart_example :
    let c = handle_config "POST" (some new_topic) settings in
    ((config_of default_flags (load_env_file (c.written) [])).topic_id
      ≡ trim_space (new_topic.topic_id))
    × (c.settings.duck ≡ settings.duck)
unfolding trim_space trim_left trim_right
handle_config-restart_example =
    handle_config-restart new_topic settings 9000 3478 new-HasPlainTexts refl refl (omega arith)
      (omega arith) (λ e. ground (arith, eq_iff " my mesh " ""))
      (λ e. ground (arith, eq_iff "my mesh" ""))

abbrev unmarshal : String → Option HubResult
unmarshal text =
    if text == "{}"
    then none
    else some (record { status = "ok"; ip = text; subdomain = "a.klitosan.com"; ech_ready = true })

abbrev appliance : CloudHubDdnsManager
appliance = new_cloud_hub_ddns_manager " a1 " "secret" "https://hub.example//"

abbrev heartbeats : List (Time × HubReply)
heartbeats =
    (1, answered 200 "1.2.3.4")
    ∷ (2, hub_failed "timeout")
    ∷ (3, answered 503 "")
    ∷ (4, answered 200 "{}")
    ∷ []

run-last_reported_example :
    ((run_hub unmarshal heartbeats appliance).status.current_ip
      ≡ last_reported unmarshal (λ (r : HubResult). r.ip) (appliance.status.current_ip) heartbeats)
    × ((run_hub unmarshal heartbeats appliance).status.subdomain
        ≡ last_reported unmarshal
            (λ (r : HubResult). r.subdomain)
            (appliance.status.subdomain)
            heartbeats)
unfolding new_cloud_hub_ddns_manager trim_space trim_left trim_right
run-last_reported_example =
    run-last_reported unmarshal heartbeats appliance (λ e. ground (arith, eq_iff "a1" ""))
      (λ e. ground (arith, eq_iff "secret" ""))

last_address : last_reported unmarshal (λ (r : HubResult). r.ip) "" heartbeats ≡ "1.2.3.4"
unfolding last_reported
last_address = refl

hub_address : endpoint "https://hub.example//" ≡ "https://hub.example"
unfolding endpoint drop_set_last
hub_address = refl

-- A unique local address and one of four bytes are passed over, and so is an interface that is down.
abbrev interfaces : List Interface
interfaces =
    record { up = false; loopback = false; addrs = some (some (v6 (0x2001 ∷ 1 ∷ [])) ∷ []) }
    ∷ record {
      up = true;
      loopback = false;
      addrs =
          some (
            some (v6 (0xFD00 ∷ 1 ∷ [])) ∷ some (v4 192 168 1 2) ∷ some (v6 (0x2A00 ∷ 7 ∷ [])) ∷ []);
    }
    ∷ []

found : get_global_ipv6 (some interfaces) ≡ some (v6 (0x2A00 ∷ 7 ∷ []))
unfolding get_global_ipv6 scan first_global is_global_unicast_ipv6 first_group groups_value
    is_loopback is_private is_link_local_unicast
found = refl
