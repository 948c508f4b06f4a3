-- ===== src/ConfigStorage/Settings.antt =====
-- The settings with which the server starts (main.go): the command line's flags, overridden by the
-- environment.
use p2pt_server.ConfigStorage.{Config, getenv}
use p2pt_server.GoMap.{GoMap}
use p2pt_server.GoText.{ℤ, pos, parse_int}
use p2pt_server.Prelude.{String, Bool, true, false, not, ◌&&◌, ◌||◌, ◌==◌, get_or, if◌then◌else◌}

-- The flags from which the configuration is made.
pub record Flags : Type 0 where
  port : ℤ
  turn_port : ℤ
  public_ip : String
  duck_domain : String
  duck_token : String
  upnp : Bool
  no_upnp : Bool
  realm : String
  user : String
  password : String
  secret : String
  min_port : ℤ
  max_port : ℤ
  tls : Bool
  no_tls : Bool
  tls_cert : String
  tls_key : String
  app_url : String
  topic : String
  mdns : Bool
  no_mdns : Bool
  auto_update : Bool
  admin_pass : String
  allow_wan_dashboard : Bool
  git : Bool
  no_git : Bool
  git_dir : String
  git_repo : String
  web_dir : String
  phanpy_dir : String
  mastodon : Bool
  mastodon_target : String

-- A command line without flags.
abbrev pub default_flags : Flags
default_flags = record {
  port = pos 9000;
  turn_port = pos 3478;
  public_ip = "";
  duck_domain = "";
  duck_token = "";
  upnp = true;
  no_upnp = false;
  realm = "pingo";
  user = "pingo";
  password = "pingosecret";
  secret = "pingo-static-auth-secret";
  min_port = pos 49152;
  max_port = pos 65535;
  tls = false;
  no_tls = false;
  tls_cert = "cert.pem";
  tls_key = "key.pem";
  app_url = "https://estoyqueloleo-max.github.io/p2pt";
  topic = "pingo-public-mesh";
  mdns = true;
  no_mdns = false;
  auto_update = false;
  admin_pass = "";
  allow_wan_dashboard = true;
  git = true;
  no_git = false;
  git_dir = "";
  git_repo = "routes";
  web_dir = "";
  phanpy_dir = "";
  mastodon = false;
  mastodon_target = "http://127.0.0.1:8080";
}

-- A variable that is not empty overrides a flag.
abbrev pub text_override : String → String → String
text_override flag v = if v == "" then flag else v

abbrev pub number_override : ℤ → String → ℤ
number_override flag v = if v == "" then flag else get_or flag (parse_int v)

abbrev pub is_on : String → Bool
is_on v = v == "true" || v == "1"

abbrev pub is_off : String → Bool
is_off v = v == "false" || v == "0"

-- The first name counts if it is set.
abbrev pub relay_port : ℤ → String → String → ℤ
relay_port flag v w = if v == "" then number_override flag w else number_override flag v

-- The configuration, up to the wizard and the generated password.
unfoldable pub config_of : Flags → GoMap String → Config
unfolding getenv parse_int
config_of f env = record {
  http_port = number_override f.port (getenv "PORT" env);
  turn_port = number_override f.turn_port (getenv "TURN_PORT" env);
  public_ip = text_override f.public_ip (getenv "PUBLIC_IP" env);
  duck_domain = text_override f.duck_domain (getenv "DUCKDNS_DOMAIN" env);
  duck_token = text_override f.duck_token (getenv "DUCKDNS_TOKEN" env);
  enable_upnp = f.upnp && not (is_off (getenv "ENABLE_UPNP" env)) && not f.no_upnp;
  enable_mdns = f.mdns && not (f.no_mdns || is_off (getenv "ENABLE_MDNS" env));
  enable_auto_update = f.auto_update || is_on (getenv "AUTO_UPDATE" env);
  topic_id = text_override f.topic (getenv "TOPIC_ID" env);
  realm = f.realm;
  username = f.user;
  password = f.password;
  auth_secret = f.secret;
  min_relay_port = relay_port f.min_port (getenv "MIN_RELAY_PORT" env) (getenv "MIN_PORT" env);
  max_relay_port = relay_port f.max_port (getenv "MAX_RELAY_PORT" env) (getenv "MAX_PORT" env);
  enable_tls = f.tls || not (f.no_tls || is_on (getenv "DISABLE_TLS" env));
  disable_tls = not f.tls && (f.no_tls || is_on (getenv "DISABLE_TLS" env));
  tls_cert_file = f.tls_cert;
  tls_key_file = f.tls_key;
  app_public_url = text_override f.app_url (getenv "APP_URL" env);
  admin_password = text_override f.admin_pass (getenv "ADMIN_PASSWORD" env);
  allow_wan_dash = f.allow_wan_dashboard && not (is_off (getenv "ALLOW_WAN_DASHBOARD" env));
  enable_git = f.git && not (is_off (getenv "ENABLE_GIT" env)) && not f.no_git;
  git_dir = text_override f.git_dir (getenv "GIT_DIR" env);
  git_repo = text_override f.git_repo (getenv "GIT_REPO" env);
  web_dir = text_override f.web_dir (getenv "WEB_DIR" env);
  phanpy_dir = text_override f.phanpy_dir (getenv "PHANPY_DIR" env);
  enable_mastodon = f.mastodon || is_on (getenv "ENABLE_MASTODON" env);
  mastodon_target = text_override f.mastodon_target (getenv "MASTODON_TARGET" env);
  ddns_appliance_id = getenv "DDNS_APPLIANCE_ID" env;
  ddns_secret_token = getenv "DDNS_SECRET_TOKEN" env;
  ddns_hub_endpoint = getenv "DDNS_HUB_ENDPOINT" env;
  wan_ip = "";
}
