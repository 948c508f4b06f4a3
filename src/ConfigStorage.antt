-- ===== src/ConfigStorage.antt =====
-- config_storage.go: the file of `KEY=value` lines from which the server takes settings at its start,
-- and to which it saves them. The process's environment is a map; `os.Getenv` reads a missing name as
-- the empty text. Whether files exist, and what they hold, are arguments.
pub mod Settings
pub mod Lines
pub mod Plain
pub mod Saved
pub mod Restart
mod Examples
use Prim.Native.Char.{code}
use Prim.Native.String.{[], ◌∷◌, ◌++◌}
use mathlib.Core.List.{[] as nil, ◌∷◌ as ◌::◌}
use p2pt_server.GoMap.{GoMap, get, put}
use p2pt_server.GoText.{ℤ, format_int, split, trim_space}
use p2pt_server.GoText.Cut.{has_prefix, trim_set, cut, unlines}
use p2pt_server.Prelude.{
  ℕ, String, Bool, true, false, ◌||◌, Option, none, some, List, map, ◌==◌, eqb, get_or,
  if◌then◌else◌,
}

-- Config of main.go
pub record Config : Type 0 where
  pub http_port : ℤ
  pub turn_port : ℤ
  pub public_ip : String
  pub duck_domain : String
  pub duck_token : String
  pub enable_upnp : Bool
  pub enable_mdns : Bool
  pub enable_auto_update : Bool
  pub topic_id : String
  pub realm : String
  pub username : String
  pub password : String
  pub auth_secret : String
  pub min_relay_port : ℤ
  pub max_relay_port : ℤ
  pub enable_tls : Bool
  pub disable_tls : Bool
  pub tls_cert_file : String
  pub tls_key_file : String
  pub app_public_url : String
  pub admin_password : String
  pub allow_wan_dash : Bool
  pub enable_git : Bool
  pub git_dir : String
  pub git_repo : String
  pub web_dir : String
  pub phanpy_dir : String
  pub enable_mastodon : Bool
  pub mastodon_target : String
  pub ddns_appliance_id : String
  pub ddns_secret_token : String
  pub ddns_hub_endpoint : String
  pub wan_ip : String

-- os.Getenv
unfoldable pub getenv : String → GoMap String → String
unfolding get
getenv k env = get_or "" (get k env)

unfoldable pub has_nul : String → Bool
has_nul [] = false
has_nul (c ∷ s) = eqb (code c) 0 || has_nul s

-- os.Setenv of a name without `=`; its error, which the code drops, leaves the environment alone
unfoldable pub setenv : String → String → GoMap String → GoMap String
unfolding has_nul
setenv k v env = if k == "" || has_nul k || has_nul v then env else put k v env

unfoldable pub get_env_config_path : GoMap String → Bool → Bool → String
unfolding getenv
get_env_config_path env appliance_file root =
    if getenv "PINGO_CONFIG_PATH" env == ""
    then (if appliance_file || root then "/etc/p2pt.env" else "./pingo.env")
    else getenv "PINGO_CONFIG_PATH" env

abbrev pub is_quote : ℕ → Bool
is_quote c = eqb c 0x22 || eqb c b'\''

-- A variable that is set to a text that is not empty stays.
unfoldable pub set_default : String → String → GoMap String → GoMap String
unfolding getenv setenv
set_default k v env = if getenv k env == "" then setenv k v env else env

unfoldable pub load_setting : Option (String × String) → GoMap String → GoMap String
unfolding set_default trim_set
load_setting none env = env
load_setting (some (k, v)) env = set_default (trim_space k) (trim_set is_quote (trim_space v)) env

unfoldable pub load_trimmed : String → GoMap String → GoMap String
unfolding load_setting has_prefix cut
load_trimmed line env =
    if line == "" || has_prefix "#" line then env else load_setting (cut "=" line) env

unfoldable pub load_lines : List String → GoMap String → GoMap String
unfolding load_trimmed trim_space
load_lines nil env = env
load_lines (line :: ls) env = load_lines ls (load_trimmed (trim_space line) env)

-- LoadEnvFile of what the file holds, `none` if it cannot be read
unfoldable pub load_env_file : Option String → GoMap String → GoMap String
unfolding load_lines
load_env_file none env = env
load_env_file (some text) env = load_lines (split "\n" text) env

-- `%t`
abbrev pub format_bool : Bool → String
format_bool true = "true"
format_bool false = "false"

-- The names and values that are saved, in the order of the file.
unfoldable pub settings : Config → GoMap String
unfolding format_int
settings cfg =
    ("PORT", format_int cfg.http_port)
    :: ("TURN_PORT", format_int cfg.turn_port)
    :: ("PUBLIC_IP", cfg.public_ip)
    :: ("TOPIC_ID", cfg.topic_id)
    :: ("DUCKDNS_DOMAIN", cfg.duck_domain)
    :: ("DUCKDNS_TOKEN", cfg.duck_token)
    :: ("ENABLE_UPNP", format_bool cfg.enable_upnp)
    :: ("ENABLE_MDNS", format_bool cfg.enable_mdns)
    :: ("AUTO_UPDATE", format_bool cfg.enable_auto_update)
    :: ("TURN_USER", cfg.username)
    :: ("TURN_PASS", cfg.password)
    :: ("TURN_REALM", cfg.realm)
    :: ("TURN_STATIC_AUTH_SECRET", cfg.auth_secret)
    :: ("ADMIN_PASSWORD", cfg.admin_password)
    :: ("ALLOW_WAN_DASHBOARD", format_bool cfg.allow_wan_dash)
    :: nil

abbrev pub setting_line : String × String → String
setting_line (k, v) = k ++ ("=" ∷ v)

-- The text that the format makes of the configuration.
unfoldable pub content : Config → String
unfolding settings unlines
content cfg = unlines (
    "# Pingo Server Environment Configuration"
    :: "# Generated automatically by Setup Wizard / Dashboard"
    :: ""
    :: map setting_line (settings cfg))

-- What SaveConfigToEnv writes.
unfoldable pub save_config_to_env : Config → String
unfolding content trim_space
save_config_to_env cfg = trim_space (content cfg) ++ "\n"
