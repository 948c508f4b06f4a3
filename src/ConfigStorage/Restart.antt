-- ===== src/ConfigStorage/Restart.antt =====
-- The settings after a restart.
use p2pt_server.ConfigStorage.{
  Config, getenv, format_bool, load_env_file, settings, save_config_to_env,
}
use p2pt_server.ConfigStorage.Saved.{HasPlainTexts, getenv-load_env_file}
use p2pt_server.ConfigStorage.Settings.{
  default_flags, config_of, text_override, number_override, is_on, is_off,
}
use p2pt_server.GoMap.{GoMap, get}
use p2pt_server.GoText.{ℤ, pos, format_int}
use p2pt_server.GoText.Decimal.{parse_int-format_int, format_int-ne-nil}
use p2pt_server.Prelude.{
  ℕ, ◌<◌, ◌^◌, String, Bool, true, false, not, some, [], ◌≡◌, ◌≢◌, refl, sym, ◌∙◌, ap, arith, ==_ne,
  get_or, eq_iff,
}

-- The environment after the saved file is loaded.
abbrev after : Config → GoMap String
after cfg = load_env_file (some (save_config_to_env cfg)) []

saved :
    (cfg : Config) (k : String)
    → HasPlainTexts cfg
    → getenv k (after cfg) ≡ get_or "" (get k (settings cfg))
unfolding getenv get
saved cfg k p = getenv-load_env_file cfg [] k p

number-format : (flag : ℤ) (n : ℕ) → n < 2 ^ 63 → number_override flag (format_int (pos n)) ≡ pos n
number-format flag n h =
    rw (==_ne (format_int (pos n)) "" (format_int-ne-nil n), parse_int-format_int n h) refl

is_on-format_bool : (b : Bool) → is_on (format_bool b) ≡ b
is_on-format_bool true = refl
is_on-format_bool false = refl

is_off-format_bool : (b : Bool) → is_off (format_bool b) ≡ not b
is_off-format_bool true = refl
is_off-format_bool false = refl

text_override-empty : (v : String) → text_override "" v ≡ v
text_override-empty v = ground (arith, eq_iff v "")

text_override-ne : (flag v : String) → v ≢ "" → text_override flag v ≡ v
text_override-ne flag v n = rw (==_ne v "" n) refl

-- What a restart without flags makes of a saved configuration.
pub record IsRestored (old new : Config) : Type 0 where
  pub http_port : new.http_port ≡ old.http_port
  pub turn_port : new.turn_port ≡ old.turn_port
  pub public_ip : new.public_ip ≡ old.public_ip
  pub topic_id : new.topic_id ≡ old.topic_id
  pub duck_domain : new.duck_domain ≡ old.duck_domain
  pub duck_token : new.duck_token ≡ old.duck_token
  pub enable_upnp : new.enable_upnp ≡ old.enable_upnp
  pub enable_mdns : new.enable_mdns ≡ old.enable_mdns
  pub enable_auto_update : new.enable_auto_update ≡ old.enable_auto_update
  pub admin_password : new.admin_password ≡ old.admin_password
  pub allow_wan_dash : new.allow_wan_dash ≡ old.allow_wan_dash

-- The TURN account is the built-in one.
pub record HasDefaultTurn (new : Config) : Type 0 where
  pub username : new.username ≡ "pingo"
  pub password : new.password ≡ "pingosecret"
  pub realm : new.realm ≡ "pingo"
  pub auth_secret : new.auth_secret ≡ "pingo-static-auth-secret"

-- Let a configuration be saved whose texts have no space or quote at an end, no line feed and no
-- null character, whose ports are not negative and are int64s, and whose topic is not empty. If
-- the server is then started without flags in an empty environment, it has the saved ports,
-- public address, topic, DuckDNS account, administrator password and switches again; but its TURN
-- user, password, realm and secret are the built-in ones, whatever was saved.
pub config_of-restart :
    (cfg : Config) (http turn : ℕ)
    → HasPlainTexts cfg
    → cfg.http_port ≡ pos http
    → cfg.turn_port ≡ pos turn
    → http < 2 ^ 63
    → turn < 2 ^ 63
    → cfg.topic_id ≢ ""
    → IsRestored cfg (config_of default_flags (load_env_file (some (save_config_to_env cfg)) []))
      × HasDefaultTurn (config_of default_flags (load_env_file (some (save_config_to_env cfg)) []))
unfolding config_of settings get
config_of-restart cfg http turn p eh et h t n = (
  record {
    http_port =
        ap (number_override (pos 9000)) (saved cfg "PORT" p ∙ ap format_int eh)
        ∙ number-format (pos 9000) http h
        ∙ sym eh;
    turn_port =
        ap (number_override (pos 3478)) (saved cfg "TURN_PORT" p ∙ ap format_int et)
        ∙ number-format (pos 3478) turn t
        ∙ sym et;
    public_ip = text_override-empty (getenv "PUBLIC_IP" (after cfg)) ∙ saved cfg "PUBLIC_IP" p;
    topic_id =
        ap (text_override "pingo-public-mesh") (saved cfg "TOPIC_ID" p)
        ∙ text_override-ne "pingo-public-mesh" (cfg.topic_id) n;
    duck_domain =
        text_override-empty (getenv "DUCKDNS_DOMAIN" (after cfg)) ∙ saved cfg "DUCKDNS_DOMAIN" p;
    duck_token =
        text_override-empty (getenv "DUCKDNS_TOKEN" (after cfg)) ∙ saved cfg "DUCKDNS_TOKEN" p;
    enable_upnp =
        rw (saved cfg "ENABLE_UPNP" p, is_off-format_bool (cfg.enable_upnp)) (ground arith);
    enable_mdns =
        rw (saved cfg "ENABLE_MDNS" p, is_off-format_bool (cfg.enable_mdns)) (ground arith);
    enable_auto_update =
        rw (saved cfg "AUTO_UPDATE" p) (is_on-format_bool (cfg.enable_auto_update));
    admin_password =
        text_override-empty (getenv "ADMIN_PASSWORD" (after cfg)) ∙ saved cfg "ADMIN_PASSWORD" p;
    allow_wan_dash =
        rw (saved cfg "ALLOW_WAN_DASHBOARD" p, is_off-format_bool (cfg.allow_wan_dash))
          (ground arith);
  },
  record { username = refl; password = refl; realm = refl; auth_secret = refl },
)
