-- ===== src/ConfigStorage/Examples.antt =====
-- The configuration file on concrete inputs.
use p2pt_server.ConfigStorage.{
  Config, getenv, setenv, set_default, load_trimmed, load_setting, load_lines, load_env_file,
  settings, save_config_to_env, has_nul, is_quote, get_env_config_path,
}
use p2pt_server.ConfigStorage.Lines.{IsPlain}
use p2pt_server.ConfigStorage.Restart.{IsRestored, HasDefaultTurn, config_of-restart}
use p2pt_server.ConfigStorage.Saved.{HasPlainTexts, getenv-load_env_file}
use p2pt_server.ConfigStorage.Settings.{default_flags, config_of}
use p2pt_server.GoMap.{GoMap, get, put}
use p2pt_server.GoText.{pos, has_char, split, strip_prefix?, trim_left, trim_right, trim_space}
use p2pt_server.GoText.Cut.{cut, has_prefix, trim_set, drop_set, drop_set_last}
use p2pt_server.Net.Dotted.{Free-has_char}
use p2pt_server.Prelude.{
  String, true, false, some, [], ◌∷◌, ◌≡◌, refl, arith, eq_iff, ◌==◌, get_or, if◌then◌else◌,
}

abbrev home : Config
home = record {
  http_port = pos 8443;
  turn_port = pos 3478;
  public_ip = "home.duckdns.org";
  duck_domain = "home";
  duck_token = "a7c4d0ad";
  enable_upnp = false;
  enable_mdns = true;
  enable_auto_update = true;
  topic_id = "my mesh";
  realm = "home";
  username = "ana";
  password = "p=1";
  auth_secret = "s3";
  min_relay_port = pos 49152;
  max_relay_port = pos 65535;
  enable_tls = true;
  disable_tls = false;
  tls_cert_file = "cert.pem";
  tls_key_file = "key.pem";
  app_public_url = "";
  admin_password = "Tk4'w";
  allow_wan_dash = false;
  enable_git = true;
  git_dir = "";
  git_repo = "routes";
  web_dir = "";
  phanpy_dir = "";
  enable_mastodon = false;
  mastodon_target = "";
  ddns_appliance_id = "";
  ddns_secret_token = "";
  ddns_hub_endpoint = "";
  wan_ip = "";
}

-- A value that a space, a quote, or a comment's sign in its midst leaves alone.
plain :
    (v : String)
    → trim_space v ≡ v
    → trim_set is_quote v ≡ v
    → has_char "\n" v ≡ false
    → has_nul v ≡ false
    → IsPlain v
plain v t q l z = record {
  trimmed = t;
  unquoted = q;
  on_one_line = Free-has_char "\n" v l;
  no_nul = z;
}

home-HasPlainTexts : HasPlainTexts home
unfolding trim_space trim_left trim_right trim_set drop_set drop_set_last has_char has_nul
home-HasPlainTexts = record {
  public_ip = plain "home.duckdns.org" refl refl refl refl;
  topic_id = plain "my mesh" refl refl refl refl;
  duck_domain = plain "home" refl refl refl refl;
  duck_token = plain "a7c4d0ad" refl refl refl refl;
  username = plain "ana" refl refl refl refl;
  password = plain "p=1" refl refl refl refl;
  realm = plain "home" refl refl refl refl;
  auth_secret = plain "s3" refl refl refl refl;
  admin_password = plain "Tk4'w" refl refl refl refl;
}

abbrev port_set : GoMap String
port_set = ("PORT", "80") ∷ ("LANG", "C") ∷ []

getenv-load_env_file_example :
    getenv "TURN_PASS" (load_env_file (some (save_config_to_env home)) port_set) ≡ (
      if getenv "TURN_PASS" port_set == ""
      then get_or (getenv "TURN_PASS" port_set) (get "TURN_PASS" (settings home))
      else getenv "TURN_PASS" port_set)
getenv-load_env_file_example = getenv-load_env_file home port_set "TURN_PASS" home-HasPlainTexts

config_of-restart_example :
    IsRestored home (config_of default_flags (load_env_file (some (save_config_to_env home)) []))
    × HasDefaultTurn (config_of default_flags (load_env_file (some (save_config_to_env home)) []))
config_of-restart_example =
    config_of-restart home 8443 3478 home-HasPlainTexts refl refl (omega arith) (omega arith)
      (λ e. ground (arith, eq_iff "my mesh" ""))

-- Comments, lines without `=`, spaces and quotes; what is set stays.
loads :
    load_env_file (some "# PORT=1\nPORT=90\n\nnothing\n  A = 'x=y' \r\nLANG=\"de\"\n=7") port_set
    ≡ ("PORT", "80") ∷ ("LANG", "C") ∷ ("A", "x=y") ∷ []
unfolding load_env_file load_lines load_trimmed load_setting set_default setenv getenv get put split
    trim_space trim_left trim_right trim_set drop_set drop_set_last has_prefix strip_prefix? cut
    has_nul
loads = refl

-- Quotes at the ends of a saved password are lost, and a line feed in a saved topic sets another
-- variable.
quotes_are_lost :
    load_env_file (some "TURN_PASS='secret'\nTOPIC_ID=mesh\nALLOW_WAN_DASHBOARD=true") []
    ≡ ("TURN_PASS", "secret") ∷ ("TOPIC_ID", "mesh") ∷ ("ALLOW_WAN_DASHBOARD", "true") ∷ []
unfolding load_env_file load_lines load_trimmed load_setting set_default setenv getenv get put split
    trim_space trim_left trim_right trim_set drop_set drop_set_last has_prefix strip_prefix? cut
    has_nul
quotes_are_lost = refl

paths :
    (get_env_config_path (("PINGO_CONFIG_PATH", "/data/env") ∷ []) true true ≡ "/data/env")
    × (get_env_config_path [] false true ≡ "/etc/p2pt.env")
    × (get_env_config_path [] false false ≡ "./pingo.env")
unfolding get_env_config_path getenv get
paths = (refl, refl, refl)
