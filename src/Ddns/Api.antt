-- ===== src/Ddns/Api.antt =====
-- The two routes of main.go by which the administrator changes settings: /api/duckdns and /api/config.
-- They stand behind RequireAuth. What the JSON of the body decodes to is an argument; a field that is
-- missing is an empty text. The certificate that /api/duckdns asks for in the background, and the loop of
-- updates that it starts, are left out.
use Prim.Native.Char.{Char}
use p2pt_server.ConfigStorage.{Config, load_env_file, save_config_to_env}
use p2pt_server.Ddns.{
  DuckDnsManager, World, Updated, answer, update, set_credentials, renew, format_full_domain,
}
use p2pt_server.Ddns.Outcome.{sends, reply_ok, update-HasOutcome}
use p2pt_server.ConfigStorage.Restart.{config_of-restart}
use p2pt_server.ConfigStorage.Saved.{HasPlainTexts}
use p2pt_server.ConfigStorage.Settings.{default_flags, config_of}
use p2pt_server.GoText.{pos, trim_space}
use p2pt_server.Prelude.{
  ℕ, ◌<◌, ◌^◌, [], ==_ne, ◌&&◌, String, Bool, true, false, Option, none, some, ◌≡◌, ◌≢◌, refl, sym,
  ◌∙◌, ◌==◌, if◌then◌else◌,
}

pub record Settings : Type 0 where
  pub config : Config
  pub duck : DuckDnsManager

-- The HTTP status, with the settings and the file that is written, if it is.
pub record Change : Type 0 where
  pub status : ℕ
  pub settings : Settings
  pub written : Option String

abbrev unchanged : ℕ → Settings → Change
unchanged status s = record { status = status; settings = s; written = none }

-- What the callback does to the configuration.
abbrev called_back : Option (String × String) → Config → Config
called_back none cfg = cfg
called_back (some (full, ip)) cfg =
    if ip == ""
    then record cfg { public_ip = full }
    else record cfg { public_ip = full; wan_ip = ip }

pub record DuckPayload : Type 0 where
  pub domain : String
  pub token : String

abbrev pub with_duck : DuckPayload → Config → Config
with_duck p cfg = record cfg {
  duck_domain = p.domain;
  duck_token = p.token;
  public_ip = format_full_domain (p.domain);
}

unfoldable pub after_update : DuckPayload → Config → Updated → Change
unfolding format_full_domain save_config_to_env
after_update p cfg u =
    let new = with_duck p (called_back (u.notified) cfg) in
    if u.success
    then record {
      status = 200;
      settings = record { config = new; duck = u.manager };
      written = some (save_config_to_env new);
    }
    else record {
      status = 200;
      settings = record { config = called_back (u.notified) cfg; duck = u.manager };
      written = none;
    }

unfoldable pub handle_duckdns :
    (Char → Char) → World → String → Option DuckPayload → Settings → Change
unfolding after_update set_credentials
handle_duckdns to_lower w method payload s =
    if method == "OPTIONS"
    then unchanged 200 s
    else if method == "POST"
    then (elim payload [
      | none ↦ unchanged 400 s
      | some p ↦
          after_update p (s.config) (set_credentials to_lower w (p.domain) (p.token) (s.duck))
    ])
    else unchanged 405 s

pub record ConfigPayload : Type 0 where
  pub duck_domain : String
  pub duck_token : String
  pub topic_id : String
  pub upnp : Option Bool

abbrev or_keep : String → String → String
or_keep old new = if new == "" then old else trim_space new

abbrev flag_or_keep : Bool → Option Bool → Bool
flag_or_keep old none = old
flag_or_keep old (some new) = new

unfoldable pub with_payload : ConfigPayload → Config → Config
unfolding trim_space format_full_domain
with_payload p cfg = record cfg {
  duck_domain = or_keep (cfg.duck_domain) (p.duck_domain);
  public_ip =
      if p.duck_domain == ""
      then cfg.public_ip
      else format_full_domain (trim_space (p.duck_domain));
  duck_token = or_keep (cfg.duck_token) (p.duck_token);
  topic_id = or_keep (cfg.topic_id) (p.topic_id);
  enable_upnp = flag_or_keep (cfg.enable_upnp) (p.upnp);
}

-- The DuckDNS manager is not told of it.
unfoldable pub handle_config : String → Option ConfigPayload → Settings → Change
unfolding with_payload save_config_to_env
handle_config method payload s =
    if method == "POST"
    then (elim payload [
      | none ↦ unchanged 400 s
      | some p ↦
          let new = with_payload p (s.config) in
          record {
            status = 200;
            settings = record { config = new; duck = s.duck };
            written = some (save_config_to_env new);
          }
    ])
    else unchanged 405 s

-- What follows from an update that succeeded or did not.
after_update_lem :
    (p : DuckPayload) (cfg : Config) (u : Updated) (full : String) (ok : Bool)
    → u.success ≡ ok
    → u.notified ≡ (if ok then some (full, "") else none)
    → ((after_update p cfg u).settings.config ≡ (if ok then with_duck p cfg else cfg))
      × ((after_update p cfg u).written
          ≡ (if ok then some (save_config_to_env (with_duck p cfg)) else none))
unfolding after_update
after_update_lem p cfg u full true s n = rw (s, n) (refl, refl)
after_update_lem p cfg u full false s n = rw (s, n) (refl, refl)

-- The credentials of a POST to /api/duckdns are in the configuration and in the file afterwards
-- exactly if the update with them succeeded: the cleaned domain and token are not empty, the
-- request could be made and was answered with "OK". Else the configuration is as it was, and
-- nothing is written.
pub handle_duckdns_lem :
    (to_lower : Char → Char) (w : World) (p : DuckPayload) (s : Settings)
    → let ok =
        sends w (renew to_lower (p.domain) (p.token) (s.duck))
        && reply_ok (answer (w.first) (w.retry)) in
      let c = handle_duckdns to_lower w "POST" (some p) s in
      (c.settings.config ≡ (if ok then with_duck p (s.config) else s.config))
      × (c.written ≡ (if ok then some (save_config_to_env (with_duck p (s.config))) else none))
unfolding handle_duckdns set_credentials
handle_duckdns_lem to_lower w p s =
    let m = renew to_lower (p.domain) (p.token) (s.duck) in
    let o = update-HasOutcome w "" m in
    after_update_lem p (s.config) (update w "" m) (format_full_domain (m.domain))
      (sends w m && reply_ok (answer (w.first) (w.retry))) (o.success) (o.notified)

-- A topic that is set by a POST to /api/config, and is not empty without the spaces at its ends,
-- is the topic after a restart without flags in an empty environment, if the texts of the
-- configuration then have no space or quote at an end, no line feed and no null character, and
-- its ports are not negative and are int64s; the DuckDNS manager keeps the name that it had.
pub handle_config-restart :
    (p : ConfigPayload) (s : Settings) (http turn : ℕ)
    → HasPlainTexts (with_payload p (s.config))
    → s.config.http_port ≡ pos http
    → s.config.turn_port ≡ pos turn
    → http < 2 ^ 63
    → turn < 2 ^ 63
    → p.topic_id ≢ ""
    → trim_space (p.topic_id) ≢ ""
    → let c = handle_config "POST" (some p) s in
      ((config_of default_flags (load_env_file (c.written) [])).topic_id ≡ trim_space (p.topic_id))
      × (c.settings.duck ≡ s.duck)
unfolding handle_config with_payload
handle_config-restart p s http turn texts eh et h t n x =
    let new = with_payload p (s.config) in
    let kept : new.topic_id ≡ trim_space (p.topic_id) = rw (==_ne (p.topic_id) "" n) refl in
    let back = config_of-restart new http turn texts eh et h t (λ e. x (sym kept ∙ e)) in
    (back.0.topic_id ∙ kept, refl)
