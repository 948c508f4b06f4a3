-- ===== src/ConfigStorage/Saved.antt =====
-- Loading what was saved.
use Prim.Native.String.{[] as empty, ◌∷◌ as ◌::◌, ◌++◌ as ◌<>◌}
use p2pt_server.ConfigStorage.{
  Config, getenv, has_nul, format_bool, load_trimmed, load_lines, load_env_file, setting_line,
  settings, content, save_config_to_env,
}
use p2pt_server.ConfigStorage.Lines.{
  IsName, IsName-Free, is_name, is_name-IsName, IsPlain, load_trimmed-setting_line,
}
use p2pt_server.GoMap.{GoMap, get, put, IsUnique}
use p2pt_server.GoMap.Laws.{get-put}
use p2pt_server.ConfigStorage.Plain.{format_int-IsPlain}
use p2pt_server.Net.Dotted.{Free-has_char}
use p2pt_server.GoText.{strip_prefix?, has_char, split, trim_space, trim_right, trim_left}
use p2pt_server.GoText.Cut.{has_prefix, unlines, trim_set, drop_set, drop_set_last}
use p2pt_server.GoText.Lines.{trim_left-append, trim_right-unlines, AreLines, split-unlines}
use p2pt_server.GoText.Pieces.{Free-append}
use p2pt_server.Prelude.{
  String, Bool, true, false, some, List, [], ◌∷◌, ◌++◌, map, ◌≡◌, ◌≢◌, refl, ◌∙◌, ap, arith, ◌==◌,
  get_or, if◌then◌else◌, eq_iff,
}

-- The settings that a file can hold.
abbrev pub AreSettings : GoMap String → Type 0
AreSettings [] = Unit
AreSettings ((k, v) ∷ l) = IsName k × IsPlain v × AreSettings l

-- Each setting is made unless its variable is set.
unfoldable pub set_all : GoMap String → GoMap String → GoMap String
unfolding getenv
set_all [] env = env
set_all ((k, v) ∷ l) env = set_all l (if getenv k env == "" then put k v env else env)

load_lines-settings :
    (l : GoMap String) (env : GoMap String)
    → AreSettings l
    → load_lines (map setting_line l ++ (empty ∷ [])) env ≡ set_all l env
unfolding load_lines set_all load_trimmed trim_space
load_lines-settings [] env a = refl
load_lines-settings ((k, v) ∷ l) env a =
    ap (load_lines (map setting_line l ++ (empty ∷ []))) (load_trimmed-setting_line k v env a.0 a.1)
    ∙ load_lines-settings l (if getenv k env == "" then put k v env else env) a.2

-- A setting counts if its variable was unset; what was set stays.
pub getenv-set_all :
    (k : String) (l env : GoMap String)
    → IsUnique l
    → getenv k (set_all l env)
      ≡ (if getenv k env == "" then get_or (getenv k env) (get k l) else getenv k env)
unfolding set_all getenv get
getenv-set_all k [] env u = ground arith
getenv-set_all k ((j, v) ∷ l) env u =
    getenv-set_all k l (if getenv j env == "" then put j v env else env) u.1
    ∙ ground (arith, eq_iff j k, get-put k j v env, u.0)

-- The texts of a configuration that is saved.
pub record HasPlainTexts (cfg : Config) : Type 0 where
  pub public_ip : IsPlain (cfg.public_ip)
  pub topic_id : IsPlain (cfg.topic_id)
  pub duck_domain : IsPlain (cfg.duck_domain)
  pub duck_token : IsPlain (cfg.duck_token)
  pub username : IsPlain (cfg.username)
  pub password : IsPlain (cfg.password)
  pub realm : IsPlain (cfg.realm)
  pub auth_secret : IsPlain (cfg.auth_secret)
  pub admin_password : IsPlain (cfg.admin_password)

bool-IsPlain : (b : Bool) → IsPlain (format_bool b)
unfolding trim_space trim_left trim_right has_nul trim_set drop_set drop_set_last has_char
bool-IsPlain true = record {
  trimmed = refl;
  unquoted = refl;
  on_one_line = Free-has_char "\n" "true" refl;
  no_nul = refl;
}
bool-IsPlain false = record {
  trimmed = refl;
  unquoted = refl;
  on_one_line = Free-has_char "\n" "false" refl;
  no_nul = refl;
}

settings-AreSettings : (cfg : Config) → HasPlainTexts cfg → AreSettings (settings cfg)
unfolding settings is_name trim_space trim_left trim_right has_nul has_char
settings-AreSettings cfg p = (
  is_name-IsName "PORT" refl,
  (format_int-IsPlain (cfg.http_port)),
  (
    is_name-IsName "TURN_PORT" refl,
    (format_int-IsPlain (cfg.turn_port)),
    (
      is_name-IsName "PUBLIC_IP" refl,
      p.public_ip,
      (
        is_name-IsName "TOPIC_ID" refl,
        p.topic_id,
        (
          is_name-IsName "DUCKDNS_DOMAIN" refl,
          p.duck_domain,
          (
            is_name-IsName "DUCKDNS_TOKEN" refl,
            p.duck_token,
            (
              is_name-IsName "ENABLE_UPNP" refl,
              (bool-IsPlain (cfg.enable_upnp)),
              (
                is_name-IsName "ENABLE_MDNS" refl,
                (bool-IsPlain (cfg.enable_mdns)),
                (
                  is_name-IsName "AUTO_UPDATE" refl,
                  (bool-IsPlain (cfg.enable_auto_update)),
                  (
                    is_name-IsName "TURN_USER" refl,
                    p.username,
                    (
                      is_name-IsName "TURN_PASS" refl,
                      p.password,
                      (
                        is_name-IsName "TURN_REALM" refl,
                        p.realm,
                        (
                          is_name-IsName "TURN_STATIC_AUTH_SECRET" refl,
                          p.auth_secret,
                          (
                            is_name-IsName "ADMIN_PASSWORD" refl,
                            p.admin_password,
                            (
                              is_name-IsName "ALLOW_WAN_DASHBOARD" refl,
                              (bool-IsPlain (cfg.allow_wan_dash)),
                              tt,
                            ),
                          ),
                        ),
                      ),
                    ),
                  ),
                ),
              ),
            ),
          ),
        ),
      ),
    ),
  ),
)

allow_line :
    (b : Bool)
    → let l = setting_line ("ALLOW_WAN_DASHBOARD", format_bool b) in
      (trim_right (l <> "\n") ≡ l) × (l ≢ "")
unfolding trim_right
allow_line true = (refl, λ e. ground (arith, eq_iff "ALLOW_WAN_DASHBOARD=true" ""))
allow_line false = (refl, λ e. ground (arith, eq_iff "ALLOW_WAN_DASHBOARD=false" ""))

settings-IsUnique : (cfg : Config) → IsUnique (settings cfg)
unfolding settings get
settings-IsUnique cfg = (
  refl,
  (
    refl,
    (
      refl,
      (
        refl,
        (refl, (refl, (refl, (refl, (refl, (refl, (refl, (refl, (refl, (refl, (refl, tt))))))))))),
      ),
    ),
  ),
)

AreLines-settings : (l : GoMap String) → AreSettings l → AreLines (map setting_line l)
AreLines-settings [] a = tt
AreLines-settings ((k, v) ∷ l) a = (
  Free-append "\n" k ("=" :: v) (IsName-Free k a.0) (refl, a.1.on_one_line),
  AreLines-settings l a.2,
)

save_config_to_env-content : (cfg : Config) → save_config_to_env cfg ≡ content cfg
unfolding save_config_to_env content settings trim_space
save_config_to_env-content cfg =
    let rest = unlines (
      "# Generated automatically by Setup Wizard / Dashboard"
      ∷ ""
      ∷ map setting_line (settings cfg)) in
    ap (λ (t : String). trim_right t <> "\n")
      (trim_left-append "#" " Pingo Server Environment Configuration" ("\n" :: rest) refl)
    ∙ trim_right-unlines
        ("# Pingo Server Environment Configuration"
          ∷ "# Generated automatically by Setup Wizard / Dashboard"
          ∷ ""
          ∷ map setting_line (settings cfg))
        (allow_line (cfg.allow_wan_dash))

load_comments :
    (ls : List String) (env : GoMap String)
    → load_lines
        ("# Pingo Server Environment Configuration"
          ∷ "# Generated automatically by Setup Wizard / Dashboard" ∷ "" ∷ ls)
        env
      ≡ load_lines ls env
unfolding load_lines load_trimmed trim_space trim_left trim_right has_prefix strip_prefix?
load_comments ls env = refl

-- What is loaded from the saved file are the settings.
pub load_env_file-save :
    (cfg : Config) (env : GoMap String)
    → HasPlainTexts cfg
    → load_env_file (some (save_config_to_env cfg)) env ≡ set_all (settings cfg) env
unfolding load_env_file content has_char
load_env_file-save cfg env p =
    let ls = map setting_line (settings cfg) in
    let a = settings-AreSettings cfg p in
    ap (λ (t : String). load_lines (split "\n" t) env) (save_config_to_env-content cfg)
    ∙ ap (λ (r : List String). load_lines r env)
        (split-unlines
          ("# Pingo Server Environment Configuration"
            ∷ "# Generated automatically by Setup Wizard / Dashboard" ∷ "" ∷ ls)
          (
            Free-has_char "\n" "# Pingo Server Environment Configuration" refl,
            (
              Free-has_char "\n" "# Generated automatically by Setup Wizard / Dashboard" refl,
              (tt, AreLines-settings (settings cfg) a),
            ),
          ))
    ∙ load_comments (ls ++ (empty ∷ [])) env
    ∙ load_lines-settings (settings cfg) env a

-- If no saved text has a space or a quote at an end, a line feed or a null character, then
-- loading the saved file gives every variable that was unset or empty its saved value, if it has
-- one, and leaves every other variable as it was.
pub getenv-load_env_file :
    (cfg : Config) (env : GoMap String) (k : String)
    → HasPlainTexts cfg
    → getenv k (load_env_file (some (save_config_to_env cfg)) env)
      ≡ (if getenv k env == "" then get_or (getenv k env) (get k (settings cfg)) else getenv k env)
getenv-load_env_file cfg env k p =
    ap (getenv k) (load_env_file-save cfg env p)
    ∙ getenv-set_all k (settings cfg) env (settings-IsUnique cfg)
