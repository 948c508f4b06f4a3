-- ===== src/GoToSocial/Examples.antt =====
-- The Mastodon accounts on concrete inputs.
use Prim.Native.Char.{Char, code}
use Prim.Native.String.{◌++◌}
use p2pt_server.ConfigStorage.{Config}
use p2pt_server.GoText.{
  pos, split, drop_char, drop_last, trim_char, strip_prefix?, trim_left, trim_right, trim_space,
}
use p2pt_server.GoText.Cut.{has_prefix, contains, lower, size, take}
use p2pt_server.GoToSocial.{
  AccountRequest, is_go_to_social_route, plain_text, sanitize_peer_username,
}
use p2pt_server.GoToSocial.Accounts.{IsName, sanitize_peer_username-IsName}
use p2pt_server.GoToSocial.Users.{GoToSocialUser, parse_columns, parse_lines, get_local_users}
use p2pt_server.Prelude.{
  String, Bool, true, false, none, some, Option, [], ◌∷◌, ◌≡◌, refl, map, eqb, if◌then◌else◌,
}

-- A unicode.ToLower that knows one letter.
abbrev to_lower : Char → Char
to_lower c = if eqb (code c) b'A' then "a" else c

sanitize_peer_username-IsName_example :
    IsName (sanitize_peer_username to_lower "--Ana.b_and-a-very-long-name-behind-it")
sanitize_peer_username-IsName_example =
    sanitize_peer_username-IsName to_lower "--Ana.b_and-a-very-long-name-behind-it"

-- Peers that share an account.
shared_names :
    (sanitize_peer_username to_lower " Ana.b-" ≡ "ana_b")
    × (sanitize_peer_username to_lower "ana-b" ≡ "ana_b")
    × (sanitize_peer_username to_lower "анна" ≡ "peer_")
    × (sanitize_peer_username to_lower "mesh-node-of-the-north-side-1"
        ≡ "mesh_node_of_the_north_si")
unfolding sanitize_peer_username lower trim_space trim_left trim_right trim_char drop_char drop_last
    plain_text size take
shared_names = (refl, refl, refl, refl)

abbrev cfg : Config
cfg = record {
  http_port = pos 9000;
  turn_port = pos 3478;
  public_ip = "home.duckdns.org";
  duck_domain = "";
  duck_token = "";
  enable_upnp = true;
  enable_mdns = true;
  enable_auto_update = false;
  topic_id = "mesh";
  realm = "pingo";
  username = "pingo";
  password = "p";
  auth_secret = "s";
  min_relay_port = pos 1;
  max_relay_port = pos 2;
  enable_tls = true;
  disable_tls = false;
  tls_cert_file = "";
  tls_key_file = "";
  app_public_url = "";
  admin_password = "w";
  allow_wan_dash = true;
  enable_git = true;
  git_dir = "";
  git_repo = "";
  web_dir = "";
  phanpy_dir = "";
  enable_mastodon = true;
  mastodon_target = "";
  ddns_appliance_id = "";
  ddns_secret_token = "";
  ddns_hub_endpoint = "";
  wan_ip = "1.2.3.4";
}

abbrev asked : AccountRequest
asked = record { method = "GET"; query_peer_id = "ana.b"; query_user = ""; body = none }

abbrev posted : AccountRequest
posted = record { method = "POST"; query_peer_id = ""; query_user = " "; body = some ("", "ana-b") }

abbrev tokens : String → String → Option (String × String)
tokens name host = some ("token of " ++ name, name)

routes :
    (is_go_to_social_route "/users/ana" ≡ true)
    × (is_go_to_social_route "/api/v1/instance" ≡ true)
    × (is_go_to_social_route "/api/v3" ≡ false)
unfolding is_go_to_social_route has_prefix strip_prefix?
routes = (refl, refl, refl)

abbrev name_and_role : GoToSocialUser → String × Bool
name_and_role u = (u.username, u.is_admin)

-- A display name with a line feed makes a row of its own.
forged_row :
    map name_and_role (
      get_local_users
        (λ s. pos 0)
        (some
          "ana|Ana\npingo|Root|7|2026-01-02T03:04:05Z|u|t|3|2026-01-01T00:00:00Z|u|t\nexample.org|x|0|d|u|"))
    ≡ ("pingo", true) ∷ []
unfolding get_local_users parse_lines parse_columns split trim_space trim_left trim_right contains
    has_prefix strip_prefix? size take
forged_row = refl
