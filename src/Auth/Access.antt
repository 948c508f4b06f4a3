-- ===== src/Auth/Access.antt =====
-- auth.go: who is let in at which route, and from which network: `RequireAuth`,
-- `RequireLocalNetwork` and `HandleAuthCheck`.
--
-- `nets` are the addresses of the host's interfaces, which the system gives; an interface that it
-- gives none for, for an error, has none.
use mathlib.Core.List.{List, [] as nil, ◌∷◌ as ◌::◌}
use p2pt_server.Prelude.{
  ℕ, ◌-◌, ◌^◌, ◌/◌, String, Bool, false, ◌&&◌, ◌||◌, not, Option, none, some, ◌==◌, eqb, is_some,
  if◌then◌else◌,
}
use p2pt_server.Clock.{Time}
use p2pt_server.GoText.{strip_prefix?}
use p2pt_server.Net.Ip.{
  Ip, v4, v6, parse_ip, groups_value, is_loopback, is_private, is_link_local_unicast,
  is_link_local_multicast,
}
use p2pt_server.Auth.{AuthManager, Request, get_client_ip, is_authenticated}

-- An address of an interface, and how many bits its mask has.
pub record IpNet : Type 0 where
  pub ip : Ip
  pub ones : ℕ

-- Whether two addresses of eight groups agree in their first `n` bits.
unfoldable pub same_prefix : ℕ → List ℕ → List ℕ → Bool
same_prefix n l k = eqb (groups_value l 0 / 2 ^ (128 - n)) (groups_value k 0 / 2 ^ (128 - n))

-- `ipnet.Contains`, or the same first 64 bits, for an address of eight groups
unfoldable pub is_near : List ℕ → IpNet → Bool
is_near l net = elim net.ip [
  | v4 a b c d ↦ false
  | v6 k ↦ same_prefix net.ones l k || same_prefix 64 l k
]

unfoldable pub any_near : List ℕ → List IpNet → Bool
any_near l nil = false
any_near l (net :: nets) = is_near l net || any_near l nets

unfoldable pub is_in_range : Ip → Bool
is_in_range ip =
    is_loopback ip || is_private ip || is_link_local_unicast ip || is_link_local_multicast ip

unfoldable pub is_local_ip : List IpNet → Option Ip → Bool
is_local_ip nets none = false
is_local_ip nets (some (v4 a b c d)) = is_in_range (v4 a b c d)
is_local_ip nets (some (v6 l)) = is_in_range (v6 l) || any_near l nets

unfoldable pub is_private_or_local_request : List IpNet → Request → Bool
is_private_or_local_request nets r = is_local_ip nets (parse_ip (get_client_ip r))

-- What becomes of a request at a route that asks for the administrator.
pub data Access : Type 0 where
  let_in : Access
  unauthorized : Access
  -- the answer of a server without a dashboard
  service_only : Access
  login_page : Access
  redirected : Access

unfoldable pub require_auth : List IpNet → String → String → Request → Time → AuthManager → Access
require_auth nets path accept r now a =
    if is_authenticated r now a
    then let_in
    else if is_some (strip_prefix? "/api/" path) || accept == "application/json"
    then unauthorized
    else if path == "/" || path == ""
    then (if not a.allow_wan_dash && not (is_private_or_local_request nets r)
        then service_only
        else login_page)
    else redirected

-- Whether the handler behind it runs.
unfoldable pub require_local_network : List IpNet → Request → Bool
require_local_network nets r = is_private_or_local_request nets r

pub record AuthCheck : Type 0 where
  pub authenticated : Bool
  pub is_local : Bool
  pub allow_wan_dash : Bool
  pub client_ip : String

unfoldable pub handle_auth_check : List IpNet → Request → Time → AuthManager → AuthCheck
handle_auth_check nets r now a = record {
  authenticated = is_authenticated r now a;
  is_local = is_private_or_local_request nets r;
  allow_wan_dash = a.allow_wan_dash;
  client_ip = get_client_ip r;
}
