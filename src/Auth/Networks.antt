-- ===== src/Auth/Networks.antt =====
-- Which networks the dashboard and the settings of the host are open to.
use p2pt_server.Prelude.{ℕ, ◌<◌, String, Bool, false, ◌&&◌, ◌||◌, ◌≡◌, ◌≢◌, ◌∙◌, arith, eqb, leb}
use mathlib.Core.List.{List}
use p2pt_server.Clock.{Time}
use p2pt_server.Net.Ip.{v4, is_loopback, is_private, is_link_local_unicast, is_link_local_multicast}
use p2pt_server.Net.Dotted.{dotted_text, parse_ip-dotted_text}
use p2pt_server.Auth.{AuthManager, Request, get_client_ip, is_authenticated}
use p2pt_server.Auth.Access.{
  IpNet, is_in_range, is_local_ip, is_private_or_local_request, let_in, login_page, require_auth,
  require_local_network,
}

-- 127.0.0.0/8, 10.0.0.0/8, 172.16.0.0/12, 192.168.0.0/16, 169.254.0.0/16 and 224.0.0.0/24
unfoldable pub is_home : ℕ → ℕ → ℕ → Bool
is_home a b c =
    eqb a 127
    || eqb a 10
    || (eqb a 172 && leb 16 b && leb b 31)
    || (eqb a 192 && eqb b 168)
    || (eqb a 169 && eqb b 254)
    || (eqb a 224 && eqb b 0 && eqb c 0)

is_in_range-v4 : (a b c d : ℕ) → is_in_range (v4 a b c d) ≡ is_home a b c
unfolding is_in_range is_home is_loopback is_private is_link_local_unicast is_link_local_multicast
is_in_range-v4 a b c d = ground arith

-- A client with an address of four bytes reaches the settings of the host exactly from the loopback,
-- private and link-local ranges.
pub require_local_network-is_home :
    (nets : List IpNet) (r : Request) (a b c d : ℕ)
    → a < 256
    → b < 256
    → c < 256
    → d < 256
    → get_client_ip r ≡ dotted_text a b c d
    → require_local_network nets r ≡ is_home a b c
unfolding require_local_network is_private_or_local_request is_local_ip
require_local_network-is_home nets r a b c d h i j k e =
    rw (e, parse_ip-dotted_text a b c d h i j k) (is_in_range-v4 a b c d)

-- A client with a public address of four bytes that is not the administrator meets neither what is
-- protected nor the page to log in at, unless the dashboard is open to the outside; and it does not
-- reach the settings of the host.
pub require_auth-public :
    (nets : List IpNet) (path accept : String) (r : Request) (now : Time) (au : AuthManager)
    (a b c d : ℕ)
    → a < 256
    → b < 256
    → c < 256
    → d < 256
    → get_client_ip r ≡ dotted_text a b c d
    → is_home a b c ≡ false
    → au.allow_wan_dash ≡ false
    → is_authenticated r now au ≡ false
    → (require_auth nets path accept r now au ≢ let_in)
      × (require_auth nets path accept r now au ≢ login_page)
      × (require_local_network nets r ≡ false)
unfolding require_auth require_local_network
require_auth-public nets path accept r now au a b c d h i j k e p w n =
    let far = require_local_network-is_home nets r a b c d h i j k e ∙ p in
    (rw (n, w, far) (ground arith), rw (n, w, far) (ground arith), far)
