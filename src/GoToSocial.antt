-- ===== src/GoToSocial.antt =====
-- gotosocial_proxy.go: the accounts of the Mastodon server behind the proxy. What the database and the
-- Mastodon server answer are arguments, and so are the environment's `unicode.ToLower` and `fmt.Sscanf`.
pub mod Accounts
pub mod Users
mod Examples
use Prim.Native.Char.{Char, code}
use Prim.Native.String.{[], ◌∷◌, ◌++◌}
use p2pt_server.ConfigStorage.{Config}
use p2pt_server.GoText.{trim_char, trim_space}
use p2pt_server.GoText.Cut.{has_prefix, contains, lower, size, take}
use p2pt_server.Prelude.{
  ℕ, String, Bool, true, false, not, ◌&&◌, ◌||◌, Option, none, some, List, [] as nil, ◌∷◌ as ◌::◌,
  ◌≡◌, ◌==◌, eqb, leb, ltb, if◌then◌else◌,
}

abbrev any_prefix : List String → String → Bool
any_prefix nil path = false
any_prefix (p :: ps) path = has_prefix p path || any_prefix ps path

unfoldable pub is_go_to_social_route : String → Bool
unfolding has_prefix
is_go_to_social_route path =
    any_prefix
      ("/.well-known/webfinger" :: "/.well-known/nodeinfo" :: "/.well-known/host-meta" :: "/api/v1/"
        :: "/api/v2/" :: "/oauth/" :: "/auth/" :: "/assets/" :: "/settings/" :: "/admin/"
        :: "/users/" :: "/@" :: "/nodeinfo/" :: "/inbox" :: "/outbox" :: nil)
      path

-- a to z, 0 to 9 and _
abbrev pub is_plain : ℕ → Bool
is_plain c = (leb b'a' c && leb c b'z') || (leb b'0' c && leb c b'9') || eqb c b'_'

unfoldable pub plain_text : String → String
plain_text [] = []
plain_text (c ∷ s) =
    let rest = plain_text s in
    if is_plain (code c)
    then c ∷ rest
    else if eqb (code c) b'-' || eqb (code c) b'.'
    then "_" ∷ rest
    else rest

abbrev pub lengthened : String → String
lengthened s = if ltb (size s) 3 then "peer_" ++ s else s

abbrev pub shortened : String → String
shortened s = if ltb 25 (size s) then take 25 s else s

unfoldable pub sanitize_peer_username : (Char → Char) → String → String
unfolding lower trim_space trim_char plain_text size take
sanitize_peer_username to_lower peer_id =
    shortened (lengthened (trim_char "_" (plain_text (lower to_lower (trim_space peer_id)))))

-- The request, with what the JSON of its body decodes to.
pub record AccountRequest : Type 0 where
  pub method : String
  pub query_peer_id : String
  pub query_user : String
  pub body : Option (String × String)

-- MastodonCredentialsResponse, with what is always so left out: enabled and claimed are set.
pub record Account : Type 0 where
  pub instance_url : String
  pub username : String
  pub email : String
  pub initial_password : String
  pub token : String

pub data AccountReply : Type 0 where
  allowed not_enabled missing_peer no_token : AccountReply
  account : Account → AccountReply

abbrev from_body : Option (String × String) → String
from_body none = ""
from_body (some (peer_id, user)) =
    if not (peer_id == "")
    then trim_space peer_id
    else if not (user == "")
    then trim_space user
    else ""

abbrev from_query : AccountRequest → String
from_query r =
    if trim_space (r.query_peer_id) == ""
    then trim_space (r.query_user)
    else trim_space (r.query_peer_id)

unfoldable pub requested_peer : AccountRequest → String
unfolding trim_space
requested_peer r =
    if from_query r == "" && r.method == "POST" then from_body (r.body) else from_query r

abbrev is_public_host : String → Bool
is_public_host host =
    not (has_prefix "192.168." host)
    && not (has_prefix "127." host)
    && not (has_prefix "10." host)
    && contains "." host

abbrev scheme : Config → String
scheme cfg = if cfg.enable_tls || is_public_host (cfg.public_ip) then "https" else "http"

abbrev account_of : Config → Option (String × String) → AccountReply
account_of cfg none = no_token
account_of cfg (some (token, user)) = account (record {
  instance_url = scheme cfg ++ "://" ++ cfg.public_ip;
  username = user;
  email = user ++ "@" ++ cfg.public_ip;
  initial_password = "P1ng0_" ++ user ++ "#2026!";
  token = token;
})

-- `ensure_user_token` gives the token and the name of an account, or fails.
unfoldable pub handle_mastodon_credentials :
    (Char → Char)
    → (String → String → Option (String × String))
    → Config
    → AccountRequest
    → AccountReply
unfolding sanitize_peer_username requested_peer has_prefix contains
handle_mastodon_credentials to_lower ensure_user_token cfg r =
    if r.method == "OPTIONS"
    then allowed
    else if not (cfg.enable_mastodon)
    then not_enabled
    else if requested_peer r == ""
    then missing_peer
    else account_of cfg
        (ensure_user_token (sanitize_peer_username to_lower (requested_peer r)) (cfg.public_ip))
