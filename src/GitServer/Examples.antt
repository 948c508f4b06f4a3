-- ===== src/GitServer/Examples.antt =====
-- A server with one peer, "ana", whose tokens are signed and hashed with a checksum.
use Prim.Native.Char.{code}
use Prim.Native.String.{[] as empty, ◌∷◌ as ◌:∷◌}
use p2pt_server.Prelude.{
  ℕ, ◌+◌, ◌*◌, ◌%◌, String, true, false, none, some, List, [], ◌∷◌, ◌≡◌, ◌≢◌, refl, arith, eq_iff,
}
use p2pt_server.Clock.{Time, second, unix_epoch}
use p2pt_server.GoMap.{get}
use p2pt_server.GoText.{
  pos, trim_space, trim_char, split, encode_hex, format_int, decimal, has_suffix,
}
use p2pt_server.GitToken.{PeerClaim, hash_git_token, generate_git_token, validate_git_token}
use p2pt_server.GitServer.{GitServer, is_peer_revoked, is_marked, revoke_peer, get_peer_claim}
use p2pt_server.GitServer.Access.{
  GitConfig, granted, repo_namespace, is_admin, valid_token, authenticate_request, token_secret,
  check_trimmed, check_rest, check_claim, check_isolation, has_valid_session, is_appliance_user,
}
use p2pt_server.GitServer.Credentials.{
  CredentialsRequest, Credentials, issued, to_unix, requested_peer, body_peer, provided_token,
  is_admin_request, is_locked, issue, new_claim, repo_url, repo_name, ttl_seconds,
  handle_git_credentials,
}
use p2pt_server.GitServer.Run.{Op, ask, revoke, reboot, perform_all}
use p2pt_server.GitServer.Isolation.{Granted, authenticate_request-Granted}
use p2pt_server.GitServer.Claims.{Held, AllSpare, Spares, perform_all-Held}
use p2pt_server.GitServer.Barred.{AllKeep, Keeps, revoked_is_shut_out}
use p2pt_server.GitServer.Issued.{credentials_open}

sum : String → ℕ → ℕ
sum empty n = n % 256
sum (c :∷ s) n = sum s (n * 3 + code c)

abbrev checksum : String → String → List ℕ
checksum secret m = sum m 7 ∷ sum secret 1 ∷ []

abbrev digest : String → List ℕ
digest m = sum m 9 ∷ []

abbrev config : GitConfig
config = record {
  username = "box";
  password = "pw";
  auth_secret = "key";
  git_repo = "";
  enable_tls = true;
  public_ip = "10.0.0.1";
  http_port = 9000;
}

abbrev fresh : GitServer
fresh = record { claims = []; revoked_peers = []; file = none }

abbrev now : Time
now = (unix_epoch + 1700000000) * second

abbrev ask_for : String → String → CredentialsRequest
ask_for peer token = record {
  http = record {
    method = "GET";
    remote_addr = "10.0.0.7:4242";
    authorization = "";
    basic_auth = none;
    cookie = none;
    password = none;
  };
  peer_id = peer;
  user = "";
  token = token;
  ttl = "";
  body = none;
}

abbrev reply : Credentials
reply = record {
  url = "https://10.0.0.1:9000/git/ana/routes.git";
  username = "ana";
  token = "1702592000_0102_de86";
  repo = "routes.git";
  expires_at = pos 1702592000;
  ttl = 2592000;
}

ana_asks :
    (handle_git_credentials checksum digest config none
      (ask_for " ana " "")
      now
      now
      (1 ∷ 2 ∷ [])
      fresh).1
    ≡ issued reply
unfolding handle_git_credentials requested_peer body_peer trim_space is_peer_revoked is_marked get
    get_peer_claim is_locked issue new_claim to_unix repo_url repo_name ttl_seconds token_secret
    generate_git_token encode_hex format_int decimal has_suffix sum
ana_asks = refl

key_given : ◌≢◌ {A = String} "key" ""
key_given = ground (arith, eq_iff "key" "")

credentials_open_example :
    (authenticate_request checksum digest config none "ana" "1702592000_0102_de86" "/ana/routes.git"
      now
      (handle_git_credentials checksum digest config none
        (ask_for " ana " "")
        now
        now
        (1 ∷ 2 ∷ [])
        fresh).0).1
    ≡ granted
unfolding ttl_seconds repo_namespace trim_char split token_secret
credentials_open_example =
    credentials_open checksum digest config none (ask_for " ana " "") now now (1 ∷ 2 ∷ []) fresh
      reply none "/ana/routes.git" now ana_asks
      (record { past_epoch = omega arith; not_late = omega arith; short = omega arith }) key_given
      (omega arith) refl

abbrev claim : PeerClaim
claim = record {
  peer_id = "ana";
  token_hash = "2a";
  claimed_at = now;
  expires_at = now + second;
  client_ip = "10.0.0.7";
  last_used = now;
  revoked = false;
}

abbrev claimed : GitServer
claimed = record {
  claims = ("ana", claim) ∷ [];
  revoked_peers = [];
  file = some (("ana", claim) ∷ []);
}

-- "box" with its password asks for a repository that is in no namespace.
box_let_in :
    (authenticate_request checksum digest config none "box" "pw" "routes.git" now claimed).1
    ≡ granted
unfolding authenticate_request check_trimmed check_rest check_claim check_isolation is_admin
    has_valid_session is_appliance_user valid_token validate_git_token is_peer_revoked is_marked
    trim_space get split token_secret repo_namespace trim_char
box_let_in = refl

authenticate_request-Granted_example :
    Granted checksum digest config none
      (trim_space "box")
      (trim_space "pw")
      "routes.git"
      now
      claimed
authenticate_request-Granted_example =
    authenticate_request-Granted checksum digest config none "box" "pw" "routes.git" now claimed
      box_let_in

no_hash : ◌≢◌ {A = String} "2a" ""
no_hash = ground (arith, eq_iff "2a" "")

other_hash : ◌≢◌ {A = String} "93" "2a"
other_hash = ground (arith, eq_iff "93" "2a")

stranger : Spares checksum digest config "ana" "2a" (ask none (ask_for "ana" "x") now now [])
unfolding Spares is_admin_request provided_token hash_git_token encode_hex trim_space sum
stranger e = (refl, other_hash)

abbrev events : List Op
events = ask none (ask_for "ana" "x") now now [] ∷ revoke "bob" now ∷ reboot (now + 5) ∷ []

perform_all-Held_example : Held "ana" "2a" (perform_all checksum digest config events claimed)
unfolding AllSpare Spares get
perform_all-Held_example =
    perform_all-Held checksum digest config "ana" "2a" events claimed no_hash
      (stranger, (tt, (tt, tt))) (record { stands = refl; synced = refl })

revoked_is_shut_out_example :
    (authenticate_request checksum digest config none "ana" "t" "ana/r.git"
      (now + 9)
      (perform_all checksum digest config events (revoke_peer "ana" now claimed))).1
    ≢ granted
unfolding AllKeep Keeps get trim_space
revoked_is_shut_out_example =
    revoked_is_shut_out checksum digest config "ana" now (now + 9) claim events claimed none "ana"
      "t" "ana/r.git" refl refl (tt, (tt, (tt, tt)))
