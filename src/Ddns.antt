-- ===== src/Ddns.antt =====
-- duckdns.go: the updates of the server's DuckDNS name. The time, the machine's IPv6 address and what
-- the transport brings back are arguments; an update tells which requests it sent. Left out is that
-- an update has the clock set if the year is before 2026 or a certificate is refused.
pub mod Names
pub mod Updates
pub mod Outcome
pub mod CloudHub
pub mod Reports
pub mod Ipv6
pub mod Api
mod Examples
use Prim.Native.Char.{Char}
use Prim.Native.String.{◌++◌}
use p2pt_server.Clock.{Time, zero_time}
use p2pt_server.GoText.{has_suffix, trim_space}
use p2pt_server.GoText.Cut.{trim_suffix, contains, lower}
use p2pt_server.Prelude.{
  String, Bool, true, false, not, ◌&&◌, ◌||◌, Option, none, some, List, [], ◌∷◌, ◌==◌,
  if◌then◌else◌,
}

-- Why an update ended as it did; the code makes texts of these.
pub data Message : Type 0 where
  not_initialised missing_credentials rejected : Message
  bad_request no_connection unreadable : String → Message
  updated : String → String → Message

pub record DuckDnsStatus : Type 0 where
  enabled : Bool
  domain : String
  full_domain : String
  last_update : Time
  last_success : Bool
  last_message : Message
  current_ip : String
  current_ipv6 : String
  next_update_in : String

pub record DuckDnsManager : Type 0 where
  domain : String
  token : String
  status : DuckDnsStatus

unfoldable pub clean_duck_domain : (Char → Char) → String → String
unfolding lower trim_space trim_suffix
clean_duck_domain to_lower d = trim_suffix ".duckdns.org" (trim_space (lower to_lower d))

unfoldable pub format_full_domain : String → String
unfolding has_suffix
format_full_domain d =
    if d == "" then "" else if has_suffix ".duckdns.org" d then d else d ++ ".duckdns.org"

abbrev pub has_credentials : DuckDnsManager → Bool
has_credentials m = not (m.domain == "") && not (m.token == "")

unfoldable pub new_duck_dns_manager : (Char → Char) → String → String → DuckDnsManager
unfolding clean_duck_domain format_full_domain
new_duck_dns_manager to_lower domain token =
    let name = clean_duck_domain to_lower domain in
    let secret = trim_space token in
    record {
      domain = name;
      token = secret;
      status = record {
        enabled = not (name == "") && not (secret == "");
        domain = name;
        full_domain = format_full_domain name;
        last_update = zero_time;
        last_success = false;
        last_message = not_initialised;
        current_ip = "";
        current_ipv6 = "";
        next_update_in = "";
      };
    }

-- What a call of the transport ends in: an error, an error while the body is read, or the body.
pub data Reply : Type 0 where
  failed unread body : String → Reply

-- A request, with whether the server's certificate is verified.
pub record Request : Type 0 where
  url : String
  verified : Bool

abbrev pub update_url : DuckDnsManager → String → String → String
update_url m ip ipv6 =
    "https://www.duckdns.org/update?domains="
    ++ m.domain
    ++ "&token="
    ++ m.token
    ++ "&ip="
    ++ ip
    ++ (if ipv6 == "" then "" else "&ipv6=" ++ ipv6)

abbrev pub blames_certificate : String → Bool
blames_certificate e = contains "x509" e || contains "certificate" e

-- The second request is made if the first was answered by a certificate that does not hold.
abbrev pub answer : Reply → Reply → Reply
answer (failed e) retry = if blames_certificate e then retry else failed e
answer r retry = r

abbrev pub requests : String → Reply → List Request
requests url (failed e) =
    record { url = url; verified = true }
    ∷ (if blames_certificate e then record { url = url; verified = false } ∷ [] else [])
requests url r = record { url = url; verified = true } ∷ []

unfoldable pub set_status :
    Time → Bool → Message → String → String → DuckDnsManager → DuckDnsManager
unfolding format_full_domain
set_status now success msg ip ipv6 m = record {
  domain = m.domain;
  token = m.token;
  status = record {
    enabled = has_credentials m;
    domain = m.domain;
    full_domain = format_full_domain (m.domain);
    last_update = now;
    last_success = success;
    last_message = msg;
    current_ip = if ip == "" then m.status.current_ip else ip;
    current_ipv6 = if ipv6 == "" then m.status.current_ipv6 else ipv6;
    next_update_in = m.status.next_update_in;
  };
}

-- What Update returns, and what it calls: the requests and the callback with its arguments.
pub record Updated : Type 0 where
  manager : DuckDnsManager
  success : Bool
  message : Message
  sent : List Request
  notified : Option (String × String)

abbrev refused : Time → Message → List Request → DuckDnsManager → Updated
refused now msg sent m = record {
  manager = set_status now false msg "" "" m;
  success = false;
  message = msg;
  sent = sent;
  notified = none;
}

abbrev pub says_ok : String → Bool
says_ok text = contains "OK" (trim_space text)

unfoldable pub conclude : Time → String → String → List Request → DuckDnsManager → Reply → Updated
unfolding set_status format_full_domain contains trim_space
conclude now ip ipv6 sent m (failed e) = refused now (no_connection e) sent m
conclude now ip ipv6 sent m (unread e) = refused now (unreadable e) sent m
conclude now ip ipv6 sent m (body text) =
    let msg = updated (format_full_domain (m.domain)) ipv6 in
    if says_ok text
    then record {
      manager = set_status now true msg ip ipv6 m;
      success = true;
      message = msg;
      sent = sent;
      notified = some (format_full_domain (m.domain), ip);
    }
    else refused now rejected sent m

-- Nothing is sent, and the status stays.
abbrev unsent : Message → DuckDnsManager → Updated
unsent msg m = record { manager = m; success = false; message = msg; sent = []; notified = none }

-- What an update meets: the time, the IPv6 address, an error of the request, and the two replies.
pub record World : Type 0 where
  now : Time
  ipv6 : String
  request_error : Option String
  first : Reply
  retry : Reply

unfoldable pub attempt : World → String → DuckDnsManager → Option String → Updated
unfolding conclude
attempt w ip m (some e) = unsent (bad_request e) m
attempt w ip m none =
    conclude (w.now) ip (w.ipv6) (requests (update_url m ip (w.ipv6)) (w.first)) m
      (answer (w.first) (w.retry))

unfoldable pub update : World → String → DuckDnsManager → Updated
unfolding attempt
update w ip m =
    if m.domain == "" || m.token == ""
    then unsent missing_credentials m
    else attempt w ip m (w.request_error)

unfoldable pub renew : (Char → Char) → String → String → DuckDnsManager → DuckDnsManager
unfolding clean_duck_domain format_full_domain trim_space
renew to_lower domain token m =
    let name = clean_duck_domain to_lower domain in
    let secret = trim_space token in
    record {
      domain = name;
      token = secret;
      status = record {
        enabled = not (name == "") && not (secret == "");
        domain = name;
        full_domain = format_full_domain name;
        last_update = m.status.last_update;
        last_success = m.status.last_success;
        last_message = m.status.last_message;
        current_ip = m.status.current_ip;
        current_ipv6 = m.status.current_ipv6;
        next_update_in = m.status.next_update_in;
      };
    }

unfoldable pub set_credentials : (Char → Char) → World → String → String → DuckDnsManager → Updated
unfolding update renew
set_credentials to_lower w domain token m = update w "" (renew to_lower domain token m)

-- SetDuckDNSTXTRecord and ClearDuckDNSTXTRecord: the address that is asked, given which the transport
-- brings an error, or a body, as much of it as can be read.
unfoldable pub txt_url : (Char → Char) → String → String → String → String
unfolding clean_duck_domain trim_space
txt_url to_lower domain token txt =
    "https://www.duckdns.org/update?domains="
    ++ clean_duck_domain to_lower domain
    ++ "&token="
    ++ trim_space token
    ++ "&txt="
    ++ trim_space txt

unfoldable pub clear_txt_url : (Char → Char) → String → String → String
unfolding clean_duck_domain trim_space
clear_txt_url to_lower domain token =
    "https://www.duckdns.org/update?domains="
    ++ clean_duck_domain to_lower domain
    ++ "&token="
    ++ trim_space token
    ++ "&txt=&clear=true"

abbrev taken : Option String → Bool
taken none = false
taken (some text) = contains "OK" text

-- Whether the record is set.
unfoldable pub set_duck_dns_txt_record :
    (Char → Char) → (String → Option String) → String → String → String → Bool
unfolding txt_url
set_duck_dns_txt_record to_lower transport domain token txt =
    taken (transport (txt_url to_lower domain token txt))

unfoldable pub clear_duck_dns_txt_record :
    (Char → Char) → (String → Option String) → String → String → Bool
unfolding clear_txt_url
clear_duck_dns_txt_record to_lower transport domain token =
    taken (transport (clear_txt_url to_lower domain token))
