-- ===== src/Ddns/CloudHub.antt =====
-- cloudhub_ddns.go: the heartbeats to the Cloud Hub, which keeps the appliance's name. What the
-- transport brings back, and what `json.Unmarshal` makes of a body, are arguments.
use p2pt_server.Clock.{Time, zero_time}
use p2pt_server.GoText.{trim_space}
use p2pt_server.GoText.Cut.{drop_set_last}
use p2pt_server.Prelude.{
  ℕ, String, Bool, true, false, not, ◌&&◌, ◌||◌, Option, none, some, ◌==◌, eqb, if◌then◌else◌,
}

pub data HubMessage : Type 0 where
  not_initialised missing_credentials : HubMessage
  bad_request no_connection unreadable invalid : String → HubMessage
  http_error : ℕ → String → HubMessage
  registered : String → String → String → HubMessage

pub record CloudHubDdnsStatus : Type 0 where
  pub enabled : Bool
  pub appliance_id : String
  pub subdomain : String
  pub hub_endpoint : String
  pub last_update : Time
  pub last_success : Bool
  pub last_message : HubMessage
  pub current_ip : String
  pub ech_ready : Bool

pub record CloudHubDdnsManager : Type 0 where
  pub appliance_id : String
  pub secret_token : String
  pub hub_endpoint : String
  pub status : CloudHubDdnsStatus

abbrev is_slash : ℕ → Bool
is_slash c = eqb c b'/'

-- strings.TrimRight(hubEndpoint, "/"), with the hub's own address for an empty one
unfoldable pub endpoint : String → String
unfolding drop_set_last
endpoint hub =
    drop_set_last is_slash (if hub == "" then "https://pingo-cloud.accreativos.com" else hub)

unfoldable pub new_cloud_hub_ddns_manager : String → String → String → CloudHubDdnsManager
unfolding endpoint trim_space
new_cloud_hub_ddns_manager appliance_id secret_token hub = record {
  appliance_id = trim_space appliance_id;
  secret_token = trim_space secret_token;
  hub_endpoint = endpoint hub;
  status = record {
    enabled = not (trim_space appliance_id == "") && not (trim_space secret_token == "");
    appliance_id = trim_space appliance_id;
    subdomain = "";
    hub_endpoint = endpoint hub;
    last_update = zero_time;
    last_success = false;
    last_message = not_initialised;
    current_ip = "";
    ech_ready = false;
  };
}

-- The fields of the hub's answer.
pub record HubResult : Type 0 where
  pub status : String
  pub ip : String
  pub subdomain : String
  pub ech_ready : Bool

pub data HubReply : Type 0 where
  unsendable failed unread : String → HubReply
  answered : ℕ → String → HubReply

unfoldable pub set_status :
    Time → Bool → HubMessage → String → String → Bool → CloudHubDdnsManager → CloudHubDdnsManager
set_status now success msg ip subdomain ech_ready c = record {
  appliance_id = c.appliance_id;
  secret_token = c.secret_token;
  hub_endpoint = c.hub_endpoint;
  status = record {
    enabled = not (c.appliance_id == "") && not (c.secret_token == "");
    appliance_id = c.appliance_id;
    subdomain = if subdomain == "" then c.status.subdomain else subdomain;
    hub_endpoint = c.hub_endpoint;
    last_update = now;
    last_success = success;
    last_message = msg;
    current_ip = if ip == "" then c.status.current_ip else ip;
    ech_ready = ech_ready;
  };
}

-- The manager, whether the update succeeded, its message, and the arguments of the callback if it is
-- called.
pub record HubUpdated : Type 0 where
  pub manager : CloudHubDdnsManager
  pub success : Bool
  pub message : HubMessage
  pub notified : Option (String × String)

abbrev pub refused : Time → HubMessage → CloudHubDdnsManager → HubUpdated
refused now msg c = record {
  manager = set_status now false msg "" "" false c;
  success = false;
  message = msg;
  notified = none;
}

unfoldable pub accept : Time → String → CloudHubDdnsManager → Option HubResult → HubUpdated
unfolding set_status
accept now text c none = refused now (invalid text) c
accept now text c (some r) =
    let msg = registered (r.status) (r.subdomain) (r.ip) in
    record {
      manager = set_status now true msg (r.ip) (r.subdomain) (r.ech_ready) c;
      success = true;
      message = msg;
      notified = if r.subdomain == "" then none else some (r.subdomain, r.ip);
    }

unfoldable pub conclude :
    (String → Option HubResult) → Time → CloudHubDdnsManager → HubReply → HubUpdated
unfolding accept set_status
conclude unmarshal now c (unsendable e) = record {
  manager = c;
  success = false;
  message = bad_request e;
  notified = none;
}
conclude unmarshal now c (failed e) = refused now (no_connection e) c
conclude unmarshal now c (unread e) = refused now (unreadable e) c
conclude unmarshal now c (answered code text) =
    if eqb code 200
    then accept now text c (unmarshal text)
    else refused now (http_error code (trim_space text)) c

unfoldable pub update :
    (String → Option HubResult) → Time → CloudHubDdnsManager → HubReply → HubUpdated
unfolding conclude
update unmarshal now c r =
    if c.appliance_id == "" || c.secret_token == ""
    then record { manager = c; success = false; message = missing_credentials; notified = none }
    else conclude unmarshal now c r
