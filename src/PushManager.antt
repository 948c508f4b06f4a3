-- ===== src/PushManager.antt =====
-- push_manager.go: who wants web push notifications, where they are sent, and what of it is on disk.
--
-- Sending is the package webpush: the status that the push service answers, or `none` for an error, is
-- an argument. `webpush.Keys` is kept as its JSON text. `file` is what `push_subscriptions.json`
-- decodes to; a write of it succeeds. A handler that sends reads the records in one critical section
-- and writes them, when the answer is there, in another: they are two steps.
pub mod Keys
pub mod Tokens
pub mod Store
mod Examples
use p2pt_server.Prelude.{
  ℕ, String, Bool, true, false, not, ◌&&◌, ◌||◌, Option, none, some, List, [], ◌∷◌, map, ◌==◌, eqb,
  get_or, length, if◌then◌else◌,
}
use p2pt_server.Clock.{Time}
use p2pt_server.GoMap.{GoMap, get, put, delete, size}
use p2pt_server.GoText.{strip_prefix?}

-- `subscription` is the endpoint and the keys again; a file may lack it.
pub record PushSubscriptionRecord : Type 0 where
  pub user_public_key : String
  pub salt : String
  pub endpoint : String
  pub keys : String
  pub last_seen : Time
  pub subscription : Option (String × String)

pub record PushManager : Type 0 where
  pub records : GoMap PushSubscriptionRecord
  pub file : Option (GoMap PushSubscriptionRecord)

unfoldable pub load_from_disk : PushManager → PushManager
load_from_disk pm = elim pm.file [ none ↦ pm | some loaded ↦ record pm { records = loaded } ]

unfoldable pub save_to_disk : PushManager → PushManager
save_to_disk pm = record pm { file = some pm.records }

-- A manager that starts on the file that another one has left.
unfoldable pub restart : PushManager → PushManager
restart pm = load_from_disk (record { records = []; file = pm.file })

-- The body of a subscription.
pub record Subscribe : Type 0 where
  pub user_public_key : String
  pub salt : String
  pub endpoint : String
  pub keys : String

pub data SubscribeReply : Type 0 where
  preflight_ok : SubscribeReply
  not_allowed : SubscribeReply
  invalid_payload : SubscribeReply
  fields_required : SubscribeReply
  activated : SubscribeReply

abbrev new_record : Subscribe → Time → PushSubscriptionRecord
new_record body now = record {
  user_public_key = body.user_public_key;
  salt = body.salt;
  endpoint = body.endpoint;
  keys = body.keys;
  last_seen = now;
  subscription = some (body.endpoint, body.keys);
}

abbrev subscribe : Option Subscribe → Time → PushManager → PushManager × SubscribeReply
subscribe none now pm = (pm, invalid_payload)
subscribe (some body) now pm =
    if body.user_public_key == "" || body.endpoint == "" then (pm, fields_required) else (
      save_to_disk
          (record pm { records = put body.user_public_key (new_record body now) pm.records }),
      activated,
    )

unfoldable pub handle_subscribe :
    String → Option Subscribe → Time → PushManager → PushManager × SubscribeReply
handle_subscribe method body now pm =
    if method == "OPTIONS"
    then (pm, preflight_ok)
    else if method == "POST"
    then subscribe body now pm
    else (pm, not_allowed)

-- The id behind a prefix of the path, and behind one more slash.
unfoldable pub target_id : String → String → String
target_id prefix path =
    let id = get_or path (strip_prefix? prefix path) in get_or id (strip_prefix? "/" id)

pub record SendRequest : Type 0 where
  pub method : String
  pub path : String
  pub from : String
  pub auth : String
  -- whether the body is a JSON object
  pub decodes : Bool

-- What a send comes to before the notification is sent: an answer, or the target and its subscription.
pub data SendStart : Type 0 where
  preflight_ok : SendStart
  not_allowed : SendStart
  target_required : SendStart
  not_subscribed : SendStart
  invalid_auth : SendStart
  invalid_json : SendStart
  to_send : String → String × String → SendStart

unfoldable pub subscription_of : Option PushSubscriptionRecord → Option (String × String)
subscription_of none = none
subscription_of (some rec) = rec.subscription

-- Whether the sender is registered with a salt, and shows a token that does not fit; `verify` is
-- `verifyPingoAuthToken` at this time.
unfoldable pub refused : (String → String → Bool) → String → Option PushSubscriptionRecord → Bool
refused verify auth none = false
refused verify auth (some sender) =
    not (sender.salt == "") && not (auth == "") && not (verify auth sender.salt)

unfoldable pub begin_send : (String → String → Bool) → SendRequest → PushManager → SendStart
begin_send verify r pm =
    let target = target_id "/push/send/" r.path in
    let sender = if r.from == "" then none else get r.from pm.records in
    if r.method == "OPTIONS"
    then preflight_ok
    else if not (r.method == "POST")
    then not_allowed
    else if target == ""
    then target_required
    else elim (subscription_of (get target pm.records)) [
      | none ↦ not_subscribed
      | some s ↦
          if refused verify r.auth sender
          then invalid_auth
          else if r.decodes
          then to_send target s
          else invalid_json
    ]

-- `HandleTest` asks for nothing but the id.
unfoldable pub begin_test : String → PushManager → SendStart
begin_test path pm =
    let target = target_id "/push/test/" path in
    elim (subscription_of (get target pm.records)) [
      | none ↦ not_subscribed
      | some s ↦ to_send target s
    ]

unfoldable pub is_gone : ℕ → Bool
is_gone status = eqb status 404 || eqb status 410

-- When the push service has answered; an error changes nothing.
unfoldable pub finish_send : String → Option ℕ → PushManager → PushManager
finish_send target none pm = pm
finish_send target (some status) pm =
    if is_gone status then save_to_disk (record pm { records = delete target pm.records }) else pm

unfoldable pub get_subscriptions_count : PushManager → ℕ
get_subscriptions_count pm = size pm.records

-- The order is that in which the runtime walks the map, `range`.
unfoldable pub get_all_subscriptions :
    (GoMap PushSubscriptionRecord → GoMap PushSubscriptionRecord)
    → PushManager
    → List PushSubscriptionRecord
get_all_subscriptions range pm =
    map (λ (e : String × PushSubscriptionRecord). e.1) (range pm.records)
