-- ===== src/PushManager/Examples.antt =====
-- The push manager on concrete inputs.
use p2pt_server.Prelude.{
  ℕ, String, true, none, some, List, [], ◌∷◌, ◌≡◌, ◌≢◌, ◌+◌, ◌*◌, refl, arith, eq_iff,
}
use p2pt_server.Clock.{Time, hour, minute, second, unix_epoch}
use p2pt_server.Clock.Civil.{civil}
use p2pt_server.GoMap.{get}
use p2pt_server.GoText.{decimal}
use p2pt_server.PushManager.{
  PushManager, Subscribe, SendRequest, begin_send, invalid_auth, new_record,
}
use p2pt_server.PushManager.Keys.{
  VapidKeys, new_keys, read_keys, complete_keys, left_on_disk, is_incomplete, or_default,
  keys_persist,
}
use p2pt_server.PushManager.Tokens.{
  hour_key, generate_token, verify_token, begin_send-generate_token,
}
use p2pt_server.PushManager.Store.{
  Op, subscribe_op, answer_op, restart_op, run, replay, fresh, run-replay,
}

-- 29 February 2024, 23:00
leap_day : hour_key 474791 ≡ "2024-1-29-23"
unfolding hour_key civil decimal
leap_day = refl

-- 31 December 1999, 1 January 1970 and 1 March 2000
hour_keys :
    (hour_key 262955 ≡ "1999-11-31-11")
    × (hour_key 0 ≡ "1970-0-1-0")
    × (hour_key 264408 ≡ "2000-2-1-0")
unfolding hour_key civil decimal
hour_keys = (refl, refl, refl)

abbrev no_keys : VapidKeys
no_keys = record { public_key = ""; private_key = "only"; email = "" }

keys_persist_example :
    (new_keys no_keys
      (left_on_disk (new_keys no_keys none (some ("pri", "pub"))).1 none)
      (some ("other", "pair"))).0
    ≡ (new_keys no_keys none (some ("pri", "pub"))).0
keys_persist_example =
    keys_persist no_keys none "pri" "pub" (some ("other", "pair")) (ground (arith, eq_iff "pri" ""))
      (ground (arith, eq_iff "pub" ""))

first_keys :
    (new_keys no_keys none (some ("pri", "pub"))).0
    ≡ record { public_key = "pub"; private_key = "pri"; email = "admin@accreativos.com" }
unfolding new_keys read_keys complete_keys is_incomplete or_default
first_keys = refl

-- A stand-in for SHA-256.
abbrev sum : String → List ℕ
sum s = 7 ∷ 8 ∷ []

abbrev alice : Subscribe
alice = record { user_public_key = "alice"; salt = "s"; endpoint = "https://push/a"; keys = "{}" }

abbrev noon : Time
noon = unix_epoch * second + 12 * hour

abbrev manager : PushManager
manager = record {
  records = ("alice", new_record alice noon) ∷ [];
  file = some (("alice", new_record alice noon) ∷ []);
}

abbrev to_bob : Time → SendRequest
to_bob made = record {
  method = "POST";
  path = "/push/send/bob";
  from = "alice";
  auth = generate_token sum made "s";
  decodes = true;
}

begin_send-generate_token_example :
    begin_send (verify_token sum (noon + 59 * minute)) (to_bob noon) manager ≢ invalid_auth
unfolding get
begin_send-generate_token_example =
    begin_send-generate_token sum (to_bob noon) manager (new_record alice noon) noon
      (noon + 59 * minute) refl refl (omega arith) (omega arith) (omega arith)

-- Two peers subscribe, one is gone, and the server starts again.
abbrev day : List Op
day =
    subscribe_op "POST" (some alice) noon
    ∷ subscribe_op "POST" (some (record alice { user_public_key = "bob" })) noon
    ∷ answer_op "alice" (some 410)
    ∷ restart_op
    ∷ answer_op "bob" (some 201)
    ∷ []

abbrev empty_manager : PushManager
empty_manager = record { records = []; file = none }

run-replay_example :
    get "bob" (run day empty_manager).records ≡ replay day (λ j. get j empty_manager.records) "bob"
run-replay_example = run-replay day empty_manager "bob" (fresh empty_manager refl refl)
