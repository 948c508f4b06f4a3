-- ===== src/PushManager/Keys.antt =====
-- push_manager.go: the key pair that notifications are signed with (`NewPushManager`).
use p2pt_server.Prelude.{
  String, Bool, true, false, not, ◌&&◌, ◌||◌, Option, none, some, ◌==◌, ◌≡◌, ◌≢◌, refl, sym, arith,
  ==_ne, if_cases, Bool-cases, inl, inr, if◌then◌else◌,
}

abbrev default_public_key : String
default_public_key =
    "BEJ45uzzL_hw2MpJaxTw8Jwk-hbqJE3D5GI7TWMBaYOLkKoVsJQJGVZrpDOASMBpsCpF3bFI2LFZaZecqAWfAKk"

abbrev default_private_key : String
default_private_key = "uwHBVq5KHmevNRtVBTP62G_n6mFeH7vOQsVlpG_YHWU"

abbrev default_email : String
default_email = "admin@accreativos.com"

pub record VapidKeys : Type 0 where
  pub public_key : String
  pub private_key : String
  pub email : String

unfoldable pub is_incomplete : VapidKeys → Bool
is_incomplete k = k.public_key == "" || k.private_key == ""

-- What the environment gives, and the file `vapid_keys.json`, if it decodes, where it is wanting.
unfoldable pub read_keys : VapidKeys → Option VapidKeys → VapidKeys
read_keys env none = env
read_keys env (some stored) =
    if is_incomplete env && not (is_incomplete stored)
    then record {
      public_key = stored.public_key;
      private_key = stored.private_key;
      email = if env.email == "" then stored.email else env.email;
    }
    else env

unfoldable pub or_default : String → String
or_default email = if email == "" then default_email else email

-- The keys that are used, and the file if it is written. `generated` is the private and the public key
-- that the package webpush makes, or `none` for its error.
unfoldable pub complete_keys : Option (String × String) → VapidKeys → VapidKeys × Option VapidKeys
complete_keys none k =
    if is_incomplete k
    then (
      record {
        public_key = default_public_key;
        private_key = default_private_key;
        email = or_default k.email;
      },
      none,
    )
    else (record k { email = or_default k.email }, none)
complete_keys (some (private, public)) k =
    if not (is_incomplete k)
    then (record k { email = or_default k.email }, none)
    else if private == "" || public == ""
    then (
      record {
        public_key = default_public_key;
        private_key = default_private_key;
        email = or_default k.email;
      },
      none,
    )
    else (let made : VapidKeys = record {
      public_key = public;
      private_key = private;
      email = or_default k.email;
    } in
        (made, some made))

unfoldable pub new_keys :
    VapidKeys → Option VapidKeys → Option (String × String) → VapidKeys × Option VapidKeys
new_keys env stored generated = complete_keys generated (read_keys env stored)

-- The file after a start.
unfoldable pub left_on_disk : Option VapidKeys → Option VapidKeys → Option VapidKeys
left_on_disk none stored = stored
left_on_disk (some made) stored = some made

abbrev with_default : VapidKeys → VapidKeys
with_default k = record k { email = or_default k.email }

abbrev made_keys : String → String → String → VapidKeys
made_keys private public email = record {
  public_key = public;
  private_key = private;
  email = or_default email;
}

or_default_twice : (email : String) → or_default (or_default email) ≡ or_default email
unfolding or_default
or_default_twice email = if_cases (λ b. or_default b ≡ b) (email == "") (λ e. refl) (λ e. rw (e))

complete_keys_whole :
    (generated : Option (String × String)) (k : VapidKeys)
    → is_incomplete k ≡ false
    → complete_keys generated k ≡ (with_default k, none)
unfolding complete_keys
complete_keys_whole none k e = rw (e)
complete_keys_whole (some (private, public)) k e = rw (e)

complete_keys-made :
    (private public : String) (k : VapidKeys)
    → is_incomplete k ≡ true
    → private ≢ ""
    → public ≢ ""
    → complete_keys (some (private, public)) k
      ≡ (made_keys private public k.email, some (made_keys private public k.email))
unfolding complete_keys
complete_keys-made private public k e p q = rw (e, ==_ne private "" p, ==_ne public "" q)

made_keys_whole :
    (private public email : String)
    → private ≢ ""
    → public ≢ ""
    → is_incomplete (made_keys private public email) ≡ false
unfolding is_incomplete
made_keys_whole private public email p q = rw (==_ne private "" p, ==_ne public "" q)

is_incomplete_email :
    (k : VapidKeys) (email : String)
    → is_incomplete
        (record { public_key = k.public_key; private_key = k.private_key; email = email })
      ≡ is_incomplete k
unfolding is_incomplete
is_incomplete_email k email = refl

-- What is incomplete was not on disk.
read_keys-incomplete :
    (env : VapidKeys) (stored : Option VapidKeys)
    → is_incomplete (read_keys env stored) ≡ true
    → read_keys env stored ≡ env
unfolding read_keys
read_keys-incomplete env none e = refl
read_keys-incomplete env (some k) e =
    if_cases (λ r. is_incomplete r ≡ true → r ≡ env) (is_incomplete env && not (is_incomplete k))
      (λ c h.
        ground (arith, is_incomplete_email k (if env.email == "" then k.email else env.email)))
      (λ c h. refl) e

if_empty : (email : String) → (if email == "" then or_default email else email) ≡ or_default email
unfolding or_default
if_empty email = if_cases (λ b. b ≡ or_default email) (email == "") (λ e. refl) (λ e. rw (e) refl)

read_keys-made :
    (env : VapidKeys) (private public : String)
    → is_incomplete env ≡ true
    → private ≢ ""
    → public ≢ ""
    → read_keys env (some (made_keys private public env.email)) ≡ made_keys private public env.email
unfolding read_keys
read_keys-made env private public e p q =
    rw (e, made_keys_whole private public env.email p q, if_empty env.email)

-- A key pair that could be made once, neither key of it empty, is kept: a second start on the file
-- that the first one has left uses the same keys and address, whatever is generated then.
pub keys_persist :
    (env : VapidKeys) (stored : Option VapidKeys) (private public : String)
    (again : Option (String × String))
    → private ≢ ""
    → public ≢ ""
    → (new_keys env (left_on_disk (new_keys env stored (some (private, public))).1 stored) again).0
      ≡ (new_keys env stored (some (private, public))).0
unfolding new_keys left_on_disk
keys_persist env stored private public again p q =
    elim (Bool-cases (is_incomplete (read_keys env stored))) [
      | inl e ↦
          (let same = read_keys-incomplete env stored e in
            let a : is_incomplete env ≡ true = rw (sym same) e in
            rw
              (
                same,
                complete_keys-made private public env a p q,
                read_keys-made env private public a p q,
                complete_keys_whole again (made_keys private public env.email)
                    (made_keys_whole private public env.email p q),
                or_default_twice env.email,
              )
              refl)
      | inr e ↦
          rw (complete_keys_whole (some (private, public)) (read_keys env stored) e)
            (rw (complete_keys_whole again (read_keys env stored) e) refl)
    ]
