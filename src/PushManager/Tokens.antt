-- ===== src/PushManager/Tokens.antt =====
-- push_manager.go: the token that a sender shows, the hash of its salt and of the hour.
--
-- `sha256` is `sha256.Sum256` of the bytes of a text. Times are after 1970.
use Prim.Native.String.{◌++◌}
use p2pt_server.Prelude.{
  ℕ, String, Bool, true, false, ◌||◌, none, some, List, Option-cases, ◌==◌, ◌≡◌, ◌≢◌, ◌+◌, ◌-◌, ◌*◌,
  ◌≤◌, ◌⊎◌, ◌/◌, ◌%◌, inl, inr, refl, arith, eq_refl, if_cases, if◌then◌else◌,
}
use p2pt_server.GoMap.{get}
use p2pt_server.PushManager.{
  PushManager, PushSubscriptionRecord, SendRequest, invalid_auth, begin_send, refused,
  subscription_of, target_id,
}
use p2pt_server.Clock.{Time, hour, second, unix_epoch}
use p2pt_server.Clock.Civil.{civil, unix_hours, one_of_three}
use p2pt_server.GoText.{encode_hex, decimal}

-- The hour `h` after 1970, as `2024-0-31-23`: months count from 0.
unfoldable pub hour_key : ℕ → String
hour_key h =
    let c = civil (h / 24) in
    decimal 20 c.year
    ++ "-"
    ++ decimal 20 (c.month - 1)
    ++ "-"
    ++ decimal 20 c.day
    ++ "-"
    ++ decimal 20 (h % 24)

abbrev time_key : Time → String
time_key t = hour_key (unix_hours t)

-- A sender whose token is not refused gets any other answer.
begin_send-unrefused :
    (verify : String → String → Bool) (r : SendRequest) (pm : PushManager)
    → refused verify r.auth (if r.from == "" then none else get r.from pm.records) ≡ false
    → begin_send verify r pm ≢ invalid_auth
unfolding begin_send
begin_send-unrefused verify r pm e =
    elim (Option-cases (subscription_of (get (target_id "/push/send/" r.path) pm.records))) [
      | inl s ↦ rw (s) (ground arith)
      | inr (t, s) ↦ rw (s, e) (ground arith)
    ]

module _ (sha256 : String → List ℕ) where
  unfoldable pub generate_token : Time → String → String
  generate_token now salt =
      if salt == "" then "public" else encode_hex (sha256 (salt ++ time_key now))

  unfoldable pub verify_token : Time → String → String → Bool
  verify_token now received salt =
      if salt == "" || received == "" || received == "public"
      then true
      else (encode_hex (sha256 (salt ++ time_key now)) == received)
        || (encode_hex (sha256 (salt ++ time_key (now - hour))) == received)
        || (encode_hex (sha256 (salt ++ time_key (now + hour))) == received)

  empty_salt :
      (now : Time) (received salt : String)
      → (salt == "") ≡ true
      → verify_token now received salt ≡ true
  unfolding verify_token
  empty_salt now received salt e = rw (e) refl

  abbrev hash_of : String → ℕ → String
  hash_of salt h = encode_hex (sha256 (salt ++ hour_key h))

  verify_token-hash_of :
      (now : Time) (salt : String) (h : ℕ)
      → (unix_hours now ≡ h) ⊎ (unix_hours (now - hour) ≡ h) ⊎ (unix_hours (now + hour) ≡ h)
      → verify_token now (hash_of salt h) salt ≡ true
  unfolding verify_token
  verify_token-hash_of now salt h (inl e) = rw (e, eq_refl (hash_of salt h)) (ground arith)
  verify_token-hash_of now salt h (inr (inl e)) = rw (e, eq_refl (hash_of salt h)) (ground arith)
  verify_token-hash_of now salt h (inr (inr e)) = rw (e, eq_refl (hash_of salt h)) (ground arith)

  -- A token is accepted up to an hour after it was made, and up to an hour before, where the clocks
  -- differ.
  verify_token-generate_token :
      (made now : Time) (salt : String)
      → unix_epoch * second + hour ≤ now
      → made ≤ now + hour
      → now ≤ made + hour
      → verify_token now (generate_token made salt) salt ≡ true
  unfolding generate_token
  verify_token-generate_token made now salt h a b =
      if_cases (λ t. verify_token now t salt ≡ true) (salt == "")
        (λ e. empty_salt now "public" salt e)
        (λ e. verify_token-hash_of now salt (unix_hours made) (one_of_three made now h a b))

  -- The token that a registered sender has made with its salt, at most an hour before or after
  -- the time of its request, is never answered with Invalid Auth Token; that time is after the
  -- first hour of 1970.
  pub begin_send-generate_token :
      (r : SendRequest) (pm : PushManager) (sender : PushSubscriptionRecord) (made now : Time)
      → get r.from pm.records ≡ some sender
      → r.auth ≡ generate_token made sender.salt
      → unix_epoch * second + hour ≤ now
      → made ≤ now + hour
      → now ≤ made + hour
      → begin_send (verify_token now) r pm ≢ invalid_auth
  unfolding refused
  begin_send-generate_token r pm sender made now known token h a b =
      begin_send-unrefused (verify_token now) r pm (
        if_cases (λ o. refused (verify_token now) r.auth o ≡ false) (r.from == "") (λ e. refl)
          (λ e.
            rw (known, token, verify_token-generate_token made now sender.salt h a b)
              (ground arith)))
