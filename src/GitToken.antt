-- ===== src/GitToken.antt =====
-- git_token.go: the ephemeral tokens for Git access, `expiry_nonce_signature`, signed with
-- HMAC-SHA256. The signature is a parameter: what is shown holds whatever function it is, and none of
-- it says that a signature is hard to guess. Times are in seconds since 1970.
pub mod Binding
pub mod Shape
mod Examples
use Prim.Native.Char.{Char}
use Prim.Native.String.{[], ◌∷◌, ◌++◌}
use mathlib.Core.List.{List, [] as nil, ◌∷◌ as ◌::◌}
use p2pt_server.Prelude.{
  ℕ, String, Bool, true, false, ◌||◌, Option, none, some, ◌==◌, ltb, if◌then◌else◌,
}
use p2pt_server.GoText.{ℤ, pos, negsuc, trim_space, split, encode_hex, format_int, parse_int}

-- `time.Now().Unix() > expiryUnix`
abbrev pub is_past : ℕ → ℤ → Bool
is_past now (pos e) = ltb e now
is_past now (negsuc e) = true

-- "git:%d:%s:%s"
pub message3 : ℤ → String → String → String
message3 expiry nonce peer = "git:" ++ (format_int expiry ++ (":" ∷ (nonce ++ (":" ∷ peer))))

-- "git:%d:%s"
pub message2 : ℤ → String → String
message2 expiry peer = "git:" ++ (format_int expiry ++ (":" ∷ peer))

-- "%d_%s_%s"
pub assemble : ℤ → String → String → String
assemble expiry nonce sig = format_int expiry ++ ("_" ∷ (nonce ++ ("_" ∷ sig)))

module _ (hmac_sha256 : String → String → List ℕ) where
  pub sign : String → String → String
  sign secret message = encode_hex (hmac_sha256 secret message)

  -- `nonce_bytes` are the eight bytes that `rand.Read` gave.
  unfoldable pub generate_git_token : String → String → ℤ → List ℕ → String
  unfolding assemble message3 sign
  generate_git_token secret peer_id expiry nonce_bytes =
      let nonce = encode_hex nonce_bytes in
      assemble expiry nonce (sign secret (message3 expiry nonce (trim_space peer_id)))

  -- The tests on the parts of the token. `subtle.ConstantTimeCompare` is equality.
  check_parts : String → String → List String → ℕ → Bool
  unfolding message3 message2 sign
  check_parts secret peer (e :: nonce :: sig :: nil) now = elim (parse_int e) [
    | none ↦ false
    | some expiry ↦
        if is_past now expiry then false else sig == sign secret (message3 expiry nonce peer)
  ]
  check_parts secret peer (e :: sig :: nil) now = elim (parse_int e) [
    | none ↦ false
    | some expiry ↦ if is_past now expiry then false else sig == sign secret (message2 expiry peer)
  ]
  check_parts secret peer _ now = false

  unfoldable pub validate_git_token : String → String → String → ℕ → Bool
  unfolding check_parts
  validate_git_token secret peer_id token now =
      if secret == "" || peer_id == "" || token == ""
      then false
      else check_parts secret (trim_space peer_id) (split "_" token) now

-- HashGitToken: the hexadecimal SHA-256 of a token.
module _ (sha256 : String → List ℕ) where
  unfoldable pub hash_git_token : String → String
  hash_git_token token = encode_hex (sha256 token)

-- Times are in nanoseconds.
pub record PeerClaim : Type 0 where
  pub peer_id : String
  pub token_hash : String
  pub claimed_at : ℕ
  pub expires_at : ℕ
  pub client_ip : String
  pub last_used : ℕ
  pub revoked : Bool
