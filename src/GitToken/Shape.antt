-- ===== src/GitToken/Shape.antt =====
-- The text of a token: it is not empty, and no space stands in it.
use mathlib.Core.List.{List}
use p2pt_server.Prelude.{ℕ, String, ◌≡◌, ◌≢◌, refl}
use p2pt_server.GoText.{pos, trim_space, encode_hex, format_int}
use p2pt_server.GoText.Trim.{
  Spaceless-append, encode_hex-Spaceless, format_int-Spaceless, trim_space-Spaceless,
}
use p2pt_server.GitToken.{assemble, sign, generate_git_token}
use p2pt_server.GitToken.Binding.{assemble-ne-nil}

module _ (hmac_sha256 : String → String → List ℕ) where
  pub token-trimmed :
      (secret peer : String) (e : ℕ) (nonce : List ℕ)
      → trim_space (generate_git_token hmac_sha256 secret peer (pos e) nonce)
        ≡ generate_git_token hmac_sha256 secret peer (pos e) nonce
  unfolding generate_git_token assemble sign
  token-trimmed secret peer e nonce = trim_space-Spaceless _ (
      Spaceless-append (format_int (pos e)) _ (format_int-Spaceless e) (
        refl,
        Spaceless-append (encode_hex nonce) _ (encode_hex-Spaceless nonce)
            (refl, encode_hex-Spaceless _),
      ))

  pub token-ne-nil :
      (secret peer : String) (e : ℕ) (nonce : List ℕ)
      → generate_git_token hmac_sha256 secret peer (pos e) nonce ≢ ""
  unfolding generate_git_token
  token-ne-nil secret peer e nonce = assemble-ne-nil e _ _
