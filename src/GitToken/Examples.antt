-- ===== src/GitToken/Examples.antt =====
-- Tokens of concrete peers, signed with a checksum in place of HMAC-SHA256.
use Prim.Native.Char.{code}
use Prim.Native.String.{[], ◌∷◌}
use mathlib.Core.List.{List, [] as nil, ◌∷◌ as ◌::◌}
use p2pt_server.Prelude.{ℕ, ◌+◌, ◌%◌, String, true, ◌≡◌, ◌≢◌, refl, arith, eq_iff}
use p2pt_server.GoText.{pos, trim_space, encode_hex, format_int, decimal}
use p2pt_server.GitToken.{generate_git_token, validate_git_token}
use p2pt_server.GitToken.Binding.{validate-generate, validate-widen, widen}

sum : String → ℕ → ℕ
sum [] n = n % 256
sum (c ∷ s) n = sum s (n + code c)

abbrev checksum : String → String → List ℕ
checksum secret m = sum m 7 :: sum secret 1 :: nil

abbrev nonce : List ℕ
nonce = 1 :: 2 :: 254 :: nil

token_text :
    generate_git_token checksum "key" " ana " (pos 1700000000) nonce ≡ "1700000000_0102fe_9f4a"
unfolding generate_git_token trim_space encode_hex format_int decimal sum
token_text = refl

key_given : ◌≢◌ {A = String} "key" ""
key_given = ground (arith, eq_iff "key" "")

ana_given : ◌≢◌ {A = String} "ana" ""
ana_given = ground (arith, eq_iff "ana" "")

validate-generate_example :
    validate_git_token checksum "key" "ana"
      (generate_git_token checksum "key" "ana" (pos 50) nonce)
      40
    ≡ true
validate-generate_example =
    validate-generate checksum "key" 50 40 "ana" nonce key_given ana_given (omega arith)

validate-widen_example :
    validate_git_token checksum "key" "ana"
      (widen "x" (generate_git_token checksum "key" "x:ana" (pos 50) nonce))
      40
    ≡ true
unfolding trim_space
validate-widen_example =
    validate-widen checksum "key" 50 40 "x" "ana" nonce key_given ana_given (omega arith) (refl, tt)
      refl refl
