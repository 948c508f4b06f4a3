-- ===== src/GitToken/Binding.antt =====
-- Which tokens are accepted for which peer.
use Prim.Native.Char.{code}
use Prim.Native.String.{[], ◌∷◌, ◌++◌}
use Prim.Native.String.append
use text.Mathlib.TextLemmas.{append_assoc}
use mathlib.Core.List.{List, [] as nil, ◌∷◌ as ◌::◌}
use p2pt_server.Prelude.{
  ℕ, ◌<◌, ◌^◌, String, ◌≡◌, ◌≢◌, refl, ap, ◌∙◌, arith, eqb, leb, Option, none, some, ==_ne, eq_iff,
  if◌then◌else◌,
}
use p2pt_server.GoText.{ℤ, pos, trim_space, split, encode_hex, format_int}
use p2pt_server.GoText.Pieces.{Free, split-Free, split-append, Free-append, encode_hex-Free}
use p2pt_server.GoText.Decimal.{format_int-ne-nil, format_int-Free, parse_int-format_int}
use p2pt_server.GitToken.{
  message3, assemble, sign, generate_git_token, check_parts, validate_git_token,
}

append-ne-nil : (s t : String) → s ≢ [] → (s ++ t) ≢ []
append-ne-nil [] t n e = n refl
append-ne-nil (c ∷ s) t n e = cc (append.cons c s t, e)

-- The parts of an assembled token.
split-assemble :
    (e : ℕ) (nonce sig : String)
    → Free "_" nonce
    → Free "_" sig
    → split "_" (assemble (pos e) nonce sig) ≡ format_int (pos e) :: nonce :: sig :: nil
unfolding assemble
split-assemble e nonce sig f g =
    split-append "_" (format_int (pos e)) (nonce ++ ("_" ∷ sig)) (format_int-Free e)
    ∙ ap (λ (l : List String). format_int (pos e) :: l)
        (split-append "_" nonce sig f ∙ ap (λ (l : List String). nonce :: l) (split-Free "_" sig g))

pub assemble-ne-nil : (e : ℕ) (nonce sig : String) → assemble (pos e) nonce sig ≢ ""
unfolding assemble
assemble-ne-nil e nonce sig = append-ne-nil (format_int (pos e)) _ (format_int-ne-nil e)

-- The text behind the last colon.
after_colon : String → Option String
after_colon [] = none
after_colon (c ∷ s) = elim (after_colon s) [
  | some t ↦ some t
  | none ↦ if eqb (code c) b':' then some s else none
]

after_colon-Free : (s : String) → Free ":" s → after_colon s ≡ none
unfolding after_colon
after_colon-Free [] f = refl
after_colon-Free (c ∷ s) f = ground (arith, after_colon-Free s)

after_colon-append : (a s : String) → Free ":" s → after_colon (a ++ (":" ∷ s)) ≡ some s
unfolding after_colon
after_colon-append [] s f = rw (append.nil, after_colon-Free s f) refl
after_colon-append (c ∷ a) s f = rw append.cons (ground (arith, after_colon-append a s f))

after_colon-message3 :
    (e : ℤ) (nonce peer : String) → Free ":" peer → after_colon (message3 e nonce peer) ≡ some peer
unfolding message3
after_colon-message3 e nonce peer f =
    ap after_colon regrouped ∙ after_colon-append ("git:" ++ (format_int e ++ (":" ∷ nonce))) peer f
  where
    regrouped :
        "git:" ++ (format_int e ++ (":" ∷ (nonce ++ (":" ∷ peer))))
        ≡ ("git:" ++ (format_int e ++ (":" ∷ nonce))) ++ (":" ∷ peer)
    regrouped = simp (append_assoc, append.cons)

-- Where no peer has a colon in its name, the message that is signed names one peer only, whatever the
-- nonces and the expiries are.
message3-names_peer :
    (e f : ℤ) (m n p q : String) → Free ":" p → Free ":" q → message3 e m p ≡ message3 f n q → p ≡ q
message3-names_peer e f m n p q fp fq same =
    cc (after_colon-message3 e m p fp, after_colon-message3 f n q fq, ap after_colon same)

-- Move `:a` into the nonce of a token.
widen_parts : String → List String → String
widen_parts a (e :: nonce :: sig :: nil) = e ++ ("_" ∷ ((nonce ++ (":" ∷ a)) ++ ("_" ∷ sig)))
widen_parts a _ = ""

pub widen : String → String → String
unfolding widen_parts
widen a token = widen_parts a (split "_" token)

module _ (hmac_sha256 : String → String → List ℕ) (secret : String) (e now : ℕ) where
  sign-Free : (m : String) → Free "_" (sign hmac_sha256 secret m)
  unfolding sign
  sign-Free m = encode_hex-Free (hmac_sha256 secret m)

  check_three_parts :
      (peer nonce sig : String)
      → e < 2 ^ 63
      → sig ≡ sign hmac_sha256 secret (message3 (pos e) nonce peer)
      → check_parts hmac_sha256 secret peer (format_int (pos e) :: nonce :: sig :: nil) now
        ≡ leb now e
  unfolding check_parts
  check_three_parts peer nonce sig small signed = ground (
    arith,
    parse_int-format_int e small,
    eq_iff sig (sign hmac_sha256 secret (message3 (pos e) nonce peer)),
  )

  -- A token with three parts is accepted, until it expires, by whoever its message names.
  validate-assemble :
      (peer nonce sig : String)
      → secret ≢ ""
      → peer ≢ ""
      → e < 2 ^ 63
      → Free "_" nonce
      → Free "_" sig
      → sig ≡ sign hmac_sha256 secret (message3 (pos e) nonce (trim_space peer))
      → validate_git_token hmac_sha256 secret peer (assemble (pos e) nonce sig) now ≡ leb now e
  unfolding validate_git_token
  validate-assemble peer nonce sig s p small f g signed =
      rw
        (
          ==_ne secret "" s,
          ==_ne peer "" p,
          ==_ne (assemble (pos e) nonce sig) "" (assemble-ne-nil e nonce sig),
          split-assemble e nonce sig f g,
        )
        (check_three_parts (trim_space peer) nonce sig small signed)

  -- A token that was issued to a peer is accepted for that peer up to the second at which it expires,
  -- and not after, whatever the nonce.
  pub validate-generate :
      (peer : String) (nonce : List ℕ)
      → secret ≢ ""
      → peer ≢ ""
      → e < 2 ^ 63
      → validate_git_token hmac_sha256 secret peer
          (generate_git_token hmac_sha256 secret peer (pos e) nonce)
          now
        ≡ leb now e
  unfolding generate_git_token
  validate-generate peer nonce s p small =
      validate-assemble peer (encode_hex nonce) _ s p small (encode_hex-Free nonce) (sign-Free _)
        refl

  message3_regroup :
      (nonce a b : String)
      → message3 (pos e) (nonce ++ (":" ∷ a)) b ≡ message3 (pos e) nonce (a ++ (":" ∷ b))
  unfolding message3
  message3_regroup nonce a b = simp (append_assoc, append.cons)

  -- A token that was issued to the peer `a:b`, with `:a` moved into its nonce, is accepted for the peer
  -- `b` as long as it has not expired. No secret is needed to move it.
  pub validate-widen :
      (a b : String) (nonce : List ℕ)
      → secret ≢ ""
      → b ≢ ""
      → e < 2 ^ 63
      → Free "_" a
      → trim_space b ≡ b
      → trim_space (a ++ (":" ∷ b)) ≡ a ++ (":" ∷ b)
      → validate_git_token hmac_sha256 secret b
          (widen a (generate_git_token hmac_sha256 secret (a ++ (":" ∷ b)) (pos e) nonce))
          now
        ≡ leb now e
  unfolding generate_git_token widen
  validate-widen a b nonce s p small f tb tab =
      let n = encode_hex nonce in
      let sig = sign hmac_sha256 secret (message3 (pos e) n (trim_space (a ++ (":" ∷ b)))) in
      rw (split-assemble e n sig (encode_hex-Free nonce) (sign-Free _), widen_parts)
        (validate-assemble b (n ++ (":" ∷ a)) sig s p small
          (Free-append "_" n (":" ∷ a) (encode_hex-Free nonce) (refl, f)) (sign-Free _)
          (rw (tb, tab, message3_regroup n a b)))
