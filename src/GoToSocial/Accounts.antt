-- ===== src/GoToSocial/Accounts.antt =====
-- The names of accounts.
use Prim.Native.Char.{Char, code}
use Prim.Native.String.{[], ◌∷◌, ◌++◌}
use Prim.Native.String.append
use p2pt_server.GoText.{drop_char, drop_last, glue_char, trim_char, trim_space}
use p2pt_server.GoText.Cut.{lower, size, take}
use p2pt_server.GoText.Lines.{size-append}
use p2pt_server.ConfigStorage.{Config}
use p2pt_server.GoToSocial.{
  AccountRequest, requested_peer, handle_mastodon_credentials, is_plain, plain_text, lengthened,
  shortened, sanitize_peer_username,
}
use p2pt_server.Prelude.{
  ℕ, zero, suc, ◌+◌, ◌≤◌, String, true, Option, ◌≢◌, ==_ne, ap, if_cases, ◌∙◌, ◌||◌, ◌≡◌, refl,
  arith, eqb, ltb, Bool-cases, inl, inr,
}

-- Only the letters a to z, the digits and _ stand in the text.
abbrev pub AllPlain : String → Type 0
AllPlain [] = Unit
AllPlain (c ∷ s) = (is_plain (code c) ≡ true) × AllPlain s

plain_text-AllPlain : (s : String) → AllPlain (plain_text s)
unfolding plain_text
plain_text-AllPlain [] = tt
plain_text-AllPlain (c ∷ s) =
    if_cases AllPlain (is_plain (code c)) (λ e. (e, plain_text-AllPlain s))
      (λ e.
        if_cases AllPlain (eqb (code c) b'-' || eqb (code c) b'.')
          (λ d. (refl, plain_text-AllPlain s)) (λ d. plain_text-AllPlain s))

drop_char-AllPlain : (s : String) → AllPlain s → AllPlain (drop_char "_" s)
unfolding drop_char
drop_char-AllPlain [] a = tt
drop_char-AllPlain (c ∷ s) a = elim (Bool-cases (eqb (code c) b'_')) [
  | inl e ↦ rw e (drop_char-AllPlain s a.1)
  | inr e ↦ rw e a
]

glue_char-AllPlain :
    (c : Char) (s : String) → is_plain (code c) ≡ true → AllPlain s → AllPlain (glue_char "_" c s)
glue_char-AllPlain c [] p a = elim (Bool-cases (eqb (code c) b'_')) [
  | inl e ↦ rw e tt
  | inr e ↦ rw e (p, tt)
]
glue_char-AllPlain c (d ∷ s) p a = (p, a)

drop_last-AllPlain : (s : String) → AllPlain s → AllPlain (drop_last "_" s)
unfolding drop_last
drop_last-AllPlain [] a = tt
drop_last-AllPlain (c ∷ s) a = glue_char-AllPlain c (drop_last "_" s) a.0 (drop_last-AllPlain s a.1)

AllPlain-append : (a b : String) → AllPlain a → AllPlain b → AllPlain (a ++ b)
AllPlain-append [] b f g = rw append.nil g
AllPlain-append (c ∷ a) b f g = rw append.cons (f.0, AllPlain-append a b f.1 g)

take-AllPlain : (n : ℕ) (s : String) → AllPlain s → AllPlain (take n s)
unfolding take
take-AllPlain zero s a = tt
take-AllPlain (suc n) [] a = tt
take-AllPlain (suc n) (c ∷ s) a = (a.0, take-AllPlain n s a.1)

size-take : (n : ℕ) (s : String) → n ≤ size s → size (take n s) ≡ n
unfolding take size
size-take zero s h = refl
size-take (suc n) [] h = absurd (omega arith)
size-take (suc n) (c ∷ s) h = ap suc (size-take n s (omega arith))

trim_char-AllPlain : (s : String) → AllPlain s → AllPlain (trim_char "_" s)
unfolding trim_char
trim_char-AllPlain s a = drop_last-AllPlain (drop_char "_" s) (drop_char-AllPlain s a)

-- The bounds of a name.
abbrev pub IsName : String → Type 0
IsName s = AllPlain s × (3 ≤ size s) × (size s ≤ 25)

size-peer : (s : String) → size ("peer_" ++ s) ≡ size s + 5
unfolding size
size-peer s = size-append "peer_" s ∙ omega arith

lengthened_lem : (s : String) → AllPlain s → AllPlain (lengthened s) × (3 ≤ size (lengthened s))
lengthened_lem s a = elim (Bool-cases (ltb (size s) 3)) [
  | inl e ↦ rw e (
    AllPlain-append "peer_" s (refl, (refl, (refl, (refl, (refl, tt))))) a,
    omega (arith, size-peer s),
  )
  | inr e ↦ rw e (a, ground arith)
]

shortened_lem : (s : String) → AllPlain s → 3 ≤ size s → IsName (shortened s)
shortened_lem s a h = elim (Bool-cases (ltb 25 (size s))) [
  | inl e ↦
      let cut = size-take 25 s (ground arith) in
      rw e (take-AllPlain 25 s a, omega (arith, cut), omega (arith, cut))
  | inr e ↦ rw e (a, h, ground arith)
]

-- Whatever peer is asked for, the name of its account has only the letters a to z, digits and
-- underscores, and from three to twenty-five characters: it is never empty, and on a command line
-- it is no option.
pub sanitize_peer_username-IsName :
    (to_lower : Char → Char) (peer_id : String) → IsName (sanitize_peer_username to_lower peer_id)
unfolding sanitize_peer_username
sanitize_peer_username-IsName to_lower peer_id =
    let s = plain_text (lower to_lower (trim_space peer_id)) in
    let l =
      lengthened_lem (trim_char "_" s)
        (trim_char-AllPlain s (plain_text-AllPlain (lower to_lower (trim_space peer_id)))) in
    shortened_lem (lengthened (trim_char "_" s)) l.0 l.1

-- The reply, with the account's token in it, depends on nothing but the name of the account: two requests
-- that are no OPTIONS requests and name a peer, however and by whomever they are made, get the same
-- reply if their peers have the same name of an account.
handle_mastodon_credentials_shared :
    (to_lower : Char → Char) (ensure_user_token : String → String → Option (String × String))
    (cfg : Config) (q r : AccountRequest)
    → q.method ≢ "OPTIONS"
    → r.method ≢ "OPTIONS"
    → requested_peer q ≢ ""
    → requested_peer r ≢ ""
    → sanitize_peer_username to_lower (requested_peer q)
      ≡ sanitize_peer_username to_lower (requested_peer r)
    → handle_mastodon_credentials to_lower ensure_user_token cfg q
      ≡ handle_mastodon_credentials to_lower ensure_user_token cfg r
unfolding handle_mastodon_credentials
handle_mastodon_credentials_shared to_lower ensure_user_token cfg q r mq mr pq pr e =
    rw (==_ne (q.method) "OPTIONS" mq, ==_ne (r.method) "OPTIONS" mr)
      (rw (==_ne (requested_peer q) "" pq, ==_ne (requested_peer r) "" pr) (rw e refl))
