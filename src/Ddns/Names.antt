-- ===== src/Ddns/Names.antt =====
-- A DuckDNS name and its full domain.
use Prim.Native.Char.{Char}
use Prim.Native.String.{[], ◌∷◌, ◌++◌}
use Prim.Native.String.append
use p2pt_server.Ddns.{clean_duck_domain, format_full_domain}
use p2pt_server.GoText.{has_suffix, trim_left, trim_right, trim_space}
use p2pt_server.GoText.Cut.{trim_suffix, lower, size}
use p2pt_server.GoText.Lines.{trim_right-append, size-append}
use p2pt_server.GoText.Trim.{IsFlush, trim_left-IsFlush, trim_right-IsFlush, trim_left-flush}
use p2pt_server.Prelude.{
  String, false, ◌≡◌, ◌≢◌, refl, sym, ◌∙◌, ap, subst, arith, ==_ne, eq_iff, eq_refl,
}

longer_ne : (c : Char) (a b : String) → b ≢ c ∷ (a ++ b)
unfolding size
longer_ne c a b e = omega (arith, size-append a b, ap size e)

trim_suffix_self : (p : String) → p ≢ [] → trim_suffix p p ≡ []
unfolding trim_suffix
trim_suffix_self [] n = absurd (n refl)
trim_suffix_self (c ∷ p) n = rw (eq_refl (c ∷ p)) refl

trim_suffix-append : (p a : String) → p ≢ [] → trim_suffix p (a ++ p) ≡ a
unfolding trim_suffix
trim_suffix-append p [] n = ap (trim_suffix p) (append.nil p) ∙ trim_suffix_self p n
trim_suffix-append p (c ∷ a) n = rw append.cons (
    rw (==_ne p (c ∷ (a ++ p)) (longer_ne c a p))
      (ap (λ (s : String). c ∷ s) (trim_suffix-append p a n)))

lower-append :
    (to_lower : Char → Char) (a b : String)
    → lower to_lower (a ++ b) ≡ lower to_lower a ++ lower to_lower b
unfolding lower
lower-append to_lower [] b =
    ap (lower to_lower) (append.nil b) ∙ sym (append.nil (lower to_lower b))
lower-append to_lower (c ∷ a) b =
    ap (lower to_lower) (append.cons c a b)
    ∙ ap (λ (s : String). to_lower c ∷ s) (lower-append to_lower a b)
    ∙ sym (append.cons (to_lower c) (lower to_lower a) (lower to_lower b))

IsFlush-append : (a b : String) → IsFlush a → IsFlush b → IsFlush (a ++ b)
IsFlush-append [] b f g = rw append.nil g
IsFlush-append (c ∷ a) b f g = rw append.cons f

-- Trimming leaves a trimmed text with the suffix behind it alone.
trim_space-suffixed :
    (d : String) → trim_space d ≡ d → trim_space (d ++ ".duckdns.org") ≡ d ++ ".duckdns.org"
unfolding trim_space trim_right
trim_space-suffixed d t =
    let flush = subst IsFlush t (trim_right-IsFlush (trim_left d) (trim_left-IsFlush d)) in
    ap trim_right
      (trim_left-flush (d ++ ".duckdns.org") (IsFlush-append d ".duckdns.org" flush refl))
    ∙ trim_right-append d ".duckdns.org" (λ e. ground (arith, eq_iff ".duckdns.org" ""))

-- A name in lower case that is not empty, has no space at an end and does not itself end in
-- ".duckdns.org" comes back from its full domain, if lower case leaves ".duckdns.org" alone.
pub clean_duck_domain-format_full_domain :
    (to_lower : Char → Char) (d : String)
    → lower to_lower ".duckdns.org" ≡ ".duckdns.org"
    → lower to_lower d ≡ d
    → trim_space d ≡ d
    → d ≢ ""
    → has_suffix ".duckdns.org" d ≡ false
    → clean_duck_domain to_lower (format_full_domain d) ≡ d
unfolding clean_duck_domain format_full_domain
clean_duck_domain-format_full_domain to_lower d s l t n x =
    rw (==_ne d "" n, x)
      (ap (λ (r : String). trim_suffix ".duckdns.org" (trim_space r))
          (lower-append to_lower d ".duckdns.org"
            ∙ ap (λ (r : String). r ++ lower to_lower ".duckdns.org") l
            ∙ ap (λ (r : String). d ++ r) s)
        ∙ ap (trim_suffix ".duckdns.org") (trim_space-suffixed d t)
        ∙ trim_suffix-append ".duckdns.org" d (λ e. ground (arith, eq_iff ".duckdns.org" "")))
