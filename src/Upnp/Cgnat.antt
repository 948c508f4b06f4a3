-- ===== src/Upnp/Cgnat.antt =====
-- When the host is taken to share its address with other customers.
use p2pt_server.Prelude.{
  ℕ, ◌<◌, String, Bool, ◌&&◌, ◌||◌, not, some, List, [], ◌∷◌, ◌==◌, ◌≡◌, ◌≢◌, refl, sym, arith, eqb,
  leb, ==_ne,
}
use p2pt_server.GoText.{decimal, has_char, split}
use p2pt_server.GoText.Trim.{Spaceless, Spaceless-append, decimal-Spaceless, trim_space-Spaceless}
use p2pt_server.Net.Ip.{v4, parse_ip, is_loopback, is_private, is_link_local_unicast, parse_ipv4}
use p2pt_server.Net.Dotted.{dotted_text, parse_ip-dotted_text}
use p2pt_server.Upnp.{
  Client, UpnpManager, is_shared, is_private_or_cgnat_ip, is_private_or_cgnat, router,
  first_external, cgnat, report_of, discover_and_map,
}

-- 10.0.0.0/8, 172.16.0.0/12, 192.168.0.0/16, 127.0.0.0/8, 169.254.0.0/16 and 100.64.0.0/10
unfoldable pub is_inside : ℕ → ℕ → Bool
is_inside a b =
    eqb a 10
    || (eqb a 172 && leb 16 b && leb b 31)
    || (eqb a 192 && eqb b 168)
    || eqb a 127
    || (eqb a 169 && eqb b 254)
    || (eqb a 100 && leb 64 b && leb b 127)

dotted_text-Spaceless : (a b c d : ℕ) → Spaceless (dotted_text a b c d)
unfolding dotted_text
dotted_text-Spaceless a b c d = Spaceless-append (decimal 20 a) _ (decimal-Spaceless 20 a) (
  refl,
  Spaceless-append (decimal 20 b) _ (decimal-Spaceless 20 b) (
    refl,
    Spaceless-append (decimal 20 c) _ (decimal-Spaceless 20 c) (refl, decimal-Spaceless 20 d),
  ),
)

dotted_text-ne-empty :
    (a b c d : ℕ) → a < 256 → b < 256 → c < 256 → d < 256 → dotted_text a b c d ≢ ""
unfolding parse_ip parse_ipv4 has_char split
dotted_text-ne-empty a b c d h i j k e =
    let p : parse_ip "" ≡ some (v4 a b c d) = rw e at (parse_ip-dotted_text a b c d h i j k) in cc

is_private_or_cgnat-is_inside :
    (a b c d : ℕ)
    → a < 256
    → b < 256
    → c < 256
    → d < 256
    → is_private_or_cgnat (dotted_text a b c d) ≡ is_inside a b
unfolding is_private_or_cgnat is_private_or_cgnat_ip is_shared is_inside is_private is_loopback
    is_link_local_unicast
is_private_or_cgnat-is_inside a b c d h i j k =
    rw
      (
        trim_space-Spaceless (dotted_text a b c d) (dotted_text-Spaceless a b c d),
        parse_ip-dotted_text a b c d h i j k,
      )
      (ground arith)

cgnat-is_inside :
    (a b c d : ℕ) (public_ip : String)
    → a < 256
    → b < 256
    → c < 256
    → d < 256
    → cgnat (dotted_text a b c d) public_ip
      ≡ (is_inside a b || (not (public_ip == "") && not (public_ip == dotted_text a b c d)))
unfolding cgnat
cgnat-is_inside a b c d public_ip h i j k =
    rw
      (
        ==_ne (dotted_text a b c d) "" (dotted_text-ne-empty a b c d h i j k),
        is_private_or_cgnat-is_inside a b c d h i j k,
      )
      (ground arith)

-- Where the router gives an address of four bytes, the report says that the address is shared exactly
-- if it is in a range that is not public, or differs from the public address, if that is known.
pub discover_and_map-is_inside :
    (ip_clients ppp_clients : List Client) (m : UpnpManager) (a b c d : ℕ)
    → a < 256
    → b < 256
    → c < 256
    → d < 256
    → (router ip_clients ppp_clients).0 ≡ dotted_text a b c d
    → (discover_and_map ip_clients ppp_clients m).1.has_cgnat
      ≡ (is_inside a b || (not (m.public_ip == "") && not (m.public_ip == dotted_text a b c d)))
unfolding discover_and_map report_of router first_external
discover_and_map-is_inside [] [] m a b c d h i j k e =
    absurd (dotted_text-ne-empty a b c d h i j k (sym e))
discover_and_map-is_inside [] (x ∷ xs) m a b c d h i j k e =
    rw (e) (cgnat-is_inside a b c d m.public_ip h i j k)
discover_and_map-is_inside (x ∷ xs) ys m a b c d h i j k e =
    rw (e) (cgnat-is_inside a b c d m.public_ip h i j k)
