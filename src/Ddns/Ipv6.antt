-- ===== src/Ddns/Ipv6.antt =====
-- The machine's own IPv6 address (duckdns.go). What the system tells of its interfaces is an argument.
use p2pt_server.Net.Ip.{
  Ip, v4, v6, first_group, groups_value, is_loopback, is_private, is_link_local_unicast,
}
use p2pt_server.Prelude.{
  ℕ, ◌/◌, ◌^◌, ◌≢◌, sym, ap, ◌∙◌, Bool, true, false, false≢true, not, ◌&&◌, ◌||◌, Option, none,
  some, List, [], ◌∷◌, ◌≡◌, ◌⊎◌, inl, inr, refl, arith, eqb, leb, if◌then◌else◌, Bool-cases,
}

-- net.IP.IsGlobalUnicast of an address of sixteen bytes that stands for none of four
abbrev pub is_global_unicast : List ℕ → Bool
is_global_unicast l =
    not (eqb (groups_value l 0) 0)
    && not (is_loopback (v6 l))
    && not (eqb (first_group l / 2 ^ 8) 0xFF)
    && not (is_link_local_unicast (v6 l))

unfoldable pub is_global_unicast_ipv6 : Option Ip → Bool
unfolding first_group groups_value is_loopback is_private is_link_local_unicast
is_global_unicast_ipv6 none = false
is_global_unicast_ipv6 (some (v4 a b c d)) = false
is_global_unicast_ipv6 (some (v6 l)) =
    is_global_unicast l && not (is_private (v6 l)) && not (is_link_local_unicast (v6 l))

-- An interface, with its addresses, if they can be read; an address of a kind that the code does not
-- know has none.
pub record Interface : Type 0 where
  pub up : Bool
  pub loopback : Bool
  pub addrs : Option (List (Option Ip))

unfoldable pub first_global : List (Option Ip) → Option Ip
unfolding is_global_unicast_ipv6
first_global [] = none
first_global (a ∷ l) = let rest = first_global l in if is_global_unicast_ipv6 a then a else rest

abbrev pub addrs_of : Interface → List (Option Ip)
addrs_of i = if not (i.up) || i.loopback then [] else elim (i.addrs) [ none ↦ [] | some l ↦ l ]

abbrev or_else : Option Ip → Option Ip → Option Ip
or_else none b = b
or_else (some a) b = some a

unfoldable pub scan : List Interface → Option Ip
unfolding first_global
scan [] = none
scan (i ∷ l) = or_else (first_global (addrs_of i)) (scan l)

-- GetGlobalIPv6: the address, whose text is sent; `none` for the empty text
unfoldable pub get_global_ipv6 : Option (List Interface) → Option Ip
unfolding scan
get_global_ipv6 none = none
get_global_ipv6 (some l) = scan l

-- A first group within bounds.
abbrev pub within : ℕ → ℕ → ℕ → Bool
within low high g = leb low g && leb g high

-- An address that can be reached: it is none of four bytes, not ::, not ::1, and its first group is not of
-- the ranges fc00 to fdff (unique local), fe80 to febf (link local) and ff00 to ffff (multicast).
pub record IsReachable (a : Ip) : Type 0 where
  pub groups : List ℕ
  pub is_v6 : a ≡ v6 groups
  pub not_unspecified : groups_value groups 0 ≢ 0
  pub not_loopback : groups_value groups 0 ≢ 1
  pub not_local : within 0xFC00 0xFDFF (first_group groups) ≡ false
  pub not_link_local : within 0xFE80 0xFEBF (first_group groups) ≡ false
  pub not_multicast : within 0xFF00 0xFFFF (first_group groups) ≡ false

accepted-IsReachable :
    (l : List ℕ) → is_global_unicast_ipv6 (some (v6 l)) ≡ true → IsReachable (v6 l)
unfolding is_global_unicast_ipv6 is_loopback is_private is_link_local_unicast
accepted-IsReachable l h = record {
  groups = l;
  is_v6 = refl;
  not_unspecified = λ e. ground arith;
  not_loopback = λ e. ground arith;
  not_local = ground arith;
  not_link_local = ground arith;
  not_multicast = ground arith;
}

global-IsReachable : (a : Ip) → is_global_unicast_ipv6 (some a) ≡ true → IsReachable a
unfolding is_global_unicast_ipv6
global-IsReachable (v4 a b c d) h = absurd (false≢true h)
global-IsReachable (v6 l) h = accepted-IsReachable l h

first_global-IsReachable : (l : List (Option Ip)) (a : Ip) → first_global l ≡ some a → IsReachable a
unfolding first_global
first_global-IsReachable [] a e = absurd (cc e)
first_global-IsReachable (x ∷ l) a e = elim (Bool-cases (is_global_unicast_ipv6 x)) [
  | inl y ↦ let q = rw y at e in global-IsReachable a (ap is_global_unicast_ipv6 (sym q) ∙ y)
  | inr n ↦ first_global-IsReachable l a (rw n at e)
]

or_else-cases : (x y : Option Ip) (a : Ip) → or_else x y ≡ some a → (x ≡ some a) ⊎ (y ≡ some a)
or_else-cases none y a e = inr e
or_else-cases (some x) y a e = inl e

scan-IsReachable : (l : List Interface) (a : Ip) → scan l ≡ some a → IsReachable a
unfolding scan
scan-IsReachable [] a e = absurd (cc e)
scan-IsReachable (i ∷ l) a e = elim (or_else-cases (first_global (addrs_of i)) (scan l) a e) [
  | inl x ↦ first_global-IsReachable (addrs_of i) a x
  | inr y ↦ scan-IsReachable l a y
]

-- If an address is found, it is an IPv6 address that can be reached from outside: not ::, not ::1, and not
-- in the ranges of unique local, link local and multicast addresses.
pub get_global_ipv6-IsReachable :
    (interfaces : Option (List Interface)) (a : Ip)
    → get_global_ipv6 interfaces ≡ some a
    → IsReachable a
unfolding get_global_ipv6
get_global_ipv6-IsReachable none a e = absurd (cc e)
get_global_ipv6-IsReachable (some l) a e = scan-IsReachable l a e
