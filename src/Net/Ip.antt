-- ===== src/Net/Ip.antt =====
-- What the server uses of Go's `net.IP`: `net.ParseIP`, and the ranges of addresses.
--
-- An address is one of four bytes, or one of eight groups of sixteen bits; an address of the second
-- kind that stands for one of the first is read as such, as `To4` does.
use Prim.Native.Char.{code}
use Prim.Native.String.{[], ◌∷◌}
use mathlib.Core.List.{List, [] as nil, ◌∷◌ as ◌::◌, ◌++◌}
use p2pt_server.Prelude.{
  ℕ, zero, suc, ◌+◌, ◌-◌, ◌*◌, ◌/◌, ◌%◌, ◌^◌, String, Bool, ◌&&◌, ◌||◌, not, Option, none, some,
  ◌==◌, eqb, leb, length, if◌then◌else◌,
}
use p2pt_server.GoText.{has_char, split, read_digits}

pub data Ip : Type 0 where
  v4 : ℕ → ℕ → ℕ → ℕ → Ip
  v6 : List ℕ → Ip

at_most : ℕ → Option ℕ → Option ℕ
at_most m none = none
at_most m (some n) = if leb n m then some n else none

-- A byte in decimal, without a leading zero.
unfoldable pub parse_byte : String → Option ℕ
unfolding at_most
parse_byte [] = none
parse_byte (c ∷ s) =
    if eqb (code c) b'0' && not (s == "") then none else at_most 255 (read_digits 0 (c ∷ s))

dotted : Option ℕ → Option ℕ → Option ℕ → Option ℕ → Option Ip
dotted (some a) (some b) (some c) (some d) = some (v4 a b c d)
dotted _ _ _ _ = none

unfoldable pub parse_ipv4 : List String → Option Ip
unfolding dotted
parse_ipv4 (a :: b :: c :: d :: nil) =
    dotted (parse_byte a) (parse_byte b) (parse_byte c) (parse_byte d)
parse_ipv4 _ = none

-- The value of a hexadecimal digit.
hex_value : ℕ → Option ℕ
hex_value c =
    if leb 48 c && leb c 57
    then some (c - 48)
    else if leb 97 c && leb c 102
    then some (c - 87)
    else if leb 65 c && leb c 70
    then some (c - 55)
    else none

next_digit : ℕ → Option ℕ → Option ℕ
next_digit n none = none
next_digit n (some d) = some (n * 16 + d)

or_fail : (ℕ → Option ℕ) → Option ℕ → Option ℕ
or_fail f none = none
or_fail f (some n) = f n

-- At most `more` hexadecimal digits, after the value of those that are read.
read_hex : ℕ → ℕ → String → Option ℕ
unfolding hex_value next_digit or_fail
read_hex more n [] = some n
read_hex zero n (c ∷ s) = none
read_hex (suc more) n (c ∷ s) = or_fail (λ m. read_hex more m s) (next_digit n (hex_value (code c)))

parse_group : String → Option ℕ
unfolding read_hex
parse_group [] = none
parse_group (c ∷ s) = read_hex 4 0 (c ∷ s)

-- The last two groups, in the form of four bytes.
two_groups : Option Ip → Option (List ℕ)
two_groups (some (v4 a b c d)) = some ((a * 256 + b) :: (c * 256 + d) :: nil)
two_groups _ = none

one_group : Option ℕ → Option (List ℕ)
one_group none = none
one_group (some n) = some (n :: nil)

and_groups : Option ℕ → Option (List ℕ) → Option (List ℕ)
and_groups (some n) (some l) = some (n :: l)
and_groups _ _ = none

parse_groups : List String → Option (List ℕ)
unfolding two_groups one_group and_groups parse_group
parse_groups nil = some nil
parse_groups (s :: nil) =
    if has_char "." s then two_groups (parse_ipv4 (split "." s)) else one_group (parse_group s)
parse_groups (s :: t :: l) = and_groups (parse_group s) (parse_groups (t :: l))

-- The groups before the first empty piece and those behind it, if there is one.
until_empty : List String → List String × Option (List String)
until_empty nil = (nil, none)
until_empty (s :: l) =
    let (before, behind) = until_empty l in if s == "" then (nil, some l) else (s :: before, behind)

zeros : ℕ → List ℕ
zeros zero = nil
zeros (suc n) = 0 :: zeros n

-- Eight groups; an address that stands for one of four bytes is one.
unfoldable pub of_groups : List ℕ → Option Ip
of_groups (a :: b :: c :: d :: e :: f :: g :: h :: nil) =
    if eqb a 0 && eqb b 0 && eqb c 0 && eqb d 0 && eqb e 0 && eqb f 0xFFFF
    then some (v4 (g / 256) (g % 256) (h / 256) (h % 256))
    else some (v6 (a :: b :: c :: d :: e :: f :: g :: h :: nil))
of_groups _ = none

-- What `::` stands for is at least one group.
expand : Option (List ℕ) → Option (List ℕ) → Option Ip
unfolding zeros
expand (some l) (some r) =
    if leb (length l + length r) 7
    then of_groups (l ++ (zeros (8 - (length l + length r)) ++ r))
    else none
expand _ _ = none

all_groups : Option (List ℕ) → Option Ip
all_groups none = none
all_groups (some l) = of_groups l

-- Without a dotted piece at the end, which only stands at the end of an address.
parse_left : List String → Option (List ℕ)
unfolding and_groups parse_group
parse_left nil = some nil
parse_left (s :: l) = and_groups (parse_group s) (parse_left l)

-- The pieces behind the empty one of `::`; at the end of the text there is one more empty piece.
parse_right : List String → Option (List ℕ)
unfolding parse_groups
parse_right nil = none
parse_right (s :: nil) = if s == "" then some nil else parse_groups (s :: nil)
parse_right (s :: t :: l) = parse_groups (s :: t :: l)

split_at : List String × Option (List String) → List String → Option Ip
unfolding all_groups parse_groups expand parse_left parse_right
split_at (before, none) pieces = all_groups (parse_groups pieces)
split_at (before, some behind) pieces = expand (parse_left before) (parse_right behind)

-- An address that begins with a colon begins with two.
unfoldable pub parse_ipv6 : List String → Option Ip
unfolding until_empty split_at expand parse_right
parse_ipv6 (s :: t :: l) =
    if s == ""
    then (if t == "" then expand (some nil) (parse_right l) else none)
    else split_at (until_empty (s :: t :: l)) (s :: t :: l)
parse_ipv6 _ = none

-- net.ParseIP, which takes no zones
unfoldable pub parse_ip : String → Option Ip
parse_ip s =
    if has_char "%" s
    then none
    else if has_char ":" s
    then parse_ipv6 (split ":" s)
    else parse_ipv4 (split "." s)

unfoldable pub first_group : List ℕ → ℕ
first_group nil = 0
first_group (n :: l) = n

unfoldable pub groups_value : List ℕ → ℕ → ℕ
groups_value nil n = n
groups_value (g :: l) n = groups_value l (n * 2 ^ 16 + g)

unfoldable pub is_loopback : Ip → Bool
unfolding groups_value
is_loopback (v4 a b c d) = eqb a 127
is_loopback (v6 l) = eqb (groups_value l 0) 1

unfoldable pub is_private : Ip → Bool
unfolding first_group
is_private (v4 a b c d) = eqb a 10 || (eqb a 172 && eqb (b / 16) 1) || (eqb a 192 && eqb b 168)
is_private (v6 l) = eqb (first_group l / 2 ^ 9) 0b1111110

unfoldable pub is_link_local_unicast : Ip → Bool
unfolding first_group
is_link_local_unicast (v4 a b c d) = eqb a 169 && eqb b 254
is_link_local_unicast (v6 l) = eqb (first_group l / 2 ^ 6) 0b1111111010

unfoldable pub is_link_local_multicast : Ip → Bool
unfolding first_group
is_link_local_multicast (v4 a b c d) = eqb a 224 && eqb b 0 && eqb c 0
is_link_local_multicast (v6 l) = eqb (first_group l / 256) 0xFF && eqb (first_group l % 16) 2
