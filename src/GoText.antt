-- ===== src/GoText.antt =====
-- What the server uses of Go's `strings`, `strconv`, `fmt` and `encoding/hex`. A Go string is read as
-- UTF-8, and is taken to be valid.
pub mod Pieces
pub mod Decimal
pub mod Trim
pub mod Cut
pub mod Lines
use Prim.Native.Char.{Char, code}
use Prim.Native.String.{[], ◌∷◌, ◌++◌}
use mathlib.Core.List.{List, [] as nil, ◌∷◌ as ◌::◌}
use p2pt_server.Prelude.{
  ℕ, zero, suc, ◌+◌, ◌-◌, ◌*◌, ◌/◌, ◌%◌, ◌^◌, String, Bool, true, false, ◌&&◌, ◌||◌, Option, none,
  some, ◌==◌, eqb, ltb, leb, if◌then◌else◌,
}

-- unicode.IsSpace
abbrev pub is_space : ℕ → Bool
is_space c =
    (leb 9 c && leb c 13)
    || eqb c 0x20
    || eqb c 0x85
    || eqb c 0xA0
    || eqb c 0x1680
    || (leb 0x2000 c && leb c 0x200A)
    || eqb c 0x2028
    || eqb c 0x2029
    || eqb c 0x202F
    || eqb c 0x205F
    || eqb c 0x3000

unfoldable pub trim_left : String → String
trim_left [] = []
trim_left (c ∷ s) = let rest = trim_left s in if is_space (code c) then rest else c ∷ s

abbrev glue_space : Char → String → String
glue_space c [] = if is_space (code c) then [] else c ∷ []
glue_space c (d ∷ s) = c ∷ d ∷ s

unfoldable pub trim_right : String → String
trim_right [] = []
trim_right (c ∷ s) = glue_space c (trim_right s)

-- strings.TrimSpace
unfoldable pub trim_space : String → String
unfolding trim_left trim_right
trim_space s = trim_right (trim_left s)

-- strings.Trim(s, c) for a text of one character
unfoldable pub drop_char : Char → String → String
drop_char c [] = []
drop_char c (d ∷ s) = let rest = drop_char c s in if eqb (code d) (code c) then rest else d ∷ s

abbrev pub glue_char : Char → Char → String → String
glue_char c d [] = if eqb (code d) (code c) then [] else d ∷ []
glue_char c d (e ∷ s) = d ∷ e ∷ s

unfoldable pub drop_last : Char → String → String
drop_last c [] = []
drop_last c (d ∷ s) = glue_char c d (drop_last c s)

unfoldable pub trim_char : Char → String → String
unfolding drop_char drop_last
trim_char c s = drop_last c (drop_char c s)

-- strings.ContainsRune(s, c), and strings.Contains for a text of one character
unfoldable pub has_char : Char → String → Bool
has_char c [] = false
has_char c (d ∷ s) = eqb (code d) (code c) || has_char c s

-- strings.HasSuffix(s, p)
unfoldable pub has_suffix : String → String → Bool
has_suffix p [] = p == ""
has_suffix p (c ∷ s) = p == (c ∷ s) || has_suffix p s

-- The text behind a prefix, if it is one.
unfoldable pub strip_prefix? : String → String → Option String
strip_prefix? [] s = some s
strip_prefix? (p ∷ ps) [] = none
strip_prefix? (p ∷ ps) (c ∷ s) =
    let rest = strip_prefix? ps s in if eqb (code p) (code c) then rest else none

-- unicode.ToLower of an ASCII character
abbrev lower_code : ℕ → ℕ
lower_code c = if leb b'A' c && leb c b'Z' then c + 32 else c

-- The text behind a prefix of ASCII letters in lower case, whatever the case of the text is.
unfoldable pub strip_lower? : String → String → Option String
strip_lower? [] s = some s
strip_lower? (p ∷ ps) [] = none
strip_lower? (p ∷ ps) (c ∷ s) =
    let rest = strip_lower? ps s in if eqb (code p) (lower_code (code c)) then rest else none

abbrev pub in_front : Char → List String → List String
in_front d nil = (d ∷ []) :: nil
in_front d (p :: ps) = (d ∷ p) :: ps

-- strings.Split(s, c) for a separator of one character
unfoldable pub split : Char → String → List String
split c [] = [] :: nil
split c (d ∷ s) =
    let rest = split c s in if eqb (code d) (code c) then [] :: rest else in_front d rest

-- The sixteen digits.
unfoldable pub digit : ℕ → Char
digit zero = "0"
digit (suc zero) = "1"
digit (suc (suc zero)) = "2"
digit (suc (suc (suc zero))) = "3"
digit (suc (suc (suc (suc zero)))) = "4"
digit (suc (suc (suc (suc (suc zero))))) = "5"
digit (suc (suc (suc (suc (suc (suc zero)))))) = "6"
digit (suc (suc (suc (suc (suc (suc (suc zero))))))) = "7"
digit (suc (suc (suc (suc (suc (suc (suc (suc zero)))))))) = "8"
digit (suc (suc (suc (suc (suc (suc (suc (suc (suc zero))))))))) = "9"
digit (suc (suc (suc (suc (suc (suc (suc (suc (suc (suc zero)))))))))) = "a"
digit (suc (suc (suc (suc (suc (suc (suc (suc (suc (suc (suc zero))))))))))) = "b"
digit (suc (suc (suc (suc (suc (suc (suc (suc (suc (suc (suc (suc zero)))))))))))) = "c"
digit (suc (suc (suc (suc (suc (suc (suc (suc (suc (suc (suc (suc (suc zero))))))))))))) = "d"
digit (suc (suc (suc (suc (suc (suc (suc (suc (suc (suc (suc (suc (suc (suc zero)))))))))))))) = "e"
digit _ = "f"

-- hex.EncodeToString
unfoldable pub encode_hex : List ℕ → String
unfolding digit
encode_hex nil = []
encode_hex (b :: bs) = digit (b / 16) ∷ digit (b % 16) ∷ encode_hex bs

-- `%d` of a number of at most `fuel` decimal digits; an int64 has nineteen.
unfoldable pub decimal : ℕ → ℕ → String
unfolding digit
decimal zero n = []
decimal (suc fuel) n = elim (ltb n 10) [
  | true ↦ digit n ∷ []
  | false ↦ decimal fuel (n / 10) ++ (digit (n % 10) ∷ [])
]

-- An int64; `negsuc n` is -(n + 1).
pub data ℤ : Type 0 where
  pos : ℕ → ℤ
  negsuc : ℕ → ℤ

-- `%d` of an int64
unfoldable pub format_int : ℤ → String
format_int (pos n) = decimal 20 n
format_int (negsuc n) = "-" ++ decimal 20 (n + 1)

-- The value of a run of decimal digits, after the digits read so far.
unfoldable pub read_digits : ℕ → String → Option ℕ
read_digits n [] = some n
read_digits n (c ∷ s) =
    let d = code c in
    let rest = read_digits (n * 10 + (d - 48)) s in if leb 48 d && leb d 57 then rest else none

unfoldable pub read_natural : String → Option ℕ
unfolding read_digits
read_natural [] = none
read_natural (c ∷ s) = read_digits 0 (c ∷ s)

unfoldable pub in_range : Bool → Option ℕ → Option ℤ
in_range minus none = none
in_range true (some zero) = some (pos 0)
in_range true (some (suc n)) = if ltb n (2 ^ 63) then some (negsuc n) else none
in_range false (some n) = if ltb n (2 ^ 63) then some (pos n) else none

-- strconv.ParseInt(s, 10, 64), with `none` for an error
unfoldable pub parse_int : String → Option ℤ
unfolding in_range read_natural
parse_int [] = none
parse_int (c ∷ s) =
    if eqb (code c) b'-'
    then in_range true (read_natural s)
    else if eqb (code c) b'+'
    then in_range false (read_natural s)
    else in_range false (read_natural (c ∷ s))

-- strings.Join(l, c) for a separator of one character
unfoldable pub join : Char → List String → String
join c nil = []
join c (s :: nil) = s
join c (s :: t :: l) = s ++ (c ∷ join c (t :: l))
