-- ===== src/Net/Dotted.antt =====
-- An address that is written as four decimal numbers is read back.
use Prim.Native.Char.{Char, code}
use Prim.Native.String.{[], ◌∷◌, ◌++◌}
use Prim.Native.String.append
use mathlib.Core.List.{[] as nil, ◌∷◌ as ◌::◌}
use p2pt_server.Prelude.{
  ℕ, zero, suc, ◌<◌, String, Bool, true, false, ◌&&◌, ◌||◌, not, Option, none, some, ◌≡◌, refl,
  arith, eqb, inl, inr, Bool-cases,
}
use p2pt_server.GoText.{has_char, split, digit, decimal, read_digits}
use p2pt_server.GoText.Pieces.{Free, split-Free, split-append}
use p2pt_server.Net.Ip.{v4, parse_byte, parse_ipv4, parse_ip}

unfoldable pub dotted_text : ℕ → ℕ → ℕ → ℕ → String
dotted_text a b c d =
    decimal 20 a ++ ("." ∷ (decimal 20 b ++ ("." ∷ (decimal 20 c ++ ("." ∷ decimal 20 d)))))

is_byte : Option ℕ → ℕ → Bool
is_byte none n = false
is_byte (some m) n = eqb m n

-- The text of a byte is read back, and holds none of the characters that part addresses.
abbrev is_read : ℕ → Bool
is_read n =
    is_byte (parse_byte (decimal 20 n)) n
    && not (has_char "." (decimal 20 n))
    && not (has_char ":" (decimal 20 n))
    && not (has_char "%" (decimal 20 n))

all_below : ℕ → (ℕ → Bool) → Bool
all_below zero f = true
all_below (suc k) f = f k && all_below k f

all_below_lem : (k n : ℕ) (f : ℕ → Bool) → all_below k f ≡ true → n < k → f n ≡ true
unfolding all_below
all_below_lem zero n f e h = elim h [ ]
all_below_lem (suc k) n f e h = elim (Bool-cases (eqb n k)) [
  | inl y ↦ (let same : n ≡ k = ground arith in rw (same) (ground arith))
  | inr y ↦ all_below_lem k n f (ground arith) (ground arith)
]

every_byte_is_read : all_below 256 is_read ≡ true
unfolding all_below is_byte parse_byte decimal digit has_char read_digits
every_byte_is_read = refl

is_read_lem : (n : ℕ) → n < 256 → is_read n ≡ true
is_read_lem n h = all_below_lem 256 n is_read every_byte_is_read h

byte_back : (o : Option ℕ) (n : ℕ) → is_byte o n ≡ true → o ≡ some n
unfolding is_byte
byte_back none n e = cc
byte_back (some m) n e = (let same : m ≡ n = ground arith in rw (same) refl)

parse_byte-decimal : (n : ℕ) → n < 256 → parse_byte (decimal 20 n) ≡ some n
parse_byte-decimal n h =
    let r = is_read_lem n h in byte_back (parse_byte (decimal 20 n)) n (ground (arith, r))

pub Free-has_char : (c : Char) (s : String) → has_char c s ≡ false → Free c s
unfolding has_char
Free-has_char c [] e = tt
Free-has_char c (d ∷ s) e = (ground arith, Free-has_char c s (ground arith))

has_char-append : (c : Char) (s t : String) → has_char c (s ++ t) ≡ (has_char c s || has_char c t)
unfolding has_char
has_char-append c [] t = rw append.nil refl
has_char-append c (d ∷ s) t = rw append.cons (ground (arith, has_char-append c s t))

lacks_colon : (n : ℕ) → n < 256 → has_char ":" (decimal 20 n) ≡ false
lacks_colon n h = let r = is_read_lem n h in ground (arith, r)

lacks_percent : (n : ℕ) → n < 256 → has_char "%" (decimal 20 n) ≡ false
lacks_percent n h = let r = is_read_lem n h in ground (arith, r)

byte-Free : (n : ℕ) → n < 256 → Free "." (decimal 20 n)
byte-Free n h = let r = is_read_lem n h in Free-has_char "." (decimal 20 n) (ground (arith, r))

lacks-dotted_text :
    (c : Char) (a b d e : ℕ)
    → eqb b'.' (code c) ≡ false
    → has_char c (decimal 20 a) ≡ false
    → has_char c (decimal 20 b) ≡ false
    → has_char c (decimal 20 d) ≡ false
    → has_char c (decimal 20 e) ≡ false
    → has_char c (dotted_text a b d e) ≡ false
unfolding dotted_text has_char
lacks-dotted_text c a b d e h p q r s =
    rw
      (
        has_char-append c (decimal 20 a)
            ("." ∷ (decimal 20 b ++ ("." ∷ (decimal 20 d ++ ("." ∷ decimal 20 e))))),
        has_char-append c (decimal 20 b) ("." ∷ (decimal 20 d ++ ("." ∷ decimal 20 e))),
        has_char-append c (decimal 20 d) ("." ∷ decimal 20 e),
        h,
        p,
        q,
        r,
        s,
      )
      refl

split-dotted_text :
    (a b c d : ℕ)
    → a < 256
    → b < 256
    → c < 256
    → d < 256
    → split "." (dotted_text a b c d)
      ≡ decimal 20 a :: decimal 20 b :: decimal 20 c :: decimal 20 d :: nil
unfolding dotted_text
split-dotted_text a b c d h i j k =
    rw
      (
        split-append "." (decimal 20 a)
            (decimal 20 b ++ ("." ∷ (decimal 20 c ++ ("." ∷ decimal 20 d)))) (byte-Free a h),
        split-append "." (decimal 20 b) (decimal 20 c ++ ("." ∷ decimal 20 d)) (byte-Free b i),
        split-append "." (decimal 20 c) (decimal 20 d) (byte-Free c j),
        split-Free "." (decimal 20 d) (byte-Free d k),
      )
      refl

-- Four bytes, written in decimal with dots, are read back by net.ParseIP.
pub parse_ip-dotted_text :
    (a b c d : ℕ)
    → a < 256
    → b < 256
    → c < 256
    → d < 256
    → parse_ip (dotted_text a b c d) ≡ some (v4 a b c d)
unfolding parse_ip parse_ipv4
parse_ip-dotted_text a b c d h i j k =
    rw
      (
        lacks-dotted_text "%" a b c d refl (lacks_percent a h) (lacks_percent b i)
            (lacks_percent c j) (lacks_percent d k),
        lacks-dotted_text ":" a b c d refl (lacks_colon a h) (lacks_colon b i) (lacks_colon c j)
            (lacks_colon d k),
        split-dotted_text a b c d h i j k,
        parse_byte-decimal a h,
        parse_byte-decimal b i,
        parse_byte-decimal c j,
        parse_byte-decimal d k,
      )
      refl
