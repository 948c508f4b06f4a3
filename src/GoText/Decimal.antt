-- ===== src/GoText/Decimal.antt =====
-- Reading back a printed number.
use Prim.Native.Char.{Char, code}
use Prim.Native.String.{[], ◌∷◌, ◌++◌}
use Prim.Native.String.append
use native.Mathlib.Nat.{pow-suc}
use p2pt_server.Prelude.{
  ℕ, zero, suc, ◌<◌, ◌+◌, ◌-◌, ◌*◌, ◌^◌, ◌/◌, ◌%◌, String, false, some, ◌≡◌, ◌≢◌, refl, ap, ◌∙◌,
  arith, ltb, inl, inr, Bool-cases,
}
use p2pt_server.GoText.Pieces.{Free, decimal-Free}
use p2pt_server.GoText.{digit, decimal, read_digits, pos, format_int, parse_int, in_range}

pub code-digit : (d : ℕ) → d < 10 → code (digit d) ≡ 48 + d
unfolding digit
code-digit zero h = refl
code-digit (suc zero) h = refl
code-digit (suc (suc zero)) h = refl
code-digit (suc (suc (suc zero))) h = refl
code-digit (suc (suc (suc (suc zero)))) h = refl
code-digit (suc (suc (suc (suc (suc zero))))) h = refl
code-digit (suc (suc (suc (suc (suc (suc zero)))))) h = refl
code-digit (suc (suc (suc (suc (suc (suc (suc zero))))))) h = refl
code-digit (suc (suc (suc (suc (suc (suc (suc (suc zero)))))))) h = refl
code-digit (suc (suc (suc (suc (suc (suc (suc (suc (suc zero))))))))) h = refl
code-digit (suc (suc (suc (suc (suc (suc (suc (suc (suc (suc d)))))))))) h = absurd (omega arith)

read_digits-append :
    (s : String) (a m d : ℕ)
    → d < 10
    → read_digits a s ≡ some m
    → read_digits a (s ++ (digit d ∷ [])) ≡ some (m * 10 + d)
unfolding read_digits
read_digits-append [] a m d h e = rw append.nil (ground (arith, code-digit d h))
read_digits-append (c ∷ s) a m d h e =
    rw append.cons (ground (arith, read_digits-append s (a * 10 + (code c - 48)) m d h))

one_digit : (fuel n : ℕ) → n < 10 → read_digits 0 (digit n ∷ []) ≡ some n
unfolding read_digits
one_digit fuel n h = ground (arith, code-digit n h)

read_digits-decimal :
    (fuel n : ℕ) → n < 10 ^ suc fuel → read_digits 0 (decimal (suc fuel) n) ≡ some n
unfolding decimal
read_digits-decimal zero n h = elim (Bool-cases (ltb n 10)) [
  | inl y ↦ rw (y, decimal) (one_digit 0 n (ground arith))
  | inr m ↦ absurd (ground arith)
]
read_digits-decimal (suc fuel) n h = elim (Bool-cases (ltb n 10)) [
  | inl y ↦ rw (y, decimal) (one_digit fuel n (ground arith))
  | inr m ↦
      rw (m, decimal)
        (read_digits-append (decimal (suc fuel) (n / 10)) 0 (n / 10) (n % 10) (omega arith)
            (read_digits-decimal fuel (n / 10) (omega (arith, pow-suc 10 (suc fuel))))
          ∙ ap (λ (k : ℕ). some k) (omega arith))
]

append-ne-nil : (s : String) (c : Char) → (s ++ (c ∷ [])) ≢ []
append-ne-nil [] c e = cc (append.nil (c ∷ []), e)
append-ne-nil (d ∷ s) c e = cc (append.cons d s (c ∷ []), e)

pub decimal-ne-nil : (fuel n : ℕ) → decimal (suc fuel) n ≢ []
unfolding decimal
decimal-ne-nil fuel n e = elim (Bool-cases (ltb n 10)) [
  | inl y ↦ cc (y, e)
  | inr m ↦ append-ne-nil (decimal fuel (n / 10)) (digit (n % 10)) (rw (m, decimal) at e)
]

parse_int_of_digits :
    (s : String) (n : ℕ) → s ≢ [] → read_digits 0 s ≡ some n → parse_int s ≡ in_range false (some n)
unfolding parse_int read_digits
parse_int_of_digits [] n h e = absurd (h refl)
parse_int_of_digits (c ∷ s) n h e = ground arith

pub format_int-ne-nil : (n : ℕ) → format_int (pos n) ≢ []
unfolding format_int
format_int-ne-nil n = decimal-ne-nil 19 n

pub format_int-Free : (n : ℕ) → Free "_" (format_int (pos n))
unfolding format_int
format_int-Free n = decimal-Free 20 n

-- An int64 that is not negative is read back as it was printed.
pub parse_int-format_int : (n : ℕ) → n < 2 ^ 63 → parse_int (format_int (pos n)) ≡ some (pos n)
unfolding in_range format_int
parse_int-format_int n h =
    parse_int_of_digits (decimal 20 n) n (decimal-ne-nil 19 n)
      (read_digits-decimal 19 n (omega arith))
    ∙ ground arith
