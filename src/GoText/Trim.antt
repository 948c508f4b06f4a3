-- ===== src/GoText/Trim.antt =====
-- What `strings.TrimSpace` leaves.
use Prim.Native.Char.{Char, code}
use Prim.Native.String.{[], ◌∷◌, ◌++◌}
use Prim.Native.String.append
use mathlib.Core.List.{List, [] as nil, ◌∷◌ as ◌::◌}
use p2pt_server.Prelude.{
  ℕ, zero, suc, ◌/◌, ◌%◌, String, false, ◌≡◌, refl, ap, ◌∙◌, ltb, inl, inr, Bool-cases,
}
use p2pt_server.GoText.{
  is_space, glue_space, trim_left, trim_right, trim_space, digit, decimal, encode_hex, format_int,
  pos,
}

-- No space stands at the front.
abbrev pub IsFlush : String → Type 0
IsFlush [] = Unit
IsFlush (c ∷ s) = is_space (code c) ≡ false

pub trim_left-IsFlush : (s : String) → IsFlush (trim_left s)
unfolding trim_left
trim_left-IsFlush [] = tt
trim_left-IsFlush (c ∷ s) = elim (Bool-cases (is_space (code c))) [
  | inl e ↦ rw e (trim_left-IsFlush s)
  | inr e ↦ rw e e
]

pub trim_left-flush : (s : String) → IsFlush s → trim_left s ≡ s
unfolding trim_left
trim_left-flush [] f = refl
trim_left-flush (c ∷ s) f = rw f refl

glue_space-IsFlush : (c : Char) (s : String) → is_space (code c) ≡ false → IsFlush (glue_space c s)
glue_space-IsFlush c [] f = rw f f
glue_space-IsFlush c (d ∷ s) f = f

pub trim_right-IsFlush : (s : String) → IsFlush s → IsFlush (trim_right s)
unfolding trim_right
trim_right-IsFlush [] f = tt
trim_right-IsFlush (c ∷ s) f = glue_space-IsFlush c (trim_right s) f

trim_right-glue_space :
    (c : Char) (s : String) → trim_right s ≡ s → trim_right (glue_space c s) ≡ glue_space c s
unfolding trim_right
trim_right-glue_space c [] h = elim (Bool-cases (is_space (code c))) [
  | inl e ↦ rw e refl
  | inr e ↦ rw e (rw e refl)
]
trim_right-glue_space c (d ∷ s) h = rw h refl

pub trim_right-trim_right : (s : String) → trim_right (trim_right s) ≡ trim_right s
unfolding trim_right
trim_right-trim_right [] = refl
trim_right-trim_right (c ∷ s) = trim_right-glue_space c (trim_right s) (trim_right-trim_right s)

pub trim_space-trim_space : (s : String) → trim_space (trim_space s) ≡ trim_space s
unfolding trim_space
trim_space-trim_space s =
    ap trim_right (
      trim_left-flush (trim_right (trim_left s))
        (trim_right-IsFlush (trim_left s) (trim_left-IsFlush s)))
    ∙ trim_right-trim_right (trim_left s)

-- No space stands in the text.
abbrev pub Spaceless : String → Type 0
Spaceless [] = Unit
Spaceless (c ∷ s) = (is_space (code c) ≡ false) × Spaceless s

trim_right-Spaceless : (s : String) → Spaceless s → trim_right s ≡ s
unfolding trim_right
trim_right-Spaceless [] f = refl
trim_right-Spaceless (c ∷ []) f = rw f.0 refl
trim_right-Spaceless (c ∷ d ∷ s) f = rw (trim_right-Spaceless (d ∷ s) f.1) refl

pub trim_space-Spaceless : (s : String) → Spaceless s → trim_space s ≡ s
unfolding trim_space trim_left
trim_space-Spaceless [] f = refl
trim_space-Spaceless (c ∷ s) f = rw f.0 (trim_right-Spaceless (c ∷ s) f)

pub Spaceless-append : (a b : String) → Spaceless a → Spaceless b → Spaceless (a ++ b)
Spaceless-append [] b f g = rw append.nil g
Spaceless-append (c ∷ a) b f g = rw append.cons (f.0, Spaceless-append a b f.1 g)

digit_no_space : (n : ℕ) → is_space (code (digit n)) ≡ false
unfolding digit
digit_no_space zero = refl
digit_no_space (suc zero) = refl
digit_no_space (suc (suc zero)) = refl
digit_no_space (suc (suc (suc zero))) = refl
digit_no_space (suc (suc (suc (suc zero)))) = refl
digit_no_space (suc (suc (suc (suc (suc zero))))) = refl
digit_no_space (suc (suc (suc (suc (suc (suc zero)))))) = refl
digit_no_space (suc (suc (suc (suc (suc (suc (suc zero))))))) = refl
digit_no_space (suc (suc (suc (suc (suc (suc (suc (suc zero)))))))) = refl
digit_no_space (suc (suc (suc (suc (suc (suc (suc (suc (suc zero))))))))) = refl
digit_no_space (suc (suc (suc (suc (suc (suc (suc (suc (suc (suc zero)))))))))) = refl
digit_no_space (suc (suc (suc (suc (suc (suc (suc (suc (suc (suc (suc zero))))))))))) = refl
digit_no_space (suc (suc (suc (suc (suc (suc (suc (suc (suc (suc (suc (suc zero)))))))))))) = refl
digit_no_space (suc (suc (suc (suc (suc (suc (suc (suc (suc (suc (suc (suc (suc zero))))))))))))) =
    refl
digit_no_space
      (suc (suc (suc (suc (suc (suc (suc (suc (suc (suc (suc (suc (suc (suc zero)))))))))))))) =
    refl
digit_no_space _ = refl

pub encode_hex-Spaceless : (bs : List ℕ) → Spaceless (encode_hex bs)
unfolding encode_hex
encode_hex-Spaceless nil = tt
encode_hex-Spaceless (b :: bs) =
    (digit_no_space (b / 16), (digit_no_space (b % 16), encode_hex-Spaceless bs))

pub decimal-Spaceless : (fuel n : ℕ) → Spaceless (decimal fuel n)
unfolding decimal
decimal-Spaceless zero n = tt
decimal-Spaceless (suc fuel) n = elim (Bool-cases (ltb n 10)) [
  | inl e ↦ rw (e, decimal) (digit_no_space n, tt)
  | inr e ↦
      rw (e, decimal)
        (Spaceless-append (decimal fuel (n / 10)) (digit (n % 10) ∷ [])
          (decimal-Spaceless fuel (n / 10)) (digit_no_space (n % 10), tt))
]

pub format_int-Spaceless : (n : ℕ) → Spaceless (format_int (pos n))
unfolding format_int
format_int-Spaceless n = decimal-Spaceless 20 n
