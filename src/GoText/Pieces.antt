-- ===== src/GoText/Pieces.antt =====
-- Splitting a text at a character.
use Prim.Native.Char.{Char, code}
use Prim.Native.String.{[], ◌∷◌, ◌++◌}
use Prim.Native.String.append
use mathlib.Core.List.{List, [] as nil, ◌∷◌ as ◌::◌}
use p2pt_server.Prelude.{
  ℕ, zero, suc, ◌/◌, ◌%◌, String, false, ◌≡◌, refl, arith, eqb, ltb, inl, inr, Bool-cases,
}
use p2pt_server.GoText.{split, digit, decimal, encode_hex}

-- The character does not stand in the text.
abbrev pub Free : Char → String → Type 0
Free c [] = Unit
Free c (d ∷ s) = (eqb (code d) (code c) ≡ false) × Free c s

pub split-Free : (c : Char) (s : String) → Free c s → split c s ≡ s :: nil
unfolding split
split-Free c [] f = refl
split-Free c (d ∷ s) f = rw (f.0, split-Free c s f.1)

-- The first piece ends at the first separator.
pub split-append : (c : Char) (a s : String) → Free c a → split c (a ++ (c ∷ s)) ≡ a :: split c s
unfolding split
split-append c [] s f = rw append.nil (ground arith)
split-append c (d ∷ a) s f = rw append.cons (rw (f.0, split-append c a s f.1))

pub Free-append : (c : Char) (a b : String) → Free c a → Free c b → Free c (a ++ b)
Free-append c [] b f g = rw append.nil g
Free-append c (d ∷ a) b f g = rw append.cons (f.0, Free-append c a b f.1 g)

underscore_digit : (n : ℕ) → eqb (code (digit n)) b'_' ≡ false
unfolding digit
underscore_digit zero = refl
underscore_digit (suc zero) = refl
underscore_digit (suc (suc zero)) = refl
underscore_digit (suc (suc (suc zero))) = refl
underscore_digit (suc (suc (suc (suc zero)))) = refl
underscore_digit (suc (suc (suc (suc (suc zero))))) = refl
underscore_digit (suc (suc (suc (suc (suc (suc zero)))))) = refl
underscore_digit (suc (suc (suc (suc (suc (suc (suc zero))))))) = refl
underscore_digit (suc (suc (suc (suc (suc (suc (suc (suc zero)))))))) = refl
underscore_digit (suc (suc (suc (suc (suc (suc (suc (suc (suc zero))))))))) = refl
underscore_digit (suc (suc (suc (suc (suc (suc (suc (suc (suc (suc zero)))))))))) = refl
underscore_digit (suc (suc (suc (suc (suc (suc (suc (suc (suc (suc (suc zero))))))))))) = refl
underscore_digit (suc (suc (suc (suc (suc (suc (suc (suc (suc (suc (suc (suc zero)))))))))))) = refl
underscore_digit
      (suc (suc (suc (suc (suc (suc (suc (suc (suc (suc (suc (suc (suc zero))))))))))))) =
    refl
underscore_digit
      (suc (suc (suc (suc (suc (suc (suc (suc (suc (suc (suc (suc (suc (suc zero)))))))))))))) =
    refl
underscore_digit _ = refl

pub encode_hex-Free : (bs : List ℕ) → Free "_" (encode_hex bs)
unfolding encode_hex
encode_hex-Free nil = tt
encode_hex-Free (b :: bs) =
    (underscore_digit (b / 16), (underscore_digit (b % 16), encode_hex-Free bs))

pub decimal-Free : (fuel n : ℕ) → Free "_" (decimal fuel n)
unfolding decimal
decimal-Free zero n = tt
decimal-Free (suc fuel) n = elim (Bool-cases (ltb n 10)) [
  | inl y ↦ rw (y, decimal) (underscore_digit n, tt)
  | inr m ↦
      rw (m, decimal)
        (Free-append "_" (decimal fuel (n / 10)) (digit (n % 10) ∷ []) (decimal-Free fuel (n / 10))
          (underscore_digit (n % 10), tt))
]
