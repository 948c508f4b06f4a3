-- ===== src/ConfigStorage/Plain.antt =====
-- Values that a line of the file can hold.
use Prim.Native.Char.{code}
use Prim.Native.String.{[], ◌∷◌, ◌++◌}
use Prim.Native.String.append
use p2pt_server.ConfigStorage.{is_quote, has_nul}
use p2pt_server.ConfigStorage.Lines.{IsPlain}
use p2pt_server.GoText.{is_space, digit, decimal, ℤ, pos, negsuc, format_int}
use p2pt_server.GoText.Cut.{glue_set, drop_set, drop_set_last, trim_set}
use p2pt_server.GoText.Decimal.{code-digit}
use p2pt_server.GoText.Pieces.{Free}
use p2pt_server.GoText.Trim.{Spaceless, trim_space-Spaceless}
use p2pt_server.Prelude.{
  ℕ, zero, suc, ◌+◌, ◌<◌, ◌/◌, ◌%◌, String, false, ◌≡◌, refl, ap, arith, eqb, ltb, inl, inr,
  Bool-cases,
}

-- Neither a space nor a quote nor the null character.
abbrev IsClean : ℕ → Type 0
IsClean c = (is_space c ≡ false) × (is_quote c ≡ false) × (eqb c 0 ≡ false)

abbrev AllClean : String → Type 0
AllClean [] = Unit
AllClean (c ∷ s) = IsClean (code c) × AllClean s

AllClean-Spaceless : (s : String) → AllClean s → Spaceless s
AllClean-Spaceless [] a = tt
AllClean-Spaceless (c ∷ s) a = (a.0.0, AllClean-Spaceless s a.1)

AllClean-Free : (s : String) → AllClean s → Free "\n" s
AllClean-Free [] a = tt
AllClean-Free (c ∷ s) a = (ground (arith, a.0.0), AllClean-Free s a.1)

AllClean-has_nul : (s : String) → AllClean s → has_nul s ≡ false
unfolding has_nul
AllClean-has_nul [] a = refl
AllClean-has_nul (c ∷ s) a = rw (a.0.2) (AllClean-has_nul s a.1)

drop_set_last-AllClean : (s : String) → AllClean s → drop_set_last is_quote s ≡ s
unfolding drop_set_last
drop_set_last-AllClean [] a = refl
drop_set_last-AllClean (c ∷ []) a = rw (a.0.1) refl
drop_set_last-AllClean (c ∷ d ∷ s) a = ap (glue_set is_quote c) (drop_set_last-AllClean (d ∷ s) a.1)

trim_set-AllClean : (s : String) → AllClean s → trim_set is_quote s ≡ s
unfolding trim_set drop_set
trim_set-AllClean [] a = refl
trim_set-AllClean (c ∷ s) a = rw (a.0.1) (drop_set_last-AllClean (c ∷ s) a)

AllClean-IsPlain : (s : String) → AllClean s → IsPlain s
AllClean-IsPlain s a = record {
  trimmed = trim_space-Spaceless s (AllClean-Spaceless s a);
  unquoted = trim_set-AllClean s a;
  on_one_line = AllClean-Free s a;
  no_nul = AllClean-has_nul s a;
}

AllClean-append : (a b : String) → AllClean a → AllClean b → AllClean (a ++ b)
AllClean-append [] b f g = rw append.nil g
AllClean-append (c ∷ a) b f g = rw append.cons (f.0, AllClean-append a b f.1 g)

digit-IsClean : (d : ℕ) → d < 10 → IsClean (code (digit d))
digit-IsClean d h = rw (code-digit d h) (ground arith, ground arith, ground arith)

decimal-AllClean : (fuel n : ℕ) → AllClean (decimal fuel n)
unfolding decimal
decimal-AllClean zero n = tt
decimal-AllClean (suc fuel) n = elim (Bool-cases (ltb n 10)) [
  | inl e ↦ rw (e, decimal) (digit-IsClean n (ground arith), tt)
  | inr e ↦
      rw (e, decimal)
        (AllClean-append (decimal fuel (n / 10)) (digit (n % 10) ∷ [])
          (decimal-AllClean fuel (n / 10)) (digit-IsClean (n % 10) (omega arith), tt))
]

pub format_int-IsPlain : (z : ℤ) → IsPlain (format_int z)
unfolding format_int
format_int-IsPlain (pos n) = AllClean-IsPlain (decimal 20 n) (decimal-AllClean 20 n)
format_int-IsPlain (negsuc n) = AllClean-IsPlain ("-" ++ decimal 20 (n + 1)) (
    AllClean-append "-" (decimal 20 (n + 1)) ((refl, refl, refl), tt) (decimal-AllClean 20 (n + 1)))
