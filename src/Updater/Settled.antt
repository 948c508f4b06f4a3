-- ===== src/Updater/Settled.antt =====
-- When the program is left alone.
use Prim.Native.Char.{code}
use Prim.Native.Nat.{Ordering, compare as compare_numbers}
use Prim.Native.String.{[], ◌∷◌, compare, then as first_unequal}
use Prim.Native.String.compare as clauses
use p2pt_server.Prelude.{
  ℕ, String, true, false, false≢true, none, some, ◌≡◌, refl, ◌∙◌, ap, arith, eq_iff,
}
use p2pt_server.Updater.{GithubRelease, is_lt, less, clean_version, is_newer_version, check_once}

-- The comparison the other way round.
abbrev flip : Ordering → Ordering
flip Ordering.lt = Ordering.gt
flip Ordering.eq = Ordering.eq
flip Ordering.gt = Ordering.lt

flip-numbers : (m n : ℕ) → compare_numbers n m ≡ flip (compare_numbers m n)
flip-numbers m n = ground arith

flip-then : (a b : Ordering) → first_unequal (flip a) (flip b) ≡ flip (first_unequal a b)
flip-then Ordering.lt b = refl
flip-then Ordering.eq b = refl
flip-then Ordering.gt b = refl

flip-texts : (s t : String) → compare t s ≡ flip (compare s t)
flip-texts [] [] = refl
flip-texts [] (d ∷ t) = rw (clauses.nil-cons d t, clauses.cons-nil d t) refl
flip-texts (c ∷ s) [] = rw (clauses.nil-cons c s, clauses.cons-nil c s) refl
flip-texts (c ∷ s) (d ∷ t) =
    rw (clauses.cons-cons d c t s, clauses.cons-cons c d s t)
      (rw (flip-numbers (code c) (code d), flip-texts s t)
        (flip-then (compare_numbers (code c) (code d)) (compare s t)))

is_lt-flip : (o : Ordering) → is_lt o ≡ true → is_lt (flip o) ≡ false
is_lt-flip Ordering.lt h = refl
is_lt-flip Ordering.eq h = refl
is_lt-flip Ordering.gt h = absurd (false≢true h)

-- No two texts are less than each other.
less_asymmetric : (s t : String) → less s t ≡ true → less t s ≡ false
less_asymmetric s t h = ap is_lt (flip-texts s t) ∙ is_lt-flip (compare s t) h

-- Of two releases at most one is newer than the other: the servers at them do not replace each
-- other's program back and forth.
pub is_newer_version-asymmetric :
    (s t : String) → is_newer_version s t ≡ true → is_newer_version t s ≡ false
unfolding is_newer_version
is_newer_version-asymmetric s t h =
    ground (arith, less_asymmetric (clean_version s) (clean_version t))

-- A server that runs the version of the latest release, spaces and a leading v aside, downloads nothing.
pub check_once-settled :
    (os arch current : String) (release : GithubRelease)
    → clean_version (release.tag_name) ≡ clean_version current
    → check_once os arch current (some release) ≡ none
unfolding check_once is_newer_version
check_once-settled os arch current release e =
    let same = (eq_iff (clean_version (release.tag_name)) (clean_version current)).1 e in
    rw same (ground arith)
