-- ===== src/RelayRing/Conns.antt =====
-- Lists of connections without repetition.
use p2pt_server.Prelude.{
  ℕ, Bool, false, ◌&&◌, ◌||◌, not, List, [], ◌∷◌, ◌++◌, ◌≡◌, refl, arith, eqb,
}
use p2pt_server.RelayRing.{remove_first}

abbrev pub has_conn : ℕ → List ℕ → Bool
has_conn v [] = false
has_conn v (w ∷ l) = eqb w v || has_conn v l

abbrev pub IsDistinct : List ℕ → Type 0
IsDistinct [] = Unit
IsDistinct (v ∷ l) = (has_conn v l ≡ false) × IsDistinct l

pub has_conn-append :
    (v w : ℕ) (l : List ℕ) → has_conn v (l ++ (w ∷ [])) ≡ (has_conn v l || eqb w v)
has_conn-append v w [] = ground arith
has_conn-append v w (x ∷ l) = ground (arith, has_conn-append v w l)

pub append-IsDistinct :
    (w : ℕ) (l : List ℕ) → IsDistinct l → has_conn w l ≡ false → IsDistinct (l ++ (w ∷ []))
append-IsDistinct w [] d h = (refl, tt)
append-IsDistinct w (x ∷ l) d h = ground (arith, has_conn-append x w l, append-IsDistinct w l)

pub has_conn-remove_first :
    (v w : ℕ) (l : List ℕ)
    → IsDistinct l
    → has_conn v (remove_first w l) ≡ (has_conn v l && not (eqb w v))
unfolding remove_first
has_conn-remove_first v w [] d = refl
has_conn-remove_first v w (x ∷ l) d = ground (arith, has_conn-remove_first v w l)

pub remove_first-IsDistinct : (w : ℕ) (l : List ℕ) → IsDistinct l → IsDistinct (remove_first w l)
unfolding remove_first
remove_first-IsDistinct w [] d = tt
remove_first-IsDistinct w (x ∷ l) d =
    ground (arith, has_conn-remove_first x w l, remove_first-IsDistinct w l)
