-- ===== src/GoMap/Laws.antt =====
-- What one operation on a map does to what the others see.
use p2pt_server.Prelude.{
  ◌+◌, ◌≤◌, String, Bool, Option, none, some, ◌≡◌, refl, [], ◌∷◌, arith, ◌==◌, ◌≢◌, ==_ne, eq_iff,
  eq_refl, if◌then◌else◌,
}
use p2pt_server.GoMap.{GoMap, get, has, put, delete, keep, size, IsUnique, Visits}

module _ {ℓ} {V : Type ℓ} where
  pub get-put :
      (j k : String) (v : V) (m : GoMap V)
      → get j (put k v m) ≡ (if k == j then some v else get j m)
  unfolding get put
  get-put j k v [] = refl
  get-put j k v ((i, w) ∷ m) = ground (arith, eq_iff k j, eq_iff i k, eq_iff i j, get-put j k v m)

  pub get-put_other : (j k : String) (v : V) (m : GoMap V) → k ≢ j → get j (put k v m) ≡ get j m
  get-put_other j k v m n = ground (arith, get-put j k v m, ==_ne k j n)

  pub get-delete :
      (j k : String) (m : GoMap V) → get j (delete k m) ≡ (if k == j then none else get j m)
  unfolding get delete
  get-delete j k [] = ground arith
  get-delete j k ((i, w) ∷ m) = ground (arith, eq_iff k j, eq_iff i k, eq_iff i j, get-delete j k m)

  -- what `keep p` leaves of an entry
  abbrev pub kept : (String → V → Bool) → String → Option V → Option V
  kept p k none = none
  kept p k (some v) = if p k v then some v else none

  pub get-keep-none :
      (j : String) (p : String → V → Bool) (m : GoMap V) → get j m ≡ none → get j (keep p m) ≡ none
  unfolding get keep
  get-keep-none j p [] h = refl
  get-keep-none j p ((i, w) ∷ m) h = ground (arith, get-keep-none j p m)

  pub get-keep :
      (j : String) (p : String → V → Bool) (m : GoMap V)
      → IsUnique m
      → get j (keep p m) ≡ kept p j (get j m)
  unfolding get keep
  get-keep j p [] u = refl
  get-keep j p ((i, w) ∷ m) u =
      ground (arith, eq_iff i j, get-keep j p m, get-keep-none j p m, get-keep-none i p m)

  pub put-IsUnique : (k : String) (v : V) (m : GoMap V) → IsUnique m → IsUnique (put k v m)
  unfolding put get
  put-IsUnique k v [] u = (refl, tt)
  put-IsUnique k v ((i, w) ∷ m) u =
      ground (arith, eq_iff i k, eq_iff k i, get-put i k v m, put-IsUnique k v m)

  pub delete-IsUnique : (k : String) (m : GoMap V) → IsUnique m → IsUnique (delete k m)
  unfolding delete
  delete-IsUnique k [] u = tt
  delete-IsUnique k ((i, w) ∷ m) u =
      ground (arith, eq_iff i k, eq_iff k i, get-delete i k m, delete-IsUnique k m)

  pub keep-IsUnique : (p : String → V → Bool) (m : GoMap V) → IsUnique m → IsUnique (keep p m)
  unfolding keep
  keep-IsUnique p [] u = tt
  keep-IsUnique p ((i, w) ∷ m) u = ground (arith, get-keep-none i p m, keep-IsUnique p m)

  pub size-put :
      (k : String) (v : V) (m : GoMap V)
      → size (put k v m) ≡ (if has k m then size m else size m + 1)
  unfolding put get
  size-put k v [] = refl
  size-put k v ((i, w) ∷ m) = ground (arith, size-put k v m)

  pub delete_absent : (k : String) (m : GoMap V) → get k m ≡ none → delete k m ≡ m
  unfolding delete get
  delete_absent k [] h = refl
  delete_absent k ((i, w) ∷ m) h = ground (arith, delete_absent k m)

  pub size-delete :
      (k : String) (m : GoMap V)
      → IsUnique m
      → size m ≡ (if has k m then size (delete k m) + 1 else size (delete k m))
  unfolding delete get
  size-delete k [] u = refl
  size-delete k ((i, w) ∷ m) u = ground (arith, eq_iff i k, size-delete k m, delete_absent k m)

  pub size-keep : (p : String → V → Bool) (m : GoMap V) → size (keep p m) ≤ size m
  unfolding keep
  size-keep p [] = omega arith
  size-keep p ((i, w) ∷ m) = ground (arith, size-keep p m)

  -- A map with no entry has no key, and the other way round.
  pub get_empty : (k : String) (m : GoMap V) → size m ≡ 0 → get k m ≡ none
  unfolding get
  get_empty k [] h = refl
  get_empty k (x ∷ m) h = absurd (omega arith)

  pub empty_of_get : (m : GoMap V) → ((k : String) → get k m ≡ none) → m ≡ []
  unfolding get
  empty_of_get [] h = refl
  empty_of_get ((k, v) ∷ m) h = ground (arith, h k, eq_refl k)

  pub Visits-refl : (m : GoMap V) → IsUnique m → Visits m m
  Visits-refl m u = record { once = u; same = λ k. refl; all = refl }

pub ruleset map_laws = (get-put, get-delete)
