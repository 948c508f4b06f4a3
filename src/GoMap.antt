-- ===== src/GoMap.antt =====
-- Go's `map[string]V`, as the list of its entries. A `range` over a map visits the entries once
-- each, in an order that the runtime chooses: where the order matters, the code takes it as an
-- argument, and `Visits` says what Go promises of it.
pub mod Laws
use p2pt_server.Prelude.{
  ℕ, String, Bool, Option, none, some, ◌≡◌, List, [], ◌∷◌, ◌==◌, is_some, length, if◌then◌else◌,
}

abbrev pub GoMap {ℓ} : Type ℓ → Type ℓ
GoMap V = List (String × V)

module _ {ℓ} {V : Type ℓ} where
  -- m[k], with the second result of `v, ok := m[k]`
  unfoldable pub get : String → GoMap V → Option V
  get k [] = none
  get k ((j, v) ∷ m) = if j == k then some v else get k m

  abbrev pub has : String → GoMap V → Bool
  has k m = is_some (get k m)

  -- m[k] = v
  unfoldable pub put : String → V → GoMap V → GoMap V
  put k v [] = (k, v) ∷ []
  put k v ((j, w) ∷ m) = if j == k then (j, v) ∷ m else (j, w) ∷ put k v m

  -- delete(m, k)
  unfoldable pub delete : String → GoMap V → GoMap V
  delete k [] = []
  delete k ((j, v) ∷ m) = let rest = delete k m in if j == k then rest else (j, v) ∷ rest

  -- for k, v := range m { if !p(k, v) { delete(m, k) } }
  unfoldable pub keep : (String → V → Bool) → GoMap V → GoMap V
  keep p [] = []
  keep p ((j, v) ∷ m) = let rest = keep p m in if p j v then (j, v) ∷ rest else rest

  -- len(m)
  abbrev pub size : GoMap V → ℕ
  size m = length m

  -- No key stands twice.
  abbrev pub IsUnique : GoMap V → Type ℓ
  IsUnique [] = Unit
  IsUnique ((k, v) ∷ m) = (get k m ≡ none) × IsUnique m

  -- `l` is an order in which a `range` over `m` may visit the entries of `m`.
  pub record Visits (l m : GoMap V) : Type ℓ where
    pub once : IsUnique l
    pub same : (k : String) → get k l ≡ get k m
    pub all : size l ≡ size m
