-- ===== src/HashMap.antt =====
-- std::unordered_map as the list of its entries. Its keys are compared by ==; the order of the
-- entries is not specified, and the source relies on none.
pub mod Laws
use das_hle.Base.{ℕ, ◌≡◌, refl, List, [], ◌∷◌, Option, none, some}

module _ {K V : Type 0} (same : Discrete K) where
  -- find(key): the value of the entry.
  unfoldable pub lookup : K → List (K × V) → Option V
  lookup key [] = none
  lookup key ((k, v) ∷ rest) = elim (same key k) [ yes _ ↦ some v | no _ ↦ lookup key rest ]

  -- map[key] = value.
  unfoldable pub put : K → V → List (K × V) → List (K × V)
  put key value [] = (key, value) ∷ []
  put key value ((k, v) ∷ rest) = elim (same key k) [
    | yes _ ↦ (k, value) ∷ rest
    | no _ ↦ (k, v) ∷ put key value rest
  ]

  -- insert({ key, value }), which keeps the entry of a key that is there.
  unfoldable pub put_new : K → V → List (K × V) → List (K × V)
  put_new key value [] = (key, value) ∷ []
  put_new key value ((k, v) ∷ rest) = elim (same key k) [
    | yes _ ↦ (k, v) ∷ rest
    | no _ ↦ (k, v) ∷ put_new key value rest
  ]
