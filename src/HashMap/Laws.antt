-- ===== src/HashMap/Laws.antt =====
-- Lookups in std::unordered_map after its writes.
use das_hle.Base.{◌≡◌, ◌≢◌, List, [], ◌∷◌, none, some, arith}
use das_hle.HashMap.{lookup, put, put_new}

module _ {K V : Type 0} (same : Discrete K) where
  pub lookup-here :
      (q k : K) (v : V) (rest : List (K × V)) → q ≡ k → lookup same q ((k, v) ∷ rest) ≡ some v
  unfolding lookup
  lookup-here q k v rest e = ground arith

  pub lookup-there :
      (q k : K) (v : V) (rest : List (K × V))
      → q ≢ k
      → lookup same q ((k, v) ∷ rest) ≡ lookup same q rest
  unfolding lookup
  lookup-there q k v rest ne = ground arith

  pub put-there :
      (q k : K) (value v : V) (rest : List (K × V))
      → q ≢ k
      → put same q value ((k, v) ∷ rest) ≡ (k, v) ∷ put same q value rest
  unfolding put
  put-there q k value v rest ne = ground arith

  -- A write is read back.
  pub lookup-put :
      (key : K) (value : V) (xs : List (K × V))
      → lookup same key (put same key value xs) ≡ some value
  unfolding lookup put
  lookup-put key value [] = ground arith
  lookup-put key value ((k, v) ∷ xs) = ground (arith, lookup-put key value xs)

  pub lookup-put_other :
      (q key : K) (value : V) (xs : List (K × V))
      → q ≢ key
      → lookup same q (put same key value xs) ≡ lookup same q xs
  unfolding lookup put
  lookup-put_other q key value [] ne = ground arith
  lookup-put_other q key value ((k, v) ∷ xs) ne = ground (arith, lookup-put_other q key value xs ne)

  pub lookup-put_new_kept :
      (q key : K) (value w : V) (xs : List (K × V))
      → lookup same q xs ≡ some w
      → lookup same q (put_new same key value xs) ≡ some w
  unfolding lookup put_new
  lookup-put_new_kept q key value w [] h = cc
  lookup-put_new_kept q key value w ((k, v) ∷ xs) h =
      ground (arith, lookup-put_new_kept q key value w xs)

  pub lookup-put_new_other :
      (q key : K) (value : V) (xs : List (K × V))
      → q ≢ key
      → lookup same q (put_new same key value xs) ≡ lookup same q xs
  unfolding lookup put_new
  lookup-put_new_other q key value [] ne = ground arith
  lookup-put_new_other q key value ((k, v) ∷ xs) ne =
      ground (arith, lookup-put_new_other q key value xs ne)

  pub lookup-put_new_added :
      (key : K) (value : V) (xs : List (K × V))
      → lookup same key xs ≡ none
      → lookup same key (put_new same key value xs) ≡ some value
  unfolding lookup put_new
  lookup-put_new_added key value [] h = ground arith
  lookup-put_new_added key value ((k, v) ∷ xs) h = ground (arith, lookup-put_new_added key value xs)
