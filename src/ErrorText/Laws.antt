-- ===== src/ErrorText/Laws.antt =====
-- What errorAsString of source/DasHLE/Error.cpp tells apart.
use das_hle.Base.{
  ℕ, zero, suc, ◌+◌, ◌≤◌, ◌<◌, ◌≡◌, refl, sym, ap, subst, ◌∙◌, ◌⊎◌, inl, inr, Bool, true, false,
  ◌&&◌, ◌==◌, if◌then◌else◌, List, [], ◌∷◌, length, map, none, some, get_elem?, ok, abort, arith,
}
use das_hle.ErrorText.{enumerators, error_case, error_as_string}

same_text : List ℕ → List ℕ → Bool
same_text [] [] = true
same_text [] (d ∷ ds) = false
same_text (c ∷ cs) [] = false
same_text (c ∷ cs) (d ∷ ds) = c == d && same_text cs ds

-- The place of a text among texts.
position : List ℕ → List (List ℕ) → ℕ
position s [] = 0
position s (t ∷ ts) = if same_text s t then 0 else suc (position s ts)

-- Each text, the first at the place `at`, is found at its own place.
all_found : List (List ℕ) → ℕ → List (List ℕ) → Bool
all_found all at [] = true
all_found all at (t ∷ ts) = position t all == at && all_found all (suc at) ts

texts-all_found : all_found (map error_case enumerators) 0 (map error_case enumerators) ≡ true
unfolding all_found position same_text error_case
texts-all_found = refl

position-all_found :
    (all ts : List (List ℕ)) (at i : ℕ) (t : List ℕ)
    → all_found all at ts ≡ true
    → get_elem? ts i ≡ some t
    → position t all ≡ at + i
unfolding all_found
position-all_found all [] at i t f h = cc
position-all_found all (u ∷ ts) at zero t f h =
    let same : u ≡ t = cc in
    let here : position u all ≡ at + 0 = ground arith in
    subst (λ x. position x all ≡ at + 0) same here
position-all_found all (u ∷ ts) at (suc i) t f h =
    let there : all_found all (suc at) ts ≡ true = ground arith in
    omega (arith, position-all_found all ts (suc at) i t there h)

module _ {A B : Type 0} (f : A → B) where
  get_elem?-map :
      (xs : List A) (i : ℕ) (x : A) → get_elem? xs i ≡ some x → get_elem? (map f xs) i ≡ some (f x)
  get_elem?-map [] i x h = cc
  get_elem?-map (y ∷ xs) zero x h = cc
  get_elem?-map (y ∷ xs) (suc i) x h = get_elem?-map xs i x h

module _ {A : Type 0} where
  get_elem?-cases :
      (xs : List A) (i : ℕ)
      → ((i < length xs) × ((x : A) × (get_elem? xs i ≡ some x)))
        ⊎ ((length xs ≤ i) × (get_elem? xs i ≡ none))
  get_elem?-cases [] i = inr (omega arith, refl)
  get_elem?-cases (x ∷ xs) zero = inl (omega arith, (x, refl))
  get_elem?-cases (x ∷ xs) (suc i) = elim (get_elem?-cases xs i) [
    | inl (lt, found) ↦ inl (omega arith, found)
    | inr (le, missing) ↦ inr (omega arith, missing)
  ]

-- The text's value, for every value below the number of enumerators.
error_as_string-text :
    (value : ℕ) (s : List ℕ)
    → error_as_string value ≡ ok s
    → get_elem? (map error_case enumerators) value ≡ some s
unfolding error_as_string
error_as_string-text value s h = elim (get_elem?-cases enumerators value) [
  | inl (_, (x, e)) ↦
      let same : ok (error_case x) ≡ ok s = rw e at h in
      get_elem?-map error_case enumerators value x e ∙ ap some (ok-inj same)
  | inr (_, e) ↦ let clash : abort ≡ ok s = rw e at h in cc
]
  where
    ok-inj : {s t : List ℕ} → ok s ≡ ok t → s ≡ t
    ok-inj e = cc

-- errorAsString of the value of one of the 21 errors returns a text that it returns for no other
-- value; of any other value it does not return.
pub error_as_string_lem :
    (value : ℕ)
    → ((value < 21)
        × ((s : List ℕ) × (error_as_string value ≡ ok s)
            × ((other : ℕ) → error_as_string other ≡ ok s → other ≡ value)))
      ⊎ ((21 ≤ value) × (error_as_string value ≡ abort))
unfolding error_as_string
error_as_string_lem value = elim (get_elem?-cases enumerators value) [
  | inl (lt, (x, e)) ↦
      let returns : error_as_string value ≡ ok (error_case x) = rw e refl in
      inl (
        lt,
        (
          error_case x,
          returns,
          λ other h. sym (place other (error_case x) h) ∙ place value (error_case x) returns,
        ),
      )
  | inr (le, e) ↦ inr (le, rw e refl)
]
  where
    place :
        (v : ℕ) (s : List ℕ)
        → error_as_string v ≡ ok s
        → position s (map error_case enumerators) ≡ v
    place v s h =
        let found =
          position-all_found (map error_case enumerators) (map error_case enumerators) 0 v s
            texts-all_found (error_as_string-text v s h) in
        omega (arith, found)
