-- ===== src/SortedSet.antt =====
-- std::set as the list of its elements in the order of its comparator. An iterator is the list of
-- the elements from it on, and end() is []. Elements that neither precedes are equivalent.
pub mod Laws
pub mod Sorted
use das_hle.Base.{ℕ, Bool, true, false, not, ◌&&◌, if◌then◌else◌, List, [], ◌∷◌, Option, none, some}

unfoldable pub head? : {A : Type 0} → List A → Option A
head? [] = none
head? (x ∷ xs) = some x

module _ {A : Type 0} (less : A → A → Bool) where
  unfoldable pub equivalent : A → A → Bool
  equivalent a b = not (less a b) && not (less b a)

  -- The first element that does not precede the key.
  unfoldable pub lower_bound : A → List A → List A
  lower_bound key [] = []
  lower_bound key (x ∷ xs) = if less x key then lower_bound key xs else x ∷ xs

  unfoldable pub find_from : A → List A → Option A
  find_from key [] = none
  find_from key (x ∷ xs) = if less key x then none else some x

  unfoldable pub find : A → List A → Option A
  unfolding lower_bound find_from
  find key xs = find_from key (lower_bound key xs)

  -- An equivalent element stays, and the new one is not put in.
  unfoldable pub insert : A → List A → List A
  insert a [] = a ∷ []
  insert a (x ∷ xs) = if less a x then a ∷ x ∷ xs else if less x a then x ∷ insert a xs else x ∷ xs

  -- The `second` of what insert() returns.
  unfoldable pub inserts : A → List A → Bool
  inserts a [] = true
  inserts a (x ∷ xs) = if less a x then true else if less x a then inserts a xs else false

  -- erase(it) and extract(it), where `it` is the place of the element.
  unfoldable pub erase : A → List A → List A
  unfolding equivalent
  erase a [] = []
  erase a (x ∷ xs) = if equivalent a x then xs else x ∷ erase a xs

  -- std::prev(it), none where `it` is begin(); `before` is the element in front of the list.
  unfoldable pub prev_from : Option A → A → List A → Option A
  unfolding equivalent
  prev_from before a [] = none
  prev_from before a (x ∷ xs) = if equivalent a x then before else prev_from (some x) a xs

  unfoldable pub prev : A → List A → Option A
  unfolding prev_from
  prev a xs = prev_from none a xs

  -- std::next(it), none where that is end().
  unfoldable pub next : A → List A → Option A
  unfolding equivalent head?
  next a [] = none
  next a (x ∷ xs) = if equivalent a x then head? xs else next a xs

  -- A write through a pointer to the element, which leaves it in its place.
  unfoldable pub replace : A → A → List A → List A
  unfolding equivalent
  replace old new [] = []
  replace old new (x ∷ xs) = if equivalent old x then new ∷ xs else x ∷ replace old new xs
