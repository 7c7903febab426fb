-- ===== src/SortedSet/Laws.antt =====
-- The laws of std::set for a comparator that is a strict total order.
use das_hle.Base.{
  Bool, true, false, if◌then◌else◌, List, [], ◌∷◌, some, In, ◌≡◌, refl, ◌⊎◌, inl, inr, arith,
}
use das_hle.SortedSet.{equivalent, lower_bound, find, insert, inserts, erase}

pub record StrictOrder {A : Type 0} (less : A → A → Bool) : Type 0 where
  pub irreflexive : (a : A) → less a a ≡ false
  pub transitive : (a b c : A) → less a b ≡ true → less b c ≡ true → less a c ≡ true
  pub connected : (a b : A) → less a b ≡ false → less b a ≡ false → a ≡ b

module _ {A : Type 0} (less : A → A → Bool) (o : StrictOrder less) where
  asymmetric : (a b : A) → less a b ≡ true → less b a ≡ false
  asymmetric a b h = ground (arith, o.irreflexive a, o.transitive a b a)

  -- The order of insertion does not matter.
  pub insert_comm :
      (a b : A) (xs : List A) → insert less a (insert less b xs) ≡ insert less b (insert less a xs)
  unfolding insert
  insert_comm a b [] = ground (arith, o.connected a b, asymmetric a b)
  insert_comm a b (x ∷ xs) = ground (
    arith,
    insert_comm a b xs,
    o.connected a b,
    o.connected a x,
    o.connected b x,
    asymmetric a b,
    asymmetric a x,
    asymmetric b x,
    asymmetric x a,
    asymmetric x b,
    o.transitive a b x,
    o.transitive b a x,
    o.transitive a x b,
    o.transitive b x a,
    o.transitive x a b,
    o.transitive x b a,
  )

  -- Taking out an element that was just put in.
  pub erase-insert : (a : A) (xs : List A) → (In a xs → ⊥) → erase less a (insert less a xs) ≡ xs
  unfolding insert erase
  erase-insert a [] new = ground (arith, o.irreflexive a)
  erase-insert a (x ∷ xs) new = ground (
    arith,
    o.irreflexive a,
    o.connected a x,
    asymmetric a x,
    differs a x (λ e. new (inl e)),
    erase-insert a xs (λ h. new (inr h)),
  )
    where
      differs : (b c : A) → (b ≡ c → ⊥) → (less b c ≡ true) ⊎ (less c b ≡ true)
      differs b c ne = ground (arith, o.connected b c, ne)

  -- An element that was put in is found, whatever the other elements are.
  pub find-insert : (a : A) (xs : List A) → find less a (insert less a xs) ≡ some a
  unfolding find insert
  find-insert a [] = ground (arith, o.irreflexive a)
  find-insert a (x ∷ xs) =
      ground (arith, o.irreflexive a, o.connected a x, asymmetric a x, find-insert a xs)

-- No other element comes in by insert(), and none is lost.
module _ {A : Type 0} (less : A → A → Bool) where
  pub In-insert : (a b : A) (xs : List A) → In a (insert less b xs) → (a ≡ b) ⊎ In a xs
  unfolding insert
  In-insert a b [] h = h
  In-insert a b (x ∷ xs) h = split (less b x) (less x b) (In-insert a b xs) h
    where
      split :
          (t u : Bool)
          → (In a (insert less b xs) → (a ≡ b) ⊎ In a xs)
          → In a (if t then b ∷ x ∷ xs else if u then x ∷ insert less b xs else x ∷ xs)
          → (a ≡ b) ⊎ In a (x ∷ xs)
      split true u ih k = k
      split false true ih (inl e) = inr (inl e)
      split false true ih (inr k) = elim (ih k) [ inl e ↦ inl e | inr m ↦ inr (inr m) ]
      split false false ih k = inr k

  pub lower_bound-In : (a k : A) (xs : List A) → In a (lower_bound less k xs) → In a xs
  unfolding lower_bound
  lower_bound-In a k [] h = h
  lower_bound-In a k (x ∷ xs) h = split (less x k) (lower_bound-In a k xs) h
    where
      split :
          (t : Bool)
          → (In a (lower_bound less k xs) → In a xs)
          → In a (if t then lower_bound less k xs else x ∷ xs)
          → In a (x ∷ xs)
      split true ih m = inr (ih m)
      split false ih m = m

  -- What an erasure leaves was there before.
  pub In-erase : (a b : A) (xs : List A) → In a (erase less b xs) → In a xs
  unfolding erase
  In-erase a b [] h = h
  In-erase a b (x ∷ xs) h = split (equivalent less b x) (In-erase a b xs) h
    where
      split :
          (t : Bool)
          → (In a (erase less b xs) → In a xs)
          → In a (if t then xs else x ∷ erase less b xs)
          → In a (x ∷ xs)
      split true ih k = inr k
      split false ih (inl e) = inl e
      split false ih (inr k) = inr (ih k)

  pub In-insert_self : (a : A) (xs : List A) → inserts less a xs ≡ true → In a (insert less a xs)
  unfolding insert inserts
  In-insert_self a [] h = inl refl
  In-insert_self a (x ∷ xs) h = split (less a x) (less x a) (In-insert_self a xs) h
    where
      split :
          (t u : Bool)
          → (inserts less a xs ≡ true → In a (insert less a xs))
          → (if t then true else if u then inserts less a xs else false) ≡ true
          → In a (if t then a ∷ x ∷ xs else if u then x ∷ insert less a xs else x ∷ xs)
      split true u ih k = inl refl
      split false true ih k = inr (ih k)
      split false false ih k = cc

module _ {A : Type 0} (less : A → A → Bool) (o : StrictOrder less) where
  -- After insert() the element is there, new or not.
  pub In-insert_any : (a : A) (xs : List A) → In a (insert less a xs)
  unfolding insert
  In-insert_any a [] = inl refl
  In-insert_any a (x ∷ xs) = split (less a x) (less x a) (o.connected a x) (In-insert_any a xs)
    where
      split :
          (t u : Bool)
          → (t ≡ false → u ≡ false → a ≡ x)
          → In a (insert less a xs)
          → In a (if t then a ∷ x ∷ xs else if u then x ∷ insert less a xs else x ∷ xs)
      split true u same h = inl refl
      split false true same h = inr h
      split false false same h = inl (same refl refl)
