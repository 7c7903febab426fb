-- ===== src/SortedSet/Sorted.antt =====
-- insert() keeps the elements in order, and lower_bound() splits an ordered set at its key.
use das_hle.Base.{Bool, true, false, List, [], ◌∷◌, In, ◌≡◌, inl, inr, arith, Bool-cases}
use das_hle.SortedSet.{lower_bound, insert}
use das_hle.SortedSet.Laws.{StrictOrder, In-insert}

-- Each element precedes all that follow it.
abbrev pub Sorted : {A : Type 0} → (A → A → Bool) → List A → Type 0
Sorted less [] = Unit {0}
Sorted {A} less (x ∷ xs) = ((y : A) → In y xs → less x y ≡ true) × Sorted less xs

module _ {A : Type 0} (less : A → A → Bool) (o : StrictOrder less) where
  pub insert-Sorted : (a : A) (xs : List A) → Sorted less xs → Sorted less (insert less a xs)
  unfolding insert
  insert-Sorted a [] s = (λ y h. elim h [ ], tt)
  insert-Sorted a (x ∷ xs) s = elim (Bool-cases (less a x)) [
    | inl before ↦
        rw before
          (λ y h. elim h [ inl e ↦ rw e before | inr k ↦ o.transitive a x y before (s.0 y k) ], s)
    | inr not_before ↦ rw not_before (elim (Bool-cases (less x a)) [
      | inl behind ↦ rw behind (
        λ y h. elim (In-insert less y a xs h) [ inl e ↦ rw e behind | inr k ↦ s.0 y k ],
        insert-Sorted a xs s.1,
      )
      | inr same ↦ rw same s
    ])
  ]

  -- No element from lower_bound() on precedes the key, and every element before it does.
  pub lower_bound-Sorted :
      (a k : A) (xs : List A) → Sorted less xs → In a (lower_bound less k xs) → less a k ≡ false
  unfolding lower_bound
  lower_bound-Sorted a k [] s h = elim h [ ]
  lower_bound-Sorted a k (x ∷ xs) s h = elim (Bool-cases (less x k)) [
    | inl before ↦ lower_bound-Sorted a k xs s.1 (rw before at h)
    | inr from ↦ elim (rw from at h) [
      | inl e ↦ rw e from
      | inr i ↦ ground (arith, s.0 a i, o.transitive x a k)
    ]
  ]

  pub In-lower_bound :
      (a k : A) (xs : List A) → In a xs → less a k ≡ false → In a (lower_bound less k xs)
  unfolding lower_bound
  In-lower_bound a k [] h f = h
  In-lower_bound a k (x ∷ xs) h f = elim (Bool-cases (less x k)) [
    | inl before ↦
        rw before (elim h [ inl e ↦ absurd (cc (rw e at f)) | inr i ↦ In-lower_bound a k xs i f ])
    | inr from ↦ rw from h
  ]

  pub lower_bound-sub : (k : A) (xs : List A) → Sorted less xs → Sorted less (lower_bound less k xs)
  unfolding lower_bound
  lower_bound-sub k [] s = tt
  lower_bound-sub k (x ∷ xs) s = elim (Bool-cases (less x k)) [
    | inl before ↦ rw before (lower_bound-sub k xs s.1)
    | inr from ↦ rw from s
  ]
