-- ===== src/Elf/Dynamic/Only.antt =====
-- The entries that dynEntriesWithTag and dynEntryWithTag of source/DasHLE/Binary/ELF.cpp find in the
-- dynamic segments.
use das_hle.Base.{
  ℕ, suc, ◌≡◌, ◌≢◌, refl, subst, sym, ap, ◌∙◌, inl, inr, Bool, false, Bool-cases, ◌==◌, List, [],
  ◌∷◌, ◌++◌, length, Error, ok, err, undefined, ◌>>=◌, >>=-eq-ok, arith,
}
use das_hle.Elf.{Elf, Poly}
use das_hle.Elf.Read.{segment_type, segment_offset}
use das_hle.Elf.Dynamic.{
  is_64_bits, of_type, segments_of_type, dyn_entries_from, dyn_entries_in, dyn_entries_with_tag,
  the_only, dyn_entry_with_tag,
}
use das_hle.Elf.Dynamic.Reads.{IsRead, >>=-IsRead, field-IsRead}
use das_hle.Elf.Dynamic.Walk.{Walk, dyn_entries_from-Walks, Walk-returns}

-- The entries of a tag in the segments of type PT_DYNAMIC = 2, in their order.
pub data DynamicEntries (buffer : List ℕ) (tag : ℕ) (is_64 : Bool)
    : List Poly → List Poly → Type 0 where
  no_segment : DynamicEntries buffer tag is_64 [] []
  other_segment :
      {segment : Poly} {segments entries : List Poly} (type : ℕ)
      → segment_type buffer segment ≡ ok type
      → type ≢ 2
      → DynamicEntries buffer tag is_64 segments entries
      → DynamicEntries buffer tag is_64 (segment ∷ segments) entries
  dynamic_segment :
      {segment : Poly} {segments found entries : List Poly} (at : ℕ)
      → segment_type buffer segment ≡ ok 2
      → segment_offset buffer segment ≡ ok at
      → Walk buffer tag is_64 at found
      → DynamicEntries buffer tag is_64 segments entries
      → DynamicEntries buffer tag is_64 (segment ∷ segments) (found ++ entries)

abbrev pub Entries : Elf → ℕ → List Poly → Type 0
Entries elf tag entries = DynamicEntries elf.buffer tag (is_64_bits elf) elf.program_headers entries

-- The entry is the only one with the tag.
abbrev pub HasTag : Elf → ℕ → Poly → Type 0
HasTag elf tag entry = Entries elf tag (entry ∷ [])

-- There is no entry with the tag, or more than one.
abbrev pub LacksTag : Elf → ℕ → Type 0
LacksTag elf tag = (entries : List Poly) × Entries elf tag entries × (length entries ≢ 1)

same_list : (a b : List Poly) → ok a ≡ ok b → a ≡ b
same_list a b h = cc

module _ (tag : ℕ) (elf : Elf) where
  walked :
      (at : ℕ) (found : List Poly)
      → dyn_entries_from elf.buffer tag (suc (length elf.buffer)) (is_64_bits elf) at ≡ ok found
      → Walk elf.buffer tag (is_64_bits elf) at found
  walked at found h =
      elim (dyn_entries_from-Walks elf.buffer tag (is_64_bits elf) (suc (length elf.buffer)) at
        (omega arith)) [
          | inl (entries, walk, q) ↦
              subst (Walk elf.buffer tag (is_64_bits elf) at) (same_list entries found (sym q ∙ h))
                walk
          | inr (off, q) ↦ let clash : undefined ≡ ok found = sym q ∙ h in cc
        ]

  in_segments :
      (headers segments entries : List Poly)
      → of_type (segment_type elf.buffer) 2 headers ≡ ok segments
      → dyn_entries_in tag elf segments ≡ ok entries
      → DynamicEntries elf.buffer tag (is_64_bits elf) headers entries
  unfolding of_type dyn_entries_in
  in_segments [] segments entries h k =
      let none : segments ≡ [] = sym (same_list [] segments h) in
      let empty : dyn_entries_in tag elf [] ≡ ok entries =
        subst (λ x. dyn_entries_in tag elf x ≡ ok entries) none k in
      subst (DynamicEntries elf.buffer tag (is_64_bits elf) []) (same_list [] entries empty)
        no_segment
  in_segments (p ∷ headers) segments entries h k =
      let (t, e1, h1) = >>=-eq-ok (segment_type elf.buffer p) _ h in
      let (found, e2, h2) = >>=-eq-ok (of_type (segment_type elf.buffer) 2 headers) _ h1 in
      elim (Bool-cases (t == 2)) [
        | inr n ↦
            let same : found ≡ segments = same_list found segments (rw n at h2) in
            other_segment t e1 (ground arith) (
              in_segments headers found entries e2
                (subst (λ x. dyn_entries_in tag elf x ≡ ok entries) (sym same) k))
        | inl y ↦
            let same : p ∷ found ≡ segments = same_list (p ∷ found) segments (rw y at h2) in
            let two : t ≡ 2 = ground arith in
            let k1 : dyn_entries_in tag elf (p ∷ found) ≡ ok entries =
              subst (λ x. dyn_entries_in tag elf x ≡ ok entries) (sym same) k in
            let (at, e3, k2) = >>=-eq-ok (segment_offset elf.buffer p) _ k1 in
            let (first, e4, k3) =
              >>=-eq-ok
                (dyn_entries_from elf.buffer tag (suc (length elf.buffer)) (is_64_bits elf) at) _
                k2 in
            let (more, e5, k4) = >>=-eq-ok (dyn_entries_in tag elf found) _ k3 in
            subst (DynamicEntries elf.buffer tag (is_64_bits elf) (p ∷ headers))
              (same_list (first ++ more) entries k4)
              (dynamic_segment at (e1 ∙ ap ok two) e3 (walked at first e4)
                (in_segments headers found more e2 e5))
      ]

  from_entries :
      (headers entries : List Poly)
      → DynamicEntries elf.buffer tag (is_64_bits elf) headers entries
      → (segments : List Poly) × (of_type (segment_type elf.buffer) 2 headers ≡ ok segments)
        × (dyn_entries_in tag elf segments ≡ ok entries)
  unfolding of_type dyn_entries_in
  from_entries _ _ no_segment = ([], refl, refl)
  from_entries _ _ (other_segment {segment} {segments} {entries} t e ne d) =
      let (found, p, q) = from_entries segments entries d in
      let other : (t == 2) ≡ false = ground arith in (found, rw (e, ◌>>=◌, p, other) refl, q)
  from_entries _ _ (dynamic_segment {segment} {segments} {found} {entries} at e f walk d) =
      let (rest, p, q) = from_entries segments entries d in
      (
        segment ∷ rest,
        rw (e, ◌>>=◌, p) refl,
        rw
            (
              f,
              Walk-returns elf.buffer tag (is_64_bits elf) (suc (length elf.buffer)) at found walk
                  (omega arith),
              q,
            )
            refl,
      )

  Entries-returns :
      (entries : List Poly) → Entries elf tag entries → dyn_entries_with_tag tag elf ≡ ok entries
  unfolding dyn_entries_with_tag segments_of_type
  Entries-returns entries d =
      let (segments, p, q) = from_entries elf.program_headers entries d in rw p q

  returns-Entries :
      (entries : List Poly) → dyn_entries_with_tag tag elf ≡ ok entries → Entries elf tag entries
  unfolding dyn_entries_with_tag segments_of_type
  returns-Entries entries h =
      let (segments, p, q) =
        >>=-eq-ok (of_type (segment_type elf.buffer) 2 elf.program_headers) _ h in
      in_segments elf.program_headers segments entries p q

  of_type-IsRead : (headers : List Poly) → IsRead (of_type (segment_type elf.buffer) 2 headers)
  unfolding of_type
  of_type-IsRead [] = inl ([], refl)
  of_type-IsRead (p ∷ headers) =
      >>=-IsRead (segment_type elf.buffer p) _ (field-IsRead 0 4 0 4 elf.buffer p) (λ t.
        >>=-IsRead (of_type (segment_type elf.buffer) 2 headers) _ (of_type-IsRead headers)
          (λ found. inl (_, refl)))

  loop-IsRead :
      (at : ℕ)
      → IsRead (dyn_entries_from elf.buffer tag (suc (length elf.buffer)) (is_64_bits elf) at)
  loop-IsRead at =
      elim (dyn_entries_from-Walks elf.buffer tag (is_64_bits elf) (suc (length elf.buffer)) at
        (omega arith)) [ inl (entries, walk, q) ↦ inl (entries, q) | inr (off, q) ↦ inr q ]

  dyn_entries_in-IsRead : (segments : List Poly) → IsRead (dyn_entries_in tag elf segments)
  unfolding dyn_entries_in
  dyn_entries_in-IsRead [] = inl ([], refl)
  dyn_entries_in-IsRead (p ∷ segments) =
      >>=-IsRead (segment_offset elf.buffer p) _ (field-IsRead 4 4 8 8 elf.buffer p) (λ at.
        >>=-IsRead (dyn_entries_from elf.buffer tag (suc (length elf.buffer)) (is_64_bits elf) at) _
          (loop-IsRead at)
          (λ found.
            >>=-IsRead (dyn_entries_in tag elf segments) _ (dyn_entries_in-IsRead segments)
              (λ more. inl (_, refl))))

  dyn_entries_with_tag-IsRead : IsRead (dyn_entries_with_tag tag elf)
  unfolding dyn_entries_with_tag segments_of_type
  dyn_entries_with_tag-IsRead =
      >>=-IsRead (of_type (segment_type elf.buffer) 2 elf.program_headers) _
        (of_type-IsRead elf.program_headers) dyn_entries_in-IsRead

  one : (entries : List Poly) (entry : Poly) → the_only entries ≡ ok entry → entries ≡ entry ∷ []
  unfolding the_only
  one [] entry h = cc
  one (x ∷ []) entry h = cc
  one (x ∷ y ∷ rest) entry h = cc

  not_one : (entries : List Poly) (e : Error) → the_only entries ≡ err e → length entries ≢ 1
  unfolding the_only
  not_one [] e h = omega arith
  not_one (x ∷ []) e h = let clash : ok x ≡ err e = h in absurd (cc)
  not_one (x ∷ y ∷ rest) e h = omega arith

  refuses : (entries : List Poly) → length entries ≢ 1 → (e : Error) × (the_only entries ≡ err e)
  unfolding the_only
  refuses [] h = (_, refl)
  refuses (x ∷ []) h = absurd (h refl)
  refuses (x ∷ y ∷ rest) h = (_, refl)

  -- dynEntryWithTag returns the only entry with the tag, and an error where there is none or more.
  pub HasTag-returns : (entry : Poly) → HasTag elf tag entry → dyn_entry_with_tag tag elf ≡ ok entry
  unfolding dyn_entry_with_tag the_only
  HasTag-returns entry d = rw (Entries-returns (entry ∷ []) d) refl

  pub returns-HasTag : (entry : Poly) → dyn_entry_with_tag tag elf ≡ ok entry → HasTag elf tag entry
  unfolding dyn_entry_with_tag
  returns-HasTag entry h =
      let (entries, p, q) = >>=-eq-ok (dyn_entries_with_tag tag elf) _ h in
      returns-Entries (entry ∷ []) (p ∙ ap ok (one entries entry q))

  pub LacksTag-refuses : LacksTag elf tag → (e : Error) × (dyn_entry_with_tag tag elf ≡ err e)
  unfolding dyn_entry_with_tag
  LacksTag-refuses (entries, d, ne) =
      let (e, q) = refuses entries ne in (e, rw (Entries-returns entries d) q)

  pub refuses-LacksTag : (e : Error) → dyn_entry_with_tag tag elf ≡ err e → LacksTag elf tag
  unfolding dyn_entry_with_tag
  refuses-LacksTag e h = elim dyn_entries_with_tag-IsRead [
    | inl (entries, q) ↦ (
      entries,
      returns-Entries entries q,
      not_one entries e (ap (λ o. o >>= the_only) (sym q) ∙ h),
    )
    | inr q ↦ let clash : undefined ≡ err e = ap (λ o. o >>= the_only) (sym q) ∙ h in absurd (cc)
  ]
