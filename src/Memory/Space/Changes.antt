-- ===== src/Memory/Space/Changes.antt =====
-- How the changes of a set of blocks change the address space.
use das_hle.Base.{
  ℕ, ◌+◌, ◌<◌, ◌≡◌, refl, subst, inl, inr, true, Bool-cases, List, [], ◌∷◌, none, some, In, arith,
}
use das_hle.SortedSet.{erase, replace, equivalent}
use das_hle.Memory.{AllocatedBlock, allocated_less}
use das_hle.Memory.Layout.{IsSpaced}
use das_hle.Memory.Layout.Gaps.{erase_first, erase_later}
use das_hle.Memory.Layout.Join.{block_bounds, equivalent_self, equivalent_behind}
use das_hle.Memory.Space.{covers, map_block, unmap_block, space_of}

pub space_of-below :
    (start x end : ℕ) (bs : List AllocatedBlock)
    → IsSpaced start bs end
    → x < start
    → space_of bs x ≡ none
space_of-below start x end [] s h = refl
space_of-below start x end (b ∷ bs) s h =
    ground (arith, space_of-below (b.virtual_base + b.size) x end bs s.2)

-- Two blocks of a spaced list share no address.
pub space_of-In :
    (b : AllocatedBlock) (start x end : ℕ) (bs : List AllocatedBlock)
    → IsSpaced start bs end
    → In b bs
    → covers b x ≡ true
    → space_of bs x ≡ some b
space_of-In b start x end [] s i h = elim i [ ]
space_of-In b start x end (c ∷ bs) s (inl e) h = ground arith
space_of-In b start x end (c ∷ bs) s (inr i) h = ground (
  arith,
  block_bounds b (c.virtual_base + c.size) bs end s.2 i,
  space_of-In b (c.virtual_base + c.size) x end bs s.2 i,
)

-- A block that the address space shows is one of the list, at its own address.
pub space_of-some :
    (b : AllocatedBlock) (x : ℕ) (bs : List AllocatedBlock)
    → space_of bs x ≡ some b
    → In b bs × (covers b x ≡ true)
space_of-some b x [] h = cc
space_of-some b x (c ∷ bs) h = elim (Bool-cases (covers c x)) [
  | inl p ↦ let same : some c ≡ some b = ground arith in let e : b ≡ c = cc in (inl e, rw e p)
  | inr p ↦
      let later : space_of bs x ≡ some b = ground arith in
      let (i, q) = space_of-some b x bs later in (inr i, q)
]

pub space_of-erase :
    (n : AllocatedBlock) (start end : ℕ) (bs : List AllocatedBlock)
    → IsSpaced start bs end
    → In n bs
    → (x : ℕ) → space_of (erase allocated_less n bs) x ≡ unmap_block n (space_of bs) x
space_of-erase n start end [] s i x = elim i [ ]
space_of-erase n start end (b ∷ bs) s (inl e) x =
    rw e (
      rw (erase_first b bs) (ground (arith, space_of-below (b.virtual_base + b.size) x end bs s.2)))
space_of-erase n start end (b ∷ bs) s (inr i) x =
    let bounds = block_bounds n (b.virtual_base + b.size) bs end s.2 i in
    rw (erase_later n b bs bounds.1 s.1 (omega (arith, bounds, s)))
      (ground (arith, bounds, space_of-erase n (b.virtual_base + b.size) end bs s.2 i x))

-- A block whose flags are written keeps its addresses.
pub space_of-replace :
    (b n : AllocatedBlock) (start end : ℕ) (bs : List AllocatedBlock)
    → n.virtual_base ≡ b.virtual_base
    → n.size ≡ b.size
    → IsSpaced start bs end
    → In b bs
    → (x : ℕ) → space_of (replace allocated_less b n bs) x ≡ map_block n (space_of bs) x
unfolding replace
space_of-replace b n start end [] e f s i x = elim i [ ]
space_of-replace b n start end (c ∷ bs) e f s (inl q) x =
    let same : equivalent allocated_less b c ≡ true =
      subst (λ y. equivalent allocated_less b y ≡ true) q (equivalent_self b) in
    rw same (ground arith)
space_of-replace b n start end (c ∷ bs) e f s (inr i) x =
    let bounds = block_bounds b (c.virtual_base + c.size) bs end s.2 i in
    rw (equivalent_behind b c bounds.1 s.1 (omega (arith, bounds, s)))
      (ground (arith, bounds, space_of-replace b n (c.virtual_base + c.size) end bs e f s.2 i x))
