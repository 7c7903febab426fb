-- ===== src/Memory/Layout/Lookup.antt =====
-- Searching the allocated blocks by an address.
use native.Mathlib.Decide.{dec_lt, dec_le}
use das_hle.Base.{
  ℕ, ◌+◌, ◌≤◌, ◌<◌, ◌≡◌, refl, ◌∙◌, sym, ap, List, [], ◌∷◌, In, ◌⊎◌, inl, inr, arith, Option, some,
  none,
}
use das_hle.Word.{word, add64_lem}
use das_hle.SortedSet.{find}
use das_hle.Memory.{AllocatedBlock, FreeBlock, allocated_less}
use das_hle.Memory.Find.{address_key}
use das_hle.Memory.Layout.{IsSpaced, gaps}
use das_hle.Memory.Layout.Gaps.{spaced-le, In-put_gap, gaps_bounds}
use das_hle.Memory.Layout.Join.{block_bounds}

-- The address lies in the block.
abbrev pub Contains : AllocatedBlock → ℕ → Type 0
Contains b v = (b.virtual_base ≤ v) × (v < b.virtual_base + b.size)

abbrev pub Misses : AllocatedBlock → ℕ → Type 0
Misses b v = (v < b.virtual_base) ⊎ (b.virtual_base + b.size ≤ v)

-- The search meets the first block that does not end at or before the address.
find_past :
    (v : ℕ) (b : AllocatedBlock) (bs : List AllocatedBlock)
    → 0 < b.size
    → b.virtual_base + b.size < word
    → b.virtual_base + b.size ≤ v
    → find allocated_less (address_key v) (b ∷ bs) ≡ find allocated_less (address_key v) bs
unfolding find allocated_less
find_past v b bs pos fits past = ground (arith, add64_lem b.virtual_base b.size)

find_at :
    (v : ℕ) (b : AllocatedBlock) (bs : List AllocatedBlock)
    → 0 < b.size
    → b.virtual_base + b.size < word
    → Contains b v
    → find allocated_less (address_key v) (b ∷ bs) ≡ some b
unfolding find allocated_less
find_at v b bs pos fits c = ground (arith, add64_lem b.virtual_base b.size)

find_short :
    (v : ℕ) (b : AllocatedBlock) (bs : List AllocatedBlock)
    → 0 < b.size
    → b.virtual_base + b.size < word
    → v < b.virtual_base
    → find allocated_less (address_key v) (b ∷ bs) ≡ none
unfolding find allocated_less
find_short v b bs pos fits c = ground (arith, add64_lem b.virtual_base b.size)

abbrev pub Found : ℕ → List AllocatedBlock → Option AllocatedBlock → Type 0
Found v bs r =
    ((b : AllocatedBlock) × (r ≡ some b) × In b bs × Contains b v)
    ⊎ ((r ≡ none) × ((b : AllocatedBlock) → In b bs → Misses b v))

pub find-Found :
    (v start : ℕ) (bs : List AllocatedBlock) (end : ℕ)
    → end < word
    → IsSpaced start bs end
    → Found v bs (find allocated_less (address_key v) bs)
find-Found v start [] end w s = inr (unfold find in refl, λ b h. elim h [ ])
find-Found v start (b ∷ bs) end w s =
    let fits : b.virtual_base + b.size < word =
      omega (arith, spaced-le (b.virtual_base + b.size) bs end s.2) in
    elim (dec_le (b.virtual_base + b.size) v) [
      | yes past ↦
          rw (find_past v b bs s.1 fits past)
            (elim (find-Found v (b.virtual_base + b.size) bs end w s.2) [
              | inl (c, e, h, k) ↦ inl (c, e, inr h, k)
              | inr (e, h) ↦ inr (e, λ c i. elim i [ inl p ↦ rw p (inr past) | inr k ↦ h c k ])
            ])
      | no not_past ↦ elim (dec_lt v b.virtual_base) [
        | yes short ↦
            rw (find_short v b bs s.1 fits short)
              (inr (refl, λ c i. inl (omega (arith, first-le c b bs end s.2 i))))
        | no not_short ↦ inl (
          b,
          find_at v b bs s.1 fits (omega arith, omega arith),
          inl refl,
          (omega arith, omega arith),
        )
      ]
    ]
  where
    first-le :
        (c b : AllocatedBlock) (bs : List AllocatedBlock) (end : ℕ)
        → IsSpaced (b.virtual_base + b.size) bs end
        → In c (b ∷ bs)
        → b.virtual_base ≤ c.virtual_base
    first-le c b bs end s (inl e) = rw e (omega arith)
    first-le c b bs end s (inr h) =
        omega (arith, block_bounds c (b.virtual_base + b.size) bs end s h)

-- No two blocks share an address.
pub Contains-unique :
    (a b : AllocatedBlock) (v start : ℕ) (bs : List AllocatedBlock) (end : ℕ)
    → IsSpaced start bs end
    → In a bs
    → In b bs
    → Contains a v
    → Contains b v
    → a ≡ b
Contains-unique a b v start [] end s i j c d = elim i [ ]
Contains-unique a b v start (x ∷ xs) end s (inl p) (inl q) c d = p ∙ sym q
Contains-unique a b v start (x ∷ xs) end s (inl p) (inr j) c d = absurd (
    omega (
      arith,
      block_bounds b (x.virtual_base + x.size) xs end s.2 j,
      ap (λ (y : AllocatedBlock). y.virtual_base) p,
      ap (λ (y : AllocatedBlock). y.size) p,
    ))
Contains-unique a b v start (x ∷ xs) end s (inr i) (inl q) c d = absurd (
    omega (
      arith,
      block_bounds a (x.virtual_base + x.size) xs end s.2 i,
      ap (λ (y : AllocatedBlock). y.virtual_base) q,
      ap (λ (y : AllocatedBlock). y.size) q,
    ))
Contains-unique a b v start (x ∷ xs) end s (inr i) (inr j) c d =
    Contains-unique a b v (x.virtual_base + x.size) xs end s.2 i j c d

-- The search finds every block that contains the address.
pub find_of_In :
    (b : AllocatedBlock) (v start : ℕ) (bs : List AllocatedBlock) (end : ℕ)
    → end < word
    → IsSpaced start bs end
    → In b bs
    → Contains b v
    → find allocated_less (address_key v) bs ≡ some b
find_of_In b v start bs end w s i c = elim (find-Found v start bs end w s) [
  | inl (a, e, j, d) ↦ e ∙ ap some (Contains-unique a b v start bs end s j i d c)
  | inr (e, h) ↦ absurd (omega (arith, h b i))
]

-- Between two gaps stands an allocated block.
pub gaps_apart :
    (x y : FreeBlock) (start : ℕ) (bs : List AllocatedBlock) (end : ℕ)
    → IsSpaced start bs end
    → In x (gaps start bs end)
    → In y (gaps start bs end)
    → (x ≡ y)
      ⊎ (x.virtual_base + x.size < y.virtual_base)
      ⊎ (y.virtual_base + y.size < x.virtual_base)
unfolding gaps
gaps_apart x y start [] end s i j = elim (In-put_gap x start end [] i) [
  | inl (_, p) ↦ elim (In-put_gap y start end [] j) [
    | inl (_, q) ↦ inl (p ∙ sym q)
    | inr k ↦ elim k [ ]
  ]
  | inr k ↦ elim k [ ]
]
gaps_apart x y start (b ∷ bs) end s i j = elim (In-put_gap x start b.virtual_base _ i) [
  | inl (ne, p) ↦ elim (In-put_gap y start b.virtual_base _ j) [
    | inl (_, q) ↦ inl (p ∙ sym q)
    | inr k ↦
        rw p (
          inr (inl (omega (arith, s.0, s.1, gaps_bounds y (b.virtual_base + b.size) bs end s.2 k))))
  ]
  | inr h ↦ elim (In-put_gap y start b.virtual_base _ j) [
    | inl (ne, q) ↦
        rw q (
          inr (inr (omega (arith, s.0, s.1, gaps_bounds x (b.virtual_base + b.size) bs end s.2 h))))
    | inr k ↦ gaps_apart x y (b.virtual_base + b.size) bs end s.2 h k
  ]
]
