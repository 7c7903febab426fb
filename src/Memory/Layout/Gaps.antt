-- ===== src/Memory/Layout/Gaps.antt =====
-- The gaps of a layout: a block put into a gap splits it, and a block taken out joins two.
use native.Mathlib.Decide.{ℕ_discrete}
use das_hle.Base.{true, ℕ, ◌+◌, ◌≤◌, ◌<◌, ◌≡◌, ◌≢◌, List, [], ◌∷◌, In, ◌⊎◌, inl, inr, arith}
use das_hle.SortedSet.{insert, inserts, erase}
use das_hle.SortedSet.Sorted.{Sorted, insert-Sorted}
use das_hle.SortedSet.Laws.{StrictOrder, insert_comm, In-insert}
use das_hle.Memory.{AllocatedBlock, FreeBlock, MemoryManager, allocated_less, free_less}
use das_hle.Memory.Layout.{IsSpaced, IsValid, gap_block, put_gap, gaps, total_size}

pub free_order : StrictOrder free_less
free_order = record {
  irreflexive = λ a. unfold free_less in ground arith;
  transitive = λ a b c h k. unfold free_less in ground arith;
  connected = λ a b h k. unfold free_less in ground arith;
}

pub put_gap_comm :
    (a b c d : ℕ) (xs : List FreeBlock)
    → put_gap a b (put_gap c d xs) ≡ put_gap c d (put_gap a b xs)
unfolding put_gap
put_gap_comm a b c d xs =
    ground (arith, insert_comm free_less free_order (gap_block a b) (gap_block c d) xs)

pub put_gap-insert_comm :
    (a b : ℕ) (g : FreeBlock) (xs : List FreeBlock)
    → put_gap a b (insert free_less g xs) ≡ insert free_less g (put_gap a b xs)
unfolding put_gap
put_gap-insert_comm a b g xs = ground (arith, insert_comm free_less free_order (gap_block a b) g xs)

pub put_gap_ne :
    (a b : ℕ) (xs : List FreeBlock) → a ≢ b → put_gap a b xs ≡ insert free_less (gap_block a b) xs
unfolding put_gap
put_gap_ne a b xs h = ground arith

pub In-put_gap :
    (g : FreeBlock) (a b : ℕ) (xs : List FreeBlock)
    → In g (put_gap a b xs)
    → ((a ≢ b) × (g ≡ gap_block a b)) ⊎ In g xs
In-put_gap g a b xs h = elim (ℕ_discrete a b) [
  | yes e ↦ inr (rw (same e) at h)
  | no ne ↦ elim (In-insert free_less g (gap_block a b) xs (rw (put_gap_ne a b xs ne) at h)) [
    | inl e ↦ inl (ne, e)
    | inr k ↦ inr k
  ]
]
  where
    same : a ≡ b → put_gap a b xs ≡ xs
    same e = unfold put_gap in ground arith

pub spaced-le :
    (start : ℕ) (bs : List AllocatedBlock) (end : ℕ) → IsSpaced start bs end → start ≤ end
spaced-le start [] end s = s
spaced-le start (b ∷ bs) end s = omega (arith, spaced-le (b.virtual_base + b.size) bs end s.2)

-- A gap is not empty and lies in the range.
pub gaps_bounds :
    (g : FreeBlock) (start : ℕ) (bs : List AllocatedBlock) (end : ℕ)
    → IsSpaced start bs end
    → In g (gaps start bs end)
    → (start ≤ g.virtual_base) × (0 < g.size) × (g.virtual_base + g.size ≤ end)
unfolding gaps
gaps_bounds g start [] end s h = elim (In-put_gap g start end [] h) [
  | inl (ne, e) ↦ rw e (omega arith)
  | inr k ↦ elim k [ ]
]
gaps_bounds g start (b ∷ bs) end s h =
    elim (In-put_gap g start b.virtual_base (gaps (b.virtual_base + b.size) bs end) h) [
      | inl (ne, e) ↦ rw e (omega (arith, spaced-le (b.virtual_base + b.size) bs end s.2))
      | inr k ↦ omega (arith, gaps_bounds g (b.virtual_base + b.size) bs end s.2 k)
    ]

-- A block in front of another goes in front of it in the set, and one behind it behind.
pub insert_before :
    (n b : AllocatedBlock) (bs : List AllocatedBlock)
    → 0 < n.size
    → 0 < b.size
    → n.virtual_base < b.virtual_base
    → insert allocated_less n (b ∷ bs) ≡ n ∷ b ∷ bs
unfolding insert allocated_less
insert_before n b bs hn hb lt = ground arith

pub insert_behind :
    (n b : AllocatedBlock) (bs : List AllocatedBlock)
    → 0 < n.size
    → 0 < b.size
    → b.virtual_base < n.virtual_base
    → insert allocated_less n (b ∷ bs) ≡ b ∷ insert allocated_less n bs
unfolding insert allocated_less
insert_behind n b bs hn hb lt = ground arith

pub inserts_before :
    (n b : AllocatedBlock) (bs : List AllocatedBlock)
    → 0 < n.size
    → 0 < b.size
    → n.virtual_base < b.virtual_base
    → inserts allocated_less n (b ∷ bs) ≡ true
unfolding inserts allocated_less
inserts_before n b bs hn hb lt = ground arith

pub inserts_behind :
    (n b : AllocatedBlock) (bs : List AllocatedBlock)
    → 0 < n.size
    → 0 < b.size
    → b.virtual_base < n.virtual_base
    → inserts allocated_less n (b ∷ bs) ≡ inserts allocated_less n bs
unfolding inserts allocated_less
inserts_behind n b bs hn hb lt = ground arith

pub put_gap_eq : (a b : ℕ) (xs : List FreeBlock) → a ≡ b → put_gap a b xs ≡ xs
unfolding put_gap
put_gap_eq a b xs e = ground arith

pub erase_first :
    (b : AllocatedBlock) (bs : List AllocatedBlock) → erase allocated_less b (b ∷ bs) ≡ bs
unfolding erase allocated_less
erase_first b bs = ground arith

pub erase_later :
    (it b : AllocatedBlock) (bs : List AllocatedBlock)
    → 0 < it.size
    → 0 < b.size
    → b.virtual_base < it.virtual_base
    → erase allocated_less it (b ∷ bs) ≡ b ∷ erase allocated_less it bs
unfolding erase allocated_less
erase_later it b bs hi hb lt = ground arith

pub total-le :
    (start : ℕ) (bs : List AllocatedBlock) (end : ℕ)
    → IsSpaced start bs end
    → start + total_size bs ≤ end
unfolding total_size
total-le start [] end s = omega arith
total-le start (b ∷ bs) end s = omega (arith, total-le (b.virtual_base + b.size) bs end s.2)

-- The allocated blocks fit the address space.
pub used-le-max : {H : Type 0} (m : MemoryManager H) → IsValid m → m.used_memory ≤ m.max_memory
used-le-max m v =
    omega (arith, total-le 0 m.allocated_blocks m.max_memory v.spaced, v.used_is_total)

put_gap-Sorted :
    (a b : ℕ) (xs : List FreeBlock) → Sorted free_less xs → Sorted free_less (put_gap a b xs)
put_gap-Sorted a b xs s = elim (ℕ_discrete a b) [
  | yes e ↦ rw (put_gap_eq a b xs e) s
  | no ne ↦ rw (put_gap_ne a b xs ne) (insert-Sorted free_less free_order (gap_block a b) xs s)
]

pub gaps-Sorted :
    (start : ℕ) (bs : List AllocatedBlock) (end : ℕ) → Sorted free_less (gaps start bs end)
unfolding gaps
gaps-Sorted start [] end = put_gap-Sorted start end [] tt
gaps-Sorted start (b ∷ bs) end =
    put_gap-Sorted start b.virtual_base _ (gaps-Sorted (b.virtual_base + b.size) bs end)
