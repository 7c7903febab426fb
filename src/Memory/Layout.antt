-- ===== src/Memory/Layout.antt =====
-- The abstract view of a MemoryManager: disjoint allocated blocks in the order of their addresses,
-- and as free blocks exactly the gaps that they leave in the address space.
pub mod Gaps
pub mod Carve
pub mod Join
pub mod Lookup
use das_hle.Base.{
  ℕ, ◌+◌, ◌-◌, ◌≤◌, ◌<◌, ◌≡◌, Bool, ◌==◌, if◌then◌else◌, List, [], ◌∷◌, arith, bit_and,
}
use das_hle.Word.{word}
use das_hle.SortedSet.{insert}
use das_hle.Memory.{AllocatedBlock, FreeBlock, MemoryManager, free_less}

-- Blocks that are not empty, one behind the other in [start, end).
abbrev pub IsSpaced : ℕ → List AllocatedBlock → ℕ → Type 0
IsSpaced start [] end = start ≤ end
IsSpaced start (b ∷ bs) end =
    (start ≤ b.virtual_base) × (0 < b.size) × IsSpaced (b.virtual_base + b.size) bs end

abbrev pub gap_block : ℕ → ℕ → FreeBlock
gap_block start end = record { virtual_base = start; size = end - start }

-- The set with the range [start, end), if that is not empty.
unfoldable pub put_gap : ℕ → ℕ → List FreeBlock → List FreeBlock
put_gap start end xs = if start == end then xs else insert free_less (gap_block start end) xs

-- The set of the gaps between the blocks in [start, end).
unfoldable pub gaps : ℕ → List AllocatedBlock → ℕ → List FreeBlock
gaps start [] end = put_gap start end []
gaps start (b ∷ bs) end = put_gap start b.virtual_base (gaps (b.virtual_base + b.size) bs end)

unfoldable pub total_size : List AllocatedBlock → ℕ
total_size [] = 0
total_size (b ∷ bs) = b.size + total_size bs

-- The invariant of MemoryManager.
pub record IsValid {H : Type 0} (m : MemoryManager H) : Type 0 where
  pub fits : m.max_memory < word
  pub spaced : IsSpaced 0 m.allocated_blocks m.max_memory
  pub free_are_gaps : m.free_blocks ≡ gaps 0 m.allocated_blocks m.max_memory
  pub used_is_total : m.used_memory ≡ total_size m.allocated_blocks
