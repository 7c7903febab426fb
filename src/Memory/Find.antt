-- ===== src/Memory/Find.antt =====
-- alignedBase, findFreeBlock, findFreeAddr and blockFromVAddr of source/DasHLE/Host/Memory.cpp.
pub mod Fit
pub mod BestFit
use das_hle.Base.{
  ℕ, leb, ◌==◌, if◌then◌else◌, List, [], ◌∷◌, some, none, Outcome, ok, err, ◌>>=◌, assert_ok,
  no_virtual_memory, not_found,
}
use das_hle.Word.{sub64}
use das_hle.Align.{align_down, align_up}
use das_hle.SortedSet.{lower_bound, find}
use das_hle.Memory.{AllocatedBlock, FreeBlock, MemoryManager, allocated_less, free_less}

unfoldable pub aligned_base : ℕ → ℕ → Outcome ℕ
aligned_base base alignment = do
  aligned_down ← align_down base alignment
  if aligned_down == base then ok aligned_down else assert_ok (align_up base alignment)

-- The do loop over the free blocks from `it` on.
unfoldable pub first_fit : ℕ → ℕ → List FreeBlock → Outcome FreeBlock
first_fit requested alignment [] = err no_virtual_memory
first_fit requested alignment (b ∷ bs) = do
  aligned_addr ← assert_ok (aligned_base b.virtual_base alignment)
  let aval_size = sub64 b.size (sub64 aligned_addr b.virtual_base)
  if leb requested aval_size then ok b else first_fit requested alignment bs

unfoldable pub find_free_block_from : ℕ → ℕ → List FreeBlock → Outcome FreeBlock
find_free_block_from requested alignment [] = err no_virtual_memory
find_free_block_from requested alignment (b ∷ bs) =
    if alignment == 0 then ok b else first_fit requested alignment (b ∷ bs)

unfoldable pub find_free_block : List FreeBlock → ℕ → ℕ → Outcome FreeBlock
unfolding find_free_block_from
find_free_block free_blocks requested alignment =
    find_free_block_from requested alignment
      (lower_bound free_less (record { virtual_base = 0; size = requested }) free_blocks)

-- The lambda of findFreeAddr, which allocate() repeats: where the allocation starts in the block.
unfoldable pub start_in : ℕ → FreeBlock → Outcome ℕ
start_in alignment b =
    if alignment == 0 then ok b.virtual_base else assert_ok (aligned_base b.virtual_base alignment)

unfoldable pub find_free_addr : {H : Type 0} → ℕ → ℕ → MemoryManager H → Outcome ℕ
find_free_addr size alignment m = do
  it ← find_free_block m.free_blocks size alignment
  start_in alignment it

-- `{ .virtualBase = vaddr }`, the key of a search by address.
abbrev pub address_key : ℕ → AllocatedBlock
address_key vaddr = record { host_base = 0; virtual_base = vaddr; size = 0; flags = 0 }

unfoldable pub block_from_vaddr : {H : Type 0} → ℕ → MemoryManager H → Outcome AllocatedBlock
block_from_vaddr vaddr m = elim (find allocated_less (address_key vaddr) m.allocated_blocks) [
  | none ↦ err not_found
  | some block ↦ ok block
]
