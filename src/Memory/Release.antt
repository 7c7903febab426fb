-- ===== src/Memory/Release.antt =====
-- MemoryManager::free of source/DasHLE/Host/Memory.cpp.
pub mod Merging
pub mod Laws
use das_hle.Base.{
  ℕ, Bool, true, not, ◌==◌, if◌then◌else◌, List, Option, some, none, Outcome, ok, err, abort, ◌>>=◌,
  not_found,
}
use das_hle.Word.{add64, sub64}
use das_hle.SortedSet.{find, insert, erase, prev, next}
use das_hle.Memory.{
  AllocatedBlock, FreeBlock, HostAllocator, MemoryManager, allocated_less, free_less,
}
use das_hle.Memory.Find.{address_key}

-- `newFreeBlock` and the free blocks, as the lambda handleBlock changes them.
pub record Merge : Type 0 where
  pub new_block : FreeBlock
  pub free_blocks : List FreeBlock

unfoldable pub handle_block : FreeBlock → Bool → Merge → Outcome Merge
handle_block block is_prev s = elim (find free_less block s.free_blocks) [
  | none ↦ abort
  | some it ↦ ok (record {
    new_block = record {
      virtual_base = if is_prev then it.virtual_base else s.new_block.virtual_base;
      size = add64 s.new_block.size it.size;
    };
    free_blocks = erase free_less it s.free_blocks;
  })
]

-- "Handle merging with previous": the free block between `start` and the block, if there is room.
unfoldable pub merge_prev : ℕ → AllocatedBlock → Merge → Outcome Merge
unfolding handle_block
merge_prev start it s =
    if not (start == it.virtual_base)
    then handle_block (record { virtual_base = start; size = sub64 it.virtual_base start }) true s
    else ok s

unfoldable pub merge_next : ℕ → AllocatedBlock → Merge → Outcome Merge
unfolding handle_block
merge_next end it s =
    if not (add64 it.virtual_base it.size == end)
    then handle_block
        (record {
          virtual_base = add64 it.virtual_base it.size;
          size = sub64 end (add64 it.virtual_base it.size);
        })
        Bool.false s
    else ok s

-- The end of the previous allocated block, or the start of the address space.
unfoldable pub prev_end : Option AllocatedBlock → ℕ
prev_end none = 0
prev_end (some p) = add64 p.virtual_base p.size

-- The start of the next allocated block, or the end of the address space.
unfoldable pub next_start : ℕ → Option AllocatedBlock → ℕ
next_start max_memory none = max_memory
next_start max_memory (some n) = n.virtual_base

-- The block to free and the merge of its neighbours.
unfoldable pub merge : {H : Type 0} → AllocatedBlock → MemoryManager H → Outcome Merge
unfolding merge_prev merge_next prev_end next_start
merge it m = do
  s ← merge_prev (prev_end (prev allocated_less it m.allocated_blocks)) it (record {
    new_block = record { virtual_base = it.virtual_base; size = it.size };
    free_blocks = m.free_blocks;
  })
  merge_next (next_start m.max_memory (next allocated_less it m.allocated_blocks)) it s

unfoldable pub block_at : {H : Type 0} → ℕ → MemoryManager H → Outcome AllocatedBlock
block_at vbase m = elim (find allocated_less (address_key vbase) m.allocated_blocks) [
  | none ↦ err not_found
  | some it ↦ if it.virtual_base == vbase then ok it else err not_found
]

module _ {H : Type 0} (host_allocator : HostAllocator H) where
  -- "Free host space and add new free block".
  unfoldable pub free_block : AllocatedBlock → Merge → MemoryManager H → MemoryManager H
  free_block it s m =
      let r = host_allocator.free it m.host in
      record m {
        host = r.1;
        allocated_blocks = erase allocated_less it m.allocated_blocks;
        free_blocks = insert free_less s.new_block s.free_blocks;
        used_memory = sub64 m.used_memory r.0.size;
      }

  unfoldable pub free : ℕ → MemoryManager H → Outcome (Unit {0}) × MemoryManager H
  unfolding block_at merge free_block
  free vbase m = elim (block_at vbase m) [
    | ok it ↦ elim (merge it m) [
      | ok s ↦ (ok tt, free_block it s m)
      | err e ↦ (err e, m)
      | abort ↦ (abort, m)
      | Outcome.undefined ↦ (Outcome.undefined, m)
    ]
    | err e ↦ (err e, m)
    | abort ↦ (abort, m)
    | Outcome.undefined ↦ (Outcome.undefined, m)
  ]
