-- ===== src/Memory/Manager.antt =====
-- The construction, reset and flags of MemoryManager, and virtualToHost, of
-- source/DasHLE/Host/Memory.cpp and source/DasHLE/Host/Memory.h.
pub mod Laws
pub mod Flags
use das_hle.Base.{
  ℕ, Bool, true, false, ◌==◌, leb, ◌&&◌, if◌then◌else◌, List, [], ◌∷◌, Option, some, none, Outcome,
  ok, err, abort, invalid_address,
}
use das_hle.Word.{add64, sub64}
use das_hle.SortedSet.{insert, inserts, replace}
use das_hle.Memory.{
  AllocatedBlock, FreeBlock, HostAllocator, MemoryManager, allocated_less, free_less,
}
use das_hle.Memory.Find.{block_from_vaddr}

-- HostAllocator::alloc and free as the class implements them, over malloc and free.
module _ {H : Type 0} (malloc : ℕ → H → Option ℕ × H) (release : ℕ → H → H) where
  default_alloc : AllocatedBlock → H → Bool × AllocatedBlock × H
  default_alloc block h =
      let r = malloc block.size h in
      elim r.0 [
        | none ↦ (false, block, r.1)
        | some addr ↦ (true, record block { host_base = addr }, r.1)
      ]

  default_free : AllocatedBlock → H → AllocatedBlock × H
  default_free block h = (record block { host_base = 0 }, release block.host_base h)

  unfoldable pub default_allocator : HostAllocator H
  unfolding default_alloc default_free
  default_allocator = record {
    initialize = λ h. (true, h);
    finalize = λ h. h;
    alloc = default_alloc;
    free = default_free;
  }

-- setFlags: the old flags.
unfoldable pub set_flags : {H : Type 0} → ℕ → ℕ → MemoryManager H → Outcome ℕ × MemoryManager H
set_flags vbase flags m = elim (block_from_vaddr vbase m) [
  | ok block ↦
      if block.virtual_base == vbase
      then (
        ok block.flags,
        record m {
          allocated_blocks =
              replace allocated_less block (record block { flags = flags }) m.allocated_blocks;
        },
      )
      else (err invalid_address, m)
  | err e ↦ (err e, m)
  | abort ↦ (abort, m)
  | Outcome.undefined ↦ (Outcome.undefined, m)
]

unfoldable pub virtual_to_host : AllocatedBlock → ℕ → Outcome ℕ
virtual_to_host block vaddr =
    if leb block.virtual_base vaddr && leb vaddr (add64 block.virtual_base block.size)
    then ok (add64 (sub64 vaddr block.virtual_base) block.host_base)
    else err invalid_address

module _ {H : Type 0} (host_allocator : HostAllocator H) where
  unfoldable pub initialize : MemoryManager H → Outcome (Unit {0}) × MemoryManager H
  initialize m =
      let r = host_allocator.initialize m.host in
      let main : FreeBlock = record { virtual_base = 0; size = m.max_memory } in
      if r.0
      then (
        if inserts free_less main m.free_blocks then ok tt else abort,
        record m { host = r.1; free_blocks = insert free_less main m.free_blocks },
      )
      else (abort, record m { host = r.1 })

  -- "Free all allocated memory": the blocks are freed from the first on.
  unfoldable pub free_all : List AllocatedBlock → H → H
  free_all [] h = h
  free_all (b ∷ bs) h = free_all bs (host_allocator.free b h).1

  unfoldable pub finalize : MemoryManager H → MemoryManager H
  unfolding free_all
  finalize m = record m {
    host = host_allocator.finalize (free_all m.allocated_blocks m.host);
    allocated_blocks = [];
    free_blocks = [];
  }

  -- The constructor.
  unfoldable pub create : H → ℕ → Outcome (Unit {0}) × MemoryManager H
  unfolding initialize
  create h size = initialize (record {
    host = h;
    allocated_blocks = [];
    free_blocks = [];
    max_memory = size;
    used_memory = 0;
  })

  unfoldable pub reset : MemoryManager H → Outcome (Unit {0}) × MemoryManager H
  unfolding initialize finalize
  reset m = initialize (finalize m)
