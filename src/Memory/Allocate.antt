-- ===== src/Memory/Allocate.antt =====
-- MemoryManager::allocate and hostAlloc of source/DasHLE/Host/Memory.cpp.
pub mod Commit
pub mod Checks
pub mod Placement
pub mod Laws
pub mod Returned
pub mod Succeeds
pub mod LooseHint
use das_hle.Base.{
  ℕ, Bool, true, false, not, ltb, leb, ◌==◌, ◌&&◌, if◌then◌else◌, List, [], ◌∷◌, Option, some, none,
  Outcome, ok, err, abort, ◌>>=◌, ◌>>◌, assert_ok, fail_if, bit_and, invalid_size,
  invalid_alignment, invalid_address, no_virtual_memory, no_host_memory,
}
use das_hle.Word.{add64, sub64}
use das_hle.Align.{is_power_of_two, align_down, align_up}
use das_hle.SortedSet.{insert, inserts, erase}
use das_hle.Memory.{
  AllocatedBlock, FreeBlock, AllocArgs, HostAllocator, MemoryManager, allocated_less, free_less,
  available_memory, has_flag, force_hint, perm_mask,
}
use das_hle.Memory.Find.{find_free_block, start_in}

-- "If we have alignment then size must be aligned too."
unfoldable pub check_size : AllocArgs → Outcome (Unit {0})
check_size args = if args.alignment == 0 then ok tt else do
  aligned_size ← assert_ok (align_down args.size args.alignment)
  fail_if (not (aligned_size == args.size)) invalid_size

-- "If we have an enforced hint and alignment, make sure the hint is aligned": the alignment that
-- is left for the search.
unfoldable pub check_hint : AllocArgs → Outcome ℕ
check_hint args = elim args.hint [
  | none ↦ ok args.alignment
  | some hint ↦
      if not (args.alignment == 0) && has_flag args.flags force_hint
      then (do
        aligned_addr ← assert_ok (align_down hint args.alignment)
        fail_if (not (hint == aligned_addr)) invalid_address
        ok 0)
      else ok args.alignment
]

-- The checks of the arguments, in their order.
unfoldable pub check_args : {H : Type 0} → AllocArgs → MemoryManager H → Outcome ℕ
check_args args m = do
  fail_if (args.size == 0) invalid_size
  fail_if (ltb (available_memory m) args.size) no_virtual_memory
  fail_if (not (args.alignment == 0) && not (is_power_of_two args.alignment)) invalid_alignment
  check_size args
  check_hint args

-- "Find a block that contains our hint": the first in the order of the set, its end included.
unfoldable pub block_at_hint : ℕ → List FreeBlock → Option FreeBlock
block_at_hint hint [] = none
block_at_hint hint (b ∷ bs) =
    if leb b.virtual_base hint && leb hint (add64 b.virtual_base b.size)
    then some b
    else block_at_hint hint bs

-- "Handle alignment and make sure that we have enough space"; `none` where `it` becomes end().
unfoldable pub place_aligned : ℕ → ℕ → FreeBlock → Outcome (Option ℕ)
place_aligned hint alignment b = do
  aligned_down_addr ← assert_ok (align_down hint alignment)
  if ltb aligned_down_addr b.virtual_base
      then (do
        aligned_up_addr ← assert_ok (align_up hint alignment)
        ok (
            if ltb (add64 b.virtual_base b.size) aligned_up_addr
            then none
            else some aligned_up_addr))
      else ok (some aligned_down_addr)

unfoldable pub place_exact : ℕ → AllocArgs → FreeBlock → Option ℕ
place_exact hint args b =
    if ltb (sub64 (add64 b.virtual_base b.size) hint) args.size
    then if has_flag args.flags force_hint then none else some b.virtual_base
    else some hint

unfoldable pub place_at_hint : ℕ → ℕ → AllocArgs → FreeBlock → Outcome (Option ℕ)
place_at_hint hint alignment args b =
    if alignment == 0 then ok (place_exact hint args b) else place_aligned hint alignment b

-- "Handle the general case".
unfoldable pub place_anywhere : List FreeBlock → ℕ → ℕ → Outcome (FreeBlock × ℕ)
place_anywhere free_blocks size alignment = do
  it ← find_free_block free_blocks size alignment
  base ← start_in alignment it
  ok (it, base)

-- Where the hint gives no place: fail if it was enforced, else allocate anywhere.
unfoldable pub hint_missed : List FreeBlock → ℕ → AllocArgs → Outcome (FreeBlock × ℕ)
hint_missed free_blocks alignment args =
    if has_flag args.flags force_hint
    then err no_virtual_memory
    else place_anywhere free_blocks args.size alignment

-- The free block that is split (`allocIt`) and the address of the allocation (`allocBase`).
unfoldable pub place : List FreeBlock → ℕ → AllocArgs → Outcome (FreeBlock × ℕ)
place free_blocks alignment args = elim args.hint [
  | none ↦ place_anywhere free_blocks args.size alignment
  | some hint ↦ elim (block_at_hint hint free_blocks) [
    | none ↦ hint_missed free_blocks alignment args
    | some b ↦ do
      base ← place_at_hint hint alignment args b
      elim base [ none ↦ hint_missed free_blocks alignment args | some addr ↦ ok (b, addr) ]
  ]
]

-- A part of the split block goes into the set if it is not empty.
unfoldable pub insert_part : FreeBlock → List FreeBlock → List FreeBlock
insert_part part free_blocks =
    if part.size == 0 then free_blocks else insert free_less part free_blocks

-- "Split free block" and "Add the new allocated block".
unfoldable pub commit :
    {H : Type 0}
    → FreeBlock
    → AllocatedBlock
    → MemoryManager H
    → Outcome AllocatedBlock × MemoryManager H
commit free_block block m =
    let first : FreeBlock = record {
      virtual_base = free_block.virtual_base;
      size = sub64 block.virtual_base free_block.virtual_base;
    } in
    let last : FreeBlock = record {
      virtual_base = add64 block.virtual_base block.size;
      size =
          sub64 (add64 free_block.virtual_base free_block.size)
            (add64 block.virtual_base block.size);
    } in
    (
      if inserts allocated_less block m.allocated_blocks then ok block else abort,
      record m {
        allocated_blocks = insert allocated_less block m.allocated_blocks;
        free_blocks = insert_part last (insert_part first m.free_blocks);
        used_memory = add64 m.used_memory block.size;
      },
    )

module _ {H : Type 0} (host_allocator : HostAllocator H) where
  -- hostAlloc: "Allocators shall not modify block values", but for the host base.
  unfoldable pub host_alloc : AllocatedBlock → H → Outcome (Bool × AllocatedBlock) × H
  host_alloc block h =
      let r = host_allocator.alloc block h in
      let kept =
        (r.1.virtual_base == block.virtual_base)
        && (r.1.size == block.size)
        && (r.1.flags == block.flags) in
      (if kept then ok (r.0, r.1) else abort, r.2)

  -- From extract(allocIt) on. A failed host allocation puts the free block back.
  unfoldable pub allocate_in :
      AllocArgs → FreeBlock → ℕ → MemoryManager H → Outcome AllocatedBlock × MemoryManager H
  allocate_in args free_block base m =
      let block : AllocatedBlock = record {
        host_base = 0;
        virtual_base = base;
        size = args.size;
        flags = bit_and args.flags perm_mask;
      } in
      let taken = erase free_less free_block m.free_blocks in
      let r = host_alloc block m.host in
      elim r.0 [
        | ok (true, filled) ↦
            commit free_block filled (record m { host = r.1; free_blocks = taken })
        | ok (false, _) ↦ (
          err no_host_memory,
          record m { host = r.1; free_blocks = insert free_less free_block taken },
        )
        | err e ↦ (err e, record m { host = r.1; free_blocks = taken })
        | abort ↦ (abort, record m { host = r.1; free_blocks = taken })
        | Outcome.undefined ↦ (abort, record m { host = r.1; free_blocks = taken })
      ]

  unfoldable pub allocate : AllocArgs → MemoryManager H → Outcome AllocatedBlock × MemoryManager H
  allocate args m =
      let target = do alignment ← check_args args m; place m.free_blocks alignment args
      in elim target [
        | ok (free_block, base) ↦ allocate_in args free_block base m
        | err e ↦ (err e, m)
        | abort ↦ (abort, m)
        | Outcome.undefined ↦ (Outcome.undefined, m)
      ]
