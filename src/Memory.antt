-- ===== src/Memory.antt =====
-- The types of source/DasHLE/Host/Memory.h, and the orders of the two sets in
-- source/DasHLE/Host/Memory.cpp.
pub mod Find
pub mod Allocate
pub mod Release
pub mod Manager
pub mod Layout
pub mod RoundTrip
pub mod Trace
pub mod Space
use das_hle.Base.{
  ℕ, ◌+◌, ◌≡◌, Bool, true, ltb, leb, ◌==◌, if◌then◌else◌, not, List, [], ◌∷◌, Option, bit_and,
}
use das_hle.Word.{add64, sub64}

-- PERM_READ, PERM_WRITE, PERM_EXEC, FORCE_HINT and the masks.
abbrev pub perm_read : ℕ
perm_read = 0b0001

abbrev pub perm_write : ℕ
perm_write = 0b0010

abbrev pub perm_exec : ℕ
perm_exec = 0b0100

abbrev pub force_hint : ℕ
force_hint = 0b1000

abbrev pub perm_read_write : ℕ
perm_read_write = 0b0011

abbrev pub perm_mask : ℕ
perm_mask = 0b0111

-- `flags & mask` as a test.
unfoldable pub has_flag : ℕ → ℕ → Bool
has_flag flags mask = not (bit_and flags mask == 0)

pub record AllocatedBlock : Type 0 where
  pub host_base : ℕ
  pub virtual_base : ℕ
  pub size : ℕ
  pub flags : ℕ

pub record FreeBlock : Type 0 where
  pub virtual_base : ℕ
  pub size : ℕ

pub record AllocArgs : Type 0 where
  pub size : ℕ
  pub alignment : ℕ
  pub hint : Option ℕ
  pub flags : ℕ

-- AllocatedBlockComparator: a block of size 0 stands for an address.
unfoldable pub allocated_less : AllocatedBlock → AllocatedBlock → Bool
allocated_less a b =
    if a.size == 0
    then ltb a.virtual_base b.virtual_base
    else if b.size == 0
    then leb (add64 a.virtual_base a.size) b.virtual_base
    else ltb a.virtual_base b.virtual_base

-- FreeBlockComparator.
unfoldable pub free_less : FreeBlock → FreeBlock → Bool
free_less a b = if a.size == b.size then ltb a.virtual_base b.virtual_base else ltb a.size b.size

-- The allocator that the manager owns: a virtual class, whose `alloc` stands on malloc. Its state
-- is a type of the implementation's.
pub record HostAllocator (H : Type 0) : Type 0 where
  pub initialize : H → Bool × H
  pub finalize : H → H
  pub alloc : AllocatedBlock → H → Bool × AllocatedBlock × H
  pub free : AllocatedBlock → H → AllocatedBlock × H

-- `struct Data` is in line; `m_HostAllocator` is its state, its methods are a parameter.
pub record MemoryManager (H : Type 0) : Type 0 where
  pub host : H
  pub allocated_blocks : List AllocatedBlock
  pub free_blocks : List FreeBlock
  pub max_memory : ℕ
  pub used_memory : ℕ

unfoldable pub available_memory : {H : Type 0} → MemoryManager H → ℕ
unfolding sub64
available_memory m = sub64 m.max_memory m.used_memory
