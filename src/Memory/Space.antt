-- ===== src/Memory/Space.antt =====
-- The specification of the MemoryManager of source/DasHLE/Host/Memory.h: an address space, which
-- forgets how the blocks are kept, and the changes that its operations stand for.
pub mod Changes
pub mod Refines
use das_hle.Base.{
  ℕ, ◌+◌, ◌≡◌, leb, ltb, ◌&&◌, if◌then◌else◌, Bool, true, List, [], ◌∷◌, Option, none, some,
  Outcome, ok, err, not_found,
}
use das_hle.Memory.{AllocatedBlock, MemoryManager}

-- The block at each address.
abbrev pub AddressSpace : Type 0
AddressSpace = ℕ → Option AllocatedBlock

abbrev pub covers : AllocatedBlock → ℕ → Bool
covers b x = leb b.virtual_base x && ltb x (b.virtual_base + b.size)

abbrev pub map_block : AllocatedBlock → AddressSpace → AddressSpace
map_block n s x = if covers n x then some n else s x

abbrev pub unmap_block : AllocatedBlock → AddressSpace → AddressSpace
unmap_block n s x = if covers n x then none else s x

-- No address of the block is taken.
abbrev pub IsVacant : AllocatedBlock → AddressSpace → Type 0
IsVacant n s = (x : ℕ) → covers n x ≡ true → s x ≡ none

-- Every address of the block is its own.
abbrev pub IsMapped : AllocatedBlock → AddressSpace → Type 0
IsMapped n s = (x : ℕ) → covers n x ≡ true → s x ≡ some n

-- The lookup at one address.
abbrev pub found : Option AllocatedBlock → Outcome AllocatedBlock
found none = err not_found
found (some b) = ok b

abbrev pub space_of : List AllocatedBlock → AddressSpace
space_of [] x = none
space_of (b ∷ bs) x = if covers b x then some b else space_of bs x

-- What a manager stands for.
abbrev pub space : {H : Type 0} → MemoryManager H → AddressSpace
space m = space_of m.allocated_blocks
