-- ===== src/Tests/Space.antt =====
-- The address space of the manager of Tests/Memory.
use das_hle.Base.{ℕ, ◌≡◌, ◌≢◌, refl, ◌⊎◌, inl, some, ok, err, Error, not_found}
use das_hle.Memory.{AllocatedBlock}
use das_hle.Memory.Allocate.{allocate}
use das_hle.Memory.Release.{free}
use das_hle.Memory.Space.{IsVacant, IsMapped, map_block, unmap_block, space}
use das_hle.Memory.Space.Refines.{space-allocate, space-free}
use das_hle.Tests.Memory.{
  bump, busy, bump-KeepsBlock, bump-KeepsSize, busy-IsValid, page, page-InRange,
}

space-allocate_example :
    ((n : AllocatedBlock) × ((allocate bump page busy).0 ≡ ok n)
      × (n.size ≡ 0x2000)
      × IsVacant n (space busy)
      × (space (allocate bump page busy).1 ≡ map_block n (space busy)))
    ⊎ ((e : Error) × ((allocate bump page busy).0 ≡ err e)
        × (space (allocate bump page busy).1 ≡ space busy))
space-allocate_example =
    space-allocate bump busy busy-IsValid page bump-KeepsBlock page-InRange (inl refl)

space-free_example :
    ((n : AllocatedBlock) × ((free bump 0x4000 busy).0 ≡ ok tt)
      × (n.virtual_base ≡ 0x4000)
      × IsMapped n (space busy)
      × (space (free bump 0x4000 busy).1 ≡ unmap_block n (space busy)))
    ⊎ (((free bump 0x4000 busy).0 ≡ err not_found)
        × (space (free bump 0x4000 busy).1 ≡ space busy)
        × ((x : ℕ) (b : AllocatedBlock) → space busy x ≡ some b → b.virtual_base ≢ 0x4000))
space-free_example = space-free bump busy busy-IsValid 0x4000 bump-KeepsSize
