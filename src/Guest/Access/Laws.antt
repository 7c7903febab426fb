-- ===== src/Guest/Access/Laws.antt =====
-- What a guest's read or write does, through ARMVM::Environment of source/DasHLE/Guest/ARM/ARM.cpp.
use das_hle.Base.{
  ℕ, ◌+◌, ◌-◌, ◌≤◌, ◌<◌, ◌≡◌, ◌≢◌, refl, ◌⊎◌, inl, inr, true, false, Bool-cases, In, ok, err, abort,
  arith, not_found, bit_and,
}
use das_hle.Word.{word}
use das_hle.HostBytes.{Bytes, load, store}
use das_hle.Memory.{AllocatedBlock, MemoryManager, has_flag, perm_read, perm_write, perm_mask}
use das_hle.Memory.Find.{block_from_vaddr}
use das_hle.Memory.Find.BestFit.{block_from_vaddr_lem}
use das_hle.Memory.Manager.Flags.{virtual_to_host_lem}
use das_hle.Memory.Layout.{IsValid}
use das_hle.Memory.Layout.Join.{block_bounds}
use das_hle.Memory.Layout.Lookup.{Contains, Misses, find-Found}
use das_hle.Guest.Access.{translate, translate_checked, memory_read, memory_write}

-- What the host allocator promises for the blocks of a manager: ranges of 64-bit addresses that do
-- not overlap.
pub record IsHostApart {H : Type 0} (m : MemoryManager H) : Type 0 where
  pub host_fits : (b : AllocatedBlock) → In b m.allocated_blocks → b.host_base + b.size < word
  pub apart :
      (b c : AllocatedBlock)
      → In b m.allocated_blocks
      → In c m.allocated_blocks
      → b.virtual_base ≢ c.virtual_base
      → (b.host_base + b.size ≤ c.host_base) ⊎ (c.host_base + c.size ≤ b.host_base)

-- The host's address of a guest's address in the block.
abbrev pub host_of : AllocatedBlock → ℕ → ℕ
host_of b x = b.host_base + (x - b.virtual_base)

-- The addresses from x on lie in the block.
abbrev pub InBlock : AllocatedBlock → ℕ → ℕ → Type 0
InBlock b x size = (b.virtual_base ≤ x) × (x + size ≤ b.virtual_base + b.size)

module _ {H : Type 0} (m : MemoryManager H) (v : IsValid m) where
  pub checked-denied :
      (b : AllocatedBlock) (x flags : ℕ)
      → In b m.allocated_blocks
      → Contains b x
      → has_flag b.flags (bit_and flags perm_mask) ≡ false
      → translate_checked m x flags ≡ abort
  unfolding translate_checked
  checked-denied b x flags i c denied =
      let here : block_from_vaddr x m ≡ ok b = ((block_from_vaddr_lem m v x).0 b).1 (i, c) in
      rw here (rw denied refl)

  checked-missed :
      (x flags : ℕ)
      → ((b : AllocatedBlock) → In b m.allocated_blocks → Misses b x)
      → translate_checked m x flags ≡ abort
  unfolding translate_checked
  checked-missed x flags miss =
      let none_here : block_from_vaddr x m ≡ err not_found =
        (block_from_vaddr_lem m v x).1.1 miss in
      rw none_here refl

  pub read-denied :
      (b : AllocatedBlock) (size x : ℕ) (bytes : Bytes)
      → In b m.allocated_blocks
      → Contains b x
      → has_flag b.flags perm_read ≡ false
      → memory_read m size x bytes ≡ abort
  unfolding memory_read
  read-denied b size x bytes i c p = rw (checked-denied b x perm_read i c p) refl

module _ {H : Type 0} (m : MemoryManager H) (v : IsValid m) (host : IsHostApart m) where
  pub translate-block :
      (b : AllocatedBlock) (x : ℕ)
      → In b m.allocated_blocks
      → Contains b x
      → translate m x ≡ ok (host_of b x)
  unfolding translate
  translate-block b x i c =
      let here : block_from_vaddr x m ≡ ok b = ((block_from_vaddr_lem m v x).0 b).1 (i, c) in
      let bounds = block_bounds b 0 m.allocated_blocks m.max_memory v.spaced i in
      elim (virtual_to_host_lem b x (omega (arith, v.fits, bounds)) (host.host_fits b i)) [
        | inl (_, _, e) ↦ rw here e
        | inr (out, _) ↦ absurd (omega (arith, c, out))
      ]

  checked-allowed :
      (b : AllocatedBlock) (x flags : ℕ)
      → In b m.allocated_blocks
      → Contains b x
      → has_flag b.flags (bit_and flags perm_mask) ≡ true
      → translate_checked m x flags ≡ ok (host_of b x)
  unfolding translate_checked
  checked-allowed b x flags i c allowed =
      let here : block_from_vaddr x m ≡ ok b = ((block_from_vaddr_lem m v x).0 b).1 (i, c) in
      rw here (rw allowed (translate-block b x i c))

  -- MemoryRead8 to MemoryRead64 on a valid manager whose blocks have their own host memory. At an
  -- address in a block that may be read, the bytes from the host's address on; in a block that may
  -- not be read, or outside of all blocks, the debug build aborts.
  pub memory_read_lem :
      (size x : ℕ) (bytes : Bytes)
      → ((b : AllocatedBlock) × In b m.allocated_blocks
          × Contains b x
          × (has_flag b.flags perm_read ≡ true)
          × (memory_read m size x bytes ≡ ok (load size (host_of b x) bytes)))
        ⊎ ((b : AllocatedBlock) × In b m.allocated_blocks
            × Contains b x
            × (has_flag b.flags perm_read ≡ false)
            × (memory_read m size x bytes ≡ abort))
        ⊎ (((b : AllocatedBlock) → In b m.allocated_blocks → Misses b x)
            × (memory_read m size x bytes ≡ abort))
  unfolding memory_read
  memory_read_lem size x bytes =
      elim (find-Found x 0 m.allocated_blocks m.max_memory v.fits v.spaced) [
        | inl (b, _, i, c) ↦ elim (Bool-cases (has_flag b.flags perm_read)) [
          | inl p ↦ inl (b, i, c, p, rw (checked-allowed b x perm_read i c p) refl)
          | inr p ↦ inr (inl (b, i, c, p, rw (checked-denied m v b x perm_read i c p) refl))
        ]
        | inr (_, miss) ↦ inr (inr (miss, rw (checked-missed m v x perm_read miss) refl))
      ]

  pub reads :
      (b : AllocatedBlock) (size x : ℕ) (bytes : Bytes)
      → In b m.allocated_blocks
      → Contains b x
      → has_flag b.flags perm_read ≡ true
      → memory_read m size x bytes ≡ ok (load size (host_of b x) bytes)
  unfolding memory_read
  reads b size x bytes i c p = rw (checked-allowed b x perm_read i c p) refl

  pub writes :
      (b : AllocatedBlock) (size x value : ℕ) (bytes : Bytes)
      → In b m.allocated_blocks
      → Contains b x
      → has_flag b.flags perm_write ≡ true
      → memory_write m size x value bytes ≡ ok (store size (host_of b x) value bytes)
  unfolding memory_write
  writes b size x value bytes i c p = rw (checked-allowed b x perm_write i c p) refl

  -- The block of a write that does not abort.
  pub write-block :
      (size x value : ℕ) (bytes after : Bytes)
      → memory_write m size x value bytes ≡ ok after
      → (b : AllocatedBlock) × In b m.allocated_blocks
        × Contains b x
        × (has_flag b.flags perm_write ≡ true)
        × (store size (host_of b x) value bytes ≡ after)
  unfolding memory_write
  write-block size x value bytes after h =
      elim (find-Found x 0 m.allocated_blocks m.max_memory v.fits v.spaced) [
        | inl (b, _, i, c) ↦ elim (Bool-cases (has_flag b.flags perm_write)) [
          | inl p ↦
              let same : ok (store size (host_of b x) value bytes) ≡ ok after =
                rw (checked-allowed b x perm_write i c p) at h in
              (b, i, c, p, cc)
          | inr p ↦
              let clash : abort ≡ ok after = rw (checked-denied m v b x perm_write i c p) at h in cc
        ]
        | inr (_, miss) ↦
            let clash : abort ≡ ok after = rw (checked-missed m v x perm_write miss) at h in cc
      ]
