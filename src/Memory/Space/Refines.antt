-- ===== src/Memory/Space/Refines.antt =====
-- The operations of the MemoryManager of source/DasHLE/Host/Memory.cpp implement the changes of the
-- address space.
use mathlib.Core.Path.{fun_ext}
use das_hle.Base.{
  ℕ, ◌≡◌, ◌≢◌, refl, sym, ap, ◌∙◌, subst, ◌⊎◌, inl, inr, true, Bool-cases, List, [], ◌∷◌, none,
  some, In, ok, err, Error, not_found, invalid_address, arith,
}
use das_hle.SortedSet.{replace}
use das_hle.Memory.{AllocatedBlock, AllocArgs, HostAllocator, MemoryManager, allocated_less}
use das_hle.Memory.Find.{block_from_vaddr}
use das_hle.Memory.Find.BestFit.{block_from_vaddr_lem}
use das_hle.Memory.Allocate.{allocate}
use das_hle.Memory.Allocate.Checks.{InRange}
use das_hle.Memory.Allocate.Commit.{KeepsBlock}
use das_hle.Memory.Allocate.Laws.{HasStrictHint, allocate_lem}
use das_hle.Memory.Release.{free}
use das_hle.Memory.Release.Laws.{KeepsSize, free_lem}
use das_hle.Memory.Manager.{set_flags}
use das_hle.Memory.Manager.Flags.{set_flags_lem}
use das_hle.Memory.Layout.{IsValid}
use das_hle.Memory.Layout.Join.{block_bounds}
use das_hle.Memory.Layout.Lookup.{Misses, find-Found}
use das_hle.Memory.Space.{
  AddressSpace, covers, map_block, unmap_block, IsVacant, IsMapped, found, space_of, space,
}
use das_hle.Memory.Space.Changes.{space_of-In, space_of-some, space_of-erase, space_of-replace}

space_of-missed :
    (x : ℕ) (bs : List AllocatedBlock)
    → ((b : AllocatedBlock) → In b bs → Misses b x)
    → space_of bs x ≡ none
space_of-missed x [] h = refl
space_of-missed x (b ∷ bs) h =
    ground (arith, h b (inl refl), space_of-missed x bs (λ c i. h c (inr i)))

-- On a valid manager blockFromVAddr is the lookup in the address space that the manager stands for:
-- the block at the address, or NotFound.
pub block_from_vaddr-found :
    {H : Type 0} (m : MemoryManager H) (x : ℕ)
    → IsValid m
    → block_from_vaddr x m ≡ found (space m x)
unfolding block_from_vaddr
block_from_vaddr-found m x v =
    elim (find-Found x 0 m.allocated_blocks m.max_memory v.fits v.spaced) [
      | inl (b, e, i, c) ↦
          let here : covers b x ≡ true = ground arith in
          rw (e, block_from_vaddr)
            (rw (space_of-In b 0 x m.max_memory m.allocated_blocks v.spaced i here) refl)
      | inr (e, miss) ↦
          rw (e, block_from_vaddr) (rw (space_of-missed x m.allocated_blocks miss) refl)
    ]

pub In-IsMapped :
    {H : Type 0} (m : MemoryManager H) (b : AllocatedBlock)
    → IsValid m
    → In b m.allocated_blocks
    → IsMapped b (space m)
In-IsMapped m b v i x c = space_of-In b 0 x m.max_memory m.allocated_blocks v.spaced i c

unmapped :
    (n : AllocatedBlock) (before : AddressSpace) (after : AddressSpace)
    → ((x : ℕ) → before x ≡ unmap_block n after x)
    → IsMapped n after
    → IsVacant n before × (after ≡ map_block n before)
unmapped n before after h k = (
  λ x c. ground (arith, h x),
  fun_ext λ x. elim (Bool-cases (covers n x)) [
    | inl c ↦ ground (arith, k x c)
    | inr c ↦ ground (arith, h x)
  ],
)

module _ {H : Type 0} (a : HostAllocator H) (m : MemoryManager H) (v : IsValid m) where
  -- allocate() implements the mapping of a block of the requested size in a vacant part of the
  -- address space, or returns an error and leaves the address space as it was: on a valid manager,
  -- for 64-bit arguments with no hint or an enforced one and a host allocator that keeps the block.
  pub space-allocate :
      (args : AllocArgs)
      → KeepsBlock a
      → InRange args
      → HasStrictHint args
      → let r = allocate a args m in
        ((n : AllocatedBlock) × (r.0 ≡ ok n)
          × (n.size ≡ args.size)
          × IsVacant n (space m)
          × (space r.1 ≡ map_block n (space m)))
        ⊎ ((e : Error) × (r.0 ≡ err e) × (space r.1 ≡ space m))
  space-allocate args keeps ir strict = elim (allocate_lem a m args keeps v ir strict) [
    | inl (n, h, done, size, _, _, _) ↦
        let r = allocate a args m in
        let back : (x : ℕ) → space m x ≡ unmap_block n (space r.1) x = λ x.
          ap (λ bs. space_of bs x) (sym done.removable)
          ∙ space_of-erase n 0 r.1.max_memory r.1.allocated_blocks done.valid.spaced done.present
              x in
        let (vacant, same) =
          unmapped n (space m) (space r.1) back (In-IsMapped r.1 n done.valid done.present) in
        inl (n, done.returns, size, vacant, same)
    | inr (e, h, q, _) ↦ inr (e, ap (λ r. r.0) q, ap (λ r. space r.1) q)
  ]

  -- free() implements the unmapping of the block that is mapped from the address on, or, where no
  -- mapped block starts there, returns NotFound and leaves the address space as it was: on a valid
  -- manager, over a host allocator that keeps the size of a block.
  pub space-free :
      (vbase : ℕ)
      → KeepsSize a
      → let r = free a vbase m in
        ((n : AllocatedBlock) × (r.0 ≡ ok tt)
          × (n.virtual_base ≡ vbase)
          × IsMapped n (space m)
          × (space r.1 ≡ unmap_block n (space m)))
        ⊎ ((r.0 ≡ err not_found)
            × (space r.1 ≡ space m)
            × ((x : ℕ) (b : AllocatedBlock) → space m x ≡ some b → b.virtual_base ≢ vbase))
  space-free vbase keeps = elim (free_lem a keeps m vbase v) [
    | inl (n, i, e, f) ↦ inl (
      n,
      f.returns,
      e,
      In-IsMapped m n v i,
      fun_ext λ x.
          ap (λ bs. space_of bs x) f.removed
          ∙ space_of-erase n 0 m.max_memory m.allocated_blocks v.spaced i x,
    )
    | inr (absent, q) ↦ inr (
      ap (λ r. r.0) q,
      ap (λ r. space r.1) q,
      λ x b h. absent b (space_of-some b x m.allocated_blocks h).0,
    )
  ]

module _ {H : Type 0} (m : MemoryManager H) (v : IsValid m) where
  rewritten :
      (b : AllocatedBlock) (flags : ℕ)
      → block_from_vaddr b.virtual_base m ≡ ok b
      → (set_flags b.virtual_base flags m).1.allocated_blocks
        ≡ replace allocated_less b (record b { flags = flags }) m.allocated_blocks
  unfolding set_flags
  rewritten b flags h = rw (h, set_flags) (ground arith)

  flagged :
      (b : AllocatedBlock) (flags : ℕ)
      → In b m.allocated_blocks
      → space (set_flags b.virtual_base flags m).1
        ≡ map_block (record b { flags = flags }) (space m)
  flagged b flags i =
      let bounds = block_bounds b 0 m.allocated_blocks m.max_memory v.spaced i in
      let starts : block_from_vaddr b.virtual_base m ≡ ok b =
        ((block_from_vaddr_lem m v b.virtual_base).0 b).1
          (i, (omega (arith, bounds), omega (arith, bounds))) in
      fun_ext λ x.
        ap (λ bs. space_of bs x) (rewritten b flags starts)
        ∙ space_of-replace b (record b { flags = flags }) 0 m.max_memory m.allocated_blocks refl
            refl v.spaced i x

  -- setFlags implements the mapping of the same block with the new flags, and returns the old ones;
  -- where the address is not the start of a mapped block, it returns an error and leaves the address
  -- space as it was: on a valid manager.
  pub space-set_flags :
      (vbase flags : ℕ)
      → let r = set_flags vbase flags m in
        ((b : AllocatedBlock) × (r.0 ≡ ok b.flags)
          × (b.virtual_base ≡ vbase)
          × IsMapped b (space m)
          × (space r.1 ≡ map_block (record b { flags = flags }) (space m)))
        ⊎ ((e : Error) × (r.0 ≡ err e) × (space r.1 ≡ space m))
  space-set_flags vbase flags = elim (set_flags_lem m v flags vbase) [
    | inl (b, i, e, f) ↦ inl (
      b,
      f.returns,
      e,
      In-IsMapped m b v i,
      subst (λ t. space (set_flags t flags m).1 ≡ map_block (record b { flags = flags }) (space m))
          e (flagged b flags i),
    )
    | inr (inl (b, i, c, ne, q)) ↦ inr (invalid_address, ap (λ r. r.0) q, ap (λ r. space r.1) q)
    | inr (inr (miss, q)) ↦ inr (not_found, ap (λ r. r.0) q, ap (λ r. space r.1) q)
  ]
