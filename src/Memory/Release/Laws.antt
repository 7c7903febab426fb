-- ===== src/Memory/Release/Laws.antt =====
-- What MemoryManager::free of source/DasHLE/Host/Memory.cpp does to a valid manager.
use native.Mathlib.Decide.{ℕ_discrete}
use das_hle.Base.{
  ℕ, ◌+◌, ◌-◌, ◌<◌, ◌≡◌, ◌≢◌, refl, ◌∙◌, sym, ap, subst, In, ◌⊎◌, inl, inr, arith, none, Outcome,
  ok, err, not_found, eq_refl,
}
use das_hle.Word.{sub64, sub64_lem}
use das_hle.SortedSet.{erase, prev}
use das_hle.Memory.{AllocatedBlock, HostAllocator, MemoryManager, allocated_less}
use das_hle.Memory.Release.{Merge, merge, prev_end, block_at, free_block, free}
use das_hle.Memory.Release.Merging.{merge-Join}
use das_hle.Memory.Layout.{IsValid, gap_block}
use das_hle.Memory.Layout.Gaps.{put_gap_ne, used-le-max}
use das_hle.Memory.Layout.Join.{Join, join, block_bounds}
use das_hle.Memory.Layout.Lookup.{Contains, Contains-unique, find-Found, find_of_In}

-- "Allocators shall not modify block values": free() may change the host base only.
pub record KeepsSize {H : Type 0} (a : HostAllocator H) : Type 0 where
  pub same_size : (b : AllocatedBlock) (h : H) → (a.free b h).0.size ≡ b.size

module _ {H : Type 0} (m : MemoryManager H) (v : IsValid m) where
  block_at-In :
      (it : AllocatedBlock) → In it m.allocated_blocks → block_at it.virtual_base m ≡ ok it
  unfolding block_at
  block_at-In it h =
      rw
        (
          find_of_In it it.virtual_base 0 m.allocated_blocks m.max_memory v.fits v.spaced h
              (omega (arith, block_bounds it 0 m.allocated_blocks m.max_memory v.spaced h)),
          block_at,
        )
        (rw (eq_refl it.virtual_base))

  block_at_cases :
      (vbase : ℕ)
      → ((it : AllocatedBlock) × In it m.allocated_blocks × (it.virtual_base ≡ vbase))
        ⊎ (((b : AllocatedBlock) → In b m.allocated_blocks → b.virtual_base ≢ vbase)
            × (block_at vbase m ≡ err not_found))
  unfolding block_at
  block_at_cases vbase = elim (find-Found vbase 0 m.allocated_blocks m.max_memory v.fits v.spaced) [
    | inl (b, e, h, c) ↦ elim (ℕ_discrete b.virtual_base vbase) [
      | yes p ↦ inl (b, h, p)
      | no ne ↦ inr (only b h c ne, rw (e, block_at) (ground arith))
    ]
    | inr (e, miss) ↦ inr (
      λ b h p.
          absurd
            (omega (arith, miss b h, block_bounds b 0 m.allocated_blocks m.max_memory v.spaced h)),
      rw (e, block_at),
    )
  ]
    where
      only :
          (b : AllocatedBlock)
          → In b m.allocated_blocks
          → Contains b vbase
          → b.virtual_base ≢ vbase
          → (c : AllocatedBlock) → In c m.allocated_blocks
          → c.virtual_base ≢ vbase
      only b h c ne d i p =
          let bounds = block_bounds d 0 m.allocated_blocks m.max_memory v.spaced i in
          let same =
            Contains-unique b d vbase 0 m.allocated_blocks m.max_memory v.spaced h i c
              (omega arith, omega (arith, bounds)) in
          ne (ap (λ (x : AllocatedBlock). x.virtual_base) same ∙ p)

-- What freeing the block `it` of the manager m leaves.
pub record Freed {H : Type 0} (a : HostAllocator H) (m : MemoryManager H) (it : AllocatedBlock)
    (r : Outcome (Unit {0}) × MemoryManager H) : Type 0 where
  pub returns : r.0 ≡ ok tt
  pub valid : IsValid r.1
  pub removed : r.1.allocated_blocks ≡ erase allocated_less it m.allocated_blocks
  pub host_freed : r.1.host ≡ (a.free it m.host).1
  pub same_max : r.1.max_memory ≡ m.max_memory
  pub given_back : r.1.used_memory + it.size ≡ m.used_memory

module _ {H : Type 0} (a : HostAllocator H) (keeps : KeepsSize a) where
  free-merged :
      (m : MemoryManager H) (it : AllocatedBlock) (s : Merge)
      → block_at it.virtual_base m ≡ ok it
      → merge it m ≡ ok s
      → free a it.virtual_base m ≡ (ok tt, free_block a it s m)
  unfolding free
  free-merged m it s e f = rw (e, f, free)

  free_block-Freed :
      (m : MemoryManager H) (it : AllocatedBlock) (lo hi : ℕ)
      → IsValid m
      → 0 < it.size
      → (j : Join it lo hi 0 m.allocated_blocks m.max_memory)
      → Freed a m it
          (ok tt, free_block a it (record { new_block = gap_block lo hi; free_blocks = j.rest }) m)
  unfolding free_block
  free_block-Freed m it lo hi v pos j = record {
    returns = refl;
    valid = record {
      fits = v.fits;
      spaced = j.spaced;
      free_are_gaps = sym (
          j.joined
          ∙ put_gap_ne lo hi j.rest (λ e. absurd (omega (arith, j.lo-le-base, j.end-le-hi))));
      used_is_total = rw used (omega (arith, j.total, v.used_is_total));
    };
    removed = refl;
    host_freed = refl;
    same_max = refl;
    given_back = rw used (omega (arith, j.total, v.used_is_total));
  }
    where
      used : sub64 m.used_memory (a.free it m.host).0.size ≡ m.used_memory - it.size
      used = rw (keeps.same_size it m.host) (
          sub64_lem m.used_memory it.size (omega (arith, j.total, v.used_is_total))
            (omega (arith, used-le-max m v, v.fits)))

  pub free-Freed :
      (m : MemoryManager H) (it : AllocatedBlock)
      → IsValid m
      → In it m.allocated_blocks
      → Freed a m it (free a it.virtual_base m)
  unfolding prev prev_end
  free-Freed m it v h =
      let j = join it none 0 m.allocated_blocks m.max_memory v.fits refl v.spaced h in
      rw (free-merged m it _ (block_at-In m v it h) (merge-Join m it _ _ v refl refl j)) (
        free_block-Freed m it _ _ v (block_bounds it 0 m.allocated_blocks m.max_memory v.spaced h).1
          j)

  -- Where no allocated block starts at the address, free() returns the error NotFound and changes
  -- nothing. Otherwise it takes that block out of a valid manager, gives its size and its host
  -- memory back, and leaves a valid manager: the free blocks are again exactly the gaps.
  pub free_lem :
      (m : MemoryManager H) (vbase : ℕ)
      → IsValid m
      → ((it : AllocatedBlock) × In it m.allocated_blocks
          × (it.virtual_base ≡ vbase)
          × Freed a m it (free a vbase m))
        ⊎ (((b : AllocatedBlock) → In b m.allocated_blocks → b.virtual_base ≢ vbase)
            × (free a vbase m ≡ (err not_found, m)))
  free_lem m vbase v = elim (block_at_cases m v vbase) [
    | inl (it, h, e) ↦
        inl (it, h, e, subst (λ x. Freed a m it (free a x m)) e (free-Freed m it v h))
    | inr (absent, e) ↦ inr (absent, missing m vbase e)
  ]
    where
      missing :
          (m : MemoryManager H) (vbase : ℕ)
          → block_at vbase m ≡ err not_found
          → free a vbase m ≡ (err not_found, m)
      missing m vbase e = unfold free in rw (e, free)
