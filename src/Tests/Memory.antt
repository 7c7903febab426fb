-- ===== src/Tests/Memory.antt =====
-- A manager of 64 KB with two allocated blocks, over an allocator that hands out addresses upwards.
use das_hle.Base.{
  ℕ, ◌+◌, ◌-◌, ◌≡◌, ◌≢◌, ◌↔◌, ◌⊎◌, refl, inl, inr, In, [], ◌∷◌, Option, some, none, ok, err, arith,
  not_found, invalid_address,
}
use das_hle.Word.{word}
use das_hle.Align.{is_power_of_two}
use das_hle.SortedSet.{insert, inserts}
use das_hle.SortedSet.Sorted.{Sorted}
use das_hle.Memory.{
  AllocatedBlock, FreeBlock, AllocArgs, HostAllocator, MemoryManager, free_less, allocated_less,
  available_memory, has_flag, force_hint, perm_read_write,
}
use das_hle.Memory.Find.{find_free_block, block_from_vaddr}
use das_hle.Memory.Find.Fit.{Fitting, IsRequest, EndsBelow}
use das_hle.Memory.Find.BestFit.{find_free_block-Fitting, block_from_vaddr_lem}
use das_hle.Memory.Allocate.{allocate}
use das_hle.Memory.Allocate.Checks.{InRange}
use das_hle.Memory.Allocate.Commit.{KeepsBlock}
use das_hle.Memory.Allocate.Laws.{AllocateResult, allocate_lem}
use das_hle.Memory.Allocate.LooseHint.{IsMisfit, allocate_misfit}
use das_hle.Memory.Release.{free}
use das_hle.Memory.Release.Laws.{KeepsSize, Freed, free_lem}
use das_hle.Memory.RoundTrip.{SameMemory, free-allocate}
use das_hle.Memory.Trace.{Step, Reachable, Reachable-IsValid}
use das_hle.Memory.Manager.{default_allocator, create, reset, set_flags}
use das_hle.Memory.Manager.Laws.{Frees, no_block, one_block, reset_lem}
use das_hle.Memory.Manager.Flags.{Reflagged, set_flags_lem}
use das_hle.Memory.Layout.{IsValid, gaps, put_gap, total_size}
use das_hle.Memory.Layout.Lookup.{Contains, Misses}

-- malloc that never fails, and free that forgets.
abbrev bump_malloc : ℕ → ℕ → Option ℕ × ℕ
bump_malloc size h = (some h, h + size)

abbrev bump_free : ℕ → ℕ → ℕ
bump_free addr h = h

abbrev pub bump : HostAllocator ℕ
unfolding default_allocator
bump = default_allocator bump_malloc bump_free

pub bump-KeepsBlock : KeepsBlock bump
unfolding default_allocator
bump-KeepsBlock = record {
  same_base = λ b h. refl;
  same_size = λ b h. refl;
  same_flags = λ b h. refl;
}

pub bump-KeepsSize : KeepsSize bump
unfolding default_allocator
bump-KeepsSize = record { same_size = λ b h. refl }

abbrev pub low : AllocatedBlock
low = record { host_base = 0x100; virtual_base = 0; size = 0x1000; flags = 0 }

abbrev pub high : AllocatedBlock
high = record { host_base = 0x1100; virtual_base = 0x4000; size = 0x2000; flags = 3 }

abbrev hole : FreeBlock
hole = record { virtual_base = 0x1000; size = 0x3000 }

abbrev rest : FreeBlock
rest = record { virtual_base = 0x6000; size = 0xa000 }

abbrev pub busy : MemoryManager ℕ
busy = record {
  host = 0x3100;
  allocated_blocks = low ∷ high ∷ [];
  free_blocks = hole ∷ rest ∷ [];
  max_memory = 0x10000;
  used_memory = 0x3000;
}

pub busy-IsValid : IsValid busy
unfolding gaps put_gap insert free_less total_size
busy-IsValid = record {
  fits = omega arith;
  spaced = omega arith;
  free_are_gaps = refl;
  used_is_total = refl;
}

abbrev pub page : AllocArgs
page = record { size = 0x2000; alignment = 0x1000; hint = none; flags = 3 }

pub page-InRange : InRange page
page-InRange = record {
  size_fits = omega arith;
  alignment_fits = omega arith;
  hint_fits = λ h e. cc;
}

allocate_lem_example : AllocateResult bump busy page (allocate bump page busy)
allocate_lem_example =
    allocate_lem bump busy page bump-KeepsBlock busy-IsValid page-InRange (inl refl)

free_lem_example :
    ((it : AllocatedBlock) × In it busy.allocated_blocks
      × (it.virtual_base ≡ 0x4000)
      × Freed bump busy it (free bump 0x4000 busy))
    ⊎ (((b : AllocatedBlock) → In b busy.allocated_blocks → b.virtual_base ≢ 0x4000)
        × (free bump 0x4000 busy ≡ (err not_found, busy)))
free_lem_example = free_lem bump bump-KeepsSize busy 0x4000 busy-IsValid

abbrev page_block : AllocatedBlock
page_block = record { host_base = 0x3100; virtual_base = 0x1000; size = 0x2000; flags = 3 }

abbrev forced : AllocArgs
forced = record { size = 0x2000; alignment = 0; hint = some 0x1000; flags = 11 }

forced-InRange : InRange forced
forced-InRange = record {
  size_fits = omega arith;
  alignment_fits = omega arith;
  hint_fits = λ h e. ground (arith, hint_is h e);
}
  where
    hint_is : (h : ℕ) → some 0x1000 ≡ some h → 0x1000 ≡ h
    hint_is h e = cc

forced-returns : (allocate bump forced busy).0 ≡ ok page_block
unfolding allocate default_allocator das_hle.Memory.Allocate.check_args available_memory
    das_hle.Memory.Allocate.check_size das_hle.Memory.Allocate.check_hint
    das_hle.Memory.Allocate.place das_hle.Memory.Allocate.block_at_hint das_hle.Word.add64
    das_hle.Memory.Allocate.place_at_hint das_hle.Memory.Allocate.place_exact
    das_hle.Memory.Allocate.allocate_in das_hle.Memory.Allocate.host_alloc
    das_hle.Memory.Allocate.commit inserts allocated_less
forced-returns = refl

free-allocate_example :
    let r = free bump 0x1000 (allocate bump forced busy).1 in (r.0 ≡ ok tt) × SameMemory r.1 busy
free-allocate_example =
    free-allocate bump bump-KeepsBlock bump-KeepsSize busy forced page_block busy-IsValid
      forced-InRange (inr (0x1000, refl, unfold has_flag in refl)) forced-returns

busy-Frees : Frees bump busy.allocated_blocks busy.host busy.host
busy-Frees = unfold default_allocator in one_block (one_block no_block)

reset_lem_example :
    let r = reset bump busy in
    (r.0 ≡ ok tt)
    × (r.1.host ≡ (bump.initialize (bump.finalize busy.host)).1)
    × (r.1.allocated_blocks ≡ [])
    × (r.1.free_blocks ≡ record { virtual_base = 0; size = 0x10000 } ∷ [])
    × (available_memory r.1 ≡ 0x10000 - 0x3000)
    × (IsValid r.1 ↔ (◌≡◌ {A = ℕ} 0x3000 0))
reset_lem_example =
    reset_lem bump busy busy.host busy-Frees busy-IsValid (omega arith)
      (unfold default_allocator in refl)

busy-Sorted : Sorted free_less busy.free_blocks
unfolding free_less
busy-Sorted = (λ y h. elim h [ inl e ↦ rw e | inr k ↦ elim k [ ] ], (λ y h. elim h [ ], tt))

busy-EndsBelow : EndsBelow busy.free_blocks word
busy-EndsBelow b h = elim h [
  | inl e ↦ rw e (omega arith)
  | inr k ↦ elim k [ inl e ↦ rw e (omega arith) | inr l ↦ elim l [ ] ]
]

page-IsRequest : IsRequest 0x2000 0x1000
page-IsRequest = (omega arith, inr (omega arith, unfold is_power_of_two in refl, omega arith))

find_free_block-Fitting_example :
    Fitting 0x2000 0x1000 busy.free_blocks (find_free_block busy.free_blocks 0x2000 0x1000)
find_free_block-Fitting_example =
    find_free_block-Fitting 0x2000 0x1000 busy.free_blocks page-IsRequest busy-Sorted busy-EndsBelow

block_from_vaddr_lem_example :
    ((b : AllocatedBlock)
      → (block_from_vaddr 0x4001 busy ≡ ok b) ↔ (In b busy.allocated_blocks × Contains b 0x4001))
    × ((block_from_vaddr 0x4001 busy ≡ err not_found)
        ↔ ((b : AllocatedBlock) → In b busy.allocated_blocks → Misses b 0x4001))
block_from_vaddr_lem_example = block_from_vaddr_lem busy busy-IsValid 0x4001

set_flags_lem_example :
    ((b : AllocatedBlock) × In b busy.allocated_blocks
      × (b.virtual_base ≡ 0x4000)
      × Reflagged busy b 5 (set_flags 0x4000 5 busy))
    ⊎ ((b : AllocatedBlock) × In b busy.allocated_blocks
        × Contains b 0x4000
        × (b.virtual_base ≢ 0x4000)
        × (set_flags 0x4000 5 busy ≡ (err invalid_address, busy)))
    ⊎ (((b : AllocatedBlock) → In b busy.allocated_blocks → Misses b 0x4000)
        × (set_flags 0x4000 5 busy ≡ (err not_found, busy)))
set_flags_lem_example = set_flags_lem busy busy-IsValid 5 0x4000

-- 0x4000 bytes at the hint 0x1000, which lies in the hole of 0x3000 bytes.
abbrev misfit : AllocArgs
misfit = record { size = 0x4000; alignment = 0; hint = some 0x1000; flags = 3 }

misfit-InRange : InRange misfit
misfit-InRange = record {
  size_fits = omega arith;
  alignment_fits = omega arith;
  hint_fits = λ h e. ground (arith, hint_is h e);
}
  where
    hint_is : (h : ℕ) → some 0x1000 ≡ some h → 0x1000 ≡ h
    hint_is h e = cc

misfit-IsMisfit : IsMisfit busy misfit 0x1000 hole
misfit-IsMisfit = record {
  hinted = refl;
  loose = unfold has_flag in refl;
  unaligned = refl;
  is_free = inl refl;
  at_hint = (omega arith, omega arith);
  too_large = omega arith;
  available = omega arith;
  no_wrap = omega arith;
}

allocate_misfit_example : ¬ IsValid (allocate bump misfit busy).1
allocate_misfit_example =
    allocate_misfit busy busy-IsValid misfit misfit-InRange 0x1000 hole misfit-IsMisfit bump
      bump-KeepsBlock (unfold default_allocator in refl)

-- A page is allocated, and a wrong address freed.
trace_made : MemoryManager ℕ
trace_made = (free bump 0x5000 (allocate bump page (create bump 0 0x10000).1).1).1

trace : Reachable bump 0x10000 trace_made
unfolding trace_made
trace =
    Reachable.after (allocate bump page (create bump 0 0x10000).1).1
      (Reachable.after (create bump 0 0x10000).1
        (Reachable.created 0 (unfold default_allocator in refl) refl)
        (Step.allocates page page-InRange (inl refl) refl))
      (Step.frees 0x5000 refl)

Reachable-IsValid_example : IsValid trace_made × (trace_made.max_memory ≡ 0x10000)
Reachable-IsValid_example =
    Reachable-IsValid bump bump-KeepsBlock bump-KeepsSize 0x10000 (omega arith) (omega arith)
      trace_made trace
