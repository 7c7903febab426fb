-- ===== src/Tests/Start.antt =====
-- The constructor of ELFVM on an empty memory of 64 KB.
use das_hle.Base.{ℕ, ◌≡◌, refl, sym, subst, [], ok, arith}
use das_hle.Align.{is_power_of_two, align_down}
use das_hle.Memory.{MemoryManager}
use das_hle.Memory.Layout.{IsValid}
use das_hle.Memory.Allocate.Succeeds.{AlwaysAllocates}
use das_hle.Memory.Manager.{create, default_allocator}
use das_hle.Memory.Manager.Laws.{create-IsValid}
use das_hle.Guest.ElfVm.{ElfVm, fresh, construct}
use das_hle.Guest.ElfVm.Life.{Constructed}
use das_hle.Guest.ElfVm.Start.{IsFitting, construct-returns}
use das_hle.Tests.Memory.{bump, bump-KeepsBlock}
use das_hle.Tests.Guest.{State, no_bytes}

bump-AlwaysAllocates : AlwaysAllocates bump
unfolding default_allocator
bump-AlwaysAllocates b h = refl

pages-IsFitting : IsFitting 0x1000 0x4000 0x10000
unfolding is_power_of_two align_down das_hle.Word.not64
pages-IsFitting = record {
  page_fits = omega arith;
  page_power = refl;
  stack_is_aligned = refl;
  not_empty = omega arith;
  room = omega arith;
  place_aligned = refl;
}

abbrev empty : MemoryManager ℕ
empty = (create bump 0 0x10000).1

made : IsValid empty × (empty.allocated_blocks ≡ []) × (empty.max_memory ≡ 0x10000)
made =
    let r =
      create-IsValid bump 0 0x10000 (omega arith) (omega arith)
        (unfold default_allocator in refl) in
    (r.1, r.2, r.3)

construct-returns_example :
    (s : ElfVm ℕ ℕ ℕ State) × (construct bump 0x4000 (fresh empty no_bytes 0x1000) ≡ (ok tt, s))
    × Constructed empty 0x1000 0x4000 s
construct-returns_example =
    construct-returns bump 0x1000 0x4000 empty no_bytes bump-KeepsBlock bump-AlwaysAllocates made.0
      made.1 (subst (IsFitting 0x1000 0x4000) (sym made.2) pages-IsFitting)
