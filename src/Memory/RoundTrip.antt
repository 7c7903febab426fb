-- ===== src/Memory/RoundTrip.antt =====
-- free() undoes allocate() of source/DasHLE/Host/Memory.cpp.
use das_hle.Base.{◌≡◌, ◌∙◌, sym, ap, subst, inl, inr, Outcome, ok, err, Error}
use das_hle.Memory.{AllocatedBlock, AllocArgs, HostAllocator, MemoryManager}
use das_hle.Memory.Allocate.{allocate}
use das_hle.Memory.Allocate.Checks.{InRange}
use das_hle.Memory.Allocate.Commit.{KeepsBlock, Allocated}
use das_hle.Memory.Allocate.Laws.{HasStrictHint, allocate_lem}
use das_hle.Memory.Release.{free}
use das_hle.Memory.Release.Laws.{KeepsSize, free-Freed}
use das_hle.Memory.Layout.{IsValid, gaps, total_size}

-- The managers agree on all but the host's state.
pub record SameMemory {H : Type 0} (m n : MemoryManager H) : Type 0 where
  pub same_allocated : m.allocated_blocks ≡ n.allocated_blocks
  pub same_free : m.free_blocks ≡ n.free_blocks
  pub same_max : m.max_memory ≡ n.max_memory
  pub same_used : m.used_memory ≡ n.used_memory

-- A valid manager is determined by its allocated blocks and its size.
pub SameMemory-of_blocks :
    {H : Type 0} (m n : MemoryManager H)
    → IsValid m
    → IsValid n
    → m.allocated_blocks ≡ n.allocated_blocks
    → m.max_memory ≡ n.max_memory
    → SameMemory m n
SameMemory-of_blocks m n v w e f = record {
  same_allocated = e;
  same_free = v.free_are_gaps ∙ same_gaps ∙ sym w.free_are_gaps;
  same_max = f;
  same_used = v.used_is_total ∙ ap total_size e ∙ sym w.used_is_total;
}
  where
    same_gaps : gaps 0 m.allocated_blocks m.max_memory ≡ gaps 0 n.allocated_blocks n.max_memory
    same_gaps = cc

module _ {H : Type 0} (a : HostAllocator H) (keeps : KeepsBlock a) (keeps_size : KeepsSize a) where
  freed-SameMemory :
      (m : MemoryManager H) (n : AllocatedBlock) (h : H)
      (r : Outcome AllocatedBlock × MemoryManager H)
      → IsValid m
      → Allocated m n h r
      → ((free a n.virtual_base r.1).0 ≡ ok tt) × SameMemory (free a n.virtual_base r.1).1 m
  freed-SameMemory m n h r v done =
      let f = free-Freed a keeps_size r.1 n done.valid done.present in
      (
        f.returns,
        SameMemory-of_blocks _ m f.valid v (f.removed ∙ done.removable)
            (f.same_max ∙ done.same_max),
      )

  -- On a valid manager, for 64-bit arguments with no hint or an enforced one and a host allocator
  -- that keeps the fields of a block: freeing a block that allocate() has just returned succeeds, and
  -- brings the allocated blocks, the free blocks and the used memory back to what they were.
  pub free-allocate :
      (m : MemoryManager H) (args : AllocArgs) (n : AllocatedBlock)
      → IsValid m
      → InRange args
      → HasStrictHint args
      → (allocate a args m).0 ≡ ok n
      → let r = free a n.virtual_base (allocate a args m).1 in (r.0 ≡ ok tt) × SameMemory r.1 m
  free-allocate m args n v ir strict e = elim (allocate_lem a m args keeps v ir strict) [
    | inl (n', h, done, _, _, _, _) ↦
        subst
          (λ (b : AllocatedBlock).
            let r = free a b.virtual_base (allocate a args m).1 in (r.0 ≡ ok tt) × SameMemory r.1 m)
          (same_block n' done.returns) (freed-SameMemory m n' h _ v done)
    | inr (err_code, h, q, _) ↦ absurd (refused err_code h q)
  ]
    where
      same_block : (n' : AllocatedBlock) → (allocate a args m).0 ≡ ok n' → n' ≡ n
      same_block n' p = cc

      refused : (x : Error) (h : H) → allocate a args m ≡ (err x, record m { host = h }) → ⊥
      refused x h q = cc (ap (λ (r : Outcome AllocatedBlock × MemoryManager H). r.0) q)
