-- ===== src/Memory/Release/Merging.antt =====
-- free() joins the freed block with the gaps beside it.
use native.Mathlib.Decide.{ℕ_discrete}
use das_hle.Base.{ℕ, ◌+◌, ◌-◌, ◌≤◌, ◌<◌, ◌≡◌, List, In, arith, Bool, true, false, ok, if◌then◌else◌}
use das_hle.Word.{word, add64, add64_lem, sub64_lem}
use das_hle.SortedSet.{insert, prev, next}
use das_hle.SortedSet.Laws.{find-insert, erase-insert}
use das_hle.Memory.{AllocatedBlock, FreeBlock, MemoryManager, allocated_less, free_less}
use das_hle.Memory.Release.{
  Merge, handle_block, merge_prev, merge_next, merge, prev_end, next_start,
}
use das_hle.Memory.Layout.{IsValid, gap_block, put_gap}
use das_hle.Memory.Layout.Gaps.{free_order, put_gap_ne, put_gap_eq}
use das_hle.Memory.Layout.Join.{Join}

abbrev merge_of : ℕ → ℕ → List FreeBlock → Merge
merge_of base size xs = record {
  new_block = record { virtual_base = base; size = size };
  free_blocks = xs;
}

handle-gap :
    (lo hi base size : ℕ) (is_prev : Bool) (xs : List FreeBlock)
    → (In (gap_block lo hi) xs → ⊥)
    → handle_block
        (gap_block lo hi)
        is_prev
        (merge_of base size (insert free_less (gap_block lo hi) xs))
      ≡ ok (merge_of (if is_prev then lo else base) (add64 size (hi - lo)) xs)
unfolding handle_block
handle-gap lo hi base size is_prev xs new =
    rw (find-insert free_less free_order (gap_block lo hi) xs, handle_block)
      (rw (erase-insert free_less free_order (gap_block lo hi) xs new))

merge_prev-gap :
    (lo : ℕ) (it : AllocatedBlock) (xs : List FreeBlock)
    → lo ≤ it.virtual_base
    → it.virtual_base + it.size < word
    → (In (gap_block lo it.virtual_base) xs → ⊥)
    → merge_prev lo it (merge_of it.virtual_base it.size (put_gap lo it.virtual_base xs))
      ≡ ok (merge_of lo (it.virtual_base + it.size - lo) xs)
unfolding merge_prev
merge_prev-gap lo it xs le fits new = elim (ℕ_discrete lo it.virtual_base) [
  | yes e ↦ rw (put_gap_eq lo it.virtual_base xs e) (ground arith)
  | no ne ↦
      rw (put_gap_ne lo it.virtual_base xs ne, sub64_lem it.virtual_base lo le (omega arith))
        (ground (
          arith,
          handle-gap lo it.virtual_base it.virtual_base it.size true xs new,
          add64_lem it.size (it.virtual_base - lo),
        ))
]

merge_next-gap :
    (lo hi : ℕ) (it : AllocatedBlock) (xs : List FreeBlock)
    → lo ≤ it.virtual_base
    → it.virtual_base + it.size ≤ hi
    → hi < word
    → (In (gap_block (it.virtual_base + it.size) hi) xs → ⊥)
    → merge_next hi it
        (merge_of lo (it.virtual_base + it.size - lo) (put_gap (it.virtual_base + it.size) hi xs))
      ≡ ok (merge_of lo (hi - lo) xs)
unfolding merge_next
merge_next-gap lo hi it xs le end fits new = elim (ℕ_discrete (it.virtual_base + it.size) hi) [
  | yes e ↦
      rw
        (
          put_gap_eq (it.virtual_base + it.size) hi xs e,
          add64_lem it.virtual_base it.size (omega arith),
        )
        (ground arith)
  | no ne ↦
      rw
        (
          put_gap_ne (it.virtual_base + it.size) hi xs ne,
          add64_lem it.virtual_base it.size (omega arith),
          sub64_lem hi (it.virtual_base + it.size) end fits,
        )
        (ground (
          arith,
          handle-gap (it.virtual_base + it.size) hi lo (it.virtual_base + it.size - lo) false xs
              new,
          add64_lem (it.virtual_base + it.size - lo) (hi - (it.virtual_base + it.size)),
        ))
]

-- In a valid state merge() finds its neighbours, and the merged block fills the room between them.
pub merge-Join :
    {H : Type 0} (m : MemoryManager H) (it : AllocatedBlock) (lo hi : ℕ)
    → IsValid m
    → prev_end (prev allocated_less it m.allocated_blocks) ≡ lo
    → next_start m.max_memory (next allocated_less it m.allocated_blocks) ≡ hi
    → (j : Join it lo hi 0 m.allocated_blocks m.max_memory)
    → merge it m ≡ ok (merge_of lo (hi - lo) j.rest)
unfolding merge
merge-Join m it lo hi v e f j =
    rw (e, f, v.free_are_gaps, j.whole)
      (rw
        (merge_prev-gap lo it (put_gap (it.virtual_base + it.size) hi j.rest) j.lo-le-base
          (omega (arith, v.fits, j.end-le-hi, j.hi-le-end)) j.new_lo)
        (merge_next-gap lo hi it j.rest j.lo-le-base j.end-le-hi
          (omega (arith, v.fits, j.hi-le-end)) j.new_hi))
