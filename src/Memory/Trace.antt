-- ===== src/Memory/Trace.antt =====
-- Sequences of calls of the MemoryManager of source/DasHLE/Host/Memory.h, from its construction on.
use das_hle.Base.{ℕ, ◌<◌, ◌≡◌, ◌∙◌, inl, inr, true}
use das_hle.Word.{word}
use das_hle.Memory.{AllocArgs, HostAllocator, MemoryManager}
use das_hle.Memory.Allocate.{allocate}
use das_hle.Memory.Allocate.Checks.{InRange}
use das_hle.Memory.Allocate.Commit.{KeepsBlock}
use das_hle.Memory.Allocate.Laws.{HasStrictHint, allocate_lem}
use das_hle.Memory.Release.{free}
use das_hle.Memory.Release.Laws.{KeepsSize, free_lem}
use das_hle.Memory.Manager.{create, set_flags}
use das_hle.Memory.Manager.Laws.{create-IsValid}
use das_hle.Memory.Manager.Flags.{set_flags_lem}
use das_hle.Memory.Layout.{IsValid}

-- A call that changes the manager: allocate() with 64-bit arguments and no hint or an enforced one,
-- free() and setFlags(), with what it does if it succeeds or fails.
pub data Step {H : Type 0} (a : HostAllocator H) (m n : MemoryManager H) : Type 0 where
  allocates :
      (args : AllocArgs)
      → InRange args
      → HasStrictHint args
      → n ≡ (allocate a args m).1
      → Step a m n
  frees : (vbase : ℕ) → n ≡ (free a vbase m).1 → Step a m n
  sets_flags : (vbase flags : ℕ) → n ≡ (set_flags vbase flags m).1 → Step a m n

-- The managers that calls reach from a constructed one of the size.
pub data Reachable {H : Type 0} (a : HostAllocator H) (size : ℕ) : MemoryManager H → Type 0 where
  created :
      {n : MemoryManager H} (h : H)
      → (a.initialize h).0 ≡ true
      → n ≡ (create a h size).1
      → Reachable a size n
  after :
      {n : MemoryManager H} (m : MemoryManager H)
      → Reachable a size m
      → Step a m n
      → Reachable a size n

with_host : {H : Type 0} (m : MemoryManager H) (h : H) → IsValid m → IsValid (record m { host = h })
with_host m h v = record {
  fits = v.fits;
  spaced = v.spaced;
  free_are_gaps = v.free_are_gaps;
  used_is_total = v.used_is_total;
}

-- Valid, and of the size.
abbrev pub IsSized : {H : Type 0} → ℕ → MemoryManager H → Type 0
IsSized size m = IsValid m × (m.max_memory ≡ size)

module _ {H : Type 0} (a : HostAllocator H) (keeps : KeepsBlock a) (keeps_size : KeepsSize a) where
  Step-IsSized : (size : ℕ) (m n : MemoryManager H) → IsSized size m → Step a m n → IsSized size n
  Step-IsSized size m n (v, e) (Step.allocates args ir strict q) =
      rw q (elim (allocate_lem a m args keeps v ir strict) [
        | inl (b, h, done, _, _, _, _) ↦ (done.valid, done.same_max ∙ e)
        | inr (code, h, r, _) ↦ rw r (with_host m h v, e)
      ])
  Step-IsSized size m n (v, e) (Step.frees vbase q) = rw q (elim (free_lem a keeps_size m vbase v) [
    | inl (it, _, _, f) ↦ (f.valid, f.same_max ∙ e)
    | inr (_, r) ↦ rw r (v, e)
  ])
  Step-IsSized size m n (v, e) (Step.sets_flags vbase flags q) =
      rw q (elim (set_flags_lem m v flags vbase) [
        | inl (b, _, _, f) ↦ (f.valid, f.same_max ∙ e)
        | inr (inl (b, _, _, _, r)) ↦ rw r (v, e)
        | inr (inr (_, r)) ↦ rw r (v, e)
      ])

  -- Every manager that calls of allocate(), free() and setFlags() reach from a constructed one, of a
  -- size from 1 to 2 ^ 64 - 1, is valid and has that size, over a host allocator that keeps the
  -- fields of a block; allocate() is called with no hint or an enforced one.
  pub Reachable-IsValid :
      (size : ℕ)
      → 0 < size
      → size < word
      → (m : MemoryManager H) → Reachable a size m
      → IsValid m × (m.max_memory ≡ size)
  Reachable-IsValid size pos fits m (Reachable.created h e q) =
      let made = create-IsValid a h size pos fits e in rw q (made.1, made.3)
  Reachable-IsValid size pos fits n (Reachable.after m r s) =
      Step-IsSized size m n (Reachable-IsValid size pos fits m r) s
