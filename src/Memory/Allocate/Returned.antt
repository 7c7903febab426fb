-- ===== src/Memory/Allocate/Returned.antt =====
-- What MemoryManager::allocate of source/DasHLE/Host/Memory.cpp has done where it returns a block.
use das_hle.Base.{
  ℕ, ◌%◌, ◌≡◌, sym, ap, ◌∙◌, subst, In, ◌⊎◌, inl, inr, Outcome, ok, err, some, bit_and,
}
use das_hle.SortedSet.{insert, erase}
use das_hle.Memory.{
  AllocatedBlock, AllocArgs, HostAllocator, MemoryManager, allocated_less, perm_mask,
}
use das_hle.Memory.Allocate.{allocate}
use das_hle.Memory.Allocate.Checks.{InRange}
use das_hle.Memory.Allocate.Commit.{KeepsBlock}
use das_hle.Memory.Allocate.Laws.{HasStrictHint, allocate_lem}
use das_hle.Memory.Layout.{IsValid}

-- The manager n is m with the new block that the arguments ask for.
pub record Returned {H : Type 0} (m n : MemoryManager H) (args : AllocArgs) (b : AllocatedBlock)
    : Type 0 where
  pub valid : IsValid n
  pub present : In b n.allocated_blocks
  pub added : n.allocated_blocks ≡ insert allocated_less b m.allocated_blocks
  pub removable : erase allocated_less b n.allocated_blocks ≡ m.allocated_blocks
  pub same_max : n.max_memory ≡ m.max_memory
  pub requested_size : b.size ≡ args.size
  pub requested_flags : b.flags ≡ bit_and args.flags perm_mask
  pub aligned : (args.alignment ≡ 0) ⊎ (b.virtual_base % args.alignment ≡ 0)
  pub at_hint : (x : ℕ) → args.hint ≡ some x → b.virtual_base ≡ x

ok-injective : {A : Type 0} {x y : A} → ok x ≡ ok y → x ≡ y
ok-injective e = cc

abbrev outcome_of : {H : Type 0} → Outcome AllocatedBlock × MemoryManager H → Outcome AllocatedBlock
outcome_of q = q.0

pub allocate-Returned :
    {H : Type 0} (a : HostAllocator H) (m n : MemoryManager H) (args : AllocArgs)
    (b : AllocatedBlock)
    → KeepsBlock a
    → IsValid m
    → InRange args
    → HasStrictHint args
    → allocate a args m ≡ (ok b, n)
    → Returned m n args b
allocate-Returned {H} a m n args b keeps v ir strict e =
    elim (allocate_lem a m args keeps v ir strict) [
      | inl (b', h, done, size, flags, aligned, hint) ↦
          let same : b' ≡ b = ok-injective (sym done.returns ∙ ap outcome_of e) in
          let here : Returned m (allocate a args m).1 args b' = record {
            valid = done.valid;
            present = done.present;
            added = done.added;
            removable = done.removable;
            same_max = done.same_max;
            requested_size = size;
            requested_flags = flags;
            aligned = aligned;
            at_hint = hint;
          } in
          subst (λ (x : AllocatedBlock). Returned m n args x) same
            (subst (λ (q : Outcome AllocatedBlock × MemoryManager H). Returned m q.1 args b') e
              here)
      | inr (x, h, r, _) ↦ let clash : err x ≡ ok b = sym (ap outcome_of r) ∙ ap outcome_of e in cc
    ]
