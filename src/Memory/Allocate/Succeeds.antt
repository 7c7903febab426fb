-- ===== src/Memory/Allocate/Succeeds.antt =====
-- When MemoryManager::allocate of source/DasHLE/Host/Memory.cpp returns a block.
use das_hle.Base.{
  ℕ, ◌+◌, ◌%◌, ◌≤◌, ◌<◌, ◌≡◌, ◌≢◌, sym, ap, ◌∙◌, In, inl, inr, true, false, ok, some, arith, Error,
}
use das_hle.Align.{is_power_of_two}
use das_hle.Memory.{AllocatedBlock, FreeBlock, AllocArgs, HostAllocator, MemoryManager}
use das_hle.Memory.Allocate.{allocate}
use das_hle.Memory.Allocate.Checks.{InRange}
use das_hle.Memory.Allocate.Commit.{KeepsBlock}
use das_hle.Memory.Allocate.Laws.{HasStrictHint, IsChoice, Refused, allocate_lem}
use das_hle.Memory.Allocate.Returned.{Returned, allocate-Returned}
use das_hle.Memory.Layout.{IsValid}

-- A host allocator that has memory for every block.
abbrev pub AlwaysAllocates : {H : Type 0} → HostAllocator H → Type 0
AlwaysAllocates {H} a = (b : AllocatedBlock) (h : H) → (a.alloc b h).0 ≡ true

-- Arguments that the checks let through.
pub record IsAcceptable {H : Type 0} (m : MemoryManager H) (args : AllocArgs) : Type 0 where
  pub not_empty : 0 < args.size
  pub available : m.used_memory + args.size ≤ m.max_memory
  pub power : args.alignment ≢ 0 → is_power_of_two args.alignment ≡ true
  pub multiple : args.alignment ≢ 0 → args.size % args.alignment ≡ 0
  pub hint_aligned : (h : ℕ) → args.hint ≡ some h → h % args.alignment ≡ 0

module _ {H : Type 0} (a : HostAllocator H) (m : MemoryManager H) (args : AllocArgs) where
  not-Refused :
      (e : Error) (b : FreeBlock) (addr : ℕ)
      → AlwaysAllocates a
      → IsAcceptable m args
      → In b m.free_blocks
      → IsChoice args b addr
      → Refused a m args e
      → ⊥
  not-Refused e b addr always w i choice (Refused.arguments (inl (_, z))) =
      omega (arith, z, w.not_empty)
  not-Refused e b addr always w i choice (Refused.arguments (inr (inl (_, short)))) =
      omega (arith, short, w.available)
  not-Refused e b addr always w i choice (Refused.arguments (inr (inr (inl (_, ne, p))))) =
      let clash : true ≡ false = sym (w.power ne) ∙ p in cc
  not-Refused e b addr always w i choice (Refused.arguments (inr (inr (inr (_, ne, k))))) =
      k (w.multiple ne)
  not-Refused e b addr always w i choice (Refused.misaligned_hint h _ q k) = k (w.hint_aligned h q)
  not-Refused e b addr always w i choice (Refused.no_room _ none_here) = none_here b addr i choice
  not-Refused e b addr always w i choice (Refused.host_full c x _ _ _ full) =
      let clash : true ≡ false = sym (always _ _) ∙ full in cc

  -- allocate() succeeds wherever a free block has room: on a valid manager, for 64-bit arguments that
  -- the checks let through, with no hint or an enforced one, over a host allocator that keeps the
  -- fields of a block and has memory for it.
  pub allocate-succeeds :
      (b : FreeBlock) (addr : ℕ)
      → KeepsBlock a
      → AlwaysAllocates a
      → IsValid m
      → InRange args
      → HasStrictHint args
      → IsAcceptable m args
      → In b m.free_blocks
      → IsChoice args b addr
      → (n : AllocatedBlock) × (k : MemoryManager H) × (allocate a args m ≡ (ok n, k))
        × Returned m k args n
  allocate-succeeds b addr keeps always v ir strict w i choice =
      elim (allocate_lem a m args keeps v ir strict) [
        | inl (n, h, done, _, _, _, _) ↦
            let e : allocate a args m ≡ (ok n, (allocate a args m).1) =
              ap (λ o. (o, (allocate a args m).1)) done.returns in
            (n, (allocate a args m).1, e, allocate-Returned a m _ args n keeps v ir strict e)
        | inr (e, h, _, why) ↦ absurd (not-Refused e b addr always w i choice why)
      ]
