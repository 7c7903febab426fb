-- ===== src/Guest/Arm/EndBlock.antt =====
-- The end address of ARMVM of source/DasHLE/Guest/ARM/ARM.cpp, from the constructor to the destructor.
use Prim.Native.Nat.{bit_and-bitwise}
use das_hle.Base.{
  ℕ, ◌%◌, ◌≡◌, refl, sym, ap, ◌∙◌, subst, inl, inr, false, Outcome, ok, err, abort, >>=-eq-ok,
  assert_ok, and_then, bit_and, arith,
}
use das_hle.HostBytes.{Bytes}
use das_hle.Memory.{
  AllocatedBlock, HostAllocator, MemoryManager, has_flag, perm_read, perm_write, perm_exec,
  perm_mask,
}
use das_hle.Memory.Allocate.{allocate}
use das_hle.Memory.Allocate.Checks.{InRange}
use das_hle.Memory.Allocate.Commit.{KeepsBlock}
use das_hle.Memory.Allocate.Laws.{HasStrictHint}
use das_hle.Memory.Allocate.Returned.{allocate-Returned}
use das_hle.Memory.Layout.Join.{block_bounds}
use das_hle.Memory.Layout.Lookup.{Contains}
use das_hle.Memory.Release.{free}
use das_hle.Memory.Release.Laws.{KeepsSize}
use das_hle.Memory.RoundTrip.{SameMemory, free-allocate}
use das_hle.Memory.Layout.{IsValid}
use das_hle.Elf.{GuestVersion}
use das_hle.Guest.Access.{memory_read, memory_write, memory_read_code}
use das_hle.Guest.Access.Laws.{checked-denied}
use das_hle.Guest.Arm.{
  Jit, ArmVm, end_exec_args, arch_version_of, config_of, create_jit, construct, destruct,
}

pub end-InRange : InRange end_exec_args
end-InRange = record {
  size_fits = omega arith;
  alignment_fits = omega arith;
  hint_fits = λ h e. cc;
}

args-strict : HasStrictHint end_exec_args
args-strict = inl refl

abbrev Undone : {H : Type 0} → MemoryManager H → Outcome (Unit {0}) × MemoryManager H → Type 0
Undone m r = (assert_ok r.0 ≡ ok tt) × SameMemory r.1 m

no_flags : (flags mask : ℕ) → flags ≡ 0 → has_flag flags mask ≡ false
unfolding has_flag
no_flags flags mask e =
    let none_set : bit_and 0 mask ≡ 0 = omega (arith, bit_and-bitwise 0 mask) in
    rw e (rw none_set refl)

module _ {H J W : Type 0} (a : HostAllocator H) (dynarmic : Jit J W) where
  create_jit-end :
      (version : GuestVersion) (block : AllocatedBlock) (vm : ArmVm J)
      → create_jit a dynarmic version block ≡ ok vm
      → vm.end_exec_vaddr ≡ block.virtual_base
  unfolding create_jit
  create_jit-end version block vm h =
      let (arch, _, e) = >>=-eq-ok (arch_version_of version) _ h in
      let same : record {
        jit = dynarmic.make (config_of arch);
        end_exec_vaddr = block.virtual_base;
      }
          ≡ vm =
        cc in
      sym (ap (λ (x : ArmVm J). x.end_exec_vaddr) same)

  after_allocate :
      (version : GuestVersion) (r : Outcome AllocatedBlock × MemoryManager H) (n : MemoryManager H)
      (vm : ArmVm J)
      → and_then (assert_ok r.0, r.1) (λ block k. (create_jit a dynarmic version block, k))
        ≡ (ok vm, n)
      → (block : AllocatedBlock) × (r ≡ (ok block, n)) × (vm.end_exec_vaddr ≡ block.virtual_base)
  after_allocate version (ok block, k) n vm h =
      let outcome : create_jit a dynarmic version block ≡ ok vm =
        ap (λ (q : Outcome (ArmVm J) × MemoryManager H). q.0) h in
      let state : k ≡ n = ap (λ (q : Outcome (ArmVm J) × MemoryManager H). q.1) h in
      (block, ap (λ x. (ok block, x)) state, create_jit-end version block vm outcome)
  after_allocate version (err x, k) n vm h =
      absurd (cc (ap (λ (q : Outcome (ArmVm J) × MemoryManager H). q.0) h))
  after_allocate version (abort, k) n vm h =
      absurd (cc (ap (λ (q : Outcome (ArmVm J) × MemoryManager H). q.0) h))
  after_allocate version (Outcome.undefined, k) n vm h =
      absurd (cc (ap (λ (q : Outcome (ArmVm J) × MemoryManager H). q.0) h))

  -- What a constructor that returns has done.
  construct-allocate :
      (version : GuestVersion) (m n : MemoryManager H) (vm : ArmVm J)
      → construct a dynarmic version m ≡ (ok vm, n)
      → (block : AllocatedBlock) × (allocate a end_exec_args m ≡ (ok block, n))
        × (vm.end_exec_vaddr ≡ block.virtual_base)
  unfolding construct
  construct-allocate version m n vm h = after_allocate version (allocate a end_exec_args m) n vm h

  module _ (keeps : KeepsBlock a) (keeps_size : KeepsSize a) where
    -- Over a host allocator that keeps the fields of a block, on a valid memory manager: the
    -- destructor of a virtual machine right after its constructor returned succeeds, and the
    -- allocated blocks, the free blocks and the used memory are what they were before both.
    pub destruct-construct :
        (version : GuestVersion) (m n : MemoryManager H) (vm : ArmVm J)
        → IsValid m
        → construct a dynarmic version m ≡ (ok vm, n)
        → ((destruct a dynarmic vm n).0 ≡ ok tt) × SameMemory (destruct a dynarmic vm n).1 m
    unfolding destruct
    destruct-construct version m n vm v h =
        let (block, e, at) = construct-allocate version m n vm h in
        let (freed, same) =
          free-allocate a keeps keeps_size m end_exec_args block v end-InRange args-strict
            (ap (λ (q : Outcome AllocatedBlock × MemoryManager H). q.0) e) in
        subst (λ x. Undone m (free a x n)) (sym at)
          (subst
            (λ (q : Outcome AllocatedBlock × MemoryManager H).
              Undone m (free a block.virtual_base q.1))
            e (ap assert_ok freed, same))

  -- Over a host allocator that keeps the fields of a block, on a valid memory manager: the
  -- constructor's end address is a multiple of 4, and right after the constructor returned, a read,
  -- a write or an instruction fetch of the guest at it aborts, whatever its size.
  pub end-IsInaccessible :
      (version : GuestVersion) (m n : MemoryManager H) (vm : ArmVm J) (size value : ℕ)
      (bytes : Bytes)
      → KeepsBlock a
      → IsValid m
      → construct a dynarmic version m ≡ (ok vm, n)
      → (vm.end_exec_vaddr % 4 ≡ 0)
        × (memory_read n size vm.end_exec_vaddr bytes ≡ abort)
        × (memory_write n size vm.end_exec_vaddr value bytes ≡ abort)
        × (memory_read_code n vm.end_exec_vaddr bytes ≡ abort)
  unfolding memory_read memory_write memory_read_code
  end-IsInaccessible version m n vm size value bytes keeps v h =
      let (block, e, at) = construct-allocate version m n vm h in
      let done = allocate-Returned a m n end_exec_args block keeps v end-InRange args-strict e in
      let bounds =
        block_bounds block 0 n.allocated_blocks n.max_memory done.valid.spaced done.present in
      let inside : Contains block vm.end_exec_vaddr =
        (omega (arith, at), omega (arith, at, bounds, done.requested_size)) in
      let closed = λ (flags : ℕ).
        checked-denied n done.valid block vm.end_exec_vaddr flags done.present inside (
          no_flags block.flags (bit_and flags perm_mask)
            (done.requested_flags ∙ omega (arith, bit_and-bitwise 0 perm_mask))) in
      (
        elim done.aligned [ inl z ↦ absurd (omega (arith, z)) | inr z ↦ omega (arith, z, at) ],
        rw (closed perm_read) refl,
        rw (closed perm_write) refl,
        rw (closed perm_exec, memory_read_code) refl,
      )
