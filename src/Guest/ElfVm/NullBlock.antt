-- ===== src/Guest/ElfVm/NullBlock.antt =====
-- What the null block and the stack that ELFVM's constructor allocates are good for:
-- source/DasHLE/Guest/ELFVM.cpp.
use das_hle.Base.{
  ℕ, ◌+◌, ◌*◌, ◌%◌, ◌^◌, ◌≤◌, ◌<◌, ◌≡◌, ◌≢◌, refl, sym, ap, ◌∙◌, subst, In, inl, inr, true, false,
  List, length, some, none, ok, err, abort, ◌>>=◌, arith, bit_and,
}
use das_hle.Word.{word}
use das_hle.HostBytes.{Bytes}
use das_hle.Memory.{
  AllocatedBlock, HostAllocator, MemoryManager, allocated_less, has_flag, perm_read, perm_write,
  perm_exec, perm_mask, perm_read_write,
}
use das_hle.Memory.Allocate.Commit.{KeepsBlock}
use das_hle.Memory.Layout.{IsValid}
use das_hle.Memory.Layout.Join.{block_bounds}
use das_hle.Memory.Layout.Lookup.{Contains}
use das_hle.Memory.Space.{space}
use das_hle.Memory.Space.Refines.{space-allocate, In-IsMapped}
use das_hle.SortedSet.Laws.{In-erase}
use das_hle.Bridge.{Bridge, Emitter, build_ift, ift_args, table_size}
use das_hle.Bridge.Laws.{IsOpen, IsBuilt, args-InRange}
use das_hle.Bridge.Register.{IsRegistered}
use das_hle.Bridge.Calls.{Reaches, built, has_functions, reach}
use das_hle.Guest.Access.{memory_read, memory_write, memory_read_code}
use das_hle.Guest.Access.Laws.{IsHostApart, checked-denied}
use das_hle.Guest.Access.RoundTrip.{read-write}
use das_hle.Guest.ElfVm.{ElfVm, fresh, construct}
use das_hle.Guest.ElfVm.Life.{construct-Constructed}

table_size-fits :
    {S : Type 0} (entries : List (S × ℕ))
    → length entries * 4 < word
    → table_size entries ≡ length entries * 4
unfolding table_size
table_size-fits entries fits = omega arith

-- The bridge's table does not start at 0 where a block does.
table-apart :
    {S H I J : Type 0} (a : HostAllocator H) (keeps : KeepsBlock a) (b : Bridge S H I J)
    → (v : IsValid b.mem) (o : IsOpen b) (null n : AllocatedBlock) → In null b.mem.allocated_blocks
    → null.virtual_base ≡ 0
    → IsBuilt a b n
    → n.virtual_base ≢ 0
table-apart a keeps b v o null n i z t at_zero =
    elim (space-allocate a b.mem v (ift_args b.func_entries) keeps (args-InRange a keeps b v o)
      (inl refl)) [
        | inl (n', e, size, vacant, _) ↦
            let base : n'.virtual_base ≡ n.virtual_base =
              ap (λ (k : AllocatedBlock). k.virtual_base) (ok-injective (sym e ∙ t.allocates)) in
            let bounds = block_bounds null 0 b.mem.allocated_blocks b.mem.max_memory v.spaced i in
            let taken : space b.mem 0 ≡ some null =
              In-IsMapped b.mem null v i 0 (ground (arith, bounds)) in
            let empty : space b.mem 0 ≡ none =
              vacant 0 (ground (arith, base, at_zero, not_empty n' size)) in
            let clash : some null ≡ none = sym taken ∙ empty in cc
        | inr (x, e, _) ↦ let clash : err x ≡ ok n = sym e ∙ t.allocates in cc
      ]
  where
    ok-injective : {x y : AllocatedBlock} → ok x ≡ ok y → x ≡ y
    ok-injective e = cc

    not_empty : (n' : AllocatedBlock) → n'.size ≡ (ift_args b.func_entries).size → 0 < n'.size
    not_empty n' size = omega (arith, size, args_size)
      where
        args_size : (ift_args b.func_entries).size ≡ length b.func_entries * 4
        args_size = table_size-fits b.func_entries o.fits

-- Where a block starts at address 0, as the null block does, every registered function is called,
-- for an open bridge whose memory manager is valid, over a host allocator that keeps the fields of a
-- block: after a buildIFT that succeeds, addressForSymbol gives the function's name an address whose
-- four bytes lie within an allocated block, and emitCall there invokes the registered emitter.
pub null_block-Reaches :
    {S H I J : Type 0} (a : HostAllocator H) (keeps : KeepsBlock a) (b : Bridge S H I J)
    (v : IsValid b.mem) (o : IsOpen b) (same : Discrete S) (s : S) (e : Emitter I J)
    (null : AllocatedBlock)
    → IsRegistered same s e b
    → In null b.mem.allocated_blocks
    → null.virtual_base ≡ 0
    → (build_ift a b).0 ≡ ok tt
    → Reaches same s e (build_ift a b).1
null_block-Reaches a keeps b v o same s e null g i z succeeds =
    let (n, t) = built a keeps b v o (has_functions a keeps b v o same s e g) succeeds in
    reach a keeps b v o same s e g n t (table-apart a keeps b v o null n i z t)

module _ {H I J K : Type 0} (a : HostAllocator H) (keeps : KeepsBlock a) (m : MemoryManager H)
    (before : Bytes) (page_size stack_size : ℕ) (s : ElfVm H I J K) (v : IsValid m)
    (f : page_size < word) (g : stack_size < word)
    (h : construct a stack_size (fresh m before page_size) ≡ (ok tt, s)) where
  -- On a valid memory manager, over a host allocator that keeps the fields of a block, for 64-bit
  -- sizes: right after the constructor returned, a read, a write and an instruction fetch of the
  -- guest at an address below the page size abort, whatever their size.
  pub null-IsInaccessible :
      (x size value : ℕ) (bytes : Bytes)
      → x < page_size
      → (memory_read s.mem size x bytes ≡ abort)
        × (memory_write s.mem size x value bytes ≡ abort)
        × (memory_read_code s.mem x bytes ≡ abort)
  unfolding memory_read memory_write memory_read_code has_flag
  null-IsInaccessible x size value bytes below =
      let c = construct-Constructed a keeps m before page_size stack_size s v f g h in
      let here : In c.null_block s.mem.allocated_blocks =
        In-erase allocated_less c.null_block c.stack_block s.mem.allocated_blocks (
          subst (λ xs. In c.null_block xs) (sym c.stack_returned.removable)
            c.null_returned.present) in
      let inside : Contains c.null_block x =
        (omega (arith, c.null_base), omega (arith, c.null_base, c.null_returned.requested_size)) in
      let closed = λ (flags : ℕ) (none_set : has_flag 0 (bit_and flags perm_mask) ≡ false).
        checked-denied s.mem c.stack_returned.valid c.null_block x flags here inside (
          subst (λ k. has_flag k (bit_and flags perm_mask) ≡ false)
            (sym c.null_returned.requested_flags) none_set) in
      (
        rw (closed perm_read refl, memory_read) refl,
        rw (closed perm_write refl, memory_write) refl,
        rw (closed perm_exec refl, memory_read_code) refl,
      )

  -- On a valid memory manager, over a host allocator that keeps the fields of a block, for 64-bit
  -- sizes, where the blocks have their own host memory after the constructor returned: the stack is
  -- the last `stack_size` addresses of the memory, and a write at an address in it and a read there
  -- give the value cut off to the size.
  pub stack-IsUsable :
      (x size value : ℕ) (bytes : Bytes)
      → IsHostApart s.mem
      → s.stack_base ≤ x
      → x < s.stack_top
      → (s.stack_top ≡ m.max_memory)
        × (s.stack_base + stack_size ≡ m.max_memory)
        × ((memory_write s.mem size x value bytes >>= λ after. memory_read s.mem size x after)
            ≡ ok (value % 256 ^ size))
  unfolding has_flag
  stack-IsUsable x size value bytes host le lt =
      let c = construct-Constructed a keeps m before page_size stack_size s v f g h in
      let inside : Contains c.stack_block x = (
        omega (arith, le, c.stack_base_is),
        omega (
          arith, lt, c.stack_base_is, c.stack_end, c.stack_top_is, c.stack_returned.requested_size,
        ),
      ) in
      let allows = λ (mask : ℕ) (is_set : has_flag perm_read_write mask ≡ true).
        subst (λ k. has_flag k mask ≡ true) (sym c.stack_returned.requested_flags) is_set in
      (
        c.stack_top_is,
        c.stack_end,
        read-write s.mem c.stack_returned.valid host c.stack_block size x value bytes
            c.stack_returned.present inside (allows perm_read refl) (allows perm_write refl),
      )
