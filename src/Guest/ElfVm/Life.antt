-- ===== src/Guest/ElfVm/Life.antt =====
-- The constructor and the destructor of ELFVM in source/DasHLE/Guest/ELFVM.cpp.
use das_hle.Base.{
  ℕ, ◌+◌, ◌≤◌, ◌<◌, ◌≡◌, refl, sym, ap, ◌∙◌, subst, In, inr, [], none, some, Outcome, ok, arith,
}
use das_hle.Word.{word, add64, add64_lem, sub64, sub64-lt}
use das_hle.Align.{is_power_of_two, align_down}
use das_hle.HostBytes.{Bytes}
use das_hle.SortedSet.{erase}
use das_hle.Memory.{
  AllocatedBlock, AllocArgs, HostAllocator, MemoryManager, allocated_less, perm_read_write,
}
use das_hle.Memory.Allocate.{allocate}
use das_hle.Memory.Allocate.Checks.{InRange}
use das_hle.Memory.Allocate.Commit.{KeepsBlock}
use das_hle.Memory.Allocate.Laws.{HasStrictHint}
use das_hle.Memory.Allocate.Returned.{Returned, allocate-Returned}
use das_hle.Memory.Release.{free}
use das_hle.Memory.Release.Laws.{KeepsSize, free-Freed}
use das_hle.Memory.RoundTrip.{SameMemory, SameMemory-of_blocks}
use das_hle.Memory.Layout.{IsValid}
use das_hle.Memory.Layout.Join.{block_bounds}
use das_hle.Guest.Action.{>>=-ok, must, must-ok, check-ok}
use das_hle.Guest.Arm.{Jit}
use das_hle.Guest.ElfVm.{
  ElfVm, fresh, has_value, null_args, stack_args, take_block, give_block, construct, destroy_vm,
  free_segments, end_vm, end_bridge,
}

some-injective : {A : Type 0} {x y : A} → some x ≡ some y → x ≡ y
some-injective e = cc

pub null-InRange : (page_size : ℕ) → page_size < word → InRange (null_args page_size)
null-InRange page_size f = record {
  size_fits = f;
  alignment_fits = omega arith;
  hint_fits = λ h e. omega (arith, some-injective e);
}

pub stack-InRange :
    (page_size stack_size max : ℕ)
    → page_size < word
    → stack_size < word
    → InRange (stack_args page_size stack_size max)
stack-InRange page_size stack_size max f g = record {
  size_fits = g;
  alignment_fits = f;
  hint_fits = λ h e. subst (λ x. x < word) (some-injective e) (sub64-lt max stack_size);
}

pub null-strict : (page_size : ℕ) → HasStrictHint (null_args page_size)
unfolding das_hle.Memory.has_flag
null-strict page_size = inr (0, refl, refl)

pub stack-strict :
    (page_size stack_size max : ℕ) → HasStrictHint (stack_args page_size stack_size max)
unfolding das_hle.Memory.has_flag
stack-strict page_size stack_size max = inr (sub64 max stack_size, refl, refl)

-- What the constructor leaves: the null block at 0, and the stack at the end of the memory.
pub record Constructed {H I J K : Type 0} (m : MemoryManager H) (page_size stack_size : ℕ)
    (s : ElfVm H I J K) : Type 0 where
  pub middle : MemoryManager H
  pub null_block : AllocatedBlock
  pub stack_block : AllocatedBlock
  pub null_returned : Returned m middle (null_args page_size) null_block
  pub stack_returned :
      Returned middle s.mem (stack_args page_size stack_size m.max_memory) stack_block
  pub null_base : null_block.virtual_base ≡ 0
  pub stack_end : s.stack_base + stack_size ≡ m.max_memory
  pub stack_base_is : s.stack_base ≡ stack_block.virtual_base
  pub stack_top_is : s.stack_top ≡ m.max_memory
  pub no_segments : s.loaded_segments ≡ []
  pub no_vm : s.vm ≡ none
  pub no_bridge : s.bridge ≡ none

stack_place :
    (max stack_size base : ℕ)
    → base ≡ sub64 max stack_size
    → max < word
    → base + stack_size ≤ max
    → base + stack_size ≡ max
unfolding sub64
stack_place max stack_size base e f le = omega arith

module _ {H I J K : Type 0} (a : HostAllocator H) (keeps : KeepsBlock a) where
  take_block-Returned :
      (args : AllocArgs) (s t : ElfVm H I J K) (b : AllocatedBlock)
      → IsValid s.mem
      → InRange args
      → HasStrictHint args
      → take_block a args s ≡ (ok b, t)
      → Returned s.mem t.mem args b × (t ≡ record s { mem = t.mem })
  unfolding take_block
  take_block-Returned args s t b v ir strict h =
      let state : record s { mem = (allocate a args s.mem).1 } ≡ t =
        ap (λ (q : Outcome AllocatedBlock × ElfVm H I J K). q.1) h in
      let outcome : (allocate a args s.mem).0 ≡ ok b =
        ap (λ (q : Outcome AllocatedBlock × ElfVm H I J K). q.0) h in
      let memory : (allocate a args s.mem).1 ≡ t.mem = ap (λ (u : ElfVm H I J K). u.mem) state in
      let e : allocate a args s.mem ≡ (ok b, t.mem) =
        ap (λ x. (x, (allocate a args s.mem).1)) outcome ∙ ap (λ x. (ok b, x)) memory in
      (
        allocate-Returned a s.mem t.mem args b keeps v ir strict e,
        sym state ∙ ap (λ (x : MemoryManager H). record s { mem = x }) memory,
      )

  pub construct-Constructed :
      (m : MemoryManager H) (bytes : Bytes) (page_size stack_size : ℕ) (s : ElfVm H I J K)
      → IsValid m
      → page_size < word
      → stack_size < word
      → construct a stack_size (fresh m bytes page_size) ≡ (ok tt, s)
      → Constructed m page_size stack_size s
  unfolding construct fresh
  construct-Constructed m bytes page_size stack_size s v f g h =
      let start = fresh m bytes page_size in
      let h1 = check-ok (is_power_of_two page_size) _ start s h in
      let h2 = check-ok (has_value (align_down stack_size page_size) stack_size) _ start s h1 in
      let (n, s1, e1, h3) = >>=-ok (must (take_block a (null_args page_size))) _ start s h2 in
      let first =
        take_block-Returned (null_args page_size) start s1 n v (null-InRange page_size f)
          (null-strict page_size) (must-ok (take_block a (null_args page_size)) start s1 e1) in
      let args = stack_args page_size stack_size s1.mem.max_memory in
      let (k, s2, e2, h4) = >>=-ok (must (take_block a args)) _ s1 s h3 in
      let second =
        take_block-Returned args s1 s2 k first.0.valid
          (stack-InRange page_size stack_size s1.mem.max_memory f g)
          (stack-strict page_size stack_size s1.mem.max_memory)
          (must-ok (take_block a args) s1 s2 e2) in
      let made = record s2 {
        stack_base = k.virtual_base;
        stack_top = add64 k.virtual_base k.size;
      } in
      let base = second.0.at_hint (sub64 s1.mem.max_memory stack_size) refl in
      let bounds =
        block_bounds k 0 s2.mem.allocated_blocks s2.mem.max_memory second.0.valid.spaced
          second.0.present in
      let at_end =
        stack_place s1.mem.max_memory stack_size k.virtual_base base first.0.valid.fits
          (omega (arith, bounds, second.0.same_max, second.0.requested_size)) in
      let left : Constructed m page_size stack_size made = record {
        middle = s1.mem;
        null_block = n;
        stack_block = k;
        null_returned = first.0;
        stack_returned =
            subst (λ x. Returned s1.mem s2.mem (stack_args page_size stack_size x) k)
              first.0.same_max second.0;
        null_base = first.0.at_hint 0 refl;
        stack_end = at_end ∙ first.0.same_max;
        stack_base_is = refl;
        stack_top_is =
            add64_lem k.virtual_base k.size (omega (arith, bounds, second.0.valid.fits))
            ∙ omega (arith, at_end, first.0.same_max, second.0.requested_size);
        no_segments =
            ap (λ (u : ElfVm H I J K). u.loaded_segments) second.1
            ∙ ap (λ (u : ElfVm H I J K). u.loaded_segments) first.1;
        no_vm =
            ap (λ (u : ElfVm H I J K). u.vm) second.1 ∙ ap (λ (u : ElfVm H I J K). u.vm) first.1;
        no_bridge =
            ap (λ (u : ElfVm H I J K). u.bridge) second.1
            ∙ ap (λ (u : ElfVm H I J K). u.bridge) first.1;
      } in
      subst (Constructed m page_size stack_size)
        (ap (λ (q : Outcome (Unit {0}) × ElfVm H I J K). q.1) h4) left

module _ {H I J K W : Type 0} (a : HostAllocator H) (dynarmic : Jit K W) where
  -- The destructor where nothing was loaded.
  destroys :
      (s : ElfVm H I J K) (m1 m2 : MemoryManager H)
      → s.loaded_segments ≡ []
      → s.vm ≡ none
      → s.bridge ≡ none
      → free a s.stack_base s.mem ≡ (ok tt, m1)
      → free a 0 m1 ≡ (ok tt, m2)
      → ((destroy_vm a dynarmic s).0 ≡ ok tt) × ((destroy_vm a dynarmic s).1.mem ≡ m2)
  unfolding destroy_vm free_segments give_block end_vm end_bridge
  destroys s m1 m2 segments vm bridge e f =
      rw (segments) (rw e (rw f (rw vm (rw bridge (refl, refl)))))

  -- The destructor of an ELFVM right after its constructor returned, on a valid memory manager over a
  -- host allocator that keeps the fields of a block, for 64-bit sizes: it returns, and the allocated
  -- blocks, the free blocks and the used memory are what they were before both.
  pub destroy_vm-construct :
      (m : MemoryManager H) (bytes : Bytes) (page_size stack_size : ℕ) (s : ElfVm H I J K)
      → KeepsBlock a
      → KeepsSize a
      → IsValid m
      → page_size < word
      → stack_size < word
      → construct a stack_size (fresh m bytes page_size) ≡ (ok tt, s)
      → let r = destroy_vm a dynarmic s in (r.0 ≡ ok tt) × SameMemory r.1.mem m
  destroy_vm-construct m bytes page_size stack_size s keeps keeps_size v f g h =
      let c = construct-Constructed a keeps m bytes page_size stack_size s v f g h in
      let first =
        free-Freed a keeps_size s.mem c.stack_block c.stack_returned.valid
          c.stack_returned.present in
      let m1 = (free a c.stack_block.virtual_base s.mem).1 in
      let blocks1 : m1.allocated_blocks ≡ c.middle.allocated_blocks =
        first.removed ∙ c.stack_returned.removable in
      let here : In c.null_block m1.allocated_blocks =
        subst (λ xs. In c.null_block xs) (sym blocks1) c.null_returned.present in
      let second = free-Freed a keeps_size m1 c.null_block first.valid here in
      let m2 = (free a c.null_block.virtual_base m1).1 in
      let blocks2 : m2.allocated_blocks ≡ m.allocated_blocks =
        second.removed
        ∙ ap (erase allocated_less c.null_block) blocks1
        ∙ c.null_returned.removable in
      let max2 : m2.max_memory ≡ m.max_memory =
        second.same_max ∙ first.same_max ∙ c.stack_returned.same_max ∙ c.null_returned.same_max in
      let run =
        destroys s m1 m2 c.no_segments c.no_vm c.no_bridge
          (subst (λ x. free a x s.mem ≡ (ok tt, m1)) (sym c.stack_base_is)
            (ap (λ x. (x, m1)) first.returns))
          (subst (λ x. free a x m1 ≡ (ok tt, m2)) c.null_base (ap (λ x. (x, m2)) second.returns)) in
      (
        run.0,
        subst (λ x. SameMemory x m) (sym run.1)
            (SameMemory-of_blocks m2 m second.valid v blocks2 max2),
      )
