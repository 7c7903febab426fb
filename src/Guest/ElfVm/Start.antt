-- ===== src/Guest/ElfVm/Start.antt =====
-- Where the constructor of ELFVM in source/DasHLE/Guest/ELFVM.cpp succeeds.
use das_hle.Base.{
  ℕ, ◌+◌, ◌-◌, ◌%◌, ◌≤◌, ◌<◌, ◌≡◌, refl, sym, ap, subst, ◌∙◌, In, inl, inr, true, [], ◌∷◌, eq_refl,
  ok, err, invalid_alignment, arith,
}
use das_hle.Word.{word, add64, sub64, sub64_lem}
use das_hle.Align.{is_power_of_two, align_down}
use das_hle.Align.Laws.{power-pos, align_down_lem}
use das_hle.HostBytes.{Bytes}
use das_hle.SortedSet.{insert}
use das_hle.Memory.{AllocatedBlock, HostAllocator, MemoryManager, allocated_less}
use das_hle.Memory.Allocate.{allocate}
use das_hle.Memory.Allocate.Commit.{KeepsBlock}
use das_hle.Memory.Allocate.Returned.{Returned}
use das_hle.Memory.Allocate.Succeeds.{AlwaysAllocates, IsAcceptable, allocate-succeeds}
use das_hle.Memory.Layout.{IsValid, gap_block, put_gap, gaps, total_size}
use das_hle.Memory.Layout.Gaps.{put_gap_eq, put_gap_ne}
use das_hle.Guest.ElfVm.{ElfVm, fresh, has_value, null_args, stack_args, take_block, construct}
use das_hle.Guest.ElfVm.Life.{
  Constructed, null-InRange, null-strict, stack-InRange, stack-strict, construct-Constructed,
}

-- The only gap of a memory with nothing, or with one block at 0.
one_gap : (start max : ℕ) → start < max → put_gap start max [] ≡ gap_block start max ∷ []
unfolding insert
one_gap start max lt = put_gap_ne start max [] (omega arith)

free_of_empty :
    {H : Type 0} (m : MemoryManager H)
    → IsValid m
    → m.allocated_blocks ≡ []
    → 0 < m.max_memory
    → m.free_blocks ≡ gap_block 0 m.max_memory ∷ []
unfolding gaps
free_of_empty m v e pos =
    v.free_are_gaps ∙ ap (λ bs. gaps 0 bs m.max_memory) e ∙ one_gap 0 m.max_memory pos

free_behind :
    {H : Type 0} (m : MemoryManager H) (n : AllocatedBlock)
    → IsValid m
    → m.allocated_blocks ≡ n ∷ []
    → n.virtual_base ≡ 0
    → n.size < m.max_memory
    → m.free_blocks ≡ gap_block n.size m.max_memory ∷ []
unfolding gaps
free_behind m n v e z lt =
    v.free_are_gaps
    ∙ ap (λ bs. gaps 0 bs m.max_memory) e
    ∙ put_gap_eq 0 n.virtual_base (put_gap (n.virtual_base + n.size) m.max_memory []) (sym z)
    ∙ ap (λ x. put_gap (x + n.size) m.max_memory []) z
    ∙ ap (λ x. put_gap x m.max_memory []) (omega arith)
    ∙ one_gap n.size m.max_memory lt

-- A page size, a stack size and a memory that ELFVM accepts.
pub record IsFitting (page_size stack_size max : ℕ) : Type 0 where
  pub page_fits : page_size < word
  pub page_power : is_power_of_two page_size ≡ true
  pub stack_is_aligned : align_down stack_size page_size ≡ ok stack_size
  pub not_empty : 0 < stack_size
  pub room : page_size + stack_size ≤ max
  pub place_aligned : (max - stack_size) % page_size ≡ 0

multiple-of_floor : (x a : ℕ) → x < word → a < word → align_down x a ≡ ok x → x % a ≡ 0
multiple-of_floor x a hx ha h = elim (align_down_lem x a hx ha) [
  | inl (_, (d, e, f)) ↦
      let found : ok d ≡ ok x = sym e ∙ h in
      let same : d ≡ x = cc in subst (λ t. t % a ≡ 0) same f.0
  | inr (_, e) ↦ let clash : err invalid_alignment ≡ ok x = sym e ∙ h in cc
]

module _ {H : Type 0} (page_size stack_size : ℕ) where
  null-IsAcceptable :
      (m : MemoryManager H)
      → IsValid m
      → m.allocated_blocks ≡ []
      → IsFitting page_size stack_size m.max_memory
      → IsAcceptable m (null_args page_size)
  unfolding total_size
  null-IsAcceptable m v e f = record {
    not_empty = power-pos page_size f.page_power;
    available = omega (arith, v.used_is_total ∙ ap total_size e, f.room);
    power = λ ne. absurd (ne refl);
    multiple = λ ne. absurd (ne refl);
    hint_aligned = λ h q. let zero_is : 0 ≡ h = cc in subst (λ x. x % 0 ≡ 0) zero_is refl;
  }

  stack-IsAcceptable :
      (m : MemoryManager H) (n : AllocatedBlock)
      → IsValid m
      → m.allocated_blocks ≡ n ∷ []
      → n.size ≡ page_size
      → IsFitting page_size stack_size m.max_memory
      → IsAcceptable m (stack_args page_size stack_size m.max_memory)
  unfolding total_size
  stack-IsAcceptable m n v e s f = record {
    not_empty = f.not_empty;
    available = omega (arith, v.used_is_total ∙ ap total_size e, s, f.room);
    power = λ ne. f.page_power;
    multiple = λ ne.
        multiple-of_floor stack_size page_size (omega (arith, f.room, v.fits)) f.page_fits
          f.stack_is_aligned;
    hint_aligned = λ h q.
        let hint_is : sub64 m.max_memory stack_size ≡ h = cc in
        let place = sub64_lem m.max_memory stack_size (omega (arith, f.room)) v.fits in
        subst (λ x. x % page_size ≡ 0) (sym place ∙ hint_is) f.place_aligned;
  }

module _ {H : Type 0} (a : HostAllocator H) (keeps : KeepsBlock a) (always : AlwaysAllocates a)
    (page_size stack_size : ℕ) where
  null-taken :
      (m : MemoryManager H)
      → IsValid m
      → m.allocated_blocks ≡ []
      → IsFitting page_size stack_size m.max_memory
      → (n : AllocatedBlock) × (k : MemoryManager H) × (allocate a (null_args page_size) m
          ≡ (ok n, k))
        × Returned m k (null_args page_size) n
  null-taken m v e f =
      let free = free_of_empty m v e (omega (arith, f.not_empty, f.room)) in
      allocate-succeeds a m (null_args page_size) (gap_block 0 m.max_memory) 0 keeps always v
        (null-InRange page_size f.page_fits) (null-strict page_size)
        (null-IsAcceptable page_size stack_size m v e f)
        (subst (In (gap_block 0 m.max_memory)) (sym free) (inl refl))
        ((omega arith, omega (arith, f.room), inl refl), λ x q. cc)

  stack-taken :
      (m k : MemoryManager H) (n : AllocatedBlock)
      → m.allocated_blocks ≡ []
      → Returned m k (null_args page_size) n
      → IsFitting page_size stack_size k.max_memory
      → (b : AllocatedBlock) × (l : MemoryManager H) × (allocate a
            (stack_args page_size stack_size k.max_memory)
            k
          ≡ (ok b, l))
        × Returned k l (stack_args page_size stack_size k.max_memory) b
  stack-taken m k n e r f =
      let max = k.max_memory in
      let only : k.allocated_blocks ≡ n ∷ [] =
        r.added ∙ ap (insert allocated_less n) e ∙ (unfold insert in refl) in
      let behind =
        free_behind k n r.valid only (r.at_hint 0 refl)
          (omega (arith, r.requested_size, f.not_empty, f.room)) in
      let place = sub64_lem max stack_size (omega (arith, f.room)) r.valid.fits in
      allocate-succeeds a k (stack_args page_size stack_size max) (gap_block n.size max)
        (max - stack_size) keeps always r.valid
        (stack-InRange page_size stack_size max f.page_fits (omega (arith, f.room, r.valid.fits)))
        (stack-strict page_size stack_size max)
        (stack-IsAcceptable page_size stack_size k n r.valid only r.requested_size f)
        (subst (In (gap_block n.size max)) (sym behind) (inl refl))
        (
          (
            omega (arith, r.requested_size, f.room),
            omega (arith, r.requested_size, f.room),
            inr f.place_aligned,
          ),
          λ x q. let hint_is : sub64 max stack_size ≡ x = cc in sym place ∙ hint_is,
        )

module _ {H I J K : Type 0} (a : HostAllocator H) (page_size stack_size : ℕ) where
  -- The constructor where both of its allocations succeed.
  construct-run :
      (m k l : MemoryManager H) (bytes : Bytes) (n b : AllocatedBlock)
      → is_power_of_two page_size ≡ true
      → align_down stack_size page_size ≡ ok stack_size
      → allocate a (null_args page_size) m ≡ (ok n, k)
      → allocate a (stack_args page_size stack_size k.max_memory) k ≡ (ok b, l)
      → (s : ElfVm H I J K) × (construct a stack_size (fresh m bytes page_size) ≡ (ok tt, s))
  unfolding construct fresh take_block has_value
  construct-run m k l bytes n b p q e1 e2 = (
    record (fresh {I = I} {J = J} {K = K} l bytes page_size) {
      stack_base = b.virtual_base;
      stack_top = add64 b.virtual_base b.size;
    },
    rw p (rw q (rw (eq_refl stack_size) (rw e1 (rw e2 refl)))),
  )

  -- The constructor of ELFVM on a valid memory manager with no block, over a host allocator that keeps
  -- the fields of a block and has memory for it, returns: where the page size is a 64-bit power of two,
  -- the stack size is a multiple of it and not 0, both fit the memory together, and the stack's place
  -- at the memory's end is a multiple of the page size. The null block then stands at 0 and the stack
  -- at the end of the memory.
  pub construct-returns :
      (m : MemoryManager H) (bytes : Bytes)
      → KeepsBlock a
      → AlwaysAllocates a
      → IsValid m
      → m.allocated_blocks ≡ []
      → IsFitting page_size stack_size m.max_memory
      → (s : ElfVm H I J K) × (construct a stack_size (fresh m bytes page_size) ≡ (ok tt, s))
        × Constructed m page_size stack_size s
  construct-returns m bytes keeps always v e f =
      let (n, k, e1, r) = null-taken a keeps always page_size stack_size m v e f in
      let (b, l, e2, _) =
        stack-taken a keeps always page_size stack_size m k n e r
          (subst (IsFitting page_size stack_size) (sym r.same_max) f) in
      let (s, h) = construct-run m k l bytes n b f.page_power f.stack_is_aligned e1 e2 in
      (
        s,
        h,
        construct-Constructed a keeps m bytes page_size stack_size s v f.page_fits
            (omega (arith, f.room, v.fits)) h,
      )
