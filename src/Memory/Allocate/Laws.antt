-- ===== src/Memory/Allocate/Laws.antt =====
-- What MemoryManager::allocate of source/DasHLE/Host/Memory.cpp does to a valid manager.
use das_hle.Base.{
  ℕ, ◌%◌, ◌<◌, ◌≡◌, ◌≢◌, refl, ◌∙◌, subst, In, ◌⊎◌, inl, inr, true, false, Outcome, ok, err, ◌>>=◌,
  some, none, Error, no_virtual_memory, no_host_memory, invalid_address, bit_and,
}
use das_hle.Align.{is_power_of_two}
use das_hle.Memory.{
  AllocatedBlock, FreeBlock, AllocArgs, HostAllocator, MemoryManager, has_flag, force_hint,
  perm_mask,
}
use das_hle.Memory.Find.Fit.{IsRequest, IsStart}
use das_hle.Memory.Allocate.{check_args, check_hint, place, place_anywhere, allocate_in, allocate}
use das_hle.Memory.Allocate.Checks.{
  InRange, Rejected, check_args-prefix, check_hint-none, check_hint-forced,
}
use das_hle.Memory.Allocate.Placement.{place_anywhere_lem, place-forced}
use das_hle.Memory.Allocate.Commit.{KeepsBlock, Allocated, request, allocate_in-Allocated}
use das_hle.Memory.Layout.{IsValid}

-- No hint, or one that is enforced.
abbrev pub HasStrictHint : AllocArgs → Type 0
HasStrictHint args =
    (args.hint ≡ none) ⊎ ((h : ℕ) × (args.hint ≡ some h) × (has_flag args.flags force_hint ≡ true))

-- The arguments allow an allocation at `addr` in the free block.
abbrev pub IsChoice : AllocArgs → FreeBlock → ℕ → Type 0
IsChoice args b addr =
    IsStart args.size args.alignment b addr × ((x : ℕ) → args.hint ≡ some x → addr ≡ x)

-- Why allocate() returns an error.
pub data Refused {H : Type 0} (a : HostAllocator H) (m : MemoryManager H) (args : AllocArgs)
    (e : Error) : Type 0 where
  arguments : Rejected args m e → Refused a m args e
  misaligned_hint :
      (h : ℕ)
      → e ≡ invalid_address
      → args.hint ≡ some h
      → h % args.alignment ≢ 0
      → Refused a m args e
  no_room :
      e ≡ no_virtual_memory
      → ((b : FreeBlock) (addr : ℕ) → In b m.free_blocks → IsChoice args b addr → ⊥)
      → Refused a m args e
  host_full :
      (b : FreeBlock) (addr : ℕ)
      → e ≡ no_host_memory
      → In b m.free_blocks
      → IsChoice args b addr
      → (a.alloc (request args addr) m.host).0 ≡ false
      → Refused a m args e

-- What a call of allocate() comes to.
abbrev pub AllocateResult :
    {H : Type 0}
    → HostAllocator H
    → MemoryManager H
    → AllocArgs
    → Outcome AllocatedBlock × MemoryManager H
    → Type 0
AllocateResult {H} a m args r =
    ((n : AllocatedBlock) × (h : H) × Allocated m n h r
      × (n.size ≡ args.size)
      × (n.flags ≡ bit_and args.flags perm_mask)
      × ((args.alignment ≡ 0) ⊎ (n.virtual_base % args.alignment ≡ 0))
      × ((x : ℕ) → args.hint ≡ some x → n.virtual_base ≡ x))
    ⊎ ((e : Error) × (h : H) × (r ≡ (err e, record m { host = h })) × Refused a m args e)

-- The part of allocate() before the host allocation.
abbrev target : {H : Type 0} → MemoryManager H → AllocArgs → Outcome (FreeBlock × ℕ)
target m args = check_args args m >>= λ alignment. place m.free_blocks alignment args

abbrev Target :
    {H : Type 0} → HostAllocator H → MemoryManager H → AllocArgs → Outcome (FreeBlock × ℕ) → Type 0
Target a m args t =
    ((b : FreeBlock) × (addr : ℕ) × (t ≡ ok (b, addr))
      × In b m.free_blocks
      × (0 < args.size)
      × IsChoice args b addr)
    ⊎ ((e : Error) × (t ≡ err e) × Refused a m args e)

module _ {H : Type 0} (a : HostAllocator H) (m : MemoryManager H) (args : AllocArgs) where
  allocate-err : {e : Error} → target m args ≡ err e → allocate a args m ≡ (err e, m)
  unfolding allocate
  allocate-err e = rw (e, allocate)

  allocate-ok :
      {b : FreeBlock} {addr : ℕ}
      → target m args ≡ ok (b, addr)
      → allocate a args m ≡ allocate_in a args b addr m
  unfolding allocate
  allocate-ok e = rw (e, allocate)

  -- Without a hint the search decides.
  target-none :
      IsValid m
      → args.hint ≡ none
      → check_args args m ≡ check_hint args
      → IsRequest args.size args.alignment
      → Target a m args (target m args)
  target-none v e c r =
      rw (c, check_hint-none args e)
        (rw (place_none) (elim (place_anywhere_lem m v args.size args.alignment r) [
          | inl (b, addr, q, i, s) ↦ inl (b, addr, q, i, r.0, (s, λ x f. cc))
          | inr (q, others) ↦
              inr (no_virtual_memory, q, Refused.no_room refl (λ b addr i s. others b i addr s.0))
        ]))
    where
      place_none :
          place m.free_blocks args.alignment args
          ≡ place_anywhere m.free_blocks args.size args.alignment
      place_none = unfold place in rw (e, place)

  -- With an enforced hint the address is the hint.
  target-forced :
      (h : ℕ)
      → IsValid m
      → InRange args
      → args.hint ≡ some h
      → has_flag args.flags force_hint ≡ true
      → check_args args m ≡ check_hint args
      → IsRequest args.size args.alignment
      → Target a m args (target m args)
  target-forced h v ir e f c r = elim (check_hint-forced args h ir e f power) [
    | inr (bad, k) ↦ inr (invalid_address, rw (c, bad), Refused.misaligned_hint h refl e k)
    | inl (passed, aligned) ↦
        rw (c, passed)
          (elim (place-forced m v args h e f r.0) [
            | inl (b, q, i, s) ↦ inl (b, h, q, i, r.0, ((s.0, s.1, aligned), λ x g. cc))
            | inr (q, others) ↦ inr (
              no_virtual_memory,
              q,
              Refused.no_room refl (λ b addr i s.
                  others b i (subst (IsStart args.size 0 b) (s.1 h e) (s.0.0, s.0.1, inl refl))),
            )
          ])
  ]
    where
      power : (args.alignment ≡ 0) ⊎ (is_power_of_two args.alignment ≡ true)
      power = elim r.1 [ inl z ↦ inl z | inr k ↦ inr k.1 ]

  target-Target : IsValid m → InRange args → HasStrictHint args → Target a m args (target m args)
  target-Target v ir strict = elim (check_args-prefix m args v ir) [
    | inr (e, q, why) ↦ inr (e, rw q, Refused.arguments why)
    | inl (c, r) ↦ elim strict [
      | inl e ↦ target-none v e c r
      | inr (h, e, f) ↦ target-forced h v ir e f c r
    ]
  ]

  choice-Result :
      (b : FreeBlock) (addr : ℕ)
      → KeepsBlock a
      → IsValid m
      → 0 < args.size
      → In b m.free_blocks
      → IsChoice args b addr
      → allocate a args m ≡ allocate_in a args b addr m
      → AllocateResult a m args (allocate a args m)
  choice-Result b addr keeps v pos i ch e =
      elim (allocate_in-Allocated a keeps m args b addr v i (pos, ch.0.0, ch.0.1)) [
        | inl (_, done) ↦ inl (
          (a.alloc blk m.host).1,
          (a.alloc blk m.host).2,
          rw e done,
          keeps.same_size blk m.host,
          keeps.same_flags blk m.host,
          rw (keeps.same_base blk m.host) ch.0.2,
          λ x g. keeps.same_base blk m.host ∙ ch.1 x g,
        )
        | inr (full, q) ↦
            inr (
              no_host_memory,
              (a.alloc blk m.host).2,
              e ∙ q,
              Refused.host_full b addr refl i ch full,
            )
      ]
    where
      blk : AllocatedBlock
      blk = request args addr

-- On a valid manager, for 64-bit arguments with no hint or an enforced one and a host allocator that
-- keeps the block, allocate() never aborts. Either it returns a new block of the requested size and
-- masked flags, at an aligned address, at the hint if there is one; the manager is valid again, and
-- it has the old blocks and the new one. Or it returns an error and changes nothing but the host's
-- state, and the error has its reason: the arguments, a hint that is not aligned, no free block
-- that has room, or a host allocation that failed.
pub allocate_lem :
    {H : Type 0} (a : HostAllocator H) (m : MemoryManager H) (args : AllocArgs)
    → KeepsBlock a
    → IsValid m
    → InRange args
    → HasStrictHint args
    → AllocateResult a m args (allocate a args m)
allocate_lem a m args keeps v ir strict = elim (target-Target a m args v ir strict) [
  | inl (b, addr, q, i, pos, ch) ↦
      choice-Result a m args b addr keeps v pos i ch (allocate-ok a m args q)
  | inr (e, q, why) ↦ inr (e, m.host, allocate-err a m args q, why)
]
