-- ===== src/Memory/Allocate/LooseHint.antt =====
-- A hint that is not enforced: MemoryManager::allocate falls back to the start of the free block at
-- the hint and does not look at the size of that block.
use das_hle.Base.{
  ℕ, ◌+◌, ◌-◌, ◌≤◌, ◌<◌, ◌≡◌, refl, ◌∙◌, ap, In, List, inl, inr, arith, true, false, ok, some,
}
use das_hle.Word.{word, add64, add64_lem, sub64, sub64_lem, sub64_wraps}
use das_hle.SortedSet.{insert, erase}
use das_hle.SortedSet.Laws.{In-insert_any}
use das_hle.Memory.{
  AllocatedBlock, FreeBlock, AllocArgs, HostAllocator, MemoryManager, has_flag, force_hint,
  free_less,
}
use das_hle.Memory.Allocate.{
  check_args, check_hint, place, place_exact, allocate, commit, insert_part, block_at_hint,
}
use das_hle.Memory.Allocate.Checks.{InRange, check_args-prefix}
use das_hle.Memory.Allocate.Placement.{At, block_at_hint_cases, place_at_hint-zero}
use das_hle.Memory.Allocate.Commit.{KeepsBlock, request, host_alloc_lem, allocate_in-host}
use das_hle.Memory.Find.BestFit.{free_blocks-EndsBelow}
use das_hle.Memory.Layout.{IsValid}
use das_hle.Memory.Layout.Gaps.{free_order, gaps_bounds}
use das_hle.Memory.Layout.Lookup.{gaps_apart}

-- A request at the hint h that is not enforced, in a free block that is too small for it.
pub record IsMisfit {H : Type 0} (m : MemoryManager H) (args : AllocArgs) (h : ℕ) (b : FreeBlock)
    : Type 0 where
  pub hinted : args.hint ≡ some h
  pub loose : has_flag args.flags force_hint ≡ false
  pub unaligned : args.alignment ≡ 0
  pub is_free : In b m.free_blocks
  pub at_hint : At b h
  pub too_large : b.size < args.size
  pub available : m.used_memory + args.size ≤ m.max_memory
  pub no_wrap : b.virtual_base + args.size < word

In-insert_part : (p : FreeBlock) (xs : List FreeBlock) → 0 < p.size → In p (insert_part p xs)
unfolding insert_part
In-insert_part p xs pos =
    let same : insert_part p xs ≡ insert free_less p xs = ground arith in
    rw same (In-insert_any free_less free_order p xs)

module _ {H : Type 0} (m : MemoryManager H) (v : IsValid m) (args : AllocArgs) (r : InRange args)
    (h : ℕ) (b : FreeBlock) (mis : IsMisfit m args h b) where
  below : b.virtual_base + b.size < word
  below = free_blocks-EndsBelow m v b mis.is_free

  finds : block_at_hint h m.free_blocks ≡ some b
  finds = elim (block_at_hint_cases h m.free_blocks (free_blocks-EndsBelow m v)) [
    | inl (c, e, i, at) ↦
        elim (gaps_apart c b 0 m.allocated_blocks m.max_memory v.spaced (rw v.free_are_gaps at i)
          (rw v.free_are_gaps at mis.is_free)) [
            | inl q ↦ rw e (ap some q)
            | inr apart ↦ absurd (omega (arith, mis.at_hint))
          ]
    | inr (e, others) ↦ absurd (others b mis.is_free mis.at_hint)
  ]

  passes : check_args args m ≡ ok 0
  passes = elim (check_args-prefix m args v r) [
    | inl (e, _) ↦ e ∙ no_alignment
    | inr (e, _, inl (_, z)) ↦ absurd (omega (arith, mis.too_large))
    | inr (e, _, inr (inl (_, lt))) ↦ absurd (omega (arith, mis.available))
    | inr (e, _, inr (inr (inl (_, ne, _)))) ↦ absurd (ne mis.unaligned)
    | inr (e, _, inr (inr (inr (_, ne, _)))) ↦ absurd (ne mis.unaligned)
  ]
    where
      no_alignment : check_hint args ≡ ok 0
      no_alignment =
          unfold check_hint in rw (mis.hinted, check_hint) (ground (arith, mis.unaligned))

  falls_back : place_exact h args b ≡ some b.virtual_base
  unfolding place_exact
  falls_back =
      rw
        (
          add64_lem b.virtual_base b.size below,
          sub64_lem (b.virtual_base + b.size) h mis.at_hint.1 below,
          mis.loose,
        )
        (ground (arith, mis.at_hint, mis.too_large))

  placed : place m.free_blocks 0 args ≡ ok (b, b.virtual_base)
  unfolding place
  placed = rw (mis.hinted, finds, place) (rw (place_at_hint-zero h args b, falls_back))

  -- The part behind the new block has a negative size, which wraps.
  last : (n : AllocatedBlock) → FreeBlock
  last n = record {
    virtual_base = add64 n.virtual_base n.size;
    size = sub64 (add64 b.virtual_base b.size) (add64 n.virtual_base n.size);
  }

  last_shape :
      (n : AllocatedBlock)
      → n.virtual_base ≡ b.virtual_base
      → n.size ≡ args.size
      → ((last n).virtual_base ≡ b.virtual_base + args.size)
        × ((last n).size ≡ word - (args.size - b.size))
  unfolding last
  last_shape n e f =
      rw
        (
          e,
          f,
          add64_lem b.virtual_base b.size below,
          add64_lem b.virtual_base args.size mis.no_wrap,
          sub64_wraps (b.virtual_base + b.size) (b.virtual_base + args.size)
              (omega (arith, mis.too_large)) mis.no_wrap,
        )
        (refl, omega arith)

  commit-last :
      (host : H) (n : AllocatedBlock) (rest : List FreeBlock)
      → n.virtual_base ≡ b.virtual_base
      → n.size ≡ args.size
      → In (last n) (commit b n (record m { host = host; free_blocks = rest })).1.free_blocks
  unfolding commit insert_part last
  commit-last host n rest e f =
      In-insert_part (last n) _ (omega (arith, last_shape n e f, mis.no_wrap))

  invalid :
      (host : H) (n : AllocatedBlock) (rest : List FreeBlock)
      → n.virtual_base ≡ b.virtual_base
      → n.size ≡ args.size
      → ¬ IsValid (commit b n (record m { host = host; free_blocks = rest })).1
  invalid host n rest e f w =
      let c = (commit b n (record m { host = host; free_blocks = rest })).1 in
      omega (
        arith,
        w.fits,
        gaps_bounds (last n) 0 c.allocated_blocks c.max_memory w.spaced
            (rw w.free_are_gaps at (commit-last host n rest e f)),
        last_shape n e f,
        mis.too_large,
        mis.no_wrap,
      )

  -- For a hint that is not enforced, without an alignment, whose free block is smaller than the
  -- request, where the request passes the checks and the host has memory: the manager is not valid
  -- after allocate().
  pub allocate_misfit :
      (a : HostAllocator H)
      → KeepsBlock a
      → (a.alloc (request args b.virtual_base) m.host).0 ≡ true
      → ¬ IsValid (allocate a args m).1
  unfolding allocate
  allocate_misfit a keeps e =
      let q = a.alloc (request args b.virtual_base) m.host in
      rw (passes, placed, allocate)
        (rw
          (allocate_in-host a keeps m args b b.virtual_base true q.1 q.2
            (erase free_less b m.free_blocks)
            (host_alloc_lem a keeps (request args b.virtual_base) m.host
              ∙ ap (λ d. (ok (d, q.1), q.2)) e)
            refl)
          (invalid q.2 q.1 (erase free_less b m.free_blocks)
            (keeps.same_base (request args b.virtual_base) m.host)
            (keeps.same_size (request args b.virtual_base) m.host)))
