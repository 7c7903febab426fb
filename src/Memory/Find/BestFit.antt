-- ===== src/Memory/Find/BestFit.antt =====
-- findFreeBlock, findFreeAddr and blockFromVAddr of source/DasHLE/Host/Memory.cpp on a valid
-- manager.
use das_hle.Base.{
  ℕ, ◌≤◌, ◌≡◌, refl, subst, ap, List, In, ◌⊎◌, inl, inr, arith, false, Outcome, ok, err,
  no_virtual_memory, not_found, ◌↔◌,
}
use das_hle.Word.{word}
use das_hle.SortedSet.{lower_bound}
use das_hle.SortedSet.Sorted.{Sorted, lower_bound-Sorted, In-lower_bound, lower_bound-sub}
use das_hle.SortedSet.Laws.{lower_bound-In}
use das_hle.Memory.{AllocatedBlock, FreeBlock, MemoryManager, free_less}
use das_hle.Memory.Find.{find_free_block, find_free_addr, block_from_vaddr}
use das_hle.Memory.Find.Fit.{Fitting, IsRequest, EndsBelow, HasNoRoom, IsStart, find_from-Fitting}
use das_hle.Memory.Layout.{IsValid}
use das_hle.Memory.Layout.Gaps.{free_order, gaps_bounds, gaps-Sorted}
use das_hle.Memory.Layout.Lookup.{Contains, Misses, find-Found, Contains-unique}

abbrev size_key : ℕ → FreeBlock
size_key n = record { virtual_base = 0; size = n }

small_iff : (n : ℕ) (b : FreeBlock) → (free_less b (size_key n) ≡ false) ↔ (n ≤ b.size)
unfolding free_less
small_iff n b = ground arith

-- For a size above 0 and an alignment that is 0 or a power of two up to the size:
-- findFreeBlock finds the smallest free block, and of those the one with the lowest address, in
-- which the request has room at an aligned address; it returns NoVirtualMemory exactly where no free
-- block has room. The set is any ordered one whose blocks end below 2 ^ 64.
pub find_free_block-Fitting :
    (n a : ℕ) (xs : List FreeBlock)
    → IsRequest n a
    → Sorted free_less xs
    → EndsBelow xs word
    → Fitting n a xs (find_free_block xs n a)
unfolding find_free_block
find_free_block-Fitting n a xs r s below = widen (
    find_from-Fitting n a tail r (lower_bound-sub free_less free_order (size_key n) xs s)
      (λ b h. (small_iff n b).0 (lower_bound-Sorted free_less free_order b (size_key n) xs s h))
      (λ b h. below b (lower_bound-In free_less b (size_key n) xs h)))
  where
    tail : List FreeBlock
    tail = lower_bound free_less (size_key n) xs

    small-HasNoRoom : (c : FreeBlock) → In c xs → (In c tail → HasNoRoom n a c) → HasNoRoom n a c
    small-HasNoRoom c h k addr i =
        k
          (In-lower_bound free_less free_order c (size_key n) xs h
            ((small_iff n c).1 (omega arith)))
          addr i

    widen : {q : Outcome FreeBlock} → Fitting n a tail q → Fitting n a xs q
    widen (inl (b, addr, e, h, f, i, before)) = inl (
      b,
      addr,
      e,
      lower_bound-In free_less b (size_key n) xs h,
      f,
      i,
      λ c j k. small-HasNoRoom c j (λ t. before c t k),
    )
    widen (inr (e, none_fits)) = inr (e, λ c j. small-HasNoRoom c j (none_fits c))

module _ {H : Type 0} (m : MemoryManager H) (v : IsValid m) where
  pub free_blocks-Sorted : Sorted free_less m.free_blocks
  free_blocks-Sorted = rw v.free_are_gaps (gaps-Sorted 0 m.allocated_blocks m.max_memory)

  pub free_blocks-EndsBelow : EndsBelow m.free_blocks word
  free_blocks-EndsBelow b h = omega (
    arith,
    v.fits,
    gaps_bounds b 0 m.allocated_blocks m.max_memory v.spaced (rw v.free_are_gaps at h),
  )

  -- findFreeAddr on a valid manager, for a size above 0 and an alignment that is 0 or a power of two
  -- up to the size: an aligned address at which the request has room in a free
  -- block, or NoVirtualMemory where no free block has room.
  pub find_free_addr_lem :
      (n a : ℕ)
      → IsRequest n a
      → ((b : FreeBlock) × (addr : ℕ) × (find_free_addr n a m ≡ ok addr)
          × In b m.free_blocks
          × IsStart n a b addr)
        ⊎ ((find_free_addr n a m ≡ err no_virtual_memory)
            × ((b : FreeBlock) → In b m.free_blocks → HasNoRoom n a b))
  unfolding find_free_addr
  find_free_addr_lem n a r =
      elim (find_free_block-Fitting n a m.free_blocks r free_blocks-Sorted free_blocks-EndsBelow) [
        | inl (b, addr, e, h, f, i, before) ↦ inl (b, addr, rw (e, find_free_addr) f, h, i)
        | inr (e, rest) ↦ inr (rw (e, find_free_addr), rest)
      ]

  -- blockFromVAddr on a valid manager returns a block exactly where it is an allocated block that
  -- contains the address, and otherwise the error NotFound.
  pub block_from_vaddr_lem :
      (vaddr : ℕ)
      → ((b : AllocatedBlock)
          → (block_from_vaddr vaddr m ≡ ok b) ↔ (In b m.allocated_blocks × Contains b vaddr))
        × ((block_from_vaddr vaddr m ≡ err not_found)
            ↔ ((b : AllocatedBlock) → In b m.allocated_blocks → Misses b vaddr))
  unfolding block_from_vaddr
  block_from_vaddr_lem vaddr =
      elim (find-Found vaddr 0 m.allocated_blocks m.max_memory v.fits v.spaced) [
        | inl (c, e, h, k) ↦
            rw (e, block_from_vaddr)
              (
                λ b. (
                  λ q.
                      subst (λ x. In x m.allocated_blocks × Contains x vaddr) (ok-injective c b q)
                        (h, k),
                  λ (i, d). ap ok (
                      Contains-unique c b vaddr 0 m.allocated_blocks m.max_memory v.spaced h i k d),
                ),
                (λ q. cc, λ miss. absurd (omega (arith, miss c h, k))),
              )
        | inr (e, miss) ↦
            rw (e, block_from_vaddr)
              (
                λ b. (λ q. cc, λ (i, d). absurd (omega (arith, miss b i, d))),
                (λ q. miss, λ q. refl),
              )
      ]
    where
      ok-injective : (c b : AllocatedBlock) → ok c ≡ ok b → c ≡ b
      ok-injective c b q = cc
