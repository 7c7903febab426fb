-- ===== src/Memory/Allocate/Commit.antt =====
-- The second half of allocate(): the host allocation, and the split of the free block.
use native.Mathlib.Decide.{ℕ_discrete}
use das_hle.Base.{
  ℕ, ◌+◌, ◌≤◌, ◌<◌, ◌≡◌, refl, ◌∙◌, sym, ap, List, In, ◌⊎◌, inl, inr, arith, Bool, true, false,
  Outcome, ok, err, no_host_memory, if◌then◌else◌, eq_refl, bit_and, Bool-cases,
}
use das_hle.Word.{word, add64, add64_lem, sub64, sub64_lem}
use das_hle.SortedSet.{insert, erase}
use das_hle.SortedSet.Laws.{erase-insert, In-insert_self}
use das_hle.Memory.{
  AllocatedBlock, FreeBlock, AllocArgs, HostAllocator, MemoryManager, allocated_less, free_less,
  perm_mask,
}
use das_hle.Memory.Allocate.{insert_part, commit, host_alloc, allocate_in}
use das_hle.Memory.Layout.{IsValid, gap_block, put_gap, gaps}
use das_hle.Memory.Layout.Gaps.{put_gap_eq, put_gap_ne, free_order, gaps_bounds, total-le}
use das_hle.Memory.Layout.Carve.{Carve, carve, IsInside}

-- "Allocators shall not modify block values": alloc() may change the host base only.
pub record KeepsBlock {H : Type 0} (a : HostAllocator H) : Type 0 where
  pub same_base : (b : AllocatedBlock) (h : H) → (a.alloc b h).1.virtual_base ≡ b.virtual_base
  pub same_size : (b : AllocatedBlock) (h : H) → (a.alloc b h).1.size ≡ b.size
  pub same_flags : (b : AllocatedBlock) (h : H) → (a.alloc b h).1.flags ≡ b.flags

insert_part-put_gap :
    (a b : ℕ) (xs : List FreeBlock) → a ≤ b → insert_part (gap_block a b) xs ≡ put_gap a b xs
unfolding insert_part
insert_part-put_gap a b xs le = elim (ℕ_discrete a b) [
  | yes e ↦ rw (put_gap_eq a b xs e) (ground arith)
  | no ne ↦ rw (put_gap_ne a b xs ne) (ground arith)
]

-- The block that allocate() passes to the host allocator.
abbrev pub request : AllocArgs → ℕ → AllocatedBlock
request args base = record {
  host_base = 0;
  virtual_base = base;
  size = args.size;
  flags = bit_and args.flags perm_mask;
}

-- What allocating the block n leaves of the manager m.
pub record Allocated {H : Type 0} (m : MemoryManager H) (n : AllocatedBlock) (h : H)
    (r : Outcome AllocatedBlock × MemoryManager H) : Type 0 where
  pub returns : r.0 ≡ ok n
  pub valid : IsValid r.1
  pub added : r.1.allocated_blocks ≡ insert allocated_less n m.allocated_blocks
  pub present : In n r.1.allocated_blocks
  pub removable : erase allocated_less n r.1.allocated_blocks ≡ m.allocated_blocks
  pub host_allocated : r.1.host ≡ h
  pub same_max : r.1.max_memory ≡ m.max_memory
  pub taken : r.1.used_memory ≡ m.used_memory + n.size

module _ {H : Type 0} (m : MemoryManager H) (v : IsValid m) (g : FreeBlock) (n : AllocatedBlock)
    (below : g.virtual_base + g.size ≤ m.max_memory) (i : IsInside n g)
    (c : Carve n g 0 m.allocated_blocks m.max_memory) where
  split-gaps :
      insert_part
        (record {
          virtual_base = add64 n.virtual_base n.size;
          size = sub64 (add64 g.virtual_base g.size) (add64 n.virtual_base n.size);
        })
        (insert_part
          (record { virtual_base = g.virtual_base; size = sub64 n.virtual_base g.virtual_base })
          c.rest)
      ≡ gaps 0 (insert allocated_less n m.allocated_blocks) m.max_memory
  split-gaps =
      rw
        (
          add64_lem n.virtual_base n.size (omega (arith, v.fits)),
          add64_lem g.virtual_base g.size (omega (arith, v.fits)),
          sub64_lem (g.virtual_base + g.size) (n.virtual_base + n.size) i.2 (omega (arith, v.fits)),
          sub64_lem n.virtual_base g.virtual_base i.1 (omega (arith, v.fits)),
          insert_part-put_gap g.virtual_base n.virtual_base c.rest i.1,
          insert_part-put_gap (n.virtual_base + n.size) (g.virtual_base + g.size) _ i.2,
        )
        (sym c.split)

  fits-used : m.used_memory + n.size < word
  fits-used = omega (arith, total-le 0 _ m.max_memory c.spaced, c.total, v.used_is_total, v.fits)

  pub commit-Allocated :
      (h : H) → Allocated m n h (commit g n (record m { host = h; free_blocks = c.rest }))
  unfolding commit
  commit-Allocated h = record {
    returns = rw c.is_new;
    valid = record {
      fits = v.fits;
      spaced = c.spaced;
      free_are_gaps = split-gaps;
      used_is_total = added_size ∙ omega (arith, c.total, v.used_is_total);
    };
    added = refl;
    present = In-insert_self allocated_less n m.allocated_blocks c.is_new;
    removable = c.undone;
    host_allocated = refl;
    same_max = refl;
    taken = added_size;
  }
    where
      added_size : add64 m.used_memory n.size ≡ m.used_memory + n.size
      added_size = add64_lem m.used_memory n.size fits-used

-- Where the host allocator fails, allocate_in() leaves the sets as they were.
abbrev pub host_failed :
    {H : Type 0} → MemoryManager H → H → Outcome AllocatedBlock × MemoryManager H
host_failed m h = (err no_host_memory, record m { host = h })

module _ {H : Type 0} (a : HostAllocator H) (keeps : KeepsBlock a) where
  pub host_alloc_lem :
      (b : AllocatedBlock) (h : H)
      → host_alloc a b h ≡ (ok ((a.alloc b h).0, (a.alloc b h).1), (a.alloc b h).2)
  unfolding host_alloc
  host_alloc_lem b h =
      rw (keeps.same_base b h, keeps.same_size b h, keeps.same_flags b h)
        (ground (arith, eq_refl b.virtual_base, eq_refl b.size, eq_refl b.flags))

  -- What follows the host allocation.
  pub allocate_in-host :
      (m : MemoryManager H) (args : AllocArgs) (g : FreeBlock) (base : ℕ) (done : Bool)
      (n : AllocatedBlock) (h : H) (rest : List FreeBlock)
      → host_alloc a (request args base) m.host ≡ (ok (done, n), h)
      → erase free_less g m.free_blocks ≡ rest
      → allocate_in a args g base m ≡ (
          if done
          then commit g n (record m { host = h; free_blocks = rest })
          else (err no_host_memory, record m { host = h; free_blocks = insert free_less g rest }))
  unfolding allocate_in
  allocate_in-host m args g base true n h rest e f = rw (e, f, allocate_in) (rw e)
  allocate_in-host m args g base false n h rest e f = rw (e, f, allocate_in) (rw e)

  -- In a gap with room for the block, either the host allocation fails, and only the host's state
  -- changes, or the block is allocated.
  pub allocate_in-Allocated :
      (m : MemoryManager H) (args : AllocArgs) (g : FreeBlock) (base : ℕ)
      → IsValid m
      → In g m.free_blocks
      → IsInside (request args base) g
      → let r = a.alloc (request args base) m.host in
        ((r.0 ≡ true) × Allocated m r.1 r.2 (allocate_in a args g base m))
        ⊎ ((r.0 ≡ false) × (allocate_in a args g base m ≡ host_failed m r.2))
  allocate_in-Allocated m args g base v h i = elim (Bool-cases r.0) [
    | inl e ↦ inl (e, rw (host_result e) (commit-Allocated m v g n (bounds.2) inside c r.2))
    | inr e ↦ inr (
      e,
      rw (host_result e)
          (ap (λ xs. (err no_host_memory, record m { host = r.2; free_blocks = xs })) (sym whole)),
    )
  ]
    where
      r : Bool × AllocatedBlock × H
      r = a.alloc (request args base) m.host

      n : AllocatedBlock
      n = r.1

      inside : IsInside n g
      inside =
          rw
            (keeps.same_base (request args base) m.host, keeps.same_size (request args base) m.host)
            i

      gap : In g (gaps 0 m.allocated_blocks m.max_memory)
      gap = rw v.free_are_gaps at h

      bounds : (0 ≤ g.virtual_base) × (0 < g.size) × (g.virtual_base + g.size ≤ m.max_memory)
      bounds = gaps_bounds g 0 m.allocated_blocks m.max_memory v.spaced gap

      c : Carve n g 0 m.allocated_blocks m.max_memory
      c = carve n g 0 m.allocated_blocks m.max_memory v.spaced inside gap

      whole : m.free_blocks ≡ insert free_less g c.rest
      whole = v.free_are_gaps ∙ c.whole

      taken : erase free_less g m.free_blocks ≡ c.rest
      taken = rw whole (erase-insert free_less free_order g c.rest c.new)

      host_result :
          {t : Bool}
          → r.0 ≡ t
          → allocate_in a args g base m ≡ (
              if t then commit g n (record m { host = r.2; free_blocks = c.rest }) else (
                err no_host_memory,
                record m { host = r.2; free_blocks = insert free_less g c.rest },
              ))
      host_result {t} e =
          allocate_in-host m args g base t n r.2 c.rest
            (host_alloc_lem (request args base) m.host ∙ ap (λ d. (ok (d, n), r.2)) e) taken
