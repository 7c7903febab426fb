-- ===== src/Memory/Manager/Laws.antt =====
-- What the constructor and reset() of MemoryManager do.
use das_hle.Base.{ℕ, ◌-◌, ◌<◌, ◌≡◌, refl, ap, ◌∙◌, List, [], ◌∷◌, true, ok, ◌↔◌, arith}
use das_hle.Word.{word, sub64_lem}
use das_hle.SortedSet.{insert, inserts}
use das_hle.Memory.{AllocatedBlock, HostAllocator, MemoryManager, available_memory, free_less}
use das_hle.Memory.Manager.{initialize, free_all, finalize, create, reset}
use das_hle.Memory.Layout.{IsValid, gap_block, gaps, total_size}
use das_hle.Memory.Layout.Gaps.{put_gap_ne, used-le-max}

-- The manager with all of its address space free.
abbrev emptied : {H : Type 0} → MemoryManager H → H → MemoryManager H
emptied m h = record m {
  host = h;
  allocated_blocks = [];
  free_blocks = record { virtual_base = 0; size = m.max_memory } ∷ [];
}

emptied-IsValid :
    {H : Type 0} (m : MemoryManager H) (h : H)
    → 0 < m.max_memory
    → m.max_memory < word
    → IsValid (emptied m h) ↔ (m.used_memory ≡ 0)
unfolding total_size
emptied-IsValid m h pos fits = (
  λ v. v.used_is_total,
  λ z. record {
    fits = fits;
    spaced = omega arith;
    free_are_gaps = unfold gaps in rw (put_gap_ne 0 m.max_memory [] (omega arith)) whole;
    used_is_total = z;
  },
)
  where
    whole :
        record { virtual_base = 0; size = m.max_memory } ∷ []
        ≡ insert free_less (gap_block 0 m.max_memory) []
    whole = unfold insert in ground arith

initialize_lem :
    {H : Type 0} (a : HostAllocator H) (m : MemoryManager H)
    → m.allocated_blocks ≡ []
    → m.free_blocks ≡ []
    → (a.initialize m.host).0 ≡ true
    → initialize a m ≡ (ok tt, emptied m (a.initialize m.host).1)
unfolding initialize insert inserts
initialize_lem a m p q e = rw (e, q, initialize) (ground arith)

abbrev blank : {H : Type 0} → H → ℕ → MemoryManager H
blank h size = record {
  host = h;
  allocated_blocks = [];
  free_blocks = [];
  max_memory = size;
  used_memory = 0;
}

-- The host's free of each of the blocks, from the first on, takes the host from a state to another.
pub data Frees {H : Type 0} (a : HostAllocator H) : List AllocatedBlock → H → H → Type 0 where
  no_block : {h : H} → Frees a [] h h
  one_block :
      {block : AllocatedBlock} {rest : List AllocatedBlock} {h t : H}
      → Frees a rest (a.free block h).1 t
      → Frees a (block ∷ rest) h t

module _ {H : Type 0} (a : HostAllocator H) where
  Frees-free_all :
      (blocks : List AllocatedBlock) (h t : H) → Frees a blocks h t → free_all a blocks h ≡ t
  unfolding free_all
  Frees-free_all _ h _ no_block = refl
  Frees-free_all _ h t (one_block {block} {rest} f) = Frees-free_all rest (a.free block h).1 t f

  -- The constructor, over a host allocator that starts and for a size from 1 to 2 ^ 64 - 1, gives a
  -- valid manager with no allocated block and all of its memory available.
  pub create-IsValid :
      (h : H) (size : ℕ)
      → 0 < size
      → size < word
      → (a.initialize h).0 ≡ true
      → let r = create a h size in
        (r.0 ≡ ok tt)
        × IsValid r.1
        × (r.1.allocated_blocks ≡ [])
        × (r.1.max_memory ≡ size)
        × (available_memory r.1 ≡ size)
  unfolding create
  create-IsValid h size pos fits e = rw (initialize_lem a (blank h size) refl refl e) (
    refl,
    (emptied-IsValid (blank h size) (a.initialize h).1 pos fits).1 refl,
    refl,
    refl,
    unfold available_memory in sub64_lem size 0 (omega arith) fits ∙ omega arith,
  )

  -- reset() of a valid manager of a size above 0, where `freed` is the host's state after the host's
  -- free of every allocated block, each once and from the first on, and the host allocator starts
  -- again after its finalize. The blocks are gone and all of the address space is one free block, but
  -- the used memory is not given back: the manager is valid again exactly if none was used, and the
  -- memory that was used stays unavailable.
  pub reset_lem :
      (m : MemoryManager H) (freed : H)
      → Frees a m.allocated_blocks m.host freed
      → IsValid m
      → 0 < m.max_memory
      → (a.initialize (a.finalize freed)).0 ≡ true
      → let r = reset a m in
        (r.0 ≡ ok tt)
        × (r.1.host ≡ (a.initialize (a.finalize freed)).1)
        × (r.1.allocated_blocks ≡ [])
        × (r.1.free_blocks ≡ record { virtual_base = 0; size = m.max_memory } ∷ [])
        × (available_memory r.1 ≡ m.max_memory - m.used_memory)
        × (IsValid r.1 ↔ (m.used_memory ≡ 0))
  unfolding reset finalize
  reset_lem m freed f v pos e =
      let all : free_all a m.allocated_blocks m.host ≡ freed =
        Frees-free_all m.allocated_blocks m.host freed f in
      let starts : (a.initialize (finalize a m).host).0 ≡ true =
        ap (λ h. (a.initialize (a.finalize h)).0) all ∙ e in
      rw (initialize_lem a (finalize a m) refl refl starts) (
        refl,
        ap (λ h. (a.initialize (a.finalize h)).1) all,
        refl,
        refl,
        unfold available_memory in sub64_lem m.max_memory m.used_memory (used-le-max m v) v.fits,
        emptied-IsValid (finalize a m) _ pos v.fits,
      )
