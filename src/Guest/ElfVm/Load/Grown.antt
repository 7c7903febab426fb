-- ===== src/Guest/ElfVm/Load/Grown.antt =====
-- What mapping a segment in loadBinary of source/DasHLE/Guest/ELFVM.cpp leaves of the other blocks.
use das_hle.Base.{
  ℕ, ◌+◌, ◌≤◌, ◌<◌, ◌≡◌, ◌≢◌, refl, sym, ap, subst, ◌∙◌, In, inl, inr, List, [], ◌∷◌, ◌++◌, Outcome,
  ok, arith,
}
use das_hle.Word.{add64}
use das_hle.HostBytes.{copy_to}
use das_hle.SortedSet.{erase}
use das_hle.Memory.{AllocatedBlock, HostAllocator, MemoryManager, allocated_less}
use das_hle.Memory.Allocate.{allocate}
use das_hle.Memory.Layout.{IsSpaced, IsValid}
use das_hle.Memory.Layout.Gaps.{erase_first, erase_later}
use das_hle.Memory.Layout.Join.{block_bounds}
use das_hle.Elf.{Elf}
use das_hle.Guest.Access.Laws.{IsHostApart}
use das_hle.Guest.Action.{lift, >>=-ok}
use das_hle.Guest.ElfVm.{ElfVm, take_block}
use das_hle.Guest.ElfVm.Segments.{LoadSegmentInfo}
use das_hle.Guest.ElfVm.Load.{slice, segment_args, map_segment}

-- A block that is taken out is at another address than those that are left.
pub erase-apart :
    (n b : AllocatedBlock) (start : ℕ) (xs : List AllocatedBlock) (end : ℕ)
    → IsSpaced start xs end
    → In n xs
    → In b (erase allocated_less n xs)
    → b.virtual_base ≢ n.virtual_base
erase-apart n b start [] end s i j = elim i [ ]
erase-apart n b start (x ∷ xs) end s (inl e) j =
    let gone : In b xs =
      subst (In b) (erase_first x xs) (subst (λ k. In b (erase allocated_less k (x ∷ xs))) e j) in
    let same : n.virtual_base ≡ x.virtual_base = ap (λ (k : AllocatedBlock). k.virtual_base) e in
    let behind = block_bounds b (x.virtual_base + x.size) xs end s.2 gone in
    omega (arith, s, same, behind)
erase-apart n b start (x ∷ xs) end s (inr i) j =
    let behind = block_bounds n (x.virtual_base + x.size) xs end s.2 i in
    let stays = erase_later n x xs behind.1 s.1 (omega (arith, s, behind)) in
    elim (subst (In b) stays j) [
      | inl e ↦
          let same : b.virtual_base ≡ x.virtual_base =
            ap (λ (k : AllocatedBlock). k.virtual_base) e in
          omega (arith, s, same, behind)
      | inr k ↦ erase-apart n b (x.virtual_base + x.size) xs end s.2 i k
    ]

-- Blocks that do not overlap in the host, and fewer of them.
pub IsHostApart-sub :
    {H : Type 0} (m n : MemoryManager H)
    → ((b : AllocatedBlock) → In b m.allocated_blocks → In b n.allocated_blocks)
    → IsHostApart n
    → IsHostApart m
IsHostApart-sub m n sub host = record {
  host_fits = λ b i. host.host_fits b (sub b i);
  apart = λ b c i j ne. host.apart b c (sub b i) (sub c j) ne;
}

-- What mapping segments keeps: the blocks and, where those of the new state do not overlap in the host,
-- the bytes in them.
pub record Grown {H I J K : Type 0} (s t : ElfVm H I J K) : Type 0 where
  pub valid : IsValid t.mem
  pub same_page : t.page_size ≡ s.page_size
  pub kept : (b : AllocatedBlock) → In b s.mem.allocated_blocks → In b t.mem.allocated_blocks
  pub same_bytes :
      IsHostApart t.mem
      → (b : AllocatedBlock) (y : ℕ) → In b s.mem.allocated_blocks
      → b.host_base ≤ y
      → y < b.host_base + b.size
      → t.bytes y ≡ s.bytes y

module _ {H I J K : Type 0} where
  pub Grown-none : (s : ElfVm H I J K) → IsValid s.mem → Grown s s
  Grown-none s v = record {
    valid = v;
    same_page = refl;
    kept = λ b i. i;
    same_bytes = λ host b y i lo hi. refl;
  }

  pub Grown-trans : (s t u : ElfVm H I J K) → Grown s t → Grown t u → Grown s u
  Grown-trans s t u g h = record {
    valid = h.valid;
    same_page = h.same_page ∙ g.same_page;
    kept = λ b i. h.kept b (g.kept b i);
    same_bytes = λ host b y i lo hi.
        h.same_bytes host b y (g.kept b i) lo hi
        ∙ g.same_bytes (IsHostApart-sub t.mem u.mem h.kept host) b y i lo hi;
  }

abbrev pub outcome_of : {S A : Type 0} → Outcome A × S → Outcome A
outcome_of r = r.0

abbrev pub state_of : {S A : Type 0} → Outcome A × S → S
state_of r = r.1

module _ {H I J K : Type 0} (a : HostAllocator H) (base : ℕ) (info : LoadSegmentInfo)
    (s : ElfVm H I J K) where
  -- The state once the segment is in the block.
  abbrev pub placed : AllocatedBlock → List ℕ → ElfVm H I J K
  placed b content = record s {
    mem = (allocate a (segment_args s.page_size base info) s.mem).1;
    bytes = copy_to (add64 b.host_base info.mem_data_offset) content s.bytes;
    loaded_segments = s.loaded_segments ++ (b.virtual_base ∷ []);
  }

  pub map_segment-placed :
      (elf : Elf) (t : ElfVm H I J K)
      → map_segment a elf base info s ≡ (ok tt, t)
      → (b : AllocatedBlock) × (content : List ℕ) × ((allocate a
            (segment_args s.page_size base info)
            s.mem).0
          ≡ ok b)
        × (slice info.file_data_offset info.file_data_size elf.buffer ≡ ok content)
        × (t ≡ placed b content)
  unfolding map_segment take_block
  map_segment-placed elf t h =
      let args = segment_args s.page_size base info in
      let (b, u, e, k) = >>=-ok (take_block a args) _ s t h in
      let (content, w, e2, k2) =
        >>=-ok (lift (slice info.file_data_offset info.file_data_size elf.buffer)) _ u t k in
      (
        b,
        content,
        ap outcome_of e,
        ap outcome_of e2,
        sym (ap state_of k2)
            ∙ ap (put_in b content) (sym (ap state_of e2))
            ∙ ap (put_in b content) (sym (ap state_of e)),
      )
    where
      put_in : AllocatedBlock → List ℕ → ElfVm H I J K → ElfVm H I J K
      put_in b content u = record u {
        bytes = copy_to (add64 b.host_base info.mem_data_offset) content u.bytes;
        loaded_segments = u.loaded_segments ++ (b.virtual_base ∷ []);
      }
