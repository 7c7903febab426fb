-- ===== src/Guest/ElfVm/Load/Placed.antt =====
-- Where loadBinary of source/DasHLE/Guest/ELFVM.cpp puts the segments' parts of the file.
use das_hle.Base.{
  ℕ, ◌+◌, ◌≤◌, ◌<◌, ◌≡◌, ◌≢◌, refl, sym, ap, subst, ◌∙◌, In, ◌⊎◌, inl, inr, true, Bool-cases, ltb,
  List, [], ◌∷◌, length, take, drop, get_elem?, some, ok, arith,
}
use das_hle.Word.{word, add64, add64_lem}
use das_hle.HostBytes.{copy_to}
use das_hle.HostBytes.Copy.{copy_to-elsewhere, copy_to-at, get_elem?-slice, length-take_le}
use das_hle.SortedSet.Laws.{In-erase}
use das_hle.Memory.{
  AllocatedBlock, HostAllocator, MemoryManager, allocated_less, has_flag, perm_read,
}
use das_hle.Memory.Allocate.{allocate}
use das_hle.Memory.Allocate.Commit.{KeepsBlock}
use das_hle.Memory.Allocate.Returned.{Returned, allocate-Returned}
use das_hle.Memory.Layout.{IsValid}
use das_hle.Elf.{Elf}
use das_hle.Guest.Access.Laws.{IsHostApart}
use das_hle.Guest.Action.{>>=-ok}
use das_hle.Guest.ElfVm.{ElfVm}
use das_hle.Guest.ElfVm.Segments.{LoadSegmentInfo}
use das_hle.Guest.ElfVm.Segments.Bounds.{HasSizes}
use das_hle.Guest.ElfVm.Load.{slice, segment_args, map_segment, map_segments}
use das_hle.Guest.ElfVm.Load.Keeps.{segment-strict, segment-InRange}
use das_hle.Guest.ElfVm.Load.Grown.{
  erase-apart, IsHostApart-sub, Grown, Grown-none, Grown-trans, state_of, placed,
  map_segment-placed,
}

-- A segment's allocation has room for what is copied into it.
abbrev pub HasRoom : LoadSegmentInfo → Type 0
HasRoom info = info.mem_data_offset + info.file_data_size ≤ info.alloc_size

abbrev pub HaveRoom : List LoadSegmentInfo → Type 0
HaveRoom infos = (info : LoadSegmentInfo) → In info infos → HasRoom info

slice-parts :
    (offset size : ℕ) (buffer content : List ℕ)
    → slice offset size buffer ≡ ok content
    → take size (drop offset buffer) ≡ content
unfolding slice
slice-parts offset size buffer content h = elim (Bool-cases (ltb (length buffer) (offset + size))) [
  | inl short ↦ absurd (cc (rw short at h))
  | inr long ↦ let found : ok (take size (drop offset buffer)) ≡ ok content = rw long at h in cc
]

-- The segment's part of the file stands in the block, in the host's memory.
pub record InHost {H I J K : Type 0} (buffer : List ℕ) (base : ℕ) (info : LoadSegmentInfo)
    (s : ElfVm H I J K) : Type 0 where
  pub block : AllocatedBlock
  pub present : In block s.mem.allocated_blocks
  pub at_base : block.virtual_base ≡ add64 base info.alloc_offset
  pub has_size : block.size ≡ info.alloc_size
  pub readable : has_flag block.flags perm_read ≡ true
  pub content :
      IsHostApart s.mem
      → (i c : ℕ) → i < info.file_data_size
      → get_elem? buffer (info.file_data_offset + i) ≡ some c
      → s.bytes (block.host_base + (info.mem_data_offset + i)) ≡ c

module _ {H I J K : Type 0} (a : HostAllocator H) (keeps : KeepsBlock a) (elf : Elf)
    (base : ℕ) where
  module _ (info : LoadSegmentInfo) (s : ElfVm H I J K) (v : IsValid s.mem)
      (page : s.page_size < word) (fits : info.alloc_size < word) (room : HasRoom info) where
    abbrev new_mem : MemoryManager H
    new_mem = (allocate a (segment_args s.page_size base info) s.mem).1

    map_segment-Returned :
        (b : AllocatedBlock)
        → (allocate a (segment_args s.page_size base info) s.mem).0 ≡ ok b
        → Returned s.mem new_mem (segment_args s.page_size base info) b
    map_segment-Returned b e =
        allocate-Returned a s.mem new_mem (segment_args s.page_size base info) b keeps v
          (segment-InRange s.page_size base info page fits) (segment-strict s.page_size base info)
          (ap (λ o. (o, new_mem)) e)

    placed-Grown :
        (b : AllocatedBlock) (content : List ℕ)
        → Returned s.mem new_mem (segment_args s.page_size base info) b
        → length content ≤ info.file_data_size
        → Grown s (placed a base info s b content)
    placed-Grown b content r short = record {
      valid = r.valid;
      same_page = refl;
      kept = kept;
      same_bytes = λ host c y i lo hi.
          let off = copy-in host in
          let ends = host.apart c b (kept c i) r.present (other c i) in
          copy_to-elsewhere (add64 b.host_base info.mem_data_offset) y content s.bytes
            (outside y c lo hi off ends);
    }
      where
        copy-in :
            IsHostApart new_mem
            → add64 b.host_base info.mem_data_offset ≡ b.host_base + info.mem_data_offset
        copy-in host =
            add64_lem b.host_base info.mem_data_offset
              (omega (arith, room, r.requested_size, host.host_fits b r.present))

        other : (c : AllocatedBlock) → In c s.mem.allocated_blocks → c.virtual_base ≢ b.virtual_base
        other c i =
            erase-apart b c 0 new_mem.allocated_blocks new_mem.max_memory r.valid.spaced r.present
              (subst (In c) (sym r.removable) i)

        outside :
            (y : ℕ) (c : AllocatedBlock)
            → c.host_base ≤ y
            → y < c.host_base + c.size
            → add64 b.host_base info.mem_data_offset ≡ b.host_base + info.mem_data_offset
            → (c.host_base + c.size ≤ b.host_base) ⊎ (b.host_base + b.size ≤ c.host_base)
            → (y < add64 b.host_base info.mem_data_offset)
              ⊎ (add64 b.host_base info.mem_data_offset + length content ≤ y)
        outside y c lo hi off (inl before) = inl (omega arith)
        outside y c lo hi off (inr behind) = inr (omega (arith, room, r.requested_size))

        kept : (c : AllocatedBlock) → In c s.mem.allocated_blocks → In c new_mem.allocated_blocks
        kept c i =
            In-erase allocated_less c b new_mem.allocated_blocks (subst (In c) (sym r.removable) i)

    placed-InHost :
        (b : AllocatedBlock) (content : List ℕ)
        → Returned s.mem new_mem (segment_args s.page_size base info) b
        → slice info.file_data_offset info.file_data_size elf.buffer ≡ ok content
        → InHost elf.buffer base info (placed a base info s b content)
    placed-InHost b content r sl = record {
      block = b;
      present = r.present;
      at_base = r.at_hint (add64 base info.alloc_offset) refl;
      has_size = r.requested_size;
      readable = ap (λ f. has_flag f perm_read) r.requested_flags ∙ readable;
      content = λ host i c lt e.
          let is_slice =
            slice-parts info.file_data_offset info.file_data_size elf.buffer content sl in
          let here : get_elem? content i ≡ some c =
            ap (λ xs. get_elem? xs i) (sym is_slice)
            ∙ get_elem?-slice info.file_data_size info.file_data_offset i elf.buffer lt
            ∙ e in
          let off =
            add64_lem b.host_base info.mem_data_offset
              (omega (arith, room, r.requested_size, host.host_fits b r.present)) in
          let place : b.host_base + (info.mem_data_offset + i)
              ≡ add64 b.host_base info.mem_data_offset + i =
            omega (arith, off) in
          ap (copy_to (add64 b.host_base info.mem_data_offset) content s.bytes) place
          ∙ copy_to-at (add64 b.host_base info.mem_data_offset) i c content s.bytes here;
    }
      where
        readable : has_flag 3 perm_read ≡ true
        readable = unfold has_flag in refl

    map_segment-InHost :
        (t : ElfVm H I J K)
        → map_segment a elf base info s ≡ (ok tt, t)
        → Grown s t × InHost elf.buffer base info t
    map_segment-InHost t h =
        let (b, content, e, sl, q) = map_segment-placed a base info s elf t h in
        let r = map_segment-Returned b e in
        let is_slice =
          slice-parts info.file_data_offset info.file_data_size elf.buffer content sl in
        let short = length-take_le info.file_data_size (drop info.file_data_offset elf.buffer) in
        subst (λ (u : ElfVm H I J K). Grown s u × InHost elf.buffer base info u) (sym q)
          (
            placed-Grown b content r (subst (λ xs. length xs ≤ info.file_data_size) is_slice short),
            placed-InHost b content r sl,
          )

  InHost-Grown :
      (info : LoadSegmentInfo) (s t : ElfVm H I J K)
      → HasRoom info
      → Grown s t
      → InHost elf.buffer base info s
      → InHost elf.buffer base info t
  InHost-Grown info s t room g p = record {
    block = p.block;
    present = g.kept p.block p.present;
    at_base = p.at_base;
    has_size = p.has_size;
    readable = p.readable;
    content = λ host i c lt e.
        g.same_bytes host p.block (p.block.host_base + (info.mem_data_offset + i)) p.present
          (omega arith) (omega (arith, room, p.has_size))
        ∙ p.content (IsHostApart-sub s.mem t.mem g.kept host) i c lt e;
  }

  pub map_segments-InHost :
      (infos : List LoadSegmentInfo) (s t : ElfVm H I J K)
      → IsValid s.mem
      → s.page_size < word
      → HasSizes infos
      → HaveRoom infos
      → map_segments a elf base infos s ≡ (ok tt, t)
      → Grown s t × ((info : LoadSegmentInfo) → In info infos → InHost elf.buffer base info t)
  unfolding map_segments
  map_segments-InHost [] s t v page sizes room h =
      let same : s ≡ t = ap state_of h in
      (subst (λ (u : ElfVm H I J K). Grown s u) same (Grown-none s v), λ info i. elim i [ ])
  map_segments-InHost (info ∷ rest) s t v page sizes room h =
      let (u, w, e, k) =
        >>=-ok (map_segment a elf base info) (λ x. map_segments a elf base rest) s t h in
      let (g, here) =
        map_segment-InHost info s v page (sizes info (inl refl)) (room info (inl refl)) w e in
      let (g2, others) =
        map_segments-InHost rest w t g.valid (rw g.same_page page) (λ i place. sizes i (inr place))
          (λ i place. room i (inr place)) k in
      (
        Grown-trans s w t g g2,
        λ i place. elim place [
          | inl same ↦
              subst (λ (x : LoadSegmentInfo). InHost elf.buffer base x t) (sym same)
                (InHost-Grown info w t (room info (inl refl)) g2 here)
          | inr later ↦ others i later
        ],
      )
