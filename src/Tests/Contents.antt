-- ===== src/Tests/Contents.antt =====
-- A file with one LOAD segment of four bytes, mapped into an empty memory of 64 KB.
use das_hle.Base.{
  ℕ, ◌+◌, ◌<◌, ◌≡◌, refl, sym, ap, subst, ◌∙◌, inl, inr, In, false, List, [], ◌∷◌, none, ok, arith,
}
use das_hle.Word.{word}
use das_hle.Memory.{AllocatedBlock}
use das_hle.Memory.Layout.{IsValid}
use das_hle.Memory.Manager.{create, default_allocator}
use das_hle.Memory.Manager.Laws.{create-IsValid}
use das_hle.Elf.{Elf, GuestVersion}
use das_hle.Guest.Access.Laws.{IsHostApart}
use das_hle.Guest.ElfVm.{ElfVm, fresh}
use das_hle.Guest.ElfVm.Segments.{LoadSegmentInfo}
use das_hle.Guest.ElfVm.Load.{map_binary}
use das_hle.Guest.ElfVm.Load.Placed.{HasRoom, HaveRoom}
use das_hle.Guest.ElfVm.Load.Mapped.{IsMapped, map_binary-IsMapped}
use das_hle.Tests.Memory.{bump, bump-KeepsBlock}
use das_hle.Tests.Guest.{State, no_bytes}
use das_hle.Tests.Load.{all_bytes-IsBytes}

-- The program header at 0 and the segment at 0x20, for the address 0x20.
abbrev image : List ℕ
image =
    1 ∷ 0 ∷ 0 ∷ 0 ∷ 32 ∷ 0 ∷ 0 ∷ 0 ∷ 32 ∷ 0 ∷ 0 ∷ 0 ∷ 32 ∷ 0 ∷ 0 ∷ 0 ∷ 4 ∷ 0 ∷ 0 ∷ 0 ∷ 0 ∷ 1 ∷ 0 ∷ 0
    ∷ 5 ∷ 0 ∷ 0 ∷ 0 ∷ 0 ∷ 16 ∷ 0 ∷ 0 ∷ 30 ∷ 255 ∷ 47 ∷ 225 ∷ []

abbrev image_elf : Elf
image_elf = record {
  buffer = image;
  version = GuestVersion.armeabi;
  header = none;
  section_headers = [];
  program_headers = record { is_64 = false; at = 0 } ∷ [];
  str_tab = none;
  sym_tab = none;
  relocs = [];
}

abbrev info : LoadSegmentInfo
info = record {
  file_data_offset = 32;
  file_data_size = 4;
  mem_data_offset = 32;
  alloc_offset = 0;
  alloc_size = 0x1000;
  permissions = 5;
}

abbrev before : ElfVm ℕ ℕ ℕ State
before = fresh (create bump 0 0x10000).1 no_bytes 0x1000

abbrev after : ElfVm ℕ ℕ ℕ State
after = (map_binary bump image_elf before).1

abbrev block : AllocatedBlock
block = record { host_base = 0; virtual_base = 0; size = 0x1000; flags = 3 }

maps :
    ((map_binary bump image_elf before).0 ≡ ok (info ∷ [], 0))
    × (after.mem.allocated_blocks ≡ block ∷ [])
unfolding map_binary das_hle.Guest.ElfVm.fresh das_hle.Elf.Dynamic.segments_of_type
    das_hle.Elf.Dynamic.of_type das_hle.Elf.Read.field das_hle.Elf.Read.read
    das_hle.Elf.Read.read_le das_hle.Guest.ElfVm.Segments.segment_infos
    das_hle.Guest.ElfVm.Segments.segment_info das_hle.Elf.Segment.allocation_offset
    das_hle.Elf.Segment.offset_of das_hle.Align.align_down das_hle.Align.is_power_of_two
    das_hle.Elf.Segment.allocation_size das_hle.Elf.Segment.size_of das_hle.Align.align_up
    das_hle.Memory.Find.find_free_addr das_hle.Memory.Find.find_free_block
    das_hle.SortedSet.lower_bound das_hle.Elf.Segment.wrap_permission_flags
    das_hle.Guest.ElfVm.Load.map_segment das_hle.Guest.ElfVm.Load.map_segments
    das_hle.Guest.ElfVm.Load.place_binary das_hle.Guest.ElfVm.Load.slice
    das_hle.Guest.ElfVm.Segments.binary_alloc_size das_hle.Guest.ElfVm.take_block
    das_hle.HostBytes.copy_to das_hle.Memory.Allocate.allocate das_hle.Memory.Allocate.allocate_in
    das_hle.Memory.Allocate.block_at_hint das_hle.Memory.Allocate.check_args
    das_hle.Memory.Allocate.check_hint das_hle.Memory.Allocate.check_size
    das_hle.Memory.Allocate.commit das_hle.Memory.Allocate.host_alloc
    das_hle.Memory.Allocate.insert_part das_hle.Memory.Allocate.place
    das_hle.Memory.Allocate.place_at_hint das_hle.Memory.Allocate.place_exact
    das_hle.Memory.Find.aligned_base das_hle.Memory.Find.find_free_block_from
    das_hle.Memory.Find.first_fit das_hle.Memory.Find.start_in das_hle.Memory.allocated_less
    das_hle.Memory.available_memory das_hle.Memory.free_less das_hle.Memory.has_flag
    das_hle.SortedSet.equivalent das_hle.SortedSet.erase das_hle.SortedSet.insert
    das_hle.SortedSet.inserts das_hle.Word.add64 das_hle.Word.not64 das_hle.Word.sub64 create
    default_allocator das_hle.Memory.Manager.initialize
maps = (refl, refl)

before-IsValid : IsValid before.mem
unfolding fresh
before-IsValid =
    (create-IsValid bump 0 0x10000 (omega arith) (omega arith) (unfold default_allocator in refl)).1

the_block : (b : AllocatedBlock) → In b after.mem.allocated_blocks → b ≡ block
the_block b i = elim (subst (In b) maps.1 i) [ inl e ↦ e | inr k ↦ elim k [ ] ]

after-IsHostApart : IsHostApart after.mem
after-IsHostApart = record {
  host_fits = λ b i.
      subst (λ (k : AllocatedBlock). k.host_base + k.size < word) (sym (the_block b i))
        (omega arith);
  apart = λ b c i j ne.
      absurd
        (ne (ap (λ (k : AllocatedBlock). k.virtual_base) (the_block b i ∙ sym (the_block c j))));
}

info-HasRoom : HaveRoom (info ∷ [])
info-HasRoom i (inl e) = subst HasRoom (sym e) (omega arith)
info-HasRoom i (inr k) = elim k [ ]

map_binary-IsMapped_example :
    IsMapped after.mem image 0 (record { is_64 = false; at = 0 }) after.bytes
map_binary-IsMapped_example =
    map_binary-IsMapped bump bump-KeepsBlock image_elf before after (info ∷ []) 0
      (all_bytes-IsBytes image refl) before-IsValid (unfold fresh in omega arith)
      (ap (λ o. (o, after)) maps.0) after-IsHostApart info-HasRoom
      (record { is_64 = false; at = 0 }) (inl refl)
      (unfold das_hle.Elf.Read.field das_hle.Elf.Read.read das_hle.Elf.Read.read_le in refl)
