-- ===== src/Guest/ElfVm/Segments.antt =====
-- The part of loadBinary in source/DasHLE/Guest/ELFVM.cpp that reads the file and the host's memory:
-- canRun, arrayRead and the list of the segments to load.
pub mod Bounds
pub mod Infos
use das_hle.Base.{
  ℕ, zero, suc, ◌+◌, ◌-◌, ◌^◌, Bool, not, ◌==◌, ◌||◌, ◌&&◌, if◌then◌else◌, List, [], ◌∷◌, Outcome,
  ok, ◌>>=◌,
}
use das_hle.Word.{add64, sub64}
use das_hle.HostBytes.{Bytes, load}
use das_hle.Elf.{Elf, Poly}
use das_hle.Elf.Read.{segment_offset, segment_vaddr, segment_filesz, segment_flags}
use das_hle.Elf.Segment.{allocation_offset, allocation_size, wrap_permission_flags}
use das_hle.Elf.Dynamic.{is_64_bits}

pub record LoadSegmentInfo : Type 0 where
  pub file_data_offset : ℕ
  pub file_data_size : ℕ
  pub mem_data_offset : ℕ
  pub alloc_offset : ℕ
  pub alloc_size : ℕ
  pub permissions : ℕ

-- canRun, by the guests that the build has.
unfoldable pub can_run : Bool → Bool → Elf → Bool
can_run has_arm has_aarch64 elf = not (is_64_bits elf) && has_arm || (is_64_bits elf && has_aarch64)

-- arrayRead, on entries of `size` bytes; the count is below 2 ^ 32.
unfoldable pub array_read : ℕ → ℕ → ℕ → Bytes → List ℕ
array_read size addr zero bytes = []
array_read size addr (suc count) bytes =
    let entry = load size addr bytes in
    let rest = array_read size (addr + size) count bytes in
    if entry == 0 || (entry == 256 ^ size - 1) then rest else entry ∷ rest

-- sizeof(Addr64) and sizeof(Addr32).
unfoldable pub addr_size : Elf → ℕ
addr_size elf = if is_64_bits elf then 8 else 4

-- PT_LOAD.
abbrev pub pt_load : ℕ
pt_load = 1

unfoldable pub segment_info : List ℕ → Poly → Outcome LoadSegmentInfo
segment_info buffer segment = do
  alloc_offset ← allocation_offset buffer segment
  alloc_size ← allocation_size buffer segment
  offset ← segment_offset buffer segment
  filesz ← segment_filesz buffer segment
  vaddr ← segment_vaddr buffer segment
  flags ← segment_flags buffer segment
  ok (record {
    file_data_offset = offset;
    file_data_size = filesz;
    mem_data_offset = sub64 vaddr alloc_offset;
    alloc_offset = alloc_offset;
    alloc_size = alloc_size;
    permissions = wrap_permission_flags flags;
  })

-- The loop over the LOAD segments; binaryAllocSize is summed up after it.
unfoldable pub segment_infos : List ℕ → List Poly → Outcome (List LoadSegmentInfo)
segment_infos buffer [] = ok []
segment_infos buffer (segment ∷ segments) = do
  info ← segment_info buffer segment
  rest ← segment_infos buffer segments
  ok (info ∷ rest)

-- binaryAllocSize.
unfoldable pub binary_alloc_size : ℕ → List LoadSegmentInfo → ℕ
binary_alloc_size size [] = size
binary_alloc_size size (info ∷ rest) = binary_alloc_size (add64 size info.alloc_size) rest
