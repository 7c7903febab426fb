-- ===== src/Elf/Segment.antt =====
-- IProgramHeader::allocationOffset, allocationSize and the permission flags of
-- source/DasHLE/Binary/ELF.h and ELF.cpp.
pub mod Laws
pub mod Header
use das_hle.Base.{
  ℕ, ◌+◌, ◌%◌, not, ltb, ◌==◌, if◌then◌else◌, List, Outcome, ok, err, ◌>>=◌, bit_or,
  invalid_segment,
}
use das_hle.Align.{align_down, align_up}
use das_hle.Memory.{has_flag, perm_read, perm_write, perm_exec}
use das_hle.Elf.{Poly}
use das_hle.Elf.Read.{segment_offset, segment_vaddr, segment_filesz, segment_memsz, segment_align}

-- allocationOffset on the fields of the header.
unfoldable pub offset_of : ℕ → ℕ → ℕ → Outcome ℕ
offset_of align vaddr offset =
    if ltb 1 align
    then if not (vaddr % align == offset % align)
      then err invalid_segment
      else align_down vaddr align
    else ok vaddr

unfoldable pub allocation_offset : List ℕ → Poly → Outcome ℕ
allocation_offset buffer p = do
  align ← segment_align buffer p
  vaddr ← segment_vaddr buffer p
  offset ← segment_offset buffer p
  offset_of align vaddr offset

-- allocationSize on the fields of the header.
unfoldable pub size_of : ℕ → ℕ → ℕ → Outcome ℕ
size_of memsz filesz align =
    if ltb memsz filesz
    then err invalid_segment
    else if ltb 1 align
    then align_up memsz align
    else ok memsz

unfoldable pub allocation_size : List ℕ → Poly → Outcome ℕ
allocation_size buffer p = do
  memsz ← segment_memsz buffer p
  filesz ← segment_filesz buffer p
  align ← segment_align buffer p
  size_of memsz filesz align

-- PF_X, PF_W and PF_R.
abbrev pub pf_x : ℕ
pf_x = 1

abbrev pub pf_w : ℕ
pf_w = 2

abbrev pub pf_r : ℕ
pf_r = 4

unfoldable pub wrap_permission_flags : ℕ → ℕ
wrap_permission_flags flags =
    let read = if has_flag flags pf_r then perm_read else 0 in
    let write = if has_flag flags pf_w then bit_or read perm_write else read in
    if has_flag flags pf_x then bit_or write perm_exec else write

-- `flags` is not initialised in the source: what it holds is an argument.
unfoldable pub unwrap_permission_flags : ℕ → ℕ → ℕ
unwrap_permission_flags flags perm =
    let read = if has_flag perm perm_read then bit_or flags pf_r else flags in
    let write = if has_flag perm perm_write then bit_or read pf_w else read in
    if has_flag perm perm_exec then bit_or write pf_x else write
