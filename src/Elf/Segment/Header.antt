-- ===== src/Elf/Segment/Header.antt =====
-- allocationOffset of source/DasHLE/Binary/ELF.cpp on a program header of a file.
use das_hle.Base.{
  ℕ, ◌+◌, ◌%◌, ◌≤◌, ◌<◌, ◌≡◌, ◌≢◌, refl, sym, subst, ◌⊎◌, true, false, List, Outcome, ok, err,
  invalid_segment, invalid_alignment,
}
use das_hle.Word.{word}
use das_hle.Align.{is_power_of_two}
use das_hle.Align.Laws.{IsFloor}
use das_hle.Elf.{Poly}
use das_hle.Elf.Read.{segment_align, segment_vaddr, segment_offset}
use das_hle.Elf.Segment.{offset_of, allocation_offset}
use das_hle.Elf.Segment.Laws.{offset_of_lem}

-- What allocationOffset comes to, by p_align, p_vaddr and p_offset.
abbrev pub IsOffset : ℕ → ℕ → ℕ → Outcome ℕ → Type 0
IsOffset align vaddr offset result =
    ((align ≤ 1) × (result ≡ ok vaddr))
    ⊎ ((1 < align) × (vaddr % align ≢ offset % align) × (result ≡ err invalid_segment))
    ⊎ ((is_power_of_two align ≡ true)
        × ((d : ℕ) × (result ≡ ok d) × IsFloor vaddr align d × (vaddr ≡ d + offset % align)))
    ⊎ ((1 < align) × (is_power_of_two align ≡ false) × (result ≡ err invalid_alignment))

fields :
    (buffer : List ℕ) (p : Poly) (align vaddr offset : ℕ)
    → segment_align buffer p ≡ ok align
    → segment_vaddr buffer p ≡ ok vaddr
    → segment_offset buffer p ≡ ok offset
    → allocation_offset buffer p ≡ offset_of align vaddr offset
unfolding allocation_offset
fields buffer p align vaddr offset e f g = rw (e, f, g) refl

-- allocationOffset of a program header whose p_align, p_vaddr and p_offset are read from the file as
-- 64-bit numbers. An alignment of 0 or 1 leaves the address as it is. With a larger one, an address
-- and a file offset that differ modulo the alignment are an InvalidSegment; else the result is the
-- address rounded down to the alignment, and the rest of the address is the file offset's, or
-- InvalidAlignment where the alignment is no power of two.
pub allocation_offset_lem :
    (buffer : List ℕ) (p : Poly) (align vaddr offset : ℕ)
    → segment_align buffer p ≡ ok align
    → segment_vaddr buffer p ≡ ok vaddr
    → segment_offset buffer p ≡ ok offset
    → align < word
    → vaddr < word
    → IsOffset align vaddr offset (allocation_offset buffer p)
allocation_offset_lem buffer p align vaddr offset e f g align_fits vaddr_fits =
    subst (IsOffset align vaddr offset) (sym (fields buffer p align vaddr offset e f g))
      (offset_of_lem align vaddr offset align_fits vaddr_fits)
