-- ===== src/Elf/Dynamic.antt =====
-- The queries of class ELF in source/DasHLE/Binary/ELF.cpp: headers by index and type, dynamic
-- entries, symbols, strings and the arrays of functions.
pub mod Laws
pub mod Reads
pub mod Walk
pub mod Only
pub mod Names
use das_hle.Base.{
  ℕ, zero, suc, ◌+◌, ◌*◌, ◌/◌, Bool, true, false, ltb, leb, ◌==◌, if◌then◌else◌, List, [], ◌∷◌,
  ◌++◌, drop, length, get_elem?, Option, some, none, Outcome, ok, err, undefined, abort, ◌>>=◌,
  invalid_index, invalid_operation, not_found,
}
use das_hle.Elf.{Elf, Poly, GuestVersion, FuncArrayInfo, pt_dynamic}
use das_hle.Elf.Layout.{size_of_struct, dyn_32, dyn_64, sym_32, sym_64}
use das_hle.Elf.Read.{section_type, segment_type, segment_offset, dyn_tag, dyn_val, until_nul}

unfoldable pub is_64_bits : Elf → Bool
is_64_bits elf = elim elf.version [
  | GuestVersion.arm64_v8a ↦ true
  | GuestVersion.armeabi ↦ false
  | GuestVersion.armeabi_v7a ↦ false
]

unfoldable pub header_at : List Poly → ℕ → Outcome Poly
header_at headers index =
    if leb (length headers) index
    then err invalid_index
    else elim (get_elem? headers index) [ some p ↦ ok p | none ↦ undefined ]

unfoldable pub section_header : ℕ → Elf → Outcome Poly
section_header index elf = header_at elf.section_headers index

unfoldable pub program_header : ℕ → Elf → Outcome Poly
program_header index elf = header_at elf.program_headers index

-- The loop of sectionsOfType and segmentsOfType.
unfoldable pub of_type : (Poly → Outcome ℕ) → ℕ → List Poly → Outcome (List Poly)
of_type type_of type [] = ok []
of_type type_of type (p ∷ rest) = do
  t ← type_of p
  found ← of_type type_of type rest
  ok (if t == type then p ∷ found else found)

unfoldable pub sections_of_type : ℕ → Elf → Outcome (List Poly)
sections_of_type type elf = of_type (section_type elf.buffer) type elf.section_headers

unfoldable pub segments_of_type : ℕ → Elf → Outcome (List Poly)
segments_of_type type elf = of_type (segment_type elf.buffer) type elf.program_headers

-- sizeof(Dyn64) and sizeof(Dyn32).
unfoldable pub dyn_size : Bool → ℕ
dyn_size is_64 = if is_64 then size_of_struct dyn_64 else size_of_struct dyn_32

-- The while loop up to DT_NULL. Each step moves on in the buffer, and a read past its end is
-- undefined, so that the buffer's length is fuel enough.
unfoldable pub dyn_entries_from : List ℕ → ℕ → ℕ → Bool → ℕ → Outcome (List Poly)
dyn_entries_from buffer tag zero is_64 at = undefined
dyn_entries_from buffer tag (suc fuel) is_64 at = do
  t ← dyn_tag buffer (record { is_64 = is_64; at = at })
  elim (t == 0) [
    | true ↦ ok []
    | false ↦ do
      rest ← dyn_entries_from buffer tag fuel is_64 (at + dyn_size is_64)
      ok (if t == tag then record { is_64 = is_64; at = at } ∷ rest else rest)
  ]

unfoldable pub dyn_entries_in : ℕ → Elf → List Poly → Outcome (List Poly)
dyn_entries_in tag elf [] = ok []
dyn_entries_in tag elf (segment ∷ rest) = do
  at ← segment_offset elf.buffer segment
  entries ← dyn_entries_from elf.buffer tag (suc (length elf.buffer)) (is_64_bits elf) at
  more ← dyn_entries_in tag elf rest
  ok (entries ++ more)

unfoldable pub dyn_entries_with_tag : ℕ → Elf → Outcome (List Poly)
dyn_entries_with_tag tag elf = do
  segments ← segments_of_type pt_dynamic elf
  dyn_entries_in tag elf segments

unfoldable pub the_only : List Poly → Outcome Poly
the_only [] = err invalid_operation
the_only (entry ∷ []) = ok entry
the_only (entry ∷ other ∷ rest) = err invalid_operation

unfoldable pub dyn_entry_with_tag : ℕ → Elf → Outcome Poly
dyn_entry_with_tag tag elf = do entries ← dyn_entries_with_tag tag elf; the_only entries

-- sizeof(Sym64) and sizeof(Sym32).
unfoldable pub symbol_by_index : ℕ → Elf → Outcome Poly
symbol_by_index index elf = if index == 0 then err invalid_index else elim elf.sym_tab [
  | none ↦ err not_found
  | some tab ↦ do
    base ← dyn_val elf.buffer tab
    let size = if is_64_bits elf then size_of_struct sym_64 else size_of_struct sym_32
    ok (record { is_64 = is_64_bits elf; at = base + index * size })
]

unfoldable pub string_by_offset : ℕ → Elf → Outcome (List ℕ)
string_by_offset offset elf = elim elf.str_tab [
  | none ↦ err not_found
  | some tab ↦ do base ← dyn_val elf.buffer tab; until_nul (drop (base + offset) elf.buffer)
]

-- An entry, or none where the query returns an error.
unfoldable pub optional : Outcome Poly → Outcome (Option Poly)
optional (ok p) = ok (some p)
optional (err e) = ok none
optional abort = abort
optional undefined = undefined

-- initArrayInfo and finiArrayInfo, by the tags of the array and of its size.
unfoldable pub array_info : ℕ → ℕ → Elf → Outcome (Option FuncArrayInfo)
array_info tag size_tag elf = do
  array ← optional (dyn_entry_with_tag tag elf)
  array_size ← optional (dyn_entry_with_tag size_tag elf)
  elim array [
    | none ↦ ok none
    | some a ↦ elim array_size [
      | none ↦ ok none
      | some s ↦ do
        offset ← dyn_val elf.buffer a
        size ← dyn_val elf.buffer s
        ok (some (record { offset = offset; size = size / (if is_64_bits elf then 8 else 4) }))
    ]
  ]

unfoldable pub init_array_info : Elf → Outcome (Option FuncArrayInfo)
init_array_info elf = array_info 25 27 elf

unfoldable pub fini_array_info : Elf → Outcome (Option FuncArrayInfo)
fini_array_info elf = array_info 26 28 elf
