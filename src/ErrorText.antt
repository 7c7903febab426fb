-- ===== src/ErrorText.antt =====
-- source/DasHLE/Error.cpp: errorAsString, over the values of the enumerators of `enum class Error`.
pub mod Laws
use das_hle.Base.{
  ℕ, List, [], ◌∷◌, Option, none, some, get_elem?, Outcome, ok, abort, Error, text, open_failed,
  invalid_size, invalid_alignment, invalid_magic, invalid_class, invalid_data_encoding, no_pie,
  invalid_arch, invalid_relocation, no_segments, no_sections, invalid_segment, relocation_failed,
  invalid_address, invalid_index, no_virtual_memory, no_host_memory, not_found, invalid_argument,
  duplicate, invalid_operation,
}

-- The enumerators, in the order of their values.
abbrev pub enumerators : List Error
enumerators =
    open_failed ∷ invalid_size ∷ invalid_alignment ∷ invalid_magic ∷ invalid_class
    ∷ invalid_data_encoding ∷ no_pie ∷ invalid_arch ∷ invalid_relocation ∷ no_segments ∷ no_sections
    ∷ invalid_segment ∷ relocation_failed ∷ invalid_address ∷ invalid_index ∷ no_virtual_memory
    ∷ no_host_memory ∷ not_found ∷ invalid_argument ∷ duplicate ∷ invalid_operation ∷ []

-- The cases of the switch: ERROR_CASE gives the enumerator's name.
unfoldable pub error_case : Error → List ℕ
error_case open_failed = text "OpenFailed"
error_case invalid_size = text "InvalidSize"
error_case invalid_alignment = text "InvalidAlignment"
error_case invalid_magic = text "InvalidMagic"
error_case invalid_class = text "InvalidClass"
error_case invalid_data_encoding = text "InvalidDataEncoding"
error_case no_pie = text "NoPIE"
error_case invalid_arch = text "InvalidArch"
error_case invalid_relocation = text "InvalidRelocation"
error_case no_segments = text "NoSegments"
error_case no_sections = text "NoSections"
error_case invalid_segment = text "InvalidSegment"
error_case relocation_failed = text "RelocationFailed"
error_case invalid_address = text "InvalidAddress"
error_case invalid_index = text "InvalidIndex"
error_case no_virtual_memory = text "NoVirtualMemory"
error_case no_host_memory = text "NoHostMemory"
error_case not_found = text "NotFound"
error_case invalid_argument = text "InvalidArgument"
error_case duplicate = text "Duplicate"
error_case invalid_operation = text "InvalidOperation"

-- The text of the error with the value; any other value is unreachable.
unfoldable pub error_as_string : ℕ → Outcome (List ℕ)
unfolding error_case
error_as_string value = elim (get_elem? enumerators value) [
  | some error ↦ ok (error_case error)
  | none ↦ abort
]
