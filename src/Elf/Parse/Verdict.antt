-- ===== src/Elf/Parse/Verdict.antt =====
-- What the header checks of ELF::parse of source/DasHLE/Binary/ELF.cpp ask for, and their refusals.
use das_hle.Base.{
  ℕ, ◌≤◌, ◌<◌, ◌≡◌, ◌≢◌, ◌⊎◌, Bool, if◌then◌else◌, List, length, ok, err, Outcome, Error,
  invalid_size, invalid_magic, invalid_data_encoding, no_pie, invalid_class, invalid_arch,
}
use das_hle.Elf.{
  Poly, ei_class, ei_data, elf_mag, elf_class_32, elf_class_64, elf_data_2lsb, et_dyn, em_arm,
  em_aarch64,
}
use das_hle.Elf.Read.{ident, header_type, machine, ehsize}
use das_hle.Elf.Parse.{header_size}
use das_hle.Elf.Parse.Laws.{HasBytes}

-- What has been checked, one check after the other: the size of the file,
abbrev pub IsRoomy : List ℕ → Poly → Type 0
IsRoomy buffer header =
    (header_size header.is_64 ≤ length buffer)
    × ((size : ℕ) × (ehsize buffer header ≡ ok size) × (size ≤ length buffer))

-- the magic,
abbrev pub IsElf : List ℕ → Poly → Type 0
IsElf buffer header = IsRoomy buffer header × HasBytes buffer header 0 elf_mag

-- the data encoding,
abbrev pub IsLittle : List ℕ → Poly → Type 0
IsLittle buffer header = IsElf buffer header × (ident buffer header ei_data ≡ ok elf_data_2lsb)

-- the type,
abbrev pub IsShared : List ℕ → Poly → Type 0
IsShared buffer header = IsLittle buffer header × (header_type buffer header ≡ ok et_dyn)

-- the class,
abbrev pub HasClass : List ℕ → Poly → Type 0
HasClass buffer header =
    IsShared buffer header
    × (ident buffer header ei_class ≡ ok (if header.is_64 then elf_class_64 else elf_class_32))

-- and the machine.
abbrev pub IsAccepted : List ℕ → Poly → Type 0
IsAccepted buffer header =
    HasClass buffer header
    × (machine buffer header ≡ ok (if header.is_64 then em_aarch64 else em_arm))

-- The first check that fails, and its error.
pub data Refusal (buffer : List ℕ) (header : Poly) : Error → Type 0 where
  too_small : length buffer < header_size header.is_64 → Refusal buffer header invalid_size
  header_too_large :
      (size : ℕ)
      → header_size header.is_64 ≤ length buffer
      → ehsize buffer header ≡ ok size
      → length buffer < size
      → Refusal buffer header invalid_size
  wrong_magic :
      IsRoomy buffer header
      → ¬ HasBytes buffer header 0 elf_mag
      → Refusal buffer header invalid_magic
  wrong_encoding :
      IsElf buffer header
      → ident buffer header ei_data ≢ ok elf_data_2lsb
      → Refusal buffer header invalid_data_encoding
  wrong_type :
      IsLittle buffer header → header_type buffer header ≢ ok et_dyn → Refusal buffer header no_pie
  wrong_class :
      IsShared buffer header
      → ident buffer header ei_class ≢ ok (if header.is_64 then elf_class_64 else elf_class_32)
      → Refusal buffer header invalid_class
  wrong_machine :
      HasClass buffer header
      → machine buffer header ≢ ok (if header.is_64 then em_aarch64 else em_arm)
      → Refusal buffer header invalid_arch

-- What a sequence of checks comes to.
abbrev pub Judged : List ℕ → Poly → Outcome (Unit {0}) → Type 0
Judged buffer header outcome =
    (IsAccepted buffer header × (outcome ≡ ok tt))
    ⊎ ((e : Error) × Refusal buffer header e × (outcome ≡ err e))

abbrev pub of_bits : Bool → Poly
of_bits bits64 = record { is_64 = bits64; at = 0 }
