-- ===== src/Elf/Parse/Errors.antt =====
-- The errors of ELF::parse of source/DasHLE/Binary/ELF.cpp on a file's header, in their order.
use das_hle.Base.{
  ℕ, ◌+◌, ◌≤◌, ◌<◌, ◌≡◌, ◌⊎◌, refl, ap, ◌∙◌, Bool, true, false, Bool-cases, inl, inr, not, ltb,
  ◌==◌, if◌then◌else◌, List, length, ok, err, Outcome, Error, ◌>>=◌, ◌>>◌, fail_if, arith,
  invalid_size, invalid_magic, invalid_data_encoding, no_pie, invalid_class, invalid_arch,
}
use das_hle.Elf.{
  Elf, Poly, ei_class, ei_data, elf_mag, elf_class_32, elf_class_64, elf_data_2lsb, et_dyn, em_arm,
  em_aarch64,
}
use das_hle.Elf.Read.{field, ident, header_type, machine, ehsize}
use das_hle.Elf.Parse.{
  header_size, starts_with, check_platform, check_header, with_headers, with_tables, parse,
}
use das_hle.Elf.Relocs.{visit_relocs}
use das_hle.Elf.Parse.Class.{TakesClass, header_of-TakesClass}
use das_hle.Elf.Parse.Fields.{field-value, field_check, last_check, starts_with_cases}
use das_hle.Elf.Parse.Verdict.{
  IsRoomy, IsElf, IsLittle, IsShared, IsAccepted, Refusal, Judged, of_bits,
}

module _ (buffer : List ℕ) (bits64 : Bool) where
  -- The checks from the type on, from the data encoding on, from the magic on and from the header's
  -- size on.
  abbrev from_type : Outcome (Unit {0})
  from_type = header_type buffer (of_bits bits64) >>= λ x.
      fail_if (not (x == et_dyn)) no_pie >> check_platform buffer bits64 (of_bits bits64)

  abbrev from_encoding : Outcome (Unit {0})
  from_encoding = ident buffer (of_bits bits64) ei_data >>= λ x.
      fail_if (not (x == elf_data_2lsb)) invalid_data_encoding >> from_type

  abbrev from_magic : Outcome (Unit {0})
  from_magic = starts_with buffer (of_bits bits64) 0 elf_mag >>= λ x.
      fail_if (not x) invalid_magic >> from_encoding

  abbrev from_size : Outcome (Unit {0})
  from_size = ehsize buffer (of_bits bits64) >>= λ x.
      fail_if (ltb (length buffer) x) invalid_size >> from_magic

  from_size_at :
      (size : ℕ) (b : Bool)
      → ehsize buffer (of_bits bits64) ≡ ok size
      → ltb (length buffer) size ≡ b
      → from_size ≡ (fail_if b invalid_size >> from_magic)
  from_size_at size b q p =
      ap (λ o. o >>= λ x. fail_if (ltb (length buffer) x) invalid_size >> from_magic) q
      ∙ ap (λ b. fail_if b invalid_size >> from_magic) p

  transport_Judged :
      (outcome other : Outcome (Unit {0}))
      → outcome ≡ other
      → Judged buffer (of_bits bits64) other
      → Judged buffer (of_bits bits64) outcome
  transport_Judged outcome other e j = rw e j

module _ (buffer : List ℕ) (bits64 : Bool) (fits : header_size bits64 ≤ length buffer) where
  value :
      (offset32 size32 offset64 size64 : ℕ)
      → offset32 + size32 ≤ 52
      → offset64 + size64 ≤ 64
      → (v : ℕ) × (field offset32 size32 offset64 size64 buffer (of_bits bits64) ≡ ok v)
  value offset32 size32 offset64 size64 h32 h64 =
      field-value offset32 size32 offset64 size64 buffer bits64 h32 h64 fits

  check_platform-Judged :
      IsShared buffer (of_bits bits64)
      → Judged buffer (of_bits bits64) (check_platform buffer bits64 (of_bits bits64))
  unfolding check_platform
  check_platform-Judged shared =
      let class = if bits64 then elf_class_64 else elf_class_32 in
      let arch = if bits64 then em_aarch64 else em_arm in
      let read_arch = machine buffer (of_bits bits64) in
      let rest = read_arch >>= λ x. fail_if (not (x == arch)) invalid_arch in
      let last = last_check read_arch arch invalid_arch in
      elim (field_check (ident buffer (of_bits bits64) ei_class) class invalid_class rest
        (value 4 1 4 1 (omega arith) (omega arith)).1) [
          | inr (n, q) ↦ inr (invalid_class, Refusal.wrong_class shared n, q)
          | inl (c, q) ↦
              elim (field_check read_arch arch invalid_arch (ok tt)
                (value 18 2 18 2 (omega arith) (omega arith)).1) [
                  | inl (a, r) ↦ inl (((shared, c), a), q ∙ last ∙ r)
                  | inr (n, r) ↦
                      inr (invalid_arch, Refusal.wrong_machine (shared, c) n, q ∙ last ∙ r)
                ]
        ]

  from_type-Judged :
      IsLittle buffer (of_bits bits64) → Judged buffer (of_bits bits64) (from_type buffer bits64)
  from_type-Judged little =
      elim (field_check (header_type buffer (of_bits bits64)) et_dyn no_pie
        (check_platform buffer bits64 (of_bits bits64))
        (value 16 2 16 2 (omega arith) (omega arith)).1) [
          | inr (n, q) ↦ inr (no_pie, Refusal.wrong_type little n, q)
          | inl (t, q) ↦ rw q (check_platform-Judged (little, t))
        ]

  from_encoding-Judged :
      IsElf buffer (of_bits bits64) → Judged buffer (of_bits bits64) (from_encoding buffer bits64)
  from_encoding-Judged elf =
      elim (field_check (ident buffer (of_bits bits64) ei_data) elf_data_2lsb invalid_data_encoding
        (from_type buffer bits64) (value 5 1 5 1 (omega arith) (omega arith)).1) [
          | inr (n, q) ↦ inr (invalid_data_encoding, Refusal.wrong_encoding elf n, q)
          | inl (t, q) ↦ rw q (from_type-Judged (elf, t))
        ]

  from_magic-Judged :
      IsRoomy buffer (of_bits bits64) → Judged buffer (of_bits bits64) (from_magic buffer bits64)
  from_magic-Judged roomy =
      elim (starts_with_cases buffer (of_bits bits64)
        (λ index h. value index 1 index 1 (omega arith) (omega arith)) 0 elf_mag (omega arith)) [
          | inl (q, t) ↦ rw q (from_encoding-Judged (roomy, t))
          | inr (q, n) ↦ inr (invalid_magic, Refusal.wrong_magic roomy n, rw q refl)
        ]

  from_size-Judged : Judged buffer (of_bits bits64) (from_size buffer bits64)
  from_size-Judged =
      let (size, q) = value 40 2 52 2 (omega arith) (omega arith) in
      elim (Bool-cases (ltb (length buffer) size)) [
        | inl p ↦ inr (
          invalid_size,
          Refusal.header_too_large size fits q (ground arith),
          from_size_at buffer bits64 size true q p,
        )
        | inr p ↦
            transport_Judged buffer bits64 (from_size buffer bits64) (from_magic buffer bits64)
              (from_size_at buffer bits64 size false q p)
              (from_magic-Judged (fits, (size, q, ground arith)))
      ]

check_header-Judged :
    (buffer : List ℕ) (bits64 : Bool)
    → Judged buffer (of_bits bits64) (check_header buffer bits64 (of_bits bits64))
unfolding check_header
check_header-Judged buffer bits64 = elim (Bool-cases (ltb (length buffer) (header_size bits64))) [
  | inl p ↦ inr (invalid_size, Refusal.too_small (ground arith), ap starts p)
  | inr p ↦
      transport_Judged buffer bits64 _ (from_size buffer bits64) (ap starts p)
        (from_size-Judged buffer bits64 (ground arith))
]
  where
    starts : Bool → Outcome (Unit {0})
    starts b = fail_if b invalid_size >> from_size buffer bits64

-- What parse does with a header that passes its checks.
abbrev pub parse_tables : List ℕ → Poly → Outcome Elf
parse_tables buffer header = with_headers buffer header >>= λ elf. with_tables elf >>= visit_relocs

-- What parse of a buffer comes to, up to the tables: with less than 52 bytes, the size of an Ehdr32,
-- it fails with InvalidSize; else it reads the header in the 64-bit format exactly if the fifth byte
-- is 2, and either the file's size, the magic, the data encoding, the type, the class and the machine
-- are right and it goes on to the tables, or it fails with the error of the first of them, in this
-- order, that is not.
pub parse-Refusal :
    (buffer : List ℕ)
    → ((length buffer < 52) × (parse buffer ≡ err invalid_size))
      ⊎ ((header : Poly) × TakesClass buffer header
          × ((IsAccepted buffer header × (parse buffer ≡ parse_tables buffer header))
              ⊎ ((e : Error) × Refusal buffer header e × (parse buffer ≡ err e))))
unfolding parse
parse-Refusal buffer = elim (header_of-TakesClass buffer) [
  | inl (short, q) ↦ inl (short, ap (λ o. o >>= goes_on) q)
  | inr (bits64, q, takes) ↦ inr (
    of_bits bits64,
    takes,
    elim (check_header-Judged buffer bits64) [
      | inl (a, r) ↦
          inl (a, ap (λ o. o >>= goes_on) q ∙ ap (λ o. o >> parse_tables buffer (of_bits bits64)) r)
      | inr (e, first, r) ↦ inr (
        e,
        first,
        ap (λ o. o >>= goes_on) q ∙ ap (λ o. o >> parse_tables buffer (of_bits bits64)) r,
      )
    ],
  )
]
  where
    goes_on : Poly → Outcome Elf
    goes_on header = check_header buffer header.is_64 header >> parse_tables buffer header
