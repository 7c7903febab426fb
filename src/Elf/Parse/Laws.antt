-- ===== src/Elf/Parse/Laws.antt =====
-- What a successful ELF::parse of source/DasHLE/Binary/ELF.cpp guarantees.
use das_hle.Base.{
  ℕ, suc, ◌≤◌, ◌≡◌, refl, sym, ap, ◌∙◌, subst, Bool, true, false, Bool-cases, inl, inr, not, ltb,
  ◌==◌, if◌then◌else◌, List, [], ◌∷◌, ◌++◌, length, some, ok, Error, >>=-eq-ok, fail_if, arith,
}
use das_hle.Elf.{
  Elf, Poly, GuestVersion, ei_class, ei_data, elf_mag, elf_class_32, elf_class_64, elf_data_2lsb,
  et_dyn, em_arm, em_aarch64,
}
use das_hle.Elf.Read.{ident, header_type, machine, ehsize, phnum, shnum}
use das_hle.Elf.Dynamic.{is_64_bits}
use das_hle.Elf.Relocs.Extends.{AllReloc, Extends}
use das_hle.Elf.Relocs.Laws.{visit_relocs-Extends}
use das_hle.Elf.Parse.{
  header_size, starts_with, check_platform, check_header, header_of, with_headers, with_tables,
  parse,
}
use das_hle.Elf.Parse.Headers.{HasHeaders, with_headers-HasHeaders, with_tables-found}

-- The identification has the characters from `index` on.
abbrev pub HasBytes : List ℕ → Poly → ℕ → List ℕ → Type 0
HasBytes buffer header index [] = Unit
HasBytes buffer header index (c ∷ cs) =
    (ident buffer header index ≡ ok c) × HasBytes buffer header (suc index) cs

-- The header of a position-independent little-endian ARM file, of the class that it names.
pub record IsHeader (buffer : List ℕ) (header : Poly) : Type 0 where
  pub fits : header_size header.is_64 ≤ length buffer
  pub magic : HasBytes buffer header 0 elf_mag
  pub little_endian : ident buffer header ei_data ≡ ok elf_data_2lsb
  pub shared : header_type buffer header ≡ ok et_dyn
  pub class :
      ident buffer header ei_class ≡ ok (if header.is_64 then elf_class_64 else elf_class_32)
  pub arch : machine buffer header ≡ ok (if header.is_64 then em_aarch64 else em_arm)

pub record IsParsed (buffer : List ℕ) (elf : Elf) : Type 0 where
  pub header : Poly
  pub is_header : IsHeader buffer header
  pub same_header : elf.header ≡ some header
  pub same_buffer : elf.buffer ≡ buffer
  pub sections : shnum buffer header ≡ ok (length elf.section_headers)
  pub segments : phnum buffer header ≡ ok (length elf.program_headers)
  pub strings : Poly
  pub has_strings : elf.str_tab ≡ some strings
  pub symbols : Poly
  pub has_symbols : elf.sym_tab ≡ some symbols
  pub relocs_right : AllReloc elf.relocs
  pub reads_as_32 : is_64_bits elf ≡ false

passed : (b : Bool) (e : Error) (u : Unit {0}) → fail_if b e ≡ ok u → b ≡ false
passed false e u h = refl
passed true e u h = cc

equal : (a b : ℕ) → not (a == b) ≡ false → a ≡ b
equal a b h = ground arith

starts_with-HasBytes :
    (buffer : List ℕ) (header : Poly) (index : ℕ) (cs : List ℕ)
    → starts_with buffer header index cs ≡ ok true
    → HasBytes buffer header index cs
unfolding starts_with
starts_with-HasBytes buffer header index [] h = tt
starts_with-HasBytes buffer header index (c ∷ cs) h =
    let (byte, e, k) = >>=-eq-ok (ident buffer header index) _ h in
    elim (Bool-cases (byte == c)) [
      | inl q ↦
          let same : byte ≡ c = ground arith in
          (rw same at e, starts_with-HasBytes buffer header (suc index) cs (rw q at k))
      | inr q ↦ let clash : ok false ≡ ok true = rw q at k in cc
    ]

check_header-IsHeader :
    (buffer : List ℕ) (header : Poly)
    → check_header buffer header.is_64 header ≡ ok tt
    → IsHeader buffer header
unfolding check_header check_platform
check_header-IsHeader buffer header h =
    let (u1, e1, h1) =
      >>=-eq-ok (fail_if (ltb (length buffer) (header_size header.is_64)) Error.invalid_size) _ h in
    let (size, _, h2) = >>=-eq-ok (ehsize buffer header) _ h1 in
    let (u2, _, h3) = >>=-eq-ok (fail_if (ltb (length buffer) size) Error.invalid_size) _ h2 in
    let (magic, e4, h4) = >>=-eq-ok (starts_with buffer header 0 elf_mag) _ h3 in
    let (u3, e5, h5) = >>=-eq-ok (fail_if (not magic) Error.invalid_magic) _ h4 in
    let (encoding, e6, h6) = >>=-eq-ok (ident buffer header ei_data) _ h5 in
    let (u4, e7, h7) =
      >>=-eq-ok (fail_if (not (encoding == elf_data_2lsb)) Error.invalid_data_encoding) _ h6 in
    let (type, e8, h8) = >>=-eq-ok (header_type buffer header) _ h7 in
    let (u5, e9, h9) = >>=-eq-ok (fail_if (not (type == et_dyn)) Error.no_pie) _ h8 in
    let (class, e10, h10) = >>=-eq-ok (ident buffer header ei_class) _ h9 in
    let (u6, e11, h11) =
      >>=-eq-ok
        (fail_if (not (class == (if header.is_64 then elf_class_64 else elf_class_32)))
          Error.invalid_class)
        _ h10 in
    let (arch, e12, h12) = >>=-eq-ok (machine buffer header) _ h11 in
    record {
      fits = at_least (length buffer) (header_size header.is_64) (passed _ _ u1 e1);
      magic =
          starts_with-HasBytes buffer header 0 elf_mag
            (e4 ∙ ap ok (accepted magic (passed _ _ u3 e5)));
      little_endian = e6 ∙ ap ok (equal encoding elf_data_2lsb (passed _ _ u4 e7));
      shared = e8 ∙ ap ok (equal type et_dyn (passed _ _ u5 e9));
      class = e10 ∙ ap ok (equal class _ (passed _ _ u6 e11));
      arch = e12 ∙ ap ok (equal arch _ (passed _ _ tt h12));
    }
  where
    at_least : (a b : ℕ) → ltb a b ≡ false → b ≤ a
    at_least a b q = ground arith

    accepted : (b : Bool) → not b ≡ false → b ≡ true
    accepted b q = ground arith

finished :
    (buffer : List ℕ) (header : Poly) (base full elf : Elf)
    → IsHeader buffer header
    → HasHeaders buffer header base
    → (strings symbols : Poly)
    → record base { str_tab = some strings; sym_tab = some symbols } ≡ full
    → Extends full elf
    → IsParsed buffer elf
unfolding is_64_bits
finished buffer header base full elf good b strings symbols e x =
    let keeps : elf
        ≡ record base { str_tab = some strings; sym_tab = some symbols; relocs = elf.relocs } =
      x.same_rest ∙ ap (λ (f : Elf). record f { relocs = elf.relocs }) (sym e) in
    record {
      header = header;
      is_header = good;
      same_header = ap (λ (f : Elf). f.header) keeps ∙ b.same_header;
      same_buffer = ap (λ (f : Elf). f.buffer) keeps ∙ b.same_buffer;
      sections = b.sections ∙ ap (λ (f : Elf). ok (length f.section_headers)) (sym keeps);
      segments = b.segments ∙ ap (λ (f : Elf). ok (length f.program_headers)) (sym keeps);
      strings = strings;
      has_strings = ap (λ (f : Elf). f.str_tab) keeps;
      symbols = symbols;
      has_symbols = ap (λ (f : Elf). f.sym_tab) keeps;
      relocs_right =
          subst AllReloc
            (sym (
              x.relocs_are
              ∙ ap (λ (f : Elf). f.relocs ++ x.added) (sym e)
              ∙ ap (λ rs. rs ++ x.added) b.no_relocs))
            x.right;
      reads_as_32 = ap is_64_bits keeps ∙ by_version base.version b.version;
    }
  where
    by_version :
        (v : GuestVersion)
        → v ≡ GuestVersion.armeabi
        → (elim v [
          | GuestVersion.arm64_v8a ↦ true
          | GuestVersion.armeabi ↦ false
          | GuestVersion.armeabi_v7a ↦ false
        ])
          ≡ false
    by_version GuestVersion.armeabi q = refl
    by_version GuestVersion.armeabi_v7a q = refl
    by_version GuestVersion.arm64_v8a q = cc

-- What a successful parse of a file guarantees: the header is that of a position-independent
-- little-endian ARM or AARCH64 file of its class, it fits the file, there are as many section and
-- program headers as it says, the string and symbol tables are found, every relocation is relative
-- without a symbol or a symbol's with its name, and the ELF is read in the 32-bit format.
pub parse-IsParsed : (buffer : List ℕ) (elf : Elf) → parse buffer ≡ ok elf → IsParsed buffer elf
unfolding parse
parse-IsParsed buffer elf h =
    let (header, _, h1) = >>=-eq-ok (header_of buffer) _ h in
    let (u, e2, h2) = >>=-eq-ok (check_header buffer header.is_64 header) _ h1 in
    let (base, e3, h3) = >>=-eq-ok (with_headers buffer header) _ h2 in
    let (full, e4, h4) = >>=-eq-ok (with_tables base) _ h3 in
    let (strings, symbols, e) = with_tables-found base full e4 in
    finished buffer header base full elf (check_header-IsHeader buffer header e2)
      (with_headers-HasHeaders buffer header base e3) strings symbols e
      (visit_relocs-Extends full elf h4)
