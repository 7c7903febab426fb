-- ===== src/Elf/Parse/Described.antt =====
-- What ELF::parse of source/DasHLE/Binary/ELF.cpp makes of a file, read off the file.
use das_hle.Base.{
  ℕ, zero, suc, ◌+◌, ◌*◌, ◌≡◌, refl, sym, ap, ◌∙◌, subst, Bool, if◌then◌else◌, List, [], ◌∷◌,
  length, get_elem?, some, none, ok, >>=-eq-ok, arith,
}
use das_hle.Elf.{Elf, Poly, GuestVersion}
use das_hle.Elf.Read.{phoff, shoff, phnum, shnum}
use das_hle.Elf.Parse.{headers_at, with_headers}

-- The wrappers of a table's entries, of a class, a size and a number, from a place of the file on.
pub record AreHeaders (is_64 : Bool) (size at count : ℕ) (headers : List Poly) : Type 0 where
  pub counted : length headers ≡ count
  pub is_header :
      (i : ℕ) (p : Poly)
      → get_elem? headers i ≡ some p
      → p ≡ record { is_64 = is_64; at = at + i * size }

-- The tables of sections and of segments are where the header says.
pub record HasTables (buffer : List ℕ) (header : Poly) (elf : Elf) : Type 0 where
  pub same_buffer : elf.buffer ≡ buffer
  pub as_armeabi : elf.version ≡ GuestVersion.armeabi
  pub same_header : elf.header ≡ some header
  pub sections_at : ℕ
  pub is_sections_at : shoff buffer header ≡ ok sections_at
  pub section_count : ℕ
  pub is_section_count : shnum buffer header ≡ ok section_count
  pub are_sections :
      AreHeaders header.is_64
        (if header.is_64 then 64 else 40)
        sections_at
        section_count
        elf.section_headers
  pub segments_at : ℕ
  pub is_segments_at : phoff buffer header ≡ ok segments_at
  pub segment_count : ℕ
  pub is_segment_count : phnum buffer header ≡ ok segment_count
  pub are_segments :
      AreHeaders header.is_64
        (if header.is_64 then 56 else 32)
        segments_at
        segment_count
        elf.program_headers

module _ (is_64 : Bool) (size : ℕ) where
  -- The wrapper of an entry, and the wrappers of the entries behind it.
  cons-AreHeaders :
      (at count : ℕ) (headers : List Poly)
      → AreHeaders is_64 size (at + size) count headers
      → AreHeaders is_64 size at (suc count) (record { is_64 = is_64; at = at } ∷ headers)
  cons-AreHeaders at count headers h = record { counted = ap suc h.counted; is_header = each }
    where
      place : (i : ℕ) → at + size + i * size ≡ at + suc i * size
      place i = ground arith

      first :
          (p : Poly)
          → some (record { is_64 = is_64; at = at }) ≡ some p
          → p ≡ record { is_64 = is_64; at = at }
      first p h = cc

      each :
          (i : ℕ) (p : Poly)
          → get_elem? (record { is_64 = is_64; at = at } ∷ headers) i ≡ some p
          → p ≡ record { is_64 = is_64; at = at + i * size }
      each zero p k = first p k ∙ ap (λ x. record { is_64 = is_64; at = x }) (omega arith)
      each (suc i) p k = h.is_header i p k ∙ ap (λ x. record { is_64 = is_64; at = x }) (place i)

  headers_at-AreHeaders :
      (at count : ℕ) → AreHeaders is_64 size at count (headers_at is_64 size at count)
  unfolding headers_at
  headers_at-AreHeaders at zero = record { counted = refl; is_header = λ i p h. cc }
  headers_at-AreHeaders at (suc count) =
      cons-AreHeaders at count (headers_at is_64 size (at + size) count)
        (headers_at-AreHeaders (at + size) count)

  uncons-AreHeaders :
      (at count : ℕ) (p : Poly) (headers : List Poly)
      → AreHeaders is_64 size at (suc count) (p ∷ headers)
      → (p ≡ record { is_64 = is_64; at = at }) × AreHeaders is_64 size (at + size) count headers
  uncons-AreHeaders at count p headers h = (
    h.is_header 0 p refl ∙ ap (λ x. record { is_64 = is_64; at = x }) (omega arith),
    record {
      counted = omega (arith, h.counted);
      is_header =
          λ i q k. h.is_header (suc i) q k ∙ ap (λ x. record { is_64 = is_64; at = x }) (place i);
    },
  )
    where
      place : (i : ℕ) → at + suc i * size ≡ at + size + i * size
      place i = ground arith

  AreHeaders-headers_at :
      (at count : ℕ) (headers : List Poly)
      → AreHeaders is_64 size at count headers
      → headers_at is_64 size at count ≡ headers
  unfolding headers_at
  AreHeaders-headers_at at zero [] h = refl
  AreHeaders-headers_at at zero (p ∷ headers) h = absurd (omega (arith, h.counted))
  AreHeaders-headers_at at (suc count) [] h = absurd (omega (arith, h.counted))
  AreHeaders-headers_at at (suc count) (p ∷ headers) h =
      let (first, more) = uncons-AreHeaders at count p headers h in
      let rest = AreHeaders-headers_at (at + size) count headers more in λ i. sym first i ∷ rest i

-- The ELF before its tables of strings and symbols are looked up.
abbrev pub without_tables : Elf → Elf
without_tables elf = record elf { str_tab = none; sym_tab = none; relocs = [] }

pub HasTables-with_headers :
    (buffer : List ℕ) (header : Poly) (elf : Elf)
    → HasTables buffer header elf
    → with_headers buffer header ≡ ok (without_tables elf)
unfolding with_headers
HasTables-with_headers buffer header elf h =
    rw (h.is_sections_at, h.is_section_count, h.is_segments_at, h.is_segment_count)
      (λ i. ok (record {
        buffer = sym h.same_buffer i;
        version = sym h.as_armeabi i;
        header = sym h.same_header i;
        section_headers =
            AreHeaders-headers_at header.is_64 (if header.is_64 then 64 else 40) h.sections_at
              h.section_count elf.section_headers h.are_sections i;
        program_headers =
            AreHeaders-headers_at header.is_64 (if header.is_64 then 56 else 32) h.segments_at
              h.segment_count elf.program_headers h.are_segments i;
        str_tab = none;
        sym_tab = none;
        relocs = [];
      }))

pub with_headers-HasTables :
    (buffer : List ℕ) (header : Poly) (elf : Elf)
    → with_headers buffer header ≡ ok elf
    → HasTables buffer header elf
unfolding with_headers
with_headers-HasTables buffer header elf h =
    let (sections, e1, h1) = >>=-eq-ok (shoff buffer header) _ h in
    let (section_count, e2, h2) = >>=-eq-ok (shnum buffer header) _ h1 in
    let (segments, e3, h3) = >>=-eq-ok (phoff buffer header) _ h2 in
    let (segment_count, e4, h4) = >>=-eq-ok (phnum buffer header) _ h3 in
    subst (HasTables buffer header) (same_elf _ elf h4) (record {
      same_buffer = refl;
      as_armeabi = refl;
      same_header = refl;
      sections_at = sections;
      is_sections_at = e1;
      section_count = section_count;
      is_section_count = e2;
      are_sections = headers_at-AreHeaders header.is_64 _ sections section_count;
      segments_at = segments;
      is_segments_at = e3;
      segment_count = segment_count;
      is_segment_count = e4;
      are_segments = headers_at-AreHeaders header.is_64 _ segments segment_count;
    })
  where
    same_elf : (a b : Elf) → ok a ≡ ok b → a ≡ b
    same_elf a b h = cc
