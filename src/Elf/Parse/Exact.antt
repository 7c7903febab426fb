-- ===== src/Elf/Parse/Exact.antt =====
-- ELF::parse of source/DasHLE/Binary/ELF.cpp returns exactly the objects that describe the file.
use das_hle.Base.{
  ℕ, suc, ◌≡◌, ◌≤◌, refl, sym, ap, ◌∙◌, subst, ◌↔◌, inl, inr, true, false, ltb, if◌then◌else◌,
  eq_refl, List, [], ◌∷◌, Option, some, ok, err, Error, ◌>>=◌, >>=-eq-ok, arith,
}
use das_hle.Elf.{Elf, Poly, GuestVersion, RelocInfo, elf_mag}
use das_hle.Elf.Dynamic.{dyn_entry_with_tag, is_64_bits}
use das_hle.Elf.Dynamic.Only.{HasTag, HasTag-returns, returns-HasTag}
use das_hle.Elf.Parse.Class.{TakesClass, TakesClass-header_of}
use das_hle.Elf.Relocs.{visit_relocs}
use das_hle.Elf.Relocs.Laws.{visit_relocs-Extends}
use das_hle.Elf.Relocs.Tables.{AreRelocs}
use das_hle.Elf.Relocs.Found.{AreRelocs-relocs}
use das_hle.Elf.Relocs.Exactly.{AreRelocs-visited}
use das_hle.Elf.Parse.{starts_with, check_platform, check_header, with_headers, with_tables, parse}
use das_hle.Elf.Parse.Laws.{HasBytes}
use das_hle.Elf.Parse.Verdict.{IsAccepted}
use das_hle.Elf.Parse.Errors.{parse_tables, parse-Refusal}
use das_hle.Elf.Parse.AllRelocs.{parse-AreRelocs}
use das_hle.Elf.Parse.Described.{
  HasTables, HasTables-with_headers, with_headers-HasTables, without_tables,
}

-- The object that describes a file: the file's header passes the checks, the tables are where the
-- header says, the tables of strings and of symbols are the only entries of their tags, and the
-- relocations are those of the file.
pub record Describes (buffer : List ℕ) (elf : Elf) : Type 0 where
  pub header : Poly
  pub is_header : TakesClass buffer header
  pub accepted : IsAccepted buffer header
  pub tables : HasTables buffer header elf
  pub strings : Poly
  pub has_strings : elf.str_tab ≡ some strings
  pub are_strings : HasTag elf 5 strings
  pub symbols : Poly
  pub has_symbols : elf.sym_tab ≡ some symbols
  pub are_symbols : HasTag elf 6 symbols
  pub are_relocs : AreRelocs elf elf.relocs

HasBytes-starts_with :
    (buffer : List ℕ) (header : Poly) (index : ℕ) (cs : List ℕ)
    → HasBytes buffer header index cs
    → starts_with buffer header index cs ≡ ok true
unfolding starts_with
HasBytes-starts_with buffer header index [] h = refl
HasBytes-starts_with buffer header index (c ∷ cs) (e, h) =
    rw (e, ◌>>=◌, eq_refl c) (HasBytes-starts_with buffer header (suc index) cs h)

IsAccepted-check_header :
    (buffer : List ℕ) (header : Poly)
    → IsAccepted buffer header
    → check_header buffer header.is_64 header ≡ ok tt
unfolding check_header check_platform
IsAccepted-check_header buffer header
      ((((((roomy, (size, e, fits)), magic), little), shared), class), arch) =
    rw
      (
        enough _ _ roomy,
        e,
        enough _ _ fits,
        HasBytes-starts_with buffer header 0 elf_mag magic,
        little,
        shared,
        class,
        eq_refl (if header.is_64 then 2 else 1),
        arch,
        eq_refl (if header.is_64 then 183 else 40),
      )
      refl
  where
    enough : (a b : ℕ) → a ≤ b → ltb b a ≡ false
    enough a b h = ground arith

is_32-bits : (elf : Elf) → elf.version ≡ GuestVersion.armeabi → is_64_bits elf ≡ false
unfolding is_64_bits
is_32-bits elf h = rw h refl

-- The object without its relocations, as the last step of parse gets it.
module _ (buffer : List ℕ) (elf : Elf) (d : Describes buffer elf) where
  abbrev bare : Elf
  bare = record elf { str_tab = some d.strings; sym_tab = some d.symbols; relocs = [] }

  bare-with_relocs : record bare { relocs = elf.relocs } ≡ elf
  bare-with_relocs =
      λ i. record elf { str_tab = sym d.has_strings i; sym_tab = sym d.has_symbols i }

  finds_tables : with_tables (without_tables elf) ≡ ok bare
  unfolding with_tables is_64_bits
  finds_tables =
      rw
        (
          HasTag-returns 5 (without_tables elf) d.strings d.are_strings,
          HasTag-returns 6 (record (without_tables elf) { str_tab = some d.strings }) d.symbols
              d.are_symbols,
        )
        refl

  finds_relocs : visit_relocs bare ≡ ok elf
  finds_relocs =
      AreRelocs-visited bare elf.relocs (is_32-bits bare d.tables.as_armeabi) (
        AreRelocs-relocs bare elf.relocs elf.relocs
          (subst (λ x. AreRelocs x elf.relocs) (sym bare-with_relocs) d.are_relocs))
      ∙ ap ok bare-with_relocs

  Describes-parse : parse buffer ≡ ok elf
  unfolding parse
  Describes-parse =
      rw
        (
          TakesClass-header_of buffer d.header d.is_header,
          IsAccepted-check_header buffer d.header d.accepted,
          HasTables-with_headers buffer d.header elf d.tables,
          finds_tables,
        )
        finds_relocs

HasTables-tables :
    (buffer : List ℕ) (header : Poly) (elf : Elf) (strings symbols : Option Poly)
    (rs : List RelocInfo)
    → HasTables buffer header elf
    → HasTables buffer header (record elf { str_tab = strings; sym_tab = symbols; relocs = rs })
HasTables-tables buffer header elf strings symbols rs h = record {
  same_buffer = h.same_buffer;
  as_armeabi = h.as_armeabi;
  same_header = h.same_header;
  sections_at = h.sections_at;
  is_sections_at = h.is_sections_at;
  section_count = h.section_count;
  is_section_count = h.is_section_count;
  are_sections = h.are_sections;
  segments_at = h.segments_at;
  is_segments_at = h.is_segments_at;
  segment_count = h.segment_count;
  is_segment_count = h.is_segment_count;
  are_segments = h.are_segments;
}

tables-Describes :
    (buffer : List ℕ) (header : Poly) (elf : Elf)
    → TakesClass buffer header
    → IsAccepted buffer header
    → AreRelocs elf elf.relocs
    → parse_tables buffer header ≡ ok elf
    → Describes buffer elf
unfolding with_tables is_64_bits
tables-Describes buffer header elf is_header accepted relocs h =
    let (base, e1, h1) = >>=-eq-ok (with_headers buffer header) _ h in
    let (full, e2, h2) = >>=-eq-ok (with_tables base) _ h1 in
    let (strings, e3, k1) = >>=-eq-ok (dyn_entry_with_tag 5 base) _ e2 in
    let (symbols, e4, k2) =
      >>=-eq-ok (dyn_entry_with_tag 6 (record base { str_tab = some strings })) _ k1 in
    let whole : Elf = record base {
      str_tab = some strings;
      sym_tab = some symbols;
      relocs = elf.relocs;
    } in
    let extends = visit_relocs-Extends full elf h2 in
    let same : whole ≡ elf =
      ap (λ (x : Elf). record x { relocs = elf.relocs }) (same_elf _ full k2)
      ∙ sym extends.same_rest in
    let tables = with_headers-HasTables buffer header base e1 in
    subst (Describes buffer) same (record {
      header = header;
      is_header = is_header;
      accepted = accepted;
      tables = HasTables-tables buffer header base (some strings) (some symbols) elf.relocs tables;
      strings = strings;
      has_strings = refl;
      are_strings = returns-HasTag 5 base strings e3;
      symbols = symbols;
      has_symbols = refl;
      are_symbols = returns-HasTag 6 (record base { str_tab = some strings }) symbols e4;
      are_relocs = subst (λ x. AreRelocs x elf.relocs) (sym same) relocs;
    })
  where
    same_elf : (a b : Elf) → ok a ≡ ok b → a ≡ b
    same_elf a b h = cc

parse-Describes : (buffer : List ℕ) (elf : Elf) → parse buffer ≡ ok elf → Describes buffer elf
parse-Describes buffer elf h = elim (parse-Refusal buffer) [
  | inl (short, q) ↦ let clash : err Error.invalid_size ≡ ok elf = sym q ∙ h in cc
  | inr (header, is_header, inl (accepted, q)) ↦
      tables-Describes buffer header elf is_header accepted (parse-AreRelocs buffer elf h)
        (sym q ∙ h)
  | inr (header, is_header, inr (e, refusal, q)) ↦ let clash : err e ≡ ok elf = sym q ∙ h in cc
]

-- ELF::parse returns an object exactly where the object describes the file: the header is that of
-- a position-independent little-endian ARM or AARCH64 file of its class that fits the file, the
-- section and program headers are the entries of the header's tables, in their order, the tables of
-- strings and of symbols are the only dynamic entries of their tags, the relocations are those of
-- DT_REL, DT_RELA and DT_JMPREL, one for each entry, and the version is armeabi.
pub parse_iff : (buffer : List ℕ) (elf : Elf) → (parse buffer ≡ ok elf) ↔ Describes buffer elf
parse_iff buffer elf = (parse-Describes buffer elf, Describes-parse buffer elf)
