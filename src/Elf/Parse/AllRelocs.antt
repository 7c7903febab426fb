-- ===== src/Elf/Parse/AllRelocs.antt =====
-- The relocations that ELF::parse of source/DasHLE/Binary/ELF.cpp leaves in the object.
use das_hle.Base.{ℕ, ◌≡◌, sym, ap, ◌∙◌, subst, List, [], ◌++◌, ok, >>=-eq-ok}
use das_hle.Elf.{Elf}
use das_hle.Elf.Relocs.Arrays.{Adds}
use das_hle.Elf.Relocs.Tables.{AreRelocs}
use das_hle.Elf.Relocs.Found.{AreRelocs-relocs, visit_relocs-Adds}
use das_hle.Elf.Parse.{check_header, header_of, with_headers, with_tables, parse}
use das_hle.Elf.Parse.Headers.{with_headers-HasHeaders, with_tables-found}

-- The relocations of a successful parse of a file are those of its tables: the entries of DT_REL,
-- then those of DT_RELA, then those of DT_JMPREL, one relocation for each entry and in the order of
-- the table, with the entry's offset, its addend (0 in a Rel32), and the name of its symbol where
-- its type asks for one. A table of which the file has not exactly one entry of each tag has none.
pub parse-AreRelocs :
    (buffer : List ℕ) (elf : Elf) → parse buffer ≡ ok elf → AreRelocs elf elf.relocs
unfolding parse
parse-AreRelocs buffer elf h =
    let (header, _, h1) = >>=-eq-ok (header_of buffer) _ h in
    let (u, _, h2) = >>=-eq-ok (check_header buffer header.is_64 header) _ h1 in
    let (base, e3, h3) = >>=-eq-ok (with_headers buffer header) _ h2 in
    let (full, e4, h4) = >>=-eq-ok (with_tables base) _ h3 in
    let (strings, symbols, e) = with_tables-found base full e4 in
    let headers = with_headers-HasHeaders buffer header base e3 in
    all_found full (ap (λ (x : Elf). x.relocs) (sym e) ∙ headers.no_relocs)
      (visit_relocs-Adds full elf h4)
  where
    all_found :
        (full : Elf) → full.relocs ≡ [] → Adds full elf (AreRelocs full) → AreRelocs elf elf.relocs
    all_found full none adds =
        let only_found : elf.relocs ≡ adds.found =
          ap (λ (x : Elf). x.relocs) adds.is_next ∙ ap (λ rs. rs ++ adds.found) none in
        let back : full ≡ record elf { relocs = full.relocs } =
          ap (λ (x : Elf). record x { relocs = full.relocs }) (sym adds.is_next) in
        subst (AreRelocs elf) (sym only_found) (
          AreRelocs-relocs elf full.relocs adds.found
            (subst (λ x. AreRelocs x adds.found) back adds.is_right))
