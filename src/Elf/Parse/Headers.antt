-- ===== src/Elf/Parse/Headers.antt =====
-- The headers and the tables that ELF::parse of source/DasHLE/Binary/ELF.cpp sets.
use das_hle.Base.{
  ℕ, zero, suc, ◌+◌, ◌≡◌, refl, sym, ap, ◌∙◌, subst, Bool, List, [], length, some, ok, >>=-eq-ok,
}
use das_hle.Elf.{Elf, Poly, GuestVersion}
use das_hle.Elf.Read.{phoff, shoff, phnum, shnum}
use das_hle.Elf.Dynamic.{dyn_entry_with_tag}
use das_hle.Elf.Parse.{headers_at, with_headers, with_tables}

length-headers_at :
    (bits64 : Bool) (size at count : ℕ) → length (headers_at bits64 size at count) ≡ count
unfolding headers_at
length-headers_at bits64 size at zero = refl
length-headers_at bits64 size at (suc count) =
    ap suc (length-headers_at bits64 size (at + size) count)

same_elf : (a b : Elf) → ok a ≡ ok b → a ≡ b
same_elf a b h = cc

-- The ELF after the tables of headers are set.
pub record HasHeaders (buffer : List ℕ) (header : Poly) (elf : Elf) : Type 0 where
  pub same_header : elf.header ≡ some header
  pub same_buffer : elf.buffer ≡ buffer
  pub sections : shnum buffer header ≡ ok (length elf.section_headers)
  pub segments : phnum buffer header ≡ ok (length elf.program_headers)
  pub no_relocs : elf.relocs ≡ []
  pub version : elf.version ≡ GuestVersion.armeabi

pub with_headers-HasHeaders :
    (buffer : List ℕ) (header : Poly) (elf : Elf)
    → with_headers buffer header ≡ ok elf
    → HasHeaders buffer header elf
unfolding with_headers
with_headers-HasHeaders buffer header elf h =
    let (sections, _, h1) = >>=-eq-ok (shoff buffer header) _ h in
    let (section_count, e2, h2) = >>=-eq-ok (shnum buffer header) _ h1 in
    let (segments, _, h3) = >>=-eq-ok (phoff buffer header) _ h2 in
    let (segment_count, e4, h4) = >>=-eq-ok (phnum buffer header) _ h3 in
    subst (HasHeaders buffer header) (same_elf _ elf h4) (record {
      same_header = refl;
      same_buffer = refl;
      sections = e2 ∙ ap ok (sym (length-headers_at header.is_64 _ sections section_count));
      segments = e4 ∙ ap ok (sym (length-headers_at header.is_64 _ segments segment_count));
      no_relocs = refl;
      version = refl;
    })

pub with_tables-found :
    (elf full : Elf)
    → with_tables elf ≡ ok full
    → (strings : Poly) × (symbols : Poly) × (record elf {
      str_tab = some strings;
      sym_tab = some symbols;
    }
        ≡ full)
unfolding with_tables
with_tables-found elf full h =
    let (strings, _, h1) = >>=-eq-ok (dyn_entry_with_tag 5 elf) _ h in
    let (symbols, _, h2) =
      >>=-eq-ok (dyn_entry_with_tag 6 (record elf { str_tab = some strings })) _ h1 in
    (strings, symbols, same_elf _ full h2)
