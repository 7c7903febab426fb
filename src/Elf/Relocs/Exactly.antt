-- ===== src/Elf/Relocs/Exactly.antt =====
-- visitRelocs of source/DasHLE/Binary/ELF.cpp succeeds exactly on tables that are in order.
use das_hle.Base.{
  ℕ, ◌/◌, ◌==◌, ◌≡◌, ◌≢◌, refl, sym, ap, ◌∙◌, ◌⊎◌, ◌↔◌, inl, inr, Bool, true, false, if◌then◌else◌,
  List, [], ◌++◌, Option, some, none, Outcome, ok, arith,
}
use das_hle.Elf.{Elf, Poly, RelocInfo}
use das_hle.Elf.Dynamic.{is_64_bits, dyn_entry_with_tag, optional}
use das_hle.Elf.Relocs.{
  visit_rel_array, visit_rela_array, visit_table, with_entries, visit_plt, visit_rel, visit_rela,
  visit_jmprel, visit_relocs,
}
use das_hle.Elf.Relocs.Extends.{append-none, append_assoc}
use das_hle.Elf.Relocs.Entries.{entry_size, AreEntries}
use das_hle.Elf.Relocs.Arrays.{Adds}
use das_hle.Elf.Dynamic.Only.{LacksTag, HasTag-returns, LacksTag-refuses}
use das_hle.Elf.Relocs.Tables.{
  LacksOne, IsSearched, Kind, IsRelArray, IsRelaArray, IsPltArray, IsTable, AreRelocs,
}
use das_hle.Elf.Relocs.Found.{IsTable-relocs, IsArray-relocs, IsPltArray-relocs, visit_relocs-Adds}
use das_hle.Elf.Relocs.Complete.{visit_rel_array_32-finds, visit_rela_array_32-finds}

-- A visit by the three entries finds the relocations of a 32-bit file's table that is in order.
abbrev FindsTable : Kind → (Poly → Poly → Poly → Elf → Outcome Elf) → Type 0
FindsTable kind visit =
    (a b c : Poly) (elf : Elf) (rs : List RelocInfo)
    → is_64_bits elf ≡ false
    → kind elf a b c rs
    → visit a b c elf ≡ ok (record elf { relocs = elf.relocs ++ rs })

nonzero_test : (n : ℕ) → n ≢ 0 → (n == 0) ≡ false
nonzero_test n h = ground arith

visit_rel_table-finds : FindsTable IsRelArray (visit_table visit_rel_array)
unfolding visit_table visit_rel_array
visit_rel_table-finds a b c elf rs narrow h =
    rw (h.is_bytes, h.is_each, h.is_at, nonzero_test h.each h.counts, narrow)
      (visit_rel_array_32-finds h.at (h.bytes / h.each) elf rs h.are_entries)

visit_rela_table-finds : FindsTable IsRelaArray (visit_table visit_rela_array)
unfolding visit_table visit_rela_array
visit_rela_table-finds a b c elf rs narrow h =
    rw (h.is_bytes, h.is_each, h.is_at, nonzero_test h.each h.counts, narrow)
      (visit_rela_array_32-finds h.at (h.bytes / h.each) elf rs h.are_entries)

plt_array-finds :
    (rela : Bool) (a b c : Poly) (elf : Elf) (rs : List RelocInfo) (h : IsPltArray elf a b c rs)
    → is_64_bits elf ≡ false
    → h.type ≡ (if rela then 7 else 17)
    → AreEntries elf rela h.at (h.bytes / entry_size rela) rs
    → visit_plt a b c elf ≡ ok (record elf { relocs = elf.relocs ++ rs })
unfolding visit_plt visit_rel_array visit_rela_array
plt_array-finds false a b c elf rs h narrow t k =
    rw (h.is_type, h.is_at, h.is_bytes, t, narrow)
      (visit_rel_array_32-finds h.at (h.bytes / 8) elf rs k)
plt_array-finds true a b c elf rs h narrow t k =
    rw (h.is_type, h.is_at, h.is_bytes, t, narrow)
      (visit_rela_array_32-finds h.at (h.bytes / 12) elf rs k)

visit_plt-finds : FindsTable IsPltArray visit_plt
visit_plt-finds a b c elf rs narrow h =
    plt_array-finds h.rela a b c elf rs h narrow h.type_known h.are_entries

-- The search for a tag, and what lacks of it.
answer :
    (elf : Elf) (tag : ℕ)
    → IsSearched elf tag
    → (o : Option Poly) × (optional (dyn_entry_with_tag tag elf) ≡ ok o)
unfolding optional
answer elf tag (inl l) = let (e, h) = LacksTag-refuses tag elf l in (none, rw h)
answer elf tag (inr (p, h)) = (some p, rw (HasTag-returns tag elf p h))

lacks_answer :
    (elf : Elf) (tag : ℕ) (o : Option Poly)
    → optional (dyn_entry_with_tag tag elf) ≡ ok o
    → LacksTag elf tag
    → o ≡ none
unfolding optional
lacks_answer elf tag o q l =
    let (e, h) = LacksTag-refuses tag elf l in let found : ok none ≡ ok o = rw h at q in cc

with_entries-finds :
    (kind : Kind) (tag_a tag_b tag_c : ℕ) (visit : Poly → Poly → Poly → Elf → Outcome Elf)
    → FindsTable kind visit
    → (elf : Elf) (rs : List RelocInfo) → is_64_bits elf ≡ false
    → IsTable kind tag_a tag_b tag_c elf rs
    → with_entries tag_a tag_b tag_c visit elf ≡ ok (record elf { relocs = elf.relocs ++ rs })
unfolding with_entries optional
with_entries-finds kind tag_a tag_b tag_c visit finds elf rs narrow (inr (a, b, c, p, q, r, k)) =
    rw (HasTag-returns tag_a elf a p, HasTag-returns tag_b elf b q, HasTag-returns tag_c elf c r)
      (finds a b c elf rs narrow k)
with_entries-finds kind tag_a tag_b tag_c visit finds elf rs narrow (inl (l, (s, t, u), e)) =
    let (a, p) = answer elf tag_a s in
    let (b, q) = answer elf tag_b t in
    let (c, r) = answer elf tag_c u in
    rw (p, q, r) (nothing a b c (lacking a b c p q r l) ∙ ap ok (no_more e))
  where
    no_more : rs ≡ [] → elf ≡ record elf { relocs = elf.relocs ++ rs }
    no_more e =
        ap (λ found. record elf { relocs = found })
          (append-none elf.relocs ∙ ap (λ found. elf.relocs ++ found) (sym e))

    lacking :
        (a b c : Option Poly)
        → optional (dyn_entry_with_tag tag_a elf) ≡ ok a
        → optional (dyn_entry_with_tag tag_b elf) ≡ ok b
        → optional (dyn_entry_with_tag tag_c elf) ≡ ok c
        → LacksOne elf tag_a tag_b tag_c
        → (a ≡ none) ⊎ ((b ≡ none) ⊎ (c ≡ none))
    lacking a b c p q r (inl l) = inl (lacks_answer elf tag_a a p l)
    lacking a b c p q r (inr (inl l)) = inr (inl (lacks_answer elf tag_b b q l))
    lacking a b c p q r (inr (inr l)) = inr (inr (lacks_answer elf tag_c c r l))

    nothing :
        (a b c : Option Poly)
        → (a ≡ none) ⊎ ((b ≡ none) ⊎ (c ≡ none))
        → (elim a [
          | none ↦ ok elf
          | some entry_a ↦ elim b [
            | none ↦ ok elf
            | some entry_b ↦ elim c [
              | none ↦ ok elf
              | some entry_c ↦ visit entry_a entry_b entry_c elf
            ]
          ]
        ])
          ≡ ok elf
    nothing none b c l = refl
    nothing (some x) none c l = refl
    nothing (some x) (some y) none l = refl
    nothing (some x) (some y) (some z) (inl l) = cc
    nothing (some x) (some y) (some z) (inr (inl l)) = cc
    nothing (some x) (some y) (some z) (inr (inr l)) = cc

-- ELF::visitRelocs.
pub AreRelocs-visited :
    (elf : Elf) (rs : List RelocInfo)
    → is_64_bits elf ≡ false
    → AreRelocs elf rs
    → visit_relocs elf ≡ ok (record elf { relocs = elf.relocs ++ rs })
unfolding visit_relocs visit_rel visit_rela visit_jmprel is_64_bits
AreRelocs-visited elf rs narrow h =
    let with_rel : Elf = record elf { relocs = elf.relocs ++ h.rel } in
    let with_rela : Elf = record elf { relocs = (elf.relocs ++ h.rel) ++ h.rela } in
    let first =
      with_entries-finds IsRelArray 17 18 19 (visit_table visit_rel_array) visit_rel_table-finds elf
        h.rel narrow h.is_rel in
    let second =
      with_entries-finds IsRelaArray 7 8 9 (visit_table visit_rela_array) visit_rela_table-finds
        with_rel h.rela narrow
        (IsTable-relocs with_rel elf.relocs IsRelaArray 7 8 9 h.rela
          (λ a b c. IsArray-relocs with_rel elf.relocs true a b c h.rela) h.is_rela) in
    let third =
      with_entries-finds IsPltArray 23 2 20 visit_plt visit_plt-finds with_rela h.plt narrow (
        IsTable-relocs with_rela elf.relocs IsPltArray 23 2 20 h.plt
          (λ a b c. IsPltArray-relocs with_rela elf.relocs a b c h.plt) h.is_plt) in
    rw (first, second) (third ∙ ap (λ found. ok (record elf { relocs = found })) in_order)
  where
    in_order : ((elf.relocs ++ h.rel) ++ h.rela) ++ h.plt ≡ elf.relocs ++ rs
    in_order =
        append_assoc (elf.relocs ++ h.rel) h.rela h.plt
        ∙ append_assoc elf.relocs h.rel (h.rela ++ h.plt)
        ∙ ap (λ found. elf.relocs ++ found) (sym h.is_all)

-- visitRelocs of a 32-bit ELF returns exactly where the file's tables of relocations are in order,
-- and what it adds to the object are their relocations.
pub visit_relocs_iff :
    (elf next : Elf)
    → is_64_bits elf ≡ false
    → (visit_relocs elf ≡ ok next) ↔ Adds elf next (AreRelocs elf)
visit_relocs_iff elf next narrow = (
  visit_relocs-Adds elf next,
  λ adds. AreRelocs-visited elf adds.found narrow adds.is_right ∙ ap ok (sym adds.is_next),
)
