-- ===== src/Elf/Relocs/Laws.antt =====
-- What visitRelocs of source/DasHLE/Binary/ELF.cpp leaves in the list of relocations.
use das_hle.Base.{
  ℕ, suc, ◌+◌, ◌*◌, ◌≡◌, ap, sym, ◌∙◌, subst, inl, inr, Bool, List, [], ◌∷◌, ◌++◌, get_elem?, some,
  ok, In,
}
use das_hle.Elf.{Elf, Poly, RelocInfo}
use das_hle.Elf.Relocs.{visit_relocs}
use das_hle.Elf.Relocs.Extends.{IsReloc, AllReloc, append-AllReloc, Extends}
use das_hle.Elf.Relocs.Entries.{entry_size, IsEntry, HasForm, AreEntries}
use das_hle.Elf.Relocs.Tables.{Kind, IsTable, IsRelArray, IsRelaArray, IsPltArray, AreRelocs}
use das_hle.Elf.Relocs.Found.{visit_relocs-Adds}

HasForm-IsReloc : (elf : Elf) (info : ℕ) (r : RelocInfo) → HasForm elf info r → IsReloc r
HasForm-IsReloc elf info r (inl (t, k, s)) = inl (k, s)
HasForm-IsReloc elf info r (inr (t, k, (name, n, s))) = inr (name, k, s)

get_elem?-In : (r : RelocInfo) (rs : List RelocInfo) → In r rs → (i : ℕ) × (get_elem? rs i ≡ some r)
get_elem?-In r [] h = elim h [ ]
get_elem?-In r (x ∷ rs) (inl e) = (0, ap some (sym e))
get_elem?-In r (x ∷ rs) (inr h) = let (i, e) = get_elem?-In r rs h in (suc i, e)

AreEntries-AllReloc :
    (elf : Elf) (rela : Bool) (at size : ℕ) (rs : List RelocInfo)
    → AreEntries elf rela at size rs
    → AllReloc rs
AreEntries-AllReloc elf rela at size rs h r k =
    let (i, e) = get_elem?-In r rs k in
    let entry : IsEntry elf rela (at + i * entry_size rela) r = h.is_entry i r e in
    HasForm-IsReloc elf entry.info r entry.has_form

IsTable-AllReloc :
    (kind : Kind) (a b c : ℕ) (elf : Elf) (rs : List RelocInfo)
    → ((x y z : Poly) → kind elf x y z rs → AllReloc rs)
    → IsTable kind a b c elf rs
    → AllReloc rs
IsTable-AllReloc kind a b c elf rs f (inl (l, s, e)) = subst AllReloc (sym e) (λ r h. elim h [ ])
IsTable-AllReloc kind a b c elf rs f (inr (x, y, z, p, q, s, k)) = f x y z k

AreRelocs-AllReloc : (elf : Elf) (rs : List RelocInfo) → AreRelocs elf rs → AllReloc rs
AreRelocs-AllReloc elf rs h = subst AllReloc (sym h.is_all) (
    append-AllReloc h.rel (h.rela ++ h.plt)
      (IsTable-AllReloc IsRelArray 17 18 19 elf h.rel
        (λ x y z k. AreEntries-AllReloc elf _ _ _ h.rel k.are_entries) h.is_rel)
      (append-AllReloc h.rela h.plt
        (IsTable-AllReloc IsRelaArray 7 8 9 elf h.rela
          (λ x y z k. AreEntries-AllReloc elf _ _ _ h.rela k.are_entries) h.is_rela)
        (IsTable-AllReloc IsPltArray 23 2 20 elf h.plt
          (λ x y z k. AreEntries-AllReloc elf _ _ _ h.plt k.are_entries) h.is_plt)))

-- Where visitRelocs succeeds, it has only added relocations, and each of them is relative without a
-- symbol or a symbol's with its name.
pub visit_relocs-Extends : (elf next : Elf) → visit_relocs elf ≡ ok next → Extends elf next
visit_relocs-Extends elf next h =
    let adds = visit_relocs-Adds elf next h in
    record {
      same_rest =
          adds.is_next
          ∙ ap (λ rs. record elf { relocs = rs }) (sym (ap (λ (x : Elf). x.relocs) adds.is_next));
      added = adds.found;
      relocs_are = ap (λ (x : Elf). x.relocs) adds.is_next;
      right = AreRelocs-AllReloc elf adds.found adds.is_right;
    }
