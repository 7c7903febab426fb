-- ===== src/Elf/Relocs/Arrays.antt =====
-- The loops of visitRelArray32 and visitRelaArray32 of source/DasHLE/Binary/ELF.cpp over an array.
use native.Mathlib.Decide.{dec_lt}
use das_hle.Base.{
  arith, leb, inl, inr, ℕ, zero, suc, ◌+◌, ◌≡◌, ap, ◌∙◌, subst, inl, inr, Bool, true, false,
  Bool-cases, if◌then◌else◌, List, [], ◌∷◌, ◌++◌, Outcome, ok, err, >>=-eq-ok, invalid_relocation,
}
use das_hle.Elf.{Elf, RelocInfo}
use das_hle.Elf.Read.{read}
use das_hle.Elf.Dynamic.{is_64_bits}
use das_hle.Elf.Relocs.{
  push, add_reloc, visit_rel_array_32, visit_rela_array_32, rela_addend, sign_extend,
  visit_rel_array, visit_rela_array,
}
use das_hle.Elf.Relocs.Extends.{append-none, append_assoc}
use das_hle.Elf.Relocs.Entries.{
  IsEntry, IsExtended, HasAddend, entry_size, AreEntries, AreEntries-relocs, no-AreEntries,
  cons-AreEntries, add_reloc-IsEntry, ok_equal,
}

-- The second is the first with more relocations, which are as they should be.
pub record Adds (elf next : Elf) (IsRight : List RelocInfo → Type 0) : Type 0 where
  pub found : List RelocInfo
  pub is_next : next ≡ record elf { relocs = elf.relocs ++ found }
  pub is_right : IsRight found

pub adds_none :
    (elf next : Elf) (IsRight : List RelocInfo → Type 0)
    → IsRight []
    → ok elf ≡ ok next
    → Adds elf next IsRight
adds_none elf next IsRight h e = record {
  found = [];
  is_next = ok_equal elf next e ∙ ap (λ rs. record elf { relocs = rs }) (append-none elf.relocs);
  is_right = h;
}

-- A relocation that is pushed, and those found behind it.
adds_entry :
    (elf mid next : Elf) (rela : Bool) (at size : ℕ)
    → (r : RelocInfo) × (mid ≡ push r elf) × IsEntry elf rela at r
    → Adds mid next (AreEntries mid rela (at + entry_size rela) size)
    → Adds elf next (AreEntries elf rela at (suc size))
unfolding push
adds_entry elf mid next rela at size (r, e, h) more = record {
  found = r ∷ more.found;
  is_next =
      more.is_next
      ∙ ap (λ (x : Elf). record x { relocs = x.relocs ++ more.found }) e
      ∙ ap (λ rs. record elf { relocs = rs }) (append_assoc elf.relocs (r ∷ []) more.found);
  is_right = cons-AreEntries elf rela at size r more.found h (
      AreEntries-relocs elf (elf.relocs ++ (r ∷ [])) rela (at + entry_size rela) size more.found
        (subst (λ x. AreEntries x rela (at + entry_size rela) size more.found) e more.is_right));
}

-- A visit of the entries of an array of Rel32 or of Rela32.
abbrev pub VisitsArray : Bool → (ℕ → ℕ → Elf → Outcome Elf) → Type 0
VisitsArray rela visit =
    (at size : ℕ) (elf next : Elf)
    → visit at size elf ≡ ok next
    → Adds elf next (AreEntries elf rela at size)

pub visit_rel_array_32-Adds : VisitsArray false visit_rel_array_32
unfolding visit_rel_array_32
visit_rel_array_32-Adds at zero elf next h = adds_none elf next _ (no-AreEntries elf false at) h
visit_rel_array_32-Adds at (suc size) elf next h =
    let (info, e, k) = >>=-eq-ok (read elf.buffer (at + 4) 4) _ h in
    let (mid, f, l) = >>=-eq-ok (add_reloc info (read elf.buffer at 4) (ok 0) elf) _ k in
    adds_entry elf mid next false at size
      (add_reloc-IsEntry elf mid false at info (ok 0) e (λ v q. cc) f)
      (visit_rel_array_32-Adds (at + 8) size mid next l)

sign_extend_lem : (v : ℕ) → IsExtended v (sign_extend v)
unfolding sign_extend
sign_extend_lem v = elim (dec_lt v 0x80000000) [
  | yes lt ↦ let low : leb 0x80000000 v ≡ false = ground arith in inl (lt, rw low (omega arith))
  | no le ↦
      let high : leb 0x80000000 v ≡ true = ground arith in inr (omega arith, rw high (omega arith))
]

rela_addend-value :
    (elf : Elf) (at v : ℕ) → rela_addend elf.buffer at ≡ ok v → HasAddend elf.buffer true at v
unfolding rela_addend
rela_addend-value elf at v h =
    let (low, e, k) = >>=-eq-ok (read elf.buffer (at + 8) 4) _ h in
    (low, e, subst (IsExtended low) (same_addend (sign_extend low) v k) (sign_extend_lem low))
  where
    same_addend : (a b : ℕ) → ok a ≡ ok b → a ≡ b
    same_addend a b k = cc

pub visit_rela_array_32-Adds : VisitsArray true visit_rela_array_32
unfolding visit_rela_array_32
visit_rela_array_32-Adds at zero elf next h = adds_none elf next _ (no-AreEntries elf true at) h
visit_rela_array_32-Adds at (suc size) elf next h =
    let (info, e, k) = >>=-eq-ok (read elf.buffer (at + 4) 4) _ h in
    let (mid, f, l) =
      >>=-eq-ok (add_reloc info (read elf.buffer at 4) (rela_addend elf.buffer at) elf) _ k in
    adds_entry elf mid next true at size
      (add_reloc-IsEntry elf mid true at info (rela_addend elf.buffer at) e
        (rela_addend-value elf at) f)
      (visit_rela_array_32-Adds (at + 12) size mid next l)

only_32 :
    (rela : Bool) (visit : ℕ → ℕ → Elf → Outcome Elf)
    → VisitsArray rela visit
    → VisitsArray rela
        (λ at size elf. if is_64_bits elf then err invalid_relocation else visit at size elf)
only_32 rela visit adds at size elf next h = elim (Bool-cases (is_64_bits elf)) [
  | inl b ↦ let clash : err invalid_relocation ≡ ok next = rw b at h in cc
  | inr b ↦ adds at size elf next (rw b at h)
]

pub visit_rel_array-Adds : VisitsArray false visit_rel_array
unfolding visit_rel_array
visit_rel_array-Adds = only_32 false visit_rel_array_32 visit_rel_array_32-Adds

pub visit_rela_array-Adds : VisitsArray true visit_rela_array
unfolding visit_rela_array
visit_rela_array-Adds = only_32 true visit_rela_array_32 visit_rela_array_32-Adds
