-- ===== src/Elf/Relocs/Complete.antt =====
-- visitRelocs of source/DasHLE/Binary/ELF.cpp on a file whose tables are in order.
use das_hle.Base.{
  leb, ℕ, zero, suc, ◌+◌, ◌*◌, ◌/◌, ◌%◌, ◌≡◌, refl, sym, ap, ◌∙◌, subst, ◌⊎◌, inl, inr, Bool, true,
  false, List, [], ◌∷◌, ◌++◌, Option, some, none, Outcome, ok, arith,
}
use das_hle.Elf.{Elf, RelocInfo, RelocKind}
use das_hle.Elf.Read.{read}
use das_hle.Elf.Dynamic.Names.{IsNamed, IsNamed-symbol, IsNamed-string}
use das_hle.Elf.Relocs.{
  sign_extend, is_relative_reloc, is_symbol_reloc, push, add_reloc, rela_addend, visit_rel_array_32,
  visit_rela_array_32,
}
use das_hle.Elf.Relocs.Extends.{append-none, append_assoc}
use das_hle.Elf.Relocs.Entries.{
  entry_size, IsExtended, HasForm, HasAddend, IsEntry, AreEntries, AreEntries-relocs,
}

relative_test : (t : ℕ) → t ≡ 23 → is_relative_reloc t ≡ true
unfolding is_relative_reloc
relative_test t h = rw h

symbol_test :
    (t : ℕ)
    → (t ≡ 2) ⊎ ((t ≡ 21) ⊎ (t ≡ 22))
    → (is_relative_reloc t ≡ false) × (is_symbol_reloc t ≡ true)
unfolding is_relative_reloc is_symbol_reloc
symbol_test t (inl h) = (rw h, rw h)
symbol_test t (inr (inl h)) = (rw h, rw h)
symbol_test t (inr (inr h)) = (rw h, rw h)

-- The relocation of an entry is what the step of the loops pushes.
module _ (elf : Elf) (rela : Bool) (at : ℕ) (r : RelocInfo) (h : IsEntry elf rela at r)
    (addend_of : Outcome ℕ) (is_addend : addend_of ≡ ok r.addend) where
  pushed :
      {kind : RelocKind} {symbol : Option (List ℕ)}
      → r.kind ≡ kind
      → r.symbol ≡ symbol
      → ok (
          push
            (record {
              patch_offset = r.patch_offset;
              addend = r.addend;
              kind = kind;
              symbol = symbol;
            })
            elf)
        ≡ ok (push r elf)
  pushed k s = λ i. ok (
      push
        (record {
          patch_offset = r.patch_offset;
          addend = r.addend;
          kind = sym k i;
          symbol = sym s i;
        })
        elf)

  pushes_relative :
      h.info % 256 ≡ 23
      → r.kind ≡ RelocKind.relative
      → r.symbol ≡ none
      → add_reloc h.info (read elf.buffer at 4) addend_of elf ≡ ok (push r elf)
  unfolding add_reloc
  pushes_relative t k s = rw (relative_test (h.info % 256) t, h.is_offset, is_addend) (pushed k s)

  pushes_symbol :
      (h.info % 256 ≡ 2) ⊎ ((h.info % 256 ≡ 21) ⊎ (h.info % 256 ≡ 22))
      → r.kind ≡ RelocKind.symbol
      → (name : List ℕ) → IsNamed elf (h.info / 256) name
      → r.symbol ≡ some name
      → add_reloc h.info (read elf.buffer at 4) addend_of elf ≡ ok (push r elf)
  unfolding add_reloc
  pushes_symbol t k name n s =
      let (not_relative, is_symbol) = symbol_test (h.info % 256) t in
      rw
        (
          not_relative,
          is_symbol,
          IsNamed-symbol elf (h.info / 256) name n,
          n.is_offset,
          IsNamed-string elf (h.info / 256) name n,
          h.is_offset,
          is_addend,
        )
        (pushed k s)

  add_reloc-pushes : add_reloc h.info (read elf.buffer at 4) addend_of elf ≡ ok (push r elf)
  add_reloc-pushes = by_form h.has_form
    where
      by_form :
          HasForm elf h.info r
          → add_reloc h.info (read elf.buffer at 4) addend_of elf ≡ ok (push r elf)
      by_form (inl (t, k, s)) = pushes_relative t k s
      by_form (inr (t, k, (name, n, s))) = pushes_symbol t k name n s

-- The first entry of an array, and the array of the others.
uncons-AreEntries :
    (elf : Elf) (rela : Bool) (at size : ℕ) (r : RelocInfo) (rs : List RelocInfo)
    → AreEntries elf rela at (suc size) (r ∷ rs)
    → IsEntry elf rela at r × AreEntries elf rela (at + entry_size rela) size rs
uncons-AreEntries elf rela at size r rs h = (
  subst (λ x. IsEntry elf rela x r) (omega arith) (h.is_entry 0 r refl),
  record {
    same_size = omega (arith, h.same_size);
    is_entry = λ i s k. subst (λ x. IsEntry elf rela x s) (next_place i) (h.is_entry (suc i) s k);
  },
)
  where
    next_place : (i : ℕ) → at + suc i * entry_size rela ≡ at + entry_size rela + i * entry_size rela
    next_place i = ground arith

-- The entries behind a relocation that is pushed.
pushed-AreEntries :
    (elf : Elf) (r : RelocInfo) (rela : Bool) (at size : ℕ) (rs : List RelocInfo)
    → AreEntries elf rela at size rs
    → AreEntries (push r elf) rela at size rs
unfolding push
pushed-AreEntries elf r rela at size rs h =
    AreEntries-relocs (record elf { relocs = elf.relocs ++ (r ∷ []) }) elf.relocs rela at size rs h

with_pushed :
    (elf : Elf) (r : RelocInfo) (rs : List RelocInfo)
    → record (push r elf) { relocs = (push r elf).relocs ++ rs }
      ≡ record elf { relocs = elf.relocs ++ (r ∷ rs) }
unfolding push
with_pushed elf r rs =
    ap (λ found. record elf { relocs = found }) (append_assoc elf.relocs (r ∷ []) rs)

-- A visit finds the relocations of an array that is in order.
abbrev FindsArray : Bool → (ℕ → ℕ → Elf → Outcome Elf) → Type 0
FindsArray rela visit =
    (at size : ℕ) (elf : Elf) (rs : List RelocInfo)
    → AreEntries elf rela at size rs
    → visit at size elf ≡ ok (record elf { relocs = elf.relocs ++ rs })

pub visit_rel_array_32-finds : FindsArray false visit_rel_array_32
unfolding visit_rel_array_32
visit_rel_array_32-finds at zero elf [] h =
    ap (λ found. ok (record elf { relocs = found })) (append-none elf.relocs)
visit_rel_array_32-finds at zero elf (r ∷ rs) h =
    let clash : ⊥ = omega (arith, h.same_size) in elim clash [ ]
visit_rel_array_32-finds at (suc size) elf [] h =
    let clash : ⊥ = omega (arith, h.same_size) in elim clash [ ]
visit_rel_array_32-finds at (suc size) elf (r ∷ rs) h =
    let (e, more) = uncons-AreEntries elf false at size r rs h in
    rw (e.is_info, add_reloc-pushes elf false at r e (ok 0) (ap ok (sym e.is_addend)))
      (visit_rel_array_32-finds (at + 8) size (push r elf) rs
          (pushed-AreEntries elf r false (at + 8) size rs more)
        ∙ ap ok (with_pushed elf r rs))

extended : (v a : ℕ) → IsExtended v a → sign_extend v ≡ a
unfolding sign_extend
extended v a (inl (lt, q)) =
    let low : leb 0x80000000 v ≡ false = ground arith in rw low (omega arith)
extended v a (inr (le, q)) =
    let high : leb 0x80000000 v ≡ true = ground arith in rw high (omega arith)

rela_addend-finds :
    (elf : Elf) (at v : ℕ) → HasAddend elf.buffer true at v → rela_addend elf.buffer at ≡ ok v
unfolding rela_addend
rela_addend-finds elf at v (low, e, s) = rw e (ap ok (extended low v s))

pub visit_rela_array_32-finds : FindsArray true visit_rela_array_32
unfolding visit_rela_array_32
visit_rela_array_32-finds at zero elf [] h =
    ap (λ found. ok (record elf { relocs = found })) (append-none elf.relocs)
visit_rela_array_32-finds at zero elf (r ∷ rs) h =
    let clash : ⊥ = omega (arith, h.same_size) in elim clash [ ]
visit_rela_array_32-finds at (suc size) elf [] h =
    let clash : ⊥ = omega (arith, h.same_size) in elim clash [ ]
visit_rela_array_32-finds at (suc size) elf (r ∷ rs) h =
    let (e, more) = uncons-AreEntries elf true at size r rs h in
    rw
      (
        e.is_info,
        add_reloc-pushes elf true at r e (rela_addend elf.buffer at)
            (rela_addend-finds elf at r.addend e.is_addend),
      )
      (visit_rela_array_32-finds (at + 12) size (push r elf) rs
          (pushed-AreEntries elf r true (at + 12) size rs more)
        ∙ ap ok (with_pushed elf r rs))
