-- ===== src/Elf/Relocs/Entries.antt =====
-- The entries of the relocation tables that source/DasHLE/Binary/ELF.cpp goes through, and what
-- visitRelArray32 and visitRelaArray32 make of them.
use das_hle.Base.{
  ℕ, zero, suc, ◌+◌, ◌*◌, ◌%◌, ◌/◌, ◌≤◌, ◌<◌, ◌≡◌, refl, subst, ap, ◌⊎◌, inl, inr, Bool, true,
  false, Bool-cases, if◌then◌else◌, List, [], ◌∷◌, length, get_elem?, some, none, Outcome, ok, err,
  >>=-eq-ok, invalid_relocation, arith,
}
use das_hle.Elf.{Elf, RelocInfo, RelocKind}
use das_hle.Elf.Read.{read, symbol_name}
use das_hle.Elf.Dynamic.{symbol_by_index, string_by_offset, is_64_bits}
use das_hle.Elf.Dynamic.Names.{IsNamed, reads-IsNamed}
use das_hle.Elf.Relocs.{is_relative_reloc, is_symbol_reloc, push, add_reloc}

-- R_ARM_RELATIVE has no symbol; R_ARM_ABS32, R_ARM_GLOB_DAT and R_ARM_JUMP_SLOT have one.
abbrev pub HasForm : Elf → ℕ → RelocInfo → Type 0
HasForm elf info r =
    ((info % 256 ≡ 23) × (r.kind ≡ RelocKind.relative) × (r.symbol ≡ none))
    ⊎ (((info % 256 ≡ 2) ⊎ ((info % 256 ≡ 21) ⊎ (info % 256 ≡ 22)))
        × (r.kind ≡ RelocKind.symbol)
        × ((name : List ℕ) × IsNamed elf (info / 256) name × (r.symbol ≡ some name)))

-- The second is the first, a signed number of 32 bits, as one of 64.
abbrev pub IsExtended : ℕ → ℕ → Type 0
IsExtended v addend =
    ((v < 0x80000000) × (addend ≡ v))
    ⊎ ((0x80000000 ≤ v) × (addend + 0x100000000 ≡ v + 0x10000000000000000))

-- A Rela32 has its addend, a signed number of 32 bits, as one of 64; a Rel32 has none.
abbrev pub HasAddend : List ℕ → Bool → ℕ → ℕ → Type 0
HasAddend buffer false at addend = addend ≡ 0
HasAddend buffer true at addend = (v : ℕ) × (read buffer (at + 8) 4 ≡ ok v) × IsExtended v addend

-- The relocation of the Rel32 or, with an addend, of the Rela32 at a place of the file.
pub record IsEntry (elf : Elf) (rela : Bool) (at : ℕ) (r : RelocInfo) : Type 0 where
  pub info : ℕ
  pub is_info : read elf.buffer (at + 4) 4 ≡ ok info
  pub is_offset : read elf.buffer at 4 ≡ ok r.patch_offset
  pub is_addend : HasAddend elf.buffer rela at r.addend
  pub has_form : HasForm elf info r

abbrev pub entry_size : Bool → ℕ
entry_size rela = if rela then 12 else 8

-- The relocations of an array, one for each entry and in the array's order.
pub record AreEntries (elf : Elf) (rela : Bool) (at size : ℕ) (rs : List RelocInfo) : Type 0 where
  pub same_size : length rs ≡ size
  pub is_entry :
      (i : ℕ) (r : RelocInfo)
      → get_elem? rs i ≡ some r
      → IsEntry elf rela (at + i * entry_size rela) r

relative_type : (t : ℕ) → is_relative_reloc (t % 256) ≡ true → t % 256 ≡ 23
unfolding is_relative_reloc
relative_type t h = ground arith

symbol_type :
    (t : ℕ) → is_symbol_reloc (t % 256) ≡ true → (t % 256 ≡ 2) ⊎ ((t % 256 ≡ 21) ⊎ (t % 256 ≡ 22))
unfolding is_symbol_reloc
symbol_type t h = ground arith

some_equal : (a b : RelocInfo) → some a ≡ some b → a ≡ b
some_equal a b h = cc

pub ok_equal : (a b : Elf) → ok a ≡ ok b → b ≡ a
ok_equal a b h = cc

-- The names do not depend on the relocations found so far.
IsNamed-relocs :
    (elf : Elf) (rs : List RelocInfo) (index : ℕ) (name : List ℕ)
    → IsNamed (record elf { relocs = rs }) index name
    → IsNamed elf index name
unfolding is_64_bits
IsNamed-relocs elf rs index name n = record {
  not_first = n.not_first;
  symbols = n.symbols;
  has_symbols = n.has_symbols;
  symbols_at = n.symbols_at;
  is_symbols_at = n.is_symbols_at;
  offset = n.offset;
  is_offset = n.is_offset;
  strings = n.strings;
  has_strings = n.has_strings;
  strings_at = n.strings_at;
  is_strings_at = n.is_strings_at;
  is_text = n.is_text;
}

HasForm-relocs :
    (elf : Elf) (rs : List RelocInfo) (info : ℕ) (r : RelocInfo)
    → HasForm (record elf { relocs = rs }) info r
    → HasForm elf info r
HasForm-relocs elf rs info r (inl h) = inl h
HasForm-relocs elf rs info r (inr (t, k, (name, n, s))) =
    inr (t, k, (name, IsNamed-relocs elf rs (info / 256) name n, s))

IsEntry-relocs :
    (elf : Elf) (rs : List RelocInfo) (rela : Bool) (at : ℕ) (r : RelocInfo)
    → IsEntry (record elf { relocs = rs }) rela at r
    → IsEntry elf rela at r
IsEntry-relocs elf rs rela at r h = record {
  info = h.info;
  is_info = h.is_info;
  is_offset = h.is_offset;
  is_addend = h.is_addend;
  has_form = HasForm-relocs elf rs h.info r h.has_form;
}

pub AreEntries-relocs :
    (elf : Elf) (rs : List RelocInfo) (rela : Bool) (at size : ℕ) (found : List RelocInfo)
    → AreEntries (record elf { relocs = rs }) rela at size found
    → AreEntries elf rela at size found
AreEntries-relocs elf rs rela at size found h = record {
  same_size = h.same_size;
  is_entry = λ i r k. IsEntry-relocs elf rs rela (at + i * entry_size rela) r (h.is_entry i r k);
}

pub no-AreEntries : (elf : Elf) (rela : Bool) (at : ℕ) → AreEntries elf rela at 0 []
no-AreEntries elf rela at = record { same_size = refl; is_entry = λ i r k. cc }

-- An entry, and the entries behind it.
pub cons-AreEntries :
    (elf : Elf) (rela : Bool) (at size : ℕ) (r : RelocInfo) (rs : List RelocInfo)
    → IsEntry elf rela at r
    → AreEntries elf rela (at + entry_size rela) size rs
    → AreEntries elf rela at (suc size) (r ∷ rs)
cons-AreEntries elf rela at size r rs e h = record {
  same_size = ap suc h.same_size;
  is_entry = each;
}
  where
    next_place : (i : ℕ) → at + entry_size rela + i * entry_size rela ≡ at + suc i * entry_size rela
    next_place i = ground arith

    each :
        (i : ℕ) (s : RelocInfo)
        → get_elem? (r ∷ rs) i ≡ some s
        → IsEntry elf rela (at + i * entry_size rela) s
    each zero s k =
        subst (λ x. IsEntry elf rela x s) (omega arith)
          (subst (λ x. IsEntry elf rela at x) (some_equal r s k) e)
    each (suc i) s k = subst (λ x. IsEntry elf rela x s) (next_place i) (h.is_entry i s k)

module _ (elf next : Elf) (rela : Bool) (at info : ℕ) (addend_of : Outcome ℕ)
    (is_info : read elf.buffer (at + 4) 4 ≡ ok info)
    (is_addend : (v : ℕ) → addend_of ≡ ok v → HasAddend elf.buffer rela at v) where
  -- What a step of the loops adds is the relocation of the entry.
  pub add_reloc-IsEntry :
      add_reloc info (read elf.buffer at 4) addend_of elf ≡ ok next
      → (r : RelocInfo) × (next ≡ push r elf) × IsEntry elf rela at r
  unfolding add_reloc
  add_reloc-IsEntry h = elim (Bool-cases (is_relative_reloc (info % 256))) [
    | inl t ↦
        let (offset, e1, h1) = >>=-eq-ok (read elf.buffer at 4) _ (rw t at h) in
        let (addend, e2, h2) = >>=-eq-ok addend_of _ h1 in
        (
          _,
          ok_equal _ next h2,
          record {
            info = info;
            is_info = is_info;
            is_offset = e1;
            is_addend = is_addend addend e2;
            has_form = inl (relative_type info t, refl, refl);
          },
        )
    | inr t ↦ elim (Bool-cases (is_symbol_reloc (info % 256))) [
      | inl u ↦
          let (symbol, e1, h1) = >>=-eq-ok (symbol_by_index (info / 256) elf) _ (rw (t, u) at h) in
          let (name_offset, e2, h2) = >>=-eq-ok (symbol_name elf.buffer symbol) _ h1 in
          let (name, e3, h3) = >>=-eq-ok (string_by_offset name_offset elf) _ h2 in
          let (offset, e4, h4) = >>=-eq-ok (read elf.buffer at 4) _ h3 in
          let (addend, e5, h5) = >>=-eq-ok addend_of _ h4 in
          (
            _,
            ok_equal _ next h5,
            record {
              info = info;
              is_info = is_info;
              is_offset = e4;
              is_addend = is_addend addend e5;
              has_form = inr (
                symbol_type info u,
                refl,
                (name, reads-IsNamed elf (info / 256) symbol name_offset name e1 e2 e3, refl),
              );
            },
          )
      | inr u ↦ let clash : err invalid_relocation ≡ ok next = rw (t, u) at h in cc
    ]
  ]
