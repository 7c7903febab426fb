-- ===== src/Elf/Relocs/Visits.antt =====
-- visitRel, visitRela and visitJmprel of source/DasHLE/Binary/ELF.cpp find the relocations of a
-- table.
use das_hle.Base.{
  ℕ, ◌/◌, ◌==◌, ◌≡◌, ◌≢◌, refl, inl, inr, Bool, true, false, Bool-cases, if◌then◌else◌, List,
  Option, some, none, Outcome, Error, ok, err, undefined, abort, >>=-eq-ok, invalid_relocation,
  arith,
}
use das_hle.Elf.{Elf, Poly, RelocInfo}
use das_hle.Elf.Read.{dyn_val}
use das_hle.Elf.Dynamic.{is_64_bits, dyn_entry_with_tag, optional}
use das_hle.Elf.Relocs.{
  visit_rel_array_32, visit_rela_array_32, visit_rel_array, visit_rela_array, visit_table,
  with_entries, visit_plt,
}
use das_hle.Elf.Relocs.Entries.{entry_size, AreEntries}
use das_hle.Elf.Relocs.Arrays.{
  Adds, adds_none, VisitsArray, visit_rel_array_32-Adds, visit_rela_array_32-Adds,
}
use das_hle.Elf.Dynamic.Only.{HasTag, LacksTag, returns-HasTag, refuses-LacksTag}
use das_hle.Elf.Relocs.Tables.{
  IsSearched, AreSearched, LacksOne, Kind, IsArray, IsPltArray, IsTable,
}

-- A visit by the three entries of a table.
abbrev VisitsTable : Kind → (Poly → Poly → Poly → Elf → Outcome Elf) → Type 0
VisitsTable kind visit =
    (a b c : Poly) (elf next : Elf) → visit a b c elf ≡ ok next → Adds elf next (kind elf a b c)

adds_map :
    (elf next : Elf) (P Q : List RelocInfo → Type 0)
    → Adds elf next P
    → ((rs : List RelocInfo) → P rs → Q rs)
    → Adds elf next Q
adds_map elf next P Q h f = record {
  found = h.found;
  is_next = h.is_next;
  is_right = f h.found h.is_right;
}

pub visit_table-Adds :
    (rela : Bool) (visit : ℕ → ℕ → Elf → Outcome Elf)
    → VisitsArray rela visit
    → VisitsTable (λ e. IsArray e rela) (visit_table visit)
unfolding visit_table
visit_table-Adds rela visit adds a b c elf next h =
    let (bytes, e1, h1) = >>=-eq-ok (dyn_val elf.buffer b) _ h in
    let (each, e2, h2) = >>=-eq-ok (dyn_val elf.buffer c) _ h1 in
    let (at, e3, h3) = >>=-eq-ok (dyn_val elf.buffer a) _ h2 in
    elim (Bool-cases (each == 0)) [
      | inl z ↦ let clash : undefined ≡ ok next = rw z at h3 in cc
      | inr z ↦
          let counts : each ≢ 0 = ground arith in
          adds_map elf next _ _ (adds at (bytes / each) elf next (rw z at h3)) (λ rs k. record {
            at = at;
            bytes = bytes;
            each = each;
            is_at = e3;
            is_bytes = e1;
            is_each = e2;
            counts = counts;
            are_entries = k;
          })
    ]

plt_array :
    (rela : Bool) (a b c : Poly) (at bytes type : ℕ) (elf next : Elf)
    → dyn_val elf.buffer a ≡ ok at
    → dyn_val elf.buffer b ≡ ok bytes
    → dyn_val elf.buffer c ≡ ok type
    → type ≡ (if rela then 7 else 17)
    → Adds elf next (AreEntries elf rela at (bytes / entry_size rela))
    → Adds elf next (IsPltArray elf a b c)
plt_array rela a b c at bytes type elf next e1 e2 e3 e4 h = adds_map elf next _ _ h (λ rs k.
    record {
      at = at;
      bytes = bytes;
      type = type;
      rela = rela;
      is_at = e1;
      is_bytes = e2;
      is_type = e3;
      type_known = e4;
      are_entries = k;
    })

same_number : (a b : ℕ) → (a == b) ≡ true → a ≡ b
same_number a b h = ground arith

-- The source takes the size of an entry by the class, but goes through 32-bit arrays only.
plt_entries :
    (rela : Bool) (visit : ℕ → ℕ → Elf → Outcome Elf) (at bytes size64 : ℕ) (elf next : Elf)
    (is_64 : Bool)
    → VisitsArray rela visit
    → (if is_64
        then err invalid_relocation
        else visit at (bytes / (if is_64 then size64 else entry_size rela)) elf)
      ≡ ok next
    → Adds elf next (AreEntries elf rela at (bytes / entry_size rela))
plt_entries rela visit at bytes size64 elf next true adds h = cc
plt_entries rela visit at bytes size64 elf next false adds h =
    adds at (bytes / entry_size rela) elf next h

pub visit_plt-Adds : VisitsTable IsPltArray visit_plt
unfolding visit_plt visit_rel_array visit_rela_array
visit_plt-Adds a b c elf next h =
    let (type, e3, h1) = >>=-eq-ok (dyn_val elf.buffer c) _ h in
    let (at, e1, h2) = >>=-eq-ok (dyn_val elf.buffer a) _ h1 in
    let (bytes, e2, h3) = >>=-eq-ok (dyn_val elf.buffer b) _ h2 in
    elim (Bool-cases (type == 17)) [
      | inl t ↦ plt_array false a b c at bytes type elf next e1 e2 e3 (same_number type 17 t) (
          plt_entries false visit_rel_array_32 at bytes 16 elf next (is_64_bits elf)
            visit_rel_array_32-Adds (rw t at h3))
      | inr t ↦ elim (Bool-cases (type == 7)) [
        | inl u ↦ plt_array true a b c at bytes type elf next e1 e2 e3 (same_number type 7 u) (
            plt_entries true visit_rela_array_32 at bytes 24 elf next (is_64_bits elf)
              visit_rela_array_32-Adds (rw (t, u) at h3))
        | inr u ↦ let clash : err invalid_relocation ≡ ok next = rw (t, u) at h3 in cc
      ]
    ]

optional_lacks : (o : Outcome Poly) → optional o ≡ ok none → (e : Error) × (o ≡ err e)
unfolding optional
optional_lacks (ok p) h = cc
optional_lacks (err e) h = (e, refl)
optional_lacks abort h = cc
optional_lacks undefined h = cc

optional_has : (o : Outcome Poly) (p : Poly) → optional o ≡ ok (some p) → o ≡ ok p
unfolding optional
optional_has (ok q) p h = cc
optional_has (err e) p h = cc
optional_has abort p h = cc
optional_has undefined p h = cc

pub with_entries-Adds :
    (kind : Kind) (tag_a tag_b tag_c : ℕ) (visit : Poly → Poly → Poly → Elf → Outcome Elf)
    (elf next : Elf)
    → VisitsTable kind visit
    → with_entries tag_a tag_b tag_c visit elf ≡ ok next
    → Adds elf next (IsTable kind tag_a tag_b tag_c elf)
unfolding with_entries
with_entries-Adds kind tag_a tag_b tag_c visit elf next adds h =
    let (a, e1, h1) = >>=-eq-ok (optional (dyn_entry_with_tag tag_a elf)) _ h in
    let (b, e2, h2) = >>=-eq-ok (optional (dyn_entry_with_tag tag_b elf)) _ h1 in
    let (c, e3, h3) = >>=-eq-ok (optional (dyn_entry_with_tag tag_c elf)) _ h2 in
    let searched : AreSearched elf tag_a tag_b tag_c =
      (searches tag_a a e1, searches tag_b b e2, searches tag_c c e3) in
    chosen a b c e1 e2 e3 searched h3
  where
    lacks : (tag : ℕ) → optional (dyn_entry_with_tag tag elf) ≡ ok none → LacksTag elf tag
    lacks tag e =
        let (code, q) = optional_lacks (dyn_entry_with_tag tag elf) e in
        refuses-LacksTag tag elf code q

    has :
        (tag : ℕ) (x : Poly)
        → optional (dyn_entry_with_tag tag elf) ≡ ok (some x)
        → HasTag elf tag x
    has tag x e = returns-HasTag tag elf x (optional_has (dyn_entry_with_tag tag elf) x e)

    searches :
        (tag : ℕ) (a : Option Poly)
        → optional (dyn_entry_with_tag tag elf) ≡ ok a
        → IsSearched elf tag
    searches tag none e = inl (lacks tag e)
    searches tag (some x) e = inr (x, has tag x e)

    nothing :
        LacksOne elf tag_a tag_b tag_c
        → AreSearched elf tag_a tag_b tag_c
        → ok elf ≡ ok next
        → Adds elf next (IsTable kind tag_a tag_b tag_c elf)
    nothing l s e = adds_none elf next _ (inl (l, s, refl)) e

    chosen :
        (a b c : Option Poly)
        → optional (dyn_entry_with_tag tag_a elf) ≡ ok a
        → optional (dyn_entry_with_tag tag_b elf) ≡ ok b
        → optional (dyn_entry_with_tag tag_c elf) ≡ ok c
        → AreSearched elf tag_a tag_b tag_c
        → (elim a [
          | none ↦ ok elf
          | some entry_a ↦ elim b [
            | none ↦ ok elf
            | some entry_b ↦ elim c [
              | none ↦ ok elf
              | some entry_c ↦ visit entry_a entry_b entry_c elf
            ]
          ]
        ])
          ≡ ok next
        → Adds elf next (IsTable kind tag_a tag_b tag_c elf)
    chosen none b c e1 e2 e3 s e = nothing (inl (lacks tag_a e1)) s e
    chosen (some x) none c e1 e2 e3 s e = nothing (inr (inl (lacks tag_b e2))) s e
    chosen (some x) (some y) none e1 e2 e3 s e = nothing (inr (inr (lacks tag_c e3))) s e
    chosen (some x) (some y) (some z) e1 e2 e3 s e =
        adds_map elf next _ _ (adds x y z elf next e)
          (λ rs k. inr (x, y, z, has tag_a x e1, has tag_b y e2, has tag_c z e3, k))
