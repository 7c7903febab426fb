-- ===== src/Elf/Relocs/Tables.antt =====
-- The relocations of the tables DT_REL, DT_RELA and DT_JMPREL, as visitRelocs of
-- source/DasHLE/Binary/ELF.cpp finds them.
use das_hle.Base.{ℕ, ◌/◌, ◌≡◌, ◌≢◌, ◌⊎◌, Bool, true, false, if◌then◌else◌, List, [], ◌++◌, ok}
use das_hle.Elf.{Elf, Poly, RelocInfo}
use das_hle.Elf.Read.{dyn_val}
use das_hle.Elf.Dynamic.Only.{HasTag, LacksTag}
use das_hle.Elf.Relocs.Entries.{entry_size, AreEntries}

abbrev pub Kind : Type 1
Kind = Elf → Poly → Poly → Poly → List RelocInfo → Type 0

-- The array of a table: its place, and its size by the size of an entry that the table names.
pub record IsArray (elf : Elf) (rela : Bool) (a b c : Poly) (rs : List RelocInfo) : Type 0 where
  pub at : ℕ
  pub bytes : ℕ
  pub each : ℕ
  pub is_at : dyn_val elf.buffer a ≡ ok at
  pub is_bytes : dyn_val elf.buffer b ≡ ok bytes
  pub is_each : dyn_val elf.buffer c ≡ ok each
  pub counts : each ≢ 0
  pub are_entries : AreEntries elf rela at (bytes / each) rs

abbrev pub IsRelArray : Kind
IsRelArray elf a b c rs = IsArray elf false a b c rs

abbrev pub IsRelaArray : Kind
IsRelaArray elf a b c rs = IsArray elf true a b c rs

-- The array of DT_JMPREL: the table names the type of its entries.
pub record IsPltArray (elf : Elf) (a b c : Poly) (rs : List RelocInfo) : Type 0 where
  pub at : ℕ
  pub bytes : ℕ
  pub type : ℕ
  pub rela : Bool
  pub is_at : dyn_val elf.buffer a ≡ ok at
  pub is_bytes : dyn_val elf.buffer b ≡ ok bytes
  pub is_type : dyn_val elf.buffer c ≡ ok type
  pub type_known : type ≡ (if rela then 7 else 17)
  pub are_entries : AreEntries elf rela at (bytes / entry_size rela) rs

-- The search for the tag's entry comes to an end inside of the file.
abbrev pub IsSearched : Elf → ℕ → Type 0
IsSearched elf tag = LacksTag elf tag ⊎ ((entry : Poly) × HasTag elf tag entry)

abbrev pub AreSearched : Elf → ℕ → ℕ → ℕ → Type 0
AreSearched elf tag_a tag_b tag_c =
    IsSearched elf tag_a × IsSearched elf tag_b × IsSearched elf tag_c

abbrev pub LacksOne : Elf → ℕ → ℕ → ℕ → Type 0
LacksOne elf tag_a tag_b tag_c = LacksTag elf tag_a ⊎ (LacksTag elf tag_b ⊎ LacksTag elf tag_c)

-- The relocations of a table with the three tags: none where an entry lacks.
abbrev pub IsTable : Kind → ℕ → ℕ → ℕ → Elf → List RelocInfo → Type 0
IsTable kind tag_a tag_b tag_c elf rs =
    (LacksOne elf tag_a tag_b tag_c × AreSearched elf tag_a tag_b tag_c × (rs ≡ []))
    ⊎ ((a : Poly) × (b : Poly) × (c : Poly) × HasTag elf tag_a a
        × HasTag elf tag_b b
        × HasTag elf tag_c c
        × kind elf a b c rs)

-- All relocations of the file: those of DT_REL, of DT_RELA and of DT_JMPREL, in this order.
pub record AreRelocs (elf : Elf) (rs : List RelocInfo) : Type 0 where
  pub rel : List RelocInfo
  pub rela : List RelocInfo
  pub plt : List RelocInfo
  pub is_all : rs ≡ rel ++ (rela ++ plt)
  pub is_rel : IsTable IsRelArray 17 18 19 elf rel
  pub is_rela : IsTable IsRelaArray 7 8 9 elf rela
  pub is_plt : IsTable IsPltArray 23 2 20 elf plt
