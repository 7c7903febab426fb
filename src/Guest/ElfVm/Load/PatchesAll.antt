-- ===== src/Guest/ElfVm/Load/PatchesAll.antt =====
-- What all the relocations of loadBinary in source/DasHLE/Guest/ELFVM.cpp leave, as the guest reads it.
use das_hle.Base.{
  ℕ, ◌+◌, ◌%◌, ◌^◌, ◌≤◌, ◌<◌, ◌≡◌, refl, sym, ap, subst, ◌∙◌, In, ◌⊎◌, inl, inr, true, false, List,
  [], ◌∷◌, ok, arith,
}
use das_hle.Word.{add64}
use das_hle.HostBytes.{Bytes, store}
use das_hle.HostBytes.Laws.{load-store}
use das_hle.Memory.{AllocatedBlock, has_flag, perm_read}
use das_hle.Memory.Layout.{IsValid}
use das_hle.Memory.Layout.Lookup.{Contains}
use das_hle.Elf.{Elf, RelocInfo}
use das_hle.Elf.Dynamic.{is_64_bits}
use das_hle.Guest.Access.{memory_read}
use das_hle.Guest.Access.Laws.{IsHostApart, InBlock, host_of, reads}
use das_hle.Guest.Access.RoundTrip.{read-store_apart}
use das_hle.Guest.ElfVm.{ElfVm}
use das_hle.Guest.ElfVm.Relocate.{relocate, relocate_all}
use das_hle.Guest.ElfVm.Load.Patches.{Target, relocate-store}

abbrev pub place_of : ℕ → RelocInfo → ℕ
place_of base reloc = add64 base reloc.patch_offset

-- The bytes from y on are not among those that a relocation patches.
abbrev pub IsApartFrom : ℕ → ℕ → ℕ → RelocInfo → Type 0
IsApartFrom base y count reloc = (place_of base reloc + 4 ≤ y) ⊎ (y + count ≤ place_of base reloc)

-- No two relocations of the list patch a byte in common.
abbrev pub ArePairwiseApart : ℕ → List RelocInfo → Type 0
ArePairwiseApart base [] = Unit
ArePairwiseApart base (reloc ∷ rest) =
    ((other : RelocInfo) → In other rest → IsApartFrom base (place_of base other) 4 reloc)
    × ArePairwiseApart base rest

-- A relocation of four bytes in one block that may be read, and the value that it asks for.
pub record Patch {H I J K : Type 0} (same : Discrete (List ℕ)) (s : ElfVm H I J K) (base : ℕ)
    (reloc : RelocInfo) (value : ℕ) : Type 0 where
  pub block : AllocatedBlock
  pub present : In block s.mem.allocated_blocks
  pub within : InBlock block (place_of base reloc) 4
  pub readable : has_flag block.flags perm_read ≡ true
  pub old : ℕ
  pub reads_old : memory_read s.mem 4 (place_of base reloc) s.bytes ≡ ok old
  pub target : Target same s base reloc old value

-- What relocations leave in the memory: each place has the low 32 bits of its value, other bytes stay.
pub record Relocated {H I J K : Type 0} (s : ElfVm H I J K) (base : ℕ) (relocs : List RelocInfo)
    (value : RelocInfo → ℕ) (after : Bytes) : Type 0 where
  pub values :
      (reloc : RelocInfo)
      → In reloc relocs
      → memory_read s.mem 4 (place_of base reloc) after ≡ ok (value reloc % 2 ^ 32)
  pub others :
      (c : AllocatedBlock) (y count : ℕ)
      → In c s.mem.allocated_blocks
      → InBlock c y count
      → 0 < count
      → ((reloc : RelocInfo) → In reloc relocs → IsApartFrom base y count reloc)
      → memory_read s.mem count y after ≡ memory_read s.mem count y s.bytes

apart_sym :
    (base : ℕ) (reloc other : RelocInfo)
    → IsApartFrom base (place_of base other) 4 reloc
    → IsApartFrom base (place_of base reloc) 4 other
apart_sym base reloc other (inl d) = inr d
apart_sym base reloc other (inr d) = inl d

module _ {H I J K : Type 0} (same : Discrete (List ℕ)) (elf : Elf) (base : ℕ)
    (narrow : is_64_bits elf ≡ false) where
  abbrev pub HasPatches : (RelocInfo → ℕ) → ElfVm H I J K → List RelocInfo → Type 0
  HasPatches value s relocs =
      (reloc : RelocInfo) → In reloc relocs → Patch same s base reloc (value reloc)

  -- The values that relocations ask for depend on the bridge only.
  Target-bytes :
      (s : ElfVm H I J K) (bytes : Bytes) (reloc : RelocInfo) (old value : ℕ)
      → Target same s base reloc old value
      → Target same (record s { bytes = bytes }) base reloc old value
  Target-bytes s bytes reloc old value (Target.rebased k z) = Target.rebased k z
  Target-bytes s bytes reloc old value (Target.placed k z) = Target.placed k z
  Target-bytes s bytes reloc old value (Target.imported symbol bridge addr k y b f) =
      Target.imported symbol bridge addr k y b f

  module _ (s : ElfVm H I J K) (v : IsValid s.mem) (host : IsHostApart s.mem) (reloc : RelocInfo)
      (value : ℕ) (patch : Patch same s base reloc value) where
    abbrev patched : ℕ → ElfVm H I J K
    patched stored = record s {
      bytes = store 4 (host_of patch.block (place_of base reloc)) stored s.bytes;
    }

    inside : Contains patch.block (place_of base reloc)
    inside = (patch.within.0, omega (arith, patch.within))

    relocate-patched :
        (stored : ℕ) × (relocate same elf base reloc s ≡ (ok tt, patched stored))
        × (stored % 2 ^ 32 ≡ value % 2 ^ 32)
    relocate-patched =
        relocate-store same elf base reloc s narrow patch.block patch.old value v host patch.present
          inside patch.readable patch.reads_old patch.target

    patched-read :
        (stored : ℕ)
        → memory_read s.mem 4 (place_of base reloc) (patched stored).bytes ≡ ok (stored % 2 ^ 32)
    patched-read stored =
        reads s.mem v host patch.block 4 (place_of base reloc) (patched stored).bytes patch.present
          inside patch.readable
        ∙ ap (λ n. ok n) (load-store 4 (host_of patch.block (place_of base reloc)) stored s.bytes)

    patched-others :
        (stored : ℕ) (c : AllocatedBlock) (y count : ℕ)
        → In c s.mem.allocated_blocks
        → InBlock c y count
        → 0 < count
        → IsApartFrom base y count reloc
        → memory_read s.mem count y (patched stored).bytes ≡ memory_read s.mem count y s.bytes
    patched-others stored c y count j q t d =
        read-store_apart s.mem v host patch.block c 4 (place_of base reloc) count y stored s.bytes
          patch.present j patch.within q t d

    Patch-patched :
        (stored : ℕ) (other : RelocInfo) (wanted : ℕ)
        → IsApartFrom base (place_of base other) 4 reloc
        → Patch same s base other wanted
        → Patch same (patched stored) base other wanted
    Patch-patched stored other wanted d p = record {
      block = p.block;
      present = p.present;
      within = p.within;
      readable = p.readable;
      old = p.old;
      reads_old =
          patched-others stored p.block (place_of base other) 4 p.present p.within (omega arith) d
          ∙ p.reads_old;
      target = Target-bytes s (patched stored).bytes other p.old wanted p.target;
    }

  -- All relocations of a 32-bit binary, on a valid memory manager whose blocks have their own host
  -- memory, where each patches four bytes of one block that may be read, no two patch a byte in
  -- common, and the bridge has the symbols: they return and change nothing but the host's bytes. At
  -- each relocation's place the guest then reads the low 32 bits of the value that it asks for: what
  -- stood there plus the base of the binary, the base plus the addend where there is one, or the
  -- address of the symbol. What the guest reads elsewhere stays.
  pub relocate_all-Relocated :
      (value : RelocInfo → ℕ) (relocs : List RelocInfo) (s : ElfVm H I J K)
      → IsValid s.mem
      → IsHostApart s.mem
      → HasPatches value s relocs
      → ArePairwiseApart base relocs
      → (after : Bytes) × (relocate_all same elf base relocs s
          ≡ (ok tt, record s { bytes = after }))
        × Relocated s base relocs value after
  unfolding relocate_all
  relocate_all-Relocated value [] s v host patches d =
      (s.bytes, refl, record { values = λ reloc i. elim i [ ]; others = λ c y count j q t d. refl })
  relocate_all-Relocated value (reloc ∷ rest) s v host patches (d, ds) =
      let patch = patches reloc (inl refl) in
      let (stored, e, low) = relocate-patched s v host reloc (value reloc) patch in
      let next = patched s v host reloc (value reloc) patch stored in
      let (after, e2, r) =
        relocate_all-Relocated value rest next v host
          (λ other i.
            Patch-patched s v host reloc (value reloc) patch stored other (value other) (d other i)
              (patches other (inr i)))
          ds in
      let own : memory_read s.mem 4 (place_of base reloc) after ≡ ok (value reloc % 2 ^ 32) =
        r.others patch.block (place_of base reloc) 4 patch.present patch.within (omega arith)
          (λ other i. apart_sym base reloc other (d other i))
        ∙ patched-read s v host reloc (value reloc) patch stored
        ∙ ap (λ n. ok n) low in
      (
        after,
        rw e e2,
        record {
          values = λ other i. elim i [
            | inl q ↦
                subst
                  (λ (k : RelocInfo).
                    memory_read s.mem 4 (place_of base k) after ≡ ok (value k % 2 ^ 32))
                  (sym q) own
            | inr k ↦ r.values other k
          ];
          others = λ c y count j q t away.
              r.others c y count j q t (λ other i. away other (inr i))
              ∙ patched-others s v host reloc (value reloc) patch stored c y count j q t
                  (away reloc (inl refl));
        },
      )
