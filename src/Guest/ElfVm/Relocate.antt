-- ===== src/Guest/ElfVm/Relocate.antt =====
-- The relocations of loadBinary in source/DasHLE/Guest/ELFVM.cpp, in the debug build.
use das_hle.Base.{
  ℕ, ◌==◌, if◌then◌else◌, List, [], ◌∷◌, Option, none, some, Outcome, ok, err, abort,
}
use das_hle.Word.{add64}
use das_hle.HashMap.{lookup, put}
use das_hle.HostBytes.{load, store}
use das_hle.Bridge.{address_for_symbol}
use das_hle.Elf.{Elf, RelocInfo, RelocKind}
use das_hle.Guest.Access.{translate}
use das_hle.Guest.Action.{Action, ◌>>=◌, ◌>>◌, done, lift, change}
use das_hle.Guest.ElfVm.{ElfVm}
use das_hle.Guest.ElfVm.Segments.{addr_size}

module _ {H I J K : Type 0} where
  -- The lambda virtualToHost.
  unfoldable pub to_host : ℕ → Action (ElfVm H I J K) ℕ
  to_host vaddr s = (translate s.mem vaddr, s)

  -- relocWriteVAddr and relocAddBinaryBase.
  unfoldable pub write_vaddr : Elf → ℕ → ℕ → Action (ElfVm H I J K) (Unit {0})
  write_vaddr elf addr vaddr =
      change (λ s. record s { bytes = store (addr_size elf) addr vaddr s.bytes })

  unfoldable pub add_base : Elf → ℕ → ℕ → Action (ElfVm H I J K) (Unit {0})
  add_base elf addr base = change (λ s.
      let old = load (addr_size elf) addr s.bytes in
      record s { bytes = store (addr_size elf) addr (add64 old base) s.bytes })

  -- The address of a symbol that the bridge does not have.
  unfoldable pub fake_address : Discrete (List ℕ) → List ℕ → Action (ElfVm H I J K) ℕ
  fake_address same symbol s = elim (lookup same symbol s.cache) [
    | some addr ↦ (ok addr, s)
    | none ↦ (
      ok s.fake_addr,
      record s { fake_addr = add64 s.fake_addr 4; cache = put same symbol s.fake_addr s.cache },
    )
  ]

  unfoldable pub symbol_address : Discrete (List ℕ) → List ℕ → Action (ElfVm H I J K) ℕ
  unfolding fake_address
  symbol_address same symbol s = elim s.bridge [
    | none ↦ (abort, s)
    | some bridge ↦ elim (address_for_symbol same symbol bridge) [
      | ok addr ↦ (ok addr, s)
      | err e ↦ fake_address same symbol s
      | abort ↦ (abort, s)
      | Outcome.undefined ↦ (Outcome.undefined, s)
    ]
  ]

  -- The branches of the loop on the kind of a relocation; the addend of a symbol is ignored.
  unfoldable pub patch :
      Discrete (List ℕ)
      → Elf
      → ℕ
      → ℕ
      → ℕ
      → RelocKind
      → Option (List ℕ)
      → Action (ElfVm H I J K) (Unit {0})
  unfolding write_vaddr add_base symbol_address
  patch same elf base addr addend RelocKind.relative symbol =
      if addend == 0 then add_base elf addr base else write_vaddr elf addr (add64 base addend)
  patch same elf base addr addend RelocKind.symbol none = lift abort
  patch same elf base addr addend RelocKind.symbol (some symbol) = do
    vaddr ← symbol_address same symbol
    write_vaddr elf addr vaddr

  unfoldable pub relocate :
      Discrete (List ℕ) → Elf → ℕ → RelocInfo → Action (ElfVm H I J K) (Unit {0})
  unfolding to_host patch
  relocate same elf base reloc = do
    addr ← to_host (add64 base reloc.patch_offset)
    patch same elf base addr reloc.addend reloc.kind reloc.symbol

  -- "Handle relocations."
  unfoldable pub relocate_all :
      Discrete (List ℕ) → Elf → ℕ → List RelocInfo → Action (ElfVm H I J K) (Unit {0})
  unfolding relocate
  relocate_all same elf base [] = done tt
  relocate_all same elf base (reloc ∷ rest) = do
    relocate same elf base reloc
    relocate_all same elf base rest
