-- ===== src/Guest/ElfVm/Load/Patches.antt =====
-- What a relocation of loadBinary in source/DasHLE/Guest/ELFVM.cpp writes, as the guest reads it.
use das_hle.Base.{
  ℕ, ◌+◌, ◌%◌, ◌^◌, ◌≡◌, ◌≢◌, refl, sym, ap, ◌∙◌, In, true, false, ◌==◌, List, Option, some, ok,
  arith,
}
use das_hle.Word.{add64}
use das_hle.HostBytes.{load, store}
use das_hle.HostBytes.Laws.{load-store}
use das_hle.Memory.{AllocatedBlock, has_flag, perm_read}
use das_hle.Memory.Layout.{IsValid}
use das_hle.Memory.Layout.Lookup.{Contains}
use das_hle.Bridge.{Bridge, address_for_symbol}
use das_hle.Elf.{Elf, RelocInfo, RelocKind}
use das_hle.Elf.Dynamic.{is_64_bits}
use das_hle.Guest.Access.{translate, memory_read}
use das_hle.Guest.Access.Laws.{IsHostApart, host_of, translate-block, reads}
use das_hle.Guest.ElfVm.{ElfVm}
use das_hle.Guest.ElfVm.Segments.{addr_size}
use das_hle.Guest.ElfVm.Relocate.{to_host, write_vaddr, add_base, symbol_address, patch, relocate}

ok-injective : {x y : ℕ} → ok x ≡ ok y → x ≡ y
ok-injective e = cc

-- The value that a relocation asks for, where `old` is the value that it patches.
pub data Target {H I J K : Type 0} (same : Discrete (List ℕ)) (s : ElfVm H I J K) (base : ℕ)
    (reloc : RelocInfo) (old : ℕ) : ℕ → Type 0 where
  rebased :
      reloc.kind ≡ RelocKind.relative → reloc.addend ≡ 0 → Target same s base reloc old (old + base)
  placed :
      reloc.kind ≡ RelocKind.relative
      → reloc.addend ≢ 0
      → Target same s base reloc old (base + reloc.addend)
  imported :
      (symbol : List ℕ) (bridge : Bridge (List ℕ) H I J) (addr : ℕ)
      → reloc.kind ≡ RelocKind.symbol
      → reloc.symbol ≡ some symbol
      → s.bridge ≡ some bridge
      → address_for_symbol same symbol bridge ≡ ok addr
      → Target same s base reloc old addr

module _ {H I J K : Type 0} (same : Discrete (List ℕ)) (elf : Elf) (base : ℕ) (reloc : RelocInfo)
    (s : ElfVm H I J K) (narrow : is_64_bits elf ≡ false) where
  size-4 : addr_size elf ≡ 4
  unfolding addr_size
  size-4 = rw narrow refl

  writes_patch :
      (addr : ℕ)
      → translate s.mem (add64 base reloc.patch_offset) ≡ ok addr
      → relocate same elf base reloc s
        ≡ patch same elf base addr reloc.addend reloc.kind reloc.symbol s
  unfolding relocate to_host
  writes_patch addr e = rw (e, relocate) refl

  found_symbol :
      (symbol : List ℕ) (bridge : Bridge (List ℕ) H I J) (addr : ℕ)
      → s.bridge ≡ some bridge
      → address_for_symbol same symbol bridge ≡ ok addr
      → symbol_address same symbol s ≡ (ok addr, s)
  unfolding symbol_address
  found_symbol symbol bridge addr b f =
      rw (b, symbol_address)
        (rw (f, symbol_address)
          (ap (λ (x : Option (Bridge (List ℕ) H I J)). (ok addr, record s { bridge = x })) b))

  patch-Target :
      (addr old value : ℕ)
      → Target same s base reloc old value
      → load 4 addr s.bytes ≡ old
      → (stored : ℕ) × (patch same elf base addr reloc.addend reloc.kind reloc.symbol s
          ≡ (ok tt, record s { bytes = store 4 addr stored s.bytes }))
        × (stored % 2 ^ 32 ≡ value % 2 ^ 32)
  unfolding patch add_base write_vaddr add64
  patch-Target addr old value (Target.rebased k z) e =
      (add64 old base, rw (k, z) (rw (size-4) (rw e refl)), omega arith)
  patch-Target addr old value (Target.placed k nz) e =
      let test : (reloc.addend == 0) ≡ false = ground arith in
      (add64 base reloc.addend, rw (k, test, patch) (rw (size-4) refl), omega arith)
  patch-Target addr old value (Target.imported symbol bridge a k y b f) e =
      (a, rw (k, y) (rw (found_symbol symbol bridge a b f, patch) (rw (size-4) refl)), refl)

  -- What a relocation stores, at an address of a block that may be read.
  pub relocate-store :
      (b : AllocatedBlock) (old value : ℕ)
      → IsValid s.mem
      → IsHostApart s.mem
      → In b s.mem.allocated_blocks
      → Contains b (add64 base reloc.patch_offset)
      → has_flag b.flags perm_read ≡ true
      → memory_read s.mem 4 (add64 base reloc.patch_offset) s.bytes ≡ ok old
      → Target same s base reloc old value
      → (stored : ℕ) × (relocate same elf base reloc s ≡ (
        ok tt,
        record s { bytes = store 4 (host_of b (add64 base reloc.patch_offset)) stored s.bytes },
      ))
        × (stored % 2 ^ 32 ≡ value % 2 ^ 32)
  relocate-store b old value v host i c p r target =
      let x = add64 base reloc.patch_offset in
      let was : load 4 (host_of b x) s.bytes ≡ old =
        ok-injective (sym (reads s.mem v host b 4 x s.bytes i c p) ∙ r) in
      let (stored, e, low) = patch-Target (host_of b x) old value target was in
      (stored, writes_patch (host_of b x) (translate-block s.mem v host b x i c) ∙ e, low)

  -- A relocation of a 32-bit binary, on a valid memory manager whose blocks have their own host
  -- memory, at an address of a block that may be read: it returns, changes no block, and the guest
  -- then reads four bytes there that are the low 32 bits of the value that the relocation asks for:
  -- the old value plus the base of the binary, the base plus the addend where there is one, or the
  -- address that the bridge has for the symbol.
  pub relocate-Target :
      (b : AllocatedBlock) (old value : ℕ)
      → IsValid s.mem
      → IsHostApart s.mem
      → In b s.mem.allocated_blocks
      → Contains b (add64 base reloc.patch_offset)
      → has_flag b.flags perm_read ≡ true
      → memory_read s.mem 4 (add64 base reloc.patch_offset) s.bytes ≡ ok old
      → Target same s base reloc old value
      → (t : ElfVm H I J K) × (relocate same elf base reloc s ≡ (ok tt, t))
        × (t.mem ≡ s.mem)
        × (memory_read t.mem 4 (add64 base reloc.patch_offset) t.bytes ≡ ok (value % 2 ^ 32))
  relocate-Target b old value v host i c p r target =
      let x = add64 base reloc.patch_offset in
      let (stored, e, low) = relocate-store b old value v host i c p r target in
      let t = record s { bytes = store 4 (host_of b x) stored s.bytes } in
      (
        t,
        e,
        refl,
        reads s.mem v host b 4 x t.bytes i c p
            ∙ ap (λ n. ok n) (load-store 4 (host_of b x) stored s.bytes ∙ low),
      )
