-- ===== src/Tests/Load.antt =====
-- loadBinary on the file of Tests/Elf, and one relocation.
use mathlib.Core.List.{List-discrete}
use native.Mathlib.Decide.{ℕ_discrete}
use das_hle.Base.{
  ℕ, ◌+◌, ◌≤◌, ◌<◌, ◌≡◌, ◌∙◌, refl, sym, subst, In, ◌==◌, if◌then◌else◌, inl, inr, Bool, true,
  false, Bool-cases, ltb, ◌&&◌, List, [], ◌∷◌, none, Outcome, ok, arith,
}
use das_hle.Memory.Layout.{IsValid}
use das_hle.Memory.Manager.{create, default_allocator}
use das_hle.Memory.Trace.{Reachable}
use das_hle.Word.{add64}
use das_hle.HostBytes.{Bytes, load}
use das_hle.Bridge.{Bridge}
use das_hle.Elf.{RelocInfo, RelocKind}
use das_hle.Elf.Dynamic.{is_64_bits}
use das_hle.Guest.Access.{memory_read}
use das_hle.Guest.Access.Laws.{reads}
use das_hle.Guest.ElfVm.{ElfVm, fresh}
use das_hle.Guest.ElfVm.Segments.Bounds.{IsBytes}
use das_hle.Guest.ElfVm.Relocate.{relocate_all}
use das_hle.Guest.ElfVm.Load.{load_binary}
use das_hle.Guest.ElfVm.Load.Valid.{load_binary-IsValid}
use das_hle.Guest.ElfVm.Load.Patches.{Target}
use das_hle.Guest.ElfVm.Load.PatchesAll.{
  Patch, Relocated, IsApartFrom, ArePairwiseApart, place_of, relocate_all-Relocated,
}
use das_hle.Tests.Memory.{bump, bump-KeepsBlock, bump-KeepsSize, busy, busy-IsValid, high}
use das_hle.Tests.Guest.{State, toy, no_bytes, busy-IsHostApart, high-readable, In-high}
use das_hle.Tests.Elf.{file, file_elf}

abbrev same_name : Discrete (List ℕ)
same_name = List-discrete ℕ_discrete

abbrev all_bytes : List ℕ → Bool
all_bytes [] = true
all_bytes (b ∷ bs) = ltb b 256 && all_bytes bs

pub all_bytes-IsBytes : (bytes : List ℕ) → all_bytes bytes ≡ true → IsBytes bytes
all_bytes-IsBytes [] h b i = elim i [ ]
all_bytes-IsBytes (c ∷ cs) h b (inl e) = elim (Bool-cases (ltb c 256)) [
  | inl lt ↦ subst (λ x. x < 256) (sym e) (ground arith)
  | inr ge ↦ absurd (cc (rw ge at h))
]
all_bytes-IsBytes (c ∷ cs) h b (inr i) = elim (Bool-cases (ltb c 256)) [
  | inl lt ↦ all_bytes-IsBytes cs (rw lt at h) b i
  | inr ge ↦ absurd (cc (rw ge at h))
]

abbrev populate : Bridge (List ℕ) ℕ ℕ ℕ → Outcome (Unit {0}) × Bridge (List ℕ) ℕ ℕ ℕ
populate b = (ok tt, b)

abbrev empty_vm : ElfVm ℕ ℕ ℕ State
empty_vm = fresh (create bump 0 0x10000).1 no_bytes 0x1000

load_binary-IsValid_example :
    let t = (load_binary bump true false same_name toy populate file empty_vm).1 in
    IsValid t.mem × (t.mem.max_memory ≡ 0x10000)
load_binary-IsValid_example =
    load_binary-IsValid bump 0x10000 true false same_name toy populate file empty_vm bump-KeepsBlock
      bump-KeepsSize (λ b r. r) (all_bytes-IsBytes file refl) (omega arith) (omega arith)
      (unfold fresh in omega arith)
      (unfold fresh in Reachable.created 0 (unfold default_allocator in refl) refl)

-- Two relocations in the block at 0x4000.
abbrev rebasing : RelocInfo
rebasing = record { patch_offset = 0x10; addend = 0; kind = RelocKind.relative; symbol = none }

abbrev placing : RelocInfo
placing = record { patch_offset = 0x20; addend = 8; kind = RelocKind.relative; symbol = none }

abbrev value_of : RelocInfo → ℕ
value_of reloc = if reloc.addend == 0 then 0 + 0x4000 else 0x4000 + reloc.addend

abbrev mapped : ElfVm ℕ ℕ ℕ State
mapped = fresh busy no_bytes 0x1000

old_at : (x : ℕ) → 0x4000 ≤ x → x + 4 ≤ 0x6000 → memory_read busy 4 x no_bytes ≡ ok 0
old_at x lo hi =
    reads busy busy-IsValid busy-IsHostApart high 4 x no_bytes In-high (omega arith, omega arith)
      high-readable
    ∙ (unfold load in refl)

rebasing-Patch : Patch same_name mapped 0x4000 rebasing (value_of rebasing)
unfolding fresh add64
rebasing-Patch = record {
  block = high;
  present = In-high;
  within = (omega arith, omega arith);
  readable = high-readable;
  old = 0;
  reads_old = old_at 0x4010 (omega arith) (omega arith);
  target = Target.rebased refl refl;
}

placing-Patch : Patch same_name mapped 0x4000 placing (value_of placing)
unfolding fresh add64
placing-Patch = record {
  block = high;
  present = In-high;
  within = (omega arith, omega arith);
  readable = high-readable;
  old = 0;
  reads_old = old_at 0x4020 (omega arith) (omega arith);
  target = Target.placed refl (omega arith);
}

mapped-HasPatches :
    (reloc : RelocInfo)
    → In reloc (rebasing ∷ placing ∷ [])
    → Patch same_name mapped 0x4000 reloc (value_of reloc)
mapped-HasPatches reloc (inl e) =
    subst (λ (r : RelocInfo). Patch same_name mapped 0x4000 r (value_of r)) (sym e) rebasing-Patch
mapped-HasPatches reloc (inr (inl e)) =
    subst (λ (r : RelocInfo). Patch same_name mapped 0x4000 r (value_of r)) (sym e) placing-Patch
mapped-HasPatches reloc (inr (inr k)) = elim k [ ]

two-ArePairwiseApart : ArePairwiseApart 0x4000 (rebasing ∷ placing ∷ [])
unfolding add64
two-ArePairwiseApart = (first, ((λ other i. elim i [ ]), tt))
  where
    first :
        (other : RelocInfo)
        → In other (placing ∷ [])
        → IsApartFrom 0x4000 (place_of 0x4000 other) 4 rebasing
    first other (inl e) =
        subst (λ (r : RelocInfo). IsApartFrom 0x4000 (place_of 0x4000 r) 4 rebasing) (sym e)
          (unfold add64 in inl (omega arith))
    first other (inr k) = elim k [ ]

relocate_all-Relocated_example :
    (after : Bytes) × (relocate_all same_name file_elf 0x4000 (rebasing ∷ placing ∷ []) mapped
      ≡ (ok tt, record mapped { bytes = after }))
    × Relocated mapped 0x4000 (rebasing ∷ placing ∷ []) value_of after
relocate_all-Relocated_example =
    relocate_all-Relocated same_name file_elf 0x4000 (unfold is_64_bits in refl) value_of
      (rebasing ∷ placing ∷ []) mapped (unfold fresh in busy-IsValid)
      (unfold fresh in busy-IsHostApart) mapped-HasPatches two-ArePairwiseApart
