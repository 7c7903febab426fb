-- ===== src/Guest/ElfVm/Load/Keeps.antt =====
-- loadBinary of source/DasHLE/Guest/ELFVM.cpp changes the memory manager by allocate() and setFlags()
-- only, whatever it returns.
use das_hle.Base.{
  ℕ, ◌<◌, ◌≡◌, refl, subst, inl, inr, Bool-cases, List, [], ◌∷◌, Option-cases, Error, ◌⊎◌, Option,
  none, some, Outcome, ok, err, abort, and_then, ◌==◌,
}
use das_hle.Word.{word, add64, add64-lt}
use das_hle.Memory.{AllocatedBlock, AllocArgs, HostAllocator, MemoryManager}
use das_hle.Memory.Allocate.Checks.{InRange}
use das_hle.Memory.Allocate.Laws.{HasStrictHint}
use das_hle.Memory.Trace.{Step, Reachable}
use das_hle.HashMap.{lookup}
use das_hle.Bridge.{address_for_symbol}
use das_hle.Elf.{Elf, RelocInfo, RelocKind}
use das_hle.Guest.Action.{Action, ◌>>=◌, lift}
use das_hle.Guest.ElfVm.{ElfVm, take_block}
use das_hle.Guest.ElfVm.Segments.{LoadSegmentInfo}
use das_hle.Guest.ElfVm.Segments.Bounds.{HasSizes}
use das_hle.Guest.ElfVm.Relocate.{
  symbol_address, fake_address, write_vaddr, add_base, to_host, patch, relocate, relocate_all,
}
use das_hle.Guest.ElfVm.Load.{protect_block, protect, map_segment, map_segments, segment_args}

some-injective : {x y : ℕ} → some x ≡ some y → x ≡ y
some-injective e = cc

pub segment-strict :
    (page_size base : ℕ) (info : LoadSegmentInfo) → HasStrictHint (segment_args page_size base info)
unfolding das_hle.Memory.has_flag
segment-strict page_size base info = inr (_, refl, refl)

pub segment-InRange :
    (page_size base : ℕ) (info : LoadSegmentInfo)
    → page_size < word
    → info.alloc_size < word
    → InRange (segment_args page_size base info)
segment-InRange page_size base info f g = record {
  size_fits = g;
  alignment_fits = f;
  hint_fits = λ h e. subst (λ x. x < word) (some-injective e) (add64-lt base info.alloc_offset);
}

pub Outcome-cases :
    {A : Type 0} (o : Outcome A)
    → ((x : A) × (o ≡ ok x)) ⊎ ((x : Error) × (o ≡ err x)) ⊎ (o ≡ abort) ⊎ (o ≡ Outcome.undefined)
Outcome-cases (ok x) = inl (x, refl)
Outcome-cases (err x) = inr (inl (x, refl))
Outcome-cases abort = inr (inr (inl refl))
Outcome-cases Outcome.undefined = inr (inr (inr refl))

module _ {H I J K : Type 0} (a : HostAllocator H) (size : ℕ) where
  -- The memory manager is one that calls reach, and the page size is a 64-bit number.
  abbrev pub IsGood : ElfVm H I J K → Type 0
  IsGood s = Reachable a size s.mem × (s.page_size < word)

  abbrev pub Keeps : {A : Type 0} → Action (ElfVm H I J K) A → Type 0
  Keeps act = (s : ElfVm H I J K) → IsGood s → IsGood (act s).1

  pub bind-Keeps :
      {A B : Type 0} (m : Action (ElfVm H I J K) A) (f : A → Action (ElfVm H I J K) B)
      → Keeps m
      → ((x : A) → Keeps (f x))
      → Keeps (m >>= f)
  bind-Keeps {A} {B} m f k l s g = after (m s) (k s g)
    where
      after : (r : Outcome A × ElfVm H I J K) → IsGood r.1 → IsGood (and_then r f).1
      after (ok x, t) h = l x t h
      after (err e, t) h = h
      after (abort, t) h = h
      after (Outcome.undefined, t) h = h

  -- Where the value comes from a computation that leaves the state alone.
  pub lift-Keeps :
      {A B : Type 0} (r : Outcome A) (f : A → Action (ElfVm H I J K) B)
      → ((x : A) → r ≡ ok x → Keeps (f x))
      → Keeps (lift r >>= f)
  lift-Keeps (ok x) f l s g = l x refl s g
  lift-Keeps (err e) f l s g = g
  lift-Keeps abort f l s g = g
  lift-Keeps Outcome.undefined f l s g = g

  fake_address-Keeps :
      (same : Discrete (List ℕ)) (symbol : List ℕ) → Keeps (fake_address same symbol)
  unfolding fake_address
  fake_address-Keeps same symbol s g = elim (Option-cases (lookup same symbol s.cache)) [
    | inl e ↦ rw (e, fake_address) g
    | inr (addr, e) ↦ rw (e, fake_address) g
  ]

  symbol_address-Keeps :
      (same : Discrete (List ℕ)) (symbol : List ℕ) → Keeps (symbol_address same symbol)
  unfolding symbol_address fake_address
  symbol_address-Keeps same symbol s g = elim (Option-cases s.bridge) [
    | inl e ↦ rw (e, symbol_address) g
    | inr (bridge, e) ↦ elim (Outcome-cases (address_for_symbol same symbol bridge)) [
      | inl (addr, f) ↦ rw (e, symbol_address) (rw f g)
      | inr (inl (x, f)) ↦ rw (e, symbol_address) (rw f (fake_address-Keeps same symbol s g))
      | inr (inr (inl f)) ↦ rw (e, symbol_address) (rw f g)
      | inr (inr (inr f)) ↦ rw (e, symbol_address) (rw f g)
    ]
  ]

  patch-Keeps :
      (same : Discrete (List ℕ)) (elf : Elf) (base addr addend : ℕ) (kind : RelocKind)
      (symbol : Option (List ℕ))
      → Keeps (patch same elf base addr addend kind symbol)
  unfolding patch write_vaddr add_base
  patch-Keeps same elf base addr addend RelocKind.relative symbol s g =
      elim (Bool-cases (addend == 0)) [ inl e ↦ rw (e, patch) g | inr e ↦ rw (e, patch) g ]
  patch-Keeps same elf base addr addend RelocKind.symbol none s g = g
  patch-Keeps same elf base addr addend RelocKind.symbol (some symbol) s g =
      bind-Keeps (symbol_address same symbol) (write_vaddr elf addr)
        (symbol_address-Keeps same symbol) (λ vaddr t h. h) s g

  relocate-Keeps :
      (same : Discrete (List ℕ)) (elf : Elf) (base : ℕ) (reloc : RelocInfo)
      → Keeps (relocate same elf base reloc)
  unfolding relocate to_host
  relocate-Keeps same elf base reloc =
      bind-Keeps (to_host (add64 base reloc.patch_offset))
        (λ addr. patch same elf base addr reloc.addend reloc.kind reloc.symbol) (λ s g. g)
        (λ addr. patch-Keeps same elf base addr reloc.addend reloc.kind reloc.symbol)

  pub relocate_all-Keeps :
      (same : Discrete (List ℕ)) (elf : Elf) (base : ℕ) (relocs : List RelocInfo)
      → Keeps (relocate_all same elf base relocs)
  unfolding relocate_all
  relocate_all-Keeps same elf base [] = λ s g. g
  relocate_all-Keeps same elf base (reloc ∷ rest) =
      bind-Keeps (relocate same elf base reloc) (λ u. relocate_all same elf base rest)
        (relocate-Keeps same elf base reloc) (λ u. relocate_all-Keeps same elf base rest)

  pub protect-Keeps : (base : ℕ) (infos : List LoadSegmentInfo) → Keeps (protect base infos)
  unfolding protect protect_block
  protect-Keeps base [] = λ s g. g
  protect-Keeps base (info ∷ rest) =
      bind-Keeps (protect_block (add64 base info.alloc_offset) info.permissions)
        (λ u. protect base rest)
        (λ s g. (Reachable.after s.mem g.0 (Step.sets_flags _ _ refl), g.1))
        (λ u. protect-Keeps base rest)

  map_segment-Keeps :
      (elf : Elf) (base : ℕ) (info : LoadSegmentInfo)
      → info.alloc_size < word
      → Keeps (map_segment a elf base info)
  unfolding map_segment take_block
  map_segment-Keeps elf base info fits s g =
      let args = segment_args s.page_size base info in
      bind-Keeps (take_block a args) _
        (λ t h. (
          Reachable.after t.mem h.0 (
              Step.allocates args (segment-InRange s.page_size base info g.1 fits)
                (segment-strict s.page_size base info) refl),
          h.1,
        ))
        (λ block. lift-Keeps _ _ (λ content e t h. h)) s g

  pub map_segments-Keeps :
      (elf : Elf) (base : ℕ) (infos : List LoadSegmentInfo)
      → HasSizes infos
      → Keeps (map_segments a elf base infos)
  unfolding map_segments
  map_segments-Keeps elf base [] h = λ s g. g
  map_segments-Keeps elf base (info ∷ rest) h =
      bind-Keeps (map_segment a elf base info) (λ u. map_segments a elf base rest)
        (map_segment-Keeps elf base info (h info (inl refl)))
        (λ u. map_segments-Keeps elf base rest (λ i place. h i (inr place)))
