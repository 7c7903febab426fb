-- ===== src/Memory/Manager/Flags.antt =====
-- What setFlags and virtualToHost of source/DasHLE/Host/Memory.h do with a valid manager.
use native.Mathlib.Decide.{ℕ_discrete, dec_le}
use das_hle.Base.{
  ℕ, ◌+◌, ◌-◌, ◌<◌, ◌≤◌, ◌≡◌, ◌≢◌, refl, ◌∙◌, sym, ap, subst, List, [], ◌∷◌, Outcome, ok, err,
  arith, In, ◌⊎◌, inl, inr, invalid_address, not_found, none, eq_refl,
}
use das_hle.Word.{word, add64_lem, sub64_lem}
use das_hle.SortedSet.{replace, find}
use das_hle.Memory.{AllocatedBlock, MemoryManager, allocated_less}
use das_hle.Memory.Find.{block_from_vaddr, address_key}
use das_hle.Memory.Manager.{set_flags, virtual_to_host}
use das_hle.Memory.Layout.{IsValid, IsSpaced, gaps, total_size}
use das_hle.Memory.Layout.Join.{block_bounds, equivalent_self, equivalent_behind}
use das_hle.Memory.Layout.Lookup.{Contains, Misses, find-Found, find_of_In}

-- The list with one block's flags changed, as an independent description.
abbrev pub with_flags : AllocatedBlock → ℕ → AllocatedBlock
with_flags b flags = record b { flags = flags }

-- What a change of flags leaves of the layout.
pub record Kept (b n : AllocatedBlock) (start : ℕ) (bs cs : List AllocatedBlock) (end : ℕ)
    : Type 0 where
  present : In n cs
  same_gaps : gaps start cs end ≡ gaps start bs end
  same_total : total_size cs ≡ total_size bs
  spaced : IsSpaced start cs end
  others : (c : AllocatedBlock) → In c bs → c.virtual_base ≢ b.virtual_base → In c cs

replace-Kept :
    (b : AllocatedBlock) (flags start : ℕ) (bs : List AllocatedBlock) (end : ℕ)
    → IsSpaced start bs end
    → In b bs
    → Kept b (with_flags b flags) start bs (replace allocated_less b (with_flags b flags) bs) end
unfolding gaps total_size replace
replace-Kept b flags start [] end s h = elim h [ ]
replace-Kept b flags start (x ∷ xs) end s (inl e) = rw e (
    rw (equivalent_self x) (record {
      present = inl refl;
      same_gaps = refl;
      same_total = refl;
      spaced = s;
      others = λ c i ne. elim i [
        | inl q ↦ absurd (ne (ap (λ (y : AllocatedBlock). y.virtual_base) q))
        | inr j ↦ inr j
      ];
    }))
replace-Kept b flags start (x ∷ xs) end s (inr h) =
    let bounds = block_bounds b (x.virtual_base + x.size) xs end s.2 h in
    let k = replace-Kept b flags (x.virtual_base + x.size) xs end s.2 h in
    rw (equivalent_behind b x bounds.1 s.1 (omega (arith, bounds, s.1))) (record {
      present = inr k.present;
      same_gaps = rw k.same_gaps;
      same_total = rw k.same_total;
      spaced = (s.0, s.1, k.spaced);
      others = λ c i ne. elim i [ inl q ↦ inl q | inr j ↦ inr (k.others c j ne) ];
    })

-- Only the flags of the block b change.
pub record Reflagged {H : Type 0} (m : MemoryManager H) (b : AllocatedBlock) (flags : ℕ)
    (r : Outcome ℕ × MemoryManager H) : Type 0 where
  pub returns : r.0 ≡ ok b.flags
  pub valid : IsValid r.1
  pub changed : block_from_vaddr b.virtual_base r.1 ≡ ok (with_flags b flags)
  pub same_free : r.1.free_blocks ≡ m.free_blocks
  pub same_used : r.1.used_memory ≡ m.used_memory
  pub same_max : r.1.max_memory ≡ m.max_memory
  pub others :
      (c : AllocatedBlock) (x : ℕ)
      → In c m.allocated_blocks
      → c.virtual_base ≢ b.virtual_base
      → Contains c x
      → block_from_vaddr x r.1 ≡ ok c

block_from_vaddr-In :
    {H : Type 0} (m : MemoryManager H) (b : AllocatedBlock) (x : ℕ)
    → IsValid m
    → In b m.allocated_blocks
    → Contains b x
    → block_from_vaddr x m ≡ ok b
unfolding block_from_vaddr
block_from_vaddr-In m b x v h c =
    rw (find_of_In b x 0 m.allocated_blocks m.max_memory v.fits v.spaced h c, block_from_vaddr)

module _ {H : Type 0} (m : MemoryManager H) (v : IsValid m) (flags : ℕ) where
  base-Contains : (b : AllocatedBlock) → In b m.allocated_blocks → Contains b b.virtual_base
  base-Contains b h = omega (arith, block_bounds b 0 m.allocated_blocks m.max_memory v.spaced h)

  reflag :
      (b : AllocatedBlock)
      → In b m.allocated_blocks
      → Reflagged m b flags (set_flags b.virtual_base flags m)
  unfolding set_flags
  reflag b h =
      rw (block_from_vaddr-In m b b.virtual_base v h (base-Contains b h), set_flags)
        (rw (eq_refl b.virtual_base) (record {
          returns = refl;
          valid = valid;
          changed =
              block_from_vaddr-In m' (with_flags b flags) b.virtual_base valid k.present
                (base-Contains b h);
          same_free = refl;
          same_used = refl;
          same_max = refl;
          others = λ c x i ne d. block_from_vaddr-In m' c x valid (k.others c i ne) d;
        }))
    where
      m' : MemoryManager H
      m' = record m {
        allocated_blocks = replace allocated_less b (with_flags b flags) m.allocated_blocks;
      }

      k : Kept b (with_flags b flags) 0 m.allocated_blocks m'.allocated_blocks m.max_memory
      k = replace-Kept b flags 0 m.allocated_blocks m.max_memory v.spaced h

      valid : IsValid m'
      valid = record {
        fits = v.fits;
        spaced = k.spaced;
        free_are_gaps = v.free_are_gaps ∙ sym k.same_gaps;
        used_is_total = v.used_is_total ∙ sym k.same_total;
      }

  -- On a valid manager, setFlags at the start of an allocated block returns the block's old flags and
  -- changes nothing but those flags; inside a block it returns InvalidAddress, and outside all blocks
  -- NotFound, and changes nothing.
  pub set_flags_lem :
      (vbase : ℕ)
      → ((b : AllocatedBlock) × In b m.allocated_blocks
          × (b.virtual_base ≡ vbase)
          × Reflagged m b flags (set_flags vbase flags m))
        ⊎ ((b : AllocatedBlock) × In b m.allocated_blocks
            × Contains b vbase
            × (b.virtual_base ≢ vbase)
            × (set_flags vbase flags m ≡ (err invalid_address, m)))
        ⊎ (((b : AllocatedBlock) → In b m.allocated_blocks → Misses b vbase)
            × (set_flags vbase flags m ≡ (err not_found, m)))
  set_flags_lem vbase = elim (find-Found vbase 0 m.allocated_blocks m.max_memory v.fits v.spaced) [
    | inl (b, e, h, c) ↦ elim (ℕ_discrete b.virtual_base vbase) [
      | yes p ↦ inl (b, h, p, subst (λ x. Reflagged m b flags (set_flags x flags m)) p (reflag b h))
      | no ne ↦ inr (inl (b, h, c, ne, inside b ne (block_from_vaddr-In m b vbase v h c)))
    ]
    | inr (e, miss) ↦ inr (inr (miss, outside e))
  ]
    where
      inside :
          (b : AllocatedBlock)
          → b.virtual_base ≢ vbase
          → block_from_vaddr vbase m ≡ ok b
          → set_flags vbase flags m ≡ (err invalid_address, m)
      inside b ne e = unfold set_flags in rw (e, set_flags) (ground arith)

      outside :
          find allocated_less (address_key vbase) m.allocated_blocks ≡ none
          → set_flags vbase flags m ≡ (err not_found, m)
      outside e = unfold set_flags block_from_vaddr in rw (e, set_flags, block_from_vaddr)

-- virtualToHost moves an address of the block, its end included, by the distance of the two bases,
-- and turns down any other, for a block whose virtual and host ranges fit 64 bits.
pub virtual_to_host_lem :
    (b : AllocatedBlock) (vaddr : ℕ)
    → b.virtual_base + b.size < word
    → b.host_base + b.size < word
    → ((b.virtual_base ≤ vaddr)
        × (vaddr ≤ b.virtual_base + b.size)
        × (virtual_to_host b vaddr ≡ ok (b.host_base + (vaddr - b.virtual_base))))
      ⊎ (((vaddr < b.virtual_base) ⊎ (b.virtual_base + b.size < vaddr))
          × (virtual_to_host b vaddr ≡ err invalid_address))
unfolding virtual_to_host
virtual_to_host_lem b vaddr fits host_fits = elim (dec_le b.virtual_base vaddr) [
  | no short ↦ inr (inl (omega arith), ground arith)
  | yes lo ↦ elim (dec_le vaddr (b.virtual_base + b.size)) [
    | no past ↦ inr (
      inr (omega arith),
      rw (add64_lem b.virtual_base b.size fits, virtual_to_host) (ground arith),
    )
    | yes hi ↦ inl (
      lo,
      hi,
      rw
          (
            add64_lem b.virtual_base b.size fits,
            sub64_lem vaddr b.virtual_base lo (omega arith),
            virtual_to_host,
          )
          (ground (arith, add64_lem (vaddr - b.virtual_base) b.host_base)),
    )
  ]
]
