-- ===== src/Memory/Allocate/Placement.antt =====
-- Where MemoryManager::allocate places a block.
use native.Mathlib.Decide.{dec_le}
use das_hle.Base.{
  ℕ, ◌+◌, ◌≤◌, ◌<◌, ◌≡◌, refl, ◌∙◌, List, [], ◌∷◌, In, ◌⊎◌, inl, inr, arith, true, ok, err, some,
  none, no_virtual_memory,
}
use das_hle.Word.{word, add64_lem, sub64_lem}
use das_hle.Memory.{FreeBlock, AllocArgs, MemoryManager, has_flag, force_hint}
use das_hle.Memory.Find.Fit.{IsRequest, IsStart, HasNoRoom, EndsBelow}
use das_hle.Memory.Find.BestFit.{find_free_block-Fitting, free_blocks-Sorted, free_blocks-EndsBelow}
use das_hle.Memory.Allocate.{
  place_anywhere, block_at_hint, place_exact, place_at_hint, hint_missed, place,
}
use das_hle.Memory.Layout.{IsValid}
use das_hle.Memory.Layout.Lookup.{gaps_apart}

-- The search for the block at the hint, its end included.
abbrev pub At : FreeBlock → ℕ → Type 0
At b h = (b.virtual_base ≤ h) × (h ≤ b.virtual_base + b.size)

pub block_at_hint_cases :
    (h : ℕ) (xs : List FreeBlock)
    → EndsBelow xs word
    → ((b : FreeBlock) × (block_at_hint h xs ≡ some b) × In b xs × At b h)
      ⊎ ((block_at_hint h xs ≡ none) × ((b : FreeBlock) → In b xs → At b h → ⊥))
unfolding block_at_hint
block_at_hint_cases h [] below = inr (refl, λ b i. elim i [ ])
block_at_hint_cases h (b ∷ bs) below =
    let end = add64_lem b.virtual_base b.size (below b (inl refl)) in
    let rest = block_at_hint_cases h bs (λ c i. below c (inr i)) in
    elim (dec_le b.virtual_base h) [
      | yes lo ↦ elim (dec_le h (b.virtual_base + b.size)) [
        | yes hi ↦ inl (b, rw (end, block_at_hint) (ground arith), inl refl, (lo, hi))
        | no past ↦ skip b bs h (rw (end, block_at_hint) (ground arith)) (λ a. past a.1) rest
      ]
      | no short ↦ skip b bs h (rw (end, block_at_hint) (ground arith)) (λ a. short a.0) rest
    ]
  where
    skip :
        (b : FreeBlock) (bs : List FreeBlock) (h : ℕ)
        → block_at_hint h (b ∷ bs) ≡ block_at_hint h bs
        → (At b h → ⊥)
        → ((c : FreeBlock) × (block_at_hint h bs ≡ some c) × In c bs × At c h)
          ⊎ ((block_at_hint h bs ≡ none) × ((c : FreeBlock) → In c bs → At c h → ⊥))
        → ((c : FreeBlock) × (block_at_hint h (b ∷ bs) ≡ some c) × In c (b ∷ bs) × At c h)
          ⊎ ((block_at_hint h (b ∷ bs) ≡ none) × ((c : FreeBlock) → In c (b ∷ bs) → At c h → ⊥))
    skip b bs h e miss (inl (c, f, i, k)) = inl (c, e ∙ f, inr i, k)
    skip b bs h e miss (inr (f, others)) =
        inr (e ∙ f, λ c i k. elim i [ inl q ↦ miss (rw q at k) | inr j ↦ others c j k ])

pub place_at_hint-zero :
    (h : ℕ) (args : AllocArgs) (b : FreeBlock)
    → place_at_hint h 0 args b ≡ ok (place_exact h args b)
unfolding place_at_hint
place_at_hint-zero h args b = refl

place_exact-room :
    (h : ℕ) (args : AllocArgs) (b : FreeBlock)
    → b.virtual_base + b.size < word
    → At b h
    → h + args.size ≤ b.virtual_base + b.size
    → place_exact h args b ≡ some h
unfolding place_exact
place_exact-room h args b below at room =
    rw (add64_lem b.virtual_base b.size below, sub64_lem (b.virtual_base + b.size) h at.1 below)
      (ground arith)

place_exact-tight :
    (h : ℕ) (args : AllocArgs) (b : FreeBlock)
    → b.virtual_base + b.size < word
    → At b h
    → ¬ (h + args.size ≤ b.virtual_base + b.size)
    → has_flag args.flags force_hint ≡ true
    → place_exact h args b ≡ none
unfolding place_exact
place_exact-tight h args b below at tight f =
    rw (add64_lem b.virtual_base b.size below, sub64_lem (b.virtual_base + b.size) h at.1 below, f)
      (ground arith)

module _ {H : Type 0} (m : MemoryManager H) (v : IsValid m) where
  pub place_anywhere_lem :
      (n a : ℕ)
      → IsRequest n a
      → ((b : FreeBlock) × (addr : ℕ) × (place_anywhere m.free_blocks n a ≡ ok (b, addr))
          × In b m.free_blocks
          × IsStart n a b addr)
        ⊎ ((place_anywhere m.free_blocks n a ≡ err no_virtual_memory)
            × ((b : FreeBlock) → In b m.free_blocks → HasNoRoom n a b))
  unfolding place_anywhere
  place_anywhere_lem n a r =
      elim (find_free_block-Fitting n a m.free_blocks r (free_blocks-Sorted m v)
        (free_blocks-EndsBelow m v)) [
          | inl (b, addr, e, h, f, i, _) ↦ inl (b, addr, rw (e, place_anywhere) (rw f), h, i)
          | inr (e, rest) ↦ inr (rw (e, place_anywhere), rest)
        ]

  -- An enforced hint is taken as it is, in the one free block that has room there.
  pub place-forced :
      (args : AllocArgs) (h : ℕ)
      → args.hint ≡ some h
      → has_flag args.flags force_hint ≡ true
      → 0 < args.size
      → ((b : FreeBlock) × (place m.free_blocks 0 args ≡ ok (b, h))
          × In b m.free_blocks
          × IsStart args.size 0 b h)
        ⊎ ((place m.free_blocks 0 args ≡ err no_virtual_memory)
            × ((b : FreeBlock) → In b m.free_blocks → IsStart args.size 0 b h → ⊥))
  unfolding place
  place-forced args h e f pos =
      elim (block_at_hint_cases h m.free_blocks (free_blocks-EndsBelow m v)) [
        | inr (g, others) ↦ inr (rw (e, g, missed, place), λ b i s. others b i (s.0, omega arith))
        | inl (b, g, i, at) ↦
            let below = free_blocks-EndsBelow m v b i in
            elim (dec_le (h + args.size) (b.virtual_base + b.size)) [
              | yes room ↦ inl (
                b,
                rw (e, g, place)
                    (rw (place_at_hint-zero h args b, place_exact-room h args b below at room)),
                i,
                (at.0, room, inl refl),
              )
              | no tight ↦ inr (
                rw (e, g, place)
                    (rw (place_at_hint-zero h args b, place_exact-tight h args b below at tight f)
                      missed),
                λ c j s. other b c i j at s tight,
              )
            ]
      ]
    where
      missed : hint_missed m.free_blocks 0 args ≡ err no_virtual_memory
      missed = unfold hint_missed in rw f

      other :
          (b c : FreeBlock)
          → In b m.free_blocks
          → In c m.free_blocks
          → At b h
          → IsStart args.size 0 c h
          → ¬ (h + args.size ≤ b.virtual_base + b.size)
          → ⊥
      other b c i j at s tight =
          elim (gaps_apart b c 0 m.allocated_blocks m.max_memory v.spaced (rw v.free_are_gaps at i)
            (rw v.free_are_gaps at j)) [ inl q ↦ tight (rw q s.1) | inr apart ↦ omega arith ]
