-- ===== src/Memory/Find/Fit.antt =====
-- What alignedBase and findFreeBlock of source/DasHLE/Host/Memory.cpp find.
use native.Mathlib.Decide.{dec_le, ℕ_discrete}
use native.Mathlib.Nat.{div-add-mod'}
use das_hle.Base.{
  ℕ, ◌+◌, ◌-◌, ◌*◌, ◌/◌, ◌%◌, ◌≤◌, ◌<◌, ◌≡◌, refl, subst, List, [], ◌∷◌, In, ◌⊎◌, inl, inr, arith,
  true, Outcome, ok, err, no_virtual_memory,
}
use das_hle.Word.{word, sub64, sub64_lem}
use das_hle.Align.{is_power_of_two}
use das_hle.Align.Laws.{IsCeil, align_down-power, align_up-power, power-pos}
use das_hle.SortedSet.Sorted.{Sorted}
use das_hle.Memory.{FreeBlock, free_less}
use das_hle.Memory.Find.{aligned_base, first_fit, find_free_block_from, start_in}

-- The smallest aligned address is below any other.
pub ceil-le : (v a d e : ℕ) → 0 < a → IsCeil v a d → e % a ≡ 0 → v ≤ e → d ≤ e
ceil-le v a d e pos c m le = elim (dec_le d e) [
  | yes p ↦ p
  | no p ↦ absurd (
      gap (d / a) (e / a) (omega (arith, div-add-mod' d a, c.0)) (omega (arith, div-add-mod' e a))
        (omega arith))
]
  where
    gap : (x y : ℕ) → x * a ≡ d → y * a ≡ e → e < d → ⊥
    gap x y p q lt = elim (dec_le x y) [
      | yes xy ↦ omega (arith, products x y xy)
      | no yx ↦ omega (arith, products (y + 1) x (omega arith))
    ]
      where
        products : (i j : ℕ) → i ≤ j → i * a ≤ j * a
        products i j h = grind arith

pub aligned_base_lem :
    (base a : ℕ)
    → a < word
    → base + (a - 1) < word
    → is_power_of_two a ≡ true
    → (d : ℕ) × (aligned_base base a ≡ ok d) × IsCeil base a d
unfolding aligned_base
aligned_base_lem base a ha fits p =
    let (f, e, floor) = align_down-power base a (omega arith) ha p in
    elim (ℕ_discrete f base) [
      | yes same ↦ (
        base,
        rw (e, aligned_base) (ground arith),
        (subst (λ t. t % a ≡ 0) same floor.0, omega arith, omega (arith, power-pos a p)),
      )
      | no other ↦
          let (d, e', ceil) = align_up-power base a ha fits p in
          (d, rw (e, aligned_base) (rw e' (ground arith)), ceil)
    ]

-- An allocation of n bytes, aligned to a unless that is 0, may start at `addr` in the free block.
abbrev pub IsStart : ℕ → ℕ → FreeBlock → ℕ → Type 0
IsStart n a b addr =
    (b.virtual_base ≤ addr) × (addr + n ≤ b.virtual_base + b.size) × ((a ≡ 0) ⊎ (addr % a ≡ 0))

abbrev pub HasNoRoom : ℕ → ℕ → FreeBlock → Type 0
HasNoRoom n a b = (addr : ℕ) → IsStart n a b addr → ⊥

-- A size above 0, and an alignment that is 0 or a power of two up to the size.
abbrev pub IsRequest : ℕ → ℕ → Type 0
IsRequest n a = (0 < n) × ((a ≡ 0) ⊎ ((a < word) × (is_power_of_two a ≡ true) × (a ≤ n)))

-- The first block of the list, in its order, that has room for the request, or the error if none has.
abbrev pub Fitting : ℕ → ℕ → List FreeBlock → Outcome FreeBlock → Type 0
Fitting n a xs r =
    ((b : FreeBlock) × (addr : ℕ) × (r ≡ ok b)
      × In b xs
      × (start_in a b ≡ ok addr)
      × IsStart n a b addr
      × ((c : FreeBlock) → In c xs → free_less c b ≡ true → HasNoRoom n a c))
    ⊎ ((r ≡ err no_virtual_memory) × ((c : FreeBlock) → In c xs → HasNoRoom n a c))

abbrev pub EndsBelow : List FreeBlock → ℕ → Type 0
EndsBelow xs top = (b : FreeBlock) → In b xs → b.virtual_base + b.size < top

not_less : (b c : FreeBlock) → free_less b c ≡ true → free_less c b ≡ true → ⊥
unfolding free_less
not_less b c h k = ground arith

-- One round of the loop over the blocks.
first_fit-suc :
    (n a : ℕ) (b : FreeBlock) (bs : List FreeBlock)
    → 0 < n
    → a < word
    → is_power_of_two a ≡ true
    → a ≤ n
    → n ≤ b.size
    → b.virtual_base + b.size < word
    → ((addr : ℕ) × (first_fit n a (b ∷ bs) ≡ ok b) × (start_in a b ≡ ok addr) × IsStart n a b addr)
      ⊎ ((first_fit n a (b ∷ bs) ≡ first_fit n a bs) × HasNoRoom n a b)
first_fit-suc n a b bs pos ha p le fits below =
    let (d, e, ceil) = aligned_base_lem b.virtual_base a ha (omega arith) p in
    let room : sub64 b.size (sub64 d b.virtual_base) ≡ b.size - (d - b.virtual_base) =
      rw (sub64_lem d b.virtual_base ceil.1 (omega arith))
        (sub64_lem b.size (d - b.virtual_base) (omega arith) (omega arith)) in
    elim (dec_le n (b.size - (d - b.virtual_base))) [
      | yes enough ↦ inl (
        d,
        unfold first_fit in rw (e, first_fit) (rw room (ground arith)),
        unfold start_in in rw (e, start_in) (ground (arith, power-pos a p)),
        (ceil.1, omega arith, inr ceil.0),
      )
      | no short ↦ inr (
        unfold first_fit in rw (e, first_fit) (rw room (ground arith)),
        λ addr i. elim i.2 [
          | inl z ↦ omega (arith, power-pos a p)
          | inr m ↦ omega (arith, ceil-le b.virtual_base a d addr (power-pos a p) ceil m i.0)
        ],
      )
    ]

first_fit-Fitting :
    (n a : ℕ) (xs : List FreeBlock)
    → 0 < n
    → a < word
    → is_power_of_two a ≡ true
    → a ≤ n
    → Sorted free_less xs
    → ((b : FreeBlock) → In b xs → n ≤ b.size)
    → EndsBelow xs word
    → Fitting n a xs (first_fit n a xs)
first_fit-Fitting n a [] pos ha p le s large below =
    inr (unfold first_fit in refl, λ c h. elim h [ ])
first_fit-Fitting n a (b ∷ bs) pos ha p le s large below =
    elim (first_fit-suc n a b bs pos ha p le (large b (inl refl)) (below b (inl refl))) [
      | inl (addr, e, e', i) ↦ inl (
        b,
        addr,
        e,
        inl refl,
        e',
        i,
        λ c h k. elim h [
          | inl q ↦ absurd (not_less b b (rw q at k) (rw q at k))
          | inr h' ↦ absurd (not_less b c (s.0 c h') k)
        ],
      )
      | inr (e, none_here) ↦
          rw e
            (elim (first_fit-Fitting n a bs pos ha p le s.1 (λ c h. large c (inr h))
              (λ c h. below c (inr h))) [
                | inl (c, addr, f, h, f', i, before) ↦ inl (
                  c,
                  addr,
                  f,
                  inr h,
                  f',
                  i,
                  λ d j k. elim j [ inl q ↦ rw q none_here | inr j' ↦ before d j' k ],
                )
                | inr (f, rest) ↦
                    inr (f, λ d j. elim j [ inl q ↦ rw q none_here | inr j' ↦ rest d j' ])
              ])
    ]

-- Without an alignment the first block is taken.
head-Fitting :
    (n a : ℕ) (xs : List FreeBlock)
    → a ≡ 0
    → Sorted free_less xs
    → ((b : FreeBlock) → In b xs → n ≤ b.size)
    → Fitting n a xs (find_free_block_from n a xs)
unfolding find_free_block_from start_in
head-Fitting n a [] z s large = inr (refl, λ c h. elim h [ ])
head-Fitting n a (b ∷ bs) z s large = inl (
  b,
  b.virtual_base,
  ground arith,
  inl refl,
  ground arith,
  (omega arith, omega (arith, large b (inl refl)), inl z),
  λ c h k. elim h [
    | inl q ↦ absurd (not_less b b (rw q at k) (rw q at k))
    | inr h' ↦ absurd (not_less b c (s.0 c h') k)
  ],
)

pub find_from-Fitting :
    (n a : ℕ) (xs : List FreeBlock)
    → IsRequest n a
    → Sorted free_less xs
    → ((b : FreeBlock) → In b xs → n ≤ b.size)
    → EndsBelow xs word
    → Fitting n a xs (find_free_block_from n a xs)
find_from-Fitting n a xs (pos, inl z) s large below = head-Fitting n a xs z s large
find_from-Fitting n a [] (pos, inr (ha, p, m)) s large below =
    inr (unfold find_free_block_from in refl, λ c h. elim h [ ])
find_from-Fitting n a (b ∷ bs) (pos, inr (ha, p, m)) s large below =
    subst (Fitting n a (b ∷ bs)) enters (first_fit-Fitting n a (b ∷ bs) pos ha p m s large below)
  where
    enters : first_fit n a (b ∷ bs) ≡ find_free_block_from n a (b ∷ bs)
    enters = unfold find_free_block_from in ground (arith, power-pos a p)
