-- ===== src/Memory/Layout/Join.antt =====
-- A block that is taken out joins the gaps beside it.
use das_hle.Base.{
  ℕ, ◌+◌, ◌≤◌, ◌<◌, ◌≡◌, refl, ap, ◌∙◌, List, [], ◌∷◌, In, inl, inr, arith, true, false, Option,
  some,
}
use das_hle.Word.{word, add64_lem}
use das_hle.SortedSet.{erase, equivalent, prev_from, next, head?}
use das_hle.Memory.{AllocatedBlock, FreeBlock, allocated_less}
use das_hle.Memory.Release.{prev_end, next_start}
use das_hle.Memory.Layout.{IsSpaced, gap_block, put_gap, gaps, total_size}
use das_hle.Memory.Layout.Gaps.{put_gap_comm, In-put_gap, gaps_bounds, spaced-le}

pub block_bounds :
    (it : AllocatedBlock) (start : ℕ) (bs : List AllocatedBlock) (end : ℕ)
    → IsSpaced start bs end
    → In it bs
    → (start ≤ it.virtual_base) × (0 < it.size) × (it.virtual_base + it.size ≤ end)
block_bounds it start [] end s h = elim h [ ]
block_bounds it start (b ∷ bs) end s (inl e) =
    rw e (s.0, s.1, spaced-le (b.virtual_base + b.size) bs end s.2)
block_bounds it start (b ∷ bs) end s (inr h) =
    omega (arith, block_bounds it (b.virtual_base + b.size) bs end s.2 h)

pub equivalent_self : (b : AllocatedBlock) → equivalent allocated_less b b ≡ true
unfolding equivalent allocated_less
equivalent_self b = ground arith

pub equivalent_behind :
    (it b : AllocatedBlock)
    → 0 < it.size
    → 0 < b.size
    → b.virtual_base < it.virtual_base
    → equivalent allocated_less it b ≡ false
unfolding equivalent allocated_less
equivalent_behind it b hi hb lt = ground arith

-- What taking `it` out does to the layout, where `lo` is the end of the block before it, and `hi`
-- the start of the next one.
pub record Join (it : AllocatedBlock) (lo hi start : ℕ) (bs : List AllocatedBlock) (end : ℕ)
    : Type 0 where
  pub rest : List FreeBlock
  pub whole :
      gaps start bs end ≡ put_gap lo it.virtual_base (put_gap (it.virtual_base + it.size) hi rest)
  pub joined : gaps start (erase allocated_less it bs) end ≡ put_gap lo hi rest
  pub new_lo : In (gap_block lo it.virtual_base) (put_gap (it.virtual_base + it.size) hi rest) → ⊥
  pub new_hi : In (gap_block (it.virtual_base + it.size) hi) rest → ⊥
  pub start-le-lo : start ≤ lo
  pub lo-le-base : lo ≤ it.virtual_base
  pub end-le-hi : it.virtual_base + it.size ≤ hi
  pub hi-le-end : hi ≤ end
  pub spaced : IsSpaced start (erase allocated_less it bs) end
  pub total : total_size (erase allocated_less it bs) + it.size ≡ total_size bs

-- `it` is the first block; `hi` and `after` are what follows it.
Join-first :
    (it : AllocatedBlock) (hi start : ℕ) (bs : List AllocatedBlock) (end : ℕ)
    (after : List FreeBlock)
    → IsSpaced start (it ∷ bs) end
    → gaps (it.virtual_base + it.size) bs end ≡ put_gap (it.virtual_base + it.size) hi after
    → gaps start bs end ≡ put_gap start hi after
    → ((g : FreeBlock) → In g after → hi < g.virtual_base)
    → it.virtual_base + it.size ≤ hi
    → hi ≤ end
    → IsSpaced start bs end
    → Join it start hi start (it ∷ bs) end
Join-first it hi start bs end after s e f above le le' spaced = record {
  rest = after;
  whole = unfold gaps in rw e;
  joined = rw gone f;
  new_lo = λ h. elim (In-put_gap (gap_block start it.virtual_base) _ hi after h) [
    | inl (ne, p) ↦ absurd (omega (arith, s.0, s.1, ap (λ (g : FreeBlock). g.virtual_base) p))
    | inr k ↦ absurd (omega (arith, s.0, s.1, above (gap_block start it.virtual_base) k))
  ];
  new_hi = λ h. absurd (omega (arith, above (gap_block (it.virtual_base + it.size) hi) h));
  start-le-lo = omega arith;
  lo-le-base = s.0;
  end-le-hi = le;
  hi-le-end = le';
  spaced = rw gone spaced;
  total = rw gone (unfold total_size in omega arith);
}
  where
    gone : erase allocated_less it (it ∷ bs) ≡ bs
    gone = unfold erase in rw (equivalent_self it)

Join-here :
    (it : AllocatedBlock) (start : ℕ) (bs : List AllocatedBlock) (end : ℕ)
    → IsSpaced start (it ∷ bs) end
    → Join it start (next_start end (head? bs)) start (it ∷ bs) end
unfolding next_start head?
Join-here it start [] end s =
    Join-first it end start [] end [] s (unfold gaps in refl) (unfold gaps in refl)
      (λ g h. elim h [ ]) s.2 (omega arith) (omega arith)
Join-here it start (q ∷ r) end s =
    Join-first it q.virtual_base start (q ∷ r) end (gaps (q.virtual_base + q.size) r end) s
      (unfold gaps in refl) (unfold gaps in refl)
      (λ g h. omega (arith, gaps_bounds g (q.virtual_base + q.size) r end s.2.2 h)) s.2.0
      (omega (arith, spaced-le (q.virtual_base + q.size) r end s.2.2)) (omega arith, s.2.1, s.2.2)

-- `it` stands behind the first block.
Join-later :
    (it : AllocatedBlock) (lo hi start : ℕ) (b : AllocatedBlock) (bs : List AllocatedBlock)
    (end : ℕ)
    → IsSpaced start (b ∷ bs) end
    → 0 < it.size
    → b.virtual_base + b.size ≤ it.virtual_base
    → Join it lo hi (b.virtual_base + b.size) bs end
    → Join it lo hi start (b ∷ bs) end
Join-later it lo hi start b bs end s pos behind j = record {
  rest = put_gap start b.virtual_base j.rest;
  whole =
      unfold gaps in
      rw j.whole (
        put_gap_comm start b.virtual_base lo it.virtual_base _
        ∙ ap (put_gap lo it.virtual_base)
            (put_gap_comm start b.virtual_base (it.virtual_base + it.size) hi j.rest));
  joined = rw kept (unfold gaps in rw j.joined (put_gap_comm start b.virtual_base lo hi j.rest));
  new_lo = λ h.
      elim (In-put_gap (gap_block lo it.virtual_base) start b.virtual_base _
        (rw (put_gap_comm (it.virtual_base + it.size) hi start b.virtual_base j.rest) at h)) [
          | inl (ne, p) ↦
              absurd (omega (arith, s.1, j.start-le-lo, ap (λ (g : FreeBlock). g.virtual_base) p))
          | inr k ↦ j.new_lo k
        ];
  new_hi = λ h.
      elim (In-put_gap (gap_block (it.virtual_base + it.size) hi) start b.virtual_base j.rest h) [
        | inl (ne, p) ↦ absurd (omega (arith, s.1, ap (λ (g : FreeBlock). g.virtual_base) p))
        | inr k ↦ j.new_hi k
      ];
  start-le-lo = omega (arith, s.0, j.start-le-lo);
  lo-le-base = j.lo-le-base;
  end-le-hi = j.end-le-hi;
  hi-le-end = j.hi-le-end;
  spaced = rw kept (s.0, s.1, j.spaced);
  total = rw kept (unfold total_size in omega (arith, j.total));
}
  where
    kept : erase allocated_less it (b ∷ bs) ≡ b ∷ erase allocated_less it bs
    kept = unfold erase in rw (equivalent_behind it b pos s.1 (omega (arith, s.1)))

pub join :
    (it : AllocatedBlock) (before : Option AllocatedBlock) (start : ℕ) (bs : List AllocatedBlock)
    (end : ℕ)
    → end < word
    → prev_end before ≡ start
    → IsSpaced start bs end
    → In it bs
    → Join it
        (prev_end (prev_from allocated_less before it bs))
        (next_start end (next allocated_less it bs))
        start
        bs
        end
unfolding prev_from next
join it before start [] end w p s h = elim h [ ]
join it before start (b ∷ bs) end w p s (inl e) =
    rw e (rw (equivalent_self b) (rw p (Join-here b start bs end s)))
join it before start (b ∷ bs) end w p s (inr h) =
    let bounds = block_bounds it (b.virtual_base + b.size) bs end s.2 h in
    rw (equivalent_behind it b bounds.1 s.1 (omega (arith, s.1, bounds))) (
      Join-later it _ _ start b bs end s bounds.1 bounds.0 (
        join it (some b) (b.virtual_base + b.size) bs end w
          (unfold prev_end in
            add64_lem b.virtual_base b.size
              (omega (arith, spaced-le (b.virtual_base + b.size) bs end s.2)))
          s.2 h))
