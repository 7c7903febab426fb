-- ===== src/Memory/Layout/Carve.antt =====
-- A block that is put into a gap splits it.
use das_hle.Base.{
  ℕ, ◌+◌, ◌-◌, ◌≤◌, ◌<◌, ◌≡◌, ◌≢◌, refl, ◌∙◌, ap, true, List, [], ◌∷◌, In, inl, inr, arith,
}
use das_hle.SortedSet.{insert, inserts, erase}
use das_hle.Memory.{AllocatedBlock, FreeBlock, allocated_less, free_less}
use das_hle.Memory.Layout.{IsSpaced, gap_block, put_gap, gaps, total_size}
use das_hle.Memory.Layout.Gaps.{
  put_gap_comm, put_gap-insert_comm, put_gap_ne, In-put_gap, gaps_bounds, insert_before,
  insert_behind, inserts_before, inserts_behind, erase_first, erase_later,
}

-- The block n lies in the gap g.
abbrev pub IsInside : AllocatedBlock → FreeBlock → Type 0
IsInside n g =
    (0 < n.size)
    × (g.virtual_base ≤ n.virtual_base)
    × (n.virtual_base + n.size ≤ g.virtual_base + g.size)

-- What a block put into a gap does to the layout.
pub record Carve (n : AllocatedBlock) (g : FreeBlock) (start : ℕ) (bs : List AllocatedBlock)
    (end : ℕ) : Type 0 where
  pub rest : List FreeBlock
  pub whole : gaps start bs end ≡ insert free_less g rest
  pub new : In g rest → ⊥
  pub split :
      gaps start (insert allocated_less n bs) end
      ≡ put_gap
          (n.virtual_base + n.size)
          (g.virtual_base + g.size)
          (put_gap g.virtual_base n.virtual_base rest)
  pub spaced : IsSpaced start (insert allocated_less n bs) end
  pub total : total_size (insert allocated_less n bs) ≡ total_size bs + n.size
  pub is_new : inserts allocated_less n bs ≡ true
  pub undone : erase allocated_less n (insert allocated_less n bs) ≡ bs

-- The gap behind the last block.
Carve-last :
    (n : AllocatedBlock) (start end : ℕ)
    → start ≤ end
    → start ≢ end
    → IsInside n (gap_block start end)
    → Carve n (gap_block start end) start [] end
unfolding gaps insert
Carve-last n start end le ne i = record {
  rest = [];
  whole = put_gap_ne start end [] ne;
  new = λ h. h;
  split = rw back (put_gap_comm start n.virtual_base (n.virtual_base + n.size) end []);
  spaced = omega arith;
  total = unfold total_size in omega arith;
  is_new = unfold inserts in refl;
  undone = erase_first n [];
}
  where
    back : start + (end - start) ≡ end
    back = omega arith

-- The gap in front of the first block.
Carve-first :
    (n : AllocatedBlock) (start : ℕ) (b : AllocatedBlock) (bs : List AllocatedBlock) (end : ℕ)
    → IsSpaced start (b ∷ bs) end
    → start ≢ b.virtual_base
    → IsInside n (gap_block start b.virtual_base)
    → Carve n (gap_block start b.virtual_base) start (b ∷ bs) end
unfolding gaps
Carve-first n start b bs end s ne i = record {
  rest = after;
  whole = put_gap_ne start b.virtual_base after ne;
  new = λ h. absurd (omega (arith, gaps_bounds (gap_block start b.virtual_base) _ bs end s.2 h));
  split =
      rw (front, back)
        (put_gap_comm start n.virtual_base (n.virtual_base + n.size) b.virtual_base after);
  spaced = rw front (omega arith, i.0, (omega arith, s.1, s.2));
  total = rw front (unfold total_size in omega arith);
  is_new = inserts_before n b bs i.0 s.1 (omega arith);
  undone = rw front (erase_first n (b ∷ bs));
}
  where
    after : List FreeBlock
    after = gaps (b.virtual_base + b.size) bs end

    back : start + (b.virtual_base - start) ≡ b.virtual_base
    back = omega arith

    front : insert allocated_less n (b ∷ bs) ≡ n ∷ b ∷ bs
    front = insert_before n b bs i.0 s.1 (omega arith)

-- A gap behind the first block.
Carve-later :
    (n : AllocatedBlock) (g : FreeBlock) (start : ℕ) (b : AllocatedBlock) (bs : List AllocatedBlock)
    (end : ℕ)
    → IsSpaced start (b ∷ bs) end
    → IsInside n g
    → b.virtual_base + b.size ≤ g.virtual_base
    → Carve n g (b.virtual_base + b.size) bs end
    → Carve n g start (b ∷ bs) end
unfolding gaps
Carve-later n g start b bs end s i behind c = record {
  rest = put_gap start b.virtual_base c.rest;
  whole = rw c.whole (put_gap-insert_comm start b.virtual_base g c.rest);
  new = λ h. elim (In-put_gap g start b.virtual_base c.rest h) [
    | inl (ne, e) ↦ absurd (omega (arith, ap (λ (f : FreeBlock). f.virtual_base) e))
    | inr k ↦ c.new k
  ];
  split = rw back (rw c.split (simp (put_gap_comm start b.virtual_base)));
  spaced = rw back (s.0, s.1, c.spaced);
  total = rw back (unfold total_size in omega (arith, c.total));
  is_new = inserts_behind n b bs i.0 s.1 (omega (arith, s.1)) ∙ c.is_new;
  undone = rw back (
      erase_later n b (insert allocated_less n bs) i.0 s.1 (omega (arith, s.1))
      ∙ ap (◌∷◌ b) c.undone);
}
  where
    back : insert allocated_less n (b ∷ bs) ≡ b ∷ insert allocated_less n bs
    back = insert_behind n b bs i.0 s.1 (omega arith)

pub carve :
    (n : AllocatedBlock) (g : FreeBlock) (start : ℕ) (bs : List AllocatedBlock) (end : ℕ)
    → IsSpaced start bs end
    → IsInside n g
    → In g (gaps start bs end)
    → Carve n g start bs end
carve n g start [] end s i h = elim (In-put_gap g start end [] (unfold gaps in h)) [
  | inl (ne, e) ↦ rw e (Carve-last n start end s ne (rw e at i))
  | inr k ↦ elim k [ ]
]
carve n g start (b ∷ bs) end s i h =
    elim (In-put_gap g start b.virtual_base (gaps (b.virtual_base + b.size) bs end)
      (unfold gaps in h)) [
        | inl (ne, e) ↦ rw e (Carve-first n start b bs end s ne (rw e at i))
        | inr k ↦
            Carve-later n g start b bs end s i
              (gaps_bounds g (b.virtual_base + b.size) bs end s.2 k).0
              (carve n g (b.virtual_base + b.size) bs end s.2 i k)
      ]
