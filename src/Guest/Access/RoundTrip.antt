-- ===== src/Guest/Access/RoundTrip.antt =====
-- Reads after writes of the guest, through ARMVM::Environment of source/DasHLE/Guest/ARM/ARM.cpp.
use native.Mathlib.Decide.{ℕ_discrete}
use das_hle.Base.{
  ℕ, suc, ◌+◌, ◌-◌, ◌/◌, ◌%◌, ◌^◌, ◌≤◌, ◌<◌, ◌≡◌, sym, ap, subst, ◌∙◌, ◌⊎◌, inl, inr, true,
  Bool-cases, In, ok, ◌>>=◌, arith, eq_refl,
}
use das_hle.HostBytes.{Bytes, set_byte, store}
use das_hle.HostBytes.Laws.{load-store, load-store_apart, store-elsewhere}
use das_hle.Memory.{AllocatedBlock, MemoryManager, has_flag, perm_read, perm_write}
use das_hle.Memory.Layout.{IsValid}
use das_hle.Memory.Layout.Join.{block_bounds}
use das_hle.Memory.Layout.Lookup.{Contains, Contains-unique}
use das_hle.Guest.Access.{memory_read, memory_write}
use das_hle.Guest.Access.Laws.{
  IsHostApart, InBlock, host_of, reads, writes, write-block, read-denied,
}

-- The second byte that a write stores.
store-second :
    (size addr value : ℕ) (bytes : Bytes)
    → store (suc (suc size)) addr value bytes (addr + 1) ≡ value / 256 % 256
unfolding store
store-second size addr value bytes =
    let here : set_byte (addr + 1) (value / 256 % 256) (set_byte addr (value % 256) bytes)
          (addr + 1)
        ≡ value / 256 % 256 =
      ground (arith, eq_refl (addr + 1)) in
    store-elsewhere size (addr + 1 + 1) (value / 256 / 256) (addr + 1)
      (set_byte (addr + 1) (value / 256 % 256) (set_byte addr (value % 256) bytes))
      (inl (omega arith))
    ∙ here

-- Ranges of the guest that do not overlap, in blocks of their own memory, do not overlap in the host.
host-apart :
    (b c : AllocatedBlock) (x size y count : ℕ)
    → InBlock b x size
    → InBlock c y count
    → (b.host_base + b.size ≤ c.host_base) ⊎ (c.host_base + c.size ≤ b.host_base)
    → (host_of c y + count ≤ host_of b x) ⊎ (host_of b x + size ≤ host_of c y)
host-apart b c x size y count p q (inl k) = inr (omega arith)
host-apart b c x size y count p q (inr k) = inl (omega arith)

host-apart_within :
    (b : AllocatedBlock) (x size y count : ℕ)
    → InBlock b x size
    → InBlock b y count
    → (x + size ≤ y) ⊎ (y + count ≤ x)
    → (host_of b y + count ≤ host_of b x) ⊎ (host_of b x + size ≤ host_of b y)
host-apart_within b x size y count p q (inl k) = inr (omega arith)
host-apart_within b x size y count p q (inr k) = inl (omega arith)

module _ {H : Type 0} (m : MemoryManager H) (v : IsValid m) (host : IsHostApart m) where
  -- On a valid manager whose blocks have their own host memory: a write of `size` bytes at an
  -- address in a block that may be read and written, and a read of that size there after it, give
  -- the value cut off to the size.
  pub read-write :
      (b : AllocatedBlock) (size x value : ℕ) (bytes : Bytes)
      → In b m.allocated_blocks
      → Contains b x
      → has_flag b.flags perm_read ≡ true
      → has_flag b.flags perm_write ≡ true
      → (memory_write m size x value bytes >>= λ after. memory_read m size x after)
        ≡ ok (value % 256 ^ size)
  read-write b size x value bytes i c p q =
      let addr = host_of b x in
      rw (writes m v host b size x value bytes i c q) (
        reads m v host b size x (store size addr value bytes) i c p
        ∙ ap (λ t. ok t) (load-store size addr value bytes))

  guest-apart :
      (b c : AllocatedBlock) (x size y count : ℕ)
      → In b m.allocated_blocks
      → In c m.allocated_blocks
      → InBlock b x size
      → InBlock c y count
      → (x + size ≤ y) ⊎ (y + count ≤ x)
      → (host_of c y + count ≤ host_of b x) ⊎ (host_of b x + size ≤ host_of c y)
  guest-apart b c x size y count i j p q d = elim (ℕ_discrete b.virtual_base c.virtual_base) [
    | no n ↦ host-apart b c x size y count p q (host.apart b c i j n)
    | yes e ↦
        let pb = block_bounds b 0 m.allocated_blocks m.max_memory v.spaced i in
        let pc = block_bounds c 0 m.allocated_blocks m.max_memory v.spaced j in
        let same : b ≡ c =
          Contains-unique b c b.virtual_base 0 m.allocated_blocks m.max_memory v.spaced i j
            (omega arith, omega (arith, pb)) (omega (arith, e), omega (arith, e, pc)) in
        subst
          (λ (k : AllocatedBlock).
            (InBlock k y count)
            → (host_of k y + count ≤ host_of b x) ⊎ (host_of b x + size ≤ host_of k y))
          same (λ within. host-apart_within b x size y count p within d) q
  ]

  pub read-store_apart :
      (b c : AllocatedBlock) (size x count y value : ℕ) (bytes : Bytes)
      → In b m.allocated_blocks
      → In c m.allocated_blocks
      → InBlock b x size
      → InBlock c y count
      → 0 < count
      → (x + size ≤ y) ⊎ (y + count ≤ x)
      → memory_read m count y (store size (host_of b x) value bytes) ≡ memory_read m count y bytes
  read-store_apart b c size x count y value bytes i j p q t d =
      let after = store size (host_of b x) value bytes in
      let there : Contains c y = (q.0, omega (arith, q, t)) in
      elim (Bool-cases (has_flag c.flags perm_read)) [
        | inl r ↦
            reads m v host c count y after j there r
            ∙ ap (λ t. ok t)
                (load-store_apart size (host_of b x) value count (host_of c y) bytes
                  (guest-apart b c x size y count i j p q d))
            ∙ sym (reads m v host c count y bytes j there r)
        | inr r ↦
            read-denied m v c count y after j there r
            ∙ sym (read-denied m v c count y bytes j there r)
      ]

  -- On a valid manager whose blocks have their own host memory: a write that does not abort, of
  -- bytes that lie in one block, does not change what a read of other bytes gives, if those lie in
  -- one block too; the two blocks may be the same.
  pub read-write_apart :
      (b c : AllocatedBlock) (size x count y value : ℕ) (bytes after : Bytes)
      → In b m.allocated_blocks
      → In c m.allocated_blocks
      → InBlock b x size
      → InBlock c y count
      → 0 < size
      → 0 < count
      → (x + size ≤ y) ⊎ (y + count ≤ x)
      → memory_write m size x value bytes ≡ ok after
      → memory_read m count y after ≡ memory_read m count y bytes
  read-write_apart b c size x count y value bytes after i j p q s t d h =
      let (b', i', here, w, stored) = write-block m v host size x value bytes after h in
      let same : b' ≡ b =
        Contains-unique b' b x 0 m.allocated_blocks m.max_memory v.spaced i' i here
          (p.0, omega (arith, p, s)) in
      let is_store : store size (host_of b x) value bytes ≡ after =
        ap (λ (k : AllocatedBlock). store size (host_of k x) value bytes) (sym same) ∙ stored in
      ap (λ t. memory_read m count y t) (sym is_store)
      ∙ read-store_apart b c size x count y value bytes i j p q t d

  -- On a valid manager whose blocks have their own host memory: a write of two bytes or more at the
  -- last address of a block that may be written is not refused, and its second byte goes to the
  -- host's memory behind the block.
  pub write-overrun :
      (b : AllocatedBlock) (size value : ℕ) (bytes : Bytes)
      → In b m.allocated_blocks
      → has_flag b.flags perm_write ≡ true
      → 0 < b.size
      → (after : Bytes) × (memory_write m (suc (suc size)) (b.virtual_base + b.size - 1) value bytes
          ≡ ok after)
        × (after (b.host_base + b.size) ≡ value / 256 % 256)
  write-overrun b size value bytes i q pos =
      let x = b.virtual_base + b.size - 1 in
      let next : b.host_base + b.size ≡ host_of b x + 1 = omega arith in
      (
        store (suc (suc size)) (host_of b x) value bytes,
        writes m v host b (suc (suc size)) x value bytes i (omega arith, omega arith) q,
        ap (store (suc (suc size)) (host_of b x) value bytes) next
            ∙ store-second size (host_of b x) value bytes,
      )
