-- ===== src/Bridge/Calls.antt =====
-- A call from the guest: buildIFT, then addressForSymbol and emitCall, and the destructor, of
-- source/DasHLE/Host/Bridge.h and Bridge.cpp.
use native.Mathlib.Decide.{ℕ_discrete}
use das_hle.Base.{
  ℕ, ◌+◌, ◌*◌, ◌≤◌, ◌<◌, ◌≡◌, ◌≢◌, refl, sym, ap, ◌∙◌, inl, inr, length, [], some, ok, err, arith,
  In, Error,
}
use das_hle.Word.{word, add64_lem}
use das_hle.HashMap.{lookup}
use das_hle.Memory.{AllocatedBlock, HostAllocator}
use das_hle.Memory.Allocate.{allocate}
use das_hle.Memory.Allocate.Commit.{KeepsBlock}
use das_hle.Memory.Release.{free}
use das_hle.Memory.Release.Laws.{KeepsSize}
use das_hle.Memory.RoundTrip.{SameMemory, free-allocate}
use das_hle.Memory.Layout.{IsValid}
use das_hle.Memory.Layout.Join.{block_bounds}
use das_hle.Bridge.{
  Bridge, Emitter, has_built_ift, ift_args, ift_no_func, address_for_symbol, emit_call_32,
  emit_call_64, invoke32, invoke64, install, build_ift, destroy,
}
use das_hle.Bridge.Table.{table-KeysBelow, lookup-table, lookup-rebase, lookup-rebase_emitters}
use das_hle.Bridge.Laws.{IsOpen, IsBuilt, build_ift_lem, args-InRange}
use das_hle.Bridge.Register.{IsRegistered}

-- A symbol's address in the bridge c leads to the function e.
pub record Reaches {S H I J : Type 0} (same : Discrete S) (s : S) (e : Emitter I J)
    (c : Bridge S H I J) : Type 0 where
  pub block : AllocatedBlock
  pub addr : ℕ
  pub present : In block c.mem.allocated_blocks
  pub inside : (block.virtual_base ≤ addr) × (addr + 4 ≤ block.virtual_base + block.size)
  pub address : address_for_symbol same s c ≡ ok addr
  pub call_32 : (ir : I) → emit_call_32 addr ir c ≡ invoke32 e ir
  pub call_64 : (ir : J) → emit_call_64 addr ir c ≡ invoke64 e ir

module _ {S H I J : Type 0} (c : Bridge S H I J) (ready : c.ift_base ≢ 0) where
  address_for_symbol-function :
      (same : Discrete S) (s : S) (addr : ℕ)
      → lookup same s c.func_entries ≡ some addr
      → address_for_symbol same s c ≡ ok addr
  unfolding address_for_symbol has_built_ift
  address_for_symbol-function same s addr h = ground arith

  emit_call_32-emitter :
      (addr : ℕ) (e : Emitter I J) (ir : I)
      → lookup ℕ_discrete addr c.emitters ≡ some e
      → emit_call_32 addr ir c ≡ invoke32 e ir
  unfolding emit_call_32 has_built_ift
  emit_call_32-emitter addr e ir h = ground arith

  emit_call_64-emitter :
      (addr : ℕ) (e : Emitter I J) (ir : J)
      → lookup ℕ_discrete addr c.emitters ≡ some e
      → emit_call_64 addr ir c ≡ invoke64 e ir
  unfolding emit_call_64 has_built_ift
  emit_call_64-emitter addr e ir h = ground arith

module _ {S H I J : Type 0} (a : HostAllocator H) (keeps : KeepsBlock a) (b : Bridge S H I J)
    (v : IsValid b.mem) (o : IsOpen b) where
  pub built :
      length b.func_entries ≢ 0 → (build_ift a b).0 ≡ ok tt → (n : AllocatedBlock) × IsBuilt a b n
  built ne e = elim (build_ift_lem a keeps b v o) [
    | inl (z, _) ↦ absurd (ne z)
    | inr (inl r) ↦ r
    | inr (inr (code, h, _, q, _)) ↦ absurd (refused code h q)
  ]
    where
      refused :
          (code : Error) (h : H)
          → build_ift a b ≡ (err code, record b { mem = record b.mem { host = h } })
          → ⊥
      refused code h q = let clash : err code ≡ ok tt = sym (ap (λ r. r.0) q) ∙ e in cc

  pub bounds :
      (n : AllocatedBlock) → IsBuilt a b n → n.virtual_base + length b.func_entries * 4 < word
  bounds n t = omega (
    arith,
    t.size_is,
    t.is_valid.fits,
    block_bounds n 0 (allocate a (ift_args b.func_entries) b.mem).1.allocated_blocks
        (allocate a (ift_args b.func_entries) b.mem).1.max_memory t.is_valid.spaced t.present,
  )

  module _ (same : Discrete S) (s : S) (e : Emitter I J) (g : IsRegistered same s e b)
      (n : AllocatedBlock) (t : IsBuilt a b n) where
    place-bounds : g.place + 4 ≤ length b.func_entries * 4
    place-bounds =
        omega (arith, (lookup-table same s g.place 0 b.func_entries b.emitters o.table g.entry).1)

    moved : Bridge S H I J
    moved = install n (record b { mem = (allocate a (ift_args b.func_entries) b.mem).1 })

    moved-entry : lookup same s moved.func_entries ≡ some (n.virtual_base + g.place)
    unfolding moved install
    moved-entry =
        lookup-rebase same s n.virtual_base g.place b.func_entries g.entry
        ∙ ap some (
            add64_lem g.place n.virtual_base (omega (arith, bounds n t, place-bounds))
            ∙ omega arith)

    moved-emitter : lookup ℕ_discrete (n.virtual_base + g.place) moved.emitters ≡ some e
    unfolding moved install
    moved-emitter =
        lookup-rebase_emitters g.place n.virtual_base (length b.func_entries * 4) e b.emitters []
          (bounds n t)
          (table-KeysBelow 0 (length b.func_entries * 4) b.func_entries b.emitters o.table
            (omega arith))
          (unfold lookup in refl) g.emitter

    pub reach : n.virtual_base ≢ 0 → Reaches same s e (build_ift a b).1
    unfolding moved install
    reach pos = rw t.result (record {
      block = n;
      addr = n.virtual_base + g.place;
      present = t.present;
      inside = (omega arith, omega (arith, place-bounds, t.size_is));
      address = address_for_symbol-function moved pos same s (n.virtual_base + g.place) moved-entry;
      call_32 = λ ir. emit_call_32-emitter moved pos (n.virtual_base + g.place) e ir moved-emitter;
      call_64 = λ ir. emit_call_64-emitter moved pos (n.virtual_base + g.place) e ir moved-emitter;
    })

  pub has_functions :
      (same : Discrete S) (s : S) (e : Emitter I J)
      → IsRegistered same s e b
      → length b.func_entries ≢ 0
  has_functions same s e g z =
      omega (arith, (lookup-table same s g.place 0 b.func_entries b.emitters o.table g.entry).1)

  base_is : (n : AllocatedBlock) → IsBuilt a b n → (build_ift a b).1.ift_base ≡ n.virtual_base
  unfolding install
  base_is n t = rw t.result refl

  -- A registered function is called, for an open bridge whose memory manager is valid, over a host
  -- allocator that keeps the fields of a block: after a buildIFT that succeeds with a table that does not start
  -- at address 0, addressForSymbol gives the function's name an address whose four bytes lie within
  -- an allocated block, and emitCall at that address invokes the emitter that was registered.
  pub build_ift-Reaches :
      (same : Discrete S) (s : S) (e : Emitter I J)
      → IsRegistered same s e b
      → (build_ift a b).0 ≡ ok tt
      → (build_ift a b).1.ift_base ≢ 0
      → Reaches same s e (build_ift a b).1
  build_ift-Reaches same s e g succeeds pos =
      let (n, t) = built (has_functions same s e g) succeeds in
      reach same s e g n t (λ z. pos (base_is n t ∙ z))

  frees :
      (n : AllocatedBlock) (c : Bridge S H I J)
      → c.ift_base ≡ n.virtual_base
      → n.virtual_base ≢ 0
      → n.virtual_base ≢ ift_no_func
      → (free a n.virtual_base c.mem).0 ≡ ok tt
      → destroy a c ≡ (ok tt, record c { mem = (free a n.virtual_base c.mem).1 })
  unfolding destroy has_built_ift
  frees n c e pos ne f = ground arith

  below : (n : AllocatedBlock) → IsBuilt a b n → n.virtual_base ≢ ift_no_func
  below n t q = omega (arith, bounds n t, t.some_functions)

  freed :
      KeepsSize a
      → (n : AllocatedBlock) → IsBuilt a b n
      → n.virtual_base ≢ 0
      → let d = destroy a (build_ift a b).1 in (d.0 ≡ ok tt) × SameMemory d.1.mem b.mem
  unfolding install
  freed size n t pos =
      let m = (allocate a (ift_args b.func_entries) b.mem).1 in
      let back =
        free-allocate a keeps size b.mem (ift_args b.func_entries) n v (args-InRange a keeps b v o)
          (inl refl) t.allocates in
      let e = frees n (install n (record b { mem = m })) refl pos (below n t) back.0 in
      rw t.result (rw e refl, rw e (back.1))

  -- The destructor, for an open bridge whose memory manager is valid, over a host allocator that keeps
  -- the fields of a block, after a buildIFT that succeeds with functions and a table that does not start at
  -- address 0: it frees the table, and the memory manager has the allocated blocks, the free blocks
  -- and the used memory of before buildIFT.
  pub destroy-build_ift :
      KeepsSize a
      → length b.func_entries ≢ 0
      → (build_ift a b).0 ≡ ok tt
      → (build_ift a b).1.ift_base ≢ 0
      → let d = destroy a (build_ift a b).1 in (d.0 ≡ ok tt) × SameMemory d.1.mem b.mem
  destroy-build_ift size some_functions succeeds pos =
      let (n, t) = built some_functions succeeds in freed size n t (λ z. pos (base_is n t ∙ z))
