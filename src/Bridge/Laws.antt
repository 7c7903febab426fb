-- ===== src/Bridge/Laws.antt =====
-- What registerFunction, buildIFT, addressForSymbol and emitCall of source/DasHLE/Host/Bridge.cpp
-- do together.
use native.Mathlib.Decide.{ℕ_discrete}
use das_hle.Base.{
  ◌*◌, ◌%◌, ◌<◌, ◌≡◌, ◌≢◌, refl, ◌∙◌, ◌⊎◌, inl, inr, length, ok, err, arith, Error, In,
}
use das_hle.Word.{word}
use das_hle.Memory.{AllocatedBlock, HostAllocator}
use das_hle.Memory.Allocate.{allocate}
use das_hle.Memory.Allocate.Checks.{InRange}
use das_hle.Memory.Allocate.Commit.{KeepsBlock}
use das_hle.Memory.Allocate.Laws.{Refused, allocate_lem}
use das_hle.Memory.Layout.{IsValid}
use das_hle.Bridge.{
  Bridge, has_built_ift, table_size, ift_args, ift_no_func, install, build_table, build_ift,
}
use das_hle.Bridge.Table.{IsTable}

-- The table before it is built: its entries stand from 0 on, and its size is a 64-bit number.
pub record IsOpen {S H I J : Type 0} (b : Bridge S H I J) : Type 0 where
  pub unbuilt : b.ift_base ≡ 0
  pub table : IsTable 0 b.func_entries b.emitters
  pub fits : length b.func_entries * 4 < word

-- The table is built in the block n.
pub record IsBuilt {S H I J : Type 0} (a : HostAllocator H) (b : Bridge S H I J)
    (n : AllocatedBlock) : Type 0 where
  pub some_functions : length b.func_entries ≢ 0
  pub allocates : (allocate a (ift_args b.func_entries) b.mem).0 ≡ ok n
  pub is_valid : IsValid (allocate a (ift_args b.func_entries) b.mem).1
  pub present : In n (allocate a (ift_args b.func_entries) b.mem).1.allocated_blocks
  pub size_is : n.size ≡ length b.func_entries * 4
  pub aligned : n.virtual_base % 4 ≡ 0
  pub result :
      build_ift a b
      ≡ (ok tt, install n (record b { mem = (allocate a (ift_args b.func_entries) b.mem).1 }))

module _ {S H I J : Type 0} (a : HostAllocator H) (keeps : KeepsBlock a) (b : Bridge S H I J)
    (v : IsValid b.mem) (o : IsOpen b) where
  pub args-InRange : InRange (ift_args b.func_entries)
  unfolding table_size
  args-InRange = record {
    size_fits = omega arith;
    alignment_fits = omega arith;
    hint_fits = λ h e. cc;
  }

  builds : length b.func_entries ≢ 0 → build_ift a b ≡ build_table a b
  unfolding build_ift has_built_ift
  builds ne = ground (arith, o.unbuilt)

  build_table-ok :
      (n : AllocatedBlock)
      → (allocate a (ift_args b.func_entries) b.mem).0 ≡ ok n
      → build_table a b
        ≡ (ok tt, install n (record b { mem = (allocate a (ift_args b.func_entries) b.mem).1 }))
  unfolding build_table
  build_table-ok n e = rw e refl

  build_table-err :
      (e : Error) (h : H)
      → allocate a (ift_args b.func_entries) b.mem ≡ (err e, record b.mem { host = h })
      → build_table a b ≡ (err e, record b { mem = record b.mem { host = h } })
  unfolding build_table
  build_table-err e h q = rw q refl

  at_table :
      (n : AllocatedBlock) → n.size ≡ table_size b.func_entries → n.size ≡ length b.func_entries * 4
  unfolding table_size
  at_table n e = omega (arith, o.fits)

  -- Every outcome of buildIFT on an open bridge whose memory manager is valid, over a host allocator
  -- that keeps the block. Without functions it marks the table as built and allocates nothing. With
  -- functions, either it allocates a block of four bytes for each, at a multiple of four, and installs
  -- it, or it returns the error of allocate(), and only the host's state changes.
  pub build_ift_lem :
      ((length b.func_entries ≡ 0) × (build_ift a b ≡ (ok tt, record b { ift_base = ift_no_func })))
      ⊎ ((n : AllocatedBlock) × IsBuilt a b n)
      ⊎ ((e : Error) × (h : H) × (length b.func_entries ≢ 0)
          × (build_ift a b ≡ (err e, record b { mem = record b.mem { host = h } }))
          × Refused a b.mem (ift_args b.func_entries) e)
  unfolding build_ift has_built_ift
  build_ift_lem = elim (ℕ_discrete (length b.func_entries) 0) [
    | yes z ↦ inl (z, ground (arith, o.unbuilt))
    | no ne ↦
        elim (allocate_lem a b.mem (ift_args b.func_entries) keeps v args-InRange (inl refl)) [
          | inl (n, h, done, size, _, at, _) ↦ inr (
              inl (
                n,
                record {
                  some_functions = ne;
                  allocates = done.returns;
                  is_valid = done.valid;
                  present = done.present;
                  size_is = at_table n size;
                  aligned = elim at [ inl z ↦ absurd (omega arith) | inr m ↦ m ];
                  result = builds ne ∙ build_table-ok n done.returns;
                },
              ))
          | inr (e, h, q, why) ↦ inr (inr (e, h, ne, builds ne ∙ build_table-err e h q, why))
        ]
  ]
