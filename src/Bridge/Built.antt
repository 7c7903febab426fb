-- ===== src/Bridge/Built.antt =====
-- What buildIFT of source/DasHLE/Host/Bridge.cpp leaves in the bridge.
use native.Mathlib.Decide.{ℕ_discrete}
use das_hle.Base.{
  ℕ, ◌+◌, ◌*◌, ◌%◌, ◌<◌, ◌≡◌, ◌≢◌, refl, sym, ap, subst, ◌∙◌, ◌⊎◌, inl, inr, List, [], ◌∷◌, length,
  some, none, ok, err, arith, Error, In,
}
use das_hle.Word.{word, add64_lem}
use das_hle.HashMap.{lookup}
use das_hle.Memory.{AllocatedBlock, HostAllocator}
use das_hle.Memory.Allocate.{allocate}
use das_hle.Memory.Allocate.Commit.{KeepsBlock}
use das_hle.Memory.Allocate.Laws.{Refused}
use das_hle.Memory.Layout.{IsValid}
use das_hle.Bridge.{Bridge, Emitter, ift_args, ift_no_func, rebase, install, build_ift}
use das_hle.Bridge.Table.{table-KeysBelow, lookup-table, lookup-rebase, lookup-rebase_emitters}
use das_hle.Bridge.Laws.{IsOpen, IsBuilt, build_ift_lem}
use das_hle.Bridge.Calls.{bounds}

-- The bridge c is b with its table moved to the base: every name that has a place, and no other, has
-- the same place after the base, and so has every emitter.
pub record Moved {S H I J : Type 0} (same : Discrete S) (base : ℕ) (b c : Bridge S H I J)
    : Type 0 where
  pub at_base : c.ift_base ≡ base
  pub names :
      (s : S) (place : ℕ)
      → lookup same s b.func_entries ≡ some place
      → lookup same s c.func_entries ≡ some (base + place)
  pub no_names : (s : S) → lookup same s b.func_entries ≡ none → lookup same s c.func_entries ≡ none
  pub emitters :
      (place : ℕ) (e : Emitter I J)
      → lookup ℕ_discrete place b.emitters ≡ some e
      → lookup ℕ_discrete (base + place) c.emitters ≡ some e
  pub same_vars : c.var_entries ≡ b.var_entries
  pub same_bitness : c.bitness ≡ b.bitness

-- The table is built in the block n, which allocate() has returned: it is one of the allocated blocks,
-- has four bytes for each function, at a multiple of four, and the table is moved to it.
pub record BuiltIn {S H I J : Type 0} (same : Discrete S) (a : HostAllocator H) (b : Bridge S H I J)
    (n : AllocatedBlock) : Type 0 where
  pub some_functions : length b.func_entries ≢ 0
  pub allocates : (allocate a (ift_args b.func_entries) b.mem).0 ≡ ok n
  pub returns : (build_ift a b).0 ≡ ok tt
  pub same_mem : (build_ift a b).1.mem ≡ (allocate a (ift_args b.func_entries) b.mem).1
  pub is_valid : IsValid (build_ift a b).1.mem
  pub present : In n (build_ift a b).1.mem.allocated_blocks
  pub size_is : n.size ≡ length b.func_entries * 4
  pub aligned : n.virtual_base % 4 ≡ 0
  pub moved : Moved same n.virtual_base b (build_ift a b).1

lookup-rebase-none :
    {S : Type 0} (same : Discrete S) (s : S) (base : ℕ) (fs : List (S × ℕ))
    → lookup same s fs ≡ none
    → lookup same s (rebase base fs) ≡ none
unfolding lookup rebase
lookup-rebase-none same s base [] h = refl
lookup-rebase-none same s base ((k, v) ∷ fs) h = ground (arith, lookup-rebase-none same s base fs)

module _ {S H I J : Type 0} (same : Discrete S) (a : HostAllocator H) (keeps : KeepsBlock a)
    (b : Bridge S H I J) (v : IsValid b.mem) (o : IsOpen b) where
  install-Moved :
      (n : AllocatedBlock)
      → IsBuilt a b n
      → Moved same n.virtual_base b
          (install n (record b { mem = (allocate a (ift_args b.func_entries) b.mem).1 }))
  unfolding install
  install-Moved n t = record {
    at_base = refl;
    names = λ s place h.
        let inside = lookup-table same s place 0 b.func_entries b.emitters o.table h in
        lookup-rebase same s n.virtual_base place b.func_entries h
        ∙ ap some (add64_lem place n.virtual_base (omega (arith, room, inside.1)) ∙ omega arith);
    no_names = λ s h. lookup-rebase-none same s n.virtual_base b.func_entries h;
    emitters = λ place e h.
        lookup-rebase_emitters place n.virtual_base (length b.func_entries * 4) e b.emitters [] room
          (table-KeysBelow 0 (length b.func_entries * 4) b.func_entries b.emitters o.table
            (omega arith))
          (unfold lookup in refl) h;
    same_vars = refl;
    same_bitness = refl;
  }
    where
      room : n.virtual_base + length b.func_entries * 4 < word
      room = bounds a keeps b v o n t

  built-BuiltIn : (n : AllocatedBlock) → IsBuilt a b n → BuiltIn same a b n
  built-BuiltIn n t = record {
    some_functions = t.some_functions;
    allocates = t.allocates;
    returns = ap (λ r. r.0) t.result;
    same_mem = mem_is;
    is_valid = subst IsValid (sym mem_is) t.is_valid;
    present = subst (λ m. In n m.allocated_blocks) (sym mem_is) t.present;
    size_is = t.size_is;
    aligned = t.aligned;
    moved = subst (λ r. Moved same n.virtual_base b r.1) (sym t.result) (install-Moved n t);
  }
    where
      mem_is : (build_ift a b).1.mem ≡ (allocate a (ift_args b.func_entries) b.mem).1
      mem_is = ap (λ r. r.1.mem) t.result ∙ (unfold install in refl)

  -- Every outcome of buildIFT on an open bridge whose memory manager is valid, over a host allocator
  -- that keeps the block. Without functions it marks the table as built and allocates nothing. With
  -- functions, either it allocates a block of four bytes for each, at a multiple of four, and moves
  -- the table to it: each name that has a place, and no other, has its place after the block's
  -- address, and each emitter stands at its place after that address; or it returns the error of
  -- allocate(), and only the host's state changes.
  pub build_ift-BuiltIn :
      ((length b.func_entries ≡ 0) × (build_ift a b ≡ (ok tt, record b { ift_base = ift_no_func })))
      ⊎ ((n : AllocatedBlock) × BuiltIn same a b n)
      ⊎ ((e : Error) × (h : H) × (length b.func_entries ≢ 0)
          × (build_ift a b ≡ (err e, record b { mem = record b.mem { host = h } }))
          × Refused a b.mem (ift_args b.func_entries) e)
  build_ift-BuiltIn = elim (build_ift_lem a keeps b v o) [
    | inl z ↦ inl z
    | inr (inl (n, t)) ↦ inr (inl (n, built-BuiltIn n t))
    | inr (inr r) ↦ inr (inr r)
  ]
