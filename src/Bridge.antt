-- ===== src/Bridge.antt =====
-- source/DasHLE/Host/Bridge.h and Bridge.cpp: the class Bridge.
pub mod Table
pub mod Laws
pub mod Register
pub mod Calls
pub mod Built
use native.Mathlib.Decide.{ℕ_discrete}
use das_hle.Base.{
  ℕ, ◌*◌, ◌-◌, ◌%◌, Bool, true, false, not, ◌==◌, ◌||◌, ◌&&◌, if◌then◌else◌, List, [], ◌∷◌, map,
  length, Option, some, none, Outcome, ok, err, abort, ◌>>=◌, assert_ok, and_then, bit_and,
  invalid_operation, duplicate, not_found, invalid_address,
}
use das_hle.Word.{word, add64}
use das_hle.HashMap.{lookup, put, put_new}
use das_hle.Memory.{AllocatedBlock, AllocArgs, HostAllocator, MemoryManager, has_flag}
use das_hle.Memory.Find.{block_from_vaddr}
use das_hle.Memory.Allocate.{allocate}
use das_hle.Memory.Release.{free}

abbrev pub bits_32 : ℕ
bits_32 = 0b01

abbrev pub bits_64 : ℕ
bits_64 = 0b10

abbrev pub entry_size : ℕ
entry_size = 4

-- `static_cast<usize>(-1)`
abbrev pub ift_no_func : ℕ
ift_no_func = word - 1

-- The emitter of an instruction for a 32-bit or a 64-bit guest, over the code of dynarmic that it
-- adds to.
pub data Emitter (I J : Type 0) : Type 0 where
  emitter32 : (I → Outcome I) → Emitter I J
  emitter64 : (J → Outcome J) → Emitter I J

-- What emitCall32 uses of dynarmic.
pub record Dynarmic32 (I Reg Value Terminal : Type 0) : Type 0 where
  pub lr : Reg
  pub return_to_dispatch : Terminal
  pub get_register : Reg → I → Value × I
  pub bx_write_pc : Value → I → I
  pub set_term : Terminal → I → I

unfoldable pub emit_call32 :
    {I Reg Value Terminal : Type 0} → Dynarmic32 I Reg Value Terminal → I → Outcome I
emit_call32 d ir =
    let r = d.get_register d.lr ir in ok (d.set_term d.return_to_dispatch (d.bx_write_pc r.0 r.1))

-- "Unimplemented!"
unfoldable pub emit_call64 : {J : Type 0} → J → Outcome J
emit_call64 ir = abort

unfoldable pub invoke32 : {I J : Type 0} → Emitter I J → I → Outcome I
invoke32 (emitter32 f) ir = f ir
invoke32 (emitter64 f) ir = abort

unfoldable pub invoke64 : {I J : Type 0} → Emitter I J → J → Outcome J
invoke64 (emitter32 f) ir = abort
invoke64 (emitter64 f) ir = f ir

-- S are the symbols' names. The memory manager is shared with the rest of the program: here it is
-- handed on from call to call.
pub record Bridge (S H I J : Type 0) : Type 0 where
  pub mem : MemoryManager H
  pub bitness : ℕ
  pub ift_base : ℕ
  pub func_entries : List (S × ℕ)
  pub var_entries : List (S × ℕ)
  pub emitters : List (ℕ × Emitter I J)

unfoldable pub start :
    {S H I J : Type 0} → MemoryManager H → ℕ → Outcome (Unit {0}) × Bridge S H I J
start mem bitness = (
  if bitness == bits_32 || (bitness == bits_64) then ok tt else abort,
  record {
    mem = mem;
    bitness = bitness;
    ift_base = 0;
    func_entries = [];
    var_entries = [];
    emitters = [];
  },
)

unfoldable pub has_built_ift : {S H I J : Type 0} → Bridge S H I J → Bool
has_built_ift b = not (b.ift_base == 0)

-- The size of the table, and the place of the next entry.
unfoldable pub table_size : {S : Type 0} → List (S × ℕ) → ℕ
table_size entries = (length entries * entry_size) % word

unfoldable pub rebase : {S : Type 0} → ℕ → List (S × ℕ) → List (S × ℕ)
rebase base [] = []
rebase base ((s, value) ∷ rest) = (s, add64 value base) ∷ rebase base rest

-- The loop that moves the emitters to `emitters`, the first left one at a time.
unfoldable pub rebase_emitters : {E : Type 0} → ℕ → List (ℕ × E) → List (ℕ × E) → List (ℕ × E)
rebase_emitters base [] moved = moved
rebase_emitters base ((key, e) ∷ rest) moved =
    rebase_emitters base rest (put_new ℕ_discrete (add64 base key) e moved)

-- The arguments of the table's allocation.
abbrev pub ift_args : {S : Type 0} → List (S × ℕ) → AllocArgs
ift_args entries = record {
  size = table_size entries;
  alignment = entry_size;
  hint = none;
  flags = 0;
}

is_some : Option ℕ → Bool
is_some none = false
is_some (some v) = true

module _ {S H I J : Type 0} (same : Discrete S) where
  unfoldable pub has_symbol : S → Bridge S H I J → Bool
  unfolding is_some
  has_symbol s b = is_some (lookup same s b.func_entries) || is_some (lookup same s b.var_entries)

  unfoldable pub register_function_impl :
      S → Emitter I J → Bridge S H I J → Outcome (Unit {0}) × Bridge S H I J
  register_function_impl s e b =
      if has_built_ift b
      then (err invalid_operation, b)
      else if has_symbol s b
      then (err duplicate, b)
      else (
        ok tt,
        record b {
          func_entries = put same s (table_size b.func_entries) b.func_entries;
          emitters = put ℕ_discrete (table_size b.func_entries) e b.emitters;
        },
      )

  -- registerFunction<BITS, FN>, where the emitters are those of FN.
  unfoldable pub register_function :
      ℕ
      → (I → Outcome I)
      → (J → Outcome J)
      → S
      → Bridge S H I J
      → Outcome (Unit {0}) × Bridge S H I J
  register_function bits call32 call64 s b =
      let first : Outcome (Unit {0}) × Bridge S H I J =
        if has_flag bits bits_32 && has_flag b.bitness bits_32
        then register_function_impl s (emitter32 call32) b
        else (ok tt, b) in
      and_then first (λ u c.
        if has_flag bits bits_64 && has_flag c.bitness bits_64
        then register_function_impl s (emitter64 call64) c
        else (ok tt, c))

  unfoldable pub register_variable : S → ℕ → Bridge S H I J → Outcome (Unit {0}) × Bridge S H I J
  register_variable s vaddr b =
      if has_built_ift b
      then (err invalid_operation, b)
      else if has_symbol s b
      then (err duplicate, b)
      else elim (block_from_vaddr vaddr b.mem) [
        | ok _ ↦ (ok tt, record b { var_entries = put same s vaddr b.var_entries })
        | _ ↦ (err invalid_address, b)
      ]

  unfoldable pub address_for_symbol : S → Bridge S H I J → Outcome ℕ
  address_for_symbol s b =
      if has_built_ift b
      then elim (lookup same s b.func_entries) [
        | some addr ↦ ok addr
        | none ↦ elim (lookup same s b.var_entries) [ some addr ↦ ok addr | none ↦ err not_found ]
      ]
      else err invalid_operation

module _ {S H I J : Type 0} where
  -- emitCall on a 32-bit emitter: invokeEmitterImpl.
  unfoldable pub emit_call_32 : ℕ → I → Bridge S H I J → Outcome I
  emit_call_32 vaddr ir b =
      if has_built_ift b
      then elim (lookup ℕ_discrete vaddr b.emitters) [
        | some e ↦ invoke32 e ir
        | none ↦ err not_found
      ]
      else err invalid_operation

  unfoldable pub emit_call_64 : ℕ → J → Bridge S H I J → Outcome J
  emit_call_64 vaddr ir b =
      if has_built_ift b
      then elim (lookup ℕ_discrete vaddr b.emitters) [
        | some e ↦ invoke64 e ir
        | none ↦ err not_found
      ]
      else err invalid_operation

  -- "Rebase addresses."
  unfoldable pub install : AllocatedBlock → Bridge S H I J → Bridge S H I J
  install block b = record b {
    ift_base = block.virtual_base;
    func_entries = rebase block.virtual_base b.func_entries;
    emitters = rebase_emitters block.virtual_base b.emitters [];
  }

  module _ (host_allocator : HostAllocator H) where
    unfoldable pub build_table : Bridge S H I J → Outcome (Unit {0}) × Bridge S H I J
    build_table b =
        let r = allocate host_allocator (ift_args b.func_entries) b.mem in
        and_then (r.0, record b { mem = r.1 }) (λ block c. (ok tt, install block c))

    unfoldable pub build_ift : Bridge S H I J → Outcome (Unit {0}) × Bridge S H I J
    build_ift b =
        if has_built_ift b
        then (err invalid_operation, b)
        else if length b.func_entries == 0
        then (ok tt, record b { ift_base = ift_no_func })
        else build_table b

    -- The destructor, which frees the table.
    unfoldable pub destroy : Bridge S H I J → Outcome (Unit {0}) × Bridge S H I J
    destroy b =
        if has_built_ift b && not (b.ift_base == ift_no_func)
        then (let r = free host_allocator b.ift_base b.mem in
            (assert_ok r.0, record b { mem = r.1 }))
        else (ok tt, b)
