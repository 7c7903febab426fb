-- ===== src/Guest/Access.antt =====
-- The guest's memory: ARMVM::Environment of source/DasHLE/Guest/ARM/ARM.cpp, in the debug build.
-- Its m_Mem and its bridge's memory manager are one object.
pub mod Laws
pub mod RoundTrip
use das_hle.Base.{
  ℕ, Bool, true, false, not, if◌then◌else◌, Option, some, none, Outcome, ok, err, abort, undefined,
  ◌>>=◌, ◌>>◌, assert_ok, assert, bit_and,
}
use das_hle.HostBytes.{Bytes, load, store}
use das_hle.Memory.{
  AllocatedBlock, MemoryManager, has_flag, perm_read, perm_write, perm_exec, perm_mask,
}
use das_hle.Memory.Find.{block_from_vaddr}
use das_hle.Memory.Manager.{virtual_to_host}
use das_hle.Bridge.{Bridge, emit_call_32}

module _ {H : Type 0} (m : MemoryManager H) where
  -- Environment::virtualToHost.
  unfoldable pub translate : ℕ → Outcome ℕ
  translate vaddr = do block ← block_from_vaddr vaddr m; virtual_to_host block vaddr

  -- virtualToHostChecked: the block's flags must have one of `flags`.
  unfoldable pub translate_checked : ℕ → ℕ → Outcome ℕ
  translate_checked vaddr flags = do
    block ← assert_ok (block_from_vaddr vaddr m)
    assert (has_flag block.flags (bit_and flags perm_mask))
    translate vaddr

  unfoldable pub memory_read_code : ℕ → Bytes → Outcome (Option ℕ)
  memory_read_code vaddr bytes = elim (translate_checked vaddr perm_exec) [
    | ok addr ↦ ok (some (load 4 addr bytes))
    | err e ↦ ok none
    | abort ↦ abort
    | Outcome.undefined ↦ Outcome.undefined
  ]

  -- MemoryRead8 to MemoryRead64, by the number of bytes.
  unfoldable pub memory_read : ℕ → ℕ → Bytes → Outcome ℕ
  memory_read size vaddr bytes = do
    addr ← assert_ok (translate_checked vaddr perm_read)
    ok (load size addr bytes)

  unfoldable pub memory_read_8 : ℕ → Bytes → Outcome ℕ
  memory_read_8 = memory_read 1

  unfoldable pub memory_read_16 : ℕ → Bytes → Outcome ℕ
  memory_read_16 = memory_read 2

  unfoldable pub memory_read_32 : ℕ → Bytes → Outcome ℕ
  memory_read_32 = memory_read 4

  unfoldable pub memory_read_64 : ℕ → Bytes → Outcome ℕ
  memory_read_64 = memory_read 8

  -- MemoryWrite8 to MemoryWrite64.
  unfoldable pub memory_write : ℕ → ℕ → ℕ → Bytes → Outcome Bytes
  memory_write size vaddr value bytes = do
    addr ← assert_ok (translate_checked vaddr perm_write)
    ok (store size addr value bytes)

  unfoldable pub memory_write_8 : ℕ → ℕ → Bytes → Outcome Bytes
  memory_write_8 = memory_write 1

  unfoldable pub memory_write_16 : ℕ → ℕ → Bytes → Outcome Bytes
  memory_write_16 = memory_write 2

  unfoldable pub memory_write_32 : ℕ → ℕ → Bytes → Outcome Bytes
  memory_write_32 = memory_write 4

  unfoldable pub memory_write_64 : ℕ → ℕ → Bytes → Outcome Bytes
  memory_write_64 = memory_write 8

  -- MemoryWriteExclusive8 to MemoryWriteExclusive64: "TODO", the expected value is not compared.
  unfoldable pub memory_write_exclusive : ℕ → ℕ → ℕ → ℕ → Bytes → Outcome (Bool × Bytes)
  memory_write_exclusive size vaddr value expected bytes = do
    written ← memory_write size vaddr value bytes
    ok (true, written)

  unfoldable pub is_read_only_memory : ℕ → Outcome Bool
  is_read_only_memory vaddr = elim (block_from_vaddr vaddr m) [
    | ok block ↦ ok (not (has_flag block.flags perm_write))
    | err e ↦ ok false
    | abort ↦ abort
    | Outcome.undefined ↦ Outcome.undefined
  ]

-- PreCodeReadHook: whether the code at the address is to be read; the emitted code beside it.
unfoldable pub pre_code_read_hook : {S H I J : Type 0} → ℕ → I → Bridge S H I J → Outcome (Bool × I)
pre_code_read_hook pc ir bridge = elim (emit_call_32 pc ir bridge) [
  | ok emitted ↦ ok (false, emitted)
  | err e ↦ ok (true, ir)
  | abort ↦ abort
  | Outcome.undefined ↦ Outcome.undefined
]

-- InterpreterFallback, CallSVC and ExceptionRaised are not supported.
unfoldable pub interpreter_fallback : ℕ → ℕ → Outcome (Unit {0})
interpreter_fallback pc num_instructions = abort

unfoldable pub call_svc : ℕ → Outcome (Unit {0})
call_svc swi = abort

unfoldable pub exception_raised : ℕ → ℕ → Outcome (Unit {0})
exception_raised pc exception = abort

unfoldable pub get_ticks_remaining : ℕ
get_ticks_remaining = 0
