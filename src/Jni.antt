-- ===== src/Jni.antt =====
-- source/DasHLE/Emulated/JNI.h and JNI.cpp: the class JNIContext and the methods of JavaVM.
pub mod Laws
pub mod Populate
use das_hle.Base.{
  ℕ, ◌%◌, ◌^◌, Bool, true, false, ◌==◌, if◌then◌else◌, List, Option, some, none, Outcome, ok, abort,
  ◌>>=◌, assert_ok, text,
}
use das_hle.HostBytes.{Bytes, store}
use das_hle.Memory.{MemoryManager}
use das_hle.Memory.Find.{block_from_vaddr}
use das_hle.Memory.Manager.{virtual_to_host}
use das_hle.Bridge.{
  Bridge, Dynarmic32, bits_32, bits_64, emit_call32, emit_call64, register_function,
}

-- The memory manager is shared with the rest of the program; the pointers are addresses.
pub record JniContext (H : Type 0) : Type 0 where
  pub mem : Option (MemoryManager H)
  pub native_vm : ℕ
  pub virtual_vm : ℕ
  pub native_env : ℕ
  pub virtual_env : ℕ

-- The static object of getInstance, which is zero before its constructor, and the constructor leaves
-- it so.
unfoldable pub get_instance : {H : Type 0} → JniContext H
get_instance = record { mem = none; native_vm = 0; virtual_vm = 0; native_env = 0; virtual_env = 0 }

unfoldable pub set_mem : {H : Type 0} → MemoryManager H → JniContext H → JniContext H
set_mem mem ctx = record ctx { mem = some mem }

unfoldable pub get_mem : {H : Type 0} → JniContext H → Outcome (MemoryManager H)
get_mem ctx = elim ctx.mem [ some mem ↦ ok mem | none ↦ abort ]

-- What GetEnv returns: binary::jni::OK and binary::jni::DETACHED, which no file declares.
pub record GetEnvCodes : Type 0 where
  pub attached : ℕ
  pub detached : ℕ

-- The environment that GetEnv hands out.
unfoldable pub env_for : {H : Type 0} → JniContext H → ℕ → ℕ
env_for ctx vm = if ctx.virtual_vm == vm then ctx.virtual_env else 0

-- EmuJNI_JavaVM_GetEnv: its result, and the host's memory.
unfoldable pub get_env :
    {H : Type 0} → GetEnvCodes → JniContext H → ℕ → ℕ → ℕ → Bool → Bytes → Outcome (ℕ × Bytes)
unfolding env_for get_mem
get_env codes ctx vm env version is_64_bits bytes = do
  let virtual_env = env_for ctx vm
  mem ← get_mem ctx
  block ← assert_ok (block_from_vaddr env mem)
  native_addr ← assert_ok (virtual_to_host block env)
  let written =
      if is_64_bits
      then store 8 native_addr virtual_env bytes
      else store 4 native_addr virtual_env bytes
  ok (if virtual_env == 0 then codes.detached else codes.attached, written)

-- EmuJNI_JavaVM_GetEnv32, on 32-bit addresses.
unfoldable pub get_env_32 :
    {H : Type 0} → GetEnvCodes → JniContext H → ℕ → ℕ → ℕ → Bytes → Outcome (ℕ × Bytes)
unfolding get_env
get_env_32 codes ctx vm env version bytes =
    get_env codes ctx (vm % 2 ^ 32) (env % 2 ^ 32) version false bytes

-- EmuJNI_JavaVM_GetEnv64.
unfoldable pub get_env_64 :
    {H : Type 0} → GetEnvCodes → JniContext H → ℕ → ℕ → ℕ → Bytes → Outcome (ℕ × Bytes)
unfolding get_env
get_env_64 codes ctx vm env version bytes =
    get_env codes ctx (vm % 2 ^ 64) (env % 2 ^ 64) version true bytes

-- A registration whose Expected is dropped.
unfoldable pub ignore_error :
    {S : Type 0} → Outcome (Unit {0}) × S → (S → Outcome (Unit {0}) × S) → Outcome (Unit {0}) × S
ignore_error (ok _, s) rest = rest s
ignore_error (Outcome.err _, s) rest = rest s
ignore_error (abort, s) rest = (abort, s)
ignore_error (Outcome.undefined, s) rest = (Outcome.undefined, s)

-- The names that populateBridge registers.
abbrev pub get_env_32_name : List ℕ
get_env_32_name = text "EmuJNI_JavaVM_GetEnv32"

abbrev pub get_env_64_name : List ℕ
get_env_64_name = text "EmuJNI_JavaVM_GetEnv64"

module _ {H I J Reg Value Terminal : Type 0} (same : Discrete (List ℕ))
    (d : Dynarmic32 I Reg Value Terminal) where
  unfoldable pub populate_bridge :
      Bridge (List ℕ) H I J → Outcome (Unit {0}) × Bridge (List ℕ) H I J
  unfolding ignore_error
  populate_bridge b =
      ignore_error (register_function same bits_32 (emit_call32 d) emit_call64 get_env_32_name b)
        (λ c.
          ignore_error
            (register_function same bits_64 (emit_call32 d) emit_call64 get_env_64_name c)
            (λ e. (ok tt, e)))
