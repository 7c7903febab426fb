-- ===== src/Tests/Jni.antt =====
-- A JNI context over the manager of Tests/Memory, and a bridge for 32-bit guests.
use mathlib.Core.List.{List-discrete}
use native.Mathlib.Decide.{ℕ_discrete}
use das_hle.Base.{ℕ, ◌+◌, ◌≡◌, ◌⊎◌, refl, false, [], List, some, ok, arith}
use das_hle.HostBytes.{Bytes, store}
use das_hle.Memory.{MemoryManager}
use das_hle.Bridge.{Bridge, Dynarmic32}
use das_hle.Bridge.Laws.{IsOpen}
use das_hle.Bridge.Register.{IsKnown, Registered}
use das_hle.Jni.{JniContext, GetEnvCodes, get_instance, set_mem, get_env, populate_bridge}
use das_hle.Jni.Laws.{IsEnvFor, IsCodeFor, Stored, IsContext, get_env-Stored, get_env-detached}
use das_hle.Jni.Populate.{get_env_name, get_env_emitter, populate_bridge_lem}
use das_hle.Tests.Memory.{busy, high, busy-IsValid}
use das_hle.Tests.Guest.{no_bytes, busy-IsHostApart, In-high, high-readable}

abbrev codes : GetEnvCodes
codes = record { attached = 0; detached = 0xfffffffe }

abbrev attached_context : JniContext ℕ
attached_context = record {
  mem = some busy;
  native_vm = 0x10;
  virtual_vm = 0x4100;
  native_env = 0x20;
  virtual_env = 0x4200;
}

get_env-Stored_example :
    (found : ℕ) × (code : ℕ) × (after : Bytes) × (get_env codes attached_context 0x4100 0x4010 0
        false no_bytes
      ≡ ok (code, after))
    × IsEnvFor attached_context 0x4100 found
    × IsCodeFor codes found code
    × Stored busy 4 0x4010 found no_bytes after
get_env-Stored_example =
    get_env-Stored codes attached_context busy refl busy-IsValid busy-IsHostApart high 0x4100 0x4010
      0 false no_bytes In-high (omega arith, omega arith) high-readable

-- The context that the program has once its memory manager is set.
program_context-at :
    get_env codes (set_mem busy get_instance) 0 0x4010 0 false no_bytes
    ≡ ok (0xfffffffe, store 4 0x1110 0 no_bytes)
unfolding get_env set_mem get_instance das_hle.Jni.env_for das_hle.Jni.get_mem
    das_hle.Memory.Find.block_from_vaddr das_hle.Memory.Manager.virtual_to_host das_hle.Word.add64
    das_hle.Word.sub64 das_hle.SortedSet.find das_hle.Memory.allocated_less
program_context-at = refl

get_env-detached_example : 0xfffffffe ≡ codes.detached
get_env-detached_example =
    get_env-detached codes (set_mem busy get_instance)
      (IsContext.with_mem busy get_instance IsContext.instance_of) 0 0x4010 0 0xfffffffe false
      no_bytes (store 4 0x1110 0 no_bytes) program_context-at

-- The code of a block is a number that counts its instructions.
abbrev counting : Dynarmic32 ℕ (Unit {0}) ℕ (Unit {0})
counting = record {
  lr = tt;
  return_to_dispatch = tt;
  get_register = λ r ir. (0, ir + 1);
  bx_write_pc = λ v ir. ir + 1;
  set_term = λ t ir. ir + 1;
}

abbrev empty_bridge : Bridge (List ℕ) ℕ ℕ ℕ
empty_bridge = record {
  mem = busy;
  bitness = 1;
  ift_base = 0;
  func_entries = [];
  var_entries = [];
  emitters = [];
}

empty_bridge-IsOpen : IsOpen empty_bridge
empty_bridge-IsOpen = record { unbuilt = refl; table = tt; fits = omega arith }

populate_bridge_lem_example :
    let same = List-discrete ℕ_discrete in
    (IsKnown same (get_env_name false) empty_bridge
      × (populate_bridge same counting empty_bridge ≡ (ok tt, empty_bridge)))
    ⊎ (let r = populate_bridge same counting empty_bridge in
        ¬ IsKnown same (get_env_name false) empty_bridge
        × (r.0 ≡ ok tt)
        × Registered same (get_env_name false) (get_env_emitter counting false) empty_bridge r.1)
populate_bridge_lem_example =
    populate_bridge_lem (List-discrete ℕ_discrete) counting false empty_bridge refl
      empty_bridge-IsOpen (omega arith)
