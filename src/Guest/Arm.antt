-- ===== src/Guest/Arm.antt =====
-- The virtual machine ARMVM of source/DasHLE/Guest/ARM/ARM.cpp and ARM.h, over dynarmic's Jit.
pub mod Laws
pub mod Calls
pub mod EndBlock
use das_hle.Base.{
  ℕ, zero, suc, ◌+◌, ◌-◌, ◌*◌, ◌%◌, ◌^◌, Bool, true, false, not, leb, ◌==◌, if◌then◌else◌, Option,
  none, some, Outcome, ok, err, abort, ◌>>=◌, assert_ok, and_then, bit_and, bit_or,
}
use das_hle.Memory.{AllocatedBlock, AllocArgs, HostAllocator, MemoryManager}
use das_hle.Memory.Allocate.{allocate}
use das_hle.Memory.Release.{free}
use das_hle.Elf.{GuestVersion}

abbrev pub reg_lr : ℕ
reg_lr = 14

abbrev pub reg_sp : ℕ
reg_sp = 13

abbrev pub reg_pc : ℕ
reg_pc = 15

-- R15 + 1 and R15 + 2.
abbrev pub reg_cpsr : ℕ
reg_cpsr = 16

abbrev pub reg_fpscr : ℕ
reg_fpscr = 17

-- VM_EXEC_SUCCESS.
abbrev pub vm_exec_success : ℕ
vm_exec_success = 0

pub data ArchVersion : Type 0 where
  v5te v7 : ArchVersion

-- What the constructor sets of dynarmic32::UserConfig, beside the callbacks and the monitor.
pub record UserConfig : Type 0 where
  pub arch_version : ArchVersion
  pub enable_cycle_counting : Bool
  pub code_cache_size : ℕ
  pub optimized : Bool

-- What ARMVM uses of dynarmic32::Jit. J is the Jit's state, with its registers; W is what the
-- guest's code changes beside it. The values are of 32 bits, a HaltReason is its number.
pub record Jit (J W : Type 0) : Type 0 where
  pub make : UserConfig → J
  pub reg : ℕ → J → ℕ
  pub set_reg : ℕ → ℕ → J → J
  pub cpsr : J → ℕ
  pub set_cpsr : ℕ → J → J
  pub fpscr : J → ℕ
  pub set_fpscr : ℕ → J → J
  pub run : J → W → Outcome ℕ × (J × W)
  pub step : J → W → Outcome ℕ × (J × W)
  pub clear_cache : J → J
  pub invalidate_cache_range : ℕ → ℕ → J → J

abbrev pub to_u32 : ℕ → ℕ
to_u32 v = v % 2 ^ 32

unfoldable pub cpsr_thumb_enable : ℕ → ℕ
cpsr_thumb_enable cpsr = bit_or cpsr 0x30

-- ~(0x30u)
unfoldable pub cpsr_thumb_disable : ℕ → ℕ
cpsr_thumb_disable cpsr = bit_and cpsr (2 ^ 32 - 1 - 0x30)

unfoldable pub is_thumb : ℕ → Bool
is_thumb addr = not (bit_and addr 1 == 0)

unfoldable pub clear_thumb : ℕ → ℕ
clear_thumb addr = bit_and addr (2 ^ 32 - 1 - 1)

-- ARMVM without what it shares: the Jit and m_EndExecVAddr.
pub record ArmVm (J : Type 0) : Type 0 where
  pub jit : J
  pub end_exec_vaddr : ℕ

-- The special address: not accessible, as large as an instruction.
abbrev pub end_exec_args : AllocArgs
end_exec_args = record { size = 4; alignment = 4; hint = none; flags = 0 }

unfoldable pub arch_version_of : GuestVersion → Outcome ArchVersion
arch_version_of GuestVersion.armeabi = ok ArchVersion.v5te
arch_version_of GuestVersion.armeabi_v7a = ok ArchVersion.v7
arch_version_of GuestVersion.arm64_v8a = abort

-- The debug build's configuration: no optimizations.
unfoldable pub config_of : ArchVersion → UserConfig
config_of arch = record {
  arch_version = arch;
  enable_cycle_counting = false;
  code_cache_size = 16 * 1024 * 1024;
  optimized = false;
}

module _ {H J W : Type 0} (host_allocator : HostAllocator H) (dynarmic : Jit J W) where
  -- The rest of the constructor.
  unfoldable pub create_jit : GuestVersion → AllocatedBlock → Outcome (ArmVm J)
  create_jit version block = do
    arch ← arch_version_of version
    ok (record { jit = dynarmic.make (config_of arch); end_exec_vaddr = block.virtual_base })

  -- The constructor.
  unfoldable pub construct : GuestVersion → MemoryManager H → Outcome (ArmVm J) × MemoryManager H
  construct version m =
      let r = allocate host_allocator end_exec_args m in
      and_then (assert_ok r.0, r.1) (λ block n. (create_jit version block, n))

  -- The destructor.
  unfoldable pub destruct : ArmVm J → MemoryManager H → Outcome (Unit {0}) × MemoryManager H
  destruct vm m = let r = free host_allocator vm.end_exec_vaddr m in (assert_ok r.0, r.1)

module _ {J W : Type 0} (dynarmic : Jit J W) where
  unfoldable pub set_pc : ℕ → J → J
  set_pc addr j =
      let cpsr = dynarmic.cpsr j in
      let mode =
        if is_thumb (to_u32 addr) then cpsr_thumb_enable cpsr else cpsr_thumb_disable cpsr in
      dynarmic.set_reg reg_pc (clear_thumb (to_u32 addr)) (dynarmic.set_cpsr mode j)

  -- "while (reason == VM_EXEC_SUCCESS)", by the number of calls of Run() allowed.
  unfoldable pub run_loop : ℕ → ℕ → J × W → Option (Outcome ℕ × (J × W))
  run_loop end zero s = none
  run_loop end (suc fuel) s =
      let r = dynarmic.run s.0 s.1 in
      let rest = run_loop end fuel r.1 in
      elim r.0 [
        | ok reason ↦
            if dynarmic.reg reg_pc r.1.0 == end
            then some (ok reason, r.1)
            else if reason == vm_exec_success
            then rest
            else some (ok reason, r.1)
        | err e ↦ some (err e, r.1)
        | abort ↦ some (abort, r.1)
        | Outcome.undefined ↦ some (Outcome.undefined, r.1)
      ]

  -- What execute() does before the loop.
  unfoldable pub enter : ℕ → ℕ → J → J
  enter end addr j = set_pc addr (dynarmic.set_reg reg_lr (to_u32 end) j)

  unfoldable pub execute : ℕ → ℕ → Option ℕ → J × W → Option (Outcome ℕ × (J × W))
  execute fuel end none s = some (dynarmic.run s.0 s.1)
  execute fuel end (some addr) s = run_loop end fuel (enter end addr s.0, s.1)

  unfoldable pub step : Option ℕ → J × W → Outcome ℕ × (J × W)
  step none s = dynarmic.step s.0 s.1
  step (some addr) s = dynarmic.step (set_pc addr s.0) s.1

  unfoldable pub set_register : ℕ → ℕ → J → Outcome J
  set_register id value j =
      if leb id 15
      then ok (dynarmic.set_reg id (to_u32 value) j)
      else if id == reg_cpsr
      then ok (dynarmic.set_cpsr (to_u32 value) j)
      else if id == reg_fpscr
      then ok (dynarmic.set_fpscr (to_u32 value) j)
      else abort

  unfoldable pub get_register : ℕ → J → Outcome ℕ
  get_register id j =
      if leb id 15
      then ok (dynarmic.reg id j)
      else if id == reg_cpsr
      then ok (dynarmic.cpsr j)
      else if id == reg_fpscr
      then ok (dynarmic.fpscr j)
      else abort

  unfoldable pub clear_cache : J → J
  clear_cache j = dynarmic.clear_cache j

  unfoldable pub invalidate_cache : ℕ → ℕ → J → J
  invalidate_cache addr size j = dynarmic.invalidate_cache_range addr size j
