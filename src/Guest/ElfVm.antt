-- ===== src/Guest/ElfVm.antt =====
-- The class ELFVM of source/DasHLE/Guest/ELFVM.h and ELFVM.cpp: its state, its constructor and its
-- destructor.
pub mod Segments
pub mod Relocate
pub mod Load
pub mod Run
pub mod Life
pub mod Start
pub mod NullBlock
use das_hle.Base.{
  ℕ, Bool, true, false, ◌==◌, if◌then◌else◌, List, [], ◌∷◌, Option, none, some, Outcome, ok, err,
  abort, assert_ok, bit_or,
}
use das_hle.Word.{add64, sub64}
use das_hle.Align.{is_power_of_two, align_down}
use das_hle.HostBytes.{Bytes}
use das_hle.Memory.{
  AllocatedBlock, AllocArgs, HostAllocator, MemoryManager, perm_read_write, force_hint,
}
use das_hle.Memory.Allocate.{allocate}
use das_hle.Memory.Release.{free}
use das_hle.Bridge.{Bridge, destroy}
use das_hle.Elf.{Elf}
use das_hle.Guest.Arm.{Jit, ArmVm, destruct}
use das_hle.Guest.Action.{Action, ◌>>=◌, ◌>>◌, done, look, change, check, must}

-- H is the host allocator's state, I and J the code that dynarmic emits, K its Jit's state. The
-- memory manager is shared: the one here counts, the bridge's copy is refreshed before it is used.
-- `bytes` is the host's memory; fake_addr and cache are the static variables of loadBinary.
pub record ElfVm (H I J K : Type 0) : Type 0 where
  pub mem : MemoryManager H
  pub bytes : Bytes
  pub bridge : Option (Bridge (List ℕ) H I J)
  pub vm : Option (ArmVm K)
  pub page_size : ℕ
  pub stack_base : ℕ
  pub stack_top : ℕ
  pub elf : Option Elf
  pub loaded_segments : List ℕ
  pub initializers : List ℕ
  pub finalizers : List ℕ
  pub fake_addr : ℕ
  pub cache : List (List ℕ × ℕ)

-- An Expected compared with a value.
unfoldable pub has_value : Outcome ℕ → ℕ → Bool
has_value (ok a) b = a == b
has_value (err e) b = false
has_value abort b = false
has_value Outcome.undefined b = false

-- "Allocate null block."
abbrev pub null_args : ℕ → AllocArgs
null_args page_size = record { size = page_size; alignment = 0; hint = some 0; flags = force_hint }

-- "Allocate stack.", at the end of a memory of the size `max`.
abbrev pub stack_args : ℕ → ℕ → ℕ → AllocArgs
stack_args page_size stack_size max = record {
  size = stack_size;
  alignment = page_size;
  hint = some (sub64 max stack_size);
  flags = bit_or perm_read_write force_hint;
}

-- A new ELFVM of a memory manager, where the host's memory holds the bytes.
unfoldable pub fresh : {H I J K : Type 0} → MemoryManager H → Bytes → ℕ → ElfVm H I J K
fresh m bytes page_size = record {
  mem = m;
  bytes = bytes;
  bridge = none;
  vm = none;
  page_size = page_size;
  stack_base = 0;
  stack_top = 0;
  elf = none;
  loaded_segments = [];
  initializers = [];
  finalizers = [];
  fake_addr = 0;
  cache = [];
}

module _ {H I J K : Type 0} (host_allocator : HostAllocator H) where
  -- m_Mem->allocate, free.
  unfoldable pub take_block : AllocArgs → Action (ElfVm H I J K) AllocatedBlock
  take_block args s = let r = allocate host_allocator args s.mem in (r.0, record s { mem = r.1 })

  unfoldable pub give_block : ℕ → Action (ElfVm H I J K) (Unit {0})
  give_block vbase s = let r = free host_allocator vbase s.mem in (r.0, record s { mem = r.1 })

  -- The constructor, on a new ELFVM.
  unfoldable pub construct : ℕ → Action (ElfVm H I J K) (Unit {0})
  unfolding take_block
  construct stack_size = do
    page_size ← look (λ s. s.page_size)
    check (is_power_of_two page_size)
    check (has_value (align_down stack_size page_size) stack_size)
    must (take_block (null_args page_size))
    max ← look (λ s. s.mem.max_memory)
    block ← must (take_block (stack_args page_size stack_size max))
    change (λ s. record s {
      stack_base = block.virtual_base;
      stack_top = add64 block.virtual_base block.size;
    })

  -- "Free loaded segments."
  unfoldable pub free_segments : List ℕ → Action (ElfVm H I J K) (Unit {0})
  unfolding give_block
  free_segments [] = done tt
  free_segments (vaddr ∷ rest) = do must (give_block vaddr); free_segments rest

  -- The end of m_VM, then of m_Bridge, which the virtual machine shares.
  unfoldable pub end_vm : {W : Type 0} → Jit K W → Action (ElfVm H I J K) (Unit {0})
  end_vm dynarmic s = elim s.vm [
    | none ↦ (ok tt, s)
    | some vm ↦
        let r = destruct host_allocator dynarmic vm s.mem in
        (r.0, record s { mem = r.1; vm = none })
  ]

  unfoldable pub end_bridge : Action (ElfVm H I J K) (Unit {0})
  end_bridge s = elim s.bridge [
    | none ↦ (ok tt, s)
    | some bridge ↦
        let r = destroy host_allocator (record bridge { mem = s.mem }) in
        (r.0, record s { mem = r.1.mem; bridge = none })
  ]

  -- The destructor, and the end of the members.
  unfoldable pub destroy_vm : {W : Type 0} → Jit K W → Action (ElfVm H I J K) (Unit {0})
  unfolding give_block free_segments end_vm end_bridge
  destroy_vm dynarmic = do
    segments ← look (λ s. s.loaded_segments)
    free_segments segments
    stack ← look (λ s. s.stack_base)
    must (give_block stack)
    must (give_block 0)
    end_vm dynarmic
    end_bridge
