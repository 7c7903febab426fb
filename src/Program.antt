-- ===== src/Program.antt =====
-- source/DasHLE/Main.cpp: the program that loads a binary and runs its initializers.
use mathlib.Core.List.{List-discrete}
use native.Mathlib.Decide.{ℕ_discrete}
use das_hle.Base.{ℕ, ◌*◌, ◌^◌, true, false, List, Option, none, some, Outcome, ok, err, abort}
use das_hle.HostBytes.{Bytes}
use das_hle.Memory.{HostAllocator}
use das_hle.Memory.Manager.{create, finalize}
use das_hle.Bridge.{Bridge}
use das_hle.Guest.Action.{Action, ◌>>◌, done, lift, change, must}
use das_hle.Guest.Arm.{Jit}
use das_hle.Guest.ElfVm.{ElfVm, fresh, construct, destroy_vm}
use das_hle.Guest.ElfVm.Load.{load_file}
use das_hle.Guest.ElfVm.Run.{World, run_initializers}

abbrev pub page_bytes : ℕ
page_bytes = 0x1000

abbrev pub stack_bytes : ℕ
stack_bytes = 1024 * 1024

abbrev pub mem_4gb : ℕ
mem_4gb = 2 ^ 32

-- MyVM::populateBridge.
unfoldable pub my_populate : {H I J : Type 0} → Action (Bridge (List ℕ) H I J) (Unit {0})
my_populate = done tt

module _ {H I J K : Type 0} (host_allocator : HostAllocator H) (dynarmic : Jit K (World H)) where
  -- main() up to the initializers, on a build for 32-bit guests.
  unfoldable pub prepare : Outcome (List ℕ) → Action (ElfVm H I J K) (Unit {0})
  unfolding my_populate
  prepare file = do
    construct host_allocator stack_bytes
    must (load_file host_allocator true false (List-discrete ℕ_discrete) dynarmic my_populate file)

  -- The end of main(): the virtual machine's destructor, then the memory manager's.
  unfoldable pub end_main : Action (ElfVm H I J K) (Unit {0})
  end_main = do
    destroy_vm host_allocator dynarmic
    change (λ s. record s { mem = finalize host_allocator s.mem })

  -- main(), where `file` is what readFile returns; each initializer may take `fuel` runs.
  unfoldable pub main :
      ℕ → H → Bytes → Outcome (List ℕ) → Option (Outcome (Unit {0}) × ElfVm H I J K)
  unfolding prepare end_main
  main fuel h bytes file =
      let made = create host_allocator h mem_4gb in
      let ready = (lift made.0 >> prepare file) (fresh made.1 bytes page_bytes) in
      elim ready.0 [
        | ok _ ↦ elim (run_initializers dynarmic fuel ready.1) [
          | none ↦ none
          | some r ↦ some ((must (λ s. (r.0, s)) >> end_main) r.1)
        ]
        | err e ↦ some (err e, ready.1)
        | abort ↦ some (abort, ready.1)
        | Outcome.undefined ↦ some (Outcome.undefined, ready.1)
      ]
