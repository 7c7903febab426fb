-- ===== src/Guest/ElfVm/Run.antt =====
-- runInitializers and runFinalizers of source/DasHLE/Guest/ELFVM.cpp. The number of calls of Run()
-- that each function may take is an argument.
pub mod Laws
use das_hle.Base.{
  ℕ, Bool, true, false, ◌==◌, List, [], ◌∷◌, Option, none, some, Outcome, ok, err, abort,
  invalid_operation,
}
use das_hle.HostBytes.{Bytes}
use das_hle.Memory.{MemoryManager}
use das_hle.Guest.Arm.{Jit, ArmVm, execute, vm_exec_success}
use das_hle.Guest.ElfVm.{ElfVm}

-- What the guest's code changes beside the Jit.
abbrev pub World : Type 0 → Type 0
World H = MemoryManager H × Bytes

module _ {H K : Type 0} (dynarmic : Jit K (World H)) (fuel : ℕ) where
  -- The loop over the functions' addresses.
  unfoldable pub run_calls : ℕ → List ℕ → K × World H → Option (Outcome (Unit {0}) × (K × World H))
  run_calls end [] st = some (ok tt, st)
  run_calls end (vaddr ∷ rest) st = elim (execute dynarmic fuel end (some vaddr) st) [
    | none ↦ none
    | some r ↦ elim r.0 [
      | ok reason ↦ elim (reason == vm_exec_success) [
        | true ↦ run_calls end rest r.1
        | false ↦ some (abort, r.1)
      ]
      | err e ↦ some (err e, r.1)
      | abort ↦ some (abort, r.1)
      | Outcome.undefined ↦ some (Outcome.undefined, r.1)
    ]
  ]

-- The ELFVM with what the calls leave.
abbrev pub resume : {H I J K : Type 0} → ArmVm K → K × World H → ElfVm H I J K → ElfVm H I J K
resume vm st s = record s { mem = st.1.0; bytes = st.1.1; vm = some (record vm { jit = st.0 }) }

module _ {H I J K : Type 0} (dynarmic : Jit K (World H)) (fuel : ℕ) where
  unfoldable pub run_functions :
      List ℕ → ElfVm H I J K → Option (Outcome (Unit {0}) × ElfVm H I J K)
  run_functions functions s = elim s.vm [
    | none ↦ some (err invalid_operation, s)
    | some vm ↦
        elim (run_calls dynarmic fuel vm.end_exec_vaddr functions (vm.jit, (s.mem, s.bytes))) [
          | none ↦ none
          | some r ↦ some (r.0, resume vm r.1 s)
        ]
  ]

  unfoldable pub run_initializers : ElfVm H I J K → Option (Outcome (Unit {0}) × ElfVm H I J K)
  unfolding run_functions
  run_initializers s = run_functions s.initializers s

  unfoldable pub run_finalizers : ElfVm H I J K → Option (Outcome (Unit {0}) × ElfVm H I J K)
  unfolding run_functions
  run_finalizers s = run_functions s.finalizers s
