-- ===== src/Guest/ElfVm/Load/Sized.antt =====
-- The bridge, the arrays of functions and the virtual machine of loadBinary in
-- source/DasHLE/Guest/ELFVM.cpp leave the memory manager to calls of allocate().
use das_hle.Base.{
  ℕ, refl, inl, inr, Bool, Bool-cases, not, ◌||◌, List, Option, none, some, Outcome, ok, err, abort,
  and_then, length, ◌==◌, arith, assert_ok,
}
use das_hle.Word.{add64}
use das_hle.Memory.{AllocatedBlock, HostAllocator, MemoryManager}
use das_hle.Memory.Allocate.{allocate}
use das_hle.Memory.Allocate.Checks.{InRange}
use das_hle.Memory.Trace.{Step, Reachable}
use das_hle.Bridge.{Bridge, build_ift, build_table, has_built_ift, install, ift_args, table_size}
use das_hle.Elf.{Elf, GuestVersion, FuncArrayInfo}
use das_hle.Elf.Dynamic.{is_64_bits, init_array_info, fini_array_info}
use das_hle.Guest.Action.{change}
use das_hle.Guest.Arm.{Jit, ArmVm, construct, create_jit, end_exec_args, set_register, reg_sp}
use das_hle.Guest.Arm.EndBlock.{end-InRange}
use das_hle.Guest.ElfVm.{ElfVm}
use das_hle.Guest.ElfVm.Segments.{array_read, addr_size}
use das_hle.Guest.ElfVm.Relocate.{to_host, relocate_all}
use das_hle.Guest.ElfVm.Load.{
  set_initializers, set_finalizers, function_array, load_initializers, load_finalizers, make_vm,
}
use das_hle.Guest.ElfVm.Load.Keeps.{IsGood, Keeps, bind-Keeps, lift-Keeps}

ift-InRange : {S : Type 0} (entries : List (S × ℕ)) → InRange (ift_args entries)
unfolding table_size
ift-InRange entries = record {
  size_fits = omega arith;
  alignment_fits = omega arith;
  hint_fits = λ h e. cc;
}

module _ {H : Type 0} (a : HostAllocator H) (size : ℕ) where
  ift-Step :
      {S : Type 0} (entries : List (S × ℕ)) (m : MemoryManager H)
      → Reachable a size m
      → Reachable a size (allocate a (ift_args entries) m).1
  ift-Step entries m r =
      Reachable.after m r (Step.allocates (ift_args entries) (ift-InRange entries) (inl refl) refl)

  installed :
      {I J : Type 0} (b : Bridge (List ℕ) H I J) (q : Outcome AllocatedBlock × MemoryManager H)
      → Reachable a size q.1
      → Reachable a size
          (and_then (q.0, record b { mem = q.1 }) (λ block c. (ok (tt {0}), install block c))).1.mem
  unfolding install
  installed b (ok x, n) r = r
  installed b (err x, n) r = r
  installed b (abort, n) r = r
  installed b (Outcome.undefined, n) r = r

  -- buildIFT leaves the memory manager alone, or allocates.
  pub build_ift-Reachable :
      {I J : Type 0} (b : Bridge (List ℕ) H I J)
      → Reachable a size b.mem
      → Reachable a size (build_ift a b).1.mem
  unfolding build_ift
  build_ift-Reachable b r = elim (Bool-cases (has_built_ift b)) [
    | inl e ↦ rw (e, build_ift) r
    | inr e ↦ elim (Bool-cases (length b.func_entries == 0)) [
      | inl f ↦ rw (e, build_ift) (rw f r)
      | inr f ↦
          rw (e, build_ift)
            (rw f (
              unfold build_table in
              installed b (allocate a (ift_args b.func_entries) b.mem)
                (ift-Step b.func_entries b.mem r)))
    ]
  ]

  created :
      {K W : Type 0} (dynarmic : Jit K W) (version : GuestVersion)
      (q : Outcome AllocatedBlock × MemoryManager H)
      → Reachable a size q.1
      → Reachable a size
          (and_then (assert_ok q.0, q.1) (λ block n. (create_jit a dynarmic version block, n))).1
  created dynarmic version (ok x, n) r = r
  created dynarmic version (err x, n) r = r
  created dynarmic version (abort, n) r = r
  created dynarmic version (Outcome.undefined, n) r = r

  construct-Reachable :
      {K W : Type 0} (dynarmic : Jit K W) (version : GuestVersion) (m : MemoryManager H)
      → Reachable a size m
      → Reachable a size (construct a dynarmic version m).1
  unfolding construct
  construct-Reachable dynarmic version m r =
      created dynarmic version (allocate a end_exec_args m)
        (Reachable.after m r (Step.allocates end_exec_args end-InRange (inl refl) refl))

module _ {H I J K : Type 0} (a : HostAllocator H) (size : ℕ) where
  function_array-Keeps :
      (elf : Elf) (base : ℕ) (info : FuncArrayInfo)
      → Keeps a size (function_array {H = H} {I = I} {J = J} {K = K} elf base info)
  unfolding function_array das_hle.Guest.ElfVm.Relocate.to_host
  function_array-Keeps elf base info =
      bind-Keeps a size (to_host (add64 base info.offset))
        (λ addr s. (ok (array_read (addr_size elf) addr info.size s.bytes), s)) (λ s g. g)
        (λ addr s g. g)

  set_initializers-Keeps :
      (elf : Elf) (base : ℕ) (found : Option FuncArrayInfo)
      → Keeps a size (set_initializers {H = H} {I = I} {J = J} {K = K} elf base found)
  unfolding set_initializers
  set_initializers-Keeps elf base none = λ s g. g
  set_initializers-Keeps elf base (some info) =
      bind-Keeps a size (function_array elf base info)
        (λ entries. change (λ s. record s { initializers = entries }))
        (function_array-Keeps elf base info) (λ entries s g. g)

  pub load_initializers-Keeps :
      (elf : Elf) (base : ℕ)
      → Keeps a size (load_initializers {H = H} {I = I} {J = J} {K = K} elf base)
  unfolding load_initializers
  load_initializers-Keeps elf base =
      lift-Keeps a size (init_array_info elf) (set_initializers elf base)
        (λ found e. set_initializers-Keeps elf base found)

  set_finalizers-Keeps :
      (elf : Elf) (base : ℕ) (found : Option FuncArrayInfo)
      → Keeps a size (set_finalizers {H = H} {I = I} {J = J} {K = K} elf base found)
  unfolding set_finalizers
  set_finalizers-Keeps elf base none = λ s g. g
  set_finalizers-Keeps elf base (some info) =
      bind-Keeps a size (function_array elf base info)
        (λ entries. change (λ s. record s { finalizers = entries }))
        (function_array-Keeps elf base info) (λ entries s g. g)

  pub load_finalizers-Keeps :
      (elf : Elf) (base : ℕ)
      → Keeps a size (load_finalizers {H = H} {I = I} {J = J} {K = K} elf base)
  unfolding load_finalizers
  load_finalizers-Keeps elf base =
      lift-Keeps a size (fini_array_info elf) (set_finalizers elf base)
        (λ found e. set_finalizers-Keeps elf base found)

  pub make_vm-Keeps :
      {W : Type 0} (has_arm : Bool) (dynarmic : Jit K W) (elf : Elf)
      → Keeps a size (make_vm {H = H} {I = I} {J = J} {K = K} a has_arm dynarmic elf)
  unfolding make_vm
  make_vm-Keeps has_arm dynarmic elf s g = elim (Bool-cases (is_64_bits elf || not has_arm)) [
    | inl e ↦ rw (e, make_vm) g
    | inr e ↦
        rw (e, make_vm)
          (started (construct a dynarmic elf.version s.mem)
            (construct-Reachable a size dynarmic elf.version s.mem g.0))
  ]
    where
      with_stack :
          (vm : ArmVm K) (t : ElfVm H I J K) (o : Outcome K)
          → IsGood a size t
          → IsGood a size
              (and_then
                (o, t)
                (λ jit u. (ok (tt {0}), record u { vm = some (record vm { jit = jit }) }))).1
      with_stack vm t (ok x) h = h
      with_stack vm t (err x) h = h
      with_stack vm t abort h = h
      with_stack vm t Outcome.undefined h = h

      started :
          (q : Outcome (ArmVm K) × MemoryManager H)
          → Reachable a size q.1
          → IsGood a size
              (and_then
                (q.0, record s { mem = q.1 })
                (λ vm t.
                  and_then
                    (set_register dynarmic reg_sp t.stack_top vm.jit, t)
                    (λ jit u. (ok (tt {0}), record u { vm = some (record vm { jit = jit }) })))).1
      started (ok vm, n) r =
          with_stack vm (record s { mem = n }) (set_register dynarmic reg_sp s.stack_top vm.jit)
            (r, g.1)
      started (err x, n) r = (r, g.1)
      started (abort, n) r = (r, g.1)
      started (Outcome.undefined, n) r = (r, g.1)
