-- ===== src/Tests/ElfVm.antt =====
-- An ELFVM of 64 KB with pages of 4 KB and a stack of 16 KB, over the Jit of Tests/Guest.
use das_hle.Base.{ℕ, ◌%◌, ◌≡◌, ◌↔◌, refl, [], ◌∷◌, some, ok, abort, true, arith}
use das_hle.Word.{word}
use das_hle.SortedSet.{insert, inserts}
use das_hle.Memory.{
  AllocatedBlock, FreeBlock, MemoryManager, allocated_less, free_less, available_memory,
}
use das_hle.Memory.Manager.{default_allocator}
use das_hle.Memory.Allocate.{allocate}
use das_hle.Memory.Layout.{IsValid, gaps, put_gap, total_size}
use das_hle.Memory.RoundTrip.{SameMemory}
use das_hle.Align.{is_power_of_two, align_down}
use das_hle.Program.{page_bytes, stack_bytes}
use das_hle.Elf.{GuestVersion}
use das_hle.Guest.Access.{memory_read, memory_write, memory_read_code}
use das_hle.Guest.Arm.{ArmVm, construct as start_arm}
use das_hle.Guest.Arm.EndBlock.{end-IsInaccessible}
use das_hle.Guest.ElfVm.{ElfVm, fresh, has_value, construct, destroy_vm}
use das_hle.Guest.ElfVm.Life.{destroy_vm-construct}
use das_hle.Guest.ElfVm.NullBlock.{null-IsInaccessible}
use das_hle.Guest.ElfVm.Run.{World, run_initializers, resume}
use das_hle.Guest.ElfVm.Run.Laws.{Calls, run_initializers-Calls}
use das_hle.Tests.Memory.{bump, bump-KeepsBlock, bump-KeepsSize}
use das_hle.Tests.Guest.{State, toy, no_bytes}

abbrev everything : FreeBlock
everything = record { virtual_base = 0; size = 0x10000 }

abbrev clean : MemoryManager ℕ
clean = record {
  host = 0x100;
  allocated_blocks = [];
  free_blocks = everything ∷ [];
  max_memory = 0x10000;
  used_memory = 0;
}

clean-IsValid : IsValid clean
unfolding gaps put_gap insert free_less total_size
clean-IsValid = record {
  fits = omega arith;
  spaced = omega arith;
  free_are_gaps = refl;
  used_is_total = refl;
}

abbrev new_vm : ElfVm ℕ ℕ ℕ State
new_vm = fresh clean no_bytes 0x1000

abbrev made : ElfVm ℕ ℕ ℕ State
made = (construct bump 0x4000 new_vm).1

constructs : construct bump 0x4000 new_vm ≡ (ok tt, made)
unfolding construct fresh das_hle.Guest.ElfVm.take_block das_hle.Guest.ElfVm.has_value
    das_hle.Align.is_power_of_two das_hle.Align.align_down das_hle.Word.not64 allocate
    default_allocator das_hle.Memory.Allocate.check_args available_memory
    das_hle.Memory.Allocate.check_size das_hle.Memory.Allocate.check_hint das_hle.Word.sub64
    das_hle.Memory.Allocate.place das_hle.Memory.Allocate.block_at_hint das_hle.Word.add64
    das_hle.Memory.Allocate.place_at_hint das_hle.Memory.Allocate.place_exact
    das_hle.Memory.Allocate.place_aligned das_hle.Memory.has_flag
    das_hle.Memory.Allocate.allocate_in das_hle.Memory.Allocate.host_alloc
    das_hle.Memory.Allocate.commit inserts insert allocated_less free_less das_hle.SortedSet.erase
    das_hle.SortedSet.equivalent das_hle.Memory.Allocate.insert_part
constructs = refl

null-IsInaccessible_example :
    (memory_read made.mem 4 0x10 no_bytes ≡ abort)
    × (memory_write made.mem 4 0x10 7 no_bytes ≡ abort)
    × (memory_read_code made.mem 0x10 no_bytes ≡ abort)
null-IsInaccessible_example =
    null-IsInaccessible bump bump-KeepsBlock clean no_bytes 0x1000 0x4000 made clean-IsValid
      (omega arith) (omega arith) constructs 0x10 4 7 no_bytes (omega arith)

destroy_vm-construct_example :
    let r = destroy_vm bump toy made in (r.0 ≡ ok tt) × SameMemory r.1.mem clean
destroy_vm-construct_example =
    destroy_vm-construct bump toy clean no_bytes 0x1000 0x4000 made bump-KeepsBlock bump-KeepsSize
      clean-IsValid (omega arith) (omega arith) constructs

abbrev arm_ready : ArmVm State
arm_ready = record { jit = (no_bytes, (0x10, 0)); end_exec_vaddr = 0x2000 }

abbrev ready : ElfVm ℕ ℕ ℕ State
ready = record made { vm = some arm_ready; initializers = 0x4000 ∷ 0x5000 ∷ [] }

run_initializers-Calls_example :
    ((fuel : ℕ) × (run_initializers toy fuel ready ≡ some (ok tt, ready))) ↔ (
      (last : State × World ℕ) × Calls toy 0x2000 last ready.initializers
        (arm_ready.jit, (ready.mem, ready.bytes))
      × (ready ≡ resume arm_ready last ready))
run_initializers-Calls_example = run_initializers-Calls toy arm_ready ready ready refl

abbrev entered : MemoryManager ℕ
entered = (start_arm bump toy GuestVersion.armeabi clean).1

abbrev arm_vm : ArmVm State
arm_vm = record { jit = (no_bytes, (0x10, 0)); end_exec_vaddr = 0 }

arm_constructs : start_arm bump toy GuestVersion.armeabi clean ≡ (ok arm_vm, entered)
unfolding start_arm das_hle.Guest.Arm.create_jit das_hle.Guest.Arm.arch_version_of
    das_hle.Guest.Arm.config_of allocate default_allocator das_hle.Memory.Allocate.check_args
    available_memory das_hle.Memory.Allocate.check_size das_hle.Memory.Allocate.check_hint
    das_hle.Memory.Allocate.place das_hle.Memory.Allocate.place_anywhere
    das_hle.Memory.Find.find_free_block das_hle.Memory.Find.find_free_block_from
    das_hle.Memory.Find.first_fit das_hle.Memory.Find.start_in das_hle.Memory.Find.aligned_base
    das_hle.Align.align_down das_hle.Align.align_up das_hle.Align.is_power_of_two das_hle.Word.not64
    das_hle.Word.add64 das_hle.Word.sub64 das_hle.SortedSet.lower_bound free_less
    das_hle.Memory.Allocate.allocate_in das_hle.Memory.Allocate.host_alloc
    das_hle.Memory.Allocate.commit inserts allocated_less
arm_constructs = refl

end-IsInaccessible_example :
    (arm_vm.end_exec_vaddr % 4 ≡ 0)
    × (memory_read entered 4 arm_vm.end_exec_vaddr no_bytes ≡ abort)
    × (memory_write entered 4 arm_vm.end_exec_vaddr 7 no_bytes ≡ abort)
    × (memory_read_code entered arm_vm.end_exec_vaddr no_bytes ≡ abort)
end-IsInaccessible_example =
    end-IsInaccessible bump toy GuestVersion.armeabi clean entered arm_vm 4 7 no_bytes
      bump-KeepsBlock clean-IsValid arm_constructs

-- The static_asserts of Main.cpp.
page_asserts :
    (is_power_of_two page_bytes ≡ true)
    × (has_value (align_down stack_bytes page_bytes) stack_bytes ≡ true)
unfolding is_power_of_two align_down has_value das_hle.Word.not64
page_asserts = (refl, refl)
