-- ===== src/Tests/Bridge.antt =====
-- A bridge with two functions and a variable, over the manager of Tests/Memory; the emitted code is
-- a number that the emitters count up.
use native.Mathlib.Decide.{ℕ_discrete}
use das_hle.Base.{
  ℕ, ◌+◌, ◌≡◌, ◌≢◌, refl, inl, ◌⊎◌, [], ◌∷◌, length, ok, err, arith, duplicate, Error,
}
use das_hle.Word.{word}
use das_hle.HashMap.{lookup}
use das_hle.SortedSet.{insert, inserts}
use das_hle.Memory.{allocated_less, free_less, available_memory, has_flag, AllocatedBlock}
use das_hle.Memory.Allocate.{allocate}
use das_hle.Memory.Allocate.Laws.{Refused}
use das_hle.Memory.RoundTrip.{SameMemory}
use das_hle.Memory.Manager.{default_allocator}
use das_hle.Bridge.{
  Bridge, Emitter, emitter32, build_ift, destroy, register_function_impl, ift_args, ift_no_func,
  has_built_ift, build_table, install, table_size,
}
use das_hle.Bridge.Laws.{IsOpen}
use das_hle.Bridge.Register.{IsKnown, IsRegistered, Registered, register_function_impl_lem}
use das_hle.Bridge.Built.{BuiltIn, build_ift-BuiltIn}
use das_hle.Bridge.Calls.{Reaches, build_ift-Reaches, destroy-build_ift}
use das_hle.Guest.ElfVm.NullBlock.{null_block-Reaches}
use das_hle.Tests.Memory.{low, bump, busy, bump-KeepsBlock, bump-KeepsSize, busy-IsValid}

abbrev count : ℕ → Emitter ℕ ℕ
count n = emitter32 (λ ir. ok (ir + n))

abbrev open_bridge : Bridge ℕ ℕ ℕ ℕ
open_bridge = record {
  mem = busy;
  bitness = 1;
  ift_base = 0;
  func_entries = (7, 0) ∷ (9, 4) ∷ [];
  var_entries = (11, 0x4000) ∷ [];
  emitters = (0, count 1) ∷ (4, count 2) ∷ [];
}

open_bridge-IsOpen : IsOpen open_bridge
open_bridge-IsOpen = record {
  unbuilt = refl;
  table = (refl, refl, (refl, refl, tt));
  fits = omega arith;
}

second-IsRegistered : IsRegistered ℕ_discrete 9 (count 2) open_bridge
unfolding lookup ℕ_discrete
second-IsRegistered = record { place = 4; entry = refl; emitter = refl }

builds_at :
    ((build_ift bump open_bridge).0 ≡ ok tt) × ((build_ift bump open_bridge).1.ift_base ≡ 0x1000)
unfolding build_ift has_built_ift build_table table_size allocate default_allocator
    das_hle.Memory.Allocate.check_args available_memory das_hle.Memory.Allocate.check_size
    das_hle.Memory.Allocate.check_hint das_hle.Memory.Allocate.place
    das_hle.Memory.Allocate.place_anywhere das_hle.Memory.Find.find_free_block
    das_hle.Memory.Find.find_free_block_from das_hle.Memory.Find.first_fit
    das_hle.Memory.Find.start_in das_hle.Memory.Find.aligned_base das_hle.Align.align_down
    das_hle.Align.align_up das_hle.Align.is_power_of_two das_hle.Word.not64 das_hle.Word.add64
    das_hle.Word.sub64 das_hle.SortedSet.lower_bound free_less das_hle.Memory.Allocate.allocate_in
    das_hle.Memory.Allocate.host_alloc das_hle.Memory.Allocate.commit inserts allocated_less install
builds_at = (refl, refl)

register_function_impl_lem_example :
    (IsKnown ℕ_discrete 5 open_bridge
      × (register_function_impl ℕ_discrete 5 (count 3) open_bridge ≡ (err duplicate, open_bridge)))
    ⊎ (let r = register_function_impl ℕ_discrete 5 (count 3) open_bridge in
        ¬ IsKnown ℕ_discrete 5 open_bridge
        × (r.0 ≡ ok tt)
        × Registered ℕ_discrete 5 (count 3) open_bridge r.1)
register_function_impl_lem_example =
    register_function_impl_lem ℕ_discrete 5 open_bridge (count 3) open_bridge-IsOpen (omega arith)

build_ift-BuiltIn_example :
    ((length open_bridge.func_entries ≡ 0)
      × (build_ift bump open_bridge ≡ (ok tt, record open_bridge { ift_base = ift_no_func })))
    ⊎ ((n : AllocatedBlock) × BuiltIn ℕ_discrete bump open_bridge n)
    ⊎ ((e : Error) × (h : ℕ) × (length open_bridge.func_entries ≢ 0)
        × (build_ift bump open_bridge
            ≡ (err e, record open_bridge { mem = record busy { host = h } }))
        × Refused bump busy (ift_args open_bridge.func_entries) e)
build_ift-BuiltIn_example =
    build_ift-BuiltIn ℕ_discrete bump bump-KeepsBlock open_bridge busy-IsValid open_bridge-IsOpen

not_at_zero : (build_ift bump open_bridge).1.ift_base ≢ 0
not_at_zero e = omega (arith, builds_at.1)

build_ift-Reaches_example : Reaches ℕ_discrete 9 (count 2) (build_ift bump open_bridge).1
build_ift-Reaches_example =
    build_ift-Reaches bump bump-KeepsBlock open_bridge busy-IsValid open_bridge-IsOpen ℕ_discrete 9
      (count 2) second-IsRegistered builds_at.0 not_at_zero

destroy-build_ift_example :
    let d = destroy bump (build_ift bump open_bridge).1 in (d.0 ≡ ok tt) × SameMemory d.1.mem busy
destroy-build_ift_example =
    destroy-build_ift bump bump-KeepsBlock open_bridge busy-IsValid open_bridge-IsOpen
      bump-KeepsSize (omega arith) builds_at.0 not_at_zero

null_block-Reaches_example : Reaches ℕ_discrete 9 (count 2) (build_ift bump open_bridge).1
null_block-Reaches_example =
    null_block-Reaches bump bump-KeepsBlock open_bridge busy-IsValid open_bridge-IsOpen ℕ_discrete 9
      (count 2) low second-IsRegistered (inl refl) refl builds_at.0
