-- ===== src/Guest/ElfVm/Load.antt =====
-- The first loadBinary of an ELFVM: source/DasHLE/Guest/ELFVM.cpp, in the debug build.
pub mod Keeps
pub mod Sized
pub mod Valid
pub mod Patches
pub mod PatchesAll
pub mod Grown
pub mod Placed
pub mod Contents
pub mod Mapped
use das_hle.Base.{
  ℕ, ◌+◌, Bool, not, ltb, ◌==◌, if◌then◌else◌, List, [], ◌∷◌, ◌++◌, length, drop, take, Option,
  none, some, Outcome, ok, err, abort, bit_or, ◌||◌, and_then, fail_if, invalid_arch,
}
use das_hle.Word.{add64}
use das_hle.HashMap.{lookup, put}
use das_hle.HostBytes.{load, store, copy_to}
use das_hle.Memory.{AllocArgs, HostAllocator, perm_read_write, force_hint}
use das_hle.Memory.Find.{find_free_addr}
use das_hle.Memory.Manager.{set_flags}
use das_hle.Bridge.{Bridge, start, build_ift, address_for_symbol, bits_32, bits_64}
use das_hle.Elf.{Elf, RelocInfo, RelocKind, FuncArrayInfo}
use das_hle.Elf.Dynamic.{is_64_bits, segments_of_type, init_array_info, fini_array_info}
use das_hle.Elf.Parse.{parse}
use das_hle.Guest.Access.{translate}
use das_hle.Guest.Arm.{Jit, reg_sp, set_register, construct}
use das_hle.Guest.Action.{Action, ◌>>=◌, ◌>>◌, done, lift, look, change}
use das_hle.Guest.ElfVm.{ElfVm, take_block}
use das_hle.Guest.ElfVm.Segments.{
  LoadSegmentInfo, can_run, array_read, addr_size, pt_load, segment_infos, binary_alloc_size,
}
use das_hle.Guest.ElfVm.Relocate.{to_host, relocate_all}

-- The source of a std::copy: a range past the buffer's end is undefined.
unfoldable pub slice : ℕ → ℕ → List ℕ → Outcome (List ℕ)
slice offset size buffer =
    if ltb (length buffer) (offset + size)
    then Outcome.undefined
    else ok (take size (drop offset buffer))

-- The arguments of a segment's allocation.
abbrev pub segment_args : ℕ → ℕ → LoadSegmentInfo → AllocArgs
segment_args page_size base info = record {
  size = info.alloc_size;
  alignment = page_size;
  hint = some (add64 base info.alloc_offset);
  flags = bit_or perm_read_write force_hint;
}

module _ {H I J K : Type 0} where
  -- setFlags, whose result is dropped.
  unfoldable pub protect_block : ℕ → ℕ → Action (ElfVm H I J K) ℕ
  protect_block vbase flags s = let r = set_flags vbase flags s.mem in (r.0, record s { mem = r.1 })

  -- "Set memory permissions."
  unfoldable pub protect : ℕ → List LoadSegmentInfo → Action (ElfVm H I J K) (Unit {0})
  unfolding protect_block
  protect base [] = done tt
  protect base (info ∷ rest) = do
    protect_block (add64 base info.alloc_offset) info.permissions
    protect base rest

  -- The entries of an array of functions.
  unfoldable pub function_array : Elf → ℕ → FuncArrayInfo → Action (ElfVm H I J K) (List ℕ)
  unfolding to_host
  function_array elf base info = do
    addr ← to_host (add64 base info.offset)
    bytes ← look (λ s. s.bytes)
    done (array_read (addr_size elf) addr info.size bytes)

  unfoldable pub set_initializers :
      Elf → ℕ → Option FuncArrayInfo → Action (ElfVm H I J K) (Unit {0})
  unfolding function_array
  set_initializers elf base none = done tt
  set_initializers elf base (some info) = do
    entries ← function_array elf base info
    change (λ s. record s { initializers = entries })

  unfoldable pub load_initializers : Elf → ℕ → Action (ElfVm H I J K) (Unit {0})
  unfolding set_initializers
  load_initializers elf base = do
    found ← lift (init_array_info elf)
    set_initializers elf base found

  unfoldable pub set_finalizers : Elf → ℕ → Option FuncArrayInfo → Action (ElfVm H I J K) (Unit {0})
  unfolding function_array
  set_finalizers elf base none = done tt
  set_finalizers elf base (some info) = do
    entries ← function_array elf base info
    change (λ s. record s { finalizers = entries })

  unfoldable pub load_finalizers : Elf → ℕ → Action (ElfVm H I J K) (Unit {0})
  unfolding set_finalizers
  load_finalizers elf base = do found ← lift (fini_array_info elf); set_finalizers elf base found

  -- From the relocations up to the arrays of functions.
  unfoldable pub finish_binary :
      Discrete (List ℕ) → Elf → List LoadSegmentInfo → ℕ → Action (ElfVm H I J K) (Unit {0})
  unfolding relocate_all protect load_initializers load_finalizers
  finish_binary same elf infos base = do
    relocate_all same elf base elf.relocs
    protect base infos
    load_initializers elf base
    load_finalizers elf base

  unfoldable pub new_bridge : Elf → Action (ElfVm H I J K) (Unit {0})
  new_bridge elf s =
      let r = start s.mem (if is_64_bits elf then bits_64 else bits_32) in
      (r.0, record s { bridge = some r.1 })

  -- A call of the bridge, on the shared memory manager.
  unfoldable pub on_bridge :
      Action (Bridge (List ℕ) H I J) (Unit {0}) → Action (ElfVm H I J K) (Unit {0})
  on_bridge call s = elim s.bridge [
    | none ↦ (abort, s)
    | some bridge ↦
        let r = call (record bridge { mem = s.mem }) in
        (r.0, record s { bridge = some r.1; mem = r.1.mem })
  ]

  module _ (host_allocator : HostAllocator H) where
    -- "Allocate and map each segment."
    unfoldable pub map_segment : Elf → ℕ → LoadSegmentInfo → Action (ElfVm H I J K) (Unit {0})
    unfolding take_block
    map_segment elf base info = do
      page_size ← look (λ s. s.page_size)
      block ← take_block host_allocator (segment_args page_size base info)
      content ← lift (slice info.file_data_offset info.file_data_size elf.buffer)
      change (λ s. record s {
        bytes = copy_to (add64 block.host_base info.mem_data_offset) content s.bytes;
        loaded_segments = s.loaded_segments ++ (block.virtual_base ∷ []);
      })

    unfoldable pub map_segments : Elf → ℕ → List LoadSegmentInfo → Action (ElfVm H I J K) (Unit {0})
    unfolding map_segment
    map_segments elf base [] = done tt
    map_segments elf base (info ∷ rest) = do map_segment elf base info; map_segments elf base rest

    -- "Create bridge.", where populateBridge is virtual.
    unfoldable pub make_bridge :
        Action (Bridge (List ℕ) H I J) (Unit {0}) → Elf → Action (ElfVm H I J K) (Unit {0})
    unfolding new_bridge on_bridge
    make_bridge populate elf = do
      new_bridge elf
      on_bridge populate
      on_bridge (build_ift host_allocator)

    -- "Instantiate VM."
    unfoldable pub make_vm : {W : Type 0} → Bool → Jit K W → Elf → Action (ElfVm H I J K) (Unit {0})
    make_vm has_arm dynarmic elf s =
        if is_64_bits elf || not has_arm
        then (abort, s)
        else (let r = construct host_allocator dynarmic elf.version s.mem in
            and_then (r.0, record s { mem = r.1 })
              (λ vm t.
                and_then (set_register dynarmic reg_sp t.stack_top vm.jit, t)
                  (λ jit u. (ok tt, record u { vm = some (record vm { jit = jit }) }))))

    unfoldable pub place_binary :
        Elf → List LoadSegmentInfo → ℕ → Action (ElfVm H I J K) (List LoadSegmentInfo × ℕ)
    unfolding map_segments
    place_binary elf infos base = do
      change (λ s. record s { loaded_segments = [] })
      map_segments elf base infos
      done (infos, base)

    -- loadBinary from "Get ELF LOAD segments." up to the relocations: the segments, and binaryBase.
    unfoldable pub map_binary : Elf → Action (ElfVm H I J K) (List LoadSegmentInfo × ℕ)
    unfolding place_binary
    map_binary elf = do
      segments ← lift (segments_of_type pt_load elf)
      infos ← lift (segment_infos elf.buffer segments)
      vm ← look (λ s. s)
      base ← lift (find_free_addr (binary_alloc_size 0 infos) vm.page_size vm.mem)
      place_binary elf infos base

    -- loadBinary of a buffer. Where parse() fails, `elf` stays as it was: what parse() leaves in m_Elf
    -- is not modelled.
    unfoldable pub load_binary :
        {W : Type 0}
        → Bool
        → Bool
        → Discrete (List ℕ)
        → Jit K W
        → Action (Bridge (List ℕ) H I J) (Unit {0})
        → List ℕ
        → Action (ElfVm H I J K) (Unit {0})
    unfolding make_bridge map_binary finish_binary make_vm
    load_binary has_arm has_aarch64 same dynarmic populate buffer = do
      elf ← lift (parse buffer)
      change (λ s. record s { elf = some elf })
      lift (fail_if (not (can_run has_arm has_aarch64 elf)) invalid_arch)
      make_bridge populate elf
      mapped ← map_binary elf
      finish_binary same elf mapped.0 mapped.1
      make_vm has_arm dynarmic elf

    -- loadBinary of a path, where `file` is what readFile makes of it.
    unfoldable pub load_file :
        {W : Type 0}
        → Bool
        → Bool
        → Discrete (List ℕ)
        → Jit K W
        → Action (Bridge (List ℕ) H I J) (Unit {0})
        → Outcome (List ℕ)
        → Action (ElfVm H I J K) (Unit {0})
    unfolding load_binary
    load_file has_arm has_aarch64 same dynarmic populate file = do
      buffer ← lift file
      load_binary has_arm has_aarch64 same dynarmic populate buffer
