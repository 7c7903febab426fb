-- ===== src/Guest/ElfVm/Load/Valid.antt =====
-- The memory manager stays valid through loadBinary of source/DasHLE/Guest/ELFVM.cpp.
use das_hle.Base.{
  ℕ, ◌<◌, ◌≡◌, sym, subst, inl, inr, Bool, Option-cases, [], not, List, some, fail_if, invalid_arch,
}
use das_hle.Word.{word}
use das_hle.Memory.{HostAllocator}
use das_hle.Memory.Find.{find_free_addr}
use das_hle.Memory.Allocate.Commit.{KeepsBlock}
use das_hle.Memory.Release.Laws.{KeepsSize}
use das_hle.Memory.Layout.{IsValid}
use das_hle.Memory.Trace.{Reachable, Reachable-IsValid}
use das_hle.Bridge.{Bridge, build_ift}
use das_hle.Elf.{Elf}
use das_hle.Elf.Dynamic.{segments_of_type}
use das_hle.Elf.Parse.{parse}
use das_hle.Elf.Parse.Laws.{IsParsed, parse-IsParsed}
use das_hle.Guest.Action.{Action, ◌>>=◌, ◌>>◌, done}
use das_hle.Guest.Arm.{Jit}
use das_hle.Guest.ElfVm.{ElfVm}
use das_hle.Guest.ElfVm.Segments.{
  LoadSegmentInfo, can_run, segment_infos, binary_alloc_size, pt_load,
}
use das_hle.Guest.ElfVm.Segments.Bounds.{IsBytes, HasSizes, segment_infos-HasSizes}
use das_hle.Guest.ElfVm.Relocate.{relocate_all}
use das_hle.Guest.ElfVm.Load.{
  protect, load_initializers, load_finalizers, map_segments, place_binary, new_bridge, make_bridge,
  on_bridge, map_binary, finish_binary, make_vm, load_binary,
}
use das_hle.Guest.ElfVm.Load.Sized.{
  build_ift-Reachable, load_initializers-Keeps, load_finalizers-Keeps, make_vm-Keeps,
}
use das_hle.Guest.ElfVm.Load.Keeps.{
  Keeps, bind-Keeps, lift-Keeps, relocate_all-Keeps, protect-Keeps, map_segments-Keeps,
}

-- What populateBridge may do to the memory: nothing but calls of allocate(), free() and setFlags().
abbrev pub KeepsReachable :
    {H I J : Type 0} → HostAllocator H → ℕ → Action (Bridge (List ℕ) H I J) (Unit {0}) → Type 0
KeepsReachable {H} {I} {J} a size call =
    (b : Bridge (List ℕ) H I J) → Reachable a size b.mem → Reachable a size (call b).1.mem

module _ {H I J K : Type 0} (a : HostAllocator H) (size : ℕ) where
  on_bridge-Keeps :
      (call : Action (Bridge (List ℕ) H I J) (Unit {0}))
      → KeepsReachable a size call
      → Keeps a size (on_bridge {H = H} {I = I} {J = J} {K = K} call)
  unfolding on_bridge
  on_bridge-Keeps call k s g = elim (Option-cases s.bridge) [
    | inl e ↦ rw (e, on_bridge) g
    | inr (bridge, e) ↦ rw (e, on_bridge) (k (record bridge { mem = s.mem }) g.0, g.1)
  ]

  make_bridge-Keeps :
      (populate : Action (Bridge (List ℕ) H I J) (Unit {0})) (elf : Elf)
      → KeepsReachable a size populate
      → Keeps a size (make_bridge {H = H} {I = I} {J = J} {K = K} a populate elf)
  unfolding make_bridge new_bridge
  make_bridge-Keeps populate elf k =
      bind-Keeps a size (new_bridge elf) (λ u. on_bridge populate >> on_bridge (build_ift a))
        (λ s g. g)
        (λ u.
          bind-Keeps a size (on_bridge populate) (λ v. on_bridge (build_ift a))
            (on_bridge-Keeps populate k)
            (λ v. on_bridge-Keeps (build_ift a) (build_ift-Reachable a size)))

  place_binary-Keeps :
      (elf : Elf) (infos : List LoadSegmentInfo) (base : ℕ)
      → HasSizes infos
      → Keeps a size (place_binary {H = H} {I = I} {J = J} {K = K} a elf infos base)
  unfolding place_binary
  place_binary-Keeps elf infos base h s g =
      bind-Keeps a size (map_segments a elf base infos) (λ u. done (infos, base))
        (map_segments-Keeps a size elf base infos h) (λ u s g. g)
        (record s { loaded_segments = [] }) g

  map_binary-Keeps :
      (elf : Elf)
      → IsBytes elf.buffer
      → Keeps a size (map_binary {H = H} {I = I} {J = J} {K = K} a elf)
  unfolding map_binary
  map_binary-Keeps elf bytes = lift-Keeps a size (segments_of_type pt_load elf) _ (λ segments e.
      lift-Keeps a size (segment_infos elf.buffer segments) _ (λ infos f s g.
        lift-Keeps a size (find_free_addr (binary_alloc_size 0 infos) s.page_size s.mem)
          (place_binary a elf infos)
          (λ base h.
            place_binary-Keeps elf infos base
              (segment_infos-HasSizes elf.buffer segments infos bytes f))
          s g))

  finish_binary-Keeps :
      (same : Discrete (List ℕ)) (elf : Elf) (infos : List LoadSegmentInfo) (base : ℕ)
      → Keeps a size (finish_binary {H = H} {I = I} {J = J} {K = K} same elf infos base)
  unfolding finish_binary
  finish_binary-Keeps same elf infos base =
      bind-Keeps a size (relocate_all same elf base elf.relocs)
        (λ u. protect base infos >> (load_initializers elf base >> load_finalizers elf base))
        (relocate_all-Keeps a size same elf base elf.relocs)
        (λ u.
          bind-Keeps a size (protect base infos)
            (λ v. load_initializers elf base >> load_finalizers elf base)
            (protect-Keeps a size base infos)
            (λ v.
              bind-Keeps a size (load_initializers elf base) (λ w. load_finalizers elf base)
                (load_initializers-Keeps a size elf base)
                (λ w. load_finalizers-Keeps a size elf base)))

  load_binary-Keeps :
      {W : Type 0} (has_arm has_aarch64 : Bool) (same : Discrete (List ℕ)) (dynarmic : Jit K W)
      (populate : Action (Bridge (List ℕ) H I J) (Unit {0})) (buffer : List ℕ)
      → KeepsReachable a size populate
      → IsBytes buffer
      → Keeps a size (load_binary a has_arm has_aarch64 same dynarmic populate buffer)
  unfolding load_binary
  load_binary-Keeps has_arm has_aarch64 same dynarmic populate buffer k bytes =
      lift-Keeps a size (parse buffer) _ (λ elf e s g.
        lift-Keeps a size (fail_if (not (can_run has_arm has_aarch64 elf)) invalid_arch)
          (λ u.
            make_bridge a populate elf
            >> (map_binary a elf >>= λ mapped.
                finish_binary same elf mapped.0 mapped.1 >> make_vm a has_arm dynarmic elf))
          (λ u f.
            bind-Keeps a size (make_bridge a populate elf)
              (λ v. map_binary a elf >>= λ mapped.
                finish_binary same elf mapped.0 mapped.1 >> make_vm a has_arm dynarmic elf)
              (make_bridge-Keeps populate elf k)
              (λ v.
                bind-Keeps a size (map_binary a elf)
                  (λ mapped.
                    finish_binary same elf mapped.0 mapped.1 >> make_vm a has_arm dynarmic elf)
                  (map_binary-Keeps elf (
                    subst IsBytes (sym (IsParsed.same_buffer (parse-IsParsed buffer elf e))) bytes))
                  (λ mapped.
                    bind-Keeps a size (finish_binary same elf mapped.0 mapped.1)
                      (λ w. make_vm a has_arm dynarmic elf)
                      (finish_binary-Keeps same elf mapped.0 mapped.1)
                      (λ w. make_vm-Keeps a size has_arm dynarmic elf))))
          (record s { elf = some elf }) g)

  -- Whatever the first loadBinary of an ELFVM comes to, the memory manager is valid after it and has
  -- the same size: for a buffer of bytes, from a manager of a 64-bit size that calls have reached from
  -- a constructed one, with a 64-bit page size, over a host allocator that keeps the fields of a
  -- block, where populateBridge does nothing to the memory but calls of allocate(), free() and
  -- setFlags().
  pub load_binary-IsValid :
      {W : Type 0} (has_arm has_aarch64 : Bool) (same : Discrete (List ℕ)) (dynarmic : Jit K W)
      (populate : Action (Bridge (List ℕ) H I J) (Unit {0})) (buffer : List ℕ) (s : ElfVm H I J K)
      → KeepsBlock a
      → KeepsSize a
      → KeepsReachable a size populate
      → IsBytes buffer
      → 0 < size
      → size < word
      → s.page_size < word
      → Reachable a size s.mem
      → let t = (load_binary a has_arm has_aarch64 same dynarmic populate buffer s).1 in
        IsValid t.mem × (t.mem.max_memory ≡ size)
  load_binary-IsValid has_arm has_aarch64 same dynarmic populate buffer s keeps keeps_size k bytes
        pos fits page r =
      Reachable-IsValid a keeps keeps_size size pos fits _
        (load_binary-Keeps has_arm has_aarch64 same dynarmic populate buffer k bytes s (r, page)).0
