-- ===== src/Guest/ElfVm/Load/Contents.antt =====
-- What the guest reads in the segments that loadBinary of source/DasHLE/Guest/ELFVM.cpp has mapped.
use das_hle.Base.{ℕ, ◌+◌, ◌<◌, ◌≡◌, sym, ap, subst, ◌∙◌, In, List, [], get_elem?, some, ok, arith}
use das_hle.Word.{word, add64}
use das_hle.HostBytes.{Bytes, load}
use das_hle.Memory.{AllocatedBlock, HostAllocator, MemoryManager}
use das_hle.Memory.Allocate.Commit.{KeepsBlock}
use das_hle.Memory.Layout.{IsValid}
use das_hle.Memory.Layout.Join.{block_bounds}
use das_hle.Memory.Layout.Lookup.{Contains}
use das_hle.Elf.{Elf}
use das_hle.Guest.Access.{memory_read}
use das_hle.Guest.Access.Laws.{IsHostApart, host_of, reads}
use das_hle.Guest.Action.{done, >>=-ok, lift-ok}
use das_hle.Guest.ElfVm.{ElfVm}
use das_hle.Guest.ElfVm.Segments.{LoadSegmentInfo, segment_infos, binary_alloc_size, pt_load}
use das_hle.Elf.Dynamic.{segments_of_type}
use das_hle.Memory.Find.{find_free_addr}
use das_hle.Guest.ElfVm.Segments.Bounds.{IsBytes, segment_infos-HasSizes}
use das_hle.Guest.ElfVm.Load.{map_segments, place_binary, map_binary}
use das_hle.Guest.ElfVm.Load.Grown.{outcome_of, state_of}
use das_hle.Guest.ElfVm.Load.Placed.{HasRoom, HaveRoom, InHost, map_segments-InHost}

-- The guest reads the segment's part of the file at the segment's address.
pub record IsLoaded {H : Type 0} (m : MemoryManager H) (buffer : List ℕ) (base : ℕ)
    (info : LoadSegmentInfo) (bytes : Bytes) : Type 0 where
  pub block : AllocatedBlock
  pub present : In block m.allocated_blocks
  pub at_base : block.virtual_base ≡ add64 base info.alloc_offset
  pub has_size : block.size ≡ info.alloc_size
  pub ends_below : block.virtual_base + block.size < word
  pub content :
      (i c : ℕ)
      → i < info.file_data_size
      → get_elem? buffer (info.file_data_offset + i) ≡ some c
      → memory_read m 1 (block.virtual_base + info.mem_data_offset + i) bytes ≡ ok c

module _ {H I J K : Type 0} (a : HostAllocator H) (keeps : KeepsBlock a) (elf : Elf) where
  InHost-IsLoaded :
      (base : ℕ) (info : LoadSegmentInfo) (t : ElfVm H I J K)
      → IsValid t.mem
      → IsHostApart t.mem
      → HasRoom info
      → InHost elf.buffer base info t
      → IsLoaded t.mem elf.buffer base info t.bytes
  InHost-IsLoaded base info t v host room p = record {
    block = p.block;
    present = p.present;
    at_base = p.at_base;
    has_size = p.has_size;
    ends_below = omega (
      arith,
      v.fits,
      block_bounds p.block 0 t.mem.allocated_blocks t.mem.max_memory v.spaced p.present,
    );
    content = λ i c lt e.
        let x = p.block.virtual_base + info.mem_data_offset + i in
        let inside : Contains p.block x = (omega arith, omega (arith, room, p.has_size)) in
        reads t.mem v host p.block 1 x t.bytes p.present inside p.readable
        ∙ ap (λ b. ok b) (load-one (host_of p.block x) t.bytes)
        ∙ ap (λ y. ok (t.bytes y)) (host_is x i)
        ∙ ap (λ b. ok b) (p.content host i c lt e);
  }
    where
      load-one : (x : ℕ) (bytes : Bytes) → load 1 x bytes ≡ bytes x
      load-one x bytes = unfold load in omega arith

      host_is :
          (x i : ℕ)
          → host_of p.block (p.block.virtual_base + info.mem_data_offset + i)
            ≡ p.block.host_base + (info.mem_data_offset + i)
      host_is x i = omega arith

  pub place_binary-returns :
      (infos : List LoadSegmentInfo) (base : ℕ) (s t : ElfVm H I J K) {r : List LoadSegmentInfo × ℕ}
      → place_binary a elf infos base s ≡ (ok r, t)
      → (map_segments a elf base infos (record s { loaded_segments = [] }) ≡ (ok tt, t))
        × ((infos, base) ≡ r)
  unfolding place_binary
  place_binary-returns infos base s t {r} h =
      let start : ElfVm H I J K = record s { loaded_segments = [] } in
      let (x, u, e, k) =
        >>=-ok (map_segments a elf base infos) (λ x. done (infos, base)) start t h in
      let same : u ≡ t = ap state_of k in
      let returned : ok (infos, base) ≡ ok r = ap outcome_of k in
      (e ∙ ap (λ w. (ok tt, w)) same, cc)

  -- loadBinary from the LOAD segments of a file of bytes up to the relocations, from a valid memory
  -- manager with a 64-bit page size, over a host allocator that keeps the fields of a block. If it
  -- returns the segments and the base of the binary, the blocks do not overlap in the host, and each
  -- segment's allocation has room for its part of the file from its place on, then each segment has a
  -- block of its size at the base plus its offset, in which the guest reads the segment's part of the
  -- file, byte for byte.
  pub map_binary-IsLoaded :
      (s t : ElfVm H I J K) (infos : List LoadSegmentInfo) (base : ℕ)
      → IsBytes elf.buffer
      → IsValid s.mem
      → s.page_size < word
      → map_binary a elf s ≡ (ok (infos, base), t)
      → IsHostApart t.mem
      → HaveRoom infos
      → (info : LoadSegmentInfo) → In info infos
      → IsLoaded t.mem elf.buffer base info t.bytes
  unfolding map_binary
  map_binary-IsLoaded s t infos base bytes v page h host room info i =
      let (segments, e1, h1) = lift-ok (segments_of_type pt_load elf) _ s t h in
      let (found, e2, h2) = lift-ok (segment_infos elf.buffer segments) _ s t h1 in
      let (at, e3, h3) =
        lift-ok (find_free_addr (binary_alloc_size 0 found) s.page_size s.mem)
          (place_binary a elf found) s t h2 in
      let (mapped, same) = place_binary-returns found at s t h3 in
      let all =
        map_segments-InHost a keeps elf at found (record s { loaded_segments = [] }) t v page
          (segment_infos-HasSizes elf.buffer segments found bytes e2)
          (subst (λ (r : List LoadSegmentInfo × ℕ). HaveRoom r.0) (sym same) room) mapped in
      subst
        (λ (r : List LoadSegmentInfo × ℕ). In info r.0 → IsLoaded t.mem elf.buffer r.1 info t.bytes)
        same
        (λ place.
          InHost-IsLoaded at info t all.0.valid host
            (subst (λ (r : List LoadSegmentInfo × ℕ). HaveRoom r.0) (sym same) room info place)
            (all.1 info place))
        i
