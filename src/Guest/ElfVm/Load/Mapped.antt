-- ===== src/Guest/ElfVm/Load/Mapped.antt =====
-- What the guest reads at the addresses of the program headers, after the loop of loadBinary in
-- source/DasHLE/Guest/ELFVM.cpp over the LOAD segments.
use das_hle.Base.{ℕ, ◌+◌, ◌<◌, ◌≡◌, subst, In, List, get_elem?, some, ok, arith}
use das_hle.Word.{word, add64, sub64}
use das_hle.HostBytes.{Bytes}
use das_hle.Memory.{HostAllocator, MemoryManager}
use das_hle.Memory.Allocate.Commit.{KeepsBlock}
use das_hle.Memory.Layout.{IsValid}
use das_hle.Elf.{Elf, Poly}
use das_hle.Elf.Read.{segment_type, segment_offset, segment_vaddr, segment_filesz}
use das_hle.Elf.Dynamic.{segments_of_type}
use das_hle.Guest.Access.{memory_read}
use das_hle.Guest.Access.Laws.{IsHostApart}
use das_hle.Guest.Action.{lift-ok}
use das_hle.Guest.ElfVm.{ElfVm}
use das_hle.Guest.ElfVm.Segments.{LoadSegmentInfo, pt_load, segment_infos, binary_alloc_size}
use das_hle.Guest.ElfVm.Segments.Bounds.{IsBytes}
use das_hle.Memory.Find.{find_free_addr}
use das_hle.Guest.ElfVm.Load.{map_binary, place_binary}
use das_hle.Guest.ElfVm.Load.Placed.{HasRoom, HaveRoom}
use das_hle.Guest.ElfVm.Load.Contents.{IsLoaded, place_binary-returns, map_binary-IsLoaded}
use das_hle.Guest.ElfVm.Segments.Infos.{IsInfo, segment_info-IsInfo, segment_infos-In, of_type-In}

-- The guest reads the part of the file that the program header names at p_vaddr from the base on.
pub record IsMapped {H : Type 0} (m : MemoryManager H) (buffer : List ℕ) (base : ℕ) (header : Poly)
    (bytes : Bytes) : Type 0 where
  pub vaddr : ℕ
  pub is_vaddr : segment_vaddr buffer header ≡ ok vaddr
  pub offset : ℕ
  pub is_offset : segment_offset buffer header ≡ ok offset
  pub filesz : ℕ
  pub is_filesz : segment_filesz buffer header ≡ ok filesz
  pub content :
      (i c : ℕ)
      → i < filesz
      → get_elem? buffer (offset + i) ≡ some c
      → memory_read m 1 (add64 base vaddr + i) bytes ≡ ok c

-- The place in the block is the address that the header asks for.
wraps :
    (base alloc_offset vaddr start offset : ℕ)
    → alloc_offset < word
    → start ≡ add64 base alloc_offset
    → offset ≡ sub64 vaddr alloc_offset
    → start + offset < word
    → start + offset ≡ add64 base vaddr
unfolding add64 sub64
wraps base alloc_offset vaddr start offset fits e f below = omega arith

IsLoaded-IsMapped :
    {H : Type 0} (m : MemoryManager H) (buffer : List ℕ) (base : ℕ) (p : Poly)
    (info : LoadSegmentInfo) (bytes : Bytes)
    → HasRoom info
    → IsInfo buffer p info
    → IsLoaded m buffer base info bytes
    → IsMapped m buffer base p bytes
IsLoaded-IsMapped m buffer base p info bytes room q l = record {
  vaddr = q.vaddr;
  is_vaddr = q.is_vaddr;
  offset = info.file_data_offset;
  is_offset = q.is_offset;
  filesz = info.file_data_size;
  is_filesz = q.is_filesz;
  content = λ i c lt e.
      subst (λ x. memory_read m 1 (x + i) bytes ≡ ok c)
        (place (omega (arith, room, l.has_size, l.ends_below))) (l.content i c lt e);
}
  where
    place :
        l.block.virtual_base + info.mem_data_offset < word
        → l.block.virtual_base + info.mem_data_offset ≡ add64 base q.vaddr
    place below =
        wraps base info.alloc_offset q.vaddr l.block.virtual_base info.mem_data_offset q.offset_fits
          l.at_base q.in_memory below

module _ {H I J K : Type 0} (a : HostAllocator H) (keeps : KeepsBlock a) (elf : Elf) where
  -- loadBinary from the LOAD segments of a file of bytes up to the relocations, from a valid memory
  -- manager with a 64-bit page size, over a host allocator that keeps the fields of a block. If it
  -- returns the segments and the base of the binary, the blocks do not overlap in the host, and each
  -- segment's allocation has room for its part of the file from its place on, then for every program
  -- header of type PT_LOAD the guest reads, byte for byte, the p_filesz bytes of the file from p_offset
  -- on at the base plus p_vaddr, where the sum wraps at 2 ^ 64.
  pub map_binary-IsMapped :
      (s t : ElfVm H I J K) (infos : List LoadSegmentInfo) (base : ℕ)
      → IsBytes elf.buffer
      → IsValid s.mem
      → s.page_size < word
      → map_binary a elf s ≡ (ok (infos, base), t)
      → IsHostApart t.mem
      → HaveRoom infos
      → (header : Poly) → In header elf.program_headers
      → segment_type elf.buffer header ≡ ok 1
      → IsMapped t.mem elf.buffer base header t.bytes
  unfolding map_binary segments_of_type
  map_binary-IsMapped s t infos base bytes v page h host room p i type =
      let (segments, e1, h1) = lift-ok (segments_of_type pt_load elf) _ s t h in
      let (found, e2, h2) = lift-ok (segment_infos elf.buffer segments) _ s t h1 in
      let (at, e3, h3) =
        lift-ok (find_free_addr (binary_alloc_size 0 found) s.page_size s.mem)
          (place_binary a elf found) s t h2 in
      let (mapped, same) = place_binary-returns a keeps elf found at s t h3 in
      let inside =
        of_type-In (segment_type elf.buffer) 1 p elf.program_headers segments e1 i type in
      let (info, there, is_info) = segment_infos-In elf.buffer p segments found e2 inside in
      let place : In info infos =
        subst (λ (r : List LoadSegmentInfo × ℕ). In info r.0) same there in
      IsLoaded-IsMapped t.mem elf.buffer base p info t.bytes (room info place)
        (segment_info-IsInfo elf.buffer p info bytes is_info)
        (map_binary-IsLoaded a keeps elf s t infos base bytes v page h host room info place)
