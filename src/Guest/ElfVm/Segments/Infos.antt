-- ===== src/Guest/ElfVm/Segments/Infos.antt =====
-- What the loop of loadBinary in source/DasHLE/Guest/ELFVM.cpp over the LOAD segments keeps of a
-- program header.
use das_hle.Base.{
  ℕ, ◌+◌, ◌-◌, ◌%◌, ◌<◌, ◌≡◌, refl, sym, ap, subst, ◌∙◌, In, inl, inr, Bool-cases, ltb, not, ◌==◌,
  List, [], ◌∷◌, drop, ok, >>=-eq-ok, Outcome, bit_and, arith,
}
use das_hle.Word.{word, sub64, not64}
use das_hle.Align.{is_power_of_two, align_down}
use das_hle.Elf.{Poly}
use das_hle.Elf.Read.{
  field, read, segment_offset, segment_vaddr, segment_filesz, segment_align, segment_flags,
}
use das_hle.Elf.Segment.{offset_of, allocation_offset, allocation_size}
use das_hle.Elf.Dynamic.{of_type}
use das_hle.Guest.ElfVm.Segments.{LoadSegmentInfo, segment_info, segment_infos}
use das_hle.Guest.ElfVm.Segments.Bounds.{
  IsBytes, ok-injective, read_le-lt, drop-In, mask_bound, info_injective, infos_injective,
}

-- What loadBinary keeps of a LOAD segment's header.
pub record IsInfo (buffer : List ℕ) (header : Poly) (info : LoadSegmentInfo) : Type 0 where
  pub vaddr : ℕ
  pub is_vaddr : segment_vaddr buffer header ≡ ok vaddr
  pub is_offset : segment_offset buffer header ≡ ok info.file_data_offset
  pub is_filesz : segment_filesz buffer header ≡ ok info.file_data_size
  pub offset_fits : info.alloc_offset < word
  pub in_memory : info.mem_data_offset ≡ sub64 vaddr info.alloc_offset

vaddr-lt :
    (buffer : List ℕ) (p : Poly) (v : ℕ) → IsBytes buffer → segment_vaddr buffer p ≡ ok v → v < word
unfolding field read
vaddr-lt buffer p v h e = elim (Bool-cases p.is_64) [
  | inl yes_64 ↦
      read_le-lt 8 (drop (p.at + 0x10) buffer) v (λ c i. h c (drop-In (p.at + 0x10) buffer c i))
        (rw (yes_64, segment_vaddr) at e)
  | inr no_64 ↦ omega (
    arith,
    read_le-lt 4 (drop (p.at + 8) buffer) v (λ c i. h c (drop-In (p.at + 8) buffer c i))
        (rw (no_64, segment_vaddr) at e),
  )
]

align_down-lt : (val alignment v : ℕ) → align_down val alignment ≡ ok v → v < word
unfolding align_down
align_down-lt val alignment v e = elim (Bool-cases (is_power_of_two alignment)) [
  | inl p ↦
      let same : bit_and val (not64 (alignment - 1)) ≡ v = ok-injective (rw (p, align_down) at e) in
      omega (arith, same, mask_bound val (alignment - 1))
  | inr p ↦ absurd (cc (rw (p, align_down) at e))
]

offset_of-lt :
    (align vaddr offset v : ℕ) → vaddr < word → offset_of align vaddr offset ≡ ok v → v < word
unfolding offset_of
offset_of-lt align vaddr offset v fits e = elim (Bool-cases (ltb 1 align)) [
  | inr small ↦ omega (arith, fits, ok-injective (rw (small, offset_of) at e))
  | inl large ↦ elim (Bool-cases (not (vaddr % align == offset % align))) [
    | inl bad ↦ absurd (cc (rw (large, bad, offset_of) at e))
    | inr good ↦ align_down-lt vaddr align v (rw (large, good, offset_of) at e)
  ]
]

allocation_offset-lt :
    (buffer : List ℕ) (p : Poly) (v : ℕ)
    → IsBytes buffer
    → allocation_offset buffer p ≡ ok v
    → v < word
unfolding allocation_offset
allocation_offset-lt buffer p v h e =
    let (align, e1, k1) = >>=-eq-ok (segment_align buffer p) _ e in
    let (vaddr, e2, k2) = >>=-eq-ok (segment_vaddr buffer p) _ k1 in
    let (offset, e3, k3) = >>=-eq-ok (segment_offset buffer p) _ k2 in
    offset_of-lt align vaddr offset v (vaddr-lt buffer p vaddr h e2) k3

pub segment_info-IsInfo :
    (buffer : List ℕ) (p : Poly) (info : LoadSegmentInfo)
    → IsBytes buffer
    → segment_info buffer p ≡ ok info
    → IsInfo buffer p info
unfolding segment_info
segment_info-IsInfo buffer p info h e =
    let (alloc_offset, e1, k1) = >>=-eq-ok (allocation_offset buffer p) _ e in
    let (alloc_size, e2, k2) = >>=-eq-ok (allocation_size buffer p) _ k1 in
    let (offset, e3, k3) = >>=-eq-ok (segment_offset buffer p) _ k2 in
    let (filesz, e4, k4) = >>=-eq-ok (segment_filesz buffer p) _ k3 in
    let (vaddr, e5, k5) = >>=-eq-ok (segment_vaddr buffer p) _ k4 in
    let (flags, e6, k6) = >>=-eq-ok (segment_flags buffer p) _ k5 in
    subst (IsInfo buffer p) (info_injective k6) (record {
      vaddr = vaddr;
      is_vaddr = e5;
      is_offset = e3;
      is_filesz = e4;
      offset_fits = allocation_offset-lt buffer p alloc_offset h e1;
      in_memory = refl;
    })

-- Every LOAD segment has its info.
pub segment_infos-In :
    (buffer : List ℕ) (p : Poly) (segments : List Poly) (infos : List LoadSegmentInfo)
    → segment_infos buffer segments ≡ ok infos
    → In p segments
    → (info : LoadSegmentInfo) × In info infos × (segment_info buffer p ≡ ok info)
unfolding segment_infos
segment_infos-In buffer p [] infos e i = elim i [ ]
segment_infos-In buffer p (q ∷ qs) infos e i =
    let (info, e1, k1) = >>=-eq-ok (segment_info buffer q) _ e in
    let (rest, e2, k2) = >>=-eq-ok (segment_infos buffer qs) _ k1 in
    elim i [
      | inl same ↦ (
        info,
        subst (In info) (infos_injective k2) (inl refl),
        ap (segment_info buffer) same ∙ e1,
      )
      | inr later ↦
          let (found, place, k) = segment_infos-In buffer p qs rest e2 later in
          (found, subst (In found) (infos_injective k2) (inr place), k)
    ]

pub of_type-In :
    (type_of : Poly → Outcome ℕ) (type : ℕ) (p : Poly) (headers segments : List Poly)
    → of_type type_of type headers ≡ ok segments
    → In p headers
    → type_of p ≡ ok type
    → In p segments
unfolding of_type
of_type-In type_of type p [] segments e i k = elim i [ ]
of_type-In type_of type p (q ∷ qs) segments e i k =
    let (t, e1, k1) = >>=-eq-ok (type_of q) _ e in
    let (found, e2, k2) = >>=-eq-ok (of_type type_of type qs) _ k1 in
    elim (Bool-cases (t == type)) [
      | inl y ↦
          let same : q ∷ found ≡ segments = lists (q ∷ found) segments (rw y at k2) in
          elim i [
            | inl here ↦ subst (In p) same (inl here)
            | inr later ↦ subst (In p) same (inr (of_type-In type_of type p qs found e2 later k))
          ]
      | inr n ↦
          let same : found ≡ segments = lists found segments (rw n at k2) in
          elim i [
            | inl here ↦
                let t_is : t ≡ type = ok-injective (sym e1 ∙ ap type_of (sym here) ∙ k) in
                absurd (ground arith)
            | inr later ↦ subst (In p) same (of_type-In type_of type p qs found e2 later k)
          ]
    ]
  where
    lists : (a b : List Poly) → ok a ≡ ok b → a ≡ b
    lists a b h = cc
