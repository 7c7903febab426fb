-- ===== src/Guest/ElfVm/Segments/Bounds.antt =====
-- The segments' sizes that loadBinary of source/DasHLE/Guest/ELFVM.cpp reads from a file of bytes are
-- 64-bit numbers.
use native.Mathlib.Nat.{pow-suc}
use das_hle.Base.{
  ℕ, zero, suc, ◌+◌, ◌-◌, ◌*◌, ◌^◌, ◌<◌, ◌≡◌, refl, sym, ap, subst, inl, inr, Bool-cases, ltb, List,
  [], ◌∷◌, drop, In, ok, >>=-eq-ok, bit_and, arith,
}
use das_hle.Word.{word, add64, not64}
use das_hle.Word.Bits.{bit_and-le_right}
use das_hle.Align.{is_power_of_two, align_up}
use das_hle.Elf.{Poly}
use das_hle.Elf.Read.{
  read_le, read, field, segment_memsz, segment_filesz, segment_align, segment_offset, segment_vaddr,
  segment_flags,
}
use das_hle.Elf.Segment.{size_of, allocation_size, allocation_offset}
use das_hle.Guest.ElfVm.Segments.{LoadSegmentInfo, segment_info, segment_infos}

-- Every element is a byte.
abbrev pub IsBytes : List ℕ → Type 0
IsBytes bytes = (b : ℕ) → In b bytes → b < 256

pub ok-injective : {x y : ℕ} → ok x ≡ ok y → x ≡ y
ok-injective e = cc

pub read_le-lt :
    (count : ℕ) (bytes : List ℕ) (v : ℕ)
    → IsBytes bytes
    → read_le count bytes ≡ ok v
    → v < 256 ^ count
unfolding read_le
read_le-lt zero bytes v h e = omega (arith, ok-injective e)
read_le-lt (suc count) [] v h e = absurd (cc)
read_le-lt (suc count) (b ∷ bytes) v h e =
    let (rest, p, q) = >>=-eq-ok (read_le count bytes) _ e in
    let below = read_le-lt count bytes rest (λ c i. h c (inr i)) p in
    let same : b + 256 * rest ≡ v = ok-injective q in
    omega (arith, below, h b (inl refl), same, pow-suc 256 count)

pub drop-In : (n : ℕ) (xs : List ℕ) (b : ℕ) → In b (drop n xs) → In b xs
drop-In zero xs b i = i
drop-In (suc n) [] b i = i
drop-In (suc n) (x ∷ xs) b i = inr (drop-In n xs b i)

memsz-lt :
    (buffer : List ℕ) (p : Poly) (v : ℕ) → IsBytes buffer → segment_memsz buffer p ≡ ok v → v < word
unfolding field read
memsz-lt buffer p v h e = elim (Bool-cases p.is_64) [
  | inl yes_64 ↦
      read_le-lt 8 (drop (p.at + 0x28) buffer) v (λ c i. h c (drop-In (p.at + 0x28) buffer c i))
        (rw (yes_64, segment_memsz) at e)
  | inr no_64 ↦ omega (
    arith,
    read_le-lt 4 (drop (p.at + 0x14) buffer) v (λ c i. h c (drop-In (p.at + 0x14) buffer c i))
        (rw (no_64, segment_memsz) at e),
  )
]

pub mask_bound : (v n : ℕ) → bit_and v (not64 n) < word
unfolding not64
mask_bound v n = omega (arith, bit_and-le_right v (word - 1 - n))

align_up-lt : (val alignment v : ℕ) → align_up val alignment ≡ ok v → v < word
unfolding align_up
align_up-lt val alignment v e = elim (Bool-cases (is_power_of_two alignment)) [
  | inl p ↦
      let same : bit_and (add64 val (alignment - 1)) (not64 (alignment - 1)) ≡ v =
        ok-injective (rw (p, align_up) at e) in
      omega (arith, same, mask_bound (add64 val (alignment - 1)) (alignment - 1))
  | inr p ↦ absurd (cc (rw (p, align_up) at e))
]

size_of-lt :
    (memsz filesz align v : ℕ) → memsz < word → size_of memsz filesz align ≡ ok v → v < word
unfolding size_of
size_of-lt memsz filesz align v fits e = elim (Bool-cases (ltb memsz filesz)) [
  | inl bad ↦ absurd (cc (rw (bad, size_of) at e))
  | inr good ↦ elim (Bool-cases (ltb 1 align)) [
    | inl large ↦ align_up-lt memsz align v (rw (good, size_of, large) at e)
    | inr small ↦ omega (arith, fits, ok-injective (rw (good, size_of, small) at e))
  ]
]

allocation_size-lt :
    (buffer : List ℕ) (p : Poly) (v : ℕ)
    → IsBytes buffer
    → allocation_size buffer p ≡ ok v
    → v < word
unfolding allocation_size
allocation_size-lt buffer p v h e =
    let (memsz, e1, k1) = >>=-eq-ok (segment_memsz buffer p) _ e in
    let (filesz, e2, k2) = >>=-eq-ok (segment_filesz buffer p) _ k1 in
    let (align, e3, k3) = >>=-eq-ok (segment_align buffer p) _ k2 in
    size_of-lt memsz filesz align v (memsz-lt buffer p memsz h e1) k3

-- The sizes of the allocations are 64-bit numbers.
abbrev pub HasSizes : List LoadSegmentInfo → Type 0
HasSizes infos = (info : LoadSegmentInfo) → In info infos → info.alloc_size < word

pub info_injective : {x y : LoadSegmentInfo} → ok x ≡ ok y → x ≡ y
info_injective e = cc

pub infos_injective : {x y : List LoadSegmentInfo} → ok x ≡ ok y → x ≡ y
infos_injective e = cc

segment_info-lt :
    (buffer : List ℕ) (p : Poly) (info : LoadSegmentInfo)
    → IsBytes buffer
    → segment_info buffer p ≡ ok info
    → info.alloc_size < word
unfolding segment_info
segment_info-lt buffer p info h e =
    let (alloc_offset, e1, k1) = >>=-eq-ok (allocation_offset buffer p) _ e in
    let (alloc_size, e2, k2) = >>=-eq-ok (allocation_size buffer p) _ k1 in
    let (offset, e3, k3) = >>=-eq-ok (segment_offset buffer p) _ k2 in
    let (filesz, e4, k4) = >>=-eq-ok (segment_filesz buffer p) _ k3 in
    let (vaddr, e5, k5) = >>=-eq-ok (segment_vaddr buffer p) _ k4 in
    let (flags, e6, k6) = >>=-eq-ok (segment_flags buffer p) _ k5 in
    subst (λ x. x < word) (size_is k6) (allocation_size-lt buffer p alloc_size h e2)
  where
    size_is : {x y : LoadSegmentInfo} → ok x ≡ ok y → x.alloc_size ≡ y.alloc_size
    size_is k = let same = info_injective k in ap (λ (i : LoadSegmentInfo). i.alloc_size) same

pub segment_infos-HasSizes :
    (buffer : List ℕ) (segments : List Poly) (infos : List LoadSegmentInfo)
    → IsBytes buffer
    → segment_infos buffer segments ≡ ok infos
    → HasSizes infos
unfolding segment_infos
segment_infos-HasSizes buffer [] infos h e =
    subst HasSizes (infos_injective e) (λ info i. elim i [ ])
segment_infos-HasSizes buffer (p ∷ ps) infos h e =
    let (info, e1, k1) = >>=-eq-ok (segment_info buffer p) _ e in
    let (rest, e2, k2) = >>=-eq-ok (segment_infos buffer ps) _ k1 in
    subst HasSizes (infos_injective k2) (λ i place. elim place [
      | inl same ↦
          subst (λ (k : LoadSegmentInfo). k.alloc_size < word) (sym same)
            (segment_info-lt buffer p info h e1)
      | inr later ↦ segment_infos-HasSizes buffer ps rest h e2 i later
    ])
