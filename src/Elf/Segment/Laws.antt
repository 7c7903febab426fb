-- ===== src/Elf/Segment/Laws.antt =====
-- Where a segment is allocated: allocationOffset and allocationSize of source/DasHLE/Binary/ELF.cpp,
-- and the permission flags of ELF.h.
use native.Mathlib.Decide.{dec_lt, ℕ_discrete}
use native.Mathlib.Nat.{mod-eq_of_lt, mul-add-mod_self_right, div-add-mod'}
use das_hle.Base.{
  ◌/◌, ap, Error, Bool, if◌then◌else◌, bit_or, ℕ, ◌+◌, ◌-◌, ◌*◌, ◌%◌, ◌≤◌, ◌<◌, ◌≡◌, ◌≢◌, refl, sym,
  ◌∙◌, ◌⊎◌, inl, inr, true, false, ok, err, arith, invalid_segment, invalid_alignment,
}
use das_hle.Word.{word}
use das_hle.Align.{is_power_of_two, align_down, align_up}
use das_hle.Align.Laws.{IsFloor, IsCeil, align_down_lem, align_up_lem}
use das_hle.Memory.Find.Fit.{ceil-le}
use das_hle.Memory.{has_flag, perm_read, perm_write, perm_exec}
use das_hle.Elf.Segment.{offset_of, size_of, wrap_permission_flags, pf_r, pf_w, pf_x}

not_both : (x : ℕ) (e : Error) → ok x ≡ err e → ⊥
not_both x e h = cc

same_ok : (x y : ℕ) → ok x ≡ ok y → x ≡ y
same_ok x y h = cc

-- What rounding down takes off.
floor_rest : (v a d : ℕ) → IsFloor v a d → v ≡ d + v % a
floor_rest v a d f =
    let whole : d / a * a + (v - d) ≡ v = omega (arith, div-add-mod' d a, f) in
    let rest : v % a ≡ (v - d) % a =
      sym (ap (λ x. x % a) whole) ∙ mul-add-mod_self_right (d / a) a (v - d) in
    omega (arith, rest, mod-eq_of_lt {n = v - d} {m = a} (omega (arith, f)), f)

rounds :
    (align vaddr offset : ℕ)
    → 1 < align
    → vaddr % align ≡ offset % align
    → offset_of align vaddr offset ≡ align_down vaddr align
unfolding offset_of
rounds align vaddr offset lt same = ground arith

-- allocationOffset for 64-bit fields. An alignment of 0 or 1 leaves the address as it is. With a
-- larger one, an address and a file offset that differ modulo the alignment are an InvalidSegment;
-- else the result is the address rounded down to the alignment, and the rest of the address is the
-- file offset's, or InvalidAlignment where the alignment is no power of two.
pub offset_of_lem :
    (align vaddr offset : ℕ)
    → align < word
    → vaddr < word
    → ((align ≤ 1) × (offset_of align vaddr offset ≡ ok vaddr))
      ⊎ ((1 < align)
          × (vaddr % align ≢ offset % align)
          × (offset_of align vaddr offset ≡ err invalid_segment))
      ⊎ ((is_power_of_two align ≡ true)
          × ((d : ℕ) × (offset_of align vaddr offset ≡ ok d)
              × IsFloor vaddr align d
              × (vaddr ≡ d + offset % align)))
      ⊎ ((1 < align)
          × (is_power_of_two align ≡ false)
          × (offset_of align vaddr offset ≡ err invalid_alignment))
offset_of_lem align vaddr offset fa fv = elim (dec_lt 1 align) [
  | no le ↦ inl (omega arith, unfold offset_of in ground arith)
  | yes lt ↦ elim (ℕ_discrete (vaddr % align) (offset % align)) [
    | no ne ↦ inr (inl (lt, ne, unfold offset_of in ground arith))
    | yes same ↦ elim (align_down_lem vaddr align fv fa) [
      | inl (p, (d, e, f)) ↦ inr (
          inr (
            inl (
              p,
              (
                d,
                rounds align vaddr offset lt same ∙ e,
                f,
                omega (arith, floor_rest vaddr align d f, same),
              ),
            )))
      | inr (p, e) ↦ inr (inr (inr (lt, p, rounds align vaddr offset lt same ∙ e)))
    ]
  ]
]

grows :
    (memsz filesz align : ℕ)
    → ¬ (memsz < filesz)
    → 1 < align
    → size_of memsz filesz align ≡ align_up memsz align
unfolding size_of
grows memsz filesz align le large = ground arith

-- allocationSize for 64-bit fields, where rounding up does not wrap: a segment that is larger in the file than in memory is an
-- InvalidSegment; else the result is the size in memory, rounded up to an alignment above 1, or
-- InvalidAlignment where that is no power of two.
pub size_of_lem :
    (memsz filesz align : ℕ)
    → align < word
    → memsz + (align - 1) < word
    → ((memsz < filesz) × (size_of memsz filesz align ≡ err invalid_segment))
      ⊎ ((filesz ≤ memsz) × (align ≤ 1) × (size_of memsz filesz align ≡ ok memsz))
      ⊎ ((filesz ≤ memsz)
          × (is_power_of_two align ≡ true)
          × ((d : ℕ) × (size_of memsz filesz align ≡ ok d) × IsCeil memsz align d))
      ⊎ ((filesz ≤ memsz)
          × (1 < align)
          × (is_power_of_two align ≡ false)
          × (size_of memsz filesz align ≡ err invalid_alignment))
size_of_lem memsz filesz align fa fits = elim (dec_lt memsz filesz) [
  | yes lt ↦ inl (lt, unfold size_of in ground arith)
  | no le ↦ elim (dec_lt 1 align) [
    | no small ↦ inr (inl (omega arith, omega arith, unfold size_of in ground arith))
    | yes large ↦ elim (align_up_lem memsz align fa fits) [
      | inl (p, (d, e, c)) ↦
          inr (inr (inl (omega arith, p, (d, grows memsz filesz align le large ∙ e, c))))
      | inr (p, e) ↦ inr (inr (inr (omega arith, large, p, grows memsz filesz align le large ∙ e)))
    ]
  ]
]

-- A segment with an alignment above 1, whose size in memory is a multiple of its alignment, and whose
-- address is not one: where allocationOffset and allocationSize both succeed, and nothing wraps, the
-- allocation that they give ends before the segment does.
pub size_of-short :
    (align vaddr offset memsz filesz start size : ℕ)
    → 1 < align
    → align < word
    → vaddr < word
    → memsz + (align - 1) < word
    → memsz % align ≡ 0
    → vaddr % align ≢ 0
    → offset_of align vaddr offset ≡ ok start
    → size_of memsz filesz align ≡ ok size
    → start + size < vaddr + memsz
size_of-short align vaddr offset memsz filesz start size large fa fv fits whole off e f =
    omega (arith, size_is, start_below)
  where
    size_is : size ≡ memsz
    size_is = elim (size_of_lem memsz filesz align fa fits) [
      | inl (_, g) ↦ absurd (not_both size _ (sym f ∙ g))
      | inr (inl (_, small, g)) ↦ absurd (omega arith)
      | inr (inr (inl (_, p, (d, g, c)))) ↦
          let same : size ≡ d = same_ok size d (sym f ∙ g) in
          omega (arith, c, ceil-le memsz align d memsz (omega arith) c whole (omega arith))
      | inr (inr (inr (_, _, _, g))) ↦ absurd (not_both size _ (sym f ∙ g))
    ]

    start_below : start < vaddr
    start_below = elim (offset_of_lem align vaddr offset fa fv) [
      | inl (small, g) ↦ absurd (omega arith)
      | inr (inl (_, _, g)) ↦ absurd (not_both start _ (sym e ∙ g))
      | inr (inr (inl (p, (d, g, fl, rest)))) ↦
          let same : start ≡ d = same_ok start d (sym e ∙ g) in
          omega (arith, floor_rest vaddr align d fl)
      | inr (inr (inr (_, _, g))) ↦ absurd (not_both start _ (sym e ∙ g))
    ]

-- wrapPermissionFlags, on its three tests.
permissions : Bool → Bool → Bool → ℕ
permissions r w x =
    let read = if r then perm_read else 0 in
    let write = if w then bit_or read perm_write else read in
    if x then bit_or write perm_exec else write

IsPermissions : ℕ → Bool → Bool → Bool → Type 0
IsPermissions perm r w x =
    (has_flag perm perm_read ≡ r)
    × (has_flag perm perm_write ≡ w)
    × (has_flag perm perm_exec ≡ x)
    × (perm < 8)

permissions-IsPermissions : (r w x : Bool) → IsPermissions (permissions r w x) r w x
unfolding permissions IsPermissions has_flag
permissions-IsPermissions false false false = (refl, refl, refl, omega arith)
permissions-IsPermissions false false true = (refl, refl, refl, omega arith)
permissions-IsPermissions false true false = (refl, refl, refl, omega arith)
permissions-IsPermissions false true true = (refl, refl, refl, omega arith)
permissions-IsPermissions true false false = (refl, refl, refl, omega arith)
permissions-IsPermissions true false true = (refl, refl, refl, omega arith)
permissions-IsPermissions true true false = (refl, refl, refl, omega arith)
permissions-IsPermissions true true true = (refl, refl, refl, omega arith)

-- The permissions of memory that wrapPermissionFlags gives are those of the segment's flags.
pub wrap_permission_flags_lem :
    (flags : ℕ)
    → let perm = wrap_permission_flags flags in
      (has_flag perm perm_read ≡ has_flag flags pf_r)
      × (has_flag perm perm_write ≡ has_flag flags pf_w)
      × (has_flag perm perm_exec ≡ has_flag flags pf_x)
      × (perm < 8)
unfolding wrap_permission_flags permissions IsPermissions
wrap_permission_flags_lem flags =
    permissions-IsPermissions (has_flag flags pf_r) (has_flag flags pf_w) (has_flag flags pf_x)
