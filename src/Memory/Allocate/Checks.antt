-- ===== src/Memory/Allocate/Checks.antt =====
-- The checks of the arguments in MemoryManager::allocate.
use native.Mathlib.Decide.{dec_le, dec_lt, ℕ_discrete}
use native.Mathlib.Nat.{mod-eq_of_lt}
use das_hle.Base.{
  ℕ, ◌+◌, ◌-◌, ◌%◌, ◌≤◌, ◌<◌, ◌≡◌, ◌≢◌, refl, subst, ◌⊎◌, inl, inr, arith, true, false, ok, err,
  Bool-cases, some, none, Error, invalid_size, invalid_alignment, no_virtual_memory,
  invalid_address,
}
use das_hle.Word.{word, sub64_lem}
use das_hle.Align.{is_power_of_two}
use das_hle.Align.Laws.{IsFloor, align_down-power, power-pos}
use das_hle.Memory.{AllocArgs, MemoryManager, available_memory, has_flag, force_hint}
use das_hle.Memory.Allocate.{check_size, check_hint, check_args}
use das_hle.Memory.Find.Fit.{IsRequest, ceil-le}
use das_hle.Memory.Layout.{IsValid}
use das_hle.Memory.Layout.Gaps.{used-le-max}

-- The arguments are 64-bit values.
pub record InRange (args : AllocArgs) : Type 0 where
  pub size_fits : args.size < word
  pub alignment_fits : args.alignment < word
  pub hint_fits : (h : ℕ) → args.hint ≡ some h → h < word

available-eq :
    {H : Type 0} (m : MemoryManager H)
    → IsValid m
    → available_memory m ≡ m.max_memory - m.used_memory
unfolding available_memory
available-eq m v = sub64_lem m.max_memory m.used_memory (used-le-max m v) v.fits

-- The largest multiple below v is v itself exactly if v is a multiple.
floor_self : (v a d : ℕ) → 0 < a → IsFloor v a d → ((d ≡ v) × (v % a ≡ 0)) ⊎ ((d ≢ v) × (v % a ≢ 0))
floor_self v a d pos f = elim (ℕ_discrete d v) [
  | yes e ↦ inl (e, subst (λ t. t % a ≡ 0) e f.0)
  | no ne ↦
      inr (ne, λ m. ne (omega (arith, f.1, ceil-le d a v d pos (m, f.1, f.2) f.0 (omega arith))))
]

check_size_cases :
    (args : AllocArgs)
    → InRange args
    → args.alignment ≢ 0
    → is_power_of_two args.alignment ≡ true
    → ((check_size args ≡ ok tt) × (args.size % args.alignment ≡ 0))
      ⊎ ((check_size args ≡ err invalid_size) × (args.size % args.alignment ≢ 0))
unfolding check_size
check_size_cases args r ne p =
    let (d, e, f) = align_down-power args.size args.alignment r.size_fits r.alignment_fits p in
    elim (floor_self args.size args.alignment d (power-pos args.alignment p) f) [
      | inl (same, m) ↦ inl (rw (e, check_size) (ground arith), m)
      | inr (other, m) ↦ inr (rw (e, check_size) (ground arith), m)
    ]

-- Why allocate() turns its arguments down before it looks at the hint.
abbrev pub Rejected : {H : Type 0} → AllocArgs → MemoryManager H → Error → Type 0
Rejected args m e =
    ((e ≡ invalid_size) × (args.size ≡ 0))
    ⊎ ((e ≡ no_virtual_memory) × (m.max_memory < m.used_memory + args.size))
    ⊎ ((e ≡ invalid_alignment) × (args.alignment ≢ 0) × (is_power_of_two args.alignment ≡ false))
    ⊎ ((e ≡ invalid_size) × (args.alignment ≢ 0) × (args.size % args.alignment ≢ 0))

divides_le : (n a : ℕ) → n ≢ 0 → n % a ≡ 0 → a ≤ n
divides_le n a pos m = elim (dec_le a n) [
  | yes q ↦ q
  | no q ↦ absurd (omega (arith, mod-eq_of_lt {n = n} {m = a} (omega arith)))
]

pub check_args-prefix :
    {H : Type 0} (m : MemoryManager H) (args : AllocArgs)
    → IsValid m
    → InRange args
    → ((check_args args m ≡ check_hint args) × IsRequest args.size args.alignment)
      ⊎ ((e : Error) × (check_args args m ≡ err e) × Rejected args m e)
unfolding check_args
check_args-prefix m args v r = elim (ℕ_discrete args.size 0) [
  | yes z ↦ inr (invalid_size, ground arith, inl (refl, z))
  | no pos ↦ elim (dec_lt (m.max_memory - m.used_memory) args.size) [
    | yes short ↦ inr (
      no_virtual_memory,
      rw (available-eq m v, check_args) (ground arith),
      inr (inl (refl, omega (arith, used-le-max m v))),
    )
    | no enough ↦ elim (ℕ_discrete args.alignment 0) [
      | yes z ↦
          inl (
            rw (available-eq m v, check_args) (ground (arith, no_alignment z)),
            (omega arith, inl z),
          )
      | no ne ↦ elim (Bool-cases (is_power_of_two args.alignment)) [
        | inr not_power ↦ inr (
          invalid_alignment,
          rw (available-eq m v, not_power, check_args) (ground arith),
          inr (inr (inl (refl, ne, not_power))),
        )
        | inl power ↦ elim (check_size_cases args r ne power) [
          | inl (passed, k) ↦ inl (
            rw (available-eq m v, power, passed, check_args) (ground arith),
            (omega arith, inr (r.alignment_fits, power, divides_le args.size args.alignment pos k)),
          )
          | inr (failed, k) ↦ inr (
            invalid_size,
            rw (available-eq m v, power, failed, check_args) (ground arith),
            inr (inr (inr (refl, ne, k))),
          )
        ]
      ]
    ]
  ]
]
  where
    no_alignment : args.alignment ≡ 0 → check_size args ≡ ok tt
    no_alignment z = unfold check_size in ground arith

pub check_hint-none : (args : AllocArgs) → args.hint ≡ none → check_hint args ≡ ok args.alignment
unfolding check_hint
check_hint-none args e = rw (e, check_hint)

pub check_hint-forced :
    (args : AllocArgs) (h : ℕ)
    → InRange args
    → args.hint ≡ some h
    → has_flag args.flags force_hint ≡ true
    → (args.alignment ≡ 0) ⊎ (is_power_of_two args.alignment ≡ true)
    → ((check_hint args ≡ ok 0) × ((args.alignment ≡ 0) ⊎ (h % args.alignment ≡ 0)))
      ⊎ ((check_hint args ≡ err invalid_address) × (h % args.alignment ≢ 0))
unfolding check_hint
check_hint-forced args h r e f (inl z) = inl (rw (e, check_hint) (ground arith), inl z)
check_hint-forced args h r e f (inr p) =
    let (d, q, fl) = align_down-power h args.alignment (r.hint_fits h e) r.alignment_fits p in
    let pos = power-pos args.alignment p in
    elim (floor_self h args.alignment d pos fl) [
      | inl (same, m) ↦ inl (rw (e, f, q, check_hint) (ground arith), inr m)
      | inr (other, m) ↦ inr (rw (e, f, q, check_hint) (ground arith), m)
    ]
