-- ===== src/Align/Laws.antt =====
-- What isPowerOfTwo, alignDown and alignUp of source/DasHLE/Support/Math.h compute.
use native.Mathlib.Nat.{pow-le-pow_right, one-le-pow, mod-lt, div-add-mod', mul-mod_left}
use native.Mathlib.Decide.{dec_le}
use das_hle.Base.{
  ℕ, ◌+◌, ◌-◌, ◌*◌, ◌/◌, ◌%◌, ◌^◌, ◌≤◌, ◌<◌, ◌≡◌, ◌↔◌, ◌⊎◌, inl, inr, true, false, bit_and, arith,
  ok, err, invalid_alignment, Bool-cases,
}
use das_hle.Word.{word, not64, add64_lem}
use das_hle.Word.Bits.{bit_and_clear, bit_and_pred_pow, pow_of_bit_and_pred}
use das_hle.Align.{is_power_of_two, align_down, align_up}

-- `isPowerOfTwo` holds exactly at the powers of two.
pub is_power_of_two_iff : (v : ℕ) → (is_power_of_two v ≡ true) ↔ ((k : ℕ) × (v ≡ 2 ^ k))
unfolding is_power_of_two
is_power_of_two_iff v = (
  λ h. pow_of_bit_and_pred v (ground arith) (ground arith),
  λ (k, e). rw e (ground (arith, bit_and_pred_pow k, one-le-pow k 2)),
)

exponent-le : (k : ℕ) → 2 ^ k < word → k ≤ 64
exponent-le k h = elim (dec_le k 64) [
  | yes p ↦ p
  | no p ↦
      absurd (omega (arith, pow-le-pow_right {n = 2} (omega arith) {i = 64} {j = k} (omega arith)))
]

bit_and-not64 :
    (v a : ℕ)
    → is_power_of_two a ≡ true
    → a < word
    → v < word
    → bit_and v (not64 (a - 1)) ≡ v / a * a
bit_and-not64 v a p ha hv =
    let (k, e) = (is_power_of_two_iff a).0 p in
    rw e (rw (mask k (rw e at ha)) (bit_and_clear k 64 v (exponent-le k (rw e at ha)) hv))
  where
    mask : (k : ℕ) → 2 ^ k < word → not64 (2 ^ k - 1) ≡ word - 2 ^ k
    mask k h = unfold not64 in omega (arith, one-le-pow k 2)

pub power-pos : (a : ℕ) → is_power_of_two a ≡ true → 0 < a
unfolding is_power_of_two
power-pos a p = ground arith

-- The largest multiple of a that is not above v; the smallest that is not below it.
abbrev pub IsFloor : ℕ → ℕ → ℕ → Type 0
IsFloor v a d = (d % a ≡ 0) × (d ≤ v) × (v < d + a)

abbrev pub IsCeil : ℕ → ℕ → ℕ → Type 0
IsCeil v a d = (d % a ≡ 0) × (v ≤ d) × (d < v + a)

floor : (v a : ℕ) → 0 < a → IsFloor v a (v / a * a)
floor v a h = (mul-mod_left (v / a) a, omega (arith, q), omega (arith, q, mod-lt v h))
  where
    q : v / a * a + v % a ≡ v
    q = div-add-mod' v a

pub align_down-power :
    (v a : ℕ)
    → v < word
    → a < word
    → is_power_of_two a ≡ true
    → (d : ℕ) × (align_down v a ≡ ok d) × IsFloor v a d
unfolding align_down
align_down-power v a hv ha p =
    (v / a * a, rw p (rw (bit_and-not64 v a p ha hv)), floor v a (power-pos a p))

-- For an alignment that is a power of two, `alignDown` returns the largest multiple of it that is
-- not above the value, for any 64-bit value; for any other alignment it returns the error
-- InvalidAlignment.
pub align_down_lem :
    (v a : ℕ)
    → v < word
    → a < word
    → ((is_power_of_two a ≡ true) × ((d : ℕ) × (align_down v a ≡ ok d) × IsFloor v a d))
      ⊎ ((is_power_of_two a ≡ false) × (align_down v a ≡ err invalid_alignment))
align_down_lem v a hv ha = elim (Bool-cases (is_power_of_two a)) [
  | inl p ↦ inl (p, align_down-power v a hv ha p)
  | inr p ↦ inr (p, unfold align_down in rw p)
]

pub align_up-power :
    (v a : ℕ)
    → a < word
    → v + (a - 1) < word
    → is_power_of_two a ≡ true
    → (d : ℕ) × (align_up v a ≡ ok d) × IsCeil v a d
unfolding align_up
align_up-power v a ha fits p = (
  (v + (a - 1)) / a * a,
  rw p (rw (add64_lem v (a - 1) fits) (rw (bit_and-not64 (v + (a - 1)) a p ha fits))),
  (f.0, omega (arith, f, power-pos a p), omega (arith, f, power-pos a p)),
)
  where
    f : IsFloor (v + (a - 1)) a ((v + (a - 1)) / a * a)
    f = floor (v + (a - 1)) a (power-pos a p)

-- For an alignment that is a power of two, and a value that can be rounded up within 64 bits,
-- `alignUp` returns the smallest multiple that is not below the value; for any other alignment it
-- returns the error InvalidAlignment.
pub align_up_lem :
    (v a : ℕ)
    → a < word
    → v + (a - 1) < word
    → ((is_power_of_two a ≡ true) × ((d : ℕ) × (align_up v a ≡ ok d) × IsCeil v a d))
      ⊎ ((is_power_of_two a ≡ false) × (align_up v a ≡ err invalid_alignment))
align_up_lem v a ha fits = elim (Bool-cases (is_power_of_two a)) [
  | inl p ↦ inl (p, align_up-power v a ha fits p)
  | inr p ↦ inr (p, unfold align_up in rw p)
]
