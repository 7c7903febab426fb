-- ===== src/Word/Bits.antt =====
-- `&` with a power of two less one and with its complement, as arithmetic.
use Prim.Native.Nat.{digits, bit_and-bitwise}
use mathlib.Core.WellFounded.{Acc, WellFounded, induction}
use native.Mathlib.Nat.{le_refl, pow-suc, one-le-pow, div-div-eq-div-mul}
use das_hle.Base.{
  ℕ, zero, suc, ◌+◌, ◌-◌, ◌*◌, ◌/◌, ◌%◌, ◌^◌, ◌≤◌, ◌<◌, bit_and, min, ◌≡◌, ◌⊎◌, inl, inr, refl, ◌∙◌,
  arith,
}

acc_below : (k n : ℕ) → n < k → Acc ◌<◌ n
acc_below zero n h = absurd (omega arith)
acc_below (suc k) n h = Acc.intro n (λ m below. acc_below k m (omega arith))

pub lt_wf : WellFounded ◌<◌
lt_wf = record { apply = λ n. acc_below (suc n) n (le_refl _) }

-- The native `&` is read off the digits one by one, on fuel: more fuel than the value changes nothing.
and_digits : ℕ → ℕ → ℕ → ℕ
and_digits = digits (λ digit. 0) min

one_more : (fuel v w : ℕ) → v ≤ fuel → and_digits (suc fuel) v w ≡ and_digits fuel v w
unfolding and_digits
one_more zero zero w h = refl
one_more zero (suc v) w h = absurd (omega arith)
one_more (suc fuel) zero w h = refl
one_more (suc fuel) (suc v) w h = rw (one_more fuel (suc v / 2) (w / 2) (omega arith))

more_fuel : (extra fuel v w : ℕ) → fuel ≡ extra + v → and_digits fuel v w ≡ and_digits v v w
more_fuel zero fuel v w e = let same : fuel ≡ v = omega arith in rw same refl
more_fuel (suc extra) zero v w e = absurd (omega arith)
more_fuel (suc extra) (suc fuel) v w e =
    one_more fuel v w (omega arith) ∙ more_fuel extra fuel v w (omega arith)

-- The lowest digit of `&`.
pub bit_and_step : (a b : ℕ) → bit_and a b ≡ bit_and (a / 2) (b / 2) * 2 + min (a % 2) (b % 2)
unfolding and_digits
bit_and_step zero b = simp bit_and-bitwise (omega arith)
bit_and_step (suc a) b =
    let half = suc a / 2 in
    simp bit_and-bitwise (omega (arith, more_fuel (a - half) a half (b / 2) (omega arith)))

pub bit_and-le_right : (a b : ℕ) → bit_and a b ≤ b
bit_and-le_right a = induction lt_wf {C = λ n. (b : ℕ) → bit_and n b ≤ b} a step
  where
    step : (n : ℕ) → ((m : ℕ) → m < n → (b : ℕ) → bit_and m b ≤ b) → (b : ℕ) → bit_and n b ≤ b
    step zero ih b = omega (arith, bit_and-bitwise 0 b)
    step (suc n) ih b = omega (arith, bit_and_step (suc n) b, ih (suc n / 2) (omega arith) (b / 2))

pub bit_and_self : (a : ℕ) → bit_and a a ≡ a
bit_and_self a = induction lt_wf {C = λ n. bit_and n n ≡ n} a step
  where
    step : (n : ℕ) → ((m : ℕ) → m < n → bit_and m m ≡ m) → bit_and n n ≡ n
    step zero ih = refl
    step (suc n) ih = omega (arith, bit_and_step (suc n) (suc n), ih (suc n / 2) (omega arith))

-- All w bits are kept by a mask of w ones.
pub bit_and_ones : (w v : ℕ) → v < 2 ^ w → bit_and v (2 ^ w - 1) ≡ v
bit_and_ones zero v h = omega (arith, bit_and-le_right v 0)
bit_and_ones (suc w) v h = ground (
  arith,
  bit_and_step v (2 ^ suc w - 1),
  pow-suc 2 w,
  one-le-pow w 2,
  bit_and_ones w (v / 2) (omega (arith, pow-suc 2 w)),
)

-- Clearing the k low bits of a word of w bits.
pub bit_and_clear : (k w v : ℕ) → k ≤ w → v < 2 ^ w → bit_and v (2 ^ w - 2 ^ k) ≡ v / 2 ^ k * 2 ^ k
bit_and_clear zero w v h lt = omega (arith, bit_and_ones w v lt)
bit_and_clear (suc k) zero v h lt = absurd (omega arith)
bit_and_clear (suc k) (suc w) v h lt = ground (
  arith,
  bit_and_step v (2 ^ suc w - 2 ^ suc k),
  pow-suc 2 w,
  pow-suc 2 k,
  bit_and_clear k w (v / 2) (omega arith) (omega (arith, pow-suc 2 w)),
  div-div-eq-div-mul v 2 (2 ^ k),
  double (v / 2 / 2 ^ k) (2 ^ k),
)
  where
    double : (q d : ℕ) → q * (2 * d) ≡ 2 * (q * d)
    double q d = omega arith

pub bit_and_pred_pow : (k : ℕ) → bit_and (2 ^ k) (2 ^ k - 1) ≡ 0
bit_and_pred_pow zero = refl
bit_and_pred_pow (suc k) = ground (
  arith,
  bit_and_step (2 ^ suc k) (2 ^ suc k - 1),
  pow-suc 2 k,
  one-le-pow k 2,
  bit_and_pred_pow k,
)

-- One digit of `m & (m - 1)`: an odd m would keep its upper digits.
halve_and_pred :
    (m : ℕ) → 2 ≤ m → bit_and m (m - 1) ≡ 0 → (m ≡ 2 * (m / 2)) × (bit_and (m / 2) (m / 2 - 1) ≡ 0)
halve_and_pred m h e = elim (parity m) [
  | inl (even, half) ↦ (omega arith, rw half at upper)
  | inr half ↦
      let rest : bit_and (m / 2) (m / 2) ≡ 0 = rw half at upper in
      absurd (omega (arith, bit_and_self (m / 2)))
]
  where
    upper : bit_and (m / 2) ((m - 1) / 2) ≡ 0
    upper = omega (arith, bit_and_step m (m - 1))

    parity : (n : ℕ) → ((n % 2 ≡ 0) × ((n - 1) / 2 ≡ n / 2 - 1)) ⊎ ((n - 1) / 2 ≡ n / 2)
    parity n = grind arith

-- `v & (v - 1)` clears the lowest one: nothing is left exactly at the powers of two.
pub pow_of_bit_and_pred : (v : ℕ) → 0 < v → bit_and v (v - 1) ≡ 0 → (k : ℕ) × (v ≡ 2 ^ k)
pow_of_bit_and_pred v =
    induction lt_wf {C = λ n. 0 < n → bit_and n (n - 1) ≡ 0 → (k : ℕ) × (n ≡ 2 ^ k)} v step
  where
    step :
        (n : ℕ)
        → ((m : ℕ) → m < n → 0 < m → bit_and m (m - 1) ≡ 0 → (k : ℕ) × (m ≡ 2 ^ k))
        → 0 < n
        → bit_and n (n - 1) ≡ 0
        → (k : ℕ) × (n ≡ 2 ^ k)
    step zero ih pos e = elim pos [ ]
    step (suc zero) ih pos e = (0, refl)
    step (suc (suc n)) ih pos e =
        let (double, rest) = halve_and_pred (suc (suc n)) (omega arith) e in
        let (k, p) = ih (suc (suc n) / 2) (omega arith) (omega arith) rest in
        (suc k, omega (arith, pow-suc 2 k, p, double))
