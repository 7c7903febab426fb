-- ===== src/Word/Digits.antt =====
-- The binary digits of `&` and `|`.
use Prim.Native.Nat.{digits, bit_or-bitwise, max}
use native.Mathlib.Nat.{pow-suc, div-div-eq-div-mul}
use das_hle.Base.{
  ℕ, zero, suc, ◌+◌, ◌-◌, ◌*◌, ◌/◌, ◌%◌, ◌^◌, ◌≤◌, bit_and, bit_or, min, ◌≡◌, refl, sym, ap, ◌∙◌,
  arith,
}
use das_hle.Word.Bits.{bit_and_step}

or_digits : ℕ → ℕ → ℕ → ℕ
or_digits = digits (λ b. b) max

or_more : (fuel v w : ℕ) → v ≤ fuel → or_digits (suc fuel) v w ≡ or_digits fuel v w
unfolding or_digits
or_more zero zero w h = refl
or_more zero (suc v) w h = absurd (omega arith)
or_more (suc fuel) zero w h = refl
or_more (suc fuel) (suc v) w h = rw (or_more fuel (suc v / 2) (w / 2) (omega arith))

or_fuel : (extra fuel v w : ℕ) → fuel ≡ extra + v → or_digits fuel v w ≡ or_digits v v w
or_fuel zero fuel v w e = let same : fuel ≡ v = omega arith in rw same refl
or_fuel (suc extra) zero v w e = absurd (omega arith)
or_fuel (suc extra) (suc fuel) v w e =
    or_more fuel v w (omega arith) ∙ or_fuel extra fuel v w (omega arith)

bit_or_step : (a b : ℕ) → bit_or a b ≡ bit_or (a / 2) (b / 2) * 2 + max (a % 2) (b % 2)
unfolding or_digits
bit_or_step zero b = simp bit_or-bitwise (omega arith)
bit_or_step (suc a) b =
    let half = suc a / 2 in
    simp bit_or-bitwise (omega (arith, or_fuel (a - half) a half (b / 2) (omega arith)))

-- The digit of a number at a place.
abbrev pub digit : ℕ → ℕ → ℕ
digit k v = v / 2 ^ k % 2

halves : (k v : ℕ) → digit (suc k) v ≡ digit k (v / 2)
halves k v =
    let e : v / (2 * 2 ^ k) ≡ v / 2 / 2 ^ k = sym (div-div-eq-div-mul v 2 (2 ^ k)) in
    let p : 2 ^ suc k ≡ 2 * 2 ^ k = omega (arith, pow-suc 2 k) in rw p (ap (λ t. t % 2) e)

pub bit_and-digit : (k a b : ℕ) → digit k (bit_and a b) ≡ min (digit k a) (digit k b)
bit_and-digit zero a b = grind (arith, bit_and_step a b)
bit_and-digit (suc k) a b =
    let half : bit_and a b / 2 ≡ bit_and (a / 2) (b / 2) = grind (arith, bit_and_step a b) in
    halves k (bit_and a b)
    ∙ ap (digit k) half
    ∙ rw (halves k a, halves k b) (bit_and-digit k (a / 2) (b / 2))

pub bit_or-digit : (k a b : ℕ) → digit k (bit_or a b) ≡ max (digit k a) (digit k b)
bit_or-digit zero a b = grind (arith, bit_or_step a b)
bit_or-digit (suc k) a b =
    let half : bit_or a b / 2 ≡ bit_or (a / 2) (b / 2) = grind (arith, bit_or_step a b) in
    halves k (bit_or a b)
    ∙ ap (digit k) half
    ∙ rw (halves k a, halves k b) (bit_or-digit k (a / 2) (b / 2))
