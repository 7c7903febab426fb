-- ===== src/Word.antt =====
-- usize and uaddr of source/DasHLE/Support/Types.h on a 64-bit host: native numbers below
-- 2 ^ 64, with the wrap of +, - and ~ written out.
pub mod Bits
pub mod Digits
use das_hle.Base.{ℕ, ◌+◌, ◌-◌, ◌%◌, ◌^◌, ◌≤◌, ◌<◌, ◌≡◌, arith}

abbrev pub word : ℕ
word = 2 ^ 64

unfoldable pub add64 : ℕ → ℕ → ℕ
add64 a b = (a + b) % word

unfoldable pub sub64 : ℕ → ℕ → ℕ
sub64 a b = (a + word - b) % word

-- ~a
unfoldable pub not64 : ℕ → ℕ
not64 a = word - 1 - a

pub add64_lem : (a b : ℕ) → a + b < word → add64 a b ≡ a + b
unfolding add64
add64_lem a b h = omega arith

pub sub64_lem : (a b : ℕ) → b ≤ a → a < word → sub64 a b ≡ a - b
unfolding sub64
sub64_lem a b h k = omega arith

pub add64-lt : (a b : ℕ) → add64 a b < word
unfolding add64
add64-lt a b = omega arith

pub sub64-lt : (a b : ℕ) → sub64 a b < word
unfolding sub64
sub64-lt a b = omega arith

-- Below zero the difference wraps to a large number.
pub sub64_wraps : (a b : ℕ) → a < b → b < word → sub64 a b ≡ word - (b - a)
unfolding sub64
sub64_wraps a b h k = omega arith
