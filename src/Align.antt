-- ===== src/Align.antt =====
-- source/DasHLE/Support/Math.h at usize: isPowerOfTwo, alignDown, alignUp.
pub mod Laws
use das_hle.Base.{
  ℕ, ◌-◌, bit_and, Bool, ◌&&◌, not, ◌==◌, if◌then◌else◌, Outcome, ok, err, invalid_alignment,
}
use das_hle.Word.{add64, not64}

-- `val && !(val & (val - 1))`
unfoldable pub is_power_of_two : ℕ → Bool
is_power_of_two val = not (val == 0) && (bit_and val (val - 1) == 0)

unfoldable pub align_down : ℕ → ℕ → Outcome ℕ
align_down val alignment =
    if is_power_of_two alignment
    then ok (bit_and val (not64 (alignment - 1)))
    else err invalid_alignment

unfoldable pub align_up : ℕ → ℕ → Outcome ℕ
align_up val alignment =
    if is_power_of_two alignment
    then ok (bit_and (add64 val (alignment - 1)) (not64 (alignment - 1)))
    else err invalid_alignment
