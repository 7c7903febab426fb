-- ===== src/Tests/Align.antt =====
-- source/DasHLE/Support/Math.h at concrete numbers.
use das_hle.Base.{◌≡◌, ◌⊎◌, ℕ, true, false, ok, err, refl, arith, invalid_alignment}
use das_hle.Word.{add64, not64}
use das_hle.Align.{is_power_of_two, align_down, align_up}
use das_hle.Align.Laws.{IsCeil, align_up_lem}

rounds : (align_down 0x1fff 0x1000 ≡ ok 0x1000) × (align_up 0x1001 0x1000 ≡ ok 0x2000)
unfolding align_down align_up is_power_of_two not64 add64
rounds = (refl, refl)

-- Rounding up at the top of the address space wraps to 0.
align_up_wraps : align_up 0xffff_ffff_ffff_fff1 0x10 ≡ ok 0
unfolding align_up is_power_of_two not64 add64
align_up_wraps = refl

align_up_lem_example :
    ((is_power_of_two 0x1000 ≡ true)
      × ((d : ℕ) × (align_up 0x1fff 0x1000 ≡ ok d) × IsCeil 0x1fff 0x1000 d))
    ⊎ ((is_power_of_two 0x1000 ≡ false) × (align_up 0x1fff 0x1000 ≡ err invalid_alignment))
align_up_lem_example = align_up_lem 0x1fff 0x1000 (omega arith) (omega arith)
