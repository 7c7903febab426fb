-- ===== src/Tests/ErrorText.antt =====
-- The texts of errors.
use das_hle.Base.{◌≡◌, refl, ok, text}
use das_hle.ErrorText.{error_as_string, error_case}

no_pie_text : error_as_string 6 ≡ ok (text "NoPIE")
unfolding error_as_string error_case
no_pie_text = refl
