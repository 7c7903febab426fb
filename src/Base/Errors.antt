-- ===== src/Base/Errors.antt =====
-- The error codes of source/DasHLE/Support/Types.h, and the outcome of code that returns an
-- Expected and may stop at an assertion.
use mathlib.Core.Path.{◌≡◌, refl}
use mathlib.Core.Bool.{Bool, true, false}

-- `enum class Error`.
pub data Error : Type 0 where
  open_failed invalid_size invalid_alignment invalid_magic invalid_class : Error
  invalid_data_encoding no_pie invalid_arch invalid_relocation no_segments : Error
  no_sections invalid_segment relocation_failed invalid_address invalid_index : Error
  no_virtual_memory no_host_memory not_found invalid_argument duplicate : Error
  invalid_operation : Error

-- `Expected<T>` with the ways of not returning: `abort` is a DASHLE_ASSERT that fails or a
-- DASHLE_UNREACHABLE, `undefined` is behaviour that C++ leaves undefined.
pub data Outcome {ℓ} (A : Type ℓ) : Type ℓ where
  ok : A → Outcome A
  err : Error → Outcome A
  abort undefined : Outcome A

-- DASHLE_TRY_EXPECTED: the rest runs on the value, an error is returned.
infixl 5 ◌>>=◌ ◌>>◌
abbrev pub ◌>>=◌ {ℓ κ} : {A : Type ℓ} {B : Type κ} → Outcome A → (A → Outcome B) → Outcome B
ok a >>= f = f a
err e >>= f = err e
abort >>= f = abort
undefined >>= f = undefined

abbrev pub ◌>>◌ {ℓ} : {B : Type ℓ} → Outcome (Unit {0}) → Outcome B → Outcome B
m >> k = m >>= λ _. k

-- `if (bad) return Unexpected(e);`
abbrev pub fail_if : Bool → Error → Outcome (Unit {0})
fail_if true e = err e
fail_if false e = ok tt

-- DASHLE_ASSERT_WRAPPER: an error stops the program.
abbrev pub assert_ok {ℓ} : {A : Type ℓ} → Outcome A → Outcome A
assert_ok (ok a) = ok a
assert_ok (err e) = abort
assert_ok abort = abort
assert_ok undefined = undefined

-- DASHLE_ASSERT.
abbrev pub assert : Bool → Outcome (Unit {0})
assert true = ok tt
assert false = abort

-- Code that changes a state returns it beside its outcome.
abbrev pub and_then {ℓ κ μ} :
    {S : Type ℓ} {A : Type κ} {B : Type μ} → Outcome A × S → (A → S → Outcome B × S) → Outcome B × S
and_then (ok a, s) f = f a s
and_then (err e, s) f = (err e, s)
and_then (abort, s) f = (abort, s)
and_then (undefined, s) f = (undefined, s)

-- Code that returns has returned from its first part.
pub >>=-eq-ok {ℓ κ} :
    {A : Type ℓ} {B : Type κ} (first : Outcome A) (rest : A → Outcome B) {result : B}
    → (first >>= rest) ≡ ok result
    → (mid : A) × (first ≡ ok mid) × (rest mid ≡ ok result)
>>=-eq-ok (ok a) f h = (a, refl, h)
>>=-eq-ok (err e) f h = cc
>>=-eq-ok abort f h = cc
>>=-eq-ok undefined f h = cc
