-- ===== src/Guest/Action.antt =====
-- Code that changes a state and may return an error, stop at an assertion, or be undefined.
use das_hle.Base.{
  ◌≡◌, refl, ap, Bool, true, false, Outcome, and_then, assert, assert_ok, ok, err, abort,
}

abbrev pub Action : Type 0 → Type 0 → Type 0
Action S A = S → Outcome A × S

-- DASHLE_TRY_EXPECTED: the rest runs on the value and the state.
infixl 5 ◌>>=◌ ◌>>◌
abbrev pub ◌>>=◌ : {S A B : Type 0} → Action S A → (A → Action S B) → Action S B
(m >>= f) s = and_then (m s) f

abbrev pub ◌>>◌ : {S A B : Type 0} → Action S A → Action S B → Action S B
m >> k = m >>= λ _. k

abbrev pub done : {S A : Type 0} → A → Action S A
done a s = (ok a, s)

-- Code that leaves the state alone.
abbrev pub lift : {S A : Type 0} → Outcome A → Action S A
lift r s = (r, s)

-- What code finds in the state.
abbrev pub look : {S A : Type 0} → (S → A) → Action S A
look f s = (ok (f s), s)

abbrev pub change : {S : Type 0} → (S → S) → Action S (Unit {0})
change f s = (ok tt, f s)

-- DASHLE_ASSERT of a condition, and of an Expected.
abbrev pub check : {S : Type 0} → Bool → Action S (Unit {0})
check b s = (assert b, s)

abbrev pub must : {S A : Type 0} → Action S A → Action S A
must m s = let r = m s in (assert_ok r.0, r.1)

-- Code that returns a value has returned from its first part.
pub >>=-ok :
    {S A B : Type 0} (m : Action S A) (f : A → Action S B) (s t : S) {b : B}
    → (m >>= f) s ≡ (ok b, t)
    → (a : A) × (u : S) × (m s ≡ (ok a, u)) × (f a u ≡ (ok b, t))
>>=-ok {S} {A} {B} m f s t {b} h = result (m s) h
  where
    result :
        (r : Outcome A × S)
        → and_then r f ≡ (ok b, t)
        → (a : A) × (u : S) × (r ≡ (ok a, u)) × (f a u ≡ (ok b, t))
    result (ok a, u) k = (a, u, refl, k)
    result (err e, u) k = absurd (cc (ap (λ (q : Outcome B × S). q.0) k))
    result (abort, u) k = absurd (cc (ap (λ (q : Outcome B × S). q.0) k))
    result (Outcome.undefined, u) k = absurd (cc (ap (λ (q : Outcome B × S). q.0) k))

pub lift-ok :
    {S A B : Type 0} (r : Outcome A) (f : A → Action S B) (s t : S) {b : B}
    → (lift r >>= f) s ≡ (ok b, t)
    → (a : A) × (r ≡ ok a) × (f a s ≡ (ok b, t))
lift-ok (ok a) f s t h = (a, refl, h)
lift-ok {S} {A} {B} (err e) f s t h = absurd (cc (ap (λ (q : Outcome B × S). q.0) h))
lift-ok {S} {A} {B} abort f s t h = absurd (cc (ap (λ (q : Outcome B × S). q.0) h))
lift-ok {S} {A} {B} Outcome.undefined f s t h = absurd (cc (ap (λ (q : Outcome B × S). q.0) h))

pub must-ok :
    {S A : Type 0} (m : Action S A) (s t : S) {a : A} → must m s ≡ (ok a, t) → m s ≡ (ok a, t)
must-ok {S} {A} m s t {a} h = result (m s) h
  where
    result :
        (r : Outcome A × S) → ◌≡◌ {A = Outcome A × S} (assert_ok r.0, r.1) (ok a, t) → r ≡ (ok a, t)
    result (ok x, u) k = k
    result (err e, u) k = absurd (cc (ap (λ (q : Outcome A × S). q.0) k))
    result (abort, u) k = absurd (cc (ap (λ (q : Outcome A × S). q.0) k))
    result (Outcome.undefined, u) k = absurd (cc (ap (λ (q : Outcome A × S). q.0) k))

pub check-ok :
    {S B : Type 0} (b : Bool) (f : Unit {0} → Action S B) (s t : S) {x : B}
    → (check b >>= f) s ≡ (ok x, t)
    → f tt s ≡ (ok x, t)
check-ok true f s t h = h
check-ok {S} {B} false f s t h = absurd (cc (ap (λ (q : Outcome B × S). q.0) h))
