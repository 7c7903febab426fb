-- ===== src/Elf/Parse/Fields.antt =====
-- The reads and single checks of the header in ELF::parse of source/DasHLE/Binary/ELF.cpp.
use das_hle.Base.{
  ℕ, zero, suc, ◌+◌, ◌*◌, ◌≤◌, ◌<◌, ◌≡◌, ◌≢◌, ◌⊎◌, refl, sym, ap, ◌∙◌, Bool, true, false,
  Bool-cases, inl, inr, not, ◌==◌, if◌then◌else◌, List, [], ◌∷◌, length, drop, ok, err, Outcome,
  Error, ◌>>=◌, ◌>>◌, fail_if, abort, undefined, arith,
}
use das_hle.Elf.{Poly}
use das_hle.Elf.Read.{read_le, read, field, ident}
use das_hle.Elf.Parse.{header_size, starts_with}
use das_hle.Elf.Parse.Laws.{HasBytes}

-- A read of `count` bytes that are there has a value.
read_le-value :
    (count : ℕ) (bytes : List ℕ) → count ≤ length bytes → (v : ℕ) × (read_le count bytes ≡ ok v)
unfolding read_le
read_le-value zero bytes h = (0, refl)
read_le-value (suc count) [] h = absurd (omega arith)
read_le-value (suc count) (b ∷ bytes) h =
    let (v, e) = read_le-value count bytes (omega arith) in
    (b + 256 * v, ap (λ o. o >>= λ rest. ok (b + 256 * rest)) e)

left :
    (n : ℕ) (bytes : List ℕ) (count : ℕ) → n + count ≤ length bytes → count ≤ length (drop n bytes)
left zero bytes count h = omega arith
left (suc n) [] count h = omega arith
left (suc n) (b ∷ bytes) count h = left n bytes count (omega arith)

-- A field of the header of a file with room for it has a value.
pub field-value :
    (offset32 size32 offset64 size64 : ℕ) (buffer : List ℕ) (bits64 : Bool)
    → offset32 + size32 ≤ 52
    → offset64 + size64 ≤ 64
    → header_size bits64 ≤ length buffer
    → (v : ℕ) × (field offset32 size32 offset64 size64 buffer (record { is_64 = bits64; at = 0 })
        ≡ ok v)
unfolding field read header_size
field-value offset32 size32 offset64 size64 buffer false h32 h64 fits =
    read_le-value size32 (drop (0 + offset32) buffer)
      (left (0 + offset32) buffer size32 (omega arith))
field-value offset32 size32 offset64 size64 buffer true h32 h64 fits =
    read_le-value size64 (drop (0 + offset64) buffer)
      (left (0 + offset64) buffer size64 (omega arith))

-- A check of a field that has a value.
pub field_check :
    (first : Outcome ℕ) (want : ℕ) (e : Error) (rest : Outcome (Unit {0})) {v : ℕ}
    → first ≡ ok v
    → let whole = first >>= λ x. fail_if (not (x == want)) e >> rest in
      ((first ≡ ok want) × (whole ≡ rest)) ⊎ ((first ≢ ok want) × (whole ≡ err e))
field_check first want e rest {v} q = elim (Bool-cases (v == want)) [
  | inl p ↦
      let same : v ≡ want = ground arith in
      inl (q ∙ ap ok same, passes first q ∙ ap (λ b. fail_if (not b) e >> rest) p)
  | inr p ↦ inr (
    (λ right.
        let other : ok v ≡ ok want = sym q ∙ right in let same : v ≡ want = cc in ground arith),
    passes first q ∙ ap (λ b. fail_if (not b) e >> rest) p,
  )
]
  where
    passes :
        (first : Outcome ℕ)
        → first ≡ ok v
        → (first >>= λ x. fail_if (not (x == want)) e >> rest)
          ≡ (fail_if (not (v == want)) e >> rest)
    passes first q = ap (λ o. o >>= λ x. fail_if (not (x == want)) e >> rest) q

-- The last check has nothing after it.
pub last_check :
    (first : Outcome ℕ) (want : ℕ) (e : Error)
    → (first >>= λ x. fail_if (not (x == want)) e)
      ≡ (first >>= λ x. fail_if (not (x == want)) e >> ok tt)
last_check (ok a) want e = and_nothing (not (a == want))
  where
    and_nothing : (b : Bool) → fail_if b e ≡ (fail_if b e >> ok tt)
    and_nothing false = refl
    and_nothing true = refl
last_check (err x) want e = refl
last_check abort want e = refl
last_check undefined want e = refl

starts_with-next :
    (buffer : List ℕ) (header : Poly) (index c : ℕ) (cs : List ℕ) (byte : ℕ) (same : Bool)
    → ident buffer header index ≡ ok byte
    → (byte == c) ≡ same
    → starts_with buffer header index (c ∷ cs)
      ≡ (if same then starts_with buffer header (suc index) cs else ok false)
unfolding starts_with
starts_with-next buffer header index c cs byte same q p =
    ap (λ o. o >>= λ x. choose (x == c)) q ∙ ap choose p ∙ as_if same
  where
    choose : Bool → Outcome Bool
    choose b = elim b [ false ↦ ok false | true ↦ starts_with buffer header (suc index) cs ]

    as_if :
        (b : Bool) → choose b ≡ (if b then starts_with buffer header (suc index) cs else ok false)
    as_if false = refl
    as_if true = refl

pub starts_with_cases :
    (buffer : List ℕ) (header : Poly)
    → ((index : ℕ) → index < 16 → (v : ℕ) × (ident buffer header index ≡ ok v))
    → (index : ℕ) (cs : List ℕ) → index + length cs ≤ 16
    → ((starts_with buffer header index cs ≡ ok true) × HasBytes buffer header index cs)
      ⊎ ((starts_with buffer header index cs ≡ ok false) × ¬ HasBytes buffer header index cs)
unfolding starts_with
starts_with_cases buffer header has index [] h = inl (refl, tt)
starts_with_cases buffer header has index (c ∷ cs) h =
    let (byte, q) = has index (omega arith) in
    elim (Bool-cases (byte == c)) [
      | inl p ↦
          let same : byte ≡ c = ground arith in
          elim (starts_with_cases buffer header has (suc index) cs (omega arith)) [
            | inl (r, b) ↦
                inl
                  (starts_with-next buffer header index c cs byte true q p ∙ r, (q ∙ ap ok same, b))
            | inr (r, n) ↦
                inr (starts_with-next buffer header index c cs byte true q p ∙ r, λ b. n b.1)
          ]
      | inr p ↦ inr (
        starts_with-next buffer header index c cs byte false q p,
        λ b. let other : ok byte ≡ ok c = sym q ∙ b.0 in let same : byte ≡ c = cc in ground arith,
      )
    ]
