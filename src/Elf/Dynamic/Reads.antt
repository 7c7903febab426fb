-- ===== src/Elf/Dynamic/Reads.antt =====
-- The reads of source/DasHLE/Binary/ELF.h come to a value, or go past the end of the file.
use das_hle.Base.{
  ℕ, zero, suc, ◌+◌, ◌*◌, ◌≡◌, refl, subst, sym, ◌⊎◌, inl, inr, Bool-cases, List, [], ◌∷◌, drop,
  Outcome, ok, undefined, ◌>>=◌,
}
use das_hle.Elf.{Poly}
use das_hle.Elf.Read.{read_le, read, field}

-- A read has a value, or it goes past the end.
abbrev pub IsRead : {A : Type 0} → Outcome A → Type 0
IsRead {A} o = ((v : A) × (o ≡ ok v)) ⊎ (o ≡ undefined)

pub >>=-IsRead :
    {A B : Type 0} (o : Outcome A) (f : A → Outcome B)
    → IsRead o
    → ((v : A) → IsRead (f v))
    → IsRead (o >>= f)
>>=-IsRead o f (inl (v, e)) g = subst (λ x. IsRead (x >>= f)) (sym e) (g v)
>>=-IsRead o f (inr e) g = inr (rw e refl)

read_le-IsRead : (count : ℕ) (bytes : List ℕ) → IsRead (read_le count bytes)
unfolding read_le
read_le-IsRead zero bytes = inl (0, refl)
read_le-IsRead (suc count) [] = inr refl
read_le-IsRead (suc count) (b ∷ bytes) =
    >>=-IsRead (read_le count bytes) _ (read_le-IsRead count bytes) (λ v. inl (b + 256 * v, refl))

pub field-IsRead :
    (offset32 size32 offset64 size64 : ℕ) (buffer : List ℕ) (p : Poly)
    → IsRead (field offset32 size32 offset64 size64 buffer p)
unfolding field read
field-IsRead offset32 size32 offset64 size64 buffer p = elim (Bool-cases p.is_64) [
  | inl e ↦ rw e (read_le-IsRead size64 (drop (p.at + offset64) buffer))
  | inr e ↦ rw e (read_le-IsRead size32 (drop (p.at + offset32) buffer))
]
