-- ===== src/Elf/Relocs/Extends.antt =====
-- Lists of relocations that only grow.
use das_hle.Base.{◌≡◌, refl, ap, ◌⊎◌, inl, inr, List, [], ◌∷◌, ◌++◌, In, ℕ, some, none}
use das_hle.Elf.{Elf, RelocInfo, RelocKind}

-- A relative relocation has no symbol, a symbol's has one.
abbrev pub IsReloc : RelocInfo → Type 0
IsReloc r =
    ((r.kind ≡ RelocKind.relative) × (r.symbol ≡ none))
    ⊎ ((name : List ℕ) × (r.kind ≡ RelocKind.symbol) × (r.symbol ≡ some name))

abbrev pub AllReloc : List RelocInfo → Type 0
AllReloc rs = (r : RelocInfo) → In r rs → IsReloc r

-- The second is the first with more relocations, all of them of the right form.
pub record Extends (elf next : Elf) : Type 0 where
  pub same_rest : next ≡ record elf { relocs = next.relocs }
  pub added : List RelocInfo
  pub relocs_are : next.relocs ≡ elf.relocs ++ added
  pub right : AllReloc added

pub append-none : (xs : List RelocInfo) → xs ≡ xs ++ []
append-none [] = refl
append-none (x ∷ xs) = ap (λ t. x ∷ t) (append-none xs)

pub append_assoc : (xs ys zs : List RelocInfo) → (xs ++ ys) ++ zs ≡ xs ++ (ys ++ zs)
append_assoc [] ys zs = refl
append_assoc (x ∷ xs) ys zs = ap (λ t. x ∷ t) (append_assoc xs ys zs)

pub append-AllReloc : (xs ys : List RelocInfo) → AllReloc xs → AllReloc ys → AllReloc (xs ++ ys)
append-AllReloc [] ys f g r h = g r h
append-AllReloc (x ∷ xs) ys f g r (inl e) = f r (inl e)
append-AllReloc (x ∷ xs) ys f g r (inr h) = append-AllReloc xs ys (λ s k. f s (inr k)) g r h
