-- ===== src/Elf/Dynamic/Laws.antt =====
-- A step of the loop of dynEntriesWithTag of source/DasHLE/Binary/ELF.cpp: it moves on, and a read
-- past the end is undefined.
use das_hle.Base.{
  ℕ, zero, suc, ◌+◌, ◌≤◌, ◌<◌, ◌≡◌, refl, Bool, true, false, List, [], ◌∷◌, drop, length, undefined,
  arith,
}
use das_hle.Elf.Read.{read_le, read, field, dyn_tag}
use das_hle.Elf.Dynamic.{dyn_size}

drop-past : (n : ℕ) (xs : List ℕ) → length xs ≤ n → drop n xs ≡ []
drop-past zero [] h = refl
drop-past zero (x ∷ xs) h = absurd (omega arith)
drop-past (suc n) [] h = refl
drop-past (suc n) (x ∷ xs) h = drop-past n xs (omega arith)

pub dyn_tag-past :
    (buffer : List ℕ) (is_64 : Bool) (at : ℕ)
    → length buffer ≤ at
    → dyn_tag buffer (record { is_64 = is_64; at = at }) ≡ undefined
unfolding field read read_le
dyn_tag-past buffer true at h = rw (drop-past (at + 0) buffer (omega arith)) refl
dyn_tag-past buffer false at h = rw (drop-past (at + 0) buffer (omega arith)) refl

pub dyn_size-pos : (is_64 : Bool) → 0 < dyn_size is_64
unfolding dyn_size
dyn_size-pos true = omega arith
dyn_size-pos false = omega arith
