-- ===== src/Elf/Layout.antt =====
-- The structures of source/DasHLE/Binary/ELF.h, as a 64-bit host lays them out: each member at the next
-- multiple of its type's size.
use das_hle.Base.{ℕ, zero, suc, ◌+◌, ◌-◌, ◌*◌, ◌/◌, max, List, [], ◌∷◌}

-- A member is an array of scalars: their count and the size of one.
abbrev pub Members : Type 0
Members = List (ℕ × ℕ)

-- u8, Half and Section, Word and its like, Xword and its like.
abbrev u8 : ℕ × ℕ
u8 = (1, 1)

abbrev half : ℕ × ℕ
half = (1, 2)

abbrev word : ℕ × ℕ
word = (1, 4)

abbrev xword : ℕ × ℕ
xword = (1, 8)

-- e_ident, of EI_NIDENT bytes.
abbrev e_ident : ℕ × ℕ
e_ident = (16, 1)

abbrev pub ehdr_32 : Members
ehdr_32 =
    e_ident ∷ half ∷ half ∷ word ∷ word ∷ word ∷ word ∷ word ∷ half ∷ half ∷ half ∷ half ∷ half
    ∷ half ∷ []

abbrev pub ehdr_64 : Members
ehdr_64 =
    e_ident ∷ half ∷ half ∷ word ∷ xword ∷ xword ∷ xword ∷ word ∷ half ∷ half ∷ half ∷ half ∷ half
    ∷ half ∷ []

abbrev pub shdr_32 : Members
shdr_32 = word ∷ word ∷ word ∷ word ∷ word ∷ word ∷ word ∷ word ∷ word ∷ word ∷ []

abbrev pub shdr_64 : Members
shdr_64 = word ∷ word ∷ xword ∷ xword ∷ xword ∷ xword ∷ word ∷ word ∷ xword ∷ xword ∷ []

abbrev pub phdr_32 : Members
phdr_32 = word ∷ word ∷ word ∷ word ∷ word ∷ word ∷ word ∷ word ∷ []

abbrev pub phdr_64 : Members
phdr_64 = word ∷ word ∷ xword ∷ xword ∷ xword ∷ xword ∷ xword ∷ xword ∷ []

-- The union d_un is one member.
abbrev pub dyn_32 : Members
dyn_32 = word ∷ word ∷ []

abbrev pub dyn_64 : Members
dyn_64 = xword ∷ xword ∷ []

abbrev pub sym_32 : Members
sym_32 = word ∷ word ∷ word ∷ u8 ∷ u8 ∷ half ∷ []

abbrev pub sym_64 : Members
sym_64 = word ∷ u8 ∷ u8 ∷ half ∷ xword ∷ xword ∷ []

abbrev pub rel_32 : Members
rel_32 = word ∷ word ∷ []

abbrev pub rela_32 : Members
rela_32 = word ∷ word ∷ word ∷ []

abbrev pub rel_64 : Members
rel_64 = xword ∷ xword ∷ []

abbrev pub rela_64 : Members
rela_64 = xword ∷ xword ∷ xword ∷ []

abbrev round_up : ℕ → ℕ → ℕ
round_up at size = (at + size - 1) / size * size

abbrev place_from : ℕ → Members → ℕ → ℕ
place_from at [] index = at
place_from at (member ∷ members) zero = round_up at member.1
place_from at (member ∷ members) (suc index) =
    place_from (round_up at member.1 + member.0 * member.1) members index

-- offsetof, by the member's place in the list.
abbrev pub place : Members → ℕ → ℕ
place members index = place_from 0 members index

-- The size of the member's type.
abbrev pub width : Members → ℕ → ℕ
width [] index = 0
width (member ∷ members) zero = member.1
width (member ∷ members) (suc index) = width members index

abbrev end_from : ℕ → Members → ℕ
end_from at [] = at
end_from at (member ∷ members) = end_from (round_up at member.1 + member.0 * member.1) members

abbrev widest : Members → ℕ
widest [] = 1
widest (member ∷ members) = max member.1 (widest members)

-- sizeof.
abbrev pub size_of_struct : Members → ℕ
size_of_struct members = round_up (end_from 0 members) (widest members)
