-- ===== src/Elf/Parse/Class.antt =====
-- The class that ELF::parse of source/DasHLE/Binary/ELF.cpp takes from the header.
use das_hle.Base.{
  ℕ, ◌≤◌, ◌<◌, ◌≡◌, refl, sym, ap, ◌∙◌, ◌↔◌, ◌⊎◌, inl, inr, Bool, true, false, Bool-cases, ltb,
  ◌==◌, List, [], ◌∷◌, length, get_elem?, some, ok, err, invalid_size, arith,
}
use das_hle.Elf.{Poly}
use das_hle.Elf.Read.{ident, field, read, read_le}
use das_hle.Elf.Layout.{size_of_struct, ehdr_32}
use das_hle.Elf.Parse.{header_of}

-- The header at the start of a file with room for an Ehdr32, of 52 bytes: it is read in the 64-bit
-- format exactly if the file's fifth byte is 2, ELFCLASS64.
pub record TakesClass (buffer : List ℕ) (header : Poly) : Type 0 where
  pub has_room : 52 ≤ length buffer
  pub at_start : header.at ≡ 0
  pub by_class : (header.is_64 ≡ true) ↔ (get_elem? buffer 4 ≡ some 2)

class_byte :
    (buffer : List ℕ)
    → 52 ≤ length buffer
    → (class : ℕ) × (get_elem? buffer 4 ≡ some class)
      × (ident buffer (record { is_64 = false; at = 0 }) 4 ≡ ok class)
unfolding field read read_le
class_byte [] h = absurd (omega arith)
class_byte (a ∷ []) h = absurd (omega arith)
class_byte (a ∷ b ∷ []) h = absurd (omega arith)
class_byte (a ∷ b ∷ c ∷ []) h = absurd (omega arith)
class_byte (a ∷ b ∷ c ∷ d ∷ []) h = absurd (omega arith)
class_byte (a ∷ b ∷ c ∷ d ∷ e ∷ rest) h = (e, refl, ap ok (omega arith))

takes :
    (buffer : List ℕ) (class : ℕ)
    → 52 ≤ length buffer
    → ident buffer (record { is_64 = false; at = 0 }) 4 ≡ ok class
    → header_of buffer ≡ ok (record { is_64 = class == 2; at = 0 })
unfolding header_of
takes buffer class room e =
    let fits : ltb (length buffer) (size_of_struct ehdr_32) ≡ false = ground arith in
    rw (fits, e) refl

same_class : (class : ℕ) → ((class == 2) ≡ true) ↔ (some class ≡ some 2)
same_class class = (
  λ p. let two : class ≡ 2 = ground arith in ap some two,
  λ p. let two : class ≡ 2 = cc in ground arith,
)

-- With less than 52 bytes there is no header; else there is the one of the file's class.
pub header_of-TakesClass :
    (buffer : List ℕ)
    → ((length buffer < 52) × (header_of buffer ≡ err invalid_size))
      ⊎ ((bits64 : Bool) × (header_of buffer ≡ ok (record { is_64 = bits64; at = 0 }))
          × TakesClass buffer (record { is_64 = bits64; at = 0 }))
unfolding header_of
header_of-TakesClass buffer = elim (Bool-cases (ltb (length buffer) (size_of_struct ehdr_32))) [
  | inl p ↦ inl (ground arith, rw p refl)
  | inr p ↦
      let room : 52 ≤ length buffer = ground arith in
      let (class, byte, e) = class_byte buffer room in
      let (there, back) = same_class class in
      inr (
        class == 2,
        takes buffer class room e,
        record {
          has_room = room;
          at_start = refl;
          by_class = (λ q. byte ∙ there q, λ q. back (sym byte ∙ q));
        },
      )
]

-- The class decides the header.
pub TakesClass-header_of :
    (buffer : List ℕ) (header : Poly) → TakesClass buffer header → header_of buffer ≡ ok header
TakesClass-header_of buffer header t =
    let (class, byte, e) = class_byte buffer t.has_room in
    let (there, back) = same_class class in
    takes buffer class t.has_room e ∙ (λ i. ok (record {
      is_64 =
          same_bool (class == 2) header.is_64 (λ q. t.by_class.1 (byte ∙ there q))
            (λ q. back (sym byte ∙ t.by_class.0 q)) i;
      at = sym t.at_start i;
    }))
  where
    same_bool : (a b : Bool) → (a ≡ true → b ≡ true) → (b ≡ true → a ≡ true) → a ≡ b
    same_bool true b f g = sym (f refl)
    same_bool false true f g = g refl
    same_bool false false f g = refl
