-- ===== src/Elf/Dynamic/Names.antt =====
-- symbolByIndex and stringByOffset of source/DasHLE/Binary/ELF.cpp: the name of a symbol.
use das_hle.Base.{
  ℕ, zero, suc, ◌+◌, ◌*◌, ◌≡◌, ◌≢◌, refl, sym, subst, ap, false, Bool-cases, inl, inr,
  if◌then◌else◌, ◌==◌, List, [], ◌∷◌, drop, get_elem?, some, none, ok, err, not_found,
  invalid_index, undefined, >>=-eq-ok, arith, Option-cases,
}
use das_hle.Elf.{Elf, Poly}
use das_hle.Elf.Read.{dyn_val, symbol_name, until_nul}
use das_hle.Elf.Dynamic.{is_64_bits, symbol_by_index, string_by_offset}

-- The characters from a place of the file on up to a NUL.
abbrev pub IsText : List ℕ → ℕ → List ℕ → Type 0
IsText buffer at [] = get_elem? buffer at ≡ some 0
IsText buffer at (c ∷ cs) = (get_elem? buffer at ≡ some c) × (c ≢ 0) × IsText buffer (suc at) cs

-- The name of the symbol of a number above 0, by the tables of symbols and of strings.
pub record IsNamed (elf : Elf) (index : ℕ) (name : List ℕ) : Type 0 where
  pub not_first : index ≢ 0
  pub symbols : Poly
  pub has_symbols : elf.sym_tab ≡ some symbols
  pub symbols_at : ℕ
  pub is_symbols_at : dyn_val elf.buffer symbols ≡ ok symbols_at
  pub offset : ℕ
  pub is_offset :
      symbol_name elf.buffer (record {
        is_64 = is_64_bits elf;
        at = symbols_at + index * (if is_64_bits elf then 24 else 16);
      })
      ≡ ok offset
  pub strings : Poly
  pub has_strings : elf.str_tab ≡ some strings
  pub strings_at : ℕ
  pub is_strings_at : dyn_val elf.buffer strings ≡ ok strings_at
  pub is_text : IsText elf.buffer (strings_at + offset) name

same_text : (a b : List ℕ) → ok a ≡ ok b → a ≡ b
same_text a b h = cc

IsText-there :
    (b : ℕ) (bytes : List ℕ) (at : ℕ) (cs : List ℕ)
    → IsText bytes at cs
    → IsText (b ∷ bytes) (suc at) cs
IsText-there b bytes at [] h = h
IsText-there b bytes at (c ∷ cs) (e, ne, h) = (e, ne, IsText-there b bytes (suc at) cs h)

IsText-back :
    (b : ℕ) (bytes : List ℕ) (at : ℕ) (cs : List ℕ)
    → IsText (b ∷ bytes) (suc at) cs
    → IsText bytes at cs
IsText-back b bytes at [] h = h
IsText-back b bytes at (c ∷ cs) (e, ne, h) = (e, ne, IsText-back b bytes (suc at) cs h)

-- From the front.
until_nul-IsText : (bytes cs : List ℕ) → until_nul bytes ≡ ok cs → IsText bytes 0 cs
unfolding until_nul
until_nul-IsText [] cs h = let clash : undefined ≡ ok cs = h in absurd (cc)
until_nul-IsText (zero ∷ bytes) cs h = subst (IsText (0 ∷ bytes) 0) (same_text [] cs h) refl
until_nul-IsText (suc b ∷ bytes) cs h =
    let (rest, e, k) = >>=-eq-ok (until_nul bytes) _ h in
    subst (IsText (suc b ∷ bytes) 0) (same_text (suc b ∷ rest) cs k)
      (refl, omega arith, IsText-there (suc b) bytes 0 rest (until_nul-IsText bytes rest e))

IsText-until_nul : (bytes cs : List ℕ) → IsText bytes 0 cs → until_nul bytes ≡ ok cs
unfolding until_nul
IsText-until_nul [] [] h = cc
IsText-until_nul [] (c ∷ cs) (e, ne, h) = cc
IsText-until_nul (zero ∷ bytes) [] h = refl
IsText-until_nul (zero ∷ bytes) (c ∷ cs) (e, ne, h) =
    let zero_is : c ≡ 0 = cc in absurd (ne zero_is)
IsText-until_nul (suc b ∷ bytes) [] h = let clash : suc b ≡ 0 = cc in absurd (omega (arith, clash))
IsText-until_nul (suc b ∷ bytes) (c ∷ cs) (e, ne, h) =
    let same : suc b ≡ c = cc in
    rw (IsText-until_nul bytes cs (IsText-back (suc b) bytes 0 cs h)) (ap (λ x. ok (x ∷ cs)) same)

drop-IsText : (n : ℕ) (bytes cs : List ℕ) → IsText (drop n bytes) 0 cs → IsText bytes n cs
drop-IsText zero bytes cs h = h
drop-IsText (suc n) [] [] h = let clash : none ≡ some 0 = h in absurd (cc)
drop-IsText (suc n) [] (c ∷ cs) (e, ne, h) = absurd (cc)
drop-IsText (suc n) (b ∷ bytes) cs h = IsText-there b bytes n cs (drop-IsText n bytes cs h)

IsText-drop : (n : ℕ) (bytes cs : List ℕ) → IsText bytes n cs → IsText (drop n bytes) 0 cs
IsText-drop zero bytes cs h = h
IsText-drop (suc n) [] [] h = absurd (cc)
IsText-drop (suc n) [] (c ∷ cs) (e, ne, h) = absurd (cc)
IsText-drop (suc n) (b ∷ bytes) cs h = IsText-drop n bytes cs (IsText-back b bytes n cs h)

same_poly : (a b : Poly) → ok a ≡ ok b → a ≡ b
same_poly a b h = cc

module _ (elf : Elf) (index : ℕ) where
  abbrev symbol_at : ℕ → Poly
  symbol_at base = record {
    is_64 = is_64_bits elf;
    at = base + index * (if is_64_bits elf then 24 else 16);
  }

  -- What symbolByIndex finds.
  symbol-found :
      (entry : Poly)
      → symbol_by_index index elf ≡ ok entry
      → (index ≢ 0)
        × ((symbols : Poly) × (elf.sym_tab ≡ some symbols)
            × ((base : ℕ) × (dyn_val elf.buffer symbols ≡ ok base) × (symbol_at base ≡ entry)))
  unfolding symbol_by_index
  symbol-found entry h = elim (Bool-cases (index == 0)) [
    | inl z ↦ let clash : err invalid_index ≡ ok entry = rw z at h in absurd (cc)
    | inr z ↦ elim (Option-cases elf.sym_tab) [
      | inl e ↦ let clash : err not_found ≡ ok entry = rw (z, e) at h in absurd (cc)
      | inr (symbols, e) ↦
          let (base, p, k) = >>=-eq-ok (dyn_val elf.buffer symbols) _ (rw (z, e) at h) in
          (ground arith, (symbols, e, (base, p, same_poly (symbol_at base) entry k)))
    ]
  ]

  -- What stringByOffset finds.
  string-found :
      (offset : ℕ) (name : List ℕ)
      → string_by_offset offset elf ≡ ok name
      → (strings : Poly) × (elf.str_tab ≡ some strings)
        × ((base : ℕ) × (dyn_val elf.buffer strings ≡ ok base)
            × IsText elf.buffer (base + offset) name)
  unfolding string_by_offset
  string-found offset name h = elim (Option-cases elf.str_tab) [
    | inl e ↦ let clash : err not_found ≡ ok name = rw e at h in absurd (cc)
    | inr (strings, e) ↦
        let (base, p, k) = >>=-eq-ok (dyn_val elf.buffer strings) _ (rw e at h) in
        (
          strings,
          e,
          (
            base,
            p,
            drop-IsText (base + offset) elf.buffer name
                (until_nul-IsText (drop (base + offset) elf.buffer) name k),
          ),
        )
  ]

  pub reads-IsNamed :
      (entry : Poly) (offset : ℕ) (name : List ℕ)
      → symbol_by_index index elf ≡ ok entry
      → symbol_name elf.buffer entry ≡ ok offset
      → string_by_offset offset elf ≡ ok name
      → IsNamed elf index name
  reads-IsNamed entry offset name h k l =
      let (ne, (symbols, e, (base, p, same))) = symbol-found entry h in
      let (strings, f, (start, q, text)) = string-found offset name l in
      record {
        not_first = ne;
        symbols = symbols;
        has_symbols = e;
        symbols_at = base;
        is_symbols_at = p;
        offset = offset;
        is_offset = subst (λ x. symbol_name elf.buffer x ≡ ok offset) (sym same) k;
        strings = strings;
        has_strings = f;
        strings_at = start;
        is_strings_at = q;
        is_text = text;
      }

  pub IsNamed-symbol :
      (name : List ℕ) (n : IsNamed elf index name)
      → symbol_by_index index elf ≡ ok (symbol_at n.symbols_at)
  unfolding symbol_by_index is_64_bits
  IsNamed-symbol name n =
      let above : (index == 0) ≡ false = not_zero index n.not_first in
      rw (above, n.has_symbols, n.is_symbols_at) refl
    where
      not_zero : (i : ℕ) → i ≢ 0 → (i == 0) ≡ false
      not_zero i ne = ground arith

  pub IsNamed-string :
      (name : List ℕ) (n : IsNamed elf index name) → string_by_offset n.offset elf ≡ ok name
  unfolding string_by_offset
  IsNamed-string name n =
      rw (n.has_strings, n.is_strings_at)
        (IsText-until_nul (drop (n.strings_at + n.offset) elf.buffer) name
          (IsText-drop (n.strings_at + n.offset) elf.buffer name n.is_text))
