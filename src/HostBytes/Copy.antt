-- ===== src/HostBytes/Copy.antt =====
-- What std::copy leaves in the host's memory.
use das_hle.Base.{
  ℕ, zero, suc, ◌+◌, ◌≤◌, ◌<◌, ◌≡◌, refl, ap, ◌∙◌, ◌⊎◌, inl, List, [], ◌∷◌, length, take, drop,
  get_elem?, some, arith, eq_refl,
}
use das_hle.HostBytes.{Bytes, set_byte, copy_to}

pub copy_to-elsewhere :
    (addr x : ℕ) (content : List ℕ) (bytes : Bytes)
    → (x < addr) ⊎ (addr + length content ≤ x)
    → copy_to addr content bytes x ≡ bytes x
unfolding copy_to
copy_to-elsewhere addr x [] bytes h = refl
copy_to-elsewhere addr x (c ∷ cs) bytes h =
    ground (arith, copy_to-elsewhere (addr + 1) x cs (set_byte addr c bytes))

pub copy_to-at :
    (addr i c : ℕ) (content : List ℕ) (bytes : Bytes)
    → get_elem? content i ≡ some c
    → copy_to addr content bytes (addr + i) ≡ c
unfolding copy_to
copy_to-at addr i c [] bytes h = cc
copy_to-at addr zero c (d ∷ ds) bytes h =
    let same : d ≡ c = cc in
    let here : set_byte addr d bytes (addr + 0) ≡ d = ground (arith, eq_refl (addr + 0)) in
    copy_to-elsewhere (addr + 1) (addr + 0) ds (set_byte addr d bytes) (inl (omega arith))
    ∙ here
    ∙ same
copy_to-at addr (suc i) c (d ∷ ds) bytes h =
    ap (copy_to (addr + 1) ds (set_byte addr d bytes)) (omega arith)
    ∙ copy_to-at (addr + 1) i c ds (set_byte addr d bytes) h

-- The part of a list from an offset on.
pub get_elem?-slice :
    (size offset i : ℕ) (buffer : List ℕ)
    → i < size
    → get_elem? (take size (drop offset buffer)) i ≡ get_elem? buffer (offset + i)
get_elem?-slice size zero i buffer h =
    from_start size i buffer h ∙ ap (get_elem? buffer) (omega arith)
  where
    from_start :
        (size i : ℕ) (buffer : List ℕ)
        → i < size
        → get_elem? (take size buffer) i ≡ get_elem? buffer i
    from_start zero i buffer h = absurd (omega arith)
    from_start (suc size) i [] h = refl
    from_start (suc size) zero (b ∷ bs) h = refl
    from_start (suc size) (suc i) (b ∷ bs) h = from_start size i bs (omega arith)
get_elem?-slice zero (suc offset) i [] h = refl
get_elem?-slice (suc size) (suc offset) i [] h = refl
get_elem?-slice size (suc offset) i (b ∷ bs) h =
    let later : suc (offset + i) ≡ suc offset + i = omega arith in
    get_elem?-slice size offset i bs h ∙ ap (get_elem? (b ∷ bs)) later

pub length-take_le : (size : ℕ) (xs : List ℕ) → length (take size xs) ≤ size
length-take_le zero xs = omega arith
length-take_le (suc size) [] = omega arith
length-take_le (suc size) (x ∷ xs) = omega (arith, length-take_le size xs)
