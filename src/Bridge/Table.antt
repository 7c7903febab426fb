-- ===== src/Bridge/Table.antt =====
-- The table of pseudo addresses in source/DasHLE/Host/Bridge.cpp: the entries stand one after the
-- other, each with its emitter, and moving the table moves every one of them.
use native.Mathlib.Decide.{ℕ_discrete}
use das_hle.Base.{
  ℕ, ◌+◌, ◌*◌, ◌≤◌, ◌<◌, ◌≡◌, ◌≢◌, ◌∙◌, sym, List, [], ◌∷◌, length, some, none, arith,
}
use das_hle.Word.{word, add64, add64_lem}
use das_hle.HashMap.{lookup, put, put_new}
use das_hle.HashMap.Laws.{
  lookup-here, lookup-there, lookup-put_new_kept, lookup-put_new_other, lookup-put_new_added,
  put-there,
}
use das_hle.Bridge.{rebase, rebase_emitters, entry_size}

-- The entries from `addr` on, and their emitters.
abbrev pub IsTable : {S E : Type 0} → ℕ → List (S × ℕ) → List (ℕ × E) → Type 0
IsTable addr [] [] = Unit
IsTable addr [] (e ∷ es) = ⊥
IsTable addr (f ∷ fs) [] = ⊥
IsTable addr (f ∷ fs) (e ∷ es) = (f.1 ≡ addr) × (e.0 ≡ addr) × IsTable (addr + entry_size) fs es

-- Every address of the table ends below the bound.
abbrev pub KeysBelow : {E : Type 0} → ℕ → List (ℕ × E) → Type 0
KeysBelow bound [] = Unit
KeysBelow bound (e ∷ es) = (e.0 < bound) × KeysBelow bound es

pub table-KeysBelow :
    {S E : Type 0} (addr bound : ℕ) (fs : List (S × ℕ)) (es : List (ℕ × E))
    → IsTable addr fs es
    → addr + length fs * 4 ≤ bound
    → KeysBelow bound es
table-KeysBelow addr bound [] [] t h = tt
table-KeysBelow addr bound [] (e ∷ es) t h = elim t [ ]
table-KeysBelow addr bound (f ∷ fs) [] t h = elim t [ ]
table-KeysBelow addr bound (f ∷ fs) (e ∷ es) t h =
    (omega (arith, t.1), table-KeysBelow (addr + 4) bound fs es t.2 (omega arith))

-- An entry's address lies in the table, at a multiple of the entry's size.
pub lookup-table :
    {S E : Type 0} (same : Discrete S) (s : S) (off addr : ℕ) (fs : List (S × ℕ))
    (es : List (ℕ × E))
    → IsTable addr fs es
    → lookup same s fs ≡ some off
    → (addr ≤ off) × (off + 4 ≤ addr + length fs * 4)
unfolding lookup
lookup-table same s off addr [] es t h = cc
lookup-table same s off addr (f ∷ fs) [] t h = elim t [ ]
lookup-table same s off addr ((k, v) ∷ fs) (e ∷ es) t h =
    ground (arith, lookup-table same s off (addr + 4) fs es t.2)

-- The symbols keep their entries, each moved by the base.
pub lookup-rebase :
    {S : Type 0} (same : Discrete S) (s : S) (base off : ℕ) (fs : List (S × ℕ))
    → lookup same s fs ≡ some off
    → lookup same s (rebase base fs) ≡ some (add64 off base)
unfolding lookup rebase
lookup-rebase same s base off [] h = cc
lookup-rebase same s base off ((k, v) ∷ fs) h = ground (arith, lookup-rebase same s base off fs)

-- The loop over the emitters keeps what it has moved.
lookup-rebase_kept :
    {E : Type 0} (q base : ℕ) (w : E) (es moved : List (ℕ × E))
    → lookup ℕ_discrete q moved ≡ some w
    → lookup ℕ_discrete q (rebase_emitters base es moved) ≡ some w
unfolding rebase_emitters
lookup-rebase_kept q base w [] moved h = h
lookup-rebase_kept q base w ((k, e) ∷ es) moved h =
    lookup-rebase_kept q base w es (put_new ℕ_discrete (add64 base k) e moved)
      (lookup-put_new_kept ℕ_discrete q (add64 base k) e w moved h)

-- The emitters keep theirs, where no address wraps.
pub lookup-rebase_emitters :
    {E : Type 0} (key base bound : ℕ) (w : E) (es moved : List (ℕ × E))
    → base + bound < word
    → KeysBelow bound es
    → lookup ℕ_discrete (base + key) moved ≡ none
    → lookup ℕ_discrete key es ≡ some w
    → lookup ℕ_discrete (base + key) (rebase_emitters base es moved) ≡ some w
unfolding rebase_emitters lookup
lookup-rebase_emitters key base bound w [] moved fits below absent h = cc
lookup-rebase_emitters key base bound w ((k, e) ∷ es) moved fits below absent h =
    elim (ℕ_discrete key k) [
      | yes p ↦
          lookup-rebase_kept (base + key) base w es (put_new ℕ_discrete (add64 base k) e moved) (
            rw (placed k p below.0) (
              lookup-put_new_added ℕ_discrete (base + key) e moved absent
              ∙ sym (lookup-here ℕ_discrete key k e es p)
              ∙ h))
      | no ne ↦
          lookup-rebase_emitters key base bound w es (put_new ℕ_discrete (add64 base k) e moved)
            fits below.1
            (lookup-put_new_other ℕ_discrete (base + key) (add64 base k) e moved
                (apart k ne below.0)
              ∙ absent)
            (sym (lookup-there ℕ_discrete key k e es ne) ∙ h)
    ]
  where
    placed : (k : ℕ) → key ≡ k → k < bound → add64 base k ≡ base + key
    placed k p lt = add64_lem base k (omega arith) ∙ omega arith

    apart : (k : ℕ) → key ≢ k → k < bound → base + key ≢ add64 base k
    apart k ne lt q = ne (omega (arith, add64_lem base k (omega arith)))

-- A new symbol takes the next place.
pub put-IsTable :
    {S E : Type 0} (same : Discrete S) (s : S) (e : E) (addr next : ℕ) (fs : List (S × ℕ))
    (es : List (ℕ × E))
    → IsTable addr fs es
    → lookup same s fs ≡ none
    → next ≡ addr + length fs * 4
    → IsTable addr (put same s next fs) (put ℕ_discrete next e es)
put-IsTable same s e addr next [] [] t h q = unfold put in (omega arith, omega arith, tt)
put-IsTable same s e addr next [] (x ∷ es) t h q = elim t [ ]
put-IsTable same s e addr next (f ∷ fs) [] t h q = elim t [ ]
put-IsTable same s e addr next ((k, v) ∷ fs) ((key, w) ∷ es) t h q = elim (same s k) [
  | yes p ↦ let clash : none ≡ some v = sym h ∙ lookup-here same s k v fs p in cc
  | no ne ↦
      rw
        (
          put-there same s k next v fs ne,
          put-there ℕ_discrete next key e w es (λ r. omega (arith, t.1)),
        )
        (
          t.0,
          t.1,
          put-IsTable same s e (addr + 4) next fs es t.2 (sym (lookup-there same s k v fs ne) ∙ h)
              (omega arith),
        )
]
