-- ===== src/Bridge/Register.antt =====
-- registerFunction of source/DasHLE/Host/Bridge.h and Bridge.cpp.
use native.Mathlib.Decide.{ℕ_discrete}
use das_hle.Base.{
  ℕ, suc, ◌*◌, ◌<◌, ◌≡◌, ◌≢◌, refl, sym, ap, subst, ◌∙◌, ◌⊎◌, inl, inr, true, false, length, List,
  [], ◌∷◌, some, none, ok, err, arith, duplicate, Option-cases,
}
use das_hle.Word.{word}
use das_hle.HashMap.{lookup, put}
use das_hle.HashMap.Laws.{lookup-put, lookup-put_other}
use das_hle.Bridge.{Bridge, Emitter, has_built_ift, has_symbol, table_size, register_function_impl}
use das_hle.Bridge.Table.{put-IsTable, lookup-table}
use das_hle.Bridge.Laws.{IsOpen}

length-put :
    {S : Type 0} (same : Discrete S) (s : S) (v : ℕ) (fs : List (S × ℕ))
    → lookup same s fs ≡ none
    → length (put same s v fs) ≡ suc (length fs)
unfolding lookup put
length-put same s v [] h = refl
length-put same s v ((k, w) ∷ fs) h = ground (arith, length-put same s v fs)

-- The function e is registered under the name s.
pub record IsRegistered {S H I J : Type 0} (same : Discrete S) (s : S) (e : Emitter I J)
    (b : Bridge S H I J) : Type 0 where
  pub place : ℕ
  pub entry : lookup same s b.func_entries ≡ some place
  pub emitter : lookup ℕ_discrete place b.emitters ≡ some e

-- What registering e under s does to a bridge: the name and its emitter stand at the end of the table,
-- and the places of all other names, the emitters at all other places and the rest of the bridge stay.
pub record Registered {S H I J : Type 0} (same : Discrete S) (s : S) (e : Emitter I J)
    (b c : Bridge S H I J) : Type 0 where
  pub is_open : IsOpen c
  pub one_more : length c.func_entries ≡ suc (length b.func_entries)
  pub at_end : lookup same s c.func_entries ≡ some (length b.func_entries * 4)
  pub emitter_at_end : lookup ℕ_discrete (length b.func_entries * 4) c.emitters ≡ some e
  pub other_names : (t : S) → t ≢ s → lookup same t c.func_entries ≡ lookup same t b.func_entries
  pub other_places :
      (place : ℕ)
      → place ≢ length b.func_entries * 4
      → lookup ℕ_discrete place c.emitters ≡ lookup ℕ_discrete place b.emitters
  pub others : (t : S) (f : Emitter I J) → IsRegistered same t f b → IsRegistered same t f c
  pub same_mem : c.mem ≡ b.mem
  pub same_vars : c.var_entries ≡ b.var_entries
  pub same_bitness : c.bitness ≡ b.bitness

-- The name is one of a function or of a variable.
abbrev pub IsKnown : {S H I J : Type 0} → Discrete S → S → Bridge S H I J → Type 0
IsKnown same s b =
    ((v : ℕ) × (lookup same s b.func_entries ≡ some v))
    ⊎ ((v : ℕ) × (lookup same s b.var_entries ≡ some v))

module _ {S H I J : Type 0} (same : Discrete S) (s : S) (b : Bridge S H I J) where
  IsKnown-cases :
      ((has_symbol same s b ≡ true) × IsKnown same s b)
      ⊎ ((has_symbol same s b ≡ false)
          × (lookup same s b.func_entries ≡ none)
          × (lookup same s b.var_entries ≡ none))
  unfolding has_symbol
  IsKnown-cases = elim (Option-cases (lookup same s b.func_entries)) [
    | inr (v, e) ↦ inl (rw e refl, inl (v, e))
    | inl e ↦ elim (Option-cases (lookup same s b.var_entries)) [
      | inr (v, f) ↦ inl (rw (e, f) refl, inr (v, f))
      | inl f ↦ inr (rw (e, f) refl, e, f)
    ]
  ]

  unknown :
      lookup same s b.func_entries ≡ none → lookup same s b.var_entries ≡ none → ¬ IsKnown same s b
  unknown nf nv (inl (v, e)) = let clash : none ≡ some v = sym nf ∙ e in cc
  unknown nf nv (inr (v, e)) = let clash : none ≡ some v = sym nv ∙ e in cc

  -- The bridge with the new entry.
  with_function : Emitter I J → Bridge S H I J
  with_function e = record b {
    func_entries = put same s (table_size b.func_entries) b.func_entries;
    emitters = put ℕ_discrete (table_size b.func_entries) e b.emitters;
  }

  place_is : IsOpen b → table_size b.func_entries ≡ length b.func_entries * 4
  unfolding table_size
  place_is o = omega (arith, o.fits)

  with_function-IsRegistered :
      (e : Emitter I J) (t : S) (f : Emitter I J)
      → IsOpen b
      → lookup same s b.func_entries ≡ none
      → IsRegistered same t f b
      → IsRegistered same t f (with_function e)
  unfolding with_function
  with_function-IsRegistered e t f o nf r = record {
    place = r.place;
    entry =
        lookup-put_other same t s (table_size b.func_entries) b.func_entries (λ q.
          let clash : none ≡ some r.place =
            sym nf ∙ subst (λ x. lookup same x b.func_entries ≡ some r.place) q r.entry in
          cc)
        ∙ r.entry;
    emitter =
        lookup-put_other ℕ_discrete r.place (table_size b.func_entries) e b.emitters (λ q. omega (
          arith,
          place_is o,
          (lookup-table same t r.place 0 b.func_entries b.emitters o.table r.entry).1,
        ))
        ∙ r.emitter;
  }

  with_function-Registered :
      (e : Emitter I J)
      → IsOpen b
      → suc (length b.func_entries) * 4 < word
      → lookup same s b.func_entries ≡ none
      → Registered same s e b (with_function e)
  unfolding with_function
  with_function-Registered e o room nf = record {
    is_open = record {
      unbuilt = o.unbuilt;
      table =
          put-IsTable same s e 0 (table_size b.func_entries) b.func_entries b.emitters o.table nf
            (omega (arith, place_is o));
      fits = omega (arith, length-put same s (table_size b.func_entries) b.func_entries nf);
    };
    one_more = length-put same s (table_size b.func_entries) b.func_entries nf;
    at_end = lookup-put same s (table_size b.func_entries) b.func_entries ∙ ap some (place_is o);
    emitter_at_end =
        subst
          (λ p.
            lookup ℕ_discrete p (put ℕ_discrete (table_size b.func_entries) e b.emitters) ≡ some e)
          (place_is o) (lookup-put ℕ_discrete (table_size b.func_entries) e b.emitters);
    other_names = λ t ne. lookup-put_other same t s (table_size b.func_entries) b.func_entries ne;
    other_places = λ p ne.
        lookup-put_other ℕ_discrete p (table_size b.func_entries) e b.emitters
          (λ q. ne (q ∙ place_is o));
    others = λ t f r. with_function-IsRegistered e t f o nf r;
    same_mem = refl;
    same_vars = refl;
    same_bitness = refl;
  }

  duplicates :
      (e : Emitter I J)
      → b.ift_base ≡ 0
      → has_symbol same s b ≡ true
      → register_function_impl same s e b ≡ (err duplicate, b)
  unfolding register_function_impl has_built_ift
  duplicates e z h = ground arith

  registers :
      (e : Emitter I J)
      → b.ift_base ≡ 0
      → has_symbol same s b ≡ false
      → register_function_impl same s e b ≡ (ok tt, with_function e)
  unfolding register_function_impl has_built_ift with_function
  registers e z h = ground arith

  -- registerFunctionImpl on a bridge that is not built and whose table has room for one more entry
  -- below 2 ^ 64: a name that is known already is an error and changes nothing; a new name gets the
  -- place at the end of the table, with its emitter, and the places of all other names, the emitters at
  -- all other places, the variables and the memory manager stay.
  pub register_function_impl_lem :
      (e : Emitter I J)
      → IsOpen b
      → suc (length b.func_entries) * 4 < word
      → (IsKnown same s b × (register_function_impl same s e b ≡ (err duplicate, b)))
        ⊎ (let r = register_function_impl same s e b in
            ¬ IsKnown same s b × (r.0 ≡ ok tt) × Registered same s e b r.1)
  register_function_impl_lem e o room = elim IsKnown-cases [
    | inl (h, k) ↦ inl (k, duplicates e o.unbuilt h)
    | inr (h, nf, nv) ↦ inr (
      unknown nf nv,
      rw (registers e o.unbuilt h) refl,
      rw (registers e o.unbuilt h) (with_function-Registered e o room nf),
    )
  ]
