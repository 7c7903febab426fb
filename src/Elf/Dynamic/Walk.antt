-- ===== src/Elf/Dynamic/Walk.antt =====
-- The loop of dynEntriesWithTag of source/DasHLE/Binary/ELF.cpp over the dynamic entries, as a walk
-- from entry to entry.
use das_hle.Base.{
  ℕ, zero, suc, ◌+◌, ◌≤◌, ◌≡◌, ◌≢◌, refl, sym, ap, ◌∙◌, ◌⊎◌, inl, inr, Bool, true, false,
  Bool-cases, if◌then◌else◌, ◌==◌, eq_refl, List, [], ◌∷◌, length, Outcome, ok, undefined, ◌>>=◌,
  arith,
}
use das_hle.Elf.{Poly}
use das_hle.Elf.Read.{dyn_tag}
use das_hle.Elf.Dynamic.{dyn_entries_from, dyn_size}
use das_hle.Elf.Dynamic.Reads.{field-IsRead}
use das_hle.Elf.Dynamic.Laws.{dyn_tag-past}

-- The dynamic entry at a place, and the place of the next one.
abbrev pub entry_at : Bool → ℕ → Poly
entry_at is_64 at = record { is_64 = is_64; at = at }

abbrev pub next_at : Bool → ℕ → ℕ
next_at is_64 at = at + (if is_64 then 16 else 8)

-- The entries from a place on end with a DT_NULL, and these before it, in their order, have the tag.
pub data Walk (buffer : List ℕ) (tag : ℕ) (is_64 : Bool) : ℕ → List Poly → Type 0 where
  ends : {at : ℕ} → dyn_tag buffer (entry_at is_64 at) ≡ ok 0 → Walk buffer tag is_64 at []
  has_tag :
      {at : ℕ} {rest : List Poly}
      → dyn_tag buffer (entry_at is_64 at) ≡ ok tag
      → tag ≢ 0
      → Walk buffer tag is_64 (next_at is_64 at) rest
      → Walk buffer tag is_64 at (entry_at is_64 at ∷ rest)
  other_tag :
      {at : ℕ} {rest : List Poly} (t : ℕ)
      → dyn_tag buffer (entry_at is_64 at) ≡ ok t
      → t ≢ 0
      → t ≢ tag
      → Walk buffer tag is_64 (next_at is_64 at) rest
      → Walk buffer tag is_64 at rest

-- The entries from a place on go past the end of the file before there is a DT_NULL.
pub data RunsOff (buffer : List ℕ) (is_64 : Bool) : ℕ → Type 0 where
  past_end : {at : ℕ} → dyn_tag buffer (entry_at is_64 at) ≡ undefined → RunsOff buffer is_64 at
  later :
      {at : ℕ} (t : ℕ)
      → dyn_tag buffer (entry_at is_64 at) ≡ ok t
      → t ≢ 0
      → RunsOff buffer is_64 (next_at is_64 at)
      → RunsOff buffer is_64 at

next_at-size : (is_64 : Bool) (at : ℕ) → at + dyn_size is_64 ≡ next_at is_64 at
unfolding dyn_size
next_at-size true at = refl
next_at-size false at = refl

moves : (is_64 : Bool) (at : ℕ) → at + 1 ≤ next_at is_64 at
moves true at = omega arith
moves false at = omega arith

module _ (buffer : List ℕ) (tag fuel : ℕ) (is_64 : Bool) (at : ℕ) where
  from_next : Outcome (List Poly)
  from_next = dyn_entries_from buffer tag fuel is_64 (next_at is_64 at)

  -- What a step adds to the entries behind it, by its two tests.
  abbrev step : Bool → Bool → Outcome (List Poly) → Outcome (List Poly)
  step null matches more = elim null [
    | true ↦ ok []
    | false ↦ do rest ← more; ok (if matches then entry_at is_64 at ∷ rest else rest)
  ]

  steps :
      (t : ℕ)
      → dyn_tag buffer (entry_at is_64 at) ≡ ok t
      → dyn_entries_from buffer tag (suc fuel) is_64 at ≡ step (t == 0) (t == tag) from_next
  unfolding dyn_entries_from from_next
  steps t e =
      rw (e, ◌>>=◌)
        (ap (λ x. step (t == 0) (t == tag) (dyn_entries_from buffer tag fuel is_64 x))
          (next_at-size is_64 at))

  reads_past :
      dyn_tag buffer (entry_at is_64 at) ≡ undefined
      → dyn_entries_from buffer tag (suc fuel) is_64 at ≡ undefined
  unfolding dyn_entries_from
  reads_past e = rw e refl

-- What a loop comes to.
abbrev Walks : List ℕ → ℕ → Bool → ℕ → Outcome (List Poly) → Type 0
Walks buffer tag is_64 at result =
    ((entries : List Poly) × Walk buffer tag is_64 at entries × (result ≡ ok entries))
    ⊎ (RunsOff buffer is_64 at × (result ≡ undefined))

module _ (buffer : List ℕ) (tag : ℕ) (is_64 : Bool) where
  -- A step from an entry that is no DT_NULL.
  goes_on :
      (fuel at t : ℕ)
      → dyn_tag buffer (entry_at is_64 at) ≡ ok t
      → t ≢ 0
      → Walks buffer tag is_64 (next_at is_64 at) (from_next buffer tag fuel is_64 at)
      → Walks buffer tag is_64 at (dyn_entries_from buffer tag (suc fuel) is_64 at)
  goes_on fuel at t e ne (inr (off, q)) =
      let not_null : (t == 0) ≡ false = ground arith in
      inr (
        RunsOff.later t e ne off,
        steps buffer tag fuel is_64 at t e
            ∙ (λ i. step buffer tag fuel is_64 at (not_null i) (t == tag) (q i)),
      )
  goes_on fuel at t e ne (inl (rest, walk, q)) =
      let not_null : (t == 0) ≡ false = ground arith in
      elim (Bool-cases (t == tag)) [
        | inl p ↦
            let same : t ≡ tag = ground arith in
            inl (
              entry_at is_64 at ∷ rest,
              Walk.has_tag (e ∙ ap ok same) (λ z. ne (same ∙ z)) walk,
              steps buffer tag fuel is_64 at t e
                  ∙ (λ i. step buffer tag fuel is_64 at (not_null i) (p i) (q i)),
            )
        | inr p ↦
            let other : t ≢ tag = ground arith in
            inl (
              rest,
              Walk.other_tag t e ne other walk,
              steps buffer tag fuel is_64 at t e
                  ∙ (λ i. step buffer tag fuel is_64 at (not_null i) (p i) (q i)),
            )
      ]

  loop-Walks :
      (fuel at : ℕ)
      → length buffer ≤ at + fuel
      → Walks buffer tag is_64 at (dyn_entries_from buffer tag fuel is_64 at)
  unfolding from_next
  loop-Walks zero at h = inr (
    RunsOff.past_end (dyn_tag-past buffer is_64 at (omega arith)),
    unfold dyn_entries_from in refl,
  )
  loop-Walks (suc fuel) at h = elim (field-IsRead 0 4 0 8 buffer (entry_at is_64 at)) [
    | inr e ↦ inr (RunsOff.past_end e, reads_past buffer tag fuel is_64 at e)
    | inl (t, e) ↦ elim (Bool-cases (t == 0)) [
      | inl z ↦
          let null : t ≡ 0 = ground arith in
          inl (
            [],
            Walk.ends (e ∙ ap ok null),
            steps buffer tag fuel is_64 at t e ∙ (λ i.
                step buffer tag fuel is_64 at (z i) (t == tag)
                  (from_next buffer tag fuel is_64 at)),
          )
      | inr z ↦
          goes_on fuel at t e (ground arith)
            (loop-Walks fuel (next_at is_64 at) (omega (arith, moves is_64 at)))
    ]
  ]

  -- The loop over the dynamic entries ends: with at least as much fuel as the buffer is long, from any
  -- address, either the entries from there on come to a DT_NULL, and the loop returns those before it
  -- that have the tag, in their order, or they go past the end of the buffer before that, and the loop
  -- does the read past the end, which is undefined. No run ends for want of fuel.
  pub dyn_entries_from-Walks :
      (fuel at : ℕ)
      → length buffer ≤ fuel
      → ((entries : List Poly) × Walk buffer tag is_64 at entries
          × (dyn_entries_from buffer tag fuel is_64 at ≡ ok entries))
        ⊎ (RunsOff buffer is_64 at × (dyn_entries_from buffer tag fuel is_64 at ≡ undefined))
  dyn_entries_from-Walks fuel at h = loop-Walks fuel at (omega arith)

  no_fuel : (at t : ℕ) → dyn_tag buffer (entry_at is_64 at) ≡ ok t → length buffer ≤ at → ⊥
  no_fuel at t e h = not_both (sym e ∙ dyn_tag-past buffer is_64 at h)
    where
      not_both : ok t ≡ undefined → ⊥
      not_both q = cc

  -- A walk is what the loop returns.
  pub Walk-returns :
      (fuel at : ℕ) (entries : List Poly)
      → Walk buffer tag is_64 at entries
      → length buffer ≤ at + fuel
      → dyn_entries_from buffer tag fuel is_64 at ≡ ok entries
  unfolding from_next
  Walk-returns zero at entries (ends e) h = absurd (no_fuel at 0 e (omega arith))
  Walk-returns zero at _ (has_tag e ne walk) h = absurd (no_fuel at tag e (omega arith))
  Walk-returns zero at entries (other_tag t e ne other walk) h =
      absurd (no_fuel at t e (omega arith))
  Walk-returns (suc fuel) at _ (ends e) h = steps buffer tag fuel is_64 at 0 e
  Walk-returns (suc fuel) at _ (has_tag {rest = rest} e ne walk) h =
      let not_null : (tag == 0) ≡ false = ground arith in
      let q = Walk-returns fuel (next_at is_64 at) rest walk (omega (arith, moves is_64 at)) in
      steps buffer tag fuel is_64 at tag e
      ∙ (λ i. step buffer tag fuel is_64 at (not_null i) (eq_refl tag i) (q i))
  Walk-returns (suc fuel) at entries (other_tag t e ne other walk) h =
      let not_null : (t == 0) ≡ false = ground arith in
      let not_tag : (t == tag) ≡ false = ground arith in
      let q = Walk-returns fuel (next_at is_64 at) entries walk (omega (arith, moves is_64 at)) in
      steps buffer tag fuel is_64 at t e
      ∙ (λ i. step buffer tag fuel is_64 at (not_null i) (not_tag i) (q i))
