-- ===== src/Guest/Arm/Calls.antt =====
-- execute() of source/DasHLE/Guest/ARM/ARM.cpp.
use native.Mathlib.Decide.{ℕ_discrete}
use das_hle.Base.{
  ℕ, zero, suc, ◌≤◌, ◌<◌, ◌≡◌, ◌≢◌, refl, ◌∙◌, sym, ap, ◌⊎◌, inl, inr, ◌↔◌, Bool-cases, ==_iff,
  subst, true, false, ◌==◌, some, Outcome, ok, err, abort, arith,
}
use das_hle.Guest.Arm.{Jit, run_loop, enter, execute, reg_pc, vm_exec_success}

some-injective : {A : Type 0} {x y : A} → some x ≡ some y → x ≡ y
some-injective e = cc

module _ {J W : Type 0} (dynarmic : Jit J W) (end : ℕ) where
  -- Run() has come back in this state, and the loop goes on: no reason to halt, and not at the end.
  abbrev pub GoesOn : Outcome ℕ → J × W → Type 0
  GoesOn r t = (r ≡ ok vm_exec_success) × (dynarmic.reg reg_pc t.0 ≢ end)

  abbrev pub Stops : Outcome ℕ → J × W → Type 0
  Stops r t =
      ((reason : ℕ) → r ≡ ok reason → (reason ≢ vm_exec_success) ⊎ (dynarmic.reg reg_pc t.0 ≡ end))

  -- The runs that execute() makes from a state to where it returns.
  pub data Halts (r : Outcome ℕ) (t : J × W) : J × W → Type 0 where
    stops : (s : J × W) → dynarmic.run s.0 s.1 ≡ (r, t) → Stops r t → Halts r t s
    again :
        (s : J × W) (first : Outcome ℕ) (mid : J × W)
        → dynarmic.run s.0 s.1 ≡ (first, mid)
        → GoesOn first mid
        → Halts r t mid
        → Halts r t s

  not_both : (r : Outcome ℕ) (t : J × W) → GoesOn r t → Stops r t → ⊥
  not_both r t go stop = elim (stop vm_exec_success go.0) [ inl n ↦ n refl | inr here ↦ go.1 here ]

  abbrev outcome_of : Outcome ℕ × (J × W) → Outcome ℕ
  outcome_of q = q.0

  abbrev state_of : Outcome ℕ × (J × W) → J × W
  state_of q = q.1

  differs :
      (reason x : ℕ) → (reason == vm_exec_success) ≡ false → ok reason ≡ ok x → x ≢ vm_exec_success
  differs reason x other q p =
      let same : reason ≡ x = cc in
      let clash : true ≡ false = sym ((==_iff reason vm_exec_success).1 (same ∙ p)) ∙ other in cc

  -- One turn of the loop.
  turn :
      (fuel : ℕ) (s : J × W) (r : Outcome ℕ) (t : J × W)
      → dynarmic.run s.0 s.1 ≡ (r, t)
      → (GoesOn r t × (run_loop dynarmic end (suc fuel) s ≡ run_loop dynarmic end fuel t))
        ⊎ (Stops r t × (run_loop dynarmic end (suc fuel) s ≡ some (r, t)))
  unfolding run_loop
  turn fuel s (ok reason) t e =
      let outcome : (dynarmic.run s.0 s.1).0 ≡ ok reason = ap outcome_of e in
      let state : (dynarmic.run s.0 s.1).1 ≡ t = ap state_of e in
      elim (Bool-cases (dynarmic.reg reg_pc t.0 == end)) [
        | inl here ↦
            let at_end : (dynarmic.reg reg_pc (dynarmic.run s.0 s.1).1.0 == end) ≡ true =
              rw state here in
            inr (
              (λ x q. inr ((==_iff (dynarmic.reg reg_pc t.0) end).0 here)),
              rw (outcome, run_loop) (rw at_end (ap (λ x. some (ok reason, x)) state)),
            )
        | inr elsewhere ↦
            let not_at_end : (dynarmic.reg reg_pc (dynarmic.run s.0 s.1).1.0 == end) ≡ false =
              rw state elsewhere in
            elim (Bool-cases (reason == vm_exec_success)) [
              | inl success ↦ inl (
                (ap (λ x. ok x) ((==_iff reason vm_exec_success).0 success), ground arith),
                rw (outcome, run_loop)
                    (rw (not_at_end, success) (ap (run_loop dynarmic end fuel) state)),
              )
              | inr other ↦ inr (
                (λ x q. inl (differs reason x other q)),
                rw (outcome, run_loop)
                    (rw (not_at_end, other) (ap (λ x. some (ok reason, x)) state)),
              )
            ]
      ]
  turn fuel s (err x) t e =
      inr ((λ y q. cc), rw (ap outcome_of e, run_loop) (ap (λ y. some (err x, y)) (ap state_of e)))
  turn fuel s abort t e =
      inr ((λ x q. cc), rw (ap outcome_of e, run_loop) (ap (λ y. some (abort, y)) (ap state_of e)))
  turn fuel s Outcome.undefined t e = inr (
    (λ x q. cc),
    rw (ap outcome_of e, run_loop) (ap (λ y. some (Outcome.undefined, y)) (ap state_of e)),
  )

  loop-Halts :
      (fuel : ℕ) (s : J × W) (r : Outcome ℕ) (t : J × W)
      → run_loop dynarmic end fuel s ≡ some (r, t)
      → Halts r t s
  loop-Halts zero s r t h = unfold run_loop in cc
  loop-Halts (suc fuel) s r t h =
      let first = (dynarmic.run s.0 s.1).0 in
      let mid = (dynarmic.run s.0 s.1).1 in
      elim (turn fuel s first mid refl) [
        | inl (go, e) ↦ Halts.again s first mid refl go (loop-Halts fuel mid r t (sym e ∙ h))
        | inr (stop, e) ↦
            let same : (first, mid) ≡ (r, t) = some-injective (sym e ∙ h) in
            Halts.stops s same (subst (λ (q : Outcome ℕ × (J × W)). Stops q.0 q.1) same stop)
      ]

  -- How many runs these are.
  abbrev pub runs : {r : Outcome ℕ} {t s : J × W} → Halts r t s → ℕ
  runs (Halts.stops s e stop) = 1
  runs (Halts.again s first mid e go rest) = suc (runs rest)

  Halts-loop :
      (fuel : ℕ) (r : Outcome ℕ) (t s : J × W) (h : Halts r t s)
      → runs h ≤ fuel
      → run_loop dynarmic end fuel s ≡ some (r, t)
  Halts-loop zero r t s (Halts.stops s' e stop) le = absurd (omega arith)
  Halts-loop zero r t s (Halts.again s' first mid e go rest) le = absurd (omega arith)
  Halts-loop (suc fuel) r t s (Halts.stops s' e stop) le = elim (turn fuel s r t e) [
    | inl (go, _) ↦ absurd (not_both r t go stop)
    | inr (_, done) ↦ done
  ]
  Halts-loop (suc fuel) r t s (Halts.again s' first mid e go rest) le =
      elim (turn fuel s first mid e) [
        | inl (_, on) ↦ on ∙ Halts-loop fuel r t mid rest (omega arith)
        | inr (stop, _) ↦ absurd (not_both first mid go stop)
      ]

  -- execute() at an address returns exactly what its runs lead to: there is fuel with which it
  -- returns an outcome and a state if and only if the runs from the entry on stop with these.
  pub execute-Halts :
      (addr : ℕ) (s t : J × W) (r : Outcome ℕ)
      → ((fuel : ℕ) × (execute dynarmic fuel end (some addr) s ≡ some (r, t)))
        ↔ Halts r t (enter dynarmic end addr s.0, s.1)
  unfolding execute
  execute-Halts addr s t r = (
    λ found. loop-Halts found.0 (enter dynarmic end addr s.0, s.1) r t found.1,
    λ h. (runs h, Halts-loop (runs h) r t (enter dynarmic end addr s.0, s.1) h (omega arith)),
  )

  pub execute-enough :
      (fuel addr : ℕ) (s t : J × W) (r : Outcome ℕ)
      (h : Halts r t (enter dynarmic end addr s.0, s.1))
      → runs h ≤ fuel
      → execute dynarmic fuel end (some addr) s ≡ some (r, t)
  unfolding execute
  execute-enough fuel addr s t r h = Halts-loop fuel r t (enter dynarmic end addr s.0, s.1) h

  at_end :
      (r : Outcome ℕ) (t s : J × W)
      → Halts r t s
      → r ≡ ok vm_exec_success
      → dynarmic.reg reg_pc t.0 ≡ end
  at_end r t s (Halts.stops s' e stop) z = elim (stop vm_exec_success z) [
    | inl n ↦ absurd (n refl)
    | inr here ↦ here
  ]
  at_end r t s (Halts.again s' first mid e go rest) z = at_end r t mid rest z

  -- Where execute() at an address returns VM_EXEC_SUCCESS, the program counter is the end address.
  pub execute-at_end :
      (fuel addr : ℕ) (s t : J × W)
      → execute dynarmic fuel end (some addr) s ≡ some (ok vm_exec_success, t)
      → dynarmic.reg reg_pc t.0 ≡ end
  unfolding execute
  execute-at_end fuel addr s t h =
      at_end (ok vm_exec_success) t _ ((execute-Halts addr s t (ok vm_exec_success)).0 (fuel, h))
        refl

  -- The state after n runs.
  unfoldable pub iterate : ℕ → J × W → J × W
  iterate zero s = s
  iterate (suc n) s = iterate n (dynarmic.run s.0 s.1).1

  iterate-Halts :
      (n : ℕ) (s : J × W)
      → ((k : ℕ) → k ≤ n → (dynarmic.run (iterate k s).0 (iterate k s).1).0 ≡ ok vm_exec_success)
      → dynarmic.reg reg_pc (iterate (suc n) s).0 ≡ end
      → (t : J × W) × (h : Halts (ok vm_exec_success) t s) × (runs h ≤ suc n)
  unfolding iterate
  iterate-Halts zero s h p =
      let t = (dynarmic.run s.0 s.1).1 in
      let e : dynarmic.run s.0 s.1 ≡ (ok vm_exec_success, t) =
        ap (λ x. (x, t)) (h 0 (omega arith)) in
      (t, Halts.stops s e (λ x q. inr p), omega arith)
  iterate-Halts (suc n) s h p =
      let t = (dynarmic.run s.0 s.1).1 in
      let e : dynarmic.run s.0 s.1 ≡ (ok vm_exec_success, t) =
        ap (λ x. (x, t)) (h 0 (omega arith)) in
      elim (ℕ_discrete (dynarmic.reg reg_pc t.0) end) [
        | yes here ↦ (t, Halts.stops s e (λ x q. inr here), omega arith)
        | no elsewhere ↦
            let (u, rest, le) = iterate-Halts n t (λ k le. h (suc k) (omega arith)) p in
            (u, Halts.again s (ok vm_exec_success) t e (refl, elsewhere) rest, omega (arith, le))
      ]

  -- If the runs that follow the entry at an address all come back with VM_EXEC_SUCCESS, and the last
  -- of n + 1 such runs leaves the program counter at the end address, then execute() at that address
  -- returns VM_EXEC_SUCCESS at the end address, with any fuel above n.
  pub execute-returns :
      (n fuel addr : ℕ) (s : J × W)
      → ((k : ℕ)
          → k ≤ n
          → let t = iterate k (enter dynarmic end addr s.0, s.1) in
            (dynarmic.run t.0 t.1).0 ≡ ok vm_exec_success)
      → dynarmic.reg reg_pc (iterate (suc n) (enter dynarmic end addr s.0, s.1)).0 ≡ end
      → n < fuel
      → (t : J × W) × (execute dynarmic fuel end (some addr) s ≡ some (ok vm_exec_success, t))
        × (dynarmic.reg reg_pc t.0 ≡ end)
  execute-returns n fuel addr s h p lt =
      let (t, halts, le) = iterate-Halts n (enter dynarmic end addr s.0, s.1) h p in
      let e : execute dynarmic fuel end (some addr) s ≡ some (ok vm_exec_success, t) =
        execute-enough fuel addr s t (ok vm_exec_success) halts (omega (arith, le)) in
      (t, e, execute-at_end fuel addr s t e)
