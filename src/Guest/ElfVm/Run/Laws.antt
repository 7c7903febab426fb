-- ===== src/Guest/ElfVm/Run/Laws.antt =====
-- Which functions runInitializers and runFinalizers of source/DasHLE/Guest/ELFVM.cpp have run.
use das_hle.Base.{
  ℕ, ◌+◌, ◌≤◌, ◌≡◌, refl, sym, ap, ◌∙◌, inl, inr, ◌↔◌, Bool-cases, Option-cases, ==_iff, ◌==◌, List,
  [], ◌∷◌, Option, none, some, Outcome, ok, err, abort, arith,
}
use das_hle.Guest.Arm.{Jit, ArmVm, execute, enter, vm_exec_success}
use das_hle.Guest.Arm.Calls.{Halts, runs, execute-Halts, execute-enough}
use das_hle.Guest.ElfVm.{ElfVm}
use das_hle.Guest.ElfVm.Run.{World, run_calls, run_functions, run_initializers, resume}

some_state :
    {S : Type 0} {s t : S}
    → ◌≡◌ {A = Option (Outcome (Unit {0}) × S)} (some (ok tt, s)) (some (ok tt, t))
    → s ≡ t
some_state e = cc

module _ {H K : Type 0} (dynarmic : Jit K (World H)) (end : ℕ) where
  -- The functions are run in order, each from where the one before it has come back to the end
  -- address with VM_EXEC_SUCCESS.
  pub data Calls (t : K × World H) : List ℕ → K × World H → Type 0 where
    finished : (s : K × World H) → s ≡ t → Calls t [] s
    called :
        (vaddr : ℕ) (rest : List ℕ) (s mid : K × World H)
        → Halts dynarmic end (ok vm_exec_success) mid (enter dynarmic end vaddr s.0, s.1)
        → Calls t rest mid
        → Calls t (vaddr ∷ rest) s

  abbrev pub all_runs : {t s : K × World H} {functions : List ℕ} → Calls t functions s → ℕ
  all_runs (Calls.finished s e) = 0
  all_runs (Calls.called vaddr rest s mid h more) = runs dynarmic end h + all_runs more

  -- A call that is followed by others has succeeded.
  first_call :
      (fuel vaddr : ℕ) (rest : List ℕ) (s t : K × World H)
      → run_calls dynarmic fuel end (vaddr ∷ rest) s ≡ some (ok tt, t)
      → (mid : K × World H) × (execute dynarmic fuel end (some vaddr) s
          ≡ some (ok vm_exec_success, mid))
        × (run_calls dynarmic fuel end rest mid ≡ some (ok tt, t))
  unfolding run_calls
  first_call fuel vaddr rest s t h =
      elim (Option-cases (execute dynarmic fuel end (some vaddr) s)) [
        | inl e ↦ absurd (cc (rw (e, run_calls) at h))
        | inr ((ok reason, mid), e) ↦ elim (Bool-cases (reason == vm_exec_success)) [
          | inl success ↦ (
            mid,
            e ∙ ap (λ x. some (ok x, mid)) ((==_iff reason vm_exec_success).0 success),
            rw (e, run_calls, success) at h,
          )
          | inr other ↦ absurd (cc (rw (e, run_calls, other) at h))
        ]
        | inr ((err x, mid), e) ↦ absurd (cc (rw (e, run_calls) at h))
        | inr ((abort, mid), e) ↦ absurd (cc (rw (e, run_calls) at h))
        | inr ((Outcome.undefined, mid), e) ↦ absurd (cc (rw (e, run_calls) at h))
      ]

  run_calls-Calls :
      (fuel : ℕ) (functions : List ℕ) (s t : K × World H)
      → run_calls dynarmic fuel end functions s ≡ some (ok tt, t)
      → Calls t functions s
  unfolding run_calls
  run_calls-Calls fuel [] s t h = Calls.finished s (some_state h)
  run_calls-Calls fuel (vaddr ∷ rest) s t h =
      let (mid, e, more) = first_call fuel vaddr rest s t h in
      Calls.called vaddr rest s mid
        ((execute-Halts dynarmic end vaddr s mid (ok vm_exec_success)).0 (fuel, e))
        (run_calls-Calls fuel rest mid t more)

  Calls-run_calls :
      (fuel : ℕ) (functions : List ℕ) (s t : K × World H) (c : Calls t functions s)
      → all_runs c ≤ fuel
      → run_calls dynarmic fuel end functions s ≡ some (ok tt, t)
  unfolding run_calls
  Calls-run_calls fuel [] s t (Calls.finished s' e) le = ap (λ x. some (ok tt, x)) e
  Calls-run_calls fuel (vaddr ∷ rest) s t (Calls.called vaddr' rest' s' mid h more) le =
      let first : execute dynarmic fuel end (some vaddr) s ≡ some (ok vm_exec_success, mid) =
        execute-enough dynarmic end fuel vaddr s mid (ok vm_exec_success) h (omega (arith, le)) in
      rw (first, run_calls) (Calls-run_calls fuel rest mid t more (omega (arith, le)))

module _ {H I J K : Type 0} (dynarmic : Jit K (World H)) (vm : ArmVm K) (s t : ElfVm H I J K) where
  resumed :
      (r : Option (Outcome (Unit {0}) × (K × World H)))
      → ◌≡◌ {A = Option (Outcome (Unit {0}) × ElfVm H I J K)}
          (elim r [ none ↦ none | some q ↦ some (q.0, resume vm q.1 s) ])
          (some (ok tt, t))
      → (last : K × World H) × (r ≡ some (ok tt, last)) × (t ≡ resume vm last s)
  resumed none h = absurd (cc)
  resumed (some (ok tt, last)) h = (last, refl, sym (some_state h))
  resumed (some (err x, last)) h = absurd (cc)
  resumed (some (abort, last)) h = absurd (cc)
  resumed (some (Outcome.undefined, last)) h = absurd (cc)

-- runInitializers() on an ELFVM whose virtual machine exists returns without an error exactly if its
-- initializers, in order, each come back to the end address with VM_EXEC_SUCCESS from where the one
-- before left the registers and the memory; the ELFVM is then as the last one leaves these, and
-- otherwise unchanged.
pub run_initializers-Calls :
    {H I J K : Type 0} (dynarmic : Jit K (World H)) (vm : ArmVm K) (s t : ElfVm H I J K)
    → s.vm ≡ some vm
    → ((fuel : ℕ) × (run_initializers dynarmic fuel s ≡ some (ok tt, t))) ↔ (
        (last : K × World H) × Calls dynarmic vm.end_exec_vaddr last s.initializers
          (vm.jit, (s.mem, s.bytes))
        × (t ≡ resume vm last s))
unfolding run_initializers run_functions
run_initializers-Calls {H} {I} {J} {K} dynarmic vm s t e = (
  λ found.
      let (last, returned, same) = resumed dynarmic vm s t _ (rw (e, run_functions) at found.1) in
      (
        last,
        run_calls-Calls dynarmic vm.end_exec_vaddr found.0 s.initializers _ last returned,
        same,
      ),
  λ (last, calls, same).
      let enough = all_runs dynarmic vm.end_exec_vaddr calls in
      let returned =
        Calls-run_calls dynarmic vm.end_exec_vaddr enough s.initializers _ last calls
          (omega arith) in
      (enough, rw (e, run_functions) (rw returned (ap (λ x. some (ok tt, x)) (sym same)))),
)
