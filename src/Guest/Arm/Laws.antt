-- ===== src/Guest/Arm/Laws.antt =====
-- Registers, the program counter and the end address of source/DasHLE/Guest/ARM/ARM.cpp.
use native.Mathlib.Decide.{ℕ_discrete}
use das_hle.Base.{
  ℕ, ◌-◌, ◌/◌, ◌%◌, ◌^◌, ◌<◌, ◌≡◌, ◌≢◌, refl, sym, ap, ◌∙◌, ◌⊎◌, inl, inr, true, false, leb, ok,
  bit_and, arith,
}
use das_hle.Word.Bits.{bit_and_clear, bit_and_step, bit_and-le_right}
use das_hle.Word.Digits.{digit, bit_and-digit, bit_or-digit}
use das_hle.Guest.Arm.{
  Jit, to_u32, reg_pc, reg_lr, cpsr_thumb_enable, cpsr_thumb_disable, is_thumb, clear_thumb, set_pc,
  enter, set_register, get_register,
}

-- What ARMVM relies on of dynarmic's Jit: the sixteen registers are cells of 32 bits, and the
-- CPSR keeps the Thumb bit that is written to it.
pub record IsJit {J W : Type 0} (dynarmic : Jit J W) : Type 0 where
  pub reg_same :
      (id v : ℕ) (j : J) → id < 16 → v < 2 ^ 32 → dynarmic.reg id (dynarmic.set_reg id v j) ≡ v
  pub reg_other :
      (id k v : ℕ) (j : J) → id ≢ k → dynarmic.reg k (dynarmic.set_reg id v j) ≡ dynarmic.reg k j
  pub reg-set_cpsr :
      (id c : ℕ) (j : J) → dynarmic.reg id (dynarmic.set_cpsr c j) ≡ dynarmic.reg id j
  pub cpsr-set_reg : (id v : ℕ) (j : J) → dynarmic.cpsr (dynarmic.set_reg id v j) ≡ dynarmic.cpsr j
  pub thumb-set_cpsr : (c : ℕ) (j : J) → digit 5 (dynarmic.cpsr (dynarmic.set_cpsr c j)) ≡ digit 5 c

thumb_enabled : (c : ℕ) → digit 5 (cpsr_thumb_enable c) ≡ 1
unfolding cpsr_thumb_enable
thumb_enabled c = ground (arith, bit_or-digit 5 c 0x30)

thumb_disabled : (c : ℕ) → digit 5 (cpsr_thumb_disable c) ≡ 0
unfolding cpsr_thumb_disable
thumb_disabled c = ground (arith, bit_and-digit 5 c (2 ^ 32 - 1 - 0x30))

lowest : (addr : ℕ) → bit_and addr 1 ≡ addr % 2
lowest addr = ground (arith, bit_and_step addr 1, bit_and-le_right (addr / 2) (1 / 2))

clear_thumb_lem : (addr : ℕ) → clear_thumb (to_u32 addr) ≡ to_u32 addr - addr % 2
unfolding clear_thumb
clear_thumb_lem addr = ground (arith, bit_and_clear 1 32 (to_u32 addr))

is_thumb-cases :
    (addr : ℕ)
    → ((is_thumb addr ≡ true) × (addr % 2 ≡ 1)) ⊎ ((is_thumb addr ≡ false) × (addr % 2 ≡ 0))
unfolding is_thumb
is_thumb-cases addr = ground (arith, lowest addr)

module _ {J W : Type 0} (dynarmic : Jit J W) (law : IsJit dynarmic) where
  set_pc-pc :
      (addr : ℕ) (j : J) → dynarmic.reg reg_pc (set_pc dynarmic addr j) ≡ to_u32 addr - addr % 2
  unfolding set_pc
  set_pc-pc addr j =
      law.reg_same reg_pc (clear_thumb (to_u32 addr)) _ (omega arith)
        (omega (arith, clear_thumb_lem addr))
      ∙ clear_thumb_lem addr

  set_pc-thumb : (addr : ℕ) (j : J) → digit 5 (dynarmic.cpsr (set_pc dynarmic addr j)) ≡ addr % 2
  unfolding set_pc
  set_pc-thumb addr j =
      ap (digit 5) (law.cpsr-set_reg reg_pc (clear_thumb (to_u32 addr)) _)
      ∙ law.thumb-set_cpsr _ j
      ∙ elim (is_thumb-cases (to_u32 addr)) [
        | inl (t, odd) ↦ rw t (thumb_enabled (dynarmic.cpsr j) ∙ omega (arith, odd))
        | inr (f, even) ↦ rw f (thumb_disabled (dynarmic.cpsr j) ∙ omega (arith, even))
      ]

  set_pc-other :
      (addr k : ℕ) (j : J) → k ≢ reg_pc → dynarmic.reg k (set_pc dynarmic addr j) ≡ dynarmic.reg k j
  unfolding set_pc
  set_pc-other addr k j n =
      law.reg_other reg_pc k (clear_thumb (to_u32 addr)) _ (λ e. n (sym e)) ∙ law.reg-set_cpsr k _ j

  -- Over a Jit whose registers are cells and whose CPSR keeps the Thumb bit: on entry at an
  -- address, execute() has the program counter at the address's low 32 bits without the lowest bit,
  -- that bit as the Thumb bit of the CPSR, and the low 32 bits of the end address in the link
  -- register; a core register other than these two keeps its value.
  pub enter_lem :
      (end addr k : ℕ) (j : J)
      → k ≢ reg_pc
      → k ≢ reg_lr
      → let s = enter dynarmic end addr j in
        (dynarmic.reg reg_pc s ≡ to_u32 addr - addr % 2)
        × (digit 5 (dynarmic.cpsr s) ≡ addr % 2)
        × (dynarmic.reg reg_lr s ≡ to_u32 end)
        × (dynarmic.reg k s ≡ dynarmic.reg k j)
  unfolding enter
  enter_lem end addr k j n l = (
    set_pc-pc addr _,
    set_pc-thumb addr _,
    set_pc-other addr reg_lr _ (omega arith)
        ∙ law.reg_same reg_lr (to_u32 end) j (omega arith) (omega arith),
    set_pc-other addr k _ n ∙ law.reg_other reg_lr k (to_u32 end) j (λ e. l (sym e)),
  )

  -- Over a Jit whose registers are cells: setRegister() of R0 to R15 succeeds, and getRegister()
  -- then gives the low 32 bits of the value for that register, and for another of R0 to R15 what it
  -- gave before.
  pub get_register-set_register :
      (id k value : ℕ) (j : J)
      → id < 16
      → k < 16
      → (set : J) × (set_register dynarmic id value j ≡ ok set)
        × (get_register dynarmic id set ≡ ok (value % 2 ^ 32))
        × ((k ≡ id) ⊎ (get_register dynarmic k set ≡ get_register dynarmic k j))
  unfolding set_register get_register
  get_register-set_register id k value j lt below =
      let set = dynarmic.set_reg id (to_u32 value) j in
      let core : leb id 15 ≡ true = ground arith in
      let other : leb k 15 ≡ true = ground arith in
      (
        set,
        rw core refl,
        rw core (ap (λ x. ok x) (law.reg_same id (to_u32 value) j lt (omega arith))),
        elim (ℕ_discrete k id) [
          | yes e ↦ inl e
          | no n ↦
              inr (rw other (ap (λ x. ok x) (law.reg_other id k (to_u32 value) j (λ e. n (sym e)))))
        ],
      )
