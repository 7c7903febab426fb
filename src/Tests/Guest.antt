-- ===== src/Tests/Guest.antt =====
-- The guest over the manager of Tests/Memory, with a Jit whose run returns to the link register.
use das_hle.Base.{
  ℕ, suc, ◌+◌, ◌-◌, ◌/◌, ◌%◌, ◌^◌, ◌≤◌, ◌<◌, ◌≡◌, ◌≢◌, ◌↔◌, refl, sym, ap, ◌∙◌, subst, ◌⊎◌, inl,
  inr, In, some, ok, ◌>>=◌, true, ◌==◌, if◌then◌else◌, arith,
}
use das_hle.Word.{word}
use das_hle.Word.Digits.{digit}
use das_hle.HostBytes.{Bytes, store}
use das_hle.Memory.{AllocatedBlock, has_flag, perm_read, perm_write}
use das_hle.Guest.Access.{memory_read, memory_write}
use das_hle.Guest.Access.Laws.{IsHostApart, host_of, writes}
use das_hle.Guest.Access.RoundTrip.{read-write, read-write_apart, write-overrun}
use das_hle.Guest.Arm.{Jit, to_u32, reg_pc, reg_lr, enter, execute, vm_exec_success}
use das_hle.Guest.Arm.Laws.{IsJit, enter_lem}
use das_hle.Guest.Arm.Calls.{Halts, iterate, execute-Halts, execute-returns}
use das_hle.Guest.ElfVm.Run.{World}
use das_hle.Tests.Memory.{low, high, busy, busy-IsValid}

abbrev pub no_bytes : Bytes
no_bytes x = 0

pub busy-IsHostApart : IsHostApart busy
busy-IsHostApart = record { host_fits = fits; apart = apart }
  where
    fits : (b : AllocatedBlock) → In b busy.allocated_blocks → b.host_base + b.size < word
    fits b (inl e) =
        subst (λ (k : AllocatedBlock). k.host_base + k.size < word) (sym e) (omega arith)
    fits b (inr (inl e)) =
        subst (λ (k : AllocatedBlock). k.host_base + k.size < word) (sym e) (omega arith)
    fits b (inr (inr e)) = elim e [ ]

    base_of : AllocatedBlock → ℕ
    base_of b = b.virtual_base

    Apart : AllocatedBlock → AllocatedBlock → Type 0
    Apart b c = (b.host_base + b.size ≤ c.host_base) ⊎ (c.host_base + c.size ≤ b.host_base)

    apart :
        (b c : AllocatedBlock)
        → In b busy.allocated_blocks
        → In c busy.allocated_blocks
        → b.virtual_base ≢ c.virtual_base
        → (b.host_base + b.size ≤ c.host_base) ⊎ (c.host_base + c.size ≤ b.host_base)
    apart b c (inl e) (inl f) n =
        absurd (n (ap (λ (k : AllocatedBlock). k.virtual_base) (e ∙ sym f)))
    apart b c (inl e) (inr (inl f)) n =
        subst (λ x. Apart x c) (sym e) (subst (λ y. Apart low y) (sym f) (inl (omega arith)))
    apart b c (inr (inl e)) (inl f) n =
        subst (λ x. Apart x c) (sym e) (subst (λ y. Apart high y) (sym f) (inr (omega arith)))
    apart b c (inr (inl e)) (inr (inl f)) n =
        absurd (n (ap (λ (k : AllocatedBlock). k.virtual_base) (e ∙ sym f)))
    apart b c (inr (inr e)) j n = elim e [ ]
    apart b c (inl e) (inr (inr f)) n = elim f [ ]
    apart b c (inr (inl e)) (inr (inr f)) n = elim f [ ]

pub In-high : In high busy.allocated_blocks
In-high = inr (inl refl)

pub high-readable : has_flag high.flags perm_read ≡ true
unfolding has_flag
high-readable = refl

high-writable : has_flag high.flags perm_write ≡ true
unfolding has_flag
high-writable = refl

read-write_example :
    (memory_write busy 4 0x4010 0x1234567890 no_bytes >>= λ after. memory_read busy 4 0x4010 after)
    ≡ ok (0x1234567890 % 256 ^ 4)
read-write_example =
    read-write busy busy-IsValid busy-IsHostApart high 4 0x4010 0x1234567890 no_bytes In-high
      (omega arith, omega arith) high-readable high-writable

abbrev written : Bytes
written = store 4 (host_of high 0x4010) 0x12345678 no_bytes

read-write_apart_example : memory_read busy 2 0x4014 written ≡ memory_read busy 2 0x4014 no_bytes
read-write_apart_example =
    read-write_apart busy busy-IsValid busy-IsHostApart high high 4 0x4010 2 0x4014 0x12345678
      no_bytes written In-high In-high (omega arith, omega arith) (omega arith, omega arith)
      (omega arith) (omega arith) (inl (omega arith))
      (writes busy busy-IsValid busy-IsHostApart high 4 0x4010 0x12345678 no_bytes In-high
        (omega arith, omega arith) high-writable)

write-overrun_example :
    (after : Bytes) × (memory_write busy
        (suc (suc 2))
        (high.virtual_base + high.size - 1)
        0x12345678
        no_bytes
      ≡ ok after)
    × (after (high.host_base + high.size) ≡ 0x12345678 / 256 % 256)
write-overrun_example =
    write-overrun busy busy-IsValid busy-IsHostApart high 2 0x12345678 no_bytes In-high
      high-writable (omega arith)

-- The core registers, and the CPSR and the FPSCR.
abbrev pub State : Type 0
State = (ℕ → ℕ) × (ℕ × ℕ)

abbrev pub toy : Jit State (World ℕ)
toy = record {
  make = λ config. (no_bytes, (0x10, 0));
  reg = λ id j. j.0 id;
  set_reg = λ id v j. ((λ k. if k == id then v else j.0 k), j.1);
  cpsr = λ j. j.1.0;
  set_cpsr = λ c j. (j.0, (c, j.1.1));
  fpscr = λ j. j.1.1;
  set_fpscr = λ c j. (j.0, (j.1.0, c));
  run = λ j w. (ok 0, (((λ k. if k == 15 then j.0 14 else j.0 k), j.1), w));
  step = λ j w. (ok 0, (j, w));
  clear_cache = λ j. j;
  invalidate_cache_range = λ addr size j. j;
}

toy-IsJit : IsJit toy
toy-IsJit = record {
  reg_same = λ id v j lt fits. ground arith;
  reg_other = λ id k v j ne. ground arith;
  reg-set_cpsr = λ id c j. refl;
  cpsr-set_reg = λ id v j. refl;
  thumb-set_cpsr = λ c j. refl;
}

abbrev begun : State × World ℕ
begun = ((no_bytes, (0x10, 0)), (busy, no_bytes))

enter_lem_example :
    let s = enter toy 0x2000 0x4001 begun.0 in
    (toy.reg reg_pc s ≡ to_u32 0x4001 - 0x4001 % 2)
    × (digit 5 (toy.cpsr s) ≡ 0x4001 % 2)
    × (toy.reg reg_lr s ≡ to_u32 0x2000)
    × (toy.reg 13 s ≡ toy.reg 13 begun.0)
enter_lem_example = enter_lem toy toy-IsJit 0x2000 0x4001 13 begun.0 (omega arith) (omega arith)

execute-Halts_example :
    ((fuel : ℕ) × (execute toy fuel 0x2000 (some 0x4000) begun ≡ some (ok 0, begun)))
    ↔ Halts toy 0x2000 (ok 0) begun (enter toy 0x2000 0x4000 begun.0, begun.1)
execute-Halts_example = execute-Halts toy 0x2000 0x4000 begun begun (ok 0)

execute-returns_example :
    (t : State × World ℕ) × (execute toy 1 0x2000 (some 0x4000) begun
      ≡ some (ok vm_exec_success, t))
    × (toy.reg reg_pc t.0 ≡ 0x2000)
execute-returns_example =
    execute-returns toy 0x2000 0 1 0x4000 begun (λ k le. refl) at_end (omega arith)
  where
    at_end :
        toy.reg reg_pc (iterate toy 0x2000 1 (enter toy 0x2000 0x4000 begun.0, begun.1)).0 ≡ 0x2000
    at_end = unfold iterate enter das_hle.Guest.Arm.set_pc in refl
