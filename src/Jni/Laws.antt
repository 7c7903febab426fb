-- ===== src/Jni/Laws.antt =====
-- What EmuJNI_JavaVM_GetEnv of source/DasHLE/Emulated/JNI.cpp does to the guest's memory.
use das_hle.Base.{
  ℕ, ◌+◌, ◌%◌, ◌^◌, ◌≤◌, ◌<◌, ◌≡◌, ◌≢◌, refl, sym, ap, ◌∙◌, ◌⊎◌, inl, inr, Bool, true, false, ◌==◌,
  if◌then◌else◌, Bool-cases, In, some, ok, assert_ok, arith, >>=-eq-ok,
}
use das_hle.HostBytes.{Bytes, store}
use das_hle.HostBytes.Laws.{load-store}
use das_hle.Memory.{AllocatedBlock, MemoryManager, has_flag, perm_read}
use das_hle.Memory.Find.{block_from_vaddr}
use das_hle.Memory.Manager.{virtual_to_host}
use das_hle.Memory.Layout.{IsValid}
use das_hle.Memory.Layout.Lookup.{Contains}
use das_hle.Guest.Access.{translate, memory_read}
use das_hle.Guest.Access.Laws.{IsHostApart, InBlock, host_of, reads, translate-block}
use das_hle.Guest.Access.RoundTrip.{read-store_apart}
use das_hle.Jni.{JniContext, GetEnvCodes, get_instance, set_mem, get_mem, env_for, get_env}

-- The size of the guest's pointers.
abbrev pub pointer_size : Bool → ℕ
pointer_size is_64_bits = if is_64_bits then 8 else 4

-- The environment for a virtual machine: the context's if it is the context's machine, else none.
abbrev pub IsEnvFor : {H : Type 0} → JniContext H → ℕ → ℕ → Type 0
IsEnvFor ctx vm found =
    ((ctx.virtual_vm ≡ vm) × (found ≡ ctx.virtual_env)) ⊎ ((ctx.virtual_vm ≢ vm) × (found ≡ 0))

-- GetEnv's result says whether there is an environment.
abbrev pub IsCodeFor : GetEnvCodes → ℕ → ℕ → Type 0
IsCodeFor codes found code =
    ((found ≢ 0) × (code ≡ codes.attached)) ⊎ ((found ≡ 0) × (code ≡ codes.detached))

env_for-IsEnvFor : {H : Type 0} (ctx : JniContext H) (vm : ℕ) → IsEnvFor ctx vm (env_for ctx vm)
unfolding env_for
env_for-IsEnvFor ctx vm = elim (Bool-cases (ctx.virtual_vm == vm)) [
  | inl p ↦ inl (ground arith, rw p refl)
  | inr p ↦ inr (ground arith, rw p refl)
]

code_for : GetEnvCodes → ℕ → ℕ
code_for codes found = if found == 0 then codes.detached else codes.attached

code_for-IsCodeFor :
    (codes : GetEnvCodes) (found : ℕ) → IsCodeFor codes found (code_for codes found)
unfolding code_for
code_for-IsCodeFor codes found = elim (Bool-cases (found == 0)) [
  | inl p ↦ inr (ground arith, rw p refl)
  | inr p ↦ inl (ground arith, rw p refl)
]

-- The guest's memory after GetEnv has stored the environment at env: a read there gives it, cut off
-- to the size, and reads of other bytes give what they gave.
pub record Stored {H : Type 0} (m : MemoryManager H) (size env found : ℕ) (bytes after : Bytes)
    : Type 0 where
  pub read_back : memory_read m size env after ≡ ok (found % 256 ^ size)
  pub others :
      (c : AllocatedBlock) (y count : ℕ)
      → In c m.allocated_blocks
      → InBlock c y count
      → 0 < count
      → (env + size ≤ y) ⊎ (y + count ≤ env)
      → memory_read m count y after ≡ memory_read m count y bytes

module _ {H : Type 0} (codes : GetEnvCodes) (ctx : JniContext H) (m : MemoryManager H)
    (has : ctx.mem ≡ some m) where
  get_env-at :
      (vm env version addr : ℕ) (is_64_bits : Bool) (bytes : Bytes)
      → translate m env ≡ ok addr
      → get_env codes ctx vm env version is_64_bits bytes
        ≡ ok (
          code_for codes (env_for ctx vm),
          store (pointer_size is_64_bits) addr (env_for ctx vm) bytes,
        )
  unfolding get_env get_mem translate code_for
  get_env-at vm env version addr true bytes h =
      let (block, e, k) = >>=-eq-ok (block_from_vaddr env m) (λ b. virtual_to_host b env) h in
      rw has (rw e (rw k refl))
  get_env-at vm env version addr false bytes h =
      let (block, e, k) = >>=-eq-ok (block_from_vaddr env m) (λ b. virtual_to_host b env) h in
      rw has (rw e (rw k refl))

  -- GetEnv with a valid memory manager whose blocks have their own host memory, for a pointer to a
  -- place of the guest's pointer size in one block that may be read: it returns; the environment that
  -- it hands out is the context's if the virtual machine is the context's, else zero; the result says
  -- whether it is not zero; the guest reads it at the place, cut off to the size; and what the guest
  -- reads elsewhere stays. The block need not be writable.
  pub get_env-Stored :
      (v : IsValid m)
      → (host : IsHostApart m)
      → (b : AllocatedBlock) (vm env version : ℕ) (is_64_bits : Bool) (bytes : Bytes)
      → In b m.allocated_blocks
      → InBlock b env (pointer_size is_64_bits)
      → has_flag b.flags perm_read ≡ true
      → (found : ℕ) × (code : ℕ) × (after : Bytes) × (get_env codes ctx vm env version is_64_bits
            bytes
          ≡ ok (code, after))
        × IsEnvFor ctx vm found
        × IsCodeFor codes found code
        × Stored m (pointer_size is_64_bits) env found bytes after
  get_env-Stored v host b vm env version is_64_bits bytes i p r =
      let found = env_for ctx vm in
      let size = pointer_size is_64_bits in
      let here : Contains b env = (p.0, omega (arith, p, size-positive is_64_bits)) in
      (
        found,
        code_for codes found,
        store size (host_of b env) found bytes,
        get_env-at vm env version (host_of b env) is_64_bits bytes
            (translate-block m v host b env i here),
        env_for-IsEnvFor ctx vm,
        code_for-IsCodeFor codes found,
        record {
          read_back =
              reads m v host b size env (store size (host_of b env) found bytes) i here r
              ∙ ap (λ t. ok t) (load-store size (host_of b env) found bytes);
          others = λ c y count j q t d.
              read-store_apart m v host b c size env count y found bytes i j p q t d;
        },
      )
    where
      size-positive : (w : Bool) → 0 < pointer_size w
      size-positive true = omega arith
      size-positive false = omega arith

-- The contexts of the program: getInstance's, with any memory manager set.
pub data IsContext {H : Type 0} : JniContext H → Type 0 where
  instance_of : IsContext get_instance
  with_mem :
      (mem : MemoryManager H) (ctx : JniContext H) → IsContext ctx → IsContext (set_mem mem ctx)

-- No context has an environment.
no_env : {H : Type 0} (ctx : JniContext H) → IsContext ctx → ctx.virtual_env ≡ 0
unfolding get_instance set_mem
no_env ctx IsContext.instance_of = refl
no_env ctx (IsContext.with_mem mem old c) = no_env old c

env_for-none : {H : Type 0} (ctx : JniContext H) (vm : ℕ) → ctx.virtual_env ≡ 0 → env_for ctx vm ≡ 0
unfolding env_for
env_for-none ctx vm e = ground arith

-- From every context that the program can have, GetEnv returns DETACHED wherever it returns: nothing
-- sets the environment of a context.
pub get_env-detached :
    {H : Type 0} (codes : GetEnvCodes) (ctx : JniContext H)
    → IsContext ctx
    → (vm env version code : ℕ) (is_64_bits : Bool) (bytes after : Bytes)
    → get_env codes ctx vm env version is_64_bits bytes ≡ ok (code, after)
    → code ≡ codes.detached
unfolding get_env
get_env-detached codes ctx c vm env version code is_64_bits bytes after h =
    let none_here = env_for-none ctx vm (no_env ctx c) in
    let (mem, _, h1) = >>=-eq-ok (get_mem ctx) _ h in
    let (block, _, h2) = >>=-eq-ok (assert_ok (block_from_vaddr env mem)) _ h1 in
    let (addr, _, h3) = >>=-eq-ok (assert_ok (virtual_to_host block env)) _ h2 in
    sym (same_code h3) ∙ detached none_here
  where
    same_code : {u v : ℕ × Bytes} → ok u ≡ ok v → u.0 ≡ v.0
    same_code {u} {v} e = let pair : u ≡ v = cc in ap (λ p. p.0) pair

    detached :
        {found : ℕ}
        → found ≡ 0
        → (if found == 0 then codes.detached else codes.attached) ≡ codes.detached
    detached e = ground arith
