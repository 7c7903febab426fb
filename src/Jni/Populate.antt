-- ===== src/Jni/Populate.antt =====
-- What JNIContext::populateBridge of source/DasHLE/Emulated/JNI.cpp registers.
use das_hle.Base.{
  ℕ, suc, ◌*◌, ◌<◌, ◌≡◌, refl, ap, ◌∙◌, ◌⊎◌, inl, inr, Bool, true, false, if◌then◌else◌, length,
  List, Outcome, ok, err, and_then, duplicate, arith,
}
use das_hle.Word.{word}
use das_hle.Memory.{has_flag}
use das_hle.Bridge.{
  Bridge, Emitter, emitter32, emitter64, Dynarmic32, bits_32, bits_64, emit_call32, emit_call64,
  register_function_impl, register_function,
}
use das_hle.Bridge.Laws.{IsOpen}
use das_hle.Bridge.Register.{IsKnown, Registered, register_function_impl_lem}
use das_hle.Jni.{get_env_32_name, get_env_64_name, ignore_error, populate_bridge}

abbrev pub bits_of : Bool → ℕ
bits_of is_64_bits = if is_64_bits then bits_64 else bits_32

-- The method's name for a guest.
abbrev pub get_env_name : Bool → List ℕ
get_env_name is_64_bits = if is_64_bits then get_env_64_name else get_env_32_name

-- What emits its call.
abbrev pub get_env_emitter :
    {I J Reg Value Terminal : Type 0} → Dynarmic32 I Reg Value Terminal → Bool → Emitter I J
get_env_emitter d is_64_bits =
    if is_64_bits then emitter64 emit_call64 else emitter32 (emit_call32 d)

register_function_impl-bitness :
    {S H I J : Type 0} (same : Discrete S) (s : S) (e : Emitter I J) (b : Bridge S H I J)
    → (register_function_impl same s e b).1.bitness ≡ b.bitness
unfolding register_function_impl
register_function_impl-bitness same s e b = ground arith

only_32 : (has_flag bits_32 bits_32 ≡ true) × (has_flag bits_32 bits_64 ≡ false)
unfolding has_flag
only_32 = (refl, refl)

only_64 : (has_flag bits_64 bits_32 ≡ false) × (has_flag bits_64 bits_64 ≡ true)
unfolding has_flag
only_64 = (refl, refl)

module _ {H I J Reg Value Terminal : Type 0} (same : Discrete (List ℕ))
    (d : Dynarmic32 I Reg Value Terminal) where
  flags_32 :
      (b : Bridge (List ℕ) H I J)
      → b.bitness ≡ bits_32
      → (has_flag b.bitness bits_32 ≡ true) × (has_flag b.bitness bits_64 ≡ false)
  flags_32 b e =
      (ap (λ t. has_flag t bits_32) e ∙ only_32.0, ap (λ t. has_flag t bits_64) e ∙ only_32.1)

  flags_64 :
      (b : Bridge (List ℕ) H I J)
      → b.bitness ≡ bits_64
      → (has_flag b.bitness bits_32 ≡ false) × (has_flag b.bitness bits_64 ≡ true)
  flags_64 b e =
      (ap (λ t. has_flag t bits_32) e ∙ only_64.0, ap (λ t. has_flag t bits_64) e ∙ only_64.1)

  -- A registration for 32-bit guests, then one for 64-bit guests, by the bridge's guest.
  for_32 :
      (s : List ℕ) (c32 : I → Outcome I) (c64 : J → Outcome J) (b : Bridge (List ℕ) H I J)
      → has_flag b.bitness bits_32 ≡ true
      → register_function same bits_32 c32 c64 s b
        ≡ and_then (register_function_impl same s (emitter32 c32) b) (λ u c. (ok tt, c))
  unfolding register_function
  for_32 s c32 c64 b p = rw (only_32.0, only_32.1, p) refl

  not_for_32 :
      (s : List ℕ) (c32 : I → Outcome I) (c64 : J → Outcome J) (b : Bridge (List ℕ) H I J)
      → has_flag b.bitness bits_32 ≡ false
      → register_function same bits_32 c32 c64 s b ≡ (ok tt, b)
  unfolding register_function
  not_for_32 s c32 c64 b p = rw (only_32.0, only_32.1, p) refl

  for_64 :
      (s : List ℕ) (c32 : I → Outcome I) (c64 : J → Outcome J) (b : Bridge (List ℕ) H I J)
      → has_flag b.bitness bits_64 ≡ true
      → register_function same bits_64 c32 c64 s b ≡ register_function_impl same s (emitter64 c64) b
  unfolding register_function
  for_64 s c32 c64 b p = rw (only_64.0, only_64.1, p) refl

  not_for_64 :
      (s : List ℕ) (c32 : I → Outcome I) (c64 : J → Outcome J) (b : Bridge (List ℕ) H I J)
      → has_flag b.bitness bits_64 ≡ false
      → register_function same bits_64 c32 c64 s b ≡ (ok tt, b)
  unfolding register_function
  not_for_64 s c32 c64 b p = rw (only_64.0, only_64.1, p) refl

  -- The registration of the bridge's guest is made, the other one is left out.
  populate_bridge-ok :
      (is_64_bits : Bool) (b c : Bridge (List ℕ) H I J)
      → b.bitness ≡ bits_of is_64_bits
      → c.bitness ≡ bits_of is_64_bits
      → register_function_impl same (get_env_name is_64_bits) (get_env_emitter d is_64_bits) b
        ≡ (ok tt, c)
      → populate_bridge same d b ≡ (ok tt, c)
  unfolding populate_bridge ignore_error
  populate_bridge-ok false b c e f h =
      rw (for_32 get_env_32_name (emit_call32 d) emit_call64 b (flags_32 b e).0)
        (rw h (rw (not_for_64 get_env_64_name (emit_call32 d) emit_call64 c (flags_32 c f).1) refl))
  populate_bridge-ok true b c e f h =
      rw (not_for_32 get_env_32_name (emit_call32 d) emit_call64 b (flags_64 b e).0)
        (rw (for_64 get_env_64_name (emit_call32 d) emit_call64 b (flags_64 b e).1) (rw h refl))

  populate_bridge-err :
      (is_64_bits : Bool) (b : Bridge (List ℕ) H I J)
      → b.bitness ≡ bits_of is_64_bits
      → register_function_impl same (get_env_name is_64_bits) (get_env_emitter d is_64_bits) b
        ≡ (err duplicate, b)
      → populate_bridge same d b ≡ (ok tt, b)
  unfolding populate_bridge ignore_error
  populate_bridge-err false b e h =
      rw (for_32 get_env_32_name (emit_call32 d) emit_call64 b (flags_32 b e).0)
        (rw h (rw (not_for_64 get_env_64_name (emit_call32 d) emit_call64 b (flags_32 b e).1) refl))
  populate_bridge-err true b e h =
      rw (not_for_32 get_env_32_name (emit_call32 d) emit_call64 b (flags_64 b e).0)
        (rw (for_64 get_env_64_name (emit_call32 d) emit_call64 b (flags_64 b e).1) (rw h refl))

  -- populateBridge on a bridge that is not built, whose table has room for one more entry below
  -- 2 ^ 64, for a 32-bit or a 64-bit guest. It returns without an error and looks only at GetEnv of
  -- the guest's size: a name that is known is left as it is and the bridge does not change, a new one
  -- is registered at the end of the table with the emitter of its size, and the places of all other
  -- names, the emitters at all other places, the variables and the memory manager stay.
  pub populate_bridge_lem :
      (is_64_bits : Bool) (b : Bridge (List ℕ) H I J)
      → b.bitness ≡ bits_of is_64_bits
      → IsOpen b
      → suc (length b.func_entries) * 4 < word
      → (IsKnown same (get_env_name is_64_bits) b × (populate_bridge same d b ≡ (ok tt, b)))
        ⊎ (let r = populate_bridge same d b in
            ¬ IsKnown same (get_env_name is_64_bits) b
            × (r.0 ≡ ok tt)
            × Registered same (get_env_name is_64_bits) (get_env_emitter d is_64_bits) b r.1)
  populate_bridge_lem is_64_bits b e o room =
      let name = get_env_name is_64_bits in
      let emitter = get_env_emitter d is_64_bits in
      let c = (register_function_impl same name emitter b).1 in
      elim (register_function_impl_lem same name b emitter o room) [
        | inl (k, h) ↦ inl (k, populate_bridge-err is_64_bits b e h)
        | inr (n, h, registered) ↦
            let all =
              populate_bridge-ok is_64_bits b c e
                (register_function_impl-bitness same name emitter b ∙ e) (ap (λ t. (t, c)) h) in
            inr (n, ap (λ t. t.0) all, rw all registered)
      ]
