-- ===== src/HostBytes/Laws.antt =====
-- Reads and writes of the host's memory.
use native.Mathlib.Nat.{
  pow-suc, one-le-pow, div-add-mod, add-mul-mod_self_left, mod-eq_of_lt, mod-lt, mul_assoc,
}
use das_hle.Base.{
  ℕ, zero, suc, ◌+◌, ◌*◌, ◌/◌, ◌%◌, ◌^◌, ◌≤◌, ◌<◌, ◌≡◌, refl, sym, ap, ◌∙◌, ◌⊎◌, inl, inr, arith,
  eq_refl,
}
use das_hle.HostBytes.{Bytes, set_byte, load, store}

-- A write changes only its own addresses.
pub store-elsewhere :
    (size addr value x : ℕ) (bytes : Bytes)
    → (x < addr) ⊎ (addr + size ≤ x)
    → store size addr value bytes x ≡ bytes x
unfolding store
store-elsewhere zero addr value x bytes h = refl
store-elsewhere (suc size) addr value x bytes h =
    ground
      (arith, store-elsewhere size (addr + 1) (value / 256) x (set_byte addr (value % 256) bytes))

-- The digits of a number below a multiple of 256.
split : (v m : ℕ) → 0 < m → v % (256 * m) ≡ v % 256 + 256 * (v / 256 % m)
split v m pos =
    let q = v / 256 in
    let low = v % 256 + 256 * (q % m) in
    let whole : low + 256 * m * (q / m) ≡ v =
      omega (arith, ap (λ t. 256 * t) (div-add-mod q m), mul_assoc 256 m (q / m)) in
    let bound : low < 256 * m = omega (arith, mod-lt q pos) in
    sym (ap (λ t. t % (256 * m)) whole)
    ∙ add-mul-mod_self_left low (256 * m) (q / m)
    ∙ mod-eq_of_lt bound

pub load-store :
    (size addr value : ℕ) (bytes : Bytes)
    → load size addr (store size addr value bytes) ≡ value % 256 ^ size
unfolding load store
load-store zero addr value bytes = omega arith
load-store (suc size) addr value bytes =
    let first : set_byte addr (value % 256) bytes addr ≡ value % 256 =
      ground (arith, eq_refl addr) in
    let digits : 256 ^ suc size ≡ 256 * 256 ^ size = omega (arith, pow-suc 256 size) in
    let kept =
      store-elsewhere size (addr + 1) (value / 256) addr (set_byte addr (value % 256) bytes)
        (inl (omega arith)) in
    rw digits (
      omega (
        arith,
        kept,
        first,
        load-store size (addr + 1) (value / 256) (set_byte addr (value % 256) bytes),
        split value (256 ^ size) (one-le-pow size 256 (omega arith)),
      ))

pub load-same :
    (size addr : ℕ) (before after : Bytes)
    → ((x : ℕ) → addr ≤ x → x < addr + size → after x ≡ before x)
    → load size addr after ≡ load size addr before
unfolding load
load-same zero addr before after h = refl
load-same (suc size) addr before after h = omega (
  arith,
  h addr (omega arith) (omega arith),
  load-same size (addr + 1) before after (λ x p q. h x (omega arith) (omega arith)),
)

-- A read apart from a write sees what was there before.
pub load-store_apart :
    (size addr value count from : ℕ) (bytes : Bytes)
    → (from + count ≤ addr) ⊎ (addr + size ≤ from)
    → load count from (store size addr value bytes) ≡ load count from bytes
load-store_apart size addr value count from bytes h =
    load-same count from bytes (store size addr value bytes)
      (λ x p q. store-elsewhere size addr value x bytes (apart x p q h))
  where
    apart :
        (x : ℕ)
        → from ≤ x
        → x < from + count
        → (from + count ≤ addr) ⊎ (addr + size ≤ from)
        → (x < addr) ⊎ (addr + size ≤ x)
    apart x p q (inl k) = inl (omega arith)
    apart x p q (inr k) = inr (omega arith)
