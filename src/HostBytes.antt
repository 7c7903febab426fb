-- ===== src/HostBytes.antt =====
-- The memory of the host, which the source reads and writes through reinterpret_cast: a byte for
-- each address. A number of several bytes stands with the low byte first.
pub mod Laws
pub mod Copy
use das_hle.Base.{ℕ, zero, suc, ◌+◌, ◌*◌, ◌/◌, ◌%◌, ◌==◌, if◌then◌else◌, List, [], ◌∷◌}

abbrev pub Bytes : Type 0
Bytes = ℕ → ℕ

abbrev pub set_byte : ℕ → ℕ → Bytes → Bytes
set_byte addr value bytes x = if x == addr then value else bytes x

-- *reinterpret_cast<const T*>(addr), for a T of `size` bytes.
unfoldable pub load : ℕ → ℕ → Bytes → ℕ
load zero addr bytes = 0
load (suc size) addr bytes = bytes addr + 256 * load size (addr + 1) bytes

-- *reinterpret_cast<T*>(addr) = value, where the value is cut off to the size.
unfoldable pub store : ℕ → ℕ → ℕ → Bytes → Bytes
store zero addr value bytes = bytes
store (suc size) addr value bytes =
    store size (addr + 1) (value / 256) (set_byte addr (value % 256) bytes)

-- std::copy of bytes to an address.
unfoldable pub copy_to : ℕ → List ℕ → Bytes → Bytes
copy_to addr [] bytes = bytes
copy_to addr (b ∷ bs) bytes = copy_to (addr + 1) bs (set_byte addr b bytes)
