-- ===== src/Base/Words.antt =====
-- C's fixed-width words: casts cut by `%`, shifts multiply and divide.
use Prim.Native.Nat.{ℕ, ◌*◌, ◌/◌, ◌%◌, ◌^◌}
use mathlib.Core.Bool.{Bool, true, false}
use mathlib.Core.List.{List, [], ◌∷◌}

abbrev pub u8 : ℕ → ℕ
u8 n = n % 2 ^ 8

abbrev pub u32 : ℕ → ℕ
u32 n = n % 2 ^ 32

infixl 75 ◌<<<◌ ◌>>>◌
abbrev pub ◌<<<◌ : ℕ → ℕ → ℕ
x <<< k = x * 2 ^ k

abbrev pub ◌>>>◌ : ℕ → ℕ → ℕ
x >>> k = x / 2 ^ k

-- A Boolean read as an integer.
abbrev pub bit : Bool → ℕ
bit true = 1
bit false = 0

-- The bytes of a `uint32_t` in little-endian order, as `memcpy` and `sys_cpu_to_le32` lay them out.
abbrev pub le_bytes : ℕ → List ℕ
le_bytes n = u8 n ∷ u8 (n >>> 8) ∷ u8 (n >>> 16) ∷ u8 (n >>> 24) ∷ []
