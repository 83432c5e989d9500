-- ===== src/Common/Bytes.antt =====
-- Byte strings as lists of numbers: what `put_u16`, `put_u32`, `to_be_bytes` write and
-- `get_u16`, `get_u32`, `from_be_bytes` read of the `bytes` crate and the standard library.
use Prim.Native.Nat.{ℕ, ◌+◌, ◌*◌, ◌/◌, ◌%◌, ◌^◌, ◌<◌}
use mathlib.Core.Path.{◌≡◌}
use mathlib.Core.List.{List, ◌∷◌}
use native.Mathlib.Omega.{arith}

abbrev pub IsU8 : ℕ → Type 0
IsU8 b = b < 2 ^ 8

abbrev pub IsU16 : ℕ → Type 0
IsU16 b = b < 2 ^ 16

abbrev pub IsU32 : ℕ → Type 0
IsU32 b = b < 2 ^ 32

abbrev pub IsU64 : ℕ → Type 0
IsU64 b = b < 2 ^ 64

-- The bytes of a u16 and of a u32, the highest first.
abbrev pub be16 : ℕ → List ℕ → List ℕ
be16 n r = n / 256 % 256 ∷ n % 256 ∷ r

abbrev pub be32 : ℕ → List ℕ → List ℕ
be32 n r = n / 2 ^ 24 % 256 ∷ n / 2 ^ 16 % 256 ∷ n / 256 % 256 ∷ n % 256 ∷ r

abbrev pub from_be16 : ℕ → ℕ → ℕ
from_be16 a b = a * 256 + b

abbrev pub from_be32 : ℕ → ℕ → ℕ → ℕ → ℕ
from_be32 a b c d = a * 2 ^ 24 + b * 2 ^ 16 + c * 256 + d

pub from_be16_lem : (n : ℕ) → IsU16 n → from_be16 (n / 256 % 256) (n % 256) ≡ n
from_be16_lem n h = omega arith

pub from_be32_lem :
    (n : ℕ)
    → IsU32 n
    → from_be32 (n / 2 ^ 24 % 256) (n / 2 ^ 16 % 256) (n / 256 % 256) (n % 256) ≡ n
from_be32_lem n h = omega arith
