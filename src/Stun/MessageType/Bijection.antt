-- ===== src/Stun/MessageType/Bijection.antt =====
-- The type field against its fourteen bits.
use ortc.Common.{ℕ, ◌+◌, ◌*◌, ◌/◌, ◌%◌, ◌^◌, ◌<◌, ◌≡◌, ap, arith, bit_and}
use ortc.Common.Bits.{bit_and_half, bit_and-low}
use ortc.Stun.MessageType.{MessageType, value, read_value}

-- The masks as arithmetic.
and_a : (x : ℕ) → bit_and x 0xf ≡ x % 16
and_a x = bit_and-low 4 x

shifted_4 : (x m : ℕ) → bit_and x (m * 16) ≡ bit_and (x / 16) m * 16
shifted_4 x m = omega (
  arith,
  bit_and_half x (m * 16),
  bit_and_half (x / 2) (m * 8),
  bit_and_half (x / 2 / 2) (m * 4),
  bit_and_half (x / 2 / 2 / 2) (m * 2),
  ap (λ (v : ℕ). bit_and v m) {x = x / 2 / 2 / 2 / 2} {y = x / 16} (omega arith),
  ap (λ (v : ℕ). bit_and (x / 2) v) {x = m * 16 / 2} {y = m * 8} (omega arith),
  ap (λ (v : ℕ). bit_and (x / 2 / 2) v) {x = m * 8 / 2} {y = m * 4} (omega arith),
  ap (λ (v : ℕ). bit_and (x / 2 / 2 / 2) v) {x = m * 4 / 2} {y = m * 2} (omega arith),
  ap (λ (v : ℕ). bit_and (x / 2 / 2 / 2 / 2) v) {x = m * 2 / 2} {y = m} (omega arith),
)

and_b : (x : ℕ) → bit_and x 0x70 ≡ x / 16 % 8 * 16
and_b x = omega (arith, shifted_4 x 7, bit_and-low 3 (x / 16))

and_d : (x : ℕ) → bit_and x 0xf80 ≡ x / 128 % 32 * 128
and_d x = omega (
  arith,
  shifted_4 x 0xf8,
  bit_and_half (x / 16) 0xf8,
  bit_and_half (x / 16 / 2) 0x7c,
  bit_and_half (x / 16 / 2 / 2) 0x3e,
  bit_and-low 5 (x / 16 / 2 / 2 / 2),
)

and_1 : (x : ℕ) → bit_and x 1 ≡ x % 2
and_1 x = bit_and-low 1 x

and_2 : (x : ℕ) → bit_and x 2 ≡ x / 2 % 2 * 2
and_2 x = omega (arith, bit_and_half x 2, and_1 (x / 2))

module _ (v : ℕ) where
  read-method : (read_value v).method ≡ v % 16 + v / 32 % 8 * 16 + v / 512 % 32 * 128
  unfolding read_value
  read-method = omega (arith, and_a v, and_b (v / 2), and_d (v / 4))

  read-class : (read_value v).class ≡ v / 16 % 2 + v / 256 % 2 * 2
  unfolding read_value
  read-class = omega (arith, and_1 (v / 16), and_2 (v / 128))

value_lem :
    (t : MessageType)
    → value t
      ≡ (t.method % 16
          + t.method / 16 % 8 * 32
          + t.method / 128 % 32 * 512
          + t.class % 2 * 16
          + t.class / 2 % 2 * 256)
        % 2 ^ 16
unfolding value
value_lem t =
    omega (arith, and_a t.method, and_b t.method, and_d t.method, and_1 t.class, and_2 t.class)

-- The type that is read back from the value of a type with a method of twelve bits and a class of
-- two is the same.
pub read_value-value :
    (t : MessageType) → t.method < 2 ^ 12 → t.class < 2 ^ 2 → read_value (value t) ≡ t
read_value-value t h k = ground (arith, value_lem t, read-method (value t), read-class (value t))

-- A number of fourteen bits is the value of the type read from it.
value-read_value : (v : ℕ) → v < 2 ^ 14 → value (read_value v) ≡ v
value-read_value v h = omega (arith, value_lem (read_value v), read-method v, read-class v)
