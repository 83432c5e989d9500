-- ===== src/Common/Bits.antt =====
-- `&`, `|`, `<<` and `>>` of a u64, and its binary digits.
use Prim.Native.Nat.{ℕ, zero, suc, ◌+◌, ◌-◌, ◌*◌, ◌/◌, ◌%◌, ◌^◌, ◌≤◌, ◌<◌, min, max}
use Prim.Native.Nat.{bit_and, bit_or, digits, bit_and-bitwise, bit_or-bitwise}
use mathlib.Core.Path.{◌≡◌, refl, ap, sym, ◌∙◌}
use mathlib.Core.Bool.{not}
use native.Mathlib.Nat.{
  le_refl, mul_assoc, pow-le-pow_right, mod-eq_of_lt, pow-suc, pow-succ', one-le-pow,
  div-div-eq-div-mul, div-add-mod', mod-lt,
}
use native.Mathlib.Omega.{arith}
use ortc.Common.Tests.{◌==◌, ltb, bit_of, ==_iff}

-- The binary digit at a position.
unfoldable pub digit : ℕ → ℕ → ℕ
digit w zero = w % 2
digit w (suc i) = digit (w / 2) i

unfoldable pub shl : ℕ → ℕ → ℕ
shl w n = w * 2 ^ n % 2 ^ 64

unfoldable pub shr : ℕ → ℕ → ℕ
shr w n = w / 2 ^ n

pub digit_le : (w i : ℕ) → digit w i ≤ 1
unfolding digit
digit_le w zero = omega arith
digit_le w (suc i) = digit_le (w / 2) i

pub zero-digit : (i : ℕ) → digit 0 i ≡ 0
unfolding digit
zero-digit zero = refl
zero-digit (suc i) = zero-digit i

-- The native operations stand for `digits` at enough fuel; here digit by digit.
digit-or_digits :
    (k x y i : ℕ) → x ≤ k → digit (digits (λ v. v) max k x y) i ≡ max (digit x i) (digit y i)
unfolding digit
digit-or_digits zero x y i h =
    omega (arith, zero-digit i, ap (λ (v : ℕ). digit v i) {x = x} {y = 0} (omega arith))
digit-or_digits (suc k) zero y i h = omega (arith, zero-digit i)
digit-or_digits (suc k) (suc x) y zero h = omega arith
digit-or_digits (suc k) (suc x) y (suc i) h =
    let rest = digits (λ v. v) max k (suc x / 2) (y / 2) in
    let halved : (rest * 2 + max (suc x % 2) (y % 2)) / 2 ≡ rest = omega arith in
    ap (λ (v : ℕ). digit v i) halved ∙ digit-or_digits k (suc x / 2) (y / 2) i (omega arith)

digit-and_digits :
    (k x y i : ℕ) → x ≤ k → digit (digits (λ v. zero) min k x y) i ≡ min (digit x i) (digit y i)
unfolding digit
digit-and_digits zero x y i h =
    omega (arith, zero-digit i, ap (λ (v : ℕ). digit v i) {x = x} {y = 0} (omega arith))
digit-and_digits (suc k) zero y i h = omega (arith, zero-digit i)
digit-and_digits (suc k) (suc x) y zero h = omega arith
digit-and_digits (suc k) (suc x) y (suc i) h =
    let rest = digits (λ v. zero) min k (suc x / 2) (y / 2) in
    let halved : (rest * 2 + min (suc x % 2) (y % 2)) / 2 ≡ rest = omega arith in
    ap (λ (v : ℕ). digit v i) halved ∙ digit-and_digits k (suc x / 2) (y / 2) i (omega arith)

pub digit-bit_or : (a b i : ℕ) → digit (bit_or a b) i ≡ max (digit a i) (digit b i)
digit-bit_or a b i =
    ap (λ (v : ℕ). digit v i) (bit_or-bitwise a b) ∙ digit-or_digits a a b i (le_refl a)

pub digit-bit_and : (a b i : ℕ) → digit (bit_and a b) i ≡ min (digit a i) (digit b i)
digit-bit_and a b i =
    ap (λ (v : ℕ). digit v i) (bit_and-bitwise a b) ∙ digit-and_digits a a b i (le_refl a)

doubled : (w n : ℕ) → w * 2 ^ suc n ≡ w * 2 ^ n * 2
doubled w n = ap (λ (p : ℕ). w * p) (pow-suc 2 n) ∙ sym (mul_assoc w (2 ^ n) 2)

-- The digits below position `k` are those of the low part.
digit-fields : (k q r i : ℕ) → i < k → digit (q * 2 ^ k + r) i ≡ digit r i
unfolding digit
digit-fields zero q r i h = absurd (omega arith)
digit-fields (suc k) q r zero h = omega (arith, doubled q k)
digit-fields (suc k) q r (suc i) h =
    ap (λ (w : ℕ). digit w i) (omega (arith, doubled q k))
    ∙ digit-fields k q (r / 2) i (omega arith)

-- A number below `2 ^ k` has no digit from position `k` on.
digit_small : (k w i : ℕ) → w < 2 ^ k → k ≤ i → digit w i ≡ 0
unfolding digit
digit_small zero w i h g = ap (λ (v : ℕ). digit v i) (omega arith) ∙ zero-digit i
digit_small (suc k) w zero h g = absurd (omega arith)
digit_small (suc k) w (suc i) h g =
    digit_small k (w / 2) i (omega (arith, pow-suc 2 k)) (omega arith)

div-mul-add-mod : (w p : ℕ) → w / p * p + w % p ≡ w
div-mul-add-mod w p = div-add-mod' w p

digit-mod : (k w i : ℕ) → i < k → digit (w % 2 ^ k) i ≡ digit w i
digit-mod k w i h =
    sym (digit-fields k (w / 2 ^ k) (w % 2 ^ k) i h)
    ∙ ap (λ (v : ℕ). digit v i) (div-mul-add-mod w (2 ^ k))

digit-mod_high : (k w i : ℕ) → k ≤ i → digit (w % 2 ^ k) i ≡ 0
digit-mod_high k w i h = digit_small k (w % 2 ^ k) i (mod-lt w (one-le-pow k 2 (omega arith))) h

digit-mul : (n w i j : ℕ) → j ≡ i + n → digit (w * 2 ^ n) j ≡ digit w i
unfolding digit
digit-mul zero w i j e =
    let a : w * 2 ^ 0 ≡ w = omega arith in
    let b : j ≡ i = omega arith in ap (λ (v : ℕ). digit v j) a ∙ ap (digit w) b
digit-mul (suc n) w i zero e = absurd (omega arith)
digit-mul (suc n) w i (suc j) e =
    ap (λ (v : ℕ). digit v j) (omega (arith, doubled w n)) ∙ digit-mul n w i j (omega arith)

digit-mul_low : (n w i : ℕ) → i < n → digit (w * 2 ^ n) i ≡ 0
digit-mul_low n w i h =
    ap (λ (v : ℕ). digit v i) (omega arith) ∙ digit-fields n w 0 i h ∙ zero-digit i

pub digit-shr : (n w i j : ℕ) → j ≡ i + n → digit (shr w n) i ≡ digit w j
unfolding digit shr
digit-shr zero w i j e =
    let a : w / 2 ^ 0 ≡ w = omega arith in
    let b : i ≡ j = omega arith in ap (λ (v : ℕ). digit v i) a ∙ ap (digit w) b
digit-shr (suc n) w i zero e = absurd (omega arith)
digit-shr (suc n) w i (suc j) e =
    ap (λ (v : ℕ). digit v i)
      (ap (λ (d : ℕ). w / d) (pow-succ' 2 n) ∙ sym (div-div-eq-div-mul w 2 (2 ^ n)))
    ∙ digit-shr n (w / 2) i j (omega arith)

pub digit-shl_low : (n w i : ℕ) → i < n → i < 64 → digit (shl w n) i ≡ 0
unfolding shl
digit-shl_low n w i h g = digit-mod 64 (w * 2 ^ n) i g ∙ digit-mul_low n w i h

pub digit-shl : (n w i j : ℕ) → j ≡ i + n → j < 64 → digit (shl w n) j ≡ digit w i
unfolding shl
digit-shl n w i j e h = digit-mod 64 (w * 2 ^ n) j h ∙ digit-mul n w i j e

pub digit-shl_high : (n w i : ℕ) → 64 ≤ i → digit (shl w n) i ≡ 0
unfolding shl
digit-shl_high n w i h = digit-mod_high 64 (w * 2 ^ n) i h

-- The digits of `1 << n` and of the mask `(1 << n) - 1`.
digit_pow : (n i : ℕ) → digit (2 ^ n) i ≡ bit_of (i == n)
unfolding digit
digit_pow zero zero = refl
digit_pow zero (suc i) = zero-digit i ∙ ground arith
digit_pow (suc n) zero = ground (arith, pow-suc 2 n)
digit_pow (suc n) (suc i) =
    ap (λ (w : ℕ). digit w i) (omega (arith, pow-suc 2 n)) ∙ digit_pow n i ∙ ground arith

digit-one_low : (n i : ℕ) → i < 64 → digit (shl 1 n) i ≡ bit_of (i == n)
unfolding shl
digit-one_low n i h =
    digit-mod 64 (1 * 2 ^ n) i h ∙ ap (λ (v : ℕ). digit v i) (omega arith) ∙ digit_pow n i

pub digit-shl_one : (n i : ℕ) → n < 64 → digit (shl 1 n) i ≡ bit_of (i == n)
digit-shl_one n i h = ground (arith, digit-one_low n i, digit-shl_high n 1 i)

pub digit_mask : (n i : ℕ) → digit (2 ^ n - 1) i ≡ bit_of (ltb i n)
unfolding digit
digit_mask zero i = zero-digit i ∙ ground arith
digit_mask (suc n) zero = ground (arith, pow-suc 2 n, one-le-pow n 2)
digit_mask (suc n) (suc i) =
    ap (λ (w : ℕ). digit w i) (omega (arith, pow-suc 2 n, one-le-pow n 2))
    ∙ digit_mask n i
    ∙ ground arith

-- Testing the bit at a position.
pub zero_of_digits : (k w : ℕ) → w ≤ k → ((i : ℕ) → digit w i ≡ 0) → w ≡ 0
unfolding digit
zero_of_digits zero w g h = omega arith
zero_of_digits (suc k) w g h =
    let low = h 0 in
    let high = zero_of_digits k (w / 2) (omega arith) (λ i. h (suc i)) in omega arith

bit_and-one_low : (w p : ℕ) → p < 64 → digit w p ≡ 0 → bit_and w (shl 1 p) ≡ 0
bit_and-one_low w p h e = zero_of_digits _ (bit_and w (shl 1 p)) (le_refl _) (λ i. ground (
  arith,
  digit-bit_and w (shl 1 p) i,
  digit-shl_one p i h,
  ==_iff i p,
  ap (digit w) {x = i} {y = p},
))

pub test_bit_lem : (w p : ℕ) → p < 64 → bit_of (not (bit_and w (shl 1 p) == 0)) ≡ digit w p
test_bit_lem w p h = ground (
  arith,
  digit_le w p,
  bit_and-one_low w p h,
  digit-bit_and w (shl 1 p) p,
  digit-shl_one p p h,
  zero-digit p,
  ap (λ (v : ℕ). digit v p) {x = bit_and w (shl 1 p)} {y = 0},
)

pub shl_one : (n : ℕ) → n < 64 → shl 1 n ≡ 2 ^ n
unfolding shl
shl_one n h = ground (
  arith,
  pow-le-pow_right {n = 2} (omega arith) {i = n} {j = 63} (omega arith),
  mod-eq_of_lt {n = 2 ^ n} {m = 2 ^ 64},
)

-- Numbers with the same digits are equal, and with it two laws of `&`.
eq_of_digits : (k v w : ℕ) → v ≤ k → w ≤ k → ((i : ℕ) → digit v i ≡ digit w i) → v ≡ w
unfolding digit
eq_of_digits zero v w g h e = omega arith
eq_of_digits (suc k) v w g h e =
    let low = e 0 in
    let high = eq_of_digits k (v / 2) (w / 2) (omega arith) (omega arith) (λ i. e (suc i)) in
    omega arith

digit-half :
    (x y i : ℕ)
    → digit (bit_and x y) i ≡ digit (bit_and (x / 2) (y / 2) * 2 + min (x % 2) (y % 2)) i
unfolding digit
digit-half x y zero = omega (arith, digit-bit_and x y 0)
digit-half x y (suc i) =
    let rest = bit_and (x / 2) (y / 2) in
    let halved : (rest * 2 + min (x % 2) (y % 2)) / 2 ≡ rest = omega arith in
    digit-bit_and x y (suc i)
    ∙ sym (digit-bit_and (x / 2) (y / 2) i)
    ∙ sym (ap (λ (v : ℕ). digit v i) halved)

pub bit_and_half : (a b : ℕ) → bit_and a b ≡ bit_and (a / 2) (b / 2) * 2 + min (a % 2) (b % 2)
bit_and_half a b =
    let r = bit_and (a / 2) (b / 2) * 2 + min (a % 2) (b % 2) in
    eq_of_digits (bit_and a b + r) (bit_and a b) r (omega arith) (omega arith) (digit-half a b)

pub bit_and-low : (n a : ℕ) → bit_and a (2 ^ n - 1) ≡ a % 2 ^ n
bit_and-low n a =
    eq_of_digits (bit_and a (2 ^ n - 1) + a % 2 ^ n) (bit_and a (2 ^ n - 1)) (a % 2 ^ n)
      (omega arith) (omega arith)
      (λ i. ground (
        arith,
        digit-bit_and a (2 ^ n - 1) i,
        digit_mask n i,
        digit-mod n a i,
        digit-mod_high n a i,
        digit_le a i,
      ))
