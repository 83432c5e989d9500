-- ===== src/Shared/FixedBigInt/Shift.antt =====
-- The shift of a bit field word by word, and its bits.
use ortc.Common.{
  ℕ, zero, suc, ◌+◌, ◌-◌, ◌*◌, ◌/◌, ◌%◌, ◌≤◌, ◌<◌, ◌≡◌, refl, ap, ◌∙◌, List, [], ◌∷◌, length,
  get_or, length-set, set, ◌==◌, ltb, if◌then◌else◌, arith, ◌&&◌,
}
use ortc.Common.Bits.{
  shl, shr, digit, digit-bit_or, digit-shl, digit-shl_low, digit-shl_high, digit-shr, zero-digit,
}
use ortc.Shared.FixedBigInt.{carry, lsh_word, lsh_loop}

-- No word has a digit from position 64 on.
abbrev pub Fits : List ℕ → Type 0
Fits bits = (i k : ℕ) → 64 ≤ k → digit (get_or bits i 0) k ≡ 0

unfoldable pub bit_at : List ℕ → ℕ → ℕ
bit_at bits j = digit (get_or bits (j / 64) 0) (j % 64)

bit_at_word :
    (bits : List ℕ) (j i p : ℕ)
    → p < 64
    → j ≡ 64 * i + p
    → bit_at bits j ≡ digit (get_or bits i 0) p
unfolding bit_at
bit_at_word bits j i p h e =
    ap (λ (k : ℕ). digit (get_or bits k 0) (j % 64)) (omega arith)
    ∙ ap (digit (get_or bits i 0)) (omega arith)

pub get_or-set :
    (xs : List ℕ) (i j v : ℕ)
    → get_or (set xs i v) j 0 ≡ (if j == i && ltb i (length xs) then v else get_or xs j 0)
get_or-set [] i j v = ground arith
get_or-set (x ∷ xs) zero zero v = ground arith
get_or-set (x ∷ xs) zero (suc j) v = ground arith
get_or-set (x ∷ xs) (suc i) zero v = ground arith
get_or-set (x ∷ xs) (suc i) (suc j) v = ground (arith, get_or-set xs i j v)

get_or-set_other : (xs : List ℕ) (i j v : ℕ) → j < i → get_or (set xs i v) j 0 ≡ get_or xs j 0
get_or-set_other xs i j v h = ground (arith, get_or-set xs i j v)

carry-set : (bits : List ℕ) (n i k v : ℕ) → i < k → carry (set bits k v) n i ≡ carry bits n i
unfolding carry
carry-set bits n i k v h = rw (
  get_or-set_other bits k (i - n / 64) v (omega arith),
  get_or-set_other bits k (i - n / 64 - 1) v (omega arith),
)

lsh_word-set :
    (bits : List ℕ) (n i k v : ℕ) → i < k → lsh_word (set bits k v) n i ≡ lsh_word bits n i
unfolding lsh_word
lsh_word-set bits n i k v h = rw (carry-set bits n i k v h, get_or-set_other bits k i v h)

pub length-lsh_loop : (k n : ℕ) (bits : List ℕ) → length (lsh_loop k n bits) ≡ length bits
unfolding lsh_loop
length-lsh_loop zero n bits = refl
length-lsh_loop (suc k) n bits =
    length-lsh_loop k n (set bits k (lsh_word bits n k)) ∙ length-set bits k (lsh_word bits n k)

-- The loop in place computes every word from the old words.
pub lsh_loop-word :
    (k n i : ℕ) (bits : List ℕ)
    → k ≤ length bits
    → get_or (lsh_loop k n bits) i 0 ≡ (if ltb i k then lsh_word bits n i else get_or bits i 0)
unfolding lsh_loop
lsh_loop-word zero n i bits h = ground arith
lsh_loop-word (suc k) n i bits h = ground (
  arith,
  lsh_loop-word k n i (set bits k (lsh_word bits n k)),
  length-set bits k (lsh_word bits n k),
  get_or-set bits k i (lsh_word bits n k),
  lsh_word-set bits n i k (lsh_word bits n k),
)

-- The word that is moved in, digit by digit.
carry-digit :
    (bits : List ℕ) (n i p : ℕ)
    → Fits bits
    → p < 64
    → digit (carry bits n i) p ≡ (if ltb (64 * i + p) n then 0 else bit_at bits (64 * i + p - n))
unfolding carry
carry-digit bits n i p f h = ground (
  arith,
  zero-digit p,
  digit-bit_or (shl (get_or bits (i - n / 64) 0) (n % 64)) 0 p,
  digit-bit_or (shl (get_or bits (i - n / 64) 0) (n % 64))
      (shr (get_or bits (i - n / 64 - 1) 0) (64 - n % 64)) p,
  digit-shl_low (n % 64) (get_or bits (i - n / 64) 0) p,
  digit-shl (n % 64) (get_or bits (i - n / 64) 0) (p - n % 64) p,
  digit-shr (64 - n % 64) (get_or bits (i - n / 64 - 1) 0) p (p + (64 - n % 64)),
  f (i - n / 64 - 1) (p + (64 - n % 64)),
  bit_at_word bits (64 * i + p - n) (i - n / 64) (p - n % 64),
  bit_at_word bits (64 * i + p - n) (i - n / 64 - 1) (p + (64 - n % 64)),
)

-- A shift moves each bit up by `n` places, over the borders of the words.
pub lsh_word-digit :
    (bits : List ℕ) (n i p : ℕ)
    → Fits bits
    → p < 64
    → digit (lsh_word bits n i) p ≡ (if ltb (64 * i + p) n then 0 else bit_at bits (64 * i + p - n))
unfolding lsh_word
lsh_word-digit bits n i p f h = ground (
  arith,
  carry-digit bits n i p f h,
  digit-bit_or (shl (get_or bits i 0) n) (carry bits n i) p,
  digit-shl_low n (get_or bits i 0) p,
  digit-shl n (get_or bits i 0) (p - n) p,
  bit_at_word bits (64 * i + p - n) i (p - n),
)

carry-high : (bits : List ℕ) (n i k : ℕ) → Fits bits → 64 ≤ k → digit (carry bits n i) k ≡ 0
unfolding carry
carry-high bits n i k f h = ground (
  arith,
  zero-digit k,
  digit-bit_or (shl (get_or bits (i - n / 64) 0) (n % 64)) 0 k,
  digit-bit_or (shl (get_or bits (i - n / 64) 0) (n % 64))
      (shr (get_or bits (i - n / 64 - 1) 0) (64 - n % 64)) k,
  digit-shl_high (n % 64) (get_or bits (i - n / 64) 0) k h,
  digit-shr (64 - n % 64) (get_or bits (i - n / 64 - 1) 0) k (k + (64 - n % 64)) refl,
  f (i - n / 64 - 1) (k + (64 - n % 64)),
)

pub lsh_word-high :
    (bits : List ℕ) (n i k : ℕ) → Fits bits → 64 ≤ k → digit (lsh_word bits n i) k ≡ 0
unfolding lsh_word
lsh_word-high bits n i k f h = ground (
  arith,
  carry-high bits n i k f h,
  digit-bit_or (shl (get_or bits i 0) n) (carry bits n i) k,
  digit-shl_high n (get_or bits i 0) k h,
)
