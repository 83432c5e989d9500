-- ===== src/Shared/FixedBigInt/Ops.antt =====
-- The operations of a bit field as operations on its bits, and the invariant they keep.
use ortc.Common.{
  ℕ, zero, suc, ◌+◌, ◌-◌, ◌*◌, ◌/◌, ◌%◌, ◌≤◌, ◌<◌, ◌≡◌, refl, ap, ◌∙◌, List, [], ◌∷◌, length,
  length-set, length-replicate, replicate, get_or, ◌==◌, ltb, leb, false, if◌then◌else◌, bit_and,
  bit_or, arith, min, ◌^◌,
}
use ortc.Common.Bits.{
  shl, digit, digit-bit_or, digit-bit_and, digit_le, digit-shl_one, digit_mask, zero-digit,
  test_bit_lem, shl_one,
}
use ortc.Shared.FixedBigInt.{FixedBigInt, new, lsh_word, lsh_loop, lsh, bit, set_bit}
use ortc.Shared.FixedBigInt.Shift.{
  Fits, bit_at, get_or-set, length-lsh_loop, lsh_loop-word, lsh_word-digit, lsh_word-high,
}

-- The words hold the `n` bits and no more than they need, and the mask keeps those bits of the
-- highest word.
pub record IsValid (x : FixedBigInt) : Type 0 where
  pub some_word : 1 ≤ length x.bits
  pub enough : x.n ≤ 64 * length x.bits
  pub not_more : 64 * (length x.bits - 1) ≤ x.n
  pub fits : Fits x.bits
  pub mask : (p : ℕ) → 64 * (length x.bits - 1) + p < x.n → digit x.msb_mask p ≡ 1

get_or-replicate : (k i : ℕ) → get_or (replicate {A = ℕ} k 0) i 0 ≡ 0
get_or-replicate zero i = refl
get_or-replicate (suc k) zero = refl
get_or-replicate (suc k) (suc i) = get_or-replicate k i

get_or_out : (bits : List ℕ) (i : ℕ) → length bits ≤ i → get_or bits i 0 ≡ 0
get_or_out [] i h = refl
get_or_out (x ∷ bits) zero h = absurd (omega arith)
get_or_out (x ∷ bits) (suc i) h = get_or_out bits i (omega arith)

abbrev chunk_size : ℕ → ℕ
chunk_size n = if (n + 63) / 64 == 0 then 1 else (n + 63) / 64

-- A field whose size leaves no more than 32 bits for the highest word is valid when it is new.
pub new-IsValid : (n : ℕ) → n % 64 ≤ 32 → IsValid (new n)
unfolding new
new-IsValid n h =
    let l : length (replicate {A = ℕ} (chunk_size n) 0) ≡ chunk_size n =
      length-replicate (chunk_size n) 0 in
    record {
      some_word = ground arith;
      enough = ground arith;
      not_more = ground arith;
      fits = λ i k g. ap (λ (w : ℕ). digit w k) (get_or-replicate (chunk_size n) i) ∙ zero-digit k;
      mask = λ p g. new-mask p g l;
    }
  where
    new-mask :
        (p : ℕ)
        → 64 * (length (replicate {A = ℕ} (chunk_size n) 0) - 1) + p < n
        → length (replicate {A = ℕ} (chunk_size n) 0) ≡ chunk_size n
        → digit (if n % 64 == 0 then 2 ^ 64 - 1 else shl 1 (64 - n % 64) - 1) p ≡ 1
    new-mask p g l = ground (
      arith,
      digit_mask 64 p,
      digit_mask (64 - n % 64) p,
      shl_one (64 - n % 64),
      ap (λ (w : ℕ). digit (w - 1) p) {x = shl 1 (64 - n % 64)} {y = 2 ^ (64 - n % 64)},
    )

pub new-n : (n : ℕ) → (new n).n ≡ n
unfolding new
new-n n = refl

bit-bit_at : (x : FixedBigInt) (i : ℕ) → bit x i ≡ (if leb x.n i then 0 else bit_at x.bits i)
unfolding bit bit_at
bit-bit_at x i = ground (arith, test_bit_lem (get_or x.bits (i / 64) 0) (i % 64) (omega arith))

pub bit-new : (n i : ℕ) → bit (new n) i ≡ 0
unfolding new bit_at
bit-new n i = ground (
  arith,
  bit-bit_at (new n) i,
  ap (λ (w : ℕ). digit w (i % 64)) (get_or-replicate (chunk_size n) (i / 64)),
  zero-digit (i % 64),
)

-- The words after a shift.
lsh-digit :
    (x : FixedBigInt) (k w p : ℕ)
    → (k == 0) ≡ false
    → w < length x.bits
    → digit (get_or (lsh x k).bits w 0) p ≡ (
        if w == length x.bits - 1
        then min (digit (lsh_word x.bits k w) p) (digit x.msb_mask p)
        else digit (lsh_word x.bits k w) p)
unfolding lsh
lsh-digit x k w p e h =
    let bits = lsh_loop (length x.bits) k x.bits in
    let last = length bits - 1 in
    ground (
      arith,
      length-lsh_loop (length x.bits) k x.bits,
      get_or-set bits last w (bit_and (get_or bits last 0) x.msb_mask),
      lsh_loop-word (length x.bits) k w x.bits (omega arith),
      lsh_loop-word (length x.bits) k last x.bits (omega arith),
      digit-bit_and (get_or bits last 0) x.msb_mask p,
    )

lsh-zero : (x : FixedBigInt) → lsh x 0 ≡ x
unfolding lsh
lsh-zero x = refl

length-lsh : (x : FixedBigInt) (k : ℕ) → length (lsh x k).bits ≡ length x.bits
unfolding lsh
length-lsh x k =
    let bits = lsh_loop (length x.bits) k x.bits in
    let last = length bits - 1 in
    ground (
      arith,
      length-lsh_loop (length x.bits) k x.bits,
      length-set bits last (bit_and (get_or bits last 0) x.msb_mask),
    )

pub lsh-n : (x : FixedBigInt) (k : ℕ) → (lsh x k).n ≡ x.n
unfolding lsh
lsh-n x k = ground arith

lsh-msb_mask : (x : FixedBigInt) (k : ℕ) → (lsh x k).msb_mask ≡ x.msb_mask
unfolding lsh
lsh-msb_mask x k = ground arith

-- After a shift of a valid field by `k`, bit `i` of its `n` bits is the old bit `i - k`, and the low
-- bits are 0.
pub bit-lsh :
    (x : FixedBigInt) (k i : ℕ)
    → IsValid x
    → i < x.n
    → bit (lsh x k) i ≡ (if ltb i k then 0 else bit x (i - k))
unfolding bit_at
bit-lsh x zero i v h =
    ap (λ y. bit y i) (lsh-zero x) ∙ ground (arith, ap (bit x) {x = i} {y = i - 0})
bit-lsh x (suc k) i v h = ground (
  arith,
  bit-bit_at (lsh x (suc k)) i,
  bit-bit_at x (i - suc k),
  lsh-n x (suc k),
  lsh-digit x (suc k) (i / 64) (i % 64) (ground arith) (omega (arith, v.enough)),
  lsh_word-digit x.bits (suc k) (i / 64) (i % 64) v.fits (omega arith),
  ap (λ (j : ℕ). bit_at x.bits (j - suc k)) {x = 64 * (i / 64) + i % 64} {y = i} (omega arith),
  digit_le (lsh_word x.bits (suc k) (i / 64)) (i % 64),
  v.mask (i % 64),
  v.not_more,
  v.enough,
)

pub bit-set_bit :
    (x : FixedBigInt) (j i : ℕ)
    → IsValid x
    → i < x.n
    → bit (set_bit x j) i ≡ (if i == j then 1 else bit x i)
unfolding bit_at set_bit
bit-set_bit x j i v h = ground (
  arith,
  bit-bit_at (set_bit x j) i,
  bit-bit_at x i,
  get_or-set x.bits (j / 64) (i / 64) (bit_or (get_or x.bits (j / 64) 0) (shl 1 (j % 64))),
  digit-bit_or (get_or x.bits (j / 64) 0) (shl 1 (j % 64)) (i % 64),
  digit-shl_one (j % 64) (i % 64) (omega arith),
  digit_le (get_or x.bits (j / 64) 0) (i % 64),
  ap (λ (w : ℕ). digit (get_or x.bits w 0) (i % 64)) {x = j / 64} {y = i / 64},
  v.enough,
)

lsh-Fits :
    (x : FixedBigInt) (k i p : ℕ) → IsValid x → 64 ≤ p → digit (get_or (lsh x k).bits i 0) p ≡ 0
lsh-Fits x zero i p v h = ap (λ y. digit (get_or y.bits i 0) p) (lsh-zero x) ∙ v.fits i p h
lsh-Fits x (suc k) i p v h = ground (
  arith,
  lsh-digit x (suc k) i p (ground arith),
  lsh_word-high x.bits (suc k) i p v.fits h,
  get_or_out (lsh x (suc k)).bits i,
  length-lsh x (suc k),
  ap (λ (w : ℕ). digit w p) {x = get_or (lsh x (suc k)).bits i 0} {y = 0},
  zero-digit p,
)

pub lsh-IsValid : (x : FixedBigInt) (k : ℕ) → IsValid x → IsValid (lsh x k)
lsh-IsValid x k v =
    let l = length-lsh x k in
    let e = lsh-n x k in
    let m = lsh-msb_mask x k in
    record {
      some_word = omega (arith, v.some_word);
      enough = omega (arith, v.enough);
      not_more = omega (arith, v.not_more, ap (λ (a : ℕ). 64 * (a - 1)) l);
      fits = λ i p h. lsh-Fits x k i p v h;
      mask = λ p h. ap (λ (w : ℕ). digit w p) m ∙ v.mask p (omega arith);
    }

length-set_bit : (x : FixedBigInt) (j : ℕ) → length (set_bit x j).bits ≡ length x.bits
unfolding set_bit
length-set_bit x j =
    ground (arith, length-set x.bits (j / 64) (bit_or (get_or x.bits (j / 64) 0) (shl 1 (j % 64))))

pub set_bit-n : (x : FixedBigInt) (j : ℕ) → (set_bit x j).n ≡ x.n
unfolding set_bit
set_bit-n x j = ground arith

set_bit-msb_mask : (x : FixedBigInt) (j : ℕ) → (set_bit x j).msb_mask ≡ x.msb_mask
unfolding set_bit
set_bit-msb_mask x j = ground arith

set_bit-Fits :
    (x : FixedBigInt) (j i p : ℕ) → IsValid x → 64 ≤ p → digit (get_or (set_bit x j).bits i 0) p ≡ 0
unfolding set_bit
set_bit-Fits x j i p v h = ground (
  arith,
  get_or-set x.bits (j / 64) i (bit_or (get_or x.bits (j / 64) 0) (shl 1 (j % 64))),
  digit-bit_or (get_or x.bits (j / 64) 0) (shl 1 (j % 64)) p,
  digit-shl_one (j % 64) p (omega arith),
  v.fits (j / 64) p h,
  v.fits i p h,
)

pub set_bit-IsValid : (x : FixedBigInt) (j : ℕ) → IsValid x → IsValid (set_bit x j)
set_bit-IsValid x j v =
    let l = length-set_bit x j in
    let e = set_bit-n x j in
    let m = set_bit-msb_mask x j in
    record {
      some_word = omega (arith, v.some_word);
      enough = omega (arith, v.enough);
      not_more = omega (arith, v.not_more);
      fits = λ i p h. set_bit-Fits x j i p v h;
      mask = λ p h. ap (λ (w : ℕ). digit w p) m ∙ v.mask p (omega arith);
    }
