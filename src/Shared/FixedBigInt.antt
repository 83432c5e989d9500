-- ===== src/Shared/FixedBigInt.antt =====
-- rtc-shared/src/replay_detector/fixed_big_int/mod.rs: a bit field of `n` bits in words of 64. An
-- index stands in range wherever the code reads a word; the default of `get_or` is never read.
pub mod Shift
pub mod Ops
use ortc.Common.{
  ℕ, zero, suc, ◌+◌, ◌-◌, ◌/◌, ◌%◌, ◌^◌, Bool, not, List, length, get_or, set, replicate, ◌==◌, ltb,
  leb, if◌then◌else◌, bit_of, bit_and, bit_or,
}
use ortc.Common.Bits.{shl, shr}

pub record FixedBigInt : Type 0 where
  pub bits : List ℕ
  pub n : ℕ
  pub msb_mask : ℕ

unfoldable pub new : ℕ → FixedBigInt
new n =
    let chunk_size = (n + 63) / 64 in
    record {
      bits = replicate (if chunk_size == 0 then 1 else chunk_size) 0;
      n = n;
      msb_mask = if n % 64 == 0 then 2 ^ 64 - 1 else shl 1 (64 - n % 64) - 1;
    }

-- What the loop of `lsh` moves into the word `i`.
unfoldable pub carry : List ℕ → ℕ → ℕ → ℕ
carry bits n i =
    if leb (n / 64) i
    then (let c = if leb 64 (n % 64) then 0 else shl (get_or bits (i - n / 64) 0) (n % 64) in
        if ltb (n / 64) i
        then bit_or c
            (if n % 64 == 0 then 0 else shr (get_or bits (i - n / 64 - 1) 0) (64 - n % 64))
        else c)
    else 0

unfoldable pub lsh_word : List ℕ → ℕ → ℕ → ℕ
lsh_word bits n i =
    if leb 64 n then carry bits n i else bit_or (shl (get_or bits i 0) n) (carry bits n i)

-- The loop of `lsh` over the words below `i`, from the highest down, in place.
unfoldable pub lsh_loop : ℕ → ℕ → List ℕ → List ℕ
unfolding lsh_word
lsh_loop zero n bits = bits
lsh_loop (suc i) n bits = lsh_loop i n (set bits i (lsh_word bits n i))

unfoldable pub lsh : FixedBigInt → ℕ → FixedBigInt
lsh x n =
    if n == 0
    then x
    else (let bits = lsh_loop (length x.bits) n x.bits in
        let last = length bits - 1 in
        record x { bits = set bits last (bit_and (get_or bits last 0) x.msb_mask) })

unfoldable pub bit : FixedBigInt → ℕ → ℕ
bit x i =
    if leb x.n i then 0 else bit_of (not (bit_and (get_or x.bits (i / 64) 0) (shl 1 (i % 64)) == 0))

unfoldable pub set_bit : FixedBigInt → ℕ → FixedBigInt
set_bit x i = if leb x.n i then x else record x {
  bits = set x.bits (i / 64) (bit_or (get_or x.bits (i / 64) 0) (shl 1 (i % 64)));
}
