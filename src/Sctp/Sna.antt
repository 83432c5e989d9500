-- ===== src/Sctp/Sna.antt =====
-- rtc-sctp/src/util.rs: serial number arithmetic (RFC 1982) on u32 and u16, and the padding of
-- chunks to four bytes. The subtractions of the source stand behind a comparison that keeps them
-- from underflow, so the truncated one of ℕ is the same.
use ortc.Common.{
  ℕ, ◌+◌, ◌-◌, ◌%◌, ◌^◌, ◌≤◌, ◌<◌, ◌≡◌, ◌⊎◌, Bool, true, false, ◌&&◌, ◌||◌, arith, ltb, leb, ◌==◌,
}

unfoldable pub sna32lt : ℕ → ℕ → Bool
sna32lt i1 i2 = (ltb i1 i2 && ltb (i2 - i1) (2 ^ 31)) || (ltb i2 i1 && ltb (2 ^ 31) (i1 - i2))

unfoldable pub sna32lte : ℕ → ℕ → Bool
unfolding sna32lt
sna32lte i1 i2 = i1 == i2 || sna32lt i1 i2

unfoldable pub sna32gt : ℕ → ℕ → Bool
sna32gt i1 i2 = (ltb i1 i2 && leb (2 ^ 31) (i2 - i1)) || (ltb i2 i1 && leb (i1 - i2) (2 ^ 31))

unfoldable pub sna32gte : ℕ → ℕ → Bool
unfolding sna32gt
sna32gte i1 i2 = i1 == i2 || sna32gt i1 i2

unfoldable pub sna32eq : ℕ → ℕ → Bool
sna32eq i1 i2 = i1 == i2

unfoldable pub sna16lt : ℕ → ℕ → Bool
sna16lt i1 i2 = (ltb i1 i2 && ltb (i2 - i1) (2 ^ 15)) || (ltb i2 i1 && ltb (2 ^ 15) (i1 - i2))

unfoldable pub sna16lte : ℕ → ℕ → Bool
unfolding sna16lt
sna16lte i1 i2 = i1 == i2 || sna16lt i1 i2

unfoldable pub sna16gt : ℕ → ℕ → Bool
sna16gt i1 i2 = (ltb i1 i2 && leb (2 ^ 15) (i2 - i1)) || (ltb i2 i1 && leb (i1 - i2) (2 ^ 15))

unfoldable sna16gte : ℕ → ℕ → Bool
unfolding sna16gt
sna16gte i1 i2 = i1 == i2 || sna16gt i1 i2

unfoldable sna16eq : ℕ → ℕ → Bool
sna16eq i1 i2 = i1 == i2

unfoldable pub get_padding_size : ℕ → ℕ
get_padding_size len = (4 - len % 4) % 4

-- How far `b` is ahead of `a` on the circle of `m` serial numbers.
abbrev pub ahead : ℕ → ℕ → ℕ → ℕ
ahead m a b = (b + m - a) % m

-- What the comparisons of two u32 serial numbers answer, in terms of the distance from the first
-- to the second on the circle of 2 ^ 32: less at 1 to 2 ^ 31 - 1 ahead, greater at 2 ^ 31 or more
-- ahead.
pub sna32_by_distance :
    (a b : ℕ)
    → a < 2 ^ 32
    → b < 2 ^ 32
    → (sna32lt a b ≡ (ltb 0 (ahead (2 ^ 32) a b) && ltb (ahead (2 ^ 32) a b) (2 ^ 31)))
      × (sna32gt a b ≡ leb (2 ^ 31) (ahead (2 ^ 32) a b))
      × (sna32lte a b ≡ ltb (ahead (2 ^ 32) a b) (2 ^ 31))
unfolding sna32lt sna32gt sna32lte
sna32_by_distance a b ha hb = (ground arith, ground arith, ground arith)

pub sna16_by_distance :
    (a b : ℕ)
    → a < 2 ^ 16
    → b < 2 ^ 16
    → (sna16lt a b ≡ (ltb 0 (ahead (2 ^ 16) a b) && ltb (ahead (2 ^ 16) a b) (2 ^ 15)))
      × (sna16gt a b ≡ leb (2 ^ 15) (ahead (2 ^ 16) a b))
      × (sna16lte a b ≡ ltb (ahead (2 ^ 16) a b) (2 ^ 15))
unfolding sna16lt sna16gt sna16lte
sna16_by_distance a b ha hb = (ground arith, ground arith, ground arith)

-- Exactly one of equal, less and greater.
pub sna32_trichotomy :
    (a b : ℕ)
    → a < 2 ^ 32
    → b < 2 ^ 32
    → ((sna32eq a b ≡ true) × (sna32lt a b ≡ false) × (sna32gt a b ≡ false))
      ⊎ ((sna32eq a b ≡ false) × (sna32lt a b ≡ true) × (sna32gt a b ≡ false))
      ⊎ ((sna32eq a b ≡ false) × (sna32lt a b ≡ false) × (sna32gt a b ≡ true))
unfolding sna32lt sna32gt sna32eq
sna32_trichotomy a b ha hb = ground arith

-- Numbers that lie within half the circle after a common base compare as their distances do.
pub sna32lt-window :
    (base a b : ℕ)
    → base < 2 ^ 32
    → a < 2 ^ 32
    → b < 2 ^ 32
    → ahead (2 ^ 32) base a < 2 ^ 31
    → ahead (2 ^ 32) base b < 2 ^ 31
    → sna32lt a b ≡ ltb (ahead (2 ^ 32) base a) (ahead (2 ^ 32) base b)
unfolding sna32lt
sna32lt-window base a b hc ha hb la lb = ground arith

-- The padding brings a length up to the next multiple of four, and is at most three bytes.
pub get_padding_size_lem :
    (len : ℕ) → ((len + get_padding_size len) % 4 ≡ 0) × (get_padding_size len ≤ 3)
unfolding get_padding_size
get_padding_size_lem len = omega arith
