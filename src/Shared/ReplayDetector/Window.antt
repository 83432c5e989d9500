-- ===== src/Shared/ReplayDetector/Window.antt =====
-- The sliding window against the numbers accepted so far.
use ortc.Common.{
  ℕ, ◌+◌, ◌-◌, ◌%◌, ◌^◌, ◌≤◌, ◌<◌, ◌≡◌, ap, Bool, true, false, not, ◌&&◌, ◌||◌, List, [], ◌∷◌, ◌==◌,
  ltb, leb, bit_of, arith,
}
use ortc.Shared.FixedBigInt.{FixedBigInt, lsh, bit, set_bit}
use ortc.Shared.FixedBigInt.Ops.{IsValid, new-IsValid, new-n, bit-new, bit-lsh, bit-set_bit}
use ortc.Shared.ReplayDetector.{SlidingWindowDetector, new, check}

abbrev pub contains : ℕ → List ℕ → Bool
contains t [] = false
contains t (x ∷ l) = t == x || contains t l

-- The bits of the mask mark which numbers of the window have been accepted.
abbrev pub Marks : FixedBigInt → ℕ → ℕ → List ℕ → Type 0
Marks mask window_size latest seen =
    (i : ℕ) → i < window_size → i ≤ latest → bit mask i ≡ bit_of (contains (latest - i) seen)

abbrev pub Below : ℕ → List ℕ → Type 0
Below latest seen = (t : ℕ) → contains t seen ≡ true → t ≤ latest

pub record Tracks (d : SlidingWindowDetector) (seen : List ℕ) : Type 0 where
  pub valid : IsValid d.mask
  pub size : d.mask.n ≡ d.window_size
  pub marks : Marks d.mask d.window_size d.latest_seq seen
  pub latest : Below d.latest_seq seen
  pub bounds :
      (1 ≤ d.window_size)
      × (d.window_size ≤ d.max_seq)
      × (d.window_size + d.max_seq < 2 ^ 64)
      × (d.latest_seq ≤ d.max_seq)

-- What a detector promises: a number is taken when it is new and not behind the window.
unfoldable pub is_fresh : ℕ → ℕ → ℕ → List ℕ → ℕ → Bool
is_fresh window_size max_seq latest seen seq =
    leb seq max_seq && (ltb latest seq || ltb latest (window_size + seq) && not (contains seq seen))

pub check-is_fresh :
    (d : SlidingWindowDetector) (seen : List ℕ) (seq : ℕ)
    → Tracks d seen
    → (check d seq).1 ≡ is_fresh d.window_size d.max_seq d.latest_seq seen seq
unfolding check is_fresh
check-is_fresh d seen seq t = ground (
  arith,
  t.bounds,
  t.marks (d.latest_seq - seq),
  ap (λ (n : ℕ). contains n seen) {x = d.latest_seq - (d.latest_seq - seq)} {y = seq},
)

pub lsh-Marks :
    (m : FixedBigInt) (w latest seq : ℕ) (seen : List ℕ)
    → IsValid m
    → m.n ≡ w
    → latest < seq
    → Below latest seen
    → Marks m w latest seen
    → Marks (lsh m (seq - latest)) w seq seen
lsh-Marks m w latest seq seen v e h b t i hi g = ground (
  arith,
  bit-lsh m (seq - latest) i v (omega arith),
  b (seq - i),
  t (i - (seq - latest)),
  ap (λ (n : ℕ). contains n seen) {x = latest - (i - (seq - latest))} {y = seq - i},
)

pub set_bit-Marks :
    (m : FixedBigInt) (w latest seq k : ℕ) (seen : List ℕ)
    → IsValid m
    → m.n ≡ w
    → seq ≤ latest
    → k ≡ latest - seq
    → Marks m w latest seen
    → Marks (set_bit m k) w latest (seq ∷ seen)
set_bit-Marks m w latest seq k seen v e h a t i hi g =
    ground (arith, bit-set_bit m k i v (omega arith), t i hi g)

pub new-Tracks :
    (window_size max_seq : ℕ)
    → 1 ≤ window_size
    → window_size % 64 ≤ 32
    → window_size ≤ max_seq
    → window_size + max_seq < 2 ^ 64
    → Tracks (new window_size max_seq) []
unfolding new
new-Tracks w m p h g o = record {
  valid = new-IsValid w h;
  size = new-n w;
  marks = λ i a b. bit-new w i;
  latest = λ t e. ground arith;
  bounds = (p, g, o, omega arith);
}
