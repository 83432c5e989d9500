-- ===== src/Shared/ReplayDetector/Wrapped/Marks.antt =====
-- The mark of an accepted number while other numbers come: where it stands in the window, and that
-- it is kept.
use ortc.Common.{
  ℕ, ◌+◌, ◌-◌, ◌/◌, ◌^◌, ◌≤◌, ◌<◌, ◌≡◌, ap, sym, ◌∙◌, true, false, if◌then◌else◌, arith, leb,
  Bool-cases, inl, inr,
}
use mathlib.Core.Path.{subst}
use ortc.Shared.FixedBigInt.{lsh, bit, set_bit}
use ortc.Shared.FixedBigInt.Ops.{
  IsValid, bit-set_bit, bit-lsh, lsh-IsValid, lsh-n, set_bit-IsValid, set_bit-n,
}
use ortc.Shared.ReplayDetector.Wrapped.{WrappedSlidingWindowDetector, ℤ, check, wrapped_diff}
use ortc.Shared.ReplayDetector.Wrapped.Steps.{
  diff_behind, diff_ahead, diff_over, diff_back, check-marked,
}

-- A detector in use: the field has the window's size and the newest number is in range.
pub record IsRunning (d : WrappedSlidingWindowDetector) : Type 0 where
  pub valid : IsValid d.mask
  pub size : d.mask.n ≡ d.window_size
  pub init : d.init ≡ true
  pub bounds :
      (1 ≤ d.window_size) × (2 ≤ d.max_seq) × (d.latest_seq ≤ d.max_seq) × (d.max_seq < 2 ^ 63)

-- How far `b` lies ahead of `a` on the circle of the numbers up to `m`.
abbrev pub ahead_of : ℕ → ℕ → ℕ → ℕ
ahead_of m a b = if leb a b then b - a else b + m + 1 - a

pub diff_pos :
    (m latest seq : ℕ)
    → latest ≤ m
    → seq ≤ m
    → 2 ≤ m
    → ahead_of m seq latest < m / 2
    → wrapped_diff m latest seq ≡ ℤ.pos (ahead_of m seq latest)
diff_pos m latest seq a b two h = elim (Bool-cases (leb seq latest)) [
  | inl down ↦
      rw down (diff_behind m latest seq a (ground (arith, down)) (ground (arith, down, h)) two)
  | inr up ↦ rw up (diff_back m latest seq (ground (arith, up, h)) b two)
]

pub diff_neg :
    (m latest seq k : ℕ)
    → latest ≤ m
    → seq ≤ m
    → ahead_of m latest seq ≡ k + 1
    → k + 1 < m / 2
    → wrapped_diff m latest seq ≡ ℤ.negsuc k
diff_neg m latest seq k a b e h = elim (Bool-cases (leb latest seq)) [
  | inl up ↦
      diff_ahead m latest seq (ground (arith, up, e)) (ground (arith, up, e, h))
      ∙ ap ℤ.negsuc (ground (arith, up, e))
  | inr down ↦
      diff_over m latest seq (ground (arith, down)) (ground (arith, down, e, h)) a
      ∙ ap ℤ.negsuc (ground (arith, down, e))
]

-- The number `seq` is less than a window behind the newest one, and marked.
pub record Marked (m w seq : ℕ) (d : WrappedSlidingWindowDetector) : Type 0 where
  pub running : IsRunning d
  pub max : d.max_seq ≡ m
  pub window : d.window_size ≡ w
  pub inside : seq ≤ m
  pub near : ahead_of m seq d.latest_seq < w
  pub marked : bit d.mask (ahead_of m seq d.latest_seq) ≡ 1

-- A marked number is refused.
pub Marked-refused :
    {m w seq : ℕ} {d : WrappedSlidingWindowDetector}
    → w ≤ m / 2
    → Marked m w seq d
    → (check d seq).1 ≡ false
Marked-refused {m} {w} {seq} {d} half k =
    let b = k.running.bounds in
    let e : wrapped_diff d.max_seq d.latest_seq seq ≡ ℤ.pos (ahead_of m seq d.latest_seq) =
      ap (λ (n : ℕ). wrapped_diff n d.latest_seq seq) k.max
      ∙ diff_pos m d.latest_seq seq (omega (arith, b.2, k.max)) k.inside (omega (arith, b.1, k.max))
          (omega (arith, k.near)) in
    check-marked d seq (ahead_of m seq d.latest_seq) k.running.init (omega (arith, k.inside, k.max))
      e k.marked

-- More marks, and no move.
pub Marked-mark :
    {m w seq : ℕ} {d : WrappedSlidingWindowDetector} (x j : ℕ)
    → Marked m w seq d
    → Marked m w seq (record d { accepted = true; seq = x; mask = set_bit d.mask j })
Marked-mark {m} {w} {seq} {d} x j k =
    let n = set_bit-n d.mask j in
    let i = ahead_of m seq d.latest_seq in
    let in_window : i < d.mask.n = omega (arith, k.near, k.window, k.running.size) in
    record {
      running = record {
        valid = set_bit-IsValid d.mask j k.running.valid;
        size = n ∙ k.running.size;
        init = k.running.init;
        bounds = k.running.bounds;
      };
      max = k.max;
      window = k.window;
      inside = k.inside;
      near = k.near;
      marked = ground (arith, bit-set_bit d.mask j i k.running.valid in_window, k.marked);
    }

-- The head moves on to `x`, and the mark with it.
pub Marked-move :
    {m w seq : ℕ} {d : WrappedSlidingWindowDetector} (x k j : ℕ)
    → Marked m w seq d
    → x ≤ m
    → ahead_of m seq x ≡ ahead_of m seq d.latest_seq + (k + 1)
    → ahead_of m seq x < w
    → Marked m w seq (record d {
      accepted = true;
      seq = x;
      mask = set_bit (lsh d.mask (k + 1)) j;
      latest_seq = x;
    })
Marked-move {m} {w} {seq} {d} x k j h hx e near =
    let n = lsh-n d.mask (k + 1) in
    let moved = lsh d.mask (k + 1) in
    let valid = lsh-IsValid d.mask (k + 1) h.running.valid in
    let i = ahead_of m seq x in
    let in_window : i < d.mask.n = omega (arith, near, h.window, h.running.size) in
    let b = h.running.bounds in
    let back : ◌≡◌ {A = ℕ} (i - (k + 1)) (ahead_of m seq d.latest_seq) = omega (arith, e) in
    let old : bit moved i ≡ 1 =
      bit-lsh d.mask (k + 1) i h.running.valid in_window
      ∙ ground (arith, e, ap (bit d.mask) back, h.marked) in
    record {
      running = record {
        valid = set_bit-IsValid moved j valid;
        size = set_bit-n moved j ∙ n ∙ h.running.size;
        init = h.running.init;
        bounds = (b.0, b.1, omega (arith, hx, h.max), b.3);
      };
      max = h.max;
      window = h.window;
      inside = h.inside;
      near = near;
      marked = ground (arith, bit-set_bit moved j i valid (omega (arith, n, in_window)), old);
    }

-- What changes neither the mask nor the newest number keeps the mark.
pub Marked-same :
    {m w seq : ℕ} {d : WrappedSlidingWindowDetector} (e : WrappedSlidingWindowDetector)
    → (e.mask ≡ d.mask)
      × (e.latest_seq ≡ d.latest_seq)
      × (e.max_seq ≡ d.max_seq)
      × (e.window_size ≡ d.window_size)
      × (e.init ≡ d.init)
    → Marked m w seq d
    → Marked m w seq e
Marked-same {m} {w} {seq} {d} e (mask, latest, max, window, init) k = record {
  running = record {
    valid = subst IsValid (sym mask) k.running.valid;
    size = ap (λ x. x.n) mask ∙ k.running.size ∙ sym window;
    init = init ∙ k.running.init;
    bounds = omega (arith, k.running.bounds, latest, max, window);
  };
  max = max ∙ k.max;
  window = window ∙ k.window;
  inside = k.inside;
  near = rw latest k.near;
  marked = rw (mask, latest) k.marked;
}
