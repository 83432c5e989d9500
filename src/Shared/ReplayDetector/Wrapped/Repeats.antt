-- ===== src/Shared/ReplayDetector/Wrapped/Repeats.antt =====
-- A number that comes again after it was accepted, under the detector that wraps.
use ortc.Common.{
  ℕ, ◌+◌, ◌-◌, ◌/◌, ◌%◌, ◌^◌, ◌≤◌, ◌<◌, ◌≡◌, refl, ap, ◌∙◌, true, some, arith, leb, Bool-cases, inl,
  inr,
}
use ortc.Shared.FixedBigInt.{lsh, bit, set_bit}
use ortc.Shared.FixedBigInt.Ops.{bit-set_bit, lsh-IsValid, lsh-n, set_bit-IsValid, set_bit-n}
use ortc.Shared.ReplayDetector.Wrapped.{
  WrappedSlidingWindowDetector, ℤ, check, accept, wrapped_diff,
}
use ortc.Shared.ReplayDetector.Wrapped.Steps.{
  diff_behind, diff_ahead, diff_over, diff_back, check-behind, check-ahead, accept-behind,
  accept-ahead, set_bit_out, check-passed,
}
use ortc.Shared.ReplayDetector.Wrapped.Marks.{IsRunning, ahead_of, Marked}

-- A number in range from before the numbers started again at 0, less than a window behind the newest
-- one and not marked, is accepted by a detector in use, and the same number is accepted again, since
-- it was not marked.
pub accept-wrapped :
    (d : WrappedSlidingWindowDetector) (seq : ℕ)
    → IsRunning d
    → d.latest_seq + d.max_seq / 2 ≤ seq
    → seq ≤ d.max_seq
    → d.latest_seq + d.max_seq + 1 < d.window_size + seq
    → bit d.mask (d.latest_seq + d.max_seq + 1 - seq) ≡ 0
    → d.window_size < 2 ^ 63
    → ((check d seq).1 ≡ true)
      × ((e : WrappedSlidingWindowDetector) × (accept (check d seq).0 ≡ some e)
          × ((check e seq).1 ≡ true))
accept-wrapped d seq r a b c z w =
    let k = d.latest_seq + d.max_seq + 1 - seq in
    let j = (d.latest_seq + 2 ^ 64 - seq) % 2 ^ 64 in
    let e = diff_back d.max_seq d.latest_seq seq a b r.bounds.1 in
    let first = check-behind d seq k r.init b e (omega arith) z in
    let out = set_bit_out d.mask j (ground (arith, r.size, r.bounds)) in
    let next : WrappedSlidingWindowDetector = record d {
      accepted = true;
      seq = seq;
      mask = set_bit d.mask j;
    } in
    let second = check-behind next seq k r.init b e (omega arith) (ap (λ m. bit m k) out ∙ z) in
    (
      ap (λ p. p.1) first,
      (
        next,
        ap (λ p. accept p.0) first ∙ accept-behind d seq k e (omega arith),
        ap (λ p. p.1) second,
      ),
    )

-- The number `seq` is accepted, and marked then.
abbrev pub AcceptsMarked : ℕ → ℕ → ℕ → WrappedSlidingWindowDetector → Type 0
AcceptsMarked m w seq d =
    (e : WrappedSlidingWindowDetector) × (accept (check d seq).0 ≡ some e) × Marked m w seq e

AcceptsMarked-behind :
    (d : WrappedSlidingWindowDetector) (seq : ℕ)
    → IsRunning d
    → seq ≤ d.latest_seq
    → d.latest_seq ≤ seq + d.max_seq / 2
    → (check d seq).1 ≡ true
    → AcceptsMarked d.max_seq d.window_size seq d
AcceptsMarked-behind d seq r a b c =
    let k = d.latest_seq - seq in
    let j = (d.latest_seq + 2 ^ 64 - seq) % 2 ^ 64 in
    let e = diff_behind d.max_seq d.latest_seq seq r.bounds.2 a b r.bounds.1 in
    let h : seq ≤ d.max_seq = omega (arith, r.bounds.2) in
    let (p, q) = check-passed d seq k r.init h e c in
    let first = check-behind d seq k r.init h e p q in
    let set = bit-set_bit d.mask j k r.valid (omega (arith, p, r.size)) in
    let here : ahead_of d.max_seq seq d.latest_seq ≡ k = ground (arith, a) in
    (
      record d { accepted = true; seq = seq; mask = set_bit d.mask j },
      ap (λ p. accept p.0) first ∙ accept-behind d seq k e p,
      record {
        running = record {
          valid = set_bit-IsValid d.mask j r.valid;
          size = set_bit-n d.mask j ∙ r.size;
          init = r.init;
          bounds = r.bounds;
        };
        max = refl;
        window = refl;
        inside = h;
        near = omega (arith, here, p);
        marked = ap (bit (set_bit d.mask j)) here ∙ ground (arith, set, r.bounds);
      },
    )

AcceptsMarked-ahead :
    (d : WrappedSlidingWindowDetector) (seq k : ℕ)
    → IsRunning d
    → seq ≤ d.max_seq
    → wrapped_diff d.max_seq d.latest_seq seq ≡ ℤ.negsuc k
    → AcceptsMarked d.max_seq d.window_size seq d
AcceptsMarked-ahead d seq k r h e =
    let moved = lsh d.mask (k + 1) in
    let valid = lsh-IsValid d.mask (k + 1) r.valid in
    let j = (seq + 2 ^ 64 - seq) % 2 ^ 64 in
    let n = lsh-n d.mask (k + 1) in
    let set = bit-set_bit moved j 0 valid (omega (arith, n, r.size, r.bounds.0)) in
    let here : ahead_of d.max_seq seq seq ≡ 0 = ground arith in
    (
      record d { accepted = true; seq = seq; mask = set_bit moved j; latest_seq = seq },
      ap (λ p. accept p.0) (check-ahead d seq k r.init h e) ∙ accept-ahead d seq k e,
      record {
        running = record {
          valid = set_bit-IsValid moved j valid;
          size = set_bit-n moved j ∙ n ∙ r.size;
          init = r.init;
          bounds = (r.bounds.0, r.bounds.1, h, r.bounds.3);
        };
        max = refl;
        window = refl;
        inside = h;
        near = omega (arith, here, r.bounds.0);
        marked = ap (bit (set_bit moved j)) here ∙ ground (arith, set, h, r.bounds);
      },
    )

pub check-AcceptsMarked :
    (d : WrappedSlidingWindowDetector) (seq : ℕ)
    → IsRunning d
    → seq ≤ d.max_seq
    → seq < d.latest_seq + d.max_seq / 2
    → (check d seq).1 ≡ true
    → AcceptsMarked d.max_seq d.window_size seq d
check-AcceptsMarked d seq r h g c = elim (Bool-cases (leb seq d.latest_seq)) [
  | inr up ↦
      AcceptsMarked-ahead d seq _ r h (diff_ahead d.max_seq d.latest_seq seq (ground (arith, up)) g)
  | inl down ↦ elim (Bool-cases (leb d.latest_seq (seq + d.max_seq / 2))) [
    | inl near ↦ AcceptsMarked-behind d seq r (ground (arith, down)) (ground (arith, near)) c
    | inr far ↦ AcceptsMarked-ahead d seq _ r h (
        diff_over d.max_seq d.latest_seq seq (ground (arith, down)) (ground (arith, far))
          r.bounds.2)
  ]
]
