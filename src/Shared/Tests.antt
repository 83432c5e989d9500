-- ===== src/Shared/Tests.antt =====
-- Runs of the replay detectors.
use ortc.Common.{
  ℕ, ◌-◌, ◌<◌, ltb, if◌then◌else◌, ◌≤◌, ◌≡◌, refl, Bool, true, false, Option, some, List, [], ◌∷◌,
  arith,
}
use ortc.Common.Map.{count}
use ortc.Shared.FixedBigInt
use ortc.Shared.FixedBigInt.Ops.{new-IsValid, new-n, bit-new, bit-lsh}
use ortc.Shared.ReplayDetector
use ortc.Shared.ReplayDetector.Delivery.{deliver_fresh, deliver-once, deliver-fresh}
use ortc.Shared.ReplayDetector.Wrapped
use ortc.Shared.ReplayDetector.Wrapped.Marks.{IsRunning}
use ortc.Shared.ReplayDetector.Wrapped.Repeats.{accept-wrapped}

-- Late, repeated and forged packets.
abbrev packets : List (ℕ × Bool)
packets = (5, true) ∷ (7, true) ∷ (5, true) ∷ (6, false) ∷ (6, true) ∷ []

deliver-packets : ReplayDetector.deliver (ReplayDetector.new 64 1000) packets ≡ 5 ∷ 7 ∷ 6 ∷ []
unfolding ReplayDetector.deliver ReplayDetector.new ReplayDetector.mark ReplayDetector.move_head
    FixedBigInt.bit FixedBigInt.set_bit FixedBigInt.lsh FixedBigInt.new FixedBigInt.lsh_loop
    ortc.Common.Bits.shl FixedBigInt.carry
deliver-packets = refl

-- A window of 48 numbers keeps the marks of no more than 16: a number is delivered again.
deliver_window_of_48 :
    ReplayDetector.deliver (ReplayDetector.new 48 1000) ((1, true) ∷ (40, true) ∷ (1, true) ∷ [])
    ≡ 1 ∷ 40 ∷ 1 ∷ []
unfolding ReplayDetector.deliver ReplayDetector.new ReplayDetector.mark ReplayDetector.move_head
    FixedBigInt.bit FixedBigInt.set_bit FixedBigInt.lsh FixedBigInt.new FixedBigInt.lsh_loop
    ortc.Common.Bits.shl FixedBigInt.carry
deliver_window_of_48 = refl

deliver-once_example : count 5 (ReplayDetector.deliver (ReplayDetector.new 64 1000) packets) ≤ 1
deliver-once_example =
    deliver-once 64 1000 5 packets (omega arith) (omega arith) (omega arith) (omega arith)

deliver-fresh_example :
    ReplayDetector.deliver (ReplayDetector.new 64 1000) packets ≡ deliver_fresh 64 1000 0 [] packets
deliver-fresh_example =
    deliver-fresh 64 1000 packets (omega arith) (omega arith) (omega arith) (omega arith)

-- A detector of RTP numbers that stands at 2.
abbrev at_two : Wrapped.WrappedSlidingWindowDetector
at_two = record {
  accepted = false;
  seq = 0;
  latest_seq = 2;
  max_seq = 65535;
  window_size = 64;
  mask = FixedBigInt.new 64;
  init = true;
}

at_two-IsRunning : IsRunning at_two
unfolding FixedBigInt.new
at_two-IsRunning = record {
  valid = new-IsValid 64 (omega arith);
  size = refl;
  init = refl;
  bounds = (omega arith, omega arith, omega arith, omega arith);
}

accept-wrapped_example :
    ((Wrapped.check at_two 65534).1 ≡ true)
    × ((e : Wrapped.WrappedSlidingWindowDetector) × (Wrapped.accept (Wrapped.check at_two 65534).0
          ≡ some e)
        × ((Wrapped.check e 65534).1 ≡ true))
accept-wrapped_example =
    accept-wrapped at_two 65534 at_two-IsRunning (omega arith) (omega arith) (omega arith)
      (bit-new 64 4) (omega arith)

-- A newer number, a late one from before the numbers started again, and one beyond the range.
abbrev between : List (ℕ × Bool)
between = (30, true) ∷ (65534, true) ∷ (70000, false) ∷ []

bit-lsh_example :
    FixedBigInt.bit (FixedBigInt.lsh (FixedBigInt.new 64) 3) 5
    ≡ (if ltb 5 3 then 0 else FixedBigInt.bit (FixedBigInt.new 64) (5 - 3))
bit-lsh_example = bit-lsh (FixedBigInt.new 64) 3 5 (new-IsValid 64 (omega arith)) (new-n_lt)
  where
    new-n_lt : 5 < (FixedBigInt.new 64).n
    new-n_lt = omega (arith, new-n 64)
