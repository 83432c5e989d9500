-- ===== src/Shared/ReplayDetector.antt =====
-- rtc-shared/src/replay_detector/mod.rs: the detectors of replayed packets. `check` tells whether a
-- sequence number may be taken, `accept` marks the number of the last check as received.
pub mod Window
pub mod Acceptance
pub mod Wrapped
pub mod Delivery
use ortc.Common.{
  ℕ, ◌+◌, ◌-◌, ◌*◌, ◌/◌, ◌%◌, ◌^◌, Bool, true, false, not, ◌==◌, ltb, leb, if◌then◌else◌, ◌&&◌,
  List, [], ◌∷◌,
}
use ortc.Shared.FixedBigInt.{FixedBigInt, lsh, bit, set_bit}
use ortc.Shared.FixedBigInt

pub record SlidingWindowDetector : Type 0 where
  pub accepted : Bool
  pub seq : ℕ
  pub latest_seq : ℕ
  pub max_seq : ℕ
  pub window_size : ℕ
  pub mask : FixedBigInt

unfoldable pub new : ℕ → ℕ → SlidingWindowDetector
new window_size max_seq = record {
  accepted = false;
  seq = 0;
  latest_seq = 0;
  max_seq = max_seq;
  window_size = window_size;
  mask = FixedBigInt.new window_size;
}

unfoldable pub check : SlidingWindowDetector → ℕ → SlidingWindowDetector × Bool
check d seq =
    let refused : SlidingWindowDetector × Bool = (record d { accepted = false }, false) in
    let taken : SlidingWindowDetector × Bool = (record d { accepted = true; seq = seq }, true) in
    if ltb d.max_seq seq
    then refused
    else (if leb seq d.latest_seq
        then (if leb ((d.window_size + seq) % 2 ^ 64) d.latest_seq
            then refused
            else (if not (bit d.mask (d.latest_seq - seq) == 0) then refused else taken))
        else taken)

-- The two halves of `accept`: the head of the window moves up to a newer number, and the number is
-- marked.
unfoldable pub move_head : SlidingWindowDetector → SlidingWindowDetector
move_head d =
    if ltb d.latest_seq d.seq
    then record d { mask = lsh d.mask (d.seq - d.latest_seq); latest_seq = d.seq }
    else d

unfoldable pub mark : SlidingWindowDetector → SlidingWindowDetector
mark d = record d { mask = set_bit d.mask ((d.latest_seq - d.seq) % d.max_seq) }

unfoldable pub accept : SlidingWindowDetector → SlidingWindowDetector
accept d = if not d.accepted then d else mark (move_head d)

-- A stream of packets, each with its sequence number and whether it is authentic: a packet is
-- marked when the check passes and it is authentic. The numbers that are delivered.
unfoldable pub deliver : SlidingWindowDetector → List (ℕ × Bool) → List ℕ
unfolding check accept
deliver d [] = []
deliver d ((seq, authentic) ∷ l) =
    let (checked, ok) = check d seq in
    let rest = deliver (if ok && authentic then accept checked else checked) l in
    if ok && authentic then seq ∷ rest else rest
