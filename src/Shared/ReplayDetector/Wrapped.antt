-- ===== src/Shared/ReplayDetector/Wrapped.antt =====
-- rtc-shared/src/replay_detector/mod.rs: WrappedSlidingWindowDetector, for numbers that start again
-- at 0 behind `max_seq`, and NoOpReplayDetector. An i64 is an integer; `none` is the panic of an
-- `assert!`.
pub mod Steps
pub mod Marks
pub mod Repeats
pub mod Streams
use ortc.Common.{
  ℕ, ◌+◌, ◌-◌, ◌*◌, ◌/◌, ◌%◌, ◌^◌, Bool, true, false, not, ◌&&◌, Option, none, some, ◌==◌, ltb, leb,
  if◌then◌else◌,
}
use ortc.Shared.FixedBigInt.{FixedBigInt, lsh, bit, set_bit}
use ortc.Shared.FixedBigInt

pub data ℤ : Type 0 where
  pos : ℕ → ℤ
  negsuc : ℕ → ℤ

abbrev minus : ℕ → ℕ → ℤ
minus a b = if leb b a then ℤ.pos (a - b) else ℤ.negsuc (b - a - 1)

abbrev minus_ℕ : ℤ → ℕ → ℤ
minus_ℕ (ℤ.pos a) n = minus a n
minus_ℕ (ℤ.negsuc a) n = ℤ.negsuc (a + n)

abbrev plus_ℕ : ℤ → ℕ → ℤ
plus_ℕ (ℤ.pos a) n = ℤ.pos (a + n)
plus_ℕ (ℤ.negsuc a) n = minus n (a + 1)

-- `z > n`, and `z <= -n`.
abbrev is_above : ℤ → ℕ → Bool
is_above (ℤ.pos a) n = ltb n a
is_above (ℤ.negsuc a) n = false

abbrev is_below_minus : ℤ → ℕ → Bool
is_below_minus (ℤ.pos a) n = a == 0 && n == 0
is_below_minus (ℤ.negsuc a) n = leb n (a + 1)

pub record WrappedSlidingWindowDetector : Type 0 where
  pub accepted : Bool
  pub seq : ℕ
  pub latest_seq : ℕ
  pub max_seq : ℕ
  pub window_size : ℕ
  pub mask : FixedBigInt
  pub init : Bool

unfoldable pub new : ℕ → ℕ → WrappedSlidingWindowDetector
new window_size max_seq = record {
  accepted = false;
  seq = 0;
  latest_seq = 0;
  max_seq = max_seq;
  window_size = window_size;
  mask = FixedBigInt.new window_size;
  init = false;
}

-- How far a number lies behind the newest one, the shorter way round.
unfoldable pub wrapped_diff : ℕ → ℕ → ℕ → ℤ
wrapped_diff max_seq latest_seq seq =
    let diff = minus latest_seq seq in
    if is_above diff (max_seq / 2)
    then minus_ℕ diff (max_seq + 1)
    else (if is_below_minus diff (max_seq / 2) then plus_ℕ diff (max_seq + 1) else diff)

-- The first check sets the newest number just before the number checked.
unfoldable pub initialise : WrappedSlidingWindowDetector → ℕ → WrappedSlidingWindowDetector
initialise d seq =
    if d.init
    then d
    else record d { latest_seq = if seq == 0 then d.max_seq else seq - 1; init = true }

-- `check` past its guard on the range.
unfoldable pub check_diff :
    WrappedSlidingWindowDetector → ℕ → ℤ → WrappedSlidingWindowDetector × Bool
check_diff d seq (ℤ.pos diff) =
    if leb d.window_size diff
    then (d, false)
    else (if not (bit d.mask diff == 0)
        then (d, false)
        else (record d { accepted = true; seq = seq }, true))
check_diff d seq (ℤ.negsuc k) = (record d { accepted = true; seq = seq }, true)

unfoldable pub check : WrappedSlidingWindowDetector → ℕ → WrappedSlidingWindowDetector × Bool
check d seq =
    let reset : WrappedSlidingWindowDetector = record d { accepted = false } in
    let started = initialise reset seq in
    if ltb d.max_seq seq
    then (reset, false)
    else check_diff started seq (wrapped_diff started.max_seq started.latest_seq seq)

-- `accept` from the difference on: the head of the window moves up to a newer number, then the
-- number is marked at the plain difference, a usize that wraps.
unfoldable pub accept_diff : WrappedSlidingWindowDetector → ℤ → Option WrappedSlidingWindowDetector
accept_diff d (ℤ.pos diff) =
    if ltb diff d.window_size
    then some (record d { mask = set_bit d.mask ((d.latest_seq + 2 ^ 64 - d.seq) % 2 ^ 64) })
    else none
accept_diff d (ℤ.negsuc k) = some (record d {
  mask = set_bit (lsh d.mask (k + 1)) ((d.seq + 2 ^ 64 - d.seq) % 2 ^ 64);
  latest_seq = d.seq;
})

unfoldable pub accept : WrappedSlidingWindowDetector → Option WrappedSlidingWindowDetector
accept d =
    if not d.accepted then some d else accept_diff d (wrapped_diff d.max_seq d.latest_seq d.seq)

-- NoOpReplayDetector takes every number.
unfoldable check_no_op : ℕ → Bool
check_no_op seq = true
