-- ===== src/Shared/ReplayDetector/Wrapped/Streams.antt =====
-- A number that was accepted, when it comes again behind a stream of other packets, under the
-- detector that wraps; `offer` is what rtc-srtp/src/context/srtp.rs makes of the detector for a
-- packet, which is authentic if it can be decrypted.
use ortc.Common.{
  ℕ, ◌+◌, ◌/◌, ◌≤◌, ◌<◌, ◌≡◌, Bool, ◌&&◌, Option, none, some, List, [], ◌∷◌, if◌then◌else◌, ◌⊎◌,
}
use ortc.Shared.ReplayDetector.Wrapped.{
  WrappedSlidingWindowDetector, ℤ, check, accept, wrapped_diff,
}
use ortc.Shared.ReplayDetector.Wrapped.Marks.{ahead_of}

-- A packet with its number, and whether it is authentic: a number that passes the check is accepted
-- if the packet is.
unfoldable offer : WrappedSlidingWindowDetector → ℕ × Bool → Option WrappedSlidingWindowDetector
unfolding check accept
offer d (seq, authentic) =
    let (checked, ok) = check d seq in if ok && authentic then accept checked else some checked

abbrev then_offer :
    (WrappedSlidingWindowDetector → Option WrappedSlidingWindowDetector)
    → Option WrappedSlidingWindowDetector
    → Option WrappedSlidingWindowDetector
then_offer f none = none
then_offer f (some d) = f d

-- The detector after a stream of packets; `none` is the panic of an `assert!`.
unfoldable pub offer_all :
    List (ℕ × Bool) → WrappedSlidingWindowDetector → Option WrappedSlidingWindowDetector
unfolding offer
offer_all [] d = some d
offer_all (p ∷ l) d = then_offer (offer_all l) (offer d p)

-- A number beyond the range, less than a window ahead of `seq`, or behind `seq` by no more than half
-- the range less a window.
abbrev pub Stays : ℕ → ℕ → ℕ → ℕ → Type 0
Stays m w seq x = (m < x) ⊎ ((ahead_of m seq x < w) ⊎ (ahead_of m x seq + w ≤ m / 2))

-- What such a number in range is to a detector that has `seq` marked: behind the newest number, or
-- ahead of it with `seq` still in the window.
abbrev Placed : ℕ → ℕ → ℕ → WrappedSlidingWindowDetector → ℕ → Type 0
Placed m w seq d x =
    ((k : ℕ) × (wrapped_diff d.max_seq d.latest_seq x ≡ ℤ.pos k))
    ⊎ ((k : ℕ) × (wrapped_diff d.max_seq d.latest_seq x ≡ ℤ.negsuc k)
        × (ahead_of m seq x ≡ ahead_of m seq d.latest_seq + (k + 1))
        × (ahead_of m seq x < w))

-- The mask, the newest number and the sizes are the same.
abbrev SameWindow : WrappedSlidingWindowDetector → WrappedSlidingWindowDetector → Type 0
SameWindow d e =
    (e.mask ≡ d.mask)
    × (e.latest_seq ≡ d.latest_seq)
    × (e.max_seq ≡ d.max_seq)
    × (e.window_size ≡ d.window_size)
    × (e.init ≡ d.init)
