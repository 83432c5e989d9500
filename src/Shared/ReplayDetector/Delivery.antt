-- ===== src/Shared/ReplayDetector/Delivery.antt =====
-- What a stream of packets delivers past the sliding window.
use ortc.Common.{
  ℕ, ◌+◌, ◌%◌, ◌^◌, ◌≤◌, ◌<◌, ◌≡◌, refl, ap, Bool, true, false, ◌&&◌, List, [], ◌∷◌, Bool-cases,
  inl, inr, if◌then◌else◌, bit_of, arith, max,
}
use ortc.Common.Map.{count}
use ortc.Shared.ReplayDetector.{SlidingWindowDetector, new, check, accept, deliver}
use ortc.Shared.ReplayDetector.Window.{contains, Tracks, is_fresh, check-is_fresh, new-Tracks}
use ortc.Shared.ReplayDetector.Acceptance.{
  refused-Tracks, taken-Tracks, accept-Tracks, accept-fields, check-fields,
}

-- The numbers that the promise delivers, from the newest number and the numbers accepted so far.
unfoldable pub deliver_fresh : ℕ → ℕ → ℕ → List ℕ → List (ℕ × Bool) → List ℕ
unfolding is_fresh
deliver_fresh w m latest seen [] = []
deliver_fresh w m latest seen ((seq, authentic) ∷ l) =
    let ok = is_fresh w m latest seen seq && authentic in
    let rest =
      deliver_fresh w m (if ok then max latest seq else latest) (if ok then seq ∷ seen else seen)
        l in
    if ok then seq ∷ rest else rest

next-Tracks :
    (d : SlidingWindowDetector) (seen : List ℕ) (seq : ℕ) (authentic : Bool)
    → Tracks d seen
    → Tracks
        (if (check d seq).1 && authentic then accept (check d seq).0 else (check d seq).0)
        (if (check d seq).1 && authentic then seq ∷ seen else seen)
next-Tracks d seen seq authentic t = elim (Bool-cases (check d seq).1) [
  | inr e ↦ rw e (refused-Tracks d seen seq t e)
  | inl e ↦
      rw e
        (elim authentic
          as (λ b.
            Tracks (if b then accept (check d seq).0 else (check d seq).0)
              (if b then seq ∷ seen else seen)) [
                | true ↦ accept-Tracks d seen seq t e
                | false ↦ taken-Tracks d seen seq t e
              ])
]

check-contains :
    (d : SlidingWindowDetector) (seen : List ℕ) (seq : ℕ)
    → Tracks d seen
    → (check d seq).1 ≡ true
    → contains seq seen ≡ false
unfolding is_fresh
check-contains d seen seq t h = ground (arith, check-is_fresh d seen seq t, t.latest seq)

contains-eq : (t seq : ℕ) (seen : List ℕ) → t ≡ seq → contains t seen ≡ contains seq seen
contains-eq t seq seen e = ap (λ (n : ℕ). contains n seen) e

deliver-count :
    (t : ℕ) (d : SlidingWindowDetector) (seen : List ℕ) (l : List (ℕ × Bool))
    → Tracks d seen
    → count t (deliver d l) + bit_of (contains t seen) ≤ 1
unfolding deliver
deliver-count t d seen [] h = ground arith
deliver-count t d seen ((seq, authentic) ∷ l) h =
    let next = if (check d seq).1 && authentic then accept (check d seq).0 else (check d seq).0 in
    ground (
      arith,
      check-contains d seen seq h,
      contains-eq t seq seen,
      deliver-count t next (if (check d seq).1 && authentic then seq ∷ seen else seen) l
          (next-Tracks d seen seq authentic h),
    )

-- Of a stream of packets, no sequence number is delivered twice, for a window of at least one number
-- and no more than the range, whose size modulo 64 is at most 32; size and range together fit a u64.
pub deliver-once :
    (window_size max_seq t : ℕ) (l : List (ℕ × Bool))
    → 1 ≤ window_size
    → window_size % 64 ≤ 32
    → window_size ≤ max_seq
    → window_size + max_seq < 2 ^ 64
    → count t (deliver (new window_size max_seq) l) ≤ 1
deliver-once w m t l p h g o =
    omega (arith, deliver-count t (new w m) [] l (new-Tracks w m p h g o))

deliver-Tracks :
    (d : SlidingWindowDetector) (seen : List ℕ) (l : List (ℕ × Bool))
    → Tracks d seen
    → deliver d l ≡ deliver_fresh d.window_size d.max_seq d.latest_seq seen l
unfolding deliver deliver_fresh
deliver-Tracks d seen [] h = refl
deliver-Tracks d seen ((seq, authentic) ∷ l) h =
    let next = if (check d seq).1 && authentic then accept (check d seq).0 else (check d seq).0 in
    ground (
      arith,
      check-is_fresh d seen seq h,
      accept-fields d seq,
      check-fields d seq,
      deliver-Tracks next (if (check d seq).1 && authentic then seq ∷ seen else seen) l
          (next-Tracks d seen seq authentic h),
    )

-- What is delivered are exactly the authentic packets whose number, when it comes, is in range, has
-- not been delivered and lies less than a window behind the newest number delivered, under the same
-- conditions on the window.
pub deliver-fresh :
    (window_size max_seq : ℕ) (l : List (ℕ × Bool))
    → 1 ≤ window_size
    → window_size % 64 ≤ 32
    → window_size ≤ max_seq
    → window_size + max_seq < 2 ^ 64
    → deliver (new window_size max_seq) l ≡ deliver_fresh window_size max_seq 0 [] l
unfolding new
deliver-fresh w m l p h g o = deliver-Tracks (new w m) [] l (new-Tracks w m p h g o)
